-- ===== src/Tests/Wire.antt =====
-- Send, Recv, the operators of Stream and messages on concrete inputs.
use networking.Prelude.{ℕ, ◌≡◌, refl, List, [], ◌∷◌, Bool, true, Option, none, some, arith, codes}
use networking.Transfer.{
  Outcome, failed, moved, returned, Conn, send, recv, Steady, send_delivers, recv_delivers,
}
use networking.Stream.Io.{Io, Writes, Reads}
use networking.Stream.Numbers.{put_unsigned_short, get_unsigned_short, put_unsigned_short-Carries}
use networking.Message.{Classes, start, register, put_message, get_message}
use networking.Message.Registry.{
  IsConsistent, register_all, register_all-IsConsistent, get_message-put_message,
}

-- Five bytes go out in pieces of 2, 2 and 1, and come in likewise.
abbrev pieces : List Outcome
pieces = moved 2 ∷ moved 2 ∷ moved 7 ∷ moved 1 ∷ moved 1 ∷ []

abbrev line : Conn
line = record { sends = pieces; outgoing = codes "x"; recvs = pieces; incoming = codes "helloyz" }

send_delivers_example :
    (ret : Option ℕ) × (calls : List Outcome) × (send (codes "hello") line
      ≡ returned (ret, record line { sends = calls; outgoing = codes "xhello" }))
    × Steady 0 calls
send_delivers_example =
    send_delivers 0 (codes "hello") line (omega arith) (omega arith, ground arith)

abbrev failure : Option ℕ
failure = none

abbrev broken : Conn
broken = record line { sends = moved 2 ∷ failed ∷ [] }

recv_delivers_example :
    (ret : Option ℕ) × (calls : List Outcome) × (recv 5 line
      ≡ returned (ret, codes "hello", record line { recvs = calls; incoming = codes "yz" }))
    × Steady 0 calls
recv_delivers_example =
    recv_delivers 0 (codes "hello") (codes "yz") line (omega arith) refl (omega arith, ground arith)

-- Messages are one unsigned short.
abbrev serialize : ℕ → ℕ → Io (Unit {0})
serialize id body = put_unsigned_short body

abbrev deserialize : ℕ → Io ℕ
deserialize id = get_unsigned_short

abbrev any_class : ℕ → Bool
any_class id = true

-- The classes 11 and 22 are registered.
abbrev classes : Classes
classes = register_all (11 ∷ 22 ∷ []) start

classes-IsConsistent : IsConsistent classes
classes-IsConsistent = register_all-IsConsistent (11 ∷ 22 ∷ []) (omega arith)

get_message-put_message_example :
    (bytes : List ℕ) × Writes (put_message serialize deserialize any_class classes (22, 500)) bytes
    × Reads (get_message serialize deserialize any_class classes) bytes (some (22, 500))
unfolding register start
get_message-put_message_example =
    get_message-put_message serialize deserialize any_class classes 22 1 500 classes-IsConsistent
      refl refl (put_unsigned_short-Carries 500 (omega arith))
