-- ===== src/Chain/Stone.antt =====
-- A stepping stone: proj2/ss.c. Text on the standard streams is left out, but for what sprintf puts
-- into a buffer.
pub mod Request
pub mod Reply
pub mod Forward
pub mod Connection
pub mod Stages
pub mod Closing
use networking.Prelude.{
  ℕ, zero, suc, ◌+◌, ◌-◌, ◌%◌, ◌^◌, List, [], ◌∷◌, ◌++◌, Bool, true, false, not, ltb, ◌==◌,
  if◌then◌else◌, Option, none, some, length, take, drop, min, codes, decimal, ℤ, pos, negsuc,
}
use networking.Transfer.{Conn}
use networking.Socket.Candidates.{Peer}
use networking.Chain.{
  ListHeader, ListElement, filename_max, header_size, element_size, file_header_size, text_in,
  read32, header_bytes, element_bytes, file_header_bytes,
}
use networking.Chain.Calls.{
  Ends, Result, ok, exited, waiting, undefined, Act, pure, ◌>>=◌, ◌>>◌, crash, recv_prev, send_prev,
  recv_next, send_next, sprintf, close_prev, close_next, dump_one, dump_two, or_crash, or_dump_one,
  or_dump_two,
}

abbrev is_negative : ℤ → Bool
is_negative (pos _) = false
is_negative (negsuc _) = true

-- The loop of next_ss: the descriptor of the first connection, and those that stay open.
unfoldable pub connect_one : List Peer → List ℤ → Option ℤ × List ℤ
connect_one [] left = (none, left)
connect_one (p ∷ ps) left =
    let next = connect_one ps left in
    let leak = connect_one ps (left ++ p.fd ∷ []) in
    if is_negative p.fd then next else if not p.connected then leak else (some p.fd, left)

-- next_ss: only -1 counts as a failure of getaddrinfo. After another failure `servs` has no value,
-- which is `none` here; none inside is the result -1.
unfoldable pub next_ss : ℤ → List Peer → Option (Option ℤ × List ℤ)
unfolding connect_one
next_ss (pos zero) peers = some (connect_one peers [])
next_ss (negsuc zero) peers = some (none, [])
next_ss _ peers = none

-- A text in an array, for `%s` and for getaddrinfo.
unfoldable pub text : List ℕ → Act (List ℕ)
text array = or_crash (text_in array)

-- The structs from the bytes that recv has written over them. A byte that was not received has no
-- defined value.
unfoldable pub to_header : List ℕ → Act ListHeader
to_header (v ∷ a ∷ b ∷ c ∷ d ∷ name) =
    if length name == filename_max
    then pure (record { version = v; l_size = read32 a b c d; f_name = name })
    else crash
to_header _ = crash

unfoldable pub to_element : List ℕ → Act ListElement
to_element [] = crash
to_element (v ∷ rest) =
    if length rest == 264
    then pure (record { version = v; host = take 256 rest; port = drop 256 rest })
    else crash

unfoldable pub to_file_header : List ℕ → Act (ℕ × ℕ)
to_file_header (v ∷ a ∷ b ∷ c ∷ d ∷ []) = pure (v, read32 a b c d)
to_file_header _ = crash

abbrev pub pair_text : List ℕ → List ℕ → List ℕ
pair_text host port = codes "<" ++ (host ++ (codes ", " ++ (port ++ codes ">\n")))

-- What is at an index of the list, and the list without it.
abbrev pub pick : List ListElement → ℕ → Option ListElement
pick [] i = none
pick (e ∷ es) zero = some e
pick (e ∷ es) (suc i) = pick es i

-- One element: the array has 1024.
unfoldable pub recv_element : ℕ → Act ListElement
unfolding to_element text
recv_element i = do
  received ← recv_prev element_size
  bytes ← or_dump_one received
  element ← if ltb i 1024 then to_element bytes else crash
  host ← text element.host
  port ← text element.port
  sprintf (codes " " ++ pair_text host port)
  pure element

-- The loop over the list, from the index `i` on.
unfoldable pub recv_list : ℕ → ℕ → Act (List ListElement)
unfolding recv_element
recv_list zero i = pure []
recv_list (suc left) i = do
  element ← recv_element i
  rest ← recv_list left (i + 1)
  pure (element ∷ rest)

-- The loop that passes the list on, without the element `next`. `send` may take fewer bytes.
unfoldable pub send_list : List ListElement → ℕ → ℕ → Act (Unit {0})
send_list [] i next = pure tt
send_list (e ∷ es) i next = do
  let rest = send_list es (i + 1) next
  let this = (do sent ← send_next (element_bytes e); n ← or_dump_two sent; rest)
  if i == next then rest else this

-- The loop that passes the file on, with `missing` bytes to go; each round is a call of the schedule.
unfoldable pub relay_file : ℕ → ℕ → Act (Unit {0})
relay_file calls zero e = ok tt e
relay_file zero (suc missing) e = waiting
relay_file (suc calls) (suc missing) e =
    (do
      received ← recv_next 8192
      bytes ← or_dump_two received
      sent ← send_prev bytes
      n ← or_dump_two sent
      relay_file calls (suc missing - length bytes))
      e

-- The end of curr_ss: the header of the file, the file, and `close(fd)`.
unfoldable pub relay : Act (Unit {0})
unfolding to_file_header relay_file
relay = do
  received ← recv_next file_header_size
  bytes ← or_dump_two received
  (version, f_size) ← to_file_header bytes
  sent ← send_prev (file_header_bytes version f_size)
  n ← or_dump_two sent
  (λ e. relay_file (length e.next.recvs) f_size e)
  close_next

-- `connects` is what getaddrinfo, socket and connect do for a host and a port.
unfoldable pub open_next : (List ℕ → List ℕ → ℤ × List Peer) → List ℕ → List ℕ → Act (Unit {0})
unfolding next_ss
open_next connects host port e =
    let found = connects host port in
    elim (next_ss found.0 found.1) [
      | none ↦ undefined
      | some (none, left) ↦
          exited (record e { closed_prev = suc e.closed_prev; leaked = e.leaked ++ left })
      | some (some fd, left) ↦ ok tt (record e { opened = true; leaked = e.leaked ++ left })
    ]

-- The first text in the buffer, with the globals `m_host` and `m_port`.
abbrev pub start_log : List ℕ → List ℕ → List ℕ → List ℕ
start_log m_host m_port name =
    codes "ss <"
    ++ (m_host
        ++ (codes ", "
            ++ (m_port ++ (codes ">:\n Request: " ++ (name ++ codes "\n chainlist is\n")))))

-- The loop of last_ss over the bytes that are left; each round is a call of the schedule. An error
-- ends it.
unfoldable pub send_file : ℕ → List ℕ → Act (Unit {0})
send_file calls [] e = ok tt e
send_file zero (b ∷ bs) e = waiting
send_file (suc calls) (b ∷ bs) e =
    (do
      sent ← send_prev (take 8192 (b ∷ bs))
      elim sent [ none ↦ pure tt | some n ↦ send_file calls (drop n (b ∷ bs)) ])
      e

abbrev pub file_name : ℕ → List ℕ
file_name s = codes "file_" ++ (decimal s ++ codes ".tmp")

-- snprintf cuts the command to 255 characters.
abbrev pub command : ℕ → List ℕ → List ℕ
command s name =
    take 255 (
      codes "wget " ++ (name ++ (codes " --output-document=" ++ (file_name s ++ codes " --quiet"))))

-- The file that wget has brought, if it could be opened. A file of length 0 cannot be mapped.
unfoldable pub send_mapped : Option (List ℕ) → Act (Unit {0})
unfolding send_file
send_mapped none = pure tt
send_mapped (some []) = pure tt
send_mapped (some (b ∷ bs)) = do
  sent ← send_prev (file_header_bytes 1 (length (b ∷ bs) % 2 ^ 32))
  elim sent [ none ↦ pure tt | some _ ↦ (λ e. send_file (length e.prev.sends) (b ∷ bs) e) ]

-- `fetch` takes the command line of wget and the name of its output file, and gives the file.
unfoldable pub last_ss : (List ℕ → List ℕ → Option (List ℕ)) → ℕ → List ℕ → Act (Unit {0})
unfolding send_mapped text
last_ss fetch s f_name = do name ← text f_name; send_mapped (fetch (command s name) (file_name s))

-- The loop that receives the header, with `missing` bytes to go and `got` received.
unfoldable pub recv_header : ℕ → ℕ → List ℕ → Act (List ℕ)
recv_header calls zero got e = ok got e
recv_header zero (suc missing) got e = waiting
recv_header (suc calls) (suc missing) got e =
    (do
      received ← recv_prev (suc missing)
      bytes ← or_dump_one received
      recv_header calls (suc missing - length bytes) (got ++ bytes))
      e

-- `rand` is what the function rand returns.
module _ (connects : List ℕ → List ℕ → ℤ × List Peer) (rand : ℕ) (m_host m_port : List ℕ) where
  -- From the choice of the next stone to the header that goes to it.
  unfoldable pub forward : ListHeader → List ListElement → Act (Unit {0})
  unfolding open_next text
  forward list_h list = do
    element ← or_crash (pick list (rand % list_h.l_size))
    host ← text element.host
    port ← text element.port
    sprintf (codes " next SS is " ++ pair_text host port)
    open_next connects host port
    sprintf (codes " waiting for file...\n")
    sent ← send_next (header_bytes (record list_h { l_size = list_h.l_size - 1 }))
    n ← or_dump_two sent
    if n == header_size then pure tt else dump_two

  unfoldable pub curr_ss : ListHeader → Act (Unit {0})
  unfolding recv_list forward send_list relay text
  curr_ss list_h = do
    name ← text list_h.f_name
    (λ e. sprintf (start_log m_host m_port name) (record e { buffer = [] }))
    list ← recv_list list_h.l_size 0
    forward list_h list
    send_list list 0 (rand % list_h.l_size)
    relay

  -- The thread of a connection on the descriptor `s`.
  unfoldable pub connection : (List ℕ → List ℕ → Option (List ℕ)) → ℕ → Act (Unit {0})
  unfolding recv_header curr_ss last_ss to_header
  connection fetch s = do
    bytes ← (λ e. recv_header (length e.prev.recvs) header_size [] e)
    list_h ← to_header bytes
    if list_h.l_size == 0 then last_ss fetch s list_h.f_name else curr_ss list_h
    close_prev
