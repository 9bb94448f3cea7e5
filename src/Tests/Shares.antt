-- ===== src/Tests/Shares.antt =====
-- Sockets of proj1 that share a counter, and a service, on concrete inputs.
use networking.Prelude.{
  ◌≡◌, refl, List, [], ◌∷◌, true, false, none, some, arith, pos, ◌==◌, if◌then◌else◌, inl, inr,
}
use networking.Socket.{Memory}
use networking.SyncSocket.{SyncSocket, Peer, unconnected, destroy, assign, connect, thrown}
use networking.SyncSocket.Owners.{IsShared, destroy-IsShared, assign-IsShared}
use networking.SyncSocket.Connecting.{connect_refused}
use networking.Socket.Candidates.{Candidate}
use networking.Service.{new_service, add_port}
use networking.Service.Ports.{Accounted, add_port-Accounted}

-- Two sockets share the counter at the address 0, one has that at the address 1, and one is not
-- connected.
abbrev first : SyncSocket
first = record { fd = pos 4; refs = some 0; conn = true; tcp = true; src = none; len = 0 }

abbrev second : SyncSocket
second = record { fd = pos 5; refs = some 1; conn = true; tcp = true; src = none; len = 0 }

abbrev memory : Memory
memory = record {
  counts = λ a. if a == 0 then some 2 else if a == 1 then some 1 else none;
  next = 2;
  closed = [];
}

memory-IsShared : IsShared (first ∷ second ∷ first ∷ unconnected ∷ []) memory
memory-IsShared = record {
  few = omega arith;
  counted = λ a. ground arith;
  shared = (inr (refl, 0, refl), (inr (refl, 1, refl), (inr (refl, 0, refl), (inl refl, tt))));
}

destroy-IsShared_example :
    (m' : Memory) × (destroy second memory ≡ some m')
    × IsShared (first ∷ first ∷ unconnected ∷ []) m'
    × (m'.closed ≡ pos 5 ∷ [])
destroy-IsShared_example =
    destroy-IsShared (first ∷ []) second (first ∷ unconnected ∷ []) memory memory-IsShared

assign-IsShared_example :
    (m' : Memory) × (assign second first memory ≡ some (first, m'))
    × IsShared (first ∷ first ∷ first ∷ unconnected ∷ []) m'
    × (m'.closed ≡ pos 5 ∷ [])
assign-IsShared_example =
    assign-IsShared (first ∷ []) second (first ∷ unconnected ∷ []) memory memory-IsShared first
      (inr (refl, 0, refl, omega arith))

-- Two addresses that refuse the connection.
abbrev refusing : List Peer
refusing =
    record { fd = pos 6; connected = false; addr = [] }
    ∷ record { fd = pos 7; connected = false; addr = [] }
    ∷ []

connect_refused_example :
    (m' : Memory) × (connect first true refusing memory ≡ thrown (record first { fd = pos 7 }) m')
    × (m'.closed ≡ pos 6 ∷ pos 7 ∷ [])
    × (m'.counts 0 ≡ some 1)
    × (IsShared (record first { fd = pos 7 } ∷ second ∷ first ∷ unconnected ∷ []) m' → ⊥)
connect_refused_example =
    connect_refused [] first (second ∷ first ∷ unconnected ∷ []) memory refusing 0 memory-IsShared
      refl (omega arith) ((refl, refl), ((refl, refl), tt))

-- One address that cannot be bound, and one that can.
abbrev addresses : List Candidate
addresses =
    record { fd = pos 8; reusable = true; bound = false }
    ∷ record { fd = pos 9; reusable = true; bound = true }
    ∷ []

add_port-Accounted_example :
    Accounted 80 new_service
      (pos 8 ∷ pos 9 ∷ [])
      (add_port 80 true (pos 0) addresses new_service memory)
add_port-Accounted_example = add_port-Accounted 80 true addresses new_service memory
