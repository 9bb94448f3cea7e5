-- ===== src/Tests/Sockets.antt =====
-- Sockets and their owners on concrete inputs.
use networking.Prelude.{
  ◌≡◌, refl, List, [], ◌∷◌, none, some, arith, codes, pos, ◌==◌, if◌then◌else◌,
}
use networking.Socket.{
  Socket, Memory, server, client, manage, accept, is_acceptable, copy, assign, assign_self, destroy,
}
use networking.Socket.Owners.{IsCounted}
use networking.Socket.Owners.Sharing.{destroy-IsCounted, assign-IsCounted}
use networking.Socket.Programs.{
  Program, Action, managing, defaulting, accepting, copying, assigning, assigning_self, destroying,
  run_actions, empty_program,
}
use networking.Socket.Programs.Sound.{IsSound}
use networking.Socket.Programs.Reached.{run-IsSound}

-- Two sockets share the counter at the address 0, one has that at the address 1.
abbrev first : Socket
first = record { host = codes "a"; port = 80; kind = client; fd = pos 4; count = some 0 }

abbrev second : Socket
second = record { host = codes "b"; port = 81; kind = client; fd = pos 5; count = some 1 }

abbrev memory : Memory
memory = record {
  counts = λ a. if a == 0 then some 2 else if a == 1 then some 1 else none;
  next = 2;
  closed = [];
}

memory-IsCounted : IsCounted (first ∷ second ∷ first ∷ []) memory
memory-IsCounted = record { few = omega arith; counted = λ a. ground arith }

destroy-IsCounted_example :
    (m' : Memory) × (destroy second memory ≡ some m')
    × IsCounted (first ∷ first ∷ []) m'
    × (m'.closed ≡ pos 5 ∷ [])
    × (m'.next ≡ 2)
destroy-IsCounted_example =
    destroy-IsCounted (first ∷ []) second (first ∷ []) memory (omega arith) memory-IsCounted

assign-IsCounted_example :
    (m' : Memory) × (assign second first memory ≡ some (first, m'))
    × IsCounted (first ∷ first ∷ first ∷ []) m'
    × (m'.closed ≡ pos 5 ∷ [])
    × (m'.next ≡ 2)
assign-IsCounted_example =
    assign-IsCounted (first ∷ []) second (first ∷ []) memory (omega arith) memory-IsCounted first 0
      refl (omega arith)

-- A server socket accepts; the client is copied, and one copy becomes a share of the server socket,
-- as does a socket without a counter, and is assigned to itself; then all end.
abbrev actions : List Action
actions =
    managing (pos 5) server
    ∷ accepting 0 (pos 6) (codes "peer")
    ∷ copying 0
    ∷ defaulting
    ∷ assigning 0 2
    ∷ assigning 1 2
    ∷ assigning_self 0
    ∷ destroying 2
    ∷ destroying 0
    ∷ destroying 0
    ∷ destroying 0
    ∷ []

run-IsSound_example : (p : Program) × (run_actions actions empty_program ≡ some p) × IsSound p
unfolding manage accept is_acceptable copy assign assign_self destroy
run-IsSound_example = run-IsSound actions refl (omega arith)
