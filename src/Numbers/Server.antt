-- ===== src/Numbers/Server.antt =====
-- The handlers and main of proj1/proj1_server.cpp, and listen and close of proj1/service.hpp and
-- service.cpp.
use networking.Prelude.{
  ℕ, List, [], ◌∷◌, ◌++◌, Bool, true, false, if◌then◌else◌, Option, none, some, drop, codes,
  decimal, ℤ,
}
use networking.Socket.{Memory}
use networking.SyncSocket.{of_fd, destroy}
use networking.Service.{Service, new_service}
use networking.Numbers.{message_bytes, reply_bytes, word_of, overwrite}

-- What a handler writes to the standard output, and what it hands to `send` or `sendto`.
pub record Answer : Type 0 where
  pub printed : List ℕ
  pub replied : List ℕ

-- receive_tcp: the results of `recv` and `send` are not looked at.
unfoldable pub receive_tcp : List ℕ → Option (List ℕ) → Answer
receive_tcp padding received =
    let msg = overwrite received (message_bytes padding 0) in
    record { printed = decimal (word_of (drop 4 msg)) ++ codes "\n"; replied = reply_bytes }

-- receive_udp: the same with `recvfrom` and `sendto`; the address of the client is left out.
unfoldable pub receive_udp : List ℕ → Option (List ℕ) → Answer
receive_udp padding received =
    let msg = overwrite received (message_bytes padding 0) in
    record { printed = decimal (word_of (drop 4 msg)) ++ codes "\n"; replied = reply_bytes }

-- master, master_max and tcp_socs, which nothing uses, are left out.
pub record SyncService : Type 0 where
  pub service : Service
  pub closing : Bool

-- The constructor.
abbrev pub new_sync_service : SyncService
new_sync_service = record { service = new_service; closing = false }

-- close
abbrev pub close : SyncService → SyncService
close s = record s { closing = true }

-- What the system does in one round of listen: the result of `accept`, and what `recv` or `recvfrom`
-- puts into the message, `none` for an error.
pub record Visit : Type 0 where
  pub fd : ℤ
  pub received : Option (List ℕ)

module _ (padding : List ℕ) where
  -- A round of listen for TCP: the socket `soc` goes out of scope at its end.
  unfoldable pub tcp_round : Visit → Memory → Option (Answer × Memory)
  unfolding receive_tcp of_fd destroy
  tcp_round v m =
      let (soc, m₁) = of_fd v.fd m in
      let answer = receive_tcp padding v.received in
      let m₂ = record m₁ { closed = m₁.closed ++ v.fd ∷ [] } in
      elim (destroy soc m₂) [ none ↦ none | some m₃ ↦ some (answer, m₃) ]

  unfoldable pub tcp_rounds : List Visit → Memory → Option (List Answer × Memory)
  unfolding tcp_round
  tcp_rounds [] m = some ([], m)
  tcp_rounds (v ∷ vs) m = elim (tcp_round v m) [
    | none ↦ none
    | some (answer, m₁) ↦ elim (tcp_rounds vs m₁) [
      | none ↦ none
      | some (answers, m₂) ↦ some (answer ∷ answers, m₂)
    ]
  ]

  abbrev pub udp_rounds : List Visit → List Answer
  udp_rounds [] = []
  udp_rounds (v ∷ vs) = receive_udp padding v.received ∷ udp_rounds vs

  -- listen, up to the round that waits for longer than the visits last; no handler closes the service.
  -- `none` is a service that has no descriptor yet.
  unfoldable pub listen : SyncService → List Visit → Memory → Option (List Answer × Memory)
  unfolding tcp_rounds receive_udp
  listen s visits m = if s.closing then some ([], m) else elim s.service.listening [
    | none ↦ none
    | some (fd, true) ↦ tcp_rounds visits m
    | some (fd, false) ↦ some (udp_rounds visits, m)
  ]
