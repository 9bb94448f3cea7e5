-- ===== src/Chain/Listener/Threads.antt =====
-- What the server of a stepping stone opens and closes, with the threads of its connections.
use networking.Prelude.{
  ℕ, zero, suc, ◌≡◌, refl, ap, ◌∙◌, sym, subst, List, [], ◌∷◌, ◌++◌, true, false, Option, some, ◌⊎◌,
  inl, inr, All, map, ℤ, pos, append_assoc, append-nil, Bool-cases,
}
use networking.Socket.Candidates.{Candidate, Peer}
use networking.Service.{is_minus_one}
use networking.Service.Ports.{opened_by}
use networking.Chain.Calls.{Ends, ok, exited}
use networking.Chain.Stone.{connection}
use networking.Chain.Stone.Stages.{IsClosed}
use networking.Chain.Stone.Closing.{connection-IsClosed}
use networking.Chain.Listener.{
  Binding, bound_to, unbound, not_reusable, bind_stone, accept_all, serves, listen_on, server,
}

-- Where the loop over the addresses has bound a socket, every descriptor so far but this one is closed.
Accounts : List ℤ → Binding → Type 0
Accounts total (bound_to fd closed) = closed ++ fd ∷ [] ≡ total
Accounts total (unbound closed) = closed ≡ total
Accounts total (not_reusable closed) = (fd : ℤ) × (closed ++ fd ∷ [] ≡ total)

bind_stone-Accounts :
    (cs : List Candidate) (closed : List ℤ)
    → Accounts (closed ++ opened_by cs) (bind_stone cs closed)
unfolding bind_stone Accounts
bind_stone-Accounts [] closed = sym (append-nil closed)
bind_stone-Accounts (c ∷ cs) closed = elim (Bool-cases (is_minus_one c.fd)) [
  | inl bad ↦ rw bad (bind_stone-Accounts cs closed)
  | inr good ↦ elim (Bool-cases c.reusable) [
    | inr fixed ↦ rw (good, fixed) (c.fd, refl)
    | inl free ↦ elim (Bool-cases c.bound) [
      | inl bound ↦ rw (good, free, bound) refl
      | inr busy ↦
          rw (good, free, busy, ← append_assoc closed (c.fd ∷ []) (opened_by cs))
            (bind_stone-Accounts cs (closed ++ c.fd ∷ []))
    ]
  ]
]

-- A thread of a connection: its descriptor, what `rand` returns to it, and its start and its end.
pub record Session : Type 0 where
  pub fd : ℕ
  pub rand : ℕ
  pub before : Ends
  pub after_it : Ends

abbrev repeated : ℕ → ℕ → List ℕ
repeated zero fd = []
repeated (suc n) fd = fd ∷ repeated n fd

-- The calls of `close` for the sockets of connections, thread by thread.
abbrev pub closes : List Session → List ℕ
closes [] = []
closes (t ∷ ts) = repeated t.after_it.closed_prev t.fd ++ closes ts

module _ (connects : List ℕ → List ℕ → ℤ × List Peer) (fetch : List ℕ → List ℕ → Option (List ℕ))
    (host port : List ℕ) where
  -- The thread begins with nothing opened and closed, and has come to its end.
  pub record HasEnded (t : Session) : Type 0 where
    pub not_opened : t.before.opened ≡ false
    pub prev_open : t.before.closed_prev ≡ 0
    pub next_open : t.before.closed_next ≡ 0
    pub ended :
        (connection connects t.rand host port fetch t.fd t.before ≡ ok tt t.after_it)
        ⊎ (connection connects t.rand host port fetch t.fd t.before ≡ exited t.after_it)

  session-IsClosed : (t : Session) → HasEnded t → IsClosed t.after_it
  session-IsClosed t v =
      connection-IsClosed connects t.rand host port fetch t.fd t.before t.after_it v.not_opened
        v.prev_open v.next_open v.ended

  closes-map : (ts : List Session) → All HasEnded ts → closes ts ≡ map (λ t. t.fd) ts
  closes-map [] v = refl
  closes-map (t ∷ ts) (v, vs) =
      ap (λ n. repeated n t.fd ++ closes ts) (session-IsClosed t v).0
      ∙ ap (◌∷◌ t.fd) (closes-map ts vs)

  -- If `bind` succeeds for some address, and getnameinfo and listen do, server starts a thread for each
  -- descriptor that accept returns, in their order, but for -1; if all of these threads come to their
  -- end, by return or by an error, the sockets of connections that they close, thread by thread, are
  -- just these descriptors, each once; and every descriptor that the loop over the addresses has
  -- opened is closed, but for the one that it listens on.
  pub server_closes :
      (candidates : List Candidate) (calls : List (Option ℕ)) (fd : ℤ) (closed : List ℤ)
      (sessions : List Session)
      → bind_stone candidates [] ≡ bound_to fd closed
      → map (λ t. t.fd) sessions ≡ accept_all calls
      → All HasEnded sessions
      → (server (pos 0) candidates (some (host, port)) true calls
          ≡ serves fd host port (closes sessions) closed)
        × (closed ++ fd ∷ [] ≡ opened_by candidates)
  unfolding server Accounts
  server_closes candidates calls fd closed sessions b m v = (
    ap (listen_on (some (host, port)) true calls) b
        ∙ ap (λ fds. serves fd host port fds closed) (sym m ∙ sym (closes-map sessions v)),
    subst (Accounts (opened_by candidates)) b (bind_stone-Accounts candidates []),
  )
