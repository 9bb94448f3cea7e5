-- ===== src/SyncSocket/Connecting.antt =====
-- What connect of proj1's sockets leaves behind.
use networking.Prelude.{
  ℕ, zero, suc, ◌+◌, ◌<◌, ◌≡◌, ap, ◌∙◌, sym, List, [], ◌∷◌, ◌++◌, true, false, ◌==◌, if◌then◌else◌,
  Option, none, some, All, arith, ℤ, append_assoc, append-nil,
}
use networking.Socket.{Memory}
use networking.Socket.Owners.{owns_count, tally, tally_pos, closed_by}
use networking.SyncSocket.{
  SyncSocket, Peer, is_negative, try_peers, Outcome, thrown, faulted, finish_connect, connect,
}
use networking.SyncSocket.Owners.{held, owners, IsShared, closing, owners_middle, same_share}

-- An address that takes no connection over TCP.
abbrev pub Refuses : Peer → Type 0
Refuses p = (is_negative p.fd ≡ false) × (p.connected ≡ false)

abbrev pub fds : List Peer → List ℤ
fds [] = []
fds (p ∷ ps) = p.fd ∷ fds ps

abbrev pub last_fd : List Peer → ℤ → ℤ
last_fd [] fd = fd
last_fd (p ∷ ps) fd = last_fd ps p.fd

try_peers_refused :
    (ps : List Peer) (fd : ℤ) (m : Memory)
    → All Refuses ps
    → try_peers true ps fd m ≡ (none, last_fd ps fd, record m { closed = m.closed ++ fds ps })
unfolding try_peers
try_peers_refused [] fd m v =
    ap (λ c. (none, fd, record m { closed = c })) (sym (append-nil m.closed))
try_peers_refused (p ∷ ps) fd m (v, vs) =
    rw (v.0, v.1)
      (try_peers_refused ps p.fd (record m { closed = m.closed ++ p.fd ∷ [] }) vs
        ∙ ap (λ c. (none, last_fd ps p.fd, record m { closed = c }))
            (append_assoc m.closed (p.fd ∷ []) (fds ps)))

abbrev connect_after : List Peer → Option (SyncSocket × Memory) → Outcome
connect_after ps r = elim r [
  | none ↦ faulted
  | some (s', m') ↦ finish_connect true s' (try_peers true ps s'.fd m')
]

nothing_closed :
    (n : ℕ) (fd : ℤ) (closed : List ℤ) → 0 < n → closed ++ (if n == 0 then fd ∷ [] else []) ≡ closed
nothing_closed zero fd closed h = absurd (omega arith)
nothing_closed (suc n) fd closed h = rw (more n) (append-nil closed)
  where
    more : (n : ℕ) → (suc n == 0) ≡ false
    more n = ground arith

one_more : (a n : ℕ) (c : Option ℕ) → c ≡ some a → suc n ≡ owns_count a c + n
one_more a n c h = succ n ∙ ap (λ k. k + n) (same_count a) ∙ ap (λ c. owns_count a c + n) (sym h)
  where
    succ : (n : ℕ) → suc n ≡ 1 + n
    succ n = omega arith

    same_count : (a : ℕ) → 1 ≡ owns_count a (some a)
    same_count a = ground arith

too_few : (n k : ℕ) → suc n ≡ k → some n ≡ tally k → ⊥
too_few n k h e = go (same_share _ _ (e ∙ sym (ap tally h)))
  where
    go : suc n ≡ n → ⊥
    go h = omega arith

-- A live socket whose counter others share, and which connects to a host that refuses it, throws an
-- exception, has given its share up, and still takes itself for connected: the counter no longer
-- holds the number of the sockets that share it.
pub connect_refused :
    (xs : List SyncSocket) (s : SyncSocket) (ys : List SyncSocket) (m : Memory) (ps : List Peer)
    (a : ℕ)
    → IsShared (xs ++ s ∷ ys) m
    → held s ≡ some a
    → 0 < owners a (xs ++ ys)
    → All Refuses ps
    → (m' : Memory) × (connect s true ps m ≡ thrown (record s { fd = last_fd ps s.fd }) m')
      × (m'.closed ≡ m.closed ++ fds ps)
      × (m'.counts a ≡ some (owners a (xs ++ ys)))
      × (IsShared (xs ++ record s { fd = last_fd ps s.fd } ∷ ys) m' → ⊥)
unfolding connect
connect_refused xs s ys m ps a v h o r =
    let (s', m₁, p, counted, closes, same) = closing xs s ys m v in
    let e = same a h o in
    let s₁ = record s { fd = last_fd ps s.fd } in
    let counts : m₁.counts a ≡ some (owners a (xs ++ ys)) =
      counted a ∙ tally_pos (owners a (xs ++ ys)) o in
    (
      record m₁ { closed = m₁.closed ++ fds ps },
      ap (connect_after ps) p
          ∙ ap (λ x. finish_connect true x (try_peers true ps x.fd m₁)) e
          ∙ ap (finish_connect true s) (try_peers_refused ps s.fd m₁ r),
      ap (λ c. c ++ fds ps)
          (closes
            ∙ ap (λ c. m.closed ++ closed_by c s.fd (λ b. owners b (xs ++ ys))) h
            ∙ nothing_closed (owners a (xs ++ ys)) s.fd m.closed o),
      counts,
      (λ w.
          too_few (owners a (xs ++ ys)) (owners a (xs ++ s₁ ∷ ys))
            (one_more a (owners a (xs ++ ys)) (held s) h ∙ sym (owners_middle a xs s₁ ys))
            (sym counts ∙ w.counted a)),
    )
