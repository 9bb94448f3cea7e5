-- ===== src/Chain/Relay.antt =====
-- A chain of stepping stones: what the connections of proj2/ss.c do together, where each stone's
-- request is what the one before it has sent, and each reply what the one behind it has sent.
use mathlib.Core.List.{Perm}
use mathlib.Core.List.Perm
use networking.Prelude.{
  ℕ, zero, suc, ◌+◌, ◌-◌, ◌*◌, ◌%◌, ◌^◌, ◌≤◌, ◌<◌, ◌≡◌, refl, ap, subst, List, [], ◌∷◌, false,
  Option, some, length, All, arith, ℤ,
}
use networking.Transfer.{Outcome, failed, moved, Conn, IsProgress, Steady}
use networking.Socket.Candidates.{Peer}
use networking.Chain.{ListHeader, ListElement, text_in}
use networking.Chain.Calls.{Ends, Result, ok}
use networking.Chain.Ready.{IsWhole, Ready}
use networking.Chain.Stone.{connection, pick, file_name, command}
use networking.Chain.Stone.Request.{IsHeader, IsElement, remove}
use networking.Chain.Stone.Forward.{IsReachable}
use networking.Chain.Stone.Connection.{
  IsPatient, Relays, request_bytes, reply_bytes, connection-Relays, connection_served,
}

-- A stone's surroundings while it serves one connection: what its system's functions do, its own
-- host and port, the descriptor of the connection, and its two sockets.
pub record Site : Type 0 where
  pub connects : List ℕ → List ℕ → ℤ × List Peer
  pub rand : ℕ
  pub m_host : List ℕ
  pub m_port : List ℕ
  pub fetch : List ℕ → List ℕ → Option (List ℕ)
  pub descriptor : ℕ
  pub prev : Conn
  pub next : Conn

-- The connection's start, with what will arrive on the two sockets.
abbrev pub opening : Site → List ℕ → List ℕ → Ends
opening s request reply = record {
  prev = record s.prev { incoming = request; outgoing = [] };
  next = record s.next { incoming = reply; outgoing = [] };
  opened = false;
  buffer = [];
  file = [];
  leaked = [];
  closed_prev = 0;
  closed_next = 0;
}

abbrev pub outcome : Site → Ends → Result (Unit {0})
outcome s e = connection s.connects s.rand s.m_host s.m_port s.fetch s.descriptor e

abbrev pub shorten : ListHeader → ListHeader
shorten h = record h { l_size = h.l_size - 1 }

-- `net x n` is the site at which the stone of the element `x` serves a request with `n` elements.
-- `Serves net reply site h list path`: started at `site`, the request for `list` brings `reply`, and
-- the stones of `path` take part, in that order.
pub data Serves (net : ListElement → ℕ → Site) (reply : List ℕ)
    : Site → ListHeader → List ListElement → List ListElement → Type 0 where
  last :
      (s : Site) (h : ListHeader) (e' : Ends)
      → outcome s (opening s (request_bytes h []) []) ≡ ok tt e'
      → e'.opened ≡ false
      → e'.prev.outgoing ≡ reply
      → e'.closed_prev ≡ 1
      → Serves net reply s h [] []
  hop :
      (s : Site) (h : ListHeader) (list path : List ListElement) (x : ListElement) (e' : Ends)
      → outcome s (opening s (request_bytes h list) reply) ≡ ok tt e'
      → pick list (s.rand % h.l_size) ≡ some x
      → Relays
          (opening s (request_bytes h list) reply)
          (request_bytes (shorten h) (remove list (s.rand % h.l_size)))
          reply
          e'
      → Serves net reply
          (net x (length list - 1))
          (shorten h)
          (remove list (s.rand % h.l_size))
          path
      → Serves net reply s h list (x ∷ path)

-- What a site with `n` elements left needs to serve a request for the file `file`, named `name`,
-- along `list`.
pub record IsPrepared (name file : List ℕ) (list : List ListElement) (n : ℕ) (s : Site)
    : Type 0 where
  pub reach : All (IsReachable s.connects) list
  pub short : length s.m_host + length s.m_port + length name + 268 * n + 335 < 8192
  pub fetches : s.fetch (command s.descriptor name) (file_name s.descriptor) ≡ some file
  pub patient : IsPatient n (length file) (opening s [] [])

-- What the stones of a list need to serve it, at whatever point of the chain each stands.
abbrev pub ArePrepared :
    (ListElement → ℕ → Site) → List ℕ → List ℕ → List ListElement → List ListElement → Type 0
ArePrepared net name file others list =
    All (λ x. (n : ℕ) → n < length list → IsPrepared name file others n (net x n)) list

remove-All :
    (P : ListElement → Type 0) (list : List ListElement) (k : ℕ)
    → All P list
    → All P (remove list k)
remove-All P [] k v = v
remove-All P (x ∷ list) zero (v, vs) = vs
remove-All P (x ∷ list) (suc k) (v, vs) = (v, remove-All P list k vs)

All-map :
    (P Q : ListElement → Type 0) (list : List ListElement)
    → ((x : ListElement) → P x → Q x)
    → All P list
    → All Q list
All-map P Q [] f v = v
All-map P Q (x ∷ list) f (v, vs) = (f x v, All-map P Q list f vs)

length-remove :
    (list : List ListElement) (k : ℕ) → k < length list → suc (length (remove list k)) ≡ length list
length-remove [] k h = absurd (omega arith)
length-remove (x ∷ list) zero h = refl
length-remove (x ∷ list) (suc k) h = ap suc (length-remove list k (omega arith))

pick-here :
    (P : ListElement → Type 0) (list : List ListElement) (k : ℕ)
    → k < length list
    → All P list
    → (x : ListElement) × (pick list k ≡ some x) × P x × Perm (x ∷ remove list k) list
pick-here P [] k h p = absurd (omega arith)
pick-here P (x ∷ list) zero h (p, ps) = (x, refl, p, Perm.rfl)
pick-here P (x ∷ list) (suc k) h (p, ps) =
    let (y, e, q, m) = pick-here P list k (omega arith) ps in
    (y, e, q, Perm.trans (Perm.swap x y (remove list k)) (Perm.cons x m))

-- A schedule of calls that move all they are asked to is one of calls that make progress.
Ready-Steady : (n : ℕ) (calls : List Outcome) → All (IsWhole 8192) calls → All IsProgress calls
Ready-Steady n [] v = v
Ready-Steady n (failed ∷ calls) v = absurd v.0
Ready-Steady n (moved m ∷ calls) (v, vs) = (omega (arith, v), Ready-Steady n calls vs)

first_send :
    (n : ℕ) (calls : List Outcome)
    → Ready (suc n) 8192 calls
    → (m : ℕ) × (rest : List Outcome) × (calls ≡ moved m ∷ rest) × (8192 ≤ m) × Steady n rest
first_send n [] v = absurd (omega (arith, v.0))
first_send n (failed ∷ calls) v = absurd v.1.0
first_send n (moved m ∷ calls) v =
    (m, calls, refl, v.1.0, (omega (arith, v.0), Ready-Steady n calls v.1.1))

IsPrepared-remove :
    (name file : List ℕ) (list : List ListElement) (k n : ℕ) (s : Site)
    → IsPrepared name file list n s
    → IsPrepared name file (remove list k) n s
IsPrepared-remove name file list k n s p = record {
  reach = remove-All (IsReachable s.connects) list k p.reach;
  short = p.short;
  fetches = p.fetches;
  patient = p.patient;
}

-- What is left of a list is prepared if the list is.
ArePrepared-remove :
    (net : ListElement → ℕ → Site) (name file : List ℕ) (list : List ListElement) (k : ℕ)
    → k < length list
    → ArePrepared net name file list list
    → ArePrepared net name file (remove list k) (remove list k)
ArePrepared-remove net name file list k h p =
    All-map (λ x. (n : ℕ) → n < length list → IsPrepared name file list n (net x n)) _
      (remove list k)
      (λ x f n l.
        IsPrepared-remove name file list k n (net x n)
          (f n (omega (arith, l, length-remove list k h))))
      (remove-All _ list k p)

IsPatient-opening :
    (s : Site) (n len : ℕ) (request reply : List ℕ)
    → IsPatient n len (opening s [] [])
    → IsPatient n len (opening s request reply)
IsPatient-opening s n len request reply p = record {
  prev_recvs = p.prev_recvs;
  prev_sends = p.prev_sends;
  next_sends = p.next_sends;
  first = p.first;
  rest = p.rest;
  next_recvs = p.next_recvs;
  first_whole = p.first_whole;
  steady = p.steady;
}

shorten-IsHeader : (h : ListHeader) → IsHeader h → IsHeader (shorten h)
shorten-IsHeader h v = record { fits = omega (arith, v.fits); full = v.full }

-- The stone that is picked serves what is left, if every prepared site does.
next_stone :
    (net : ListElement → ℕ → Site) (name file reply : List ℕ) (h : ListHeader)
    (list : List ListElement) (k : ℕ)
    → k < length list
    → ArePrepared net name file list list
    → ((s : Site)
        → IsPrepared name file (remove list k) (length (remove list k)) s
        → (path : List ListElement) × Serves net reply s h (remove list k) path
          × Perm path (remove list k))
    → (x : ListElement) × (path : List ListElement) × (pick list k ≡ some x)
      × Serves net reply (net x (length list - 1)) h (remove list k) path
      × Perm (x ∷ path) list
next_stone net name file reply h list k inside ps serve =
    let (x, picked, to, perm) = pick-here _ list k inside ps in
    let before = length list - 1 in
    let left : before ≡ length (remove list k) = omega (arith, length-remove list k inside) in
    let (path, serves, perm') = serve (net x before) (
      subst (λ i. IsPrepared name file (remove list k) i (net x before)) left
        (IsPrepared-remove name file list k before (net x before) (to before (omega arith)))) in
    (x, path, picked, serves, Perm.trans (Perm.cons x perm') perm)

-- From a prepared site, and for a list of elements whose sites are prepared wherever they stand in
-- the chain, the connections relay a request for a file of 1 to 2 ^ 32 - 1 bytes until the list is
-- empty: every element of the list takes part once, and the reply of the last one comes back whole.
pub chain-Serves :
    (net : ListElement → ℕ → Site) (name bs : List ℕ) (b n : ℕ) (s : Site) (h : ListHeader)
    (list : List ListElement)
    → length list ≡ n
    → IsHeader h
    → h.l_size ≡ length list
    → text_in h.f_name ≡ some name
    → All IsElement list
    → length (b ∷ bs) < 2 ^ 32
    → IsPrepared name (b ∷ bs) list (length list) s
    → ArePrepared net name (b ∷ bs) list list
    → (path : List ListElement) × Serves net (reply_bytes 1 (b ∷ bs)) s h list path × Perm path list
chain-Serves net name bs b zero s h [] z hv q t v f p ps =
    let (m, rest, o, w, st) = first_send (length (b ∷ bs)) s.prev.sends p.patient.prev_sends in
    let (e', r, out, same, closed, once, other) =
      connection_served s.connects s.rand s.m_host s.m_port s.fetch h name s.descriptor b m bs []
        rest (opening s (request_bytes h []) []) hv q t p.fetches f refl p.patient.prev_recvs o
        (omega (arith, w)) st in
    ([], last s h e' r closed out once, Perm.rfl)
chain-Serves net name bs b (suc n) s h [] z hv q t v f p ps = absurd (omega (arith, z))
chain-Serves net name bs b zero s h (x ∷ list) z hv q t v f p ps = absurd (omega (arith, z))
chain-Serves net name bs b (suc n) s h (x ∷ list) z hv q t v f p ps =
    let here = x ∷ list in
    let k = s.rand % h.l_size in
    let inside : k < length here = grind (arith, q) in
    let left = length-remove here k inside in
    let reply = reply_bytes 1 (b ∷ bs) in
    let e = opening s (request_bytes h here) reply in
    let (e', r, relays) =
      connection-Relays s.connects s.rand s.m_host s.m_port s.fetch h here name (b ∷ bs)
        s.descriptor 1 e
        (record { header = hv; size = q; elements = v; named = t; short = p.short }) p.reach
        (omega arith) f (IsPatient-opening s (length here) (length (b ∷ bs)) _ _ p.patient) refl
        refl in
    let (y, path, picked, serves, perm) =
      next_stone net name (b ∷ bs) reply (shorten h) here k inside ps (λ s' p'.
        chain-Serves net name bs b n s' (shorten h) (remove here k) (omega (arith, z, left))
          (shorten-IsHeader h hv) (omega (arith, q, left)) t (remove-All IsElement here k v) f p'
          (ArePrepared-remove net name (b ∷ bs) here k inside ps)) in
    (y ∷ path, hop s h here path y e' r picked relays serves, perm)

-- The same for a sender who picks the first stone.
pub first-Serves :
    (net : ListElement → ℕ → Site) (name bs : List ℕ) (b k : ℕ) (h : ListHeader)
    (list : List ListElement)
    → IsHeader h
    → h.l_size ≡ length list
    → text_in h.f_name ≡ some name
    → All IsElement list
    → length (b ∷ bs) < 2 ^ 32
    → ArePrepared net name (b ∷ bs) list list
    → k < length list
    → (x : ListElement) × (path : List ListElement) × (pick list k ≡ some x)
      × Serves net
          (reply_bytes 1 (b ∷ bs))
          (net x (length list - 1))
          (shorten h)
          (remove list k)
          path
      × Perm (x ∷ path) list
first-Serves net name bs b k h list hv q t v f ps inside =
    next_stone net name (b ∷ bs) (reply_bytes 1 (b ∷ bs)) (shorten h) list k inside ps (λ s p.
      chain-Serves net name bs b (length (remove list k)) s (shorten h) (remove list k) refl
        (shorten-IsHeader h hv) (omega (arith, q, length-remove list k inside)) t
        (remove-All IsElement list k v) f p (ArePrepared-remove net name (b ∷ bs) list k inside ps))
