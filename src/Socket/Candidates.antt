-- ===== src/Socket/Candidates.antt =====
-- The constructors of Socket that open a server and a client, over the addresses that getaddrinfo
-- finds.
use networking.Prelude.{
  ℕ, zero, suc, ◌≡◌, ◌≢◌, refl, ap, sym, List, [], ◌∷◌, ◌++◌, Bool, true, false, not, if◌then◌else◌,
  Option, none, some, arith, ℤ, pos, negsuc, append_assoc, append-nil, All, ◌⊎◌,
}
use networking.Socket.{
  Socket, Memory, server, client, new_count, is_acceptable, is_connected, is_positive,
}

abbrev is_negative : ℤ → Bool
is_negative (pos _) = false
is_negative (negsuc _) = true

abbrev pub close : ℤ → Memory → Memory
close fd m = record m { closed = m.closed ++ fd ∷ [] }

-- What the system does for one address: the result of `socket`, and whether `setsockopt` and
-- `bind` succeed.
pub record Candidate : Type 0 where
  pub fd : ℤ
  pub reusable : Bool
  pub bound : Bool

-- The loop of the server constructor: the descriptor that is bound, `none` where `curr` is NULL.
unfoldable pub bind_first : List Candidate → Memory → Option ℤ × Memory
bind_first [] m = (none, m)
bind_first (c ∷ cs) m =
    let closing = bind_first cs (close c.fd m) in
    let next = bind_first cs m in
    if is_negative c.fd
    then next
    else if not c.reusable
    then closing
    else if c.bound
    then (some c.fd, m)
    else closing

abbrev server_socket : ℕ → ℤ → Option ℕ → Socket
server_socket port fd count = record {
  host = [];
  port = port;
  kind = server;
  fd = fd;
  count = count;
}

abbrev finish_server : ℕ → Bool → Option ℤ × Memory → Socket × Memory
finish_server port listens (none, m) = (server_socket port (negsuc 0) none, m)
finish_server port listens (some fd, m) =
    if listens
    then (let (a, m') = new_count m in (server_socket port fd (some a), m'))
    else (server_socket port (negsuc 0) none, close fd m)

-- Socket(uint16_t, uint32_t): `info` is what getaddrinfo returns, which goes to `_fd`.
unfoldable pub open_server : ℕ → ℤ → List Candidate → Bool → Memory → Socket × Memory
unfolding bind_first
open_server port (pos zero) candidates listens m =
    finish_server port listens (bind_first candidates m)
open_server port info candidates listens m = (server_socket port info none, m)

-- The result of `socket`, and whether `connect` succeeds.
pub record Peer : Type 0 where
  pub fd : ℤ
  pub connected : Bool

-- The loop of the client constructor: whether it has left by `break`, and the last descriptor.
unfoldable pub connect_first : List Peer → ℤ → Memory → Bool × ℤ × Memory
connect_first [] fd m = (false, fd, m)
connect_first (p ∷ ps) fd m =
    let next = connect_first ps p.fd m in
    let closing = connect_first ps p.fd (close p.fd m) in
    if is_negative p.fd then next else if not p.connected then closing else (true, p.fd, m)

abbrev client_socket : List ℕ → ℕ → ℤ → Option ℕ → Socket
client_socket host port fd count = record {
  host = host;
  port = port;
  kind = client;
  fd = fd;
  count = count;
}

abbrev finish_client : List ℕ → ℕ → Bool × ℤ × Memory → Socket × Memory
finish_client host port (false, fd, m) = (client_socket host port fd none, close fd m)
finish_client host port (true, fd, m) =
    let (a, m') = new_count m in (client_socket host port fd (some a), m')

-- Socket(const std::string&, uint16_t): only -1 counts as a failure of getaddrinfo. After another
-- failure `serv` has no value, which is `none` here.
unfoldable pub open_client : List ℕ → ℕ → ℤ → List Peer → Memory → Option (Socket × Memory)
unfolding connect_first
open_client host port (pos zero) peers m =
    some (finish_client host port (connect_first peers (negsuc 0) m))
open_client host port (negsuc zero) peers m = some (client_socket host port (negsuc 0) none, m)
open_client host port _ peers m = none

-- The descriptors that the calls of `socket` have brought.
abbrev pub opened : List Candidate → List ℤ
opened [] = []
opened (c ∷ cs) = if is_negative c.fd then opened cs else c.fd ∷ opened cs

abbrev pub Refused : Candidate → Type 0
Refused c = (c.reusable ≡ false) ⊎ (c.bound ≡ false)

bind_first-Refused :
    (cs : List Candidate) (m : Memory)
    → All Refused cs
    → bind_first cs m ≡ (none, record m { closed = m.closed ++ opened cs })
unfolding bind_first
bind_first-Refused [] m v = ap (λ l. (none, record m { closed = l })) (sym (append-nil m.closed))
bind_first-Refused (c ∷ cs) m (v, vs) = ground (
  arith,
  bind_first-Refused cs m vs,
  bind_first-Refused cs (close c.fd m) vs,
  append_assoc m.closed (c.fd ∷ []) (opened cs),
)

-- If no address can be bound, every descriptor that was opened is closed once, and the socket has
-- none.
pub open_server-Refused :
    (port : ℕ) (cs : List Candidate) (listens : Bool) (m : Memory)
    → All Refused cs
    → open_server port (pos 0) cs listens m
      ≡ (server_socket port (negsuc 0) none, record m { closed = m.closed ++ opened cs })
unfolding open_server
open_server-Refused port cs listens m v =
    ap (finish_server port listens) (bind_first-Refused cs m v)

abbrev pub is_some : Option ℕ → Bool
is_some none = false
is_some (some _) = true

-- No call of `socket` returns the descriptor 0, that of the standard input.
abbrev pub IsFresh : Candidate → Type 0
IsFresh c = c.fd ≢ pos 0

positive : (fd : ℤ) → fd ≢ pos 0 → is_negative fd ≡ false → is_positive fd ≡ true
positive (pos zero) h e = absurd (h refl)
positive (pos (suc n)) h e = refl
positive (negsuc n) h e = cc

abbrev all_positive : Option ℤ → Bool
all_positive none = true
all_positive (some fd) = is_positive fd

bind_first_positive :
    (cs : List Candidate) (m : Memory) → All IsFresh cs → all_positive (bind_first cs m).0 ≡ true
unfolding bind_first
bind_first_positive [] m v = refl
bind_first_positive (c ∷ cs) m (v, vs) =
    ground (
      arith,
      positive c.fd v,
      bind_first_positive cs m vs,
      bind_first_positive cs (close c.fd m) vs,
    )

finish_server_acceptable :
    (port : ℕ) (listens : Bool) (r : Option ℤ × Memory)
    → all_positive r.0 ≡ true
    → is_acceptable (finish_server port listens r).0
      ≡ is_some (finish_server port listens r).0.count
unfolding is_acceptable
finish_server_acceptable port listens (none, m) h = refl
finish_server_acceptable port true (some fd, m) h = h
finish_server_acceptable port false (some fd, m) h = refl

-- A server socket is acceptable exactly when it owns a counter.
pub open_server_acceptable :
    (port : ℕ) (cs : List Candidate) (listens : Bool) (m : Memory)
    → All IsFresh cs
    → is_acceptable (open_server port (pos 0) cs listens m).0
      ≡ is_some (open_server port (pos 0) cs listens m).0.count
unfolding open_server
open_server_acceptable port cs listens m v =
    finish_server_acceptable port listens (bind_first cs m) (bind_first_positive cs m v)

-- A peer that does not take the connection.
abbrev pub Fails : Peer → Type 0
Fails p = p.connected ≡ false

abbrev pub peers_opened : List Peer → List ℤ
peers_opened [] = []
peers_opened (p ∷ ps) = if is_negative p.fd then peers_opened ps else p.fd ∷ peers_opened ps

connect_first-Fails :
    (ps : List Peer) (p : Peer) (fd : ℤ) (m : Memory)
    → All Fails ps
    → Fails p
    → is_negative p.fd ≡ false
    → connect_first (ps ++ p ∷ []) fd m
      ≡ (false, p.fd, record m { closed = m.closed ++ (peers_opened ps ++ p.fd ∷ []) })
unfolding connect_first
connect_first-Fails [] p fd m v f e = ground arith
connect_first-Fails (q ∷ ps) p fd m (v, vs) f e = ground (
  arith,
  connect_first-Fails ps p q.fd m vs f e,
  connect_first-Fails ps p q.fd (close q.fd m) vs f e,
  append_assoc m.closed (q.fd ∷ []) (peers_opened ps ++ p.fd ∷ []),
)

-- A client that fails at all its addresses closes every descriptor, the last one twice, keeps the
-- number of the last, and so takes itself for connected.
pub open_client_failure :
    (host : List ℕ) (port n : ℕ) (ps : List Peer) (p : Peer) (m : Memory)
    → All Fails ps
    → Fails p
    → p.fd ≡ pos (suc n)
    → (s : Socket) × (m' : Memory) × (open_client host port (pos 0) (ps ++ p ∷ []) m ≡ some (s, m'))
      × (m'.closed ≡ (m.closed ++ (peers_opened ps ++ p.fd ∷ [])) ++ p.fd ∷ [])
      × (is_connected s ≡ true)
      × (s.count ≡ none)
unfolding open_client is_connected
open_client_failure host port n ps p m v f e = (
  client_socket host port p.fd none,
  close p.fd (record m { closed = m.closed ++ (peers_opened ps ++ p.fd ∷ []) }),
  ap (λ r. some (finish_client host port r))
      (connect_first-Fails ps p (negsuc 0) m v f (ap is_negative e)),
  refl,
  ap is_positive e,
  refl,
)
