-- ===== src/SyncSocket.antt =====
-- class net::sync_socket of proj1/socket.hpp and proj1/socket.cpp. Its counter is an int, here the 32
-- bits of it, in the memory of Socket.
pub mod Owners
pub mod Connecting
use networking.Prelude.{
  ℕ, zero, suc, ◌+◌, ◌%◌, ◌^◌, List, [], ◌∷◌, ◌++◌, Bool, true, false, ◌==◌, ◌&&◌, not,
  if◌then◌else◌, Option, none, some, ℤ, pos, negsuc, length,
}
use networking.Socket.{Memory, new_count, increment, give_up}

-- `refs` is the address of the counter and `src` the bytes of the peer's address, `none` for NULL.
pub record SyncSocket : Type 0 where
  pub fd : ℤ
  pub refs : Option ℕ
  pub conn : Bool
  pub tcp : Bool
  pub src : Option (List ℕ)
  pub len : ℕ

-- The default constructor.
abbrev pub unconnected : SyncSocket
unconnected = record { fd = pos 0; refs = none; conn = false; tcp = false; src = none; len = 0 }

-- What check_close leaves of the last owner.
abbrev pub cleared : SyncSocket
cleared = record { fd = negsuc 0; refs = none; conn = false; tcp = false; src = none; len = 0 }

-- The constructors for a descriptor; `new` and `calloc` do not fail.
unfoldable pub of_fd : ℤ → Memory → SyncSocket × Memory
of_fd fd m =
    let (a, m') = new_count m in
    (record { fd = fd; refs = some a; conn = true; tcp = true; src = none; len = 0 }, m')

unfoldable pub of_peer : ℤ → List ℕ → Memory → SyncSocket × Memory
of_peer fd src m =
    let (a, m') = new_count m in
    (
      record { fd = fd; refs = some a; conn = true; tcp = false; src = some src; len = length src },
      m',
    )

-- The copy constructor, which faults on a counter that is not there.
unfoldable pub copy : SyncSocket → Memory → Option (SyncSocket × Memory)
copy cpy m =
    if cpy.conn
    then elim (increment cpy.refs m) [ none ↦ none | some m' ↦ some (cpy, m') ]
    else some (cpy, m)

abbrev pub left_of : SyncSocket → Option ℕ × ℤ × Memory → SyncSocket × Memory
left_of s (none, fd, m) = (cleared, m)
left_of s (some a, fd, m) = (s, m)

-- `(*_refs)--`, and what follows from it.
abbrev pub let_go : Option ℕ → SyncSocket → Memory → Option (SyncSocket × Memory)
let_go none s m = none
let_go (some a) s m = elim (m.counts a) [
  | none ↦ none
  | some n ↦ some (left_of s (give_up a s.fd n m))
]

-- check_close: a socket that is not the last owner stays as it is.
unfoldable pub check_close : SyncSocket → Memory → Option (SyncSocket × Memory)
check_close s m = if s.conn then let_go s.refs s m else some (s, m)

-- ~sync_socket
unfoldable pub destroy : SyncSocket → Memory → Option Memory
unfolding check_close
destroy s m = elim (check_close s m) [ none ↦ none | some (s', m') ↦ some m' ]

-- operator=, where the two are different objects.
unfoldable pub assign : SyncSocket → SyncSocket → Memory → Option (SyncSocket × Memory)
unfolding check_close copy
assign this asn m = elim (check_close this m) [ none ↦ none | some (s, m') ↦ copy asn m' ]

-- operator= of an object to itself.
unfoldable pub assign_self : SyncSocket → Memory → Option (SyncSocket × Memory)
unfolding check_close copy
assign_self this m = elim (check_close this m) [ none ↦ none | some (s, m') ↦ copy s m' ]

-- What the system does for one address: the result of `socket`, whether `connect` succeeds, and the
-- address.
pub record Peer : Type 0 where
  pub fd : ℤ
  pub connected : Bool
  pub addr : List ℕ

abbrev is_negative : ℤ → Bool
is_negative (pos _) = false
is_negative (negsuc _) = true

-- The loop of connect: the address that it has left at, the last descriptor, and memory.
unfoldable pub try_peers : Bool → List Peer → ℤ → Memory → Option Peer × ℤ × Memory
try_peers tcp [] fd m = (none, fd, m)
try_peers tcp (p ∷ ps) fd m =
    let next = try_peers tcp ps p.fd m in
    let closing = try_peers tcp ps p.fd (record m { closed = m.closed ++ p.fd ∷ [] }) in
    if is_negative p.fd then next else if tcp && not p.connected then closing else (some p, p.fd, m)

-- An exception leaves the object as it is at that time.
pub data Outcome : Type 0 where
  returned : SyncSocket → Memory → Outcome
  thrown : SyncSocket → Memory → Outcome
  faulted : Outcome

abbrev pub finish_connect : Bool → SyncSocket → Option Peer × ℤ × Memory → Outcome
finish_connect tcp s (none, fd, m) = thrown (record s { fd = fd }) m
finish_connect tcp s (some p, fd, m) =
    let (a, m') = new_count m in
    returned
      (record {
        fd = fd;
        refs = some a;
        conn = true;
        tcp = tcp;
        src = if tcp then s.src else some p.addr;
        len = if tcp then s.len else length p.addr;
      })
      m'

-- connect, over the addresses that getaddrinfo finds.
unfoldable pub connect : SyncSocket → Bool → List Peer → Memory → Outcome
unfolding check_close try_peers
connect s tcp peers m = elim (check_close s m) [
  | none ↦ faulted
  | some (s', m') ↦ finish_connect tcp s' (try_peers tcp peers s'.fd m')
]

-- The constructor for a host.
unfoldable pub of_host : Bool → List Peer → Memory → Outcome
unfolding connect
of_host tcp peers m = connect (record unconnected { tcp = tcp }) tcp peers m

-- What send and recv ask of the system: `send` and `recv`, or `sendto` and `recvfrom`.
pub data SendCall : Type 0 where
  to_stream : ℤ → List ℕ → SendCall
  to_peer : ℤ → List ℕ → Option (List ℕ) → SendCall

pub data RecvCall : Type 0 where
  from_stream : ℤ → ℕ → RecvCall
  from_anyone : ℤ → ℕ → RecvCall

unfoldable pub send : SyncSocket → List ℕ → SendCall
send s buf = if s.tcp then to_stream s.fd buf else to_peer s.fd buf s.src

unfoldable pub recv : SyncSocket → ℕ → RecvCall
recv s len = if s.tcp then from_stream s.fd len else from_anyone s.fd len
