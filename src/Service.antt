-- ===== src/Service.antt =====
-- class net::_service of proj1/service.hpp and proj1/service.cpp: the ports that a service listens on.
pub mod Ports
pub mod AnyPort
use networking.Prelude.{
  ℕ, zero, List, [], ◌∷◌, ◌++◌, Bool, true, false, ◌==◌, ◌&&◌, ltb, not, if◌then◌else◌, Option,
  none, some, ℤ, pos, negsuc,
}
use networking.Socket.{Memory}
use networking.Socket.Candidates.{Candidate}

-- `ports` is in the order of its keys. `master` is the set of descriptors, and `listening` the last
-- descriptor and whether it is one of TCP, which have no value at first. ports_max, which nothing uses,
-- is left out.
pub record Service : Type 0 where
  pub ports : List (ℕ × ℤ)
  pub master : List ℤ
  pub listening : Option (ℤ × Bool)
  pub read_s : ℕ

-- The constructor.
unfoldable pub new_service : Service
new_service = record { ports = []; master = []; listening = none; read_s = 1024 }

-- `ports[port] = fd`
unfoldable pub set_port : ℕ → ℤ → List (ℕ × ℤ) → List (ℕ × ℤ)
set_port port fd [] = (port, fd) ∷ []
set_port port fd (p ∷ ps) =
    let rest = set_port port fd ps in
    if port == p.0 then (port, fd) ∷ ps else if ltb port p.0 then (port, fd) ∷ p ∷ ps else p ∷ rest

-- The descriptors in the order of the ports.
abbrev pub fds_of : List (ℕ × ℤ) → List ℤ
fds_of [] = []
fds_of (p ∷ ps) = p.1 ∷ fds_of ps

-- ~_service
unfoldable pub end_service : Service → Memory → Memory
end_service s m = record m { closed = m.closed ++ fds_of s.ports }

-- The loop of add_port: a descriptor that is bound, none, or an exception after setsockopt.
pub data Binding : Type 0 where
  bound_to : ℤ → Memory → Binding
  unbound : Memory → Binding
  not_reusable : Memory → Binding

abbrev pub is_minus_one : ℤ → Bool
is_minus_one (pos _) = false
is_minus_one (negsuc n) = n == 0

unfoldable pub bind_port : List Candidate → Memory → Binding
bind_port [] m = unbound m
bind_port (c ∷ cs) m =
    let closing = bind_port cs (record m { closed = m.closed ++ c.fd ∷ [] }) in
    let next = bind_port cs m in
    if is_minus_one c.fd
    then next
    else if not c.reusable
    then not_reusable m
    else if c.bound
    then bound_to c.fd m
    else closing

-- An exception leaves the service as it is.
pub data Added : Type 0 where
  added : Service → Memory → Added
  refused : Memory → Added

abbrev pub finish_port : ℕ → Bool → Service → Binding → Added
finish_port port tcp s (bound_to fd m) =
    added
      (record s {
        ports = set_port port fd s.ports;
        master = s.master ++ fd ∷ [];
        listening = some (fd, tcp);
      })
      m
finish_port port tcp s (unbound m) = refused m
finish_port port tcp s (not_reusable m) = refused m

-- add_port: `info` is what getaddrinfo returns. An error of listen is only reported.
unfoldable pub add_port : ℕ → Bool → ℤ → List Candidate → Service → Memory → Added
unfolding bind_port set_port
add_port port tcp (pos zero) candidates s m = finish_port port tcp s (bind_port candidates m)
add_port port tcp info candidates s m = refused m

-- What the system does for one address of add_any_port: the result of `socket`, whether `bind`
-- succeeds, and the port of the address in the order of its bytes.
pub record AnyCandidate : Type 0 where
  pub fd : ℤ
  pub bound : Bool
  pub sin_port : ℕ

-- The loop of add_any_port: the address that it has left at.
unfoldable pub bind_any : Bool → List AnyCandidate → Memory → Option AnyCandidate × Memory
bind_any tcp [] m = (none, m)
bind_any tcp (c ∷ cs) m =
    let closing = bind_any tcp cs (record m { closed = m.closed ++ c.fd ∷ [] }) in
    let next = bind_any tcp cs m in
    if is_minus_one c.fd then next else if tcp && c.bound then (some c, m) else closing

-- The end of add_any_port, which the loop only comes to for TCP.
abbrev pub finish_any : Service → Option AnyCandidate × Memory → ℕ × Service × Memory
finish_any s (none, m) = (0, s, m)
finish_any s (some c, m) = (
  c.sin_port,
  record s { ports = set_port c.sin_port c.fd s.ports; master = s.master ++ c.fd ∷ [] },
  m,
)

-- add_any_port: the port, and `info` as for add_port.
unfoldable pub add_any_port : Bool → ℤ → List AnyCandidate → Service → Memory → ℕ × Service × Memory
unfolding bind_any set_port
add_any_port tcp (pos zero) candidates s m = finish_any s (bind_any tcp candidates m)
add_any_port tcp info candidates s m = (0, s, m)
