-- ===== src/Chain/Listener.antt =====
-- server and main of proj2/ss.c: the socket that a stepping stone listens on, and a thread for each
-- connection.
pub mod Threads
use networking.Prelude.{
  ℕ, zero, List, [], ◌∷◌, ◌++◌, Bool, true, false, ◌==◌, not, if◌then◌else◌, Option, none, some,
  codes, ℤ, pos, negsuc,
}
use networking.Socket.Candidates.{Candidate}
use networking.Service.{is_minus_one}

-- How the loop over the addresses ends, with the descriptors that are closed by then.
pub data Binding : Type 0 where
  bound_to : ℤ → List ℤ → Binding
  unbound : List ℤ → Binding
  not_reusable : List ℤ → Binding

unfoldable pub bind_stone : List Candidate → List ℤ → Binding
bind_stone [] closed = unbound closed
bind_stone (c ∷ cs) closed =
    let next = bind_stone cs closed in
    let closing = bind_stone cs (closed ++ c.fd ∷ []) in
    if is_minus_one c.fd
    then next
    else if not c.reusable
    then not_reusable closed
    else if c.bound
    then bound_to c.fd closed
    else closing

-- The accept loop: a thread for each descriptor; `none` is the result -1.
unfoldable pub accept_all : List (Option ℕ) → List ℕ
accept_all [] = []
accept_all (none ∷ calls) = accept_all calls
accept_all (some fd ∷ calls) = fd ∷ accept_all calls

-- What server comes to: it returns -1, or waits for a connection, with m_host and m_port, and after
-- starting threads for these descriptors.
pub data Course : Type 0 where
  returns_error : List ℤ → Course
  serves : ℤ → List ℕ → List ℕ → List ℕ → List ℤ → Course

-- What is behind the loop: `name` is what getnameinfo finds for the address, `none` for an error.
abbrev pub listen_on : Option (List ℕ × List ℕ) → Bool → List (Option ℕ) → Binding → Course
listen_on name listens calls (unbound closed) = returns_error closed
listen_on name listens calls (not_reusable closed) = returns_error closed
listen_on none listens calls (bound_to fd closed) = returns_error closed
listen_on (some (host, port)) listens calls (bound_to fd closed) =
    if listens then serves fd host port (accept_all calls) closed else returns_error closed

-- server: `info` is what getaddrinfo returns.
unfoldable pub server :
    ℤ → List Candidate → Option (List ℕ × List ℕ) → Bool → List (Option ℕ) → Course
unfolding bind_stone accept_all
server (pos zero) candidates name listens calls =
    listen_on name listens calls (bind_stone candidates [])
server info candidates name listens calls = returns_error []

-- The port of main, from the first option that getopt finds, if any.
abbrev pub port_option : Option (ℕ × List ℕ) → List ℕ
port_option none = codes "24516"
port_option (some (c, optarg)) = if c == b'p' then optarg else codes "24516"

-- main, where `find` is what getaddrinfo does for a port.
abbrev pub stone_main :
    (List ℕ → ℤ × List Candidate)
    → Option (ℕ × List ℕ)
    → Option (List ℕ × List ℕ)
    → Bool
    → List (Option ℕ)
    → Course
stone_main find option name listens calls =
    let (info, candidates) = find (port_option option) in server info candidates name listens calls
