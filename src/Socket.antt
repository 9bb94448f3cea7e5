-- ===== src/Socket.antt =====
-- class Socket of scaling/src/Socket.hpp and Socket.cpp: descriptors shared by a count of owners.
pub mod Owners
pub mod Candidates
pub mod Programs
use networking.Prelude.{
  ℕ, zero, suc, ◌+◌, ◌-◌, ◌%◌, ◌^◌, List, [], ◌∷◌, ◌++◌, Bool, true, false, ◌==◌, ◌&&◌, not,
  if◌then◌else◌, Option, none, some, ℤ, pos, negsuc,
}

-- enum Socket::type
pub data Kind : Type 0 where
  unset server client : Kind

-- `count` is the address of the counter, `none` for NULL; `fd` is -1 where there is no descriptor.
pub record Socket : Type 0 where
  pub host : List ℕ
  pub port : ℕ
  pub kind : Kind
  pub fd : ℤ
  pub count : Option ℕ

-- The counters in memory, the address of the next one, and the arguments of the calls of `close`.
pub record Memory : Type 0 where
  pub counts : ℕ → Option ℕ
  pub next : ℕ
  pub closed : List ℤ

abbrev pub update : (ℕ → Option ℕ) → ℕ → Option ℕ → ℕ → Option ℕ
update f a v b = if a == b then v else f b

abbrev is_positive : ℤ → Bool
is_positive (pos zero) = false
is_positive (pos (suc _)) = true
is_positive (negsuc _) = false

abbrev is_client : Kind → Bool
is_client client = true
is_client server = false
is_client unset = false

abbrev is_server : Kind → Bool
is_server server = true
is_server client = false
is_server unset = false

unfoldable pub is_connected : Socket → Bool
is_connected s = is_client s.kind && is_positive s.fd

unfoldable pub is_acceptable : Socket → Bool
is_acceptable s = is_server s.kind && is_positive s.fd

-- `new uint32_t(1)`
abbrev pub new_count : Memory → ℕ × Memory
new_count m = (m.next, record m { counts = update m.counts m.next (some 1); next = suc m.next })

abbrev pub no_socket : Socket
no_socket = record { host = []; port = 0; kind = unset; fd = negsuc 0; count = none }

-- Socket(int32_t, type)
unfoldable pub manage : ℤ → Kind → Memory → Socket × Memory
manage fd kind m =
    let (a, m') = new_count m in
    (record { host = []; port = 0; kind = kind; fd = fd; count = some a }, m')

-- `(*_count)++`, which faults on NULL and on a counter that has been deleted.
abbrev pub increment : Option ℕ → Memory → Option Memory
increment none m = none
increment (some a) m = elim (m.counts a) [
  | none ↦ none
  | some n ↦ some (record m { counts = update m.counts a (some ((n + 1) % 2 ^ 32)) })
]

-- The copy constructor and the move constructor, which is alike.
unfoldable pub copy : Socket → Memory → Option (Socket × Memory)
copy cpy m = elim (increment cpy.count m) [ none ↦ none | some m' ↦ some (cpy, m') ]

-- Gives the counter up; the last owner deletes it and closes the descriptor.
abbrev pub give_up : ℕ → ℤ → ℕ → Memory → Option ℕ × ℤ × Memory
give_up a fd n m =
    let n' = (n + 2 ^ 32 - 1) % 2 ^ 32 in
    if n' == 0
    then (
      none,
      negsuc 0,
      record m { counts = update m.counts a none; closed = m.closed ++ fd ∷ [] },
    )
    else (some a, fd, record m { counts = update m.counts a (some n') })

-- The test of the destructor and of the assignment: the counter and the descriptor that are left.
abbrev pub release : Option ℕ → ℤ → Memory → Option (Option ℕ × ℤ × Memory)
release none fd m = some (none, fd, m)
release (some a) fd m = elim (m.counts a) [ none ↦ none | some n ↦ some (give_up a fd n m) ]

-- ~Socket
unfoldable pub destroy : Socket → Memory → Option Memory
destroy s m = elim (release s.count s.fd m) [ none ↦ none | some (count, fd, m') ↦ some m' ]

-- operator=, where the two are different objects.
unfoldable pub assign : Socket → Socket → Memory → Option (Socket × Memory)
assign this soc m = elim (release this.count this.fd m) [
  | none ↦ none
  | some (count, fd, m') ↦ elim (increment soc.count m') [
    | none ↦ none
    | some m'' ↦ some (soc, m'')
  ]
]

-- operator= of an object to itself: `soc._count` and `soc._fd` are then what release has left.
unfoldable pub assign_self : Socket → Memory → Option (Socket × Memory)
assign_self this m = elim (release this.count this.fd m) [
  | none ↦ none
  | some (count, fd, m') ↦ elim (increment count m') [
    | none ↦ none
    | some m'' ↦ some (record this { fd = fd; count = count }, m'')
  ]
]

-- Accept: the descriptor and the text of the peer's address come from the system.
unfoldable pub accept : Socket → ℤ → List ℕ → Memory → Socket × Memory
accept s fd peer m =
    if is_acceptable s
    then (let (a, m') = new_count m in
        (record { host = peer; port = s.port; kind = client; fd = fd; count = some a }, m'))
    else (no_socket, m)
