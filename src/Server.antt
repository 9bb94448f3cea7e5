-- ===== src/Server.antt =====
-- class Server of scaling/src/Server.hpp: the loop around select and Accept. A socket is its
-- descriptor; what is kept for a connection is left out.
pub mod Deaf
use networking.Prelude.{
  ℕ, ◌<◌, List, [], ◌∷◌, Bool, true, false, ltb, ◌==◌, ◌||◌, if◌then◌else◌, Option, none, some, All,
}

pub record Server : Type 0 where
  pub conns : List ℕ
  pub soc : ℕ

abbrev pub is_set : ℕ → List ℕ → Bool
is_set fd [] = false
is_set fd (x ∷ xs) = (fd == x) || is_set fd xs

-- `std::max` over the descriptors.
abbrev pub max_of : ℕ → List ℕ → ℕ
max_of max [] = max
max_of max (fd ∷ fds) = max_of (if ltb max fd then fd else max) fds

-- The first argument of select.
unfoldable pub nfds : Server → ℕ
nfds s = max_of (if ltb 0 s.soc then s.soc else 0) s.conns

-- `_conns[newsoc] = ...`
abbrev pub add_conn : ℕ → List ℕ → List ℕ
add_conn fd conns = if is_set fd conns then conns else fd ∷ conns

-- A round: the descriptors that select leaves in the set, `none` for -1, which ends the loop, and the
-- one that Accept returns if it is called.
unfoldable pub round : Option (List ℕ) → ℕ → Server → Option Server
round none fd s = none
round (some ready) fd s =
    some (if is_set s.soc ready then record s { conns = add_conn fd s.conns } else s)

-- The operator, over what the system does in its rounds: its state when it waits or has returned.
unfoldable pub serve : List (Option (List ℕ) × ℕ) → Server → Server
unfolding round
serve [] s = s
serve ((ready, fd) ∷ calls) s = elim (round ready fd s) [ none ↦ s | some s' ↦ serve calls s' ]
