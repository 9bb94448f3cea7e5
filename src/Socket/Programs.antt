-- ===== src/Socket/Programs.antt =====
-- What a program may do with sockets: a sequence of constructions, copies, assignments and
-- destructions. It runs with the descriptors that it has given to counters, in the order of the
-- counters' addresses.
pub mod Held
pub mod Sound
pub mod Preserved
pub mod Selected
pub mod Acts
pub mod Reached
use networking.Prelude.{
  ℕ, zero, suc, List, [], ◌∷◌, ◌++◌, ltb, Bool, true, false, ◌&&◌, if◌then◌else◌, Option, none,
  some, ℤ,
}
use networking.Socket.{
  Socket, Memory, Kind, no_socket, manage, copy, destroy, assign, assign_self, accept,
  is_acceptable,
}
use networking.Socket.Owners.{owners}

pub record Program : Type 0 where
  pub live : List Socket
  pub memory : Memory
  pub given : List ℤ

-- A live socket, and those on its two sides.
pub record Choice : Type 0 where
  pub before : List Socket
  pub it : Socket
  pub after : List Socket

abbrev pub others : Choice → List Socket
others c = c.before ++ c.after

abbrev pub select : ℕ → List Socket → Option Choice
select i [] = none
select zero (s ∷ ss) = some (record { before = []; it = s; after = ss })
select (suc i) (s ∷ ss) = elim (select i ss) [
  | none ↦ none
  | some c ↦ some (record c { before = s ∷ c.before })
]

-- Sockets are chosen by their places; the source of an assignment by its place among the others.
pub data Action : Type 0 where
  managing : ℤ → Kind → Action
  defaulting : Action
  accepting : ℕ → ℤ → List ℕ → Action
  copying : ℕ → Action
  assigning : ℕ → ℕ → Action
  assigning_self : ℕ → Action
  destroying : ℕ → Action

abbrev pub act_on : {A : Type 0} → Option Choice → A → (Choice → A) → A
act_on none idle use_it = idle
act_on (some c) idle use_it = use_it c

abbrev pub with_socket :
    (Socket → List Socket) → Program → Option (Socket × Memory) → Option Program
with_socket live p none = none
with_socket live p (some (s, m)) = some (record p { live = live s; memory = m })

abbrev pub with_memory : List Socket → Program → Option Memory → Option Program
with_memory live p none = none
with_memory live p (some m) = some (record p { live = live; memory = m })

-- One action; `none` is a fault, and an action on a place without a socket does nothing.
abbrev pub act : Action → Program → Option Program
act (managing fd kind) p =
    let (s, m) = manage fd kind p.memory in
    some (record { live = s ∷ p.live; memory = m; given = p.given ++ fd ∷ [] })
act defaulting p = some (record p { live = no_socket ∷ p.live })
act (accepting i fd peer) p = act_on (select i p.live) (some p) λ c.
    let (s, m) = accept c.it fd peer p.memory in
    some (record {
      live = s ∷ p.live;
      memory = m;
      given = if is_acceptable c.it then p.given ++ fd ∷ [] else p.given;
    })
act (copying i) p =
    act_on (select i p.live) (some p) λ c. with_socket (λ s. s ∷ p.live) p (copy c.it p.memory)
act (assigning i j) p = act_on (select i p.live) (some p) λ c.
    act_on (select j (others c)) (some p)
      λ d. with_socket (λ s. c.before ++ s ∷ c.after) p (assign c.it d.it p.memory)
act (assigning_self i) p =
    act_on (select i p.live) (some p)
      λ c. with_socket (λ s. c.before ++ s ∷ c.after) p (assign_self c.it p.memory)
act (destroying i) p =
    act_on (select i p.live) (some p) λ c. with_memory (others c) p (destroy c.it p.memory)

abbrev pub is_counter : Option ℕ → Bool
is_counter none = false
is_counter (some _) = true

-- Whether one of these sockets owns the counter.
abbrev pub is_shared : Option ℕ → List Socket → Bool
is_shared none ss = false
is_shared (some a) ss = ltb 0 (owners a ss)

-- A socket that is copied or assigned from has a counter, and one that is assigned to itself shares
-- it with another.
abbrev pub allowed : Action → Program → Bool
allowed (copying i) p = act_on (select i p.live) true λ c. is_counter c.it.count
allowed (assigning i j) p =
    act_on (select i p.live) true λ c. act_on (select j (others c)) true λ d. is_counter d.it.count
allowed (assigning_self i) p = act_on (select i p.live) true λ c. is_shared c.it.count (others c)
allowed (managing _ _) p = true
allowed defaulting p = true
allowed (accepting _ _ _) p = true
allowed (destroying _) p = true

-- A program of several actions, until one faults.
abbrev pub run_actions : List Action → Program → Option Program
run_actions [] p = some p
run_actions (x ∷ xs) p = elim (act x p) [ none ↦ none | some p' ↦ run_actions xs p' ]

abbrev pub all_allowed : List Action → Program → Bool
all_allowed [] p = true
all_allowed (x ∷ xs) p = allowed x p && elim (act x p) [ none ↦ true | some p' ↦ all_allowed xs p' ]

-- No socket and no counter.
abbrev pub empty_program : Program
empty_program = record {
  live = [];
  memory = record { counts = λ a. none; next = 0; closed = [] };
  given = [];
}
