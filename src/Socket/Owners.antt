-- ===== src/Socket/Owners.antt =====
-- A counter holds the number of the sockets that share it.
pub mod Sharing
pub mod Opening
use networking.Prelude.{
  ℕ, zero, suc, ◌+◌, ◌-◌, ◌%◌, ◌^◌, ◌<◌, ◌≤◌, ◌≡◌, ◌≢◌, refl, ap, ◌∙◌, List, [], ◌∷◌, ◌++◌, Bool,
  true, false, ◌==◌, if◌then◌else◌, Bool-cases, inl, inr, ==_iff, sym, append-nil, Option, none,
  some, arith, length, ℤ, negsuc,
}
use networking.Socket.{
  Socket, Memory, update, increment, give_up, release, copy, destroy, assign, assign_self,
}

-- Whether a socket owns the counter at `a`, and how many of a list do.
abbrev pub owns_count : ℕ → Option ℕ → ℕ
owns_count a none = 0
owns_count a (some b) = if b == a then 1 else 0

abbrev pub owns : ℕ → Socket → ℕ
owns a s = owns_count a s.count

abbrev pub owners : ℕ → List Socket → ℕ
owners a [] = 0
owners a (s ∷ ss) = owns a s + owners a ss

-- What memory holds at the address of a counter with `n` owners.
abbrev pub tally : ℕ → Option ℕ
tally zero = none
tally (suc n) = some (suc n)

-- The live sockets of the program, few enough for a uint32_t, and the counters in memory.
pub record IsCounted (live : List Socket) (m : Memory) : Type 0 where
  pub few : length live < 2 ^ 32
  pub counted : (a : ℕ) → m.counts a ≡ tally (owners a live)

pub owners-append : (a : ℕ) (xs ys : List Socket) → owners a (xs ++ ys) ≡ owners a xs + owners a ys
owners-append a [] ys = omega arith
owners-append a (x ∷ xs) ys = omega (arith, owners-append a xs ys)

pub owners-le : (a : ℕ) (xs : List Socket) → owners a xs ≤ length xs
owners-le a [] = omega arith
owners-le a (x ∷ xs) = ground (arith, owners-le a xs)

-- Memory holds the counters of `f b` owners for each address `b`.
abbrev pub Counted : (ℕ → ℕ) → Memory → Type 0
Counted f m = (b : ℕ) → m.counts b ≡ tally (f b)

pub tally_pos : (n : ℕ) → 0 < n → tally n ≡ some n
tally_pos zero h = absurd (omega arith)
tally_pos (suc n) h = refl

counts_pos : (f : ℕ → ℕ) (m : Memory) (a : ℕ) → Counted f m → 0 < f a → m.counts a ≡ some (f a)
counts_pos f m a v h = v a ∙ tally_pos (f a) h

pub update_grow :
    (f : ℕ → ℕ) (m : Memory) (a b : ℕ)
    → Counted f m
    → update m.counts a (some (f a + 1)) b ≡ tally (owns_count b (some a) + f b)
update_grow f m a b v = elim (Bool-cases (a == b)) [
  | inl same ↦
      let e : a ≡ b = (==_iff a b).0 same in
      rw (same, ← e) (sym (tally_pos (1 + f a) (omega arith) ∙ ap some (omega arith)))
  | inr other ↦ rw other (v b ∙ ap tally (omega arith))
]

update_shrink :
    (f : ℕ → ℕ) (m : Memory) (a b : ℕ)
    → Counted (λ x. owns_count x (some a) + f x) m
    → update m.counts a (tally (f a)) b ≡ tally (f b)
update_shrink f m a b v = elim (Bool-cases (a == b)) [
  | inl same ↦ rw (same, (==_iff a b).0 same) refl
  | inr other ↦ rw other (v b ∙ rw other (ap tally (omega arith)))
]

pub increment_lem :
    (f : ℕ → ℕ) (m : Memory) (a : ℕ)
    → Counted f m
    → 0 < f a
    → f a + 1 < 2 ^ 32
    → (m' : Memory) × (increment (some a) m ≡ some m')
      × Counted (λ x. owns_count x (some a) + f x) m'
      × (m'.closed ≡ m.closed)
      × (m'.next ≡ m.next)
increment_lem f m a v h l = (
  record m { counts = update m.counts a (some (f a + 1)) },
  rw (increment, counts_pos f m a v h)
      (ap (λ n. some (record m { counts = update m.counts a (some n) })) (omega arith)),
  (λ b. update_grow f m a b v),
  refl,
  refl,
)

-- What a socket closes when it gives up its counter, of which `n` owners are left.
abbrev pub closed_by : Option ℕ → ℤ → (ℕ → ℕ) → List ℤ
closed_by none fd f = []
closed_by (some a) fd f = if f a == 0 then fd ∷ [] else []

-- The counter that the socket keeps.
abbrev pub kept : Option ℕ → (ℕ → ℕ) → Option ℕ
kept none f = none
kept (some a) f = if f a == 0 then none else some a

-- The descriptor that the socket keeps.
abbrev pub kept_fd : Option ℕ → ℤ → (ℕ → ℕ) → ℤ
kept_fd none fd f = fd
kept_fd (some a) fd f = if f a == 0 then negsuc 0 else fd

pub release_lem :
    (f : ℕ → ℕ) (m : Memory) (count : Option ℕ) (fd : ℤ)
    → Counted (λ x. owns_count x count + f x) m
    → ((a : ℕ) → f a + 1 < 2 ^ 32)
    → (count' : Option ℕ) × (fd' : ℤ) × (m' : Memory) × (release count fd m
        ≡ some (count', fd', m'))
      × Counted f m'
      × (m'.closed ≡ m.closed ++ closed_by count fd f)
      × (count' ≡ kept count f)
      × (m'.next ≡ m.next)
      × (fd' ≡ kept_fd count fd f)
release_lem f m none fd v l = (
  none,
  fd,
  m,
  refl,
  (λ b. v b ∙ ap tally (omega arith)),
  sym (append-nil m.closed),
  refl,
  refl,
  refl,
)
release_lem f m (some a) fd v l = elim (Bool-cases (f a == 0)) [
  | inl last ↦ (
    none,
    negsuc 0,
    record m { counts = update m.counts a none; closed = m.closed ++ fd ∷ [] },
    rw (release, held, give_up, less, last) refl,
    (λ b. ap (λ t. update m.counts a t b) (ap tally (sym ((==_iff (f a) 0).0 last))) ∙ shrunk b),
    rw last refl,
    rw last refl,
    refl,
    rw last refl,
  )
  | inr more ↦ (
    some a,
    fd,
    record m { counts = update m.counts a (some (f a)) },
    rw (release, held, give_up, less, more) refl,
    (λ b. ap (λ t. update m.counts a t b) (sym (tally_pos (f a) (ground arith))) ∙ shrunk b),
    rw more (sym (append-nil m.closed)),
    rw more refl,
    refl,
    rw more refl,
  )
]
  where
    one : owns_count a (some a) ≡ 1
    one = ground arith

    held : m.counts a ≡ some (f a + 1)
    held = v a ∙ ap tally (omega (arith, one)) ∙ tally_pos (f a + 1) (omega arith)

    less : (f a + 1 + 2 ^ 32 - 1) % 2 ^ 32 ≡ f a
    less = omega (arith, l a)

    shrunk : (b : ℕ) → update m.counts a (tally (f a)) b ≡ tally (f b)
    shrunk b = update_shrink f m a b v
