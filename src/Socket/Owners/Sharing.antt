-- ===== src/Socket/Owners/Sharing.antt =====
-- Copies, assignments and destructors keep every counter equal to the number of its owners.
use networking.Prelude.{
  ℕ, ap₂, ◌==◌, false, ℤ, append-nil, Option, suc, ◌+◌, ◌^◌, ◌<◌, ◌≡◌, refl, ap, ◌∙◌, sym, List,
  ◌∷◌, ◌++◌, none, some, arith, length, length-append, Option-cases, inl, inr,
}
use networking.Socket.{Socket, Memory, increment, release, copy, destroy, assign, assign_self}
use networking.Socket.Owners.{
  owns_count, owns, owners, tally, IsCounted, Counted, owners-append, owners-le, closed_by, kept,
  kept_fd, increment_lem, release_lem,
}

-- A socket in the middle counts like one in front.
pub owners_middle :
    (a : ℕ) (xs : List Socket) (s : Socket) (ys : List Socket)
    → owners a (xs ++ s ∷ ys) ≡ owns a s + owners a (xs ++ ys)
owners_middle a xs s ys = omega (arith, owners-append a xs (s ∷ ys), owners-append a xs ys)

pub length_middle :
    (xs : List Socket) (s : Socket) (ys : List Socket)
    → length (xs ++ s ∷ ys) ≡ suc (length (xs ++ ys))
length_middle xs s ys = omega (arith, length-append xs (s ∷ ys), length-append xs ys)

room : (a : ℕ) (xs : List Socket) → length xs + 1 < 2 ^ 32 → owners a xs + 1 < 2 ^ 32
room a xs h = omega (arith, owners-le a xs)

-- A copy of a live socket that owns a counter is one more owner, and closes nothing and makes no counter.
pub copy-IsCounted :
    (s : Socket) (live : List Socket) (m : Memory) (a : ℕ)
    → s.count ≡ some a
    → 0 < owners a live
    → length live + 1 < 2 ^ 32
    → IsCounted live m
    → (m' : Memory) × (copy s m ≡ some (s, m'))
      × IsCounted (s ∷ live) m'
      × (m'.closed ≡ m.closed)
      × (m'.next ≡ m.next)
unfolding copy
copy-IsCounted s live m a h o l v =
    let (m', e, counted, same, next) =
      increment_lem (λ b. owners b live) m a v.counted o (room a live l) in
    (
      m',
      ap (λ c. elim (increment c m) [ none ↦ none | some x ↦ some (s, x) ]) h
          ∙ ap (λ r. elim r [ none ↦ none | some x ↦ some (s, x) ]) e,
      record {
        few = omega (arith, l);
        counted = λ b. counted b ∙ ap (λ c. tally (owns_count b c + owners b live)) (sym h);
      },
      same,
      next,
    )

not_zero : (n : ℕ) → 0 < n → (n == 0) ≡ false
not_zero n h = ground arith

-- The second half of an assignment of an object to itself.
abbrev took_back : Socket → Option ℕ → ℤ → Option Memory → Option (Socket × Memory)
took_back s count fd none = none
took_back s count fd (some m) = some (record s { fd = fd; count = count }, m)

abbrev taken_back : Socket → Memory → Option ℕ → ℤ → Option (Socket × Memory)
taken_back s m count fd = took_back s count fd (increment count m)

module _ (xs : List Socket) (s : Socket) (ys : List Socket) (m : Memory)
    (l : length (xs ++ s ∷ ys) < 2 ^ 32) (v : IsCounted (xs ++ s ∷ ys) m) where
  split_off : Counted (λ x. owns_count x s.count + owners x (xs ++ ys)) m
  split_off b = v.counted b ∙ ap tally (owners_middle b xs s ys)

  enough : (a : ℕ) → owners a (xs ++ ys) + 1 < 2 ^ 32
  enough a = room a (xs ++ ys) (omega (arith, length_middle xs s ys, l))

  -- The destructor of a live socket gives up its share, and closes the descriptor exactly when no
  -- other live socket has one. It makes no counter.
  pub destroy-IsCounted :
      (m' : Memory) × (destroy s m ≡ some m')
      × IsCounted (xs ++ ys) m'
      × (m'.closed ≡ m.closed ++ closed_by s.count s.fd (λ a. owners a (xs ++ ys)))
      × (m'.next ≡ m.next)
  unfolding destroy
  destroy-IsCounted =
      let (count, fd, m', e, counted, closes, _, next, _) =
        release_lem (λ a. owners a (xs ++ ys)) m s.count s.fd split_off enough in
      (
        m',
        rw (destroy, e) refl,
        record { few = omega (arith, length_middle xs s ys, l); counted = counted },
        closes,
        next,
      )

  -- An assignment from another live socket with a counter gives up the old share, takes one of the
  -- other, and closes the old descriptor exactly when no other live socket has it. It makes no counter.
  pub assign-IsCounted :
      (soc : Socket) (a : ℕ)
      → soc.count ≡ some a
      → 0 < owners a (xs ++ ys)
      → (m' : Memory) × (assign s soc m ≡ some (soc, m'))
        × IsCounted (xs ++ soc ∷ ys) m'
        × (m'.closed ≡ m.closed ++ closed_by s.count s.fd (λ b. owners b (xs ++ ys)))
        × (m'.next ≡ m.next)
  unfolding assign
  assign-IsCounted soc a h o =
      let (count, fd, m₁, e₁, counted₁, closes, _, next₁, _) =
        release_lem (λ b. owners b (xs ++ ys)) m s.count s.fd split_off enough in
      let (m₂, e₂, counted₂, same, next₂) =
        increment_lem (λ b. owners b (xs ++ ys)) m₁ a counted₁ o (enough a) in
      (
        m₂,
        rw (assign, e₁, ap (λ c. increment c m₁) h ∙ e₂) refl,
        record {
          few = omega (arith, length_middle xs s ys, length_middle xs soc ys, l);
          counted = λ b.
              counted₂ b
              ∙ ap (λ c. tally (owns_count b c + owners b (xs ++ ys))) (sym h)
              ∙ ap tally (sym (owners_middle b xs soc ys));
        },
        same ∙ closes,
        next₂ ∙ next₁,
      )

  -- A live socket that is the only owner of its counter faults when it is assigned to itself.
  pub assign_self_faults :
      (a : ℕ) → s.count ≡ some a → owners a (xs ++ ys) ≡ 0 → assign_self s m ≡ none
  unfolding assign_self
  assign_self_faults a h o =
      let (count, fd, m₁, e₁, counted₁, closes, left, _, _) =
        release_lem (λ b. owners b (xs ++ ys)) m s.count s.fd split_off enough in
      let nothing : count ≡ none =
        left ∙ ap (λ c. kept c (λ b. owners b (xs ++ ys))) h ∙ rw o refl in
      rw (assign_self, e₁, ap (λ c. increment c m₁) nothing) refl

  -- A live socket whose counter has another owner can be assigned to itself: nothing is closed, no
  -- counter is made, and every counter is as before.
  pub assign_self-IsCounted :
      (a : ℕ)
      → s.count ≡ some a
      → 0 < owners a (xs ++ ys)
      → (m' : Memory) × (assign_self s m ≡ some (s, m'))
        × IsCounted (xs ++ s ∷ ys) m'
        × (m'.closed ≡ m.closed)
        × (m'.next ≡ m.next)
  unfolding assign_self
  assign_self-IsCounted a h o =
      let f = (λ (b : ℕ). owners b (xs ++ ys)) in
      let (count, fd, m₁, e₁, counted₁, closes, left, next₁, left_fd) =
        release_lem f m s.count s.fd split_off enough in
      let some_left = not_zero (f a) o in
      let same_count : count ≡ some a = left ∙ ap (λ c. kept c f) h ∙ rw some_left refl in
      let same_fd : fd ≡ s.fd = left_fd ∙ ap (λ c. kept_fd c s.fd f) h ∙ rw some_left refl in
      let (m₂, e₂, counted₂, same, next₂) = increment_lem f m₁ a counted₁ o (enough a) in
      (
        m₂,
        rw (assign_self, e₁) refl
            ∙ ap₂ (taken_back s m₁) same_count same_fd
            ∙ ap (took_back s (some a) s.fd) e₂
            ∙ ap (λ c. some (record s { count = c }, m₂)) (sym h),
        record {
          few = l;
          counted = λ b.
              counted₂ b
              ∙ ap (λ c. tally (owns_count b c + f b)) (sym h)
              ∙ ap tally (sym (owners_middle b xs s ys));
        },
        same
            ∙ closes
            ∙ ap (λ c. m.closed ++ closed_by c s.fd f) h
            ∙ rw some_left (append-nil m.closed),
        next₂ ∙ next₁,
      )

-- A socket without a counter, such as the one that the default constructor makes, cannot be copied
-- or assigned: the program faults.
pub copy_faults :
    (this s : Socket) (m : Memory) → s.count ≡ none → (copy s m ≡ none) × (assign this s m ≡ none)
unfolding copy assign
copy_faults this s m h = (
  rw (copy, ap (λ c. increment c m) h) refl,
  elim (Option-cases (release this.count this.fd m)) [
    | inl e ↦ rw (assign, e) refl
    | inr ((count, fd, m'), e) ↦ rw (assign, e, ap (λ c. increment c m') h) refl
  ],
)
