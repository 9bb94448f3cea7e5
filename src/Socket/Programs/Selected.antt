-- ===== src/Socket/Programs/Selected.antt =====
-- A socket that is selected from the live ones, and its counter.
use networking.Prelude.{
  ℕ, ltb→lt, zero, suc, ◌<◌, ◌≡◌, refl, ap, ◌∙◌, List, [], ◌∷◌, ◌++◌, Bool, true, ◌⊎◌, inl, inr,
  Option, none, some, arith,
}
use networking.Socket.{Socket}
use networking.Socket.Owners.{owns_count, owners}
use networking.Socket.Owners.Sharing.{owners_middle}
use networking.Socket.Programs.{Choice, select, is_shared, is_counter}
use networking.Socket.Programs.Sound.{owns_one}

-- A socket that is chosen stands between the others.
pub select_cases :
    (i : ℕ) (live : List Socket)
    → (select i live ≡ none)
      ⊎ ((c : Choice) × (select i live ≡ some c) × (live ≡ c.before ++ c.it ∷ c.after))
select_cases i [] = inl refl
select_cases zero (s ∷ ss) = inr (record { before = []; it = s; after = ss }, refl, refl)
select_cases (suc i) (s ∷ ss) = elim (select_cases i ss) [
  | inl e ↦ inl (rw e refl)
  | inr (c, e, q) ↦ inr (record c { before = s ∷ c.before }, rw e refl, ap (◌∷◌ s) q)
]

-- A live socket with a counter owns it.
pub owned : (c : Choice) (a : ℕ) → c.it.count ≡ some a → 0 < owners a (c.before ++ c.it ∷ c.after)
owned c a h = omega (arith, owners_middle a c.before c.it c.after, ap (owns_count a) h ∙ owns_one a)

abbrev pub is_usable : Choice → Bool
is_usable c = is_counter c.it.count

pub counter_of : (count : Option ℕ) → is_counter count ≡ true → (a : ℕ) × (count ≡ some a)
counter_of none h = cc
counter_of (some a) h = (a, refl)

pub shared_counter :
    (count : Option ℕ) (ss : List Socket)
    → is_shared count ss ≡ true
    → (a : ℕ) × (count ≡ some a) × (0 < owners a ss)
shared_counter none ss h = cc
shared_counter (some a) ss h = (a, refl, ltb→lt 0 (owners a ss) h)
