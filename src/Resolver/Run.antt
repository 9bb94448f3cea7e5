-- ===== src/Resolver/Run.antt =====
-- How a function of proj3/myresolver.cpp ends. A message is the list of its bytes, and a position in
-- it is a number: no defined run takes a position far enough to wrap a uint32_t.
use networking.Prelude.{
  ℕ, zero, suc, ◌+◌, ◌≤◌, List, [], ◌∷◌, ◌++◌, ◌≡◌, ◌≢◌, refl, ap, ap₂, sym, ◌∙◌, length, drop,
  arith,
}

-- `undefined`: a byte is read behind the terminating NUL of a std::string. `out_of_range`: the
-- exception that `substr` throws. `exits`: the process has printed this and calls exit with this
-- status. `out_of_fuel`: the model's recursion ran out of rounds, where the program goes on.
pub data Run {ℓ} (A : Type ℓ) : Type ℓ where
  ok : A → Run A
  undefined : Run A
  out_of_range : Run A
  exits : ℕ → List ℕ → Run A
  out_of_fuel : Run A

infixl 5 ◌>>=◌
abbrev pub ◌>>=◌ {ℓ κ} : {A : Type ℓ} {B : Type κ} → Run A → (A → Run B) → Run B
ok a >>= f = f a
undefined >>= f = undefined
out_of_range >>= f = out_of_range
exits n text >>= f = exits n text
out_of_fuel >>= f = out_of_fuel

-- `records[i]` of a std::string: the byte at `i`, the NUL at the end, and nothing defined behind it.
unfoldable pub at : List ℕ → ℕ → Run ℕ
at [] zero = ok 0
at [] (suc i) = undefined
at (b ∷ bs) zero = ok b
at (b ∷ bs) (suc i) = at bs i

pub at-append : (xs ys : List ℕ) (i : ℕ) → at (xs ++ ys) (length xs + i) ≡ at ys i
unfolding at
at-append [] ys i = ground arith
at-append (x ∷ xs) ys i = ground (arith, at-append xs ys i)

pub at-append_head : (xs ys : List ℕ) (b : ℕ) → at (xs ++ b ∷ ys) (length xs) ≡ ok b
unfolding at
at-append_head [] ys b = refl
at-append_head (x ∷ xs) ys b = at-append_head xs ys b

-- From the position `i` on, the bytes of `r` are those of `s`.
abbrev pub From : List ℕ → ℕ → List ℕ → Type 0
From r i s = (k : ℕ) → at r (i + k) ≡ at s k

pub From-append : (xs ys : List ℕ) → From (xs ++ ys) (length xs) ys
From-append xs ys k = at-append xs ys k

at-at : (r : List ℕ) {i j : ℕ} → i ≡ j → at r i ≡ at r j
at-at r e = ap (at r) e

pub From-at : (r : List ℕ) (i : ℕ) (b : ℕ) (s : List ℕ) → From r i (b ∷ s) → at r i ≡ ok b
unfolding at
From-at r i b s h = at-at r (omega arith) ∙ h 0

pub From-tail : (r : List ℕ) (i : ℕ) (b : ℕ) (s : List ℕ) → From r i (b ∷ s) → From r (i + 1) s
unfolding at
From-tail r i b s h k = at-at r (omega arith) ∙ h (suc k)

pub From-drop : (r : List ℕ) (i : ℕ) (xs s : List ℕ) → From r i (xs ++ s) → From r (i + length xs) s
From-drop r i xs s h k = at-at r (omega arith) ∙ h (length xs + k) ∙ at-append xs s k

at-zero-ne-undefined : (s : List ℕ) → at s 0 ≢ undefined
unfolding at
at-zero-ne-undefined [] e = cc
at-zero-ne-undefined (b ∷ s) e = cc

ok-injective : {a b : ℕ} → ok a ≡ ok b → a ≡ b
ok-injective e = cc e

eq_of_at : (r s : List ℕ) → ((k : ℕ) → at r k ≡ at s k) → r ≡ s
unfolding at
eq_of_at [] [] h = refl
eq_of_at [] (b ∷ s) h = absurd (at-zero-ne-undefined s (sym (h 1)))
eq_of_at (a ∷ r) [] h = absurd (at-zero-ne-undefined r (h 1))
eq_of_at (a ∷ r) (b ∷ s) h = ap₂ ◌∷◌ (ok-injective (h 0)) (eq_of_at r s (λ k. h (suc k)))

-- `From` leaves no freedom: the bytes from `i` on are all of `s`.
pub From-drop_eq : (r : List ℕ) (i : ℕ) (s : List ℕ) → From r i s → (i ≤ length r) × (drop i r ≡ s)
unfolding at
From-drop_eq r zero s h = (omega arith, eq_of_at r s (λ k. at-at r (omega arith) ∙ h k))
From-drop_eq [] (suc i) s h =
    absurd (at-zero-ne-undefined s (sym (h 0) ∙ at-at [] {j = suc i} (omega arith)))
From-drop_eq (a ∷ r) (suc i) s h =
    let (le, e) = From-drop_eq r i s (λ k. at-at (a ∷ r) {i = suc (i + k)} (omega arith) ∙ h k) in
    (omega arith, e)

-- A step whose every continuation fails to return does not return.
pub >>=-ne-ok {ℓ κ} :
    {A : Type ℓ} {B : Type κ} (m : Run A) (f : A → Run B) {b : B}
    → ((a : A) → f a ≢ ok b)
    → (m >>= f) ≢ ok b
>>=-ne-ok (ok a) f h e = h a e
>>=-ne-ok undefined f h e = cc
>>=-ne-ok out_of_range f h e = cc
>>=-ne-ok (exits n text) f h e = cc
>>=-ne-ok out_of_fuel f h e = cc

-- A step that does not return leaves its continuation unused.
pub >>=-no_return {ℓ} :
    {A : Type ℓ} (m : Run A) (f : A → Run A) → ((a : A) → m ≢ ok a) → (m >>= f) ≡ m
>>=-no_return (ok a) f h = absurd (h a refl)
>>=-no_return undefined f h = refl
>>=-no_return out_of_range f h = refl
>>=-no_return (exits n text) f h = refl
>>=-no_return out_of_fuel f h = refl

-- What a step that returned has gone through.
pub >>=-eq-ok {ℓ κ} :
    {A : Type ℓ} {B : Type κ} (step : Run A) (next : A → Run B) {end : B}
    → (step >>= next) ≡ ok end
    → (x : A) × (step ≡ ok x) × (next x ≡ ok end)
>>=-eq-ok (ok x) next e = (x, refl, e)
>>=-eq-ok undefined next e = cc
>>=-eq-ok out_of_range next e = cc
>>=-eq-ok (exits n text) next e = cc
>>=-eq-ok out_of_fuel next e = cc
