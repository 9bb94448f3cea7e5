-- ===== src/Socket/Programs/Held.antt =====
-- The descriptors whose counters have owners, and those that are closed.
use networking.Prelude.{
  ℕ, zero, suc, ◌+◌, ◌<◌, ◌≤◌, ◌≡◌, ◌≢◌, refl, ap, ap₂, ◌∙◌, sym, subst, List, [], ◌∷◌, ◌++◌, Bool,
  true, false, ◌==◌, if◌then◌else◌, Bool-cases, inl, inr, ==_iff, Option, none, some, arith, length,
  ℤ, append_assoc, append-nil,
}
use mathlib.Core.List.{Perm}
use mathlib.Core.List.Perm
use networking.Socket.Owners.{owns_count, closed_by}

-- The descriptor that the counter at an address was made for: counters have the addresses 0, 1, ...
abbrev pub given_to : List ℤ → ℕ → Option ℤ
given_to [] a = none
given_to (fd ∷ fds) zero = some fd
given_to (fd ∷ fds) (suc a) = given_to fds a

-- The descriptors of the counters from the address `k` on that have owners, where the counter at `a`
-- has `f a`.
abbrev pub held : (ℕ → ℕ) → ℕ → List ℤ → List ℤ
held f k [] = []
held f k (fd ∷ fds) = if f k == 0 then held f (suc k) fds else fd ∷ held f (suc k) fds

-- Each descriptor that was given is either closed or held, as often as it was given.
abbrev pub Settled : List ℤ → List ℤ → (ℕ → ℕ) → Type 0
Settled given closed f = Perm given (closed ++ held f 0 given)

moved : (f : ℕ → ℕ) (a b : ℕ) (answer : Bool) → a ≡ b → (f a == 0) ≡ answer → (f b == 0) ≡ answer
moved f a b answer e h = ap (λ c. f c == 0) (sym e) ∙ h

held_eq :
    (f g : ℕ → ℕ) (k : ℕ) (fds : List ℤ)
    → ((a : ℕ) → k ≤ a → a < k + length fds → (f a == 0) ≡ (g a == 0))
    → held f k fds ≡ held g k fds
held_eq f g k [] h = refl
held_eq f g k (fd ∷ fds) h =
    rw
      (
        h k (omega arith) (omega arith),
        held_eq f g (suc k) fds (λ a lo hi. h a (omega arith) (omega arith)),
      )
      refl

held-append :
    (f : ℕ → ℕ) (k : ℕ) (fds : List ℤ) (fd : ℤ)
    → (f (k + length fds) == 0) ≡ false
    → held f k (fds ++ fd ∷ []) ≡ held f k fds ++ fd ∷ []
held-append f k [] fd h = rw (moved f (k + 0) k false (omega arith) h) refl
held-append f k (x ∷ fds) fd h =
    let rest =
      held-append f (suc k) fds fd
        (moved f (k + suc (length fds)) (suc k + length fds) false (omega arith) h) in
    elim (Bool-cases (f k == 0)) [
      | inl unowned ↦ rw unowned rest
      | inr owned ↦ rw owned (ap (◌∷◌ x) rest)
    ]

some-injective : {x y : ℤ} → some x ≡ some y → x ≡ y
some-injective e = cc e

-- When the last owner of one counter goes, its descriptor is the one that is no longer held.
held_less :
    (f g : ℕ → ℕ) (k i : ℕ) (fds : List ℤ) (fd : ℤ)
    → given_to fds i ≡ some fd
    → (f (k + i) == 0) ≡ false
    → (g (k + i) == 0) ≡ true
    → ((b : ℕ) → b ≢ k + i → (f b == 0) ≡ (g b == 0))
    → Perm (held f k fds) (fd ∷ held g k fds)
held_less f g k i [] fd e h₀ h₁ same = cc
held_less f g k zero (x ∷ fds) fd e h₀ h₁ same =
    rw (moved f (k + 0) k false (omega arith) h₀, moved g (k + 0) k true (omega arith) h₁)
      (subst (λ l. Perm (x ∷ held f (suc k) fds) l)
        (ap₂ ◌∷◌ (some-injective e)
          (held_eq f g (suc k) fds (λ a lo hi. same a (λ eq. omega (arith, eq)))))
        Perm.rfl)
held_less f g k (suc i) (x ∷ fds) fd e h₀ h₁ same =
    let rest =
      held_less f g (suc k) i fds fd e (moved f (k + suc i) (suc k + i) false (omega arith) h₀)
        (moved g (k + suc i) (suc k + i) true (omega arith) h₁)
        (λ b ne. same b (λ eq. ne (omega (arith, eq)))) in
    let here = same k (λ eq. omega (arith, eq)) in
    elim (Bool-cases (f k == 0)) [
      | inl unowned ↦ rw (← here, unowned) rest
      | inr owned ↦
          rw (← here, owned) (Perm.trans (Perm.cons x rest) (Perm.swap fd x (held g (suc k) fds)))
    ]

-- Only whether a counter has owners matters.
pub settled_same :
    (f g : ℕ → ℕ) (given closed : List ℤ)
    → ((a : ℕ) → (f a == 0) ≡ (g a == 0))
    → Settled given closed f
    → Settled given closed g
settled_same f g given closed h =
    subst (λ l. Perm given (closed ++ l)) (held_eq f g 0 given (λ a lo hi. h a))

shared : (f : ℕ → ℕ) (a b : ℕ) → 0 < f a → (f b == 0) ≡ (owns_count b (some a) + f b == 0)
shared f a b h = elim (Bool-cases (a == b)) [
  | inl same ↦
      let positive : 0 < f b = subst (λ c. 0 < f c) ((==_iff a b).0 same) h in
      rw same (ground arith)
  | inr other ↦ rw other (ap (λ n. n == 0) (omega arith))
]

others : (f : ℕ → ℕ) (a b : ℕ) → b ≢ a → (owns_count b (some a) + f b == 0) ≡ (f b == 0)
others f a b ne = elim (Bool-cases (a == b)) [
  | inl same ↦ absurd (ne (sym ((==_iff a b).0 same)))
  | inr other ↦ rw other (ap (λ n. n == 0) (omega arith))
]

-- One more owner of a counter that has some.
pub settled_share :
    (f : ℕ → ℕ) (a : ℕ) (given closed : List ℤ)
    → 0 < f a
    → Settled given closed f
    → Settled given closed (λ b. owns_count b (some a) + f b)
settled_share f a given closed h =
    settled_same f (λ b. owns_count b (some a) + f b) given closed (λ b. shared f a b h)

-- A descriptor with a counter of its own.
pub settled_new :
    (f g : ℕ → ℕ) (fd : ℤ) (given closed : List ℤ)
    → ((a : ℕ) → a < length given → (f a == 0) ≡ (g a == 0))
    → (g (length given) == 0) ≡ false
    → Settled given closed f
    → Settled (given ++ fd ∷ []) closed g
settled_new f g fd given closed same fresh p =
    subst (λ l. Perm (given ++ fd ∷ []) l)
      (append_assoc closed (held f 0 given) (fd ∷ [])
        ∙ ap (◌++◌ closed) (
            ap (λ l. l ++ fd ∷ []) (held_eq f g 0 given (λ a lo hi. same a (omega arith)))
            ∙ sym (
                held-append g 0 given fd
                  (moved g (length given) (0 + length given) false (omega arith) fresh))))
      (Perm.append_right (fd ∷ []) p)

-- An owner that gives up its counter, and closes the descriptor if it is the last.
pub settled_release :
    (f : ℕ → ℕ) (count : Option ℕ) (fd : ℤ) (given closed : List ℤ)
    → ((a : ℕ) → count ≡ some a → given_to given a ≡ some fd)
    → Settled given closed (λ b. owns_count b count + f b)
    → Settled given (closed ++ closed_by count fd f) f
settled_release f none fd given closed h p =
    subst (λ l. Settled given l f) (sym (append-nil closed))
      (settled_same (λ b. owns_count b none + f b) f given closed
        (λ b. ap (λ n. n == 0) (omega arith)) p)
settled_release f (some a) fd given closed h p = elim (Bool-cases (f a == 0)) [
  | inl last ↦ rw last (
      subst (λ l. Perm given l) (sym (append_assoc closed (fd ∷ []) (held f 0 given)))
        (Perm.trans p (
          Perm.append_left closed (
            held_less (λ b. owns_count b (some a) + f b) f 0 a given fd (h a refl) (ground arith)
              (moved f a (0 + a) true (omega arith) last)
              (λ b ne. others f a b (λ e. ne (omega (arith, e))))))))
  | inr more ↦
      rw (more, append-nil closed)
        (settled_same (λ b. owns_count b (some a) + f b) f given closed
          (λ b. sym (shared f a b (ground arith))) p)
]
