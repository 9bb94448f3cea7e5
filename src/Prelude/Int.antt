-- ===== src/Prelude/Int.antt =====
-- Signed integers over the native numbers, and their two's complement patterns.
use Prim.Native.Nat.{ℕ, suc, ◌-◌, ◌*◌, ◌<◌}
use mathlib.Core.Path.{◌≡◌}
use native.Mathlib.Omega.{arith}
use networking.Prelude.Tests.{ltb, if◌then◌else◌}

-- `negsuc n` is -(n + 1).
pub data ℤ : Type 0 where
  pos : ℕ → ℤ
  negsuc : ℕ → ℤ

-- The pattern, below `modulus`, of a number that `modulus / 2` bounds, and the number of a pattern.
abbrev pub to_pattern : ℕ → ℤ → ℕ
to_pattern modulus (pos n) = n
to_pattern modulus (negsuc n) = modulus - suc n

abbrev pub of_pattern : ℕ → ℕ → ℤ
of_pattern half w = if ltb w half then pos w else negsuc (2 * half - suc w)

-- A number from -half up to half - 1.
abbrev pub InRange : ℕ → ℤ → Type 0
InRange half (pos n) = n < half
InRange half (negsuc n) = n < half

pub of_pattern-to_pattern :
    (half : ℕ) (z : ℤ) → InRange half z → of_pattern half (to_pattern (2 * half) z) ≡ z
of_pattern-to_pattern half (pos n) h = ground arith
of_pattern-to_pattern half (negsuc n) h = ground arith

pub to_pattern-lt : (half : ℕ) (z : ℤ) → InRange half z → to_pattern (2 * half) z < 2 * half
to_pattern-lt half (pos n) h = omega arith
to_pattern-lt half (negsuc n) h = omega arith
