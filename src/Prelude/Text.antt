-- ===== src/Prelude/Text.antt =====
-- Text as the list of its bytes, and numbers in print.
use Prim.Native.Nat.{ℕ, zero, suc, ◌+◌, ◌-◌, ◌*◌, ◌/◌, ◌%◌, ◌^◌, ◌<◌}
use Prim.Native.Char.{code}
use Prim.Native.String.{String}
use mathlib.Core.Path.{◌≡◌, ◌∙◌, ap}
use mathlib.Core.List.{List, [], ◌∷◌, ◌++◌, append_assoc}
use native.Mathlib.Omega.{arith}
use mathlib.Core.Logic.{inl, inr}
use networking.Prelude.Tests.{Bool-cases, ltb→lt, lt→ltb, ltb, ◌==◌, if◌then◌else◌}

-- The code points of an ASCII text.
abbrev pub codes : String → List ℕ
codes String.[] = []
codes (String.◌∷◌ c s) = code c ∷ codes s

-- The decimal digits of `n`, at most `width` of them.
unfoldable pub decimal_digits : ℕ → ℕ → List ℕ
decimal_digits zero n = []
decimal_digits (suc width) n =
    let rest = decimal_digits width (n / 10) in
    (if ltb n 10 then [] else rest) ++ (b'0' + n % 10) ∷ []

-- `stream << n` for an unsigned number of up to 64 bits.
unfoldable pub decimal : ℕ → List ℕ
unfolding decimal_digits
decimal n = decimal_digits 20 n

-- A reader of numbers that end in a dot or with the text.
unfoldable pub read_numbers : ℕ → List ℕ → List ℕ
read_numbers acc [] = acc ∷ []
read_numbers acc (c ∷ cs) =
    let next = read_numbers 0 cs in
    let more = read_numbers (acc * 10 + (c - b'0')) cs in if c == b'.' then acc ∷ next else more

read_digit :
    (acc d : ℕ) (rest : List ℕ)
    → d < 10
    → read_numbers acc ((b'0' + d) ∷ rest) ≡ read_numbers (acc * 10 + d) rest
unfolding read_numbers
read_digit acc d rest h = ground (arith, ap (λ n. read_numbers n rest) (same acc d))
  where
    same : (a k : ℕ) → a * 10 + (b'0' + k - b'0') ≡ a * 10 + k
    same a k = omega arith

read_last :
    (n : ℕ) (rest : List ℕ) → read_numbers (n / 10) ((b'0' + n % 10) ∷ rest) ≡ read_numbers n rest
read_last n rest =
    read_digit (n / 10) (n % 10) rest (omega arith) ∙ ap (λ k. read_numbers k rest) (omega arith)

read_one :
    (n : ℕ) (rest : List ℕ) → n < 10 → read_numbers 0 ((b'0' + n % 10) ∷ rest) ≡ read_numbers n rest
read_one n rest h =
    read_digit 0 (n % 10) rest (omega arith) ∙ ap (λ k. read_numbers k rest) (omega arith)

read_numbers-digits :
    (width n : ℕ) (rest : List ℕ)
    → n < 10 ^ suc width
    → read_numbers 0 (decimal_digits (suc width) n ++ rest) ≡ read_numbers n rest
unfolding decimal_digits
read_numbers-digits zero n rest h = rw (lt→ltb n 10 (omega arith)) (read_one n rest (omega arith))
read_numbers-digits (suc width) n rest h = elim (Bool-cases (ltb n 10)) [
  | inl small ↦ rw small (read_one n rest (ltb→lt n 10 small))
  | inr large ↦
      rw (large, append_assoc)
        (read_numbers-digits width (n / 10) ((b'0' + n % 10) ∷ rest) (omega arith)
          ∙ read_last n rest)
]

pub read_numbers-decimal :
    (n : ℕ) (rest : List ℕ) → n < 2 ^ 64 → read_numbers 0 (decimal n ++ rest) ≡ read_numbers n rest
unfolding decimal
read_numbers-decimal n rest h = read_numbers-digits 19 n rest (omega arith)
