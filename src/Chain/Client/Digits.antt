-- ===== src/Chain/Client/Digits.antt =====
-- The number in the first line of the chain file of proj2/awget.c.
use networking.Prelude.{
  ℕ, zero, suc, ◌+◌, ◌*◌, ◌/◌, ◌%◌, ◌^◌, ◌≤◌, ◌<◌, ◌≡◌, refl, ap, ◌∙◌, List, [], ◌∷◌, ◌++◌, true,
  false, some, length, length-append, ltb, ltb→lt, lt→ltb, ◌==◌, if◌then◌else◌, All, All-append,
  arith, append_assoc, Bool-cases, inl, inr, decimal_digits, decimal,
}
use networking.Chain.Client.{read_digits, atoi, is_digit, is_space, skip_space, signed, positive}

abbrev pub IsDigit : ℕ → Type 0
IsDigit c = (b'0' ≤ c) × (c ≤ b'9')

is_digit_of : (d : ℕ) → d < 10 → is_digit (b'0' + d) ≡ true
is_digit_of d h = ground arith

read_digit :
    (acc d : ℕ) (rest : List ℕ)
    → d < 10
    → read_digits acc ((b'0' + d) ∷ rest) ≡ read_digits (acc * 10 + d) rest
unfolding read_digits
read_digit acc d rest h = rw (is_digit_of d h) (ap (λ n. read_digits n rest) (omega arith))

read_last :
    (n : ℕ) (rest : List ℕ) → read_digits (n / 10) ((b'0' + n % 10) ∷ rest) ≡ read_digits n rest
read_last n rest =
    read_digit (n / 10) (n % 10) rest (omega arith) ∙ ap (λ k. read_digits k rest) (omega arith)

read_one :
    (n : ℕ) (rest : List ℕ) → n < 10 → read_digits 0 ((b'0' + n % 10) ∷ rest) ≡ read_digits n rest
read_one n rest h =
    read_digit 0 (n % 10) rest (omega arith) ∙ ap (λ k. read_digits k rest) (omega arith)

read_digits-digits :
    (width n : ℕ) (rest : List ℕ)
    → n < 10 ^ suc width
    → read_digits 0 (decimal_digits (suc width) n ++ rest) ≡ read_digits n rest
unfolding decimal_digits
read_digits-digits zero n rest h = rw (lt→ltb n 10 (omega arith)) (read_one n rest (omega arith))
read_digits-digits (suc width) n rest h = elim (Bool-cases (ltb n 10)) [
  | inl small ↦ rw small (read_one n rest (ltb→lt n 10 small))
  | inr large ↦
      rw (large, append_assoc)
        (read_digits-digits width (n / 10) ((b'0' + n % 10) ∷ rest) (omega arith)
          ∙ read_last n rest)
]

digits-IsDigit : (width n : ℕ) → All IsDigit (decimal_digits width n)
unfolding decimal_digits
digits-IsDigit zero n = tt
digits-IsDigit (suc width) n = elim (Bool-cases (ltb n 10)) [
  | inl small ↦ rw small ((omega arith, omega arith), tt)
  | inr large ↦ rw large (
      All-append IsDigit (decimal_digits width (n / 10)) ((b'0' + n % 10) ∷ [])
        (digits-IsDigit width (n / 10)) ((omega arith, omega arith), tt))
]

pub decimal-IsDigit : (n : ℕ) → All IsDigit (decimal n)
unfolding decimal
decimal-IsDigit n = digits-IsDigit 20 n

-- A text that starts with a digit is read from its start on.
signed_digits :
    (ds rest : List ℕ)
    → All IsDigit ds
    → 0 < length ds
    → signed (skip_space (ds ++ rest)) ≡ positive (read_digits 0 (ds ++ rest))
signed_digits [] rest v h = absurd (omega arith)
signed_digits (d ∷ ds) rest v h =
    let (lo, hi) = v.0 in rw (not_space d lo hi, not_minus d lo, not_plus d lo) refl
  where
    not_space : (d : ℕ) → b'0' ≤ d → d ≤ b'9' → is_space d ≡ false
    not_space d lo hi = ground arith

    not_minus : (d : ℕ) → b'0' ≤ d → (d == b'-') ≡ false
    not_minus d lo = ground arith

    not_plus : (d : ℕ) → b'0' ≤ d → (d == b'+') ≡ false
    not_plus d lo = ground arith

digits-length : (width n : ℕ) → length (decimal_digits width n) ≤ width
unfolding decimal_digits
digits-length zero n = omega arith
digits-length (suc width) n = elim (Bool-cases (ltb n 10)) [
  | inl small ↦ rw small (omega arith)
  | inr large ↦ rw large (
      omega (
        arith,
        length-append (decimal_digits width (n / 10)) ((b'0' + n % 10) ∷ []),
        digits-length width (n / 10),
      ))
]

pub decimal-length : (n : ℕ) → length (decimal n) ≤ 20
unfolding decimal
decimal-length n = digits-length 20 n

decimal_is_not_empty : (n : ℕ) → 0 < length (decimal n)
unfolding decimal decimal_digits
decimal_is_not_empty n = omega (
  arith,
  length-append (if ltb n 10 then [] else decimal_digits 19 (n / 10)) ((b'0' + n % 10) ∷ []),
)

-- atoi reads back what was printed.
pub atoi-decimal : (n : ℕ) (rest : List ℕ) → n < 2 ^ 31 → atoi (decimal n ++ b'\n' ∷ rest) ≡ some n
unfolding atoi decimal read_digits
atoi-decimal n rest h =
    signed_digits (decimal n) (b'\n' ∷ rest) (decimal-IsDigit n) (decimal_is_not_empty n)
    ∙ ap positive (read_digits-digits 19 n (b'\n' ∷ rest) (omega arith))
    ∙ rw (lt→ltb n (2 ^ 31) h) refl
