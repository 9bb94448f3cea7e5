-- ===== src/Stream/Numbers.antt =====
-- The operators of Stream for bool, the integers and the floating-point numbers. A signed integer
-- goes over the wire as its two's complement pattern, lowest byte first. A floating-point number
-- stands for the bytes that it occupies.
use networking.Prelude.{
  ℕ, ◌+◌, ◌*◌, ◌/◌, ◌%◌, ◌^◌, ◌<◌, ◌≡◌, refl, ap, ◌∙◌, List, [], ◌∷◌, Bool, true, false, Option,
  ◌==◌, if◌then◌else◌, arith, ℤ, to_pattern, of_pattern, InRange, of_pattern-to_pattern,
  to_pattern-lt,
}
use networking.Transfer.{Ended, returned, waiting, undefined, Conn, recv}
use networking.Stream.Io.{
  Io, ◌>>=◌, pure, write, read, Carries, fixed-Carries, Writes, Reads, write-Writes, read-Reads,
  map-Reads,
}

abbrev bool_bytes : Bool → List ℕ
bool_bytes b = (if b then 1 else 0) ∷ []

unfoldable pub put_bool : Bool → Io (Unit {0})
put_bool val = write (bool_bytes val)

-- The byte goes straight to `val`, which keeps its value if none comes. No other byte than 0 and 1
-- is a bool.
abbrev read_bool : Bool → Ended (Option ℕ × List ℕ × Conn) → Ended (Bool × Conn)
read_bool val (returned (ret, [], c)) = returned (val, c)
read_bool val (returned (ret, b ∷ _, c)) =
    if b == 0 then returned (false, c) else if b == 1 then returned (true, c) else undefined
read_bool val waiting = waiting
read_bool val undefined = undefined

unfoldable pub get_bool : Bool → Io Bool
get_bool val c = read_bool val (recv 1 c)

-- `data[0] = val & 0xFF; data[1] = (val & (0xFF << 8)) >> 8; ...`
abbrev bytes2 : ℕ → List ℕ
bytes2 val = val % 256 ∷ val / 2 ^ 8 % 256 ∷ []

abbrev bytes4 : ℕ → List ℕ
bytes4 val = val % 256 ∷ val / 2 ^ 8 % 256 ∷ val / 2 ^ 16 % 256 ∷ val / 2 ^ 24 % 256 ∷ []

abbrev bytes8 : ℕ → List ℕ
bytes8 val =
    val % 256
    ∷ val / 2 ^ 8 % 256
    ∷ val / 2 ^ 16 % 256
    ∷ val / 2 ^ 24 % 256
    ∷ val / 2 ^ 32 % 256
    ∷ val / 2 ^ 40 % 256
    ∷ val / 2 ^ 48 % 256
    ∷ val / 2 ^ 56 % 256
    ∷ []

-- `data[0] | (data[1] << 8) | ...`: the bytes have no bit in common, so that they add up.
abbrev little_endian : List ℕ → ℕ
little_endian [] = 0
little_endian (b ∷ bs) = b + 256 * little_endian bs

unfoldable pub put_short : ℤ → Io (Unit {0})
put_short val = write (bytes2 (to_pattern (2 * 2 ^ 15) val))

unfoldable pub put_unsigned_short : ℕ → Io (Unit {0})
put_unsigned_short val = write (bytes2 val)

unfoldable pub put_int : ℤ → Io (Unit {0})
put_int val = write (bytes4 (to_pattern (2 * 2 ^ 31) val))

unfoldable pub put_unsigned_int : ℕ → Io (Unit {0})
put_unsigned_int val = write (bytes4 val)

unfoldable pub put_long : ℤ → Io (Unit {0})
put_long val = write (bytes8 (to_pattern (2 * 2 ^ 63) val))

unfoldable pub put_unsigned_long : ℕ → Io (Unit {0})
put_unsigned_long val = write (bytes8 val)

unfoldable pub get_short : Io ℤ
get_short = do bytes ← read 2; pure (of_pattern (2 ^ 15) (little_endian bytes))

unfoldable pub get_unsigned_short : Io ℕ
get_unsigned_short = do bytes ← read 2; pure (little_endian bytes)

unfoldable pub get_int : Io ℤ
get_int = do bytes ← read 4; pure (of_pattern (2 ^ 31) (little_endian bytes))

unfoldable pub get_unsigned_int : Io ℕ
get_unsigned_int = do bytes ← read 4; pure (little_endian bytes)

unfoldable pub get_long : Io ℤ
get_long = do bytes ← read 8; pure (of_pattern (2 ^ 63) (little_endian bytes))

unfoldable pub get_unsigned_long : Io ℕ
get_unsigned_long = do bytes ← read 8; pure (little_endian bytes)

-- float, double and long double: 4, 8 and 16 bytes of memory.
unfoldable pub put_float : List ℕ → Io (Unit {0})
put_float val = write val

unfoldable pub put_double : List ℕ → Io (Unit {0})
put_double val = write val

unfoldable pub put_long_double : List ℕ → Io (Unit {0})
put_long_double val = write val

unfoldable pub get_float : Io (List ℕ)
get_float = read 4

unfoldable pub get_double : Io (List ℕ)
get_double = read 8

unfoldable pub get_long_double : Io (List ℕ)
get_long_double = read 16

value2 : (v : ℕ) → v < 2 ^ 16 → little_endian (bytes2 v) ≡ v
value2 v h = omega arith

value4 : (v : ℕ) → v < 2 ^ 32 → little_endian (bytes4 v) ≡ v
value4 v h = omega arith

value8 : (v : ℕ) → v < 2 ^ 64 → little_endian (bytes8 v) ≡ v
value8 v h = omega arith

-- A short survives the way over the wire.
pub put_short-Carries : (val : ℤ) → InRange (2 ^ 15) val → Carries put_short get_short val
unfolding put_short get_short
put_short-Carries val h =
    fixed-Carries (λ z. bytes2 (to_pattern (2 * 2 ^ 15) z))
      (λ d. of_pattern (2 ^ 15) (little_endian d)) 2 val refl (omega arith)
      (ap (of_pattern (2 ^ 15)) (value2 _ (to_pattern-lt (2 ^ 15) val h))
        ∙ of_pattern-to_pattern (2 ^ 15) val h)

-- An unsigned short survives the way over the wire.
pub put_unsigned_short-Carries :
    (val : ℕ) → val < 2 ^ 16 → Carries put_unsigned_short get_unsigned_short val
unfolding put_unsigned_short get_unsigned_short
put_unsigned_short-Carries val h =
    fixed-Carries bytes2 little_endian 2 val refl (omega arith) (value2 val h)

-- An int survives the way over the wire.
pub put_int-Carries : (val : ℤ) → InRange (2 ^ 31) val → Carries put_int get_int val
unfolding put_int get_int
put_int-Carries val h =
    fixed-Carries (λ z. bytes4 (to_pattern (2 * 2 ^ 31) z))
      (λ d. of_pattern (2 ^ 31) (little_endian d)) 4 val refl (omega arith)
      (ap (of_pattern (2 ^ 31)) (value4 _ (to_pattern-lt (2 ^ 31) val h))
        ∙ of_pattern-to_pattern (2 ^ 31) val h)

-- An unsigned int survives the way over the wire.
pub put_unsigned_int-Carries :
    (val : ℕ) → val < 2 ^ 32 → Carries put_unsigned_int get_unsigned_int val
unfolding put_unsigned_int get_unsigned_int
put_unsigned_int-Carries val h =
    fixed-Carries bytes4 little_endian 4 val refl (omega arith) (value4 val h)

-- A long survives the way over the wire.
pub put_long-Carries : (val : ℤ) → InRange (2 ^ 63) val → Carries put_long get_long val
unfolding put_long get_long
put_long-Carries val h =
    fixed-Carries (λ z. bytes8 (to_pattern (2 * 2 ^ 63) z))
      (λ d. of_pattern (2 ^ 63) (little_endian d)) 8 val refl (omega arith)
      (ap (of_pattern (2 ^ 63)) (value8 _ (to_pattern-lt (2 ^ 63) val h))
        ∙ of_pattern-to_pattern (2 ^ 63) val h)

-- An unsigned long survives the way over the wire.
pub put_unsigned_long-Carries :
    (val : ℕ) → val < 2 ^ 64 → Carries put_unsigned_long get_unsigned_long val
unfolding put_unsigned_long get_unsigned_long
put_unsigned_long-Carries val h =
    fixed-Carries bytes8 little_endian 8 val refl (omega arith) (value8 val h)

-- The two bytes that an unsigned short is on the wire.
pub put_unsigned_short_bytes :
    (val : ℕ)
    → val < 2 ^ 16
    → Writes (put_unsigned_short val) (val % 256 ∷ val / 2 ^ 8 % 256 ∷ [])
      × Reads get_unsigned_short (val % 256 ∷ val / 2 ^ 8 % 256 ∷ []) val
unfolding put_unsigned_short get_unsigned_short
put_unsigned_short_bytes val h = (
  write-Writes (bytes2 val) (omega arith),
  map-Reads (read 2) little_endian (read-Reads (bytes2 val) (omega arith)) (value2 val h),
)
