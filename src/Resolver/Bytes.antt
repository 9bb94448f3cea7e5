-- ===== src/Resolver/Bytes.antt =====
-- The integer readers of proj3/myresolver.cpp, for a little-endian host whose `char` is signed.
use networking.Prelude.{ℕ, ◌+◌, ◌*◌, ◌/◌, ◌%◌, ◌^◌, ◌<◌, ◌≤◌, ◌≡◌, List, ltb, if◌then◌else◌, arith}
use networking.Resolver.Run.{Run, ok, ◌>>=◌, at}

-- A `char` converted to a 16-bit word: its sign is extended.
abbrev pub widen16 : ℕ → ℕ
widen16 b = if ltb b 128 then b else b + 0xff00

-- ntohs and ntohl swap the bytes of a word.
abbrev pub ntohs : ℕ → ℕ
ntohs w = w % 256 * 256 + w / 256 % 256

abbrev pub ntohl : ℕ → ℕ
ntohl w = w % 256 * 2 ^ 24 + w / 256 % 256 * 2 ^ 16 + w / 2 ^ 16 % 256 * 256 + w / 2 ^ 24 % 256

-- Each reader returns the value and the moved position.
unfoldable pub atoi8 : List ℕ → ℕ → Run (ℕ × ℕ)
atoi8 records location = do b ← at records location; ok (b, location + 1)

-- `records[location++] + (records[location++] << 8)`, the left operand first.
unfoldable pub atoi16 : List ℕ → ℕ → Run (ℕ × ℕ)
atoi16 records location = do
  a ← at records location
  b ← at records (location + 1)
  ok (ntohs ((widen16 a + widen16 b * 256) % 2 ^ 16), location + 2)

-- memcpy of four bytes into a little-endian word.
unfoldable pub atoi32 : List ℕ → ℕ → Run (ℕ × ℕ)
atoi32 records location = do
  a ← at records location
  b ← at records (location + 1)
  c ← at records (location + 2)
  d ← at records (location + 3)
  ok (ntohl (a + b * 2 ^ 8 + c * 2 ^ 16 + d * 2 ^ 24), location + 4)

-- What atoi16 computes of two bytes.
abbrev pub word16 : ℕ → ℕ → ℕ
word16 a b = ntohs ((widen16 a + widen16 b * 256) % 2 ^ 16)

pub word16_exact : (a b : ℕ) → a < 128 → b < 256 → word16 a b ≡ a * 256 + b
word16_exact a b ha hb = ground arith

pub word16_short : (a b : ℕ) → 128 ≤ a → a < 256 → b < 256 → word16 a b ≡ a * 256 + (b + 255) % 256
word16_short a b la ha hb = ground arith
