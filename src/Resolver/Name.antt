-- ===== src/Resolver/Name.antt =====
-- recParse of proj3/myresolver.cpp: a domain name, with compression.
pub mod Labels
pub mod Compressed
use networking.Prelude.{
  ℕ, zero, suc, ◌+◌, ◌*◌, ◌/◌, ◌%◌, ◌^◌, ◌<◌, ◌≤◌, ◌≡◌, refl, List, [], ◌∷◌, ◌++◌, Bool, true,
  false, ◌==◌, ◌&&◌, if◌then◌else◌, arith,
}
use networking.Resolver.Run.{Run, ok, undefined, out_of_fuel, ◌>>=◌, at}
use networking.Resolver.Bytes.{atoi16}

-- The macro BIT, as a truth value.
abbrev pub bit : ℕ → ℕ → Bool
bit b shift = b / 2 ^ shift % 2 == 1

-- `while(location < start+numchars) { ss << records[location]; location++; }`
unfoldable pub read_label : List ℕ → ℕ → ℕ → Run (List ℕ × ℕ)
read_label records location zero = ok ([], location)
read_label records location (suc n) = do
  c ← at records location
  (s, location') ← read_label records (location + 1) n
  ok (c ∷ s, location')

-- The first argument bounds the depth of the recursion, which the program does not bound.
unfoldable pub rec_parse : ℕ → List ℕ → ℕ → Bool → Run (List ℕ × ℕ)
rec_parse zero records location first = out_of_fuel
rec_parse (suc depth) records location first = do
  numchars ← at records location
  let jump = do
    (word, location') ← atoi16 records location
    (name, _) ← rec_parse depth records ((word + 1) % 64) first
    ok (name, location')
  let plain = do
    (label, location') ← read_label records (location + 1) numchars
    (rest, end) ← rec_parse depth records location' false
    ok ((if first then label else b'.' ∷ label) ++ rest, end)
  if numchars == 0
      then ok ([], location)
      else if bit numchars 7 && bit numchars 6
      then jump
      else plain
