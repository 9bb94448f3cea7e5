-- ===== src/Resolver/Address/RoundTrip.antt =====
-- The bytes of an address can be read back from what ParseIP prints.
use networking.Prelude.{
  ℕ, ◌+◌, ◌-◌, ◌*◌, ◌<◌, ◌≡◌, ◌≢◌, refl, List, [], ◌∷◌, false, ltb, ◌==◌, if◌then◌else◌, length,
  All, arith, Option, none, some, read_numbers, read_numbers-decimal,
}
use networking.Resolver.Address.{parse_ipv4, parse_ip}

-- Every byte behind the first prints a dot and a number.
parse_ipv4_tail :
    (bs : List ℕ) (acc numchars i : ℕ)
    → i ≢ 0
    → All (λ b. b < 256) bs
    → read_numbers acc (parse_ipv4 numchars i bs) ≡ acc ∷ bs
unfolding parse_ipv4 read_numbers
parse_ipv4_tail [] acc numchars i h v = refl
parse_ipv4_tail (b ∷ bs) acc numchars i h (v, vs) = ground (
  arith,
  read_numbers-decimal b (parse_ipv4 numchars (i + 1) bs),
  parse_ipv4_tail bs b numchars (i + 1),
)

-- Two bytes or more, so the four of an IPv4 address, are read back from the dotted numbers.
pub read_numbers-parse_ip :
    (a b : ℕ) (bs : List ℕ)
    → All (λ c. c < 256) (a ∷ b ∷ bs)
    → read_numbers 0 (parse_ip (a ∷ b ∷ bs) false) ≡ a ∷ b ∷ bs
unfolding parse_ip parse_ipv4
read_numbers-parse_ip a b bs (va, vs) = ground (
  arith,
  read_numbers-decimal a (parse_ipv4 (length (a ∷ b ∷ bs)) 1 (b ∷ bs)),
  parse_ipv4_tail (b ∷ bs) a (length (a ∷ b ∷ bs)) 1,
)

-- A hexadecimal digit, and the byte of two of them.
unhex : ℕ → ℕ
unhex c = if ltb c b'a' then c - b'0' else c + 10 - b'a'

abbrev byte_of : ℕ → ℕ → ℕ
byte_of a b = unhex a * 16 + unhex b

abbrev behind : ℕ → ℕ → Option (List ℕ) → Option (List ℕ)
behind a b none = none
behind a b (some bs) = some (a ∷ b ∷ bs)

-- A reader of groups of four digits, with one colon between two groups and none elsewhere.
pub read_ipv6 : List ℕ → Option (List ℕ)
read_ipv6 (a ∷ b ∷ c ∷ d ∷ []) = some (byte_of a b ∷ byte_of c d ∷ [])
read_ipv6 (a ∷ b ∷ c ∷ d ∷ sep ∷ rest) =
    let others = read_ipv6 rest in
    if sep == b':' then behind (byte_of a b) (byte_of c d) others else none
read_ipv6 _ = none
