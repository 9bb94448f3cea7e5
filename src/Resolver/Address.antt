-- ===== src/Resolver/Address.antt =====
-- ParseIP of proj3/myresolver.cpp: an address in print.
pub mod RoundTrip
use networking.Prelude.{
  ℕ, ◌+◌, ◌/◌, ◌%◌, List, [], ◌∷◌, ◌++◌, Bool, true, false, ltb, ◌-◌, ◌==◌, ◌&&◌, ◌||◌, not,
  if◌then◌else◌, length, decimal,
}

-- A digit and a byte under `std::hex`, the byte two places wide and filled with zeros.
pub hex_digit : ℕ → ℕ
hex_digit d = if ltb d 10 then b'0' + d else b'a' + d - 10

abbrev pub hex_byte : ℕ → List ℕ
hex_byte b = hex_digit (b / 16) ∷ hex_digit (b % 16) ∷ []

-- The two loops of ParseIP, from the index `i` on, over the bytes that are left.
parse_ipv6 : ℕ → ℕ → List ℕ → List ℕ
parse_ipv6 numchars i [] = []
parse_ipv6 numchars i (b ∷ bs) =
    (if (not (i == 0) || i + 1 == numchars) && i % 2 == 0 then b':' ∷ [] else [])
    ++ (hex_byte b ++ parse_ipv6 numchars (i + 1) bs)

parse_ipv4 : ℕ → ℕ → List ℕ → List ℕ
parse_ipv4 numchars i [] = []
parse_ipv4 numchars i (b ∷ bs) =
    (if not (i == 0) || i + 1 == numchars then b'.' ∷ [] else [])
    ++ (decimal b ++ parse_ipv4 numchars (i + 1) bs)

unfoldable pub parse_ip : List ℕ → Bool → List ℕ
unfolding parse_ipv4 parse_ipv6 hex_digit
parse_ip records ipv6 =
    if ipv6 then parse_ipv6 (length records) 0 records else parse_ipv4 (length records) 0 records
