-- ===== src/Chain.antt =====
-- The anonymous web get of proj2: the structs of proj2/awget.h, and their bytes on the wire.
pub mod Calls
pub mod Ready
pub mod Stone
pub mod Client
pub mod Listener
pub mod Relay
use networking.Prelude.{
  ℕ, zero, suc, ◌+◌, ◌*◌, ◌/◌, ◌%◌, ◌^◌, List, [], ◌∷◌, ◌++◌, Bool, true, false, ◌==◌,
  if◌then◌else◌, take, Option, none, some,
}

-- FILENAME_MAX of glibc.
abbrev pub filename_max : ℕ
filename_max = 4096

-- The arrays of char are lists of their bytes.
pub record ListHeader : Type 0 where
  pub version : ℕ
  pub l_size : ℕ
  pub f_name : List ℕ

pub record ListElement : Type 0 where
  pub version : ℕ
  pub host : List ℕ
  pub port : List ℕ

-- sizeof of the packed structs.
abbrev pub header_size : ℕ
header_size = 4101

abbrev pub element_size : ℕ
element_size = 265

abbrev pub file_header_size : ℕ
file_header_size = 5

abbrev pub zeros : ℕ → List ℕ
zeros zero = []
zeros (suc n) = 0 ∷ zeros n

-- strncpy of a text without a NUL into an array of `n` bytes.
abbrev pub strncpy : ℕ → List ℕ → List ℕ
strncpy n text = take n (text ++ zeros n)

-- The text in an array, if a NUL ends it there.
unfoldable pub text_in : List ℕ → Option (List ℕ)
text_in [] = none
text_in (b ∷ bs) =
    if b == 0 then some [] else elim (text_in bs) [ none ↦ none | some text ↦ some (b ∷ text) ]

-- A number below 2 ^ 32 after htonl, as memory of a little-endian host, and back.
abbrev pub write32 : ℕ → List ℕ → List ℕ
write32 n s = n / 2 ^ 24 % 256 ∷ n / 2 ^ 16 % 256 ∷ n / 2 ^ 8 % 256 ∷ n % 256 ∷ s

abbrev pub read32 : ℕ → ℕ → ℕ → ℕ → ℕ
read32 a b c d = a * 2 ^ 24 + b * 2 ^ 16 + c * 2 ^ 8 + d

-- The bytes of the structs, their numbers in network order.
abbrev pub header_bytes : ListHeader → List ℕ
header_bytes h = h.version ∷ write32 h.l_size h.f_name

abbrev pub element_bytes : ListElement → List ℕ
element_bytes e = e.version ∷ (e.host ++ e.port)

abbrev pub elements_bytes : List ListElement → List ℕ
elements_bytes [] = []
elements_bytes (e ∷ es) = element_bytes e ++ elements_bytes es

abbrev pub file_header_bytes : ℕ → ℕ → List ℕ
file_header_bytes version f_size = version ∷ write32 f_size []
