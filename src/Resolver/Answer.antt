-- ===== src/Resolver/Answer.antt =====
-- successParse and parseRRSIG of proj3/myresolver.cpp: the answer in print, and the tables of
-- `initialize` that it uses. Boost's base64 encoder and the system's inet_pton and inet_ntop are
-- parameters.
pub mod Signature
pub mod Printed
use networking.Prelude.{
  ℕ, ◌+◌, ◌-◌, ◌%◌, ◌^◌, List, [], ◌∷◌, ◌++◌, true, ◌==◌, if◌then◌else◌, length, codes, decimal,
}
use networking.Resolver.Run.{Run, ok, exits, ◌>>=◌}
use networking.Resolver.Bytes.{atoi8, atoi16, atoi32}
use networking.Resolver.Name.{rec_parse}
use networking.Resolver.Address.{parse_ip}
use networking.Resolver.Records.{substr, read_fields, ipv6_len}

-- A table from numbers to names. A number that it lacks has the empty name.
abbrev look_up : List (ℕ × List ℕ) → ℕ → List ℕ
look_up [] n = []
look_up ((k, text) ∷ rest) n = if k == n then text else look_up rest n

abbrev type_names : List (ℕ × List ℕ)
type_names =
    (1, codes "A")
    ∷ (2, codes "NS")
    ∷ (3, codes "MD")
    ∷ (4, codes "MF")
    ∷ (5, codes "CNAME")
    ∷ (6, codes "SOA")
    ∷ (7, codes "MB")
    ∷ (8, codes "MG")
    ∷ (9, codes "MR")
    ∷ (10, codes "null")
    ∷ (11, codes "WKS")
    ∷ (12, codes "PTR")
    ∷ (13, codes "HINFO")
    ∷ (14, codes "MINFO")
    ∷ (15, codes "MX")
    ∷ (16, codes "TXT")
    ∷ (28, codes "AAAA")
    ∷ (46, codes "RRSIG")
    ∷ []

abbrev class_names : List (ℕ × List ℕ)
class_names = (1, codes "IN") ∷ (2, codes "CS") ∷ (3, codes "CH") ∷ (4, codes "HS") ∷ []

unfoldable pub type_string : ℕ → List ℕ
type_string = look_up type_names

unfoldable pub class_string : ℕ → List ℕ
class_string = look_up class_names

-- The items of a line with spaces between them.
abbrev pub spaced : List (List ℕ) → List ℕ
spaced [] = []
spaced (w ∷ []) = w
spaced (w ∷ v ∷ ws) = w ++ b' ' ∷ spaced (v ∷ ws)

module _ (base64 present : List ℕ → List ℕ) (depth : ℕ) where
  -- The text of the signature record at `location`. The length of the signature is a size_t.
  unfoldable pub parse_rrsig : List ℕ → ℕ → Run (List ℕ)
  unfolding type_string class_string
  parse_rrsig records location = do
    f ← read_fields depth records location
    (type_cov, l₁) ← atoi16 records f.location
    (algor, l₂) ← atoi8 records l₁
    (labels, l₃) ← atoi8 records l₂
    (org_ttl, l₄) ← atoi32 records l₃
    (sig_exp, l₅) ← atoi32 records l₄
    (t_sign, l₆) ← atoi32 records l₅
    (sign_id, l₇) ← atoi16 records l₆
    (s_name, l₈) ← rec_parse depth records l₇ true
    signature ← substr records (l₈ + 1) ((f.rdlength + 2 ^ 64 - 20 - length s_name) % 2 ^ 64)
    ok (
        spaced (
          f.name
          ∷ decimal f.ttl
          ∷ class_string f.class
          ∷ type_string f.kind
          ∷ type_string type_cov
          ∷ decimal algor
          ∷ decimal labels
          ∷ decimal org_ttl
          ∷ decimal sig_exp
          ∷ decimal t_sign
          ∷ decimal sign_id
          ∷ s_name
          ∷ base64 signature
          ∷ [])
        ++ codes "=\n")

  -- Prints the first answer, if it is an IPv6 address, with its signature, and ends the process.
  unfoldable pub success_parse : {A : Type 0} → List ℕ → List ℕ → ℕ → Run A
  unfolding parse_rrsig
  success_parse query_name records location = do
    f ← read_fields depth records location
    rdata ← substr records f.location f.rdlength
    rrsig ← parse_rrsig records (f.location + f.rdlength)
    let ip = parse_ip rdata (f.rdlength == ipv6_len)
    let found = f.rdlength == ipv6_len
    let head = codes " IPv6 Address Found For " ++ (query_name ++ codes ":\n\n")
    let line =
        spaced
          (f.name ∷ decimal f.ttl ∷ class_string f.class ∷ type_string f.kind ∷ present ip ∷ [])
    exits 0 (
        if found
        then codes "1" ++ (head ++ (line ++ (codes "\n" ++ (rrsig ++ codes "\n"))))
        else codes "0" ++ head)
