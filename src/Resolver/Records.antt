-- ===== src/Resolver/Records.antt =====
-- nextParse of proj3/myresolver.cpp: the name servers that a referral brings.
pub mod Encode
pub mod Referral
use networking.Prelude.{
  ℕ, zero, suc, ◌+◌, List, [], ◌∷◌, ◌++◌, Bool, true, false, ltb, ◌==◌, if◌then◌else◌, length, take,
  drop,
}
use networking.Resolver.Run.{Run, ok, out_of_range, ◌>>=◌}
use networking.Resolver.Bytes.{atoi16, atoi32}
use networking.Resolver.Name.{rec_parse}
use networking.Resolver.Address.{parse_ip}

-- class server
pub record Server : Type 0 where
  pub ip : List ℕ
  pub name : List ℕ

abbrev pub ipv6_len : ℕ
ipv6_len = 16

-- The fields in front of a record's data, and the position of the data.
pub record Fields : Type 0 where
  pub name : List ℕ
  pub kind : ℕ
  pub class : ℕ
  pub ttl : ℕ
  pub rdlength : ℕ
  pub location : ℕ

-- `records.substr(pos, count)`
unfoldable pub substr : List ℕ → ℕ → ℕ → Run (List ℕ)
substr records pos count =
    if ltb (length records) pos then out_of_range else ok (take count (drop pos records))

-- The five reads at the head of each loop; `depth` bounds the recursion of recParse.
unfoldable pub read_fields : ℕ → List ℕ → ℕ → Run Fields
read_fields depth records location = do
  (name, l₁) ← rec_parse depth records location true
  (kind, l₂) ← atoi16 records l₁
  (class, l₃) ← atoi16 records l₂
  (ttl, l₄) ← atoi32 records l₃
  (rdlength, l₅) ← atoi16 records l₄
  ok (record {
    name = name;
    kind = kind;
    class = class;
    ttl = ttl;
    rdlength = rdlength;
    location = l₅;
  })

-- The loops over the answers and over the name servers, which are alike: they pass over `count`
-- records.
unfoldable pub skip_records : ℕ → List ℕ → ℕ → ℕ → Run ℕ
skip_records depth records location zero = ok location
skip_records depth records location (suc count) = do
  f ← read_fields depth records location
  skip_records depth records (f.location + f.rdlength) count

-- The loop over the additional records.
unfoldable pub add_records : ℕ → List ℕ → ℕ → ℕ → List Server → Run (List Server)
add_records depth records location zero new_list = ok new_list
add_records depth records location (suc count) new_list = do
  f ← read_fields depth records location
  rdata ← substr records f.location f.rdlength
  let ip = parse_ip rdata (f.rdlength == ipv6_len)
  add_records depth records (f.location + f.rdlength) count
      (if f.rdlength == 4 then new_list ++ record { ip = ip; name = f.name } ∷ [] else new_list)

unfoldable pub next_parse : ℕ → List ℕ → ℕ → ℕ → ℕ → ℕ → Run (List Server)
unfolding skip_records add_records
next_parse depth records location ancount nscount arcount = do
  l₁ ← skip_records depth records location ancount
  l₂ ← skip_records depth records l₁ nscount
  add_records depth records l₂ arcount []
