-- ===== src/Tests/Replies.antt =====
-- Replies of name servers on concrete inputs.
use networking.Prelude.{ℕ, ◌≡◌, refl, List, [], ◌∷◌, ◌++◌, arith, codes, decimal, inl, take, drop}
use networking.Resolver.Run.{ok, From, From-append}
use networking.Resolver.Address.{parse_ip}
use networking.Resolver.Records.{Server}
use networking.Resolver.Records.Encode.{Resource, IsResource}
use networking.Resolver.Records.Referral.{encode_resources}
use networking.Resolver.Response.{parse}
use networking.Resolver.Response.Referral.{reply, parse_lem}

-- A name server's address, `ns.edu` with `edu` at the offset 15, and a record of another length.
abbrev pub glue_record : Resource
glue_record = record {
  labels = codes "ns" ∷ [];
  hi = 192;
  lo = 15;
  target = codes "edu" ∷ [];
  kind = 1;
  class = 1;
  ttl = 172800;
  rdata = 128 ∷ 138 ∷ 2 ∷ 3 ∷ [];
}

abbrev pub other_record : Resource
other_record = record glue_record { labels = []; kind = 2; rdata = 192 ∷ 15 ∷ [] }

-- The question `cs.edu`, behind a header of twelve bytes.
abbrev question : List ℕ
question = 2 ∷ (codes "cs" ++ 3 ∷ (codes "edu" ++ 0 ∷ 0 ∷ 28 ∷ 0 ∷ 1 ∷ []))

abbrev records : List ℕ
records =
    encode_resources []
      (encode_resources (other_record ∷ []) (encode_resources (other_record ∷ glue_record ∷ []) []))

abbrev pub referral : List ℕ
referral = reply 0 0 0 0 1 0 1 2 (question ++ records)

edu_found : From referral 15 (3 ∷ (codes "edu" ++ 0 ∷ drop 20 referral))
edu_found = From-append (take 15 referral) (drop 15 referral)

pub glue-IsResource : IsResource 4 referral glue_record
glue-IsResource = record {
  deep = omega arith;
  own = ground arith;
  others = ground arith;
  pointer = ground arith;
  rest = drop 20 referral;
  found = edu_found;
  kind_fits = omega arith;
  class_fits = omega arith;
  ttl_fits = omega arith;
  rdata_fits = omega arith;
}

pub other-IsResource : IsResource 4 referral other_record
other-IsResource = record {
  deep = omega arith;
  own = tt;
  others = ground arith;
  pointer = ground arith;
  rest = drop 20 referral;
  found = edu_found;
  kind_fits = omega arith;
  class_fits = omega arith;
  ttl_fits = omega arith;
  rdata_fits = omega arith;
}

abbrev pub ns_edu : Server
ns_edu = record { ip = codes "128.138.2.3"; name = codes "ns.edu" }

abbrev pub no_text : List ℕ → List ℕ
no_text bytes = []

pub referral_parsed : parse no_text no_text 4 (codes "cs.edu") referral 24 ≡ ok (ns_edu ∷ [])
unfolding parse_ip decimal
referral_parsed =
    parse_lem no_text no_text 4 (codes "cs.edu") 0 0 0 0 1 question [] (other_record ∷ [])
      (other_record ∷ glue_record ∷ []) [] refl (inl refl) (omega arith) (omega arith) (omega arith)
      tt (other-IsResource, tt) (other-IsResource, (glue-IsResource, tt))

parse_lem_example : parse no_text no_text 4 (codes "cs.edu") referral 24 ≡ ok (ns_edu ∷ [])
unfolding parse_ip decimal
parse_lem_example =
    parse_lem no_text no_text 4 (codes "cs.edu") 0 0 0 0 1 question [] (other_record ∷ [])
      (other_record ∷ glue_record ∷ []) [] refl (inl refl) (omega arith) (omega arith) (omega arith)
      tt (other-IsResource, tt) (other-IsResource, (glue-IsResource, tt))
