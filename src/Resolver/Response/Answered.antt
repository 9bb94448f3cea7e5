-- ===== src/Resolver/Response/Answered.antt =====
-- Replies with an answer, with a referral, with a denial and with a complaint, as a name server sends
-- them, and what parse makes of each.
use networking.Prelude.{
  ℕ, refl, codes, ◌+◌, ◌%◌, ◌<◌, ◌≡◌, List, ◌++◌, Bool, true, false, ◌⊎◌, arith, length, All, subst,
  ◌∙◌,
}
use networking.Resolver.Run.{ok, exits, at, From, From-append}
use networking.Resolver.Name.{bit}
use networking.Resolver.Records.Encode.{Resource, IsResource, encode_resource}
use networking.Resolver.Records.Referral.{encode_resources, glue}
use networking.Resolver.Answer.{success_parse}
use networking.Resolver.Answer.Signature.{Signature, IsSignature, encode_signature}
use networking.Resolver.Answer.Printed.{printed_answer, success_parse_lem}
use networking.Resolver.Response.{parse, on_rcode, name_error, format, fatal}
use networking.Resolver.Response.Referral.{reply, widen16_small, parse_lem}

-- The bytes of the header that are not counts of records, and the count of questions.
pub record Head : Type 0 where
  pub id₁ : ℕ
  pub id₂ : ℕ
  pub flags : ℕ
  pub status : ℕ
  pub qd : ℕ

-- A reply whose first answer is `first`, with the signature record `second` behind it; `an`, `ns`
-- and `ar` are the counts of records and `rest` the bytes behind the two.
pub record Answer : Type 0 where
  pub head : Head
  pub an : ℕ
  pub ns : ℕ
  pub ar : ℕ
  pub first : Resource
  pub second : Resource
  pub signed : Signature
  pub rest : List ℕ

abbrev pub answer_bytes : List ℕ → Answer → List ℕ
answer_bytes question m =
    reply m.head.id₁ m.head.id₂ m.head.flags m.head.status m.head.qd m.an m.ns m.ar
      (question ++ encode_resource m.first (encode_resource m.second m.rest))

-- The reply has the code 0, is authoritative, counts between 1 and 127 answers, and its two records
-- are well-formed.
pub record IsAnswer (depth : ℕ) (question : List ℕ) (m : Answer) : Type 0 where
  pub code : m.head.status % 16 ≡ 0
  pub authoritative : bit m.head.flags 2 ≡ true
  pub answers : (0 < m.an) × (m.an < 128)
  pub first_fits : IsResource depth (answer_bytes question m) m.first
  pub second_fits : IsResource depth (answer_bytes question m) m.second
  pub signature_fits : IsSignature depth m.signed
  pub data_signed : m.second.rdata ≡ encode_signature m.signed

-- A reply with these records of each kind, and bytes behind them.
pub record Referral : Type 0 where
  pub head : Head
  pub an : List Resource
  pub ns : List Resource
  pub ar : List Resource
  pub rest : List ℕ

abbrev pub referral_bytes : List ℕ → Referral → List ℕ
referral_bytes question m =
    reply m.head.id₁ m.head.id₂ m.head.flags m.head.status m.head.qd (length m.an) (length m.ns)
      (length m.ar)
      (question ++ encode_resources m.an (encode_resources m.ns (encode_resources m.ar m.rest)))

-- The reply has the code 0, is not authoritative or has no answer, and has fewer than 128 records
-- of each kind, all well-formed.
pub record IsReferral (depth : ℕ) (question : List ℕ) (m : Referral) : Type 0 where
  pub code : m.head.status % 16 ≡ 0
  pub refers : (bit m.head.flags 2 ≡ false) ⊎ (length m.an ≡ 0)
  pub few : (length m.an < 128) × (length m.ns < 128) × (length m.ar < 128)
  pub an_fit : All (IsResource depth (referral_bytes question m)) m.an
  pub ns_fit : All (IsResource depth (referral_bytes question m)) m.ns
  pub ar_fit : All (IsResource depth (referral_bytes question m)) m.ar

abbrev pub no_such_name : List ℕ
no_such_name = codes "Sorry, no record found\n"

-- A reply with these counts, and bytes behind the header.
abbrev pub plain_bytes : Head → (an ns ar : ℕ) → List ℕ → List ℕ
plain_bytes h an ns ar rest = reply h.id₁ h.id₂ h.flags h.status h.qd an ns ar rest

module _ (base64 present : List ℕ → List ℕ) (depth : ℕ) (query_name : List ℕ) where
  on_rcode_answer :
      (rcode : ℕ) (aa : Bool) (an ns ar : ℕ) (r : List ℕ) (q : ℕ)
      → rcode ≡ 0
      → aa ≡ true
      → 0 < an
      → on_rcode base64 present depth query_name rcode aa an ns ar r q
        ≡ success_parse base64 present depth query_name r q
  unfolding on_rcode
  on_rcode_answer rcode aa an ns ar r q c h s = ground arith

  pub parse_answer :
      (question : List ℕ) (m : Answer)
      → IsAnswer depth question m
      → parse base64 present depth query_name (answer_bytes question m) (12 + length question)
        ≡ exits 0 (printed_answer base64 present query_name m.first m.second m.signed)
  unfolding parse at
  parse_answer question m v = rw (widen16_small m.an v.answers.1) (
      on_rcode_answer (m.head.status % 16) (bit m.head.flags 2) m.an _ _ r (12 + length question)
        v.code v.authoritative v.answers.0
      ∙ success_parse_lem base64 present depth query_name r (12 + length question) m.first m.second
          m.signed m.rest v.first_fits v.second_fits v.signature_fits v.data_signed behind)
    where
      r : List ℕ
      r = answer_bytes question m

      records : List ℕ
      records = encode_resource m.first (encode_resource m.second m.rest)

      behind : From r (12 + length question) records
      behind =
          subst (λ n. From r n records) (omega arith)
            (From-append
              (reply m.head.id₁ m.head.id₂ m.head.flags m.head.status m.head.qd m.an m.ns m.ar
                question)
              records)

  pub parse_referral :
      (question : List ℕ) (m : Referral)
      → IsReferral depth question m
      → parse base64 present depth query_name (referral_bytes question m) (12 + length question)
        ≡ ok (glue m.ar)
  parse_referral question m v =
      parse_lem base64 present depth query_name m.head.id₁ m.head.id₂ m.head.flags m.head.status
        m.head.qd question m.an m.ns m.ar m.rest v.code v.refers v.few.0 v.few.1 v.few.2 v.an_fit
        v.ns_fit v.ar_fit

  on_rcode_denial :
      (rcode : ℕ) (aa : Bool) (an ns ar : ℕ) (r : List ℕ) (q : ℕ)
      → rcode ≡ name_error
      → aa ≡ true
      → an ≡ 0
      → on_rcode base64 present depth query_name rcode aa an ns ar r q ≡ exits 0 no_such_name
  unfolding on_rcode
  on_rcode_denial rcode aa an ns ar r q c h e = ground arith

  on_rcode_complaint :
      (rcode : ℕ) (aa : Bool) (an ns ar : ℕ) (r : List ℕ) (q : ℕ)
      → rcode ≡ format
      → on_rcode base64 present depth query_name rcode aa an ns ar r q ≡ fatal
  unfolding on_rcode
  on_rcode_complaint rcode aa an ns ar r q c = ground arith

  -- An authoritative reply without answers that says that the name does not exist.
  pub parse_denial :
      (h : Head) (ns ar : ℕ) (rest : List ℕ) (q : ℕ)
      → h.status % 16 ≡ name_error
      → bit h.flags 2 ≡ true
      → parse base64 present depth query_name (plain_bytes h 0 ns ar rest) q ≡ exits 0 no_such_name
  unfolding parse at
  parse_denial h ns ar rest q c aa =
      on_rcode_denial (h.status % 16) (bit h.flags 2) 0 _ _ (plain_bytes h 0 ns ar rest) q c aa refl

  -- A reply that says that the query was malformed.
  pub parse_complaint :
      (h : Head) (an ns ar : ℕ) (rest : List ℕ) (q : ℕ)
      → h.status % 16 ≡ format
      → parse base64 present depth query_name (plain_bytes h an ns ar rest) q ≡ fatal
  unfolding parse at
  parse_complaint h an ns ar rest q c =
      on_rcode_complaint (h.status % 16) (bit h.flags 2) _ _ _ (plain_bytes h an ns ar rest) q c
