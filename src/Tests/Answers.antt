-- ===== src/Tests/Answers.antt =====
-- A search from a root server to an answer with its signature, on concrete replies.
use networking.Prelude.{
  ℕ, zero, suc, true, ◌≡◌, ◌≤◌, refl, List, [], ◌∷◌, ◌++◌, arith, codes, decimal, inl, take, drop,
  some, length,
}
use networking.Resolver.Run.{exits, From, From-append}
use networking.Resolver.Address.{parse_ip}
use networking.Resolver.Question.{Question}
use networking.Resolver.Records.Encode.{Resource, IsResource}
use networking.Resolver.Answer.{type_string, class_string}
use networking.Resolver.Answer.Signature.{Signature, IsSignature, encode_signature}
use networking.Resolver.Response.Answered.{Answer, IsAnswer, answer_bytes, Referral, IsReferral}
use networking.Resolver.Attempt.{Exchange, get_or, server_eq, text_eq, is_in, initialize, main}
use networking.Resolver.Attempt.Rounds.{Delivers, answers}
use networking.Resolver.Attempt.Resolution.{last, referred, question_bytes, query_bytes, main_ends}
use networking.Tests.Replies.{
  glue_record, other_record, referral, ns_edu, glue-IsResource, other-IsResource,
}

abbrev same : List ℕ → List ℕ
same bytes = bytes

abbrev host : List (List ℕ)
host = codes "cs" ∷ codes "edu" ∷ []

abbrev address : Resource
address = record {
  labels = codes "cs" ∷ [];
  hi = 192;
  lo = 15;
  target = codes "edu" ∷ [];
  kind = 28;
  class = 1;
  ttl = 86400;
  rdata = 32 ∷ 1 ∷ 13 ∷ 184 ∷ 0 ∷ 0 ∷ 0 ∷ 0 ∷ 0 ∷ 0 ∷ 0 ∷ 0 ∷ 0 ∷ 0 ∷ 0 ∷ 1 ∷ [];
}

abbrev signature : Signature
signature = record {
  type_cov = 28;
  algor = 5;
  labels = 2;
  org_ttl = 86400;
  sig_exp = 1300000000;
  t_sign = 1299000000;
  sign_id = 4711;
  signer = codes "edu" ∷ [];
  bytes = codes "sig";
}

abbrev signed_record : Resource
signed_record = record address { kind = 46; rdata = encode_signature signature }

abbrev answer : Answer
answer = record {
  head = record { id₁ = 0; id₂ = 0; flags = 4; status = 0; qd = 1 };
  an = 2;
  ns = 0;
  ar = 0;
  first = address;
  second = signed_record;
  signed = signature;
  rest = [];
}

abbrev reply : List ℕ
reply = answer_bytes (question_bytes host) answer

edu_found : From reply 15 (3 ∷ (codes "edu" ++ 0 ∷ drop 20 reply))
edu_found = From-append (take 15 reply) (drop 15 reply)

address-IsResource : IsResource 4 reply address
address-IsResource = record {
  deep = omega arith;
  own = ground arith;
  others = ground arith;
  pointer = ground arith;
  rest = drop 20 reply;
  found = edu_found;
  kind_fits = omega arith;
  class_fits = omega arith;
  ttl_fits = omega arith;
  rdata_fits = omega arith;
}

signed_record-IsResource : IsResource 4 reply signed_record
signed_record-IsResource = record {
  deep = omega arith;
  own = ground arith;
  others = ground arith;
  pointer = ground arith;
  rest = drop 20 reply;
  found = edu_found;
  kind_fits = omega arith;
  class_fits = omega arith;
  ttl_fits = omega arith;
  rdata_fits = omega arith;
}

signature-IsSignature : IsSignature 4 signature
signature-IsSignature = record {
  type_cov_fits = omega arith;
  org_ttl_fits = omega arith;
  sig_exp_fits = omega arith;
  t_sign_fits = omega arith;
  sign_id_fits = omega arith;
  deep = omega arith;
  own = ground arith;
  named = omega arith;
}

answer-IsAnswer : IsAnswer 4 (question_bytes host) answer
answer-IsAnswer = record {
  code = refl;
  authoritative = refl;
  answers = (omega arith, omega arith);
  first_fits = address-IsResource;
  second_fits = signed_record-IsResource;
  signature_fits = signature-IsSignature;
  data_signed = refl;
}

abbrev refers : Referral
refers = record {
  head = record { id₁ = 0; id₂ = 0; flags = 0; status = 0; qd = 1 };
  an = [];
  ns = other_record ∷ [];
  ar = other_record ∷ glue_record ∷ [];
  rest = [];
}

refers-IsReferral : IsReferral 4 (question_bytes host) refers
refers-IsReferral = record {
  code = refl;
  refers = inl refl;
  few = (omega arith, omega arith, omega arith);
  an_fit = tt;
  ns_fit = (other-IsResource, tt);
  ar_fit = (other-IsResource, (glue-IsResource, tt));
}

-- In the first round the root server refers, afterwards the servers answer.
abbrev brings : ℕ → List ℕ
brings zero = referral
brings (suc round) = reply

abbrev net : ℕ → Exchange
net round = record {
  opened = true;
  connected = true;
  sent = λ p. some (length p);
  received = λ ip p. some (brings round);
}

abbrev first_server : ℕ → ℕ
first_server round = 0

abbrev blank : Question
blank = record { num_bytes = 0; qname = []; qtype = 0; qclass = 0; qodd = [] }

delivered :
    (round : ℕ) (ip : List ℕ)
    → length (brings round) ≤ 8191
    → Delivers (net round) ip (query_bytes host) (brings round)
delivered round ip h = record {
  open_socket = refl;
  open_connection = refl;
  count = length (query_bytes host);
  counted = refl;
  whole = omega arith;
  brought = refl;
  held = h;
}

main_ends_example :
    main same same first_server net 4 2 blank (codes "cs.edu" ∷ [])
    ≡ exits 0 (
        codes
          "1 IPv6 Address Found For cs.edu:\n\ncs.edu 86400 IN AAAA 2001:0db8:0000:0000:0000:0000:0000:0001\ncs.edu 86400 IN RRSIG AAAA 5 2 86400 1300000000 1299000000 4711 edu sig=\n\n")
unfolding initialize get_or is_in server_eq text_eq decimal parse_ip type_string class_string
main_ends_example =
    main_ends same same first_server net 4 2 2 blank host 0 _ (ground arith) (omega arith) refl
      (referred 1 0 _ 0 _ _ [] ns_edu [] refers refl (delivered 0 _ (omega arith)) refers-IsReferral
        refl
        (last 0 _ 1 ns_edu [] _ refl
          (answers answer (delivered 1 _ (omega arith)) answer-IsAnswer)))
      (omega arith)
