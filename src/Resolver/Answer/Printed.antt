-- ===== src/Resolver/Answer/Printed.antt =====
-- successParse on a well-formed message: what it prints of the first answer and its signature.
use networking.Prelude.{
  ℕ, ◌≡◌, List, [], ◌∷◌, ◌++◌, true, ◌==◌, if◌then◌else◌, length, codes, decimal,
}
use networking.Resolver.Run.{exits, From, From-drop}
use networking.Resolver.Name.Labels.{dotted}
use networking.Resolver.Address.{parse_ip}
use networking.Resolver.Records.{ipv6_len}
use networking.Resolver.Records.Encode.{Resource, IsResource, encode_resource, read_fields_lem}
use networking.Resolver.Records.Referral.{substr_lem}
use networking.Resolver.Answer.{success_parse, spaced, type_string, class_string}
use networking.Resolver.Answer.Signature.{
  Signature, IsSignature, encode_signature, printed_signature, parse_rrsig_lem,
}

-- The first line, and for an IPv6 address the line of the record and that of its signature.
abbrev pub printed_answer :
    (base64 present : List ℕ → List ℕ) → List ℕ → Resource → Resource → Signature → List ℕ
printed_answer base64 present query_name x y g =
    let head = codes " IPv6 Address Found For " ++ (query_name ++ codes ":\n\n") in
    if length x.rdata == ipv6_len
    then codes "1"
      ++ (head
          ++ (spaced (
                dotted true (x.labels ++ x.target)
                ∷ decimal x.ttl
                ∷ class_string x.class
                ∷ type_string x.kind
                ∷ present (parse_ip x.rdata (length x.rdata == ipv6_len))
                ∷ [])
              ++ (codes "\n" ++ (printed_signature base64 y g ++ codes "\n"))))
    else codes "0" ++ head

module _ (base64 present : List ℕ → List ℕ) (depth : ℕ) (query_name r : List ℕ) where
  pub success_parse_lem :
      {A : Type 0} (i : ℕ) (x y : Resource) (g : Signature) (s : List ℕ)
      → IsResource depth r x
      → IsResource depth r y
      → IsSignature depth g
      → y.rdata ≡ encode_signature g
      → From r i (encode_resource x (encode_resource y s))
      → success_parse base64 present depth {A = A} query_name r i
        ≡ exits 0 (printed_answer base64 present query_name x y g)
  unfolding success_parse
  success_parse_lem i x y g s v w u e f =
      let (fields, behind) = read_fields_lem depth r i x (encode_resource y s) v f in
      rw (
        fields,
        substr_lem r _ x.rdata _ behind,
        parse_rrsig_lem base64 present depth r _ y g s w u e (From-drop r _ x.rdata _ behind),
      )
