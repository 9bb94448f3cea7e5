-- ===== src/Resolver/Answer/Signature.antt =====
-- An RRSIG record as a server sends it, and what parseRRSIG prints of it.
use networking.Prelude.{
  ℕ, ◌+◌, ◌-◌, ◌%◌, ◌^◌, ◌<◌, ◌≤◌, ◌≡◌, refl, List, [], ◌∷◌, ◌++◌, true, false, arith, length,
  length-append, All, append_assoc, codes, decimal, subst,
}
use networking.Resolver.Run.{ok, From, From-at, From-tail, From-drop}
use networking.Resolver.Bytes.{atoi8}
use networking.Resolver.Name.{rec_parse}
use networking.Resolver.Name.Labels.{encode_labels, dotted, IsLabel, rec_parse-From}
use networking.Resolver.Records.{substr}
use networking.Resolver.Records.Encode.{
  Resource, IsResource, encode_resource, encode16, encode32, atoi16-encode16, atoi32-encode32,
  read_fields_lem,
}
use networking.Resolver.Records.Referral.{substr_lem}
use networking.Resolver.Answer.{parse_rrsig, spaced, type_string, class_string}

-- The data of a signature record.
pub record Signature : Type 0 where
  pub type_cov : ℕ
  pub algor : ℕ
  pub labels : ℕ
  pub org_ttl : ℕ
  pub sig_exp : ℕ
  pub t_sign : ℕ
  pub sign_id : ℕ
  pub signer : List (List ℕ)
  pub bytes : List ℕ

abbrev pub encode_signature : Signature → List ℕ
encode_signature g = encode16 g.type_cov (
    g.algor
    ∷ g.labels
    ∷ encode32 g.org_ttl (
        encode32 g.sig_exp
          (encode32 g.t_sign (encode16 g.sign_id (encode_labels g.signer ++ 0 ∷ g.bytes)))))

-- The fields are small enough for the readers, and the signer is a name that is not the root.
pub record IsSignature (depth : ℕ) (g : Signature) : Type 0 where
  pub type_cov_fits : g.type_cov < 2 ^ 15
  pub org_ttl_fits : g.org_ttl < 2 ^ 32
  pub sig_exp_fits : g.sig_exp < 2 ^ 32
  pub t_sign_fits : g.t_sign < 2 ^ 32
  pub sign_id_fits : g.sign_id < 2 ^ 15
  pub deep : length g.signer < depth
  pub own : All IsLabel g.signer
  pub named : 1 ≤ length g.signer

-- What the signature of the record `y` with the data `g` looks like in print.
abbrev pub printed_signature : (List ℕ → List ℕ) → Resource → Signature → List ℕ
printed_signature base64 y g =
    spaced (
      dotted true (y.labels ++ y.target)
      ∷ decimal y.ttl
      ∷ class_string y.class
      ∷ type_string y.kind
      ∷ type_string g.type_cov
      ∷ decimal g.algor
      ∷ decimal g.labels
      ∷ decimal g.org_ttl
      ∷ decimal g.sig_exp
      ∷ decimal g.t_sign
      ∷ decimal g.sign_id
      ∷ dotted true g.signer
      ∷ base64 g.bytes
      ∷ [])
    ++ codes "=\n"

-- A byte is read back.
atoi8-From :
    (r : List ℕ) (i b : ℕ) (s : List ℕ)
    → From r i (b ∷ s)
    → (atoi8 r i ≡ ok (b, i + 1)) × From r (i + 1) s
unfolding atoi8
atoi8-From r i b s f = (rw (From-at r i b s f) refl, From-tail r i b s f)

length-dotted_rest : (ls : List (List ℕ)) → length (dotted false ls) ≡ length (encode_labels ls)
length-dotted_rest [] = refl
length-dotted_rest (l ∷ ls) = omega (
  arith,
  length-dotted_rest ls,
  length-append l (encode_labels ls),
  length-append (b'.' ∷ l) (dotted false ls),
)

-- A name in print is one byte shorter than its labels without the closing zero.
length-dotted :
    (ls : List (List ℕ)) → 1 ≤ length ls → length (dotted true ls) + 1 ≡ length (encode_labels ls)
length-dotted [] h = absurd (omega arith)
length-dotted (l ∷ ls) h = omega (
  arith,
  length-dotted_rest ls,
  length-append l (encode_labels ls),
  length-append l (dotted false ls),
)

-- What the program subtracts from the length of the data leaves the length of the signature.
signature_length :
    (depth : ℕ) (g : Signature)
    → IsSignature depth g
    → length (encode_signature g) < 2 ^ 15
    → (length (encode_signature g) + 2 ^ 64 - 20 - length (dotted true g.signer)) % 2 ^ 64
      ≡ length g.bytes
signature_length depth g v h =
    omega
      (arith, length-dotted g.signer v.named, length-append (encode_labels g.signer) (0 ∷ g.bytes))

module _ (base64 present : List ℕ → List ℕ) (depth : ℕ) (r : List ℕ) where
  -- The name of the signer, and the bytes behind its closing zero.
  signer_lem :
      (i : ℕ) (y : List ℕ) (g : Signature) (s : List ℕ)
      → IsSignature depth g
      → length y < 2 ^ 15
      → y ≡ encode_signature g
      → From r i ((encode_labels g.signer ++ 0 ∷ g.bytes) ++ s)
      → let end = i + length (encode_labels g.signer) in
        (rec_parse depth r i true ≡ ok (dotted true g.signer, end))
        × (substr r (end + 1) ((length y + 2 ^ 64 - 20 - length (dotted true g.signer)) % 2 ^ 64)
            ≡ ok g.bytes)
  signer_lem i y g s w h e f = (
    rec_parse-From g.signer depth r i true (g.bytes ++ s) w.deep w.own behind,
    rw size (
        substr_lem r _ g.bytes s
          (From-tail r _ 0 _ (From-drop r i (encode_labels g.signer) (0 ∷ (g.bytes ++ s)) behind))),
  )
    where
      behind : From r i (encode_labels g.signer ++ 0 ∷ (g.bytes ++ s))
      behind = subst (λ t. From r i t) (append_assoc (encode_labels g.signer) (0 ∷ g.bytes) s) f

      size : (length y + 2 ^ 64 - 20 - length (dotted true g.signer)) % 2 ^ 64 ≡ length g.bytes
      size = rw e (signature_length depth g w (subst (λ d. length d < 2 ^ 15) e h))

  -- The reads behind the fields of the record.
  pub parse_rrsig_lem :
      (i : ℕ) (y : Resource) (g : Signature) (s : List ℕ)
      → IsResource depth r y
      → IsSignature depth g
      → y.rdata ≡ encode_signature g
      → From r i (encode_resource y s)
      → parse_rrsig base64 present depth r i ≡ ok (printed_signature base64 y g)
  unfolding parse_rrsig
  parse_rrsig_lem i y g s v w e f =
      let (fields, f₀) = read_fields_lem depth r i y s v f in
      let l = i + length (encode_labels y.labels) + 12 in
      let f₁ : From r l (encode_signature g ++ s) = subst (λ d. From r l (d ++ s)) e f₀ in
      let (type_cov, f₂) = atoi16-encode16 r l g.type_cov _ w.type_cov_fits f₁ in
      let (algor, f₃) = atoi8-From r _ g.algor _ f₂ in
      let (labels, f₄) = atoi8-From r _ g.labels _ f₃ in
      let (org_ttl, f₅) = atoi32-encode32 r _ g.org_ttl _ w.org_ttl_fits f₄ in
      let (sig_exp, f₆) = atoi32-encode32 r _ g.sig_exp _ w.sig_exp_fits f₅ in
      let (t_sign, f₇) = atoi32-encode32 r _ g.t_sign _ w.t_sign_fits f₆ in
      let (sign_id, f₈) = atoi16-encode16 r _ g.sign_id _ w.sign_id_fits f₇ in
      let (s_name, signature) = signer_lem _ y.rdata g s w v.rdata_fits e f₈ in
      rw (fields, type_cov, algor, labels, org_ttl, sig_exp, t_sign, sign_id, s_name, signature)
