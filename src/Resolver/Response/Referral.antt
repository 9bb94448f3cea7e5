-- ===== src/Resolver/Response/Referral.antt =====
-- When parse finds servers, and which.
use networking.Prelude.{
  ℕ, ◌+◌, ◌%◌, ◌<◌, ◌≡◌, List, ◌∷◌, ◌++◌, Bool, false, ◌⊎◌, arith, length, All, subst, ◌∙◌, lt→ltb,
  ◌≢◌,
}
use networking.Resolver.Run.{ok, at, From, From-append, >>=-ne-ok, >>=-eq-ok}
use networking.Resolver.Bytes.{widen16}
use networking.Resolver.Name.{bit}
use networking.Resolver.Records.{Server, read_fields, substr, next_parse}
use networking.Resolver.Answer.{success_parse, parse_rrsig}
use networking.Resolver.Records.Encode.{Resource, IsResource}
use networking.Resolver.Records.Referral.{encode_resources, glue, next_parse_lem}
use networking.Resolver.Response.{parse, on_rcode}

-- The twelve bytes of a header with counts below 256, in front of the bytes `s`.
abbrev pub reply : (id₁ id₂ flags status qd an ns ar : ℕ) → List ℕ → List ℕ
reply id₁ id₂ flags status qd an ns ar s =
    id₁ ∷ id₂ ∷ flags ∷ status ∷ 0 ∷ qd ∷ 0 ∷ an ∷ 0 ∷ ns ∷ 0 ∷ ar ∷ s

pub widen16_small : (n : ℕ) → n < 128 → widen16 n ≡ n
widen16_small n h = rw (lt→ltb n 128 h)

module _ (base64 present : List ℕ → List ℕ) (depth : ℕ) (query_name : List ℕ) where
  on_rcode_referral :
      (rcode : ℕ) (aa : Bool) (an ns ar : ℕ) (r : List ℕ) (q : ℕ)
      → rcode ≡ 0
      → (aa ≡ false) ⊎ (an ≡ 0)
      → on_rcode base64 present depth query_name rcode aa an ns ar r q
        ≡ next_parse depth r q an ns ar
  unfolding on_rcode
  on_rcode_referral rcode aa an ns ar r q c h = ground arith

  -- On a reply with the code 0, no authoritative answer, and fewer than 128 records of each kind, whose
  -- owner names are labels in front of a pointer of which recParse follows the low six bits, and whose
  -- types, classes and lengths are below 2 ^ 15, parse, with a recursion that may be deep enough for
  -- the names, returns a server for each additional record with four bytes of data, whatever its type,
  -- in order.
  pub parse_lem :
      (id₁ id₂ flags status qd : ℕ) (question : List ℕ) (an ns ar : List Resource) (s : List ℕ)
      → let r =
          reply id₁ id₂ flags status qd
            (length an)
            (length ns)
            (length ar)
            (question ++ encode_resources an (encode_resources ns (encode_resources ar s))) in
        status % 16 ≡ 0
        → (bit flags 2 ≡ false) ⊎ (length an ≡ 0)
        → length an < 128
        → length ns < 128
        → length ar < 128
        → All (IsResource depth r) an
        → All (IsResource depth r) ns
        → All (IsResource depth r) ar
        → parse base64 present depth query_name r (12 + length question) ≡ ok (glue ar)
  unfolding parse at
  parse_lem id₁ id₂ flags status qd question an ns ar s c aa ha hn hr va vn vr =
      rw (widen16_small (length an) ha, widen16_small (length ns) hn, widen16_small (length ar) hr)
        (on_rcode_referral (status % 16) (bit flags 2) (length an) (length ns) (length ar) r
            (12 + length question) c aa
          ∙ next_parse_lem depth r an ns ar (12 + length question) s va vn vr behind)
    where
      r : List ℕ
      r =
          reply id₁ id₂ flags status qd (length an) (length ns) (length ar)
            (question ++ encode_resources an (encode_resources ns (encode_resources ar s)))

      behind :
          From r
            (12 + length question)
            (encode_resources an (encode_resources ns (encode_resources ar s)))
      behind =
          subst (λ n. From r n (encode_resources an (encode_resources ns (encode_resources ar s))))
            (omega arith)
            (From-append
              (reply id₁ id₂ flags status qd (length an) (length ns) (length ar) question) _)

  success_parse-ne-ok :
      (r : List ℕ) (q : ℕ) (l : List Server)
      → success_parse base64 present depth query_name r q ≢ ok l
  unfolding success_parse
  success_parse-ne-ok r q l = >>=-ne-ok (read_fields depth r q) _ λ f.
      >>=-ne-ok (substr r f.location f.rdlength) _ λ rdata.
        >>=-ne-ok (parse_rrsig base64 present depth r (f.location + f.rdlength)) _ λ rrsig e. cc

  on_rcode_servers :
      (rcode : ℕ) (aa : Bool) (an ns ar : ℕ) (r : List ℕ) (q : ℕ) (x : Server) (xs : List Server)
      → on_rcode base64 present depth query_name rcode aa an ns ar r q ≡ ok (x ∷ xs)
      → (rcode ≡ 0) × ((aa ≡ false) ⊎ (an ≡ 0)) × (next_parse depth r q an ns ar ≡ ok (x ∷ xs))
  unfolding on_rcode
  on_rcode_servers rcode aa an ns ar r q x xs e = ground (arith, success_parse-ne-ok r q (x ∷ xs))

  -- When parse returns a server, the reply had the code 0, and was no authoritative answer with
  -- records.
  pub parse_servers :
      (r : List ℕ) (q : ℕ) (x : Server) (xs : List Server)
      → parse base64 present depth query_name r q ≡ ok (x ∷ xs)
      → (flags : ℕ) × (status : ℕ) × (an : ℕ) × (at r 2 ≡ ok flags)
        × (at r 3 ≡ ok status)
        × (at r 7 ≡ ok an)
        × (status % 16 ≡ 0)
        × ((bit flags 2 ≡ false) ⊎ (an ≡ 0))
  unfolding parse
  parse_servers r q x xs e =
      let (flags, e₂, e) = >>=-eq-ok (at r 2) _ e in
      let (status, e₃, e) = >>=-eq-ok (at r 3) _ e in
      let (an, e₇, e) = >>=-eq-ok (at r 7) _ e in
      let (ns, e₉, e) = >>=-eq-ok (at r 9) _ e in
      let (ar, e₁₁, e) = >>=-eq-ok (at r 11) _ e in
      let (code, aa, _) =
        on_rcode_servers (status % 16) (bit flags 2) (widen16 an) (widen16 ns) (widen16 ar) r q x xs
          e in
      (flags, status, an, e₂, e₃, e₇, code, ground arith)
