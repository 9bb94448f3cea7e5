-- ===== src/Resolver/Records/Referral.antt =====
-- nextParse on a well-formed message: it finds the addresses among the additional records.
use networking.Prelude.{
  ℕ, ◌≡◌, refl, List, [], ◌∷◌, ◌++◌, true, false, ◌==◌, if◌then◌else◌, arith, length, All, ap, ◌∙◌,
  append_assoc, append-nil, sym, take-append, Bool-cases, ==_iff, inl, inr,
}
use networking.Resolver.Run.{ok, From, From-drop, From-drop_eq}
use networking.Resolver.Name.Labels.{dotted}
use networking.Resolver.Address.{parse_ip}
use networking.Resolver.Records.{Server, substr, skip_records, add_records, next_parse, ipv6_len}
use networking.Resolver.Records.Encode.{Resource, encode_resource, IsResource, read_fields_lem}

abbrev pub encode_resources : List Resource → List ℕ → List ℕ
encode_resources [] s = s
encode_resources (x ∷ xs) s = encode_resource x (encode_resources xs s)

-- The server of an address record.
abbrev pub glue_of : Resource → Server
glue_of x = record { ip = parse_ip x.rdata false; name = dotted true (x.labels ++ x.target) }

-- The records with four bytes of data, in order.
abbrev pub glue : List Resource → List Server
glue [] = []
glue (x ∷ xs) = (if length x.rdata == 4 then glue_of x ∷ [] else []) ++ glue xs

-- `substr` takes back the bytes that stand at a position.
pub substr_lem :
    (r : List ℕ) (i : ℕ) (xs s : List ℕ) → From r i (xs ++ s) → substr r i (length xs) ≡ ok xs
unfolding substr
substr_lem r i xs s f =
    let (le, e) = From-drop_eq r i (xs ++ s) f in rw (e, take-append xs s) (ground arith)

ip_kind : (n : ℕ) → n ≡ 4 → (n == ipv6_len) ≡ false
ip_kind n e = ground arith

module _ (depth : ℕ) (r : List ℕ) where
  skip_records_lem :
      (xs : List Resource) (i : ℕ) (s : List ℕ)
      → All (IsResource depth r) xs
      → From r i (encode_resources xs s)
      → (j : ℕ) × (skip_records depth r i (length xs) ≡ ok j) × From r j s
  unfolding skip_records
  skip_records_lem [] i s v f = (i, refl, f)
  skip_records_lem (x ∷ xs) i s (v, vs) f =
      let (here, behind) = read_fields_lem depth r i x (encode_resources xs s) v f in
      let (j, rest, end) = skip_records_lem xs _ s vs (From-drop r _ x.rdata _ behind) in
      (j, rw here rest, end)

  add_records_lem :
      (xs : List Resource) (i : ℕ) (s : List ℕ) (new_list : List Server)
      → All (IsResource depth r) xs
      → From r i (encode_resources xs s)
      → add_records depth r i (length xs) new_list ≡ ok (new_list ++ glue xs)
  unfolding add_records
  add_records_lem [] i s new_list v f = ap ok (sym (append-nil new_list))
  add_records_lem (x ∷ xs) i s new_list (v, vs) f =
      let (here, behind) = read_fields_lem depth r i x (encode_resources xs s) v f in
      let next = From-drop r _ x.rdata _ behind in
      rw (here, substr_lem r _ x.rdata _ behind)
        (elim (Bool-cases (length x.rdata == 4)) [
          | inl four ↦
              rw (four, ip_kind (length x.rdata) ((==_iff _ 4).0 four))
                (add_records_lem xs _ s (new_list ++ glue_of x ∷ []) vs next
                  ∙ ap ok (append_assoc new_list (glue_of x ∷ []) (glue xs)))
          | inr other ↦ rw other (add_records_lem xs _ s new_list vs next)
        ])

  -- On well-formed records nextParse returns the servers of the additional ones with four bytes of
  -- data, in order, with their addresses in print and their names in full.
  pub next_parse_lem :
      (an ns ar : List Resource) (i : ℕ) (s : List ℕ)
      → All (IsResource depth r) an
      → All (IsResource depth r) ns
      → All (IsResource depth r) ar
      → From r i (encode_resources an (encode_resources ns (encode_resources ar s)))
      → next_parse depth r i (length an) (length ns) (length ar) ≡ ok (glue ar)
  unfolding next_parse
  next_parse_lem an ns ar i s va vn vr f =
      let (j, e, g) = skip_records_lem an i _ va f in
      let (k, e', g') = skip_records_lem ns j _ vn g in rw (e, e') (add_records_lem ar k s [] vr g')
