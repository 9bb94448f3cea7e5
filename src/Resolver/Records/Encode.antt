-- ===== src/Resolver/Records/Encode.antt =====
-- A resource record as a server sends it, and what read_fields makes of it.
use networking.Prelude.{
  ℕ, ◌+◌, ◌*◌, ◌/◌, ◌%◌, ◌^◌, ◌<◌, ◌≤◌, ◌≡◌, List, [], ◌∷◌, ◌++◌, true, arith, length, All, ap,
  subst,
}
use networking.Resolver.Run.{ok, From, From-at, From-tail, From-drop}
use networking.Resolver.Bytes.{atoi16, atoi32, word16_exact, ntohl}
use networking.Resolver.Name.Labels.{encode_labels, dotted, IsLabel}
use networking.Resolver.Name.Compressed.{rec_parse-From_pointer}
use networking.Resolver.Records.{read_fields}

-- The owner's own labels, the two bytes of the pointer behind them, and the labels it points to.
pub record Resource : Type 0 where
  pub labels : List (List ℕ)
  pub hi : ℕ
  pub lo : ℕ
  pub target : List (List ℕ)
  pub kind : ℕ
  pub class : ℕ
  pub ttl : ℕ
  pub rdata : List ℕ

-- Network byte order.
abbrev pub encode16 : ℕ → List ℕ → List ℕ
encode16 n s = n / 256 ∷ n % 256 ∷ s

abbrev pub encode32 : ℕ → List ℕ → List ℕ
encode32 n s = n / 2 ^ 24 ∷ n / 2 ^ 16 % 256 ∷ n / 256 % 256 ∷ n % 256 ∷ s

-- The record in front of the bytes `s`.
abbrev pub encode_resource : Resource → List ℕ → List ℕ
encode_resource x s =
    encode_labels x.labels
    ++ (x.hi
        ∷ (x.lo
            ∷ encode16 x.kind
                (encode16 x.class (encode32 x.ttl (encode16 (length x.rdata) (x.rdata ++ s))))))

-- The fields are small enough for the readers, and in the message `r` the pointer's labels stand
-- where its low six bits say.
pub record IsResource (depth : ℕ) (r : List ℕ) (x : Resource) : Type 0 where
  pub deep : length x.labels + length x.target + 1 < depth
  pub own : All IsLabel x.labels
  pub others : All IsLabel x.target
  pub pointer : (192 ≤ x.hi) × (x.hi < 256) × (x.lo < 256)
  pub rest : List ℕ
  pub found : From r (x.lo % 64) (encode_labels x.target ++ 0 ∷ rest)
  pub kind_fits : x.kind < 2 ^ 15
  pub class_fits : x.class < 2 ^ 15
  pub ttl_fits : x.ttl < 2 ^ 32
  pub rdata_fits : length x.rdata < 2 ^ 15

-- A word below 2 ^ 15 in network order is read back.
pub atoi16-encode16 :
    (r : List ℕ) (i n : ℕ) (s : List ℕ)
    → n < 2 ^ 15
    → From r i (encode16 n s)
    → (atoi16 r i ≡ ok (n, i + 2)) × From r (i + 2) s
unfolding atoi16
atoi16-encode16 r i n s h f = (
  rw
      (
        From-at r i (n / 256) _ f,
        From-at r (i + 1) (n % 256) s (From-tail r i _ _ f),
        word16_exact (n / 256) (n % 256) (omega arith) (omega arith),
      )
      (ap (λ (k : ℕ). ok (k, i + 2)) (omega arith)),
  From-drop r i (n / 256 ∷ n % 256 ∷ []) s f,
)

swapped :
    (n : ℕ)
    → n < 2 ^ 32
    → ntohl (n / 2 ^ 24 + n / 2 ^ 16 % 256 * 2 ^ 8 + n / 256 % 256 * 2 ^ 16 + n % 256 * 2 ^ 24) ≡ n
swapped n h = omega arith

pub atoi32-encode32 :
    (r : List ℕ) (i n : ℕ) (s : List ℕ)
    → n < 2 ^ 32
    → From r i (encode32 n s)
    → (atoi32 r i ≡ ok (n, i + 4)) × From r (i + 4) s
unfolding atoi32
atoi32-encode32 r i n s h f = (
  rw
      (
        From-at r i _ _ f,
        From-at r (i + 1) _ _ (From-tail r i _ _ f),
        From-at r (i + 2) _ _ (From-drop r i (n / 2 ^ 24 ∷ n / 2 ^ 16 % 256 ∷ []) _ f),
        From-at r (i + 3) _ _
            (From-drop r i (n / 2 ^ 24 ∷ n / 2 ^ 16 % 256 ∷ n / 256 % 256 ∷ []) _ f),
      )
      (ap (λ (k : ℕ). ok (k, i + 4)) (swapped n h)),
  From-drop r i (n / 2 ^ 24 ∷ n / 2 ^ 16 % 256 ∷ n / 256 % 256 ∷ n % 256 ∷ []) s f,
)

-- read_fields reads the fields of such a record, and stops at its data.
pub read_fields_lem :
    (depth : ℕ) (r : List ℕ) (i : ℕ) (x : Resource) (s : List ℕ)
    → IsResource depth r x
    → From r i (encode_resource x s)
    → let behind = i + length (encode_labels x.labels) + 12 in
      (read_fields depth r i
        ≡ ok (record {
          name = dotted true (x.labels ++ x.target);
          kind = x.kind;
          class = x.class;
          ttl = x.ttl;
          rdlength = length x.rdata;
          location = behind;
        }))
      × From r behind (x.rdata ++ s)
unfolding read_fields
read_fields_lem depth r i x s v f = (
  rw
      (
        rec_parse-From_pointer x.labels x.target depth r i true x.hi x.lo _ v.rest v.deep v.own
            v.others v.pointer.0 v.pointer.1 v.pointer.2 f v.found,
        kind.0,
        class.0,
        ttl.0,
        rdlength.0,
      )
      (ap
        (λ (k : ℕ). ok (record {
          name = dotted true (x.labels ++ x.target);
          kind = x.kind;
          class = x.class;
          ttl = x.ttl;
          rdlength = length x.rdata;
          location = k;
        }))
        sum),
  subst (λ k. From r k (x.rdata ++ s)) sum rdlength.1,
)
  where
    l₁ : ℕ
    l₁ = i + length (encode_labels x.labels) + 2

    l₂ : ℕ
    l₂ = l₁ + 2

    l₃ : ℕ
    l₃ = l₂ + 2

    l₄ : ℕ
    l₄ = l₃ + 4

    sum : l₄ + 2 ≡ i + length (encode_labels x.labels) + 12
    sum = omega arith

    kind :
        (atoi16 r l₁ ≡ ok (x.kind, l₂))
        × From r l₂ (encode16 x.class (encode32 x.ttl (encode16 (length x.rdata) (x.rdata ++ s))))
    kind = atoi16-encode16 r l₁ x.kind _ v.kind_fits (
        From-drop r (i + length (encode_labels x.labels)) (x.hi ∷ x.lo ∷ []) _
          (From-drop r i (encode_labels x.labels) _ f))

    class :
        (atoi16 r l₂ ≡ ok (x.class, l₃))
        × From r l₃ (encode32 x.ttl (encode16 (length x.rdata) (x.rdata ++ s)))
    class = atoi16-encode16 r l₂ x.class _ v.class_fits kind.1

    ttl : (atoi32 r l₃ ≡ ok (x.ttl, l₄)) × From r l₄ (encode16 (length x.rdata) (x.rdata ++ s))
    ttl = atoi32-encode32 r l₃ x.ttl _ v.ttl_fits class.1

    rdlength : (atoi16 r l₄ ≡ ok (length x.rdata, l₄ + 2)) × From r (l₄ + 2) (x.rdata ++ s)
    rdlength = atoi16-encode16 r l₄ (length x.rdata) _ v.rdata_fits ttl.1
