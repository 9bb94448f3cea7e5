-- ===== src/Resolver/Name/Labels.antt =====
-- recParse on an uncompressed name, and on a compression pointer.
use networking.Prelude.{
  ℕ, zero, suc, ◌+◌, ◌%◌, ◌<◌, ◌≤◌, ◌≡◌, refl, List, [], ◌∷◌, ◌++◌, Bool, true, false, ◌==◌, ◌&&◌,
  if◌then◌else◌, arith, length, length-append, All, ap, ◌∙◌, append_assoc,
}
use networking.Resolver.Run.{ok, ◌>>=◌, From, From-at, From-tail, From-drop}
use networking.Resolver.Bytes.{atoi16, word16, word16_short}
use networking.Resolver.Name.{bit, read_label, rec_parse}

-- The labels of a name as a DNS message holds them, each behind its length.
abbrev pub encode_labels : List (List ℕ) → List ℕ
encode_labels [] = []
encode_labels (l ∷ ls) = length l ∷ (l ++ encode_labels ls)

-- The labels joined by dots, with a dot in front unless they come first.
abbrev pub dotted : Bool → List (List ℕ) → List ℕ
dotted first [] = []
dotted first (l ∷ ls) = (if first then l else b'.' ∷ l) ++ dotted false ls

-- A length byte that is not zero and has not both top bits set.
abbrev pub IsLabel : List ℕ → Type 0
IsLabel l = (1 ≤ length l) × (length l < 192)

pub read_label-From :
    (r : List ℕ) (i : ℕ) (l s : List ℕ)
    → From r i (l ++ s)
    → read_label r i (length l) ≡ ok (l, i + length l)
unfolding read_label
read_label-From r i [] s h = ground arith
read_label-From r i (c ∷ l) s h =
    ground
      (arith, From-at r i c (l ++ s) h, read_label-From r (i + 1) l s (From-tail r i c (l ++ s) h))

-- One round of recParse at a label.
pub rec_parse_label :
    (depth : ℕ) (r : List ℕ) (i : ℕ) (first : Bool) (l s : List ℕ)
    → IsLabel l
    → From r i (length l ∷ (l ++ s))
    → rec_parse (suc depth) r i first ≡ (
        rec_parse depth r (i + 1 + length l) false >>= λ p.
        ok ((if first then l else b'.' ∷ l) ++ p.0, p.1))
unfolding rec_parse
rec_parse_label depth r i first l s (lo, hi) h = ground (
  arith,
  From-at r i (length l) (l ++ s) h,
  read_label-From r (i + 1) l s (From-tail r i (length l) (l ++ s) h),
)

-- recParse reads the labels back, joined by dots, and stops at the closing zero byte.
pub rec_parse-From :
    (ls : List (List ℕ)) (depth : ℕ) (r : List ℕ) (i : ℕ) (first : Bool) (s : List ℕ)
    → length ls < depth
    → All IsLabel ls
    → From r i (encode_labels ls ++ 0 ∷ s)
    → rec_parse depth r i first ≡ ok (dotted first ls, i + length (encode_labels ls))
unfolding rec_parse
rec_parse-From ls zero r i first s d v h = absurd (omega arith)
rec_parse-From [] (suc depth) r i first s d v h = ground (arith, From-at r i 0 s h)
rec_parse-From (l ∷ ls) (suc depth) r i first s d (v, vs) h =
    rec_parse_label depth r i first l (encode_labels ls ++ 0 ∷ s) v here
    ∙ rw (rec_parse-From ls depth r (i + 1 + length l) false s (omega arith) vs later) (
        ap (λ (n : ℕ). ok ((if first then l else b'.' ∷ l) ++ dotted false ls, n))
          (omega (arith, length-append l (encode_labels ls))))
  where
    here : From r i (length l ∷ (l ++ (encode_labels ls ++ 0 ∷ s)))
    here = rw (← append_assoc) h

    later : From r (i + 1 + length l) (encode_labels ls ++ 0 ∷ s)
    later = From-drop r (i + 1) l _ (From-tail r i (length l) _ here)

-- Where recParse goes on after a pointer with the bytes `hi` and `lo`.
pub jump_target : (hi lo : ℕ) → 192 ≤ hi → hi < 256 → lo < 256 → (word16 hi lo + 1) % 64 ≡ lo % 64
jump_target hi lo h0 h1 h2 = rw (word16_short hi lo (omega arith) h1 h2) (omega arith)

pointer_bits : (hi : ℕ) → 192 ≤ hi → hi < 256 → (bit hi 7 && bit hi 6) ≡ true
pointer_bits hi h0 h1 = ground arith

not_zero : (hi : ℕ) → 192 ≤ hi → (hi == 0) ≡ false
not_zero hi h = ground arith

-- At a pointer with the high byte `hi`, recParse goes on at the low six bits of the low byte `lo`,
-- and the caller goes on behind the two bytes.
pub rec_parse_pointer :
    (depth : ℕ) (r : List ℕ) (i : ℕ) (first : Bool) (hi lo : ℕ) (s : List ℕ)
    → 192 ≤ hi
    → hi < 256
    → lo < 256
    → From r i (hi ∷ lo ∷ s)
    → rec_parse (suc depth) r i first ≡ (rec_parse depth r (lo % 64) first >>= λ p. ok (p.0, i + 2))
unfolding rec_parse atoi16
rec_parse_pointer depth r i first hi lo s h0 h1 h2 h =
    rw
      (
        From-at r i hi (lo ∷ s) h,
        From-at r (i + 1) lo s (From-tail r i hi (lo ∷ s) h),
        not_zero hi h0,
        pointer_bits hi h0 h1,
        jump_target hi lo h0 h1 h2,
      )
      refl
