-- ===== src/Resolver/Name/Compressed.antt =====
-- recParse on compressed names, and where its pointers lead.
use networking.Prelude.{
  ℕ, zero, suc, ◌+◌, ◌*◌, ◌-◌, ◌%◌, ◌<◌, ◌≤◌, ◌≡◌, refl, List, [], ◌∷◌, ◌++◌, Bool, false,
  if◌then◌else◌, arith, length, length-append, All, ap, ◌∙◌, append_assoc, ◌↔◌,
}
use networking.Resolver.Run.{ok, out_of_fuel, From, From-tail, From-drop}
use networking.Resolver.Bytes.{word16}
use networking.Resolver.Name.{rec_parse}
use networking.Resolver.Name.Labels.{
  encode_labels, dotted, IsLabel, rec_parse_label, rec_parse-From, rec_parse_pointer, jump_target,
}

-- A name that ends in a pointer is read as its own labels followed by those at the low six bits of
-- the pointer, if the recursion may be deep enough, and the caller goes on behind the pointer.
pub rec_parse-From_pointer :
    (ls ms : List (List ℕ)) (depth : ℕ) (r : List ℕ) (i : ℕ) (first : Bool) (hi lo : ℕ)
    (s t : List ℕ)
    → length ls + length ms + 1 < depth
    → All IsLabel ls
    → All IsLabel ms
    → 192 ≤ hi
    → hi < 256
    → lo < 256
    → From r i (encode_labels ls ++ hi ∷ lo ∷ s)
    → From r (lo % 64) (encode_labels ms ++ 0 ∷ t)
    → rec_parse depth r i first ≡ ok (dotted first (ls ++ ms), i + length (encode_labels ls) + 2)
rec_parse-From_pointer ls ms zero r i first hi lo s t d v w h0 h1 h2 h k = absurd (omega arith)
rec_parse-From_pointer [] ms (suc depth) r i first hi lo s t d v w h0 h1 h2 h k =
    rec_parse_pointer depth r i first hi lo s h0 h1 h2 h
    ∙ rw (rec_parse-From ms depth r (lo % 64) first t (omega arith) w k)
        (ap (λ (n : ℕ). ok (dotted first ms, n)) (omega arith))
rec_parse-From_pointer (l ∷ ls) ms (suc depth) r i first hi lo s t d (v, vs) w h0 h1 h2 h k =
    rec_parse_label depth r i first l (encode_labels ls ++ hi ∷ lo ∷ s) v here
    ∙ rw
        (rec_parse-From_pointer ls ms depth r (i + 1 + length l) false hi lo s t (omega arith) vs w
          h0 h1 h2 later k)
        (ap (λ (n : ℕ). ok ((if first then l else b'.' ∷ l) ++ dotted false (ls ++ ms), n))
          (omega (arith, length-append l (encode_labels ls))))
  where
    here : From r i (length l ∷ (l ++ (encode_labels ls ++ hi ∷ lo ∷ s)))
    here = rw (← append_assoc) h

    later : From r (i + 1 + length l) (encode_labels ls ++ hi ∷ lo ∷ s)
    later = From-drop r (i + 1) l _ (From-tail r i (length l) _ here)

-- A pointer below the offset 64 that points to itself sends recParse round: no depth of the
-- recursion is enough.
pub rec_parse_loop :
    (depth : ℕ) (r : List ℕ) (i : ℕ) (first : Bool) (hi : ℕ) (s : List ℕ)
    → 192 ≤ hi
    → hi < 256
    → i < 64
    → From r i (hi ∷ i ∷ s)
    → rec_parse depth r i first ≡ out_of_fuel
rec_parse_loop zero r i first hi s h0 h1 h2 h = unfold rec_parse in refl
rec_parse_loop (suc depth) r i first hi s h0 h1 h2 h =
    rec_parse_pointer depth r i first hi i s h0 h1 (omega arith) h
    ∙ rw (small, rec_parse_loop depth r i first hi s h0 h1 h2 h)
  where
    small : i % 64 ≡ i
    small = omega arith

-- A pointer's 14-bit offset is followed exactly when it is below 64.
pub jump_target_exact :
    (hi lo : ℕ)
    → 192 ≤ hi
    → hi < 256
    → lo < 256
    → ((word16 hi lo + 1) % 64 ≡ (hi - 192) * 256 + lo) ↔ ((hi - 192) * 256 + lo < 64)
jump_target_exact hi lo h0 h1 h2 =
    rw (jump_target hi lo h0 h1 h2) ((λ e. omega arith), (λ e. omega arith))
