-- ===== src/Resolver/Question/Words.antt =====
-- makeQuestion on a dotted name: the words are its labels.
use networking.Prelude.{
  ℕ, ◌+◌, ◌%◌, ◌≤◌, ◌≡◌, ◌≢◌, refl, List, [], ◌∷◌, ◌++◌, true, false, arith, length, append_assoc,
  append-nil, ◌∙◌, ap, sym, map, All,
}
use mathlib.Core.List.{map-append}
use networking.Resolver.Run.{ok, undefined}
use networking.Resolver.Name.Labels.{encode_labels, dotted, IsLabel}
use networking.Resolver.Question.{
  Question, filename_max, words, dot_to_space, is_space, make_question, odd_bytes,
}
use networking.Resolver.Question.Encode.{encode_words, put_words_lem, put_words_overflow}

-- A character that neither ends a label nor separates words.
abbrev pub IsPlain : ℕ → Type 0
IsPlain c = (is_space c ≡ false) × (c ≢ b'.')

-- A label of plain characters that a length byte can announce.
abbrev pub IsHostLabel : List ℕ → Type 0
IsHostLabel l = IsLabel l × All IsPlain l

dot_to_space_plain : (c : ℕ) → IsPlain c → dot_to_space c ≡ c
dot_to_space_plain c (s, d) = ground arith

-- Plain characters join the current word.
words_plain :
    (word l rest : List ℕ)
    → All IsPlain l
    → words word (map dot_to_space l ++ rest) ≡ words (word ++ l) rest
unfolding words
words_plain word [] rest v = rw append-nil
words_plain word (c ∷ l) rest ((s, d), v) =
    rw (dot_to_space_plain c (s, d), s)
      (words_plain (word ++ c ∷ []) l rest v ∙ rw (append_assoc word (c ∷ []) l))

-- A finished word, and the labels behind it.
words_current :
    (l : List ℕ) (ls : List (List ℕ))
    → 1 ≤ length l
    → All IsHostLabel ls
    → words l (map dot_to_space (dotted false ls)) ≡ l ∷ ls
unfolding words
words_current [] ls h vs = absurd (omega arith)
words_current (c ∷ l) [] h vs = refl
words_current (c ∷ l) (m ∷ ms) h (v, vs) = ap (◌∷◌ (c ∷ l)) (
    rw (map-append dot_to_space m (dotted false ms))
      (words_plain [] m (map dot_to_space (dotted false ms)) v.1 ∙ words_current m ms v.0.0 vs))

pub words-dotted :
    (ls : List (List ℕ)) → All IsHostLabel ls → words [] (map dot_to_space (dotted true ls)) ≡ ls
words-dotted [] vs = unfold words in refl
words-dotted (l ∷ ls) (v, vs) =
    rw (map-append dot_to_space l (dotted false ls))
      (words_plain [] l (map dot_to_space (dotted false ls)) v.1 ∙ words_current l ls v.0.0 vs)

encode_words-labels : (ls : List (List ℕ)) → All IsHostLabel ls → encode_words ls ≡ encode_labels ls
encode_words-labels [] vs = refl
encode_words-labels (l ∷ ls) (v, vs) = rw (encode_words-labels ls vs, small)
  where
    small : length l % 256 ≡ length l
    small = omega (arith, v.0)

-- For a host name of at most 4096 bytes in its labelled form, makeQuestion writes that form and adds
-- its length to numBytes.
pub make_question_lem :
    (ls : List (List ℕ)) (q : Question)
    → All IsHostLabel ls
    → length (encode_labels ls) ≤ filename_max
    → make_question (dotted true ls) q
      ≡ ok (record {
        num_bytes = q.num_bytes + length (encode_labels ls);
        qname = encode_labels ls;
        qtype = 28;
        qclass = 1;
        qodd = odd_bytes;
      })
unfolding make_question
make_question_lem ls q vs h =
    rw (
      words-dotted ls vs,
      put_words_lem ls (record q { qname = [] }) fits,
      encode_words-labels ls vs,
    )
  where
    fits : 0 + length (encode_words ls) ≤ filename_max
    fits = rw (encode_words-labels ls vs) (omega arith)

words_long : (l : List ℕ) → 1 ≤ length l → words l [] ≡ l ∷ []
unfolding words
words_long [] h = absurd (omega arith)
words_long (c ∷ l) h = refl

-- A name of 4096 characters or more without a dot or white space runs over the end of QNAME.
pub make_question_overflow :
    (l : List ℕ) (q : Question)
    → All IsPlain l
    → filename_max ≤ length l
    → make_question l q ≡ undefined
unfolding make_question
make_question_overflow l q v h =
    rw (one_word, put_words_overflow l [] (record q { qname = [] }) h refl)
  where
    one_word : words [] (map dot_to_space l) ≡ l ∷ []
    one_word =
        ap (words []) (sym (append-nil (map dot_to_space l)))
        ∙ words_plain [] l [] v
        ∙ words_long l (omega arith)
