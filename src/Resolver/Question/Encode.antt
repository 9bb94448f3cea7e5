-- ===== src/Resolver/Question/Encode.antt =====
-- What makeQuestion writes for given words.
use networking.Prelude.{
  ℕ, ◌+◌, ◌%◌, ◌<◌, ◌≤◌, ◌≡◌, List, [], ◌∷◌, ◌++◌, arith, length, length-append, append_assoc,
  append-nil, ◌∙◌, ap,
}
use networking.Resolver.Run.{ok, undefined}
use networking.Resolver.Question.{Question, filename_max, put_byte, put_chars, put_word, put_words}

-- Each word behind the low byte of its length.
abbrev pub encode_words : List (List ℕ) → List ℕ
encode_words [] = []
encode_words (j ∷ js) = length j % 256 ∷ (j ++ encode_words js)

-- `bs` appended to the name, and `n` more bytes counted.
abbrev pub grow : Question → List ℕ → ℕ → Question
grow q bs n = record q { qname = q.qname ++ bs; num_bytes = q.num_bytes + n }

pub put_byte_lem :
    (b : ℕ) (q : Question)
    → length q.qname < filename_max
    → put_byte b q ≡ ok (record q { qname = q.qname ++ b ∷ [] })
unfolding put_byte
put_byte_lem b q h = ground arith

grow-nil : (q : Question) → q ≡ grow q [] 0
grow-nil q = ground (arith, append-nil q.qname)

grow-grow :
    (q : Question) (xs ys : List ℕ) (m n : ℕ) → grow (grow q xs m) ys n ≡ grow q (xs ++ ys) (m + n)
grow-grow q xs ys m n = ground (arith, append_assoc q.qname xs ys)

put_chars_lem :
    (cs : List ℕ) (q : Question)
    → length q.qname + length cs ≤ filename_max
    → put_chars cs q ≡ ok (grow q cs (length cs))
unfolding put_chars
put_chars_lem [] q h = ap ok (grow-nil q)
put_chars_lem (c ∷ cs) q h = rw (put_byte_lem c q (omega arith)) (
    put_chars_lem cs (grow q (c ∷ []) 1) (omega (arith, length-append q.qname (c ∷ [])))
    ∙ ap ok (grow-grow q (c ∷ []) cs 1 (length cs) ∙ ap (grow q (c ∷ cs)) (omega arith)))

put_word_lem :
    (j : List ℕ) (q : Question)
    → length q.qname + length j + 1 ≤ filename_max
    → put_word j q ≡ ok (grow q (length j % 256 ∷ j) (length j + 1))
unfolding put_word
put_word_lem j q h =
    rw
      (
        put_byte_lem (length j % 256) q (omega arith),
        put_chars_lem j (record q { qname = q.qname ++ length j % 256 ∷ [] })
            (omega (arith, length-append q.qname (length j % 256 ∷ []))),
      )
      (ground (arith, append_assoc q.qname (length j % 256 ∷ []) j))

-- The words go to the array one behind the other, and each byte of them is counted.
pub put_words_lem :
    (js : List (List ℕ)) (q : Question)
    → length q.qname + length (encode_words js) ≤ filename_max
    → put_words js q ≡ ok (grow q (encode_words js) (length (encode_words js)))
unfolding put_words
put_words_lem [] q h = ap ok (grow-nil q)
put_words_lem (j ∷ js) q h =
    rw (put_word_lem j q (omega (arith, length-append j (encode_words js)))) (
      put_words_lem js (grow q (length j % 256 ∷ j) (length j + 1)) fits
      ∙ ap ok (
          grow-grow q (length j % 256 ∷ j) (encode_words js) (length j + 1) _
          ∙ ap (grow q (encode_words (j ∷ js))) (omega (arith, length-append j (encode_words js)))))
  where
    fits : length (q.qname ++ length j % 256 ∷ j) + length (encode_words js) ≤ filename_max
    fits =
        omega (arith, length-append q.qname (length j % 256 ∷ j), length-append j (encode_words js))

-- A word too many characters long for what is left of the array is written over its end.
pub put_chars_overflow :
    (cs : List ℕ) (q : Question)
    → filename_max < length q.qname + length cs
    → length q.qname ≤ filename_max
    → put_chars cs q ≡ undefined
unfolding put_chars put_byte
put_chars_overflow [] q h k = absurd (omega arith)
put_chars_overflow (c ∷ cs) q h k =
    ground (arith, put_chars_overflow cs (grow q (c ∷ []) 1), length-append q.qname (c ∷ []))

pub put_words_overflow :
    (l : List ℕ) (js : List (List ℕ)) (q : Question)
    → filename_max ≤ length l
    → q.qname ≡ []
    → put_words (l ∷ js) q ≡ undefined
unfolding put_words put_word
put_words_overflow l js q h e = rw (
  put_byte_lem (length l % 256) q (omega (arith, ap length e)),
  put_chars_overflow l (record q { qname = q.qname ++ length l % 256 ∷ [] }) long short,
)
  where
    one : length (q.qname ++ length l % 256 ∷ []) ≡ 1
    one = rw e

    long : filename_max < length (q.qname ++ length l % 256 ∷ []) + length l
    long = omega (arith, one)

    short : length (q.qname ++ length l % 256 ∷ []) ≤ filename_max
    short = omega (arith, one)
