-- ===== src/Resolver/Question.antt =====
-- makeQuestion of proj3/myresolver.cpp, and struct question of proj3/common.hpp.
pub mod Encode
pub mod Words
use networking.Prelude.{
  ℕ, ◌+◌, ◌%◌, List, [], ◌∷◌, ◌++◌, Bool, true, false, map, ltb, ◌==◌, leb, ◌&&◌, ◌||◌, not,
  if◌then◌else◌, length,
}
use networking.Resolver.Run.{Run, ok, undefined, ◌>>=◌}

-- FILENAME_MAX of glibc.
abbrev pub filename_max : ℕ
filename_max = 4096

-- `qname` holds the bytes of QNAME that have been written, from the first on.
pub record Question : Type 0 where
  pub num_bytes : ℕ
  pub qname : List ℕ
  pub qtype : ℕ
  pub qclass : ℕ
  pub qodd : List ℕ

-- `q.QNAME[index++] = b`, which is undefined behind the end of the array.
pub put_byte : ℕ → Question → Run Question
put_byte b q =
    if ltb (length q.qname) filename_max
    then ok (record q { qname = q.qname ++ b ∷ [] })
    else undefined

-- The inner loop over the characters of a word.
pub put_chars : List ℕ → Question → Run Question
put_chars [] q = ok q
put_chars (c ∷ cs) q = do
  q' ← put_byte c q
  put_chars cs (record q' { num_bytes = q'.num_bytes + 1 })

pub put_word : List ℕ → Question → Run Question
put_word j q = do
  q' ← put_byte (length j % 256) q
  q'' ← put_chars j q'
  ok (record q'' { num_bytes = q''.num_bytes + 1 })

pub put_words : List (List ℕ) → Question → Run Question
put_words [] q = ok q
put_words (j ∷ js) q = do q' ← put_word j q; put_words js q'

-- The white space that `ss >> j` skips.
abbrev pub is_space : ℕ → Bool
is_space c = c == b' ' || (leb 9 c && leb c 13)

abbrev pub is_empty : List ℕ → Bool
is_empty [] = true
is_empty (_ ∷ _) = false

-- The words that `while(ss >> j)` finds, `word` being the part read so far.
pub words : List ℕ → List ℕ → List (List ℕ)
words word [] = if is_empty word then [] else word ∷ []
words word (c ∷ cs) =
    let rest = words (if is_space c then [] else word ++ c ∷ []) cs in
    if is_space c && not (is_empty word) then word ∷ rest else rest

abbrev pub dot_to_space : ℕ → ℕ
dot_to_space c = if c == b'.' then b' ' else c

abbrev pub odd_bytes : List ℕ
odd_bytes = 0 ∷ 0 ∷ 41 ∷ 16 ∷ 0 ∷ 0 ∷ 0 ∷ 128 ∷ 0 ∷ 0 ∷ 0 ∷ []

-- `index` starts at 0; `numBytes` goes on from the value that `q` brings.
unfoldable pub make_question : List ℕ → Question → Run Question
unfolding put_words words put_word put_chars put_byte
make_question name q = do
  q' ← put_words (words [] (map dot_to_space name)) (record q { qname = [] })
  ok (record q' { qtype = 28; qclass = 1; qodd = odd_bytes })
