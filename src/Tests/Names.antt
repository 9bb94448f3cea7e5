-- ===== src/Tests/Names.antt =====
-- Names and addresses of proj3/myresolver.cpp on concrete inputs.
use networking.Prelude.{
  ℕ, ◌≡◌, refl, List, [], ◌∷◌, ◌++◌, true, All, arith, codes, length, zero, suc, ap, take, drop,
}
use networking.Resolver.Run.{ok, undefined, out_of_fuel, ◌>>=◌, From-append}
use networking.Resolver.Name.{rec_parse}
use networking.Resolver.Name.Labels.{IsLabel}
use networking.Resolver.Name.Compressed.{rec_parse-From_pointer, rec_parse_loop}
use networking.Resolver.Question.{Question, make_question}
use networking.Resolver.Question.Words.{IsPlain, IsHostLabel, make_question_overflow}
use networking.Resolver.Attempt.{make_header, packet}
use networking.Resolver.Attempt.Packet.{rec_parse-packet}

abbrev host : List (List ℕ)
host = codes "cs" ∷ codes "utah" ∷ []

abbrev blank : Question
blank = record { num_bytes = 0; qname = []; qtype = 0; qclass = 0; qodd = [] }

host-IsHostLabel : All IsHostLabel host
host-IsHostLabel = ground arith

host-IsLabel : All IsLabel host
host-IsLabel = ground arith

rec_parse-packet_example :
    (make_question (codes "cs.utah") blank >>= packet make_header >>= λ p. rec_parse 3 p 12 true)
    ≡ ok (codes "cs.utah", 20)
rec_parse-packet_example =
    rec_parse-packet host blank 3 host-IsHostLabel (omega arith) refl (omega arith)

abbrev letters : ℕ → List ℕ
letters zero = []
letters (suc n) = b'a' ∷ letters n

letters-IsPlain : (n : ℕ) → All IsPlain (letters n)
letters-IsPlain zero = tt
letters-IsPlain (suc n) = (ground arith, letters-IsPlain n)

length-letters : (n : ℕ) → length (letters n) ≡ n
length-letters zero = refl
length-letters (suc n) = ap suc (length-letters n)

make_question_overflow_example : make_question (letters 5000) blank ≡ undefined
make_question_overflow_example =
    make_question_overflow (letters 5000) blank (letters-IsPlain 5000)
      (omega (arith, length-letters 5000))

-- A name that ends in a pointer to the offset 4, where `utah` stands, behind four other bytes.
abbrev pointed : List ℕ
pointed = 9 ∷ 9 ∷ 9 ∷ 9 ∷ 4 ∷ (codes "utah" ++ 0 ∷ 2 ∷ (codes "cs" ++ 192 ∷ 4 ∷ 7 ∷ []))

rec_parse-From_pointer_example : rec_parse 4 pointed 10 true ≡ ok (codes "cs.utah", 15)
rec_parse-From_pointer_example =
    rec_parse-From_pointer (codes "cs" ∷ []) (codes "utah" ∷ []) 4 pointed 10 true 192 4 (7 ∷ [])
      (2 ∷ (codes "cs" ++ 192 ∷ 4 ∷ 7 ∷ [])) (omega arith) (ground arith) (ground arith)
      (omega arith) (omega arith) (omega arith) (From-append (take 10 pointed) (drop 10 pointed))
      (From-append (take 4 pointed) (drop 4 pointed))

rec_parse_loop_example : rec_parse 100 (9 ∷ 192 ∷ 1 ∷ []) 1 true ≡ out_of_fuel
rec_parse_loop_example =
    rec_parse_loop 100 (9 ∷ 192 ∷ 1 ∷ []) 1 true 192 [] (omega arith) (omega arith) (omega arith)
      (From-append (9 ∷ []) (192 ∷ 1 ∷ []))
