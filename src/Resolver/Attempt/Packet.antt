-- ===== src/Resolver/Attempt/Packet.antt =====
-- The packet that attempt sends, and the question read back from it.
use networking.Prelude.{
  ℕ, ◌+◌, ◌<◌, ◌≤◌, ◌≡◌, refl, List, [], ◌∷◌, ◌++◌, true, false, arith, length, ◌∙◌, ap, take,
  take-append, All, append-nil, sym, ltb,
}
use networking.Resolver.Run.{ok, ◌>>=◌, From-append}
use networking.Resolver.Name.{rec_parse}
use networking.Resolver.Name.Labels.{encode_labels, dotted, IsLabel, rec_parse-From}
use networking.Resolver.Question.{Question, filename_max, make_question, odd_bytes}
use networking.Resolver.Question.Words.{IsHostLabel, make_question_lem}
use networking.Resolver.Attempt.{make_header, packet, write_name}

abbrev pub header_bytes : List ℕ
header_bytes = 0 ∷ 0 ∷ 0 ∷ 0 ∷ 0 ∷ 1 ∷ 0 ∷ 0 ∷ 0 ∷ 0 ∷ 0 ∷ 1 ∷ []

abbrev blank : Question
blank = record { num_bytes = 0; qname = []; qtype = 0; qclass = 0; qodd = [] }

abbrev pub labelled : List (List ℕ) → Question → Question
labelled ls q = record {
  num_bytes = q.num_bytes + length (encode_labels ls);
  qname = encode_labels ls;
  qtype = 28;
  qclass = 1;
  qodd = odd_bytes;
}

not_less : (n : ℕ) → ltb n n ≡ false
not_less n = ground arith

write_name_lem : (q : Question) → q.num_bytes ≡ length q.qname → write_name q ≡ ok q.qname
unfolding write_name
write_name_lem q e =
    rw (e, not_less (length q.qname))
      (ap ok (ap (take (length q.qname)) (sym (append-nil q.qname)) ∙ take-append q.qname []))

-- From a question whose count starts at 0, the packet is a DNS query for the name: a header, the
-- labels, the end of the name, type AAAA, class IN, and an OPT record.
pub packet_lem :
    (ls : List (List ℕ)) (q : Question)
    → All IsHostLabel ls
    → length (encode_labels ls) ≤ filename_max
    → q.num_bytes ≡ 0
    → (make_question (dotted true ls) q >>= packet make_header)
      ≡ ok (header_bytes ++ (encode_labels ls ++ (0 ∷ 0 ∷ 28 ∷ 0 ∷ 1 ∷ odd_bytes)))
unfolding packet make_header
packet_lem ls q v h z =
    rw (make_question_lem ls q v h, write_name_lem (labelled ls q) (omega (arith, z))) refl

plain_labels : (ls : List (List ℕ)) → All IsHostLabel ls → All IsLabel ls
plain_labels [] v = tt
plain_labels (l ∷ ls) (v, vs) = (v.0, plain_labels ls vs)

-- For a host name of at most 4096 bytes in its labelled form and a count that starts at 0, recParse
-- at the question of the packet finds the name that was asked for, and stops at its closing zero.
pub rec_parse-packet :
    (ls : List (List ℕ)) (q : Question) (depth : ℕ)
    → All IsHostLabel ls
    → length (encode_labels ls) ≤ filename_max
    → q.num_bytes ≡ 0
    → length ls < depth
    → (make_question (dotted true ls) q >>= packet make_header >>= λ p. rec_parse depth p 12 true)
      ≡ ok (dotted true ls, 12 + length (encode_labels ls))
rec_parse-packet ls q depth v h z d = rw (packet_lem ls q v h z) (
    rec_parse-From ls depth _ 12 true (0 ∷ 28 ∷ 0 ∷ 1 ∷ odd_bytes) d (plain_labels ls v)
      (From-append header_bytes (encode_labels ls ++ (0 ∷ 0 ∷ 28 ∷ 0 ∷ 1 ∷ odd_bytes))))
