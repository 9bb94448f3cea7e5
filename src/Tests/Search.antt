-- ===== src/Tests/Search.antt =====
-- The search from server to server on concrete replies.
use networking.Prelude.{
  ℕ, ◌≡◌, refl, List, [], ◌∷◌, ◌++◌, true, false, not, ltb, arith, codes, some, length,
}
use networking.Resolver.Run.{Run, ok, at, exits}
use networking.Resolver.Question.{Question, odd_bytes}
use networking.Resolver.Records.{Server}
use networking.Resolver.Response.{parse}
use networking.Resolver.Attempt.{
  Exchange, make_header, packet, write_name, no_record, send_out, ask, attempt,
}
use networking.Resolver.Attempt.Search.{attempt_exhausts}
use networking.Tests.Replies.{referral, no_text, ns_edu, referral_parsed}

-- The question for `cs.edu`.
abbrev asked : Question
asked = record {
  num_bytes = 7;
  qname = 2 ∷ (codes "cs" ++ 3 ∷ codes "edu");
  qtype = 28;
  qclass = 1;
  qodd = odd_bytes;
}

abbrev query : List ℕ
query =
    0 ∷ 0 ∷ 0 ∷ 0 ∷ 0 ∷ 1 ∷ 0 ∷ 0 ∷ 0 ∷ 0 ∷ 0 ∷ 1 ∷ (asked.qname ++ 0 ∷ 0 ∷ 28 ∷ 0 ∷ 1 ∷ odd_bytes)

asked-packet : packet make_header asked ≡ ok query
unfolding packet make_header write_name
asked-packet = refl

abbrev root : Server
root = record { ip = codes "198.41.0.4"; name = codes "ns.internic.net" }

abbrev root2 : Server
root2 = record { ip = codes "128.8.10.90"; name = codes "terp.umd.edu" }

abbrev first : ℕ → ℕ
first round = 0

-- Every server refuses, with the code 5.
abbrev refusing : ℕ → Exchange
refusing round = record {
  opened = true;
  connected = true;
  sent = λ p. some (length p);
  received = λ ip p. some (0 ∷ 0 ∷ 0 ∷ 5 ∷ 0 ∷ 0 ∷ 0 ∷ 0 ∷ 0 ∷ 0 ∷ 0 ∷ 0 ∷ []);
}

-- Every server sends the same referral.
abbrev referring : ℕ → Exchange
referring round = record (refusing round) { received = λ ip p. some referral }

all_sent : (p : List ℕ) → not (not (ltb (length p) (length p))) ≡ false
all_sent p = ground arith

refused :
    (round : ℕ) (s : Server) (p : List ℕ)
    → ask no_text no_text first refusing 4 (codes "cs.edu") make_header asked round s p ≡ ok []
unfolding ask send_out parse at
refused round s p = rw (send_out, all_sent p) refl

referred :
    ask no_text no_text first referring 4 (codes "cs.edu") make_header asked 0 root query
    ≡ ok (ns_edu ∷ [])
unfolding ask send_out
referred = referral_parsed

abbrev asking :
    (ℕ → Exchange) → (fuel round : ℕ) → List ℕ → List Server → List Server → Run (ℕ × List Server)
asking net = attempt no_text no_text first net 4 (codes "cs.edu") make_header asked

attempt_exhausts_example : asking refusing 3 0 [] (root ∷ root2 ∷ []) [] ≡ exits 1 no_record
attempt_exhausts_example =
    attempt_exhausts no_text no_text first refusing 4 (codes "cs.edu") make_header asked query
      asked-packet refused 3 0 [] (root ∷ root2 ∷ []) [] (omega arith)
