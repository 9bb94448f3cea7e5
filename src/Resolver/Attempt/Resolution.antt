-- ===== src/Resolver/Attempt/Resolution.antt =====
-- The search of attempt through referrals to an answer, from the argument of main to the text that
-- the process prints.
use networking.Prelude.{
  ℕ, zero, suc, ◌+◌, ◌%◌, ◌≤◌, ◌≡◌, refl, List, [], ◌∷◌, ◌++◌, true, false, arith, length,
  length-append, ◌∙◌, ap, sym, All,
}
use networking.Resolver.Run.{ok, exits, ◌>>=◌}
use networking.Resolver.Name.Labels.{encode_labels, dotted}
use networking.Resolver.Question.{Question, filename_max, odd_bytes}
use networking.Resolver.Question.Words.{IsHostLabel, make_question_lem}
use networking.Resolver.Records.{Server}
use networking.Resolver.Records.Referral.{glue}
use networking.Resolver.Response.Answered.{Referral, IsReferral, referral_bytes, parse_referral}
use networking.Resolver.Attempt.{
  Header, Exchange, make_header, packet, ask, is_in, get_or, erase, attempt, initialize, main,
  no_record,
}
use networking.Resolver.Attempt.Rounds.{Delivers, LastRound, ask_lem, last_round_lem}
use networking.Resolver.Attempt.Packet.{header_bytes, labelled, packet_lem}
use networking.Resolver.Attempt.Search.{attempt_skip, attempt_referral}

-- The server that attempt picks in a round.
abbrev pub pick_server : (ℕ → ℕ) → ℕ → Server → List Server → Server
pick_server rand round s ss = get_or (s ∷ ss) (rand round % length (s ∷ ss)) s

-- `Resolves … query_name question p n status text round servers stack`: from this round on, `n` rounds
-- that send the packet `p` end the process with this status and text. In each the picked server ends
-- it, or brings a referral, or is on the stack, until no server is left.
pub data Resolves (base64 present : List ℕ → List ℕ) (rand : ℕ → ℕ) (net : ℕ → Exchange) (depth : ℕ)
    (query_name question p : List ℕ) : ℕ → ℕ → List ℕ → ℕ → List Server → List Server → Type 0 where
  exhausted :
      (round : ℕ) (stack : List Server)
      → Resolves base64 present rand net depth query_name question p 1 1 no_record round [] stack
  last :
      (status : ℕ) (text : List ℕ) (round : ℕ) (s : Server) (ss stack : List Server)
      → is_in (pick_server rand round s ss) stack ≡ false
      → LastRound base64 present depth query_name
          (net round)
          (pick_server rand round s ss).ip
          p
          question
          status
          text
      → Resolves base64 present rand net depth query_name question p 1 status text round
          (s ∷ ss)
          stack
  referred :
      (n status : ℕ) (text : List ℕ) (round : ℕ) (s : Server) (ss stack : List Server) (x : Server)
      (xs : List Server) (reply : Referral)
      → is_in (pick_server rand round s ss) stack ≡ false
      → Delivers (net round) (pick_server rand round s ss).ip p (referral_bytes question reply)
      → IsReferral depth question reply
      → glue reply.ar ≡ x ∷ xs
      → Resolves base64 present rand net depth query_name question p n status text
          (round + 1)
          (x ∷ xs)
          (stack ++ pick_server rand round s ss ∷ [])
      → Resolves base64 present rand net depth query_name question p
          (suc n)
          status
          text
          round
          (s ∷ ss)
          stack
  skipped :
      (n status : ℕ) (text : List ℕ) (round : ℕ) (s : Server) (ss stack : List Server)
      → is_in (pick_server rand round s ss) stack ≡ true
      → Resolves base64 present rand net depth query_name question p n status text
          (round + 1)
          (erase (pick_server rand round s ss) (s ∷ ss))
          stack
      → Resolves base64 present rand net depth query_name question p
          (suc n)
          status
          text
          round
          (s ∷ ss)
          stack

module _ (base64 present : List ℕ → List ℕ) (rand : ℕ → ℕ) (net : ℕ → Exchange) (depth : ℕ)
    (query_name : List ℕ) (pkt_header : Header) (pkt_payload : Question) where
  -- A round whose picked server is not on the stack and ends the process.
  attempt_last :
      (fuel round : ℕ) (dns_packet more : List ℕ) (s : Server) (ss stack : List Server) (status : ℕ)
      (text : List ℕ)
      → is_in (pick_server rand round s ss) stack ≡ false
      → packet pkt_header pkt_payload ≡ ok more
      → let server = pick_server rand round s ss in
        ask base64 present rand net depth query_name pkt_header pkt_payload round server
            (dns_packet ++ more)
          ≡ exits status text
        → attempt base64 present rand net depth query_name pkt_header pkt_payload
            (suc fuel)
            round
            dns_packet
            (s ∷ ss)
            stack
          ≡ exits status text
  unfolding attempt
  attempt_last fuel round dns_packet more s ss stack status text h hp ha = rw (h, hp, ha) refl

  -- Rounds that send the same packet end as they say, if the fuel is enough for them.
  attempt_lem :
      (question p : List ℕ) (n status : ℕ) (text : List ℕ) (round fuel : ℕ)
      (servers stack : List Server)
      → packet pkt_header pkt_payload ≡ ok p
      → length p ≡ 12 + length question + 11
      → Resolves base64 present rand net depth query_name question p n status text round servers
          stack
      → n ≤ fuel
      → attempt base64 present rand net depth query_name pkt_header pkt_payload fuel round []
          servers stack
        ≡ exits status text
  unfolding attempt
  attempt_lem question p n status text round zero servers stack hp hl (exhausted _ _) h =
      absurd (omega arith)
  attempt_lem question p n status text round zero servers stack hp hl (last _ _ _ _ _ _ _ _) h =
      absurd (omega arith)
  attempt_lem question p n status text round zero servers stack hp hl
        (referred _ _ _ _ _ _ _ _ _ _ _ _ _ _ _) h =
      absurd (omega arith)
  attempt_lem question p n status text round zero servers stack hp hl (skipped _ _ _ _ _ _ _ _ _)
        h =
      absurd (omega arith)
  attempt_lem question p n status text round (suc fuel) servers stack hp hl (exhausted _ _) h = refl
  attempt_lem question p n status text round (suc fuel) servers stack hp hl
        (last _ _ _ s ss _ new ends) h =
      attempt_last fuel round [] p s ss stack status text new hp (
        last_round_lem base64 present rand net depth query_name pkt_header pkt_payload round _ p
          question status text hl ends)
  attempt_lem question p n status text round (suc fuel) servers stack hp hl
        (referred k _ _ _ s ss _ x xs reply new d v e later) h =
      attempt_referral base64 present rand net depth query_name pkt_header pkt_payload fuel round []
        p s ss stack x xs new hp
        (ask_lem base64 present rand net depth query_name pkt_header pkt_payload round _ p question
            _ hl d
          ∙ parse_referral base64 present depth query_name question reply v
          ∙ ap ok e)
      ∙ attempt_lem question p k status text (round + 1) fuel (x ∷ xs) _ hp hl later (omega arith)
  attempt_lem question p n status text round (suc fuel) servers stack hp hl
        (skipped k _ _ _ s ss _ old later) h =
      attempt_skip base64 present rand net depth query_name pkt_header pkt_payload fuel round [] p s
        ss stack old
      ∙ attempt_lem question p k status text (round + 1) fuel _ stack hp hl later (omega arith)

-- The question of the packet for a name.
abbrev pub question_bytes : List (List ℕ) → List ℕ
question_bytes ls = encode_labels ls ++ 0 ∷ 0 ∷ 28 ∷ 0 ∷ 1 ∷ []

abbrev pub query_bytes : List (List ℕ) → List ℕ
query_bytes ls = header_bytes ++ (encode_labels ls ++ (0 ∷ 0 ∷ 28 ∷ 0 ∷ 1 ∷ odd_bytes))

length-query_bytes :
    (ls : List (List ℕ)) → length (query_bytes ls) ≡ 12 + length (question_bytes ls) + 11
length-query_bytes ls = omega (
  arith,
  length-append (encode_labels ls) (0 ∷ 0 ∷ 28 ∷ 0 ∷ 1 ∷ odd_bytes),
  length-append (encode_labels ls) (0 ∷ 0 ∷ 28 ∷ 0 ∷ 1 ∷ []),
)

-- For a host name of at most 4096 bytes in its labelled form and a count that starts at 0, main ends
-- as its rounds do, if the fuel is enough for them. Each round sends the query for the name, from the
-- root servers on. Its server is on the stack and is passed over, or refers to others, which are next,
-- or ends the search: with an authoritative answer, whose address and signature are printed with the
-- status 0; with an authoritative denial, and the status 0; with a complaint or a failed call of the
-- system, and the status 255. Without a server left the search ends with a message and the status 1.
pub main_ends :
    (base64 present : List ℕ → List ℕ) (rand : ℕ → ℕ) (net : ℕ → Exchange) (depth fuel n : ℕ)
    (blank : Question) (ls : List (List ℕ)) (status : ℕ) (text : List ℕ)
    → All IsHostLabel ls
    → length (encode_labels ls) ≤ filename_max
    → blank.num_bytes ≡ 0
    → Resolves base64 present rand net depth
        (dotted true ls)
        (question_bytes ls)
        (query_bytes ls)
        n
        status
        text
        0
        initialize
        []
    → n ≤ fuel
    → main base64 present rand net depth fuel blank (dotted true ls ∷ []) ≡ exits status text
unfolding main
main_ends base64 present rand net depth fuel n blank ls status text v h z path enough =
    rw (make_question_lem ls blank v h) (
      attempt_lem base64 present rand net depth (dotted true ls) make_header (labelled ls blank)
        (question_bytes ls) (query_bytes ls) n status text 0 fuel initialize [] sent
        (length-query_bytes ls) path enough)
  where
    sent : packet make_header (labelled ls blank) ≡ ok (query_bytes ls)
    sent =
        ap (λ q. q >>= packet make_header) (sym (make_question_lem ls blank v h))
        ∙ packet_lem ls blank v h z
