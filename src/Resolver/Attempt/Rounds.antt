-- ===== src/Resolver/Attempt/Rounds.antt =====
-- One round of attempt: what the system brings, and how a last round ends the process.
use networking.Prelude.{
  ℕ, zero, suc, ◌+◌, ◌%◌, ◌≤◌, ◌<◌, ◌≡◌, refl, List, [], ◌∷◌, none, Option, if◌then◌else◌, not,
  true, false, some, arith, length, ◌∙◌, ap, take, ltb,
}
use networking.Resolver.Run.{ok, exits}
use networking.Resolver.Question.{Question}
use networking.Resolver.Records.{Server}
use networking.Resolver.Answer.Printed.{printed_answer}
use networking.Resolver.Response.{parse, fatal, name_error, format}
use networking.Resolver.Name.{bit}
use networking.Resolver.Response.Answered.{
  Head, plain_bytes, no_such_name, parse_denial, parse_complaint, Answer, IsAnswer, answer_bytes,
  parse_answer,
}
use networking.Resolver.Attempt.{Header, Exchange, sent_all, answer_of, send_out, ask}

-- In this round the system takes the whole packet `p` and brings `r`, which the buffer holds, from
-- the address `ip`.
pub record Delivers (e : Exchange) (ip p r : List ℕ) : Type 0 where
  pub open_socket : e.opened ≡ true
  pub open_connection : e.connected ≡ true
  pub count : ℕ
  pub counted : e.sent p ≡ some count
  pub whole : length p ≤ count
  pub brought : e.received ip p ≡ some r
  pub held : length r ≤ 8191

-- In this round a call of the system fails, or takes only a part of the packet.
pub data IsBroken (e : Exchange) (ip p : List ℕ) : Type 0 where
  unopened : e.opened ≡ false → IsBroken e ip p
  unconnected : e.connected ≡ false → IsBroken e ip p
  unsent : e.sent p ≡ none → IsBroken e ip p
  cut_short : (k : ℕ) → e.sent p ≡ some k → k < length p → IsBroken e ip p
  unreceived : e.received ip p ≡ none → IsBroken e ip p

take_short : (r : List ℕ) (n : ℕ) → length r ≤ n → take n r ≡ r
take_short [] zero h = refl
take_short [] (suc n) h = refl
take_short (b ∷ r) zero h = absurd (omega arith)
take_short (b ∷ r) (suc n) h = ap (◌∷◌ b) (take_short r n (omega arith))

not_less : (n k : ℕ) → n ≤ k → ltb k n ≡ false
not_less n k h = ground arith

send_out_lem : (e : Exchange) (ip p r : List ℕ) → Delivers e ip p r → send_out e ip p ≡ ok r
unfolding send_out
send_out_lem e ip p r d =
    rw (d.open_socket, d.open_connection, d.counted, not_less (length p) d.count d.whole, d.brought)
      (ap ok (take_short r 8191 d.held))

less : (n k : ℕ) → k < n → ltb k n ≡ true
less n k h = ground arith

sent_out :
    (e : Exchange) (ip p : List ℕ) (o : Option ℕ)
    → e.sent p ≡ o
    → send_out e ip p ≡ (
        if not e.opened
        then fatal
        else if not e.connected
        then fatal
        else if not (sent_all o (length p))
        then fatal
        else answer_of (e.received ip p))
unfolding send_out
sent_out e ip p o h = rw h refl

send_out_broken : (e : Exchange) (ip p : List ℕ) → IsBroken e ip p → send_out e ip p ≡ fatal
unfolding send_out
send_out_broken e ip p (unopened h) = ground (arith, h)
send_out_broken e ip p (unconnected h) = ground (arith, h)
send_out_broken e ip p (unsent h) = sent_out e ip p none h ∙ ground arith
send_out_broken e ip p (cut_short k h l) =
    sent_out e ip p (some k) h ∙ rw (less (length p) k l) (ground arith)
send_out_broken e ip p (unreceived h) = rw h (ground arith)

-- `LastRound base64 present depth query_name e ip p question status text`: in this round the packet
-- `p` goes to the address `ip`, and what comes back ends the process with this status and text.
pub data LastRound (base64 present : List ℕ → List ℕ) (depth : ℕ) (query_name : List ℕ)
    (e : Exchange) (ip p question : List ℕ) : ℕ → List ℕ → Type 0 where
  answers :
      (m : Answer)
      → Delivers e ip p (answer_bytes question m)
      → IsAnswer depth question m
      → LastRound base64 present depth query_name e ip p question 0
          (printed_answer base64 present query_name m.first m.second m.signed)
  denies :
      (h : Head) (ns ar : ℕ) (rest : List ℕ)
      → Delivers e ip p (plain_bytes h 0 ns ar rest)
      → h.status % 16 ≡ name_error
      → bit h.flags 2 ≡ true
      → LastRound base64 present depth query_name e ip p question 0 no_such_name
  complains :
      (h : Head) (an ns ar : ℕ) (rest : List ℕ)
      → Delivers e ip p (plain_bytes h an ns ar rest)
      → h.status % 16 ≡ format
      → LastRound base64 present depth query_name e ip p question 255 []
  breaks : IsBroken e ip p → LastRound base64 present depth query_name e ip p question 255 []

module _ (base64 present : List ℕ → List ℕ) (rand : ℕ → ℕ) (net : ℕ → Exchange) (depth : ℕ)
    (query_name : List ℕ) (pkt_header : Header) (pkt_payload : Question) where
  -- What one round makes of the reply that the system brings.
  pub ask_lem :
      (round : ℕ) (server : Server) (p question r : List ℕ)
      → length p ≡ 12 + length question + 11
      → Delivers (net round) server.ip p r
      → ask base64 present rand net depth query_name pkt_header pkt_payload round server p
        ≡ parse base64 present depth query_name r (12 + length question)
  unfolding ask
  ask_lem round server p question r h d =
      rw (send_out_lem (net round) server.ip p r d)
        (ap (parse base64 present depth query_name r) (omega (arith, h)))

  pub last_round_lem :
      (round : ℕ) (server : Server) (p question : List ℕ) (status : ℕ) (text : List ℕ)
      → length p ≡ 12 + length question + 11
      → LastRound base64 present depth query_name (net round) server.ip p question status text
      → ask base64 present rand net depth query_name pkt_header pkt_payload round server p
        ≡ exits status text
  unfolding ask
  last_round_lem round server p question status text h (answers m d v) =
      ask_lem round server p question _ h d
      ∙ parse_answer base64 present depth query_name question m v
  last_round_lem round server p question status text h (denies head ns ar rest d c aa) =
      ask_lem round server p question _ h d
      ∙ parse_denial base64 present depth query_name head ns ar rest _ c aa
  last_round_lem round server p question status text h (complains head an ns ar rest d c) =
      ask_lem round server p question _ h d
      ∙ parse_complaint base64 present depth query_name head an ns ar rest _ c
  last_round_lem round server p question status text h (breaks b) =
      rw (send_out_broken (net round) server.ip p b) refl
