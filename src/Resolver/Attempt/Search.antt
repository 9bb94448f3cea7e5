-- ===== src/Resolver/Attempt/Search.antt =====
-- How attempt ends.
use networking.Prelude.{
  ℕ, zero, suc, ◌+◌, ◌%◌, ◌<◌, ◌≡◌, ◌≢◌, refl, List, [], ◌∷◌, ◌++◌, true, false, arith, length, ◌∙◌,
  ap, inl, inr, Bool-cases,
}
use networking.Resolver.Run.{Run, ok, exits, >>=-ne-ok, >>=-no_return}
use networking.Resolver.Question.{Question}
use networking.Resolver.Records.{Server}
use networking.Resolver.Attempt.{
  Header, Exchange, packet, text_eq, server_eq, is_in, erase, get_or, erase_at, pop_back, no_record,
  ask, attempt,
}

text_eq_refl : (s : List ℕ) → text_eq s s ≡ true
unfolding text_eq
text_eq_refl [] = refl
text_eq_refl (a ∷ s) = ground (arith, text_eq_refl s)

server_eq_refl : (s : Server) → server_eq s s ≡ true
unfolding server_eq
server_eq_refl s = ground (arith, text_eq_refl s.name, text_eq_refl s.ip)

-- Erasing a server that is picked from the list makes the list shorter by one.
length-erase :
    (xs : List Server) (i : ℕ) (d : Server)
    → i < length xs
    → suc (length (erase (get_or xs i d) xs)) ≡ length xs
unfolding erase get_or
length-erase [] i d h = absurd (omega arith)
length-erase (x ∷ xs) zero d h = rw (server_eq_refl x)
length-erase (x ∷ xs) (suc i) d h = ground (arith, length-erase xs i d)

length-erase_at :
    (xs : List Server) (i : ℕ) → i < length xs → suc (length (erase_at i xs)) ≡ length xs
unfolding erase_at
length-erase_at [] i h = absurd (omega arith)
length-erase_at (x ∷ xs) zero h = refl
length-erase_at (x ∷ xs) (suc i) h = ap suc (length-erase_at xs i (omega arith))

pop_back-append : (ys : List Server) (y : Server) → pop_back (ys ++ y ∷ []) ≡ ys
unfolding pop_back
pop_back-append [] y = refl
pop_back-append (z ∷ []) y = refl
pop_back-append (z ∷ w ∷ ys) y = ap (◌∷◌ z) (pop_back-append (w ∷ ys) y)

module _ (base64 present : List ℕ → List ℕ) (rand : ℕ → ℕ) (net : ℕ → Exchange) (depth : ℕ)
    (query_name : List ℕ) (pkt_header : Header) (pkt_payload : Question) where
  abbrev run_attempt : (fuel round : ℕ) → List ℕ → List Server → List Server → Run (ℕ × List Server)
  run_attempt = attempt base64 present rand net depth query_name pkt_header pkt_payload

  abbrev run_ask : ℕ → Server → List ℕ → Run (List Server)
  run_ask = ask base64 present rand net depth query_name pkt_header pkt_payload

  -- attempt never returns to its caller.
  pub attempt-ne-ok :
      (fuel round : ℕ) (dns_packet : List ℕ) (servers stack : List Server) (r : ℕ × List Server)
      → run_attempt fuel round dns_packet servers stack ≢ ok r
  unfolding attempt
  attempt-ne-ok zero round dns_packet servers stack r = λ e. cc
  attempt-ne-ok (suc fuel) round dns_packet [] stack r = λ e. cc
  attempt-ne-ok (suc fuel) round dns_packet (s ∷ ss) stack r =
      let server = get_or (s ∷ ss) (rand round % length (s ∷ ss)) s in
      elim (Bool-cases (is_in server stack)) [
        | inl old ↦
            rw old (attempt-ne-ok fuel (round + 1) dns_packet (erase server (s ∷ ss)) stack r)
        | inr new ↦ rw new (
            >>=-ne-ok (packet pkt_header pkt_payload) _ λ more.
              >>=-ne-ok (run_ask round server (dns_packet ++ more)) _ λ new_list. >>=-ne-ok _ _ λ p.
                attempt-ne-ok fuel p.0 (dns_packet ++ more)
                  (erase_at (rand round % length (s ∷ ss)) (s ∷ ss)) (pop_back p.1) r)
      ]

  module _ (fuel round : ℕ) (dns_packet more : List ℕ) (s : Server) (ss stack : List Server) where
    abbrev picked : Server
    picked = get_or (s ∷ ss) (rand round % length (s ∷ ss)) s

    -- A server that is not on the stack and names others hands the search over for good: what is left
    -- of its own list plays no part any more.
    pub attempt_referral :
        (x : Server) (xs : List Server)
        → is_in picked stack ≡ false
        → packet pkt_header pkt_payload ≡ ok more
        → run_ask round picked (dns_packet ++ more) ≡ ok (x ∷ xs)
        → run_attempt (suc fuel) round dns_packet (s ∷ ss) stack
          ≡ run_attempt fuel (round + 1) [] (x ∷ xs) (stack ++ picked ∷ [])
    unfolding attempt
    attempt_referral x xs h hp ha =
        rw (h, hp, ha)
          (>>=-no_return _ _ (attempt-ne-ok fuel (round + 1) [] (x ∷ xs) (stack ++ picked ∷ [])))

    pub attempt_skip :
        is_in picked stack ≡ true
        → run_attempt (suc fuel) round dns_packet (s ∷ ss) stack
          ≡ run_attempt fuel (round + 1) dns_packet (erase picked (s ∷ ss)) stack
    unfolding attempt
    attempt_skip h = rw h

    -- After a server that is not on the stack and names no other, the search goes on without it, and
    -- the next round's packet begins with the one that was sent.
    pub attempt_retry :
        is_in picked stack ≡ false
        → packet pkt_header pkt_payload ≡ ok more
        → run_ask round picked (dns_packet ++ more) ≡ ok []
        → run_attempt (suc fuel) round dns_packet (s ∷ ss) stack
          ≡ run_attempt fuel
              (round + 1)
              (dns_packet ++ more)
              (erase_at (rand round % length (s ∷ ss)) (s ∷ ss))
              stack
    unfolding attempt
    attempt_retry h hp ha = rw (h, hp, ha, pop_back-append stack picked) refl

  -- If every query, whatever its round, server and packet, brings a reply from which parse returns with
  -- an empty list, so that none is answered, denied or fails, attempt ends after at most one round for
  -- each server, with a message and the status 1.
  pub attempt_exhausts :
      (more : List ℕ)
      → packet pkt_header pkt_payload ≡ ok more
      → ((round : ℕ) (server : Server) (p : List ℕ) → run_ask round server p ≡ ok [])
      → (fuel round : ℕ) (dns_packet : List ℕ) (servers stack : List Server) → length servers < fuel
      → run_attempt fuel round dns_packet servers stack ≡ exits 1 no_record
  attempt_exhausts more hp silent zero round dns_packet servers stack h = absurd (omega arith)
  attempt_exhausts more hp silent (suc fuel) round dns_packet [] stack h = unfold attempt in refl
  attempt_exhausts more hp silent (suc fuel) round dns_packet (s ∷ ss) stack h =
      let i = rand round % length (s ∷ ss) in
      let server = get_or (s ∷ ss) i s in
      let inside : i < length (s ∷ ss) = omega arith in
      elim (Bool-cases (is_in server stack)) [
        | inl old ↦
            attempt_skip fuel round dns_packet more s ss stack old
            ∙ attempt_exhausts more hp silent fuel (round + 1) dns_packet (erase server (s ∷ ss))
                stack (omega (arith, length-erase (s ∷ ss) i s inside))
        | inr new ↦
            attempt_retry fuel round dns_packet more s ss stack new hp
              (silent round server (dns_packet ++ more))
            ∙ attempt_exhausts more hp silent fuel (round + 1) (dns_packet ++ more)
                (erase_at i (s ∷ ss)) stack (omega (arith, length-erase_at (s ∷ ss) i inside))
      ]
