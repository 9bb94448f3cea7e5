-- ===== src/Transfer/Defs.antt =====
-- The two loops, and a connection with its schedules.
use networking.Prelude.{
  ℕ, zero, suc, ◌+◌, ◌-◌, ◌^◌, ltb, if◌then◌else◌, List, [], ◌∷◌, ◌++◌, Option, none, some, length,
  take, drop, min,
}

-- A call fails with -1, or moves as many bytes as it is asked to, up to a number.
pub data Outcome : Type 0 where
  failed : Outcome
  moved : ℕ → Outcome

-- `waiting`: the schedule has ended and the loop has not. `undefined`: memory is read that was
-- never written, or an int overflows.
pub data Ended {ℓ} (A : Type ℓ) : Type ℓ where
  returned : A → Ended A
  waiting : Ended A
  undefined : Ended A

-- One end of a connection: what the next calls of `send` and `recv` do, the bytes sent so far, and
-- the bytes on their way to this end.
pub record Conn : Type 0 where
  pub sends : List Outcome
  pub outgoing : List ℕ
  pub recvs : List Outcome
  pub incoming : List ℕ

-- `total += ret` for two ints: the new total has to fit.
abbrev pub within : {A : Type 0} → ℕ → Ended A → Ended A
within total r = if ltb total (2 ^ 31) then r else undefined

-- The loop of Send over the bytes that are left, `ret` being what the last call returned, with
-- `none` for -1, and `total` the count so far.
unfoldable pub send_loop :
    List Outcome → List ℕ → Option ℕ → ℕ → List ℕ → Ended (Option ℕ × List Outcome × List ℕ)
send_loop calls [] ret total out = returned (ret, calls, out)
send_loop [] (b ∷ bs) ret total out = waiting
send_loop (failed ∷ calls) (b ∷ bs) ret total out = returned (none, calls, out)
send_loop (moved n ∷ calls) (b ∷ bs) ret total out =
    let n' = length (take n (b ∷ bs)) in
    let rest = send_loop calls (drop n (b ∷ bs)) (some n') (total + n') (out ++ take n (b ∷ bs)) in
    within (total + n') rest

abbrev pub sent : Conn → Ended (Option ℕ × List Outcome × List ℕ) → Ended (Option ℕ × Conn)
sent c (returned (ret, calls, out)) = returned (ret, record c { sends = calls; outgoing = out })
sent c waiting = waiting
sent c undefined = undefined

unfoldable pub send : List ℕ → Conn → Ended (Option ℕ × Conn)
unfolding send_loop
send bytes c = sent c (send_loop c.sends bytes (some 0) 0 c.outgoing)

-- The loop of Recv with `missing` bytes left to fill, `total` the count so far and `got` in the
-- buffer.
unfoldable pub recv_loop :
    List Outcome
    → (missing : ℕ) → Option ℕ
    → (total : ℕ) → (got incoming : List ℕ) → Ended (Option ℕ × List ℕ × List Outcome × List ℕ)
recv_loop calls zero ret total got incoming = returned (ret, got, calls, incoming)
recv_loop [] (suc missing) ret total got incoming = waiting
recv_loop (failed ∷ calls) (suc missing) ret total got incoming =
    returned (none, got, calls, incoming)
recv_loop (moved n ∷ calls) (suc missing) ret total got incoming =
    let chunk = take (min n (suc missing)) incoming in
    let rest =
      recv_loop calls (suc missing - length chunk) (some (length chunk)) (total + length chunk)
        (got ++ chunk) (drop (min n (suc missing)) incoming) in
    within (total + length chunk) rest

abbrev pub filled :
    Conn → Ended (Option ℕ × List ℕ × List Outcome × List ℕ) → Ended (Option ℕ × List ℕ × Conn)
filled c (returned (ret, got, calls, incoming)) =
    returned (ret, got, record c { recvs = calls; incoming = incoming })
filled c waiting = waiting
filled c undefined = undefined

unfoldable pub recv : ℕ → Conn → Ended (Option ℕ × List ℕ × Conn)
unfolding recv_loop
recv size c = filled c (recv_loop c.recvs size (some 0) 0 [] c.incoming)
