-- ===== src/Chain/Ready.antt =====
-- What single calls of `send` and `recv` do where the system moves all that they ask for.
use networking.Prelude.{
  ℕ, zero, suc, ◌≤◌, ◌<◌, ◌≡◌, refl, ap, List, [], ◌∷◌, ◌++◌, some, length, take, min, lt→ltb, All,
  arith, take-append, drop-append,
}
use networking.Transfer.{Outcome, failed, moved, Conn}
use networking.Chain.Calls.{
  Ends, ok, done, recv_by, send_by, on_prev, on_next, recv_prev, send_prev, recv_next, send_next,
  sprintf,
}

-- A call that moves `size` bytes, if they are there.
abbrev pub IsWhole : ℕ → Outcome → Type 0
IsWhole size failed = ⊥
IsWhole size (moved n) = size ≤ n

-- A schedule with `n` calls at least, each of which moves `size` bytes.
abbrev pub Ready : ℕ → ℕ → List Outcome → Type 0
Ready n size calls = (n ≤ length calls) × All (IsWhole size) calls

pub take_all : (n : ℕ) (xs : List ℕ) → length xs ≤ n → take n xs ≡ xs
take_all zero [] h = refl
take_all zero (x ∷ xs) h = absurd (omega arith)
take_all (suc n) [] h = refl
take_all (suc n) (x ∷ xs) h = ap (◌∷◌ x) (take_all n xs (omega arith))

recv_by_lem :
    (calls : List Outcome) (size big n : ℕ) (c : Conn) (bytes rest : List ℕ)
    → c.incoming ≡ bytes ++ rest
    → length bytes ≡ size
    → size ≤ big
    → Ready (suc n) big calls
    → (calls' : List Outcome) × (recv_by calls size c
        ≡ done (some bytes) (record c { recvs = calls'; incoming = rest }))
      × Ready n big calls'
recv_by_lem [] size big n c bytes rest e l b v = absurd (omega (arith, v.0))
recv_by_lem (failed ∷ calls) size big n c bytes rest e l b v = absurd v.1.0
recv_by_lem (moved m ∷ calls) size big n c bytes rest e l b v =
    let all : min m size ≡ length bytes = omega (arith, l, b, v.1.0) in
    (
      calls,
      rw (all, e, take-append bytes rest, drop-append bytes rest) refl,
      (omega (arith, v.0), v.1.1),
    )

send_by_lem :
    (calls : List Outcome) (bytes : List ℕ) (big n : ℕ) (c : Conn)
    → length bytes ≤ big
    → Ready (suc n) big calls
    → (calls' : List Outcome) × (send_by calls bytes c
        ≡ done (some (length bytes)) (record c { sends = calls'; outgoing = c.outgoing ++ bytes }))
      × Ready n big calls'
send_by_lem [] bytes big n c l v = absurd (omega (arith, v.0))
send_by_lem (failed ∷ calls) bytes big n c l v = absurd v.1.0
send_by_lem (moved m ∷ calls) bytes big n c l v =
    (calls, rw (take_all m bytes (omega (arith, l, v.1.0))) refl, (omega (arith, v.0), v.1.1))

pub recv_prev_lem :
    (size big n : ℕ) (e : Ends) (bytes rest : List ℕ)
    → e.prev.incoming ≡ bytes ++ rest
    → length bytes ≡ size
    → size ≤ big
    → Ready (suc n) big e.prev.recvs
    → (calls : List Outcome) × (recv_prev size e
        ≡ ok (some bytes) (record e { prev = record e.prev { recvs = calls; incoming = rest } }))
      × Ready n big calls
unfolding recv_prev
recv_prev_lem size big n e bytes rest i l b v =
    let (calls, q, w) = recv_by_lem e.prev.recvs size big n e.prev bytes rest i l b v in
    (calls, ap (λ r. on_prev r e) q, w)

pub recv_next_lem :
    (size big n : ℕ) (e : Ends) (bytes rest : List ℕ)
    → e.next.incoming ≡ bytes ++ rest
    → length bytes ≡ size
    → size ≤ big
    → Ready (suc n) big e.next.recvs
    → (calls : List Outcome) × (recv_next size e
        ≡ ok (some bytes) (record e { next = record e.next { recvs = calls; incoming = rest } }))
      × Ready n big calls
unfolding recv_next
recv_next_lem size big n e bytes rest i l b v =
    let (calls, q, w) = recv_by_lem e.next.recvs size big n e.next bytes rest i l b v in
    (calls, ap (λ r. on_next r e) q, w)

pub send_prev_lem :
    (bytes : List ℕ) (big n : ℕ) (e : Ends)
    → length bytes ≤ big
    → Ready (suc n) big e.prev.sends
    → (calls : List Outcome) × (send_prev bytes e
        ≡ ok (some (length bytes)) (record e {
          prev = record e.prev { sends = calls; outgoing = e.prev.outgoing ++ bytes };
        }))
      × Ready n big calls
unfolding send_prev
send_prev_lem bytes big n e l v =
    let (calls, q, w) = send_by_lem e.prev.sends bytes big n e.prev l v in
    (calls, ap (λ r. on_prev r e) q, w)

pub send_next_lem :
    (bytes : List ℕ) (big n : ℕ) (e : Ends)
    → length bytes ≤ big
    → Ready (suc n) big e.next.sends
    → (calls : List Outcome) × (send_next bytes e
        ≡ ok (some (length bytes)) (record e {
          next = record e.next { sends = calls; outgoing = e.next.outgoing ++ bytes };
        }))
      × Ready n big calls
unfolding send_next
send_next_lem bytes big n e l v =
    let (calls, q, w) = send_by_lem e.next.sends bytes big n e.next l v in
    (calls, ap (λ r. on_next r e) q, w)

pub sprintf_lem :
    (text : List ℕ) (e : Ends)
    → length (e.buffer ++ text) < 8192
    → sprintf text e ≡ ok tt (record e { buffer = e.buffer ++ text })
unfolding sprintf
sprintf_lem text e h = rw (lt→ltb (length (e.buffer ++ text)) 8192 h) refl
