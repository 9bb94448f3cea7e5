-- ===== src/Transfer/Deliver.antt =====
-- What the loops deliver, however the system cuts the bytes up.
use networking.Prelude.{
  ℕ, zero, suc, ◌+◌, ◌-◌, ◌≤◌, ◌<◌, ◌≡◌, refl, sym, ap, ◌∙◌, ◌⊎◌, inl, inr, List, [], ◌∷◌, ◌++◌,
  Option, none, some, length, take, drop, min, All, arith, take-append-drop, length-take,
  length-drop, ◌^◌, lt→ltb, ltb, Bool-cases, take-append_le, drop-append_le, append-nil,
  append_assoc,
}
use networking.Transfer.Defs.{
  Outcome, failed, moved, Ended, returned, waiting, undefined, Conn, send_loop, sent, send,
  recv_loop, recv, within,
}

-- A call that moves a byte at least, and one that does not fail.
abbrev pub IsProgress : Outcome → Type 0
IsProgress failed = ⊥
IsProgress (moved n) = 0 < n

abbrev pub IsMoved : Outcome → Type 0
IsMoved failed = ⊥
IsMoved (moved n) = Unit {0}

-- A schedule with `n` calls at least, each of which makes progress.
abbrev pub Steady : ℕ → List Outcome → Type 0
Steady n calls = (n ≤ length calls) × All IsProgress calls

within-fits : {A : Type 0} (total : ℕ) (r : Ended A) → total < 2 ^ 31 → within total r ≡ r
within-fits total r h = rw (lt→ltb total (2 ^ 31) h) refl

-- A total that has grown too large returns nothing.
within-returned :
    {A : Type 0} (total : ℕ) (r : Ended A) (a : A) → within total r ≡ returned a → r ≡ returned a
within-returned total r a = elim (Bool-cases (ltb total (2 ^ 31))) [
  | inl fits ↦ rw fits (λ e. e)
  | inr large ↦ rw large (λ e. cc)
]

send_loop-delivers :
    (n : ℕ) (calls : List Outcome) (bs : List ℕ) (ret : Option ℕ) (total : ℕ) (out : List ℕ)
    → total + length bs < 2 ^ 31
    → Steady (length bs + n) calls
    → (ret' : Option ℕ) × (calls' : List Outcome) × (send_loop calls bs ret total out
        ≡ returned (ret', calls', out ++ bs))
      × Steady n calls'
unfolding send_loop
send_loop-delivers n calls [] ret total out h v = (
  ret,
  calls,
  ap (λ o. returned (ret, calls, o)) (sym (append-nil out)),
  (omega (arith, v.0), v.1),
)
send_loop-delivers n [] (b ∷ bs) ret total out h v = absurd (omega (arith, v.0))
send_loop-delivers n (failed ∷ calls) (b ∷ bs) ret total out h v = absurd v.1.0
send_loop-delivers n (moved zero ∷ calls) (b ∷ bs) ret total out h v = absurd (omega (arith, v.1.0))
send_loop-delivers n (moved (suc k) ∷ calls) (b ∷ bs) ret total out h v =
    let piece = length (take (suc k) (b ∷ bs)) in
    let (ret', calls', e, w) =
      send_loop-delivers n calls (drop k bs) (some piece) (total + piece) (out ++ b ∷ take k bs)
        (omega (arith, h, length-drop k bs, length-take k bs))
        (omega (arith, v.0, length-drop k bs), v.1.1) in
    (
      ret',
      calls',
      within-fits (total + piece) _ (omega (arith, h, length-take k bs))
          ∙ e
          ∙ ap (λ o. returned (ret', calls', o))
              (append_assoc out (b ∷ take k bs) (drop k bs)
                ∙ ap (λ r. out ++ b ∷ r) (take-append-drop k bs)),
      w,
    )

-- For fewer than 2 ^ 31 bytes, if every call moves a byte at least, and there is a call for each byte,
-- Send returns, and all its bytes have been sent, in order.
pub send_delivers :
    (n : ℕ) (bs : List ℕ) (c : Conn)
    → length bs < 2 ^ 31
    → Steady (length bs + n) c.sends
    → (ret : Option ℕ) × (calls : List Outcome) × (send bs c
        ≡ returned (ret, record c { sends = calls; outgoing = c.outgoing ++ bs }))
      × Steady n calls
unfolding send
send_delivers n bs c h v =
    let (ret, calls, e, w) =
      send_loop-delivers n c.sends bs (some 0) 0 c.outgoing (omega (arith, h)) v in
    (ret, calls, rw (e, send) refl, w)

pub send_loop_prefix :
    (calls : List Outcome) (bs : List ℕ) (ret : Option ℕ) (total : ℕ) (out : List ℕ)
    → (ret' : Option ℕ) (calls' : List Outcome) (out' : List ℕ)
    → send_loop calls bs ret total out ≡ returned (ret', calls', out')
    → (front back : List ℕ) × (bs ≡ front ++ back)
      × (out' ≡ out ++ front)
      × ((back ≡ []) ⊎ (ret' ≡ none))
unfolding send_loop
send_loop_prefix calls [] ret total out ret' calls' out' e =
    ([], [], refl, rw append-nil (ground arith), inl refl)
send_loop_prefix [] (b ∷ bs) ret total out ret' calls' out' e = cc
send_loop_prefix (failed ∷ calls) (b ∷ bs) ret total out ret' calls' out' e =
    ([], b ∷ bs, refl, rw append-nil (ground arith), inr (ground arith))
send_loop_prefix (moved n ∷ calls) (b ∷ bs) ret total out ret' calls' out' e =
    let (front, back, e₁, e₂, h) =
      send_loop_prefix calls (drop n (b ∷ bs)) (some (length (take n (b ∷ bs))))
        (total + length (take n (b ∷ bs))) (out ++ take n (b ∷ bs)) ret' calls' out'
        (within-returned (total + length (take n (b ∷ bs))) _ _ e) in
    (
      take n (b ∷ bs) ++ front,
      back,
      sym (take-append-drop n (b ∷ bs))
          ∙ ap (◌++◌ (take n (b ∷ bs))) e₁
          ∙ sym (append_assoc (take n (b ∷ bs)) front back),
      e₂ ∙ append_assoc out (take n (b ∷ bs)) front,
      h,
    )

-- Whenever Send returns, what it has sent is a front part of its bytes, and all of them unless it
-- reports -1.
pub send_prefix :
    (bs : List ℕ) (c c' : Conn) (ret : Option ℕ)
    → send bs c ≡ returned (ret, c')
    → (front back : List ℕ) × (bs ≡ front ++ back)
      × (c'.outgoing ≡ c.outgoing ++ front)
      × ((back ≡ []) ⊎ (ret ≡ none))
unfolding send
send_prefix bs c c' ret e = by_loop (send_loop c.sends bs (some 0) 0 c.outgoing) refl e
  where
    by_loop :
        (r : Ended (Option ℕ × List Outcome × List ℕ))
        → send_loop c.sends bs (some 0) 0 c.outgoing ≡ r
        → sent c r ≡ returned (ret, c')
        → (front back : List ℕ) × (bs ≡ front ++ back)
          × (c'.outgoing ≡ c.outgoing ++ front)
          × ((back ≡ []) ⊎ (ret ≡ none))
    by_loop (returned (ret', calls', out')) p q =
        let (front, back, e₁, e₂, h) =
          send_loop_prefix c.sends bs (some 0) 0 c.outgoing ret' calls' out' p in
        (front, back, e₁, ground (arith, e₂), ground (arith, h))
    by_loop waiting p q = cc
    by_loop undefined p q = cc

-- One call that brings `front` and leaves `back` for the calls behind it.
recv_loop_step :
    (calls : List Outcome) (n missing : ℕ) (ret : Option ℕ) (total : ℕ) (got incoming : List ℕ)
    → {front back : List ℕ} {left : ℕ} → take (min n (suc missing)) incoming ≡ front
    → drop (min n (suc missing)) incoming ≡ back
    → suc missing - length front ≡ left
    → total + length front < 2 ^ 31
    → recv_loop (moved n ∷ calls) (suc missing) ret total got incoming
      ≡ recv_loop calls left (some (length front)) (total + length front) (got ++ front) back
unfolding recv_loop
recv_loop_step calls n missing ret total got incoming {front} t d l h =
    rw (t, d, l) (within-fits (total + length front) _ h)

-- The bytes that arrive fill the buffer, and those behind them stay.
recv_loop-delivers :
    (n : ℕ) (calls : List Outcome) (bs rest got : List ℕ) (ret : Option ℕ) (total : ℕ)
    → total + length bs < 2 ^ 31
    → Steady (length bs + n) calls
    → (ret' : Option ℕ) × (calls' : List Outcome) × (recv_loop calls
          (length bs)
          ret
          total
          got
          (bs ++ rest)
        ≡ returned (ret', got ++ bs, calls', rest))
      × Steady n calls'
unfolding recv_loop
recv_loop-delivers n calls [] rest got ret total h v = (
  ret,
  calls,
  ap (λ o. returned (ret, o, calls, rest)) (sym (append-nil got)),
  (omega (arith, v.0), v.1),
)
recv_loop-delivers n [] (b ∷ bs) rest got ret total h v = absurd (omega (arith, v.0))
recv_loop-delivers n (failed ∷ calls) (b ∷ bs) rest got ret total h v = absurd v.1.0
recv_loop-delivers n (moved zero ∷ calls) (b ∷ bs) rest got ret total h v =
    absurd (omega (arith, v.1.0))
recv_loop-delivers n (moved (suc k) ∷ calls) (b ∷ bs) rest got ret total h v =
    let m = min (suc k) (suc (length bs)) in
    let front = take m (b ∷ bs) in
    let back = drop m (b ∷ bs) in
    let le : m ≤ length (b ∷ bs) = omega arith in
    let missing : suc (length bs) - length front ≡ length back =
      omega (arith, length-take m (b ∷ bs), length-drop m (b ∷ bs)) in
    let (ret', calls', e, w) =
      recv_loop-delivers n calls back rest (got ++ front) (some (length front))
        (total + length front) (omega (arith, h, length-take m (b ∷ bs), length-drop m (b ∷ bs)))
        (omega (arith, v.0, length-drop m (b ∷ bs)), v.1.1) in
    (
      ret',
      calls',
      recv_loop_step calls (suc k) (length bs) ret total got (b ∷ (bs ++ rest))
            (take-append_le m (b ∷ bs) rest le) (drop-append_le m (b ∷ bs) rest le) missing
            (omega (arith, h, length-take m (b ∷ bs)))
          ∙ e
          ∙ (ap (λ o. returned (ret', o, calls', rest))
              (append_assoc got front back ∙ ap (◌++◌ got) (take-append-drop m (b ∷ bs)))),
      w,
    )

recv_loop_starves :
    (calls : List Outcome) (missing : ℕ) (ret : Option ℕ) (total : ℕ) (got incoming : List ℕ)
    → total + missing < 2 ^ 31
    → All IsMoved calls
    → length incoming < missing
    → recv_loop calls missing ret total got incoming ≡ waiting
unfolding recv_loop
recv_loop_starves calls zero ret total got incoming l v h = absurd (omega arith)
recv_loop_starves [] (suc missing) ret total got incoming l v h = refl
recv_loop_starves (failed ∷ calls) (suc missing) ret total got incoming l v h = absurd v.0
recv_loop_starves (moved n ∷ calls) (suc missing) ret total got incoming l (_, v) h =
    let piece = length (take (min n (suc missing)) incoming) in
    within-fits (total + piece) _ (omega (arith, l, h, length-take (min n (suc missing)) incoming))
    ∙ recv_loop_starves calls (suc missing - piece) _ (total + piece) _
        (drop (min n (suc missing)) incoming)
        (omega (arith, l, h, length-take (min n (suc missing)) incoming)) v
        (omega (
          arith,
          length-take (min n (suc missing)) incoming,
          length-drop (min n (suc missing)) incoming,
        ))

-- For fewer than 2 ^ 31 bytes, if every call moves a byte at least, and there is a call for each byte
-- asked for, Recv returns with the bytes that arrive first, in order, and leaves those behind them.
pub recv_delivers :
    (n : ℕ) (bs rest : List ℕ) (c : Conn)
    → length bs < 2 ^ 31
    → c.incoming ≡ bs ++ rest
    → Steady (length bs + n) c.recvs
    → (ret : Option ℕ) × (calls : List Outcome) × (recv (length bs) c
        ≡ returned (ret, bs, record c { recvs = calls; incoming = rest }))
      × Steady n calls
unfolding recv
recv_delivers n bs rest c l h v =
    let (ret, calls, e, w) =
      recv_loop-delivers n c.recvs bs rest [] (some 0) 0 (omega (arith, l)) v in
    (ret, calls, rw (h, e) refl, w)

-- Once the other end has closed and fewer bytes are left than asked for, which are fewer than 2 ^ 31,
-- Recv does not return within
-- any schedule whose calls do not fail: it calls `recv` again and again.
pub recv_starves :
    (size : ℕ) (c : Conn)
    → size < 2 ^ 31
    → All IsMoved c.recvs
    → length c.incoming < size
    → recv size c ≡ waiting
unfolding recv
recv_starves size c l v h =
    rw (recv_loop_starves c.recvs size (some 0) 0 [] c.incoming (omega (arith, l)) v h)
