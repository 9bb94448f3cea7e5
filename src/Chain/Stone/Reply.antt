-- ===== src/Chain/Stone/Reply.antt =====
-- How a stepping stone passes the file back.
use networking.Prelude.{
  ℕ, zero, suc, ◌+◌, ◌-◌, ◌/◌, ◌%◌, ◌^◌, ◌≤◌, ◌<◌, ◌≡◌, refl, ap, ◌∙◌, sym, List, [], ◌∷◌, ◌++◌,
  some, length, take, drop, min, arith, append_assoc, append-nil, take-append-drop, length-take,
  length-drop,
}
use networking.Transfer.{Outcome, failed, moved, Steady}
use networking.Chain.{read32, file_header_bytes, file_header_size}
use networking.Chain.Calls.{Ends, ok, recv_next, send_prev, close_next}
use networking.Chain.Ready.{Ready, take_all, send_prev_lem}
use networking.Chain.Stone.{relay_file, relay, to_file_header, send_file, send_mapped}

-- The ends after a part of the file has gone from the one socket to the other.
abbrev pub relayed : Ends → List Outcome → List Outcome → List ℕ → Ends
relayed e recvs sends bytes = record e {
  prev = record e.prev { sends = sends; outgoing = e.prev.outgoing ++ bytes };
  next = record e.next { recvs = recvs; incoming = [] };
}

pub recv_next_part :
    (calls : List Outcome) (m size : ℕ) (e : Ends)
    → e.next.recvs ≡ moved m ∷ calls
    → recv_next size e
      ≡ ok (some (take (min m size) e.next.incoming)) (record e {
        next = record e.next { recvs = calls; incoming = drop (min m size) e.next.incoming };
      })
unfolding recv_next
recv_next_part calls m size e h = rw h refl

-- One round of the loop.
relay_file_step :
    (calls missing n left : ℕ) (front : List ℕ) (e e₁ e₂ : Ends)
    → recv_next 8192 e ≡ ok (some front) e₁
    → send_prev front e₁ ≡ ok (some n) e₂
    → suc missing - length front ≡ left
    → relay_file (suc calls) (suc missing) e ≡ relay_file calls left e₂
unfolding relay_file
relay_file_step calls missing n left front e e₁ e₂ p q l = rw (p, q, l) refl

-- However the file is cut up on its way in, all of it goes out, if `send` takes what it is given.
pub relay_file_lem :
    (recvs : List Outcome) (n : ℕ) (file : List ℕ) (e : Ends)
    → e.next.recvs ≡ recvs
    → e.next.incoming ≡ file
    → Steady (length file) recvs
    → Ready (length file + n) 8192 e.prev.sends
    → (recvs' sends : List Outcome) × (relay_file (length recvs) (length file) e
        ≡ ok tt (relayed e recvs' sends file))
      × Ready n 8192 sends
unfolding relay_file
relay_file_lem recvs n [] e h i v r = (
  recvs,
  e.prev.sends,
  ap (ok tt) (
      ap (λ s. record e { prev = record e.prev { outgoing = s } })
        (sym (append-nil e.prev.outgoing))
      ∙ ap
          (λ s. record e {
            prev = record e.prev { outgoing = e.prev.outgoing ++ [] };
            next = record e.next { incoming = s };
          })
          i
      ∙ ap
          (λ s. record e {
            prev = record e.prev { outgoing = e.prev.outgoing ++ [] };
            next = record e.next { recvs = s; incoming = [] };
          })
          h),
  (omega (arith, r.0), r.1),
)
relay_file_lem [] n (b ∷ file) e h i v r = absurd (omega (arith, v.0))
relay_file_lem (failed ∷ recvs) n (b ∷ file) e h i v r = absurd v.1.0
relay_file_lem (moved zero ∷ recvs) n (b ∷ file) e h i v r = absurd (omega (arith, v.1.0))
relay_file_lem (moved (suc m) ∷ recvs) n (b ∷ file) e h i v r =
    let k = min (suc m) 8192 in
    let front = take k (b ∷ file) in
    let back = drop k (b ∷ file) in
    let cut = length-take k (b ∷ file) in
    let left = length-drop k (b ∷ file) in
    let part =
      recv_next_part recvs (suc m) 8192 e h
      ∙ ap
          (λ s.
            ok (some (take k s))
              (record e { next = record e.next { recvs = recvs; incoming = drop k s } }))
          i in
    let e₁ = record e { next = record e.next { recvs = recvs; incoming = back } } in
    let (sends, q, w) =
      send_prev_lem front 8192 (length file + n) e₁ (omega (arith, cut))
        (omega (arith, r.0), r.1) in
    let e₂ = record e₁ {
      prev = record e.prev { sends = sends; outgoing = e.prev.outgoing ++ front };
    } in
    let missing : suc (length file) - length front ≡ length back = omega (arith, cut, left) in
    let (recvs', sends', q', w') =
      relay_file_lem recvs n back e₂ refl refl (omega (arith, v.0, left), v.1.1)
        (omega (arith, w.0, left), w.1) in
    let joined : (e.prev.outgoing ++ front) ++ back ≡ e.prev.outgoing ++ b ∷ file =
      append_assoc e.prev.outgoing front back
      ∙ ap (λ s. e.prev.outgoing ++ s) (take-append-drop k (b ∷ file)) in
    (
      recvs',
      sends',
      relay_file_step (length recvs) (length file) (length front) (length back) front e e₁ e₂ part q
            missing
          ∙ q'
          ∙ ap
              (λ s. ok tt (record e {
                prev = record e.prev { sends = sends'; outgoing = s };
                next = record e.next { recvs = recvs'; incoming = [] };
              }))
              joined,
      w',
    )

-- The ends when the file has been passed on and the socket to the next stone is closed.
abbrev pub answered : Ends → List Outcome → List Outcome → List ℕ → Ends
answered e recvs sends bytes = record e {
  prev = record e.prev { sends = sends; outgoing = e.prev.outgoing ++ bytes };
  next = record e.next { recvs = recvs; incoming = [] };
  closed_next = suc e.closed_next;
}

pub to_file_header_lem :
    (version n : ℕ) (e : Ends)
    → n < 2 ^ 32
    → to_file_header (file_header_bytes version n) e ≡ ok (version, n) e
unfolding to_file_header
to_file_header_lem version n e h = ap (λ (k : ℕ). ok (version, k) e) (omega arith)

pub recv_file_header :
    (m version n : ℕ) (recvs : List Outcome) (file : List ℕ) (e : Ends)
    → file_header_size ≤ m
    → e.next.recvs ≡ moved m ∷ recvs
    → e.next.incoming ≡ file_header_bytes version n ++ file
    → recv_next file_header_size e
      ≡ ok
          (some (file_header_bytes version n))
          (record e { next = record e.next { recvs = recvs; incoming = file } })
recv_file_header m version n recvs file e l h i =
    recv_next_part recvs m file_header_size e h
    ∙ ap
        (λ k.
          ok (some (take k e.next.incoming)) (record e {
            next = record e.next { recvs = recvs; incoming = drop k e.next.incoming };
          }))
        whole
    ∙ ap
        (λ s.
          ok (some (take file_header_size s)) (record e {
            next = record e.next { recvs = recvs; incoming = drop file_header_size s };
          }))
        i
  where
    whole : min m file_header_size ≡ file_header_size
    whole = omega arith

-- The header of the file and the file go back, and the socket to the next stone is closed.
pub relay_lem :
    (m version n : ℕ) (recvs : List Outcome) (file : List ℕ) (e : Ends)
    → file_header_size ≤ m
    → e.next.recvs ≡ moved m ∷ recvs
    → e.next.incoming ≡ file_header_bytes version (length file) ++ file
    → length file < 2 ^ 32
    → Steady (length file) recvs
    → Ready (suc (length file + n)) 8192 e.prev.sends
    → (recvs' sends : List Outcome) × (relay e
        ≡ ok tt (answered e recvs' sends (file_header_bytes version (length file) ++ file)))
      × Ready n 8192 sends
unfolding relay close_next
relay_lem m version n recvs file e l h i f v r =
    let head = file_header_bytes version (length file) in
    let e₁ = record e { next = record e.next { recvs = recvs; incoming = file } } in
    let p = recv_file_header m version (length file) recvs file e l h i in
    let same : read32 (length file / 2 ^ 24 % 256) (length file / 2 ^ 16 % 256)
          (length file / 2 ^ 8 % 256) (length file % 256)
        ≡ length file =
      omega (arith, f) in
    let (sends, q, w) = send_prev_lem head 8192 (length file + n) e₁ (omega arith) r in
    let e₂ = record e₁ {
      prev = record e.prev { sends = sends; outgoing = e.prev.outgoing ++ head };
    } in
    let (recvs', sends', q', w') = relay_file_lem recvs n file e₂ refl refl v w in
    (
      recvs',
      sends',
      rw (relay, p, same, q, q')
          (ap
            (λ s. ok tt (record e {
              prev = record e.prev { sends = sends'; outgoing = s };
              next = record e.next { recvs = recvs'; incoming = [] };
              closed_next = suc e.closed_next;
            }))
            (append_assoc e.prev.outgoing head file)),
      w',
    )

-- The ends after a file has been sent.
abbrev pub served : Ends → List Outcome → List ℕ → Ends
served e sends bytes = record e {
  prev = record e.prev { sends = sends; outgoing = e.prev.outgoing ++ bytes };
}

send_file_step :
    (calls : List Outcome) (m : ℕ) (b : ℕ) (bs back : List ℕ) (e : Ends)
    → e.prev.sends ≡ moved m ∷ calls
    → drop (length (take m (take 8192 (b ∷ bs)))) (b ∷ bs) ≡ back
    → send_file (suc (length calls)) (b ∷ bs) e
      ≡ send_file (length calls) back (served e calls (take m (take 8192 (b ∷ bs))))
unfolding send_file send_prev
send_file_step calls m b bs back e h d =
    (rw h refl)
    ∙ ap (λ s. send_file (length calls) s (served e calls (take m (take 8192 (b ∷ bs))))) d

cut_front :
    (m n : ℕ) (xs : List ℕ) → take m (take n xs) ++ drop (length (take m (take n xs))) xs ≡ xs
cut_front zero n xs = refl
cut_front (suc m) zero xs = refl
cut_front (suc m) (suc n) [] = refl
cut_front (suc m) (suc n) (x ∷ xs) = ap (◌∷◌ x) (cut_front m n xs)

-- However the file is cut up on its way out, all of it is sent.
pub send_file_lem :
    (calls : List Outcome) (bs : List ℕ) (e : Ends)
    → e.prev.sends ≡ calls
    → Steady (length bs) calls
    → (calls' : List Outcome) × (send_file (length calls) bs e ≡ ok tt (served e calls' bs))
unfolding send_file
send_file_lem calls [] e h v = (
  e.prev.sends,
  ap (λ s. ok tt (record e { prev = record e.prev { outgoing = s } }))
      (sym (append-nil e.prev.outgoing)),
)
send_file_lem [] (b ∷ bs) e h v = absurd (omega (arith, v.0))
send_file_lem (failed ∷ calls) (b ∷ bs) e h v = absurd v.1.0
send_file_lem (moved zero ∷ calls) (b ∷ bs) e h v = absurd (omega (arith, v.1.0))
send_file_lem (moved (suc m) ∷ calls) (b ∷ bs) e h v =
    let front = take (suc m) (take 8192 (b ∷ bs)) in
    let back = drop (length front) (b ∷ bs) in
    let shorter : length back ≤ length bs = omega (
      arith,
      length-drop (length front) (b ∷ bs),
      length-take (suc m) (take 8192 (b ∷ bs)),
      length-take 8192 (b ∷ bs),
    ) in
    let (calls', q) =
      send_file_lem calls back (served e calls front) refl (omega (arith, v.0, shorter), v.1.1) in
    (
      calls',
      send_file_step calls (suc m) b bs back e h refl
          ∙ q
          ∙ ap (λ s. ok tt (record e { prev = record e.prev { sends = calls'; outgoing = s } }))
              (append_assoc e.prev.outgoing front back
                ∙ ap (λ s. e.prev.outgoing ++ s) (cut_front (suc m) 8192 (b ∷ bs))),
    )

send_prev_part :
    (calls : List Outcome) (m : ℕ) (bytes : List ℕ) (e : Ends)
    → e.prev.sends ≡ moved m ∷ calls
    → take m bytes ≡ bytes
    → send_prev bytes e ≡ ok (some (length bytes)) (served e calls bytes)
unfolding send_prev
send_prev_part calls m bytes e h t =
    (rw h refl) ∙ ap (λ s. ok (some (length s)) (served e calls s)) t

-- A file that is not empty is sent behind its header.
pub send_mapped_lem :
    (calls : List Outcome) (m b : ℕ) (bs : List ℕ) (e : Ends)
    → e.prev.sends ≡ moved m ∷ calls
    → file_header_size ≤ m
    → length (b ∷ bs) < 2 ^ 32
    → Steady (length (b ∷ bs)) calls
    → (calls' : List Outcome) × (send_mapped (some (b ∷ bs)) e
        ≡ ok tt (served e calls' (file_header_bytes 1 (length (b ∷ bs)) ++ b ∷ bs)))
unfolding send_mapped
send_mapped_lem calls m b bs e h l f v =
    let head = file_header_bytes 1 (length (b ∷ bs)) in
    let same : length (b ∷ bs) % 2 ^ 32 ≡ length (b ∷ bs) = omega (arith, f) in
    let p = send_prev_part calls m head e h (take_all m head (omega (arith, l))) in
    let (calls', q) = send_file_lem calls (b ∷ bs) (served e calls head) refl v in
    (
      calls',
      rw (send_mapped, same, p, q)
          (ap (λ s. ok tt (record e { prev = record e.prev { sends = calls'; outgoing = s } }))
            (append_assoc e.prev.outgoing head (b ∷ bs))),
    )
