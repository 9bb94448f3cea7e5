-- ===== src/Chain/Client/Exchange.antt =====
-- What the client of proj2/awget.c sends to the first stone, and how it takes the file.
use networking.Prelude.{
  ℕ, lt→ltb, zero, suc, ◌+◌, ◌-◌, ◌/◌, ◌%◌, ◌^◌, ◌≤◌, ◌<◌, ◌≡◌, refl, ap, ◌∙◌, sym, List, [], ◌∷◌,
  ◌++◌, Bool, true, false, Option, none, some, length, take, drop, min, ◌==◌, if◌then◌else◌, All,
  arith, append_assoc, append-nil, take-append-drop, length-take, length-drop, ℤ,
}
use networking.Transfer.{Outcome, failed, moved, Steady}
use networking.Socket.Candidates.{Peer}
use networking.Chain.{
  ListHeader, ListElement, header_size, file_header_size, header_bytes, element_bytes,
  elements_bytes, read32, file_header_bytes,
}
use networking.Chain.Calls.{
  Ends, Result, ok, exited, waiting, undefined, Act, ◌>>=◌, after, or_dump_two, dump_two, recv_next,
  send_next, close_next,
}
use networking.Chain.Ready.{Ready, send_next_lem}
use networking.Chain.Stone.{next_ss, text, pick, send_list}
use networking.Chain.Stone.Request.{IsHeader, IsElement, text_lem, remove, passed_on, send_list_lem}
use networking.Chain.Stone.Reply.{recv_file_header}
use networking.Chain.Stone.Forward.{IsReachable, pick_lem}
use networking.Chain.Stone.Connection.{request_bytes}
use networking.Chain.Client.{
  or_leave, socket_setup, send_others, receive_file, request_file, take_reply,
}

-- Two programs that differ in what they do after an error agree on a run without one.
choose :
    (b : Bool) (p p' q q' : Act (Unit {0})) (e e' : Ends)
    → (p e ≡ ok tt e' → p' e ≡ ok tt e')
    → (q e ≡ ok tt e' → q' e ≡ ok tt e')
    → (if b then p else q) e ≡ ok tt e'
    → (if b then p' else q') e ≡ ok tt e'
choose true p p' q q' e e' f g h = f h
choose false p p' q q' e e' f g h = g h

after_call :
    (r : Result (Option ℕ)) (p q : ℕ → Act (Unit {0})) (e' : Ends)
    → ((n : ℕ) (e : Ends) → p n e ≡ ok tt e' → q n e ≡ ok tt e')
    → after r (λ s. or_dump_two s >>= p) ≡ ok tt e'
    → after r (λ s. or_leave s >>= q) ≡ ok tt e'
unfolding dump_two
after_call (ok none e) p q e' f h = absurd (cc)
after_call (ok (some n) e) p q e' f h = f n e h
after_call (exited e) p q e' f h = absurd (cc)
after_call waiting p q e' f h = absurd (cc)
after_call undefined p q e' f h = absurd (cc)

-- Where no call fails, send_others does what the loop of curr_ss does.
send_others-send_list :
    (list : List ListElement) (c r : ℕ) (e e' : Ends)
    → send_list list c r e ≡ ok tt e'
    → send_others list c r e ≡ ok tt e'
unfolding send_list send_others
send_others-send_list [] c r e e' h = h
send_others-send_list (x ∷ list) c r e e' h =
    choose (c == r) _ _ _ _ e e' (send_others-send_list list (c + 1) r e e')
      (after_call (send_next (element_bytes x) e) _ _ e'
        (λ n e₁. send_others-send_list list (c + 1) r e₁ e'))
      h

abbrev pub arriving : Ends → List Outcome → List ℕ → Ends
arriving e recvs bytes = record e { next = record e.next { recvs = recvs; incoming = bytes } }

abbrev pub gathered : Ends → List Outcome → List ℕ → Ends
gathered e recvs bytes = record e {
  next = record e.next { recvs = recvs; incoming = [] };
  file = e.file ++ bytes;
}

-- However the file is cut up on its way, all of it is written.
receive_file_lem :
    (recvs : List Outcome) (c : ℕ) (bs : List ℕ) (e : Ends)
    → c + length bs < 2 ^ 31
    → Steady (length bs) recvs
    → (recvs' : List Outcome) × (receive_file (length recvs) c (length bs) (arriving e recvs bs)
        ≡ ok tt (gathered e recvs' bs))
unfolding receive_file recv_next
receive_file_lem recvs c [] e h v =
    (recvs, ap (λ s. ok tt (record (arriving e recvs []) { file = s })) (sym (append-nil e.file)))
receive_file_lem [] c (b ∷ bs) e h v = absurd (omega (arith, v.0))
receive_file_lem (failed ∷ recvs) c (b ∷ bs) e h v = absurd v.1.0
receive_file_lem (moved zero ∷ recvs) c (b ∷ bs) e h v = absurd (omega (arith, v.1.0))
receive_file_lem (moved (suc m) ∷ recvs) c (b ∷ bs) e h v =
    let k = min (suc m) 8192 in
    let front = take k (b ∷ bs) in
    let back = drop k (b ∷ bs) in
    let cut = length-take k (b ∷ bs) in
    let left = length-drop k (b ∷ bs) in
    let (recvs', q) =
      receive_file_lem recvs (c + length front) back (record e { file = e.file ++ front })
        (omega (arith, h, cut, left)) (omega (arith, v.0, left), v.1.1) in
    let fits = lt→ltb (c + length front) (2 ^ 31) (omega (arith, h, cut)) in
    let missing : suc (length bs) - length front ≡ length back = omega (arith, cut, left) in
    (
      recvs',
      rw fits refl
          ∙ ap
              (λ n.
                receive_file (length recvs) (c + length front) n
                  (arriving (record e { file = e.file ++ front }) recvs back))
              missing
          ∙ q
          ∙ ap (λ s. ok tt (record (arriving e recvs' []) { file = s }))
              (append_assoc e.file front back
                ∙ ap (λ s. e.file ++ s) (take-append-drop k (b ∷ bs))),
    )

-- The file behind its header is written, and the socket closed.
pub take_reply_lem :
    (m version : ℕ) (recvs : List Outcome) (file : List ℕ) (e : Ends)
    → file_header_size ≤ m
    → e.next.recvs ≡ moved m ∷ recvs
    → e.next.incoming ≡ file_header_bytes version (length file) ++ file
    → length file < 2 ^ 31
    → Steady (length file) recvs
    → (recvs' : List Outcome) × (take_reply true e
        ≡ ok tt (record (gathered e recvs' file) { closed_next = suc e.closed_next }))
unfolding take_reply close_next
take_reply_lem m version recvs file e l h i f v =
    let p = recv_file_header m version (length file) recvs file e l h i in
    let (recvs', q) = receive_file_lem recvs 0 file e (omega (arith, f)) v in
    let same : read32 (length file / 2 ^ 24 % 256) (length file / 2 ^ 16 % 256)
          (length file / 2 ^ 8 % 256) (length file % 256)
        ≡ length file =
      omega (arith, f) in
    (recvs', rw (take_reply, p, same, q) refl)

-- The steps of `request_file`, one after the other.
request_file_steps :
    (connects : List ℕ → List ℕ → ℤ × List Peer) (rand n : ℕ) (h : ListHeader)
    (list : List ListElement) (x : ListElement) (host port : List ℕ) (e e₁ e₂ e₃ : Ends)
    → (h.l_size == 0) ≡ false
    → pick list (rand % h.l_size) ≡ some x
    → text x.host e ≡ ok host e
    → text x.port e ≡ ok port e
    → socket_setup connects host port e ≡ ok tt e₁
    → send_next (header_bytes (record h { l_size = h.l_size - 1 })) e₁ ≡ ok (some n) e₂
    → (n == header_size) ≡ true
    → send_others list 0 (rand % h.l_size) e₂ ≡ ok tt e₃
    → request_file connects rand h list e ≡ ok tt e₃
unfolding request_file
request_file_steps connects rand n h list x host port e e₁ e₂ e₃ z p t₁ t₂ c s w o =
    rw (z, p, t₁, t₂, c, s, w) o

socket_setup_lem :
    (connects : List ℕ → List ℕ → ℤ × List Peer) (host port : List ℕ) (fd : ℤ) (left : List ℤ)
    (e : Ends)
    → next_ss (connects host port).0 (connects host port).1 ≡ some (some fd, left)
    → socket_setup connects host port e
      ≡ ok tt (record e { opened = true; leaked = e.leaked ++ left })
unfolding socket_setup
socket_setup_lem connects host port fd left e h = rw (socket_setup, h) refl

abbrev pub asked : Ends → List ℤ → List Outcome → List ℕ → Ends
asked e lost sends bytes = record e {
  next = record e.next { sends = sends; outgoing = e.next.outgoing ++ bytes };
  opened = true;
  leaked = lost;
}

-- The request goes to the chosen stone, without that stone's element.
pub request_file_lem :
    (connects : List ℕ → List ℕ → ℤ × List Peer) (rand : ℕ) (h : ListHeader)
    (list : List ListElement) (e : Ends)
    → IsHeader h
    → h.l_size ≡ length list
    → 0 < length list
    → All IsElement list
    → All (IsReachable connects) list
    → Ready (suc (length list)) header_size e.next.sends
    → (lost : List ℤ) × (sends : List Outcome) × (request_file connects rand h list e
        ≡ ok tt (
            asked e lost sends
              (request_bytes (record h { l_size = h.l_size - 1 }) (remove list (rand % h.l_size)))))
unfolding request_file
request_file_lem connects rand h list e hv q l v reach r =
    let k = rand % h.l_size in
    let inside : k < length list = grind (arith, q, l) in
    let (x, p, xv, to) = pick_lem list k v reach inside in
    let (fd, left, c) = to xv.host xv.port xv.host_ends xv.port_ends in
    let head = header_bytes (record h { l_size = h.l_size - 1 }) in
    let whole : length head ≡ header_size = omega (arith, hv.full) in
    let lost = e.leaked ++ left in
    let e₁ = record e { opened = true; leaked = lost } in
    let (c₁, p₁, r₁) = send_next_lem head header_size (length list) e₁ (omega (arith, whole)) r in
    let e₂ = asked e lost c₁ head in
    let (c₂, p₂, r₂) =
      send_list_lem list k 0 header_size 0 e₂ v (omega arith) inside (omega (arith, r₁.0), r₁.1) in
    let e₃ = passed_on e₂ c₂ (elements_bytes (remove list k)) in
    let sent =
      send_others-send_list list 0 k e₂ e₃ (ap (λ i. send_list list 0 i e₂) (omega arith) ∙ p₂) in
    (
      lost,
      c₂,
      request_file_steps connects rand (length head) h list x xv.host xv.port e e₁ e₂ e₃
            (grind (arith, q, l)) p (text_lem x.host xv.host e xv.host_ends)
            (text_lem x.port xv.port e xv.port_ends)
            (socket_setup_lem connects xv.host xv.port fd left e c) p₁ (ground (arith, whole)) sent
          ∙ ap
              (λ s. ok tt (record e {
                next = record e.next { sends = c₂; outgoing = s };
                opened = true;
                leaked = lost;
              }))
              (append_assoc e.next.outgoing head (elements_bytes (remove list k))),
    )
