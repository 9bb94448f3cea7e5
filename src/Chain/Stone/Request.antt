-- ===== src/Chain/Stone/Request.antt =====
-- How a stepping stone receives a request and passes on what is left of the list.
use networking.Prelude.{
  ℕ, zero, suc, ◌+◌, ◌/◌, ◌%◌, ◌^◌, ◌≤◌, ◌<◌, ◌≡◌, refl, ap, ◌∙◌, sym, List, [], ◌∷◌, ◌++◌, true,
  false, some, length, lt→ltb, ◌==◌, All, arith, append_assoc, append-nil, take-append, drop-append,
  length-append, codes,
}
use networking.Transfer.{Outcome}
use networking.Chain.{
  ListHeader, ListElement, filename_max, element_size, text_in, read32, header_bytes, element_bytes,
  elements_bytes,
}
use networking.Chain.Calls.{Ends, ok}
use networking.Chain.Ready.{Ready, recv_prev_lem, send_next_lem, sprintf_lem}
use networking.Chain.Stone.{
  to_header, to_element, text, pair_text, recv_element, recv_list, send_list,
}

-- A header whose number fits and whose name fills its array.
pub record IsHeader (h : ListHeader) : Type 0 where
  pub fits : h.l_size < 2 ^ 32
  pub full : length h.f_name ≡ filename_max

-- An element whose arrays are full and end their texts with a NUL.
pub record IsElement (x : ListElement) : Type 0 where
  pub host_full : length x.host ≡ 256
  pub port_full : length x.port ≡ 8
  pub host : List ℕ
  pub port : List ℕ
  pub host_ends : text_in x.host ≡ some host
  pub port_ends : text_in x.port ≡ some port

pub text_lem : (array t : List ℕ) (e : Ends) → text_in array ≡ some t → text array e ≡ ok t e
unfolding text
text_lem array t e h = rw h refl

read32-write32 :
    (n : ℕ)
    → n < 2 ^ 32
    → read32 (n / 2 ^ 24 % 256) (n / 2 ^ 16 % 256) (n / 2 ^ 8 % 256) (n % 256) ≡ n
read32-write32 n h = omega arith

==_of_eq : (a b : ℕ) → a ≡ b → (a == b) ≡ true
==_of_eq a b h = ground arith

pub to_header_lem : (h : ListHeader) (e : Ends) → IsHeader h → to_header (header_bytes h) e ≡ ok h e
unfolding to_header
to_header_lem h e v =
    rw (==_of_eq (length h.f_name) filename_max v.full)
      (ap (λ (n : ℕ). ok (record h { l_size = n }) e) (read32-write32 h.l_size v.fits))

pub to_element_lem :
    (x : ListElement) (e : Ends) → IsElement x → to_element (element_bytes x) e ≡ ok x e
unfolding to_element
to_element_lem x e v =
    rw
      (
        ==_of_eq (length (x.host ++ x.port)) 264
            (omega (arith, length-append x.host x.port, v.host_full, v.port_full)),
        ← v.host_full,
        take-append x.host x.port,
        drop-append x.host x.port,
      )
      refl

-- The line of an element in the buffer, and those of a list.
abbrev pub line : (x : ListElement) → IsElement x → List ℕ
line x v = codes " " ++ pair_text v.host v.port

abbrev pub lines : (list : List ListElement) → All IsElement list → List ℕ
lines [] v = []
lines (x ∷ list) (v, vs) = line x v ++ lines list vs

-- The ends after a part of the request has come, with more text in the buffer.
abbrev pub received : Ends → List Outcome → List ℕ → List ℕ → Ends
received e calls rest log = record e {
  prev = record e.prev { recvs = calls; incoming = rest };
  buffer = e.buffer ++ log;
}

length-element_bytes : (x : ListElement) → IsElement x → length (element_bytes x) ≡ element_size
length-element_bytes x v = omega (arith, length-append x.host x.port, v.host_full, v.port_full)

recv_element_lem :
    (x : ListElement) (v : IsElement x) (i big n : ℕ) (e : Ends) (rest : List ℕ)
    → e.prev.incoming ≡ element_bytes x ++ rest
    → element_size ≤ big
    → Ready (suc n) big e.prev.recvs
    → i < 1024
    → length (e.buffer ++ line x v) < 8192
    → (calls : List Outcome) × (recv_element i e ≡ ok x (received e calls rest (line x v)))
      × Ready n big calls
unfolding recv_element
recv_element_lem x v i big n e rest h b r j l =
    let (calls, q, w) =
      recv_prev_lem element_size big n e (element_bytes x) rest h (length-element_bytes x v) b r in
    let e₁ = record e { prev = record e.prev { recvs = calls; incoming = rest } } in
    (
      calls,
      rw
          (
            recv_element,
            q,
            lt→ltb i 1024 j,
            to_element_lem x e₁ v,
            text_lem x.host v.host e₁ v.host_ends,
            text_lem x.port v.port e₁ v.port_ends,
            sprintf_lem (line x v) e₁ l,
          )
          refl,
      w,
    )

-- The list is received as it was sent, and each element's line goes into the buffer.
pub recv_list_lem :
    (list : List ListElement) (v : All IsElement list) (i big n : ℕ) (e : Ends) (rest : List ℕ)
    → e.prev.incoming ≡ elements_bytes list ++ rest
    → element_size ≤ big
    → Ready (length list + n) big e.prev.recvs
    → i + length list ≤ 1024
    → length (e.buffer ++ lines list v) < 8192
    → (calls : List Outcome) × (recv_list (length list) i e
        ≡ ok list (received e calls rest (lines list v)))
      × Ready n big calls
unfolding recv_list
recv_list_lem [] v i big n e rest h b r j l = (
  e.prev.recvs,
  ap (ok []) (
      ap (λ s. record e { prev = record e.prev { incoming = s } }) h
      ∙ ap (λ s. record e { prev = record e.prev { incoming = rest }; buffer = s })
          (sym (append-nil e.buffer))),
  (omega (arith, r.0), r.1),
)
recv_list_lem (x ∷ list) (v, vs) i big n e rest h b r j l =
    let fits : length (e.buffer ++ line x v) < 8192 = omega (
      arith,
      l,
      length-append e.buffer (line x v),
      length-append e.buffer (lines (x ∷ list) (v, vs)),
      length-append (line x v) (lines list vs),
    ) in
    let (calls, q, w) =
      recv_element_lem x v i big (length list + n) e (elements_bytes list ++ rest)
        (h ∙ append_assoc (element_bytes x) (elements_bytes list) rest) b (omega (arith, r.0), r.1)
        (omega arith) fits in
    let e₁ = received e calls (elements_bytes list ++ rest) (line x v) in
    let same = append_assoc e.buffer (line x v) (lines list vs) in
    let (calls', q', w') =
      recv_list_lem list vs (i + 1) big n e₁ rest refl b w (omega arith) (rw same l) in
    (
      calls',
      rw (recv_list, q, q')
          (ap
            (λ s.
              ok (x ∷ list)
                (record e { prev = record e.prev { recvs = calls'; incoming = rest }; buffer = s }))
            same),
      w',
    )

-- The list without the element at an index.
abbrev pub remove : List ListElement → ℕ → List ListElement
remove [] i = []
remove (x ∷ list) zero = list
remove (x ∷ list) (suc i) = x ∷ remove list i

abbrev pub passed_on : Ends → List Outcome → List ℕ → Ends
passed_on e calls bytes = record e {
  next = record e.next { sends = calls; outgoing = e.next.outgoing ++ bytes };
}

==_of_ne : (a b : ℕ) → a < b → (a == b) ≡ false
==_of_ne a b h = ground arith

==_of_gt : (a b : ℕ) → b < a → (a == b) ≡ false
==_of_gt a b h = ground arith

passed_on-append :
    (e : Ends) (calls : List Outcome) (xs ys : List ℕ)
    → record e { next = record e.next { sends = calls; outgoing = (e.next.outgoing ++ xs) ++ ys } }
      ≡ passed_on e calls (xs ++ ys)
passed_on-append e calls xs ys =
    ap (λ s. record e { next = record e.next { sends = calls; outgoing = s } })
      (append_assoc e.next.outgoing xs ys)

-- Behind the element that is left out, all are sent.
send_list_rest :
    (list : List ListElement) (i next big n : ℕ) (e : Ends)
    → All IsElement list
    → element_size ≤ big
    → next < i
    → Ready (length list + n) big e.next.sends
    → (calls : List Outcome) × (send_list list i next e
        ≡ ok tt (passed_on e calls (elements_bytes list)))
      × Ready n big calls
unfolding send_list
send_list_rest [] i next big n e v b h r = (
  e.next.sends,
  ap (λ s. ok tt (record e { next = record e.next { outgoing = s } }))
      (sym (append-nil e.next.outgoing)),
  (omega (arith, r.0), r.1),
)
send_list_rest (x ∷ list) i next big n e (v, vs) b h r =
    let (calls, q, w) =
      send_next_lem (element_bytes x) big (length list + n) e
        (omega (arith, length-element_bytes x v, b)) (omega (arith, r.0), r.1) in
    let (calls', q', w') =
      send_list_rest list (i + 1) next big n (passed_on e calls (element_bytes x)) vs b
        (omega arith) w in
    (
      calls',
      rw (==_of_gt i next h, q, q')
          (ap (ok tt) (passed_on-append e calls' (element_bytes x) (elements_bytes list))),
      w',
    )

-- The list is sent without the element at the index.
pub send_list_lem :
    (list : List ListElement) (k i big n : ℕ) (e : Ends)
    → All IsElement list
    → element_size ≤ big
    → k < length list
    → Ready (length list + n) big e.next.sends
    → (calls : List Outcome) × (send_list list i (i + k) e
        ≡ ok tt (passed_on e calls (elements_bytes (remove list k))))
      × Ready n big calls
unfolding send_list
send_list_lem [] k i big n e v b h r = absurd (omega arith)
send_list_lem (x ∷ list) zero i big n e (v, vs) b h r =
    let (calls, q, w) =
      send_list_rest list (i + 1) (i + 0) big n e vs b (omega arith) (omega (arith, r.0), r.1) in
    (calls, rw (==_of_eq i (i + 0) (omega arith), q) refl, w)
send_list_lem (x ∷ list) (suc k) i big n e (v, vs) b h r =
    let (calls, q, w) =
      send_next_lem (element_bytes x) big (length list + n) e
        (omega (arith, length-element_bytes x v, b)) (omega (arith, r.0), r.1) in
    let index : i + suc k ≡ i + 1 + k = omega arith in
    let (calls', q', w') =
      send_list_lem list k (i + 1) big n (passed_on e calls (element_bytes x)) vs b (omega arith)
        w in
    (
      calls',
      rw (==_of_ne i (i + suc k) (omega arith), q, index, q')
          (ap (ok tt)
            (passed_on-append e calls' (element_bytes x) (elements_bytes (remove list k)))),
      w',
    )
