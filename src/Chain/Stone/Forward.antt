-- ===== src/Chain/Stone/Forward.antt =====
-- The steps of a connection of proj2/ss.c: the header that comes in, and the one that goes out.
use networking.Prelude.{
  ℕ, zero, suc, ◌+◌, ◌-◌, ◌*◌, ◌%◌, ◌≤◌, ◌<◌, ◌≡◌, refl, ap, ◌∙◌, List, [], ◌∷◌, ◌++◌, true, false,
  Option, some, length, ◌==◌, All, arith, length-append, codes, ℤ, Bool-cases, Option-cases, inl,
  inr,
}
use networking.Transfer.{Outcome}
use networking.Socket.Candidates.{Peer}
use networking.Chain.{ListHeader, ListElement, header_size, text_in, header_bytes}
use networking.Chain.Calls.{Ends, ok, recv_prev, sprintf, close_prev}
use networking.Chain.Ready.{Ready, recv_prev_lem, send_next_lem, sprintf_lem}
use networking.Chain.Stone.{
  next_ss, open_next, pick, pair_text, start_log, file_name, command, last_ss, recv_header, forward,
  curr_ss, connection, to_header, text, send_mapped, recv_list, send_list, relay,
}
use networking.Chain.Stone.Request.{IsHeader, IsElement, text_lem, line, lines}

recv_header_step :
    (calls missing : ℕ) (got bytes : List ℕ) (e e' : Ends)
    → recv_prev (suc missing) e ≡ ok (some bytes) e'
    → suc missing - length bytes ≡ 0
    → recv_header (suc calls) (suc missing) got e ≡ ok (got ++ bytes) e'
unfolding recv_header
recv_header_step calls missing got bytes e e' p l =
    rw p (ap (λ k. recv_header calls k (got ++ bytes) e') l)

pub length-header_bytes : (h : ListHeader) → IsHeader h → length (header_bytes h) ≡ header_size
length-header_bytes h v = omega (arith, v.full)

pub recv_header_lem :
    (h : ListHeader) (n : ℕ) (e : Ends) (rest : List ℕ)
    → IsHeader h
    → e.prev.incoming ≡ header_bytes h ++ rest
    → Ready (suc n) header_size e.prev.recvs
    → (calls : List Outcome) × (recv_header (length e.prev.recvs) header_size [] e
        ≡ ok
            (header_bytes h)
            (record e { prev = record e.prev { recvs = calls; incoming = rest } }))
      × Ready n header_size calls
recv_header_lem h n e rest v i r =
    let (calls, q, w) =
      recv_prev_lem header_size header_size n e (header_bytes h) rest i (length-header_bytes h v)
        (omega arith) r in
    let rounds : length e.prev.recvs ≡ suc (length e.prev.recvs - 1) = omega (arith, r.0) in
    (
      calls,
      ap (λ k. recv_header k header_size [] e) rounds
          ∙ recv_header_step (length e.prev.recvs - 1) 4100 [] (header_bytes h) e _ q
              (omega (arith, length-header_bytes h v)),
      w,
    )

pub text_in-length :
    (array : List ℕ) (t : List ℕ) → text_in array ≡ some t → length t < length array
unfolding text_in
text_in-length [] t h = cc
text_in-length (b ∷ bs) t h = elim (Bool-cases (b == 0)) [
  | inl end ↦ ground arith
  | inr more ↦ elim (Option-cases (text_in bs)) [
    | inl e ↦ absurd (ground arith)
    | inr (u, e) ↦ ground (arith, text_in-length bs u e)
  ]
]

pub length-pair_text : (x : ListElement) (v : IsElement x) → length (pair_text v.host v.port) ≤ 267
length-pair_text x v = omega (
  arith,
  length-append v.host (codes ", " ++ (v.port ++ codes ">\n")),
  length-append v.port (codes ">\n"),
  text_in-length x.host v.host v.host_ends,
  text_in-length x.port v.port v.port_ends,
  v.host_full,
  v.port_full,
)

pub length-lines :
    (list : List ListElement) (v : All IsElement list) → length (lines list v) ≤ 268 * length list
length-lines [] v = omega arith
length-lines (x ∷ list) (v, vs) =
    omega
      (arith, length-append (line x v) (lines list vs), length-pair_text x v, length-lines list vs)

-- What a connection to an element's host and port comes to.
abbrev pub IsReachable : (List ℕ → List ℕ → ℤ × List Peer) → ListElement → Type 0
IsReachable connects x =
    (host port : List ℕ)
    → text_in x.host ≡ some host
    → text_in x.port ≡ some port
    → (fd : ℤ) × (left : List ℤ) × (next_ss (connects host port).0 (connects host port).1
        ≡ some (some fd, left))

pub pick_lem :
    {P : ListElement → Type 0} (list : List ListElement) (k : ℕ)
    → All IsElement list
    → All P list
    → k < length list
    → (x : ListElement) × (pick list k ≡ some x) × IsElement x × P x
pick_lem [] k v p h = absurd (omega arith)
pick_lem (x ∷ list) zero (v, vs) (p, ps) h = (x, refl, v, p)
pick_lem (x ∷ list) (suc k) (v, vs) (p, ps) h = pick_lem list k vs ps (omega arith)

module _ (connects : List ℕ → List ℕ → ℤ × List Peer) (rand : ℕ) (m_host m_port : List ℕ) where
  pub open_next_lem :
      (host port : List ℕ) (fd : ℤ) (left : List ℤ) (e : Ends)
      → next_ss (connects host port).0 (connects host port).1 ≡ some (some fd, left)
      → open_next connects host port e
        ≡ ok tt (record e { opened = true; leaked = e.leaked ++ left })
  unfolding open_next
  open_next_lem host port fd left e h = rw (open_next, h) refl

  -- The next stone is connected, and the header with one element less goes to it.
  pub forward_lem :
      (h : ListHeader) (list : List ListElement) (n : ℕ) (e : Ends)
      → IsHeader h
      → All IsElement list
      → All (IsReachable connects) list
      → rand % h.l_size < length list
      → length e.buffer + 301 < 8192
      → Ready (suc n) header_size e.next.sends
      → (calls : List Outcome) × (log : List ℕ) × (lost : List ℤ) × (forward connects rand m_host
            m_port h list e
          ≡ ok tt (record e {
            next = record e.next {
              sends = calls;
              outgoing = e.next.outgoing ++ header_bytes (record h { l_size = h.l_size - 1 });
            };
            opened = true;
            leaked = lost;
            buffer = log;
          }))
        × Ready n header_size calls
  unfolding forward
  forward_lem h list n e hv v reach k b r =
      let (x, p, xv, to) = pick_lem list (rand % h.l_size) v reach k in
      let (fd, left, c) = to xv.host xv.port xv.host_ends xv.port_ends in
      let chosen = codes " next SS is " ++ pair_text xv.host xv.port in
      let room : length (e.buffer ++ chosen) + 22 < 8192 = omega (
        arith,
        length-append e.buffer chosen,
        length-append (codes " next SS is ") (pair_text xv.host xv.port),
        length-pair_text x xv,
        b,
      ) in
      let e₁ = record e { buffer = e.buffer ++ chosen } in
      let e₂ = record e₁ { opened = true; leaked = e.leaked ++ left } in
      let log = (e.buffer ++ chosen) ++ codes " waiting for file...\n" in
      let fits : length log < 8192 =
        omega (arith, length-append (e.buffer ++ chosen) (codes " waiting for file...\n"), room) in
      let e₃ = record e₂ { buffer = log } in
      let sent = header_bytes (record h { l_size = h.l_size - 1 }) in
      let whole : length sent ≡ header_size = omega (arith, hv.full) in
      let (calls, q, w) = send_next_lem sent header_size n e₃ (omega (arith, whole)) r in
      (
        calls,
        log,
        e.leaked ++ left,
        rw
            (
              p,
              text_lem x.host xv.host e xv.host_ends,
              text_lem x.port xv.port e xv.port_ends,
              sprintf_lem chosen e (omega (arith, room)),
              open_next_lem xv.host xv.port fd left e₁ c,
              sprintf_lem (codes " waiting for file...\n") e₂ fits,
              q,
              whole,
            )
            refl,
        w,
      )

  -- The steps of curr_ss, one after the other.
  pub curr_ss_steps :
      (h : ListHeader) (list : List ListElement) (name : List ℕ) (e e₁ e₂ e₃ e₄ e₅ : Ends)
      → text h.f_name e ≡ ok name e
      → sprintf (start_log m_host m_port name) (record e { buffer = [] }) ≡ ok tt e₁
      → recv_list h.l_size 0 e₁ ≡ ok list e₂
      → forward connects rand m_host m_port h list e₂ ≡ ok tt e₃
      → send_list list 0 (rand % h.l_size) e₃ ≡ ok tt e₄
      → relay e₄ ≡ ok tt e₅
      → curr_ss connects rand m_host m_port h e ≡ ok tt e₅
  unfolding curr_ss
  curr_ss_steps h list name e e₁ e₂ e₃ e₄ e₅ p₀ p₁ p₂ p₃ p₄ p₅ = rw (p₀, p₁, p₂, p₃, p₄) p₅

  -- And those of the thread of a connection, with a list that is not empty.
  pub connection_steps :
      (fetch : List ℕ → List ℕ → Option (List ℕ)) (s : ℕ) (h : ListHeader) (bytes : List ℕ)
      (e e₁ e₂ : Ends)
      → recv_header (length e.prev.recvs) header_size [] e ≡ ok bytes e₁
      → to_header bytes e₁ ≡ ok h e₁
      → (h.l_size == 0) ≡ false
      → curr_ss connects rand m_host m_port h e₁ ≡ ok tt e₂
      → connection connects rand m_host m_port fetch s e
        ≡ ok tt (record e₂ { closed_prev = suc e₂.closed_prev })
  unfolding connection close_prev
  connection_steps fetch s h bytes e e₁ e₂ p₁ p₂ more p₃ = rw (p₁, p₂, more, p₃) refl

  -- With an empty one.
  pub connection_last :
      (fetch : List ℕ → List ℕ → Option (List ℕ)) (s : ℕ) (h : ListHeader) (bytes : List ℕ)
      (e e₁ e₂ : Ends)
      → recv_header (length e.prev.recvs) header_size [] e ≡ ok bytes e₁
      → to_header bytes e₁ ≡ ok h e₁
      → (h.l_size == 0) ≡ true
      → last_ss fetch s h.f_name e₁ ≡ ok tt e₂
      → connection connects rand m_host m_port fetch s e
        ≡ ok tt (record e₂ { closed_prev = suc e₂.closed_prev })
  unfolding connection close_prev
  connection_last fetch s h bytes e e₁ e₂ p₁ p₂ none_left p₃ = rw (p₁, p₂, none_left, p₃) refl

pub last_ss_lem :
    (fetch : List ℕ → List ℕ → Option (List ℕ)) (s : ℕ) (h : ListHeader) (name file : List ℕ)
    (e e' : Ends)
    → text_in h.f_name ≡ some name
    → fetch (command s name) (file_name s) ≡ some file
    → send_mapped (some file) e ≡ ok tt e'
    → last_ss fetch s h.f_name e ≡ ok tt e'
unfolding last_ss
last_ss_lem fetch s h name file e e' t g p = rw (text_lem h.f_name name e t, g) p
