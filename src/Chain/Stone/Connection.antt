-- ===== src/Chain/Stone/Connection.antt =====
-- A whole connection of a stepping stone, the last of a chain or another.
use networking.Prelude.{
  ℕ, suc, ◌+◌, ◌-◌, ◌*◌, ◌%◌, ◌^◌, ◌≤◌, ◌<◌, ◌≡◌, refl, ap, ◌∙◌, sym, List, [], ◌∷◌, ◌++◌, true,
  Option, some, length, All, arith, append_assoc, append-nil, length-append, codes, ℤ,
}
use networking.Transfer.{Outcome, moved, Steady}
use networking.Socket.Candidates.{Peer}
use networking.Chain.{
  ListHeader, ListElement, header_size, file_header_size, text_in, header_bytes, elements_bytes,
  file_header_bytes,
}
use networking.Chain.Calls.{Ends, ok}
use networking.Chain.Ready.{Ready, sprintf_lem}
use networking.Chain.Stone.{start_log, file_name, command, connection, recv_list, send_list}
use networking.Chain.Stone.Request.{
  IsHeader, IsElement, text_lem, to_header_lem, lines, received, recv_list_lem, remove, passed_on,
  send_list_lem,
}
use networking.Chain.Stone.Reply.{answered, relay_lem, served, send_mapped_lem}
use networking.Chain.Stone.Forward.{
  recv_header_lem, length-lines, IsReachable, forward_lem, curr_ss_steps, connection_steps,
  connection_last, last_ss_lem,
}

-- A request for the file `name`: a header and a list whose log fits into the buffer.
pub record IsRequest (m_host m_port name : List ℕ) (h : ListHeader) (list : List ListElement)
    : Type 0 where
  pub header : IsHeader h
  pub size : h.l_size ≡ length list
  pub elements : All IsElement list
  pub named : text_in h.f_name ≡ some name
  pub short : length m_host + length m_port + length name + 268 * length list + 335 < 8192

-- Schedules on which no call fails, a request of `n` elements arrives and leaves in whole structs,
-- and a file of `len` bytes leaves in the pieces in which it arrives.
pub record IsPatient (n len : ℕ) (e : Ends) : Type 0 where
  pub prev_recvs : Ready (suc n) header_size e.prev.recvs
  pub prev_sends : Ready (suc len) 8192 e.prev.sends
  pub next_sends : Ready (suc n) header_size e.next.sends
  pub first : ℕ
  pub rest : List Outcome
  pub next_recvs : e.next.recvs ≡ moved first ∷ rest
  pub first_whole : file_header_size ≤ first
  pub steady : Steady len rest

-- What a connection that goes well leaves, where `request` goes on and `reply` goes back.
pub record Relays (e : Ends) (request reply : List ℕ) (e' : Ends) : Type 0 where
  pub forth : e'.next.outgoing ≡ e.next.outgoing ++ request
  pub back : e'.prev.outgoing ≡ e.prev.outgoing ++ reply
  pub opened : e'.opened ≡ true
  pub prev_once : e'.closed_prev ≡ suc e.closed_prev
  pub next_once : e'.closed_next ≡ suc e.closed_next

abbrev pub request_bytes : ListHeader → List ListElement → List ℕ
request_bytes h list = header_bytes h ++ elements_bytes list

abbrev pub reply_bytes : ℕ → List ℕ → List ℕ
reply_bytes version file = file_header_bytes version (length file) ++ file

module _ (connects : List ℕ → List ℕ → ℤ × List Peer) (rand : ℕ) (m_host m_port : List ℕ)
    (fetch : List ℕ → List ℕ → Option (List ℕ)) where
  -- A stone with a list that is not empty and whose elements can be reached, on schedules on which no
  -- call fails and requests move in whole structs, passes the request on, with one element less in
  -- the header and in the list, passes a reply of less than 2 ^ 32 bytes back whole, however it is cut
  -- up on its way in, and closes both sockets once.
  pub connection-Relays :
      (h : ListHeader) (list : List ListElement) (name file : List ℕ) (s version : ℕ) (e : Ends)
      → IsRequest m_host m_port name h list
      → All (IsReachable connects) list
      → 0 < length list
      → length file < 2 ^ 32
      → IsPatient (length list) (length file) e
      → e.prev.incoming ≡ request_bytes h list
      → e.next.incoming ≡ reply_bytes version file
      → (e' : Ends) × (connection connects rand m_host m_port fetch s e ≡ ok tt e')
        × Relays e
            (request_bytes (record h { l_size = h.l_size - 1 }) (remove list (rand % h.l_size)))
            (reply_bytes version file)
            e'
  connection-Relays h list name file s version e q reach some_left f pt i j =
      let (c₁, p₁, r₁) =
        recv_header_lem h (length list) e (elements_bytes list) q.header i pt.prev_recvs in
      let e₁ = record e { prev = record e.prev { recvs = c₁; incoming = elements_bytes list } } in
      let e₂ = record e₁ { buffer = start_log m_host m_port name } in
      let head_length : length (start_log m_host m_port name)
          ≡ length m_host + length m_port + length name + 34 =
        omega (
          arith,
          length-append m_host (
              codes ", "
              ++ (m_port ++ (codes ">:\n Request: " ++ (name ++ codes "\n chainlist is\n")))),
          length-append m_port (codes ">:\n Request: " ++ (name ++ codes "\n chainlist is\n")),
          length-append name (codes "\n chainlist is\n"),
        ) in
      let log = start_log m_host m_port name ++ lines list q.elements in
      let log_fits : length log + 301 < 8192 = omega (
        arith,
        q.short,
        head_length,
        length-append (start_log m_host m_port name) (lines list q.elements),
        length-lines list q.elements,
      ) in
      let (c₂, p₂, r₂) =
        recv_list_lem list q.elements 0 header_size 0 e₂ [] (sym (append-nil (elements_bytes list)))
          (omega arith) (omega (arith, r₁.0), r₁.1) (omega (arith, q.short))
          (omega (arith, log_fits)) in
      let e₃ = received e₂ c₂ [] (lines list q.elements) in
      let k = rand % h.l_size in
      let inside : k < length list = grind (arith, q.size, some_left) in
      let (c₃, log₃, lost, p₃, r₃) =
        forward_lem connects rand m_host m_port h list (length list) e₃ q.header q.elements reach
          inside log_fits pt.next_sends in
      let e₄ = record e₃ {
        next = record e.next {
          sends = c₃;
          outgoing = e.next.outgoing ++ header_bytes (record h { l_size = h.l_size - 1 });
        };
        opened = true;
        leaked = lost;
        buffer = log₃;
      } in
      let (c₄, p₄, r₄) =
        send_list_lem list k 0 header_size 0 e₄ q.elements (omega arith) inside
          (omega (arith, r₃.0), r₃.1) in
      let e₅ = passed_on e₄ c₄ (elements_bytes (remove list k)) in
      let p₄' = ap (λ n. send_list list 0 n e₄) (plus_zero k) ∙ p₄ in
      let (c₅, c₆, p₅, r₅) =
        relay_lem pt.first version 0 pt.rest file e₅ pt.first_whole pt.next_recvs j f pt.steady
          (omega (arith, pt.prev_sends.0), pt.prev_sends.1) in
      (
        record (answered e₅ c₅ c₆ (reply_bytes version file)) { closed_prev = suc e.closed_prev },
        connection_steps connects rand m_host m_port fetch s h (header_bytes h) e e₁
            (answered e₅ c₅ c₆ (reply_bytes version file)) p₁ (to_header_lem h e₁ q.header)
            (grind (arith, q.size, some_left))
            (curr_ss_steps connects rand m_host m_port h list name e₁
              (record e₁ { buffer = start_log m_host m_port name }) e₃ e₄ e₅
              (answered e₅ c₅ c₆ (reply_bytes version file)) (text_lem h.f_name name e₁ q.named)
              (sprintf_lem (start_log m_host m_port name) (record e₁ { buffer = [] })
                (omega (arith, head_length, q.short)))
              (ap (λ n. recv_list n 0 e₂) q.size ∙ p₂) p₃ p₄' p₅),
        record {
          forth = append_assoc e.next.outgoing _ _;
          back = refl;
          opened = refl;
          prev_once = refl;
          next_once = refl;
        },
      )
    where
      plus_zero : (k : ℕ) → k ≡ 0 + k
      plus_zero k = omega arith

  -- The last stone, whose header comes in one piece, sends the file that wget has brought, if it has 1
  -- to 2 ^ 32 - 1 bytes, behind its header, however `send` cuts the file up, opens nothing, and closes
  -- its socket once.
  pub connection_served :
      (h : ListHeader) (name : List ℕ) (s b m : ℕ) (bs rest : List ℕ) (sends : List Outcome)
      (e : Ends)
      → IsHeader h
      → h.l_size ≡ 0
      → text_in h.f_name ≡ some name
      → fetch (command s name) (file_name s) ≡ some (b ∷ bs)
      → length (b ∷ bs) < 2 ^ 32
      → e.prev.incoming ≡ header_bytes h ++ rest
      → Ready 1 header_size e.prev.recvs
      → e.prev.sends ≡ moved m ∷ sends
      → file_header_size ≤ m
      → Steady (length (b ∷ bs)) sends
      → (e' : Ends) × (connection connects rand m_host m_port fetch s e ≡ ok tt e')
        × (e'.prev.outgoing ≡ e.prev.outgoing ++ reply_bytes 1 (b ∷ bs))
        × (e'.next ≡ e.next)
        × (e'.opened ≡ e.opened)
        × (e'.closed_prev ≡ suc e.closed_prev)
        × (e'.closed_next ≡ e.closed_next)
  connection_served h name s b m bs rest sends e v z t g f i r o w st =
      let (c₁, p₁, r₁) = recv_header_lem h 0 e rest v i r in
      let e₁ = record e { prev = record e.prev { recvs = c₁; incoming = rest } } in
      let (c₂, p₂) = send_mapped_lem sends m b bs e₁ o w f st in
      let e₂ = served e₁ c₂ (reply_bytes 1 (b ∷ bs)) in
      (
        record e₂ { closed_prev = suc e.closed_prev },
        connection_last connects rand m_host m_port fetch s h (header_bytes h) e e₁ e₂ p₁
            (to_header_lem h e₁ v) (ground (arith, z))
            (last_ss_lem fetch s h name (b ∷ bs) e₁ e₂ t g p₂),
        refl,
        refl,
        refl,
        refl,
        refl,
      )
