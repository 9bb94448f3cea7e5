-- ===== src/Numbers/Answers.antt =====
-- What the server of proj1 prints and closes.
use networking.Prelude.{
  ℕ, Bool, suc, ◌<◌, ◌^◌, ◌≡◌, refl, ap, ◌∙◌, sym, List, [], ◌∷◌, ◌++◌, true, false, ◌==◌, Option,
  none, some, length, drop, codes, decimal, ℤ, pos, arith, append_assoc, append-nil, map, All,
}
use networking.Chain.{write32}
use networking.Socket.{Memory, update}
use networking.Socket.Candidates.{Candidate}
use networking.SyncSocket.{of_fd, check_close, destroy}
use networking.Service.{Service, set_port, bound_to, bind_port, new_service, add_port}
use networking.Numbers.{message_bytes, reply_bytes, word_of, overwrite, Choice}
use networking.Numbers.Server.{
  Answer, receive_tcp, Visit, tcp_round, tcp_rounds, receive_udp, udp_rounds, listen,
}
use networking.Numbers.Mains.{
  Chosen, parsed, parse, at_first, port_of, Course, no_descriptor, waits_after, server_main,
}

word_of-write32 : (num : ℕ) → num < 2 ^ 32 → word_of (write32 num []) ≡ num
word_of-write32 num h = omega arith

word_of-message_bytes :
    (padding : List ℕ) (num : ℕ)
    → length padding ≡ 3
    → num < 2 ^ 32
    → word_of (drop 4 (message_bytes padding num)) ≡ num
word_of-message_bytes (a ∷ b ∷ c ∷ []) num e h = word_of-write32 num h
word_of-message_bytes [] num e h = absurd (omega arith)
word_of-message_bytes (a ∷ []) num e h = absurd (omega arith)
word_of-message_bytes (a ∷ b ∷ []) num e h = absurd (omega arith)
word_of-message_bytes (a ∷ b ∷ c ∷ d ∷ rest) num e h = absurd (omega arith)

-- A whole message takes the place of the whole of the one that was there.
overwrite_whole : (old new : List ℕ) → length new ≡ length old → overwrite (some new) old ≡ new
overwrite_whole [] [] h = refl
overwrite_whole [] (b ∷ new) h = absurd (omega arith)
overwrite_whole (a ∷ old) [] h = absurd (omega arith)
overwrite_whole (a ∷ old) (b ∷ new) h = ap (◌∷◌ b) (overwrite_whole old new (omega arith))

pub length-message_bytes :
    (padding : List ℕ) (num : ℕ) → length padding ≡ 3 → length (message_bytes padding num) ≡ 8
length-message_bytes (a ∷ b ∷ c ∷ []) num e = refl
length-message_bytes [] num e = absurd (omega arith)
length-message_bytes (a ∷ []) num e = absurd (omega arith)
length-message_bytes (a ∷ b ∷ []) num e = absurd (omega arith)
length-message_bytes (a ∷ b ∷ c ∷ d ∷ rest) num e = absurd (omega arith)

-- What the server says to a number.
abbrev pub answer_to : ℕ → Answer
answer_to num = record { printed = decimal num ++ codes "\n"; replied = reply_bytes }

pub receive_tcp-message_bytes :
    (mine theirs : List ℕ) (num : ℕ)
    → length mine ≡ 3
    → length theirs ≡ 3
    → num < 2 ^ 32
    → receive_tcp mine (some (message_bytes theirs num)) ≡ answer_to num
unfolding receive_tcp
receive_tcp-message_bytes mine theirs num a b h =
    let same =
      overwrite_whole (message_bytes mine 0) (message_bytes theirs num)
        (length-message_bytes theirs num b ∙ sym (length-message_bytes mine 0 a)) in
    ap (λ bytes. answer_to (word_of (drop 4 bytes))) same
    ∙ ap answer_to (word_of-message_bytes theirs num b h)

pub same_address : (a : ℕ) → (a == a) ≡ true
same_address a = ground arith

-- The memory behind a round.
abbrev after_round : ℤ → Memory → Memory
after_round fd m = record {
  counts = update (update m.counts m.next (some 1)) m.next none;
  next = suc m.next;
  closed = (m.closed ++ fd ∷ []) ++ fd ∷ [];
}

tcp_round_lem :
    (padding : List ℕ) (v : Visit) (m : Memory)
    → tcp_round padding v m ≡ some (receive_tcp padding v.received, after_round v.fd m)
unfolding tcp_round of_fd destroy check_close
tcp_round_lem padding v m = rw (tcp_round, same_address m.next) refl

abbrev pub twice : List Visit → List ℤ
twice [] = []
twice (v ∷ vs) = v.fd ∷ v.fd ∷ twice vs

abbrev answers : List ℕ → List Visit → List Answer
answers padding [] = []
answers padding (v ∷ vs) = receive_tcp padding v.received ∷ answers padding vs

tcp_rounds_lem :
    (padding : List ℕ) (vs : List Visit) (m : Memory)
    → (m' : Memory) × (tcp_rounds padding vs m ≡ some (answers padding vs, m'))
      × (m'.closed ≡ m.closed ++ twice vs)
unfolding tcp_rounds
tcp_rounds_lem padding [] m = (m, refl, sym (append-nil m.closed))
tcp_rounds_lem padding (v ∷ vs) m =
    let (m', e, c) = tcp_rounds_lem padding vs (after_round v.fd m) in
    (
      m',
      rw (tcp_rounds, tcp_round_lem padding v m, e) refl,
      c
          ∙ append_assoc (m.closed ++ v.fd ∷ []) (v.fd ∷ []) (twice vs)
          ∙ append_assoc m.closed (v.fd ∷ []) (v.fd ∷ twice vs),
    )

-- A client's message on a descriptor that `accept` returns: its padding and its number.
pub record Guest : Type 0 where
  pub fd : ℤ
  pub padding : List ℕ
  pub num : ℕ

abbrev pub IsGuest : Guest → Type 0
IsGuest g = (length g.padding ≡ 3) × (g.num < 2 ^ 32)

abbrev pub visit_of : Guest → Visit
visit_of g = record { fd = g.fd; received = some (message_bytes g.padding g.num) }

answers_guests :
    (padding : List ℕ) (gs : List Guest)
    → length padding ≡ 3
    → All IsGuest gs
    → answers padding (map visit_of gs) ≡ map (λ g. answer_to g.num) gs
answers_guests padding [] h v = refl
answers_guests padding (g ∷ gs) h ((a, b), vs) =
    ap (λ a. a ∷ answers padding (map visit_of gs))
      (receive_tcp-message_bytes padding g.padding g.num h a b)
    ∙ ap (◌∷◌ (answer_to g.num)) (answers_guests padding gs h vs)

udp_rounds_lem : (padding : List ℕ) (vs : List Visit) → udp_rounds padding vs ≡ answers padding vs
unfolding receive_udp receive_tcp
udp_rounds_lem padding [] = refl
udp_rounds_lem padding (v ∷ vs) =
    ap (◌∷◌ (receive_tcp padding v.received)) (udp_rounds_lem padding vs)

-- What the rounds close: nothing for UDP.
abbrev pub closed_for : Bool → List Visit → List ℤ
closed_for true vs = twice vs
closed_for false vs = []

listen_lem :
    (padding : List ℕ) (s : Service) (fd : ℤ) (tcp : Bool) (vs : List Visit) (m : Memory)
    → s.listening ≡ some (fd, tcp)
    → (m' : Memory) × (listen padding (record { service = s; closing = false }) vs m
        ≡ some (answers padding vs, m'))
      × (m'.closed ≡ m.closed ++ closed_for tcp vs)
unfolding listen
listen_lem padding s fd true vs m h =
    let (m', e, c) = tcp_rounds_lem padding vs m in (m', rw h e, c)
listen_lem padding s fd false vs m h =
    (m, rw h (ap (λ a. some (a, m)) (udp_rounds_lem padding vs)), sym (append-nil m.closed))

abbrev course : Option (List Answer × Memory) → Course
course r = elim r [ none ↦ no_descriptor | some (answers, m) ↦ waits_after answers m ]

-- If the options of the server are in order and it can bind its port, then whatever clients come, each
-- with a whole message, it prints the number of each on a line, in their order, and hands over a reply
-- of one byte to each; for TCP it closes the descriptor of each twice, for UDP it closes none.
pub server_main_lem :
    (atoi : List ℕ → ℤ) (padding : List ℕ) (cs : List Choice) (o : Chosen)
    (candidates : List Candidate) (fd : ℤ) (m m₁ : Memory) (gs : List Guest)
    → length padding ≡ 3
    → parse atoi cs at_first ≡ parsed o
    → bind_port candidates m ≡ bound_to fd m₁
    → All IsGuest gs
    → (m' : Memory) × (server_main atoi padding cs (pos 0) candidates (map visit_of gs) m
        ≡ waits_after (map (λ g. answer_to g.num) gs) m')
      × (m'.closed ≡ m₁.closed ++ closed_for o.tcp (map visit_of gs))
unfolding server_main add_port
server_main_lem atoi padding cs o candidates fd m m₁ gs h p b v =
    let s : Service = record new_service {
      ports = set_port (port_of o.port) fd new_service.ports;
      master = new_service.master ++ fd ∷ [];
      listening = some (fd, o.tcp);
    } in
    let (m', e, c) = listen_lem padding s fd o.tcp (map visit_of gs) m₁ refl in
    (
      m',
      rw (server_main, p, add_port, b)
          (ap course (e ∙ ap (λ a. some (a, m')) (answers_guests padding gs h v))),
      c,
    )
