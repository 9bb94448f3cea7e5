-- ===== src/Numbers/Endings.antt =====
-- How the client of proj1 ends.
use networking.Prelude.{
  ℕ, suc, ◌<◌, ◌^◌, ◌≡◌, refl, ap, ◌∙◌, List, [], ◌∷◌, ◌++◌, Bool, true, false, Option-cases,
  if◌then◌else◌, Option, none, some, length, codes, decimal, ℤ, pos, negsuc, Bool-cases, inl, inr,
}
use networking.Socket.{Memory, update, new_count}
use networking.SyncSocket.{
  SyncSocket, unconnected, Peer, returned, check_close, destroy, try_peers, finish_connect, connect,
  of_host, SendCall, to_stream, to_peer, RecvCall, from_stream, from_anyone, send, recv,
}
use networking.Numbers.{message_bytes, reply_bytes}
use networking.Numbers.Server.{Answer, receive_tcp, receive_udp}
use networking.Numbers.Client.{
  Wanted, System, Ending, main_returns, exits, is_positive, is_whole, leave, converse, client_main,
}
use networking.Numbers.Answers.{
  answer_to, same_address, length-message_bytes, receive_tcp-message_bytes,
}

-- A counter that has just been made, given up.
abbrev given_up : ℤ → Memory → Memory
given_up fd m = record {
  counts = update (update m.counts m.next (some 1)) m.next none;
  next = suc m.next;
  closed = m.closed ++ fd ∷ [];
}

-- The socket that connect makes.
abbrev joined : Bool → Peer → ℤ → Memory → SyncSocket
joined tcp p fd m = record {
  fd = fd;
  refs = some m.next;
  conn = true;
  tcp = tcp;
  src = if tcp then none else some p.addr;
  len = if tcp then 0 else length p.addr;
}

leave_lem :
    (code : ℤ) (tcp : Bool) (p : Peer) (fd : ℤ) (m : Memory)
    → leave code (joined tcp p fd m) (new_count m).1 ≡ main_returns code (given_up fd m)
unfolding destroy check_close
leave_lem code tcp p fd m = rw (leave, destroy, check_close, same_address m.next) refl

-- How main ends, once it is connected.
abbrev pub ending : Bool → Option ℤ → Memory → Memory → Ending
ending whole none left m' = if whole then exits (negsuc 0) left else main_returns (negsuc 0) m'
ending whole (some n) left m' =
    main_returns (if whole then (if is_positive n then pos 0 else negsuc 0) else negsuc 0) m'

-- The calls for the message and for the reply.
abbrev pub send_call : Bool → Peer → ℤ → List ℕ → SendCall
send_call tcp p fd bytes = if tcp then to_stream fd bytes else to_peer fd bytes (some p.addr)

abbrev pub recv_call : Bool → ℤ → RecvCall
recv_call tcp fd = if tcp then from_stream fd 1 else from_anyone fd 1

send-joined :
    (tcp : Bool) (p : Peer) (fd : ℤ) (m : Memory) (bytes : List ℕ)
    → send (joined tcp p fd m) bytes ≡ send_call tcp p fd bytes
unfolding send
send-joined true p fd m bytes = refl
send-joined false p fd m bytes = refl

abbrev pub payload : SendCall → List ℕ
payload (to_stream fd bytes) = bytes
payload (to_peer fd bytes addr) = bytes

payload-send_call :
    (tcp : Bool) (p : Peer) (fd : ℤ) (bytes : List ℕ) → payload (send_call tcp p fd bytes) ≡ bytes
payload-send_call true p fd bytes = refl
payload-send_call false p fd bytes = refl

module _ (padding : List ℕ) (system : System) where
  -- Whether the message has been sent whole.
  abbrev pub sent : Wanted → Peer → ℤ → Bool
  sent o p fd = is_whole (system.sends (send_call o.tcp p fd (message_bytes padding o.num)))

  abbrev pub handed : Wanted → Peer → ℤ → SendCall
  handed o p fd = send_call o.tcp p fd (message_bytes padding o.num)

  abbrev pub got : Wanted → ℤ → Option ℤ
  got o fd = system.receives (recv_call o.tcp fd)

  converse_lem :
      (o : Wanted) (p : Peer) (fd : ℤ) (m : Memory)
      → converse padding system o.num (joined o.tcp p fd m) (new_count m).1
        ≡ (handed o p fd ∷ [], ending (sent o p fd) (got o fd) (new_count m).1 (given_up fd m))
  unfolding converse recv
  converse_lem o p fd m =
      let sends = send-joined o.tcp p fd m (message_bytes padding o.num) in
      elim (Bool-cases (sent o p fd)) [
        | inl whole ↦ elim (Option-cases (got o fd)) [
          | inl late ↦ rw (converse, sends, whole, late) refl
          | inr (n, came) ↦
              rw (converse, sends, whole, came)
                (ap (λ e. (handed o p fd ∷ [], e))
                  (leave_lem (if is_positive n then pos 0 else negsuc 0) o.tcp p fd m))
        ]
        | inr part ↦ elim (Option-cases (got o fd)) [
          | inl late ↦
              rw (converse, sends, part, late)
                (ap (λ e. (handed o p fd ∷ [], e)) (leave_lem (negsuc 0) o.tcp p fd m))
          | inr (n, came) ↦
              rw (converse, sends, part, came)
                (ap (λ e. (handed o p fd ∷ [], e)) (leave_lem (negsuc 0) o.tcp p fd m))
        ]
      ]

  connected_lem :
      (tcp : Bool) (peers : List Peer) (p : Peer) (fd : ℤ) (m m₁ : Memory)
      → try_peers tcp peers (pos 0) m ≡ (some p, fd, m₁)
      → of_host tcp peers m ≡ returned (joined tcp p fd m₁) (new_count m₁).1
  unfolding of_host connect check_close
  connected_lem tcp peers p fd m m₁ h = ap (finish_connect tcp (record unconnected { tcp = tcp })) h

  -- A client that comes to a connection hands its message to the system in one call, for UDP with the
  -- address of the server. It returns 0 if all eight bytes have been sent and the call for the reply
  -- returns more than 0, and -1 otherwise, and has closed the descriptor of the connection once; with
  -- the alarm, the program exits with -1 and does not close it, but a client that could not send its
  -- message has returned before.
  pub client_main_lem :
      (o : Wanted) (peers : List Peer) (p : Peer) (fd : ℤ) (m m₁ : Memory)
      → try_peers o.tcp peers (pos 0) m ≡ (some p, fd, m₁)
      → (m' : Memory) × (client_main padding system o peers m
          ≡ (handed o p fd ∷ [], ending (sent o p fd) (got o fd) (new_count m₁).1 m'))
        × (m'.closed ≡ m₁.closed ++ fd ∷ [])
  unfolding client_main
  client_main_lem o peers p fd m m₁ h = (
    given_up fd m₁,
    rw (client_main, connected_lem o.tcp peers p fd m m₁ h) (converse_lem o p fd m₁),
    refl,
  )

-- The handler of the server for each transport.
abbrev pub receive_on : Bool → List ℕ → Option (List ℕ) → Answer
receive_on true padding received = receive_tcp padding received
receive_on false padding received = receive_udp padding received

receive_on-message_bytes :
    (tcp : Bool) (theirs mine : List ℕ) (num : ℕ)
    → length theirs ≡ 3
    → length mine ≡ 3
    → num < 2 ^ 32
    → receive_on tcp theirs (some (message_bytes mine num)) ≡ answer_to num
unfolding receive_udp receive_tcp
receive_on-message_bytes true theirs mine num b a h =
    receive_tcp-message_bytes theirs mine num b a h
receive_on-message_bytes false theirs mine num b a h =
    receive_tcp-message_bytes theirs mine num b a h

-- A system that takes each message whole, and brings the answer of a server.
abbrev pub answering : List ℕ → System
answering reply = record {
  sends = λ call. pos (length (payload call));
  receives = λ call. some (pos (length reply));
}

-- For TCP and for UDP, a client over a connection that takes its message whole, and a server that
-- receives what the client has handed over, whole: the client hands one message over, the server prints the number on a line,
-- and the client, to which the server's reply gets through, returns 0 and has closed its descriptor.
pub exchange :
    (mine theirs : List ℕ) (o : Wanted) (peers : List Peer) (p : Peer) (fd : ℤ) (m m₁ : Memory)
    → length mine ≡ 3
    → length theirs ≡ 3
    → o.num < 2 ^ 32
    → try_peers o.tcp peers (pos 0) m ≡ (some p, fd, m₁)
    → (call : SendCall) × (m' : Memory) × (let answer =
          receive_on o.tcp theirs (some (payload call)) in
        (client_main mine (answering answer.replied) o peers m
          ≡ (call ∷ [], main_returns (pos 0) m'))
        × (answer.printed ≡ decimal o.num ++ codes "\n")
        × (m'.closed ≡ m₁.closed ++ fd ∷ []))
exchange mine theirs o peers p fd m m₁ a b h e =
    let (m', ends, closes) = client_main_lem mine (answering reply_bytes) o peers p fd m m₁ e in
    let call = send_call o.tcp p fd (message_bytes mine o.num) in
    let bytes = payload-send_call o.tcp p fd (message_bytes mine o.num) in
    let same =
      ap (λ k. receive_on o.tcp theirs (some k)) bytes
      ∙ receive_on-message_bytes o.tcp theirs mine o.num b a h in
    let whole = ap length bytes ∙ length-message_bytes mine o.num a in
    (
      call,
      m',
      (
        ap (λ a. client_main mine (answering a.replied) o peers m) same
            ∙ ends
            ∙ ap (λ n. (call ∷ [], ending (is_whole (pos n)) (some (pos 1)) (new_count m₁).1 m'))
                whole,
        ap (λ a. a.printed) same,
        closes,
      ),
    )
