-- ===== src/Tests/Programs.antt =====
-- The programs of proj1 and the message of scaling/src/main.cpp on concrete inputs.
use networking.Prelude.{
  ℕ, ◌==◌, ◌≡◌, refl, ap, ◌∙◌, sym, List, [], ◌∷◌, ◌++◌, Bool, true, false, Option, if◌then◌else◌,
  none, some, length, codes, decimal, map, ℤ, pos, negsuc, arith, Bool-cases, inl, inr,
}
use networking.Stream.Io.{Writes, Reads}
use networking.Message.{Classes, start, register, put_message, get_message}
use networking.Message.Registry.{IsConsistent, register_all-IsConsistent}
use networking.Data.{UnorderedMap, look, same_int, serialize, deserialize}
use networking.Data.Arrival.{arrived, same_int_equal, get_data-put_data}
use networking.Socket.{Memory}
use networking.Socket.Candidates.{Candidate}
use networking.SyncSocket.{Peer, SendCall, to_stream, try_peers}
use networking.Service.{bind_port, bound_to}
use networking.Server.{Server, nfds, round, serve}
use networking.Server.Deaf.{AllSelect, serve_alone}
use networking.Numbers.{message_bytes, Choice}
use networking.Numbers.Server.{receive_tcp}
use networking.Numbers.Mains.{Chosen, parsed, parse, at_first, waits_after, server_main}
use networking.Numbers.Client.{Wanted, System, main_returns, client_main}
use networking.Numbers.Answers.{Guest, visit_of, answer_to, twice, server_main_lem}
use networking.Numbers.Endings.{answering, payload, client_main_lem, exchange}
use networking.Numbers.Choices.{first_bad, taken, or_accepted, parse_decides}

-- A map that is a list.
abbrev set : ℤ → List ℕ → List (ℤ × List ℕ) → List (ℤ × List ℕ)
set j val [] = (j, val) ∷ []
set j val (e ∷ m) = let rest = set j val m in if same_int j e.0 then (j, val) ∷ m else e ∷ rest

look-set :
    (k j : ℤ) (val : List ℕ) (m : List (ℤ × List ℕ))
    → look k (set j val m) ≡ (if same_int k j then some val else look k m)
look-set k j val [] = refl
look-set k j val (e ∷ m) = elim (Bool-cases (same_int j e.0)) [
  | inl found ↦
      let there : same_int k e.0 ≡ same_int k j =
        ap (same_int k) (sym (same_int_equal j e.0 found)) in
      elim (Bool-cases (same_int k j)) [
        | inl same ↦ rw (found, same) refl
        | inr other ↦ rw (found, there, other) refl
      ]
  | inr elsewhere ↦ elim (Bool-cases (same_int k j)) [
    | inl same ↦
        let here : same_int k e.0 ≡ false =
          ap (λ i. same_int i e.0) (same_int_equal k j same) ∙ elsewhere in
        rw (elsewhere, here, look-set k j val m, same) refl
    | inr other ↦ rw (elsewhere, look-set k j val m, other) refl
  ]
]

abbrev listed : UnorderedMap
listed = record {
  Table = List (ℤ × List ℕ);
  empty = [];
  entries = λ m. m;
  assign = set;
  look-empty = λ k. refl;
  look-assign = look-set;
}

abbrev word_map : List (ℤ × List ℕ)
word_map = (pos 2, codes "worked") ∷ (pos 0, codes "Yay") ∷ (negsuc 0, codes "it") ∷ []

abbrev classes : Classes
classes = register 77 start

classes-IsConsistent : IsConsistent classes
classes-IsConsistent = register_all-IsConsistent (77 ∷ []) (omega arith)

abbrev any_class : ℕ → Bool
any_class id = true

get_data-put_data_example :
    (bytes : List ℕ) × Writes
      (put_message
        (λ _. serialize listed)
        (λ _. deserialize listed [])
        any_class
        classes
        (77, word_map))
      bytes
    × ((new : List (ℤ × List ℕ)) × Reads
          (get_message (λ _. serialize listed) (λ _. deserialize listed []) any_class classes)
          bytes
          (some (77, new))
        × ((k : ℤ) → look k new ≡ arrived (look k word_map) none))
unfolding register start
get_data-put_data_example =
    get_data-put_data listed any_class classes 77 0 word_map classes-IsConsistent refl refl
      ((omega arith, omega arith), ((omega arith, omega arith), ((omega arith, omega arith), tt)))
      (refl, (refl, (refl, tt))) (omega arith)

abbrev memory : Memory
memory = record { counts = λ a. none; next = 5; closed = [] }

-- A program that reads the number of two arguments.
abbrev atoi : List ℕ → ℤ
atoi text = if length text == 4 then pos 8080 else negsuc 0

abbrev choices : List Choice
choices =
    record { letter = b't'; optarg = codes "tcp" }
    ∷ record { letter = b'p'; optarg = codes "8080" }
    ∷ record { letter = b't'; optarg = codes "udp" }
    ∷ []

abbrev chosen : Chosen
chosen = record { tcp = true; t = true; p = true; port = pos 8080 }

parse_decides_example :
    parse atoi choices at_first
    ≡ or_accepted atoi (first_bad atoi choices) (taken atoi at_first choices)
parse_decides_example = parse_decides atoi choices at_first

abbrev candidates : List Candidate
candidates =
    record { fd = pos 3; reusable = true; bound = false }
    ∷ record { fd = pos 4; reusable = true; bound = true }
    ∷ []

abbrev guests : List Guest
guests =
    record { fd = pos 6; padding = 0 ∷ 0 ∷ 0 ∷ []; num = 2011 }
    ∷ record { fd = pos 6; padding = 1 ∷ 2 ∷ 3 ∷ []; num = 4294967295 }
    ∷ []

abbrev bound_memory : Memory
bound_memory = record memory { closed = pos 3 ∷ [] }

parsed_choices : parse atoi choices at_first ≡ parsed chosen
parsed_choices = parse_decides atoi choices at_first

found_port : bind_port candidates memory ≡ bound_to (pos 4) bound_memory
unfolding bind_port
found_port = refl

server_main_lem_example :
    (m' : Memory) × (server_main atoi
        (9 ∷ 9 ∷ 9 ∷ [])
        choices
        (pos 0)
        candidates
        (map visit_of guests)
        memory
      ≡ waits_after (map (λ g. answer_to g.num) guests) m')
    × (m'.closed ≡ (pos 3 ∷ []) ++ twice (map visit_of guests))
server_main_lem_example =
    server_main_lem atoi (9 ∷ 9 ∷ 9 ∷ []) choices chosen candidates (pos 4) memory bound_memory
      guests refl parsed_choices found_port ((refl, omega arith), ((refl, omega arith), tt))

abbrev wanted : Wanted
wanted = record {
  num = 2011;
  server = codes "localhost";
  port = codes "8080";
  tcp = true;
  x = true;
  s = true;
  p = true;
  t = true;
}

abbrev peers : List Peer
peers =
    record { fd = pos 8; connected = false; addr = [] }
    ∷ record { fd = pos 9; connected = true; addr = [] }
    ∷ []

abbrev tried : Memory
tried = record memory { closed = pos 8 ∷ [] }

found_peer :
    try_peers true peers (pos 0) memory
    ≡ (some (record { fd = pos 9; connected = true; addr = [] }), pos 9, tried)
unfolding try_peers
found_peer = refl

-- A connection that takes only part of the message.
abbrev partial : System
partial = record { sends = λ call. pos 5; receives = λ call. some (pos 1) }

client_main_lem_example :
    (m' : Memory) × (client_main (0 ∷ 0 ∷ 0 ∷ []) partial wanted peers memory
      ≡ (to_stream (pos 9) (message_bytes (0 ∷ 0 ∷ 0 ∷ []) 2011) ∷ [], main_returns (negsuc 0) m'))
    × (m'.closed ≡ pos 8 ∷ pos 9 ∷ [])
client_main_lem_example =
    client_main_lem (0 ∷ 0 ∷ 0 ∷ []) partial wanted peers
      (record { fd = pos 9; connected = true; addr = [] }) (pos 9) memory tried found_peer

exchange_example :
    (call : SendCall) × (m' : Memory) × (let answer =
        receive_tcp (9 ∷ 9 ∷ 9 ∷ []) (some (payload call)) in
      (client_main (0 ∷ 0 ∷ 0 ∷ []) (answering answer.replied) wanted peers memory
        ≡ (call ∷ [], main_returns (pos 0) m'))
      × (answer.printed ≡ codes "2011\n")
      × (m'.closed ≡ pos 8 ∷ pos 9 ∷ []))
unfolding decimal
exchange_example =
    exchange (0 ∷ 0 ∷ 0 ∷ []) (9 ∷ 9 ∷ 9 ∷ []) wanted peers
      (record { fd = pos 9; connected = true; addr = [] }) (pos 9) memory tried refl refl
      (omega arith) found_peer

-- Two rounds of a server that listens on 5, in which nothing and the descriptor 1 are ready.
abbrev rounds : List (Option (List ℕ) × ℕ)
rounds = (some [], 7) ∷ (some (1 ∷ []), 8) ∷ []

abbrev idle : Server
idle = record { conns = []; soc = 5 }

rounds_select : AllSelect rounds idle
unfolding nfds round
rounds_select = (tt, ((omega arith, tt), tt))

serve_alone_example : serve rounds idle ≡ idle
serve_alone_example = serve_alone 5 rounds rounds_select
