-- ===== src/Tests/Chains.antt =====
-- A client and two stones on concrete schedules.
use mathlib.Core.List.{Perm}
use networking.Prelude.{
  Option, if◌then◌else◌, ℕ, ◌≤◌, ◌≡◌, inr, refl, List, [], ◌∷◌, true, false, none, some, ◌++◌, map,
  codes, All, arith, ℤ, pos,
}
use networking.Transfer.{Outcome, failed, moved, Conn}
use networking.Socket.Candidates.{Peer, Candidate}
use networking.Service.Ports.{opened_by}
use networking.Chain.{ListHeader, ListElement, header_size, text_in}
use networking.Chain.Ready.{IsWhole}
use networking.Chain.Calls.{Ends, ok, exited, recv_prev, sprintf, send_next, recv_next, dump_two}
use networking.Chain.Stone.{next_ss, connection, pick}
use networking.Chain.Stone.Request.{IsElement, remove}
use networking.Chain.Stone.Forward.{IsReachable}
use networking.Chain.Stone.Connection.{
  IsPatient, Relays, request_bytes, reply_bytes, connection-Relays,
}
use networking.Chain.Stone.Closing.{connection-IsClosed}
use networking.Chain.Stone.Stages.{IsClosed}
use networking.Chain.Relay.{Site, opening, Serves, IsPrepared, ArePrepared, shorten, chain-Serves}
use networking.Chain.Client.{read_chain}
use networking.Chain.Client.Lines.{IsEntry, packed, packed_all, chain_text, read_chain-chain_text}
use networking.Chain.Client.Whole.{
  asking, Fetched, packed_all-IsElement, text_in-take, asking-IsHeader,
}
use networking.Chain.Client.Options.{Flag, chain_flag, other_flag, awget_main, awget_main-Serves}
use networking.Resolver.Attempt.{text_eq}
use networking.Chain.Listener.{bound_to, bind_stone, accept_all, serves, server}
use networking.Chain.Listener.Threads.{Session, HasEnded, server_closes}

abbrev entries : List (List ℕ × List ℕ)
entries = (codes "a", codes "1") ∷ (codes "b", codes "22") ∷ []

abbrev url : List ℕ
url = codes "u"

abbrev calls : List Outcome
calls = moved 9000 ∷ moved 9000 ∷ moved 9000 ∷ moved 9000 ∷ []

abbrev conn : Conn
conn = record { sends = calls; outgoing = []; recvs = calls; incoming = [] }

abbrev connects : List ℕ → List ℕ → ℤ × List Peer
connects host port = (pos 0, record { fd = pos 3; connected = true } ∷ [])

abbrev site : Site
site = record {
  connects = connects;
  rand = 5;
  m_host = codes "m";
  m_port = codes "9";
  fetch = λ command name. some (codes "hi");
  descriptor = 4;
  prev = conn;
  next = conn;
}

abbrev net : ListElement → ℕ → Site
net x n = site

reachable : (x : ListElement) → IsReachable connects x
unfolding next_ss
reachable x host port a b = (pos 3, [], refl)

entries-IsEntry : All (λ p. IsEntry p.0 p.1) entries
entries-IsEntry = (
  record {
    host_text = (omega arith, tt);
    host_line = (omega arith, tt);
    host_comma = (omega arith, tt);
    port_text = (omega arith, tt);
    port_line = (omega arith, tt);
    port_space = (omega arith, tt);
    host_short = omega arith;
    port_short = omega arith;
  },
  (
    record {
      host_text = (omega arith, tt);
      host_line = (omega arith, tt);
      host_comma = (omega arith, tt);
      port_text = (omega arith, (omega arith, tt));
      port_line = (omega arith, (omega arith, tt));
      port_space = (omega arith, (omega arith, tt));
      host_short = omega arith;
      port_short = omega arith;
    },
    tt,
  ),
)

abbrev list : List ListElement
list = packed_all entries

abbrev header : ListHeader
header = asking url 2

abbrev file : List ℕ
file = codes "hi"

list-IsElement : All IsElement list
list-IsElement = packed_all-IsElement entries entries-IsEntry

list-IsReachable : All (IsReachable connects) list
list-IsReachable =
    (reachable (packed (codes "a", codes "1")), (reachable (packed (codes "b", codes "22")), tt))

calls-IsWhole : All (IsWhole 8192) calls
calls-IsWhole = (omega arith, (omega arith, (omega arith, (omega arith, tt))))

structs-IsWhole : All (IsWhole header_size) calls
structs-IsWhole = (omega arith, (omega arith, (omega arith, (omega arith, tt))))

conn-IsPatient :
    (n : ℕ) (request reply : List ℕ) → n ≤ 2 → IsPatient n 2 (opening site request reply)
conn-IsPatient n request reply h = record {
  prev_recvs = (omega arith, structs-IsWhole);
  prev_sends = (omega arith, calls-IsWhole);
  next_sends = (omega arith, structs-IsWhole);
  first = 9000;
  rest = moved 9000 ∷ moved 9000 ∷ moved 9000 ∷ [];
  next_recvs = refl;
  first_whole = omega arith;
  steady = (omega arith, (omega arith, (omega arith, (omega arith, tt))));
}

site-IsPrepared : (n : ℕ) → n ≤ 2 → IsPrepared url file list n site
site-IsPrepared n h = record {
  reach = list-IsReachable;
  short = omega arith;
  fetches = refl;
  patient = conn-IsPatient n [] [] h;
}

net-ArePrepared : ArePrepared net url file list list
net-ArePrepared =
    ((λ n h. site-IsPrepared n (omega arith)), ((λ n h. site-IsPrepared n (omega arith)), tt))

url_ends : text_in header.f_name ≡ some url
url_ends = text_in-take 4096 4096 url (omega arith, tt) (omega arith) (omega arith)

read_chain-chain_text_example :
    read_chain url (chain_text entries) (opening site [] [])
    ≡ ok (header, list) (opening site [] [])
read_chain-chain_text_example =
    read_chain-chain_text url entries (opening site [] []) entries-IsEntry (omega arith)

abbrev middle : Ends
middle = opening site (request_bytes header list) (reply_bytes 1 file)

connection-Relays_example :
    (e' : Ends) × (connection connects 5 (codes "m") (codes "9") site.fetch 4 middle ≡ ok tt e')
    × Relays middle (request_bytes (shorten header) (remove list 1)) (reply_bytes 1 file) e'
connection-Relays_example =
    connection-Relays connects 5 (codes "m") (codes "9") site.fetch header list url file 4 1 middle
      (record {
        header = asking-IsHeader url 2 (omega arith);
        size = refl;
        elements = list-IsElement;
        named = url_ends;
        short = omega arith;
      })
      list-IsReachable (omega arith) (omega arith)
      (conn-IsPatient 2 (request_bytes header list) (reply_bytes 1 file) (omega arith)) refl refl

abbrev end : Ends
end = opening site (request_bytes (asking url 0) []) []

chain-Serves_example :
    (path : List ListElement) × Serves net (reply_bytes 1 file) site header list path
    × Perm path list
chain-Serves_example =
    chain-Serves net url (codes "i") b'h' 2 site header list refl
      (asking-IsHeader url 2 (omega arith)) refl url_ends list-IsElement (omega arith)
      (site-IsPrepared 2 (omega arith)) net-ArePrepared

abbrev client : Ends
client = opening site [] (reply_bytes 1 file)

-- The chain file is the one behind the last -c.
abbrev flags : List Flag
flags = chain_flag (codes "old") ∷ other_flag ∷ chain_flag (codes "new") ∷ []

abbrev fopen : List ℕ → Option (List ℕ)
fopen name = if text_eq name (codes "new") then some (chain_text entries) else none

awget_main-Serves_example :
    (e' : Ends) × (awget_main connects 5 true flags (some url) fopen client ≡ ok tt e')
    × Fetched client (request_bytes (shorten header) (remove list 1)) file e'
    × (x : ListElement) × (path : List ListElement) × (pick list 1 ≡ some x)
    × Serves net (reply_bytes 1 file) (net x 1) (shorten header) (remove list 1) path
    × Perm (x ∷ path) list
unfolding text_eq
awget_main-Serves_example =
    awget_main-Serves net connects 5 9000 b'h' url (codes "i") flags fopen entries
      (moved 9000 ∷ moved 9000 ∷ moved 9000 ∷ []) client entries-IsEntry (omega arith) (omega arith)
      (omega arith, tt) (omega arith) (omega arith) list-IsReachable net-ArePrepared
      (omega arith, structs-IsWhole) refl (omega arith)
      (omega arith, (omega arith, (omega arith, (omega arith, tt)))) refl refl

-- The next stone takes the request, and then its socket fails.
abbrev failing : Ends
failing = record middle { next = record middle.next { recvs = failed ∷ [] } }

abbrev ended : Ends
ended = record failing {
  prev = record conn { recvs = moved 9000 ∷ []; incoming = [] };
  next = record conn {
    sends = moved 9000 ∷ moved 9000 ∷ [];
    recvs = [];
    incoming = reply_bytes 1 file;
    outgoing = request_bytes (shorten header) (remove list 1);
  };
  opened = true;
  buffer =
      codes
        "ss <m, 9>:\n Request: u\n chainlist is\n <a, 1>\n <b, 22>\n next SS is <b, 22>\n waiting for file...\n";
  closed_prev = 1;
  closed_next = 1;
}

fails : connection connects 5 (codes "m") (codes "9") site.fetch 4 failing ≡ exited ended
unfolding connection recv_prev text_in sprintf send_next recv_next dump_two
fails = refl

connection-IsClosed_example : IsClosed ended
connection-IsClosed_example =
    connection-IsClosed connects 5 (codes "m") (codes "9") site.fetch 4 failing ended refl refl refl
      (inr fails)

abbrev session : Session
session = record { fd = 4; rand = 5; before = failing; after_it = ended }

abbrev stone_candidates : List Candidate
stone_candidates =
    record { fd = pos 3; reusable = true; bound = false }
    ∷ record { fd = pos 5; reusable = true; bound = true }
    ∷ []

session-HasEnded : HasEnded connects site.fetch (codes "m") (codes "9") session
session-HasEnded = record {
  not_opened = refl;
  prev_open = refl;
  next_open = refl;
  ended = inr fails;
}

bound_stone : bind_stone stone_candidates [] ≡ bound_to (pos 5) (pos 3 ∷ [])
unfolding bind_stone
bound_stone = refl

one_thread : map (λ t. t.fd) (session ∷ []) ≡ accept_all (none ∷ some 4 ∷ none ∷ [])
unfolding accept_all
one_thread = refl

server_closes_example :
    (server (pos 0) stone_candidates (some (codes "m", codes "9")) true (none ∷ some 4 ∷ none ∷ [])
      ≡ serves (pos 5) (codes "m") (codes "9") (4 ∷ []) (pos 3 ∷ []))
    × ((pos 3 ∷ []) ++ pos 5 ∷ [] ≡ opened_by stone_candidates)
server_closes_example =
    server_closes connects site.fetch (codes "m") (codes "9") stone_candidates
      (none ∷ some 4 ∷ none ∷ []) (pos 5) (pos 3 ∷ []) (session ∷ []) bound_stone one_thread
      (session-HasEnded, tt)
