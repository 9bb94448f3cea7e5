-- ===== src/Resolver/Attempt.antt =====
-- sendOut, attempt, makeHeader, initialize and main of proj3/myresolver.cpp: the search for an
-- answer from server to server. The system's sockets and rand are parameters, one value for each
-- round.
pub mod Search
pub mod Packet
pub mod Rounds
pub mod Resolution
use networking.Prelude.{
  ℕ, zero, suc, ◌+◌, ◌-◌, ◌/◌, ◌%◌, List, [], ◌∷◌, ◌++◌, Bool, true, false, ◌&&◌, ◌||◌, ◌==◌, ltb,
  not, Option, none, some, if◌then◌else◌, length, take, drop, codes,
}
use Prim.Native.String.{String}
use networking.Resolver.Run.{Run, ok, undefined, out_of_fuel, exits, ◌>>=◌}
use networking.Resolver.Bytes.{ntohs}
use networking.Resolver.Question.{Question, make_question}
use networking.Resolver.Records.{Server}
use networking.Resolver.Response.{parse, fatal}

-- struct header of proj3/common.hpp
pub record Header : Type 0 where
  pub version : ℕ
  pub flags : ℕ
  pub queries : ℕ
  pub answers : ℕ
  pub nservers : ℕ
  pub addservers : ℕ

unfoldable pub make_header : Header
make_header = record {
  version = 0;
  flags = 0;
  queries = 1;
  answers = 0;
  nservers = 0;
  addservers = 1;
}

-- Two bytes of memory that hold htons of a word, which is ntohs, on a little-endian host.
abbrev pub write16 : ℕ → List ℕ
write16 n = ntohs n % 256 ∷ ntohs n / 256 % 256 ∷ []

-- `dnsPacket.write(QNAME, numBytes)`, which reads bytes that were never written if there are fewer.
unfoldable pub write_name : Question → Run (List ℕ)
write_name q = if ltb (length q.qname) q.num_bytes then undefined else ok (take q.num_bytes q.qname)

-- What one round adds to the packet.
unfoldable pub packet : Header → Question → Run (List ℕ)
unfolding write_name
packet h q = do
  name ← write_name q
  ok (
      write16 h.version
      ++ (write16 h.flags
          ++ (write16 h.queries
              ++ (write16 h.answers
                  ++ (write16 h.nservers
                      ++ (write16 h.addservers
                          ++ (name ++ (0 ∷ (write16 q.qtype ++ (write16 q.qclass ++ q.qodd))))))))))

-- What the system does in one round: whether `socket` and `connect` succeed, what `send` returns
-- for a packet, and what `recv` brings for an address and a packet, where `none` is -1.
pub record Exchange : Type 0 where
  pub opened : Bool
  pub connected : Bool
  pub sent : List ℕ → Option ℕ
  pub received : List ℕ → List ℕ → Option (List ℕ)

abbrev pub sent_all : Option ℕ → ℕ → Bool
sent_all none n = false
sent_all (some k) n = not (ltb k n)

abbrev pub answer_of : Option (List ℕ) → Run (List ℕ)
answer_of none = fatal
answer_of (some bytes) = ok (take 8191 bytes)

unfoldable pub send_out : Exchange → List ℕ → List ℕ → Run (List ℕ)
send_out e ip send_me =
    if not e.opened
    then fatal
    else if not e.connected
    then fatal
    else if not (sent_all (e.sent send_me) (length send_me))
    then fatal
    else answer_of (e.received ip send_me)

-- Equality of strings, and of servers.
unfoldable pub text_eq : List ℕ → List ℕ → Bool
text_eq [] [] = true
text_eq [] (_ ∷ _) = false
text_eq (_ ∷ _) [] = false
text_eq (a ∷ s) (b ∷ t) = a == b && text_eq s t

unfoldable pub server_eq : Server → Server → Bool
unfolding text_eq
server_eq l r = text_eq l.name r.name && text_eq l.ip r.ip

-- `std::find(...) != end()`, and `erase` of what `find` finds.
unfoldable pub is_in : Server → List Server → Bool
is_in x [] = false
is_in x (y ∷ ys) = server_eq y x || is_in x ys

pub erase : Server → List Server → List Server
erase x [] = []
erase x (y ∷ ys) = if server_eq y x then ys else y ∷ erase x ys

-- `servers[i]`, where the index is in range, and `erase(begin() + i)`.
unfoldable pub get_or : List Server → ℕ → Server → Server
get_or [] i d = d
get_or (x ∷ xs) zero d = x
get_or (x ∷ xs) (suc i) d = get_or xs i d

unfoldable pub erase_at : ℕ → List Server → List Server
erase_at i [] = []
erase_at zero (x ∷ xs) = xs
erase_at (suc i) (x ∷ xs) = x ∷ erase_at i xs

pub pop_back : List Server → List Server
pop_back [] = []
pop_back (x ∷ []) = []
pop_back (x ∷ y ∷ ys) = x ∷ pop_back (y ∷ ys)

abbrev pub is_empty : List Server → Bool
is_empty [] = true
is_empty (_ ∷ _) = false

abbrev pub no_record : List ℕ
no_record = codes "No Record avalible\n"

abbrev server : String → String → Server
server ip name = record { ip = codes ip; name = codes name }

-- The root servers.
unfoldable pub initialize : List Server
initialize =
    server "198.41.0.4" "ns.internic.net"
    ∷ server "192.228.79.201" "ns1.isi.edu"
    ∷ server "192.33.4.12" "c.psi.net"
    ∷ server "128.8.10.90" "terp.umd.edu"
    ∷ server "192.203.230.10" "ns.nasa.gov"
    ∷ server "192.5.5.241" "ns.isc.org"
    ∷ server "192.112.36.4" "ns.nic.ddn.mil"
    ∷ server "128.63.2.53" "aos.arl.army.mil"
    ∷ server "192.36.148.17" "nic.nordu.net"
    ∷ server "192.58.128.30" "Verisign"
    ∷ server "193.0.14.129" "RIPE NCC"
    ∷ server "199.7.83.42" "ICANN"
    ∷ server "202.12.27.33" "WIDE Project"
    ∷ []

module _ (base64 present : List ℕ → List ℕ) (rand : ℕ → ℕ) (net : ℕ → Exchange) (depth : ℕ)
    (query_name : List ℕ) (pkt_header : Header) (pkt_payload : Question) where
  -- One reply: the packet goes out, and what comes back is parsed behind the question.
  unfoldable pub ask : ℕ → Server → List ℕ → Run (List Server)
  ask round server dns_packet = do
    results ← send_out (net round) server.ip dns_packet
    parse base64 present depth query_name results (length dns_packet - 11)

  -- The loop of attempt from the round `round` on, with the packet and the stack so far. It returns
  -- the next round and the stack. `fuel` bounds the rounds and the depth of the recursion.
  unfoldable pub attempt :
      (fuel round : ℕ) → List ℕ → List Server → List Server → Run (ℕ × List Server)
  attempt zero round dns_packet servers stack = out_of_fuel
  attempt (suc fuel) round dns_packet [] stack = exits 1 no_record
  attempt (suc fuel) round dns_packet (s ∷ ss) stack =
      let servers = s ∷ ss in
      let srv_num = rand round % length servers in
      let server = get_or servers srv_num s in
      let skip = attempt fuel (round + 1) dns_packet (erase server servers) stack in
      let try = (do
        more ← packet pkt_header pkt_payload
        new_list ← ask round server (dns_packet ++ more)
        let nested = attempt fuel (round + 1) [] new_list (stack ++ server ∷ [])
        (round', stack') ←
            if is_empty new_list then ok (round + 1, stack ++ server ∷ []) else nested
        attempt fuel round' (dns_packet ++ more) (erase_at srv_num servers) (pop_back stack')) in
      if is_in server stack then skip else try

-- main over the arguments behind the program's name. `blank` is the question as it stands on the
-- stack of main, whose numBytes nobody sets. The loops of main call attempt again if it returns.
unfoldable pub main :
    (base64 present : List ℕ → List ℕ) (rand : ℕ → ℕ) (net : ℕ → Exchange)
    → (depth fuel : ℕ) → Question
    → List (List ℕ)
    → Run (ℕ × List Server)
unfolding attempt initialize make_header
main base64 present rand net depth fuel blank (argument ∷ []) = do
  question ← make_question argument blank
  attempt base64 present rand net depth argument make_header question fuel 0 [] initialize []
main base64 present rand net depth fuel blank _ = exits 0 (codes "Usage: myresolver hostname\n")
