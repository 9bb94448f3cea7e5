-- ===== src/Numbers/Mains.antt =====
-- main of proj1/proj1_server.cpp.
use networking.Prelude.{
  ℕ, ◌%◌, ◌^◌, List, [], ◌∷◌, Bool, true, false, ltb, ◌==◌, ◌&&◌, if◌then◌else◌, none, some, ℤ, pos,
  negsuc,
}
use networking.Socket.{Memory}
use networking.Socket.Candidates.{Candidate}
use networking.Service.{Added, added, refused, new_service, add_port}
use networking.Numbers.{Choice, transport}
use networking.Numbers.Server.{Answer, Visit, listen}

-- The local variables of main.
pub record Chosen : Type 0 where
  pub tcp : Bool
  pub t : Bool
  pub p : Bool
  pub port : ℤ

-- The start of main, and its end: usage ends the program, and an exception does.
pub data Parsed : Type 0 where
  used : Parsed
  thrown : Parsed
  parsed : Chosen → Parsed

abbrev pub is_port : ℤ → Bool
is_port (pos n) = ltb n (2 ^ 16)
is_port (negsuc n) = false

-- What main does: it ends with usage or an exception, has no descriptor, or waits after these answers.
pub data Course : Type 0 where
  ends_in_usage : Course
  ends_in_exception : Memory → Course
  no_descriptor : Course
  waits_after : List Answer → Memory → Course

abbrev pub at_first : Chosen
at_first = record { tcp = false; t = false; p = false; port = negsuc 0 }

-- `port` as a port_t.
abbrev pub port_of : ℤ → ℕ
port_of (pos n) = n % 2 ^ 16
port_of (negsuc n) = 0

module _ (atoi : List ℕ → ℤ) where
  abbrev choose_port : ℤ → Chosen → Parsed
  choose_port n o = if is_port n then parsed (record o { p = true; port = n }) else thrown

  -- The switch.
  unfoldable pub choose : Choice → Chosen → Parsed
  choose c o =
      if c.letter == b't'
      then (elim (transport o.tcp c.optarg) [
        | none ↦ used
        | some tcp ↦ parsed (record o { tcp = tcp; t = true })
      ])
      else if c.letter == b'p'
      then choose_port (atoi c.optarg) o
      else used

  -- The loop of getopt, and the test behind it.
  unfoldable pub parse : List Choice → Chosen → Parsed
  unfolding choose
  parse [] o = if o.p && o.t then parsed o else used
  parse (c ∷ cs) o = elim (choose c o) [ used ↦ used | thrown ↦ thrown | parsed o' ↦ parse cs o' ]

  abbrev serve : List ℕ → List Visit → Added → Course
  serve padding visits (refused m) = ends_in_exception m
  serve padding visits (added s m) =
      elim (listen padding (record { service = s; closing = false }) visits m) [
        | none ↦ no_descriptor
        | some (answers, m') ↦ waits_after answers m'
      ]

  -- main, where `info` and the candidates are what add_port finds.
  unfoldable pub server_main :
      List ℕ → List Choice → ℤ → List Candidate → List Visit → Memory → Course
  unfolding parse add_port new_service listen
  server_main padding cs info candidates visits m = elim (parse cs at_first) [
    | used ↦ ends_in_usage
    | thrown ↦ ends_in_exception m
    | parsed o ↦
        serve padding visits (add_port (port_of o.port) o.tcp info candidates new_service m)
  ]
