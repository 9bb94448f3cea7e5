-- ===== src/Numbers/Client.antt =====
-- main of proj1/proj1_client.cpp, with timeout and usage.
use networking.Prelude.{
  ℕ, List, [], ◌∷◌, Bool, true, false, ◌==◌, ◌&&◌, not, if◌then◌else◌, Option, none, some, ℤ, pos,
  negsuc,
}
use networking.Socket.{Memory}
use networking.SyncSocket.{
  SyncSocket, Peer, returned, thrown, faulted, of_host, destroy, SendCall, RecvCall, send, recv,
}
use networking.Numbers.{message_bytes, Choice, transport}

-- The local variables of main.
pub record Wanted : Type 0 where
  pub num : ℕ
  pub server : List ℕ
  pub port : List ℕ
  pub tcp : Bool
  pub x : Bool
  pub s : Bool
  pub p : Bool
  pub t : Bool

abbrev pub nothing_wanted : Wanted
nothing_wanted = record {
  num = 0;
  server = [];
  port = [];
  tcp = false;
  x = false;
  s = false;
  p = false;
  t = false;
}

-- What `istr >> num` makes of the text and of the number that was there, by the library.
module _ (extract : List ℕ → ℕ → ℕ) where
  -- The switch; usage ends the program, `none`. The test of the port has no effect.
  unfoldable pub choose : Choice → Wanted → Option Wanted
  choose c o =
      if c.letter == b'x'
      then some (record o { num = extract c.optarg o.num; x = true })
      else if c.letter == b't'
      then (elim (transport o.tcp c.optarg) [
        | none ↦ none
        | some tcp ↦ some (record o { tcp = tcp; t = true })
      ])
      else if c.letter == b's'
      then some (record o { server = c.optarg; s = true })
      else if c.letter == b'p'
      then some (record o { port = c.optarg; p = true })
      else none

  -- The loop of getopt, and the test behind it.
  unfoldable pub parse : List Choice → Wanted → Option Wanted
  unfolding choose
  parse [] o = if o.x && (o.s && (o.p && o.t)) then some o else none
  parse (c ∷ cs) o = elim (choose c o) [ none ↦ none | some o' ↦ parse cs o' ]

-- How the client ends: main returns, `exit` ends it, an exception is not caught, or memory is at fault.
pub data Ending : Type 0 where
  main_returns : ℤ → Memory → Ending
  exits : ℤ → Memory → Ending
  uncaught : Memory → Ending
  at_fault : Ending

-- `return`, which destroys the socket.
abbrev pub leave : ℤ → SyncSocket → Memory → Ending
leave code conn m = elim (destroy conn m) [ none ↦ at_fault | some m' ↦ main_returns code m' ]

abbrev pub is_positive : ℤ → Bool
is_positive (pos n) = not (n == 0)
is_positive (negsuc n) = false

abbrev pub is_whole : ℤ → Bool
is_whole (pos n) = n == 8
is_whole (negsuc n) = false

-- The system: what it returns for a call that sends, and for one that receives, `none` if the alarm
-- goes off before.
pub record System : Type 0 where
  pub sends : SendCall → ℤ
  pub receives : RecvCall → Option ℤ

module _ (padding : List ℕ) (system : System) where
  -- What main does once it is connected: the calls that send, and how it ends.
  unfoldable pub converse : ℕ → SyncSocket → Memory → List SendCall × Ending
  unfolding destroy send recv
  converse num conn m =
      let call = send conn (message_bytes padding num) in
      (
        call ∷ [],
        if is_whole (system.sends call)
            then (elim (system.receives (recv conn 1)) [
              | none ↦ exits (negsuc 0) m
              | some n ↦ leave (if is_positive n then pos 0 else negsuc 0) conn m
            ])
            else leave (negsuc 0) conn m,
      )

  -- main behind the options, over the addresses of the server.
  unfoldable pub client_main : Wanted → List Peer → Memory → List SendCall × Ending
  unfolding converse of_host
  client_main o peers m = elim (of_host o.tcp peers m) [
    | faulted ↦ ([], at_fault)
    | thrown conn m' ↦ ([], uncaught m')
    | returned conn m' ↦ converse o.num conn m'
  ]
