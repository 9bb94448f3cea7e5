-- ===== src/Scheduler.antt =====
-- class Scheduler of scheduler/include/Scheduler.hpp and scheduler/src/Scheduler.cpp, over the log
-- and the event queue. Agents have no state, so that the map of agents is the list of their numbers.
pub mod Signals
pub mod Startup
use networking.Prelude.{
  ℕ, zero, suc, ◌+◌, ◌-◌, ◌/◌, ◌%◌, List, [], ◌∷◌, ◌++◌, Bool, true, false, ◌==◌, ◌||◌,
  if◌then◌else◌, Option, none, some, length, codes, decimal,
}
use networking.Logging.{
  Log, World, Event, Action, terminate, death, call, new_log, put, put_wide, find_newline,
  put_string, spaces, append_string, append_value, endl, open_file,
}
use networking.Event.{Stop, push, enter}

pub record Scheduler : Type 0 where
  pub agents : List ℕ
  pub pid : ℕ
  pub port : ℕ
  pub verbose : ℕ
  pub config_path : List ℕ
  pub log_path : List ℕ
  pub world : World

-- verb_sched and verb_event: the bits 0x20 and 0x40.
abbrev pub verb_sched : Scheduler → Bool
verb_sched s = s.verbose / 32 % 2 == 1

abbrev pub verb_event : Scheduler → Bool
verb_event s = s.verbose / 64 % 2 == 1

-- What the library of options has found on the command line.
pub record Options : Type 0 where
  pub help : Bool
  pub kill : Bool
  pub shutdown : Bool
  pub reset : Bool
  pub config : Option (List ℕ)
  pub log : Option (List ℕ)
  pub port : Option ℕ
  pub verbose : Option ℕ

abbrev pub or_else {ℓ} : {A : Type ℓ} → A → Option A → A
or_else a none = a
or_else a (some b) = b

-- `_agents[n]`
abbrev pub add_agent : ℕ → List ℕ → List ℕ
add_agent n [] = n ∷ []
add_agent n (a ∷ as') = if n == a then a ∷ as' else a ∷ add_agent n as'

-- The text in front of the first newline.
abbrev pub first_line : List ℕ → List ℕ
first_line text = elim (find_newline text) [ none ↦ text | some (section, _) ↦ section ]

-- `time_text` as in the log; `file` is the text of __FILE__.
module _ (time_text : ℕ → List ℕ) (file : List ℕ) where
  -- ERROR(log) and NOTICE(log), with the line of the source.
  abbrev pub stamp : Bool → List ℕ → ℕ → World → World
  stamp here kind n w = append_string time_text here (codes "] ") (
      append_value time_text here (decimal n) (
        append_string time_text here (codes ".")
          (append_string time_text here file (append_string time_text here kind w))))

  -- The same on the thread of the event queue.
  abbrev pub notice : ℕ → Log → Log
  notice n l = put_string time_text (codes "] ") (
      put (decimal n) (
        put_string time_text (codes ".")
          (put_string time_text file (put_string time_text (codes "NOTICE: [") l))))

  -- `log << setw(width) << text` for a string: the width is that of the first output.
  abbrev pub put_wide_string : ℕ → List ℕ → Log → Log
  put_wide_string width text l =
      put_string time_text (spaces (width - length (first_line text)) ++ text) l

  -- A round of the loop of handle_chld: `here` tells whether the thread of the event queue handles
  -- the signal. What Agent::death does is nothing.
  abbrev pub say_death : Bool → Bool → ℕ → World → World
  say_death true here n w = endl time_text here (
      append_value time_text here (decimal n)
        (append_string time_text here (codes "SIGNALS: received sigchld for pid ") w))
  say_death false here n w = w

  unfoldable pub one_death : Bool → ℕ → ℕ → Scheduler → Scheduler
  unfolding append_string append_value endl push
  one_death here n status s = record s {
    agents = add_agent n s.agents;
    world =
        push (some (codes "&Agent::death")) (death n status)
          (say_death (verb_sched s) here n s.world);
  }

  -- handle_chld: `children` are the numbers that waitpid returns, each with its status.
  unfoldable pub handle_chld : Bool → List (ℕ × ℕ) → Scheduler → Scheduler
  unfolding one_death
  handle_chld here [] s = s
  handle_chld here ((n, status) ∷ children) s =
      handle_chld here children (one_death here n status s)

  -- handle_prnt, for the numbers of Linux.
  abbrev pub is_expected : ℕ → Bool
  is_expected signo = signo == 14 || (signo == 15 || (signo == 3 || (signo == 2 || signo == 1)))

  unfoldable pub handle_prnt : Bool → ℕ → Scheduler → Scheduler
  unfolding append_string append_value endl
  handle_prnt here signo s = if is_expected signo then s else record s {
    world = endl time_text here (
        append_value time_text here (decimal signo) (
          append_string time_text here (codes " Received unknown signal: ")
            (stamp here (codes "ERROR: [") 189 s.world)));
  }

  -- handle_sig
  unfoldable pub handle_sig : Bool → ℕ → List (ℕ × ℕ) → Scheduler → Scheduler
  unfolding handle_chld handle_prnt
  handle_sig here signo children s =
      if signo == 17 then handle_chld here children s else handle_prnt here signo s

  -- logHeader, on the thread of the event queue, where flush has nothing to do but for the file.
  unfoldable pub log_header : Scheduler → Log → Log
  unfolding put_wide put_string
  log_header s l =
      let stars = codes "*********************************************************\n" in
      let l₁ = put_string time_text stars (notice 133 l) in
      let l₂ =
        put_string time_text (codes "***            FOSSology scheduler started            ***\n")
          (notice 134 l₁) in
      let l₃ = put_string time_text (codes "        ***\n") (
        put_wide 27 (decimal s.pid)
          (put_string time_text (codes "***        pid:    ") (notice 135 l₂))) in
      let l₄ = put_string time_text (codes "        ***\n") (
        put_wide 30 (decimal s.verbose)
          (put_string time_text (codes "***        verb:") (notice 136 l₃))) in
      let l₅ = put_string time_text (codes "        ***\n") (
        put_wide_string 26 s.config_path
          (put_string time_text (codes "***        config:  ") (notice 137 l₄))) in
      put_string time_text stars (notice 138 l₅)

  -- kill and resetDatabase, in front of Enter.
  abbrev pub log_and_end : List ℕ → World → World
  log_and_end text w = endl time_text false (append_string time_text false text w)

  unfoldable pub kill : Bool → World → World
  unfolding append_string endl
  kill gracefull w = log_and_end (codes "CALL: Scheduler::kill") w

  unfoldable pub reset_database : World → World
  unfolding append_string endl
  reset_database w = log_and_end (codes "CALL: Scheduler::resetDatabase") w

  -- Without the option no file is ever open, and what is handed to the stream is lost.
  abbrev pub open_log : Option (List ℕ) → World → World
  open_log none w = w
  open_log (some path) w = record w { log = open_file time_text w.log }

  -- The fields before the options take effect.
  abbrev pub configured : ℕ → Options → Scheduler
  configured pid o = record {
    agents = [];
    pid = pid;
    port = or_else 23456 o.port;
    verbose = or_else 0 o.verbose;
    config_path = or_else [] o.config;
    log_path = or_else [] o.log;
    world = record {
      log = record new_log { name = codes "scheduler"; msg = decimal pid };
      queue = [];
    };
  }

  -- The constructor up to the call of Enter; help ends the program, `none`.
  unfoldable pub prepare : ℕ → Options → Option Scheduler
  unfolding kill reset_database open_file push log_header
  prepare pid o =
      let s = configured pid o in
      let w₁ = if o.kill then kill false s.world else s.world in
      let w₂ = if o.shutdown then kill true w₁ else w₁ in
      let w₃ = if o.reset then reset_database w₂ else w₂ in
      let w₄ = open_log o.log w₃ in
      let w₅ = push (some (codes "&Scheduler::logHeader")) (call (log_header s)) w₄ in
      if o.help then none else some (record s { world = push none terminate w₅ })

  -- Enter, where `logging` happens to be false at first.
  unfoldable pub work : Scheduler → Log × List Event × Stop
  unfolding enter
  work s = enter time_text (verb_event s) (λ l. l) s.world.queue false s.world.log
