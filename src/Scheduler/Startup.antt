-- ===== src/Scheduler/Startup.antt =====
-- What the constructor of Scheduler leaves in the log when it starts and stops again.
use mathlib.Core.Option
use networking.Prelude.{
  ℕ, List, [], ◌∷◌, ◌++◌, decimal, Bool, true, false, Option, none, some, codes,
}
use networking.Logging.{
  Log, World, Event, new_log, line_action, terminate, call, put, line_start, end_category,
  open_file,
}
use networking.Event.{announce}
use networking.Scheduler.{Scheduler, Options, log_header, kill}

module _ (time_text : ℕ → List ℕ) (file : List ℕ) where
  -- A line that the option asks for.
  abbrev pub line_if : Bool → List ℕ → Log → Log
  line_if true text l = line_start time_text (put (codes "\n") (put text l))
  line_if false text l = l

  abbrev opened : Option (List ℕ) → Log → Log
  opened none l = l
  opened (some path) l = open_file time_text l

  -- The lines of the options, in order.
  abbrev pub asked : Options → Log → Log
  asked o l = line_if o.reset (codes "CALL: Scheduler::resetDatabase") (
      line_if o.shutdown (codes "CALL: Scheduler::kill")
        (line_if o.kill (codes "CALL: Scheduler::kill") l))

  abbrev lines : Bool → List ℕ → List Event
  lines true text = record { name = none; action = line_action text } ∷ []
  lines false text = []

  abbrev all_lines : Bool → Bool → Bool → List Event
  all_lines k d r =
      lines k (codes "CALL: Scheduler::kill")
      ++ (lines d (codes "CALL: Scheduler::kill")
          ++ lines r (codes "CALL: Scheduler::resetDatabase"))

  abbrev world_of : ℕ → List Event → World
  world_of pid queue = record {
    log = record new_log { name = codes "scheduler"; msg = decimal pid };
    queue = queue;
  }

  module _ (s : Scheduler) where
    abbrev header_event : Event
    header_event = record {
      name = some (codes "&Scheduler::logHeader");
      action = call (log_header time_text file s);
    }

    -- The header, in a category of its own if events are logged.
    abbrev pub headed : Bool → Log → Log
    headed true l =
        end_category time_text
          (log_header time_text file s (announce time_text true (λ l. l) header_event l))
    headed false l = log_header time_text file s l

    abbrev last_events : List Event
    last_events = header_event ∷ record { name = none; action = terminate } ∷ []
