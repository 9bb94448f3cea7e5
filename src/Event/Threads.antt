-- ===== src/Event/Threads.antt =====
-- The thread of the event queue and another thread that logs: the loop of scheduler/src/Event.cpp
-- takes the events that the members of Log in scheduler/src/Logging.cpp have queued. A step is one
-- call of a member, or one event. The functor that enter calls after each event does nothing, as in
-- the scheduler.
pub mod Settled
pub mod Direct
use networking.Prelude.{ℕ, List, [], ◌∷◌, ◌++◌, Bool, true, false, none, if◌then◌else◌}
use networking.Logging.{
  Log, World, Event, terminate, signal, flush, endl, catb, cate, append_string, append_value,
}
use networking.Event.{finish, announce, is_named, run_action}

-- What a thread asks of the log: a string, the text of a number, endl, flush, catb and cate.
pub data Call : Type 0 where
  string value : List ℕ → Call
  line flushing begin_block end_block : Call

-- A call of the thread that logs, or an event that the loop takes.
pub data Move : Type 0 where
  calling : Call → Move
  taking : Move

module _ (time_text : ℕ → List ℕ) where
  -- A call, on the thread of the event queue or on another.
  unfoldable pub log_call : Bool → Call → World → World
  unfolding append_string append_value endl flush catb cate
  log_call here (string text) w = append_string time_text here text w
  log_call here (value text) w = append_value time_text here text w
  log_call here line w = endl time_text here w
  log_call here flushing w = flush time_text here w
  log_call here begin_block w = catb time_text here w
  log_call here end_block w = cate time_text here w

  -- One round of the loop, for an event that does not end it. `logging` is false between events.
  unfoldable pub handle : Bool → Event → Log → Log
  unfolding run_action
  handle verb_event e l =
      let logged = if is_named e.name then verb_event else false in
      finish time_text verb_event (λ l. l) logged
        (run_action time_text verb_event (λ l. l) e.action
          (if logged then announce time_text verb_event (λ l. l) e l else l))

  abbrev take_first : Bool → List Event → World → World
  take_first verb_event [] w = w
  take_first verb_event (e ∷ queue) w = record { log = handle verb_event e w.log; queue = queue }

  unfoldable pub do_move : Bool → Move → World → World
  unfolding log_call handle
  do_move verb_event (calling c) w = log_call false c w
  do_move verb_event taking w = take_first verb_event w.queue w

  unfoldable pub run_moves : Bool → List Move → World → World
  unfolding do_move
  run_moves verb_event [] w = w
  run_moves verb_event (m ∷ ms) w = run_moves verb_event ms (do_move verb_event m w)

  -- The calls of a history, made by the thread of the event queue itself.
  unfoldable pub direct : List Move → Log → Log
  unfolding log_call
  direct [] l = l
  direct (calling c ∷ ms) l = direct ms (log_call true c (record { log = l; queue = [] })).log
  direct (taking ∷ ms) l = direct ms l
