-- ===== src/Event.antt =====
-- EventQueue::push, EventQueue::enter and EventQueue::Terminate of scheduler/include/Event.hpp and
-- scheduler/src/Event.cpp. The events that are queued stay the same while the loop runs, but for those
-- that it takes.
pub mod Loop
pub mod Threads
use networking.Prelude.{
  ℕ, List, [], ◌∷◌, ◌++◌, Bool, true, false, Option, none, some, if◌then◌else◌, codes,
}
use networking.Logging.{
  Log, World, Event, Action, line_action, text_action, begin_action, end_action, terminate, death,
  call, put, line_start, begin_category, end_category, put_string,
}

-- push, for a named event or one without a name.
unfoldable pub push : Option (List ℕ) → Action → World → World
push name action w = record w { queue = w.queue ++ record { name = name; action = action } ∷ [] }

-- How enter stops: an event has ended the loop, or the queue is empty and the thread waits.
pub data Stop : Type 0 where
  finished : Stop
  asleep : Stop

abbrev pub is_named : Option (List ℕ) → Bool
is_named none = false
is_named (some _) = true

abbrev pub name_text : Option (List ℕ) → List ℕ
name_text none = codes "no_name"
name_text (some name) = name

-- Whether `event()` throws and ends the loop.
abbrev pub ends : Action → Bool
ends terminate = true
ends _ = false

module _ (time_text : ℕ → List ℕ) (verb_event : Bool) (update : Log → Log) where
  -- `event()`, but for the one that throws.
  unfoldable pub run_action : Action → Log → Log
  unfolding line_start begin_category end_category put_string
  run_action (line_action text) l = line_start time_text (put (codes "\n") (put text l))
  run_action (text_action text) l = put_string time_text text l
  run_action begin_action l = begin_category time_text l
  run_action end_action l = end_category time_text l
  run_action terminate l = l
  run_action (death n status) l = l
  run_action (call f) l = f l

  -- `if(logging) { *_ostr << sched::cate; logging = false; }`
  abbrev pub finish : Bool → Log → Log
  finish logging l = if logging then end_category time_text l else l

  -- The head of an event in the log, if it has a name and events are logged.
  abbrev pub announce : Event → Log → Log
  announce e l = begin_category time_text (
      put_string time_text (codes " ] ")
        (put_string time_text (name_text e.name) (put_string time_text (codes "EVENT_START[ ") l)))

  -- The loop over the events that are queued, `logging` being the variable of that name, which has
  -- no initial value. An event that ends the loop still ends its category.
  unfoldable pub enter : List Event → Bool → Log → Log × List Event × Stop
  unfolding run_action
  enter [] logging l = (l, [], asleep)
  enter (e ∷ queue) logging l =
      let logged = if is_named e.name then verb_event else false in
      let logging' = if logged then true else logging in
      let l' = if logged then announce e l else l in
      let stop : Log × List Event × Stop = (finish logging' l', queue, finished) in
      let go_on = enter queue false (update (finish logging' (run_action e.action l'))) in
      if ends e.action then stop else go_on
