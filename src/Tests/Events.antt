-- ===== src/Tests/Events.antt =====
-- The log and the loop of the events on concrete inputs.
use networking.Prelude.{ℕ, ◌≡◌, refl, List, [], ◌∷◌, true, false, none, some, arith, codes}
use networking.Logging.{
  Log, World, Event, line_action, text_action, terminate, put, line_start, put_string,
}
use networking.Logging.Lines.{put_string-emit}
use networking.Event.{enter}
use networking.Event.Loop.{indent-enter}

abbrev noon : ℕ → List ℕ
noon reads = codes "12:00"

abbrev log : Log
log = record {
  name = codes "log";
  msg = codes "INFO";
  max_buffer = 4;
  indent_size = 2;
  indent = 0;
  ostr = [];
  buff = codes "ab";
  reads = 0;
}

abbrev world : World
world = record {
  log = log;
  queue = record { name = none; action = text_action (codes "old") } ∷ [];
}

put_string-emit_example :
    put_string noon (codes "a\nb") log
    ≡ put (codes "b") (line_start noon (put (codes "\n") (put (codes "a") log)))
put_string-emit_example = put_string-emit noon (codes "a\nb") log

abbrev events : List Event
events =
    record { name = some (codes "job"); action = line_action (codes "hi") }
    ∷ record { name = none; action = terminate }
    ∷ record { name = none; action = text_action (codes "late") }
    ∷ []

abbrev same : Log → Log
same l = l

indent-enter_example : (enter noon true same events false log).0.indent ≡ 0
indent-enter_example =
    indent-enter noon true same events log (tt, (tt, (tt, tt))) (λ x. refl) (omega arith)
