-- ===== src/Tests/Logs.antt =====
-- A thread that logs, and the scheduler with its signals, on concrete inputs.
use mathlib.Core.Option
use networking.Prelude.{ℕ, ◌≡◌, refl, List, [], ◌∷◌, ◌++◌, true, false, none, some, codes, All}
use networking.Logging.{Log, terminate, signal, flush, new_log, find_newline}
use networking.Event.{finished, enter}
use networking.Event.Threads.{
  Move, calling, taking, string, value, line, begin_block, end_block, run_moves, direct,
}
use networking.Event.Threads.Settled.{IsPlainMove}
use networking.Event.Threads.Direct.{enter-direct}
use networking.Scheduler.{Scheduler, Options, configured}
use networking.Scheduler.Signals.{
  Signal, named, deaths_of, reported, is_known, handle_all, reports_deaths,
}

abbrev clock : ℕ → List ℕ
clock reads = codes "12:00"

abbrev source_file : List ℕ
source_file = codes "Scheduler.cpp"

abbrev tight_log : Log
tight_log = record new_log { max_buffer = 4; name = codes "log" }

abbrev moves : List Move
moves =
    calling (string (codes "abc"))
    ∷ calling begin_block
    ∷ taking
    ∷ calling (value (codes "12345"))
    ∷ calling line
    ∷ taking
    ∷ calling end_block
    ∷ []

moves_plain : All IsPlainMove moves
unfolding find_newline
moves_plain = (refl, (tt, (tt, (refl, (tt, (tt, (tt, tt)))))))

enter-direct_example :
    let w =
      signal terminate
        (flush clock false (run_moves clock true moves (record { log = tight_log; queue = [] }))) in
    enter clock true (λ l. l) w.queue false w.log ≡ (direct clock moves tight_log, [], finished)
enter-direct_example = enter-direct clock true moves tight_log false moves_plain refl refl

abbrev options : Options
options = record {
  help = false;
  kill = true;
  shutdown = false;
  reset = true;
  config = none;
  log = some (codes "sched.log");
  port = none;
  verbose = some 96;
}

abbrev scheduler : Scheduler
scheduler = configured clock source_file 42 options

abbrev signals : List Signal
signals =
    record { here = false; signo = 17; children = (7, 0) ∷ (9, 256) ∷ [] }
    ∷ record { here = true; signo = 10; children = (3, 0) ∷ [] }
    ∷ record { here = true; signo = 17; children = (7, 9) ∷ [] }
    ∷ []

reports_deaths_example :
    (named (handle_all clock source_file signals scheduler).world.queue
      ≡ named scheduler.world.queue ++ deaths_of (reported signals))
    × All
        (λ m. is_known m.0 (handle_all clock source_file signals scheduler).agents ≡ true)
        (reported signals)
reports_deaths_example = reports_deaths clock source_file signals scheduler
