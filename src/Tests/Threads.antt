-- ===== src/Tests/Threads.antt =====
-- A pool of two threads on a concrete interleaving.
use networking.Prelude.{◌≡◌, List, [], ◌∷◌, ◌++◌, arith}
use networking.Threadpool.{Pool, create, stop, Move, putting, stepping, run}
use networking.Threadpool.Order.{run_in_order}
use networking.Threadpool.Sleepers.{IsCounted, run-IsCounted}

-- Two tasks are put; the first thread takes the first one, the second thread the other, and then the
-- first thread waits.
abbrev moves : List Move
moves =
    putting 7 0
    ∷ putting 8 0
    ∷ stepping 0
    ∷ stepping 0
    ∷ stepping 1
    ∷ stepping 1
    ∷ stepping 0
    ∷ stepping 0
    ∷ stepping 0
    ∷ putting 9 0
    ∷ []

run_in_order_example : (run moves (create 2)).taken ++ (run moves (create 2)).queue ≡ 7 ∷ 8 ∷ 9 ∷ []
run_in_order_example = run_in_order 2 moves

run-IsCounted_example : IsCounted (run moves (create 2))
run-IsCounted_example = run-IsCounted 2 moves (omega arith)

abbrev stopped : Pool
stopped = stop (run moves (create 2))
