-- ===== src/Threadpool/Order.antt =====
-- Every task is handed out once, in the order of the calls of put.
use networking.Prelude.{
  ℕ, zero, suc, ◌≡◌, refl, sym, ap, ◌∙◌, List, [], ◌∷◌, ◌++◌, Bool, true, false, append_assoc,
  append-nil,
}
use networking.Threadpool.{
  Thread, testing, taking, asleep, notified, finished, executing, Pool, create, put, stop,
  wait_or_leave, take_from, wake_up, wake, advance, step_thread, Move, putting, rousing, stopping,
  stepping, notify_at, step, run,
}

-- The tasks of a history of moves.
abbrev pub put_by : List Move → List ℕ
put_by [] = []
put_by (putting task choice ∷ ms) = task ∷ put_by ms
put_by (rousing i ∷ ms) = put_by ms
put_by (stopping ∷ ms) = put_by ms
put_by (stepping i ∷ ms) = put_by ms

abbrev tasks : Pool → List ℕ
tasks p = p.taken ++ p.queue

tasks-wait_or_leave : (running : Bool) (p : Pool) → tasks (wait_or_leave running p).1 ≡ tasks p
tasks-wait_or_leave true p = refl
tasks-wait_or_leave false p = refl

tasks-take_from :
    (queue : List ℕ) (p : Pool) → p.queue ≡ queue → tasks (take_from queue p).1 ≡ tasks p
tasks-take_from [] p e = tasks-wait_or_leave p.running p
tasks-take_from (task ∷ queue) p e =
    append_assoc p.taken (task ∷ []) queue ∙ ap (λ q. p.taken ++ q) (sym e)

tasks-wake : (running : Bool) (p : Pool) → tasks (wake running p).1 ≡ tasks p
tasks-wake true p = tasks-take_from p.queue (wake_up p) refl
tasks-wake false p = refl

tasks-advance : (t : Thread) (p : Pool) → tasks (advance t p).1 ≡ tasks p
unfolding advance
tasks-advance testing p = refl
tasks-advance taking p = tasks-take_from p.queue p refl
tasks-advance asleep p = refl
tasks-advance notified p = tasks-wake p.running p
tasks-advance (executing task) p = refl
tasks-advance finished p = refl

tasks-step_thread :
    (i : ℕ) (done ts : List Thread) (p : Pool) → tasks (step_thread i done ts p) ≡ tasks p
unfolding step_thread
tasks-step_thread i done [] p = refl
tasks-step_thread zero done (t ∷ ts) p = tasks-advance t p
tasks-step_thread (suc i) done (t ∷ ts) p = tasks-step_thread i (done ++ t ∷ []) ts p

tasks-put : (task choice : ℕ) (p : Pool) → tasks (put task choice p) ≡ tasks p ++ task ∷ []
unfolding put
tasks-put task choice p = sym (append_assoc p.taken p.queue (task ∷ []))

tasks-run : (ms : List Move) (p : Pool) → tasks (run ms p) ≡ tasks p ++ put_by ms
unfolding run step stop
tasks-run [] p = sym (append-nil (tasks p))
tasks-run (putting task choice ∷ ms) p =
    tasks-run ms (put task choice p)
    ∙ ap (λ q. q ++ put_by ms) (tasks-put task choice p)
    ∙ append_assoc (tasks p) (task ∷ []) (put_by ms)
tasks-run (stopping ∷ ms) p = tasks-run ms (stop p)
tasks-run (rousing i ∷ ms) p = tasks-run ms (record p { threads = notify_at i p.threads })
tasks-run (stepping i ∷ ms) p =
    tasks-run ms (step_thread i [] p.threads p)
    ∙ ap (λ q. q ++ put_by ms) (tasks-step_thread i [] p.threads p)

-- In any interleaving of the threads, the tasks that were handed out, followed by those in the queue,
-- are the tasks that were put, in order: none is lost, handed out twice or overtaken.
pub run_in_order :
    (nthreads : ℕ) (ms : List Move)
    → (run ms (create nthreads)).taken ++ (run ms (create nthreads)).queue ≡ put_by ms
unfolding create
run_in_order nthreads ms = tasks-run ms (create nthreads)
