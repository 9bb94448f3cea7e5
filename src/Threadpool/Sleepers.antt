-- ===== src/Threadpool/Sleepers.antt =====
-- The counters of a pool and the number of its threads.
use networking.Prelude.{
  ℕ, zero, suc, ◌+◌, ◌-◌, ◌%◌, ◌<◌, ◌≤◌, ◌≡◌, refl, sym, ap, ◌∙◌, List, [], ◌∷◌, ◌++◌, Bool, true,
  false, ltb, ◌==◌, ◌&&◌, if◌then◌else◌, length, length-append, arith, append_assoc, Bool-cases,
  inl, inr,
}
use networking.Threadpool.{
  Thread, testing, taking, asleep, notified, finished, executing, Pool, create, put, stop,
  wait_or_leave, take_from, wake_up, wake, advance, step_thread, count_asleep, notify_nth,
  notify_one, notify, notify_all, notify_at, grow, Move, putting, rousing, stopping, stepping, step,
  run,
}

-- How many threads wait, notified or not.
abbrev pub sleeps : Thread → ℕ
sleeps testing = 0
sleeps taking = 0
sleeps asleep = 1
sleeps notified = 1
sleeps finished = 0
sleeps (executing task) = 0

abbrev pub sleepers : List Thread → ℕ
sleepers [] = 0
sleepers (t ∷ ts) = sleeps t + sleepers ts

sleepers-append : (ts us : List Thread) → sleepers (ts ++ us) ≡ sleepers ts + sleepers us
sleepers-append [] us = omega arith
sleepers-append (t ∷ ts) us = omega (arith, sleepers-append ts us)

sleepers-le : (ts : List Thread) → sleepers ts ≤ length ts
sleepers-le [] = omega arith
sleepers-le (testing ∷ ts) = omega (arith, sleepers-le ts)
sleepers-le (taking ∷ ts) = omega (arith, sleepers-le ts)
sleepers-le (asleep ∷ ts) = omega (arith, sleepers-le ts)
sleepers-le (notified ∷ ts) = omega (arith, sleepers-le ts)
sleepers-le (finished ∷ ts) = omega (arith, sleepers-le ts)
sleepers-le (executing task ∷ ts) = omega (arith, sleepers-le ts)

-- The pool counts `len` threads, of which `k` wait: there are no more than the constructor was told,
-- which are less than 256; one counter is the number of those that wait, the other 256 less that.
pub record Counts (len k : ℕ) (p : Pool) : Type 0 where
  pub few : len ≤ p.nthreads
  pub narrow : p.nthreads < 256
  pub waiting : p.waiting ≡ k
  pub working : p.working ≡ (256 - k) % 256

abbrev pub IsCounted : Pool → Type 0
IsCounted p = Counts (length p.threads) (sleepers p.threads) p

same_count :
    {len len' k k' : ℕ} (p : Pool) → len ≡ len' → k ≡ k' → Counts len k p → Counts len' k' p
same_count p e f v = record {
  few = omega (arith, e, v.few);
  narrow = v.narrow;
  waiting = v.waiting ∙ f;
  working = v.working ∙ ap (λ n. (256 - n) % 256) f;
}

-- A step of a thread that waits `w` times before and `sleeps r.0` times after, `k` others waiting.
module _ (len k : ℕ) (l : k < len) where
  Counts-wait_or_leave :
      (running : Bool) (p : Pool)
      → Counts len k p
      → let r = wait_or_leave running p in Counts len (k + sleeps r.0) r.1
  Counts-wait_or_leave true p v = record {
    few = v.few;
    narrow = v.narrow;
    waiting = omega (arith, l, v.waiting, v.few, v.narrow);
    working = omega (arith, l, v.working, v.few, v.narrow);
  }
  Counts-wait_or_leave false p v = same_count p refl (omega arith) v

  Counts-take_from :
      (queue : List ℕ) (p : Pool)
      → Counts len k p
      → let r = take_from queue p in Counts len (k + sleeps r.0) r.1
  Counts-take_from [] p v = Counts-wait_or_leave p.running p v
  Counts-take_from (task ∷ queue) p v = record {
    few = v.few;
    narrow = v.narrow;
    waiting = omega (arith, v.waiting);
    working = v.working ∙ ap (λ n. (256 - n) % 256) (omega arith);
  }

  Counts-wake_up : (p : Pool) → Counts len (k + 1) p → Counts len k (wake_up p)
  Counts-wake_up p v = record {
    few = v.few;
    narrow = v.narrow;
    waiting = omega (arith, l, v.waiting, v.few, v.narrow);
    working = omega (arith, l, v.working, v.few, v.narrow);
  }

  Counts-wake :
      (running : Bool) (p : Pool)
      → Counts len (k + 1) p
      → let r = wake running p in Counts len (k + sleeps r.0) r.1
  Counts-wake true p v = Counts-take_from p.queue (wake_up p) (Counts-wake_up p v)
  Counts-wake false p v = same_count (wake_up p) refl (omega arith) (Counts-wake_up p v)

  Counts-test :
      (running : Bool) (p : Pool)
      → Counts len k p
      → Counts len (k + sleeps (if running then taking else finished)) p
  Counts-test true p v = same_count p refl (omega arith) v
  Counts-test false p v = same_count p refl (omega arith) v

  Counts-advance :
      (t : Thread) (p : Pool)
      → Counts len (k + sleeps t) p
      → let r = advance t p in Counts len (k + sleeps r.0) r.1
  unfolding advance
  Counts-advance testing p v = Counts-test p.running p (same_count p refl (omega arith) v)
  Counts-advance taking p v = Counts-take_from p.queue p (same_count p refl (omega arith) v)
  Counts-advance asleep p v = v
  Counts-advance notified p v = Counts-wake p.running p v
  Counts-advance (executing task) p v = v
  Counts-advance finished p v = v

step_thread-IsCounted :
    (i : ℕ) (done ts : List Thread) (p : Pool)
    → p.threads ≡ done ++ ts
    → IsCounted p
    → IsCounted (step_thread i done ts p)
unfolding step_thread
step_thread-IsCounted i done [] p e v = v
step_thread-IsCounted zero done (t ∷ ts) p e v =
    let r = advance t p in
    let k = sleepers done + sleepers ts in
    let before : sleepers p.threads ≡ k + sleeps t =
      ap sleepers e ∙ omega (arith, sleepers-append done (t ∷ ts)) in
    let after : k + sleeps r.0 ≡ sleepers (done ++ r.0 ∷ ts) =
      omega (arith, sleepers-append done (r.0 ∷ ts)) in
    let size : length p.threads ≡ length (done ++ r.0 ∷ ts) =
      ap length e ∙ omega (arith, length-append done (t ∷ ts), length-append done (r.0 ∷ ts)) in
    let room : k < length p.threads =
      omega (arith, ap length e, length-append done (t ∷ ts), sleepers-le done, sleepers-le ts) in
    let w =
      same_count r.1 size after
        (Counts-advance (length p.threads) k room t p (same_count p refl before v)) in
    record { few = w.few; narrow = w.narrow; waiting = w.waiting; working = w.working }
step_thread-IsCounted (suc i) done (t ∷ ts) p e v =
    step_thread-IsCounted i (done ++ t ∷ []) ts p (e ∙ sym (append_assoc done (t ∷ []) ts)) v

-- A notification changes neither the number of threads nor that of those in the wait.
sleeps-notify : (t : Thread) → sleeps (notify t) ≡ sleeps t
sleeps-notify testing = refl
sleeps-notify taking = refl
sleeps-notify asleep = refl
sleeps-notify notified = refl
sleeps-notify finished = refl
sleeps-notify (executing task) = refl

abbrev SameSleep : List Thread → List Thread → Type 0
SameSleep ts us = (length us ≡ length ts) × (sleepers us ≡ sleepers ts)

behind_same :
    (t u : Thread) (ts us : List Thread)
    → sleeps u ≡ sleeps t
    → SameSleep ts us
    → SameSleep (t ∷ ts) (u ∷ us)
behind_same t u ts us h (a, b) = (ap suc a, omega (arith, h, b))

notify_nth_same : (ts : List Thread) (n : ℕ) → SameSleep ts (notify_nth ts n)
notify_nth_same [] n = (refl, refl)
notify_nth_same (asleep ∷ ts) zero = (refl, refl)
notify_nth_same (asleep ∷ ts) (suc n) = behind_same asleep asleep ts _ refl (notify_nth_same ts n)
notify_nth_same (testing ∷ ts) n = behind_same testing testing ts _ refl (notify_nth_same ts n)
notify_nth_same (taking ∷ ts) n = behind_same taking taking ts _ refl (notify_nth_same ts n)
notify_nth_same (notified ∷ ts) n = behind_same notified notified ts _ refl (notify_nth_same ts n)
notify_nth_same (finished ∷ ts) n = behind_same finished finished ts _ refl (notify_nth_same ts n)
notify_nth_same (executing task ∷ ts) n =
    behind_same (executing task) (executing task) ts _ refl (notify_nth_same ts n)

notify_all_same : (ts : List Thread) → SameSleep ts (notify_all ts)
notify_all_same [] = (refl, refl)
notify_all_same (t ∷ ts) = behind_same t (notify t) ts _ (sleeps-notify t) (notify_all_same ts)

notify_at_same : (i : ℕ) (ts : List Thread) → SameSleep ts (notify_at i ts)
notify_at_same i [] = (refl, refl)
notify_at_same zero (t ∷ ts) = behind_same t (notify t) ts ts (sleeps-notify t) (refl, refl)
notify_at_same (suc i) (t ∷ ts) = behind_same t t ts _ refl (notify_at_same i ts)

-- The thread that put adds, if any, does not wait, and there was room for it.
grow-Counts : (p : Pool) → IsCounted p → Counts (length (grow p)) (sleepers (grow p)) p
grow-Counts p v = elim (Bool-cases (p.waiting == 0 && ltb (length p.threads) p.nthreads)) [
  | inl more ↦ rw more (grown (ground (arith, more)))
  | inr enough ↦ rw enough v
]
  where
    grown :
        length p.threads < p.nthreads
        → Counts (length (p.threads ++ testing ∷ [])) (sleepers (p.threads ++ testing ∷ [])) p
    grown h = record {
      few = omega (arith, h, length-append p.threads (testing ∷ []));
      narrow = v.narrow;
      waiting = omega (arith, v.waiting, sleepers-append p.threads (testing ∷ []));
      working =
          v.working
          ∙ ap (λ n. (256 - n) % 256) (omega (arith, sleepers-append p.threads (testing ∷ [])));
    }

-- Threads that wait as often, beside the same counters.
notified-IsCounted :
    (ts us : List Thread) (p : Pool) (queue : List ℕ) (running : Bool)
    → SameSleep ts us
    → Counts (length ts) (sleepers ts) p
    → IsCounted (record p { queue = queue; running = running; threads = us })
notified-IsCounted ts us p queue running (a, b) v =
    let w = same_count p (sym a) (sym b) v in
    record { few = w.few; narrow = w.narrow; waiting = w.waiting; working = w.working }

put-IsCounted : (task choice : ℕ) (p : Pool) → IsCounted p → IsCounted (put task choice p)
unfolding put notify_one
put-IsCounted task choice p v =
    notified-IsCounted (grow p) _ p (p.queue ++ task ∷ []) p.running
      (notify_nth_same (grow p) (choice % count_asleep (grow p))) (grow-Counts p v)

stop-IsCounted : (p : Pool) → IsCounted p → IsCounted (stop p)
unfolding stop
stop-IsCounted p v = notified-IsCounted p.threads _ p p.queue false (notify_all_same p.threads) v

-- A step of any kind keeps the counters and the number of threads right.
pub step-IsCounted : (m : Move) (p : Pool) → IsCounted p → IsCounted (step m p)
unfolding step
step-IsCounted (putting task choice) p v = put-IsCounted task choice p v
step-IsCounted (rousing i) p v =
    notified-IsCounted p.threads _ p p.queue p.running (notify_at_same i p.threads) v
step-IsCounted stopping p v = stop-IsCounted p v
step-IsCounted (stepping i) p v = step_thread-IsCounted i [] p.threads p refl v

run-IsCounted_from : (ms : List Move) (p : Pool) → IsCounted p → IsCounted (run ms p)
unfolding run
run-IsCounted_from [] p v = v
run-IsCounted_from (m ∷ ms) p v = run-IsCounted_from ms (step m p) (step-IsCounted m p v)

-- In any interleaving there are no more threads than the constructor was told, if these are less
-- than 256; `_waiting` is the number of those that wait, and `_working` is 256 less that number,
-- modulo 256, instead of the number of those that work.
pub run-IsCounted :
    (nthreads : ℕ) (ms : List Move) → nthreads < 256 → IsCounted (run ms (create nthreads))
unfolding create
run-IsCounted nthreads ms h =
    run-IsCounted_from ms (create nthreads)
      (record { few = omega arith; narrow = h; waiting = refl; working = refl })
