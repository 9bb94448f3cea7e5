-- ===== src/Threadpool.antt =====
-- class threadpool of scaling/src/threadpool.hpp and threadpool.cpp: its threads take tasks from a
-- queue under a lock. A step is what one thread does while it holds the lock, or between two times.
pub mod Order
pub mod Sleepers
pub mod Shutdown
use networking.Prelude.{
  ℕ, zero, suc, ◌+◌, ◌%◌, List, [], ◌∷◌, ◌++◌, Bool, true, false, ltb, ◌==◌, ◌&&◌, if◌then◌else◌,
  length,
}

-- Where a thread stands in _exec_thread: at the test of the loop, in front of the lock of _take, in
-- the wait, in the wait but notified, in a call of its task, or behind the loop.
pub data Thread : Type 0 where
  testing taking asleep notified finished : Thread
  executing : ℕ → Thread

-- The fields of the class, without the lock. A task is known by a number. `taken` are the tasks that
-- _take has handed out so far.
pub record Pool : Type 0 where
  pub queue : List ℕ
  pub running : Bool
  pub nthreads : ℕ
  pub waiting : ℕ
  pub working : ℕ
  pub threads : List Thread
  pub taken : List ℕ

-- The constructor.
unfoldable pub create : ℕ → Pool
create nthreads = record {
  queue = [];
  running = true;
  nthreads = nthreads;
  waiting = 0;
  working = 0;
  threads = [];
  taken = [];
}

-- notify_one: the system chooses one of the threads that wait, by its place among them, and does
-- nothing if none does.
abbrev pub count_asleep : List Thread → ℕ
count_asleep [] = 0
count_asleep (asleep ∷ ts) = count_asleep ts + 1
count_asleep (t ∷ ts) = count_asleep ts

abbrev pub notify_nth : List Thread → ℕ → List Thread
notify_nth [] n = []
notify_nth (asleep ∷ ts) zero = notified ∷ ts
notify_nth (asleep ∷ ts) (suc n) = asleep ∷ notify_nth ts n
notify_nth (t ∷ ts) n = t ∷ notify_nth ts n

unfoldable pub notify_one : ℕ → List Thread → List Thread
notify_one choice ts = notify_nth ts (choice % count_asleep ts)

-- notify_all
abbrev pub notify : Thread → Thread
notify asleep = notified
notify t = t

abbrev pub notify_all : List Thread → List Thread
notify_all [] = []
notify_all (t ∷ ts) = notify t ∷ notify_all ts

abbrev pub grow : Pool → List Thread
grow p =
    if p.waiting == 0 && ltb (length p.threads) p.nthreads
    then p.threads ++ testing ∷ []
    else p.threads

-- `choice` is that of notify_one.
unfoldable pub put : ℕ → ℕ → Pool → Pool
unfolding notify_one
put task choice p = record p { queue = p.queue ++ task ∷ []; threads = notify_one choice (grow p) }

-- The part of stop that holds the lock.
unfoldable pub stop : Pool → Pool
stop p = record p { running = false; threads = notify_all p.threads }

-- The counters have 8 bits.
abbrev pub fall_asleep : Pool → Pool
fall_asleep p = record p { waiting = (p.waiting + 1) % 256; working = (p.working + 255) % 256 }

abbrev pub wake_up : Pool → Pool
wake_up p = record p { waiting = (p.waiting + 255) % 256; working = (p.working + 1) % 256 }

-- With an empty queue: the flag decides between NULL and the wait.
abbrev pub wait_or_leave : Bool → Pool → Thread × Pool
wait_or_leave true p = (asleep, fall_asleep p)
wait_or_leave false p = (testing, p)

-- From the test of the loop in _take on, with the queue apart: how far the thread comes.
abbrev pub take_from : List ℕ → Pool → Thread × Pool
take_from [] p = wait_or_leave p.running p
take_from (task ∷ queue) p =
    (executing task, record p { queue = queue; taken = p.taken ++ task ∷ [] })

-- Behind the wait: the flag is tested again before the queue.
abbrev pub wake : Bool → Pool → Thread × Pool
wake true p = take_from p.queue (wake_up p)
wake false p = (testing, wake_up p)

-- One step of a thread. One that waits goes on only when it has been notified.
unfoldable pub advance : Thread → Pool → Thread × Pool
advance testing p = (if p.running then taking else finished, p)
advance taking p = take_from p.queue p
advance asleep p = (asleep, p)
advance notified p = wake p.running p
advance (executing task) p = (testing, p)
advance finished p = (finished, p)

-- The thread behind `done` in the list takes a step.
unfoldable pub step_thread : ℕ → List Thread → List Thread → Pool → Pool
unfolding advance
step_thread i done [] p = p
step_thread zero done (t ∷ ts) p =
    let r = advance t p in record (r.1) { threads = done ++ r.0 ∷ ts }
step_thread (suc i) done (t ∷ ts) p = step_thread i (done ++ t ∷ []) ts p

-- A wait may also end without a notification: that of the thread at a place of the list.
abbrev pub notify_at : ℕ → List Thread → List Thread
notify_at i [] = []
notify_at zero (t ∷ ts) = notify t ∷ ts
notify_at (suc i) (t ∷ ts) = t ∷ notify_at i ts

-- What happens next: a call of put or stop, the end of a wait, or a step of a thread.
pub data Move : Type 0 where
  putting : ℕ → ℕ → Move
  rousing : ℕ → Move
  stopping : Move
  stepping : ℕ → Move

unfoldable pub step : Move → Pool → Pool
unfolding put stop step_thread
step (putting task choice) p = put task choice p
step (rousing i) p = record p { threads = notify_at i p.threads }
step stopping p = stop p
step (stepping i) p = step_thread i [] p.threads p

unfoldable pub run : List Move → Pool → Pool
unfolding step
run [] p = p
run (m ∷ ms) p = run ms (step m p)
