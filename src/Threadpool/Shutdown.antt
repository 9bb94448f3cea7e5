-- ===== src/Threadpool/Shutdown.antt =====
-- What stop brings about.
use networking.Threadpool.{Thread, Pool, advance}

-- Where a thread stands after a step.
abbrev last_step : Thread → Pool → Thread
last_step t p = (advance t p).0

-- Three steps of a thread, with what the pool is at each of them.
abbrev pub three_steps : Thread → Pool → Pool → Pool → Thread
three_steps t p q r = (advance (advance (advance t p).0 q).0 r).0
