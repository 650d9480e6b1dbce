-- ===== src/Sched/Invariant.antt =====
-- The scheduler's queue as a list, and the invariant that each operation keeps.
pub mod Enqueue
pub mod Switched
pub mod Yield
pub mod Block
pub mod Validate
pub mod Accepts
pub mod Requeue
use m.Prelude.{ℕ, ◌^◌, ◌<◌, ◌≡◌, ◌≢◌, true, List, [], ◌∷◌, length}
use m.Sched.Types.{thread_magic, ThreadState, running, Thread, Threads, System}
use m.Sched.Chain.{Chain, Distinct, NotIn, last_or}

-- the running thread and the idle thread
pub record IsThread (p : ℕ) (t : Thread) : Type 0 where
  pub non_null : p ≢ 0
  pub magic : t.magic ≡ thread_magic

-- The queue holds the distinct ready threads `xs`, the tail and the count agree with it, and the idle
-- thread is not in it.
pub record IsQueue (s : System) (xs : List ℕ) : Type 0 where
  pub started : s.sched.initialized ≡ true
  pub chain : Chain s.threads s.sched.ready_head xs
  pub distinct : Distinct xs
  pub tail : s.sched.ready_tail ≡ last_or 0 xs
  pub count : s.sched.runnable_count ≡ length xs
  pub small : length xs < 2 ^ 64
  pub idle : IsThread s.sched.idle (s.threads s.sched.idle)
  pub idle_out : NotIn s.sched.idle xs

-- Then the current thread is a thread outside the queue.
pub record IsSched (s : System) (xs : List ℕ) : Type 0 where
  pub queue : IsQueue s xs
  pub current : IsThread s.sched.current (s.threads s.sched.current)
  pub current_out : NotIn s.sched.current xs
