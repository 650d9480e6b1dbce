-- ===== src/Sched/Tests.antt =====
-- A store with four threads, and the theorems of the scheduler at it.
use m.Prelude.{
  ℕ, ◌+◌, ◌%◌, ◌≤◌, ◌≡◌, ◌≢◌, ◌↔◌, refl, true, none, some, List, [], ◌∷◌, arith, ◌==◌,
  if◌then◌else◌,
}
use m.Sched.Types.{
  thread_magic, ThreadState, new, ready, running, blocked, ok, ecorrupt, Thread, Threads, Scheduler,
  System, zero_context, is_state, write,
}
use m.Sched.Ops.{mcsos_sched_enqueue}
use m.Sched.Switch.{mcsos_sched_yield}
use m.Sched.Check.{mcsos_sched_ready_count, mcsos_sched_validate, ready_count, validate}
use m.Sched.Prepare.{Setup, Request, mcsos_thread_prepare, thread_prepare_stack}
use m.Sched.Invariant.{IsSched}
use m.Sched.Invariant.Yield.{Yielded, yield-Yielded}
use m.Sched.Invariant.Block.{scheduler_init-IsSched}
use m.Sched.Invariant.Accepts.{IsValidated, validate_total, validate_iff}
use m.Sched.Invariant.Requeue.{enqueue-enqueue_loops}
use m.Sched.Reach.{Reachable, booted, validate-Reachable}
use m.Sched.Turn.{Run, next, stop, queued-Run}
use m.Sched.Reach.{yielded}

abbrev thread : ThreadState → Thread
thread state = record {
  magic = thread_magic;
  id = 1;
  name = 0;
  state = state;
  context = zero_context;
  entry = 0x1000;
  arg = 0;
  stack_base = 0x8000;
  stack_size = 4096;
  next = 0;
  switches = 0;
  ticks = 0;
  exit_code = 0;
}

-- 16 is the boot thread, 32 runs, 48 is ready, 64 is new and 80 is blocked.
abbrev threads : Threads
threads p =
    if p == 16
    then thread ready
    else if p == 32
    then thread running
    else if p == 48
    then thread ready
    else if p == 64
    then thread new
    else thread blocked

abbrev machine : System
machine = record {
  sched = record {
    current = 32;
    idle = 16;
    ready_head = 48;
    ready_tail = 48;
    next_id = 5;
    runnable_count = 1;
    context_switches = 0;
    ticks = 0;
    initialized = true;
  };
  threads = threads;
  cpu = zero_context;
}

machine-IsSched : IsSched machine (48 ∷ [])
machine-IsSched = record {
  queue = record {
    started = refl;
    chain = (refl, record { non_null = omega arith; magic = refl; state = refl }, refl);
    distinct = (tt, tt);
    tail = refl;
    count = refl;
    small = omega arith;
    idle = record { non_null = omega arith; magic = refl };
    idle_out = (omega arith, tt);
  };
  current = record { non_null = omega arith; magic = refl };
  current_out = (omega arith, tt);
}

count_one : mcsos_sched_ready_count 3 (some machine) ≡ some 1
unfolding mcsos_sched_ready_count ready_count m.Sched.Check.count_from
count_one = refl

accepted : mcsos_sched_validate 3 (some machine) ≡ some ok
unfolding mcsos_sched_validate validate m.Sched.Check.validate_from
    m.Sched.Types.valid_thread_object
accepted = refl

yield-Yielded_example :
    (s' : System) × (mcsos_sched_yield 0x2000 (some machine) ≡ (ok, some s'))
    × Yielded 0x2000 machine (48 ∷ []) s'
yield-Yielded_example = yield-Yielded 0x2000 machine (48 ∷ []) machine-IsSched

validate_total_example : mcsos_sched_validate 3 (some machine) ≢ none
validate_total_example = validate_total machine 3 (omega arith) (omega arith)

validate_iff_example :
    (mcsos_sched_validate 3 (some machine) ≡ some ok) ↔ ((xs : List ℕ) × IsValidated machine xs)
validate_iff_example = validate_iff machine 3 (omega arith) (omega arith)

enqueue-enqueue_loops_example :
    (s' : System) × (mcsos_sched_enqueue 48 (some machine) ≡ (ok, some s'))
    × ((fuel : ℕ) → mcsos_sched_ready_count fuel (some s') ≡ none)
enqueue-enqueue_loops_example = enqueue-enqueue_loops machine 48 machine-IsSched

abbrev boot_result : System
boot_result = (scheduler_init-IsSched 7 16 machine (omega arith)).0

boot-Reachable : Reachable boot_result
boot-Reachable =
    booted machine 7 16 (omega arith) (scheduler_init-IsSched 7 16 machine (omega arith)).1

validate-Reachable_example : mcsos_sched_validate 2 (some boot_result) ≡ some ok
validate-Reachable_example =
    let counted = (scheduler_init-IsSched 7 16 machine (omega arith)).2.queue.count in
    validate-Reachable boot_result 2 boot-Reachable (omega (arith, counted))
      (omega (arith, counted))

-- one yield of the running thread
abbrev after_yield : System
after_yield = (yield-Yielded 0x2000 machine (48 ∷ []) machine-IsSched).0

abbrev one_yield : Run after_yield machine
one_yield =
    next after_yield (yielded 0x2000 (yield-Yielded 0x2000 machine (48 ∷ []) machine-IsSched).1)
      stop

queued-Run_example : after_yield.sched.current ≡ 48
queued-Run_example = queued-Run after_yield machine [] 48 [] one_yield machine-IsSched refl

abbrev request : Request
request = record {
  name = 0;
  entry = 0x1000;
  arg = 0;
  stack_base = 0x8008;
  stack_size = 4096;
  id = 1;
}

abbrev setup : Setup
setup = record { threads = threads; words = λ a. a }

thread_prepare_stack_example :
    let (rc, s') = mcsos_thread_prepare 0x3000 64 request setup in
    let rsp = (s'.threads 64).context.rsp in
    (rc ≡ ok)
    × (rsp % 16 ≡ 8)
    × (0x8008 + 120 ≤ rsp)
    × (rsp + 8 ≤ 0x8008 + 4096)
    × (s'.words rsp ≡ 0)
    × ((a : ℕ) → a ≢ rsp → s'.words a ≡ a)
    × ((p : ℕ) → p ≢ 64 → s'.threads p ≡ threads p)
thread_prepare_stack_example =
    thread_prepare_stack 0x3000 64 request setup (omega arith) (omega arith) (omega arith)
      (omega arith) (omega arith)
