-- ===== src/Sched/Switch.antt =====
-- Yielding, ticking, blocking and waking, kernel/sched/mcsos_thread.c, with the register switch of
-- kernel/arch/x86_64/context_switch.S.
use m.Prelude.{ℕ, not, ◌&&◌, ◌||◌, Option, ◌==◌, if◌then◌else◌}
use m.Word.{add64}
use m.Sched.Types.{
  ThreadState, ready, running, blocked, SchedResult, ok, einval, estate, ecorrupt, System, write,
  is_state, valid_thread_object,
}
use m.Sched.Ops.{on_sched, enqueue, pick_next}

-- kernel/arch/x86_64/context_switch.S: the registers go to `old` with the address behind the jump,
-- `resume`, and those of `next` come in.
unfoldable pub mcsos_context_switch : ℕ → ℕ → ℕ → System → System
mcsos_context_switch resume old next s =
    let saved =
      write s.threads old (record (s.threads old) { context = record (s.cpu) { rip = resume } }) in
    record s { threads = saved; cpu = (saved next).context }

-- thread->state = state
unfoldable pub set_state : ℕ → ThreadState → System → System
set_state thread state s = record s {
  threads = write s.threads thread (record (s.threads thread) { state = state });
}

-- thread->switches++
unfoldable pub count_switch : ℕ → System → System
count_switch thread s = record s {
  threads =
      write s.threads thread
        (record (s.threads thread) { switches = add64 (s.threads thread).switches 1 });
}

-- the end of `mcsos_sched_yield`
unfoldable pub switch_to : ℕ → ℕ → ℕ → System → System
switch_to resume old next s =
    let s₁ = set_state next running s in
    let s₂ = record s₁ { sched = record (s₁.sched) { current = next } } in
    let s₃ = count_switch next (count_switch old s₂) in
    mcsos_context_switch resume old next (record s₃ {
      sched = record (s₃.sched) { context_switches = add64 s₃.sched.context_switches 1 };
    })

-- if (rc != MCSOS_SCHED_OK) return rc, and the switch otherwise
unfoldable pub after_requeue : ℕ → ℕ → ℕ → SchedResult × System → SchedResult × System
after_requeue resume old next (ok, s) = (ok, switch_to resume old next s)
after_requeue resume old next (rc, s) = (rc, s)

-- `mcsos_sched_yield` from where the next thread is known to be valid
unfoldable pub yield_to : ℕ → ℕ → ℕ → System → SchedResult × System
yield_to resume old next s =
    if next == old
    then (ok, set_state old running s)
    else if is_state (s.threads old).state running && not (old == s.sched.idle)
    then after_requeue resume old next (enqueue old (set_state old ready s))
    else (ok, switch_to resume old next s)

-- the test of the thread that `mcsos_sched_pick_next` returned, and what follows
unfoldable pub run_picked : ℕ → ℕ → ℕ × System → SchedResult × System
run_picked resume old (next, s) =
    if not (valid_thread_object s.threads next) then (ecorrupt, s) else yield_to resume old next s

-- In the host test build there is no context switch; this is the kernel's.
unfoldable pub yield : ℕ → System → SchedResult × System
yield resume s =
    if not s.sched.initialized || not (valid_thread_object s.threads s.sched.current)
    then (einval, s)
    else run_picked resume s.sched.current (pick_next s)

unfoldable pub mcsos_sched_yield : ℕ → Option System → SchedResult × Option System
mcsos_sched_yield resume = on_sched (yield resume)

unfoldable pub tick : System → SchedResult × System
tick s =
    if not s.sched.initialized || not (valid_thread_object s.threads s.sched.current)
    then (einval, s)
    else let current = s.sched.current in
      (
        ok,
        record s {
          sched = record (s.sched) { ticks = add64 s.sched.ticks 1 };
          threads =
              write s.threads current
                (record (s.threads current) { ticks = add64 (s.threads current).ticks 1 });
        },
      )

unfoldable pub mcsos_sched_tick : Option System → SchedResult × Option System
mcsos_sched_tick = on_sched tick

unfoldable pub block_current : ℕ → System → SchedResult × System
block_current resume s =
    if not s.sched.initialized || not (valid_thread_object s.threads s.sched.current)
    then (einval, s)
    else if s.sched.current == s.sched.idle
    then (estate, s)
    else yield resume (set_state s.sched.current blocked s)

unfoldable pub mcsos_thread_block_current : ℕ → Option System → SchedResult × Option System
mcsos_thread_block_current resume = on_sched (block_current resume)

-- The scheduler pointer is checked by `mcsos_sched_enqueue`, the thread before it.
unfoldable pub mark_ready : ℕ → System → SchedResult × System
mark_ready thread s =
    if not (valid_thread_object s.threads thread)
    then (einval, s)
    else if not (is_state (s.threads thread).state blocked)
    then (estate, s)
    else enqueue thread s
