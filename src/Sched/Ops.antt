-- ===== src/Sched/Ops.antt =====
-- The start of the scheduler and its queue of ready threads, kernel/sched/mcsos_thread.c. The queue is
-- linked through the `next` fields. The functions named mcsos_… take `none` for a null scheduler; the
-- ones without the prefix are the code behind that check.
use m.Prelude.{ℕ, ◌-◌, Bool, true, not, ◌||◌, Option, none, some, ltb, ◌==◌, if◌then◌else◌}
use m.Word.{add64}
use m.Sched.Types.{
  thread_magic, ThreadState, new, ready, running, blocked, SchedResult, ok, einval, estate, System,
  write, is_state, valid_thread_object, zero_context,
}

abbrev pub on_sched : (System → SchedResult × System) → Option System → SchedResult × Option System
on_sched f none = (einval, none)
on_sched f (some s) = let (rc, s') = f s in (rc, some s')

-- `boot_name` is the address of the text "boot".
unfoldable pub scheduler_init : ℕ → ℕ → System → SchedResult × System
scheduler_init boot_name boot_thread s = if boot_thread == 0 then (einval, s) else (
  ok,
  record s {
    threads = write s.threads boot_thread (record {
      magic = thread_magic;
      id = 0;
      name = boot_name;
      state = running;
      context = zero_context;
      entry = 0;
      arg = 0;
      stack_base = 0;
      stack_size = 0;
      next = 0;
      switches = 0;
      ticks = 0;
      exit_code = 0;
    });
    sched = record {
      current = boot_thread;
      idle = boot_thread;
      ready_head = 0;
      ready_tail = 0;
      next_id = 1;
      runnable_count = 0;
      context_switches = 0;
      ticks = 0;
      initialized = true;
    };
  },
)

unfoldable pub mcsos_scheduler_init : ℕ → ℕ → Option System → SchedResult × Option System
mcsos_scheduler_init boot_name boot_thread = on_sched (scheduler_init boot_name boot_thread)

-- the two states that may not be queued
abbrev pub queueable : ThreadState → Bool
queueable state = is_state state new || is_state state ready || is_state state blocked

-- the code of `mcsos_sched_enqueue` behind its guards
unfoldable pub append_ready : ℕ → System → System
append_ready thread s =
    let marked = write s.threads thread (record (s.threads thread) { state = ready; next = 0 }) in
    let tail = s.sched.ready_tail in
    let count = add64 s.sched.runnable_count 1 in
    if tail == 0
    then record s {
      threads = marked;
      sched = record (s.sched) { ready_head = thread; ready_tail = thread; runnable_count = count };
    }
    else record s {
      threads = write marked tail (record (marked tail) { next = thread });
      sched = record (s.sched) { ready_tail = thread; runnable_count = count };
    }

unfoldable pub enqueue : ℕ → System → SchedResult × System
enqueue thread s =
    if not s.sched.initialized || not (valid_thread_object s.threads thread)
    then (einval, s)
    else if not (queueable (s.threads thread).state)
    then (estate, s)
    else (ok, append_ready thread s)

unfoldable pub mcsos_sched_enqueue : ℕ → Option System → SchedResult × Option System
mcsos_sched_enqueue thread = on_sched (enqueue thread)

-- the removal of the head `thread` of the queue
unfoldable pub remove_head : ℕ → System → System
remove_head thread s =
    let next = (s.threads thread).next in
    record s {
      threads = write s.threads thread (record (s.threads thread) { next = 0 });
      sched = record (s.sched) {
        ready_head = next;
        ready_tail = if next == 0 then 0 else s.sched.ready_tail;
        runnable_count =
            if ltb 0 s.sched.runnable_count
            then s.sched.runnable_count - 1
            else s.sched.runnable_count;
      };
    }

unfoldable pub pick_next : System → ℕ × System
pick_next s =
    if not s.sched.initialized
    then (0, s)
    else let thread = s.sched.ready_head in
      if thread == 0 then (s.sched.idle, s) else (thread, remove_head thread s)

unfoldable pub mcsos_sched_pick_next : Option System → ℕ × Option System
mcsos_sched_pick_next none = (0, none)
mcsos_sched_pick_next (some s) = let (thread, s') = pick_next s in (thread, some s')
