-- ===== src/Sched/Check.antt =====
-- Counting and validating the queue, kernel/sched/mcsos_thread.c. The counting loop has no bound of its
-- own: it takes fuel, and `none` means that the fuel ran out.
use m.Prelude.{ℕ, zero, suc, not, ◌||◌, Option, none, some, ltb, ◌==◌, if◌then◌else◌}
use m.Word.{add64}
use m.Sched.Types.{
  ready, SchedResult, ok, einval, ecorrupt, Scheduler, Threads, System, is_state,
  valid_thread_object,
}

unfoldable pub count_from : ℕ → Threads → ℕ → ℕ → Option ℕ
count_from zero threads cursor count = none
count_from (suc fuel) threads cursor count =
    let rest = count_from fuel threads (threads cursor).next (add64 count 1) in
    if cursor == 0 then some count else rest

unfoldable pub ready_count : ℕ → System → Option ℕ
ready_count fuel s =
    if not s.sched.initialized then some 0 else count_from fuel s.threads s.sched.ready_head 0

unfoldable pub mcsos_sched_ready_count : ℕ → Option System → Option ℕ
mcsos_sched_ready_count fuel none = some 0
mcsos_sched_ready_count fuel (some s) = ready_count fuel s

-- the tests behind the loop of `mcsos_sched_validate`
abbrev pub check_end : Scheduler → ℕ → ℕ → SchedResult
check_end sched last count =
    if not (last == sched.ready_tail)
    then ecorrupt
    else if not (count == sched.runnable_count)
    then ecorrupt
    else ok

-- the loop: `last` is the thread before `cursor`, and `none` means that the fuel ran out
unfoldable pub validate_from : ℕ → Scheduler → Threads → ℕ → ℕ → ℕ → Option SchedResult
validate_from zero sched threads cursor last count = none
validate_from (suc fuel) sched threads cursor last count =
    let rest = validate_from fuel sched threads (threads cursor).next cursor (add64 count 1) in
    if cursor == 0
    then some (check_end sched last count)
    else if not (valid_thread_object threads cursor) || not (is_state (threads cursor).state ready)
    then some ecorrupt
    else if cursor == sched.current
    then some ecorrupt
    else if ltb (add64 sched.runnable_count 1) (add64 count 1)
    then some ecorrupt
    else rest

unfoldable pub validate : ℕ → System → Option SchedResult
validate fuel s =
    if not s.sched.initialized || not (valid_thread_object s.threads s.sched.current)
    then some einval
    else validate_from fuel s.sched s.threads s.sched.ready_head 0 0

unfoldable pub mcsos_sched_validate : ℕ → Option System → Option SchedResult
mcsos_sched_validate fuel none = some einval
mcsos_sched_validate fuel (some s) = validate fuel s
