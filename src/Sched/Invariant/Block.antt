-- ===== src/Sched/Invariant/Block.antt =====
-- The start of the scheduler, ticks, blocking the current thread and waking a blocked one.
use m.Prelude.{
  true≢false, ℕ, ◌+◌, ◌^◌, ◌<◌, ◌≡◌, ◌≢◌, refl, sym, ◌∙◌, ap, subst, false, Option, some, List, [],
  ◌∷◌, ◌++◌, arith, ◌==◌, length,
}
use m.Word.{add64}
use m.Sched.Types.{
  thread_magic, ready, running, blocked, ok, SchedResult, Thread, Threads, Scheduler, System,
  is_state, write,
}
use m.Sched.Ops.{queueable, enqueue, mcsos_sched_enqueue, mcsos_scheduler_init, scheduler_init}
use m.Sched.Switch.{
  set_state, block_current, mcsos_thread_block_current, mark_ready, tick, mcsos_sched_tick,
}
use m.Sched.Chain.{Chain, Chain-write_same, NotIn, write_self}
use m.Sched.Invariant.{IsThread, IsSched}
use m.Sched.Invariant.Enqueue.{IsThread-write, valid-true, guard_passes, enqueue-IsSched}
use m.Sched.Invariant.Switched.{set_state-Set, queue_after, state_of}
use m.Sched.Invariant.Yield.{requeues, head_or, rest, yield-Yielded}

write-IsThread :
    (t : Threads) (p : ℕ) (v : Thread) → 0 < p → v.magic ≡ thread_magic → IsThread p (write t p v p)
write-IsThread t p v h hm = record {
  non_null = omega arith;
  magic = ap (λ (k : Thread). k.magic) (write_self t p v) ∙ hm;
}

-- Starting the scheduler with a boot thread that is not null succeeds whatever the store held, and
-- establishes the invariant with an empty queue and the boot thread current, idle and running.
pub scheduler_init-IsSched :
    (boot_name boot : ℕ) (s : System)
    → 0 < boot
    → (s' : System) × (mcsos_scheduler_init boot_name boot (some s) ≡ (ok, some s'))
      × IsSched s' []
      × (s'.sched.current ≡ boot)
      × (s'.sched.idle ≡ boot)
      × ((s'.threads boot).state ≡ running)
unfolding mcsos_scheduler_init scheduler_init
scheduler_init-IsSched boot_name boot s h =
    let given : (boot == 0) ≡ false = ground arith in
    rw given (
      _,
      refl,
      record {
        queue = record {
          started = refl;
          chain = refl;
          distinct = tt;
          tail = refl;
          count = refl;
          small = omega arith;
          idle = write-IsThread s.threads boot _ h refl;
          idle_out = tt;
        };
        current = write-IsThread s.threads boot _ h refl;
        current_out = tt;
      },
      refl,
      refl,
      ap state_of (write_self s.threads boot _),
    )

set_blocked :
    (s : System) (xs : List ℕ)
    → IsSched s xs
    → let t = set_state s.sched.current blocked s in
      IsSched t xs
      × (requeues t ≡ false)
      × ((t.threads s.sched.current).state ≡ blocked)
      × (t.sched ≡ s.sched)
unfolding requeues
set_blocked s xs i =
    let q = s.sched.current in
    let set = set_state-Set q blocked s xs i.queue i.current_out in
    let t = set_state q blocked s in
    let same : t.sched.current ≡ q = ap (λ (k : Scheduler). k.current) set.sched_kept in
    (
      record {
        queue = set.queue;
        current = subst (λ c. IsThread c (t.threads c)) (sym same) (set.magic_kept q i.current);
        current_out = subst (λ c. NotIn c xs) (sym same) i.current_out;
      },
      (rw (same, set.state)),
      set.state,
      set.sched_kept,
    )

-- What blocking the current thread makes of the scheduler.
pub record Blocked (s : System) (xs : List ℕ) (s' : System) : Type 0 where
  pub sched : IsSched s' (rest xs)
  pub current : s'.sched.current ≡ head_or s.sched.idle xs
  pub running_now : (s'.threads s'.sched.current).state ≡ running
  pub idle_kept : s'.sched.idle ≡ s.sched.idle
  pub blocked_now : (s'.threads s.sched.current).state ≡ blocked

head_or-other :
    (s : System) (xs : List ℕ)
    → IsSched s xs
    → s.sched.current ≢ s.sched.idle
    → s.sched.current ≢ head_or s.sched.idle xs
head_or-other s [] i ne = ne
head_or-other s (x ∷ xs) i ne = i.current_out.0

-- Under the invariant a current thread other than the idle one blocks: it leaves the processor to the
-- head of the queue, or to the idle thread if there is none, is not queued again and stays blocked,
-- and the invariant is kept.
pub block_current-Blocked :
    (resume : ℕ) (s : System) (xs : List ℕ)
    → IsSched s xs
    → s.sched.current ≢ s.sched.idle
    → (s' : System) × (mcsos_thread_block_current resume (some s) ≡ (ok, some s')) × Blocked s xs s'
unfolding mcsos_thread_block_current block_current
block_current-Blocked resume s xs i ne =
    let q = s.sched.current in
    let t = set_state q blocked s in
    let (it, never, state, same) = set_blocked s xs i in
    let idle : t.sched.idle ≡ s.sched.idle = ap (λ (k : Scheduler). k.idle) same in
    let other : (q == s.sched.idle) ≡ false = ground arith in
    let (s', _, y) = yield-Yielded resume t xs it in
    let next : head_or t.sched.idle xs ≡ head_or s.sched.idle xs = ap (λ d. head_or d xs) idle in
    (
      s',
      rw (guard_passes s i.queue.started i.current, other)
          (ap (λ (r : SchedResult × System). (r.0, some r.1)) y.result),
      record {
        sched = subst (λ b. IsSched s' (queue_after b (rest xs) t.sched.current)) never y.sched;
        current = y.current ∙ next;
        running_now = y.running_now;
        idle_kept = y.idle_kept ∙ idle;
        blocked_now =
            y.state_kept q (λ e. head_or-other s xs i ne (e ∙ next))
              (ap (λ k. is_state k running) state)
            ∙ state;
      },
    )

pub Chain-NotIn :
    (t : Threads) (q p : ℕ) (xs : List ℕ)
    → is_state (t q).state ready ≡ false
    → Chain t p xs
    → NotIn q xs
Chain-NotIn t q p [] h c = tt
Chain-NotIn t q p (x ∷ xs) h c = (
  λ e. true≢false (sym (ap (λ k. is_state k ready) (ap (λ k. (t k).state) e ∙ c.1.state)) ∙ h),
  Chain-NotIn t q (t x).next xs h c.2,
)

abbrev result_or : System → Option System → System
result_or d (some t) = t
result_or d _ = d

enqueue-result :
    (s s' : System) (q : ℕ)
    → mcsos_sched_enqueue q (some s) ≡ (ok, some s')
    → enqueue q s ≡ (ok, s')
unfolding mcsos_sched_enqueue
enqueue-result s s' q done = ap (λ (r : SchedResult × Option System). (r.0, result_or s r.1)) done

-- Under the invariant and while the count has room, waking a blocked thread that is neither current
-- nor idle succeeds, puts it at the end of the queue, where it was not before, and keeps the invariant
-- and the current thread.
pub mark_ready-IsSched :
    (s : System) (q : ℕ) (xs : List ℕ)
    → IsSched s xs
    → IsThread q (s.threads q)
    → (s.threads q).state ≡ blocked
    → s.sched.current ≢ q
    → s.sched.idle ≢ q
    → length xs + 1 < 2 ^ 64
    → (s' : System) × (mark_ready q s ≡ (ok, s'))
      × NotIn q xs
      × IsSched s' (xs ++ (q ∷ []))
      × (s'.sched.current ≡ s.sched.current)
unfolding mark_ready
mark_ready-IsSched s q xs i v b ne_current ne_idle room =
    let out =
      Chain-NotIn s.threads q s.sched.ready_head xs (ap (λ k. is_state k ready) b) i.queue.chain in
    let (s', done, after, kept) =
      enqueue-IsSched s q xs i v (ap queueable b) out ne_current ne_idle room in
    (s', rw (valid-true s.threads q v, b) (enqueue-result s s' q done), out, after, kept)

-- Under the invariant a tick succeeds, counts for the scheduler and for the current thread, and leaves
-- the queue and the current thread.
pub tick-IsSched :
    (s : System) (xs : List ℕ)
    → IsSched s xs
    → (s' : System) × (mcsos_sched_tick (some s) ≡ (ok, some s'))
      × IsSched s' xs
      × (s'.sched.current ≡ s.sched.current)
      × (s'.sched.ticks ≡ add64 s.sched.ticks 1)
      × ((s'.threads s.sched.current).ticks ≡ add64 (s.threads s.sched.current).ticks 1)
unfolding mcsos_sched_tick tick
tick-IsSched s xs i =
    let q = s.sched.current in
    rw (guard_passes s i.queue.started i.current) (
      _,
      refl,
      record {
        queue = record {
          started = i.queue.started;
          chain = Chain-write_same s.threads q _ s.sched.ready_head xs refl refl refl i.queue.chain;
          distinct = i.queue.distinct;
          tail = i.queue.tail;
          count = i.queue.count;
          small = i.queue.small;
          idle = IsThread-write s.threads q s.sched.idle _ refl i.queue.idle;
          idle_out = i.queue.idle_out;
        };
        current = IsThread-write s.threads q q _ refl i.current;
        current_out = i.current_out;
      },
      refl,
      refl,
      ap (λ (k : Thread). k.ticks) (write_self s.threads q _),
    )
