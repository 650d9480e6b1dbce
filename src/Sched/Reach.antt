-- ===== src/Sched/Reach.antt =====
-- Runs of the scheduler: the calls that a kernel makes when it queues new threads only, wakes blocked
-- ones, ticks, yields and blocks, in any order.
use m.Prelude.{
  ℕ, ◌+◌, ◌^◌, ◌<◌, ◌≤◌, ◌≡◌, ◌≢◌, sym, ◌∙◌, ap, subst, Option, none, some, List, [], ◌∷◌, ◌++◌,
  arith,
}
use m.Sched.Types.{new, ready, blocked, ok, SchedResult, System, is_state}
use m.Sched.Ops.{queueable, mcsos_scheduler_init, mcsos_sched_enqueue}
use m.Sched.Switch.{mcsos_sched_yield, mcsos_sched_tick, mcsos_thread_block_current, mark_ready}
use m.Sched.Check.{mcsos_sched_validate}
use m.Sched.Invariant.{IsThread, IsSched}
use m.Sched.Invariant.Enqueue.{enqueue-IsSched}
use m.Sched.Invariant.Yield.{requeues, rest, yield-Yielded}
use m.Sched.Invariant.Switched.{queue_after}
use m.Sched.Invariant.Block.{
  Chain-NotIn, scheduler_init-IsSched, block_current-Blocked, mark_ready-IsSched, tick-IsSched,
}
use m.Sched.Invariant.Accepts.{validate-ready_count}

-- what a caller gives `mcsos_sched_enqueue` and `mcsos_thread_mark_ready`: a thread that neither runs nor
-- is the idle one, while the count has room
pub record IsSpare (s : System) (q : ℕ) : Type 0 where
  pub valid : IsThread q (s.threads q)
  pub not_current : s.sched.current ≢ q
  pub not_idle : s.sched.idle ≢ q
  pub room : s.sched.runnable_count + 1 < 2 ^ 64

-- One call that reports success. A yield and a block take the address where the caller goes on.
pub data Step (s s' : System) : Type 0 where
  enqueued :
      (q : ℕ)
      → IsSpare s q
      → (s.threads q).state ≡ new
      → mcsos_sched_enqueue q (some s) ≡ (ok, some s')
      → Step s s'
  woken :
      (q : ℕ) → IsSpare s q → (s.threads q).state ≡ blocked → mark_ready q s ≡ (ok, s') → Step s s'
  yielded : (resume : ℕ) → mcsos_sched_yield resume (some s) ≡ (ok, some s') → Step s s'
  ticked : mcsos_sched_tick (some s) ≡ (ok, some s') → Step s s'
  halted :
      (resume : ℕ)
      → s.sched.current ≢ s.sched.idle
      → mcsos_thread_block_current resume (some s) ≡ (ok, some s')
      → Step s s'

-- a store that a run from the start of the scheduler reaches
pub data Reachable : System → Type 0 where
  booted :
      {s' : System} (s : System) (boot_name boot : ℕ)
      → 0 < boot
      → mcsos_scheduler_init boot_name boot (some s) ≡ (ok, some s')
      → Reachable s'
  stepped : {s' : System} (s : System) → Reachable s → Step s s' → Reachable s'

abbrev system_or : System → SchedResult × Option System → System
system_or d (rc, some t) = t
system_or d (rc, none) = d

-- two runs of one call end in one store
pub one_result :
    {r : SchedResult × Option System} {s t : System} → r ≡ (ok, some s) → r ≡ (ok, some t) → s ≡ t
one_result {s = s} hs ht = ap (system_or s) (sym hs ∙ ht)

Step-IsSched :
    (s s' : System) (xs : List ℕ) → IsSched s xs → Step s s' → (ys : List ℕ) × IsSched s' ys
Step-IsSched s s' xs i (enqueued q spare fresh done) =
    let (t, run, after, _) =
      enqueue-IsSched s q xs i spare.valid (ap queueable fresh)
        (Chain-NotIn s.threads q s.sched.ready_head xs (ap (λ k. is_state k ready) fresh)
          i.queue.chain)
        spare.not_current spare.not_idle (omega (arith, spare.room, i.queue.count)) in
    (_, subst (λ k. IsSched k (xs ++ (q ∷ []))) (one_result run done) after)
Step-IsSched s s' xs i (woken q spare asleep done) =
    let (t, run, _, after, _) =
      mark_ready-IsSched s q xs i spare.valid asleep spare.not_current spare.not_idle
        (omega (arith, spare.room, i.queue.count)) in
    (
      _,
      subst (λ k. IsSched k (xs ++ (q ∷ [])))
          (ap (λ (r : SchedResult × System). r.1) (sym run ∙ done)) after,
    )
Step-IsSched s s' xs i (yielded resume done) =
    let (t, run, after) = yield-Yielded resume s xs i in
    (
      queue_after (requeues s) (rest xs) s.sched.current,
      subst (λ k. IsSched k (queue_after (requeues s) (rest xs) s.sched.current))
          (one_result run done) after.sched,
    )
Step-IsSched s s' xs i (ticked done) =
    let (t, run, after, _, _, _) = tick-IsSched s xs i in
    (_, subst (λ k. IsSched k xs) (one_result run done) after)
Step-IsSched s s' xs i (halted resume busy done) =
    let (t, run, after) = block_current-Blocked resume s xs i busy in
    (rest xs, subst (λ k. IsSched k (rest xs)) (one_result run done) after.sched)

Reachable-IsSched : (s : System) → Reachable s → (xs : List ℕ) × IsSched s xs
Reachable-IsSched s (booted s₀ boot_name boot given done) =
    let (t, run, after, _, _, _) = scheduler_init-IsSched boot_name boot s₀ given in
    ([], subst (λ k. IsSched k []) (one_result run done) after)
Reachable-IsSched s (stepped s₀ before step) =
    let (xs, i) = Reachable-IsSched s₀ before in Step-IsSched s₀ s xs i step

-- In every store that a run reaches, validation accepts the scheduler with fuel for two turns more
-- than its count, as long as the count is below 2 ^ 64 - 2.
pub validate-Reachable :
    (s : System) (fuel : ℕ)
    → Reachable s
    → s.sched.runnable_count + 2 < 2 ^ 64
    → s.sched.runnable_count + 2 ≤ fuel
    → mcsos_sched_validate fuel (some s) ≡ some ok
validate-Reachable s fuel r small enough =
    let (xs, i) = Reachable-IsSched s r in
    (validate-ready_count s xs fuel i (omega (arith, i.queue.count))
      (omega (arith, i.queue.count))).0
