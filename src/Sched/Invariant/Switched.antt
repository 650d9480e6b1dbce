-- ===== src/Sched/Invariant/Switched.antt =====
-- What the switch to another thread leaves, with the running thread queued before it or not.
use m.Prelude.{
  true≢false, ℕ, ◌+◌, ◌^◌, ◌<◌, ◌≡◌, ◌≢◌, refl, sym, ◌∙◌, ap, Bool, true, false, not, ◌&&◌, List,
  [], ◌∷◌, ◌++◌, arith, ◌==◌, if◌then◌else◌, inl, inr, Bool-cases, length,
}
use m.Sched.Types.{
  ThreadState, ready, running, ok, Thread, Context, Scheduler, System, write, is_state,
}
use m.Sched.Ops.{queueable, append_ready, enqueue}
use m.Sched.Switch.{
  mcsos_context_switch, set_state, count_switch, switch_to, after_requeue, yield_to,
}
use m.Sched.Chain.{
  NotIn, NotIn-append, write_self, write_ne, write_keeps, Chain-write_out, Chain-write_same,
}
use m.Sched.Invariant.{IsThread, IsQueue}
use m.Sched.Invariant.Enqueue.{
  IsThread-write, append_ready-IsThread, append_ready-IsQueue, enqueue-append, same_idle,
}

-- A write to a thread outside the queue that keeps its magic.
IsQueue-write_out :
    (s : System) (zs : List ℕ) (q : ℕ) (v : Thread)
    → IsQueue s zs
    → NotIn q zs
    → v.magic ≡ (s.threads q).magic
    → IsQueue (record s { threads = write s.threads q v }) zs
IsQueue-write_out s zs q v i out hm = record {
  started = i.started;
  chain = Chain-write_out s.threads q v s.sched.ready_head zs out i.chain;
  distinct = i.distinct;
  tail = i.tail;
  count = i.count;
  small = i.small;
  idle = IsThread-write s.threads q s.sched.idle v hm i.idle;
  idle_out = i.idle_out;
}

-- A write that keeps what the queue reads.
IsQueue-write_same :
    (s : System) (zs : List ℕ) (q : ℕ) (v : Thread)
    → IsQueue s zs
    → v.magic ≡ (s.threads q).magic
    → v.state ≡ (s.threads q).state
    → v.next ≡ (s.threads q).next
    → IsQueue (record s { threads = write s.threads q v }) zs
IsQueue-write_same s zs q v i hm hs hn = record {
  started = i.started;
  chain = Chain-write_same s.threads q v s.sched.ready_head zs hm hs hn i.chain;
  distinct = i.distinct;
  tail = i.tail;
  count = i.count;
  small = i.small;
  idle = IsThread-write s.threads q s.sched.idle v hm i.idle;
  idle_out = i.idle_out;
}

-- The current thread, the count of switches and the registers are no part of the queue.
IsQueue-other :
    (s : System) (zs : List ℕ) (c n : ℕ) (r : Context)
    → IsQueue s zs
    → IsQueue
        (record s { sched = record (s.sched) { current = c; context_switches = n }; cpu = r })
        zs
IsQueue-other s zs c n r i = record {
  started = i.started;
  chain = i.chain;
  distinct = i.distinct;
  tail = i.tail;
  count = i.count;
  small = i.small;
  idle = i.idle;
  idle_out = i.idle_out;
}

abbrev pub state_of : Thread → ThreadState
state_of t = t.state

-- What the switch to `next` leaves: the queue `zs`, and each thread that was not running keeps its
-- state, but `next`.
pub record Switched (s s' : System) (next : ℕ) (zs : List ℕ) : Type 0 where
  pub queue : IsQueue s' zs
  pub current : s'.sched.current ≡ next
  pub running_next : (s'.threads next).state ≡ running
  pub idle_kept : s'.sched.idle ≡ s.sched.idle
  pub magic_kept : (p : ℕ) → IsThread p (s.threads p) → IsThread p (s'.threads p)
  pub state_kept :
      (p : ℕ)
      → p ≢ next
      → is_state (s.threads p).state running ≡ false
      → (s'.threads p).state ≡ (s.threads p).state

switch_to-Switched :
    (resume old next : ℕ) (s : System) (zs : List ℕ)
    → IsQueue s zs
    → NotIn next zs
    → Switched s (switch_to resume old next s) next zs
unfolding switch_to set_state count_switch mcsos_context_switch
switch_to-Switched resume old next s zs i out = record {
  queue = IsQueue-other _ zs next _ _ (
      IsQueue-write_same _ zs old _
        (IsQueue-write_same _ zs next _
          (IsQueue-write_same _ zs old _ (IsQueue-write_out s zs next _ i out refl) refl refl refl)
          refl refl refl)
        refl refl refl);
  current = refl;
  running_next =
      write_keeps state_of _ old next _ refl
      ∙ write_keeps state_of _ next next _ refl
      ∙ write_keeps state_of _ old next _ refl
      ∙ ap state_of (write_self s.threads next _);
  idle_kept = refl;
  magic_kept = λ p h. IsThread-write _ old p _ refl (
      IsThread-write _ next p _ refl
        (IsThread-write _ old p _ refl (IsThread-write s.threads next p _ refl h)));
  state_kept = λ p ne still.
      write_keeps state_of _ old p _ refl
      ∙ write_keeps state_of _ next p _ refl
      ∙ write_keeps state_of _ old p _ refl
      ∙ ap state_of (write_ne s.threads next p _ ne);
}

-- What setting the state of a thread outside the queue leaves.
pub record Set (s s' : System) (q : ℕ) (st : ThreadState) (zs : List ℕ) : Type 0 where
  pub queue : IsQueue s' zs
  pub state : (s'.threads q).state ≡ st
  pub sched_kept : s'.sched ≡ s.sched
  pub magic_kept : (p : ℕ) → IsThread p (s.threads p) → IsThread p (s'.threads p)
  pub state_kept : (p : ℕ) → p ≢ q → (s'.threads p).state ≡ (s.threads p).state

pub set_state-Set :
    (q : ℕ) (st : ThreadState) (s : System) (zs : List ℕ)
    → IsQueue s zs
    → NotIn q zs
    → Set s (set_state q st s) q st zs
unfolding set_state
set_state-Set q st s zs i out = record {
  queue = IsQueue-write_out s zs q _ i out refl;
  state = ap state_of (write_self s.threads q _);
  sched_kept = refl;
  magic_kept = λ p h. IsThread-write s.threads q p _ refl h;
  state_kept = λ p ne. ap state_of (write_ne s.threads q p _ ne);
}

append_ready-state :
    (s : System) (q p : ℕ) → p ≢ q → ((append_ready q s).threads p).state ≡ (s.threads p).state
unfolding append_ready
append_ready-state s q p ne = elim (Bool-cases (s.sched.ready_tail == 0)) [
  | inl e ↦ rw e (ap state_of (write_ne s.threads q p _ ne))
  | inr e ↦ rw e (
      write_keeps state_of _ s.sched.ready_tail p _ refl
      ∙ ap state_of (write_ne s.threads q p _ ne))
]

-- The running thread goes to the end of the queue before the switch.
requeue-Switched :
    (resume old next : ℕ) (s : System) (zs : List ℕ)
    → IsQueue s zs
    → IsThread old (s.threads old)
    → NotIn old zs
    → NotIn next zs
    → next ≢ old
    → s.sched.idle ≢ old
    → length zs + 1 < 2 ^ 64
    → is_state (s.threads old).state running ≡ true
    → let t = set_state old ready s in
      (enqueue old t ≡ (ok, append_ready old t))
      × Switched s (switch_to resume old next (append_ready old t)) next (zs ++ (old ∷ []))
requeue-Switched resume old next s zs i v out_old out_next ne ne_idle room was =
    let t = set_state old ready s in
    let set = set_state-Set old ready s zs i out_old in
    let idle_t : t.sched.idle ≡ s.sched.idle = ap (λ (k : Scheduler). k.idle) set.sched_kept in
    let queued =
      append_ready-IsQueue t old zs set.queue (set.magic_kept old v) out_old
        (λ e. ne_idle (sym idle_t ∙ e)) room in
    let after =
      switch_to-Switched resume old next (append_ready old t) (zs ++ (old ∷ [])) queued
        (NotIn-append next old zs out_next ne) in
    (
      enqueue-append t old set.queue (set.magic_kept old v) (ap queueable set.state),
      record {
        queue = after.queue;
        current = after.current;
        running_next = after.running_next;
        idle_kept = after.idle_kept ∙ same_idle t old ∙ idle_t;
        magic_kept = λ p h. after.magic_kept p (append_ready-IsThread t old p (set.magic_kept p h));
        state_kept = λ p ne_next still.
            let ne_old : p ≢ old = λ e.
              true≢false
                (sym was ∙ ap (λ k. is_state (s.threads k).state running) (sym e) ∙ still) in
            let kept_t = set.state_kept p ne_old in
            let kept = append_ready-state t old p ne_old ∙ kept_t in
            after.state_kept p ne_next (ap (λ k. is_state k running) kept ∙ still) ∙ kept;
      },
    )

-- the queue after `old` has made room for another thread
abbrev pub queue_after : Bool → List ℕ → ℕ → List ℕ
queue_after again zs old = if again then zs ++ (old ∷ []) else zs

module _ (resume old next : ℕ) (s : System) (zs : List ℕ) where
  -- From a queue without both threads the switch to another thread succeeds.
  pub yield_to-Switched :
      IsQueue s zs
      → IsThread old (s.threads old)
      → NotIn old zs
      → NotIn next zs
      → next ≢ old
      → length zs + 1 < 2 ^ 64
      → (s' : System) × (yield_to resume old next s ≡ (ok, s'))
        × Switched s s' next (
            queue_after
              (is_state (s.threads old).state running && not (old == s.sched.idle))
              zs
              old)
  unfolding yield_to after_requeue
  yield_to-Switched i v out_old out_next ne room =
      let other : (next == old) ≡ false = ground arith in
      elim (Bool-cases (is_state (s.threads old).state running && not (old == s.sched.idle))) [
        | inr stays ↦
            rw (other, stays)
              (
                switch_to resume old next s,
                refl,
                switch_to-Switched resume old next s zs i out_next,
              )
        | inl again ↦
            let q =
              requeue-Switched resume old next s zs i v out_old out_next ne (ground arith) room
                (ground arith) in
            rw (other, again)
              (
                switch_to resume old next (append_ready old (set_state old ready s)),
                ap (after_requeue resume old next) q.0,
                q.1,
              )
      ]
