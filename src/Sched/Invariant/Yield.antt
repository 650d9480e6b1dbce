-- ===== src/Sched/Invariant/Yield.antt =====
-- `mcsos_sched_yield` runs the head of the queue, or the idle thread, and requeues the running thread.
use m.Prelude.{
  ℕ, ◌≡◌, ◌≢◌, refl, sym, ◌∙◌, ap, subst, Bool, true, false, not, ◌&&◌, some, List, [], ◌∷◌, arith,
  ◌==◌,
}
use native.Mathlib.Decide.{ℕ_discrete}
use m.Sched.Types.{running, ok, SchedResult, System, is_state}
use m.Sched.Ops.{remove_head, pick_next}
use m.Sched.Switch.{set_state, yield_to, run_picked, yield, mcsos_sched_yield}
use m.Sched.Chain.{NotIn, NotIn-append, write_ne, write_keeps}
use m.Sched.Invariant.{IsThread, IsSched}
use m.Sched.Invariant.Enqueue.{
  valid-true, remove_head-IsQueue, remove_head-IsThread, remove_head-idle, pick_next-cons,
  pick_next-nil,
}
use m.Sched.Invariant.Switched.{Switched, set_state-Set, state_of, queue_after, yield_to-Switched}

-- whether a yield queues the current thread again
unfoldable pub requeues : System → Bool
requeues s =
    is_state (s.threads s.sched.current).state running && not (s.sched.current == s.sched.idle)

-- who runs after a yield: the head of the queue, or the idle thread
abbrev pub head_or : ℕ → List ℕ → ℕ
head_or d [] = d
head_or d (x ∷ xs) = x

abbrev pub rest : List ℕ → List ℕ
rest [] = []
rest (x ∷ xs) = xs

-- What a yield makes of the scheduler: it succeeds, the head of the queue or else the idle thread is
-- current and running, the others keep their order, and the old thread is queued last if `again`.
pub record Yielded (resume : ℕ) (s : System) (xs : List ℕ) (s' : System) : Type 0 where
  pub result : yield resume s ≡ (ok, s')
  pub sched : IsSched s' (queue_after (requeues s) (rest xs) s.sched.current)
  pub current : s'.sched.current ≡ head_or s.sched.idle xs
  pub running_now : (s'.threads s'.sched.current).state ≡ running
  pub idle_kept : s'.sched.idle ≡ s.sched.idle
  pub state_kept :
      (p : ℕ)
      → p ≢ head_or s.sched.idle xs
      → is_state (s.threads p).state running ≡ false
      → (s'.threads p).state ≡ (s.threads p).state

NotIn-queue_after :
    (next old : ℕ) (again : Bool) (zs : List ℕ)
    → NotIn next zs
    → next ≢ old
    → NotIn next (queue_after again zs old)
NotIn-queue_after next old true zs out ne = NotIn-append next old zs out ne
NotIn-queue_after next old false zs out ne = out

-- The steps of a yield that finds a valid thread to run.
yield-picks :
    (resume next : ℕ) (s t : System)
    → s.sched.initialized ≡ true
    → IsThread s.sched.current (s.threads s.sched.current)
    → pick_next s ≡ (next, t)
    → IsThread next (t.threads next)
    → yield resume s ≡ yield_to resume s.sched.current next t
unfolding yield run_picked
yield-picks resume next s t started current picked v =
    let old = s.sched.current in
    simp (started, valid-true s.threads old current)
      (ap (run_picked resume old) picked ∙ rw (valid-true t.threads next v))

Switched-Yielded :
    (resume next : ℕ) (s t s' : System) (xs : List ℕ)
    → yield resume s ≡ (ok, s')
    → Switched t s' next (queue_after (requeues s) (rest xs) s.sched.current)
    → head_or s.sched.idle xs ≡ next
    → t.sched.idle ≡ s.sched.idle
    → ((p : ℕ) → (t.threads p).state ≡ (s.threads p).state)
    → IsThread next (t.threads next)
    → NotIn next (rest xs)
    → next ≢ s.sched.current
    → Yielded resume s xs s'
Switched-Yielded resume next s t s' xs result w head idle same v out ne = record {
  result = result;
  sched = record {
    queue = w.queue;
    current = subst (λ c. IsThread c (s'.threads c)) (sym w.current) (w.magic_kept next v);
    current_out =
        subst (λ c. NotIn c (queue_after (requeues s) (rest xs) s.sched.current)) (sym w.current)
          (NotIn-queue_after next s.sched.current (requeues s) (rest xs) out ne);
  };
  current = w.current ∙ sym head;
  running_now = ap (λ c. (s'.threads c).state) w.current ∙ w.running_next;
  idle_kept = w.idle_kept ∙ idle;
  state_kept = λ p other still.
      w.state_kept p (λ e. other (e ∙ sym head)) (ap (λ k. is_state k running) (same p) ∙ still)
      ∙ same p;
}

-- The idle thread that yields with an empty queue goes on.
yield-stay :
    (resume : ℕ) (s : System)
    → IsSched s []
    → s.sched.idle ≡ s.sched.current
    → yield resume s ≡ yield_to resume s.sched.current s.sched.idle s
    → Yielded resume s [] (set_state s.sched.current running s)
unfolding yield_to set_state requeues
yield-stay resume s i e steps =
    let set = set_state-Set s.sched.current running s [] i.queue tt in
    let same : (s.sched.idle == s.sched.current) ≡ true = ground arith in
    let never : requeues s ≡ false = ground arith in
    record {
      result = steps ∙ rw same;
      sched =
          subst
            (λ b. IsSched (set_state s.sched.current running s) (queue_after b [] s.sched.current))
            (sym never)
            (record {
              queue = set.queue;
              current = set.magic_kept s.sched.current i.current;
              current_out = tt;
            });
      current = sym e;
      running_now = set.state;
      idle_kept = refl;
      state_kept = λ p other still. set.state_kept p (λ q. other (q ∙ sym e));
    }

-- With an empty queue the idle thread runs.
yield-nil : (resume : ℕ) (s : System) → IsSched s [] → (s' : System) × Yielded resume s [] s'
unfolding requeues
yield-nil resume s i =
    let old = s.sched.current in
    let idle = s.sched.idle in
    let steps =
      yield-picks resume idle s s i.queue.started i.current (pick_next-nil s i.queue)
        i.queue.idle in
    elim (ℕ_discrete idle old) [
      | no ne ↦
          let (s', done, w) =
            yield_to-Switched resume old idle s [] i.queue i.current tt tt ne (omega arith) in
          (
            s',
            Switched-Yielded resume idle s s s' [] (steps ∙ done) w refl refl (λ p. refl)
                i.queue.idle tt ne,
          )
      | yes e ↦ (set_state old running s, yield-stay resume s i e steps)
    ]

requeues-remove_head :
    (x : ℕ) (s : System)
    → s.sched.current ≢ x
    → (is_state ((remove_head x s).threads s.sched.current).state running
        && not (s.sched.current == (remove_head x s).sched.idle))
      ≡ requeues s
unfolding remove_head requeues
requeues-remove_head x s ne = rw (write_ne s.threads x s.sched.current _ ne)

remove_head-state :
    (x : ℕ) (s : System) (p : ℕ) → ((remove_head x s).threads p).state ≡ (s.threads p).state
unfolding remove_head
remove_head-state x s p = write_keeps state_of s.threads x p _ refl

-- Otherwise the head of the queue runs.
yield-cons :
    (resume x : ℕ) (s : System) (xs : List ℕ)
    → IsSched s (x ∷ xs)
    → (s' : System) × Yielded resume s (x ∷ xs) s'
yield-cons resume x s xs i =
    let old = s.sched.current in
    let t = remove_head x s in
    let head_thread : IsThread x (t.threads x) =
      remove_head-IsThread s x x
        (record { non_null = i.queue.chain.1.non_null; magic = i.queue.chain.1.magic }) in
    let ne : x ≢ old = λ e. i.current_out.0 (sym e) in
    let steps =
      yield-picks resume x s t i.queue.started i.current (pick_next-cons s x xs i.queue)
        head_thread in
    let (s', done, w) =
      yield_to-Switched resume old x t xs (remove_head-IsQueue s x xs i.queue)
        (remove_head-IsThread s x old i.current) i.current_out.1 i.queue.distinct.0 ne
        (omega (arith, i.queue.small)) in
    (
      s',
      Switched-Yielded resume x s t s' (x ∷ xs) (steps ∙ done)
          (subst (λ b. Switched t s' x (queue_after b xs old))
            (requeues-remove_head x s i.current_out.0) w)
          refl (remove_head-idle s x) (remove_head-state x s) head_thread i.queue.distinct.0 ne,
    )

-- Under the invariant a yield succeeds and keeps it: the head of the queue, or the idle thread if there
-- is none, becomes current and running, the others keep their order, the old thread is queued behind
-- them exactly if it was running and is not the idle thread, and every other thread that was not running
-- keeps its state.
pub yield-Yielded :
    (resume : ℕ) (s : System) (xs : List ℕ)
    → IsSched s xs
    → (s' : System) × (mcsos_sched_yield resume (some s) ≡ (ok, some s')) × Yielded resume s xs s'
unfolding mcsos_sched_yield
yield-Yielded resume s [] i =
    let (s', y) = yield-nil resume s i in
    (s', ap (λ (r : SchedResult × System). (r.0, some r.1)) y.result, y)
yield-Yielded resume s (x ∷ xs) i =
    let (s', y) = yield-cons resume x s xs i in
    (s', ap (λ (r : SchedResult × System). (r.0, some r.1)) y.result, y)
