-- ===== src/Sched/Invariant/Accepts.antt =====
-- What `mcsos_sched_validate` and `mcsos_sched_ready_count` say of the queue.
use m.Prelude.{
  ℕ, zero, suc, ◌+◌, ◌^◌, ◌<◌, ◌≤◌, ◌≡◌, ◌≢◌, ◌↔◌, ◌∙◌, ap, true, false, not, ◌||◌, none, some,
  List, [], ◌∷◌, arith, ◌==◌, inl, inr, Bool-cases, length,
}
use m.Word.{add64}
use m.Sched.Types.{ok, Threads, System, valid_thread_object}
use m.Sched.Check.{
  count_from, ready_count, mcsos_sched_ready_count, validate_from, validate, mcsos_sched_validate,
}
use m.Sched.Chain.{Chain, Distinct, NotIn, last_or}
use m.Sched.Invariant.{IsThread, IsSched}
use m.Sched.Invariant.Enqueue.{guard_passes}
use m.Sched.Invariant.Validate.{
  valid-IsThread, Chain-Distinct, validate_from-ok, validate_from-stops, validate_from-Found,
}

-- What a validated scheduler promises: from the head the links lead through the distinct ready threads
-- `xs` to null, the tail and the count agree, and the current thread is a thread outside the queue.
pub record IsValidated (s : System) (xs : List ℕ) : Type 0 where
  pub started : s.sched.initialized ≡ true
  pub current : IsThread s.sched.current (s.threads s.sched.current)
  pub chain : Chain s.threads s.sched.ready_head xs
  pub distinct : Distinct xs
  pub current_out : NotIn s.sched.current xs
  pub tail : s.sched.ready_tail ≡ last_or 0 xs
  pub count : s.sched.runnable_count ≡ length xs

-- With a count below 2 ^ 64 - 2, validation ends on every store, also on a queue that runs in a
-- circle: fuel for two turns more than the count is enough.
pub validate_total :
    (s : System) (fuel : ℕ)
    → s.sched.runnable_count + 2 < 2 ^ 64
    → s.sched.runnable_count + 2 ≤ fuel
    → mcsos_sched_validate fuel (some s) ≢ none
unfolding mcsos_sched_validate validate
validate_total s fuel small enough =
    elim (Bool-cases
      (not s.sched.initialized || not (valid_thread_object s.threads s.sched.current))) [
        | inl e ↦ rw e (λ h. ground arith)
        | inr e ↦ rw e (
            validate_from-stops s.sched s.threads fuel s.sched.ready_head 0 0 small (omega arith)
              (omega arith))
      ]

-- With a count below 2 ^ 64 - 2 and fuel for two turns more, validation accepts exactly the schedulers
-- that are started, whose current thread is a thread outside the queue, and whose queue is a list of
-- distinct ready threads with the tail and the length that the scheduler says.
pub validate_iff :
    (s : System) (fuel : ℕ)
    → s.sched.runnable_count + 2 < 2 ^ 64
    → s.sched.runnable_count + 2 ≤ fuel
    → (mcsos_sched_validate fuel (some s) ≡ some ok) ↔ ((xs : List ℕ) × IsValidated s xs)
unfolding mcsos_sched_validate validate
validate_iff s fuel small enough = (
  λ h.
      let started : s.sched.initialized ≡ true = ground arith in
      let v : valid_thread_object s.threads s.sched.current ≡ true = ground arith in
      let run : validate_from fuel s.sched s.threads s.sched.ready_head 0 0 ≡ some ok =
        ground arith in
      let (xs, f) =
        validate_from-Found s.sched s.threads fuel s.sched.ready_head 0 0 small (omega arith) run in
      (
        xs,
        record {
          started = started;
          current = valid-IsThread s.threads s.sched.current v;
          chain = f.0;
          distinct = Chain-Distinct s.threads s.sched.ready_head xs f.0;
          current_out = f.1;
          tail = f.2;
          count = omega (arith, f.3);
        },
      ),
  λ (xs, w). rw (guard_passes s w.started w.current) (
      validate_from-ok s.sched s.threads xs fuel s.sched.ready_head 0 0 small
        (omega (arith, w.count)) (w.chain, w.current_out, w.tail, omega (arith, w.count))),
)

-- The counting loop counts the threads of a list that ends.
count_from-length :
    (t : Threads) (xs : List ℕ) (fuel p count : ℕ)
    → Chain t p xs
    → length xs < fuel
    → count + length xs < 2 ^ 64
    → count_from fuel t p count ≡ some (count + length xs)
unfolding count_from
count_from-length t xs zero p count c enough room = ground arith
count_from-length t [] (suc fuel) p count c enough room =
    let done : (p == 0) ≡ true = ground (arith, c) in rw done (ap some (omega arith))
count_from-length t (x ∷ xs) (suc fuel) p count c enough room =
    let more : (p == 0) ≡ false = ground (arith, c.0, c.1.non_null) in
    let counted : add64 count 1 ≡ count + 1 = omega arith in
    let rest = count_from-length t xs fuel (t x).next (count + 1) c.2 (omega arith) (omega arith) in
    rw (more, counted)
      (ap (λ k. count_from fuel t (t k).next (count + 1)) c.0 ∙ rest ∙ ap some (omega arith))

-- Under the invariant, with fewer than 2 ^ 64 - 2 threads queued and fuel for two turns more than
-- that, validation accepts the scheduler and the count of ready threads is the number of queued ones.
pub validate-ready_count :
    (s : System) (xs : List ℕ) (fuel : ℕ)
    → IsSched s xs
    → length xs + 2 < 2 ^ 64
    → length xs + 2 ≤ fuel
    → (mcsos_sched_validate fuel (some s) ≡ some ok)
      × (mcsos_sched_ready_count fuel (some s) ≡ some (length xs))
unfolding mcsos_sched_ready_count ready_count
validate-ready_count s xs fuel i small enough =
    let q = i.queue in
    (
      (validate_iff s fuel (omega (arith, q.count)) (omega (arith, q.count))).1 (
        xs,
        record {
          started = q.started;
          current = i.current;
          chain = q.chain;
          distinct = q.distinct;
          current_out = i.current_out;
          tail = q.tail;
          count = q.count;
        },
      ),
      rw (q.started) (
          count_from-length s.threads xs fuel s.sched.ready_head 0 q.chain (omega arith)
            (omega arith)
          ∙ ap some (omega arith)),
    )
