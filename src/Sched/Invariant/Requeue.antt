-- ===== src/Sched/Invariant/Requeue.antt =====
-- `mcsos_sched_enqueue` accepts a ready thread, also one that the queue already holds.
use m.Prelude.{ℕ, zero, suc, ◌≡◌, ◌≢◌, refl, ◌∙◌, ap, false, none, some, arith, ◌==◌, [], ◌∷◌}
use m.Word.{add64}
use m.Sched.Types.{ok, Thread, Threads, System}
use m.Sched.Ops.{queueable, append_ready, mcsos_sched_enqueue}
use m.Sched.Check.{count_from, ready_count, mcsos_sched_ready_count}
use m.Sched.Chain.{write_self}
use m.Sched.Invariant.{IsThread, IsSched}
use m.Sched.Invariant.Enqueue.{enqueue-append}

-- The counting loop never leaves a thread that is linked to itself.
count_from-loop :
    (t : Threads) (q fuel count : ℕ) → q ≢ 0 → (t q).next ≡ q → count_from fuel t q count ≡ none
unfolding count_from
count_from-loop t q zero count ne e = refl
count_from-loop t q (suc fuel) count ne e =
    let more : (q == 0) ≡ false = ground arith in
    rw more (
      ap (λ k. count_from fuel t k (add64 count 1)) e
      ∙ count_from-loop t q fuel (add64 count 1) ne e)

-- the store after the only queued thread is queued again
append_again :
    (s : System) (q : ℕ)
    → s.sched.ready_head ≡ q
    → s.sched.ready_tail ≡ q
    → q ≢ 0
    → (((append_ready q s).threads q).next ≡ q)
      × ((append_ready q s).sched.ready_head ≡ q)
      × ((append_ready q s).sched.initialized ≡ s.sched.initialized)
unfolding append_ready
append_again s q head tail ne =
    let again : (q == 0) ≡ false = ground arith in
    rw (tail, again) (ap (λ (k : Thread). k.next) (write_self _ q _), head, refl)

-- Under the invariant, queueing the only queued thread a second time is reported as a success, and
-- afterwards counting the ready threads ends with no amount of fuel.
pub enqueue-enqueue_loops :
    (s : System) (q : ℕ)
    → IsSched s (q ∷ [])
    → (s' : System) × (mcsos_sched_enqueue q (some s) ≡ (ok, some s'))
      × ((fuel : ℕ) → mcsos_sched_ready_count fuel (some s') ≡ none)
unfolding mcsos_sched_enqueue mcsos_sched_ready_count ready_count
enqueue-enqueue_loops s q i =
    let head = i.queue.chain.0 in
    let ne = i.queue.chain.1.non_null in
    let v : IsThread q (s.threads q) = record { non_null = ne; magic = i.queue.chain.1.magic } in
    let (loop, first, started) = append_again s q head i.queue.tail ne in
    (
      append_ready q s,
      rw (enqueue-append s q i.queue v (ap queueable i.queue.chain.1.state)),
      λ fuel. rw (started ∙ i.queue.started) (
          ap (λ k. count_from fuel (append_ready q s).threads k 0) first
          ∙ count_from-loop (append_ready q s).threads q fuel 0 ne loop),
    )
