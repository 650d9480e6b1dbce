-- ===== src/Sched/Invariant/Enqueue.antt =====
-- Queueing a thread, and taking the head off the queue.
use m.Prelude.{
  ℕ, ◌+◌, ◌^◌, ◌<◌, ◌≡◌, ◌≢◌, refl, sym, ◌∙◌, ap, subst, true, false, not, ◌||◌, List, [], ◌∷◌,
  ◌++◌, arith, ◌==◌, inl, inr, Bool-cases, if◌then◌else◌, length,
}
use m.Prelude.{some}
use m.Sched.Types.{ready, ok, Thread, Threads, System, write, valid_thread_object}
use m.Sched.Ops.{queueable, append_ready, enqueue, remove_head, pick_next, mcsos_sched_enqueue}
use m.Sched.Chain.{
  Chain, NotIn, IsReadyThread, last_or, write_self, Chain-write_out, Chain-link, Distinct-append,
  NotIn-append, last_or-append, Chain-at, link_at, Chain-last_or, write_keeps,
}
use m.Sched.Invariant.{IsThread, IsQueue, IsSched}

pub IsThread-write :
    (t : Threads) (q p : ℕ) (v : Thread)
    → v.magic ≡ (t q).magic
    → IsThread p (t p)
    → IsThread p (write t q v p)
IsThread-write t q p v hm h = record {
  non_null = h.non_null;
  magic = write_keeps (λ (k : Thread). k.magic) t q p v hm ∙ h.magic;
}

pub valid-true : (t : Threads) (p : ℕ) → IsThread p (t p) → valid_thread_object t p ≡ true
unfolding valid_thread_object
valid-true t p h = ground arith

-- the guard of most operations
pub guard_passes :
    (s : System)
    → s.sched.initialized ≡ true
    → IsThread s.sched.current (s.threads s.sched.current)
    → (not s.sched.initialized || not (valid_thread_object s.threads s.sched.current)) ≡ false
guard_passes s started v = rw (started, valid-true s.threads s.sched.current v)

length-snoc : (xs : List ℕ) (q : ℕ) → length (xs ++ (q ∷ [])) ≡ length xs + 1
length-snoc [] q = omega arith
length-snoc (x ∷ xs) q = omega (arith, length-snoc xs q)

module _ (s : System) (q : ℕ) where
  abbrev marked : Threads
  marked = write s.threads q (record (s.threads q) { state = ready; next = 0 })

  marked-IsReadyThread : IsThread q (s.threads q) → IsReadyThread q (marked q)
  marked-IsReadyThread v =
      rw (write_self s.threads q (record (s.threads q) { state = ready; next = 0 }))
        (record { non_null = v.non_null; magic = v.magic; state = refl })

  marked-next : (marked q).next ≡ 0
  marked-next = rw (write_self s.threads q (record (s.threads q) { state = ready; next = 0 }))

  -- No thread loses its magic.
  pub append_ready-IsThread :
      (p : ℕ) → IsThread p (s.threads p) → IsThread p ((append_ready q s).threads p)
  unfolding append_ready
  append_ready-IsThread p h = elim (Bool-cases (s.sched.ready_tail == 0)) [
    | inl e ↦ rw e (IsThread-write s.threads q p _ refl h)
    | inr e ↦
        rw e (
          IsThread-write marked s.sched.ready_tail p _ refl (IsThread-write s.threads q p _ refl h))
  ]

  -- A thread that is neither queued nor idle goes to the end of the queue.
  pub append_ready-IsQueue :
      (xs : List ℕ)
      → IsQueue s xs
      → IsThread q (s.threads q)
      → NotIn q xs
      → s.sched.idle ≢ q
      → length xs + 1 < 2 ^ 64
      → IsQueue (append_ready q s) (xs ++ (q ∷ []))
  unfolding append_ready
  append_ready-IsQueue [] i v out ne_idle room =
      let none_left : (s.sched.ready_tail == 0) ≡ true = ground arith in
      rw none_left (record {
        started = i.started;
        chain = Chain-at marked q q (marked q) [] refl refl (marked-IsReadyThread v) marked-next;
        distinct = (tt, tt);
        tail = refl;
        count = omega (arith, i.count);
        small = room;
        idle = IsThread-write s.threads q s.sched.idle _ refl i.idle;
        idle_out = (ne_idle, tt);
      })
  append_ready-IsQueue (x ∷ xs) i v out ne_idle room =
      let some_left : (s.sched.ready_tail == 0) ≡ false =
        ground (arith, i.tail, Chain-last_or s.threads s.sched.ready_head x xs i.chain) in
      let h = s.sched.ready_head in
      let chained : Chain marked h (x ∷ xs) =
        Chain-write_out s.threads q (record (s.threads q) { state = ready; next = 0 }) h (x ∷ xs)
          out i.chain in
      let linked : Chain (link_at marked (last_or x xs) q) h ((x ∷ xs) ++ (q ∷ [])) =
        Chain-link marked q h x xs chained i.distinct out (marked-IsReadyThread v) marked-next in
      rw some_left (record {
        started = i.started;
        chain =
            subst (λ l. Chain (link_at marked l q) h ((x ∷ xs) ++ (q ∷ []))) (sym i.tail) linked;
        distinct = Distinct-append q (x ∷ xs) i.distinct out;
        tail = sym (last_or-append 0 q (x ∷ xs));
        count = omega (arith, i.count, length-snoc (x ∷ xs) q);
        small = omega (arith, room, length-snoc (x ∷ xs) q);
        idle =
            IsThread-write marked s.sched.ready_tail s.sched.idle _ refl
              (IsThread-write s.threads q s.sched.idle _ refl i.idle);
        idle_out = NotIn-append s.sched.idle q (x ∷ xs) i.idle_out ne_idle;
      })

  -- Queueing a new, ready or blocked thread that is neither queued nor idle succeeds.
  pub enqueue-append :
      {xs : List ℕ}
      → IsQueue s xs
      → IsThread q (s.threads q)
      → queueable (s.threads q).state ≡ true
      → enqueue q s ≡ (ok, append_ready q s)
  unfolding enqueue
  enqueue-append i v may = rw (i.started, valid-true s.threads q v, may)

  -- The thread at the head of the queue leaves it, and the rest stays in order.
  pub remove_head-IsQueue : (xs : List ℕ) → IsQueue s (q ∷ xs) → IsQueue (remove_head q s) xs
  unfolding remove_head
  remove_head-IsQueue xs i = record {
    started = i.started;
    chain =
        Chain-write_out s.threads q (record (s.threads q) { next = 0 }) (s.threads q).next xs
          i.distinct.0 i.chain.2;
    distinct = i.distinct.1;
    tail = new_tail xs i;
    count = ground (arith, i.count);
    small = omega (arith, i.small);
    idle = IsThread-write s.threads q s.sched.idle _ refl i.idle;
    idle_out = i.idle_out.1;
  }
    where
      new_tail :
          (xs : List ℕ)
          → IsQueue s (q ∷ xs)
          → (if (s.threads q).next == 0 then 0 else s.sched.ready_tail) ≡ last_or 0 xs
      new_tail [] i = ground (arith, i.chain)
      new_tail (y ∷ ys) i = ground (arith, i.chain.2.0, i.chain.2.1.non_null, i.tail)

  pub remove_head-IsThread :
      (p : ℕ) → IsThread p (s.threads p) → IsThread p ((remove_head q s).threads p)
  unfolding remove_head
  remove_head-IsThread p h = IsThread-write s.threads q p _ refl h

  pub remove_head-idle : (remove_head q s).sched.idle ≡ s.sched.idle
  unfolding remove_head
  remove_head-idle = refl

  pub pick_next-cons : (xs : List ℕ) → IsQueue s (q ∷ xs) → pick_next s ≡ (q, remove_head q s)
  unfolding pick_next
  pick_next-cons xs i =
      let some_left : (s.sched.ready_head == 0) ≡ false =
        ground (arith, i.chain.0, i.chain.1.non_null) in
      simp (i.started, some_left) (ap (λ h. (h, remove_head h s)) i.chain.0)

pub pick_next-nil : (s : System) → IsQueue s [] → pick_next s ≡ (s.sched.idle, s)
unfolding pick_next
pick_next-nil s i =
    let none_left : (s.sched.ready_head == 0) ≡ true = ground (arith, i.chain) in
    simp (i.started, none_left)

pub same_current : (s : System) (q : ℕ) → (append_ready q s).sched.current ≡ s.sched.current
unfolding append_ready
same_current s q = ground arith

pub same_idle : (s : System) (q : ℕ) → (append_ready q s).sched.idle ≡ s.sched.idle
unfolding append_ready
same_idle s q = ground arith

-- Under the invariant and while the count has room, queueing a new, ready or blocked thread that is
-- neither queued, nor current, nor idle succeeds, puts it at the end of the queue, keeps the invariant
-- and leaves the current thread.
pub enqueue-IsSched :
    (s : System) (q : ℕ) (xs : List ℕ)
    → IsSched s xs
    → IsThread q (s.threads q)
    → queueable (s.threads q).state ≡ true
    → NotIn q xs
    → s.sched.current ≢ q
    → s.sched.idle ≢ q
    → length xs + 1 < 2 ^ 64
    → (s' : System) × (mcsos_sched_enqueue q (some s) ≡ (ok, some s'))
      × IsSched s' (xs ++ (q ∷ []))
      × (s'.sched.current ≡ s.sched.current)
unfolding mcsos_sched_enqueue
enqueue-IsSched s q xs i v may out ne_current ne_idle room = (
  append_ready q s,
  rw (enqueue-append s q i.queue v may),
  record {
    queue = append_ready-IsQueue s q xs i.queue v out ne_idle room;
    current =
        subst (λ c. IsThread c ((append_ready q s).threads c)) (sym (same_current s q))
          (append_ready-IsThread s q s.sched.current i.current);
    current_out =
        subst (λ c. NotIn c (xs ++ (q ∷ []))) (sym (same_current s q))
          (NotIn-append s.sched.current q xs i.current_out ne_current);
  },
  same_current s q,
)
