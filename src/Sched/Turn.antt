-- ===== src/Sched/Turn.antt =====
-- The queue is served in order: a thread that waits runs after one switch for each thread in front.
use m.Prelude.{
  ℕ, ◌+◌, ◌≡◌, refl, sym, ◌∙◌, ap, subst, Bool, true, false, true≢false, List, [], ◌∷◌, ◌++◌, arith,
  if◌then◌else◌, length, Bool-cases, inl, inr,
}
use m.Sched.Types.{SchedResult, System, is_state, ready}
use m.Sched.Ops.{queueable}
use m.Sched.Invariant.{IsSched}
use m.Sched.Invariant.Enqueue.{enqueue-IsSched}
use m.Sched.Invariant.Switched.{queue_after}
use m.Sched.Invariant.Yield.{requeues, yield-Yielded}
use m.Sched.Invariant.Block.{Chain-NotIn, block_current-Blocked, mark_ready-IsSched, tick-IsSched}
use m.Sched.Reach.{Step, enqueued, woken, yielded, ticked, halted, one_result}

-- a run of calls from one store to another
pub data Run (t : System) : System → Type 0 where
  stop : Run t t
  next : {s : System} (s' : System) → Step s s' → Run t s' → Run t s

-- yielding and blocking switch threads
abbrev pub switches : {s s' : System} → Step s s' → Bool
switches (enqueued q spare fresh done) = false
switches (woken q spare asleep done) = false
switches (yielded resume done) = true
switches (ticked done) = false
switches (halted resume busy done) = true

abbrev pub turns : {t s : System} → Run t s → ℕ
turns stop = 0
turns (next s' p r) = if switches p then turns r + 1 else turns r

-- The queue grows at its end only.
append_tail : (xs ys zs : List ℕ) → (xs ++ ys) ++ zs ≡ xs ++ (ys ++ zs)
append_tail [] ys zs = refl
append_tail (x ∷ xs) ys zs = ap (λ l. x ∷ l) (append_tail xs ys zs)

append_nil : (l : List ℕ) → l ++ [] ≡ l
append_nil [] = refl
append_nil (x ∷ l) = ap (λ k. x ∷ k) (append_nil l)

-- A call that does not switch keeps the current thread and the queue, at whose end it may put a thread.
Step-keeps :
    (s s' : System) (xs : List ℕ) (p : Step s s')
    → IsSched s xs
    → switches p ≡ false
    → (s'.sched.current ≡ s.sched.current) × ((ys : List ℕ) × IsSched s' (xs ++ ys))
Step-keeps s s' xs (enqueued q spare fresh done) i still =
    let (t, run, after, kept) =
      enqueue-IsSched s q xs i spare.valid (ap queueable fresh)
        (Chain-NotIn s.threads q s.sched.ready_head xs (ap (λ k. is_state k ready) fresh)
          i.queue.chain)
        spare.not_current spare.not_idle (omega (arith, spare.room, i.queue.count)) in
    subst (λ k. (k.sched.current ≡ s.sched.current) × ((ys : List ℕ) × IsSched k (xs ++ ys)))
      (one_result run done) (kept, (q ∷ [], after))
Step-keeps s s' xs (woken q spare asleep done) i still =
    let (t, run, out, after, kept) =
      mark_ready-IsSched s q xs i spare.valid asleep spare.not_current spare.not_idle
        (omega (arith, spare.room, i.queue.count)) in
    subst (λ k. (k.sched.current ≡ s.sched.current) × ((ys : List ℕ) × IsSched k (xs ++ ys)))
      (ap (λ (r : SchedResult × System). r.1) (sym run ∙ done)) (kept, (q ∷ [], after))
Step-keeps s s' xs (yielded resume done) i still = elim (true≢false still) [ ]
Step-keeps s s' xs (ticked done) i still =
    let (t, run, after, kept, _, _) = tick-IsSched s xs i in
    subst (λ k. (k.sched.current ≡ s.sched.current) × ((ys : List ℕ) × IsSched k (xs ++ ys)))
      (one_result run done) (kept, ([], subst (IsSched t) (sym (append_nil xs)) after))
Step-keeps s s' xs (halted resume busy done) i still = elim (true≢false still) [ ]

-- A switch runs the head of the queue.
Step-serves :
    (s s' : System) (x : ℕ) (xs : List ℕ) (p : Step s s')
    → IsSched s (x ∷ xs)
    → switches p ≡ true
    → (s'.sched.current ≡ x) × ((ys : List ℕ) × IsSched s' (xs ++ ys))
Step-serves s s' x xs (yielded resume done) i moves =
    let (t, run, after) = yield-Yielded resume s (x ∷ xs) i in
    let (ys, e) = tail (requeues s) s.sched.current in
    subst (λ k. (k.sched.current ≡ x) × ((ys : List ℕ) × IsSched k (xs ++ ys)))
      (one_result run done) (after.current, (ys, subst (IsSched t) e after.sched))
  where
    tail : (again : Bool) (old : ℕ) → (ys : List ℕ) × (queue_after again xs old ≡ xs ++ ys)
    tail true old = (old ∷ [], refl)
    tail false old = ([], sym (append_nil xs))
Step-serves s s' x xs (halted resume busy done) i moves =
    let (t, run, after) = block_current-Blocked resume s (x ∷ xs) i busy in
    subst (λ k. (k.sched.current ≡ x) × ((ys : List ℕ) × IsSched k (xs ++ ys)))
      (one_result run done)
      (after.current, ([], subst (IsSched t) (sym (append_nil xs)) after.sched))
Step-serves s s' x xs (enqueued q spare fresh done) i moves = elim (true≢false (sym moves)) [ ]
Step-serves s s' x xs (woken q spare asleep done) i moves = elim (true≢false (sym moves)) [ ]
Step-serves s s' x xs (ticked done) i moves = elim (true≢false (sym moves)) [ ]

-- Until the next switch the current thread stays.
waits :
    (t s : System) (xs : List ℕ) (r : Run t s)
    → IsSched s xs
    → turns r ≡ 0
    → t.sched.current ≡ s.sched.current
waits t s xs stop i none_left = refl
waits t s xs (next s' p r) i none_left = elim (Bool-cases (switches p)) [
  | inl e ↦ absurd (ground arith)
  | inr e ↦
      let (kept, (ys, after)) = Step-keeps s s' xs p i e in
      waits t s' (xs ++ ys) r after (ground arith) ∙ kept
]

-- Under the invariant, in a run of any of the calls that switches once more than there are threads in
-- front of a queued thread, that thread is current at the end, whatever is queued behind it.
pub queued-Run :
    (t s : System) (front : List ℕ) (x : ℕ) (behind : List ℕ) (r : Run t s)
    → IsSched s (front ++ (x ∷ behind))
    → turns r ≡ length front + 1
    → t.sched.current ≡ x
queued-Run t s front x behind stop i count = absurd (omega (arith, count))
queued-Run t s front x behind (next s' p r) i count = elim (Bool-cases (switches p)) [
  | inr e ↦
      let (kept, (ys, after)) = Step-keeps s s' (front ++ (x ∷ behind)) p i e in
      queued-Run t s' front x (behind ++ ys) r
        (subst (IsSched s') (append_tail front (x ∷ behind) ys) after) (ground arith)
  | inl e ↦ served front i e (ground arith) (λ l later. queued-Run t s' l x later r)
]
  where
    served :
        (l : List ℕ)
        → IsSched s (l ++ (x ∷ behind))
        → switches p ≡ true
        → turns r ≡ length l
        → ((l' : List ℕ) (behind' : List ℕ)
            → IsSched s' (l' ++ (x ∷ behind'))
            → turns r ≡ length l' + 1
            → t.sched.current ≡ x)
        → t.sched.current ≡ x
    served [] i e n again =
        let (now, (ys, after)) = Step-serves s s' x behind p i e in
        waits t s' (behind ++ ys) r after n ∙ now
    served (y ∷ l) i e n again =
        let (now, (ys, after)) = Step-serves s s' y (l ++ (x ∷ behind)) p i e in
        again l (behind ++ ys) (subst (IsSched s') (append_tail l (x ∷ behind) ys) after)
          (omega (arith, n))
