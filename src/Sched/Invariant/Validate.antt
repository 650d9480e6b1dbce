-- ===== src/Sched/Invariant/Validate.antt =====
-- The loop of `mcsos_sched_validate`: what it accepts, and that it stops.
use m.Prelude.{
  true≢false, ℕ, zero, suc, ◌+◌, ◌^◌, ◌<◌, ◌≤◌, ◌≡◌, ◌≢◌, refl, sym, ◌∙◌, ap, subst, Bool, true,
  false, not, ◌&&◌, Option, none, some, List, [], ◌∷◌, arith, ◌==◌, ltb, inl, inr, Bool-cases,
  length,
}
use m.Word.{add64}
use m.Sched.Types.{
  new, running, blocked, zombie, ready, ok, ecorrupt, SchedResult, ThreadState, Threads, Scheduler,
  is_state, valid_thread_object,
}
use m.Sched.Check.{check_end, validate_from}
use m.Sched.Chain.{Chain, IsReadyThread, Distinct, NotIn, last_or}
use m.Sched.Invariant.{IsThread}
use m.Sched.Invariant.Enqueue.{valid-true}

is_state-ready : (t : ThreadState) → is_state t ready ≡ true → t ≡ ready
is_state-ready new h = elim (true≢false (sym h)) [ ]
is_state-ready ready h = refl
is_state-ready running h = elim (true≢false (sym h)) [ ]
is_state-ready blocked h = elim (true≢false (sym h)) [ ]
is_state-ready zombie h = elim (true≢false (sym h)) [ ]

ecorrupt≢ok : ◌≢◌ {A = Option SchedResult} (some ecorrupt) (some ok)
ecorrupt≢ok e = ground arith

pub valid-IsThread : (t : Threads) (p : ℕ) → valid_thread_object t p ≡ true → IsThread p (t p)
unfolding valid_thread_object
valid-IsThread t p h = record { non_null = ground arith; magic = ground arith }

-- Two lists from one start are as long as each other.
Chain-length :
    (t : Threads) (p : ℕ) (xs ys : List ℕ) → Chain t p xs → Chain t p ys → length xs ≡ length ys
Chain-length t p [] [] c d = refl
Chain-length t p [] (y ∷ ys) c d = elim (d.1.non_null (sym d.0 ∙ c)) [ ]
Chain-length t p (x ∷ xs) [] c d = elim (c.1.non_null (sym c.0 ∙ d)) [ ]
Chain-length t p (x ∷ xs) (y ∷ ys) c d =
    ap suc
      (Chain-length t (t x).next xs ys c.2 (subst (λ k. Chain t (t k).next ys) (sym d.0 ∙ c.0) d.2))

Chain-NotIn_short :
    (t : Threads) (x p : ℕ) (xs ys : List ℕ)
    → Chain t x (x ∷ xs)
    → Chain t p ys
    → length ys ≤ length xs
    → NotIn x ys
Chain-NotIn_short t x p xs [] c d short = tt
Chain-NotIn_short t x p xs (y ∷ ys) c d short = (
  λ e.
      let at : Chain t x (y ∷ ys) = (e, d.1, d.2) in
      omega (arith, Chain-length t x (x ∷ xs) (y ∷ ys) c at),
  Chain-NotIn_short t x (t y).next xs ys c d.2 (omega arith),
)

-- A list that ends visits no thread twice.
pub Chain-Distinct : (t : Threads) (p : ℕ) (xs : List ℕ) → Chain t p xs → Distinct xs
Chain-Distinct t p [] c = tt
Chain-Distinct t p (x ∷ xs) c = (
  Chain-NotIn_short t x (t x).next xs xs (refl, c.1, c.2) c.2 (omega arith),
  Chain-Distinct t (t x).next xs c.2,
)

module _ (sched : Scheduler) (threads : Threads) where
  -- what a run of the loop from `p` with `last` before it and `count` counted has found
  abbrev Found : ℕ → ℕ → ℕ → List ℕ → Type 0
  Found p last count xs =
      Chain threads p xs
      × NotIn sched.current xs
      × (sched.ready_tail ≡ last_or last xs)
      × (sched.runnable_count ≡ count + length xs)

  abbrev entry_ok : ℕ → Bool
  entry_ok p =
      valid_thread_object threads p && is_state (threads p).state ready && not (p == sched.current)

  -- one turn of the loop at a thread that passes its tests
  validate_from-step :
      (fuel p last count : ℕ)
      → entry_ok p ≡ true
      → count < sched.runnable_count + 1
      → sched.runnable_count + 2 < 2 ^ 64
      → validate_from (suc fuel) sched threads p last count
        ≡ validate_from fuel sched threads (threads p).next p (count + 1)
  unfolding validate_from
  validate_from-step fuel p last count passes more small =
      let v : valid_thread_object threads p ≡ true = ground arith in
      let r : is_state (threads p).state ready ≡ true = ground arith in
      let other : (p == sched.current) ≡ false = ground arith in
      let non_null : (p == 0) ≡ false = ground (arith, (valid-IsThread threads p v).non_null) in
      let counted : add64 count 1 ≡ count + 1 = omega arith in
      let room : ltb (add64 sched.runnable_count 1) (count + 1) ≡ false = ground arith in
      rw (counted, non_null, v, r, other, room)

  pub validate_from-ok :
      (xs : List ℕ) (fuel p last count : ℕ)
      → sched.runnable_count + 2 < 2 ^ 64
      → length xs < fuel
      → Found p last count xs
      → validate_from fuel sched threads p last count ≡ some ok
  unfolding validate_from
  validate_from-ok xs zero p last count small enough f = ground arith
  validate_from-ok [] (suc fuel) p last count small enough f =
      let done : (p == 0) ≡ true = ground (arith, f.0) in
      let tail : (last == sched.ready_tail) ≡ true = ground (arith, f.2) in
      let same : (count == sched.runnable_count) ≡ true = ground (arith, f.3) in
      rw (done, tail, same)
  validate_from-ok (x ∷ xs) (suc fuel) p last count small enough f =
      let v = valid-true threads x (record { non_null = f.0.1.non_null; magic = f.0.1.magic }) in
      let other : (x == sched.current) ≡ false = ground (arith, f.1.0) in
      let passes : entry_ok x ≡ true = rw (v, f.0.1.state, other) in
      let step = validate_from-step fuel x last count passes (omega (arith, f.3)) small in
      ap (λ k. validate_from (suc fuel) sched threads k last count) f.0.0
      ∙ step
      ∙ validate_from-ok xs fuel (threads x).next x (count + 1) small (omega arith)
          (f.0.2, f.1.1, f.2, omega (arith, f.3))

  -- The loop stops after at most two turns more than the count says.
  pub validate_from-stops :
      (fuel p last count : ℕ)
      → sched.runnable_count + 2 < 2 ^ 64
      → count ≤ sched.runnable_count + 1
      → sched.runnable_count + 2 ≤ fuel + count
      → validate_from fuel sched threads p last count ≢ none
  unfolding validate_from
  validate_from-stops zero p last count small few enough = omega arith
  validate_from-stops (suc fuel) p last count small few enough =
      let counted : add64 count 1 ≡ count + 1 = omega arith in
      let allowed : add64 sched.runnable_count 1 ≡ sched.runnable_count + 1 = omega arith in
      elim (Bool-cases (ltb (sched.runnable_count + 1) (count + 1))) [
        | inl e ↦ rw (counted, allowed, e) (λ h. ground arith)
        | inr e ↦
            let rest =
              validate_from-stops fuel (threads p).next p (count + 1) small (ground arith)
                (omega arith) in
            rw (counted, allowed, e) (λ h. ground arith)
      ]

  validate_from-bad_entry :
      (fuel p last count : ℕ)
      → (p == 0) ≡ false
      → entry_ok p ≡ false
      → validate_from (suc fuel) sched threads p last count ≡ some ecorrupt
  unfolding validate_from
  validate_from-bad_entry fuel p last count non_null bad = ground arith

  validate_from-bad_count :
      (fuel p last count : ℕ)
      → (p == 0) ≡ false
      → sched.runnable_count + 1 ≤ count
      → count ≤ sched.runnable_count + 1
      → sched.runnable_count + 2 < 2 ^ 64
      → validate_from (suc fuel) sched threads p last count ≡ some ecorrupt
  unfolding validate_from
  validate_from-bad_count fuel p last count non_null many few small =
      let counted : add64 count 1 ≡ count + 1 = omega arith in
      let allowed : add64 sched.runnable_count 1 ≡ sched.runnable_count + 1 = omega arith in
      let full : ltb (sched.runnable_count + 1) (count + 1) ≡ true = ground arith in
      rw (counted, allowed, full) (ground arith)

  entry_ok-IsReadyThread : (p : ℕ) → entry_ok p ≡ true → IsReadyThread p (threads p)
  entry_ok-IsReadyThread p h =
      let v : valid_thread_object threads p ≡ true = ground arith in
      let t = valid-IsThread threads p v in
      record {
        non_null = t.non_null;
        magic = t.magic;
        state = is_state-ready (threads p).state (ground arith);
      }

  pub validate_from-Found :
      (fuel p last count : ℕ)
      → sched.runnable_count + 2 < 2 ^ 64
      → count ≤ sched.runnable_count + 1
      → validate_from fuel sched threads p last count ≡ some ok
      → (xs : List ℕ) × Found p last count xs
  unfolding validate_from
  validate_from-Found zero p last count small few h = ground arith
  validate_from-Found (suc fuel) p last count small few h = elim (Bool-cases (p == 0)) [
    | inl e ↦
        let ended : check_end sched last count ≡ ok = ground arith in
        ([], (ground arith, tt, ground arith, ground arith))
    | inr ne ↦ elim (Bool-cases (entry_ok p)) [
      | inr bad ↦
          elim (ecorrupt≢ok (sym (validate_from-bad_entry fuel p last count ne bad) ∙ h)) [ ]
      | inl good ↦ elim (Bool-cases (ltb count (sched.runnable_count + 1))) [
        | inr many ↦
            elim (ecorrupt≢ok
              (sym (validate_from-bad_count fuel p last count ne (ground arith) few small) ∙ h)) [ ]
        | inl more ↦
            let step = validate_from-step fuel p last count good (ground arith) small in
            let (xs, f) =
              validate_from-Found fuel (threads p).next p (count + 1) small (ground arith)
                (sym step ∙ h) in
            (
              p ∷ xs,
              (
                (refl, entry_ok-IsReadyThread p good, f.0),
                (ground arith, f.1),
                f.2,
                omega (arith, f.3),
              ),
            )
      ]
    ]
  ]
