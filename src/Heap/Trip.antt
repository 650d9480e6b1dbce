-- ===== src/Heap/Trip.antt =====
-- Allocating and freeing again.
use m.Prelude.{
  ℕ, ◌+◌, ◌^◌, ◌≤◌, ◌<◌, ◌≡◌, ◌≢◌, sym, ◌∙◌, ap, subst, true, false, Option, none, some, [], ◌∷◌,
  ◌++◌, arith, length, ltb, Bool-cases, inl, inr,
}
use m.Heap.Types.{Kmem}
use m.Heap.Ops.{kmem_alloc, kmem_free_checked}
use m.Heap.Check.{guard_limit}
use m.Heap.Spec.{Tiles, carve, first_fit, end_of, release}
use m.Heap.Invariant.{IsHeap}
use m.Heap.Packed.{Packed, Packed-append_carve, carve-release}
use m.Heap.Taken.{rounded, first_fit-IsFirst, Taken, kmem_alloc-first_fit}
use m.Heap.Freed.{kmem_free-release}

abbrev pub ptr_or : Option (ℕ × Kmem) → ℕ
ptr_or none = 0
ptr_or (some (p, s)) = p

abbrev pub heap_or : Kmem → Option (ℕ × Kmem) → Kmem
heap_or d none = d
heap_or d (some (p, s)) = s

-- An allocation that returned a pointer, seen from its result.
Taken-some :
    (s s' : Kmem) (p : ℕ) (r : Option (ℕ × Kmem)) (fit : Option (ℕ × Tiles))
    → Taken s r fit
    → r ≡ some (p, s')
    → p ≢ 0
    → (ys : Tiles) × (fit ≡ some (p, ys))
      × IsHeap s' ys
      × (s'.heap_base ≡ s.heap_base)
      × (s'.bytes ≡ s.bytes)
Taken-some s s' p r none h e ne = elim (ne (sym (ap ptr_or e) ∙ ap ptr_or h)) [ ]
Taken-some s s' p r (some (q, ys)) (t, done, heap, kept, base) e ne =
    let same : t ≡ s' = ap (heap_or s) (sym done ∙ e) in
    let place : q ≡ p = ap ptr_or (sym done ∙ e) in
    (
      ys,
      ap (λ k. some (k, ys)) place,
      subst (λ k. IsHeap k ys) same heap,
      subst (λ k. k.heap_base ≡ s.heap_base) same base,
      subst (λ k. k.bytes ≡ s.bytes) same kept,
    )

-- What a returned pointer is: the payload of a used block of at least `w` bytes; when it comes back, the
-- blocks are what they were.
pub record IsTaken (s s' : Kmem) (w : ℕ) (xs : Tiles) (p : ℕ) : Type 0 where
  pub before : Tiles
  pub size : ℕ
  pub after : Tiles
  pub place : p ≡ end_of s'.heap_base before + 48
  pub heap : IsHeap s' (before ++ ((size, false) ∷ after))
  pub packed : Packed (before ++ ((size, false) ∷ after))
  pub large : w ≤ size
  pub back : release before size after ≡ xs
  pub base : s'.heap_base ≡ s.heap_base
  pub kept : s'.bytes ≡ s.bytes
  pub few : length (before ++ ((size, false) ∷ after)) ≤ length xs + 1

length-carve :
    (l : Tiles) (w n : ℕ) (r : Tiles)
    → length (l ++ carve w n r) ≤ length (l ++ ((n, true) ∷ r)) + 1
length-carve [] w n r = elim (Bool-cases (ltb (w + 80) n)) [
  | inl e ↦ rw e (omega arith)
  | inr e ↦ rw e (omega arith)
]
length-carve ((k, f) ∷ l) w n r = omega (arith, length-carve l w n r)

pub kmem_alloc-IsTaken :
    (s s' : Kmem) (xs : Tiles) (fuel bytes p : ℕ)
    → IsHeap s xs
    → Packed xs
    → 0 < bytes
    → bytes + 16 ≤ 2 ^ 64
    → length xs < fuel
    → kmem_alloc fuel bytes s ≡ some (p, s')
    → p ≢ 0
    → IsTaken s s' (rounded bytes) xs p
kmem_alloc-IsTaken s s' xs fuel bytes p i packed some_bytes small enough done ne =
    let w = rounded bytes in
    let (ys, fit, heap, base, kept) =
      Taken-some s s' p (kmem_alloc fuel bytes s) (first_fit w s.heap_base xs)
        (kmem_alloc-first_fit s xs fuel bytes i some_bytes small enough) done ne in
    let v = first_fit-IsFirst w s.heap_base xs p ys fit in
    let packed' : Packed (v.before ++ ((v.size, true) ∷ v.after)) = subst Packed v.found packed in
    let (m, x, parts, large, back) =
      carve-release v.before w v.size v.after (omega arith) v.fits packed' in
    let carved : ys ≡ v.before ++ ((m, false) ∷ x) = v.carved ∙ ap (λ z. v.before ++ z) parts in
    record {
      before = v.before;
      size = m;
      after = x;
      place = v.place ∙ ap (λ k. end_of k v.before + 48) (sym base);
      heap = subst (IsHeap s') carved heap;
      packed =
          subst Packed (ap (λ z. v.before ++ z) parts)
            (Packed-append_carve v.before w v.size v.after (omega arith) packed');
      large = large;
      back = back ∙ sym v.found;
      base = base;
      kept = kept;
      few =
          subst (λ z. length z ≤ length xs + 1) (ap (λ z. v.before ++ z) parts)
            (omega (
              arith,
              length-carve v.before w v.size v.after,
              ap (λ (z : Tiles). length z) v.found,
            ));
    }

-- On a heap without neighbouring free blocks, a pointer just allocated can be freed, and the heap is then
-- again the same list of blocks.
pub kmem_alloc-free :
    (s s' : Kmem) (xs : Tiles) (fuel bytes p : ℕ)
    → IsHeap s xs
    → Packed xs
    → 0 < bytes
    → bytes + 16 ≤ 2 ^ 64
    → length xs < guard_limit
    → length xs + 1 < fuel
    → kmem_alloc fuel bytes s ≡ some (p, s')
    → p ≢ 0
    → (s'' : Kmem) × (kmem_free_checked fuel p s' ≡ some (0, s'')) × IsHeap s'' xs
kmem_alloc-free s s' xs fuel bytes p i packed some_bytes small few enough done ne =
    let v =
      kmem_alloc-IsTaken s s' xs fuel bytes p i packed some_bytes small (omega arith) done ne in
    let (s'', freed, heap, _, _) =
      kmem_free-release s' fuel v.before v.after v.size v.heap (omega (arith, v.large))
        (omega (arith, v.few)) (omega (arith, v.few)) in
    (s'', ap (λ k. kmem_free_checked fuel k s') v.place ∙ freed, subst (IsHeap s'') v.back heap)
