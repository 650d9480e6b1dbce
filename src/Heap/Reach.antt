-- ===== src/Heap/Reach.antt =====
-- Runs of the heap: allocations, and frees of blocks that are in use, in any order.
use m.Prelude.{
  ℕ, ◌+◌, ◌-◌, ◌^◌, ◌≤◌, ◌<◌, ◌≡◌, refl, sym, ◌∙◌, ap, subst, true, false, Option, none, some, [],
  ◌∷◌, ◌++◌, arith, length,
}
use native.Mathlib.Decide.{ℕ_discrete}
use m.Heap.Types.{failure, Blocks, Kmem}
use m.Heap.Ops.{kmem_init, kmem_alloc, kmem_free_checked}
use m.Heap.Check.{guard_limit, kmem_validate}
use m.Heap.Spec.{Tiles, end_of, release, first_fit}
use m.Heap.Chain.{Chain}
use m.Heap.Invariant.{IsHeap, validate-IsHeap, validate-long}
use m.Heap.Packed.{Packed, Packed-release}
use m.Heap.Taken.{rounded, first_fit-IsFirst, Taken, kmem_alloc-first_fit}
use m.Heap.Trip.{ptr_or, heap_or, kmem_alloc-IsTaken}
use m.Heap.Freed.{kmem_free-IsHeap}
use m.Heap.Init.{heap_start, heap_size, kmem_init-IsHeap}

-- `p` is the payload of a used block of at least one byte.
pub record IsLive (s : Kmem) (p : ℕ) : Type 0 where
  pub before : Tiles
  pub size : ℕ
  pub after : Tiles
  pub heap : IsHeap s (before ++ ((size, false) ∷ after))
  pub place : p ≡ end_of s.heap_base before + 48
  pub positive : 0 < size

-- The heap after a start and calls with fuel for each of its blocks, on memory as `kmem_init` needs it. A
-- free may return any code.
pub data Running : Kmem → Type 0 where
  started :
      {s' : Kmem} (s : Kmem) (fuel base bytes : ℕ)
      → 0 < base
      → base + bytes + 96 ≤ 2 ^ 64
      → heap_start base ≤ base + bytes
      → 80 < heap_size base bytes
      → 2 ≤ fuel
      → kmem_init fuel base bytes s ≡ some (0, s')
      → Running s'
  allocated :
      {s' : Kmem} (s : Kmem) (fuel bytes p : ℕ)
      → Running s
      → 0 < bytes
      → bytes + 16 ≤ 2 ^ 64
      → ((xs : Tiles) → IsHeap s xs → length xs < fuel)
      → kmem_alloc fuel bytes s ≡ some (p, s')
      → Running s'
  freed :
      {s' : Kmem} (s : Kmem) (fuel p code : ℕ)
      → Running s
      → IsLive s p
      → ((xs : Tiles) → IsHeap s xs → length xs < fuel)
      → kmem_free_checked fuel p s ≡ some (code, s')
      → Running s'

-- The headers determine the blocks.
Chain-unique :
    (m : Blocks) (stop cur at prev : ℕ) (xs ys : Tiles)
    → 0 < at
    → Chain m stop cur at prev xs
    → Chain m stop cur at prev ys
    → xs ≡ ys
Chain-unique m stop cur at prev [] [] h c d = refl
Chain-unique m stop cur at prev [] (y ∷ ys) h c d = absurd (omega (arith, c.0, d.0))
Chain-unique m stop cur at prev (x ∷ xs) [] h c d = absurd (omega (arith, c.0, d.0))
Chain-unique m stop cur at prev ((n, f) ∷ xs) ((k, g) ∷ ys) h c d =
    let size : k ≡ n = sym d.1.size ∙ c.1.size in
    let flag : f ≡ g = sym c.1.free ∙ d.1.free in
    let rest =
      Chain-unique m stop (m at).next (at + 48 + n) at xs ys (omega arith) c.2
        (subst (λ j. Chain m stop (m at).next (at + 48 + j) at ys) size d.2) in
    λ i. (sym size i, flag i) ∷ rest i

IsHeap-unique : (s : Kmem) (xs ys : Tiles) → IsHeap s xs → IsHeap s ys → xs ≡ ys
IsHeap-unique s xs ys i j =
    Chain-unique s.blocks s.heap_end s.head s.heap_base 0 xs ys (omega (arith, i.low)) i.chain
      j.chain

-- A null result changes nothing.
alloc-null :
    (s s' : Kmem) (w : ℕ) (xs : Tiles) (r : Option (ℕ × Kmem)) (fit : Option (ℕ × Tiles))
    → first_fit w s.heap_base xs ≡ fit
    → Taken s r fit
    → r ≡ some (0, s')
    → s ≡ s'
alloc-null s s' w xs r none e h done = ap (heap_or s) (sym h ∙ done)
alloc-null s s' w xs r (some (q, ys)) e (t, taken, _, _, _) done =
    let v = first_fit-IsFirst w s.heap_base xs q ys e in
    absurd (omega (arith, v.place, ap ptr_or (sym taken ∙ done)))

alloc-Packed :
    (s s' : Kmem) (xs : Tiles) (fuel bytes p : ℕ)
    → IsHeap s xs
    → Packed xs
    → 0 < bytes
    → bytes + 16 ≤ 2 ^ 64
    → length xs < fuel
    → kmem_alloc fuel bytes s ≡ some (p, s')
    → (ys : Tiles) × IsHeap s' ys × Packed ys
alloc-Packed s s' xs fuel bytes p i packed some_bytes small enough done = elim (ℕ_discrete p 0) [
  | no ne ↦
      let v = kmem_alloc-IsTaken s s' xs fuel bytes p i packed some_bytes small enough done ne in
      (v.before ++ ((v.size, false) ∷ v.after), v.heap, v.packed)
  | yes e ↦ (
    xs,
    subst (λ k. IsHeap k xs)
        (alloc-null s s' (rounded bytes) xs (kmem_alloc fuel bytes s)
          (first_fit (rounded bytes) s.heap_base xs) refl
          (kmem_alloc-first_fit s xs fuel bytes i some_bytes small enough)
          (done ∙ ap (λ k. some (k, s')) e))
        i,
    packed,
  )
]

pub Running-IsHeap : (s : Kmem) → Running s → (xs : Tiles) × IsHeap s xs × Packed xs
Running-IsHeap s (started s₀ fuel base bytes some_base room inside large enough done) =
    let (t, run, heap, _, _) =
      kmem_init-IsHeap s₀ fuel base bytes some_base room inside large enough in
    let same : t ≡ s = ap (heap_or s) (sym run ∙ done) in
    (
      (heap_size base bytes - 48, true) ∷ [],
      subst (λ k. IsHeap k ((heap_size base bytes - 48, true) ∷ [])) same heap,
      omega arith,
    )
Running-IsHeap s (allocated s₀ fuel bytes p before some_bytes small enough done) =
    let (xs, i, packed) = Running-IsHeap s₀ before in
    alloc-Packed s₀ s xs fuel bytes p i packed some_bytes small (enough xs i) done
Running-IsHeap s (freed s₀ fuel p code before live enough done) =
    let (xs, i, packed) = Running-IsHeap s₀ before in
    let ys = live.before ++ ((live.size, false) ∷ live.after) in
    let (rc, t, run, heap) =
      kmem_free-IsHeap s₀ fuel live.before live.after live.size live.heap live.positive
        (enough ys live.heap) in
    let same : t ≡ s =
      ap (heap_or s) (sym run ∙ ap (λ k. kmem_free_checked fuel k s₀) (sym live.place) ∙ done) in
    (
      release live.before live.size live.after,
      subst (λ k. IsHeap k (release live.before live.size live.after)) same heap,
      Packed-release live.before live.size live.after
          (subst Packed (IsHeap-unique s₀ xs ys i live.heap) packed),
    )

-- In every heap that a run reaches, the headers tile the memory with no two free blocks side by side.
-- With fuel for its turns, validation accepts the heap if it has at most 2 ^ 20 blocks, and refuses it with
-- -3 if it has more.
pub kmem_validate-Running :
    (s : Kmem)
    → Running s
    → (xs : Tiles) × IsHeap s xs
      × Packed xs
      × ((fuel : ℕ) → length xs ≤ guard_limit → length xs < fuel → kmem_validate fuel s ≡ some 0)
      × ((fuel : ℕ)
          → guard_limit < length xs
          → guard_limit < fuel
          → kmem_validate fuel s ≡ some (failure 3))
kmem_validate-Running s run =
    let (xs, i, packed) = Running-IsHeap s run in
    (
      xs,
      i,
      packed,
      λ fuel few enough. validate-IsHeap s xs fuel i few enough,
      λ fuel many enough. validate-long s xs fuel i many enough,
    )
