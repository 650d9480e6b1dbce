-- ===== src/Heap/Tests.antt =====
-- A heap of 512 bytes, its runs, after tests/test_kmem.c, and the theorems at it.
use m.Prelude.{
  ℕ, ◌+◌, ◌-◌, ◌*◌, ◌%◌, ◌≤◌, ◌<◌, ◌≡◌, ◌≢◌, ◌⊎◌, refl, true, false, some, [], ◌∷◌, ◌++◌, arith,
  ◌==◌, Bool, if◌then◌else◌, length,
}
use m.Heap.Types.{Kmem, KmemBlock, KmemStats, kmem_magic, failure}
use m.Heap.Ops.{kmem_init, kmem_alloc, kmem_free_checked}
use m.Heap.Check.{guard_limit, kmem_validate, kmem_get_stats}
use m.Heap.Spec.{Tiles, end_of}
use m.Heap.Invariant.{IsHeap}
use m.Heap.Packed.{Packed}
use m.Heap.Init.{heap_start, heap_size, kmem_init-IsHeap}
use m.Heap.Taken.{Taken, kmem_alloc-first_fit}
use m.Heap.Freed.{kmem_free-release}
use m.Heap.Refused.{kmem_free-rejects}
use m.Heap.Release.{ends_free}
use m.Heap.Trip.{kmem_alloc-free}
use m.Heap.Stats.{kmem_get_stats-Counted}
use m.Heap.Reach.{Running, started, kmem_validate-Running}

abbrev header : ℕ → Bool → ℕ → ℕ → KmemBlock
header size free prev next = record {
  magic = kmem_magic;
  size = size;
  free = free;
  reserved = 0;
  reserved2 = 0;
  prev = prev;
  next = next;
}

-- memory before the start
abbrev blank : Kmem
blank = record {
  heap_base = 0;
  heap_end = 0;
  head = 0;
  initialized = false;
  blocks = λ p. header 0 false 0 0;
  bytes = λ a. 7;
}

-- A used block of 64 bytes between a free one of 128 and a free one of 176.
abbrev heap : Kmem
heap = record blank {
  heap_base = 4096;
  heap_end = 4608;
  head = 4096;
  initialized = true;
  blocks = λ p.
      if p == 4096
      then header 128 true 0 4272
      else if p == 4272
      then header 64 false 4096 4384
      else header 176 true 4272 0;
}

abbrev tiles : Tiles
tiles = (128, true) ∷ (64, false) ∷ (176, true) ∷ []

heap-IsHeap : IsHeap heap tiles
heap-IsHeap = record {
  started = refl;
  head_first = refl;
  low = omega arith;
  aligned = refl;
  room = omega arith;
  chain = (
    refl,
    record { magic = refl; size = refl; free = refl; prev_block = refl; aligned = refl },
    (
      refl,
      record { magic = refl; size = refl; free = refl; prev_block = refl; aligned = refl },
      (
        refl,
        record { magic = refl; size = refl; free = refl; prev_block = refl; aligned = refl },
        (refl, refl),
      ),
    ),
  );
}

tiles-Packed : Packed tiles
tiles-Packed = (omega arith, refl, (omega arith, refl, omega arith))

valid : kmem_validate 4 heap ≡ some 0
unfolding kmem_validate m.Heap.Check.validate_from m.Heap.Types.kmem_align_up_ptr
valid = refl

kmem_init-IsHeap_example :
    (s' : Kmem) × (kmem_init 2 4097 540 blank ≡ some (0, s'))
    × IsHeap s' ((heap_size 4097 540 - 48, true) ∷ [])
    × (s'.heap_base ≡ heap_start 4097)
    × (s'.bytes ≡ blank.bytes)
kmem_init-IsHeap_example =
    kmem_init-IsHeap blank 2 4097 540 (omega arith) (omega arith) (omega arith) (omega arith)
      (omega arith)

kmem_alloc-first_fit_example :
    Taken heap
      (kmem_alloc 4 20 heap)
      (some (4144, (32, false) ∷ (48, true) ∷ (64, false) ∷ (176, true) ∷ []))
kmem_alloc-first_fit_example =
    kmem_alloc-first_fit heap tiles 4 20 heap-IsHeap (omega arith) (omega arith) (omega arith)

taken : (s' : Kmem) × (kmem_alloc 5 20 heap ≡ some (4144, s'))
taken =
    let (s', done, _, _, _) =
      kmem_alloc-first_fit heap tiles 5 20 heap-IsHeap (omega arith) (omega arith) (omega arith) in
    (s', done)

kmem_alloc-free_example :
    (s'' : Kmem) × (kmem_free_checked 5 4144 taken.0 ≡ some (0, s'')) × IsHeap s'' tiles
kmem_alloc-free_example =
    kmem_alloc-free heap taken.0 tiles 5 20 4144 heap-IsHeap tiles-Packed (omega arith)
      (omega arith) (omega arith) (omega arith) taken.1 (omega arith)

begun : (s' : Kmem) × (kmem_init 2 4096 65536 blank ≡ some (0, s'))
begun =
    let (s', done, _, _, _) =
      kmem_init-IsHeap blank 2 4096 65536 (omega arith) (omega arith) (omega arith) (omega arith)
        (omega arith) in
    (s', done)

begun-Running : Running begun.0
begun-Running =
    started blank 2 4096 65536 (omega arith) (omega arith) (omega arith) (omega arith) (omega arith)
      begun.1

kmem_validate-Running_example :
    (xs : Tiles) × IsHeap begun.0 xs
    × Packed xs
    × ((fuel : ℕ)
        → length xs ≤ guard_limit
        → length xs < fuel
        → kmem_validate fuel begun.0 ≡ some 0)
    × ((fuel : ℕ)
        → guard_limit < length xs
        → guard_limit < fuel
        → kmem_validate fuel begun.0 ≡ some (failure 3))
kmem_validate-Running_example = kmem_validate-Running begun.0 begun-Running

kmem_free-release_example :
    (s' : Kmem) × (kmem_free_checked 4 4320 heap ≡ some (0, s'))
    × IsHeap s' ((464, true) ∷ [])
    × (s'.bytes ≡ heap.bytes)
    × (s'.heap_base ≡ 4096)
kmem_free-release_example =
    kmem_free-release heap 4 ((128, true) ∷ []) ((176, true) ∷ []) 64 heap-IsHeap (omega arith)
      (omega arith) (omega arith)

kmem_free-rejects_example :
    (kmem_free_checked 4 0 heap ≡ some (0, heap))
    × ((p : ℕ)
        → 0 < p
        → (p < 4096) ⊎ (4608 ≤ p)
        → kmem_free_checked 4 p heap ≡ some (failure 1, heap))
    × ((p : ℕ)
        → 4096 ≤ p
        → p < 4608
        → p % 16 ≢ 0
        → kmem_free_checked 4 p heap ≡ some (failure 2, heap))
    × ((p : ℕ)
        → 4096 ≤ p
        → p < 4608
        → p % 16 ≡ 0
        → (p < 4096 + 48) ⊎ ((heap.blocks (p - 48)).magic ≢ kmem_magic)
        → kmem_free_checked 4 p heap ≡ some (failure 3, heap))
    × ((l r : Tiles) (n : ℕ)
        → tiles ≡ l ++ ((n, true) ∷ r)
        → 0 < n
        → kmem_free_checked 4 (end_of 4096 l + 48) heap ≡ some (failure 4, heap))
    × ((l r : Tiles) (n : ℕ)
        → tiles ≡ l ++ ((n, false) ∷ r)
        → 0 < n
        → length tiles ≤ guard_limit
        → length tiles < 4
        → let p = end_of 4096 l + 48 in
          (s' : Kmem) × (kmem_free_checked 4 p heap ≡ some (0, s'))
          × (kmem_free_checked 4 p s' ≡ some (failure (if ends_free l then 3 else 4), s')))
kmem_free-rejects_example = kmem_free-rejects heap 4 tiles heap-IsHeap

kmem_get_stats-Counted_example :
    (out : KmemStats) × (kmem_get_stats 4 heap ≡ some out)
    × (out.used_bytes ≡ 64)
    × (out.free_bytes ≡ 304)
    × (out.block_count ≡ 3)
    × (out.free_count ≡ 2)
    × (out.largest_free ≡ 176)
    × (out.used_bytes + out.free_bytes + 48 * out.block_count ≡ out.total_bytes)
kmem_get_stats-Counted_example = kmem_get_stats-Counted heap tiles 4 heap-IsHeap (omega arith)
