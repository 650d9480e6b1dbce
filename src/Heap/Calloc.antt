-- ===== src/Heap/Calloc.antt =====
-- `kmem_calloc` guards its product and clears what it allocates.
use m.Prelude.{ℕ, ◌+◌, ◌≤◌, ◌≡◌, false, ◌∷◌, ◌++◌}
use m.Heap.Types.{Kmem}
use m.Heap.Spec.{Tiles, end_of}
use m.Heap.Invariant.{IsHeap}
use m.Heap.Packed.{Packed}

-- where an array of `total` bytes lies: in the payload of a used block
pub record IsArray (s : Kmem) (p total : ℕ) : Type 0 where
  pub before : Tiles
  pub size : ℕ
  pub after : Tiles
  pub heap : IsHeap s (before ++ ((size, false) ∷ after))
  pub place : p ≡ end_of s.heap_base before + 48
  pub large : total ≤ size
  pub low : s.heap_base + 48 ≤ p
  pub high : p + size ≤ s.heap_end
