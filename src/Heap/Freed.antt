-- ===== src/Heap/Freed.antt =====
-- `kmem_free_checked` gives a block back.
use m.Prelude.{
  ℕ, ◌+◌, ◌%◌, ◌^◌, ◌≤◌, ◌<◌, ◌≡◌, refl, ◌∙◌, ap, true, false, some, [], ◌∷◌, ◌++◌, arith, ◌==◌,
  length, bit_and,
}
use m.Word.Mask.{bit_and_line_offset}
use m.Heap.Types.{kmem_magic, Blocks, Kmem, kmem_header_from_payload, kmem_ptr_in_heap, put_block}
use m.Heap.Ops.{set_free, checked, validated, kmem_free_checked}
use m.Heap.Check.{guard_limit, kmem_validate}
use m.Heap.Spec.{Tiles, join, release, end_of}
use m.Heap.Release.{length-join, freed, freed-release, Boundary, Spent, ends_free}
use m.Heap.Invariant.{IsHeap, IsHeap-blocks, Chain-IsAt, validate-IsHeap, validate-code}

length-release :
    (l : Tiles) (n : ℕ) (r : Tiles) → length (release l n r) ≤ length (l ++ ((n, false) ∷ r))
length-release [] n r = omega (arith, length-join n true r)
length-release ((k, true) ∷ []) n r =
    omega (arith, length-join k true (join n true r), length-join n true r)
length-release ((k, false) ∷ []) n r = omega (arith, length-join n true r)
length-release ((k, f) ∷ e ∷ l) n r = omega (arith, length-release (e ∷ l) n r)

length-after : (l : Tiles) (n : ℕ) (r : Tiles) → length r + 1 ≤ length (l ++ ((n, false) ∷ r))
length-after [] n r = omega arith
length-after ((k, f) ∷ l) n r = omega (arith, length-after l n r)

start-Boundary : (l : Tiles) → Boundary l 0
start-Boundary [] = refl
start-Boundary (e ∷ l) = tt

pub in_heap-true :
    (s : Kmem) (p : ℕ)
    → s.initialized ≡ true
    → s.heap_base ≤ p
    → p < s.heap_end
    → kmem_ptr_in_heap s p ≡ true
unfolding kmem_ptr_in_heap
in_heap-true s p started low high = ground arith

module _ (s : Kmem) (fuel : ℕ) where
  -- the steps behind the guards
  free_checked-steps :
      (b : ℕ) (m : Blocks)
      → s.initialized ≡ true
      → s.heap_base ≤ b
      → b + 48 < s.heap_end
      → s.heap_end < 2 ^ 64
      → b % 16 ≡ 0
      → (s.blocks b).magic ≡ kmem_magic
      → (s.blocks b).free ≡ false
      → freed fuel b s.blocks ≡ some m
      → kmem_free_checked fuel (b + 48) s
        ≡ validated (record s { blocks = m }) (kmem_validate fuel (record s { blocks = m }))
  unfolding kmem_free_checked set_free
  free_checked-steps b m started low high small line magic used done =
      let some_ptr : (b + 48 == 0) ≡ false = ground arith in
      let inside = in_heap-true s (b + 48) started (omega arith) high in
      let whole : (bit_and (b + 48) 15 == 0) ≡ true =
        ground (arith, bit_and_line_offset (b + 48)) in
      let header : kmem_header_from_payload (b + 48) ≡ b = omega arith in
      let header_inside = in_heap-true s b started low (omega arith) in
      let right : ((s.blocks b).magic == kmem_magic) ≡ true = ground arith in
      rw (some_ptr, inside, whole, header, header_inside, right, used)
        (ap
          (checked fuel
            (record s { blocks = put_block s.blocks b (record (s.blocks b) { free = true }) }))
          done)

  -- Freeing the payload of a used block, up to the verdict of the validation.
  kmem_free-verdict :
      (l r : Tiles) (n : ℕ)
      → IsHeap s (l ++ ((n, false) ∷ r))
      → 0 < n
      → length (l ++ ((n, false) ∷ r)) < fuel
      → (s' : Kmem) × (kmem_free_checked fuel (end_of s.heap_base l + 48) s
          ≡ validated s' (kmem_validate fuel s'))
        × IsHeap s' (release l n r)
        × (s'.bytes ≡ s.bytes)
        × (s'.heap_base ≡ s.heap_base)
        × (s'.heap_end ≡ s.heap_end)
        × Spent (ends_free l) (s'.blocks (end_of s.heap_base l))
  kmem_free-verdict l r n i some_bytes enough =
      let b = end_of s.heap_base l in
      let v = Chain-IsAt s.blocks s.heap_end l n false r s.head s.heap_base 0 i.chain i.aligned in
      let (m, done, chain, _, spent) =
        freed-release s.blocks s.heap_end fuel n r i.room (omega (arith, length-after l n r)) l
          s.head s.heap_base 0 i.chain i.low i.aligned (start-Boundary l) in
      (
        record s { blocks = m },
        free_checked-steps b m i.started v.from (omega (arith, v.fits)) (omega (arith, i.room))
            v.on_line v.magic v.free done,
        IsHeap-blocks s (l ++ ((n, false) ∷ r)) (release l n r) m i chain,
        refl,
        refl,
        refl,
        spent,
      )

  -- On a heap of any number of blocks the block is given back, whatever code is returned.
  pub kmem_free-IsHeap :
      (l r : Tiles) (n : ℕ)
      → IsHeap s (l ++ ((n, false) ∷ r))
      → 0 < n
      → length (l ++ ((n, false) ∷ r)) < fuel
      → (code : ℕ) × (s' : Kmem) × (kmem_free_checked fuel (end_of s.heap_base l + 48) s
          ≡ some (code, s'))
        × IsHeap s' (release l n r)
  kmem_free-IsHeap l r n i some_bytes enough =
      let (s', steps, heap, _, _, _, _) = kmem_free-verdict l r n i some_bytes enough in
      let (code, verdict) =
        validate-code s' (release l n r) fuel heap (omega (arith, length-release l n r)) in
      (code, s', steps ∙ ap (validated s') verdict, heap)

  -- On a heap that validation accepts, with what is left of the block's header.
  pub kmem_free-Spent :
      (l r : Tiles) (n : ℕ)
      → IsHeap s (l ++ ((n, false) ∷ r))
      → 0 < n
      → length (l ++ ((n, false) ∷ r)) ≤ guard_limit
      → length (l ++ ((n, false) ∷ r)) < fuel
      → (s' : Kmem) × (kmem_free_checked fuel (end_of s.heap_base l + 48) s ≡ some (0, s'))
        × IsHeap s' (release l n r)
        × (s'.bytes ≡ s.bytes)
        × (s'.heap_base ≡ s.heap_base)
        × (s'.heap_end ≡ s.heap_end)
        × Spent (ends_free l) (s'.blocks (end_of s.heap_base l))
  kmem_free-Spent l r n i some_bytes few enough =
      let (s', steps, heap, kept, base, end, spent) = kmem_free-verdict l r n i some_bytes enough in
      let valid =
        validate-IsHeap s' (release l n r) fuel heap (omega (arith, length-release l n r))
          (omega (arith, length-release l n r)) in
      (s', steps ∙ ap (validated s') valid, heap, kept, base, end, spent)

  -- On a heap of at most as many blocks as validation allows, freeing the payload of a used block of at
  -- least one byte succeeds: the block is joined with its free neighbours.
  pub kmem_free-release :
      (l r : Tiles) (n : ℕ)
      → IsHeap s (l ++ ((n, false) ∷ r))
      → 0 < n
      → length (l ++ ((n, false) ∷ r)) ≤ guard_limit
      → length (l ++ ((n, false) ∷ r)) < fuel
      → (s' : Kmem) × (kmem_free_checked fuel (end_of s.heap_base l + 48) s ≡ some (0, s'))
        × IsHeap s' (release l n r)
        × (s'.bytes ≡ s.bytes)
        × (s'.heap_base ≡ s.heap_base)
  kmem_free-release l r n i some_bytes few enough =
      let (s', done, heap, kept, base, _, _) = kmem_free-Spent l r n i some_bytes few enough in
      (s', done, heap, kept, base)
