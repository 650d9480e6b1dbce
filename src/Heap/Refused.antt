-- ===== src/Heap/Refused.antt =====
-- What `kmem_free_checked` refuses.
use m.Prelude.{
  ℕ, ◌+◌, ◌-◌, ◌%◌, ◌^◌, ◌≤◌, ◌<◌, ◌≡◌, ◌≢◌, ◌⊎◌, refl, sym, ap, subst, Bool, true, false, ◌&&◌,
  some, ◌∷◌, ◌++◌, arith, ltb, leb, ◌==◌, length, bit_and, if◌then◌else◌, inl, inr,
}
use native.Mathlib.Decide.{dec_lt}
use m.Word.Mask.{bit_and_line_offset}
use m.Heap.Types.{kmem_magic, failure, Kmem, KmemBlock, kmem_header_from_payload, kmem_ptr_in_heap}
use m.Heap.Ops.{kmem_free_checked}
use m.Heap.Check.{guard_limit}
use m.Heap.Spec.{Tiles, end_of}
use m.Heap.Chain.{Chain}
use m.Heap.Release.{Spent, ends_free}
use m.Heap.Invariant.{IsHeap, Chain-IsAt}
use m.Heap.Freed.{in_heap-true, kmem_free-Spent}

-- the code that refuses a block that was given back, behind the blocks `l`
abbrev refusal : Tiles → ℕ
refusal l = if ends_free l then 3 else 4

Spent-refusal :
    (last_free : Bool) (b : KmemBlock)
    → Spent last_free b
    → let code : ℕ = if last_free then 3 else 4 in
      ((code ≡ 3) × (b.magic ≢ kmem_magic))
      ⊎ ((code ≡ 4) × (b.magic ≡ kmem_magic) × (b.free ≡ true))
Spent-refusal true b h = inl (refl, λ e. omega (arith, h, e))
Spent-refusal false b h = inr (refl, h.0, h.1)

module _ (s : Kmem) (fuel : ℕ) where
  -- an aligned pointer in the heap, whose header would lie before the heap
  early_refused :
      (p : ℕ)
      → s.initialized ≡ true
      → 16 ≤ s.heap_base
      → s.heap_end + 96 ≤ 2 ^ 64
      → s.heap_base ≤ p
      → p < s.heap_end
      → p % 16 ≡ 0
      → p < s.heap_base + 48
      → kmem_free_checked fuel p s ≡ some (failure 3, s)
  unfolding kmem_free_checked kmem_ptr_in_heap
  early_refused p started base room low high line early =
      let null : (p == 0) ≡ false = ground arith in
      let inside : s.initialized && leb s.heap_base p && ltb p s.heap_end ≡ true =
        ground (arith, started) in
      let bits : (bit_and p 15 == 0) ≡ true = ground (arith, bit_and_line_offset p) in
      let h = kmem_header_from_payload p in
      let outside : s.initialized && leb s.heap_base h && ltb h s.heap_end ≡ false = ground arith in
      rw (null, inside, bits, outside)

  -- A pointer at the payload of a header: its mark and its state decide.
  at_header :
      (b code : ℕ)
      → s.initialized ≡ true
      → s.heap_end + 96 ≤ 2 ^ 64
      → s.heap_base ≤ b
      → b + 48 < s.heap_end
      → b % 16 ≡ 0
      → ((code ≡ 3) × ((s.blocks b).magic ≢ kmem_magic))
        ⊎ ((code ≡ 4) × ((s.blocks b).magic ≡ kmem_magic) × ((s.blocks b).free ≡ true))
      → kmem_free_checked fuel (b + 48) s ≡ some (failure code, s)
  unfolding kmem_free_checked
  at_header b code started room low high line refused =
      let null : (b + 48 == 0) ≡ false = ground arith in
      let inside = in_heap-true s (b + 48) started (omega arith) high in
      let bits : (bit_and (b + 48) 15 == 0) ≡ true = ground (arith, bit_and_line_offset (b + 48)) in
      let header : kmem_header_from_payload (b + 48) ≡ b = omega (arith, high, room) in
      let header_inside = in_heap-true s b started low (omega arith) in
      elim refused [
        | inl (e, wrong) ↦
            let unmarked : ((s.blocks b).magic == kmem_magic) ≡ false = ground arith in
            rw (null, inside, bits, header, header_inside, unmarked)
              (ap (λ c. some (failure c, s)) (sym e))
        | inr (e, magic, free) ↦
            let right : ((s.blocks b).magic == kmem_magic) ≡ true = ground (arith, magic) in
            rw (null, inside, bits, header, header_inside, right, free)
              (ap (λ c. some (failure c, s)) (sym e))
      ]

module _ (s : Kmem) (fuel : ℕ) where
  -- A used block that is freed twice.
  free_twice :
      (l r : Tiles) (n : ℕ)
      → IsHeap s (l ++ ((n, false) ∷ r))
      → 0 < n
      → length (l ++ ((n, false) ∷ r)) ≤ guard_limit
      → length (l ++ ((n, false) ∷ r)) < fuel
      → let p = end_of s.heap_base l + 48 in
        (s' : Kmem) × (kmem_free_checked fuel p s ≡ some (0, s'))
        × (kmem_free_checked fuel p s' ≡ some (failure (refusal l), s'))
  free_twice l r n i some_bytes few enough =
      let v = Chain-IsAt s.blocks s.heap_end l n false r s.head s.heap_base 0 i.chain i.aligned in
      let (s', done, heap, _, base, end, spent) =
        kmem_free-Spent s fuel l r n i some_bytes few enough in
      let b = end_of s.heap_base l in
      (
        s',
        done,
        at_header s' fuel b (refusal l) heap.started heap.room (omega (arith, v.from, base))
            (omega (arith, v.fits, end)) v.on_line
            (Spent-refusal (ends_free l) (s'.blocks b) spent),
      )

  -- On a well-formed heap null is accepted and nothing happens. An address outside the heap is refused with
  -- the code -1, one off the alignment with -2, an aligned one with -3 if its header would lie before the
  -- heap or the header there has no mark, and the payload of a free block of at least one byte with -4, and
  -- nothing changes. On a heap of at most 2 ^ 20 blocks, with fuel for them, a used block of at least one
  -- byte can be freed once; the second time it is refused, with -3 if it was joined with a free block before
  -- it and with -4 otherwise, and nothing changes.
  pub kmem_free-rejects :
      (xs : Tiles)
      → IsHeap s xs
      → (kmem_free_checked fuel 0 s ≡ some (0, s))
        × ((p : ℕ)
            → 0 < p
            → (p < s.heap_base) ⊎ (s.heap_end ≤ p)
            → kmem_free_checked fuel p s ≡ some (failure 1, s))
        × ((p : ℕ)
            → s.heap_base ≤ p
            → p < s.heap_end
            → p % 16 ≢ 0
            → kmem_free_checked fuel p s ≡ some (failure 2, s))
        × ((p : ℕ)
            → s.heap_base ≤ p
            → p < s.heap_end
            → p % 16 ≡ 0
            → (p < s.heap_base + 48) ⊎ ((s.blocks (p - 48)).magic ≢ kmem_magic)
            → kmem_free_checked fuel p s ≡ some (failure 3, s))
        × ((l r : Tiles) (n : ℕ)
            → xs ≡ l ++ ((n, true) ∷ r)
            → 0 < n
            → kmem_free_checked fuel (end_of s.heap_base l + 48) s ≡ some (failure 4, s))
        × ((l r : Tiles) (n : ℕ)
            → xs ≡ l ++ ((n, false) ∷ r)
            → 0 < n
            → length xs ≤ guard_limit
            → length xs < fuel
            → let p = end_of s.heap_base l + 48 in
              (s' : Kmem) × (kmem_free_checked fuel p s ≡ some (0, s'))
              × (kmem_free_checked fuel p s' ≡ some (failure (if ends_free l then 3 else 4), s')))
  unfolding kmem_free_checked kmem_ptr_in_heap
  kmem_free-rejects xs i = (
    refl,
    λ p some_ptr out.
        let null : (p == 0) ≡ false = ground arith in
        let outside : s.initialized && leb s.heap_base p && ltb p s.heap_end ≡ false =
          ground arith in
        rw (null, outside),
    λ p low high off.
        let null : (p == 0) ≡ false = ground (arith, i.low) in
        let inside : s.initialized && leb s.heap_base p && ltb p s.heap_end ≡ true =
          ground (arith, i.started) in
        let bits : (bit_and p 15 == 0) ≡ false = ground (arith, bit_and_line_offset p) in
        rw (null, inside, bits),
    λ p low high line unmarked. elim (dec_lt p (s.heap_base + 48)) [
      | yes early ↦ early_refused s fuel p i.started i.low i.room low high line early
      | no late ↦
          let b = p - 48 in
          let place : b + 48 ≡ p = omega (arith, late) in
          subst (λ k. kmem_free_checked fuel k s ≡ some (failure 3, s)) place
            (at_header s fuel b 3 i.started i.room (omega (arith, late))
              (omega (arith, place, high)) (omega (arith, place, line))
              (inl (refl, elim unmarked [ inl early ↦ absurd (late early) | inr wrong ↦ wrong ])))
    ],
    λ l r n same some_bytes.
        let b = end_of s.heap_base l in
        let v =
          Chain-IsAt s.blocks s.heap_end l n true r s.head s.heap_base 0
            (subst (λ k. Chain s.blocks s.heap_end s.head s.heap_base 0 k) same i.chain)
            i.aligned in
        at_header s fuel b 4 i.started i.room v.from (omega (arith, v.fits)) v.on_line
          (inr (refl, v.magic, v.free)),
    λ l r n same some_bytes few enough.
        free_twice l r n (subst (IsHeap s) same i) some_bytes
          (subst (λ k. length k ≤ guard_limit) same few) (subst (λ k. length k < fuel) same enough),
  )
