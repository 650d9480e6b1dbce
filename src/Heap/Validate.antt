-- ===== src/Heap/Validate.antt =====
-- `kmem_validate` accepts a heap whose headers form a chain.
use m.Prelude.{
  ℕ, zero, suc, ◌+◌, ◌%◌, ◌^◌, ◌≤◌, ◌<◌, ◌≡◌, refl, ◌∙◌, ap, Bool, true, false, ◌||◌, some, [], ◌∷◌,
  arith, ltb, ◌==◌, length,
}
use native.Mathlib.Decide.{dec_lt}
use m.Word.{add64, sub64}
use m.Heap.Types.{kmem_magic, header_size, failure, Kmem, kmem_payload}
use m.Heap.Check.{guard_limit, validate_from}
use m.Heap.Spec.{Tiles}
use m.Heap.Align.{align_up_ptr-aligned}
use m.Heap.Chain.{Chain, Chain-le}

module _ (s : Kmem) (low : 16 ≤ s.heap_base) (room : s.heap_end + 96 ≤ 2 ^ 64) where
  -- one turn of the loop at a block of the chain
  validate_from-step :
      (fuel at prev guard n : ℕ) (f : Bool) (xs : Tiles)
      → Chain s.blocks s.heap_end at at prev ((n, f) ∷ xs)
      → s.heap_base ≤ at
      → at % 16 ≡ 0
      → guard < guard_limit
      → validate_from (suc fuel) s at prev at guard
        ≡ validate_from fuel s (s.blocks at).next at (at + 48 + n) (guard + 1)
  unfolding validate_from
  validate_from-step fuel at prev guard n f xs h from aligned few =
      let fits = Chain-le s.blocks s.heap_end (s.blocks at).next (at + 48 + n) at xs h.2 in
      let some_at : (at == 0) ≡ false = ground arith in
      let counted : add64 guard 1 ≡ guard + 1 = omega arith in
      let below : ltb guard_limit (guard + 1) ≡ false = ground arith in
      let same : (at == at) ≡ true = ground arith in
      let inside : ltb at s.heap_base || ltb s.heap_end (add64 at header_size) ≡ false =
        ground arith in
      let magic : ((s.blocks at).magic == kmem_magic) ≡ true = ground (arith, h.1.magic) in
      let back : ((s.blocks at).prev == prev) ≡ true = ground (arith, h.1.prev_block) in
      let size : ltb (sub64 s.heap_end (kmem_payload at)) (s.blocks at).size ≡ false =
        ground (arith, h.1.size) in
      let end : add64 (kmem_payload at) (s.blocks at).size ≡ at + 48 + n =
        omega (arith, h.1.size) in
      let up = align_up_ptr-aligned (at + 48 + n) (omega (arith, h.1.aligned)) (omega arith) in
      let ends : (at + 48 + n == 0) || ltb s.heap_end (at + 48 + n) ≡ false = ground arith in
      rw (some_at, counted, below, same, inside, magic, back, size, end, up, ends)

  pub validate_from-Chain :
      (xs : Tiles) (fuel cur at prev guard : ℕ)
      → Chain s.blocks s.heap_end cur at prev xs
      → s.heap_base ≤ at
      → at % 16 ≡ 0
      → guard + length xs ≤ guard_limit
      → length xs < fuel
      → validate_from fuel s cur prev at guard ≡ some 0
  unfolding validate_from
  validate_from-Chain xs zero cur at prev guard h from aligned few enough = absurd (omega arith)
  validate_from-Chain [] (suc fuel) cur at prev guard h from aligned few enough =
      let done : (cur == 0) ≡ true = ground (arith, h.0) in rw done
  validate_from-Chain ((n, f) ∷ xs) (suc fuel) cur at prev guard h from aligned few enough =
      ap (λ p. validate_from (suc fuel) s p prev at guard) h.0
      ∙ validate_from-step fuel at prev guard n f xs (refl, h.1, h.2) from aligned (omega arith)
      ∙ validate_from-Chain xs fuel (s.blocks at).next (at + 48 + n) at (guard + 1) h.2
          (omega arith) (omega (arith, h.1.aligned)) (omega arith) (omega arith)

  -- A chain that is longer than the limit is given up with the code -3.
  pub validate_from-long :
      (xs : Tiles) (fuel cur at prev guard : ℕ)
      → Chain s.blocks s.heap_end cur at prev xs
      → s.heap_base ≤ at
      → at % 16 ≡ 0
      → guard ≤ guard_limit
      → guard_limit < guard + length xs
      → guard_limit < guard + fuel
      → validate_from fuel s cur prev at guard ≡ some (failure 3)
  unfolding validate_from
  validate_from-long xs zero cur at prev guard h from aligned few many enough = absurd (omega arith)
  validate_from-long [] (suc fuel) cur at prev guard h from aligned few many enough =
      absurd (omega arith)
  validate_from-long ((n, f) ∷ xs) (suc fuel) cur at prev guard h from aligned few many enough =
      elim (dec_lt guard guard_limit) [
        | yes more ↦
            ap (λ p. validate_from (suc fuel) s p prev at guard) h.0
            ∙ validate_from-step fuel at prev guard n f xs (refl, h.1, h.2) from aligned more
            ∙ validate_from-long xs fuel (s.blocks at).next (at + 48 + n) at (guard + 1) h.2
                (omega arith) (omega (arith, h.1.aligned)) (omega arith) (omega arith) (omega arith)
        | no last ↦
            let some_cur : (cur == 0) ≡ false = ground (arith, h.0) in
            let over : ltb guard_limit (add64 guard 1) ≡ true = ground arith in rw (some_cur, over)
      ]
