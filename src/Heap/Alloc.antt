-- ===== src/Heap/Alloc.antt =====
-- The search of `kmem_alloc` finds the first block that fits.
use m.Prelude.{
  ℕ, zero, suc, ◌+◌, ◌%◌, ◌^◌, ◌≤◌, ◌<◌, ◌≡◌, ◌≢◌, inl, inr, refl, sym, ◌∙◌, ap, subst, Bool, true,
  false, ◌&&◌, Option, none, some, [], ◌∷◌, arith, leb, ◌==◌, Bool-cases, length,
}
use m.Heap.Types.{kmem_magic, Blocks, Kmem, kmem_payload}
use m.Heap.Ops.{find_fit, kmem_split_if_useful, set_free}
use m.Heap.Spec.{Tiles, carve, first_fit, keep_first}
use m.Heap.Chain.{IsBlock, Chain, Chain-cons, Chain-le}
use m.Heap.Split.{take-Rebuilt}

some_pair :
    {p q : ℕ} {s t : Kmem} → p ≡ q → s ≡ t → ◌≡◌ {A = Option (ℕ × Kmem)} (some (p, s)) (some (q, t))
some_pair hp hs = λ i. some (hp i, hs i)

module _ (s : Kmem) (w : ℕ) where
  -- What a search from `cur` with the result `r` makes of the heap, where the first fit is `fit`.
  abbrev pub Found : Option (ℕ × Kmem) → ℕ → ℕ → ℕ → Option (ℕ × Tiles) → Type 0
  Found r cur at prev none = r ≡ some (0, s)
  Found r cur at prev (some (p, ys)) =
      (m : Blocks) × (r ≡ some (p, record s { blocks = m }))
      × Chain m s.heap_end cur at prev ys
      × ((q : ℕ) → q < at → m q ≡ s.blocks q)

  find_fit-here :
      (fuel at : ℕ)
      → at ≢ 0
      → (s.blocks at).magic ≡ kmem_magic
      → (s.blocks at).free && leb w (s.blocks at).size ≡ true
      → find_fit (suc fuel) w at s
        ≡ some (kmem_payload at, set_free at false (kmem_split_if_useful at w s))
  unfolding find_fit
  find_fit-here fuel at ne magic fits =
      let some_at : (at == 0) ≡ false = ground arith in
      let right : ((s.blocks at).magic == kmem_magic) ≡ true = ground arith in
      rw (some_at, right, fits)

  find_fit-next :
      (fuel at : ℕ)
      → at ≢ 0
      → (s.blocks at).magic ≡ kmem_magic
      → (s.blocks at).free && leb w (s.blocks at).size ≡ false
      → find_fit (suc fuel) w at s ≡ find_fit fuel w (s.blocks at).next s
  unfolding find_fit
  find_fit-next fuel at ne magic fits =
      let some_at : (at == 0) ≡ false = ground arith in
      let right : ((s.blocks at).magic == kmem_magic) ≡ true = ground arith in
      rw (some_at, right, fits)

  find_fit-end : (fuel : ℕ) → find_fit (suc fuel) w 0 s ≡ some (0, s)
  unfolding find_fit
  find_fit-end fuel = refl

  -- the block at `at` stays before what the search makes of the others
  Found-keep :
      (r : Option (ℕ × Kmem)) (cur at prev n : ℕ) (f : Bool) (fit : Option (ℕ × Tiles))
      → cur ≡ at
      → IsBlock (s.blocks at) n f prev
      → Found r (s.blocks at).next (at + 48 + n) at fit
      → Found r cur at prev (keep_first (n, f) fit)
  Found-keep r cur at prev n f none e v h = h
  Found-keep r cur at prev n f (some (p, ys)) e v (m, done, chain, below) = (
    m,
    done,
    Chain-cons m s.heap_end cur at prev n f ys (s.blocks at) e (below at (omega arith)) v chain,
    λ q hq. below q (omega arith),
  )

  pub find_fit-Found :
      (xs : Tiles) (fuel cur at prev : ℕ)
      → Chain s.blocks s.heap_end cur at prev xs
      → 16 ≤ at
      → at % 16 ≡ 0
      → s.heap_end + 96 ≤ 2 ^ 64
      → w % 16 ≡ 0
      → length xs < fuel
      → Found (find_fit fuel w cur s) cur at prev (first_fit w at xs)
  find_fit-Found xs zero cur at prev c low ac room aw enough = absurd (omega arith)
  find_fit-Found [] (suc fuel) cur at prev c low ac room aw enough =
      ap (λ k. find_fit (suc fuel) w k s) c.0 ∙ find_fit-end fuel
  find_fit-Found ((n, f) ∷ xs) (suc fuel) cur at prev c low ac room aw enough =
      let here : find_fit (suc fuel) w cur s ≡ find_fit (suc fuel) w at s =
        ap (λ k. find_fit (suc fuel) w k s) c.0 in
      let ne : at ≢ 0 = omega arith in
      let far = Chain-le s.blocks s.heap_end (s.blocks at).next (at + 48 + n) at xs c.2 in
      elim (Bool-cases (f && leb w n)) [
        | inl e ↦
            let fits : (s.blocks at).free && leb w (s.blocks at).size ≡ true =
              rw (c.1.free, c.1.size) e in
            let (m, same, (chain, below)) =
              take-Rebuilt s at prev n w f xs (refl, c.1, c.2) low ac room aw (ground arith) in
            rw e (
              m,
              here ∙ find_fit-here fuel at ne c.1.magic fits ∙ some_pair (omega arith) same,
              subst (λ k. Chain m s.heap_end k at prev (carve w n xs)) (sym c.0) chain,
              below,
            )
        | inr e ↦
            let fits : (s.blocks at).free && leb w (s.blocks at).size ≡ false =
              rw (c.1.free, c.1.size) e in
            let ih =
              find_fit-Found xs fuel (s.blocks at).next (at + 48 + n) at c.2 (omega arith)
                (omega (arith, c.1.aligned)) room aw (omega arith) in
            rw e (
              subst (λ r. Found r cur at prev (keep_first (n, f) (first_fit w (at + 48 + n) xs)))
                (sym (here ∙ find_fit-next fuel at ne c.1.magic fits))
                (Found-keep (find_fit fuel w (s.blocks at).next s) cur at prev n f
                  (first_fit w (at + 48 + n) xs) c.0 c.1 ih))
      ]
