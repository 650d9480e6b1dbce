-- ===== src/Heap/Stats.antt =====
-- `kmem_get_stats` accounts for every byte of the heap.
use m.Prelude.{
  ℕ, zero, suc, ◌+◌, ◌-◌, ◌*◌, ◌^◌, ◌≤◌, ◌<◌, ◌≡◌, refl, ◌∙◌, ap, Bool, true, false, some, [], ◌∷◌,
  arith, length, ltb, ◌==◌, if◌then◌else◌,
}
use m.Word.{sub64}
use m.Heap.Types.{KmemBlock, Blocks, Kmem, KmemStats}
use m.Heap.Check.{no_stats, count_block, stats_from, kmem_get_stats}
use m.Heap.Spec.{Tiles}
use m.Heap.Chain.{Chain, Chain-le}
use m.Heap.Invariant.{IsHeap}

-- what the statistics are about
abbrev pub used_of : Tiles → ℕ
used_of [] = 0
used_of ((n, true) ∷ xs) = used_of xs
used_of ((n, false) ∷ xs) = n + used_of xs

abbrev pub free_of : Tiles → ℕ
free_of [] = 0
free_of ((n, true) ∷ xs) = n + free_of xs
free_of ((n, false) ∷ xs) = free_of xs

abbrev pub count_free : Tiles → ℕ
count_free [] = 0
count_free ((n, true) ∷ xs) = suc (count_free xs)
count_free ((n, false) ∷ xs) = count_free xs

-- the largest free size, `d` included
abbrev pub largest_of : ℕ → Tiles → ℕ
largest_of d [] = d
largest_of d ((n, true) ∷ xs) = largest_of (if ltb d n then n else d) xs
largest_of d ((n, false) ∷ xs) = largest_of d xs

-- the statistics `out'` are `out` and the blocks `xs`
pub record Counted (out : KmemStats) (xs : Tiles) (out' : KmemStats) : Type 0 where
  pub total : out'.total_bytes ≡ out.total_bytes
  pub used : out'.used_bytes ≡ out.used_bytes + used_of xs
  pub free : out'.free_bytes ≡ out.free_bytes + free_of xs
  pub blocks : out'.block_count ≡ out.block_count + length xs
  pub free_blocks : out'.free_count ≡ out.free_count + count_free xs
  pub largest : out'.largest_free ≡ largest_of out.largest_free xs

-- the sums that may not wrap around
abbrev Bounded : KmemStats → ℕ → Type 0
Bounded out left =
    (out.used_bytes + out.free_bytes + out.block_count + left < 2 ^ 64)
    × (out.free_count ≤ out.block_count)

count_block-Bounded :
    (b : KmemBlock) (out : KmemStats) (n left : ℕ)
    → b.size ≡ n
    → Bounded out (48 + n + left)
    → Bounded (count_block b out) left
unfolding count_block
count_block-Bounded b out n left size h = ground (arith, h.0, h.1)

count_block-Counted :
    (b : KmemBlock) (out out' : KmemStats) (n : ℕ) (f : Bool) (left : ℕ) (xs : Tiles)
    → b.size ≡ n
    → b.free ≡ f
    → Bounded out (48 + n + left)
    → Counted (count_block b out) xs out'
    → Counted out ((n, f) ∷ xs) out'
unfolding count_block
count_block-Counted b out out' n true left xs size flag h c = record {
  total = ground (arith, c.total);
  used = ground (arith, c.used);
  free = ground (arith, c.free, h.0);
  blocks = ground (arith, c.blocks, h.0);
  free_blocks = ground (arith, c.free_blocks, h.0, h.1);
  largest = c.largest ∙ (rw (flag, size));
}
count_block-Counted b out out' n false left xs size flag h c = record {
  total = ground (arith, c.total);
  used = ground (arith, c.used, h.0);
  free = ground (arith, c.free, h.0);
  blocks = ground (arith, c.blocks, h.0);
  free_blocks = ground (arith, c.free_blocks, h.0, h.1);
  largest = c.largest ∙ (rw flag);
}

stats_from-Counted :
    (m : Blocks) (stop : ℕ) (xs : Tiles) (fuel cur at prev : ℕ) (out : KmemStats)
    → Chain m stop cur at prev xs
    → 0 < at
    → Bounded out (stop - at)
    → length xs < fuel
    → (out' : KmemStats) × (stats_from fuel m cur out ≡ some out') × Counted out xs out'
unfolding stats_from
stats_from-Counted m stop xs zero cur at prev out c low h enough = absurd (omega arith)
stats_from-Counted m stop [] (suc fuel) cur at prev out c low h enough =
    let done : (cur == 0) ≡ true = ground (arith, c.0) in
    (
      out,
      rw done,
      record {
        total = refl;
        used = omega arith;
        free = omega arith;
        blocks = omega arith;
        free_blocks = omega arith;
        largest = refl;
      },
    )
stats_from-Counted m stop ((n, f) ∷ xs) (suc fuel) cur at prev out c low h enough =
    let far = Chain-le m stop (m at).next (at + 48 + n) at xs c.2 in
    let more : (at == 0) ≡ false = ground arith in
    let left : Bounded out (48 + n + (stop - (at + 48 + n))) = (omega (arith, h.0), h.1) in
    let (out', run, counted) =
      stats_from-Counted m stop xs fuel (m at).next (at + 48 + n) at (count_block (m at) out) c.2
        (omega arith) (count_block-Bounded (m at) out n (stop - (at + 48 + n)) c.1.size left)
        (omega arith) in
    (
      out',
      ap (λ k. stats_from (suc fuel) m k out) c.0 ∙ rw more run,
      count_block-Counted (m at) out out' n f (stop - (at + 48 + n)) xs c.1.size c.1.free left
          counted,
    )

tiles_sum :
    (m : Blocks) (stop : ℕ) (xs : Tiles) (cur at prev : ℕ)
    → Chain m stop cur at prev xs
    → at + used_of xs + free_of xs + 48 * length xs ≡ stop
tiles_sum m stop [] cur at prev c = omega (arith, c.1)
tiles_sum m stop ((n, true) ∷ xs) cur at prev c =
    omega (arith, tiles_sum m stop xs (m at).next (at + 48 + n) at c.2)
tiles_sum m stop ((n, false) ∷ xs) cur at prev c =
    omega (arith, tiles_sum m stop xs (m at).next (at + 48 + n) at c.2)

-- On a heap that is the blocks `xs`, the statistics are their number, the bytes in the used and in the free
-- ones, the number of free ones and the largest of these; with a header for each block, these bytes are all
-- the bytes of the heap.
pub kmem_get_stats-Counted :
    (s : Kmem) (xs : Tiles) (fuel : ℕ)
    → IsHeap s xs
    → length xs < fuel
    → (out : KmemStats) × (kmem_get_stats fuel s ≡ some out)
      × (out.used_bytes ≡ used_of xs)
      × (out.free_bytes ≡ free_of xs)
      × (out.block_count ≡ length xs)
      × (out.free_count ≡ count_free xs)
      × (out.largest_free ≡ largest_of 0 xs)
      × (out.used_bytes + out.free_bytes + 48 * out.block_count ≡ out.total_bytes)
unfolding kmem_get_stats
kmem_get_stats-Counted s xs fuel i enough =
    let all = tiles_sum s.blocks s.heap_end xs s.head s.heap_base 0 i.chain in
    let (out, run, c) =
      stats_from-Counted s.blocks s.heap_end xs fuel s.head s.heap_base 0
        (record no_stats { total_bytes = sub64 s.heap_end s.heap_base }) i.chain
        (omega (arith, i.low)) (omega (arith, i.room), omega arith) enough in
    (
      out,
      rw (i.started) run,
      omega (arith, c.used),
      omega (arith, c.free),
      omega (arith, c.blocks),
      omega (arith, c.free_blocks),
      c.largest,
      omega (arith, c.used, c.free, c.blocks, c.total, all, i.room),
    )
