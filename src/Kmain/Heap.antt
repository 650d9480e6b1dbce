-- ===== src/Kmain/Heap.antt =====
-- The kernel's heap as its entry leaves it.
use m.Prelude.{
  ℕ, ◌+◌, ◌-◌, ◌%◌, ◌^◌, ◌≤◌, ◌<◌, ◌≡◌, ◌≢◌, refl, subst, true, false, some, [], ◌∷◌, inr, arith,
  ◌==◌,
}
use m.Heap.Types.{Kmem}
use m.Heap.Ops.{kmem_init, kmem_alloc, kmem_free_checked}
use m.Heap.Spec.{Tiles}
use m.Heap.Invariant.{IsHeap}
use m.Heap.Init.{heap_start, heap_size, kmem_init-IsHeap}
use m.Heap.Taken.{kmem_alloc-first_fit}
use m.Heap.Trip.{kmem_alloc-free}
use m.Heap.Stats.{kmem_get_stats-Counted}
use m.Kmain.{m8_boot_heap_size, heap_freed, heap_probed, heap_started, m8_heap_bootstrap}

-- one free block of all 65536 bytes but its header
abbrev pub boot_tiles : Tiles
boot_tiles = (65488, true) ∷ []

heap_freed-ok :
    (fuel : ℕ) (s : Kmem)
    → IsHeap s boot_tiles
    → 2 ≤ fuel
    → heap_freed fuel (some (0, s)) ≡ some (inr s)
unfolding heap_freed
heap_freed-ok fuel s heap enough =
    let (out, run, _, _, _, _, _, _) =
      kmem_get_stats-Counted s boot_tiles fuel heap (omega arith) in
    rw run refl

-- the calls of the bootstrap, one after the other
heap_steps :
    (fuel base p : ℕ) (s s₁ s₂ s₃ : Kmem)
    → kmem_init fuel base m8_boot_heap_size s ≡ some (0, s₁)
    → kmem_alloc fuel 128 s₁ ≡ some (p, s₂)
    → p ≢ 0
    → kmem_free_checked fuel p s₂ ≡ some (0, s₃)
    → IsHeap s₃ boot_tiles
    → 2 ≤ fuel
    → m8_heap_bootstrap fuel base s ≡ some (inr s₃)
unfolding m8_heap_bootstrap heap_started heap_probed
heap_steps fuel base p s s₁ s₂ s₃ begun taken ne freed heap enough =
    let given : (p == 0) ≡ false = ground arith in
    rw (begun, taken, given, freed) (heap_freed-ok fuel s₃ heap enough)

-- On a heap area that starts at a page and ends below the end of the address space, fuel for four blocks is
-- enough for the start of the heap: no step of it panics, and it leaves the heap one free block.
pub heap_bootstrap-IsHeap :
    (s : Kmem) (fuel base : ℕ)
    → 0 < base
    → base % 4096 ≡ 0
    → base + 65632 ≤ 2 ^ 64
    → 4 ≤ fuel
    → (s' : Kmem) × (m8_heap_bootstrap fuel base s ≡ some (inr s')) × IsHeap s' boot_tiles
heap_bootstrap-IsHeap s fuel base some_base aligned room enough =
    let start : heap_start base ≡ base = omega (arith, aligned) in
    let size : heap_size base m8_boot_heap_size ≡ 65536 = omega (arith, aligned) in
    let (s₁, begun, heap₁, _, _) =
      kmem_init-IsHeap s fuel base m8_boot_heap_size some_base (omega arith)
        (omega (arith, aligned)) (omega (arith, aligned)) (omega arith) in
    let whole : IsHeap s₁ boot_tiles = subst (λ n. IsHeap s₁ ((n - 48, true) ∷ [])) size heap₁ in
    let (s₂, taken, _, _, _) =
      kmem_alloc-first_fit s₁ boot_tiles fuel 128 whole (omega arith) (omega arith) (omega arith) in
    let probe : s₁.heap_base + 48 ≢ 0 = λ z. omega arith in
    let (s₃, freed, heap₃) =
      kmem_alloc-free s₁ s₂ boot_tiles fuel 128 (s₁.heap_base + 48) whole (omega arith)
        (omega arith) (omega arith) (omega arith) (omega arith) taken probe in
    (
      s₃,
      heap_steps fuel base (s₁.heap_base + 48) s s₁ s₂ s₃ begun taken probe freed heap₃
          (omega arith),
      heap₃,
    )
