-- ===== src/Heap/Align.antt =====
-- Rounding up to the heap's alignment, where nothing wraps around.
use m.Prelude.{ℕ, ◌+◌, ◌-◌, ◌*◌, ◌/◌, ◌%◌, ◌^◌, ◌≤◌, ◌<◌, ◌≡◌, false, true, arith, ltb}
use m.Word.{add64}
use m.Word.Mask.{bit_and_line_base}
use m.Heap.Types.{kmem_align, kmem_align_up_ptr, kmem_align_up_size}

pub align_up_ptr_lem :
    (v : ℕ) → v + 16 ≤ 2 ^ 64 → kmem_align_up_ptr v kmem_align ≡ 16 * ((v + 15) / 16)
unfolding kmem_align_up_ptr
align_up_ptr_lem v h =
    let small : ltb (2 ^ 64 - 16) v ≡ false = ground arith in
    let sum : add64 v 15 ≡ v + 15 = omega arith in
    rw (small, sum) (bit_and_line_base (v + 15) (omega arith))

pub align_up_size_lem :
    (v : ℕ) → v + 16 ≤ 2 ^ 64 → kmem_align_up_size v kmem_align ≡ 16 * ((v + 15) / 16)
unfolding kmem_align_up_size
align_up_size_lem v h =
    let small : ltb (2 ^ 64 - 16) v ≡ false = ground arith in
    let sum : add64 v 15 ≡ v + 15 = omega arith in
    rw (small, sum) (bit_and_line_base (v + 15) (omega arith))

-- More than 2 ^ 64 - 16 bytes round up to none.
pub align_up_size_large :
    (v : ℕ) → 2 ^ 64 < v + 16 → v < 2 ^ 64 → kmem_align_up_size v kmem_align ≡ 0
unfolding kmem_align_up_size
align_up_size_large v h hv = let large : ltb (2 ^ 64 - 16) v ≡ true = ground arith in rw large

pub align_up_ptr-aligned :
    (v : ℕ) → v % 16 ≡ 0 → v + 16 ≤ 2 ^ 64 → kmem_align_up_ptr v kmem_align ≡ v
align_up_ptr-aligned v a h = omega (arith, align_up_ptr_lem v h)
