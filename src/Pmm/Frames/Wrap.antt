-- ===== src/Pmm/Frames/Wrap.antt =====
-- What the range functions do where a sum on addresses wraps around 2^64.
use m.Prelude.{ℕ, ◌+◌, ◌-◌, ◌^◌, ◌<◌, ◌≡◌, ◌∙◌, false, arith, ◌==◌}
use m.Word.{add64, sub64}
use m.Word.Mask.{bit_and_page_base}
use m.Pmm.Bitmap.{bitmap_test}
use m.Pmm.Frames.Mark.{IsSound}
use m.Pmm.Frames.Span.{align_down-page, checked_add-fits, free_span-Marked}
use m.Pmm.Frames.{
  PmmState, page_size, align_down, align_up, checked_add_u64, mark_range_free, reserve_span,
  mark_range_used,
}

-- Rounding up an address of the last page, but for its first byte, wraps to 0.
pub align_up_wraps : (x : ℕ) → 2 ^ 64 - 4096 < x → x < 2 ^ 64 → align_up x page_size ≡ 0
unfolding align_up
align_up_wraps x low high = omega (arith, bit_and_page_base (sub64 (add64 x 4096) 1) (omega arith))

-- A range to reserve that ends within the last page of the address space reserves nothing, however
-- many managed frames it touches.
pub mark_range_used_wraps :
    (s : PmmState) (base length : ℕ)
    → 2 ^ 64 - 4096 < base + length
    → mark_range_used s base length ≡ s
unfolding mark_range_used checked_add_u64 reserve_span
mark_range_used_wraps s base length low = ground (arith, align_up_wraps (base + length))

-- A usable range that starts within the last page of the address space, behind its first byte, frees
-- every managed frame.
pub mark_range_free_wraps :
    {s : PmmState} (base length f : ℕ)
    → IsSound s
    → 2 ^ 64 - 4096 < base
    → 0 < length
    → base + length < 2 ^ 64
    → f < s.frame_count
    → bitmap_test (mark_range_free s base length).bitmap f ≡ false
unfolding mark_range_free
mark_range_free_wraps {s} base length f v low nonempty high hf =
    let empty : (length == 0) ≡ false = ground arith in
    let m =
      free_span-Marked v 0 (2 ^ 52 - 1) 0 (align_down (base + length) page_size) (omega arith)
        (align_down-page (base + length) high ∙ omega arith) in
    rw (empty, checked_add-fits base length high, align_up_wraps base low (omega arith))
      (m.bits f hf ∙ ground (arith, v.phys, v.range))
