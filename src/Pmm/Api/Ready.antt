-- ===== src/Pmm/Api/Ready.antt =====
-- The invariant of an initialised memory manager.
use m.Prelude.{ℕ, ◌*◌, ◌/◌, ◌≤◌, ◌<◌, ◌≡◌, true, not, arith}
use m.Word.Mask.{bit_and_page_offset}
use m.Pmm.Bitmap.{bitmap_test}
use m.Pmm.Frames.{PmmState}
use m.Pmm.Frames.Mark.{IsSound}
use m.Pmm.Api.{is_frame_free}

-- Sound and initialised; no frame below the hint is free; frame 0 is in use.
pub record IsReady (s : PmmState) : Type 0 where
  pub sound : IsSound s
  pub ready : s.initialized ≡ true
  pub hint_le : s.next_hint ≤ s.frame_count
  pub below : (f : ℕ) → f < s.next_hint → bitmap_test s.bitmap f ≡ true
  pub null_used : bitmap_test s.bitmap 0 ≡ true

-- The query on the address of a managed frame reads that frame's bit.
pub is_frame_free-bit :
    {s : PmmState} (f : ℕ)
    → IsReady s
    → f < s.frame_count
    → is_frame_free s (4096 * f) ≡ not (bitmap_test s.bitmap f)
unfolding is_frame_free
is_frame_free-bit {s} f v hf =
    ground (arith, v.ready, v.sound.phys, bit_and_page_offset (4096 * f), number)
  where
    number : 4096 * f / 4096 ≡ f
    number = omega arith
