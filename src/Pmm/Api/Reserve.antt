-- ===== src/Pmm/Api/Reserve.antt =====
-- `pmm_reserve_range` takes the frames that the range touches, unless a sum wraps.
use m.Prelude.{ℕ, ◌+◌, ◌-◌, ◌^◌, ◌≤◌, ◌<◌, ◌≡◌, ◌∙◌, Bool, true, ◌||◌, some, arith}
use m.Pmm.Bitmap.{bitmap_test}
use m.Pmm.Frames.{PmmState, mark_range_used}
use m.Pmm.Frames.Mark.{Marked}
use m.Pmm.Frames.Span.{touches, mark_range_used-Marked}
use m.Pmm.Frames.Wrap.{mark_range_used_wraps}
use m.Pmm.Api.{reserve_range, pmm_reserve_range}
use m.Pmm.Api.Ready.{IsReady}

-- A change that only sets bits keeps the invariant.
pub Marked-IsReady :
    {s s' : PmmState} {used : ℕ → Bool}
    → IsReady s
    → Marked s s' used
    → 0 < s.frame_count
    → ((f : ℕ) → bitmap_test s.bitmap f ≡ true → used f ≡ true)
    → IsReady s'
Marked-IsReady v m some_frame keeps = record {
  sound = m.sound;
  ready = m.initialized ∙ v.ready;
  hint_le = omega (arith, m.hint_le, m.frame_count, v.hint_le);
  below = λ g hg.
      m.bits g (omega (arith, m.hint_le, v.hint_le))
      ∙ keeps g (v.below g (omega (arith, m.hint_le)));
  null_used = m.bits 0 some_frame ∙ keeps 0 v.null_used;
}

-- Reserving a non-empty range that ends at least a page below 2^64 succeeds, keeps the invariant,
-- and a frame is used afterwards exactly if it was before or the range touches it.
pub reserve_range-touches :
    {s : PmmState} (base length : ℕ)
    → IsReady s
    → 0 < s.frame_count
    → 0 < length
    → base + length ≤ 2 ^ 64 - 4096
    → (s' : PmmState) × (pmm_reserve_range (some s) base length ≡ (true, some s'))
      × IsReady s'
      × (s'.frame_count ≡ s.frame_count)
      × ((f : ℕ)
          → f < s.frame_count
          → bitmap_test s'.bitmap f ≡ (touches base length f || bitmap_test s.bitmap f))
unfolding pmm_reserve_range reserve_range
reserve_range-touches {s} base length v some_frame nonempty fits =
    let m = mark_range_used-Marked v.sound base length fits in
    (
      mark_range_used s base length,
      ground (arith, v.ready),
      Marked-IsReady v m some_frame λ f e. ground arith,
      m.frame_count,
      m.bits,
    )

-- A range whose end, as a sum without wrap-around, lies in the last page of the address space or
-- beyond it is reported as reserved, and the state is the one before: nothing has been reserved.
pub reserve_range_wraps :
    {s : PmmState} (base length : ℕ)
    → s.initialized ≡ true
    → 0 < length
    → 2 ^ 64 - 4096 < base + length
    → pmm_reserve_range (some s) base length ≡ (true, some s)
unfolding pmm_reserve_range reserve_range
reserve_range_wraps {s} base length ready nonempty high =
    ground (arith, mark_range_used_wraps s base length high)
