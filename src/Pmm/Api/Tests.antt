-- ===== src/Pmm/Api/Tests.antt =====
-- A machine with sixteen frames, its runs, and the theorems of the memory manager at it.
use m.Prelude.{
  ℕ, ◌*◌, ◌<◌, ◌≡◌, refl, inl, inr, true, false, not, ◌&&◌, ◌||◌, some, [], ◌∷◌, arith, ◌==◌,
}
use m.Pmm.Bitmap.{bitmap_test}
use m.Pmm.Frames.{PmmState, mark_range_free}
use m.Pmm.Frames.Count.{count_free}
use m.Pmm.Frames.Span.{touches}
use m.Pmm.Frames.Wrap.{mark_range_free_wraps}
use m.Pmm.Api.{
  BootMemRegion, zero_state, pmm_init_from_map, pmm_alloc_frame, pmm_free_frame, pmm_reserve_range,
  is_frame_free,
}
use m.Pmm.Api.Ready.{IsReady}
use m.Pmm.Api.Init.{usable_covers, other_touches, init-is_frame_free}
use m.Pmm.Api.Alloc.{IsLowest, Taken, alloc_frame-IsLowest}
use m.Pmm.Api.Free.{Released, free_frame-Released, free_frame-rejects, alloc-free-alloc}
use m.Pmm.Api.Reserve.{reserve_range-touches, reserve_range_wraps}

-- all of memory, with the fifth frame taken by the kernel
abbrev whole : BootMemRegion
whole = record { base = 0; length = 65536; type = 1 }

abbrev kernel : BootMemRegion
kernel = record { base = 0x4000; length = 0x1000; type = 4 }

abbrev booted : PmmState
booted = record {
  bitmap = 17 ∷ 0 ∷ [];
  bitmap_bytes = 2;
  max_phys = 65536;
  frame_count = 16;
  free_frames = 14;
  used_frames = 2;
  reserved_frames = 2;
  ignored_frames = 0;
  next_hint = 0;
  initialized = true;
}

boots :
    pmm_init_from_map (some zero_state) (some (whole ∷ kernel ∷ [])) (some (0 ∷ 0 ∷ [])) 2 65536
    ≡ (true, some booted)
unfolding pmm_init_from_map m.Pmm.Api.init_accepts m.Pmm.Api.init_state m.Pmm.Api.all_used
    m.Pmm.Api.free_usable m.Pmm.Api.reserve_others m.Pmm.Frames.mark_range_free
    m.Pmm.Frames.free_span m.Pmm.Frames.free_pages m.Pmm.Frames.mark_frame_free
    m.Pmm.Frames.mark_range_used m.Pmm.Frames.reserve_span m.Pmm.Frames.reserve_pages
    m.Pmm.Frames.reserve_frame m.Pmm.Frames.mark_frame_used m.Pmm.Frames.align_up
    m.Pmm.Frames.align_down m.Pmm.Frames.checked_add_u64 m.Pmm.Bitmap.bitmap_set
    m.Pmm.Bitmap.bitmap_clear bitmap_test m.Pmm.Bitmap.fill_used
boots = refl

booted-IsReady : IsReady booted
unfolding count_free bitmap_test
booted-IsReady = record {
  sound = record {
    bytes = omega arith;
    room = omega arith;
    phys = refl;
    range = omega arith;
    counted = refl;
    total = refl;
  };
  ready = refl;
  hint_le = omega arith;
  below = λ f h. absurd (omega arith);
  null_used = refl;
}

bit_four : bitmap_test booted.bitmap 4 ≡ true
unfolding bitmap_test
bit_four = refl

init-is_frame_free_example :
    (s : PmmState) × (pmm_init_from_map
        (some zero_state)
        (some (whole ∷ kernel ∷ []))
        (some (0 ∷ 0 ∷ []))
        2
        65536
      ≡ (true, some s))
    × IsReady s
    × (s.frame_count ≡ 16)
    × ((f : ℕ)
        → f < 16
        → is_frame_free s (4096 * f) ≡ (
            usable_covers (whole ∷ kernel ∷ []) f
            && not (f == 0)
            && not (other_touches (whole ∷ kernel ∷ []) f)))
init-is_frame_free_example =
    init-is_frame_free zero_state whole (kernel ∷ []) (0 ∷ 0 ∷ []) 2 65536 (omega arith)
      (omega arith) (omega arith) (omega arith) (omega arith) (omega arith) (omega arith)

alloc_frame-IsLowest_example :
    (f : ℕ) × (s' : PmmState) × (pmm_alloc_frame (some booted) ≡ (4096 * f, some s'))
    × IsLowest booted f
    × (0 < f)
    × Taken booted f s'
alloc_frame-IsLowest_example = alloc_frame-IsLowest booted-IsReady (omega arith)

free_frame-Released_example :
    (s' : PmmState) × (pmm_free_frame (some booted) (4096 * 4) ≡ (true, some s'))
    × Released booted 4 s'
free_frame-Released_example =
    free_frame-Released 4 booted-IsReady (omega arith) (omega arith) bit_four

free_frame-rejects_example : pmm_free_frame (some booted) 65536 ≡ (false, some booted)
free_frame-rejects_example = free_frame-rejects 65536 (inr (inr (inl (omega arith))))

-- the state with the kernel's frame given back
give_back :
    (s' : PmmState) × (pmm_free_frame (some booted) (4096 * 4) ≡ (true, some s'))
    × Released booted 4 s'
give_back = free_frame-Released 4 booted-IsReady (omega arith) (omega arith) bit_four

alloc-free-alloc_example :
    (f : ℕ) × (s₁ : PmmState) × (s₂ : PmmState) × (pmm_alloc_frame (some booted)
      ≡ (4096 * f, some s₁))
    × (pmm_free_frame (some s₁) (4096 * f) ≡ (true, some s₂))
    × IsReady s₂
    × (s₂.free_frames ≡ 14)
    × ((g : ℕ) → g < 16 → bitmap_test s₂.bitmap g ≡ bitmap_test booted.bitmap g)
    × ((pmm_alloc_frame (some s₂)).0 ≡ 4096 * f)
alloc-free-alloc_example = alloc-free-alloc booted-IsReady (omega arith)

reserve_range-touches_example :
    (s' : PmmState) × (pmm_reserve_range (some booted) 0x5fff 2 ≡ (true, some s'))
    × IsReady s'
    × (s'.frame_count ≡ 16)
    × ((f : ℕ)
        → f < 16
        → bitmap_test s'.bitmap f ≡ (touches 0x5fff 2 f || bitmap_test booted.bitmap f))
reserve_range-touches_example =
    reserve_range-touches 0x5fff 2 booted-IsReady (omega arith) (omega arith) (omega arith)

reserve_range_wraps_example :
    pmm_reserve_range (some booted) 0x8000 0xffff_ffff_ffff_7fff ≡ (true, some booted)
reserve_range_wraps_example =
    reserve_range_wraps 0x8000 0xffff_ffff_ffff_7fff refl (omega arith) (omega arith)

mark_range_free_wraps_example :
    bitmap_test (mark_range_free booted 0xffff_ffff_ffff_f800 0x100).bitmap 4 ≡ false
mark_range_free_wraps_example =
    mark_range_free_wraps 0xffff_ffff_ffff_f800 0x100 4 booted-IsReady.sound (omega arith)
      (omega arith) (omega arith) (omega arith)
