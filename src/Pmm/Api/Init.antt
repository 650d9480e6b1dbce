-- ===== src/Pmm/Api/Init.antt =====
-- `pmm_init_from_map`: which frames are free after the start.
use m.Prelude.{
  ℕ, ◌+◌, ◌-◌, ◌*◌, ◌/◌, ◌%◌, ◌^◌, ◌≤◌, ◌<◌, ◌≡◌, ◌≢◌, ◌⊎◌, inl, inr, refl, ◌∙◌, Bool, true, false,
  not, ◌&&◌, ◌||◌, some, List, [], ◌∷◌, arith, ◌==◌, length, Bool-cases,
}
use m.Word.Mask.{bit_and_page_offset}
use m.Pmm.Bitmap.{bitmap_test}
use m.Pmm.Bitmap.Laws.{IsBytes, fill-IsBytes, length-fill, bitmap_test-fill}
use m.Pmm.Frames.{PmmState, page_size, mark_range_used}
use m.Pmm.Frames.Count.{count_free-none}
use m.Pmm.Frames.Mark.{IsSound, Marked, Marked-refl, Marked-trans, Marked-widen}
use m.Pmm.Frames.Span.{covers, touches, mark_range_free-Marked, mark_range_used-Marked}
use m.Pmm.Api.{
  BootMemRegion, boot_mem_usable, all_used, free_usable, reserve_others, init_state, init_accepts,
  is_frame_free, pmm_init_from_map,
}
use m.Pmm.Api.Ready.{IsReady, is_frame_free-bit}

-- no region ends in the last page of the address space
abbrev pub Fit : List BootMemRegion → Type 0
Fit [] = Unit {0}
Fit (r ∷ rs) = (r.base + r.length ≤ 2 ^ 64 - 4096) × Fit rs

-- some usable region covers the whole frame
unfoldable pub usable_covers : List BootMemRegion → ℕ → Bool
usable_covers [] f = false
usable_covers (r ∷ rs) f =
    (r.type == boot_mem_usable && covers r.base r.length f) || usable_covers rs f

-- some region of another type has a byte of the frame
unfoldable pub other_touches : List BootMemRegion → ℕ → Bool
other_touches [] f = false
other_touches (r ∷ rs) f =
    (not (r.type == boot_mem_usable) && touches r.base r.length f) || other_touches rs f

free_usable-Marked :
    (rs : List BootMemRegion) {s : PmmState}
    → Fit rs
    → IsSound s
    → Marked s (free_usable rs s) (λ f. not (usable_covers rs f) && bitmap_test s.bitmap f)
unfolding free_usable usable_covers
free_usable-Marked [] h v = Marked-refl v _ λ f hf. refl
free_usable-Marked (r ∷ rs) h v = elim (Bool-cases (r.type == boot_mem_usable)) [
  | inr other ↦ rw other (Marked-widen (free_usable-Marked rs h.1 v) λ f hf. refl)
  | inl usable ↦
      let first = mark_range_free-Marked v r.base r.length h.0 in
      rw usable
        (Marked-trans first (free_usable-Marked rs h.1 first.sound) _ λ f hf e. rw e (ground arith))
]

reserve_others-Marked :
    (rs : List BootMemRegion) {s : PmmState}
    → Fit rs
    → IsSound s
    → Marked s (reserve_others rs s) (λ f. other_touches rs f || bitmap_test s.bitmap f)
unfolding reserve_others other_touches
reserve_others-Marked [] h v = Marked-refl v _ λ f hf. refl
reserve_others-Marked (r ∷ rs) h v = elim (Bool-cases (r.type == boot_mem_usable)) [
  | inl usable ↦ rw usable (Marked-widen (reserve_others-Marked rs h.1 v) λ f hf. refl)
  | inr other ↦
      let first = mark_range_used-Marked v r.base r.length h.0 in
      rw other (
        Marked-trans first (reserve_others-Marked rs h.1 first.sound) _
          λ f hf e. rw e (ground arith))
]

module _ (storage : List ℕ) (max : ℕ) (bytes : IsBytes storage) (small : max < 2 ^ 64)
    (aligned : max % 4096 ≡ 0) (room : (max / 4096 + 7) / 8 ≤ length storage) where
  -- Before the regions are read every frame is in use.
  all_used-test : (f : ℕ) → f < max / 4096 → bitmap_test (all_used storage max).bitmap f ≡ true
  unfolding all_used
  all_used-test f hf = bitmap_test-fill _ f storage (omega arith) (omega arith)

  all_used-IsSound : IsSound (all_used storage max)
  unfolding all_used
  all_used-IsSound = record {
    bytes = fill-IsBytes _ 0 storage bytes;
    room = omega (arith, length-fill ((max / 4096 + 7) % 2 ^ 64 / 8) 0 storage);
    phys = omega arith;
    range = small;
    counted = omega (arith, count_free-none _ (max / 4096) all_used-test);
    total = omega arith;
  }

  all_used-start :
      ((all_used storage max).frame_count ≡ max / 4096) × ((all_used storage max).next_hint ≡ 0)
  unfolding all_used
  all_used-start = (refl, refl)

  module _ (regions : List BootMemRegion) (fit : Fit regions) where
    -- what `init_state` makes of the bits, with the reservation of frame 0 in the middle
    init_state-Marked :
        let loops =
          reserve_others regions
            (mark_range_used (free_usable regions (all_used storage max)) 0 page_size) in
        Marked
          (all_used storage max)
          loops
          (λ f. not (usable_covers regions f) || f == 0 || other_touches regions f)
    init_state-Marked =
        let freed = free_usable-Marked regions fit all_used-IsSound in
        let null = mark_range_used-Marked freed.sound 0 page_size (omega arith) in
        let others = reserve_others-Marked regions fit null.sound in
        Marked-trans
          (Marked-trans freed null (λ f. not (usable_covers regions f) || f == 0)
            λ f hf e.
              rw (e, all_used-test f (frames f hf)) (null_touch (usable_covers regions f) f))
          others _
          λ f hf e. rw e (swap (not (usable_covers regions f)) (f == 0) (other_touches regions f))
      where
        frames : (f : ℕ) → f < (all_used storage max).frame_count → f < max / 4096
        frames f hf = omega (arith, all_used-start)

        null_touch :
            (c : Bool) (f : ℕ) → (touches 0 page_size f || (not c && true)) ≡ (not c || f == 0)
        null_touch c f = ground arith

        swap : (a b c : Bool) → (c || (a || b)) ≡ (a || b || c)
        swap a b c = ground arith

    init_state-IsReady : 0 < max → IsReady (init_state regions storage max)
    unfolding init_state
    init_state-IsReady pos =
        let m = init_state-Marked in
        record {
          sound = record {
            bytes = m.sound.bytes;
            room = m.sound.room;
            phys = m.sound.phys;
            range = m.sound.range;
            counted = m.sound.counted;
            total = m.sound.total;
          };
          ready = refl;
          hint_le = omega (arith, m.hint_le, all_used-start);
          below = λ f hf. absurd (omega (arith, m.hint_le, all_used-start));
          null_used = m.bits 0 (omega (arith, all_used-start)) ∙ ground arith;
        }

    init_state-bits :
        ((init_state regions storage max).frame_count ≡ max / 4096)
        × ((f : ℕ)
            → f < max / 4096
            → bitmap_test (init_state regions storage max).bitmap f
              ≡ (not (usable_covers regions f) || f == 0 || other_touches regions f))
    unfolding init_state
    init_state-bits = (
      init_state-Marked.frame_count ∙ all_used-start.0,
      λ f hf. init_state-Marked.bits f (omega (arith, all_used-start)),
    )

init_accepts-true :
    (bytes max : ℕ)
    → 0 < max
    → max % 4096 ≡ 0
    → (max / 4096 + 7) / 8 ≤ bytes
    → max < 2 ^ 64
    → init_accepts bytes max ≡ true
unfolding init_accepts
init_accepts-true bytes max pos aligned room small = ground (arith, bit_and_page_offset max)

-- With a page-aligned, non-zero memory size, room for its bitmap and regions that end below the last
-- page of the address space, the start succeeds and the invariant holds. A managed frame is then free
-- exactly if a usable region covers it, it is not frame 0, and no region of another type touches it.
pub init-is_frame_free :
    (old : PmmState) (r : BootMemRegion) (rs : List BootMemRegion) (storage : List ℕ)
    (bytes max : ℕ)
    → IsBytes storage
    → bytes ≤ length storage
    → 0 < max
    → max < 2 ^ 64
    → max % 4096 ≡ 0
    → (max / 4096 + 7) / 8 ≤ bytes
    → Fit (r ∷ rs)
    → (s : PmmState) × (pmm_init_from_map (some old) (some (r ∷ rs)) (some storage) bytes max
        ≡ (true, some s))
      × IsReady s
      × (s.frame_count ≡ max / 4096)
      × ((f : ℕ)
          → f < max / 4096
          → is_frame_free s (4096 * f)
            ≡ (usable_covers (r ∷ rs) f && not (f == 0) && not (other_touches (r ∷ rs) f)))
unfolding pmm_init_from_map
init-is_frame_free old r rs storage bytes max isb le pos small aligned room fit =
    let held : (max / 4096 + 7) / 8 ≤ length storage = omega arith in
    let ready = init_state-IsReady storage max isb small aligned held (r ∷ rs) fit pos in
    let (count, bits) = init_state-bits storage max isb small aligned held (r ∷ rs) fit in
    (
      init_state (r ∷ rs) storage max,
      rw (init_accepts-true bytes max pos aligned room small),
      ready,
      count,
      λ f hf. is_frame_free-bit f ready (omega (arith, count)) ∙ rw (bits f hf) (ground arith),
    )

-- A size that is 0 or no multiple of the page, or too little storage, is refused, and the state is
-- left as it was.
pub init_refuses :
    (old : PmmState) (regions : List BootMemRegion) (storage : List ℕ) (bytes max : ℕ)
    → max < 2 ^ 64
    → (max ≡ 0) ⊎ (max % 4096 ≢ 0) ⊎ (bytes < (max / 4096 + 7) / 8)
    → pmm_init_from_map (some old) (some regions) (some storage) bytes max ≡ (false, some old)
unfolding pmm_init_from_map init_accepts
init_refuses old [] storage bytes max small h = refl
init_refuses old (r ∷ rs) storage bytes max small h = ground (arith, bit_and_page_offset max)
