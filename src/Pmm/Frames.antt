-- ===== src/Pmm/Frames.antt =====
-- The state of src/pmm.c, and its static functions on single frames and on address ranges.
pub mod Count
pub mod Mark
pub mod Span
pub mod Wrap
use m.Prelude.{
  ℕ, zero, suc, ◌+◌, ◌-◌, ◌/◌, ◌%◌, ◌^◌, Bool, true, false, not, Option, none, some, List, bit_and,
  ltb, leb, ◌==◌, if◌then◌else◌,
}
use m.Word.{uint64_max, add64, sub64, not64}
use m.Pmm.Bitmap.{bitmap_set, bitmap_clear, bitmap_test}

abbrev pub page_size : ℕ
page_size = 4096

abbrev pub invalid_frame : ℕ
invalid_frame = 2 ^ 64 - 1

-- `struct pmm_state`. The bitmap is the storage that `bitmap` points to; a NULL bitmap is `[]`.
pub record PmmState : Type 0 where
  pub bitmap : List ℕ
  pub bitmap_bytes : ℕ
  pub max_phys : ℕ
  pub frame_count : ℕ
  pub free_frames : ℕ
  pub used_frames : ℕ
  pub reserved_frames : ℕ
  pub ignored_frames : ℕ
  pub next_hint : ℕ
  pub initialized : Bool

unfoldable pub align_down : ℕ → ℕ → ℕ
align_down value align = bit_and value (not64 (sub64 align 1))

unfoldable pub align_up : ℕ → ℕ → ℕ
align_up value align = bit_and (sub64 (add64 value align) 1) (not64 (sub64 align 1))

-- `none` for `false`, and the sum that goes through `out`
unfoldable pub checked_add_u64 : ℕ → ℕ → Option ℕ
checked_add_u64 a b = if ltb (uint64_max - a) b then none else some (add64 a b)

-- the body of the inner `if` of `mark_frame_free`
release_frame : PmmState → ℕ → PmmState
release_frame pmm frame = record pmm {
  bitmap = bitmap_clear pmm.bitmap frame;
  free_frames = add64 pmm.free_frames 1;
  used_frames = if ltb 0 pmm.used_frames then pmm.used_frames - 1 else pmm.used_frames;
  next_hint = if ltb frame pmm.next_hint then frame else pmm.next_hint;
}

unfoldable pub mark_frame_free : PmmState → ℕ → PmmState
unfolding release_frame
mark_frame_free pmm frame =
    if leb pmm.frame_count frame
    then pmm
    else if bitmap_test pmm.bitmap frame
    then release_frame pmm frame
    else pmm

-- the body of the inner `if` of `mark_frame_used`
occupy_frame : PmmState → ℕ → PmmState
occupy_frame pmm frame = record pmm {
  bitmap = bitmap_set pmm.bitmap frame;
  free_frames = if ltb 0 pmm.free_frames then pmm.free_frames - 1 else pmm.free_frames;
  used_frames = add64 pmm.used_frames 1;
}

unfoldable pub mark_frame_used : PmmState → ℕ → PmmState
unfolding occupy_frame
mark_frame_used pmm frame =
    if leb pmm.frame_count frame
    then pmm
    else if not (bitmap_test pmm.bitmap frame)
    then occupy_frame pmm frame
    else pmm

-- for (addr; addr < stop; addr += PMM_PAGE_SIZE) mark_frame_free(pmm, addr / PMM_PAGE_SIZE). Each
-- round raises `addr`, so `stop - addr` is fuel enough.
unfoldable pub free_pages : ℕ → ℕ → ℕ → PmmState → PmmState
free_pages zero addr stop pmm = pmm
free_pages (suc fuel) addr stop pmm = elim (ltb addr stop) [
  | false ↦ pmm
  | true ↦ free_pages fuel (add64 addr page_size) stop (mark_frame_free pmm (addr / page_size))
]

-- what `mark_range_free` does with the page-aligned range that it computes
unfoldable pub free_span : PmmState → ℕ → ℕ → PmmState
free_span pmm start stop =
    if leb stop start
    then pmm
    else if leb pmm.max_phys start
    then pmm
    else if ltb pmm.max_phys stop
    then free_pages (pmm.max_phys - start) start pmm.max_phys (record pmm {
      ignored_frames = add64 pmm.ignored_frames (sub64 stop pmm.max_phys / page_size);
    })
    else free_pages (stop - start) start stop pmm

unfoldable pub mark_range_free : PmmState → ℕ → ℕ → PmmState
mark_range_free pmm base length = if length == 0 then pmm else elim (checked_add_u64 base length) [
  | none ↦ pmm
  | some end ↦ free_span pmm (align_up base page_size) (align_down end page_size)
]

-- the loop body of `mark_range_used`
unfoldable pub reserve_frame : PmmState → ℕ → PmmState
reserve_frame pmm frame =
    let was_free = not (bitmap_test pmm.bitmap frame) in
    let pmm' = mark_frame_used pmm frame in
    if was_free then record pmm' { reserved_frames = add64 pmm'.reserved_frames 1 } else pmm'

unfoldable pub reserve_pages : ℕ → ℕ → ℕ → PmmState → PmmState
reserve_pages zero addr stop pmm = pmm
reserve_pages (suc fuel) addr stop pmm = elim (ltb addr stop) [
  | false ↦ pmm
  | true ↦ reserve_pages fuel (add64 addr page_size) stop (reserve_frame pmm (addr / page_size))
]

unfoldable pub reserve_span : PmmState → ℕ → ℕ → PmmState
reserve_span pmm start stop =
    if leb stop start
    then pmm
    else if leb pmm.max_phys start
    then pmm
    else let stop' = if ltb pmm.max_phys stop then pmm.max_phys else stop in
      reserve_pages (stop' - start) start stop' pmm

unfoldable pub mark_range_used : PmmState → ℕ → ℕ → PmmState
mark_range_used pmm base length = if length == 0 then pmm else elim (checked_add_u64 base length) [
  | none ↦ pmm
  | some end ↦ reserve_span pmm (align_down base page_size) (align_up end page_size)
]
