-- ===== src/Pmm/Api.antt =====
-- The public functions of src/pmm.c. A pointer that the code compares with NULL is an option, and a
-- function that updates `*pmm` returns the new state behind its result. The functions named after
-- what they do are the code behind the NULL check.
pub mod Alloc
pub mod Free
pub mod Init
pub mod Ready
pub mod Reserve
pub mod Tests
use m.Prelude.{
  ℕ, zero, suc, ◌+◌, ◌-◌, ◌/◌, ◌%◌, ◌^◌, Bool, true, false, not, ◌||◌, Option, none, some, List, [],
  ◌∷◌, bit_and, ltb, leb, ◌==◌, if◌then◌else◌,
}
use m.Word.{add64, sub64, mul64}
use m.Pmm.Bitmap.{bitmap_test, find_free, fill_used}
use m.Pmm.Frames.{
  PmmState, page_size, invalid_frame, mark_frame_free, mark_frame_used, mark_range_free,
  mark_range_used,
}

abbrev pub boot_mem_usable : ℕ
boot_mem_usable = 1

-- `struct boot_mem_region`. Of `enum boot_mem_type` the code asks only for BOOT_MEM_USABLE.
pub record BootMemRegion : Type 0 where
  pub base : ℕ
  pub length : ℕ
  pub type : ℕ

abbrev pub zero_state : PmmState
zero_state = record {
  bitmap = [];
  bitmap_bytes = 0;
  max_phys = 0;
  frame_count = 0;
  free_frames = 0;
  used_frames = 0;
  reserved_frames = 0;
  ignored_frames = 0;
  next_hint = 0;
  initialized = false;
}

unfoldable pub pmm_zero_state : Option PmmState → Option PmmState
pmm_zero_state none = none
pmm_zero_state (some _) = some zero_state

-- the state before the loops over the regions
unfoldable pub all_used : List ℕ → ℕ → PmmState
all_used storage max_phys_bytes =
    let frame_count = max_phys_bytes / page_size in
    let required = add64 frame_count 7 / 8 in
    record zero_state {
      bitmap = fill_used required 0 storage;
      bitmap_bytes = required;
      max_phys = max_phys_bytes;
      frame_count = frame_count;
      free_frames = 0;
      used_frames = frame_count;
      next_hint = 0;
    }

unfoldable pub free_usable : List BootMemRegion → PmmState → PmmState
free_usable [] pmm = pmm
free_usable (r ∷ regions) pmm =
    free_usable regions
      (if r.type == boot_mem_usable then mark_range_free pmm r.base r.length else pmm)

unfoldable pub reserve_others : List BootMemRegion → PmmState → PmmState
reserve_others [] pmm = pmm
reserve_others (r ∷ regions) pmm =
    reserve_others regions
      (if not (r.type == boot_mem_usable) then mark_range_used pmm r.base r.length else pmm)

-- the code behind the guards
unfoldable pub init_state : List BootMemRegion → List ℕ → ℕ → PmmState
init_state regions storage max_phys_bytes =
    let freed = free_usable regions (all_used storage max_phys_bytes) in
    record (reserve_others regions (mark_range_used freed 0 page_size)) { initialized = true }

-- the guards on the sizes
unfoldable pub init_accepts : ℕ → ℕ → Bool
init_accepts bitmap_storage_bytes max_phys_bytes =
    if max_phys_bytes == 0 || not (bit_and max_phys_bytes (sub64 page_size 1) == 0)
    then false
    else not (ltb bitmap_storage_bytes (add64 (max_phys_bytes / page_size) 7 / 8))

-- `region_count` is the length of the list of regions.
unfoldable pub pmm_init_from_map :
    Option PmmState → Option (List BootMemRegion) → Option (List ℕ) → ℕ → ℕ → Bool × Option PmmState
pmm_init_from_map none regions storage bytes max = (false, none)
pmm_init_from_map (some pmm) none storage bytes max = (false, some pmm)
pmm_init_from_map (some pmm) (some regions) none bytes max = (false, some pmm)
pmm_init_from_map (some pmm) (some []) (some storage) bytes max = (false, some pmm)
pmm_init_from_map (some pmm) (some (r ∷ rs)) (some storage) bytes max =
    if init_accepts bytes max
    then (true, some (init_state (r ∷ rs) storage max))
    else (false, some pmm)

-- `mark_frame_used`, the new hint, and the frame's address
unfoldable pub take_frame : PmmState → ℕ → ℕ × PmmState
take_frame pmm frame =
    (mul64 frame page_size, record (mark_frame_used pmm frame) { next_hint = add64 frame 1 })

unfoldable pub alloc_frame : PmmState → ℕ × PmmState
alloc_frame pmm =
    if not pmm.initialized || pmm.free_frames == 0
    then (invalid_frame, pmm)
    else elim (find_free (pmm.frame_count - pmm.next_hint) pmm.bitmap pmm.next_hint
        pmm.frame_count) [
          | some frame ↦ take_frame pmm frame
          | none ↦ elim (find_free pmm.next_hint pmm.bitmap 0 pmm.next_hint) [
            | some frame ↦ take_frame pmm frame
            | none ↦ (invalid_frame, pmm)
          ]
        ]

unfoldable pub pmm_alloc_frame : Option PmmState → ℕ × Option PmmState
pmm_alloc_frame none = (invalid_frame, none)
pmm_alloc_frame (some pmm) = let (addr, pmm') = alloc_frame pmm in (addr, some pmm')

unfoldable pub free_frame : PmmState → ℕ → Bool × PmmState
free_frame pmm phys_addr =
    if not pmm.initialized
    then (false, pmm)
    else if not (bit_and phys_addr (sub64 page_size 1) == 0)
        || phys_addr == 0
        || leb pmm.max_phys phys_addr
    then (false, pmm)
    else if not (bitmap_test pmm.bitmap (phys_addr / page_size))
    then (false, pmm)
    else (true, mark_frame_free pmm (phys_addr / page_size))

unfoldable pub pmm_free_frame : Option PmmState → ℕ → Bool × Option PmmState
pmm_free_frame none phys_addr = (false, none)
pmm_free_frame (some pmm) phys_addr =
    let (done, pmm') = free_frame pmm phys_addr in (done, some pmm')

unfoldable pub reserve_range : PmmState → ℕ → ℕ → Bool × PmmState
reserve_range pmm base length =
    if not pmm.initialized || length == 0
    then (false, pmm)
    else (true, mark_range_used pmm base length)

unfoldable pub pmm_reserve_range : Option PmmState → ℕ → ℕ → Bool × Option PmmState
pmm_reserve_range none base length = (false, none)
pmm_reserve_range (some pmm) base length =
    let (done, pmm') = reserve_range pmm base length in (done, some pmm')

unfoldable pub is_frame_free : PmmState → ℕ → Bool
is_frame_free pmm phys_addr =
    if not pmm.initialized
    then false
    else if not (bit_and phys_addr (sub64 page_size 1) == 0) || leb pmm.max_phys phys_addr
    then false
    else not (bitmap_test pmm.bitmap (phys_addr / page_size))

unfoldable pub pmm_is_frame_free : Option PmmState → ℕ → Bool
pmm_is_frame_free none phys_addr = false
pmm_is_frame_free (some pmm) phys_addr = is_frame_free pmm phys_addr

unfoldable pub pmm_free_count : Option PmmState → ℕ
pmm_free_count none = 0
pmm_free_count (some pmm) = pmm.free_frames

unfoldable pub pmm_used_count : Option PmmState → ℕ
pmm_used_count none = 0
pmm_used_count (some pmm) = pmm.used_frames

unfoldable pub pmm_frame_count : Option PmmState → ℕ
pmm_frame_count none = 0
pmm_frame_count (some pmm) = pmm.frame_count
