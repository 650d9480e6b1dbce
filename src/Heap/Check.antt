-- ===== src/Heap/Check.antt =====
-- Validating the heap and its statistics. The loops follow `next` and take fuel; `none` means that the
-- fuel ran out.
use m.Prelude.{ℕ, zero, suc, not, ◌||◌, Option, none, some, ltb, leb, ◌==◌, if◌then◌else◌}
use m.Word.{add64, sub64}
use m.Heap.Types.{
  kmem_align, kmem_magic, header_size, failure, KmemStats, Kmem, KmemBlock, Blocks,
  kmem_align_up_ptr, kmem_payload,
}

-- most blocks that a heap may have
abbrev pub guard_limit : ℕ
guard_limit = 1048576

-- where the block behind `cur` is expected
abbrev pub cursor_after : Blocks → ℕ → ℕ
cursor_after blocks cur = kmem_align_up_ptr (add64 (kmem_payload cur) (blocks cur).size) kmem_align

unfoldable pub validate_from : ℕ → Kmem → ℕ → ℕ → ℕ → ℕ → Option ℕ
validate_from zero s cur prev cursor guard = none
validate_from (suc fuel) s cur prev cursor guard =
    let after = cursor_after s.blocks cur in
    let rest = validate_from fuel s (s.blocks cur).next cur after (add64 guard 1) in
    if cur == 0
    then some 0
    else if ltb guard_limit (add64 guard 1)
    then some (failure 3)
    else if not (cur == cursor)
    then some (failure 4)
    else if ltb cur s.heap_base || ltb s.heap_end (add64 cur header_size)
    then some (failure 5)
    else if not ((s.blocks cur).magic == kmem_magic)
    then some (failure 6)
    else if not ((s.blocks cur).prev == prev)
    then some (failure 7)
    else if ltb (sub64 s.heap_end (kmem_payload cur)) (s.blocks cur).size
    then some (failure 8)
    else if after == 0 || ltb s.heap_end after
    then some (failure 9)
    else rest

unfoldable pub kmem_validate : ℕ → Kmem → Option ℕ
kmem_validate fuel s =
    if not s.initialized || s.heap_base == 0 || leb s.heap_end s.heap_base || s.head == 0
    then some (failure 1)
    else if not (s.head == s.heap_base)
    then some (failure 2)
    else validate_from fuel s s.head 0 s.heap_base 0

abbrev pub no_stats : KmemStats
no_stats = record {
  total_bytes = 0;
  used_bytes = 0;
  free_bytes = 0;
  block_count = 0;
  free_count = 0;
  largest_free = 0;
}

-- one block in the statistics
unfoldable pub count_block : KmemBlock → KmemStats → KmemStats
count_block b out =
    if b.free
    then record out {
      block_count = add64 out.block_count 1;
      free_count = add64 out.free_count 1;
      free_bytes = add64 out.free_bytes b.size;
      largest_free = if ltb out.largest_free b.size then b.size else out.largest_free;
    }
    else record out {
      block_count = add64 out.block_count 1;
      used_bytes = add64 out.used_bytes b.size;
    }

unfoldable pub stats_from : ℕ → Blocks → ℕ → KmemStats → Option KmemStats
stats_from zero blocks cur out = none
stats_from (suc fuel) blocks cur out =
    let rest = stats_from fuel blocks (blocks cur).next (count_block (blocks cur) out) in
    if cur == 0 then some out else rest

-- The caller's `out` is not null.
unfoldable pub kmem_get_stats : ℕ → Kmem → Option KmemStats
kmem_get_stats fuel s =
    if not s.initialized
    then some no_stats
    else stats_from fuel s.blocks s.head
        (record no_stats { total_bytes = sub64 s.heap_end s.heap_base })
