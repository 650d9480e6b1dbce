-- ===== src/Heap/Ops.antt =====
-- Starting the heap, allocating and freeing. Loops that follow `next` take fuel; `none` means that the
-- fuel ran out.
use m.Prelude.{
  ℕ, zero, suc, ◌/◌, Bool, true, false, not, ◌&&◌, ◌||◌, Option, none, some, ltb, leb, bit_and,
  ◌==◌, if◌then◌else◌,
}
use m.Word.{add64, sub64, mul64, not64, uint64_max}
use m.Heap.Types.{
  kmem_align, kmem_magic, kmem_min_split, header_size, failure, Blocks, Kmem, put_block,
  kmem_align_up_ptr, kmem_align_up_size, kmem_memset, kmem_payload, kmem_header_from_payload,
  kmem_ptr_in_heap,
}
use m.Heap.Check.{kmem_validate}

-- if (p != 0) p->prev = q
unfoldable pub set_prev : ℕ → ℕ → Blocks → Blocks
set_prev p q blocks = if p == 0 then blocks else put_block blocks p (record (blocks p) { prev = q })

-- the writes of `kmem_split_if_useful`
unfoldable pub split_at : ℕ → ℕ → ℕ → ℕ → Blocks → Blocks
split_at block wanted new_addr consumed blocks =
    let b₁ = put_block blocks new_addr (record (blocks new_addr) {
      magic = kmem_magic;
      size = sub64 (sub64 (blocks block).size consumed) header_size;
      free = true;
      prev = block;
      next = (blocks block).next;
    }) in
    let b₂ = set_prev (b₁ block).next new_addr b₁ in
    put_block b₂ block (record (b₂ block) { next = new_addr; size = wanted })

unfoldable pub kmem_split_if_useful : ℕ → ℕ → Kmem → Kmem
kmem_split_if_useful block wanted s =
    let header = kmem_align_up_size header_size kmem_align in
    let size = (s.blocks block).size in
    if header == 0
    then s
    else if ltb size (add64 (add64 wanted header) kmem_min_split)
    then s
    else let new_addr = kmem_align_up_ptr (add64 (kmem_payload block) wanted) kmem_align in
      if new_addr == 0
      then s
      else if leb s.heap_end (add64 new_addr header_size)
      then s
      else let consumed = sub64 new_addr (kmem_payload block) in
        if leb size (add64 (add64 consumed header_size) kmem_min_split)
        then s
        else record s { blocks = split_at block wanted new_addr consumed s.blocks }

-- the body of the loop of `kmem_coalesce_forward`, behind its test of the address
unfoldable pub absorb_next : ℕ → Blocks → Blocks
absorb_next block blocks =
    let next = (blocks block).next in
    let b₁ = put_block blocks block (record (blocks block) {
      size = add64 (blocks block).size (add64 header_size (blocks next).size);
      next = (blocks next).next;
    }) in
    let b₂ = set_prev (b₁ next).next block b₁ in
    put_block b₂ next (record (b₂ next) { magic = 0; size = 0; prev = 0; next = 0 })

unfoldable pub kmem_coalesce_forward : ℕ → ℕ → Blocks → Option Blocks
kmem_coalesce_forward zero block blocks = none
kmem_coalesce_forward (suc fuel) block blocks =
    let next = (blocks block).next in
    let rest = kmem_coalesce_forward fuel block (absorb_next block blocks) in
    if block == 0 || next == 0 || not (blocks next).free
    then some blocks
    else if not
        (kmem_align_up_ptr (add64 (kmem_payload block) (blocks block).size) kmem_align == next)
    then some blocks
    else rest

-- return kmem_validate()
abbrev pub validated : Kmem → Option ℕ → Option (ℕ × Kmem)
validated s none = none
validated s (some code) = some (code, s)

-- the heap that `kmem_init` sets up in `usable` bytes from `start` on
unfoldable pub init_heap : ℕ → ℕ → Kmem → Kmem
init_heap start usable s = record s {
  heap_base = start;
  heap_end = add64 start usable;
  head = start;
  blocks = put_block s.blocks start (record (s.blocks start) {
    magic = kmem_magic;
    size = sub64 usable header_size;
    free = true;
    prev = 0;
    next = 0;
  });
  initialized = true;
}

unfoldable pub kmem_init : ℕ → ℕ → ℕ → Kmem → Option (ℕ × Kmem)
kmem_init fuel base bytes s =
    if base == 0 || ltb bytes (add64 header_size kmem_min_split)
    then some (failure 1, s)
    else let start = kmem_align_up_ptr base kmem_align in
      if start == 0 || ltb start base
      then some (failure 2, s)
      else let lost = sub64 start base in
        if leb bytes (add64 (add64 lost header_size) kmem_min_split)
        then some (failure 3, s)
        else let usable = bit_and (sub64 bytes lost) (not64 (sub64 kmem_align 1)) in
          if leb usable (add64 header_size kmem_min_split)
          then some (failure 4, s)
          else let s' = init_heap start usable s in validated s' (kmem_validate fuel s')

-- cur->free = value
unfoldable pub set_free : ℕ → Bool → Kmem → Kmem
set_free cur value s = record s {
  blocks = put_block s.blocks cur (record (s.blocks cur) { free = value });
}

-- the loop of `kmem_alloc` from `cur` on
unfoldable pub find_fit : ℕ → ℕ → ℕ → Kmem → Option (ℕ × Kmem)
find_fit zero wanted cur s = none
find_fit (suc fuel) wanted cur s =
    let rest = find_fit fuel wanted (s.blocks cur).next s in
    if cur == 0
    then some (0, s)
    else if not ((s.blocks cur).magic == kmem_magic)
    then some (0, s)
    else if (s.blocks cur).free && leb wanted (s.blocks cur).size
    then some (kmem_payload cur, set_free cur false (kmem_split_if_useful cur wanted s))
    else rest

unfoldable pub kmem_alloc : ℕ → ℕ → Kmem → Option (ℕ × Kmem)
kmem_alloc fuel bytes s =
    if not s.initialized || bytes == 0
    then some (0, s)
    else let wanted = kmem_align_up_size bytes kmem_align in
      if wanted == 0 then some (0, s) else find_fit fuel wanted s.head s

-- the end of `kmem_calloc`
abbrev pub zero_payload : ℕ → Option (ℕ × Kmem) → Option (ℕ × Kmem)
zero_payload total none = none
zero_payload total (some (ptr, s)) =
    if not (ptr == 0)
    then some (ptr, record s { bytes = kmem_memset ptr 0 total s.bytes })
    else some (ptr, s)

unfoldable pub kmem_calloc : ℕ → ℕ → ℕ → Kmem → Option (ℕ × Kmem)
kmem_calloc fuel count bytes s =
    if not (count == 0) && ltb (uint64_max / count) bytes
    then some (0, s)
    else let total = mul64 count bytes in zero_payload total (kmem_alloc fuel total s)

-- if (block->prev != 0 && block->prev->free) kmem_coalesce_forward(block->prev)
unfoldable pub coalesce_prev : ℕ → ℕ → Option Blocks → Option Blocks
coalesce_prev fuel block none = none
coalesce_prev fuel block (some blocks) =
    let prev = (blocks block).prev in
    if not (prev == 0) && (blocks prev).free
    then kmem_coalesce_forward fuel prev blocks
    else some blocks

-- the end of `kmem_free_checked`
abbrev pub checked : ℕ → Kmem → Option Blocks → Option (ℕ × Kmem)
checked fuel s none = none
checked fuel s (some blocks) =
    validated (record s { blocks = blocks }) (kmem_validate fuel (record s { blocks = blocks }))

unfoldable pub kmem_free_checked : ℕ → ℕ → Kmem → Option (ℕ × Kmem)
kmem_free_checked fuel ptr s =
    if ptr == 0
    then some (0, s)
    else if not (kmem_ptr_in_heap s ptr)
    then some (failure 1, s)
    else if not (bit_and ptr (sub64 kmem_align 1) == 0)
    then some (failure 2, s)
    else let block = kmem_header_from_payload ptr in
      if not (kmem_ptr_in_heap s block) || not ((s.blocks block).magic == kmem_magic)
      then some (failure 3, s)
      else if (s.blocks block).free
      then some (failure 4, s)
      else let s₁ = set_free block true s in
        checked fuel s₁ (coalesce_prev fuel block (kmem_coalesce_forward fuel block s₁.blocks))
