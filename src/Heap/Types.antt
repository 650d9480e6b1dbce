-- ===== src/Heap/Types.antt =====
-- The data of the heap and its address arithmetic. Block headers are objects in a store, named by their
-- addresses, and the payload bytes are a memory of their own; 0 is the null pointer. A C value of type
-- int is its 32-bit two's complement.
use m.Prelude.{
  ℕ, zero, suc, ◌-◌, ◌+◌, ◌%◌, ◌^◌, Bool, not, ◌&&◌, ltb, leb, bit_and, ◌==◌, if◌then◌else◌,
}
use m.Word.{add64, sub64, not64, uint64_max}
use m.Memory.{Bytes, store}

abbrev pub kmem_align : ℕ
kmem_align = 16

abbrev pub kmem_magic : ℕ
kmem_magic = 0x4d43534f53484541

abbrev pub kmem_min_split : ℕ
kmem_min_split = 32

-- sizeof(kmem_block_t)
abbrev pub header_size : ℕ
header_size = 48

-- the int -k
abbrev pub failure : ℕ → ℕ
failure k = 2 ^ 32 - k

-- `kmem_block_t`
pub record KmemBlock : Type 0 where
  pub magic : ℕ
  pub size : ℕ
  pub free : Bool
  pub reserved : ℕ
  pub reserved2 : ℕ
  pub prev : ℕ
  pub next : ℕ

abbrev pub Blocks : Type 0
Blocks = ℕ → KmemBlock

-- `g_heap_base`, `g_heap_end`, `g_head` and `g_initialized`, with the memory that they point into
pub record Kmem : Type 0 where
  pub heap_base : ℕ
  pub heap_end : ℕ
  pub head : ℕ
  pub initialized : Bool
  pub blocks : Blocks
  pub bytes : Bytes

-- `kmem_stats_t`
pub record KmemStats : Type 0 where
  pub total_bytes : ℕ
  pub used_bytes : ℕ
  pub free_bytes : ℕ
  pub block_count : ℕ
  pub free_count : ℕ
  pub largest_free : ℕ

unfoldable pub put_block : Blocks → ℕ → KmemBlock → Blocks
put_block blocks p b q = if q == p then b else blocks q

unfoldable pub kmem_align_up_ptr : ℕ → ℕ → ℕ
kmem_align_up_ptr value align =
    let mask = sub64 align 1 in
    if not (bit_and align mask == 0)
    then 0
    else if ltb (sub64 uint64_max mask) value
    then 0
    else bit_and (add64 value mask) (not64 mask)

unfoldable pub kmem_align_up_size : ℕ → ℕ → ℕ
kmem_align_up_size value align =
    if align == 0
    then value
    else let mask = sub64 align 1 in
      if not (bit_and align mask == 0)
      then 0
      else if ltb (sub64 uint64_max mask) value
      then 0
      else bit_and (add64 value mask) (not64 mask)

-- while (bytes-- > 0u) *p++ = value
unfoldable pub kmem_memset : ℕ → ℕ → ℕ → Bytes → Bytes
kmem_memset dst value zero mem = mem
kmem_memset dst value (suc n) mem = kmem_memset (dst + 1) value n (store mem dst (value % 256))

abbrev pub kmem_payload : ℕ → ℕ
kmem_payload block = add64 block header_size

abbrev pub kmem_header_from_payload : ℕ → ℕ
kmem_header_from_payload ptr = sub64 ptr header_size

unfoldable pub kmem_ptr_in_heap : Kmem → ℕ → Bool
kmem_ptr_in_heap s p = s.initialized && leb s.heap_base p && ltb p s.heap_end
