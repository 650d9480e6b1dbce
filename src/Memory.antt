-- ===== src/Memory.antt =====
-- Byte memory and the functions of kernel/lib/memory.c. The memory is a function from addresses to
-- bytes; the objects that a call is given do not reach the end of the address space, so no address
-- wraps. Each function returns `dest`, so the model returns only the memory.
pub mod Copy
pub mod Tests
use m.Prelude.{ℕ, zero, suc, ◌+◌, ◌%◌, ltb, ◌==◌, if◌then◌else◌, Bool, ◌||◌}

abbrev pub Bytes : Type 0
Bytes = ℕ → ℕ

unfoldable pub store : Bytes → ℕ → ℕ → Bytes
store mem p v a = if a == p then v else mem a

-- while (count-- != 0u) *d++ = (unsigned char)value
unfoldable pub memset : ℕ → ℕ → ℕ → Bytes → Bytes
memset dest value zero mem = mem
memset dest value (suc count) mem = memset (dest + 1) value count (store mem dest (value % 256))

-- while (count-- != 0u) *d++ = *s++
unfoldable pub copy_forward : ℕ → ℕ → ℕ → Bytes → Bytes
copy_forward d s zero mem = mem
copy_forward d s (suc count) mem = copy_forward (d + 1) (s + 1) count (store mem d (mem s))

-- while (count-- != 0u) *--d = *--s, from d + count and s + count
unfoldable pub copy_backward : ℕ → ℕ → ℕ → Bytes → Bytes
copy_backward d s zero mem = mem
copy_backward d s (suc count) mem =
    copy_backward d s count (store mem (d + count) (mem (s + count)))

unfoldable pub memcpy : ℕ → ℕ → ℕ → Bytes → Bytes
memcpy dest src count mem = copy_forward dest src count mem

unfoldable pub memmove : ℕ → ℕ → ℕ → Bytes → Bytes
memmove dest src count mem =
    if dest == src || count == 0
    then mem
    else if ltb dest src
    then copy_forward dest src count mem
    else copy_backward dest src count mem
