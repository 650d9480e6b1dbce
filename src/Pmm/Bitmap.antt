-- ===== src/Pmm/Bitmap.antt =====
-- The frame bitmap of src/pmm.c: one bit for each 4 KiB frame, 1 for a frame in use. The storage is
-- a list of bytes; a write outside it changes nothing and a read outside it gives 0, and the
-- invariant of the memory manager keeps every access inside.
pub mod Laws
use m.Prelude.{
  ℕ, zero, suc, ◌+◌, ◌-◌, ◌%◌, Bool, true, false, not, Option, none, some, List, bit_and, bit_or,
  ltb, ◌==◌, get_or, set,
}
use m.Word.{shr, byte_mask}

unfoldable pub bitmap_set : List ℕ → ℕ → List ℕ
bitmap_set bitmap index =
    set bitmap (shr index 3) (bit_or (get_or bitmap (shr index 3) 0) (byte_mask index) % 256)

-- ~(uint8_t)x, cast back to uint8_t, is 255 - x.
unfoldable pub bitmap_clear : List ℕ → ℕ → List ℕ
bitmap_clear bitmap index =
    set bitmap (shr index 3) (bit_and (get_or bitmap (shr index 3) 0) (255 - byte_mask index) % 256)

unfoldable pub bitmap_test : List ℕ → ℕ → Bool
bitmap_test bitmap index = not (bit_and (get_or bitmap (shr index 3) 0) (byte_mask index) == 0)

-- for (frame; frame < stop; frame++) if (!bitmap_test(bitmap, frame)) …: the first clear bit. The
-- fuel is the number of frames left.
unfoldable pub find_free : ℕ → List ℕ → ℕ → ℕ → Option ℕ
find_free zero bitmap frame stop = none
find_free (suc fuel) bitmap frame stop = elim (ltb frame stop) [
  | false ↦ none
  | true ↦ elim (bitmap_test bitmap frame) [
    | false ↦ some frame
    | true ↦ find_free fuel bitmap (frame + 1) stop
  ]
]

-- for (i = 0; i < required_bitmap_bytes; i++) bitmap_storage[i] = 0xff
unfoldable pub fill_used : ℕ → ℕ → List ℕ → List ℕ
fill_used zero i storage = storage
fill_used (suc n) i storage = fill_used n (i + 1) (set storage i 255)
