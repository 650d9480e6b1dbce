-- ===== src/Pmm/Bitmap/Laws.antt =====
-- What setting, clearing and filling do to each bit of the frame bitmap.
use m.Prelude.{
  ℕ, zero, suc, ◌+◌, ◌*◌, ◌/◌, ◌%◌, ◌≤◌, ◌<◌, ◌≡◌, ◌≢◌, refl, ◌∙◌, true, false, not, ◌&&◌, ◌||◌,
  List, [], ◌∷◌, arith, ltb, leb, ◌==◌, if◌then◌else◌, length, get_or, set, length-set,
  get_or-set_self, get_or-set_ne,
}
use native.Mathlib.Decide.{ℕ_discrete}
use m.Word.Mask.{bit_and_seven}
use m.Word.Bytes.{
  has_bit, with_bit, without_bit, has_bit-with_bit, has_bit-without_bit, has_bit_full,
}
use m.Pmm.Bitmap.{bitmap_set, bitmap_clear, bitmap_test, fill_used}

abbrev pub IsBytes : List ℕ → Type 0
IsBytes [] = Unit {0}
IsBytes (b ∷ bs) = (b < 256) × IsBytes bs

IsBytes-get_or : (bs : List ℕ) (i : ℕ) → IsBytes bs → get_or bs i 0 < 256
IsBytes-get_or [] i h = omega arith
IsBytes-get_or (b ∷ bs) zero h = h.0
IsBytes-get_or (b ∷ bs) (suc i) h = IsBytes-get_or bs i h.1

IsBytes-set : (bs : List ℕ) (i v : ℕ) → v < 256 → IsBytes bs → IsBytes (set bs i v)
IsBytes-set [] i v hv h = tt
IsBytes-set (b ∷ bs) zero v hv h = (hv, h.1)
IsBytes-set (b ∷ bs) (suc i) v hv h = (h.0, IsBytes-set bs i v hv h.1)

pub bitmap_set-IsBytes : (bm : List ℕ) (i : ℕ) → IsBytes bm → IsBytes (bitmap_set bm i)
unfolding bitmap_set
bitmap_set-IsBytes bm i h = IsBytes-set bm _ _ (omega arith) h

pub bitmap_clear-IsBytes : (bm : List ℕ) (i : ℕ) → IsBytes bm → IsBytes (bitmap_clear bm i)
unfolding bitmap_clear
bitmap_clear-IsBytes bm i h = IsBytes-set bm _ _ (omega arith) h

pub length-bitmap_set : (bm : List ℕ) (i : ℕ) → length (bitmap_set bm i) ≡ length bm
unfolding bitmap_set
length-bitmap_set bm i = length-set bm _ _

pub length-bitmap_clear : (bm : List ℕ) (i : ℕ) → length (bitmap_clear bm i) ≡ length bm
unfolding bitmap_clear
length-bitmap_clear bm i = length-set bm _ _

-- The bit of a frame, with its byte and position as arithmetic.
bitmap_test-has_bit :
    (bm : List ℕ) (i : ℕ) → bitmap_test bm i ≡ has_bit (get_or bm (i / 8) 0) (i % 8)
unfolding bitmap_test
bitmap_test-has_bit bm i = rw bit_and_seven

bitmap_set-with_bit :
    (bm : List ℕ) (i : ℕ)
    → bitmap_set bm i ≡ set bm (i / 8) (with_bit (get_or bm (i / 8) 0) (i % 8))
unfolding bitmap_set
bitmap_set-with_bit bm i = rw bit_and_seven

bitmap_clear-without_bit :
    (bm : List ℕ) (i : ℕ)
    → bitmap_clear bm i ≡ set bm (i / 8) (without_bit (get_or bm (i / 8) 0) (i % 8))
unfolding bitmap_clear
bitmap_clear-without_bit bm i = rw bit_and_seven

-- Two frames in one byte are equal exactly if their positions in it are.
eq_in_byte : (i j : ℕ) → i / 8 ≡ j / 8 → (i % 8 == j % 8) ≡ (i == j)
eq_in_byte i j h = ground arith

eq_across_bytes : (i j : ℕ) → i / 8 ≢ j / 8 → (i == j) ≡ false
eq_across_bytes i j h = ground arith

-- One byte replaced: a frame of another byte keeps its bit, and one of that byte has the new byte's.
test-set_other :
    (bm : List ℕ) (i j v : ℕ) → i / 8 ≢ j / 8 → bitmap_test (set bm (i / 8) v) j ≡ bitmap_test bm j
test-set_other bm i j v h =
    rw (bitmap_test-has_bit, bitmap_test-has_bit, get_or-set_ne bm (i / 8) (j / 8) v 0 h)

test-set_self :
    (bm : List ℕ) (i j v : ℕ)
    → i < 8 * length bm
    → i / 8 ≡ j / 8
    → bitmap_test (set bm (i / 8) v) j ≡ has_bit v (j % 8)
test-set_self bm i j v hi e =
    rw (bitmap_test-has_bit, ← e, get_or-set_self bm (i / 8) v 0 (omega arith))

-- Setting a bit sets that bit and no other.
pub bitmap_test-set :
    (bm : List ℕ) (i j : ℕ)
    → IsBytes bm
    → i < 8 * length bm
    → bitmap_test (bitmap_set bm i) j ≡ (i == j || bitmap_test bm j)
bitmap_test-set bm i j hb hi = elim (ℕ_discrete (i / 8) (j / 8)) [
  | yes e ↦ rw bitmap_set-with_bit (
      test-set_self bm i j _ hi e
      ∙ has_bit-with_bit _ (i % 8) (j % 8) (IsBytes-get_or bm (i / 8) hb) (omega arith)
          (omega arith)
      ∙ rw (eq_in_byte i j e, bitmap_test-has_bit bm j, e))
  | no n ↦ rw (bitmap_set-with_bit, eq_across_bytes i j n) (test-set_other bm i j _ n)
]

-- Clearing a bit clears that bit and no other.
pub bitmap_test-clear :
    (bm : List ℕ) (i j : ℕ)
    → IsBytes bm
    → i < 8 * length bm
    → bitmap_test (bitmap_clear bm i) j ≡ (not (i == j) && bitmap_test bm j)
bitmap_test-clear bm i j hb hi = elim (ℕ_discrete (i / 8) (j / 8)) [
  | yes e ↦ rw bitmap_clear-without_bit (
      test-set_self bm i j _ hi e
      ∙ has_bit-without_bit _ (i % 8) (j % 8) (IsBytes-get_or bm (i / 8) hb) (omega arith)
          (omega arith)
      ∙ rw (eq_in_byte i j e, bitmap_test-has_bit bm j, e))
  | no n ↦ rw (bitmap_clear-without_bit, eq_across_bytes i j n) (test-set_other bm i j _ n)
]

-- Filling from `i` writes 0xff to the bytes from there on, as far as the storage goes.
get_or-fill :
    (n i k : ℕ) (st : List ℕ)
    → i + n ≤ length st
    → get_or (fill_used n i st) k 0 ≡ (if leb i k && ltb k (i + n) then 255 else get_or st k 0)
unfolding fill_used
get_or-fill zero i k st h = ground arith
get_or-fill (suc n) i k st h = ground (
  arith,
  length-set st i 255,
  get_or-fill n (i + 1) k (set st i 255),
  get_or-set_self st i 255 0,
  get_or-set_ne st i k 255 0,
)

pub length-fill : (n i : ℕ) (st : List ℕ) → length (fill_used n i st) ≡ length st
unfolding fill_used
length-fill zero i st = refl
length-fill (suc n) i st = length-fill n (i + 1) (set st i 255) ∙ length-set st i 255

pub fill-IsBytes : (n i : ℕ) (st : List ℕ) → IsBytes st → IsBytes (fill_used n i st)
unfolding fill_used
fill-IsBytes zero i st h = h
fill-IsBytes (suc n) i st h =
    fill-IsBytes n (i + 1) (set st i 255) (IsBytes-set st i 255 (omega arith) h)

-- A filled bitmap has every frame in use.
pub bitmap_test-fill :
    (n f : ℕ) (st : List ℕ) → n ≤ length st → f < 8 * n → bitmap_test (fill_used n 0 st) f ≡ true
bitmap_test-fill n f st hn hf =
    bitmap_test-has_bit (fill_used n 0 st) f ∙ rw full (has_bit_full (f % 8) (omega arith))
  where
    full : get_or (fill_used n 0 st) (f / 8) 0 ≡ 255
    full = ground (arith, get_or-fill n 0 (f / 8) st)
