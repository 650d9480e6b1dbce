-- ===== src/Word/Mask.antt =====
-- Masks: the low bits of a word, and the rounding of an address down to a page.
use m.Prelude.{ℕ, zero, suc, ◌+◌, ◌-◌, ◌*◌, ◌/◌, ◌%◌, ◌^◌, ◌<◌, ◌≡◌, ap, bit_and, arith}
use m.Word.Digits.{bit_and_step, bit_and-zero}

-- A mask of one more 1, and of one more 0, at the low end. The mask and the halved word come with
-- equations, so that a caller may write them in its own form.
and_one_more : (a b c d : ℕ) → c ≡ 2 * b + 1 → d ≡ a / 2 → bit_and a c ≡ 2 * bit_and d b + a % 2
and_one_more a b c d hc hd =
    rw hd (omega (arith, bit_and_step a c, ap (λ (t : ℕ). bit_and (a / 2) t) half))
  where
    half : c / 2 ≡ b
    half = omega arith

and_zero_more : (a b c d : ℕ) → c ≡ 2 * b → d ≡ a / 2 → bit_and a c ≡ 2 * bit_and d b
and_zero_more a b c d hc hd =
    rw hd (omega (arith, bit_and_step a c, ap (λ (t : ℕ). bit_and (a / 2) t) half))
  where
    half : c / 2 ≡ b
    half = omega arith

-- The same for three digits, which keeps the proofs at numerals short.
and_ones3 : (a b c d : ℕ) → c ≡ 8 * b + 7 → d ≡ a / 8 → bit_and a c ≡ 8 * bit_and d b + a % 8
and_ones3 a b c d hc hd = omega (
  arith,
  and_one_more a (4 * b + 3) c (a / 2) (omega arith) (omega arith),
  and_one_more (a / 2) (2 * b + 1) (4 * b + 3) (a / 4) (omega arith) (omega arith),
  and_one_more (a / 4) b (2 * b + 1) d (omega arith) (omega arith),
)

and_zeros3 : (a b c d : ℕ) → c ≡ 8 * b → d ≡ a / 8 → bit_and a c ≡ 8 * bit_and d b
and_zeros3 a b c d hc hd = omega (
  arith,
  and_zero_more a (4 * b) c (a / 2) (omega arith) (omega arith),
  and_zero_more (a / 2) (2 * b) (4 * b) (a / 4) (omega arith) (omega arith),
  and_zero_more (a / 4) b (2 * b) d (omega arith) (omega arith),
)

-- a & 7
pub bit_and_seven : (a : ℕ) → bit_and a 7 ≡ a % 8
bit_and_seven a =
    omega (arith, and_ones3 a 0 7 (a / 8) (omega arith) (omega arith), bit_and-zero (a / 8))

-- a & 4095
pub bit_and_page_offset : (a : ℕ) → bit_and a 4095 ≡ a % 4096
bit_and_page_offset a = omega (
  arith,
  and_ones3 a 511 4095 (a / 8) (omega arith) (omega arith),
  and_ones3 (a / 8) 63 511 (a / 64) (omega arith) (omega arith),
  and_ones3 (a / 64) 7 63 (a / 512) (omega arith) (omega arith),
  bit_and_seven (a / 512),
)

and_zeros12 : (a b c d : ℕ) → c ≡ 4096 * b → d ≡ a / 4096 → bit_and a c ≡ 4096 * bit_and d b
and_zeros12 a b c d hc hd = omega (
  arith,
  and_zeros3 a (512 * b) c (a / 8) (omega arith) (omega arith),
  and_zeros3 (a / 8) (64 * b) (512 * b) (a / 64) (omega arith) (omega arith),
  and_zeros3 (a / 64) (8 * b) (64 * b) (a / 512) (omega arith) (omega arith),
  and_zeros3 (a / 512) b (8 * b) d (omega arith) (omega arith),
)

-- 2 ^ k - 1 and 2 ^ k, by recursion on the number of digits
abbrev ones : ℕ → ℕ
ones zero = 0
ones (suc k) = 2 * ones k + 1

bit_and-ones : (k a : ℕ) → a < ones k + 1 → bit_and a (ones k) ≡ a
bit_and-ones zero a h = omega (arith, bit_and-zero a)
bit_and-ones (suc k) a h = omega (
  arith,
  and_one_more a (ones k) (2 * ones k + 1) (a / 2) (omega arith) (omega arith),
  bit_and-ones k (a / 2) (omega arith),
)

-- a & ~4095 rounds a 64-bit address down to its page.
pub bit_and_page_base : (a : ℕ) → a < 2 ^ 64 → bit_and a (2 ^ 64 - 4096) ≡ 4096 * (a / 4096)
bit_and_page_base a h = omega (
  arith,
  and_zeros12 a (2 ^ 52 - 1) (2 ^ 64 - 4096) (a / 4096) (omega arith) (omega arith),
  bit_and-ones 52 (a / 4096) (omega arith),
)

and_zeros4 : (a b c d : ℕ) → c ≡ 16 * b → d ≡ a / 16 → bit_and a c ≡ 16 * bit_and d b
and_zeros4 a b c d hc hd = omega (
  arith,
  and_zeros3 a (2 * b) c (a / 8) (omega arith) (omega arith),
  and_zero_more (a / 8) b (2 * b) d (omega arith) (omega arith),
)

-- a & ~15 rounds a 64-bit address down to a multiple of 16.
pub bit_and_line_base : (a : ℕ) → a < 2 ^ 64 → bit_and a (2 ^ 64 - 16) ≡ 16 * (a / 16)
bit_and_line_base a h = omega (
  arith,
  and_zeros4 a (2 ^ 60 - 1) (2 ^ 64 - 16) (a / 16) (omega arith) (omega arith),
  bit_and-ones 60 (a / 16) (omega arith),
)

-- a & 511, an index into a table of 512
pub bit_and_table_index : (a : ℕ) → bit_and a 511 ≡ a % 512
bit_and_table_index a = omega (
  arith,
  and_ones3 a 63 511 (a / 8) (omega arith) (omega arith),
  and_ones3 (a / 8) 7 63 (a / 64) (omega arith) (omega arith),
  and_ones3 (a / 64) 0 7 (a / 512) (omega arith) (omega arith),
  bit_and-zero (a / 512),
)

-- a & 1
pub bit_and_one : (a : ℕ) → bit_and a 1 ≡ a % 2
bit_and_one a =
    omega (arith, and_one_more a 0 1 (a / 2) (omega arith) (omega arith), bit_and-zero (a / 2))

-- a & 0xffff
pub bit_and_half_word : (a : ℕ) → bit_and a 0xFFFF ≡ a % 2 ^ 16
bit_and_half_word a = omega (
  arith,
  and_ones3 a 8191 65535 (a / 8) (omega arith) (omega arith),
  and_ones3 (a / 8) 1023 8191 (a / 64) (omega arith) (omega arith),
  and_ones3 (a / 64) 127 1023 (a / 512) (omega arith) (omega arith),
  and_ones3 (a / 512) 15 127 (a / 4096) (omega arith) (omega arith),
  and_ones3 (a / 4096) 1 15 (a / 32768) (omega arith) (omega arith),
  bit_and_one (a / 32768),
)

-- a & 0xffffffff for what fits
pub bit_and_word : (a : ℕ) → a < 2 ^ 32 → bit_and a 0xFFFFFFFF ≡ a
bit_and_word a h = bit_and-ones 32 a (omega arith)

-- a & 0xff
pub bit_and_byte : (a : ℕ) → bit_and a 0xFF ≡ a % 256
bit_and_byte a = omega (
  arith,
  and_ones3 a 31 255 (a / 8) (omega arith) (omega arith),
  and_ones3 (a / 8) 3 31 (a / 64) (omega arith) (omega arith),
  and_one_more (a / 64) 1 3 (a / 128) (omega arith) (omega arith),
  bit_and_one (a / 128),
)

-- a & 15
pub bit_and_line_offset : (a : ℕ) → bit_and a 15 ≡ a % 16
bit_and_line_offset a =
    omega (arith, and_ones3 a 1 15 (a / 8) (omega arith) (omega arith), bit_and_one (a / 8))

-- a & 0x000ffffffffff000, the frame of an address below 2 ^ 52
pub bit_and_frame : (a : ℕ) → a < 2 ^ 52 → bit_and a (2 ^ 52 - 4096) ≡ 4096 * (a / 4096)
bit_and_frame a h = omega (
  arith,
  and_zeros12 a (2 ^ 40 - 1) (2 ^ 52 - 4096) (a / 4096) (omega arith) (omega arith),
  bit_and-ones 40 (a / 4096) (omega arith),
)
