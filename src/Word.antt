-- ===== src/Word.antt =====
-- Machine words: the wrapping operations on uint64_t and uint8_t that the kernel's C code uses.
-- The laws that proofs use stand in the child modules.
pub mod Digits
pub mod Bytes
pub mod Or
pub mod Mask
use m.Prelude.{ℕ, ◌+◌, ◌-◌, ◌*◌, ◌/◌, ◌%◌, ◌^◌, bit_and}

abbrev pub two64 : ℕ
two64 = 2 ^ 64

-- UINT64_MAX, SIZE_MAX and UINTPTR_MAX
abbrev pub uint64_max : ℕ
uint64_max = 2 ^ 64 - 1

abbrev pub add64 : ℕ → ℕ → ℕ
add64 a b = (a + b) % 2 ^ 64

-- `-` on ℕ stops at 0, so the modulus is added first.
abbrev pub sub64 : ℕ → ℕ → ℕ
sub64 a b = (a + 2 ^ 64 - b) % 2 ^ 64

abbrev pub mul64 : ℕ → ℕ → ℕ
mul64 a b = (a * b) % 2 ^ 64

-- ~a on 64 bits
abbrev pub not64 : ℕ → ℕ
not64 a = 2 ^ 64 - 1 - a

-- a >> k
abbrev pub shr : ℕ → ℕ → ℕ
shr a k = a / 2 ^ k

-- (uint8_t)(1U << (i & 7U)), with i & 7U at most 7
abbrev pub byte_mask : ℕ → ℕ
byte_mask i = (2 ^ (bit_and i 7)) % 256
