-- ===== src/Word/Bytes.antt =====
-- Single bits of a byte: what setting and clearing a bit does to each bit, by evaluation over
-- every byte and every pair of positions.
use m.Prelude.{
  ℕ, zero, suc, ◌^◌, ◌-◌, ◌%◌, ◌<◌, ◌≡◌, refl, Bool, true, not, ◌&&◌, ◌||◌, bit_and, bit_or, arith,
  ◌==◌, if◌then◌else◌,
}

-- `byte & (1 << k)` is not 0
abbrev pub has_bit : ℕ → ℕ → Bool
has_bit b k = not (bit_and b (2 ^ k % 256) == 0)

abbrev pub with_bit : ℕ → ℕ → ℕ
with_bit b k = bit_or b (2 ^ k % 256) % 256

abbrev pub without_bit : ℕ → ℕ → ℕ
without_bit b k = bit_and b (255 - 2 ^ k % 256) % 256

same : Bool → Bool → Bool
same a b = if a then b else not b

same-eq : (a b : Bool) → same a b ≡ true → a ≡ b
unfolding same
same-eq a b h = ground arith

unfoldable pub every : ℕ → (ℕ → Bool) → Bool
every zero p = true
every (suc n) p = p n && every n p

pub every_at : (n : ℕ) (p : ℕ → Bool) (x : ℕ) → every n p ≡ true → x < n → p x ≡ true
unfolding every
every_at zero p x h lt = absurd (omega arith)
every_at (suc n) p x h lt = ground (arith, every_at n p x)

-- every byte with every two bit positions
every_bit_pair : (ℕ → ℕ → ℕ → Bool) → Bool
unfolding every
every_bit_pair p = every 256 λ b. every 8 λ i. every 8 λ j. p b i j

every_bit_pair_at :
    (p : ℕ → ℕ → ℕ → Bool) (b i j : ℕ)
    → every_bit_pair p ≡ true
    → b < 256
    → i < 8
    → j < 8
    → p b i j ≡ true
unfolding every_bit_pair
every_bit_pair_at p b i j h hb hi hj =
    every_at 8 (p b i) j
      (every_at 8 (λ i. every 8 (p b i)) i (every_at 256 (λ b. every 8 λ i. every 8 (p b i)) b h hb)
        hi)
      hj

set_row : ℕ → ℕ → ℕ → Bool
unfolding same
set_row b i j = same (has_bit (with_bit b i) j) (i == j || has_bit b j)

set_rows : every_bit_pair set_row ≡ true
unfolding every_bit_pair set_row
set_rows = refl

clear_row : ℕ → ℕ → ℕ → Bool
unfolding same
clear_row b i j = same (has_bit (without_bit b i) j) (not (i == j) && has_bit b j)

clear_rows : every_bit_pair clear_row ≡ true
unfolding every_bit_pair clear_row
clear_rows = refl

pub has_bit-with_bit :
    (b i j : ℕ) → b < 256 → i < 8 → j < 8 → has_bit (with_bit b i) j ≡ (i == j || has_bit b j)
unfolding set_row
has_bit-with_bit b i j hb hi hj = same-eq _ _ (every_bit_pair_at set_row b i j set_rows hb hi hj)

pub has_bit-without_bit :
    (b i j : ℕ)
    → b < 256
    → i < 8
    → j < 8
    → has_bit (without_bit b i) j ≡ (not (i == j) && has_bit b j)
unfolding clear_row
has_bit-without_bit b i j hb hi hj =
    same-eq _ _ (every_bit_pair_at clear_row b i j clear_rows hb hi hj)

full_row : ℕ → Bool
full_row j = has_bit 255 j

full_rows : every 8 full_row ≡ true
unfolding every full_row
full_rows = refl

-- every bit of 0xff is set
pub has_bit_full : (j : ℕ) → j < 8 → has_bit 255 j ≡ true
unfolding full_row
has_bit_full j h = every_at 8 full_row j full_rows h
