-- ===== src/Word/Digits.antt =====
-- The digit law of `bit_and`: the native operation means a recursion on binary digits whose
-- fuel is its first argument, and any fuel that is large enough gives the same number.
use Prim.Native.Nat.{digits, bit_and-bitwise}
use m.Prelude.{ℕ, zero, suc, ◌+◌, ◌*◌, ◌/◌, ◌%◌, ◌≤◌, ◌≡◌, min, bit_and, arith}

abbrev and_on_fuel : ℕ → ℕ → ℕ → ℕ
and_on_fuel n a b = digits (λ _. 0) min n a b

-- `bound` falls at each digit, for the fuel of both sides.
fuel_enough : (bound n a b : ℕ) → n ≤ bound → a ≤ n → and_on_fuel n a b ≡ bit_and a b
fuel_enough bound zero zero b hn ha = omega (arith, bit_and-bitwise 0 b)
fuel_enough bound zero (suc a) b hn ha = absurd (omega arith)
fuel_enough bound (suc n) zero b hn ha = omega (arith, bit_and-bitwise 0 b)
fuel_enough zero (suc n) (suc a) b hn ha = absurd (omega arith)
fuel_enough (suc bound) (suc n) (suc a) b hn ha = omega (
  arith,
  bit_and-bitwise (suc a) b,
  fuel_enough bound n (suc a / 2) (b / 2) (omega arith) (omega arith),
  fuel_enough bound a (suc a / 2) (b / 2) (omega arith) (omega arith),
)

pub bit_and_step : (a b : ℕ) → bit_and a b ≡ 2 * bit_and (a / 2) (b / 2) + min (a % 2) (b % 2)
bit_and_step zero b = omega (arith, bit_and-bitwise 0 b, bit_and-bitwise 0 (b / 2))
bit_and_step (suc a) b = omega (
  arith,
  bit_and-bitwise (suc a) b,
  fuel_enough a a (suc a / 2) (b / 2) (omega arith) (omega arith),
)

-- `a & 0`, by halving.
and_zero_below : (bound a : ℕ) → a ≤ bound → bit_and a 0 ≡ 0
and_zero_below bound zero h = bit_and-bitwise 0 0
and_zero_below zero (suc a) h = absurd (omega arith)
and_zero_below (suc bound) (suc a) h =
    omega (arith, bit_and_step (suc a) 0, and_zero_below bound (suc a / 2) (omega arith))

pub bit_and-zero : (a : ℕ) → bit_and a 0 ≡ 0
bit_and-zero a = and_zero_below a a (omega arith)
