-- ===== src/Word/Or.antt =====
-- The digit law of `bit_or`, and how `bit_and` and `bit_or` act on each other.
use Prim.Native.Nat.{digits, bit_and-bitwise, bit_or-bitwise, max}
use m.Prelude.{
  ℕ, zero, suc, ◌+◌, ◌*◌, ◌/◌, ◌%◌, ◌≤◌, ◌≡◌, sym, ◌∙◌, ap, min, bit_and, bit_or, arith,
}
use m.Word.Digits.{bit_and_step}

abbrev or_on_fuel : ℕ → ℕ → ℕ → ℕ
or_on_fuel n a b = digits (λ b. b) max n a b

fuel_enough : (bound n a b : ℕ) → n ≤ bound → a ≤ n → or_on_fuel n a b ≡ bit_or a b
fuel_enough bound zero zero b hn ha = omega (arith, bit_or-bitwise 0 b)
fuel_enough bound zero (suc a) b hn ha = absurd (omega arith)
fuel_enough bound (suc n) zero b hn ha = omega (arith, bit_or-bitwise 0 b)
fuel_enough zero (suc n) (suc a) b hn ha = absurd (omega arith)
fuel_enough (suc bound) (suc n) (suc a) b hn ha = omega (
  arith,
  bit_or-bitwise (suc a) b,
  fuel_enough bound n (suc a / 2) (b / 2) (omega arith) (omega arith),
  fuel_enough bound a (suc a / 2) (b / 2) (omega arith) (omega arith),
)

pub zero-bit_or : (b : ℕ) → bit_or 0 b ≡ b
zero-bit_or b = bit_or-bitwise 0 b

pub bit_or_step : (a b : ℕ) → bit_or a b ≡ 2 * bit_or (a / 2) (b / 2) + max (a % 2) (b % 2)
bit_or_step zero b = omega (arith, zero-bit_or b, zero-bit_or (b / 2))
bit_or_step (suc a) b = omega (
  arith,
  bit_or-bitwise (suc a) b,
  fuel_enough a a (suc a / 2) (b / 2) (omega arith) (omega arith),
)

-- The digits of both operations: the others, and the lowest.
and_half : (a b : ℕ) → bit_and a b / 2 ≡ bit_and (a / 2) (b / 2)
and_half a b = omega (arith, bit_and_step a b)

and_parity : (a b : ℕ) → bit_and a b % 2 ≡ min (a % 2) (b % 2)
and_parity a b = omega (arith, bit_and_step a b)

or_half : (a b : ℕ) → bit_or a b / 2 ≡ bit_or (a / 2) (b / 2)
or_half a b = omega (arith, bit_or_step a b)

pub or_parity : (a b : ℕ) → bit_or a b % 2 ≡ max (a % 2) (b % 2)
or_parity a b = omega (arith, bit_or_step a b)

same_digits : {x y : ℕ} → x / 2 ≡ y / 2 → x % 2 ≡ y % 2 → x ≡ y
same_digits h l = omega arith

zero-bit_and : (b : ℕ) → bit_and 0 b ≡ 0
zero-bit_and b = bit_and-bitwise 0 b

assoc_below : (bound a b c : ℕ) → a ≤ bound → bit_and (bit_and a b) c ≡ bit_and a (bit_and b c)
assoc_below bound zero b c h =
    ap (λ k. bit_and k c) (zero-bit_and b) ∙ zero-bit_and c ∙ sym (zero-bit_and (bit_and b c))
assoc_below zero (suc a) b c h = absurd (omega arith)
assoc_below (suc bound) (suc a) b c h =
    same_digits
      (and_half (bit_and (suc a) b) c
        ∙ ap (λ k. bit_and k (c / 2)) (and_half (suc a) b)
        ∙ assoc_below bound (suc a / 2) (b / 2) (c / 2) (omega arith)
        ∙ sym (ap (bit_and (suc a / 2)) (and_half b c))
        ∙ sym (and_half (suc a) (bit_and b c)))
      (omega (
        arith,
        and_parity (bit_and (suc a) b) c,
        and_parity (suc a) b,
        and_parity b c,
        and_parity (suc a) (bit_and b c),
      ))

pub bit_and_assoc : (a b c : ℕ) → bit_and (bit_and a b) c ≡ bit_and a (bit_and b c)
bit_and_assoc a b c = assoc_below a a b c (omega arith)

distrib_below :
    (bound a b c : ℕ) → a + b ≤ bound → bit_and (bit_or a b) c ≡ bit_or (bit_and a c) (bit_and b c)
distrib_below bound zero b c h =
    ap (λ k. bit_and k c) (zero-bit_or b)
    ∙ sym (zero-bit_or (bit_and b c))
    ∙ sym (ap (λ k. bit_or k (bit_and b c)) (zero-bit_and c))
distrib_below zero (suc a) b c h = absurd (omega arith)
distrib_below (suc bound) (suc a) b c h =
    same_digits
      (and_half (bit_or (suc a) b) c
        ∙ ap (λ k. bit_and k (c / 2)) (or_half (suc a) b)
        ∙ distrib_below bound (suc a / 2) (b / 2) (c / 2) (omega arith)
        ∙ sym (λ i. bit_or (and_half (suc a) c i) (and_half b c i))
        ∙ sym (or_half (bit_and (suc a) c) (bit_and b c)))
      (omega (
        arith,
        and_parity (bit_or (suc a) b) c,
        or_parity (suc a) b,
        or_parity (bit_and (suc a) c) (bit_and b c),
        and_parity (suc a) c,
        and_parity b c,
      ))

pub bit_and-bit_or : (a b c : ℕ) → bit_and (bit_or a b) c ≡ bit_or (bit_and a c) (bit_and b c)
bit_and-bit_or a b c = distrib_below (a + b) a b c (omega arith)

or_zero_below : (bound a : ℕ) → a ≤ bound → bit_or a 0 ≡ a
or_zero_below bound zero h = zero-bit_or 0
or_zero_below zero (suc a) h = absurd (omega arith)
or_zero_below (suc bound) (suc a) h =
    omega (arith, bit_or_step (suc a) 0, or_zero_below bound (suc a / 2) (omega arith))

pub bit_or-zero : (a : ℕ) → bit_or a 0 ≡ a
bit_or-zero a = or_zero_below a a (omega arith)
