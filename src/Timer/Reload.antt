-- ===== src/Timer/Reload.antt =====
-- Which reload value reaches the timer.
use m.Prelude.{
  ℕ, ◌+◌, ◌*◌, ◌/◌, ◌^◌, ◌≤◌, ◌<◌, ◌≡◌, ◌↔◌, refl, false, List, [], ◌∷◌, ◌++◌, arith, bit_and, ◌==◌,
}
use native.Mathlib.Nat.{div-lt_iff_lt-mul}
use m.Word.{shr}
use m.Word.Mask.{bit_and_byte}
use m.Timer.{Timer, pit_base_frequency_hz, pit_channel0, pit_command, pit_configure_hz}

-- the outputs that set channel 0 to count down from `reload`, low byte first
abbrev pub programs : ℕ → ℕ → List (ℕ × ℕ)
programs low high = (pit_command, 0x36) ∷ (pit_channel0, low) ∷ (pit_channel0, high) ∷ []

below_byte : (a : ℕ) → bit_and a 0xFF < 256
below_byte a = omega (arith, bit_and_byte a)

two_bytes_iff : (d : ℕ) → (bit_and d 0xFF + 256 * bit_and (shr d 8) 0xFF ≡ d) ↔ (d < 2 ^ 16)
two_bytes_iff d =
    let low = bit_and_byte d in
    let high = bit_and_byte (shr d 8) in
    (λ e. omega (arith, low, high, e), λ h. omega (arith, low, high))

-- For a frequency that is not zero the timer is sent a low and a high byte, and these make up the divisor
-- of the base frequency exactly if the frequency is at least 19 Hz: below, the divisor does not fit in 16
-- bits and its upper bits are lost.
pub configure_hz-reload :
    (hz : ℕ) (t : Timer)
    → 0 < hz
    → (low : ℕ) × (high : ℕ) × ((pit_configure_hz hz t).outputs ≡ t.outputs ++ programs low high)
      × (low < 256)
      × (high < 256)
      × ((low + 256 * high ≡ pit_base_frequency_hz / hz) ↔ (19 ≤ hz))
unfolding pit_configure_hz
configure_hz-reload hz t h =
    let set : (hz == 0) ≡ false = ground arith in
    let divisor = pit_base_frequency_hz / hz in
    let parts = two_bytes_iff divisor in
    let range = div-lt_iff_lt-mul {k = hz} {x = pit_base_frequency_hz} {y = 2 ^ 16} h in
    rw set (
      bit_and divisor 0xFF,
      bit_and (shr divisor 8) 0xFF,
      refl,
      below_byte divisor,
      below_byte (shr divisor 8),
      (λ e. omega (arith, range.0 (parts.0 e)), λ fast. parts.1 (range.1 (omega arith))),
    )
