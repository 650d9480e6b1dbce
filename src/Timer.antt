-- ===== src/Timer.antt =====
-- The interval timer, kernel/arch/x86_64/pit.c and kernel/arch/x86_64/include/pit.h.
pub mod Reload
pub mod Tests
use m.Prelude.{ℕ, ◌/◌, Bool, List, [], ◌∷◌, ◌++◌, bit_and, ◌==◌, if◌then◌else◌}
use m.Word.{add64, shr}

abbrev pub pit_base_frequency_hz : ℕ
pit_base_frequency_hz = 1193182

abbrev pub pit_channel0 : ℕ
pit_channel0 = 0x40

abbrev pub pit_command : ℕ
pit_command = 0x43

-- The outputs so far, as ports and bytes, the first one first, and `g_timer_ticks`.
pub record Timer : Type 0 where
  pub outputs : List (ℕ × ℕ)
  pub ticks : ℕ

unfoldable pub pit_configure_hz : ℕ → Timer → Timer
pit_configure_hz hz t =
    if hz == 0
    then t
    else let divisor = pit_base_frequency_hz / hz in
      record t {
        outputs =
            t.outputs
            ++ ((pit_command, 0x36)
                ∷ (pit_channel0, bit_and divisor 0xFF)
                ∷ (pit_channel0, bit_and (shr divisor 8) 0xFF)
                ∷ []);
      }

unfoldable pub timer_on_irq0 : Timer → Timer
timer_on_irq0 t = record t { ticks = add64 t.ticks 1 }

unfoldable pub timer_ticks : Timer → ℕ
timer_ticks t = t.ticks
