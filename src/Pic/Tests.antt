-- ===== src/Pic/Tests.antt =====
-- Controllers that remember their masks, and the theorems at them.
use m.Prelude.{ℕ, ◌%◌, ◌<◌, ◌≡◌, not, ◌&&◌, Option, none, some, [], ◌∷◌, arith, ◌==◌, if◌then◌else◌}
use m.Word.Bytes.{has_bit}
use m.Bus.{was_read, was_written, Bus, Devices}
use m.Pic.{pic1_data, pic2_data, port_of, pic_unmask_irq}
use m.Pic.Masks.{unmask_irq-has_bit}

-- the last byte written to a port
abbrev last_written : ℕ → Bus → Option ℕ
last_written port [] = none
last_written port (was_read p v ∷ bus) = last_written port bus
last_written port (was_written p v ∷ bus) = if p == port then some v else last_written port bus

abbrev or_zero : Option ℕ → ℕ
or_zero none = 0
or_zero (some v) = v

abbrev devices : Devices
devices bus port = or_zero (last_written port bus)

abbrev masked : Bus
masked = was_written pic2_data 0xFF ∷ was_written pic1_data 0xFF ∷ []

unmask_irq-has_bit_example :
    (byte : ℕ) × (pic_unmask_irq devices 12 masked
      ≡ was_written (port_of 12) byte
        ∷ was_read (port_of 12) (devices masked (port_of 12))
        ∷ masked)
    × ((j : ℕ)
        → j < 8
        → has_bit byte j ≡ (not (12 % 8 == j) && has_bit (devices masked (port_of 12)) j))
unmask_irq-has_bit_example = unmask_irq-has_bit devices 12 masked (omega arith) (omega arith)
