-- ===== src/Pic/Masks.antt =====
-- Which interrupts the controllers let through.
use m.Prelude.{ℕ, ◌%◌, ◌<◌, ◌≡◌, refl, ◌∙◌, ap, not, ◌&&◌, ◌∷◌, arith, ◌==◌}
use m.Word.Bytes.{has_bit, without_bit, has_bit-without_bit}
use m.Bus.{was_read, was_written, Bus, Devices, inb, outb}
use m.Pic.{port_of, line_of, pic_remap, pic_mask_all, pic_unmask_irq}

-- For one of the 16 interrupts, unmasking reads the mask byte of its controller once and writes it back
-- with the bit of the interrupt's line cleared and every other bit as it was, and accesses no other port.
pub unmask_irq-has_bit :
    (devices : Devices) (irq : ℕ) (bus : Bus)
    → irq < 16
    → devices bus (port_of irq) < 256
    → (byte : ℕ) × (pic_unmask_irq devices irq bus
        ≡ was_written (port_of irq) byte ∷ was_read (port_of irq) (devices bus (port_of irq)) ∷ bus)
      × ((j : ℕ)
          → j < 8
          → has_bit byte j ≡ (not (irq % 8 == j) && has_bit (devices bus (port_of irq)) j))
unfolding pic_unmask_irq inb outb
unmask_irq-has_bit devices irq bus small byte =
    let line : line_of irq ≡ irq % 8 = ground arith in
    let mask = devices bus (port_of irq) in
    (
      without_bit mask (line_of irq),
      refl,
      λ j h.
          has_bit-without_bit mask (line_of irq) j byte (omega (arith, line)) h
          ∙ ap (λ l. not (l == j) && has_bit mask j) line,
    )

-- where the kernel's entry leaves the controllers: `pic_remap`, `pic_mask_all` and `pic_unmask_irq(0)`
unfoldable pub irq_setup : Devices → ℕ → ℕ → Bus → Bus
irq_setup devices master slave bus =
    pic_unmask_irq devices 0 (pic_mask_all (pic_remap devices master slave bus))
