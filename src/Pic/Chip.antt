-- ===== src/Pic/Chip.antt =====
-- What the kernel relies on of an 8259 interrupt controller, and the masks that it sets.
use m.Prelude.{ℕ, suc, ◌≡◌, ◌≢◌, ◌∙◌, ap, ◌∷◌, arith}
use m.Word.Bytes.{without_bit}
use m.Bus.{Access, was_read, was_written, Bus, Devices, inb, outb, io_wait}
use m.Pic.{
  pic1_command, pic1_data, pic2_command, pic2_data, outb_wait, pic_remap, pic_mask_all,
  pic_unmask_irq,
}
use m.Pic.Masks.{irq_setup}
use m.Trap.Quiet.{port_at}

-- What a controller makes of its ports: it awaits so many more words of its initialisation, and with none
-- its data port is the mask register; or it is in another state, such as before a start.
pub data Stage : Type 0 where
  awaiting : ℕ → Stage
  other : Stage

-- The datasheet's rules for a controller with a slave or a master beside it: a start that announces a
-- fourth word is followed by three words at the data port; afterwards a byte written there is the mask,
-- and a read gives the mask. Other ports do nothing to it.
pub record IsController (devices : Devices) (command mask_port : ℕ) (stage : Bus → Stage)
    (mask : Bus → ℕ) : Type 0 where
  pub starts : (bus : Bus) → stage (was_written command 0x11 ∷ bus) ≡ awaiting 3
  pub word :
      (bus : Bus) (n v : ℕ)
      → stage bus ≡ awaiting (suc n)
      → stage (was_written mask_port v ∷ bus) ≡ awaiting n
  pub takes :
      (bus : Bus) (v : ℕ)
      → stage bus ≡ awaiting 0
      → (stage (was_written mask_port v ∷ bus) ≡ awaiting 0)
        × (mask (was_written mask_port v ∷ bus) ≡ v)
  pub gives :
      (bus : Bus) (v : ℕ)
      → stage bus ≡ awaiting 0
      → (devices bus mask_port ≡ mask bus)
        × (stage (was_read mask_port v ∷ bus) ≡ awaiting 0)
        × (mask (was_read mask_port v ∷ bus) ≡ mask bus)
  pub elsewhere :
      (a : Access) (bus : Bus)
      → port_at a ≢ command
      → port_at a ≢ mask_port
      → (stage (a ∷ bus) ≡ stage bus) × (mask (a ∷ bus) ≡ mask bus)

-- the two controllers of the machine
pub record Controllers (devices : Devices) : Type 0 where
  pub master_stage : Bus → Stage
  pub master_mask : Bus → ℕ
  pub slave_stage : Bus → Stage
  pub slave_mask : Bus → ℕ
  pub master : IsController devices pic1_command pic1_data master_stage master_mask
  pub slave : IsController devices pic2_command pic2_data slave_stage slave_mask

-- Each controller is initialised and has the mask.
pub record AreMasked (devices : Devices) (chips : Controllers devices) (bus : Bus) (m s : ℕ)
    : Type 0 where
  pub master_ready : chips.master_stage bus ≡ awaiting 0
  pub master_mask : chips.master_mask bus ≡ m
  pub slave_ready : chips.slave_stage bus ≡ awaiting 0
  pub slave_mask : chips.slave_mask bus ≡ s

module _ (devices : Devices) (command mask_port : ℕ) (stage : Bus → Stage) (mask : Bus → ℕ)
    (chip : IsController devices command mask_port stage mask) (not_command : 0x80 ≢ command)
    (not_mask : 0x80 ≢ mask_port) where
  waited : (bus : Bus) → stage (io_wait bus) ≡ stage bus
  unfolding io_wait outb
  waited bus = (chip.elsewhere (was_written 0x80 0) bus not_command not_mask).0

  start_word : (bus : Bus) → stage (outb_wait command 0x11 bus) ≡ awaiting 3
  unfolding outb_wait outb
  start_word bus = waited (was_written command 0x11 ∷ bus) ∙ chip.starts bus

  own_word :
      (n v : ℕ) (bus : Bus)
      → stage bus ≡ awaiting (suc n)
      → stage (outb_wait mask_port v bus) ≡ awaiting n
  unfolding outb_wait outb
  own_word n v bus h = waited (was_written mask_port v ∷ bus) ∙ chip.word bus n v h

  other_word :
      (n port v : ℕ) (bus : Bus)
      → port ≢ command
      → port ≢ mask_port
      → stage bus ≡ awaiting n
      → stage (outb_wait port v bus) ≡ awaiting n
  unfolding outb_wait outb
  other_word n port v bus nc nm h =
      waited (was_written port v ∷ bus) ∙ (chip.elsewhere (was_written port v) bus nc nm).0 ∙ h

module _ (devices : Devices) (chips : Controllers devices) where
  -- the three words of the master, with those of the slave between
  master_words :
      (master slave : ℕ) (bus : Bus)
      → chips.master_stage bus ≡ awaiting 3
      → chips.master_stage (
          outb_wait pic2_data 1 (
            outb_wait pic1_data 1 (
              outb_wait pic2_data 2 (
                outb_wait pic1_data 4
                  (outb_wait pic2_data slave (outb_wait pic1_data master bus))))))
        ≡ awaiting 0
  master_words master slave bus h =
      let chip = chips.master in
      let stage = chips.master_stage in
      let mask = chips.master_mask in
      let own = own_word devices 0x20 0x21 stage mask chip (omega arith) (omega arith) in
      let other = other_word devices 0x20 0x21 stage mask chip (omega arith) (omega arith) in
      other 0 0xA1 1 _ (omega arith) (omega arith) (
        own 0 1 _ (
          other 1 0xA1 2 _ (omega arith) (omega arith)
            (own 1 4 _ (other 2 0xA1 slave _ (omega arith) (omega arith) (own 2 master bus h)))))

  -- the same of the slave
  slave_words :
      (master slave : ℕ) (bus : Bus)
      → chips.slave_stage bus ≡ awaiting 3
      → chips.slave_stage (
          outb_wait pic2_data 1 (
            outb_wait pic1_data 1 (
              outb_wait pic2_data 2 (
                outb_wait pic1_data 4
                  (outb_wait pic2_data slave (outb_wait pic1_data master bus))))))
        ≡ awaiting 0
  slave_words master slave bus h =
      let chip = chips.slave in
      let stage = chips.slave_stage in
      let mask = chips.slave_mask in
      let own = own_word devices 0xA0 0xA1 stage mask chip (omega arith) (omega arith) in
      let other = other_word devices 0xA0 0xA1 stage mask chip (omega arith) (omega arith) in
      own 0 1 _ (
        other 1 0x21 1 _ (omega arith) (omega arith) (
          own 1 2 _ (
            other 2 0x21 4 _ (omega arith) (omega arith)
              (own 2 slave _ (other 3 0x21 master bus (omega arith) (omega arith) h)))))

  -- The remapping initialises both controllers.
  remap_awaiting :
      (master slave : ℕ) (bus : Bus)
      → (chips.master_stage (pic_remap devices master slave bus) ≡ awaiting 0)
        × (chips.slave_stage (pic_remap devices master slave bus) ≡ awaiting 0)
  unfolding pic_remap inb outb
  remap_awaiting master slave bus =
      let first = chips.master in
      let second = chips.slave in
      let far : 0xA0 ≢ 0x20 = omega arith in
      let far' : 0xA0 ≢ 0x21 = omega arith in
      let wait : 0x80 ≢ 0x20 = omega arith in
      let wait' : 0x80 ≢ 0x21 = omega arith in
      let ahead : 0x80 ≢ 0xA0 = omega arith in
      let ahead' : 0x80 ≢ 0xA1 = omega arith in
      let begun =
        start_word devices 0x20 0x21 chips.master_stage chips.master_mask first wait wait' _ in
      let skipped =
        other_word devices 0x20 0x21 chips.master_stage chips.master_mask first wait wait' 3 0xA0
          0x11 _ far far' begun in
      let begun' =
        start_word devices 0xA0 0xA1 chips.slave_stage chips.slave_mask second ahead ahead' _ in
      (
        (first.elsewhere _ _ (omega arith) (omega arith)).0
            ∙ (first.takes _ _ (master_words master slave _ skipped)).0,
        (second.takes _ _ (
            (second.elsewhere _ _ (omega arith) (omega arith)).0
            ∙ slave_words master slave _ begun')).0,
      )

  -- The kernel's entry leaves all interrupts masked but the timer's.
  pub irq_setup-AreMasked :
      (master slave : ℕ) (bus : Bus)
      → AreMasked devices chips (irq_setup devices master slave bus) 0xFE 0xFF
  unfolding irq_setup pic_unmask_irq pic_mask_all inb outb
  irq_setup-AreMasked master slave bus =
      let first = chips.master in
      let second = chips.slave in
      let apart : 0x21 ≢ 0xA0 = omega arith in
      let apart' : 0x21 ≢ 0xA1 = omega arith in
      let (m, s) = remap_awaiting master slave bus in
      let (m₁, m₁_mask) = first.takes _ 0xFF m in
      let (m₂, m₂_mask) = first.elsewhere (was_written 0xA1 0xFF) _ (omega arith) (omega arith) in
      let s₁ = (second.elsewhere (was_written 0x21 0xFF) _ apart apart').0 ∙ s in
      let (s₂, s₂_mask) = second.takes _ 0xFF s₁ in
      let masked = pic_mask_all (pic_remap devices master slave bus) in
      let (read, m₃, _) = first.gives masked (devices masked 0x21) (m₂ ∙ m₁) in
      let value : devices masked 0x21 ≡ 0xFF = read ∙ m₂_mask ∙ m₁_mask in
      let (m₄, m₄_mask) = first.takes _ (without_bit (devices masked 0x21) 0) m₃ in
      let (s₃, s₃_mask) =
        second.elsewhere (was_read 0x21 (devices masked 0x21)) masked (omega arith) (omega arith) in
      let (s₄, s₄_mask) =
        second.elsewhere (was_written 0x21 (without_bit (devices masked 0x21) 0)) _ (omega arith)
          (omega arith) in
      record {
        master_ready = m₄;
        master_mask = m₄_mask ∙ ap (λ b. without_bit b 0) value;
        slave_ready = s₄ ∙ s₃ ∙ s₂;
        slave_mask = s₄_mask ∙ s₃_mask ∙ s₂_mask;
      }
