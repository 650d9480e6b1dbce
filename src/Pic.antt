-- ===== src/Pic.antt =====
-- The interrupt controllers, kernel/arch/x86_64/pic.c and kernel/arch/x86_64/include/pic.h.
pub mod Masks
pub mod Chip
pub mod Tests
use m.Prelude.{ℕ, ◌+◌, ◌-◌, ◌*◌, ◌%◌, ◌^◌, bit_and, ltb, if◌then◌else◌}
use m.Word.Bytes.{without_bit}
use m.Bus.{Bus, Devices, inb, outb, io_wait}

abbrev pub pic1_command : ℕ
pic1_command = 0x20

abbrev pub pic1_data : ℕ
pic1_data = 0x21

abbrev pub pic2_command : ℕ
pic2_command = 0xA0

abbrev pub pic2_data : ℕ
pic2_data = 0xA1

abbrev pub pic_eoi : ℕ
pic_eoi = 0x20

abbrev pub pic_master_offset : ℕ
pic_master_offset = 0x20

abbrev pub pic_slave_offset : ℕ
pic_slave_offset = 0x28

-- outb(port, value); io_wait();
unfoldable pub outb_wait : ℕ → ℕ → Bus → Bus
outb_wait port value bus = io_wait (outb port value bus)

unfoldable pub pic_mask_all : Bus → Bus
pic_mask_all bus = outb pic2_data 0xFF (outb pic1_data 0xFF bus)

unfoldable pub pic_send_eoi : ℕ → Bus → Bus
pic_send_eoi irq bus =
    outb pic1_command pic_eoi (if ltb irq 8 then bus else outb pic2_command pic_eoi bus)

unfoldable pub pic_remap : Devices → ℕ → ℕ → Bus → Bus
pic_remap devices master_offset slave_offset bus =
    let (master_mask, b₁) = inb devices pic1_data bus in
    let (slave_mask, b₂) = inb devices pic2_data b₁ in
    let b₃ = outb_wait pic2_command 0x11 (outb_wait pic1_command 0x11 b₂) in
    let b₄ = outb_wait pic2_data slave_offset (outb_wait pic1_data master_offset b₃) in
    let b₅ = outb_wait pic2_data 0x02 (outb_wait pic1_data 0x04 b₄) in
    let b₆ = outb_wait pic2_data 0x01 (outb_wait pic1_data 0x01 b₅) in
    outb pic2_data slave_mask (outb pic1_data master_mask b₆)

-- the port and the line of `pic_unmask_irq`
abbrev pub port_of : ℕ → ℕ
port_of irq = if ltb irq 8 then pic1_data else pic2_data

abbrev pub line_of : ℕ → ℕ
line_of irq = if ltb irq 8 then irq else irq - 8

-- mask & (uint8_t)~(1u << line)
unfoldable pub pic_unmask_irq : Devices → ℕ → Bus → Bus
pic_unmask_irq devices irq bus =
    let (mask, bus') = inb devices (port_of irq) bus in
    outb (port_of irq) (without_bit mask (line_of irq)) bus'

unfoldable pub pic_read_master_mask : Devices → Bus → ℕ × Bus
pic_read_master_mask devices bus = inb devices pic1_data bus

unfoldable pub pic_read_slave_mask : Devices → Bus → ℕ × Bus
pic_read_slave_mask devices bus = inb devices pic2_data bus
