-- ===== src/Bus.antt =====
-- The ports, kernel/arch/x86_64/include/io.h and include/mcsos/arch/io.h: the accesses made so far. What a
-- device answers to a read is a parameter, which may depend on all that happened before.
use m.Prelude.{ℕ, List, ◌∷◌}

pub data Access : Type 0 where
  -- a port, and the byte read from it
  was_read : ℕ → ℕ → Access
  -- a port, and the byte written to it
  was_written : ℕ → ℕ → Access

-- the last access first
abbrev pub Bus : Type 0
Bus = List Access

abbrev pub Devices : Type 0
Devices = Bus → ℕ → ℕ

unfoldable pub outb : ℕ → ℕ → Bus → Bus
outb port value bus = was_written port value ∷ bus

unfoldable pub inb : Devices → ℕ → Bus → ℕ × Bus
inb devices port bus = (devices bus port, was_read port (devices bus port) ∷ bus)

unfoldable pub io_wait : Bus → Bus
io_wait bus = outb 0x80 0 bus
