-- ===== src/Console/Polls.antt =====
-- How long the output waits for the serial port.
use m.Prelude.{
  ℕ, zero, suc, ◌+◌, ◌*◌, ◌≤◌, List, [], ◌∷◌, arith, ◌==◌, Bool-cases, inl, inr, length, bit_and,
  some,
}
use m.Bus.{was_read, was_written, Bus, Devices, inb, outb}
use m.Console.{
  serial_timeout_limit, newline, carriage_return, com1_port, serial_transmit_empty, wait_empty,
  send_byte, serial_putc, put_all, serial_write,
}

abbrev pub reads : Bus → ℕ
reads [] = 0
reads (was_read port v ∷ bus) = reads bus + 1
reads (was_written port v ∷ bus) = reads bus

abbrev pub writes : Bus → ℕ
writes [] = 0
writes (was_read port v ∷ bus) = writes bus
writes (was_written port v ∷ bus) = writes bus + 1

-- at most so many accesses more
abbrev Within : ℕ → ℕ → Bus → Bus → Type 0
Within r w bus bus' = (reads bus' ≤ reads bus + r) × (writes bus' ≤ writes bus + w)

module _ (devices : Devices) where
  wait_empty-Within : (polls : ℕ) (bus : Bus) → Within polls 0 bus (wait_empty devices polls bus).1
  unfolding wait_empty serial_transmit_empty inb
  wait_empty-Within zero bus = (omega arith, omega arith)
  wait_empty-Within (suc polls) bus =
      let v = devices bus (com1_port + 5) in
      elim (Bool-cases (bit_and v 0x20 == 0)) [
        | inr e ↦ rw (wait_empty, e) (omega arith, omega arith)
        | inl e ↦
            let (r, w) = wait_empty-Within polls (was_read (com1_port + 5) v ∷ bus) in
            rw (wait_empty, e) (omega (arith, r), omega (arith, w))
      ]

  send_byte-Within :
      (c : ℕ) (bus : Bus) → Within serial_timeout_limit 1 bus (send_byte devices c bus)
  unfolding send_byte outb
  send_byte-Within c bus =
      let (r, w) = wait_empty-Within serial_timeout_limit bus in
      elim (Bool-cases (wait_empty devices serial_timeout_limit bus).0) [
        | inl e ↦ rw e (omega (arith, r), omega (arith, w))
        | inr e ↦ rw e (omega (arith, r), omega (arith, w))
      ]

  serial_putc-Within :
      (c : ℕ) (bus : Bus) → Within (2 * serial_timeout_limit) 2 bus (serial_putc devices c bus)
  unfolding serial_putc
  serial_putc-Within c bus =
      let cr = send_byte devices carriage_return bus in
      let (r, w) = send_byte-Within carriage_return bus in
      elim (Bool-cases (c == newline)) [
        | inl e ↦
            let (r', w') = send_byte-Within c cr in
            rw e (omega (arith, r, r'), omega (arith, w, w'))
        | inr e ↦
            let (r', w') = send_byte-Within c bus in rw e (omega (arith, r'), omega (arith, w'))
      ]

  -- Whatever the devices answer, writing a text of n bytes ends after at most 200000 n polls of the port,
  -- and writes at most 2 n bytes.
  pub serial_write-reads :
      (s : List ℕ) (bus : Bus)
      → let bus' = serial_write devices (some s) bus in
        (reads bus' ≤ reads bus + 2 * serial_timeout_limit * length s)
        × (writes bus' ≤ writes bus + 2 * length s)
  unfolding serial_write put_all
  serial_write-reads [] bus = (omega arith, omega arith)
  serial_write-reads (c ∷ cs) bus =
      let (r, w) = serial_putc-Within c bus in
      let (rs, ws) = serial_write-reads cs (serial_putc devices c bus) in
      (omega (arith, r, rs), omega (arith, w, ws))
