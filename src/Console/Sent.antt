-- ===== src/Console/Sent.antt =====
-- What reaches the serial line when the port is ready at every poll.
use m.Prelude.{
  ℕ, zero, suc, ◌+◌, ◌<◌, ◌≡◌, refl, ◌∙◌, ap, true, false, some, List, [], ◌∷◌, bit_and, arith,
  ◌==◌, if◌then◌else◌, Bool-cases, inl, inr,
}
use m.Bus.{was_read, was_written, Bus, Devices, inb, outb}
use m.Console.{
  com1_port, serial_timeout_limit, newline, carriage_return, Console, serial_transmit_empty,
  wait_empty, send_byte, serial_putc, put_all, serial_write, log_started, log_putc, log_write,
}

-- the bytes sent on the line so far, the last one first
abbrev pub line : Bus → List ℕ
line [] = []
line (was_read port v ∷ bus) = line bus
line (was_written port v ∷ bus) = if port == com1_port then v ∷ line bus else line bus

-- the line after these bytes more
abbrev pub after : List ℕ → List ℕ → List ℕ
after [] l = l
after (c ∷ cs) l = after cs (c ∷ l)

-- a text with a carriage return before each new line
abbrev pub wire : List ℕ → List ℕ
wire [] = []
wire (c ∷ cs) = if c == newline then carriage_return ∷ c ∷ wire cs else c ∷ wire cs

-- The port answers each poll of its status with the bit that says that it is ready.
abbrev pub IsReadyLine : Devices → Type 0
IsReadyLine devices = (bus : Bus) → (bit_and (devices bus (com1_port + 5)) 0x20 == 0) ≡ false

module _ (devices : Devices) (ready : IsReadyLine devices) where
  wait_empty-ready :
      (polls : ℕ) (bus : Bus)
      → 0 < polls
      → wait_empty devices polls bus
        ≡ (true, was_read (com1_port + 5) (devices bus (com1_port + 5)) ∷ bus)
  unfolding wait_empty serial_transmit_empty inb
  wait_empty-ready zero bus h = absurd (omega arith)
  wait_empty-ready (suc polls) bus h = rw (wait_empty, ready bus)

  send_byte-line : (c : ℕ) (bus : Bus) → line (send_byte devices c bus) ≡ c ∷ line bus
  unfolding send_byte outb
  send_byte-line c bus = rw (wait_empty-ready serial_timeout_limit bus (omega arith))

  pub serial_putc-line :
      (c : ℕ) (bus : Bus) → line (serial_putc devices c bus) ≡ after (wire (c ∷ [])) (line bus)
  unfolding serial_putc
  serial_putc-line c bus = elim (Bool-cases (c == newline)) [
    | inl e ↦ rw e (
        send_byte-line c (send_byte devices carriage_return bus)
        ∙ ap (λ l. c ∷ l) (send_byte-line carriage_return bus))
    | inr e ↦ rw e (send_byte-line c bus)
  ]

  after_wire :
      (c : ℕ) (cs l : List ℕ) → after (wire cs) (after (wire (c ∷ [])) l) ≡ after (wire (c ∷ cs)) l
  after_wire c cs l = elim (Bool-cases (c == newline)) [ inl e ↦ rw e | inr e ↦ rw e ]

  -- If the port is ready at each poll, a text that is written arrives on the line as it is, with a
  -- carriage return before each new line.
  pub put_all-line :
      (s : List ℕ) (bus : Bus) → line (put_all devices s bus) ≡ after (wire s) (line bus)
  unfolding put_all
  put_all-line [] bus = refl
  put_all-line (c ∷ cs) bus =
      put_all-line cs (serial_putc devices c bus)
      ∙ ap (after (wire cs)) (serial_putc-line c bus)
      ∙ after_wire c cs (line bus)

  pub log_putc-line :
      (c : ℕ) (k : Console)
      → k.log_ready ≡ true
      → (line (log_putc devices c k).bus ≡ after (wire (c ∷ [])) (line k.bus))
        × ((log_putc devices c k).log_ready ≡ true)
  unfolding log_putc log_started
  log_putc-line c k h = rw h (serial_putc-line c k.bus, refl)

  pub log_write-line :
      (s : List ℕ) (k : Console)
      → k.log_ready ≡ true
      → (line (log_write devices (some s) k).bus ≡ after (wire s) (line k.bus))
        × ((log_write devices (some s) k).log_ready ≡ true)
  unfolding log_write log_started serial_write
  log_write-line s k h = rw h (put_all-line s k.bus, refl)
