-- ===== src/Trap/Quiet.antt =====
-- The log and the reports use no port but the serial ones.
use m.Prelude.{
  ℕ, zero, suc, ◌+◌, ◌*◌, ◌%◌, ◌^◌, ◌<◌, ◌≤◌, ◌≡◌, refl, ◌∙◌, false, Option, none, some, List, [],
  ◌∷◌, bit_and, text, get_or, arith, ◌==◌, if◌then◌else◌, Bool-cases, inl, inr,
}
use m.Word.{shr}
use m.Bus.{Access, was_read, was_written, Bus, Devices, inb, outb}
use m.Console.{
  com1_port, serial_timeout_limit, newline, carriage_return, Console, digits, or_text, fill_digits,
  serial_init, serial_transmit_empty, wait_empty, send_byte, serial_putc, put_all, serial_write,
  log_started, log_putc, log_write, log_writeln, hex_digits, log_hex64, log_key_value_hex64,
  log_all, log_dec_u32, kernel_panic_at,
}

abbrev pub port_at : Access → ℕ
port_at (was_read port v) = port
port_at (was_written port v) = port

-- the accesses of one port
abbrev pub uses : ℕ → Bus → List Access
uses port [] = []
uses port (a ∷ bus) = if port_at a == port then a ∷ uses port bus else uses port bus

pub uses_quiet :
    (port : ℕ) (a : Access) (bus : Bus)
    → port < com1_port
    → com1_port ≤ port_at a
    → uses port (a ∷ bus) ≡ uses port bus
uses_quiet port a bus low high = let other : (port_at a == port) ≡ false = ground arith in rw other

-- What does not depend on the accesses of the serial ports, such as the accesses of a lower port, is the
-- same before and after each of these functions.
module _ (devices : Devices) {A : Type 0} (view : Bus → A)
    (quiet : (a : Access) (bus : Bus) → com1_port ≤ port_at a → view (a ∷ bus) ≡ view bus) where
  -- the same of a log
  abbrev seen : Console → A
  seen k = view k.bus

  wait_empty_quiet : (n : ℕ) (bus : Bus) → view (wait_empty devices n bus).1 ≡ view bus
  unfolding wait_empty serial_transmit_empty inb
  wait_empty_quiet zero bus = refl
  wait_empty_quiet (suc n) bus =
      let v = devices bus (com1_port + 5) in
      let here = quiet (was_read (com1_port + 5) v) bus (omega arith) in
      elim (Bool-cases (bit_and v 0x20 == 0)) [
        | inr e ↦ rw (wait_empty, e) here
        | inl e ↦ rw (wait_empty, e) (wait_empty_quiet n (was_read (com1_port + 5) v ∷ bus) ∙ here)
      ]

  send_byte_quiet : (c : ℕ) (bus : Bus) → view (send_byte devices c bus) ≡ view bus
  unfolding send_byte outb
  send_byte_quiet c bus =
      let waited = wait_empty_quiet serial_timeout_limit bus in
      elim (Bool-cases (wait_empty devices serial_timeout_limit bus).0) [
        | inl e ↦ rw e (quiet (was_written com1_port c) _ (omega arith) ∙ waited)
        | inr e ↦ rw e waited
      ]

  serial_putc_quiet : (c : ℕ) (bus : Bus) → view (serial_putc devices c bus) ≡ view bus
  unfolding serial_putc
  serial_putc_quiet c bus = elim (Bool-cases (c == newline)) [
    | inl e ↦ rw e (
        send_byte_quiet c (send_byte devices carriage_return bus)
        ∙ send_byte_quiet carriage_return bus)
    | inr e ↦ rw e (send_byte_quiet c bus)
  ]

  put_all_quiet : (s : List ℕ) (bus : Bus) → view (put_all devices s bus) ≡ view bus
  unfolding put_all
  put_all_quiet [] bus = refl
  put_all_quiet (c ∷ cs) bus =
      put_all_quiet cs (serial_putc devices c bus) ∙ serial_putc_quiet c bus

  serial_write_quiet :
      (s : Option (List ℕ)) (bus : Bus) → view (serial_write devices s bus) ≡ view bus
  unfolding serial_write
  serial_write_quiet none bus = refl
  serial_write_quiet (some s) bus = put_all_quiet s bus

  serial_init_quiet : (bus : Bus) → view (serial_init bus) ≡ view bus
  unfolding serial_init outb
  serial_init_quiet bus =
      quiet _ _ (omega arith)
      ∙ quiet _ _ (omega arith)
      ∙ quiet _ _ (omega arith)
      ∙ quiet _ _ (omega arith)
      ∙ quiet _ _ (omega arith)
      ∙ quiet _ _ (omega arith)
      ∙ quiet _ bus (omega arith)

  pub log_started_quiet : (k : Console) → seen (log_started k) ≡ seen k
  unfolding log_started
  log_started_quiet k = elim (Bool-cases k.log_ready) [
    | inl e ↦ rw e
    | inr e ↦ rw e (serial_init_quiet k.bus)
  ]

  log_putc_quiet : (c : ℕ) (k : Console) → seen (log_putc devices c k) ≡ seen k
  unfolding log_putc
  log_putc_quiet c k = serial_putc_quiet c (log_started k).bus ∙ log_started_quiet k

  pub log_write_quiet : (s : Option (List ℕ)) (k : Console) → seen (log_write devices s k) ≡ seen k
  unfolding log_write
  log_write_quiet s k = serial_write_quiet s (log_started k).bus ∙ log_started_quiet k

  pub log_writeln_quiet :
      (s : Option (List ℕ)) (k : Console) → seen (log_writeln devices s k) ≡ seen k
  unfolding log_writeln
  log_writeln_quiet s k = log_putc_quiet newline (log_write devices s k) ∙ log_write_quiet s k

  hex_digits_quiet : (n value : ℕ) (k : Console) → seen (hex_digits devices n value k) ≡ seen k
  unfolding hex_digits
  hex_digits_quiet zero value k = refl
  hex_digits_quiet (suc n) value k =
      let c = get_or digits (bit_and (shr value (4 * n)) 0x0F) 0 in
      hex_digits_quiet n value (log_putc devices c k) ∙ log_putc_quiet c k

  pub log_key_value_hex64_quiet :
      (key : Option (List ℕ)) (value : ℕ) (k : Console)
      → seen (log_key_value_hex64 devices key value k) ≡ seen k
  unfolding log_key_value_hex64 log_hex64
  log_key_value_hex64_quiet key value k =
      log_putc_quiet newline _
      ∙ hex_digits_quiet 16 value _
      ∙ log_write_quiet (some (text "0x")) _
      ∙ log_write_quiet (some (text "=")) _
      ∙ log_write_quiet key k

  log_all_quiet : (s : List ℕ) (k : Console) → seen (log_all devices s k) ≡ seen k
  unfolding log_all
  log_all_quiet [] k = refl
  log_all_quiet (c ∷ cs) k = log_all_quiet cs (log_putc devices c k) ∙ log_putc_quiet c k

  log_dec_u32_quiet : (value : ℕ) (k : Console) → seen (log_dec_u32 devices value k) ≡ seen k
  unfolding log_dec_u32
  log_dec_u32_quiet value k = elim (Bool-cases (value == 0)) [
    | inl e ↦ rw e (log_putc_quiet 48 k)
    | inr e ↦ rw e (log_all_quiet (fill_digits 11 value []) k)
  ]

  pub kernel_panic_at_quiet :
      (flags : ℕ) (file : Option (List ℕ)) (line : ℕ) (reason : Option (List ℕ)) (code : ℕ)
      (k : Console)
      → seen (kernel_panic_at devices flags file line reason code k) ≡ seen k
  unfolding kernel_panic_at
  kernel_panic_at_quiet flags file line reason code k =
      log_writeln_quiet _ _
      ∙ log_writeln_quiet _ _
      ∙ log_key_value_hex64_quiet _ flags _
      ∙ log_key_value_hex64_quiet _ code _
      ∙ log_putc_quiet newline _
      ∙ log_dec_u32_quiet (line % 2 ^ 32) _
      ∙ log_write_quiet _ _
      ∙ log_write_quiet (or_text file (text "<unknown>")) _
      ∙ log_write_quiet _ _
      ∙ log_writeln_quiet (or_text reason (text "<null>")) _
      ∙ log_write_quiet _ _
      ∙ log_writeln_quiet _ _
      ∙ log_write_quiet _ _
      ∙ log_write_quiet _ _
      ∙ log_write_quiet _ _
      ∙ log_write_quiet _ _
      ∙ log_write_quiet _ _
      ∙ log_writeln_quiet _ _
      ∙ log_writeln_quiet _ k
