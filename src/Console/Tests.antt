-- ===== src/Console/Tests.antt =====
-- A port that is ready at once, and the theorems of the output at it.
use m.Prelude.{
  ℕ, ◌+◌, ◌*◌, ◌≤◌, ◌≡◌, ◌≢◌, ◌⊎◌, refl, true, some, List, [], ◌∷◌, text, arith, length,
}
use m.Bus.{Devices}
use m.Console.{Console, serial_timeout_limit, serial_write, log_hex64, log_dec_u32, put_all}
use m.Console.Sent.{line, after, IsReadyLine}
use m.Console.Hex.{all_hex, read_hex, log_hex64-read}
use m.Console.Dec.{AllDigits, read_dec, first_or, log_dec_u32-read}
use m.Console.Polls.{reads, writes, serial_write-reads}

abbrev devices : Devices
devices bus port = 0x60

ready : IsReadyLine devices
ready bus = refl

abbrev log : Console
log = record { bus = []; log_ready = true }

-- the last digit first
sends_hex :
    line (log_hex64 devices 0x2F log).bus
    ≡ 102 ∷ 50 ∷ 48 ∷ 48 ∷ 48 ∷ 48 ∷ 48 ∷ 48 ∷ 48 ∷ 48 ∷ 48 ∷ 48 ∷ 48 ∷ 48 ∷ 48 ∷ 48 ∷ 120 ∷ 48 ∷ []
unfolding log_hex64 m.Console.hex_digits m.Console.log_putc m.Console.log_write
    m.Console.log_started m.Console.serial_write m.Console.put_all m.Console.serial_putc
    m.Console.send_byte m.Console.wait_empty m.Console.serial_transmit_empty m.Bus.inb m.Bus.outb
    text
sends_hex = refl

log_hex64-read_example :
    (ds : List ℕ) × (line (log_hex64 devices 0x2F log).bus ≡ after ds (after (text "0x") []))
    × (length ds ≡ 16)
    × (all_hex ds ≡ true)
    × (read_hex 0 ds ≡ 0x2F)
log_hex64-read_example = log_hex64-read devices ready 0x2F log (omega arith) refl

log_dec_u32-read_example :
    (ds : List ℕ) × (line (log_dec_u32 devices 907 log).bus ≡ after ds [])
    × AllDigits ds
    × (read_dec 0 ds ≡ 907)
    × ((first_or 0 ds ≢ 48) ⊎ (ds ≡ 48 ∷ []))
log_dec_u32-read_example = log_dec_u32-read devices ready 907 log (omega arith) refl

serial_write-reads_example :
    let bus' = serial_write devices (some (65 ∷ 10 ∷ [])) [] in
    (reads bus' ≤ 0 + 2 * serial_timeout_limit * 2) × (writes bus' ≤ 0 + 2 * 2)
serial_write-reads_example = serial_write-reads devices (65 ∷ 10 ∷ []) []
