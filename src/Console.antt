-- ===== src/Console.antt =====
-- The output of the kernel: the serial port (kernel/core/serial.c), the log (kernel/core/log.c) and the
-- report of a panic (kernel/core/panic.c). A text is the list of its bytes before the 0 that ends it.
pub mod Sent
pub mod Hex
pub mod Dec
pub mod Polls
pub mod Tests
use m.Prelude.{
  ℕ, zero, suc, ◌+◌, ◌-◌, ◌*◌, ◌/◌, ◌%◌, ◌^◌, Bool, true, false, not, Option, none, some, List, [],
  ◌∷◌, bit_and, text, get_or, ◌==◌, if◌then◌else◌,
}
use m.Word.{shr}
use m.Bus.{Bus, Devices, inb, outb}

abbrev pub com1_port : ℕ
com1_port = 0x3F8

abbrev pub serial_timeout_limit : ℕ
serial_timeout_limit = 100000

abbrev pub newline : ℕ
newline = 10

abbrev pub carriage_return : ℕ
carriage_return = 13

-- The log: the ports, and `g_log_ready`.
pub record Console : Type 0 where
  pub bus : Bus
  pub log_ready : Bool

unfoldable pub serial_init : Bus → Bus
serial_init bus = outb (com1_port + 4) 0x0B (
    outb (com1_port + 2) 0xC7 (
      outb (com1_port + 3) 0x03 (
        outb (com1_port + 1) 0x00
          (outb (com1_port + 0) 0x03 (outb (com1_port + 3) 0x80 (outb (com1_port + 1) 0x00 bus))))))

unfoldable pub log_init : Console → Console
log_init k = record { bus = serial_init k.bus; log_ready = true }

-- the guard of `log_putc` and `log_write`
unfoldable pub log_started : Console → Console
log_started k = if k.log_ready then k else record { bus = serial_init k.bus; log_ready = true }

-- "0123456789abcdef"
abbrev pub digits : List ℕ
digits = 48 ∷ 49 ∷ 50 ∷ 51 ∷ 52 ∷ 53 ∷ 54 ∷ 55 ∷ 56 ∷ 57 ∷ 97 ∷ 98 ∷ 99 ∷ 100 ∷ 101 ∷ 102 ∷ []

-- The first loop of `log_dec_u32`, with so much room left: the buffer, the last digit written first.
unfoldable pub fill_digits : ℕ → ℕ → List ℕ → List ℕ
fill_digits zero value buf = buf
fill_digits (suc room) value buf =
    let rest = fill_digits room (value / 10) ((48 + value % 10) ∷ buf) in
    if value == 0 then buf else rest

abbrev pub or_text : Option (List ℕ) → List ℕ → Option (List ℕ)
or_text none s = some s
or_text (some given) s = some given

module _ (devices : Devices) where
  unfoldable pub serial_transmit_empty : Bus → Bool × Bus
  serial_transmit_empty bus =
      let (status, bus') = inb devices (com1_port + 5) bus in (not (bit_and status 0x20 == 0), bus')

  -- The loop of `serial_putc`, with so many polls left: whether the port became ready.
  unfoldable pub wait_empty : ℕ → Bus → Bool × Bus
  wait_empty zero bus = (false, bus)
  wait_empty (suc polls) bus =
      let (ready, bus') = serial_transmit_empty bus in
      elim ready [ true ↦ (true, bus') | false ↦ wait_empty polls bus' ]

  -- `serial_putc` behind its test for a new line
  unfoldable pub send_byte : ℕ → Bus → Bus
  send_byte c bus =
      let (ready, bus') = wait_empty serial_timeout_limit bus in
      if ready then outb com1_port c bus' else bus'

  unfoldable pub serial_putc : ℕ → Bus → Bus
  serial_putc c bus = send_byte c (if c == newline then send_byte carriage_return bus else bus)

  unfoldable pub put_all : List ℕ → Bus → Bus
  put_all [] bus = bus
  put_all (c ∷ cs) bus = put_all cs (serial_putc c bus)

  unfoldable pub serial_write : Option (List ℕ) → Bus → Bus
  serial_write none bus = bus
  serial_write (some s) bus = put_all s bus

  unfoldable pub log_putc : ℕ → Console → Console
  log_putc c k = let k' = log_started k in record k' { bus = serial_putc c k'.bus }

  unfoldable pub log_write : Option (List ℕ) → Console → Console
  log_write s k = let k' = log_started k in record k' { bus = serial_write s k'.bus }

  unfoldable pub log_writeln : Option (List ℕ) → Console → Console
  log_writeln s k = log_putc newline (log_write s k)

  -- the loop of `log_hex64` on the `n` low digits
  unfoldable pub hex_digits : ℕ → ℕ → Console → Console
  hex_digits zero value k = k
  hex_digits (suc n) value k =
      hex_digits n value (log_putc (get_or digits (bit_and (shr value (4 * n)) 0x0F) 0) k)

  unfoldable pub log_hex64 : ℕ → Console → Console
  log_hex64 value k = hex_digits 16 value (log_write (some (text "0x")) k)

  unfoldable pub log_key_value_hex64 : Option (List ℕ) → ℕ → Console → Console
  log_key_value_hex64 key value k =
      log_putc newline (log_hex64 value (log_write (some (text "=")) (log_write key k)))

  -- while (i != 0u) log_putc(buf[--i])
  unfoldable pub log_all : List ℕ → Console → Console
  log_all [] k = k
  log_all (c ∷ cs) k = log_all cs (log_putc c k)

  unfoldable pub log_dec_u32 : ℕ → Console → Console
  log_dec_u32 value k = if value == 0 then log_putc 48 k else log_all (fill_digits 11 value []) k

  -- `kernel_panic_at` up to the halt; `rflags` is what the processor's flags were.
  unfoldable pub kernel_panic_at : ℕ → Option (List ℕ) → ℕ → Option (List ℕ) → ℕ → Console → Console
  kernel_panic_at rflags file line reason panic_code k =
      let head =
        log_writeln (some (text "================ MCSOS KERNEL PANIC ================"))
          (log_writeln (some (text "")) k) in
      let system = log_writeln (some (text "M3")) (
        log_write (some (text " milestone=")) (
          log_write (some (text "260502")) (
            log_write (some (text " version="))
              (log_write (some (text "MCSOS")) (log_write (some (text "system=")) head))))) in
      let why =
        log_writeln (or_text reason (text "<null>")) (log_write (some (text "reason=")) system) in
      let place =
        log_write (or_text file (text "<unknown>")) (log_write (some (text "location=")) why) in
      let at = log_putc newline (log_dec_u32 (line % 2 ^ 32) (log_write (some (text ":")) place)) in
      let codes =
        log_key_value_hex64 (some (text "rflags_before_cli")) rflags
          (log_key_value_hex64 (some (text "panic_code")) panic_code at) in
      log_writeln (some (text "===================================================="))
        (log_writeln (some (text "state=halted")) codes)
