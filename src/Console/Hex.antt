-- ===== src/Console/Hex.antt =====
-- The hexadecimal numbers of the log.
use m.Prelude.{
  ℕ, zero, suc, ◌+◌, ◌-◌, ◌*◌, ◌/◌, ◌^◌, ◌<◌, ◌≡◌, refl, sym, ◌∙◌, ap, Bool, true, false, ◌&&◌,
  ◌||◌, some, List, [], ◌∷◌, bit_and, text, get_or, arith, ◌==◌, ltb, leb, if◌then◌else◌, length,
}
use native.Mathlib.Nat.{div-div-eq-div-mul, pow-suc}
use m.Word.{shr}
use m.Word.Bytes.{every, every_at}
use m.Word.Mask.{bit_and_line_offset}
use m.Bus.{Devices}
use m.Console.{newline, digits, Console, hex_digits, log_hex64, log_putc, log_write}
use m.Console.Sent.{line, after, IsReadyLine, log_putc-line, log_write-line}

-- the value of a digit
abbrev pub hex_value : ℕ → ℕ
hex_value c = if ltb c 58 then c - 48 else c - 87

-- the number that hexadecimal digits spell, after the digits that make up `n`
abbrev pub read_hex : ℕ → List ℕ → ℕ
read_hex n [] = n
read_hex n (c ∷ cs) = read_hex (n * 16 + hex_value c) cs

-- 0 to 9 and a to f
abbrev pub is_hex : ℕ → Bool
is_hex c = leb 48 c && ltb c 58 || leb 97 c && ltb c 103

abbrev pub all_hex : List ℕ → Bool
all_hex [] = true
all_hex (c ∷ cs) = is_hex c && all_hex cs

digit_row : ℕ → Bool
digit_row d = hex_value (get_or digits d 0) == d && is_hex (get_or digits d 0)

digit_rows : every 16 digit_row ≡ true
unfolding every digit_row
digit_rows = refl

digit-hex_value :
    (d : ℕ) → d < 16 → (hex_value (get_or digits d 0) ≡ d) × (is_hex (get_or digits d 0) ≡ true)
unfolding digit_row
digit-hex_value d h = let row = every_at 16 digit_row d digit_rows h in (ground arith, ground arith)

sixteen : (n : ℕ) → 2 ^ (4 * suc n) ≡ 2 ^ (4 * n) * 16
sixteen n =
    ap (λ k. 2 ^ k) {y = suc (suc (suc (suc (4 * n))))} (omega arith)
    ∙ omega (
      arith,
      pow-suc 2 (4 * n + 3),
      pow-suc 2 (4 * n + 2),
      pow-suc 2 (4 * n + 1),
      pow-suc 2 (4 * n),
    )

-- the next digit of a number
next_digit :
    (value n : ℕ)
    → (value / 2 ^ (4 * suc n)) * 16 + bit_and (shr value (4 * n)) 0x0F ≡ value / 2 ^ (4 * n)
next_digit value n =
    let high : value / 2 ^ (4 * suc n) ≡ shr value (4 * n) / 16 =
      ap (λ k. value / k) (sixteen n) ∙ sym (div-div-eq-div-mul value (2 ^ (4 * n)) 16) in
    omega (arith, high, bit_and_line_offset (shr value (4 * n)))

module _ (devices : Devices) (ready : IsReadyLine devices) where
  hex_digits-read :
      (n value : ℕ) (k : Console)
      → k.log_ready ≡ true
      → (ds : List ℕ) × (line (hex_digits devices n value k).bus ≡ after ds (line k.bus))
        × (length ds ≡ n)
        × (all_hex ds ≡ true)
        × (read_hex (value / 2 ^ (4 * n)) ds ≡ value)
  unfolding hex_digits
  hex_digits-read zero value k h = ([], refl, refl, refl, omega arith)
  hex_digits-read (suc n) value k h =
      let d = bit_and (shr value (4 * n)) 0x0F in
      let c = get_or digits d 0 in
      let (spelt, hex) =
        digit-hex_value d (omega (arith, bit_and_line_offset (shr value (4 * n)))) in
      let plain : (c == newline) ≡ false = ground arith in
      let (put, still) = log_putc-line devices ready c k h in
      let (ds, sent, count, all, spells) = hex_digits-read n value (log_putc devices c k) still in
      (
        c ∷ ds,
        sent ∙ ap (after ds) (put ∙ rw plain),
        ap suc count,
        rw (hex) all,
        ap (λ v. read_hex ((value / 2 ^ (4 * suc n)) * 16 + v) ds) spelt
            ∙ ap (λ v. read_hex v ds) (next_digit value n)
            ∙ spells,
      )

  -- If the port is ready at each poll and the log is started, a 64-bit number is sent as 0x and 16
  -- hexadecimal digits that spell it.
  pub log_hex64-read :
      (value : ℕ) (k : Console)
      → value < 2 ^ 64
      → k.log_ready ≡ true
      → (ds : List ℕ) × (line (log_hex64 devices value k).bus
          ≡ after ds (after (text "0x") (line k.bus)))
        × (length ds ≡ 16)
        × (all_hex ds ≡ true)
        × (read_hex 0 ds ≡ value)
  unfolding log_hex64 text
  log_hex64-read value k small h =
      let (put, still) = log_write-line devices ready (text "0x") k h in
      let (ds, sent, count, all, spells) =
        hex_digits-read 16 value (log_write devices (some (text "0x")) k) still in
      (ds, sent ∙ ap (after ds) put, count, all, ap (λ v. read_hex v ds) (omega arith) ∙ spells)
