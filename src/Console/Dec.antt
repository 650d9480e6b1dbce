-- ===== src/Console/Dec.antt =====
-- The decimal numbers of a panic's report.
use m.Prelude.{
  ℕ, zero, suc, ◌+◌, ◌*◌, ◌/◌, ◌%◌, ◌-◌, ◌^◌, ◌<◌, ◌≤◌, ◌≡◌, ◌≢◌, ◌⊎◌, refl, sym, ◌∙◌, ap, subst,
  true, false, List, [], ◌∷◌, arith, ◌==◌, Bool-cases, inl, inr,
}
use native.Mathlib.Nat.{div-lt_iff_lt-mul, pow-suc}
use m.Bus.{Devices}
use m.Console.{newline, Console, fill_digits, log_all, log_putc, log_dec_u32}
use m.Console.Sent.{line, after, IsReadyLine, log_putc-line}

-- the number that decimal digits spell, after the digits that make up `n`
abbrev pub read_dec : ℕ → List ℕ → ℕ
read_dec n [] = n
read_dec n (c ∷ cs) = read_dec (n * 10 + (c - 48)) cs

abbrev pub AllDigits : List ℕ → Type 0
AllDigits [] = Unit {0}
AllDigits (c ∷ cs) = ((48 ≤ c) × (c < 58)) × AllDigits cs

abbrev pub first_or : ℕ → List ℕ → ℕ
first_or d [] = d
first_or d (c ∷ cs) = c

below_tenth : (room value : ℕ) → value < 10 ^ suc room → value / 10 < 10 ^ room
below_tenth room value h =
    (div-lt_iff_lt-mul {k = 10} {x = value} {y = 10 ^ room} (omega arith)).1
      (subst (λ n. value < n) (pow-suc 10 room) h)

-- The buffer spells the number, in digits, and does not start with 0.
fill_digits-read :
    (room value : ℕ) (buf : List ℕ)
    → value < 10 ^ room
    → AllDigits buf
    → (value ≡ 0 → first_or 0 buf ≢ 48)
    → (read_dec 0 (fill_digits room value buf) ≡ read_dec value buf)
      × AllDigits (fill_digits room value buf)
      × (first_or 0 (fill_digits room value buf) ≢ 48)
unfolding fill_digits
fill_digits-read zero value buf h all first =
    let none_left : value ≡ 0 = omega (arith, h) in
    (ap (λ n. read_dec n buf) (sym none_left), all, first none_left)
fill_digits-read (suc room) value buf h all first = elim (Bool-cases (value == 0)) [
  | inl e ↦ rw e (ap (λ n. read_dec n buf) (ground arith), all, first (ground arith))
  | inr e ↦
      let (spells, digits, head) =
        fill_digits-read room (value / 10) ((48 + value % 10) ∷ buf) (below_tenth room value h)
          ((omega arith, omega arith), all) (λ z. ground arith) in
      rw e (spells ∙ ap (λ n. read_dec n buf) (omega arith), digits, head)
]

module _ (devices : Devices) (ready : IsReadyLine devices) where
  log_all-line :
      (s : List ℕ) (k : Console)
      → k.log_ready ≡ true
      → AllDigits s
      → line (log_all devices s k).bus ≡ after s (line k.bus)
  unfolding log_all
  log_all-line [] k h all = refl
  log_all-line (c ∷ cs) k h all =
      let (put, still) = log_putc-line devices ready c k h in
      let plain : (c == newline) ≡ false = ground (arith, all.0) in
      log_all-line cs (log_putc devices c k) still all.1 ∙ ap (after cs) (put ∙ rw plain)

  -- If the port is ready at each poll and the log is started, a 32-bit number is sent as decimal digits
  -- that spell it and do not start with 0 unless the number is 0.
  pub log_dec_u32-read :
      (value : ℕ) (k : Console)
      → value < 2 ^ 32
      → k.log_ready ≡ true
      → (ds : List ℕ) × (line (log_dec_u32 devices value k).bus ≡ after ds (line k.bus))
        × AllDigits ds
        × (read_dec 0 ds ≡ value)
        × ((first_or 0 ds ≢ 48) ⊎ (ds ≡ 48 ∷ []))
  unfolding log_dec_u32
  log_dec_u32-read value k small h = elim (Bool-cases (value == 0)) [
    | inl e ↦ rw e (
      48 ∷ [],
      (log_putc-line devices ready 48 k h).0,
      ((omega arith, omega arith), tt),
      ground arith,
      inr refl,
    )
    | inr e ↦
        let (spells, digits, head) =
          fill_digits-read 11 value [] (omega arith) tt (λ z. ground arith) in
        rw e (
          fill_digits 11 value [],
          log_all-line (fill_digits 11 value []) k h digits,
          digits,
          spells,
          inl head,
        )
  ]
