-- ===== src/Idt/Gates.antt =====
-- What the table holds for each vector after `x86_64_idt_init`.
use m.Prelude.{
  ℕ, zero, suc, ◌+◌, ◌*◌, ◌%◌, ◌^◌, ◌≤◌, ◌<◌, ◌≡◌, ◌≢◌, refl, sym, ◌∙◌, true, false, arith, ltb,
  inl, inr, Bool-cases, ◌==◌, if◌then◌else◌,
}
use native.Mathlib.Decide.{ℕ_discrete}
use m.Word.{shr}
use m.Word.Mask.{bit_and_half_word, bit_and_word}
use m.Idt.{
  IdtEntry, Idt, kernel_code_selector, gate_interrupt, x86_64_idt_set_gate, set_gates,
  exception_gate, x86_64_idt_init,
}

-- the address that the processor jumps to
abbrev pub handler_of : IdtEntry → ℕ
handler_of e = e.offset_low + 2 ^ 16 * e.offset_mid + 2 ^ 32 * e.offset_high

-- what an entry says
pub record IsEntryFor (e : IdtEntry) (handler type_attributes : ℕ) : Type 0 where
  pub jumps_to : handler_of e ≡ handler
  pub kind : e.type_attributes ≡ type_attributes
  pub code_segment : e.selector ≡ kernel_code_selector
  pub no_stack_switch : e.ist ≡ 0

set_gate-IsEntryFor :
    (vector handler kind : ℕ) (idt : Idt)
    → handler < 2 ^ 64
    → IsEntryFor (x86_64_idt_set_gate vector handler kind idt vector) handler kind
unfolding x86_64_idt_set_gate
set_gate-IsEntryFor vector handler kind idt h =
    let same : (vector == vector) ≡ true = ground arith in
    rw same (record {
      jumps_to = omega (
        arith,
        bit_and_half_word handler,
        bit_and_half_word (shr handler 16),
        bit_and_word (shr handler 32) (omega arith),
      );
      kind = refl;
      code_segment = refl;
      no_stack_switch = refl;
    })

set_gate-other :
    (vector handler kind : ℕ) (idt : Idt) (v : ℕ)
    → v ≢ vector
    → x86_64_idt_set_gate vector handler kind idt v ≡ idt v
unfolding x86_64_idt_set_gate
set_gate-other vector handler kind idt v ne = ground arith

-- The loop leaves the vectors before its first one.
set_gates-before :
    (handlers types : ℕ → ℕ) (n i : ℕ) (idt : Idt) (v : ℕ)
    → i + n ≤ 256
    → v < i
    → set_gates handlers types n i idt v ≡ idt v
unfolding set_gates
set_gates-before handlers types zero i idt v fits h = refl
set_gates-before handlers types (suc n) i idt v fits h =
    set_gates-before handlers types n (i + 1)
      (x86_64_idt_set_gate (i % 256) (handlers i) (types i) idt) v (omega arith) (omega arith)
    ∙ set_gate-other (i % 256) (handlers i) (types i) idt v (omega arith)

set_gates-after :
    (handlers types : ℕ → ℕ) (n i : ℕ) (idt : Idt) (v : ℕ)
    → i + n ≤ 256
    → i + n ≤ v
    → set_gates handlers types n i idt v ≡ idt v
unfolding set_gates
set_gates-after handlers types zero i idt v fits h = refl
set_gates-after handlers types (suc n) i idt v fits h =
    set_gates-after handlers types n (i + 1)
      (x86_64_idt_set_gate (i % 256) (handlers i) (types i) idt) v (omega arith) (omega arith)
    ∙ set_gate-other (i % 256) (handlers i) (types i) idt v (omega arith)

set_gates-IsEntryFor :
    (handlers types : ℕ → ℕ) (n i : ℕ) (idt : Idt) (v : ℕ)
    → i + n ≤ 256
    → i ≤ v
    → v < i + n
    → handlers v < 2 ^ 64
    → IsEntryFor (set_gates handlers types n i idt v) (handlers v) (types v)
unfolding set_gates
set_gates-IsEntryFor handlers types zero i idt v fits from to h = absurd (omega arith)
set_gates-IsEntryFor handlers types (suc n) i idt v fits from to h =
    let t = x86_64_idt_set_gate (i % 256) (handlers i) (types i) idt in
    elim (ℕ_discrete v i) [
      | no ne ↦
          set_gates-IsEntryFor handlers types n (i + 1) t v (omega arith) (omega arith)
            (omega arith) h
      | yes e ↦
          let here : i % 256 ≡ v = omega arith in
          rw
            (set_gates-before handlers types n (i + 1) t v (omega arith) (omega arith), here, sym e)
            (set_gate-IsEntryFor v (handlers v) (types v) idt h)
    ]

-- what each vector is for
abbrev pub handler_for : (ℕ → ℕ) → ℕ → ℕ → ℕ
handler_for stubs int80_stub v = if v == 0x80 then int80_stub else if ltb v 32 then stubs v else 0

abbrev pub type_for : ℕ → ℕ
type_for v = if v == 0x80 then gate_interrupt else if ltb v 32 then exception_gate v else 0

-- Whatever the table held, with 64-bit stub addresses: after the initialisation the gate of an
-- exception vector leads to its stub and is a trap gate for the breakpoint and an interrupt gate
-- otherwise, the gate 0x80 is an interrupt gate that leads to the system call stub, and every other
-- gate of the 256 leads to 0 with the type 0, not present.
pub idt_init-IsEntryFor :
    (stubs : ℕ → ℕ) (int80_stub : ℕ) (idt : Idt) (v : ℕ)
    → ((i : ℕ) → stubs i < 2 ^ 64)
    → int80_stub < 2 ^ 64
    → v < 256
    → IsEntryFor
        (x86_64_idt_init stubs int80_stub idt v)
        (handler_for stubs int80_stub v)
        (type_for v)
unfolding x86_64_idt_init
idt_init-IsEntryFor stubs int80_stub idt v hs h8 hv =
    let cleared = set_gates (λ i. 0) (λ i. 0) 256 0 idt in
    let exceptions = set_gates stubs exception_gate 32 0 cleared in
    elim (ℕ_discrete v 0x80) [
      | yes e ↦ rw e (set_gate-IsEntryFor 0x80 int80_stub gate_interrupt exceptions h8)
      | no ne ↦
          let other : (v == 0x80) ≡ false = ground arith in
          let kept = set_gate-other 0x80 int80_stub gate_interrupt exceptions v ne in
          elim (Bool-cases (ltb v 32)) [
            | inl low ↦
                rw (kept, other, low)
                  (set_gates-IsEntryFor stubs exception_gate 32 0 cleared v (omega arith)
                    (omega arith) (ground arith) (hs v))
            | inr high ↦
                rw
                  (
                    kept,
                    other,
                    high,
                    set_gates-after stubs exception_gate 32 0 cleared v (omega arith)
                        (ground arith),
                  )
                  (set_gates-IsEntryFor (λ i. 0) (λ i. 0) 256 0 idt v (omega arith) (omega arith)
                    (omega arith) (omega arith))
          ]
    ]
