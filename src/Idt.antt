-- ===== src/Idt.antt =====
-- The interrupt descriptor table, kernel/arch/x86_64/idt.c and
-- kernel/arch/x86_64/include/mcsos/arch/idt.h.
pub mod Gates
pub mod Tests
use m.Prelude.{ℕ, zero, suc, ◌+◌, ◌%◌, bit_and, ◌==◌, if◌then◌else◌}
use m.Word.{shr}

-- `x86_64_idt_entry_t`
pub record IdtEntry : Type 0 where
  pub offset_low : ℕ
  pub selector : ℕ
  pub ist : ℕ
  pub type_attributes : ℕ
  pub offset_mid : ℕ
  pub offset_high : ℕ
  pub reserved : ℕ

-- the table, by vectors
abbrev pub Idt : Type 0
Idt = ℕ → IdtEntry

abbrev pub vector_count : ℕ
vector_count = 256

abbrev pub kernel_code_selector : ℕ
kernel_code_selector = 0x28

abbrev pub gate_interrupt : ℕ
gate_interrupt = 0x8E

abbrev pub gate_trap : ℕ
gate_trap = 0x8F

unfoldable pub x86_64_idt_set_gate : ℕ → ℕ → ℕ → Idt → Idt
x86_64_idt_set_gate vector handler type_attributes idt v =
    if v == vector
    then record {
      offset_low = bit_and handler 0xFFFF;
      selector = kernel_code_selector;
      ist = 0;
      type_attributes = type_attributes;
      offset_mid = bit_and (shr handler 16) 0xFFFF;
      offset_high = bit_and (shr handler 32) 0xFFFFFFFF;
      reserved = 0;
    }
    else idt v

-- The loops that set the gates of `n` vectors from `i` on: `handlers` and `types` give what each vector
-- gets.
unfoldable pub set_gates : (ℕ → ℕ) → (ℕ → ℕ) → ℕ → ℕ → Idt → Idt
set_gates handlers types zero i idt = idt
set_gates handlers types (suc n) i idt =
    set_gates handlers types n (i + 1) (x86_64_idt_set_gate (i % 256) (handlers i) (types i) idt)

-- the type of the gate of an exception
abbrev pub exception_gate : ℕ → ℕ
exception_gate vector = if vector == 3 then gate_trap else gate_interrupt

-- The table that `x86_64_idt_init` loads. `stubs` is x86_64_exception_stubs and `int80_stub` the address of
-- x86_64_syscall_int80_stub.
unfoldable pub x86_64_idt_init : (ℕ → ℕ) → ℕ → Idt → Idt
x86_64_idt_init stubs int80_stub idt =
    x86_64_idt_set_gate 0x80 int80_stub gate_interrupt
      (set_gates stubs exception_gate 32 0 (set_gates (λ i. 0) (λ i. 0) vector_count 0 idt))
