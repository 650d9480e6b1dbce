-- ===== src/Idt/Tests.antt =====
-- The descriptor table with made-up stubs, and the theorem at two vectors.
use m.Prelude.{ℕ, ◌+◌, ◌*◌, ◌≡◌, refl, arith, ◌%◌}
use m.Idt.{IdtEntry, Idt, x86_64_idt_init}
use m.Idt.Gates.{IsEntryFor, handler_of, idt_init-IsEntryFor}

abbrev empty : Idt
empty v = record {
  offset_low = 0;
  selector = 0;
  ist = 0;
  type_attributes = 0;
  offset_mid = 0;
  offset_high = 0;
  reserved = 0;
}

abbrev stubs : ℕ → ℕ
stubs v = v % 32 * 16 + 0xFFFF_FFFF_8000_1000

breakpoint : handler_of (x86_64_idt_init stubs 0xFFFF_FFFF_8000_2000 empty 3) ≡ stubs 3
unfolding x86_64_idt_init m.Idt.set_gates m.Idt.x86_64_idt_set_gate
breakpoint = refl

idt_init-IsEntryFor_example :
    IsEntryFor (x86_64_idt_init stubs 0xFFFF_FFFF_8000_2000 empty 3) 0xFFFF_FFFF_8000_1030 0x8F
idt_init-IsEntryFor_example =
    idt_init-IsEntryFor stubs 0xFFFF_FFFF_8000_2000 empty 3 (λ i. omega arith) (omega arith)
      (omega arith)
