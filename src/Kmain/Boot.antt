-- ===== src/Kmain/Boot.antt =====
-- How the whole entry of the kernel ends.
use m.Prelude.{
  ℕ, zero, suc, ◌+◌, ◌%◌, ◌^◌, ◌≤◌, ◌<◌, ◌≡◌, ◌≢◌, refl, ◌∙◌, ap, none, some, List, ◌++◌, inl, inr,
  arith, text, Bool-cases, Bool, true, false,
}
use m.Bus.{Devices}
use m.Console.{Console, log_writeln}
use m.Timer.{pit_configure_hz}
use m.Timer.Reload.{programs}
use m.Pic.{pic_master_offset, pic_slave_offset}
use m.Pic.Chip.{Controllers, AreMasked, irq_setup-AreMasked}
use m.Trap.Quiet.{log_writeln_quiet}
use m.Idt.{x86_64_idt_init}
use m.Idt.Gates.{idt_init-IsEntryFor}
use m.Heap.Types.{Kmem}
use m.Heap.Invariant.{IsHeap}
use m.Syscall.{
  Globals, mcsos_syscall_init, mcsos_syscall_set_user_region, mcsos_syscall_dispatch, sys_ping,
}
use m.Kmain.{
  World, Kernel, BootEnd, ready, panicked, interrupted, Image, kernel_ops, user_region, m4_selftest,
  log_in, log_idt, log_banner, interrupts_on, syscalls_on, heap_on, kmain,
}
use m.Kmain.Heap.{boot_tiles, heap_bootstrap-IsHeap}

calm_before :
    (arrives : ℕ → Bool)
    → arrives 0 ≡ false
    → arrives 1 ≡ false
    → arrives 2 ≡ false
    → (n : ℕ) → n < 3
    → arrives n ≡ false
calm_before arrives first second third zero h = first
calm_before arrives first second third (suc zero) h = second
calm_before arrives first second third (suc (suc zero)) h = third
calm_before arrives first second third (suc (suc (suc n))) h = absurd (omega (arith, h))

module _ (devices : Devices) (flags : ℕ) (image : Image) (chips : Controllers devices) where
  -- The descriptor table, the controllers and the timer are set up: interrupts other than the timer's are
  -- masked, the timer's vector has no gate, and vector 11, by which the processor reports that, has one.
  pub record Wired (k k' : Kernel) : Type 0 where
    pub idt : k'.idt ≡ x86_64_idt_init image.exception_stubs image.int80_stub k.idt
    pub timer_gate : (k'.idt pic_master_offset).type_attributes ≡ 0
    pub fault_gate : (k'.idt 11).type_attributes ≡ 0x8E
    pub masks : AreMasked devices chips k'.world.console.bus 0xFE 0xFF
    pub timer : k'.world.timer.outputs ≡ k.world.timer.outputs ++ programs 0x9B 0x2E
    pub ticks : k'.world.timer.ticks ≡ k.world.timer.ticks

  -- The heap is one free block, and the kernel's callbacks and user region are installed.
  pub record Started (k k' : Kernel) : Type 0 where
    pub heap : IsHeap k'.heap boot_tiles
    pub calls :
        k'.globals
        ≡ mcsos_syscall_set_user_region user_region
            (mcsos_syscall_init (some (kernel_ops devices)) k.globals)

  -- how the entry ends from `k`: never in a panic, and at its last line if no interrupt arrives
  abbrev pub Booted : (ℕ → Bool) → Kernel → BootEnd → Type 0
  Booted arrives k (panicked k') = ⊥
  Booted arrives k (interrupted k') = ((n : ℕ) × (n < 3) × (arrives n ≡ true)) × Wired k k'
  Booted arrives k (ready k') = ((n : ℕ) → n < 3 → arrives n ≡ false) × Wired k k' × Started k k'

  -- a line in the log leaves the controllers
  writeln_masks :
      (s : List ℕ) (c : Console) (m n : ℕ)
      → AreMasked devices chips c.bus m n
      → AreMasked devices chips (log_writeln devices (some s) c).bus m n
  writeln_masks s c m n masks =
      let away = chips.master.elsewhere in
      let away' = chips.slave.elsewhere in
      record {
        master_ready =
            log_writeln_quiet devices chips.master_stage
              (λ a bus h. (away a bus (omega (arith, h)) (omega (arith, h))).0) (some s) c
            ∙ masks.master_ready;
        master_mask =
            log_writeln_quiet devices chips.master_mask
              (λ a bus h. (away a bus (omega (arith, h)) (omega (arith, h))).1) (some s) c
            ∙ masks.master_mask;
        slave_ready =
            log_writeln_quiet devices chips.slave_stage
              (λ a bus h. (away' a bus (omega (arith, h)) (omega (arith, h))).0) (some s) c
            ∙ masks.slave_ready;
        slave_mask =
            log_writeln_quiet devices chips.slave_mask
              (λ a bus h. (away' a bus (omega (arith, h)) (omega (arith, h))).1) (some s) c
            ∙ masks.slave_mask;
      }

  selftest-passes :
      image.kernel_start < image.kernel_end → image.idt_base ≢ 0 → m4_selftest image ≡ none
  unfolding m4_selftest
  selftest-passes order base = ground arith

  interrupts_on-Wired :
      (k : Kernel)
      → ((i : ℕ) → image.exception_stubs i < 2 ^ 64)
      → image.int80_stub < 2 ^ 64
      → Wired k (interrupts_on devices flags image k)
  unfolding interrupts_on pit_configure_hz
  interrupts_on-Wired k stubs64 int64 =
      let logged = log_idt devices flags image (log_banner devices flags image k.world.console) in
      record {
        idt = refl;
        timer_gate =
            (idt_init-IsEntryFor image.exception_stubs image.int80_stub k.idt pic_master_offset
              stubs64 int64 (omega arith)).kind;
        fault_gate =
            (idt_init-IsEntryFor image.exception_stubs image.int80_stub k.idt 11 stubs64 int64
              (omega arith)).kind;
        masks = irq_setup-AreMasked devices chips pic_master_offset pic_slave_offset logged.bus;
        timer = refl;
        ticks = refl;
      }

  log_in-Wired :
      (s : List ℕ) (k k' : Kernel)
      → Wired k k'
      → Wired k (log_in devices flags image (log_writeln devices (some s)) k')
  unfolding log_in
  log_in-Wired s k k' w = record {
    idt = w.idt;
    timer_gate = w.timer_gate;
    fault_gate = w.fault_gate;
    masks = writeln_masks s k'.world.console 0xFE 0xFF w.masks;
    timer = w.timer;
    ticks = w.ticks;
  }

  -- The system calls answer the smoke test, and the last lines are logged.
  syscalls_on-Started :
      (arrives : ℕ → Bool) (k k' : Kernel)
      → ((n : ℕ) → n < 3 → arrives n ≡ false)
      → Wired k k'
      → IsHeap k'.heap boot_tiles
      → k'.globals ≡ k.globals
      → (e : BootEnd) × (syscalls_on devices flags image k' ≡ some e) × Booted arrives k e
  unfolding syscalls_on mcsos_syscall_dispatch sys_ping log_in
  syscalls_on-Started arrives k k' calm w heap same =
      let installed = λ (g : Globals World).
        mcsos_syscall_set_user_region user_region
          (mcsos_syscall_init (some (kernel_ops devices)) g) in
      let moved : Kernel = record k' { globals = installed k'.globals } in
      let w₀ : Wired k moved = record {
        idt = w.idt;
        timer_gate = w.timer_gate;
        fault_gate = w.fault_gate;
        masks = w.masks;
        timer = w.timer;
        ticks = w.ticks;
      } in
      let w₁ = log_in-Wired (text "[M10] syscall ping ok") k moved w₀ in
      let w₂ = log_in-Wired (text "[M4] IDT and exception dispatch path installed") k _ w₁ in
      let w₃ = log_in-Wired (text "[M4] ready for QEMU smoke test and GDB audit") k _ w₂ in
      (_, refl, (calm, w₃, record { heap = heap; calls = ap installed same }))

  heap_on-Booted :
      (arrives : ℕ → Bool) (k k' : Kernel) (s : Kmem)
      → arrives 0 ≡ false
      → arrives 1 ≡ false
      → Wired k k'
      → IsHeap s boot_tiles
      → k'.globals ≡ k.globals
      → (e : BootEnd) × (heap_on devices flags image arrives k' (some (inr s)) ≡ some e)
        × Booted arrives k e
  unfolding heap_on log_in
  heap_on-Booted arrives k k' s first second w heap same =
      let started : Kernel = record k' { heap = s } in
      let w₀ : Wired k started = record {
        idt = w.idt;
        timer_gate = w.timer_gate;
        fault_gate = w.fault_gate;
        masks = w.masks;
        timer = w.timer;
        ticks = w.ticks;
      } in
      let message = text "[M8] kernel heap bootstrap OK" in
      let logged = log_in devices flags image (log_writeln devices (some message)) started in
      let w₁ : Wired k logged = log_in-Wired message k started w₀ in
      elim (Bool-cases (arrives 2)) [
        | inl came ↦ (interrupted logged, rw came refl, ((2, omega arith, came), w₁))
        | inr third ↦
            let (e, run, booted) =
              syscalls_on-Started arrives k logged (calm_before arrives first second third) w₁ heap
                same in
            (e, rw third run, booted)
      ]

  -- If the kernel's end lies behind its start, the table's address is not null, the stubs' addresses have
  -- 64 bits, the heap area starts at a page that is not null and ends below the end of the address space,
  -- and the two interrupt controllers follow their datasheet, then with fuel for four heap blocks the entry
  -- ends from any state, and no check panics. If no interrupt arrives at the three points after `sti` where
  -- the model lets one in, it ends at its last line, with a heap of one free block and the kernel's
  -- callbacks and user region installed; if not, it ends where one arrives. Either way the descriptor table
  -- is set up, the controllers are initialised with all interrupts masked but the timer's, and the timer is
  -- programmed with 11931; but the gate of vector 32, which is the timer's, is not present.
  pub kmain-Booted :
      (arrives : ℕ → Bool) (fuel : ℕ) (k : Kernel)
      → image.kernel_start < image.kernel_end
      → image.idt_base ≢ 0
      → ((i : ℕ) → image.exception_stubs i < 2 ^ 64)
      → image.int80_stub < 2 ^ 64
      → 0 < image.boot_heap
      → image.boot_heap % 4096 ≡ 0
      → image.boot_heap + 65632 ≤ 2 ^ 64
      → 4 ≤ fuel
      → (e : BootEnd) × (kmain devices flags image arrives fuel k ≡ some e) × Booted arrives k e
  unfolding kmain log_in interrupts_on
  kmain-Booted arrives fuel k order base stubs64 int64 some_heap aligned room enough =
      let (s, heap_run, heap) =
        heap_bootstrap-IsHeap k.heap fuel image.boot_heap some_heap aligned room enough in
      let passes = selftest-passes order base in
      let on = interrupts_on devices flags image k in
      let message = text "[M4] selftest: IDT invariants passed" in
      let tested = log_in devices flags image (log_writeln devices (some message)) on in
      let w : Wired k on = interrupts_on-Wired k stubs64 int64 in
      let w₁ : Wired k tested = log_in-Wired message k on w in
      elim (Bool-cases (arrives 0)) [
        | inl came ↦ (interrupted on, rw came refl, ((0, omega arith, came), w))
        | inr first ↦ elim (Bool-cases (arrives 1)) [
          | inl came ↦
              (interrupted tested, rw (first, passes, came) refl, ((1, omega arith, came), w₁))
          | inr second ↦
              let (e, run, booted) = heap_on-Booted arrives k tested s first second w₁ heap refl in
              (e, rw (first, passes, second, heap_run) run, booted)
        ]
      ]
