-- ===== src/Trap.antt =====
-- The dispatch of traps, kernel/core/trap.c, on the frame that the stubs of isr.S push.
pub mod Quiet
pub mod Dispatch
pub mod Tests
use m.Prelude.{ℕ, Option, none, some, List, [], ◌∷◌, text, get_or, ltb, ◌==◌, if◌then◌else◌}
use m.Word.{add64}
use m.Bus.{Devices}
use m.Console.{Console, log_write, log_writeln, log_key_value_hex64, kernel_panic_at}
use m.Timer.{Timer, timer_on_irq0}
use m.Pic.{pic_master_offset, pic_send_eoi}

-- `x86_64_trap_frame_t`
pub record TrapFrame : Type 0 where
  pub r15 : ℕ
  pub r14 : ℕ
  pub r13 : ℕ
  pub r12 : ℕ
  pub r11 : ℕ
  pub r10 : ℕ
  pub r9 : ℕ
  pub r8 : ℕ
  pub rsi : ℕ
  pub rdi : ℕ
  pub rbp : ℕ
  pub rdx : ℕ
  pub rcx : ℕ
  pub rbx : ℕ
  pub rax : ℕ
  pub vector : ℕ
  pub error_code : ℕ
  pub rip : ℕ
  pub cs : ℕ
  pub rflags : ℕ

-- what a trap works on: the log, the timer, and `trap_count`
pub record Kernel : Type 0 where
  pub console : Console
  pub timer : Timer
  pub trap_count : ℕ

-- how a call ends: it returns, or it halts the processor for ever
pub data Outcome (S : Type 0) : Type 0 where
  returns halts : S → Outcome S

abbrev pub exception_names : List (List ℕ)
exception_names =
    text "#DE Divide Error"
    ∷ text "#DB Debug"
    ∷ text "NMI Interrupt"
    ∷ text "#BP Breakpoint"
    ∷ text "#OF Overflow"
    ∷ text "#BR Bound Range Exceeded"
    ∷ text "#UD Invalid Opcode"
    ∷ text "#NM Device Not Available"
    ∷ text "#DF Double Fault"
    ∷ text "Coprocessor Segment Overrun"
    ∷ text "#TS Invalid TSS"
    ∷ text "#NP Segment Not Present"
    ∷ text "#SS Stack Segment Fault"
    ∷ text "#GP General Protection Fault"
    ∷ text "#PF Page Fault"
    ∷ text "Reserved"
    ∷ text "#MF x87 Floating-Point Exception"
    ∷ text "#AC Alignment Check"
    ∷ text "#MC Machine Check"
    ∷ text "#XM SIMD Floating-Point Exception"
    ∷ text "#VE Virtualization Exception"
    ∷ text "#CP Control Protection Exception"
    ∷ text "Reserved"
    ∷ text "Reserved"
    ∷ text "Reserved"
    ∷ text "Reserved"
    ∷ text "Reserved"
    ∷ text "Reserved"
    ∷ text "#HV Hypervisor Injection Exception"
    ∷ text "#VC VMM Communication Exception"
    ∷ text "#SX Security Exception"
    ∷ text "Reserved"
    ∷ []

unfoldable pub trap_name : ℕ → List ℕ
trap_name vector =
    if ltb vector 32
    then get_or exception_names vector []
    else text "external-or-user-defined-interrupt"

module _ (devices : Devices) where
  unfoldable pub log_trap_frame : TrapFrame → Console → Console
  log_trap_frame frame k =
      let k₁ = log_key_value_hex64 devices (some (text "trap_vector")) frame.vector k in
      let k₂ = log_key_value_hex64 devices (some (text "trap_error")) frame.error_code k₁ in
      let k₃ = log_key_value_hex64 devices (some (text "trap_rip")) frame.rip k₂ in
      let k₄ = log_key_value_hex64 devices (some (text "trap_cs")) frame.cs k₃ in
      let k₅ = log_key_value_hex64 devices (some (text "trap_rflags")) frame.rflags k₄ in
      let k₆ = log_key_value_hex64 devices (some (text "trap_rax")) frame.rax k₅ in
      let k₇ = log_key_value_hex64 devices (some (text "trap_rbx")) frame.rbx k₆ in
      let k₈ = log_key_value_hex64 devices (some (text "trap_rcx")) frame.rcx k₇ in
      log_key_value_hex64 devices (some (text "trap_rdx")) frame.rdx k₈

  -- the report of a trap that is not the timer's
  unfoldable pub report_trap : TrapFrame → Console → Console
  report_trap frame k = log_trap_frame frame (
      log_writeln devices (some (trap_name frame.vector))
        (log_write devices (some (text "[M4] trap dispatch: ")) k))

  -- `x86_64_trap_dispatch`: `flags` is what the processor's flags are, and `file` the name that the
  -- compiler gives the source.
  unfoldable pub x86_64_trap_dispatch : ℕ → List ℕ → Option TrapFrame → Kernel → Outcome Kernel
  x86_64_trap_dispatch flags file none k = halts (record k {
    console =
        kernel_panic_at devices flags (some file) 68
          (some (text "assertion failed: frame != (x86_64_trap_frame_t *)0")) 0xA55E4710 k.console;
  })
  x86_64_trap_dispatch flags file (some frame) k =
      let count = add64 k.trap_count 1 in
      if frame.vector == pic_master_offset
      then returns (record {
        console = record (k.console) { bus = pic_send_eoi 0 k.console.bus };
        timer = timer_on_irq0 k.timer;
        trap_count = count;
      })
      else let reported = report_trap frame k.console in
        if frame.vector == 3
        then returns (record k {
          console =
              log_writeln devices (some (text "[M4] breakpoint handled; returning with iretq"))
                reported;
          trap_count = count;
        })
        else halts (record k {
          console =
              kernel_panic_at devices flags (some file) 85
                (some (text "unrecoverable CPU exception")) frame.vector reported;
          trap_count = count;
        })
