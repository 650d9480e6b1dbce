-- ===== src/Trap/Dispatch.antt =====
-- What the dispatch of a trap does to the controllers, the timer and the flow of control.
use m.Prelude.{
  ℕ, ◌<◌, ◌≤◌, ◌≡◌, refl, ◌∙◌, Bool, true, false, ◌&&◌, ◌||◌, some, List, ◌∷◌, arith, ◌==◌,
  if◌then◌else◌, Bool-cases, inl, inr,
}
use m.Word.{add64}
use m.Bus.{Access, Bus, was_written, Devices, outb}
use m.Console.{com1_port, Console}
use m.Timer.{timer_on_irq0}
use m.Pic.{pic1_command, pic_eoi, pic_master_offset, pic_send_eoi}
use m.Trap.{
  TrapFrame, Kernel, Outcome, returns, halts, trap_name, log_trap_frame, report_trap,
  x86_64_trap_dispatch,
}
use m.Trap.Quiet.{
  port_at, uses_quiet, uses, log_write_quiet, log_writeln_quiet, log_key_value_hex64_quiet,
  kernel_panic_at_quiet,
}

abbrev pub is_return : Outcome Kernel → Bool
is_return (returns k) = true
is_return (halts k) = false

abbrev pub state_of : Outcome Kernel → Kernel
state_of (returns k) = k
state_of (halts k) = k

abbrev pub is_timer : TrapFrame → Bool
is_timer frame = frame.vector == pic_master_offset

module _ (devices : Devices) (port : ℕ) (low : port < com1_port) where
  view_low : (a : Access) (bus : Bus) → com1_port ≤ port_at a → uses port (a ∷ bus) ≡ uses port bus
  view_low a bus high = uses_quiet port a bus low high

  report_trap-uses :
      (frame : TrapFrame) (k : Console)
      → uses port (report_trap devices frame k).bus ≡ uses port k.bus
  unfolding report_trap log_trap_frame
  report_trap-uses frame k =
      log_key_value_hex64_quiet devices (uses port) view_low _ frame.rdx _
      ∙ log_key_value_hex64_quiet devices (uses port) view_low _ frame.rcx _
      ∙ log_key_value_hex64_quiet devices (uses port) view_low _ frame.rbx _
      ∙ log_key_value_hex64_quiet devices (uses port) view_low _ frame.rax _
      ∙ log_key_value_hex64_quiet devices (uses port) view_low _ frame.rflags _
      ∙ log_key_value_hex64_quiet devices (uses port) view_low _ frame.cs _
      ∙ log_key_value_hex64_quiet devices (uses port) view_low _ frame.rip _
      ∙ log_key_value_hex64_quiet devices (uses port) view_low _ frame.error_code _
      ∙ log_key_value_hex64_quiet devices (uses port) view_low _ frame.vector _
      ∙ log_writeln_quiet devices (uses port) view_low (some (trap_name frame.vector)) _
      ∙ log_write_quiet devices (uses port) view_low _ k

  -- Every trap is counted. The dispatch returns exactly for the timer's vector 32 and the breakpoint's 3,
  -- and halts otherwise. The timer's trap adds a tick and sends one end of interrupt to the master's command
  -- port; no other trap adds a tick, and of the ports below the serial ones none is used otherwise.
  pub trap_dispatch-uses :
      (flags : ℕ) (file : List ℕ) (frame : TrapFrame) (k : Kernel)
      → let o = x86_64_trap_dispatch devices flags file (some frame) k in
        (is_return o ≡ (is_timer frame || frame.vector == 3))
        × ((state_of o).trap_count ≡ add64 k.trap_count 1)
        × ((state_of o).timer.ticks
            ≡ (if is_timer frame then add64 k.timer.ticks 1 else k.timer.ticks))
        × (uses port (state_of o).console.bus ≡ (
            if is_timer frame && port == pic1_command
            then was_written pic1_command pic_eoi ∷ uses port k.console.bus
            else uses port k.console.bus))
  unfolding x86_64_trap_dispatch timer_on_irq0 pic_send_eoi outb
  trap_dispatch-uses flags file frame k = elim (Bool-cases (is_timer frame)) [
    | inl e ↦ elim (Bool-cases (port == pic1_command)) [
      | inl p ↦
          let here : (pic1_command == port) ≡ true = ground arith in
          rw (e, p, here) (refl, refl, refl, refl)
      | inr p ↦
          let other : (pic1_command == port) ≡ false = ground arith in
          rw (e, p, other) (refl, refl, refl, refl)
    ]
    | inr e ↦
        let quiet = report_trap-uses frame k.console in
        elim (Bool-cases (frame.vector == 3)) [
          | inl b ↦
              rw (e, b)
                (refl, refl, refl, log_writeln_quiet devices (uses port) view_low _ _ ∙ quiet)
          | inr b ↦
              rw (e, b)
                (
                  refl,
                  refl,
                  refl,
                  kernel_panic_at_quiet devices (uses port) view_low flags (some file) 85 _
                        frame.vector _
                      ∙ quiet,
                )
        ]
  ]
