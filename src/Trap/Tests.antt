-- ===== src/Trap/Tests.antt =====
-- A breakpoint, the timer and a fault, and the theorem at them.
use m.Prelude.{
  ℕ, ◌≡◌, refl, true, false, ◌&&◌, ◌||◌, some, [], ◌∷◌, text, arith, ◌==◌, if◌then◌else◌,
}
use m.Word.{add64}
use m.Bus.{Devices, was_written}
use m.Pic.{pic1_command, pic_eoi}
use m.Trap.{TrapFrame, Kernel, x86_64_trap_dispatch}
use m.Trap.Quiet.{uses}
use m.Trap.Dispatch.{is_return, state_of, is_timer, trap_dispatch-uses}

-- a port that is ready at once
abbrev devices : Devices
devices bus port = 0x60

abbrev frame : ℕ → TrapFrame
frame vector = record {
  r15 = 0;
  r14 = 0;
  r13 = 0;
  r12 = 0;
  r11 = 0;
  r10 = 0;
  r9 = 0;
  r8 = 0;
  rsi = 0;
  rdi = 0;
  rbp = 0;
  rdx = 4;
  rcx = 3;
  rbx = 2;
  rax = 1;
  vector = vector;
  error_code = 0;
  rip = 0x1000;
  cs = 0x28;
  rflags = 0x202;
}

abbrev kernel : Kernel
kernel = record {
  console = record { bus = []; log_ready = true };
  timer = record { outputs = []; ticks = 7 };
  trap_count = 1;
}

timer_returns : is_return (x86_64_trap_dispatch devices 2 [] (some (frame 32)) kernel) ≡ true
unfolding x86_64_trap_dispatch
timer_returns = refl

fault_halts : is_return (x86_64_trap_dispatch devices 2 [] (some (frame 14)) kernel) ≡ false
unfolding x86_64_trap_dispatch
fault_halts = refl

trap_dispatch-uses_example :
    let o = x86_64_trap_dispatch devices 2 (text "trap.c") (some (frame 32)) kernel in
    (is_return o ≡ (is_timer (frame 32) || (frame 32).vector == 3))
    × ((state_of o).trap_count ≡ add64 1 1)
    × ((state_of o).timer.ticks ≡ (if is_timer (frame 32) then add64 7 1 else 7))
    × (uses 0x20 (state_of o).console.bus ≡ (
        if is_timer (frame 32) && 0x20 == pic1_command
        then was_written pic1_command pic_eoi ∷ []
        else []))
trap_dispatch-uses_example =
    trap_dispatch-uses devices 0x20 (omega arith) 2 (text "trap.c") (frame 32) kernel
