-- ===== src/Syscall/Tests.antt =====
-- Runs of the system call layer, after tests/test_syscall_host.c, and the theorems at concrete inputs.
use m.Prelude.{ℕ, ◌+◌, ◌^◌, ◌≤◌, ◌<◌, ◌≡◌, ◌≢◌, ◌↔◌, ◌⊎◌, refl, true, none, some, arith}
use m.Memory.{Bytes}
use m.Syscall.{
  SyscallOps, UserRegion, Globals, Args, ok, einval, efault, mcsos_user_check_range,
  mcsos_copy_from_user, mcsos_syscall_init, mcsos_syscall_set_user_region, mcsos_syscall_dispatch,
}
use m.Syscall.Range.{InRegion, user_check_range_iff, copy_from_user_checked}
use m.Syscall.Dispatch.{write_serial_guarded, dispatch-init_total}

-- The world counts the calls of the callbacks.
abbrev ops : SyscallOps ℕ
ops = record {
  get_ticks = some (λ w. (12345, w));
  yield_current = some (λ w. w + 1);
  exit_current = some (λ code w. w + code);
  write_serial = some (λ buf len w. (len, w + 1));
}

abbrev region : UserRegion
region = record { base = 0x400000; limit = 0x0000_8000_0000_0000 }

abbrev globals : Globals ℕ
globals = record { ops = ops; user_region = region }

abbrev args : ℕ → ℕ → Args
args a b = record { arg0 = a; arg1 = b; arg2 = 0; arg3 = 0; arg4 = 0; arg5 = 0 }

ticks : mcsos_syscall_dispatch 1 (args 0 0) globals 0 ≡ some (12345, 0)
unfolding mcsos_syscall_dispatch m.Syscall.sys_get_ticks
ticks = refl

exit_seven : mcsos_syscall_dispatch 4 (args (2 ^ 32 + 7) 0) globals 0 ≡ some (ok, 7)
unfolding mcsos_syscall_dispatch m.Syscall.sys_exit_thread
exit_seven = refl

user_check_range_iff_example :
    (mcsos_user_check_range region 0x400010 16 ≡ true)
    ↔ (◌≡◌ {A = ℕ} 16 0 ⊎ InRegion region 0x400010 16)
user_check_range_iff_example =
    user_check_range_iff region 0x400010 16 (omega arith) (omega arith) (omega arith)

abbrev image : Bytes
image a = a

copy_from_user_checked_example :
    let (code, mem') = mcsos_copy_from_user region 8 0x400000 4 image in
    ((code ≡ ok) × InRegion region 0x400000 4) ⊎ ((mem' ≡ image) × (◌≡◌ {A = ℕ} 4 0 ⊎ (code ≢ ok)))
copy_from_user_checked_example =
    copy_from_user_checked region 8 0x400000 4 image (omega arith) (omega arith) (omega arith)

write_serial_guarded_example :
    (mcsos_syscall_dispatch 2 (args 0x400000 5) globals 0 ≡ some (einval, 0))
    ⊎ (mcsos_syscall_dispatch 2 (args 0x400000 5) globals 0 ≡ some (efault, 0))
    ⊎ ((mcsos_syscall_dispatch 2 (args 0x400000 5) globals 0 ≡ some (5, 1))
        × ◌<◌ 0 0x400000
        × ◌≤◌ 5 4096
        × (◌≡◌ {A = ℕ} 5 0 ⊎ InRegion region 0x400000 5))
write_serial_guarded_example =
    write_serial_guarded (args 0x400000 5) globals 0 (λ buf len w. (len, w + 1)) refl (omega arith)
      (omega arith)

dispatch-init_total_example :
    mcsos_syscall_dispatch 2
      (args 0x400000 5)
      (mcsos_syscall_set_user_region region (mcsos_syscall_init none globals))
      0
    ≢ none
dispatch-init_total_example = dispatch-init_total (args 0x400000 5) globals 0 none region 2
