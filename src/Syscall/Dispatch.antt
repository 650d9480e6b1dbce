-- ===== src/Syscall/Dispatch.antt =====
-- The dispatcher: no fault after the initialisation, and the guard of the serial call.
use m.Prelude.{
  ℕ, zero, suc, ◌≤◌, ◌<◌, ◌^◌, ◌≡◌, ◌⊎◌, inl, inr, ◌≢◌, Option, none, some, arith, Bool-cases,
}
use native.Mathlib.Decide.{ℕ_discrete, dec_lt}
use m.Syscall.{
  SyscallOps, UserRegion, Globals, Args, einval, efault, mcsos_user_check_range, mcsos_syscall_init,
  mcsos_syscall_set_user_region, mcsos_syscall_dispatch, sys_ping, sys_get_ticks, sys_write_serial,
  sys_yield, sys_exit_thread,
}
use m.Syscall.Range.{InRegion, user_check_range_iff}

module _ {W : Type 0} (a : Args) (g : Globals W) (w : W) where
  -- The serial callback runs only on at most 4096 bytes at a non-null address that are none or lie in
  -- the user region; otherwise the call fails and the world is as it was.
  pub write_serial_guarded :
      (write : ℕ → ℕ → W → ℕ × W)
      → g.ops.write_serial ≡ some write
      → a.arg0 < 2 ^ 64
      → g.user_region.limit < 2 ^ 64
      → (mcsos_syscall_dispatch 2 a g w ≡ some (einval, w))
        ⊎ (mcsos_syscall_dispatch 2 a g w ≡ some (efault, w))
        ⊎ ((mcsos_syscall_dispatch 2 a g w ≡ some (write a.arg0 a.arg1 w))
            × (0 < a.arg0)
            × (a.arg1 ≤ 4096)
            × ((a.arg1 ≡ 0) ⊎ InRegion g.user_region a.arg0 a.arg1))
  unfolding mcsos_syscall_dispatch sys_write_serial
  write_serial_guarded write installed addr64 limit64 = elim (ℕ_discrete a.arg0 0) [
    | yes null ↦ inl (ground arith)
    | no given ↦ elim (dec_lt 4096 a.arg1) [
      | yes long ↦ inl (ground arith)
      | no short ↦ elim (Bool-cases (mcsos_user_check_range g.user_region a.arg0 a.arg1)) [
        | inl inside ↦ inr (
            inr (
              ground arith,
              omega arith,
              omega arith,
              (user_check_range_iff g.user_region a.arg0 a.arg1 addr64 (omega arith) limit64).0
                  inside,
            ))
        | inr outside ↦ inr (inl (ground arith))
      ]
    ]
  ]

  -- Whatever the number and the arguments, a dispatch after the initialisation calls no null pointer.
  pub dispatch-init_total :
      (given : Option (SyscallOps W)) (region : UserRegion) (nr : ℕ)
      → mcsos_syscall_dispatch nr a
          (mcsos_syscall_set_user_region region (mcsos_syscall_init given g))
          w
        ≢ none
  unfolding mcsos_syscall_dispatch mcsos_syscall_init mcsos_syscall_set_user_region sys_ping
      sys_get_ticks sys_write_serial sys_yield sys_exit_thread
  dispatch-init_total given region zero = ground arith
  dispatch-init_total given region (suc zero) = ground arith
  dispatch-init_total given region (suc (suc zero)) = ground arith
  dispatch-init_total given region (suc (suc (suc zero))) = ground arith
  dispatch-init_total given region (suc (suc (suc (suc zero)))) = ground arith
  dispatch-init_total given region (suc (suc (suc (suc (suc n))))) = ground arith
