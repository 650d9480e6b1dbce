-- ===== src/Syscall.antt =====
-- The system call layer, kernel/syscall/syscall.c and include/mcsos/syscall.h. `W` is the world that
-- the installed callbacks act on. A C value of type int64_t or int is its 64-bit two's complement.
pub mod Range
pub mod Dispatch
pub mod Tests
use m.Prelude.{
  ℕ, zero, suc, ◌+◌, ◌-◌, ◌%◌, ◌^◌, Bool, true, false, not, ◌||◌, Option, none, some, List, [], ◌∷◌,
  ltb, leb, ◌==◌, if◌then◌else◌, get_or,
}
use m.Word.{add64, sub64}
use m.Memory.{Bytes, store}

-- `enum mcsos_syscall_status`
abbrev pub ok : ℕ
ok = 0

abbrev pub einval : ℕ
einval = 2 ^ 64 - 22

abbrev pub enosys : ℕ
enosys = 2 ^ 64 - 38

abbrev pub efault : ℕ
efault = 2 ^ 64 - 14

abbrev pub ebusy : ℕ
ebusy = 2 ^ 64 - 16

-- MCSOS_SYS_MAX
abbrev pub sys_max : ℕ
sys_max = 5

-- `mcsos_syscall_ops_t`: a null function pointer is `none`.
pub record SyscallOps (W : Type 0) : Type 0 where
  pub get_ticks : Option (W → ℕ × W)
  pub yield_current : Option (W → W)
  pub exit_current : Option (ℕ → W → W)
  pub write_serial : Option (ℕ → ℕ → W → ℕ × W)

pub record UserRegion : Type 0 where
  pub base : ℕ
  pub limit : ℕ

-- `g_ops` and `g_user_region`
pub record Globals (W : Type 0) : Type 0 where
  pub ops : SyscallOps W
  pub user_region : UserRegion

unfoldable pub default_write_serial : {W : Type 0} → ℕ → ℕ → W → ℕ × W
default_write_serial buf len w = (len, w)

-- if (given != 0) field = given
abbrev pub override : {A : Type 0} → Option A → Option A → Option A
override field none = field
override field (some given) = some given

unfoldable pub mcsos_syscall_init : {W : Type 0} → Option (SyscallOps W) → Globals W → Globals W
mcsos_syscall_init none g = record g {
  ops = record {
    get_ticks = none;
    yield_current = none;
    exit_current = none;
    write_serial = some default_write_serial;
  };
}
mcsos_syscall_init (some ops) g = record g {
  ops = record {
    get_ticks = override none ops.get_ticks;
    yield_current = override none ops.yield_current;
    exit_current = override none ops.exit_current;
    write_serial = override (some default_write_serial) ops.write_serial;
  };
}

unfoldable pub mcsos_syscall_set_user_region : {W : Type 0} → UserRegion → Globals W → Globals W
mcsos_syscall_set_user_region region g = record g { user_region = region }

unfoldable pub mcsos_user_check_range : UserRegion → ℕ → ℕ → Bool
mcsos_user_check_range region addr len =
    if len == 0
    then true
    else if region.base == 0 || leb region.limit region.base
    then false
    else if ltb addr region.base
    then false
    else if ltb region.limit addr
    then false
    else let last = sub64 (add64 addr len) 1 in
      if ltb last addr then false else if leb region.limit last then false else true

-- for (i = 0; i < len; ++i) d[i] = s[i], from `i` on
unfoldable pub copy_bytes : ℕ → ℕ → ℕ → ℕ → Bytes → Bytes
copy_bytes zero i d s mem = mem
copy_bytes (suc rounds) i d s mem = copy_bytes rounds (i + 1) d s (store mem (d + i) (mem (s + i)))

unfoldable pub mcsos_copy_from_user : UserRegion → ℕ → ℕ → ℕ → Bytes → ℕ × Bytes
mcsos_copy_from_user region dst src len mem =
    if len == 0
    then (ok, mem)
    else if dst == 0 || src == 0
    then (einval, mem)
    else if not (mcsos_user_check_range region src len)
    then (efault, mem)
    else (ok, copy_bytes len 0 dst src mem)

-- the six arguments of a system call
pub record Args : Type 0 where
  pub arg0 : ℕ
  pub arg1 : ℕ
  pub arg2 : ℕ
  pub arg3 : ℕ
  pub arg4 : ℕ
  pub arg5 : ℕ

-- A call of a null function pointer is a fault, `none`.
abbrev pub SyscallFn : Type 0 → Type 0
SyscallFn W = Args → Globals W → W → Option (ℕ × W)

module _ {W : Type 0} where
  unfoldable pub sys_ping : SyscallFn W
  sys_ping a g w = some (0x2605020a, w)

  unfoldable pub sys_get_ticks : SyscallFn W
  sys_get_ticks a g w = elim g.ops.get_ticks [ none ↦ some (ebusy, w) | some f ↦ some (f w) ]

  unfoldable pub sys_write_serial : SyscallFn W
  sys_write_serial a g w =
      if a.arg0 == 0
      then some (einval, w)
      else if ltb 4096 a.arg1
      then some (einval, w)
      else if not (mcsos_user_check_range g.user_region a.arg0 a.arg1)
      then some (efault, w)
      else elim g.ops.write_serial [ none ↦ none | some f ↦ some (f a.arg0 a.arg1 w) ]

  unfoldable pub sys_yield : SyscallFn W
  sys_yield a g w = elim g.ops.yield_current [ none ↦ some (ebusy, w) | some f ↦ some (ok, f w) ]

  -- (int)code keeps the low 32 bits.
  unfoldable pub sys_exit_thread : SyscallFn W
  sys_exit_thread a g w = elim g.ops.exit_current [
    | none ↦ some (ebusy, w)
    | some f ↦ some (ok, f (a.arg0 % 2 ^ 32) w)
  ]

  -- `g_table`: a null entry would be `none`.
  abbrev pub g_table : List (Option (SyscallFn W))
  g_table =
      some sys_ping
      ∷ some sys_get_ticks
      ∷ some sys_write_serial
      ∷ some sys_yield
      ∷ some sys_exit_thread
      ∷ []

  unfoldable pub mcsos_syscall_dispatch : ℕ → SyscallFn W
  mcsos_syscall_dispatch nr a g w =
      if leb sys_max nr
      then some (enosys, w)
      else elim (get_or g_table nr none) [ none ↦ some (enosys, w) | some fn ↦ fn a g w ]

-- `mcsos_syscall_frame_t`
pub record SyscallFrame : Type 0 where
  pub nr : ℕ
  pub args : Args
  pub ret : ℕ

-- A null frame is `none`; the outer option is the fault of a dispatch.
unfoldable pub mcsos_syscall_dispatch_frame :
    {W : Type 0} → Option SyscallFrame → Globals W → W → Option (Option SyscallFrame × W)
mcsos_syscall_dispatch_frame none g w = some (none, w)
mcsos_syscall_dispatch_frame (some frame) g w =
    elim (mcsos_syscall_dispatch frame.nr frame.args g w) [
      | none ↦ none
      | some (ret, w') ↦ some (some (record frame { ret = ret }), w')
    ]
