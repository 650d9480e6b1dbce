-- ===== src/Sched/Types.antt =====
-- The data of the scheduler, include/mcsos_thread.h, and the store that it works on. Threads are
-- objects in a store, named by their addresses, and 0 is the null pointer.
use m.Prelude.{ℕ, Bool, true, false, not, ◌&&◌, bit_and, ◌==◌, if◌then◌else◌}
use m.Word.{sub64, not64}

abbrev pub thread_magic : ℕ
thread_magic = 0x4d43534f53544852

-- `enum mcsos_thread_state`
pub data ThreadState : Type 0 where
  new ready running blocked zombie : ThreadState

-- `enum mcsos_sched_result`
pub data SchedResult : Type 0 where
  ok einval estate estack ecorrupt : SchedResult

-- `mcsos_context_t`
pub record Context : Type 0 where
  pub rsp : ℕ
  pub rbp : ℕ
  pub rbx : ℕ
  pub r12 : ℕ
  pub r13 : ℕ
  pub r14 : ℕ
  pub r15 : ℕ
  pub rip : ℕ

-- `mcsos_thread_t`: pointers are addresses.
pub record Thread : Type 0 where
  pub magic : ℕ
  pub id : ℕ
  pub name : ℕ
  pub state : ThreadState
  pub context : Context
  pub entry : ℕ
  pub arg : ℕ
  pub stack_base : ℕ
  pub stack_size : ℕ
  pub next : ℕ
  pub switches : ℕ
  pub ticks : ℕ
  pub exit_code : ℕ

-- `mcsos_scheduler_t`
pub record Scheduler : Type 0 where
  pub current : ℕ
  pub idle : ℕ
  pub ready_head : ℕ
  pub ready_tail : ℕ
  pub next_id : ℕ
  pub runnable_count : ℕ
  pub context_switches : ℕ
  pub ticks : ℕ
  pub initialized : Bool

abbrev pub Threads : Type 0
Threads = ℕ → Thread

-- The scheduler, the threads, and the registers that the processor holds.
pub record System : Type 0 where
  pub sched : Scheduler
  pub threads : Threads
  pub cpu : Context

unfoldable pub write : Threads → ℕ → Thread → Threads
write threads p t q = if q == p then t else threads q

abbrev pub is_state : ThreadState → ThreadState → Bool
is_state new new = true
is_state ready ready = true
is_state running running = true
is_state blocked blocked = true
is_state zombie zombie = true
is_state _ _ = false

unfoldable pub valid_thread_object : Threads → ℕ → Bool
valid_thread_object threads p = not (p == 0) && (threads p).magic == thread_magic

unfoldable pub align_down_uintptr : ℕ → ℕ → ℕ
align_down_uintptr value alignment = bit_and value (not64 (sub64 alignment 1))

abbrev pub zero_context : Context
zero_context = record { rsp = 0; rbp = 0; rbx = 0; r12 = 0; r13 = 0; r14 = 0; r15 = 0; rip = 0 }
