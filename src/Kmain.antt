-- ===== src/Kmain.antt =====
-- The entry of the kernel, kernel/core/kmain.c: how it sets the parts up, and the callbacks that it gives
-- the system calls. After `sti` an interrupt may arrive before each of its steps; the model then ends with the
-- state that the interrupt meets. The outputs of the timer stand in a list of their own.
pub mod Heap
pub mod Boot
pub mod Tests
use m.Prelude.{
  ℕ, zero, suc, ◌+◌, ◌-◌, ◌*◌, ◌^◌, Bool, not, Option, none, some, List, [], ◌∷◌, ◌⊎◌, inl, inr,
  text, ltb, ◌==◌, if◌then◌else◌,
}
use m.Bus.{Bus, Devices}
use m.Memory.{Bytes}
use m.Console.{
  Console, newline, serial_putc, log_init, log_putc, log_write, log_writeln, log_key_value_hex64,
  kernel_panic_at,
}
use m.Timer.{Timer, pit_configure_hz, timer_ticks}
use m.Pic.{pic_master_offset, pic_slave_offset}
use m.Pic.Masks.{irq_setup}
use m.Idt.{Idt, x86_64_idt_init}
use m.Heap.Types.{Kmem}
use m.Heap.Ops.{kmem_init, kmem_alloc, kmem_free_checked}
use m.Heap.Check.{kmem_get_stats}
use m.Syscall.{
  SyscallOps, UserRegion, Globals, Args, mcsos_syscall_init, mcsos_syscall_set_user_region,
  mcsos_syscall_dispatch,
}

-- what the callbacks act on
pub record World : Type 0 where
  pub console : Console
  pub timer : Timer
  pub mem : Bytes

pub record Kernel : Type 0 where
  pub world : World
  pub idt : Idt
  pub heap : Kmem
  pub globals : Globals World

-- a failed check: its line, and the reason and the code of the panic
pub record Fault : Type 0 where
  pub line : ℕ
  pub reason : List ℕ
  pub panic_code : ℕ

-- how the entry ends: at its last line, in a panic, or where an interrupt takes it away
pub data BootEnd : Type 0 where
  ready panicked interrupted : Kernel → BootEnd

abbrev pub m8_boot_heap_size : ℕ
m8_boot_heap_size = 64 * 1024

-- the addresses that the linker chooses, and the name that the compiler gives the source
pub record Image : Type 0 where
  pub kernel_start : ℕ
  pub kernel_end : ℕ
  pub boot_heap : ℕ
  pub idt_base : ℕ
  pub exception_stubs : ℕ → ℕ
  pub int80_stub : ℕ
  pub file : List ℕ

abbrev assertion_code : ℕ
assertion_code = 0xA55E4710

unfoldable pub k_get_ticks : World → ℕ × World
k_get_ticks w = (timer_ticks w.timer, w)

unfoldable pub k_yield_current : World → World
k_yield_current w = w

unfoldable pub k_exit_current : ℕ → World → World
k_exit_current exit_code w = w

-- the loop of `k_write_serial`, with so many bytes left
unfoldable pub write_bytes : Devices → ℕ → ℕ → Bytes → Bus → Bus
write_bytes devices zero p mem bus = bus
write_bytes devices (suc n) p mem bus =
    write_bytes devices n (p + 1) mem (serial_putc devices (mem p) bus)

unfoldable pub k_write_serial : Devices → ℕ → ℕ → World → ℕ × World
k_write_serial devices buf len w = if buf == 0 then (2 ^ 64 - 1, w) else (
  len,
  record w {
    console = record (w.console) { bus = write_bytes devices len buf w.mem w.console.bus };
  },
)

unfoldable pub kernel_ops : Devices → SyscallOps World
kernel_ops devices = record {
  get_ticks = some k_get_ticks;
  yield_current = some k_yield_current;
  exit_current = some k_exit_current;
  write_serial = some (k_write_serial devices);
}

abbrev pub user_region : UserRegion
user_region = record { base = 0x0000000000400000; limit = 0x0000800000000000 }

-- the end of `m8_heap_bootstrap`, on the code that freeing gives
unfoldable pub heap_freed : ℕ → Option (ℕ × Kmem) → Option (Fault ⊎ Kmem)
heap_freed fuel none = none
heap_freed fuel (some (rc, s)) =
    if not (rc == 0)
    then some (
        inl
          (record { line = 29; reason = text "M8 kmem_free failed"; panic_code = 0x4D3846524545 }))
    else elim (kmem_get_stats fuel s) [ none ↦ none | some st ↦ some (inr s) ]

unfoldable pub heap_probed : ℕ → Option (ℕ × Kmem) → Option (Fault ⊎ Kmem)
heap_probed fuel none = none
heap_probed fuel (some (probe, s)) =
    if probe == 0
    then some (
        inl
          (record { line = 25; reason = text "M8 kmem_alloc failed"; panic_code = 0x4D38414C4C4F }))
    else heap_freed fuel (kmem_free_checked fuel probe s)

unfoldable pub heap_started : ℕ → Option (ℕ × Kmem) → Option (Fault ⊎ Kmem)
heap_started fuel none = none
heap_started fuel (some (rc, s)) =
    if not (rc == 0)
    then some (
        inl
          (record { line = 20; reason = text "M8 kmem_init failed"; panic_code = 0x4D3848454150 }))
    else heap_probed fuel (kmem_alloc fuel 128 s)

-- `m8_heap_bootstrap` but for its log line; `none` is fuel that ran out.
unfoldable pub m8_heap_bootstrap : ℕ → ℕ → Kmem → Option (Fault ⊎ Kmem)
m8_heap_bootstrap fuel boot_heap s =
    heap_started fuel (kmem_init fuel boot_heap m8_boot_heap_size s)

-- The assertions of `m4_selftest` that do not hold by the sizes of types alone.
unfoldable pub m4_selftest : Image → Option Fault
m4_selftest image =
    if not (ltb image.kernel_start image.kernel_end)
    then some (record {
      line = 39;
      reason = text "assertion failed: __kernel_end > __kernel_start";
      panic_code = assertion_code;
    })
    else if image.idt_base == 0
    then some (record {
      line = 42;
      reason = text "assertion failed: x86_64_idt_base_for_test() != 0u";
      panic_code = assertion_code;
    })
    else none

abbrev no_args : Args
no_args = record { arg0 = 0; arg1 = 0; arg2 = 0; arg3 = 0; arg4 = 0; arg5 = 0 }

module _ (devices : Devices) (flags : ℕ) (image : Image) where
  unfoldable pub panic : Fault → Kernel → BootEnd
  panic fault k = panicked (record k {
    world = record (k.world) {
      console =
          kernel_panic_at devices flags (some image.file) fault.line (some fault.reason)
            fault.panic_code k.world.console;
    };
  })

  unfoldable pub log_in : (Console → Console) → Kernel → Kernel
  log_in f k = record k { world = record (k.world) { console = f k.world.console } }

  -- the lines up to the initialisation of the table
  unfoldable pub log_banner : Console → Console
  log_banner k =
      let name =
        log_write devices (some (text " "))
          (log_write devices (some (text "MCSOS")) (log_init k)) in
      let version =
        log_write devices (some (text " ")) (log_write devices (some (text "260502")) name) in
      let entered =
        log_writeln devices (some (text " kernel entered"))
          (log_write devices (some (text "M3")) version) in
      log_key_value_hex64 devices (some (text "rflags_before_idt")) flags (
        log_key_value_hex64 devices (some (text "kernel_end")) image.kernel_end
          (log_key_value_hex64 devices (some (text "kernel_start")) image.kernel_start entered))

  -- the lines at the end of `x86_64_idt_init`
  unfoldable pub log_idt : Console → Console
  log_idt k = log_writeln devices (some (text "[M4] IDT loaded")) (
      log_key_value_hex64 devices (some (text "idt_limit")) 4095
        (log_key_value_hex64 devices (some (text "idt_base")) image.idt_base k))

  -- the table, the controllers and the timer
  unfoldable pub interrupts_on : Kernel → Kernel
  interrupts_on k =
      let logged = log_idt (log_banner k.world.console) in
      record k {
        idt = x86_64_idt_init image.exception_stubs image.int80_stub k.idt;
        world = record (k.world) {
          console = record logged {
            bus = irq_setup devices pic_master_offset pic_slave_offset logged.bus;
          };
          timer = pit_configure_hz 100 k.world.timer;
        };
      }

  -- the system calls, their smoke test and the last lines
  unfoldable pub syscalls_on : Kernel → Option BootEnd
  syscalls_on k =
      let globals =
        mcsos_syscall_set_user_region user_region
          (mcsos_syscall_init (some (kernel_ops devices)) k.globals) in
      let k' : Kernel = record k { globals = globals } in
      elim (mcsos_syscall_dispatch 0 no_args globals k'.world) [
        | none ↦ none
        | some (r, world) ↦
            let k'' : Kernel = record k' { world = world } in
            if not (r == 0x2605020A)
            then some (
                panic
                  (record {
                    line = 80;
                    reason = text "M10 syscall ping failed";
                    panic_code = 0x4D313050494E47;
                  })
                  k'')
            else some (
                ready (
                  log_in
                    (λ c.
                      log_writeln devices
                        (some (text "[M4] ready for QEMU smoke test and GDB audit"))
                        (log_writeln devices
                          (some (text "[M4] IDT and exception dispatch path installed"))
                          (log_writeln devices (some (text "[M10] syscall ping ok")) c)))
                    k''))
      ]

  -- The interrupts are let in at the `sti`; `arrives n` tells whether one comes before the self test, the
  -- heap and the system calls, counted from 0.
  unfoldable pub heap_on : (ℕ → Bool) → Kernel → Option (Fault ⊎ Kmem) → Option BootEnd
  heap_on arrives k none = none
  heap_on arrives k (some (inl fault)) = some (panic fault k)
  heap_on arrives k (some (inr s)) =
      let logged =
        log_in (log_writeln devices (some (text "[M8] kernel heap bootstrap OK")))
          (record k { heap = s }) in
      if arrives 2 then some (interrupted logged) else syscalls_on logged

  -- `kmain` without the test builds, up to the halt; `none` is fuel that ran out, or a null call.
  unfoldable pub kmain : (ℕ → Bool) → ℕ → Kernel → Option BootEnd
  kmain arrives fuel k =
      let on = interrupts_on k in
      if arrives 0 then some (interrupted on) else elim (m4_selftest image) [
        | some fault ↦ some (panic fault on)
        | none ↦
            let tested =
              log_in (log_writeln devices (some (text "[M4] selftest: IDT invariants passed")))
                on in
            if arrives 1
            then some (interrupted tested)
            else heap_on arrives tested (m8_heap_bootstrap fuel image.boot_heap tested.heap)
      ]
