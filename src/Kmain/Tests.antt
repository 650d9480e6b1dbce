-- ===== src/Kmain/Tests.antt =====
-- An image with a blank state, and the theorems of the entry at it.
use m.Prelude.{
  ℕ, ◌+◌, ◌-◌, ◌*◌, ◌%◌, ◌^◌, ◌≡◌, ap, zero, suc, ◌≢◌, refl, Bool, true, false, ◌∷◌, ◌==◌, ◌&&◌,
  if◌then◌else◌, none, some, [], arith, text,
}
use m.Bus.{Access, was_read, was_written, Bus, Devices}
use m.Pic.{pic1_command, pic1_data, pic2_command, pic2_data}
use m.Pic.Chip.{Stage, awaiting, other, IsController, Controllers}
use m.Trap.Quiet.{port_at}
use m.Heap.Types.{Kmem}
use m.Kmain.{Kernel, BootEnd, Image, kmain}
use m.Kmain.Boot.{Booted, kmain-Booted}

-- one step of a controller with these ports, on its stage and its mask
abbrev written : Stage → ℕ → ℕ → Stage × ℕ
written (awaiting zero) v m = (awaiting 0, v)
written (awaiting (suc n)) v m = (awaiting n, m)
written other v m = (other, m)

abbrev sees : ℕ → ℕ → Access → Stage × ℕ → Stage × ℕ
sees command mask_port (was_read port v) chip = chip
sees command mask_port (was_written port v) (stage, m) =
    if port == mask_port
    then written stage v m
    else if port == command && v == 0x11
    then (awaiting 3, m)
    else (stage, m)

abbrev chip : ℕ → ℕ → Bus → Stage × ℕ
chip command mask_port [] = (other, 0)
chip command mask_port (a ∷ bus) = sees command mask_port a (chip command mask_port bus)

-- two controllers, and 0x60 at the other ports
abbrev devices : Devices
devices bus port =
    if port == pic1_data
    then (chip pic1_command pic1_data bus).1
    else if port == pic2_data
    then (chip pic2_command pic2_data bus).1
    else 0x60

sees_elsewhere :
    (command mask_port : ℕ) (a : Access) (state : Stage × ℕ)
    → port_at a ≢ command
    → port_at a ≢ mask_port
    → sees command mask_port a state ≡ state
sees_elsewhere command mask_port (was_read port v) state nc nm = refl
sees_elsewhere command mask_port (was_written port v) (stage, m) nc nm =
    let not_mask : (port == mask_port) ≡ false = ground arith in
    let not_command : (port == command) ≡ false = ground arith in rw (not_mask, not_command) refl

chip-IsController :
    (command mask_port : ℕ)
    → (command == mask_port) ≡ false
    → ((bus : Bus) → devices bus mask_port ≡ (chip command mask_port bus).1)
    → IsController devices command mask_port
        (λ bus. (chip command mask_port bus).0)
        (λ bus. (chip command mask_port bus).1)
chip-IsController command mask_port apart reads =
    let same : (n : ℕ) → (n == n) ≡ true = λ n. ground arith in
    record {
      starts = λ bus. rw (apart, same command) refl;
      word = λ bus n v h. rw (same mask_port, h) refl;
      takes = λ bus v h. (rw (same mask_port, h) refl, rw (same mask_port, h) refl);
      gives = λ bus v h. (reads bus, h, refl);
      elsewhere = λ a bus nc nm.
          let same_state = sees_elsewhere command mask_port a (chip command mask_port bus) nc nm in
          (ap (λ s. s.0) same_state, ap (λ s. s.1) same_state);
    }

chips : Controllers devices
chips = record {
  master_stage = λ bus. (chip pic1_command pic1_data bus).0;
  master_mask = λ bus. (chip pic1_command pic1_data bus).1;
  slave_stage = λ bus. (chip pic2_command pic2_data bus).0;
  slave_mask = λ bus. (chip pic2_command pic2_data bus).1;
  master = chip-IsController pic1_command pic1_data refl (λ bus. refl);
  slave = chip-IsController pic2_command pic2_data refl (λ bus. refl);
}

-- no interrupt before the last line
abbrev calm : ℕ → Bool
calm n = false

abbrev image : Image
image = record {
  kernel_start = 2 ^ 64 - 2 ^ 31;
  kernel_end = 2 ^ 64 - 2 ^ 30;
  boot_heap = 2 ^ 64 - 2 ^ 31 + 4096;
  idt_base = 2 ^ 64 - 2 ^ 31 + 2 ^ 20;
  exception_stubs = λ i. 2 ^ 64 - 2 ^ 31 + 16 * (i % 32);
  int80_stub = 2 ^ 64 - 2 ^ 31 + 1024;
  file = text "kmain.c";
}

abbrev blank_heap : Kmem
blank_heap = record {
  heap_base = 0;
  heap_end = 0;
  head = 0;
  initialized = false;
  blocks = λ p. record {
    magic = 0;
    size = 0;
    free = false;
    reserved = 0;
    reserved2 = 0;
    prev = 0;
    next = 0;
  };
  bytes = λ a. 0;
}

abbrev blank : Kernel
blank = record {
  world = record {
    console = record { bus = []; log_ready = false };
    timer = record { outputs = []; ticks = 0 };
    mem = λ a. 0;
  };
  idt = λ v. record {
    offset_low = 0;
    selector = 0;
    ist = 0;
    type_attributes = 0;
    offset_mid = 0;
    offset_high = 0;
    reserved = 0;
  };
  heap = blank_heap;
  globals = record {
    ops = record {
      get_ticks = none;
      yield_current = none;
      exit_current = none;
      write_serial = none;
    };
    user_region = record { base = 0; limit = 0 };
  };
}

kmain-Booted_example :
    (e : BootEnd) × (kmain devices 2 image calm 4 blank ≡ some e)
    × Booted devices 2 image chips calm blank e
kmain-Booted_example =
    kmain-Booted devices 2 image chips calm 4 blank (omega arith) (omega arith) (λ i. omega arith)
      (omega arith) (omega arith) (omega arith) (omega arith) (omega arith)
