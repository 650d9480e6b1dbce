-- ===== src/Sched/Prepare.antt =====
-- `mcsos_thread_prepare`: the first stack of a thread.
use m.Prelude.{
  ℕ, ◌+◌, ◌-◌, ◌*◌, ◌/◌, ◌%◌, ◌^◌, ◌≤◌, ◌<◌, ◌≡◌, ◌≢◌, refl, ◌||◌, true, false, arith, ltb, leb,
  ◌==◌, if◌then◌else◌,
}
use m.Word.{add64, sub64}
use m.Word.Mask.{bit_and_line_base}
use m.Sched.Types.{
  thread_magic, new, SchedResult, ok, einval, estack, Threads, write, align_down_uintptr,
  zero_context,
}

-- The threads, and the 64-bit words of memory by their addresses.
pub record Setup : Type 0 where
  pub threads : Threads
  pub words : ℕ → ℕ

-- the part of a prepared thread that the caller names
pub record Request : Type 0 where
  pub name : ℕ
  pub entry : ℕ
  pub arg : ℕ
  pub stack_base : ℕ
  pub stack_size : ℕ
  pub id : ℕ

abbrev pub min_kernel_stack : ℕ
min_kernel_stack = 4096

abbrev pub stack_align : ℕ
stack_align = 16

-- *((uint64_t *)top) = 0, and the fields of the thread. `trampoline` is the address of
-- `mcsos_thread_trampoline`.
unfoldable pub fill_thread : ℕ → ℕ → Request → ℕ → Setup → Setup
fill_thread trampoline thread r top s = record {
  words = λ a. if a == top then 0 else s.words a;
  threads = write s.threads thread (record {
    magic = thread_magic;
    id = r.id;
    name = r.name;
    state = new;
    context = record zero_context { rsp = top; rip = trampoline };
    entry = r.entry;
    arg = r.arg;
    stack_base = r.stack_base;
    stack_size = r.stack_size;
    next = 0;
    switches = 0;
    ticks = 0;
    exit_code = 0;
  });
}

unfoldable pub mcsos_thread_prepare : ℕ → ℕ → Request → Setup → SchedResult × Setup
mcsos_thread_prepare trampoline thread r s =
    if thread == 0 || r.entry == 0 || r.stack_base == 0
    then (einval, s)
    else if ltb r.stack_size min_kernel_stack
    then (estack, s)
    else let low = r.stack_base in
      let high = add64 low r.stack_size in
      if leb high low
      then (estack, s)
      else let top = align_down_uintptr high stack_align in
        if leb top (add64 low 128)
        then (estack, s)
        else (ok, fill_thread trampoline thread r (sub64 top 8) s)

-- the stack pointer of a stack that does not wrap: 8 below its 16-aligned end
abbrev first_rsp : Request → ℕ
first_rsp r = 16 * ((r.stack_base + r.stack_size) / 16) - 8

align_down-line : (x : ℕ) → x < 2 ^ 64 → align_down_uintptr x stack_align ≡ 16 * (x / 16)
unfolding align_down_uintptr
align_down-line x h = bit_and_line_base x h

module _ (trampoline thread : ℕ) (r : Request) (s : Setup) (ht : 0 < thread) (he : 0 < r.entry)
    (hb : 0 < r.stack_base) (hs : min_kernel_stack ≤ r.stack_size)
    (fits : r.stack_base + r.stack_size < 2 ^ 64) where
  prepare_fills :
      mcsos_thread_prepare trampoline thread r s
      ≡ (ok, fill_thread trampoline thread r (first_rsp r) s)
  unfolding mcsos_thread_prepare
  prepare_fills = rw (non_null, large, rises, aligned, roomy, top)
    where
      non_null : (thread == 0 || r.entry == 0 || r.stack_base == 0) ≡ false
      non_null = ground arith

      large : ltb r.stack_size min_kernel_stack ≡ false
      large = ground arith

      high : add64 r.stack_base r.stack_size ≡ r.stack_base + r.stack_size
      high = omega arith

      rises : leb (add64 r.stack_base r.stack_size) r.stack_base ≡ false
      rises = ground (arith, high)

      aligned :
          align_down_uintptr (add64 r.stack_base r.stack_size) stack_align
          ≡ 16 * ((r.stack_base + r.stack_size) / 16)
      aligned = rw high (align_down-line (r.stack_base + r.stack_size) fits)

      roomy : leb (16 * ((r.stack_base + r.stack_size) / 16)) (add64 r.stack_base 128) ≡ false
      roomy = ground arith

      top : sub64 (16 * ((r.stack_base + r.stack_size) / 16)) 8 ≡ first_rsp r
      top = omega arith

  -- With a thread, an entry and a stack of at least 4096 bytes that ends within the address space, the
  -- preparation succeeds. The stack pointer is 8 modulo 16, and the word that it points to, which is
  -- zeroed, lies inside the stack above at least 120 bytes; no other word and no other thread changes.
  pub thread_prepare_stack :
      let (rc, s') = mcsos_thread_prepare trampoline thread r s in
      let rsp = (s'.threads thread).context.rsp in
      (rc ≡ ok)
      × (rsp % 16 ≡ 8)
      × (r.stack_base + 120 ≤ rsp)
      × (rsp + 8 ≤ r.stack_base + r.stack_size)
      × (s'.words rsp ≡ 0)
      × ((a : ℕ) → a ≢ rsp → s'.words a ≡ s.words a)
      × ((p : ℕ) → p ≢ thread → s'.threads p ≡ s.threads p)
  unfolding fill_thread write
  thread_prepare_stack =
      rw (prepare_fills, self)
        (
          refl,
          omega arith,
          omega arith,
          omega arith,
          ground arith,
          λ a ne. ground arith,
          λ p ne. ground arith,
        )
    where
      self : (thread == thread) ≡ true
      self = ground arith
