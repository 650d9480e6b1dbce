-- ===== src/Heap/Init.antt =====
-- `kmem_init` makes the memory that it is given one free block.
use m.Prelude.{
  ℕ, ◌+◌, ◌-◌, ◌*◌, ◌%◌, ◌/◌, ◌^◌, ◌≤◌, ◌<◌, ◌≡◌, refl, ap, true, false, ◌||◌, some, [], ◌∷◌, arith,
  ltb, leb, ◌==◌, bit_and,
}
use m.Word.{add64, sub64, not64}
use m.Word.Mask.{bit_and_line_base}
use m.Heap.Types.{kmem_align, kmem_magic, header_size, Kmem, KmemBlock, put_block}
use m.Heap.Ops.{init_heap, kmem_init, validated}
use m.Heap.Align.{align_up_ptr_lem}
use m.Heap.Chain.{Chain-cons, put_block_self}
use m.Heap.Invariant.{IsHeap, validate-IsHeap}

-- where the heap starts, and how many bytes it has
abbrev pub heap_start : ℕ → ℕ
heap_start base = 16 * ((base + 15) / 16)

abbrev pub heap_size : ℕ → ℕ → ℕ
heap_size base bytes = 16 * ((base + bytes - heap_start base) / 16)

abbrev first_block : Kmem → ℕ → ℕ → KmemBlock
first_block s start usable = record (s.blocks start) {
  magic = kmem_magic;
  size = sub64 usable header_size;
  free = true;
  prev = 0;
  next = 0;
}

init_heap-IsHeap :
    (s : Kmem) (start usable : ℕ)
    → 16 ≤ start
    → start % 16 ≡ 0
    → usable % 16 ≡ 0
    → 80 < usable
    → start + usable + 96 ≤ 2 ^ 64
    → IsHeap (init_heap start usable s) ((usable - 48, true) ∷ [])
unfolding init_heap
init_heap-IsHeap s start usable low aligned whole large room =
    let end : add64 start usable ≡ start + usable = omega arith in
    record {
      started = refl;
      head_first = refl;
      low = low;
      aligned = aligned;
      room = omega arith;
      chain =
          Chain-cons (put_block s.blocks start (first_block s start usable)) (add64 start usable)
            start start 0 (usable - 48) true [] (first_block s start usable) refl
            (put_block_self s.blocks start (first_block s start usable))
            (record {
              magic = refl;
              size = omega arith;
              free = refl;
              prev_block = refl;
              aligned = omega arith;
            })
            (refl, omega arith);
    }

init_heap-same :
    (s : Kmem) (start usable : ℕ)
    → ((init_heap start usable s).heap_base ≡ start) × ((init_heap start usable s).bytes ≡ s.bytes)
unfolding init_heap
init_heap-same s start usable = (refl, refl)

-- With a memory that is not null, ends some bytes below the top of the address space, and holds more than
-- 80 bytes between its first aligned address and its last, the start succeeds: the heap is one free block
-- of all of these but the header, and the other memory is as before.
pub kmem_init-IsHeap :
    (s : Kmem) (fuel base bytes : ℕ)
    → 0 < base
    → base + bytes + 96 ≤ 2 ^ 64
    → heap_start base ≤ base + bytes
    → 80 < heap_size base bytes
    → 2 ≤ fuel
    → (s' : Kmem) × (kmem_init fuel base bytes s ≡ some (0, s'))
      × IsHeap s' ((heap_size base bytes - 48, true) ∷ [])
      × (s'.heap_base ≡ heap_start base)
      × (s'.bytes ≡ s.bytes)
unfolding kmem_init
kmem_init-IsHeap s fuel base bytes h room inside large enough =
    let start = heap_start base in
    let usable = heap_size base bytes in
    let s' = init_heap start usable s in
    let up = align_up_ptr_lem base (omega arith) in
    let given : (base == 0) || ltb bytes 80 ≡ false = ground arith in
    let started : (start == 0) || ltb start base ≡ false = ground arith in
    let lost : sub64 start base ≡ start - base = omega arith in
    let enough_bytes : leb bytes (add64 (add64 (start - base) 48) 32) ≡ false = ground arith in
    let left : sub64 bytes (start - base) ≡ base + bytes - start = omega arith in
    let down : bit_and (base + bytes - start) (not64 (sub64 kmem_align 1)) ≡ usable =
      bit_and_line_base (base + bytes - start) (omega arith) in
    let more : leb usable 80 ≡ false = ground arith in
    let heap =
      init_heap-IsHeap s start usable (omega arith) (omega arith) (omega arith) large
        (omega arith) in
    (
      s',
      rw (up, given, started, lost, enough_bytes, left, down, more)
          (ap (validated s')
            (validate-IsHeap s' ((usable - 48, true) ∷ []) fuel heap (omega arith) (omega arith))),
      heap,
      (init_heap-same s start usable).0,
      (init_heap-same s start usable).1,
    )
