-- ===== src/Heap/Invariant.antt =====
-- The heap's invariant against the list of blocks, and what each call makes of both.
use m.Prelude.{
  ℕ, ◌+◌, ◌%◌, ◌^◌, ◌≤◌, ◌<◌, ◌≡◌, Bool, true, false, not, ◌||◌, some, [], ◌∷◌, ◌++◌, arith, leb,
  ◌==◌, length,
}
use native.Mathlib.Decide.{dec_lt}
use m.Heap.Types.{kmem_magic, failure, Blocks, Kmem}
use m.Heap.Check.{guard_limit, kmem_validate}
use m.Heap.Spec.{Tiles, end_of}
use m.Heap.Chain.{Chain, Chain-le}
use m.Heap.Validate.{validate_from-Chain, validate_from-long}

-- The heap is started, its memory is aligned and lies within the address space with some room behind it,
-- and from the head on the headers tile it as the blocks `xs`.
pub record IsHeap (s : Kmem) (xs : Tiles) : Type 0 where
  pub started : s.initialized ≡ true
  pub head_first : s.head ≡ s.heap_base
  pub low : 16 ≤ s.heap_base
  pub aligned : s.heap_base % 16 ≡ 0
  pub room : s.heap_end + 96 ≤ 2 ^ 64
  pub chain : Chain s.blocks s.heap_end s.head s.heap_base 0 xs

-- new headers that tile the heap
pub IsHeap-blocks :
    (s : Kmem) (xs ys : Tiles) (m : Blocks)
    → IsHeap s xs
    → Chain m s.heap_end s.head s.heap_base 0 ys
    → IsHeap (record s { blocks = m }) ys
IsHeap-blocks s xs ys m i c = record {
  started = i.started;
  head_first = i.head_first;
  low = i.low;
  aligned = i.aligned;
  room = i.room;
  chain = c;
}

pub not_empty : (s : Kmem) (xs : Tiles) → IsHeap s xs → s.heap_base < s.heap_end
not_empty s [] i = absurd (omega (arith, i.low, i.head_first, i.chain.0))
not_empty s ((n, f) ∷ xs) i = omega (
  arith,
  Chain-le s.blocks s.heap_end (s.blocks s.heap_base).next (s.heap_base + 48 + n) s.heap_base xs
      i.chain.2,
)

pub validate-IsHeap :
    (s : Kmem) (xs : Tiles) (fuel : ℕ)
    → IsHeap s xs
    → length xs ≤ guard_limit
    → length xs < fuel
    → kmem_validate fuel s ≡ some 0
unfolding kmem_validate
validate-IsHeap s xs fuel i few enough =
    let inside = not_empty s xs i in
    let guard : not s.initialized || s.heap_base == 0 || leb s.heap_end s.heap_base || s.head == 0
        ≡ false =
      ground (arith, i.started, i.low, i.head_first) in
    let first : (s.head == s.heap_base) ≡ true = ground (arith, i.head_first) in
    rw (guard, first)
      (validate_from-Chain s i.low i.room xs fuel s.head s.heap_base 0 0 i.chain (omega arith)
        i.aligned (omega arith) enough)

pub validate-long :
    (s : Kmem) (xs : Tiles) (fuel : ℕ)
    → IsHeap s xs
    → guard_limit < length xs
    → guard_limit < fuel
    → kmem_validate fuel s ≡ some (failure 3)
unfolding kmem_validate
validate-long s xs fuel i many enough =
    let inside = not_empty s xs i in
    let guard : not s.initialized || s.heap_base == 0 || leb s.heap_end s.heap_base || s.head == 0
        ≡ false =
      ground (arith, i.started, i.low, i.head_first) in
    let first : (s.head == s.heap_base) ≡ true = ground (arith, i.head_first) in
    rw (guard, first)
      (validate_from-long s i.low i.room xs fuel s.head s.heap_base 0 0 i.chain (omega arith)
        i.aligned (omega arith) (omega (arith, many)) (omega (arith, enough)))

-- With fuel for every block the validation ends.
pub validate-code :
    (s : Kmem) (xs : Tiles) (fuel : ℕ)
    → IsHeap s xs
    → length xs < fuel
    → (code : ℕ) × (kmem_validate fuel s ≡ some code)
validate-code s xs fuel i enough = elim (dec_lt guard_limit (length xs)) [
  | yes many ↦ (failure 3, validate-long s xs fuel i many (omega arith))
  | no few ↦ (0, validate-IsHeap s xs fuel i (omega arith) enough)
]

-- the header of the block behind `l`
pub record IsAt (m : Blocks) (stop at n : ℕ) (f : Bool) (b : ℕ) : Type 0 where
  pub from : at ≤ b
  pub fits : b + 48 + n ≤ stop
  pub on_line : b % 16 ≡ 0
  pub magic : (m b).magic ≡ kmem_magic
  pub free : (m b).free ≡ f

pub Chain-IsAt :
    (m : Blocks) (stop : ℕ) (l : Tiles) (n : ℕ) (f : Bool) (r : Tiles) (cur at prev : ℕ)
    → Chain m stop cur at prev (l ++ ((n, f) ∷ r))
    → at % 16 ≡ 0
    → IsAt m stop at n f (end_of at l)
Chain-IsAt m stop [] n f r cur at prev h aligned = record {
  from = omega arith;
  fits = Chain-le m stop (m at).next (at + 48 + n) at r h.2;
  on_line = aligned;
  magic = h.1.magic;
  free = h.1.free;
}
Chain-IsAt m stop ((k, g) ∷ l) n f r cur at prev h aligned =
    let v =
      Chain-IsAt m stop l n f r (m at).next (at + 48 + k) at h.2 (omega (arith, h.1.aligned)) in
    record {
      from = omega (arith, v.from);
      fits = v.fits;
      on_line = v.on_line;
      magic = v.magic;
      free = v.free;
    }
