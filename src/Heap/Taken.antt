-- ===== src/Heap/Taken.antt =====
-- `kmem_alloc` takes the first block that fits.
use m.Prelude.{
  ℕ, ◌+◌, ◌*◌, ◌/◌, ◌^◌, ◌≤◌, ◌<◌, ◌≡◌, refl, sym, ◌∙◌, ap, Bool, true, false, not, ◌&&◌, ◌||◌,
  Option, none, some, [], ◌∷◌, ◌++◌, arith, leb, ◌==◌, length, Bool-cases, ◌⊎◌, inl, inr,
}
use m.Heap.Types.{Kmem}
use m.Heap.Ops.{find_fit, kmem_alloc}
use m.Heap.Spec.{Tiles, carve, first_fit, keep_first, end_of}
use m.Heap.Align.{align_up_size_lem, align_up_size_large}
use m.Heap.Alloc.{Found, find_fit-Found}
use m.Heap.Invariant.{IsHeap, IsHeap-blocks}

-- the bytes that a block gets for a request
abbrev pub rounded : ℕ → ℕ
rounded bytes = 16 * ((bytes + 15) / 16)

-- What the first fit is: the free block of `n` bytes behind `l` has room, those of `l` are used or too
-- small, and the block is carved.
pub record IsFirst (w at : ℕ) (xs : Tiles) (p : ℕ) (ys : Tiles) : Type 0 where
  pub before : Tiles
  pub size : ℕ
  pub after : Tiles
  pub found : xs ≡ before ++ ((size, true) ∷ after)
  pub carved : ys ≡ before ++ carve w size after
  pub place : p ≡ end_of at before + 48
  pub fits : w ≤ size
  pub skips : first_fit w at before ≡ none

keep_first-some :
    (e : ℕ × Bool) (fit : Option (ℕ × Tiles)) (p : ℕ) (ys : Tiles)
    → keep_first e fit ≡ some (p, ys)
    → (zs : Tiles) × (fit ≡ some (p, zs)) × (ys ≡ e ∷ zs)
keep_first-some e none p ys h = ground arith
keep_first-some e (some (q, zs)) p ys h =
    (zs, ap (λ k. some (k, zs)) (ap (place_or 0) h), sym (ap (list_or []) h))
  where
    place_or : ℕ → Option (ℕ × Tiles) → ℕ
    place_or d none = d
    place_or d (some (q, l)) = q

    list_or : Tiles → Option (ℕ × Tiles) → Tiles
    list_or d none = d
    list_or d (some (q, l)) = l

pub first_fit-IsFirst :
    (w at : ℕ) (xs : Tiles) (p : ℕ) (ys : Tiles)
    → first_fit w at xs ≡ some (p, ys)
    → IsFirst w at xs p ys
first_fit-IsFirst w at [] p ys h = ground arith
first_fit-IsFirst w at ((n, f) ∷ xs) p ys h = elim (Bool-cases (f && leb w n)) [
  | inl e ↦
      let free : f ≡ true = ground arith in
      record {
        before = [];
        size = n;
        after = xs;
        found = ap (λ g. (n, g) ∷ xs) free;
        carved = ground (arith, e, h);
        place = ground (arith, e, h);
        fits = ground arith;
        skips = refl;
      }
  | inr e ↦
      let rest : keep_first (n, f) (first_fit w (at + 48 + n) xs) ≡ some (p, ys) = rw e at h in
      let (zs, found, same) = keep_first-some (n, f) (first_fit w (at + 48 + n) xs) p ys rest in
      let v = first_fit-IsFirst w (at + 48 + n) xs p zs found in
      record {
        before = (n, f) ∷ v.before;
        size = v.size;
        after = v.after;
        found = ap (λ l. (n, f) ∷ l) v.found;
        carved = same ∙ ap (λ l. (n, f) ∷ l) v.carved;
        place = v.place;
        fits = v.fits;
        skips = rw (e, v.skips);
      }
]

-- What an allocation makes of the heap, where the first fit is `fit`.
abbrev pub Taken : Kmem → Option (ℕ × Kmem) → Option (ℕ × Tiles) → Type 0
Taken s r none = r ≡ some (0, s)
Taken s r (some (p, ys)) =
    (s' : Kmem) × (r ≡ some (p, s'))
    × IsHeap s' ys
    × (s'.bytes ≡ s.bytes)
    × (s'.heap_base ≡ s.heap_base)

Found-Taken :
    (s : Kmem) (w : ℕ) (xs : Tiles) (r : Option (ℕ × Kmem)) (fit : Option (ℕ × Tiles))
    → IsHeap s xs
    → Found s w r s.head s.heap_base 0 fit
    → Taken s r fit
Found-Taken s w xs r none i h = h
Found-Taken s w xs r (some (p, ys)) i (m, done, chain, below) =
    (record s { blocks = m }, done, IsHeap-blocks s xs ys m i chain, refl, refl)

-- On a heap that is the blocks `xs`, a request of at least one byte is rounded up to the alignment and
-- gets the first free block with that many bytes, carved if the rest is worth a block; if there is none,
-- null is returned and nothing changes.
pub kmem_alloc-first_fit :
    (s : Kmem) (xs : Tiles) (fuel bytes : ℕ)
    → IsHeap s xs
    → 0 < bytes
    → bytes + 16 ≤ 2 ^ 64
    → length xs < fuel
    → Taken s (kmem_alloc fuel bytes s) (first_fit (rounded bytes) s.heap_base xs)
unfolding kmem_alloc
kmem_alloc-first_fit s xs fuel bytes i some_bytes small enough =
    let guard : not s.initialized || bytes == 0 ≡ false = ground (arith, i.started) in
    let wanted : (rounded bytes == 0) ≡ false = ground arith in
    rw (guard, align_up_size_lem bytes small, wanted)
      (Found-Taken s (rounded bytes) xs (find_fit fuel (rounded bytes) s.head s)
        (first_fit (rounded bytes) s.heap_base xs) i
        (find_fit-Found s (rounded bytes) xs fuel s.head s.heap_base 0 i.chain i.low i.aligned
          i.room (omega arith) enough))

-- A request of no bytes, or of so many that rounding up wraps around, is refused.
pub kmem_alloc_refuses :
    (s : Kmem) (fuel bytes : ℕ)
    → bytes < 2 ^ 64
    → (bytes ≡ 0) ⊎ (2 ^ 64 < bytes + 16)
    → kmem_alloc fuel bytes s ≡ some (0, s)
unfolding kmem_alloc
kmem_alloc_refuses s fuel bytes word (inl e) = ground arith
kmem_alloc_refuses s fuel bytes word (inr large) =
    ground (arith, align_up_size_large bytes large word)
