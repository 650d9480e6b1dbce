-- ===== src/Heap/Chain.antt =====
-- The headers in the store as a chain that tiles the heap, and how writes act on it.
use m.Prelude.{
  ℕ, ◌+◌, ◌%◌, ◌≤◌, ◌<◌, ◌≡◌, ◌≢◌, ◌⊎◌, inl, inr, refl, sym, ◌∙◌, ap, subst, Bool, false, [], ◌∷◌,
  arith, ◌==◌,
}
use m.Heap.Types.{kmem_magic, KmemBlock, Blocks, put_block}
use m.Heap.Ops.{set_prev}
use m.Heap.Spec.{Tiles}

-- a header of a block of `n` bytes behind the block `prev`
pub record IsBlock (b : KmemBlock) (n : ℕ) (f : Bool) (prev : ℕ) : Type 0 where
  pub magic : b.magic ≡ kmem_magic
  pub size : b.size ≡ n
  pub free : b.free ≡ f
  pub prev_block : b.prev ≡ prev
  pub aligned : n % 16 ≡ 0

-- From the pointer `cur` the `next` fields lead through blocks that lie one behind the other from `at` to
-- `stop`, and `prev` is before the first.
abbrev pub Chain : Blocks → ℕ → ℕ → ℕ → ℕ → Tiles → Type 0
Chain m stop cur at prev [] = (cur ≡ 0) × (at ≡ stop)
Chain m stop cur at prev ((n, f) ∷ xs) =
    (cur ≡ at) × IsBlock (m at) n f prev × Chain m stop (m at).next (at + 48 + n) at xs

pub put_block_self : (m : Blocks) (p : ℕ) (b : KmemBlock) → put_block m p b p ≡ b
unfolding put_block
put_block_self m p b = ground arith

pub put_block_ne : (m : Blocks) (p q : ℕ) (b : KmemBlock) → q ≢ p → put_block m p b q ≡ m q
unfolding put_block
put_block_ne m p q b ne = ground arith

pub Chain-cons :
    (m : Blocks) (stop cur at prev n : ℕ) (f : Bool) (xs : Tiles) (b : KmemBlock)
    → cur ≡ at
    → m at ≡ b
    → IsBlock b n f prev
    → Chain m stop b.next (at + 48 + n) at xs
    → Chain m stop cur at prev ((n, f) ∷ xs)
Chain-cons m stop cur at prev n f xs b hc hb v c = rw hb (hc, v, c)

-- The chain reads nothing below its start.
pub Chain-frame :
    (m m' : Blocks) (stop cur at prev : ℕ) (xs : Tiles)
    → ((q : ℕ) → at ≤ q → m' q ≡ m q)
    → Chain m stop cur at prev xs
    → Chain m' stop cur at prev xs
Chain-frame m m' stop cur at prev [] same c = c
Chain-frame m m' stop cur at prev ((n, f) ∷ xs) same c =
    Chain-cons m' stop cur at prev n f xs (m at) c.0 (same at (omega arith)) c.1
      (Chain-frame m m' stop (m at).next (at + 48 + n) at xs (λ q h. same q (omega arith)) c.2)

pub Chain-put_below :
    (m : Blocks) (p : ℕ) (b : KmemBlock) (stop cur at prev : ℕ) (xs : Tiles)
    → p < at
    → Chain m stop cur at prev xs
    → Chain (put_block m p b) stop cur at prev xs
Chain-put_below m p b stop cur at prev xs h =
    Chain-frame m (put_block m p b) stop cur at prev xs (λ q hq. put_block_ne m p q b (omega arith))

pub Chain-le :
    (m : Blocks) (stop cur at prev : ℕ) (xs : Tiles) → Chain m stop cur at prev xs → at ≤ stop
Chain-le m stop cur at prev [] c = omega (arith, c.1)
Chain-le m stop cur at prev ((n, f) ∷ xs) c =
    omega (arith, Chain-le m stop (m at).next (at + 48 + n) at xs c.2)

-- A chain starts at its start or is empty.
pub Chain-start :
    (m : Blocks) (stop cur at prev : ℕ) (xs : Tiles)
    → Chain m stop cur at prev xs
    → (cur ≡ 0) ⊎ (cur ≡ at)
Chain-start m stop cur at prev [] c = inl c.0
Chain-start m stop cur at prev ((n, f) ∷ xs) c = inr c.0

-- Writing the backward link of a chain's first block leaves what lies below.
pub set_prev-below :
    (m : Blocks) (cur at p q : ℕ) → (cur ≡ 0) ⊎ (cur ≡ at) → q < at → set_prev cur p m q ≡ m q
unfolding set_prev put_block
set_prev-below m cur at p q (inl e) h = ground arith
set_prev-below m cur at p q (inr e) h = ground arith

set_prev-write :
    (m : Blocks) (cur p : ℕ)
    → cur ≢ 0
    → set_prev cur p m ≡ put_block m cur (record (m cur) { prev = p })
unfolding set_prev
set_prev-write m cur p ne = let some_block : (cur == 0) ≡ false = ground arith in rw some_block

pub set_prev-null : (m : Blocks) (p : ℕ) → set_prev 0 p m ≡ m
unfolding set_prev
set_prev-null m p = refl

-- A chain gets another block before it.
pub Chain-relink :
    (m : Blocks) (stop cur at prev p : ℕ) (xs : Tiles)
    → 0 < at
    → Chain m stop cur at prev xs
    → Chain (set_prev cur p m) stop cur at p xs
Chain-relink m stop cur at prev p [] h c = c
Chain-relink m stop cur at prev p ((n, f) ∷ xs) h c =
    let b : KmemBlock = record (m at) { prev = p } in
    subst (λ k. Chain k stop cur at p ((n, f) ∷ xs))
      (ap (λ k. put_block m k (record (m k) { prev = p })) (sym c.0)
        ∙ sym (set_prev-write m cur p (omega (arith, c.0))))
      (Chain-cons (put_block m at b) stop cur at p n f xs b c.0 (put_block_self m at b)
        (record {
          magic = c.1.magic;
          size = c.1.size;
          free = c.1.free;
          prev_block = refl;
          aligned = c.1.aligned;
        })
        (Chain-put_below m at b stop (m at).next (at + 48 + n) at xs (omega arith) c.2))

-- what an operation at the block `c` makes of the headers: the blocks `ys` from `c` on, and the old ones
-- below it
abbrev pub Rebuilt : Blocks → Blocks → ℕ → ℕ → ℕ → Tiles → Type 0
Rebuilt m m' stop c prev ys = Chain m' stop c c prev ys × ((q : ℕ) → q < c → m' q ≡ m q)
