-- ===== src/Memory/Copy.antt =====
-- What the copies and the fill leave at each address.
use m.Prelude.{
  ℕ, zero, suc, ◌+◌, ◌-◌, ◌%◌, ◌≤◌, ◌≡◌, ◌⊎◌, inl, inr, ◌&&◌, arith, ltb, leb, if◌then◌else◌,
}
use native.Mathlib.Decide.{dec_lt}
use m.Memory.{Bytes, store, memset, copy_forward, copy_backward, memcpy, memmove}

-- `mem` with the `count` bytes from `d` on replaced by the bytes of `old` from `s` on
unfoldable pub moved : ℕ → ℕ → ℕ → Bytes → Bytes → Bytes
moved d s count old mem a = if leb d a && ltb a (d + count) then old (s + (a - d)) else mem a

-- Within the target every byte is `value` as a byte, and no other byte changes.
pub memset_lem :
    (dest value count : ℕ) (mem : Bytes) (a : ℕ)
    → memset dest value count mem a
      ≡ (if leb dest a && ltb a (dest + count) then value % 256 else mem a)
unfolding memset store
memset_lem dest value zero mem a = ground arith
memset_lem dest value (suc count) mem a =
    ground (arith, memset_lem (dest + 1) value count (store mem dest (value % 256)) a)

-- The forward copy, where no byte is overwritten before it is read.
pub copy_forward-moved :
    (d s count : ℕ) (mem : Bytes) (a : ℕ)
    → (d ≤ s) ⊎ (s + count ≤ d)
    → copy_forward d s count mem a ≡ moved d s count mem mem a
unfolding copy_forward moved store
copy_forward-moved d s zero mem a h = ground arith
copy_forward-moved d s (suc count) mem a h =
    ground (arith, copy_forward-moved (d + 1) (s + 1) count (store mem d (mem s)) a (later h))
  where
    later : (d ≤ s) ⊎ (s + suc count ≤ d) → (d + 1 ≤ s + 1) ⊎ (s + 1 + count ≤ d + 1)
    later (inl p) = inl (omega arith)
    later (inr p) = inr (omega arith)

-- The backward copy, where no byte is overwritten before it is read.
copy_backward-moved :
    (d s count : ℕ) (mem : Bytes) (a : ℕ)
    → s ≤ d
    → copy_backward d s count mem a ≡ moved d s count mem mem a
unfolding copy_backward moved store
copy_backward-moved d s zero mem a h = ground arith
copy_backward-moved d s (suc count) mem a h =
    ground (arith, copy_backward-moved d s count (store mem (d + count) (mem (s + count))) a h)

-- Between objects that do not overlap, `memcpy` copies the source as it was, and writes nowhere else.
pub memcpy-moved :
    (dest src count : ℕ) (mem : Bytes) (a : ℕ)
    → (dest + count ≤ src) ⊎ (src + count ≤ dest)
    → memcpy dest src count mem a ≡ moved dest src count mem mem a
unfolding memcpy
memcpy-moved dest src count mem a h = copy_forward-moved dest src count mem a (weaken h)
  where
    weaken : (dest + count ≤ src) ⊎ (src + count ≤ dest) → (dest ≤ src) ⊎ (src + count ≤ dest)
    weaken (inl p) = inl (omega arith)
    weaken (inr p) = inr p

-- However the objects overlap, `memmove` copies the source as it was before the call, and writes
-- nowhere else.
pub memmove-moved :
    (dest src count : ℕ) (mem : Bytes) (a : ℕ)
    → memmove dest src count mem a ≡ moved dest src count mem mem a
unfolding memmove moved
memmove-moved dest src count mem a = elim (dec_lt dest src) [
  | yes p ↦ ground (arith, copy_forward-moved dest src count mem a (inl (omega arith)))
  | no q ↦ ground (arith, copy_backward-moved dest src count mem a (omega arith))
]
