-- ===== src/Heap/Release.antt =====
-- Giving a block back: it is joined with the free blocks behind it, and the block before it, if that is
-- free, with the result.
use m.Prelude.{
  ℕ, ◌+◌, ◌%◌, ◌^◌, ◌≤◌, ◌<◌, ◌≡◌, ◌≢◌, refl, sym, ◌∙◌, ap, subst, Bool, true, false, not, ◌&&◌,
  Option, some, [], ◌∷◌, ◌++◌, arith, ◌==◌, if◌then◌else◌, length,
}
use m.Heap.Types.{kmem_magic, KmemBlock, Blocks, put_block}
use m.Heap.Ops.{kmem_coalesce_forward, coalesce_prev}
use m.Heap.Spec.{Tiles, join, release, end_of}
use m.Heap.Chain.{Chain, Chain-cons, Rebuilt}
use m.Heap.Split.{set_free-Rebuilt}
use m.Heap.Absorb.{coalesce-Rebuilt, coalesce-magic}

join-prev :
    (m : Blocks) (stop c prev n : ℕ) (f : Bool) (xs : Tiles)
    → Chain m stop c c prev (join n f xs)
    → (m c).prev ≡ prev
join-prev m stop c prev n f [] h = h.1.prev_block
join-prev m stop c prev n f ((k, true) ∷ xs) h = join-prev m stop c prev (n + 48 + k) f xs h
join-prev m stop c prev n f ((k, false) ∷ xs) h = h.1.prev_block

pub length-join : (n : ℕ) (f : Bool) (xs : Tiles) → length (join n f xs) ≤ length xs + 1
length-join n f [] = omega arith
length-join n f ((k, true) ∷ xs) = omega (arith, length-join (n + 48 + k) f xs)
length-join n f ((k, false) ∷ xs) = omega arith

join-marked :
    (m : Blocks) (stop c prev n : ℕ) (f : Bool) (xs : Tiles)
    → Chain m stop c c prev (join n f xs)
    → ((m c).magic ≡ kmem_magic) × ((m c).free ≡ f)
join-marked m stop c prev n f [] h = (h.1.magic, h.1.free)
join-marked m stop c prev n f ((k, true) ∷ xs) h = join-marked m stop c prev (n + 48 + k) f xs h
join-marked m stop c prev n f ((k, false) ∷ xs) h = (h.1.magic, h.1.free)

join-shape : (n : ℕ) (f : Bool) (xs : Tiles) → (k : ℕ) × (ys : Tiles) × (join n f xs ≡ (k, f) ∷ ys)
join-shape n f [] = (n, [], refl)
join-shape n f ((k, true) ∷ xs) = join-shape (n + 48 + k) f xs
join-shape n f ((k, false) ∷ xs) = (n, (k, false) ∷ xs, refl)

-- the last block before another is free
abbrev pub ends_free : Tiles → Bool
ends_free [] = false
ends_free ((k, f) ∷ []) = f
ends_free (e ∷ e' ∷ l) = ends_free (e' ∷ l)

-- What the header of a released block says: if the block joined the one before it, it has lost its mark,
-- and else it is free.
abbrev pub Spent : Bool → KmemBlock → Type 0
Spent true b = b.magic ≡ 0
Spent false b = (b.magic ≡ kmem_magic) × (b.free ≡ true)

coalesce_prev-no :
    (fuel block : ℕ) (m : Blocks)
    → not ((m block).prev == 0) && (m (m block).prev).free ≡ false
    → coalesce_prev fuel block (some m) ≡ some m
unfolding coalesce_prev
coalesce_prev-no fuel block m e = rw e

coalesce_prev-yes :
    (fuel block p : ℕ) (m : Blocks)
    → (m block).prev ≡ p
    → p ≢ 0
    → (m p).free ≡ true
    → coalesce_prev fuel block (some m) ≡ kmem_coalesce_forward fuel p m
unfolding coalesce_prev
coalesce_prev-yes fuel block p m hp ne e =
    let some_prev : (p == 0) ≡ false = ground arith in
    ap (λ q. if not (q == 0) && (m q).free then kmem_coalesce_forward fuel q m else some m) hp
    ∙ rw (some_prev, e)

-- what `kmem_free_checked` does to the headers
abbrev pub freed : ℕ → ℕ → Blocks → Option Blocks
freed fuel block m =
    coalesce_prev fuel block
      (kmem_coalesce_forward fuel block (put_block m block (record (m block) { free = true })))

-- before the first block there is none
abbrev pub Boundary : Tiles → ℕ → Type 0
Boundary [] prev = prev ≡ 0
Boundary (e ∷ l) prev = Unit {0}

module _ (m : Blocks) (stop fuel n : ℕ) (r : Tiles) (room : stop + 96 ≤ 2 ^ 64)
    (enough : length r + 1 < fuel) where
  -- marking the block at `c` and joining it with the free ones behind it
  freed-here :
      (c prev : ℕ)
      → Chain m stop c c prev ((n, false) ∷ r)
      → 16 ≤ c
      → c % 16 ≡ 0
      → (m' : Blocks) × (kmem_coalesce_forward fuel c (put_block m c (record (m c) { free = true }))
          ≡ some m')
        × Rebuilt m m' stop c prev (join n true r)
  freed-here c prev h low ac =
      let marked = put_block m c (record (m c) { free = true }) in
      let (chain, below) = set_free-Rebuilt m stop c prev n false true r h in
      let (m', done, (chain', below')) =
        coalesce-Rebuilt stop c prev true r fuel marked n chain low ac room (omega arith) in
      (m', done, (chain', λ q hq. below' q hq ∙ below q hq))

  -- the same behind another block, which stays
  freed-behind :
      (at prev k : ℕ) (f : Bool)
      → Chain m stop at at prev ((k, f) ∷ (n, false) ∷ r)
      → 16 ≤ at
      → at % 16 ≡ 0
      → let b = at + 48 + k in
        (m' : Blocks) × (kmem_coalesce_forward fuel b (put_block m b (record (m b) { free = true }))
          ≡ some m')
        × Rebuilt m m' stop at prev ((k, f) ∷ join n true r)
        × ((m' b).prev ≡ at)
        × ((m' at).free ≡ f)
        × Spent false (m' b)
  freed-behind at prev k f h low ac =
      let b = at + 48 + k in
      let (m₁, done, (chain, below)) =
        freed-here b at (refl, h.2.1, h.2.2) (omega arith) (omega (arith, h.1.aligned)) in
      let old : m₁ at ≡ m at = below at (omega arith) in
      (
        m₁,
        done,
        (
          Chain-cons m₁ stop at at prev k f (join n true r) (m at) refl old h.1
              (subst (λ p. Chain m₁ stop p b at (join n true r)) (sym h.2.0) chain),
          λ q hq. below q (omega arith),
        ),
        join-prev m₁ stop b at n true r chain,
        ap (λ (k : KmemBlock). k.free) old ∙ h.1.free,
        join-marked m₁ stop b at n true r chain,
      )

  freed-second :
      (at prev k : ℕ) (f : Bool)
      → Chain m stop at at prev ((k, f) ∷ (n, false) ∷ r)
      → 16 ≤ at
      → at % 16 ≡ 0
      → (m' : Blocks) × (freed fuel (at + 48 + k) m ≡ some m')
        × Rebuilt m m' stop at prev (release ((k, f) ∷ []) n r)
        × Spent f (m' (at + 48 + k))
  freed-second at prev k false h low ac =
      let b = at + 48 + k in
      let (m₁, done, rebuilt, before, used, spent) = freed-behind at prev k false h low ac in
      let stays : not ((m₁ b).prev == 0) && (m₁ (m₁ b).prev).free ≡ false =
        ground (arith, ap (λ q. (m₁ q).free) before, used) in
      (m₁, ap (coalesce_prev fuel b) done ∙ coalesce_prev-no fuel b m₁ stays, rebuilt, spent)
  freed-second at prev k true h low ac =
      let b = at + 48 + k in
      let (m₁, done, (chain, below), before, free, _) = freed-behind at prev k true h low ac in
      let (j, ys, shape) = join-shape n true r in
      let (m₂, done', (chain', below')) =
        coalesce-Rebuilt stop at prev true (join n true r) fuel m₁ k chain low ac room
          (omega (arith, length-join n true r)) in
      (
        m₂,
        ap (coalesce_prev fuel b) done
            ∙ coalesce_prev-yes fuel b at m₁ before (omega arith) free
            ∙ done',
        (chain', λ q hq. below' q hq ∙ below q hq),
        coalesce-magic stop at prev true ys fuel m₁ m₂ k j
            (subst (λ xs. Chain m₁ stop at at prev ((k, true) ∷ xs)) shape chain) low ac room
            (omega (arith, length-join n true r, ap (λ (xs : Tiles). length xs) shape)) done',
      )

  -- The block behind `l` is released, and nothing below changes.
  pub freed-release :
      (l : Tiles) (cur at prev : ℕ)
      → Chain m stop cur at prev (l ++ ((n, false) ∷ r))
      → 16 ≤ at
      → at % 16 ≡ 0
      → Boundary l prev
      → (m' : Blocks) × (freed fuel (end_of at l) m ≡ some m')
        × Chain m' stop cur at prev (release l n r)
        × ((q : ℕ) → q < at → m' q ≡ m q)
        × Spent (ends_free l) (m' (end_of at l))
  freed-release [] cur at prev h low ac none_before =
      let (m₁, done, (chain, below)) = freed-here at prev (refl, h.1, h.2) low ac in
      let first : (m₁ at).prev ≡ 0 = join-prev m₁ stop at prev n true r chain ∙ none_before in
      (
        m₁,
        ap (coalesce_prev fuel at) done ∙ coalesce_prev-no fuel at m₁ (rw first),
        subst (λ p. Chain m₁ stop p at prev (join n true r)) (sym h.0) chain,
        below,
        join-marked m₁ stop at prev n true r chain,
      )
  freed-release ((k, f) ∷ []) cur at prev h low ac b =
      let (m₁, done, (chain, below), spent) = freed-second at prev k f (refl, h.1, h.2) low ac in
      (
        m₁,
        done,
        subst (λ p. Chain m₁ stop p at prev (release ((k, f) ∷ []) n r)) (sym h.0) chain,
        below,
        spent,
      )
  freed-release ((k, f) ∷ e ∷ l) cur at prev h low ac b =
      let (m₁, done, chain, below, spent) =
        freed-release (e ∷ l) (m at).next (at + 48 + k) at h.2 (omega arith)
          (omega (arith, h.1.aligned)) tt in
      (
        m₁,
        done,
        Chain-cons m₁ stop cur at prev k f (release (e ∷ l) n r) (m at) h.0 (below at (omega arith))
            h.1 chain,
        λ q hq. below q (omega arith),
        spent,
      )
