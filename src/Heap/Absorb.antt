-- ===== src/Heap/Absorb.antt =====
-- `kmem_coalesce_forward` joins a block with the free blocks behind it.
use m.Prelude.{
  ℕ, zero, suc, ◌+◌, ◌%◌, ◌^◌, ◌≤◌, ◌<◌, ◌≡◌, refl, sym, ◌∙◌, ap, subst, Bool, true, false, not,
  ◌||◌, Option, none, some, [], ◌∷◌, arith, ◌==◌, length,
}
use m.Word.{add64}
use m.Heap.Types.{header_size, KmemBlock, Blocks, put_block, kmem_payload}
use m.Heap.Ops.{set_prev, absorb_next, kmem_coalesce_forward}
use m.Heap.Spec.{Tiles, join}
use m.Heap.Align.{align_up_ptr-aligned}
use m.Heap.Chain.{
  Chain, put_block_self, put_block_ne, Chain-cons, Chain-put_below, Chain-le, Chain-start,
  set_prev-below, Chain-relink, Rebuilt,
}

module _ (m : Blocks) (stop c prev n k : ℕ) (f g : Bool) (xs : Tiles) where
  abbrev gone : ℕ
  gone = c + 48 + n

  abbrev joined : KmemBlock
  joined = record (m c) {
    size = add64 (m c).size (add64 header_size (m gone).size);
    next = (m gone).next;
  }

  abbrev relinked : Blocks
  relinked = set_prev (m gone).next c (put_block m c joined)

  abbrev wiped : Blocks → Blocks
  wiped b = put_block b gone (record (b gone) { magic = 0; size = 0; prev = 0; next = 0 })

  absorb_next-steps : (m c).next ≡ gone → absorb_next c m ≡ wiped relinked
  unfolding absorb_next
  absorb_next-steps e =
      ap
        (λ (next : ℕ).
          let b₁ = put_block m c (record (m c) {
            size = add64 (m c).size (add64 header_size (m next).size);
            next = (m next).next;
          }) in
          let b₂ = set_prev (b₁ next).next c b₁ in
          put_block b₂ next (record (b₂ next) { magic = 0; size = 0; prev = 0; next = 0 }))
        e
      ∙ ap (λ (b : KmemBlock). wiped (set_prev b.next c (put_block m c joined)))
          (put_block_ne m c gone joined (omega arith))

  -- The next block becomes part of the block, and nothing below changes.
  absorb_next-Rebuilt :
      Chain m stop c c prev ((n, f) ∷ (k, g) ∷ xs)
      → 16 ≤ c
      → stop < 2 ^ 64
      → Rebuilt m (absorb_next c m) stop c prev ((n + 48 + k, f) ∷ xs)
  absorb_next-Rebuilt h low small =
      let nx = (m gone).next in
      let far = gone + 48 + k in
      let fits = Chain-le m stop nx far gone xs h.2.2 in
      let start = Chain-start m stop nx far gone xs h.2.2 in
      let tail : Chain relinked stop nx far c xs =
        Chain-relink (put_block m c joined) stop nx far gone c xs (omega arith)
          (Chain-put_below m c joined stop nx far gone xs (omega arith) h.2.2) in
      let below : (q : ℕ) → q < far → relinked q ≡ put_block m c joined q =
        λ q hq. set_prev-below (put_block m c joined) nx far c q start hq in
      let v : KmemBlock = record (relinked gone) { magic = 0; size = 0; prev = 0; next = 0 } in
      subst (λ b. Rebuilt m b stop c prev ((n + 48 + k, f) ∷ xs)) (sym (absorb_next-steps h.2.0))
        (
          Chain-cons (wiped relinked) stop c c prev (n + 48 + k) f xs joined refl
              (put_block_ne relinked gone c v (omega arith)
                ∙ below c (omega arith)
                ∙ put_block_self m c joined)
              (record {
                magic = h.1.magic;
                size = omega (arith, h.1.size, h.2.1.size);
                free = h.1.free;
                prev_block = h.1.prev_block;
                aligned = omega (arith, h.1.aligned, h.2.1.aligned);
              })
              (subst (λ at. Chain (wiped relinked) stop nx at c xs) (omega arith)
                (Chain-put_below relinked gone v stop nx far c xs (omega arith) tail)),
          λ q hq.
              put_block_ne relinked gone q v (omega arith)
              ∙ below q (omega arith)
              ∙ put_block_ne m c q joined (omega arith),
        )

  -- The bytes of the two blocks keep what is stored there, but for the header that is gone.
  absorb_next-inside :
      Chain m stop c c prev ((n, f) ∷ (k, g) ∷ xs)
      → ((q : ℕ) → c < q → q < gone → absorb_next c m q ≡ m q) × ((absorb_next c m gone).magic ≡ 0)
  absorb_next-inside h =
      let nx = (m gone).next in
      let far = gone + 48 + k in
      let start = Chain-start m stop nx far gone xs h.2.2 in
      let v : KmemBlock = record (relinked gone) { magic = 0; size = 0; prev = 0; next = 0 } in
      subst (λ b. ((q : ℕ) → c < q → q < gone → b q ≡ m q) × ((b gone).magic ≡ 0))
        (sym (absorb_next-steps h.2.0))
        (
          λ q low high.
              put_block_ne relinked gone q v (omega arith)
              ∙ set_prev-below (put_block m c joined) nx far c q start (omega arith)
              ∙ put_block_ne m c q joined (omega arith),
          ap (λ (b : KmemBlock). b.magic) (put_block_self relinked gone v),
        )

abbrev blocks_or : Blocks → Option Blocks → Blocks
blocks_or d none = d
blocks_or d (some m) = m

module _ (stop c prev : ℕ) (f : Bool) where
  forward-stop :
      (m : Blocks) (fuel : ℕ)
      → ((m c).next == 0 || not (m (m c).next).free) ≡ true
      → kmem_coalesce_forward (suc fuel) c m ≡ some m
  unfolding kmem_coalesce_forward
  forward-stop m fuel e = ground arith

  forward-step :
      (m : Blocks) (fuel n k : ℕ) (xs : Tiles)
      → Chain m stop c c prev ((n, f) ∷ (k, true) ∷ xs)
      → 16 ≤ c
      → c % 16 ≡ 0
      → stop + 96 ≤ 2 ^ 64
      → kmem_coalesce_forward (suc fuel) c m ≡ kmem_coalesce_forward fuel c (absorb_next c m)
  unfolding kmem_coalesce_forward
  forward-step m fuel n k xs h low ac room =
      let gone = c + 48 + n in
      let fits = Chain-le m stop (m gone).next (gone + 48 + k) gone xs h.2.2 in
      let c_some : (c == 0) ≡ false = ground arith in
      let next_some : ((m c).next == 0) ≡ false = ground (arith, h.2.0) in
      let next_free : (m (m c).next).free ≡ true = ap (λ p. (m p).free) h.2.0 ∙ h.2.1.free in
      let at : add64 (kmem_payload c) (m c).size ≡ gone = omega (arith, h.1.size) in
      let up = align_up_ptr-aligned gone (omega (arith, h.1.aligned)) (omega arith) in
      let same : (gone == (m c).next) ≡ true = ground (arith, h.2.0) in
      rw (c_some, next_some, next_free, at, up, same)

  -- With fuel for every block behind it, the block is joined with the free blocks that follow it.
  pub coalesce-Rebuilt :
      (xs : Tiles) (fuel : ℕ) (m : Blocks) (n : ℕ)
      → Chain m stop c c prev ((n, f) ∷ xs)
      → 16 ≤ c
      → c % 16 ≡ 0
      → stop + 96 ≤ 2 ^ 64
      → length xs < fuel
      → (m' : Blocks) × (kmem_coalesce_forward fuel c m ≡ some m')
        × Rebuilt m m' stop c prev (join n f xs)
  coalesce-Rebuilt xs zero m n h low ac room enough = absurd (omega arith)
  coalesce-Rebuilt [] (suc fuel) m n h low ac room enough =
      (m, forward-stop m fuel (ground (arith, h.2.0)), (h, λ q hq. refl))
  coalesce-Rebuilt ((k, false) ∷ xs) (suc fuel) m n h low ac room enough =
      let used : (m (m c).next).free ≡ false = ap (λ p. (m p).free) h.2.0 ∙ h.2.1.free in
      (m, forward-stop m fuel (ground (arith, used)), (h, λ q hq. refl))
  coalesce-Rebuilt ((k, true) ∷ xs) (suc fuel) m n h low ac room enough =
      let (chain, below) = absorb_next-Rebuilt m stop c prev n k f true xs h low (omega arith) in
      let (m', done, (chain', below')) =
        coalesce-Rebuilt xs fuel (absorb_next c m) (n + 48 + k) chain low ac room (omega arith) in
      (
        m',
        forward-step m fuel n k xs h low ac room ∙ done,
        (chain', λ q hq. below' q hq ∙ below q hq),
      )

  -- Joining keeps what is stored within the block.
  coalesce-inside :
      (xs : Tiles) (fuel : ℕ) (m m' : Blocks) (n q : ℕ)
      → Chain m stop c c prev ((n, f) ∷ xs)
      → 16 ≤ c
      → c % 16 ≡ 0
      → stop + 96 ≤ 2 ^ 64
      → length xs < fuel
      → kmem_coalesce_forward fuel c m ≡ some m'
      → c < q
      → q < c + 48 + n
      → m' q ≡ m q
  coalesce-inside xs zero m m' n q h low ac room enough done from to = absurd (omega arith)
  coalesce-inside [] (suc fuel) m m' n q h low ac room enough done from to =
      let stops = forward-stop m fuel (ground (arith, h.2.0)) in
      ap (λ o. blocks_or m o q) (sym done ∙ stops)
  coalesce-inside ((k, false) ∷ xs) (suc fuel) m m' n q h low ac room enough done from to =
      let used : (m (m c).next).free ≡ false = ap (λ p. (m p).free) h.2.0 ∙ h.2.1.free in
      let stops = forward-stop m fuel (ground (arith, used)) in
      ap (λ o. blocks_or m o q) (sym done ∙ stops)
  coalesce-inside ((k, true) ∷ xs) (suc fuel) m m' n q h low ac room enough done from to =
      let (chain, _) = absorb_next-Rebuilt m stop c prev n k f true xs h low (omega arith) in
      coalesce-inside xs fuel (absorb_next c m) m' (n + 48 + k) q chain low ac room (omega arith)
        (sym (forward-step m fuel n k xs h low ac room) ∙ done) from (omega arith)
      ∙ (absorb_next-inside m stop c prev n k f true xs h).0 q from to

  -- The header of a block that was joined has lost its mark.
  pub coalesce-magic :
      (xs : Tiles) (fuel : ℕ) (m m' : Blocks) (n k : ℕ)
      → Chain m stop c c prev ((n, f) ∷ (k, true) ∷ xs)
      → 16 ≤ c
      → c % 16 ≡ 0
      → stop + 96 ≤ 2 ^ 64
      → length xs + 1 < fuel
      → kmem_coalesce_forward fuel c m ≡ some m'
      → (m' (c + 48 + n)).magic ≡ 0
  coalesce-magic xs zero m m' n k h low ac room enough done = absurd (omega arith)
  coalesce-magic xs (suc fuel) m m' n k h low ac room enough done =
      let (chain, _) = absorb_next-Rebuilt m stop c prev n k f true xs h low (omega arith) in
      ap (λ (b : KmemBlock). b.magic)
        (coalesce-inside xs fuel (absorb_next c m) m' (n + 48 + k) (c + 48 + n) chain low ac room
          (omega arith) (sym (forward-step m fuel n k xs h low ac room) ∙ done) (omega arith)
          (omega arith))
      ∙ (absorb_next-inside m stop c prev n k f true xs h).1
