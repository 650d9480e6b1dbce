-- ===== src/Heap/Split.antt =====
-- `kmem_split_if_useful` carves a block in two exactly if the rest has more than 32 bytes.
use m.Prelude.{
  ℕ, ◌+◌, ◌-◌, ◌%◌, ◌^◌, ◌≤◌, ◌<◌, ◌≡◌, inl, inr, refl, sym, ◌∙◌, ap, subst, Bool, true, false, ◌∷◌,
  arith, ltb, leb, ◌==◌, Bool-cases,
}
use m.Word.{add64, sub64}
use m.Heap.Types.{kmem_magic, KmemBlock, Blocks, Kmem, put_block, kmem_payload, kmem_align_up_size}
use m.Heap.Ops.{set_prev, split_at, kmem_split_if_useful, set_free}
use m.Heap.Spec.{Tiles, carve}
use m.Heap.Align.{align_up_ptr-aligned}
use m.Heap.Chain.{
  Chain, put_block_self, put_block_ne, Chain-cons, Chain-put_below, Chain-le, Chain-start,
  set_prev-below, Chain-relink, Rebuilt,
}

module _ (m : Blocks) (stop c prev n w : ℕ) (f : Bool) (xs : Tiles) where
  abbrev rest_at : ℕ
  rest_at = c + 48 + w

  abbrev rest_block : KmemBlock
  rest_block = record (m rest_at) {
    magic = kmem_magic;
    size = sub64 (sub64 (m c).size w) 48;
    free = true;
    prev = c;
    next = (m c).next;
  }

  abbrev with_rest : Blocks
  with_rest = put_block m rest_at rest_block

  abbrev linked : Blocks
  linked = set_prev (m c).next rest_at with_rest

  split_at-steps :
      split_at c w rest_at w m ≡ put_block linked c (record (linked c) { next = rest_at; size = w })
  unfolding split_at
  split_at-steps =
      ap
        (λ (b : KmemBlock).
          put_block (set_prev b.next rest_at with_rest) c
            (record (set_prev b.next rest_at with_rest c) { next = rest_at; size = w }))
        (put_block_ne m rest_at c rest_block (omega arith))

  -- The block and its rest take the place of the block, and nothing below it changes.
  pub split_at-Chain :
      Chain m stop c c prev ((n, f) ∷ xs)
      → w + 80 < n
      → w % 16 ≡ 0
      → stop < 2 ^ 64
      → Rebuilt m (split_at c w rest_at w m) stop c prev ((w, f) ∷ (n - w - 48, true) ∷ xs)
  split_at-Chain h big aw small =
      let nx = (m c).next in
      let far = c + 48 + n in
      let fits = Chain-le m stop nx far c xs h.2 in
      let start = Chain-start m stop nx far c xs h.2 in
      let tail : Chain linked stop nx far rest_at xs =
        Chain-relink with_rest stop nx far c rest_at xs (omega arith)
          (Chain-put_below m rest_at rest_block stop nx far c xs (omega arith) h.2) in
      let below : (q : ℕ) → q < rest_at → linked q ≡ m q = λ q hq.
        set_prev-below with_rest nx far rest_at q start (omega arith)
        ∙ put_block_ne m rest_at q rest_block (omega arith) in
      let rest : linked rest_at ≡ rest_block =
        set_prev-below with_rest nx far rest_at rest_at start (omega arith)
        ∙ put_block_self m rest_at rest_block in
      let v : KmemBlock = record (linked c) { next = rest_at; size = w } in
      let old : linked c ≡ m c = below c (omega arith) in
      let done : Blocks = put_block linked c v in
      let second : Chain done stop rest_at rest_at c ((n - w - 48, true) ∷ xs) =
        Chain-cons done stop rest_at rest_at c (n - w - 48) true xs rest_block refl
          (put_block_ne linked c rest_at v (omega arith) ∙ rest)
          (record {
            magic = refl;
            size = omega (arith, h.1.size);
            free = refl;
            prev_block = refl;
            aligned = omega (arith, h.1.aligned);
          })
          (subst (λ k. Chain done stop nx k rest_at xs) (omega arith)
            (Chain-put_below linked c v stop nx far rest_at xs (omega arith) tail)) in
      subst (λ k. Rebuilt m k stop c prev ((w, f) ∷ (n - w - 48, true) ∷ xs)) (sym split_at-steps)
        (
          Chain-cons done stop c c prev w f ((n - w - 48, true) ∷ xs) v refl
              (put_block_self linked c v)
              (record {
                magic = ap (λ (b : KmemBlock). b.magic) old ∙ h.1.magic;
                size = refl;
                free = ap (λ (b : KmemBlock). b.free) old ∙ h.1.free;
                prev_block = ap (λ (b : KmemBlock). b.prev) old ∙ h.1.prev_block;
                aligned = aw;
              })
              second,
          λ q hq. put_block_ne linked c q v (omega arith) ∙ below q (omega arith),
        )

-- Setting the free flag of a block.
pub set_free-Rebuilt :
    (m : Blocks) (stop c prev n : ℕ) (f g : Bool) (xs : Tiles)
    → Chain m stop c c prev ((n, f) ∷ xs)
    → Rebuilt m (put_block m c (record (m c) { free = g })) stop c prev ((n, g) ∷ xs)
set_free-Rebuilt m stop c prev n f g xs h =
    let v : KmemBlock = record (m c) { free = g } in
    (
      Chain-cons (put_block m c v) stop c c prev n g xs v refl (put_block_self m c v)
          (record {
            magic = h.1.magic;
            size = h.1.size;
            free = refl;
            prev_block = h.1.prev_block;
            aligned = h.1.aligned;
          })
          (Chain-put_below m c v stop (m c).next (c + 48 + n) c xs (omega arith) h.2),
      λ q hq. put_block_ne m c q v (omega arith),
    )

module _ (s : Kmem) (c prev n w : ℕ) (f : Bool) (xs : Tiles) where
  abbrev taken : Kmem
  taken = set_free c false (kmem_split_if_useful c w s)

  split-no :
      Chain s.blocks s.heap_end c c prev ((n, f) ∷ xs)
      → 16 ≤ c
      → c % 16 ≡ 0
      → s.heap_end + 96 ≤ 2 ^ 64
      → w % 16 ≡ 0
      → w ≤ n
      → n ≤ w + 80
      → kmem_split_if_useful c w s ≡ s
  unfolding kmem_split_if_useful kmem_align_up_size
  split-no h low ac room aw fits short =
      let far = Chain-le s.blocks s.heap_end (s.blocks c).next (c + 48 + n) c xs h.2 in
      elim (Bool-cases (ltb (s.blocks c).size (add64 (add64 w 48) 32))) [
        | inl e ↦ rw e
        | inr e ↦
            let at : add64 (kmem_payload c) w ≡ c + 48 + w = omega arith in
            let up = align_up_ptr-aligned (c + 48 + w) (omega arith) (omega arith) in
            let same : n ≡ w + 80 = ground (arith, h.1.size) in
            let some_at : (c + 48 + w == 0) ≡ false = ground arith in
            let inside : leb s.heap_end (add64 (c + 48 + w) 48) ≡ false = ground arith in
            let not_more : leb (s.blocks c).size
                  (add64 (add64 (sub64 (c + 48 + w) (kmem_payload c)) 48) 32)
                ≡ true =
              ground (arith, h.1.size) in
            rw (e, at, up, some_at, inside, not_more)
      ]

  split-yes :
      Chain s.blocks s.heap_end c c prev ((n, f) ∷ xs)
      → 16 ≤ c
      → c % 16 ≡ 0
      → s.heap_end + 96 ≤ 2 ^ 64
      → w % 16 ≡ 0
      → w + 80 < n
      → kmem_split_if_useful c w s ≡ record s { blocks = split_at c w (c + 48 + w) w s.blocks }
  unfolding kmem_split_if_useful kmem_align_up_size split_at
  split-yes h low ac room aw big =
      let far = Chain-le s.blocks s.heap_end (s.blocks c).next (c + 48 + n) c xs h.2 in
      let e : ltb (s.blocks c).size (add64 (add64 w 48) 32) ≡ false = ground (arith, h.1.size) in
      let at : add64 (kmem_payload c) w ≡ c + 48 + w = omega arith in
      let up = align_up_ptr-aligned (c + 48 + w) (omega arith) (omega arith) in
      let some_at : (c + 48 + w == 0) ≡ false = ground arith in
      let inside : leb s.heap_end (add64 (c + 48 + w) 48) ≡ false = ground arith in
      let used : sub64 (c + 48 + w) (kmem_payload c) ≡ w = omega arith in
      let more : leb (s.blocks c).size (add64 (add64 w 48) 32) ≡ false = ground (arith, h.1.size) in
      rw (e, at, up, some_at, inside, used, more)

  -- Taking `w` bytes of a block carves it and marks the first part as used.
  pub take-Rebuilt :
      Chain s.blocks s.heap_end c c prev ((n, f) ∷ xs)
      → 16 ≤ c
      → c % 16 ≡ 0
      → s.heap_end + 96 ≤ 2 ^ 64
      → w % 16 ≡ 0
      → w ≤ n
      → (m : Blocks) × (taken ≡ record s { blocks = m })
        × Rebuilt s.blocks m s.heap_end c prev (carve w n xs)
  unfolding set_free
  take-Rebuilt h low ac room aw fits = elim (Bool-cases (ltb (w + 80) n)) [
    | inr e ↦
        let b : KmemBlock = record (s.blocks c) { free = false } in
        (
          put_block s.blocks c b,
          ap (set_free c false) (split-no h low ac room aw fits (ground arith)),
          rw e (set_free-Rebuilt s.blocks s.heap_end c prev n f false xs h),
        )
    | inl e ↦
        let m = split_at c w (c + 48 + w) w s.blocks in
        let (chain, below) =
          split_at-Chain s.blocks s.heap_end c prev n w f xs h (ground arith) aw (omega arith) in
        let b : KmemBlock = record (m c) { free = false } in
        let (chain', below') =
          set_free-Rebuilt m s.heap_end c prev w f false ((n - w - 48, true) ∷ xs) chain in
        (
          put_block m c b,
          ap (set_free c false) (split-yes h low ac room aw (ground arith)),
          rw e (chain', λ q hq. below' q hq ∙ below q hq),
        )
  ]
