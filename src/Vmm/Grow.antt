-- ===== src/Vmm/Grow.antt =====
-- What `get_or_alloc_next_table` makes of the tables: it finds the next one, or puts a new empty one there.
use m.Prelude.{
  ℕ, zero, suc, ◌+◌, ◌%◌, ◌^◌, ◌≤◌, ◌<◌, ◌≡◌, ◌≢◌, refl, sym, ◌∙◌, ap, Bool, true, false, not, ◌||◌,
  some, ◌⊎◌, inl, inr, Bool-cases, Option-cases, bit_and, arith, ◌==◌,
}
use native.Mathlib.Decide.{ℕ_discrete}
use m.Vmm.{
  Space, Machine, MapResult, map_ok, inval, nomem, exists, invalid_phys, pte_present, pte_writable,
  pte_huge, pte_addr_mask, has, vmm_is_aligned_4k, slot, put, zero_entries, vmm_zero_page,
  table_from_phys, next_table, install_table, get_or_alloc_next_table, table_below,
}
use m.Vmm.Tree.{put_ne, table_from_phys-aligned}
use m.Vmm.Unmap.{put_self}
use m.Vmm.Entry.{entry_of}

abbrev pub is_ok : MapResult → Bool
is_ok map_ok = true
is_ok _ = false

-- Clearing a table: its words are zero, and others stay.
pub zero_entries-ne :
    (n i page : ℕ) (mem : ℕ → ℕ) (a : ℕ)
    → ((j : ℕ) → i ≤ j → j < i + n → a ≢ slot page j)
    → zero_entries n i page mem a ≡ mem a
unfolding zero_entries
zero_entries-ne zero i page mem a out = refl
zero_entries-ne (suc n) i page mem a out =
    zero_entries-ne n (i + 1) page (put mem (slot page i) 0) a
      (λ j low high. out j (omega arith) (omega arith))
    ∙ put_ne mem (slot page i) 0 a (out i (omega arith) (omega arith))

pub zero_entries-zero :
    (n i page : ℕ) (mem : ℕ → ℕ) (j : ℕ)
    → i ≤ j
    → j < i + n
    → zero_entries n i page mem (slot page j) ≡ 0
unfolding zero_entries
zero_entries-zero zero i page mem j low high = absurd (omega arith)
zero_entries-zero (suc n) i page mem j low high = elim (ℕ_discrete j i) [
  | no ne ↦ zero_entries-zero n (i + 1) page (put mem (slot page i) 0) j (omega arith) (omega arith)
  | yes e ↦
      zero_entries-ne n (i + 1) page (put mem (slot page i) 0) (slot page j) (λ k a b. omega arith)
      ∙ ap (put mem (slot page i) 0) (ap (slot page) e)
      ∙ put_self mem (slot page i) 0
]

-- An allocator of frames: what it gives lies below 2 ^ 52, was free, and is not free afterwards.
pub record IsAllocator {W : Type 0} (alloc : W → ℕ × W) (Free : W → ℕ → Type 0) : Type 0 where
  pub small : (w : W) → (alloc w).0 ≢ invalid_phys → (alloc w).0 < 2 ^ 52
  pub fresh : (w : W) → (alloc w).0 ≢ invalid_phys → Free w (alloc w).0
  pub others : (w : W) (p : ℕ) → Free (alloc w).1 p → Free w p × (p ≢ (alloc w).0)

module _ {W : Type 0} (space : Space W) (to : ℕ → ℕ) (alloc : W → ℕ × W)
    (given : space.phys_to_virt ≡ some to) (given_alloc : space.alloc_frame ≡ some alloc) where
  -- the machine with the new table `q` below table[i]
  abbrev pub installed : ℕ → ℕ → ℕ → Machine W → Machine W
  installed table i q k = record k {
    mem = put (vmm_zero_page (to q) k.mem) (slot table i) (entry_of q pte_writable);
    world = (alloc k.world).1;
  }

  install_table-ok :
      (table i q : ℕ) (k : Machine W)
      → (table_from_phys space q == 0) ≡ false
      → install_table space table i q (record k { world = (alloc k.world).1 })
        ≡ (inr (to q), installed table i q k)
  unfolding install_table
  install_table-ok table i q k e =
      let (_, same) = table_from_phys-aligned space to (λ p. p) given q e in
      rw e (
        ap
          (λ t. (
            inr t,
            record k {
              mem = put (vmm_zero_page t k.mem) (slot table i) (entry_of q pte_writable);
              world = (alloc k.world).1;
            },
          ))
          same)

  install_table-null :
      (table i q : ℕ) (k : Machine W)
      → (table_from_phys space q == 0) ≡ true
      → (install_table space table i q k).0 ≡ inl inval
  unfolding install_table
  install_table-null table i q k e = elim (Option-cases space.free_frame) [
    | inl n ↦ rw (e, n)
    | inr (free, s) ↦ rw (e, s)
  ]

  next_table-cases :
      (e : ℕ)
      → has e pte_present ≡ true
      → ((code : MapResult) × (is_ok code ≡ false) × (next_table space e ≡ inl code))
        ⊎ ((next : ℕ) × (next_table space e ≡ inr next) × (table_below space e ≡ inr next))
  unfolding next_table table_below
  next_table-cases e present = elim (Bool-cases (has e pte_huge)) [
    | inl huge ↦ inl (exists, refl, rw huge)
    | inr small ↦ elim (Bool-cases (table_from_phys space (bit_and e pte_addr_mask) == 0)) [
      | inl null ↦ inl (inval, refl, rw (small, null))
      | inr some_table ↦ inr (
        table_from_phys space (bit_and e pte_addr_mask),
        rw (small, some_table),
        rw (present, small, some_table),
      )
    ]
  ]

  -- It fails, finds a table and changes nothing, or puts a new one.
  pub get_or_alloc-cases :
      (table i : ℕ) (k : Machine W)
      → let r = get_or_alloc_next_table space table i k in
        let q = (alloc k.world).0 in
        ((code : MapResult) × (is_ok code ≡ false) × (r.0 ≡ inl code))
        ⊎ ((next : ℕ) × (r ≡ (inr next, k))
            × (has (k.mem (slot table i)) pte_present ≡ true)
            × (table_below space (k.mem (slot table i)) ≡ inr next))
        ⊎ ((r ≡ (inr (to q), installed table i q k))
            × (has (k.mem (slot table i)) pte_present ≡ false)
            × (q % 4096 ≡ 0)
            × (q ≢ invalid_phys)
            × (table_from_phys space q ≡ to q)
            × ((to q == 0) ≡ false))
  unfolding get_or_alloc_next_table
  get_or_alloc-cases table i k =
      let e = k.mem (slot table i) in
      let q = (alloc k.world).0 in
      elim (Bool-cases (has e pte_present)) [
        | inl present ↦ elim (next_table-cases e present) [
          | inl (code, bad, s) ↦ inl (code, bad, rw (present, s))
          | inr (next, s, below) ↦ inr (inl (next, rw present (ap (λ t. (t, k)) s), present, below))
        ]
        | inr absent ↦ elim (Bool-cases (q == invalid_phys || not (vmm_is_aligned_4k q))) [
          | inl bad ↦ inl (nomem, refl, rw (absent, given_alloc, bad))
          | inr good ↦ elim (Bool-cases (table_from_phys space q == 0)) [
            | inl null ↦ inl (
              inval,
              refl,
              rw (absent, given_alloc, good)
                  (install_table-null table i q (record k { world = (alloc k.world).1 }) null),
            )
            | inr some_table ↦
                let (aligned, same) =
                  table_from_phys-aligned space to (λ p. p) given q some_table in
                inr (
                  inr (
                    rw (absent, given_alloc, good) (install_table-ok table i q k some_table),
                    absent,
                    aligned,
                    ground arith,
                    same,
                    ap (λ t. t == 0) (sym same) ∙ some_table,
                  ))
          ]
        ]
      ]
