-- ===== src/Vmm/Map.antt =====
-- `vmm_map_page` on page tables that form a tree: the tables it adds, and the page it maps.
use m.Prelude.{
  ℕ, ◌+◌, ◌-◌, ◌%◌, ◌^◌, ◌≤◌, ◌<◌, ◌≡◌, ◌≢◌, refl, sym, ◌∙◌, ap, subst, true, false, true≢false,
  some, inl, inr, bit_and, arith, ◌==◌,
}
use mathlib.Core.Sum.{inr-injective, inl-ne-inr}
use m.Vmm.{
  Space, Machine, pte_present, pte_writable, pte_addr_mask, has, invalid_phys, slot,
  table_from_phys, get_or_alloc_next_table, table_below,
}
use m.Vmm.Tree.{IsDirectMap, IsTree, table_below-cases}
use m.Vmm.Entry.{entry_of, entry-present, table_entry-small, entry-addr}
use m.Vmm.Grow.{IsAllocator, installed, get_or_alloc-cases}
use m.Vmm.Added.{
  with_table, with_table_self, with_table_ne, grown_mem-old, grown_mem-slot, grown_mem-IsTree,
}

module _ (to : ℕ → ℕ) (root : ℕ) {W : Type 0} (Free : W → ℕ → Type 0) where
  -- The tables form a tree, and no free frame is one of them.
  pub record IsSound (level : ℕ → ℕ) (k : Machine W) : Type 0 where
    pub tree : IsTree to level k.mem root
    pub unused : (p : ℕ) → Free k.world p → level p ≡ 0

  -- What adding tables keeps: the levels of the tables there were, and their entries.
  pub record IsGrown (level level' : ℕ → ℕ) (k k' : Machine W) : Type 0 where
    pub sound : IsSound level' k'
    pub levels : (p : ℕ) → level p ≢ 0 → level' p ≡ level p
    pub entries :
        (p j : ℕ)
        → p % 4096 ≡ 0
        → level p ≢ 0
        → j < 512
        → has (k.mem (slot (to p) j)) pte_present ≡ true
        → k'.mem (slot (to p) j) ≡ k.mem (slot (to p) j)

module _ {W : Type 0} (space : Space W) (to : ℕ → ℕ) (alloc : W → ℕ × W)
    (given : space.phys_to_virt ≡ some to) (given_alloc : space.alloc_frame ≡ some alloc)
    (Free : W → ℕ → Type 0) (direct : IsDirectMap to) (allocator : IsAllocator alloc Free) where
  table_below-entry :
      (q : ℕ)
      → q % 4096 ≡ 0
      → q < 2 ^ 52
      → table_from_phys space q ≡ to q
      → (to q == 0) ≡ false
      → table_below space (entry_of q pte_writable) ≡ inr (to q)
  unfolding table_below
  table_below-entry q aligned low same null = rw (
    entry-present q pte_writable,
    table_entry-small q,
    entry-addr q pte_writable aligned low refl,
    same,
    null,
  )

  -- One step down from the page `p`: the tables grow, and `next` is the table below.
  pub record IsStep (level : ℕ → ℕ) (k k' : Machine W) (p i next : ℕ) : Type 0 where
    pub level' : ℕ → ℕ
    pub grown : IsGrown to space.root_paddr Free level level' k k'
    pub page : ℕ
    pub page_aligned : page % 4096 ≡ 0
    pub below : level' page + 1 ≡ level p
    pub table : next ≡ to page
    pub present : has (k'.mem (slot (to p) i)) pte_present ≡ true
    pub read : table_below space (k'.mem (slot (to p) i)) ≡ inr next

  pub IsGrown-refl :
      (level : ℕ → ℕ) (k : Machine W)
      → IsSound to space.root_paddr Free level k
      → IsGrown to space.root_paddr Free level level k k
  IsGrown-refl level k sound = record {
    sound = sound;
    levels = λ p nz. refl;
    entries = λ p j aligned nz hj present. refl;
  }

  pub IsGrown-trans :
      (l0 l1 l2 : ℕ → ℕ) (k0 k1 k2 : Machine W)
      → IsGrown to space.root_paddr Free l0 l1 k0 k1
      → IsGrown to space.root_paddr Free l1 l2 k1 k2
      → IsGrown to space.root_paddr Free l0 l2 k0 k2
  IsGrown-trans l0 l1 l2 k0 k1 k2 f g = record {
    sound = g.sound;
    levels = λ p nz. g.levels p (λ z. nz (sym (f.levels p nz) ∙ z)) ∙ f.levels p nz;
    entries = λ p j aligned nz hj present.
        let same = f.entries p j aligned nz hj present in
        g.entries p j aligned (λ z. nz (sym (f.levels p nz) ∙ z)) hj
          (ap (λ w. has w pte_present) same ∙ present)
        ∙ same;
  }

  pub get_or_alloc-IsStep :
      (level : ℕ → ℕ) (k k' : Machine W) (p i next : ℕ)
      → IsSound to space.root_paddr Free level k
      → p % 4096 ≡ 0
      → 2 ≤ level p
      → i < 512
      → get_or_alloc_next_table space (to p) i k ≡ (inr next, k')
      → IsStep level k k' p i next
  get_or_alloc-IsStep level k k' p i next sound aligned high hi h =
      elim (get_or_alloc-cases space to alloc given given_alloc (to p) i k) [
        | inl (code, bad, s) ↦ elim (inl-ne-inr (sym s ∙ ap (λ r. r.0) h)) [ ]
        | inr (inl (table, s, present, read)) ↦ found table s present read
        | inr (inr (s, absent, q_aligned, valid, same, null)) ↦
            added s absent q_aligned valid same null
      ]
    where
      found :
          (table : ℕ)
          → get_or_alloc_next_table space (to p) i k ≡ (inr table, k)
          → has (k.mem (slot (to p) i)) pte_present ≡ true
          → table_below space (k.mem (slot (to p) i)) ≡ inr table
          → IsStep level k k' p i next
      found table s present read =
          let e = k.mem (slot (to p) i) in
          let same_next : table ≡ next = inr-injective table next (ap (λ r. r.0) (sym s ∙ h)) in
          elim (table_below-cases space to level given e) [
            | inl (code, stops) ↦ elim (inl-ne-inr (sym stops ∙ read)) [ ]
            | inr (_, small, page_aligned, below) ↦
                subst (λ x. IsStep level k x p i next) (ap (λ r. r.1) (sym s ∙ h))
                  (record {
                    level' = level;
                    grown = IsGrown-refl level k sound;
                    page = bit_and e pte_addr_mask;
                    page_aligned = page_aligned;
                    below = sound.tree.down p i aligned high hi present small;
                    table =
                        sym same_next
                        ∙ inr-injective table (to (bit_and e pte_addr_mask)) (sym read ∙ below);
                    present = present;
                    read = read ∙ ap inr same_next;
                  })
          ]

      added :
          get_or_alloc_next_table space (to p) i k ≡ (
            inr (to (alloc k.world).0),
            installed space to alloc given given_alloc (to p) i (alloc k.world).0 k,
          )
          → has (k.mem (slot (to p) i)) pte_present ≡ false
          → (alloc k.world).0 % 4096 ≡ 0
          → (alloc k.world).0 ≢ invalid_phys
          → table_from_phys space (alloc k.world).0 ≡ to (alloc k.world).0
          → (to (alloc k.world).0 == 0) ≡ false
          → IsStep level k k' p i next
      added s absent q_aligned valid same null =
          let q = (alloc k.world).0 in
          let low = allocator.small k.world valid in
          let new : level q ≡ 0 = sound.unused q (allocator.fresh k.world valid) in
          let slot_now = grown_mem-slot to direct level p i q k.mem aligned hi high q_aligned new in
          let same_next : to q ≡ next = inr-injective (to q) next (ap (λ r. r.0) (sym s ∙ h)) in
          subst (λ x. IsStep level k x p i next) (ap (λ r. r.1) (sym s ∙ h))
            (record {
              level' = with_table level q (level p - 1);
              grown = record {
                sound = record {
                  tree =
                      grown_mem-IsTree to direct level p i q k.mem aligned hi high q_aligned new
                        space.root_paddr low sound.tree;
                  unused = λ r free.
                      let (before, ne) = allocator.others k.world r free in
                      with_table_ne level q (level p - 1) r ne ∙ sound.unused r before;
                };
                levels = λ r nz. with_table_ne level q (level p - 1) r (λ e. nz (ap level e ∙ new));
                entries = λ r j ar nz hj present.
                    grown_mem-old to direct level p i q k.mem aligned hi high q_aligned new r j ar
                      hj (λ e. nz (ap level e ∙ new))
                      (λ e.
                        true≢false (sym present ∙ ap (λ a. has (k.mem a) pte_present) e ∙ absent));
              };
              page = q;
              page_aligned = q_aligned;
              below = ap (λ n. n + 1) (with_table_self level q (level p - 1)) ∙ omega (arith, high);
              table = sym same_next;
              present = ap (λ w. has w pte_present) slot_now ∙ entry-present q pte_writable;
              read =
                  ap (table_below space) slot_now
                  ∙ table_below-entry q q_aligned low same null
                  ∙ ap inr same_next;
            })
