-- ===== src/Vmm/Unmap.antt =====
-- `vmm_query_page` and `vmm_unmap_page` on page tables that form a tree.
use m.Prelude.{
  ℕ, ◌%◌, ◌<◌, ◌≡◌, ◌≢◌, refl, sym, ◌∙◌, ap, subst, Bool, true, false, true≢false, not, ◌||◌,
  Option, none, some, ◌∷◌, ◌⊎◌, inl, inr, Bool-cases, bit_and, arith, ◌==◌,
}
use mathlib.Core.Sum.{inl-ne-inr}
use m.Word.{shr}
use m.Word.Mask.{bit_and_table_index}
use m.Vmm.{
  Space, Machine, Mapping, MapResult, map_ok, not_found, pte_present, has, vmm_is_canonical,
  vmm_is_aligned_4k, idx_pt, upper_indices, slot, put, table_from_phys, walk, walk_down, read_entry,
  clear_entry, vmm_query_page, vmm_unmap_page,
}
use m.Vmm.Tree.{
  IsDirectMap, IsTree, AllBelow, put_ne, table_from_phys-aligned, walk_down-Reached, IsTree-put,
}

pub Sum-cases : {A B : Type 0} (r : A ⊎ B) → ((a : A) × (r ≡ inl a)) ⊎ ((b : B) × (r ≡ inr b))
Sum-cases (inl a) = inl (a, refl)
Sum-cases (inr b) = inr (b, refl)

pub index_below : (a : ℕ) → bit_and a 511 < 512
index_below a = omega (arith, bit_and_table_index a)

pub put_self : (mem : ℕ → ℕ) (p v : ℕ) → put mem p v p ≡ v
unfolding put
put_self mem p v = ground arith

abbrev pub upper_below : (vaddr : ℕ) → AllBelow 512 (upper_indices vaddr)
upper_below vaddr =
    (index_below (shr vaddr 39), (index_below (shr vaddr 30), (index_below (shr vaddr 21), tt)))

abbrev written : MapResult × Option Mapping → Bool
written (code, none) = false
written (code, some w) = true

no_mapping :
    {code : MapResult} (w : Mapping)
    → ◌≢◌ {A = MapResult × Option Mapping} (code, none) (map_ok, some w)
no_mapping w h = true≢false (sym (ap written h))

-- the guards of query and unmap
abbrev pub refused : ℕ → Bool
refused vaddr = not (vmm_is_canonical vaddr) || not (vmm_is_aligned_4k vaddr)

module _ {W : Type 0} (space : Space W) (vaddr : ℕ) where
  -- a mapped page: the walk reaches a table whose entry is present
  pub record IsMapped (mem : ℕ → ℕ) : Type 0 where
    pub passes : refused vaddr ≡ false
    pub pt : ℕ
    pub walked : walk space mem vaddr ≡ inr pt
    pub present : has (mem (slot pt (idx_pt vaddr))) pte_present ≡ true

  pub query-IsMapped :
      (k : Machine W) (w : Mapping)
      → vmm_query_page (some space) vaddr k ≡ (map_ok, some w)
      → IsMapped k.mem
  unfolding vmm_query_page read_entry
  query-IsMapped k w = elim (Bool-cases (refused vaddr)) [
    | inl e ↦ rw e (λ h. elim (no_mapping w h) [ ])
    | inr e ↦ elim (Sum-cases (walk space k.mem vaddr)) [
      | inl (code, s) ↦ rw (e, s) (λ h. elim (no_mapping w h) [ ])
      | inr (t, s) ↦ elim (Bool-cases (has (k.mem (slot t (idx_pt vaddr))) pte_present)) [
        | inl p ↦ λ h. record { passes = e; pt = t; walked = s; present = p }
        | inr p ↦ rw (e, s, p) (λ h. elim (no_mapping w h) [ ])
      ]
    ]
  ]

  unmap-IsMapped :
      (k : Machine W)
      → (m : IsMapped k.mem)
      → vmm_unmap_page (some space) vaddr k ≡ (
        map_ok,
        record k {
          mem = put k.mem (slot m.pt (idx_pt vaddr)) 0;
          invalidated = vaddr ∷ k.invalidated;
        },
      )
  unfolding vmm_unmap_page clear_entry
  unmap-IsMapped k m = rw (m.passes, m.walked, m.present)

  query-cleared :
      (k : Machine W) (pt : ℕ)
      → refused vaddr ≡ false
      → walk space k.mem vaddr ≡ inr pt
      → k.mem (slot pt (idx_pt vaddr)) ≡ 0
      → vmm_query_page (some space) vaddr k ≡ (not_found, none)
  unfolding vmm_query_page read_entry
  query-cleared k pt passes walked cleared = rw (passes, walked, cleared)

  module _ (to level : ℕ → ℕ) (given : space.phys_to_virt ≡ some to) (direct : IsDirectMap to) where
    -- The walk ends in a table of level 1, and still does after a write to such a table.
    walk-Reached :
        (mem : ℕ → ℕ) (t : ℕ)
        → IsTree to level mem space.root_paddr
        → walk space mem vaddr ≡ inr t
        → (page : ℕ) × (page % 4096 ≡ 0)
          × (level page ≡ 1)
          × (t ≡ to page)
          × ((j v : ℕ) → j < 512 → walk space (put mem (slot (to page) j) v) vaddr ≡ inr t)
    unfolding walk
    walk-Reached mem t tree h = elim (Bool-cases (table_from_phys space space.root_paddr == 0)) [
      | inl e ↦ elim (stopped mem t e h) [ ]
      | inr e ↦
          let (aligned, root) = table_from_phys-aligned space to level given space.root_paddr e in
          let down : walk_down space mem (upper_indices vaddr) (to space.root_paddr) ≡ inr t =
            ap (walk_down space mem (upper_indices vaddr)) (sym root) ∙ go_down mem e ∙ h in
          let r =
            walk_down-Reached space to level given direct mem space.root_paddr (upper_indices vaddr)
              space.root_paddr t tree aligned tree.root_level (upper_below vaddr) down in
          (
            r.page,
            r.aligned,
            r.last,
            r.table,
            λ j v hj.
                sym (go_down (put mem (slot (to r.page) j) v) e)
                ∙ ap (walk_down space (put mem (slot (to r.page) j) v) (upper_indices vaddr)) root
                ∙ r.kept r.page j v r.aligned r.last hj,
          )
    ]
      where
        stopped :
            (mem : ℕ → ℕ) (t : ℕ)
            → (table_from_phys space space.root_paddr == 0) ≡ true
            → walk space mem vaddr ≢ inr t
        stopped mem t e = rw e inl-ne-inr

        go_down :
            (mem : ℕ → ℕ)
            → (table_from_phys space space.root_paddr == 0) ≡ false
            → walk_down space mem (upper_indices vaddr) (table_from_phys space space.root_paddr)
              ≡ walk space mem vaddr
        go_down mem e = rw e

    -- What unmapping a mapped page makes of the machine.
    pub record Unmapped (k k' : Machine W) : Type 0 where
      pub result : vmm_unmap_page (some space) vaddr k ≡ (map_ok, k')
      pub gone : vmm_query_page (some space) vaddr k' ≡ (not_found, none)
      pub tree : IsTree to level k'.mem space.root_paddr
      pub flushed : k'.invalidated ≡ vaddr ∷ k.invalidated
      pub one_word : (p : ℕ) × ((a : ℕ) → a ≢ p → k'.mem a ≡ k.mem a)

    -- If translated tables do not overlap and the page tables form a tree, a page that a query finds
    -- can be unmapped: the query then does not find it, the tables are still a tree, its translation
    -- is invalidated, and one word of memory changes at most.
    pub query-unmap :
        (k : Machine W) (w : Mapping)
        → IsTree to level k.mem space.root_paddr
        → vmm_query_page (some space) vaddr k ≡ (map_ok, some w)
        → (k' : Machine W) × Unmapped k k'
    query-unmap k w tree h =
        let m = query-IsMapped k w h in
        let (page, aligned, last, table, kept) = walk-Reached k.mem m.pt tree m.walked in
        let j = idx_pt vaddr in
        let k' : Machine W = record k {
          mem = put k.mem (slot m.pt j) 0;
          invalidated = vaddr ∷ k.invalidated;
        } in
        (
          k',
          record {
            result = unmap-IsMapped k m;
            gone =
                query-cleared k' m.pt m.passes
                  (ap (λ t. walk space (put k.mem (slot t j) 0) vaddr) table
                    ∙ kept j 0 (index_below (shr vaddr 12)))
                  (put_self k.mem (slot m.pt j) 0);
            tree =
                subst (λ t. IsTree to level (put k.mem (slot t j) 0) space.root_paddr) (sym table)
                  (IsTree-put to level k.mem space.root_paddr page j 0 direct tree aligned last
                    (index_below (shr vaddr 12)));
            flushed = refl;
            one_word = (slot m.pt j, λ a ne. put_ne k.mem (slot m.pt j) 0 a ne);
          },
        )
