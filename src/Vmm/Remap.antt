-- ===== src/Vmm/Remap.antt =====
-- `vmm_map_page` on a page that is mapped already.
use m.Prelude.{
  ℕ, ◌≡◌, refl, sym, ◌∙◌, ap, true, false, some, List, [], ◌∷◌, ◌⊎◌, inl, inr, Bool-cases, arith,
  ◌==◌,
}
use mathlib.Core.Sum.{inl-ne-inr}
use m.Vmm.{
  Space, Machine, Mapping, MapResult, map_ok, exists, pte_present, pte_huge, has, vmm_is_canonical,
  vmm_is_aligned_4k, idx_pt, upper_indices, slot, table_from_phys, next_table,
  get_or_alloc_next_table, alloc_down, set_entry, vmm_map_page, table_below, walk, walk_down,
  vmm_query_page,
}
use m.Vmm.Unmap.{Sum-cases, query-IsMapped}

module _ {W : Type 0} (space : Space W) where
  -- Where the walk finds a next table, the mapping uses it.
  get_or_alloc-found :
      (k : Machine W) (table i next : ℕ)
      → table_below space (k.mem (slot table i)) ≡ inr next
      → get_or_alloc_next_table space table i k ≡ (inr next, k)
  unfolding get_or_alloc_next_table next_table table_below
  get_or_alloc-found k table i next =
      let e = k.mem (slot table i) in
      elim (Bool-cases (has e pte_present)) [
        | inr absent ↦ rw absent (λ h. elim (inl-ne-inr h) [ ])
        | inl present ↦ elim (Bool-cases (has e pte_huge)) [
          | inl huge ↦ rw (present, huge) (λ h. elim (inl-ne-inr h) [ ])
          | inr small ↦ rw (present, small) (λ h. ap (λ r. (r, k)) h)
        ]
      ]

  walk_down-code :
      (k : Machine W) (i : ℕ) (is : List ℕ) (table : ℕ) (code : MapResult)
      → table_below space (k.mem (slot table i)) ≡ inl code
      → walk_down space k.mem (i ∷ is) table ≡ inl code
  unfolding walk_down
  walk_down-code k i is table code e = rw (walk_down, e)

  walk_down-next :
      (k : Machine W) (i : ℕ) (is : List ℕ) (table next : ℕ)
      → table_below space (k.mem (slot table i)) ≡ inr next
      → walk_down space k.mem (i ∷ is) table ≡ walk_down space k.mem is next
  unfolding walk_down
  walk_down-next k i is table next e = rw (walk_down, e)

  alloc_down-next :
      (k : Machine W) (i : ℕ) (is : List ℕ) (table next : ℕ)
      → get_or_alloc_next_table space table i k ≡ (inr next, k)
      → alloc_down space (i ∷ is) table k ≡ alloc_down space is next k
  unfolding alloc_down
  alloc_down-next k i is table next e =
      rw (alloc_down, e) (ap (λ (r : (MapResult ⊎ ℕ) × Machine W). alloc_down space is next r.1) e)

  alloc_down-walk_down :
      (k : Machine W) (is : List ℕ) (table pt : ℕ)
      → walk_down space k.mem is table ≡ inr pt
      → alloc_down space is table k ≡ (inr pt, k)
  unfolding alloc_down walk_down
  alloc_down-walk_down k [] table pt h = ap (λ r. (r, k)) h
  alloc_down-walk_down k (i ∷ is) table pt h =
      elim (Sum-cases (table_below space (k.mem (slot table i)))) [
        | inl (code, e) ↦ elim (inl-ne-inr (sym (walk_down-code k i is table code e) ∙ h)) [ ]
        | inr (next, e) ↦
            alloc_down-next k i is table next (get_or_alloc-found k table i next e)
            ∙ alloc_down-walk_down k is next pt (sym (walk_down-next k i is table next e) ∙ h)
      ]

  alloc_down-walk :
      (k : Machine W) (vaddr pt : ℕ)
      → walk space k.mem vaddr ≡ inr pt
      → ((table_from_phys space space.root_paddr == 0) ≡ false)
        × (alloc_down space (upper_indices vaddr) (table_from_phys space space.root_paddr) k
            ≡ (inr pt, k))
  unfolding walk
  alloc_down-walk k vaddr pt = elim (Bool-cases (table_from_phys space space.root_paddr == 0)) [
    | inl e ↦ rw e (λ h. elim (inl-ne-inr h) [ ])
    | inr e ↦ rw e (λ h. (refl, alloc_down-walk_down k (upper_indices vaddr) _ pt h))
  ]

  set_entry-present :
      (pt j paddr flags : ℕ) (k : Machine W)
      → has (k.mem (slot pt j)) pte_present ≡ true
      → set_entry pt j paddr flags k ≡ (exists, k)
  unfolding set_entry
  set_entry-present pt j paddr flags k h = rw h

  -- A page that a query finds is not mapped again, whatever page-aligned frame and flags are given:
  -- the call reports that it exists, allocates nothing and changes nothing.
  pub query-map_exists :
      (vaddr paddr flags : ℕ) (k : Machine W) (w : Mapping)
      → vmm_is_aligned_4k paddr ≡ true
      → vmm_query_page (some space) vaddr k ≡ (map_ok, some w)
      → vmm_map_page (some space) vaddr paddr flags k ≡ (exists, k)
  unfolding vmm_map_page
  query-map_exists vaddr paddr flags k w aligned h =
      let m = query-IsMapped space vaddr k w h in
      let (root, down) = alloc_down-walk k vaddr m.pt m.walked in
      let canonical : vmm_is_canonical vaddr ≡ true = ground (arith, m.passes) in
      let page : vmm_is_aligned_4k vaddr ≡ true = ground (arith, m.passes) in
      rw (canonical, page, aligned, root, down)
        (ap (λ (r : (MapResult ⊎ ℕ) × Machine W). set_entry m.pt (idx_pt vaddr) paddr flags r.1)
            down
          ∙ set_entry-present m.pt (idx_pt vaddr) paddr flags k m.present)
