-- ===== src/Vmm/Mapped.antt =====
-- What `vmm_map_page` promises: the page it maps is found, and the tables stay in order.
use m.Prelude.{
  ℕ, ◌%◌, ◌^◌, ◌<◌, ◌≡◌, ◌≢◌, refl, sym, ◌∙◌, ap, subst, true, false, true≢false, some, inl, inr,
  Bool-cases, bit_and, bit_or, arith, ◌==◌,
}
use m.Word.{not64, shr}
use m.Vmm.{
  Space, Machine, MapResult, map_ok, inval, pte_present, allowed_flags, has, idx_pt, upper_indices,
  vmm_is_aligned_4k, slot, put, table_from_phys, alloc_down, walk, walk_down, set_entry, read_entry,
  vmm_is_canonical, vmm_map_page, vmm_query_page,
}
use m.Vmm.Tree.{IsDirectMap, table_from_phys-aligned, walk_down-Reached, IsTree-put, aligned_iff}
use m.Vmm.Unmap.{put_self, Sum-cases, index_below, upper_below, refused}
use m.Vmm.Entry.{entry_of, entry-present, entry-addr, allowed-no_addr, entry-flags}
use m.Vmm.Grow.{is_ok, IsAllocator}
use m.Vmm.Down.{alloc_down-IsDown, alloc_down-code_ok}
use m.Vmm.Map.{IsSound}

module _ {W : Type 0} (space : Space W) (to : ℕ → ℕ) (alloc : W → ℕ × W)
    (given : space.phys_to_virt ≡ some to) (given_alloc : space.alloc_frame ≡ some alloc)
    (Free : W → ℕ → Type 0) (direct : IsDirectMap to) (allocator : IsAllocator alloc Free) where
  set_entry-ok :
      (table j paddr flags : ℕ) (k k' : Machine W)
      → set_entry table j paddr flags k ≡ (map_ok, k')
      → k'
        ≡ record k { mem = put k.mem (slot table j) (entry_of paddr (bit_and flags allowed_flags)) }
  unfolding set_entry
  set_entry-ok table j paddr flags k k' =
      elim (Bool-cases (has (k.mem (slot table j)) pte_present)) [
        | inl e ↦ rw e (λ h. elim (true≢false (sym (ap (λ r. is_ok r.0) h))) [ ])
        | inr e ↦ rw e (λ h. sym (ap (λ r. r.1) h))
      ]

  set_entry-any :
      (k1 : Machine W) (level' : ℕ → ℕ) (page j e : ℕ)
      → IsSound to space.root_paddr Free level' k1
      → page % 4096 ≡ 0
      → level' page ≡ 1
      → j < 512
      → IsSound to space.root_paddr Free level'
          (record k1 { mem = put k1.mem (slot (to page) j) e })
  set_entry-any k1 level' page j e sound aligned last small = record {
    tree =
        IsTree-put to level' k1.mem space.root_paddr page j e direct sound.tree aligned last small;
    unused = sound.unused;
  }

  -- the machine where the walk of `vaddr` ends at an entry
  query-entry :
      (vaddr paddr flags t : ℕ) (k : Machine W)
      → refused vaddr ≡ false
      → walk space k.mem vaddr ≡ inr t
      → k.mem (slot t (idx_pt vaddr)) ≡ entry_of paddr (bit_and flags allowed_flags)
      → paddr % 4096 ≡ 0
      → paddr < 2 ^ 52
      → vmm_query_page (some space) vaddr k ≡ (
        map_ok,
        some (record {
          vaddr = vaddr;
          paddr = paddr;
          flags = bit_or pte_present (bit_and flags allowed_flags);
        }),
      )
  unfolding vmm_query_page read_entry
  query-entry vaddr paddr flags t k passes walked entry aligned low =
      rw
        (
          passes,
          walked,
          entry,
          entry-present paddr (bit_and flags allowed_flags),
          entry-addr paddr (bit_and flags allowed_flags) aligned low (allowed-no_addr flags),
          entry-flags paddr flags,
        )
        refl

  -- What a mapping makes of the machine.
  pub record Mapped (vaddr paddr flags : ℕ) (k' : Machine W) : Type 0 where
    pub found : vmm_query_page (some space) vaddr k' ≡ (
      map_ok,
      some (record {
        vaddr = vaddr;
        paddr = paddr;
        flags = bit_or pte_present (bit_and flags allowed_flags);
      }),
    )
    pub level' : ℕ → ℕ
    pub sound : IsSound to space.root_paddr Free level' k'

  not_ok :
      (code : MapResult) (k k' : Machine W)
      → is_ok code ≡ false
      → ◌≢◌ {A = MapResult × Machine W} (code, k) (map_ok, k')
  not_ok code k k' bad h = true≢false (sym (ap (λ r. is_ok r.0) h) ∙ bad)

  -- the calls of a mapping that reports success
  record IsSteps (vaddr paddr flags : ℕ) (k k' : Machine W) : Type 0 where
    passes : refused vaddr ≡ false
    frame : vmm_is_aligned_4k paddr ≡ true
    root : (table_from_phys space space.root_paddr == 0) ≡ false
    t : ℕ
    k1 : Machine W
    down :
        alloc_down space (upper_indices vaddr) (table_from_phys space space.root_paddr) k
        ≡ (inr t, k1)
    last : set_entry t (idx_pt vaddr) paddr flags k1 ≡ (map_ok, k')

  map-IsSteps :
      (vaddr paddr flags : ℕ) (k k' : Machine W)
      → vmm_map_page (some space) vaddr paddr flags k ≡ (map_ok, k')
      → IsSteps vaddr paddr flags k k'
  unfolding vmm_map_page
  map-IsSteps vaddr paddr flags k k' = elim (Bool-cases (vmm_is_canonical vaddr)) [
    | inr c ↦ rw c (λ h. elim (not_ok inval k k' refl h) [ ])
    | inl c ↦ elim (Bool-cases (vmm_is_aligned_4k vaddr)) [
      | inr a ↦ rw (c, a) (λ h. elim (not_ok inval k k' refl h) [ ])
      | inl a ↦ elim (Bool-cases (vmm_is_aligned_4k paddr)) [
        | inr f ↦ rw (c, a, f) (λ h. elim (not_ok inval k k' refl h) [ ])
        | inl f ↦ elim (Bool-cases (table_from_phys space space.root_paddr == 0)) [
          | inl z ↦ rw (c, a, f, z) (λ h. elim (not_ok inval k k' refl h) [ ])
          | inr z ↦
              let run =
                alloc_down space (upper_indices vaddr) (table_from_phys space space.root_paddr) k in
              elim (Sum-cases run.0) [
                | inl (code, e) ↦
                    rw (c, a, f, z, e)
                      (λ h.
                        elim (not_ok code run.1 k'
                          (alloc_down-code_ok space to alloc given given_alloc Free direct allocator
                            (upper_indices vaddr) (table_from_phys space space.root_paddr) k code e)
                          h) [ ])
                | inr (t, e) ↦
                    rw (c, a, f, z, e)
                      (λ h. record {
                        passes = ground arith;
                        frame = f;
                        root = z;
                        t = t;
                        k1 = run.1;
                        down = ap (λ r. (r, run.1)) e;
                        last = h;
                      })
              ]
        ]
      ]
    ]
  ]

  -- If translated tables do not overlap, the tables form a tree that the free frames are not part of, and
  -- the allocator gives page frames below 2 ^ 52 that were free: after a mapping of a frame below 2 ^ 52
  -- that reports success, a query finds the page with that frame and the present bit and the allowed
  -- flags, the tables form a tree again and the free frames are still not part of it.
  pub map-query :
      (vaddr paddr flags : ℕ) (level : ℕ → ℕ) (k k' : Machine W)
      → IsSound to space.root_paddr Free level k
      → paddr < 2 ^ 52
      → vmm_map_page (some space) vaddr paddr flags k ≡ (map_ok, k')
      → Mapped vaddr paddr flags k'
  unfolding walk
  map-query vaddr paddr flags level k k' sound low h =
      let s = map-IsSteps vaddr paddr flags k k' h in
      let root = space.root_paddr in
      let (root_aligned, root_table) = table_from_phys-aligned space to level given root s.root in
      let d =
        alloc_down-IsDown space to alloc given given_alloc Free direct allocator level k s.k1
          (upper_indices vaddr) root s.t sound root_aligned sound.tree.root_level
          (upper_below vaddr)
          (ap (λ a. alloc_down space (upper_indices vaddr) a k) (sym root_table) ∙ s.down) in
      let j = idx_pt vaddr in
      let e = entry_of paddr (bit_and flags allowed_flags) in
      let small = index_below (m.Word.shr vaddr 12) in
      let after : Machine W = record (s.k1) { mem = put s.k1.mem (slot (to d.page) j) e } in
      let same : k' ≡ after =
        set_entry-ok s.t j paddr flags s.k1 k' s.last
        ∙ ap (λ a. record (s.k1) { mem = put s.k1.mem (slot a j) e }) d.table in
      let r =
        walk_down-Reached space to d.level' given direct s.k1.mem root (upper_indices vaddr) root
          s.t d.grown.sound.tree root_aligned d.grown.sound.tree.root_level (upper_below vaddr)
          d.walked in
      subst (Mapped vaddr paddr flags) (sym same) (record {
        found =
            query-entry vaddr paddr flags s.t after s.passes
              (rw (s.root) (
                ap (walk_down space after.mem (upper_indices vaddr)) root_table
                ∙ r.kept d.page j e d.page_aligned d.last small))
              (ap (λ a. after.mem (slot a j)) d.table ∙ put_self s.k1.mem (slot (to d.page) j) e)
              (aligned_iff paddr s.frame) low;
        level' = d.level';
        sound = set_entry-any s.k1 d.level' d.page j e d.grown.sound d.page_aligned d.last small;
      })
