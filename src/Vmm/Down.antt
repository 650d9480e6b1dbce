-- ===== src/Vmm/Down.antt =====
-- The walk of `vmm_map_page` down the tables, which it adds where they are missing.
use m.Prelude.{
  ℕ, ◌+◌, ◌%◌, ◌≡◌, ◌≢◌, sym, ◌∙◌, ap, subst, false, some, List, [], ◌∷◌, inl, inr, arith, length,
}
use mathlib.Core.Sum.{inr-injective, inl-injective, inl-ne-inr}
use m.Vmm.{Space, Machine, MapResult, get_or_alloc_next_table, alloc_down, table_below, walk_down}
use m.Vmm.Tree.{IsDirectMap, AllBelow, walk_down-step}
use m.Vmm.Unmap.{Sum-cases}
use m.Vmm.Grow.{is_ok, IsAllocator, get_or_alloc-cases}
use m.Vmm.Map.{IsSound, IsGrown, IsGrown-refl, IsGrown-trans, get_or_alloc-IsStep}

module _ {W : Type 0} (space : Space W) (to : ℕ → ℕ) (alloc : W → ℕ × W)
    (given : space.phys_to_virt ≡ some to) (given_alloc : space.alloc_frame ≡ some alloc)
    (Free : W → ℕ → Type 0) (direct : IsDirectMap to) (allocator : IsAllocator alloc Free) where
  -- The walk down of `vmm_map_page` ends at a table of level 1, and the walk of a query then reaches it.
  pub record IsDown (level : ℕ → ℕ) (k k' : Machine W) (is : List ℕ) (p t : ℕ) : Type 0 where
    pub level' : ℕ → ℕ
    pub grown : IsGrown to space.root_paddr Free level level' k k'
    pub page : ℕ
    pub page_aligned : page % 4096 ≡ 0
    pub last : level' page ≡ 1
    pub table : t ≡ to page
    pub walked : walk_down space k'.mem is (to p) ≡ inr t

  alloc_down-code :
      (i : ℕ) (is : List ℕ) (table : ℕ) (k : Machine W) (code : MapResult)
      → (get_or_alloc_next_table space table i k).0 ≡ inl code
      → (alloc_down space (i ∷ is) table k).0 ≡ inl code
  unfolding alloc_down
  alloc_down-code i is table k code e = rw (alloc_down, e)

  alloc_down-next :
      (i : ℕ) (is : List ℕ) (table : ℕ) (k : Machine W) (next : ℕ)
      → (get_or_alloc_next_table space table i k).0 ≡ inr next
      → alloc_down space (i ∷ is) table k
        ≡ alloc_down space is next (get_or_alloc_next_table space table i k).1
  unfolding alloc_down
  alloc_down-next i is table k next e = rw (alloc_down, e)

  pub alloc_down-IsDown :
      (level : ℕ → ℕ) (k k' : Machine W) (is : List ℕ) (p t : ℕ)
      → IsSound to space.root_paddr Free level k
      → p % 4096 ≡ 0
      → level p ≡ length is + 1
      → AllBelow 512 is
      → alloc_down space is (to p) k ≡ (inr t, k')
      → IsDown level k k' is p t
  unfolding alloc_down walk_down
  alloc_down-IsDown level k k' [] p t sound aligned lv small h =
      subst (λ x. IsDown level k x [] p t) (ap (λ r. r.1) h)
        (record {
          level' = level;
          grown = IsGrown-refl space to alloc given given_alloc Free direct allocator level k sound;
          page = p;
          page_aligned = aligned;
          last = lv;
          table = sym (inr-injective (to p) t (ap (λ r. r.0) h));
          walked = ap (λ r. r.0) h;
        })
  alloc_down-IsDown level k k' (i ∷ is) p t sound aligned lv small h =
      let step = get_or_alloc_next_table space (to p) i k in
      elim (Sum-cases step.0) [
        | inl (code, e) ↦
            elim (inl-ne-inr (sym (alloc_down-code i is (to p) k code e) ∙ ap (λ r. r.0) h)) [ ]
        | inr (next, e) ↦
            let s =
              get_or_alloc-IsStep space to alloc given given_alloc Free direct allocator level k
                step.1 p i next sound aligned (omega (arith, lv)) small.0
                (ap (λ r. (r, step.1)) e) in
            let d =
              alloc_down-IsDown s.level' step.1 k' is s.page t s.grown.sound s.page_aligned
                (omega (arith, lv, s.below)) small.1
                (sym (
                    alloc_down-next i is (to p) k next e
                    ∙ ap (λ a. alloc_down space is a step.1) s.table)
                  ∙ h) in
            let high : s.level' p ≢ 0 =
              λ z. omega (arith, lv, z, s.grown.levels p (λ y. omega (arith, lv, y))) in
            record {
              level' = d.level';
              grown =
                  IsGrown-trans space to alloc given given_alloc Free direct allocator level
                    s.level' d.level' k step.1 k' s.grown d.grown;
              page = d.page;
              page_aligned = d.page_aligned;
              last = d.last;
              table = d.table;
              walked =
                  walk_down-step space to level given k'.mem i is (to p) next (
                    ap (table_below space) (d.grown.entries p i aligned high small.0 s.present)
                    ∙ s.read)
                  ∙ ap (walk_down space k'.mem is) s.table
                  ∙ d.walked;
            }
      ]

  pub alloc_down-code_ok :
      (is : List ℕ) (table : ℕ) (k : Machine W) (code : MapResult)
      → (alloc_down space is table k).0 ≡ inl code
      → is_ok code ≡ false
  unfolding alloc_down
  alloc_down-code_ok [] table k code e = elim (inl-ne-inr (sym e)) [ ]
  alloc_down-code_ok (i ∷ is) table k code e =
      let step = get_or_alloc_next_table space table i k in
      elim (Sum-cases step.0) [
        | inr (next, s) ↦
            alloc_down-code_ok is next step.1 code
              (ap (λ r. r.0) (sym (alloc_down-next i is table k next s)) ∙ e)
        | inl (c, s) ↦
            let same : c ≡ code =
              inl-injective c code (sym (alloc_down-code i is table k c s) ∙ e) in
            elim (get_or_alloc-cases space to alloc given given_alloc table i k) [
              | inl (c', bad, s') ↦ ap is_ok (sym same ∙ inl-injective c c' (sym s ∙ s')) ∙ bad
              | inr (inl (next, s', _, _)) ↦ elim (inl-ne-inr (sym s ∙ ap (λ r. r.0) s')) [ ]
              | inr (inr (s', _, _, _, _, _)) ↦ elim (inl-ne-inr (sym s ∙ ap (λ r. r.0) s')) [ ]
            ]
      ]
