-- ===== src/Vmm/Tree.antt =====
-- Page tables that form a tree: each table has a level, and the walk goes down the levels.
use m.Prelude.{
  ℕ, ◌+◌, ◌%◌, ◌≤◌, ◌<◌, ◌≡◌, ◌≢◌, sym, ◌∙◌, ap, true, false, not, ◌||◌, some, List, [], ◌∷◌, ◌⊎◌,
  inl, inr, Bool-cases, bit_and, arith, ◌==◌, length,
}
use mathlib.Core.Sum.{inr-injective, inl-ne-inr}
use m.Word.Mask.{bit_and_page_offset}
use m.Vmm.{
  Space, MapResult, inval, not_found, pte_present, pte_huge, pte_addr_mask, has, vmm_is_aligned_4k,
  slot, put, table_from_phys, table_below, walk_down,
}

-- The map of physical pages into the address space: translated tables do not overlap.
pub record IsDirectMap (to : ℕ → ℕ) : Type 0 where
  pub apart :
      (p q i j : ℕ)
      → p % 4096 ≡ 0
      → q % 4096 ≡ 0
      → i < 512
      → j < 512
      → p ≢ q
      → slot (to p) i ≢ slot (to q) j

-- `level` gives a table its level, the last tables 1, and other pages 0; entries go one level down.
pub record IsTree (to level mem : ℕ → ℕ) (root : ℕ) : Type 0 where
  pub root_level : level root ≡ 4
  pub root_aligned : root % 4096 ≡ 0
  pub down :
      (p i : ℕ)
      → p % 4096 ≡ 0
      → 2 ≤ level p
      → i < 512
      → has (mem (slot (to p) i)) pte_present ≡ true
      → has (mem (slot (to p) i)) pte_huge ≡ false
      → level (bit_and (mem (slot (to p) i)) pte_addr_mask) + 1 ≡ level p

abbrev pub AllBelow : ℕ → List ℕ → Type 0
AllBelow bound [] = Unit {0}
AllBelow bound (i ∷ is) = (i < bound) × AllBelow bound is

pub aligned_iff : (p : ℕ) → vmm_is_aligned_4k p ≡ true → p % 4096 ≡ 0
unfolding vmm_is_aligned_4k
aligned_iff p h = ground (arith, bit_and_page_offset p)

pub put_ne : (mem : ℕ → ℕ) (p v a : ℕ) → a ≢ p → put mem p v a ≡ mem a
unfolding put
put_ne mem p v a ne = ground arith

module _ {W : Type 0} (space : Space W) (to level : ℕ → ℕ)
    (given : space.phys_to_virt ≡ some to) where
  -- A translated table that is not null is the translation of an aligned page.
  pub table_from_phys-aligned :
      (p : ℕ)
      → (table_from_phys space p == 0) ≡ false
      → (p % 4096 ≡ 0) × (table_from_phys space p ≡ to p)
  unfolding table_from_phys
  table_from_phys-aligned p h = elim (Bool-cases (vmm_is_aligned_4k p)) [
    | inl e ↦ (aligned_iff p e, rw (given, e))
    | inr e ↦ elim (null e h) [ ]
  ]
    where
      null : vmm_is_aligned_4k p ≡ false → ¬ ((table_from_phys space p == 0) ≡ false)
      null e = rw (given, e) (λ h. ground arith)

  -- An entry stops the walk, or it is present, no huge page, and names the aligned page of the next table.
  pub table_below-cases :
      (e : ℕ)
      → ((code : MapResult) × (table_below space e ≡ inl code))
        ⊎ ((has e pte_present ≡ true)
            × (has e pte_huge ≡ false)
            × (bit_and e pte_addr_mask % 4096 ≡ 0)
            × (table_below space e ≡ inr (to (bit_and e pte_addr_mask))))
  unfolding table_below
  table_below-cases e = elim (Bool-cases (not (has e pte_present) || has e pte_huge)) [
    | inl stops ↦ inl (not_found, rw stops)
    | inr goes ↦ elim (Bool-cases (table_from_phys space (bit_and e pte_addr_mask) == 0)) [
      | inl null ↦ inl (inval, rw (goes, null))
      | inr next ↦
          let (aligned, table) = table_from_phys-aligned (bit_and e pte_addr_mask) next in
          inr (ground arith, ground arith, aligned, rw (goes, next) (ap inr table))
    ]
  ]

  walk_down-stop :
      (mem : ℕ → ℕ) (i : ℕ) (is : List ℕ) (t : ℕ) (code : MapResult)
      → table_below space (mem (slot t i)) ≡ inl code
      → walk_down space mem (i ∷ is) t ≡ inl code
  unfolding walk_down
  walk_down-stop mem i is t code h = rw (walk_down, h)

  pub walk_down-step :
      (mem : ℕ → ℕ) (i : ℕ) (is : List ℕ) (t next : ℕ)
      → table_below space (mem (slot t i)) ≡ inr next
      → walk_down space mem (i ∷ is) t ≡ walk_down space mem is next
  unfolding walk_down
  walk_down-step mem i is t next h = rw (walk_down, h)

  -- Where a walk from the page `p` ends: at the table of a page of level 1, which it also reaches after a
  -- write to a table of level 1.
  pub record Reached (mem : ℕ → ℕ) (is : List ℕ) (p t : ℕ) : Type 0 where
    pub page : ℕ
    pub aligned : page % 4096 ≡ 0
    pub last : level page ≡ 1
    pub table : t ≡ to page
    pub kept :
        (q j v : ℕ)
        → q % 4096 ≡ 0
        → level q ≡ 1
        → j < 512
        → walk_down space (put mem (slot (to q) j) v) is (to p) ≡ inr t

  pub walk_down-Reached :
      (direct : IsDirectMap to)
      → (mem : ℕ → ℕ) (root : ℕ) (is : List ℕ) (p t : ℕ) → IsTree to level mem root
      → p % 4096 ≡ 0
      → level p ≡ length is + 1
      → AllBelow 512 is
      → walk_down space mem is (to p) ≡ inr t
      → Reached mem is p t
  unfolding walk_down
  walk_down-Reached direct mem root [] p t tree ap_ lv small h = record {
    page = p;
    aligned = ap_;
    last = lv;
    table = sym (inr-injective (to p) t h);
    kept = λ q j v aq lq hj. h;
  }
  walk_down-Reached direct mem root (i ∷ is) p t tree ap_ lv small h =
      let e = mem (slot (to p) i) in
      elim (table_below-cases e) [
        | inl (code, stops) ↦
            elim (inl-ne-inr (sym (walk_down-stop mem i is (to p) code stops) ∙ h)) [ ]
        | inr (present, small_page, aligned, next) ↦
            let page = bit_and e pte_addr_mask in
            let below = tree.down p i ap_ (omega (arith, lv)) small.0 present small_page in
            let r =
              walk_down-Reached direct mem root is page t tree aligned (omega (arith, lv, below))
                small.1 (sym (walk_down-step mem i is (to p) (to page) next) ∙ h) in
            record {
              page = r.page;
              aligned = r.aligned;
              last = r.last;
              table = r.table;
              kept = λ q j v aq lq hj.
                  let ne : p ≢ q = λ s. omega (arith, lv, lq, ap level s) in
                  let same : put mem (slot (to q) j) v (slot (to p) i) ≡ e =
                    put_ne mem (slot (to q) j) v (slot (to p) i)
                      (direct.apart p q i j ap_ aq small.0 hj ne) in
                  walk_down-step (put mem (slot (to q) j) v) i is (to p) (to page)
                    (ap (table_below space) same ∙ next)
                  ∙ r.kept q j v aq lq hj;
            }
      ]

-- A write to a table of level 1 keeps the tree.
pub IsTree-put :
    (to level mem : ℕ → ℕ) (root q j v : ℕ)
    → IsDirectMap to
    → IsTree to level mem root
    → q % 4096 ≡ 0
    → level q ≡ 1
    → j < 512
    → IsTree to level (put mem (slot (to q) j) v) root
IsTree-put to level mem root q j v direct tree aq lq hj = record {
  root_level = tree.root_level;
  root_aligned = tree.root_aligned;
  down = λ p i ap_ high hi.
      let ne : p ≢ q = λ s. omega (arith, high, lq, ap level s) in
      rw (put_ne mem (slot (to q) j) v (slot (to p) i) (direct.apart p q i j ap_ aq hi hj ne))
        (tree.down p i ap_ high hi);
}
