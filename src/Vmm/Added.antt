-- ===== src/Vmm/Added.antt =====
-- A new table in page tables that form a tree: they still form one, and the old tables keep their entries.
use m.Prelude.{
  ℕ, ◌+◌, ◌-◌, ◌%◌, ◌^◌, ◌≤◌, ◌<◌, ◌≡◌, ◌≢◌, refl, sym, ◌∙◌, ap, subst, true, true≢false, bit_and,
  arith, ◌==◌, if◌then◌else◌,
}
use native.Mathlib.Decide.{ℕ_discrete}
use m.Vmm.{
  Space, Machine, MapResult, pte_present, pte_writable, pte_addr_mask, has, slot, put,
  vmm_zero_page, get_or_alloc_next_table, alloc_down, table_below, walk_down,
}
use m.Vmm.Tree.{IsDirectMap, IsTree, put_ne}
use m.Vmm.Unmap.{put_self}
use m.Vmm.Entry.{entry_of, entry-addr}
use m.Vmm.Grow.{zero_entries-ne, zero_entries-zero}

-- the levels with a table added at the page `q`
abbrev pub with_table : (ℕ → ℕ) → ℕ → ℕ → (ℕ → ℕ)
with_table level q n p = if p == q then n else level p

pub with_table_self : (level : ℕ → ℕ) (q n : ℕ) → with_table level q n q ≡ n
with_table_self level q n = ground arith

pub with_table_ne : (level : ℕ → ℕ) (q n p : ℕ) → p ≢ q → with_table level q n p ≡ level p
with_table_ne level q n p ne = ground arith

module _ (to : ℕ → ℕ) (direct : IsDirectMap to) where
  -- A new table `q` below table[i] of the page `p`.
  module _ (level : ℕ → ℕ) (p i q : ℕ) (mem : ℕ → ℕ) (aligned : p % 4096 ≡ 0) (small : i < 512)
      (high : 2 ≤ level p) (new_aligned : q % 4096 ≡ 0) (new : level q ≡ 0) where
    abbrev pub grown_mem : ℕ → ℕ
    grown_mem = put (vmm_zero_page (to q) mem) (slot (to p) i) (entry_of q pte_writable)

    apart_new : p ≢ q
    apart_new e = omega (arith, high, new, ap level e)

    pub grown_mem-old :
        (r j : ℕ)
        → r % 4096 ≡ 0
        → j < 512
        → r ≢ q
        → slot (to r) j ≢ slot (to p) i
        → grown_mem (slot (to r) j) ≡ mem (slot (to r) j)
    unfolding vmm_zero_page
    grown_mem-old r j ar hj ne other =
        put_ne (vmm_zero_page (to q) mem) (slot (to p) i) (entry_of q pte_writable) (slot (to r) j)
          other
        ∙ zero_entries-ne 512 0 (to q) mem (slot (to r) j)
            (λ l low up. direct.apart r q j l ar new_aligned hj up ne)

    grown_mem-new : (j : ℕ) → j < 512 → grown_mem (slot (to q) j) ≡ 0
    unfolding vmm_zero_page
    grown_mem-new j hj =
        put_ne (vmm_zero_page (to q) mem) (slot (to p) i) (entry_of q pte_writable) (slot (to q) j)
          (direct.apart q p j i new_aligned aligned hj small (λ e. apart_new (sym e)))
        ∙ zero_entries-zero 512 0 (to q) mem j (omega arith) hj

    pub grown_mem-slot : grown_mem (slot (to p) i) ≡ entry_of q pte_writable
    grown_mem-slot = put_self (vmm_zero_page (to q) mem) (slot (to p) i) (entry_of q pte_writable)

    abbrev pub grown_level : ℕ → ℕ
    grown_level = with_table level q (level p - 1)

    pub grown_mem-IsTree :
        (root : ℕ) → q < 2 ^ 52 → IsTree to level mem root → IsTree to grown_level grown_mem root
    grown_mem-IsTree root low tree = record {
      root_level =
          with_table_ne level q (level p - 1) root
            (λ e. omega (arith, new, ap level e, tree.root_level))
          ∙ tree.root_level;
      root_aligned = tree.root_aligned;
      down = λ r j ar hr hj present no_huge. elim (ℕ_discrete r q) [
        | yes e ↦ elim (empty r j e hj present) [ ]
        | no ne ↦ elim (ℕ_discrete (slot (to r) j) (slot (to p) i)) [
          | yes e ↦ at_slot r j ar hj ne e
          | no other ↦
              let same = grown_mem-old r j ar hj ne other in
              let lv = with_table_ne level q (level p - 1) r ne in
              let below =
                tree.down r j ar (subst (λ n. 2 ≤ n) lv hr) hj
                  (ap (λ w. has w pte_present) (sym same) ∙ present)
                  (ap (λ w. has w m.Vmm.pte_huge) (sym same) ∙ no_huge) in
              ap (λ w. grown_level (bit_and w pte_addr_mask) + 1) same
              ∙ ap (λ n. n + 1)
                  (with_table_ne level q (level p - 1) (bit_and (mem (slot (to r) j)) pte_addr_mask)
                    (λ s. omega (arith, below, new, ap level s, lv, hr)))
              ∙ below
              ∙ sym lv
        ]
      ];
    }
      where
        empty : (r j : ℕ) → r ≡ q → j < 512 → has (grown_mem (slot (to r) j)) pte_present ≢ true
        empty r j e hj present = true≢false (
            sym present
            ∙ ap (λ a. has (grown_mem (slot (to a) j)) pte_present) e
            ∙ ap (λ w. has w pte_present) (grown_mem-new j hj))

        at_slot :
            (r j : ℕ)
            → r % 4096 ≡ 0
            → j < 512
            → r ≢ q
            → slot (to r) j ≡ slot (to p) i
            → grown_level (bit_and (grown_mem (slot (to r) j)) pte_addr_mask) + 1 ≡ grown_level r
        at_slot r j ar hj ne e = elim (ℕ_discrete r p) [
          | no other ↦ elim (direct.apart r p j i ar aligned hj small other e) [ ]
          | yes s ↦
              ap (λ a. grown_level (bit_and (grown_mem a) pte_addr_mask) + 1) e
              ∙ ap (λ w. grown_level (bit_and w pte_addr_mask) + 1) grown_mem-slot
              ∙ ap (λ a. grown_level a + 1) (entry-addr q pte_writable new_aligned low refl)
              ∙ ap (λ n. n + 1) (with_table_self level q (level p - 1))
              ∙ omega (arith, high)
              ∙ ap level (sym s)
              ∙ sym (with_table_ne level q (level p - 1) r ne)
        ]
