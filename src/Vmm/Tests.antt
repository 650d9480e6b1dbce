-- ===== src/Vmm/Tests.antt =====
-- A page table with one page in it, and the theorems of the page tables at it.
use m.Prelude.{
  ℕ, ◌+◌, ◌-◌, ◌*◌, ◌^◌, ◌≤◌, ◌<◌, ◌≡◌, refl, true, none, some, [], inl, inr, Bool-cases, arith,
  ◌==◌, if◌then◌else◌, ltb, Bool-cases, ap, ◌≢◌,
}
use m.Vmm.{
  Space, Machine, Mapping, map_ok, exists, not_found, has, pte_present, pte_huge, pte_addr_mask,
  slot, invalid_phys, idx_pml4, idx_pdpt, idx_pd, idx_pt, vmm_is_canonical, vmm_is_aligned_4k,
  vmm_map_page, vmm_query_page, vmm_unmap_page,
}
use m.Vmm.Address.{sign_extended, indices_determine}
use m.Vmm.Tree.{IsDirectMap, IsTree}
use m.Vmm.Grow.{IsAllocator}
use m.Vmm.Map.{IsSound}
use m.Vmm.Mapped.{Mapped, map-query}
use m.Vmm.Unmap.{Unmapped, query-unmap}
use m.Vmm.Remap.{query-map_exists}

-- physical memory is mapped at 2 ^ 40
abbrev to : ℕ → ℕ
to p = p + 2 ^ 40

-- The allocator counts the bytes that it gave, from 0x5000 on.
abbrev alloc : ℕ → ℕ × ℕ
alloc given = if ltb given (2 ^ 40) then (given + 0x5000, given + 4096) else (invalid_phys, given)

abbrev Free : ℕ → ℕ → Type 0
Free given p = (given + 0x5000 ≤ p) × (p < 2 ^ 52)

abbrev space : Space ℕ
space = record {
  root_paddr = 0x1000;
  alloc_frame = some alloc;
  free_frame = none;
  phys_to_virt = some to;
}

-- 0x1000, 0x2000, 0x3000 and 0x4000 are the tables of the page 0, which is mapped to 0x9000.
abbrev mem : ℕ → ℕ
mem a =
    if a == 2 ^ 40 + 0x1000
    then 0x2003
    else if a == 2 ^ 40 + 0x2000
    then 0x3003
    else if a == 2 ^ 40 + 0x3000
    then 0x4003
    else if a == 2 ^ 40 + 0x4000
    then 0x9003
    else 0

abbrev machine : Machine ℕ
machine = record { mem = mem; world = 0; invalidated = [] }

abbrev level : ℕ → ℕ
level p =
    if p == 0x1000
    then 4
    else if p == 0x2000
    then 3
    else if p == 0x3000
    then 2
    else if p == 0x4000
    then 1
    else 0

abbrev found : Mapping
found = record { vaddr = 0; paddr = 0x9000; flags = 3 }

query_found : vmm_query_page (some space) 0 machine ≡ (map_ok, some found)
unfolding vmm_query_page vmm_is_canonical vmm_is_aligned_4k m.Vmm.walk m.Vmm.walk_down
    m.Vmm.table_below m.Vmm.table_from_phys m.Vmm.read_entry
query_found = refl

-- a new page needs the three tables below the first
map_new : (vmm_map_page (some space) (2 ^ 39) 0x7000 2 machine).0 ≡ map_ok
unfolding vmm_map_page vmm_is_canonical vmm_is_aligned_4k m.Vmm.alloc_down
    m.Vmm.get_or_alloc_next_table m.Vmm.install_table m.Vmm.table_from_phys m.Vmm.set_entry
    m.Vmm.vmm_zero_page m.Vmm.zero_entries m.Vmm.put
map_new = refl

direct : IsDirectMap to
direct = record { apart = λ p q i j ap_ aq hi hj ne. omega arith }

tree : IsTree to level mem 0x1000
tree = record {
  root_level = refl;
  root_aligned = refl;
  down = λ p i aligned high hi present small. elim (Bool-cases (p == 0x1000)) [
    | inl e ↦ ground arith
    | inr e ↦ ground arith
  ];
}

query-unmap_example : (k' : Machine ℕ) × Unmapped space 0 to level refl direct machine k'
query-unmap_example = query-unmap space 0 to level refl direct machine found tree query_found

frame_aligned : vmm_is_aligned_4k 0x7000 ≡ true
unfolding vmm_is_aligned_4k
frame_aligned = refl

query-map_exists_example : vmm_map_page (some space) 0 0x7000 2 machine ≡ (exists, machine)
query-map_exists_example = query-map_exists space 0 0x7000 2 machine found frame_aligned query_found

high_canonical : vmm_is_canonical (2 ^ 64 - 4096) ≡ true
unfolding vmm_is_canonical
high_canonical = refl

high_aligned : vmm_is_aligned_4k (2 ^ 64 - 4096) ≡ true
unfolding vmm_is_aligned_4k
high_aligned = refl

indices_determine_example :
    2 ^ 64 - 4096
    ≡ sign_extended (
        2 ^ 39 * idx_pml4 (2 ^ 64 - 4096)
        + 2 ^ 30 * idx_pdpt (2 ^ 64 - 4096)
        + 2 ^ 21 * idx_pd (2 ^ 64 - 4096)
        + 2 ^ 12 * idx_pt (2 ^ 64 - 4096))
indices_determine_example =
    indices_determine (2 ^ 64 - 4096) (omega arith) high_canonical high_aligned

allocator : IsAllocator alloc Free
allocator = record {
  small = λ w valid. (gives w valid).1;
  fresh = gives;
  others = λ w p. elim (Bool-cases (ltb w (2 ^ 40))) [
    | inl e ↦ rw e (λ (low, high). ((omega arith, high), omega arith))
    | inr e ↦ rw e (λ (low, high). ((low, high), omega arith))
  ];
}
  where
    gives : (w : ℕ) → (alloc w).0 ≢ invalid_phys → Free w (alloc w).0
    gives w = elim (Bool-cases (ltb w (2 ^ 40))) [
      | inl e ↦ rw e (λ valid. ground arith)
      | inr e ↦ rw e (λ valid. elim (valid refl) [ ])
    ]

sound : IsSound to 0x1000 Free level machine
sound = record { tree = tree; unused = λ p (low, high). ground arith }

abbrev grown : Machine ℕ
grown = (vmm_map_page (some space) (2 ^ 39) 0x7000 2 machine).1

map-query_example : Mapped space to alloc refl refl Free direct allocator (2 ^ 39) 0x7000 2 grown
map-query_example =
    map-query space to alloc refl refl Free direct allocator (2 ^ 39) 0x7000 2 level machine grown
      sound (omega arith) (ap (λ r. (r, grown)) map_new)
