-- ===== src/Vmm.antt =====
-- The page tables, src/vmm.c and include/vmm.h. `W` is what the callbacks' `ctx` points to.
pub mod Address
pub mod Tree
pub mod Unmap
pub mod Entry
pub mod Grow
pub mod Added
pub mod Map
pub mod Down
pub mod Mapped
pub mod Remap
pub mod Tests
use m.Prelude.{
  ℕ, zero, suc, ◌+◌, ◌*◌, ◌^◌, Bool, true, false, not, ◌||◌, Option, none, some, List, [], ◌∷◌, ◌⊎◌,
  inl, inr, bit_and, bit_or, ◌==◌, if◌then◌else◌,
}
use m.Word.{sub64, not64, shr, uint64_max}

abbrev pub page_size : ℕ
page_size = 4096

abbrev pub entries_per_table : ℕ
entries_per_table = 512

abbrev pub invalid_phys : ℕ
invalid_phys = uint64_max

-- the bits of an entry
abbrev pub pte_present : ℕ
pte_present = 1

abbrev pub pte_writable : ℕ
pte_writable = 2

abbrev pub pte_huge : ℕ
pte_huge = 128

abbrev pub pte_addr_mask : ℕ
pte_addr_mask = 0x000FFFFFFFFFF000

-- WRITABLE | USER | WRITE_THROUGH | CACHE_DISABLE | GLOBAL | NO_EXECUTE
abbrev pub allowed_flags : ℕ
allowed_flags = 0x8000_0000_0000_011E

-- VMM_MAP_OK and the VMM_ERR_… codes
pub data MapResult : Type 0 where
  map_ok inval nomem exists not_found : MapResult

-- `struct vmm_space`: a null callback is `none`.
pub record Space (W : Type 0) : Type 0 where
  pub root_paddr : ℕ
  pub alloc_frame : Option (W → ℕ × W)
  pub free_frame : Option (ℕ → W → W)
  pub phys_to_virt : Option (ℕ → ℕ)

-- The 64-bit words of memory by their addresses, the callbacks' world, and the pages whose translation
-- was invalidated, the last first.
pub record Machine (W : Type 0) : Type 0 where
  pub mem : ℕ → ℕ
  pub world : W
  pub invalidated : List ℕ

-- `struct vmm_mapping`
pub record Mapping : Type 0 where
  pub vaddr : ℕ
  pub paddr : ℕ
  pub flags : ℕ

abbrev pub has : ℕ → ℕ → Bool
has entry bits = not (bit_and entry bits == 0)

unfoldable pub vmm_is_aligned_4k : ℕ → Bool
vmm_is_aligned_4k value = bit_and value (sub64 page_size 1) == 0

unfoldable pub vmm_is_canonical : ℕ → Bool
vmm_is_canonical vaddr =
    if not (bit_and (shr vaddr 47) 1 == 0) then shr vaddr 48 == 0xFFFF else shr vaddr 48 == 0

abbrev pub idx_pml4 : ℕ → ℕ
idx_pml4 vaddr = bit_and (shr vaddr 39) 0x1FF

abbrev pub idx_pdpt : ℕ → ℕ
idx_pdpt vaddr = bit_and (shr vaddr 30) 0x1FF

abbrev pub idx_pd : ℕ → ℕ
idx_pd vaddr = bit_and (shr vaddr 21) 0x1FF

abbrev pub idx_pt : ℕ → ℕ
idx_pt vaddr = bit_and (shr vaddr 12) 0x1FF

-- the address of table[index]
abbrev pub slot : ℕ → ℕ → ℕ
slot table index = table + 8 * index

unfoldable pub put : (ℕ → ℕ) → ℕ → ℕ → (ℕ → ℕ)
put mem p value a = if a == p then value else mem a

-- for (i = 0; i < n; i++) page[i] = 0, from the entry `i` on
unfoldable pub zero_entries : ℕ → ℕ → ℕ → (ℕ → ℕ) → (ℕ → ℕ)
zero_entries zero i page mem = mem
zero_entries (suc n) i page mem = zero_entries n (i + 1) page (put mem (slot page i) 0)

unfoldable pub vmm_zero_page : ℕ → (ℕ → ℕ) → (ℕ → ℕ)
vmm_zero_page page mem = zero_entries entries_per_table 0 page mem

abbrev pub upper_indices : ℕ → List ℕ
upper_indices vaddr = idx_pml4 vaddr ∷ idx_pdpt vaddr ∷ idx_pd vaddr ∷ []

-- the end of `vmm_query_page`; `none` is a mapping that is not written
unfoldable pub read_entry : ℕ → (ℕ → ℕ) → ℕ → MapResult × Option Mapping
read_entry vaddr mem pt =
    let e = mem (slot pt (idx_pt vaddr)) in
    if not (has e pte_present) then (not_found, none) else (
      map_ok,
      some (record {
        vaddr = vaddr;
        paddr = bit_and e pte_addr_mask;
        flags = bit_and e (not64 pte_addr_mask);
      }),
    )

module _ {W : Type 0} where
  unfoldable pub table_from_phys : Space W → ℕ → ℕ
  table_from_phys space paddr = elim (space.phys_to_virt) [
    | none ↦ 0
    | some to ↦ if not (vmm_is_aligned_4k paddr) then 0 else to paddr
  ]

  unfoldable pub vmm_space_init :
      Option (Space W)
      → ℕ
      → Option (W → ℕ × W)
      → Option (ℕ → W → W)
      → Option (ℕ → ℕ)
      → MapResult × Option (Space W)
  vmm_space_init none root_paddr alloc free to = (inval, none)
  vmm_space_init (some space) root_paddr alloc free none = (inval, some space)
  vmm_space_init (some space) root_paddr alloc free (some to) =
      if not (vmm_is_aligned_4k root_paddr) then (inval, some space) else (
        map_ok,
        some (record {
          root_paddr = root_paddr;
          alloc_frame = alloc;
          free_frame = free;
          phys_to_virt = some to;
        }),
      )

  -- the case of a present entry: the next table, or the code to return
  unfoldable pub next_table : Space W → ℕ → MapResult ⊎ ℕ
  next_table space entry =
      if has entry pte_huge
      then inl exists
      else let next = table_from_phys space (bit_and entry pte_addr_mask) in
        if next == 0 then inl inval else inr next

  -- the new frame `paddr` as a table below table[index]
  unfoldable pub install_table : Space W → ℕ → ℕ → ℕ → Machine W → (MapResult ⊎ ℕ) × Machine W
  install_table space table index paddr k =
      let new_table = table_from_phys space paddr in
      if new_table == 0
      then elim (space.free_frame) [
        | none ↦ (inl inval, k)
        | some free ↦ (inl inval, record k { world = free paddr k.world })
      ]
      else (
        inr new_table,
        record k {
          mem =
              put (vmm_zero_page new_table k.mem) (slot table index)
                (bit_or (bit_or (bit_and paddr pte_addr_mask) pte_present) pte_writable);
        },
      )

  unfoldable pub get_or_alloc_next_table : Space W → ℕ → ℕ → Machine W → (MapResult ⊎ ℕ) × Machine W
  get_or_alloc_next_table space table index k =
      if has (k.mem (slot table index)) pte_present
      then (next_table space (k.mem (slot table index)), k)
      else elim (space.alloc_frame) [
        | none ↦ (inl nomem, k)
        | some alloc ↦
            let (new_paddr, world) = alloc k.world in
            if new_paddr == invalid_phys || not (vmm_is_aligned_4k new_paddr)
            then (inl nomem, record k { world = world })
            else install_table space table index new_paddr (record k { world = world })
      ]

  -- get_or_alloc_next_table at the indices `is` in turn, until one fails
  unfoldable pub alloc_down : Space W → List ℕ → ℕ → Machine W → (MapResult ⊎ ℕ) × Machine W
  alloc_down space [] table k = (inr table, k)
  alloc_down space (i ∷ is) table k =
      let (r, k') = get_or_alloc_next_table space table i k in
      elim r [ inl code ↦ (inl code, k') | inr next ↦ alloc_down space is next k' ]

  -- the entry of the page in its last table
  unfoldable pub set_entry : ℕ → ℕ → ℕ → ℕ → Machine W → MapResult × Machine W
  set_entry table index paddr flags k =
      if has (k.mem (slot table index)) pte_present then (exists, k) else (
        map_ok,
        record k {
          mem = put k.mem (slot table index) (
              bit_or (bit_or (bit_and paddr pte_addr_mask) pte_present)
                (bit_and flags allowed_flags));
        },
      )

  unfoldable pub vmm_map_page : Option (Space W) → ℕ → ℕ → ℕ → Machine W → MapResult × Machine W
  vmm_map_page none vaddr paddr flags k = (inval, k)
  vmm_map_page (some space) vaddr paddr flags k =
      if not (vmm_is_canonical vaddr)
        || not (vmm_is_aligned_4k vaddr)
        || not (vmm_is_aligned_4k paddr)
      then (inval, k)
      else let pml4 = table_from_phys space space.root_paddr in
        if pml4 == 0
        then (inval, k)
        else let (r, k') = alloc_down space (upper_indices vaddr) pml4 k in
          elim r [ inl code ↦ (code, k') | inr pt ↦ set_entry pt (idx_pt vaddr) paddr flags k' ]

  -- One level of the walk in `vmm_query_page` and `vmm_unmap_page`: the table below `entry`.
  unfoldable pub table_below : Space W → ℕ → MapResult ⊎ ℕ
  table_below space entry =
      if not (has entry pte_present) || has entry pte_huge
      then inl not_found
      else let next = table_from_phys space (bit_and entry pte_addr_mask) in
        if next == 0 then inl inval else inr next

  unfoldable pub walk_down : Space W → (ℕ → ℕ) → List ℕ → ℕ → MapResult ⊎ ℕ
  walk_down space mem [] table = inr table
  walk_down space mem (i ∷ is) table = elim (table_below space (mem (slot table i))) [
    | inl code ↦ inl code
    | inr next ↦ walk_down space mem is next
  ]

  -- the table that holds the entry of `vaddr`, or the code to return
  unfoldable pub walk : Space W → (ℕ → ℕ) → ℕ → MapResult ⊎ ℕ
  walk space mem vaddr =
      let pml4 = table_from_phys space space.root_paddr in
      if pml4 == 0 then inl inval else walk_down space mem (upper_indices vaddr) pml4

  -- The caller's `out` is not null.
  unfoldable pub vmm_query_page : Option (Space W) → ℕ → Machine W → MapResult × Option Mapping
  vmm_query_page none vaddr k = (inval, none)
  vmm_query_page (some space) vaddr k =
      if not (vmm_is_canonical vaddr) || not (vmm_is_aligned_4k vaddr)
      then (inval, none)
      else elim (walk space k.mem vaddr) [
        | inl code ↦ (code, none)
        | inr pt ↦ read_entry vaddr k.mem pt
      ]

  -- the end of `vmm_unmap_page`
  unfoldable pub clear_entry : ℕ → ℕ → Machine W → MapResult × Machine W
  clear_entry vaddr pt k =
      let p = slot pt (idx_pt vaddr) in
      if not (has (k.mem p) pte_present)
      then (not_found, k)
      else (map_ok, record k { mem = put k.mem p 0; invalidated = vaddr ∷ k.invalidated })

  unfoldable pub vmm_unmap_page : Option (Space W) → ℕ → Machine W → MapResult × Machine W
  vmm_unmap_page none vaddr k = (inval, k)
  vmm_unmap_page (some space) vaddr k =
      if not (vmm_is_canonical vaddr) || not (vmm_is_aligned_4k vaddr)
      then (inval, k)
      else elim (walk space k.mem vaddr) [ inl code ↦ (code, k) | inr pt ↦ clear_entry vaddr pt k ]
