-- ===== src/Vmm/Address.antt =====
-- Virtual addresses: which are canonical, and where their indices lie.
use m.Prelude.{
  ℕ, ◌+◌, ◌-◌, ◌*◌, ◌%◌, ◌^◌, ◌≤◌, ◌<◌, ◌≡◌, ◌↔◌, ◌⊎◌, true, false, inl, inr, Bool-cases, arith,
  ◌==◌, if◌then◌else◌, ltb,
}
use m.Word.{shr}
use m.Word.Mask.{bit_and_one, bit_and_page_offset, bit_and_table_index}
use m.Vmm.{vmm_is_canonical, vmm_is_aligned_4k, idx_pml4, idx_pdpt, idx_pd, idx_pt}

-- A 64-bit address is canonical exactly if it lies in the lower or the upper 2 ^ 47 addresses.
pub vmm_is_canonical_iff :
    (vaddr : ℕ)
    → vaddr < 2 ^ 64
    → (vmm_is_canonical vaddr ≡ true) ↔ (vaddr < 2 ^ 47 ⊎ 2 ^ 64 - 2 ^ 47 ≤ vaddr)
unfolding vmm_is_canonical
vmm_is_canonical_iff vaddr h =
    rw (bit_and_one (shr vaddr 47)) (elim (Bool-cases (shr vaddr 47 % 2 == 0)) [
      | inl e ↦ rw e (λ low. ground arith, λ range. ground arith)
      | inr e ↦ rw e (λ high. ground arith, λ range. ground arith)
    ])

-- The address of a page in the upper half, with the sign that the low 48 bits give it.
abbrev pub sign_extended : ℕ → ℕ
sign_extended low = if ltb low (2 ^ 47) then low else low + (2 ^ 64 - 2 ^ 48)

-- A canonical, page-aligned 64-bit address is the sign extension of the 48 bits that its four indices
-- make up.
pub indices_determine :
    (vaddr : ℕ)
    → vaddr < 2 ^ 64
    → vmm_is_canonical vaddr ≡ true
    → vmm_is_aligned_4k vaddr ≡ true
    → vaddr
      ≡ sign_extended (
          2 ^ 39 * idx_pml4 vaddr
          + 2 ^ 30 * idx_pdpt vaddr
          + 2 ^ 21 * idx_pd vaddr
          + 2 ^ 12 * idx_pt vaddr)
unfolding vmm_is_aligned_4k
indices_determine vaddr h canonical aligned =
    rw
      (
        bit_and_table_index (shr vaddr 39),
        bit_and_table_index (shr vaddr 30),
        bit_and_table_index (shr vaddr 21),
        bit_and_table_index (shr vaddr 12),
      )
      (elim ((vmm_is_canonical_iff vaddr h).0 canonical) [
        | inl low ↦ rw (sum, below low) (omega arith)
        | inr high ↦ rw (sum, above high) (omega (arith, offset, high))
      ])
  where
    offset : vaddr % 4096 ≡ 0
    offset = ground (arith, bit_and_page_offset vaddr)

    sum :
        2 ^ 39 * (shr vaddr 39 % 512)
          + 2 ^ 30 * (shr vaddr 30 % 512)
          + 2 ^ 21 * (shr vaddr 21 % 512)
          + 2 ^ 12 * (shr vaddr 12 % 512)
        ≡ vaddr % 2 ^ 48
    sum = omega (arith, offset)

    below : vaddr < 2 ^ 47 → ltb (vaddr % 2 ^ 48) (2 ^ 47) ≡ true
    below low = ground arith

    above : 2 ^ 64 - 2 ^ 47 ≤ vaddr → ltb (vaddr % 2 ^ 48) (2 ^ 47) ≡ false
    above high = ground arith
