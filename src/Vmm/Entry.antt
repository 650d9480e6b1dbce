-- ===== src/Vmm/Entry.antt =====
-- What the bits of a page table entry say.
use m.Prelude.{ℕ, ◌%◌, ◌^◌, ◌<◌, ◌≡◌, refl, ◌∙◌, ap, true, false, bit_and, bit_or, arith}
use m.Word.{not64}
use m.Word.Digits.{bit_and-zero}
use m.Word.Or.{bit_and_assoc, bit_and-bit_or, bit_or-zero, zero-bit_or, or_parity}
use m.Word.Mask.{bit_and_one, bit_and_frame}
use m.Vmm.{pte_present, pte_writable, pte_huge, pte_addr_mask, allowed_flags, has}

-- the entry of a page, with `f` bits of flags
abbrev pub entry_of : ℕ → ℕ → ℕ
entry_of paddr f = bit_or (bit_or (bit_and paddr pte_addr_mask) pte_present) f

entry-and :
    (p f c : ℕ)
    → bit_and (entry_of p f) c
      ≡ bit_or (bit_or (bit_and p (bit_and pte_addr_mask c)) (bit_and pte_present c)) (bit_and f c)
entry-and p f c =
    bit_and-bit_or (bit_or (bit_and p pte_addr_mask) pte_present) f c
    ∙ ap (λ k. bit_or k (bit_and f c))
        (bit_and-bit_or (bit_and p pte_addr_mask) pte_present c
          ∙ ap (λ k. bit_or k (bit_and pte_present c)) (bit_and_assoc p pte_addr_mask c))

pub entry-present : (p f : ℕ) → has (entry_of p f) pte_present ≡ true
entry-present p f = ground (
  arith,
  bit_and_one (entry_of p f),
  or_parity (bit_or (bit_and p pte_addr_mask) 1) f,
  or_parity (bit_and p pte_addr_mask) 1,
)

-- A mask that shares no bit with the address or the present bit leaves the flags.
flags_only :
    (p f c : ℕ)
    → bit_and pte_addr_mask c ≡ 0
    → bit_and pte_present c ≡ 0
    → bit_and (entry_of p f) c ≡ bit_and f c
flags_only p f c ha hp =
    entry-and p f c
    ∙ ap (λ k. bit_or (bit_or (bit_and p k) (bit_and pte_present c)) (bit_and f c)) ha
    ∙ ap (λ k. bit_or (bit_or (bit_and p 0) k) (bit_and f c)) hp
    ∙ ap (λ k. bit_or k (bit_and f c)) (bit_or-zero (bit_and p 0) ∙ bit_and-zero p)
    ∙ zero-bit_or (bit_and f c)

pub table_entry-small : (p : ℕ) → has (entry_of p pte_writable) pte_huge ≡ false
table_entry-small p = ground (arith, flags_only p pte_writable pte_huge refl refl)

-- The address of an entry is the page, below 2 ^ 52, that it was made for.
pub entry-addr :
    (p f : ℕ)
    → p % 4096 ≡ 0
    → p < 2 ^ 52
    → bit_and f pte_addr_mask ≡ 0
    → bit_and (entry_of p f) pte_addr_mask ≡ p
entry-addr p f aligned small none_in =
    entry-and p f pte_addr_mask
    ∙ ap (bit_or (bit_or (bit_and p pte_addr_mask) 0)) none_in
    ∙ bit_or-zero (bit_or (bit_and p pte_addr_mask) 0)
    ∙ bit_or-zero (bit_and p pte_addr_mask)
    ∙ omega (arith, bit_and_frame p small)

pub allowed-no_addr : (flags : ℕ) → bit_and (bit_and flags allowed_flags) pte_addr_mask ≡ 0
allowed-no_addr flags = bit_and_assoc flags allowed_flags pte_addr_mask ∙ bit_and-zero flags

-- The flags of an entry are the present bit and the flags it was made with.
pub entry-flags :
    (p flags : ℕ)
    → bit_and (entry_of p (bit_and flags allowed_flags)) (not64 pte_addr_mask)
      ≡ bit_or pte_present (bit_and flags allowed_flags)
entry-flags p flags =
    entry-and p (bit_and flags allowed_flags) (not64 pte_addr_mask)
    ∙ ap (λ k. bit_or (bit_or (bit_and p 0) 1) k)
        (bit_and_assoc flags allowed_flags (not64 pte_addr_mask))
    ∙ ap (λ k. bit_or (bit_or k 1) (bit_and flags allowed_flags)) (bit_and-zero p)
    ∙ ap (λ k. bit_or k (bit_and flags allowed_flags)) (zero-bit_or 1)
