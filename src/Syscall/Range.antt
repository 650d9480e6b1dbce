-- ===== src/Syscall/Range.antt =====
-- The check of user ranges decides containment, and the copy from user space obeys it.
use m.Prelude.{
  ℕ, zero, suc, ◌+◌, ◌^◌, ◌≤◌, ◌<◌, ◌≡◌, ◌≢◌, ◌↔◌, ◌⊎◌, refl, inl, inr, true, false, ◌||◌,
  Bool-cases, arith, ◌==◌, ◌∙◌,
}
use native.Mathlib.Decide.{ℕ_discrete}
use native.Mathlib.Nat.{add_assoc, add-zero}
use m.Memory.{Bytes, store}
use m.Memory.Copy.{moved, copy_forward-moved}
use m.Memory.{copy_forward}
use m.Syscall.{UserRegion, ok, mcsos_user_check_range, copy_bytes, mcsos_copy_from_user}

-- The `len` bytes from `addr` lie in the region, whose base is not 0. No sum wraps in it: it is over
-- the integers.
abbrev pub InRegion : UserRegion → ℕ → ℕ → Type 0
InRegion r addr len = (0 < r.base) × (r.base ≤ addr) × (addr + len ≤ r.limit)

-- For 64-bit values, a range passes the check exactly if it is empty or lies in the region.
pub user_check_range_iff :
    (r : UserRegion) (addr len : ℕ)
    → addr < 2 ^ 64
    → len < 2 ^ 64
    → r.limit < 2 ^ 64
    → (mcsos_user_check_range r addr len ≡ true) ↔ ((len ≡ 0) ⊎ InRegion r addr len)
unfolding mcsos_user_check_range
user_check_range_iff r addr len ha hl hr =
    (λ h. elim (ℕ_discrete len 0) [ yes e ↦ inl e | no n ↦ inr (ground arith) ], λ h. ground arith)

copy_bytes-forward :
    (n i d s : ℕ) (mem : Bytes) → copy_bytes n i d s mem ≡ copy_forward (d + i) (s + i) n mem
unfolding copy_bytes copy_forward
copy_bytes-forward zero i d s mem = refl
copy_bytes-forward (suc n) i d s mem =
    copy_bytes-forward n (i + 1) d s (store mem (d + i) (mem (s + i)))
    ∙ rw (← add_assoc d i 1, ← add_assoc s i 1)

module _ (r : UserRegion) (dst src len : ℕ) (mem : Bytes) (src64 : src < 2 ^ 64)
    (len64 : len < 2 ^ 64) (limit64 : r.limit < 2 ^ 64) where
  check-InRegion : len ≢ 0 → mcsos_user_check_range r src len ≡ true → InRegion r src len
  check-InRegion ne h = elim ((user_check_range_iff r src len src64 len64 limit64).0 h) [
    | inl e ↦ absurd (ne e)
    | inr inside ↦ inside
  ]

  -- Either the copy succeeds and its source lies in the user region, or no byte of memory changes; then
  -- the length is 0 or the code is an error.
  pub copy_from_user_checked :
      let (code, mem') = mcsos_copy_from_user r dst src len mem in
      ((code ≡ ok) × InRegion r src len) ⊎ ((mem' ≡ mem) × ((len ≡ 0) ⊎ (code ≢ ok)))
  unfolding mcsos_copy_from_user
  copy_from_user_checked = elim (ℕ_discrete len 0) [
    | yes e ↦ inr (ground arith, inl e)
    | no ne ↦
        let nonempty : (len == 0) ≡ false = ground arith in
        elim (Bool-cases (dst == 0 || src == 0)) [
          | inl null ↦ rw (nonempty, null) (inr (refl, inr (omega arith)))
          | inr given ↦ elim (Bool-cases (mcsos_user_check_range r src len)) [
            | inl inside ↦ rw (nonempty, given, inside) (inl (refl, check-InRegion ne inside))
            | inr outside ↦ rw (nonempty, given, outside) (inr (refl, inr (omega arith)))
          ]
        ]
  ]

  -- From a non-null source inside the user region to a non-null target that does not overlap it, the
  -- copy succeeds, copies the source as it was and writes nowhere else.
  pub copy_from_user-moved :
      dst ≢ 0
      → src ≢ 0
      → InRegion r src len
      → (dst + len ≤ src) ⊎ (src + len ≤ dst)
      → let (code, mem') = mcsos_copy_from_user r dst src len mem in
        (code ≡ ok) × ((a : ℕ) → mem' a ≡ moved dst src len mem mem a)
  unfolding mcsos_copy_from_user
  copy_from_user-moved dst_ne src_ne inside apart =
      let passes : mcsos_user_check_range r src len ≡ true =
        (user_check_range_iff r src len src64 len64 limit64).1 (inr inside) in
      (
        ground arith,
        λ a. elim (ℕ_discrete len 0) [
          | yes e ↦ unfold moved in ground arith
          | no ne ↦
              let given : (dst == 0 || src == 0) ≡ false = ground arith in
              let nonempty : (len == 0) ≡ false = ground arith in
              rw (nonempty, given, passes, copy_bytes-forward len 0 dst src mem, add-zero, add-zero)
                (copy_forward-moved dst src len mem a (weaken apart))
        ],
      )
    where
      weaken : (dst + len ≤ src) ⊎ (src + len ≤ dst) → (dst ≤ src) ⊎ (src + len ≤ dst)
      weaken (inl p) = inl (omega arith)
      weaken (inr p) = inr p
