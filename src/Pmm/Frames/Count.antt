-- ===== src/Pmm/Frames/Count.antt =====
-- Counting the clear bits of a range of frames, the specification of `free_frames`.
use m.Prelude.{
  ℕ, zero, suc, ◌+◌, ◌≤◌, ◌<◌, ◌≡◌, refl, Bool, true, false, ◌||◌, arith, ◌==◌, if◌then◌else◌,
}
use native.Mathlib.Decide.{ℕ_discrete}

-- how many of the frames below `n` are free
unfoldable pub count_free : (ℕ → Bool) → ℕ → ℕ
count_free used zero = 0
count_free used (suc n) = count_free used n + (if used n then 0 else 1)

pub count_free-le : (used : ℕ → Bool) (n : ℕ) → count_free used n ≤ n
unfolding count_free
count_free-le used zero = omega arith
count_free-le used (suc n) = ground (arith, count_free-le used n)

pub count_free-congr :
    (p q : ℕ → Bool) (n : ℕ) → ((i : ℕ) → i < n → p i ≡ q i) → count_free p n ≡ count_free q n
unfolding count_free
count_free-congr p q zero h = refl
count_free-congr p q (suc n) h =
    rw (h n (omega arith), count_free-congr p q n (λ i hi. h i (omega arith)))

-- One free frame that becomes used lowers the count by one.
pub count_free-take :
    (p q : ℕ → Bool) (n i : ℕ)
    → i < n
    → p i ≡ false
    → ((j : ℕ) → q j ≡ (i == j || p j))
    → count_free p n ≡ suc (count_free q n)
unfolding count_free
count_free-take p q zero i hi hp hq = absurd (omega arith)
count_free-take p q (suc n) i hi hp hq = elim (ℕ_discrete i n) [
  | yes e ↦ ground (arith, hq n, count_free-congr p q n λ j hj. ground (arith, hq j))
  | no e ↦ ground (arith, hq n, count_free-take p q n i (omega arith) hp hq)
]

-- With every frame in use the count is 0.
pub count_free-none : (p : ℕ → Bool) (n : ℕ) → ((i : ℕ) → i < n → p i ≡ true) → count_free p n ≡ 0
unfolding count_free
count_free-none p zero h = refl
count_free-none p (suc n) h = ground (arith, h n, count_free-none p n (λ i hi. h i (omega arith)))
