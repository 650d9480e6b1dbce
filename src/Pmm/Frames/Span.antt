-- ===== src/Pmm/Frames/Span.antt =====
-- What the functions on address ranges do to a sound state.
use m.Prelude.{
  ℕ, zero, suc, ◌+◌, ◌-◌, ◌*◌, ◌/◌, ◌^◌, ◌≤◌, ◌<◌, ◌≡◌, Bool, some, not, ◌&&◌, ◌||◌, arith, inl,
  inr, ltb, leb, ◌==◌, Bool-cases,
}
use m.Word.{add64, sub64}
use m.Word.Mask.{bit_and_page_base}
use m.Pmm.Bitmap.{bitmap_test}
use m.Pmm.Frames.{
  PmmState, page_size, align_down, align_up, checked_add_u64, free_pages, free_span,
  mark_range_free, reserve_pages, reserve_span, mark_range_used,
}
use m.Pmm.Frames.Mark.{
  IsSound, Marked, Marked-refl, Marked-trans, Marked-widen, mark_frame_free-Marked,
  reserve_frame-Marked,
}

-- `a ≤ f < b`
abbrev pub between : ℕ → ℕ → ℕ → Bool
between a b f = leb a f && ltb f b

-- The loops, over the frames from `a` to `b`.
free_pages-Marked :
    (fuel a b addr stop : ℕ) {s : PmmState}
    → addr ≡ 4096 * a
    → stop ≡ 4096 * b
    → stop ≤ addr + fuel
    → b ≤ s.frame_count
    → IsSound s
    → Marked s (free_pages fuel addr stop s) (λ f. not (between a b f) && bitmap_test s.bitmap f)
unfolding free_pages
free_pages-Marked zero a b addr stop ha hs enough hb v = Marked-refl v _ λ f hf. ground arith
free_pages-Marked (suc fuel) a b addr stop {s} ha hs enough hb v =
    elim (Bool-cases (ltb addr stop)) [
      | inr done ↦ rw (done, free_pages) (Marked-refl v _ λ f hf. ground arith)
      | inl more ↦
          let first = mark_frame_free-Marked v (addr / page_size) in
          rw (more, free_pages)
            (Marked-trans first
              (free_pages-Marked fuel (a + 1) b (add64 addr page_size) stop
                (ground (arith, v.phys, v.range)) hs (ground (arith, v.phys, v.range))
                (omega (arith, first.frame_count)) first.sound)
              _ λ f hf e. rw e (ground arith))
    ]

reserve_pages-Marked :
    (fuel a b addr stop : ℕ) {s : PmmState}
    → addr ≡ 4096 * a
    → stop ≡ 4096 * b
    → stop ≤ addr + fuel
    → b ≤ s.frame_count
    → IsSound s
    → Marked s (reserve_pages fuel addr stop s) (λ f. between a b f || bitmap_test s.bitmap f)
unfolding reserve_pages
reserve_pages-Marked zero a b addr stop ha hs enough hb v = Marked-refl v _ λ f hf. ground arith
reserve_pages-Marked (suc fuel) a b addr stop {s} ha hs enough hb v =
    elim (Bool-cases (ltb addr stop)) [
      | inr done ↦ rw (done, reserve_pages) (Marked-refl v _ λ f hf. ground arith)
      | inl more ↦
          let first = reserve_frame-Marked v (addr / page_size) in
          rw (more, reserve_pages)
            (Marked-trans first
              (reserve_pages-Marked fuel (a + 1) b (add64 addr page_size) stop
                (ground (arith, v.phys, v.range)) hs (ground (arith, v.phys, v.range))
                (omega (arith, first.frame_count)) first.sound)
              _ λ f hf e. rw e (ground arith))
    ]

-- The count of ignored frames is no part of what a state marks.
module _ {s : PmmState} {n : ℕ} where
  IsSound-ignored : IsSound s → IsSound (record s { ignored_frames = n })
  IsSound-ignored v = record {
    bytes = v.bytes;
    room = v.room;
    phys = v.phys;
    range = v.range;
    counted = v.counted;
    total = v.total;
  }

  Marked-ignored :
      {t : PmmState} {used : ℕ → Bool}
      → Marked (record s { ignored_frames = n }) t used
      → Marked s t used
  Marked-ignored m = record {
    sound = m.sound;
    frame_count = m.frame_count;
    max_phys = m.max_phys;
    initialized = m.initialized;
    hint_le = m.hint_le;
    bits = m.bits;
  }

module _ {s : PmmState} (v : IsSound s) (a b start stop : ℕ) where
  -- A page-aligned range is cut off at the end of the managed memory.
  pub free_span-Marked :
      start ≡ 4096 * a
      → stop ≡ 4096 * b
      → Marked s (free_span s start stop) (λ f. not (between a b f) && bitmap_test s.bitmap f)
  unfolding free_span
  free_span-Marked ha hs = elim (Bool-cases (leb stop start)) [
    | inl empty ↦ rw empty (Marked-refl v _ λ f hf. ground arith)
    | inr some_pages ↦ elim (Bool-cases (leb s.max_phys start)) [
      | inl outside ↦ rw (some_pages, outside) (Marked-refl v _ λ f hf. ground (arith, v.phys))
      | inr inside ↦ elim (Bool-cases (ltb s.max_phys stop)) [
        | inl cut ↦
            rw (some_pages, inside, cut)
              (Marked-ignored (
                Marked-widen
                  (free_pages-Marked (s.max_phys - start) a s.frame_count start s.max_phys ha v.phys
                    (omega arith) (omega arith) (IsSound-ignored v))
                  λ f hf. ground (arith, v.phys)))
        | inr fits ↦
            rw (some_pages, inside, fits)
              (free_pages-Marked (stop - start) a b start stop ha hs (omega arith)
                (ground (arith, v.phys)) v)
      ]
    ]
  ]

  reserve_span-Marked :
      start ≡ 4096 * a
      → stop ≡ 4096 * b
      → Marked s (reserve_span s start stop) (λ f. between a b f || bitmap_test s.bitmap f)
  unfolding reserve_span
  reserve_span-Marked ha hs = elim (Bool-cases (leb stop start)) [
    | inl empty ↦ rw empty (Marked-refl v _ λ f hf. ground arith)
    | inr some_pages ↦ elim (Bool-cases (leb s.max_phys start)) [
      | inl outside ↦ rw (some_pages, outside) (Marked-refl v _ λ f hf. ground (arith, v.phys))
      | inr inside ↦ elim (Bool-cases (ltb s.max_phys stop)) [
        | inl cut ↦
            rw (some_pages, inside, cut)
              (Marked-widen
                (reserve_pages-Marked (s.max_phys - start) a s.frame_count start s.max_phys ha
                  v.phys (omega arith) (omega arith) v)
                λ f hf. ground (arith, v.phys))
        | inr fits ↦
            rw (some_pages, inside, fits)
              (reserve_pages-Marked (stop - start) a b start stop ha hs (omega arith)
                (ground (arith, v.phys)) v)
      ]
    ]
  ]

-- An aligned range as the code computes it, where no sum wraps.
pub align_down-page : (x : ℕ) → x < 2 ^ 64 → align_down x page_size ≡ 4096 * (x / 4096)
unfolding align_down
align_down-page x h = bit_and_page_base x h

align_up-page : (x : ℕ) → x ≤ 2 ^ 64 - 4096 → align_up x page_size ≡ 4096 * ((x + 4095) / 4096)
unfolding align_up
align_up-page x h = omega (arith, bit_and_page_base (sub64 (add64 x 4096) 1) (omega arith))

pub checked_add-fits : (a b : ℕ) → a + b < 2 ^ 64 → checked_add_u64 a b ≡ some (a + b)
unfolding checked_add_u64
checked_add-fits a b h = ground arith

-- the frame lies wholly inside the range of bytes
abbrev pub covers : ℕ → ℕ → ℕ → Bool
covers base length f = leb base (4096 * f) && leb (4096 * f + 4096) (base + length)

-- the frame and the range of bytes have a byte in common
abbrev pub touches : ℕ → ℕ → ℕ → Bool
touches base length f = ltb 0 length && ltb base (4096 * f + 4096) && ltb (4096 * f) (base + length)

module _ {s : PmmState} (v : IsSound s) (base length : ℕ) where
  -- A usable range frees exactly the frames that lie wholly inside it.
  pub mark_range_free-Marked :
      base + length ≤ 2 ^ 64 - 4096
      → Marked s
          (mark_range_free s base length)
          (λ f. not (covers base length f) && bitmap_test s.bitmap f)
  unfolding mark_range_free
  mark_range_free-Marked h = elim (Bool-cases (length == 0)) [
    | inl empty ↦ rw empty (Marked-refl v _ λ f hf. ground arith)
    | inr full ↦
        rw (full, checked_add-fits base length (omega arith))
          (Marked-widen
            (free_span-Marked v ((base + 4095) / 4096) ((base + length) / 4096) _ _
              (align_up-page base (omega arith)) (align_down-page (base + length) (omega arith)))
            λ f hf. ground arith)
  ]

  -- A range to reserve takes exactly the frames that it touches.
  pub mark_range_used-Marked :
      base + length ≤ 2 ^ 64 - 4096
      → Marked s
          (mark_range_used s base length)
          (λ f. touches base length f || bitmap_test s.bitmap f)
  unfolding mark_range_used
  mark_range_used-Marked h = elim (Bool-cases (length == 0)) [
    | inl empty ↦ rw empty (Marked-refl v _ λ f hf. ground arith)
    | inr full ↦
        rw (full, checked_add-fits base length (omega arith))
          (Marked-widen
            (reserve_span-Marked v (base / 4096) ((base + length + 4095) / 4096) _ _
              (align_down-page base (omega arith)) (align_up-page (base + length) (omega arith)))
            λ f hf. ground arith)
  ]
