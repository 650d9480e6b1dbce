-- ===== src/Pmm/Frames/Mark.antt =====
-- The soundness of a state, and what the functions on single frames do to it.
use m.Prelude.{
  ℕ, suc, ◌+◌, ◌*◌, ◌^◌, ◌≤◌, ◌<◌, ◌≡◌, refl, ◌∙◌, Bool, true, false, not, ◌&&◌, ◌||◌, arith, leb,
  ◌==◌, Bool-cases, length, inl, inr,
}
use m.Pmm.Bitmap.{bitmap_test, bitmap_set, bitmap_clear}
use m.Pmm.Bitmap.Laws.{
  IsBytes, bitmap_set-IsBytes, bitmap_clear-IsBytes, length-bitmap_set, length-bitmap_clear,
  bitmap_test-set, bitmap_test-clear,
}
use m.Pmm.Frames.{
  PmmState, mark_frame_free, mark_frame_used, release_frame, occupy_frame, reserve_frame,
}
use m.Pmm.Frames.Count.{count_free, count_free-le, count_free-take}

-- The bitmap covers the frames, `max_phys` is their size and a 64-bit number, and the two counters
-- are the numbers of clear and of set bits.
pub record IsSound (s : PmmState) : Type 0 where
  pub bytes : IsBytes s.bitmap
  pub room : s.frame_count ≤ 8 * length s.bitmap
  pub phys : s.max_phys ≡ 4096 * s.frame_count
  pub range : s.max_phys < 2 ^ 64
  pub counted : s.free_frames ≡ count_free (bitmap_test s.bitmap) s.frame_count
  pub total : s.free_frames + s.used_frames ≡ s.frame_count

-- `s'` is `s` but for the bits, counters and hint, and `used` tells its bits.
pub record Marked (s s' : PmmState) (used : ℕ → Bool) : Type 0 where
  pub sound : IsSound s'
  pub frame_count : s'.frame_count ≡ s.frame_count
  pub max_phys : s'.max_phys ≡ s.max_phys
  pub initialized : s'.initialized ≡ s.initialized
  pub hint_le : s'.next_hint ≤ s.next_hint
  pub bits : (f : ℕ) → f < s.frame_count → bitmap_test s'.bitmap f ≡ used f

module _ {s : PmmState} (v : IsSound s) where
  pub Marked-refl :
      (used : ℕ → Bool)
      → ((f : ℕ) → f < s.frame_count → bitmap_test s.bitmap f ≡ used f)
      → Marked s s used
  Marked-refl used h = record {
    sound = v;
    frame_count = refl;
    max_phys = refl;
    initialized = refl;
    hint_le = omega arith;
    bits = h;
  }

  occupy-IsSound :
      (f : ℕ) → f < s.frame_count → bitmap_test s.bitmap f ≡ false → IsSound (occupy_frame s f)
  unfolding occupy_frame
  occupy-IsSound f hf clear = record {
    bytes = bitmap_set-IsBytes s.bitmap f v.bytes;
    room = omega (arith, v.room, length-bitmap_set s.bitmap f);
    phys = v.phys;
    range = v.range;
    counted = ground (arith, taken, v.counted);
    total = ground (arith, taken, v.counted, v.total, v.phys, v.range);
  }
    where
      taken :
          count_free (bitmap_test s.bitmap) s.frame_count
          ≡ suc (count_free (bitmap_test (bitmap_set s.bitmap f)) s.frame_count)
      taken =
          count_free-take _ _ s.frame_count f hf clear
            λ j. bitmap_test-set s.bitmap f j v.bytes (omega (arith, v.room))

  release-IsSound :
      (f : ℕ) → f < s.frame_count → bitmap_test s.bitmap f ≡ true → IsSound (release_frame s f)
  unfolding release_frame
  release-IsSound f hf set = record {
    bytes = bitmap_clear-IsBytes s.bitmap f v.bytes;
    room = omega (arith, v.room, length-bitmap_clear s.bitmap f);
    phys = v.phys;
    range = v.range;
    counted = ground (
      arith,
      given,
      v.counted,
      count_free-le (bitmap_test s.bitmap) s.frame_count,
      v.phys,
      v.range,
    );
    total = ground (
      arith,
      given,
      v.counted,
      v.total,
      v.phys,
      v.range,
      count_free-le (bitmap_test (bitmap_clear s.bitmap f)) s.frame_count,
    );
  }
    where
      cleared :
          (j : ℕ)
          → bitmap_test (bitmap_clear s.bitmap f) j ≡ (not (f == j) && bitmap_test s.bitmap j)
      cleared j = bitmap_test-clear s.bitmap f j v.bytes (omega (arith, v.room))

      given :
          count_free (bitmap_test (bitmap_clear s.bitmap f)) s.frame_count
          ≡ suc (count_free (bitmap_test s.bitmap) s.frame_count)
      given =
          count_free-take _ _ s.frame_count f hf (ground (arith, cleared f))
            λ j. ground (arith, cleared j)

  occupy-Marked :
      (f : ℕ)
      → f < s.frame_count
      → bitmap_test s.bitmap f ≡ false
      → Marked s (occupy_frame s f) (λ g. f == g || bitmap_test s.bitmap g)
  unfolding occupy_frame
  occupy-Marked f hf clear = record {
    sound = occupy-IsSound f hf clear;
    frame_count = refl;
    max_phys = refl;
    initialized = refl;
    hint_le = omega arith;
    bits = λ g _. bitmap_test-set s.bitmap f g v.bytes (omega (arith, v.room));
  }

  release-Marked :
      (f : ℕ)
      → f < s.frame_count
      → bitmap_test s.bitmap f ≡ true
      → Marked s (release_frame s f) (λ g. not (f == g) && bitmap_test s.bitmap g)
  unfolding release_frame
  release-Marked f hf set = record {
    sound = release-IsSound f hf set;
    frame_count = refl;
    max_phys = refl;
    initialized = refl;
    hint_le = ground arith;
    bits = λ g _. bitmap_test-clear s.bitmap f g v.bytes (omega (arith, v.room));
  }

  -- Marking a frame used sets its bit and keeps every other.
  pub mark_frame_used-Marked :
      (f : ℕ) → Marked s (mark_frame_used s f) (λ g. f == g || bitmap_test s.bitmap g)
  unfolding mark_frame_used
  mark_frame_used-Marked f = elim (Bool-cases (leb s.frame_count f)) [
    | inl out ↦ rw out (Marked-refl _ λ g hg. ground arith)
    | inr inside ↦ elim (Bool-cases (bitmap_test s.bitmap f)) [
      | inl set ↦ rw (inside, set) (Marked-refl _ λ g hg. ground arith)
      | inr clear ↦ rw (inside, clear) (occupy-Marked f (ground arith) clear)
    ]
  ]

  -- Marking a frame free clears its bit and keeps every other.
  pub mark_frame_free-Marked :
      (f : ℕ) → Marked s (mark_frame_free s f) (λ g. not (f == g) && bitmap_test s.bitmap g)
  unfolding mark_frame_free
  mark_frame_free-Marked f = elim (Bool-cases (leb s.frame_count f)) [
    | inl out ↦ rw out (Marked-refl _ λ g hg. ground arith)
    | inr inside ↦ elim (Bool-cases (bitmap_test s.bitmap f)) [
      | inl set ↦ rw (inside, set) (release-Marked f (ground arith) set)
      | inr clear ↦ rw (inside, clear) (Marked-refl _ λ g hg. ground arith)
    ]
  ]

  -- The reserved counter does not change what a state marks.
  pub reserve_frame-Marked :
      (f : ℕ) → Marked s (reserve_frame s f) (λ g. f == g || bitmap_test s.bitmap g)
  unfolding reserve_frame
  reserve_frame-Marked f = elim (Bool-cases (bitmap_test s.bitmap f)) [
    | inl set ↦ rw set (mark_frame_used-Marked f)
    | inr clear ↦ rw clear (recount (mark_frame_used-Marked f))
  ]
    where
      recount :
          {t : PmmState} {used : ℕ → Bool} {n : ℕ}
          → Marked s t used
          → Marked s (record t { reserved_frames = n }) used
      recount m = record {
        sound = record {
          bytes = m.sound.bytes;
          room = m.sound.room;
          phys = m.sound.phys;
          range = m.sound.range;
          counted = m.sound.counted;
          total = m.sound.total;
        };
        frame_count = m.frame_count;
        max_phys = m.max_phys;
        initialized = m.initialized;
        hint_le = m.hint_le;
        bits = m.bits;
      }

-- Two changes in a row.
pub Marked-trans :
    {s t u : PmmState} {p q : ℕ → Bool}
    → Marked s t p
    → Marked t u q
    → (r : ℕ → Bool) → ((f : ℕ) → f < s.frame_count → bitmap_test t.bitmap f ≡ p f → q f ≡ r f)
    → Marked s u r
Marked-trans m n r h = record {
  sound = n.sound;
  frame_count = n.frame_count ∙ m.frame_count;
  max_phys = n.max_phys ∙ m.max_phys;
  initialized = n.initialized ∙ m.initialized;
  hint_le = omega (arith, n.hint_le, m.hint_le);
  bits = λ f hf. n.bits f (omega (arith, m.frame_count)) ∙ h f hf (m.bits f hf);
}

-- The same change, with its bits told in another way.
pub Marked-widen :
    {s t : PmmState} {p q : ℕ → Bool}
    → Marked s t p
    → ((f : ℕ) → f < s.frame_count → p f ≡ q f)
    → Marked s t q
Marked-widen m h = record {
  sound = m.sound;
  frame_count = m.frame_count;
  max_phys = m.max_phys;
  initialized = m.initialized;
  hint_le = m.hint_le;
  bits = λ f hf. m.bits f hf ∙ h f hf;
}

module _ (s : PmmState) (f : ℕ) where
  -- A free frame that is taken leaves the counter one lower.
  pub mark_frame_used-free_frames :
      f < s.frame_count
      → 0 < s.free_frames
      → bitmap_test s.bitmap f ≡ false
      → (mark_frame_used s f).free_frames + 1 ≡ s.free_frames
  unfolding mark_frame_used
  mark_frame_used-free_frames hf some_free clear = ground arith

  -- A used frame that is given back leaves the counter one higher and the hint at most there.
  pub mark_frame_free-free_frames :
      f < s.frame_count
      → s.free_frames + 1 < 2 ^ 64
      → bitmap_test s.bitmap f ≡ true
      → ((mark_frame_free s f).free_frames ≡ s.free_frames + 1)
        × ((mark_frame_free s f).next_hint ≤ f)
  unfolding mark_frame_free
  mark_frame_free-free_frames hf small set = ground arith
