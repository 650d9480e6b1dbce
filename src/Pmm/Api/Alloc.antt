-- ===== src/Pmm/Api/Alloc.antt =====
-- `pmm_alloc_frame` finds the lowest free frame.
use m.Prelude.{
  ℕ, zero, suc, ◌+◌, ◌-◌, ◌*◌, ◌≤◌, ◌<◌, ◌≡◌, refl, ◌∙◌, ap, subst, true, false, ◌||◌, Option, none,
  some, List, arith, inl, inr, ltb, ◌==◌, Bool-cases,
}
use native.Mathlib.Decide.{ℕ_discrete, dec_lt}
use m.Pmm.Bitmap.{bitmap_test, find_free}
use m.Pmm.Frames.{PmmState, invalid_frame, mark_frame_used}
use m.Pmm.Frames.Count.{count_free-none}
use m.Pmm.Frames.Mark.{Marked, mark_frame_used-Marked, mark_frame_used-free_frames}
use m.Pmm.Api.{take_frame, alloc_frame, pmm_alloc_frame}
use m.Pmm.Api.Ready.{IsReady}

-- `f` is the first clear bit from `a` on, below `stop`
record IsFirst (bm : List ℕ) (a stop f : ℕ) : Type 0 where
  from : a ≤ f
  to : f < stop
  clear : bitmap_test bm f ≡ false
  before : (g : ℕ) → a ≤ g → g < f → bitmap_test bm g ≡ true

-- what the scan of `a` to `stop` tells: the first clear bit, or that there is none
abbrev Found : List ℕ → ℕ → ℕ → Option ℕ → Type 0
Found bm a stop none = (g : ℕ) → a ≤ g → g < stop → bitmap_test bm g ≡ true
Found bm a stop (some f) = IsFirst bm a stop f

Found-earlier :
    (bm : List ℕ) (a stop : ℕ) (r : Option ℕ)
    → bitmap_test bm a ≡ true
    → Found bm (a + 1) stop r
    → Found bm a stop r
Found-earlier bm a stop none used h =
    λ g from to. elim (ℕ_discrete g a) [ yes e ↦ rw e used | no n ↦ h g (omega arith) to ]
Found-earlier bm a stop (some f) used h = record {
  from = omega (arith, h.from);
  to = h.to;
  clear = h.clear;
  before =
      λ g from to. elim (ℕ_discrete g a) [ yes e ↦ rw e used | no n ↦ h.before g (omega arith) to ];
}

-- With enough fuel the scan is right.
find_free-Found :
    (fuel : ℕ) (bm : List ℕ) (a stop : ℕ)
    → stop ≤ a + fuel
    → Found bm a stop (find_free fuel bm a stop)
unfolding find_free
find_free-Found zero bm a stop h = λ g from to. absurd (omega arith)
find_free-Found (suc fuel) bm a stop h = elim (Bool-cases (ltb a stop)) [
  | inr out ↦ rw (out, find_free) λ g from to. absurd (ground arith)
  | inl more ↦ elim (Bool-cases (bitmap_test bm a)) [
    | inl used ↦
        rw (more, used, find_free)
          (Found-earlier bm a stop _ used (find_free-Found fuel bm (a + 1) stop (omega arith)))
    | inr clear ↦
        rw (more, clear, find_free)
          (record {
            from = omega arith;
            to = ground arith;
            clear = clear;
            before = λ g from to. absurd (omega arith);
          })
  ]
]

-- `f` is the lowest free frame of `s`
pub record IsLowest (s : PmmState) (f : ℕ) : Type 0 where
  pub managed : f < s.frame_count
  pub clear : bitmap_test s.bitmap f ≡ false
  pub before : (g : ℕ) → g < f → bitmap_test s.bitmap g ≡ true

-- What taking the lowest free frame does.
pub record Taken (s : PmmState) (f : ℕ) (s' : PmmState) : Type 0 where
  pub ready : IsReady s'
  pub free_frames : s'.free_frames + 1 ≡ s.free_frames
  pub frame_count : s'.frame_count ≡ s.frame_count
  pub bits :
      (g : ℕ) → g < s.frame_count → bitmap_test s'.bitmap g ≡ (f == g || bitmap_test s.bitmap g)

take_frame-Taken :
    {s : PmmState} {f : ℕ}
    → IsReady s
    → 0 < s.free_frames
    → IsLowest s f
    → ((take_frame s f).0 ≡ 4096 * f) × Taken s f (take_frame s f).1
unfolding take_frame
take_frame-Taken {s} {f} v some_free l = (
  omega (arith, l.managed, v.sound.phys, v.sound.range),
  record {
    ready = record {
      sound = record {
        bytes = m.sound.bytes;
        room = m.sound.room;
        phys = m.sound.phys;
        range = m.sound.range;
        counted = m.sound.counted;
        total = m.sound.total;
      };
      ready = m.initialized ∙ v.ready;
      hint_le = omega (arith, l.managed, m.frame_count);
      below = λ g hg.
          m.bits g (omega (arith, l.managed, v.sound.phys, v.sound.range))
          ∙ ground (arith, l.before g, l.managed, v.sound.phys, v.sound.range);
      null_used = m.bits 0 (omega (arith, l.managed)) ∙ ground (arith, v.null_used);
    };
    free_frames = mark_frame_used-free_frames s f l.managed some_free l.clear;
    frame_count = m.frame_count;
    bits = m.bits;
  },
)
  where
    m : Marked s (mark_frame_used s f) (λ g. f == g || bitmap_test s.bitmap g)
    m = mark_frame_used-Marked v.sound f

-- Below the hint nothing is free, so the scan from the hint finds the lowest free frame.
first-IsLowest :
    {s : PmmState} {f : ℕ} → IsReady s → IsFirst s.bitmap s.next_hint s.frame_count f → IsLowest s f
first-IsLowest {s} v h = record {
  managed = h.to;
  clear = h.clear;
  before = λ g hg. elim (dec_lt g s.next_hint) [
    | yes p ↦ v.below g p
    | no n ↦ h.before g (omega arith) hg
  ];
}

-- Frame 0 is in use, so it is never the lowest free one.
IsLowest-pos : {s : PmmState} {f : ℕ} → IsReady s → IsLowest s f → 0 < f
IsLowest-pos {f = zero} v l = absurd (cc (v.null_used, l.clear))
IsLowest-pos {f = suc f} v l = omega arith

-- If the scan from the hint finds nothing, no frame is free at all.
exhausted :
    {s : PmmState} → IsReady s → Found s.bitmap s.next_hint s.frame_count none → s.free_frames ≡ 0
exhausted {s} v h =
    v.sound.counted
    ∙ count_free-none (bitmap_test s.bitmap) s.frame_count
        λ g hg. elim (dec_lt g s.next_hint) [ yes p ↦ v.below g p | no n ↦ h g (omega arith) hg ]

-- While a frame is free, `pmm_alloc_frame` returns the address of the lowest one, which is not 0,
-- marks that frame used and no other, lowers the free count by one and keeps the invariant.
pub alloc_frame-IsLowest :
    {s : PmmState}
    → IsReady s
    → 0 < s.free_frames
    → (f : ℕ) × (s' : PmmState) × (pmm_alloc_frame (some s) ≡ (4096 * f, some s'))
      × IsLowest s f
      × (0 < f)
      × Taken s f s'
unfolding pmm_alloc_frame alloc_frame
alloc_frame-IsLowest {s} v some_free = go _ refl
  where
    scan : Option ℕ
    scan = find_free (s.frame_count - s.next_hint) s.bitmap s.next_hint s.frame_count

    found : Found s.bitmap s.next_hint s.frame_count scan
    found = find_free-Found _ s.bitmap s.next_hint s.frame_count (omega (arith, v.hint_le))

    go :
        (r : Option ℕ)
        → scan ≡ r
        → (f : ℕ) × (s' : PmmState) × (pmm_alloc_frame (some s) ≡ (4096 * f, some s'))
          × IsLowest s f
          × (0 < f)
          × Taken s f s'
    go none e = absurd (omega (arith, exhausted v (subst (Found _ _ _) e found)))
    go (some f) e =
        let l = first-IsLowest v (subst (Found _ _ _) e found) in
        let t = take_frame-Taken v some_free l in
        let nonzero : (s.free_frames == 0) ≡ false = ground arith in
        (
          f,
          (take_frame s f).1,
          simp (v.ready, nonzero, e) (ap (λ (a : ℕ). (a, some (take_frame s f).1)) t.0),
          l,
          IsLowest-pos v l,
          t.1,
        )

-- With no free frame, `pmm_alloc_frame` returns PMM_INVALID_FRAME and changes nothing.
pub alloc_frame-none :
    {s : PmmState} → s.free_frames ≡ 0 → pmm_alloc_frame (some s) ≡ (invalid_frame, some s)
unfolding pmm_alloc_frame alloc_frame
alloc_frame-none h = ground arith
