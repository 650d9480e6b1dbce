-- ===== src/Pmm/Api/Free.antt =====
-- `pmm_free_frame` gives back exactly a managed, page-aligned, non-null frame that is in use.
use m.Prelude.{
  ℕ, ◌+◌, ◌*◌, ◌/◌, ◌%◌, ◌≤◌, ◌<◌, ◌≡◌, ◌≢◌, sym, ◌∙◌, ap, ◌⊎◌, inr, true, false, not, ◌&&◌, some,
  arith, ◌==◌,
}
use native.Mathlib.Decide.{dec_lt}
use m.Word.Mask.{bit_and_page_offset}
use m.Pmm.Bitmap.{bitmap_test}
use m.Pmm.Frames.{PmmState, mark_frame_free}
use m.Pmm.Frames.Mark.{Marked, mark_frame_free-Marked, mark_frame_free-free_frames}
use m.Pmm.Api.{free_frame, pmm_free_frame, pmm_alloc_frame}
use m.Pmm.Api.Ready.{IsReady}
use m.Pmm.Api.Alloc.{IsLowest, alloc_frame-IsLowest}

-- What giving back the frame `f` does.
pub record Released (s : PmmState) (f : ℕ) (s' : PmmState) : Type 0 where
  pub ready : IsReady s'
  pub free_frames : s'.free_frames ≡ s.free_frames + 1
  pub frame_count : s'.frame_count ≡ s.frame_count
  pub bits :
      (g : ℕ)
      → g < s.frame_count
      → bitmap_test s'.bitmap g ≡ (not (f == g) && bitmap_test s.bitmap g)

mark_frame_free-Released :
    {s : PmmState} {f : ℕ}
    → IsReady s
    → f < s.frame_count
    → 0 < f
    → bitmap_test s.bitmap f ≡ true
    → Released s f (mark_frame_free s f)
mark_frame_free-Released {s} {f} v hf pos used = record {
  ready = record {
    sound = m.sound;
    ready = m.initialized ∙ v.ready;
    hint_le = omega (arith, m.hint_le, v.hint_le, m.frame_count);
    below = λ g hg.
        m.bits g (omega (arith, counts, hf))
        ∙ ground (arith, v.below g (omega (arith, m.hint_le)), counts);
    null_used = m.bits 0 (omega arith) ∙ ground (arith, v.null_used);
  };
  free_frames = counts.0;
  frame_count = m.frame_count;
  bits = m.bits;
}
  where
    m : Marked s (mark_frame_free s f) (λ g. not (f == g) && bitmap_test s.bitmap g)
    m = mark_frame_free-Marked v.sound f

    counts :
        ((mark_frame_free s f).free_frames ≡ s.free_frames + 1)
        × ((mark_frame_free s f).next_hint ≤ f)
    counts =
        mark_frame_free-free_frames s f hf
          (omega (arith, v.sound.total, v.sound.phys, v.sound.range)) used

-- Freeing a managed frame other than frame 0 that is in use succeeds, clears that frame's bit and no
-- other, raises the free count by one and keeps the invariant.
pub free_frame-Released :
    {s : PmmState} (f : ℕ)
    → IsReady s
    → f < s.frame_count
    → 0 < f
    → bitmap_test s.bitmap f ≡ true
    → (s' : PmmState) × (pmm_free_frame (some s) (4096 * f) ≡ (true, some s')) × Released s f s'
unfolding pmm_free_frame free_frame
free_frame-Released {s} f v hf pos used = (
  mark_frame_free s f,
  ground (arith, v.ready, v.sound.phys, bit_and_page_offset (4096 * f), number, used),
  mark_frame_free-Released v hf pos used,
)
  where
    number : 4096 * f / 4096 ≡ f
    number = omega arith

-- The four reasons to refuse: an address inside a page, address 0, an address beyond the managed
-- memory, and a frame that is free already. Then the call fails and changes nothing.
pub free_frame-rejects :
    {s : PmmState} (phys_addr : ℕ)
    → (phys_addr % 4096 ≢ 0)
      ⊎ (phys_addr ≡ 0)
      ⊎ (s.max_phys ≤ phys_addr)
      ⊎ (bitmap_test s.bitmap (phys_addr / 4096) ≡ false)
    → pmm_free_frame (some s) phys_addr ≡ (false, some s)
unfolding pmm_free_frame free_frame
free_frame-rejects phys_addr h = ground (arith, bit_and_page_offset phys_addr)

-- A frame just given back cannot be given back again.
pub free-free :
    {s s' : PmmState} (f : ℕ)
    → Released s f s'
    → f < s.frame_count
    → pmm_free_frame (some s') (4096 * f) ≡ (false, some s')
free-free {s} {s'} f r hf =
    free_frame-rejects (4096 * f) (inr (inr (inr (ap (bitmap_test s'.bitmap) number ∙ clear))))
  where
    number : 4096 * f / 4096 ≡ f
    number = omega arith

    clear : bitmap_test s'.bitmap f ≡ false
    clear = r.bits f hf ∙ ground arith

lowest_unique : {s : PmmState} {f g : ℕ} → IsLowest s f → IsLowest s g → f ≡ g
lowest_unique {f} {g} l k = elim (dec_lt f g) [
  | yes p ↦ cc (k.before f p, l.clear)
  | no n ↦ elim (dec_lt g f) [ yes p ↦ cc (l.before g p, k.clear) | no n' ↦ omega arith ]
]

-- Freeing the frame just allocated restores every bit and the free count, and the next allocation
-- returns the same address.
pub alloc-free-alloc :
    {s : PmmState}
    → IsReady s
    → 0 < s.free_frames
    → (f : ℕ) × (s₁ : PmmState) × (s₂ : PmmState) × (pmm_alloc_frame (some s) ≡ (4096 * f, some s₁))
      × (pmm_free_frame (some s₁) (4096 * f) ≡ (true, some s₂))
      × IsReady s₂
      × (s₂.free_frames ≡ s.free_frames)
      × ((g : ℕ) → g < s.frame_count → bitmap_test s₂.bitmap g ≡ bitmap_test s.bitmap g)
      × ((pmm_alloc_frame (some s₂)).0 ≡ 4096 * f)
alloc-free-alloc {s} v some_free =
    let (f, s₁, alloc, l, pos, t) = alloc_frame-IsLowest v some_free in
    let set : bitmap_test s₁.bitmap f ≡ true = t.bits f l.managed ∙ ground arith in
    let (s₂, free, r) =
      free_frame-Released f t.ready (omega (arith, l.managed, t.frame_count)) pos set in
    let same : (g : ℕ) → g < s.frame_count → bitmap_test s₂.bitmap g ≡ bitmap_test s.bitmap g =
      λ g hg. r.bits g (omega (arith, t.frame_count)) ∙ ground (arith, t.bits g hg, l.clear) in
    let (f', s₃, alloc', l', pos', t') =
      alloc_frame-IsLowest r.ready (omega (arith, r.free_frames)) in
    let lowest : IsLowest s f' = record {
      managed = omega (arith, l'.managed, r.frame_count, t.frame_count);
      clear = sym (same f' (omega (arith, l'.managed, r.frame_count, t.frame_count))) ∙ l'.clear;
      before = λ g hg.
          sym (same g (omega (arith, l'.managed, r.frame_count, t.frame_count))) ∙ l'.before g hg;
    } in
    (
      f,
      s₁,
      s₂,
      alloc,
      free,
      r.ready,
      omega (arith, r.free_frames, t.free_frames),
      same,
      ap (λ x. x.0) alloc' ∙ ap (λ (x : ℕ). 4096 * x) (lowest_unique lowest l),
    )
