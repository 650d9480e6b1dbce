-- ===== src/Heap/Packed.antt =====
-- Lists of blocks without empty blocks and without two free ones side by side.
use m.Prelude.{
  ℕ, ◌+◌, ◌-◌, ◌≤◌, ◌<◌, ◌≡◌, refl, sym, ◌∙◌, ap, subst, Bool, true, false, true≢false, ◌&&◌, [],
  ◌∷◌, ◌++◌, arith, ltb, Bool-cases, inl, inr,
}
use m.Heap.Spec.{Tiles, carve, join, release}

abbrev pub Packed : Tiles → Type 0
Packed [] = Unit {0}
Packed ((n, f) ∷ []) = 0 < n
Packed ((n, f) ∷ (k, g) ∷ xs) = (0 < n) × (f && g ≡ false) × Packed ((k, g) ∷ xs)

Packed-positive : (n : ℕ) (f : Bool) (xs : Tiles) → Packed ((n, f) ∷ xs) → 0 < n
Packed-positive n f [] h = h
Packed-positive n f (e ∷ xs) h = h.0

-- the first block gets another size, or is no longer free
Packed-first :
    (n m : ℕ) (f : Bool) (xs : Tiles) → 0 < m → Packed ((n, f) ∷ xs) → Packed ((m, f) ∷ xs)
Packed-first n m f [] h p = h
Packed-first n m f (e ∷ xs) h p = (h, p.1, p.2)

Packed-used : (n : ℕ) (f : Bool) (xs : Tiles) → Packed ((n, f) ∷ xs) → Packed ((n, false) ∷ xs)
Packed-used n f [] p = p
Packed-used n f (e ∷ xs) p = (p.0, refl, p.2)

Packed-carve : (w n : ℕ) (xs : Tiles) → 0 < w → Packed ((n, true) ∷ xs) → Packed (carve w n xs)
Packed-carve w n xs h p = elim (Bool-cases (ltb (w + 80) n)) [
  | inl e ↦ rw e (h, refl, Packed-first n (n - w - 48) true xs (ground arith) p)
  | inr e ↦ rw e (Packed-used n true xs p)
]

-- a used block before a list
Packed-cons_used : (k : ℕ) (xs : Tiles) → 0 < k → Packed xs → Packed ((k, false) ∷ xs)
Packed-cons_used k [] h p = h
Packed-cons_used k (e ∷ xs) h p = (h, refl, p)

-- any block before a carved one
Packed-cons_carve :
    (k w n : ℕ) (f : Bool) (xs : Tiles)
    → 0 < k
    → Packed (carve w n xs)
    → Packed ((k, f) ∷ carve w n xs)
Packed-cons_carve k w n f xs h = elim (Bool-cases (ltb (w + 80) n)) [
  | inl e ↦ rw e (λ p. (h, never f, p))
  | inr e ↦ rw e (λ p. (h, never f, p))
]
  where
    never : (f : Bool) → f && false ≡ false
    never true = refl
    never false = refl

pub Packed-append_carve :
    (l : Tiles) (w n : ℕ) (r : Tiles)
    → 0 < w
    → Packed (l ++ ((n, true) ∷ r))
    → Packed (l ++ carve w n r)
Packed-append_carve [] w n r h p = Packed-carve w n r h p
Packed-append_carve ((k, f) ∷ []) w n r h p =
    Packed-cons_carve k w n f r p.0 (Packed-carve w n r h p.2)
Packed-append_carve ((k, f) ∷ (j, g) ∷ l) w n r h p =
    (p.0, p.1, Packed-append_carve ((j, g) ∷ l) w n r h p.2)

-- What joins with a packed list behind it.
pub record IsJoined (n : ℕ) (r : Tiles) : Type 0 where
  pub size : ℕ
  pub rest : Tiles
  pub shape : join n true r ≡ (size, true) ∷ rest
  pub packed : Packed ((size, true) ∷ rest)

-- behind a free block of a packed list there is no free one
join-free :
    (n m : ℕ) (r : Tiles)
    → 0 < m
    → Packed ((n, true) ∷ r)
    → (join m true r ≡ (m, true) ∷ r) × Packed ((m, true) ∷ r)
join-free n m [] h p = (refl, h)
join-free n m ((k, false) ∷ r) h p = (refl, (h, refl, p.2))
join-free n m ((k, true) ∷ r) h p = elim (true≢false p.1) [ ]

join-IsJoined : (n : ℕ) (r : Tiles) → Packed ((n, false) ∷ r) → IsJoined n r
join-IsJoined n [] p = record { size = n; rest = []; shape = refl; packed = p }
join-IsJoined n ((k, false) ∷ r) p = record {
  size = n;
  rest = (k, false) ∷ r;
  shape = refl;
  packed = (p.0, refl, p.2);
}
join-IsJoined n ((k, true) ∷ r) p =
    let (shape, packed) = join-free k (n + 48 + k) r (omega arith) p.2 in
    record { size = n + 48 + k; rest = r; shape = shape; packed = packed }

Packed-join : (n : ℕ) (r : Tiles) → Packed ((n, false) ∷ r) → Packed (join n true r)
Packed-join n r p = let j = join-IsJoined n r p in subst Packed (sym j.shape) j.packed

-- a block and what joins with it, behind a free one
join-before :
    (j n : ℕ) (r : Tiles)
    → 0 < j
    → Packed ((n, false) ∷ r)
    → (m : ℕ) × (x : Tiles) × (join j true (join n true r) ≡ (m, true) ∷ x) × Packed ((m, true) ∷ x)
join-before j n r h p =
    let v = join-IsJoined n r p in
    let (shape, packed) = join-free v.size (j + 48 + v.size) v.rest (omega arith) v.packed in
    (j + 48 + v.size, v.rest, ap (join j true) v.shape ∙ shape, packed)

pub Packed-release :
    (l : Tiles) (n : ℕ) (r : Tiles) → Packed (l ++ ((n, false) ∷ r)) → Packed (release l n r)
Packed-release [] n r p = Packed-join n r p
Packed-release ((k, false) ∷ []) n r p =
    Packed-cons_used k (join n true r) p.0 (Packed-join n r p.2)
Packed-release ((k, true) ∷ []) n r p =
    let (m, x, shape, packed) = join-before k n r p.0 p.2 in subst Packed (sym shape) packed
Packed-release ((k, f) ∷ (j, false) ∷ []) n r p =
    (p.0, p.1, Packed-release ((j, false) ∷ []) n r p.2)
Packed-release ((k, f) ∷ (j, true) ∷ []) n r p =
    let (m, x, shape, packed) = join-before j n r p.2.0 p.2.2 in
    subst (λ z. Packed ((k, f) ∷ z)) (sym shape) (p.0, p.1, packed)
Packed-release ((k, f) ∷ (j, g) ∷ e ∷ l) n r p = (p.0, p.1, Packed-release ((j, g) ∷ e ∷ l) n r p.2)

-- What was free before is free again when the part that was taken comes back.
release-back :
    (l : Tiles) (n m : ℕ) (r x : Tiles)
    → Packed (l ++ ((n, true) ∷ r))
    → join m true x ≡ (n, true) ∷ r
    → release l m x ≡ l ++ ((n, true) ∷ r)
release-back [] n m r x p h = h
release-back ((k, false) ∷ []) n m r x p h = ap (λ z. (k, false) ∷ z) h
release-back ((k, true) ∷ []) n m r x p h = elim (true≢false p.1) [ ]
release-back ((k, f) ∷ (j, g) ∷ l) n m r x p h =
    ap (λ z. (k, f) ∷ z) (release-back ((j, g) ∷ l) n m r x p.2 h)

Packed-suffix :
    (l : Tiles) (n : ℕ) (r : Tiles) → Packed (l ++ ((n, true) ∷ r)) → Packed ((n, true) ∷ r)
Packed-suffix [] n r p = p
Packed-suffix ((k, f) ∷ []) n r p = p.2
Packed-suffix ((k, f) ∷ (j, g) ∷ l) n r p = Packed-suffix ((j, g) ∷ l) n r p.2

-- A taken block and what is left behind it, and that they come back as the block they were.
pub carve-release :
    (l : Tiles) (w n : ℕ) (r : Tiles)
    → 0 < w
    → w ≤ n
    → Packed (l ++ ((n, true) ∷ r))
    → (m : ℕ) × (x : Tiles) × (carve w n r ≡ (m, false) ∷ x)
      × (w ≤ m)
      × (release l m x ≡ l ++ ((n, true) ∷ r))
carve-release l w n r h fits p =
    let positive = Packed-positive n true r (Packed-suffix l n r p) in
    let whole = (join-free n n r positive (Packed-suffix l n r p)).0 in
    elim (Bool-cases (ltb (w + 80) n)) [
      | inl e ↦
          let size : w + 48 + (n - w - 48) ≡ n = ground arith in
          (
            w,
            (n - w - 48, true) ∷ r,
            rw e,
            omega arith,
            release-back l n w r ((n - w - 48, true) ∷ r) p (ap (λ k. join k true r) size ∙ whole),
          )
      | inr e ↦ (n, r, rw e, fits, release-back l n n r r p whole)
    ]
