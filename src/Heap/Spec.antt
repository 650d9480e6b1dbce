-- ===== src/Heap/Spec.antt =====
-- What the heap promises: a list of blocks that tile its memory, each with a size and whether it is free.
use m.Prelude.{
  ℕ, ◌+◌, ◌-◌, Bool, true, false, ◌&&◌, Option, none, some, List, [], ◌∷◌, ltb, leb, if◌then◌else◌,
}

abbrev pub Tiles : Type 0
Tiles = List (ℕ × Bool)

-- a block of `n` bytes of which the first `w` are taken: the rest is a block if it is worth one
abbrev pub carve : ℕ → ℕ → Tiles → Tiles
carve w n xs = if ltb (w + 80) n then (w, false) ∷ (n - w - 48, true) ∷ xs else (n, false) ∷ xs

abbrev pub keep_first : ℕ × Bool → Option (ℕ × Tiles) → Option (ℕ × Tiles)
keep_first e none = none
keep_first e (some (p, ys)) = some (p, e ∷ ys)

-- Taking `w` bytes of the first free block that has them: the address of the payload, and what is left.
-- `at` is the address of the first block.
abbrev pub first_fit : ℕ → ℕ → Tiles → Option (ℕ × Tiles)
first_fit w at [] = none
first_fit w at ((n, f) ∷ xs) =
    if f && leb w n
    then some (at + 48, carve w n xs)
    else keep_first (n, f) (first_fit w (at + 48 + n) xs)

-- a block and the free blocks behind it as one
abbrev pub join : ℕ → Bool → Tiles → Tiles
join n f [] = (n, f) ∷ []
join n f ((k, true) ∷ xs) = join (n + 48 + k) f xs
join n f ((k, false) ∷ xs) = (n, f) ∷ (k, false) ∷ xs

-- Giving back a block of `n` bytes between the blocks `l` and `r`.
abbrev pub release : Tiles → ℕ → Tiles → Tiles
release [] n r = join n true r
release ((k, f) ∷ []) n r = if f then join k true (join n true r) else (k, f) ∷ join n true r
release (e ∷ e' ∷ l) n r = e ∷ release (e' ∷ l) n r

-- where the block behind `l` lies
abbrev pub end_of : ℕ → Tiles → ℕ
end_of at [] = at
end_of at ((n, f) ∷ xs) = end_of (at + 48 + n) xs
