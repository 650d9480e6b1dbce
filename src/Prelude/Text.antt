-- ===== src/Prelude/Text.antt =====
-- The bytes of a text in ASCII, which C writes in quotes.
use Prim.Native.Nat.{ℕ}
use Prim.Native.Char.{code}
use Prim.Native.String.{String, [], ◌∷◌}
use mathlib.Core.List.{List, [] as []ᴸ, ◌∷◌ as ◌∷ᴸ◌}

unfoldable pub text : String → List ℕ
text [] = []ᴸ
text (c ∷ s) = code c ∷ᴸ text s
