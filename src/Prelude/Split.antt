-- ===== src/Prelude/Split.antt =====
-- `str::split` with a character.
use mintpool.Prelude.Tests.{◌==◌, if◌then◌else◌}
use Prim.Native.Nat.{ℕ}
use Prim.Native.Char.{Char, code}
use Prim.Native.String.{String, [], ◌∷◌}
use mathlib.Core.List.{List, [], ◌∷◌}

abbrev pub onto_first : Char → List String → List String
onto_first c [] = (c ∷ "") ∷ []
onto_first c (s ∷ rest) = (c ∷ s) ∷ rest

unfoldable pub split : ℕ → String → List String
split sep [] = "" ∷ []
split sep (c ∷ s) = let rest = split sep s in if code c == sep then "" ∷ rest else onto_first c rest
