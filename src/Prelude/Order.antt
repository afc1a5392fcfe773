-- ===== src/Prelude/Order.antt =====
-- The order of texts by the codes of their characters, as SQLite compares them.
use mintpool.Prelude.Tests.{ltb, if◌then◌else◌}
use Prim.Native.Char.{code}
use Prim.Native.String.{String, [], ◌∷◌}
use mathlib.Core.Bool.{Bool, true, false}

unfoldable pub leb_text : String → String → Bool
leb_text [] t = true
leb_text (c ∷ s) [] = false
leb_text (c ∷ s) (d ∷ t) =
    let rest = leb_text s t in
    if ltb (code c) (code d) then true else if ltb (code d) (code c) then false else rest
