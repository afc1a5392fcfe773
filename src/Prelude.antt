-- ===== src/Prelude.antt =====
-- The names that every module shares: the libraries' names passed on, Boolean tests on native
-- numbers and on texts, lists, results, and the interface of ordered, hashable items.
mod Tests
mod Lists
mod Results
mod Iffs
pub mod Item
pub mod Int
pub mod Decimal
pub mod Text
pub mod Order
pub mod Utf8
pub mod Split
pub use Tests.*
pub use Lists.*
pub use Results.*
pub use Iffs.*
pub use Prim.Native.Nat.{ℕ, zero, suc, ◌+◌, ◌-◌, ◌*◌, ◌/◌, ◌%◌, ◌^◌, ◌≤◌, ◌<◌, compare, min}
pub use Prim.Native.String.{String, ◌++◌ as str_append}
pub use mathlib.Core.Path.{◌≡◌, refl, sym, ap, ap₂, ◌∙◌, subst}
pub use mathlib.Core.Logic.{◌≢◌, ◌↔◌, ◌⊎◌, inl, inr}
pub use mathlib.Core.Bool.{Bool, true, false, not, ◌&&◌, ◌||◌}
pub use mathlib.Core.Option.{Option, none, some}
pub use mathlib.Core.List.{List, [], ◌∷◌, ◌++◌, map, append-nil, append_assoc, map-append}
pub use native.Mathlib.Omega.{arith}
pub use text.Mathlib.Text.{◌==◌ as str_eq}
pub use text.Mathlib.TextEquality.{eq_iff}
pub use text.Mathlib.TextPositions.{eq_refl}
