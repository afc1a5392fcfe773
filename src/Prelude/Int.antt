-- ===== src/Prelude/Int.antt =====
-- 64-bit signed integers, as SQLite stores them and as `as i64` makes them of a `u64`.
use mintpool.Prelude.Tests.{ltb, if◌then◌else◌}
use Prim.Native.Nat.{ℕ, ◌-◌, ◌≤◌, ◌<◌, ◌^◌, compare, Ordering}
use mathlib.Core.Path.{◌≡◌}
use mathlib.Core.Logic.{◌↔◌}
use mathlib.Core.Bool.{Bool, true, false}
use native.Mathlib.Omega.{arith}

-- `negsuc n` is -(n + 1).
pub data ℤ : Type 0 where
  pos : ℕ → ℤ
  negsuc : ℕ → ℤ

abbrev pub ltb_ℤ : ℤ → ℤ → Bool
ltb_ℤ (pos a) (pos b) = ltb a b
ltb_ℤ (pos a) (negsuc b) = false
ltb_ℤ (negsuc a) (pos b) = true
ltb_ℤ (negsuc a) (negsuc b) = ltb b a

abbrev pub eqb_ℤ : ℤ → ℤ → Bool
eqb_ℤ (pos a) (pos b) = elim (compare a b) [ Ordering.eq ↦ true | _ ↦ false ]
eqb_ℤ (pos a) (negsuc b) = false
eqb_ℤ (negsuc a) (pos b) = false
eqb_ℤ (negsuc a) (negsuc b) = elim (compare a b) [ Ordering.eq ↦ true | _ ↦ false ]

-- `v as i64` of a `u64`: two's complement.
unfoldable pub as_i64 : ℕ → ℤ
as_i64 v = if ltb v (2 ^ 63) then pos v else negsuc (2 ^ 64 - 1 - v)

pub as_i64_inj : (a b : ℕ) → a < 2 ^ 64 → b < 2 ^ 64 → as_i64 a ≡ as_i64 b → a ≡ b
unfolding as_i64
as_i64_inj a b ha hb e = ground arith

pub ltb-as_i64 : (a b : ℕ) → a < 2 ^ 63 → b < 2 ^ 63 → ltb_ℤ (as_i64 a) (as_i64 b) ≡ ltb a b
unfolding as_i64
ltb-as_i64 a b ha hb = ground arith

-- A `u64` from 2^63 up is negative as an `i64`, so it is below every smaller one.
pub as_i64_wraps :
    (a b : ℕ) → a < 2 ^ 63 → 2 ^ 63 ≤ b → b < 2 ^ 64 → ltb_ℤ (as_i64 a) (as_i64 b) ≡ false
unfolding as_i64
as_i64_wraps a b ha hb hb' = ground arith

pub eqb_ℤ_refl : (a : ℤ) → eqb_ℤ a a ≡ true
eqb_ℤ_refl (pos a) = ground arith
eqb_ℤ_refl (negsuc a) = ground arith

pub ltb_ℤ_irrefl : (a : ℤ) → ltb_ℤ a a ≡ false
ltb_ℤ_irrefl (pos a) = ground arith
ltb_ℤ_irrefl (negsuc a) = ground arith

pub ltb_ℤ_trans : (a b c : ℤ) → ltb_ℤ a b ≡ true → ltb_ℤ b c ≡ true → ltb_ℤ a c ≡ true
ltb_ℤ_trans a b c p q = ground arith

pub not_ltb_ℤ : (a b : ℤ) → ltb_ℤ a b ≡ true → ltb_ℤ b a ≡ false
not_ltb_ℤ a b h = ground arith

pub not_ltb_ℤ_trans : (a b c : ℤ) → ltb_ℤ b a ≡ false → ltb_ℤ c b ≡ false → ltb_ℤ c a ≡ false
not_ltb_ℤ_trans a b c h k = ground arith

pub of_eqb_ℤ : (a b : ℤ) → eqb_ℤ a b ≡ true → a ≡ b
of_eqb_ℤ a b h = ground arith

pub ltb-as_i64_iff :
    (a b : ℕ)
    → a < 2 ^ 63
    → b < 2 ^ 64
    → (ltb_ℤ (as_i64 a) (as_i64 b) ≡ true) ↔ ((a < b) × (b < 2 ^ 63))
unfolding as_i64
ltb-as_i64_iff a b ha hb = ground arith
