-- ===== src/Prelude/Item.antt =====
-- The bounds on the items of a tree, `T: AsRef<[u8]> + Default + Clone + Ord`, with the laws that the
-- trait `Ord` asks of `cmp`.
use Prim.Native.Nat.{ℕ, compare, Ordering}
use Prim.Native.Nat.Ordering.{lt, eq, gt}
use mathlib.Core.Path.{◌≡◌, refl}
use mathlib.Core.List.{List, [], ◌∷◌}
use mathlib.Core.Bool.{Bool, true, false}
use native.Mathlib.Omega.{arith}

pub record IsOrder {ℓ} {A : Type ℓ} (cmp : A → A → Ordering) : Type ℓ where
  pub cmp_refl : (a : A) → cmp a a ≡ eq
  pub cmp_eq : (a b : A) → cmp a b ≡ eq → a ≡ b
  pub cmp_gt : (a b : A) → cmp a b ≡ gt → cmp b a ≡ lt
  pub cmp_lt : (a b : A) → cmp a b ≡ lt → cmp b a ≡ gt
  pub cmp_trans : (a b c : A) → cmp a b ≡ lt → cmp b c ≡ lt → cmp a c ≡ lt

pub record Item {ℓ} (A : Type ℓ) : Type ℓ where
  pub cmp : A → A → Ordering
  pub order : IsOrder cmp
  pub open order use *
  pub as_ref : A → List ℕ
  pub default : A

abbrev pub is_eq : Ordering → Bool
is_eq eq = true
is_eq _ = false

pub of_is_eq : {o : Ordering} → is_eq o ≡ true → o ≡ eq
of_is_eq {o = lt} h = cc
of_is_eq {o = eq} h = refl
of_is_eq {o = gt} h = cc

infix 50 ◌≺◌
abbrev pub ◌≺◌ {ℓ} : {A : Type ℓ} ⦃i : Item A⦄ → A → A → Type 0
◌≺◌ ⦃i⦄ a b = i.cmp a b ≡ lt

-- The derived `==` of an ordered item.
infix 50 ◌=?◌
abbrev pub ◌=?◌ {ℓ} : {A : Type ℓ} ⦃i : Item A⦄ → A → A → Bool
◌=?◌ ⦃i⦄ a b = is_eq (i.cmp a b)

pub compare-IsOrder : IsOrder compare
compare-IsOrder = ground arith

-- Numbers as items, for tests: one byte each.
instance abbrev pub nat_item : Item ℕ
nat_item = record { cmp = compare; order = compare-IsOrder; as_ref = λ n. n ∷ []; default = 0 }
