-- ===== src/Prelude/Lists.antt =====
-- Lists measured, indexed and searched with native numbers and Boolean tests.
use Prim.Native.Nat.{ℕ, zero, suc, ◌+◌}
use mathlib.Core.Path.{◌≡◌, refl, ap}
use mathlib.Core.Logic.{◌↔◌, inl, inr}
use mathlib.Core.Bool.{Bool, true, false, not, ◌&&◌, ◌||◌}
use mathlib.Core.List.{List, [], ◌∷◌, ◌++◌, map}
use mathlib.Core.Option.{Option, none, some}
use native.Mathlib.Omega.{arith}
use mintpool.Prelude.Tests.{if◌then◌else◌, Bool-cases}

module _ {ℓ} {A : Type ℓ} where
  abbrev pub length : List A → ℕ
  length [] = 0
  length (x ∷ xs) = suc (length xs)

  abbrev pub get_elem? : List A → ℕ → Option A
  get_elem? [] i = none
  get_elem? (x ∷ xs) zero = some x
  get_elem? (x ∷ xs) (suc i) = get_elem? xs i

  abbrev pub take : ℕ → List A → List A
  take zero xs = []
  take (suc n) [] = []
  take (suc n) (x ∷ xs) = x ∷ take n xs

  -- `Iterator::any`, `Iterator::all` and `Iterator::filter` with a Boolean test.
  abbrev pub any : (A → Bool) → List A → Bool
  any p [] = false
  any p (x ∷ xs) = p x || any p xs

  abbrev pub all : (A → Bool) → List A → Bool
  all p [] = true
  all p (x ∷ xs) = p x && all p xs

  abbrev pub filter : (A → Bool) → List A → List A
  filter p [] = []
  filter p (x ∷ xs) = if p x then x ∷ filter p xs else filter p xs

  -- `Iterator::find`.
  abbrev pub find : (A → Bool) → List A → Option A
  find p [] = none
  find p (x ∷ xs) = if p x then some x else find p xs

  abbrev pub All {κ} : (A → Type κ) → List A → Type κ
  All P [] = Unit
  All P (x ∷ xs) = P x × All P xs

  pub length-append : (xs ys : List A) → length (xs ++ ys) ≡ length xs + length ys
  length-append [] ys = omega arith
  length-append (x ∷ xs) ys = omega (arith, length-append xs ys)

module _ {ℓ κ} {A : Type ℓ} {B : Type κ} where
  abbrev pub filter_map : (A → Option B) → List A → List B
  filter_map f [] = []
  filter_map f (x ∷ xs) =
      let rest = filter_map f xs in elim (f x) [ none ↦ rest | some y ↦ y ∷ rest ]

  abbrev pub zip : List A → List B → List (A × B)
  zip [] ys = []
  zip (x ∷ xs) [] = []
  zip (x ∷ xs) (y ∷ ys) = (x, y) ∷ zip xs ys

module _ {ℓ κ μ} {A : Type ℓ} (P : A → Type κ) (Q : A → Type μ) where
  pub All-mono : ((x : A) → P x → Q x) → (xs : List A) → All P xs → All Q xs
  All-mono f [] h = tt
  All-mono f (x ∷ xs) h = (f x h.0, All-mono f xs h.1)

module _ {ℓ κ} {A : Type ℓ} (P : A → Type κ) where
  pub All-append : (xs ys : List A) → All P xs → All P ys → All P (xs ++ ys)
  All-append [] ys h k = k
  All-append (x ∷ xs) ys h k = (h.0, All-append xs ys h.1 k)

module _ {ℓ κ μ} {A : Type ℓ} (P : A → Type κ) (Q : Option A → Type μ) where
  -- What holds of the first find, or of none, where all have P.
  pub All-find :
      (p : A → Bool) (xs : List A)
      → All P xs
      → Q none
      → ((x : A) → P x → Q (some x))
      → Q (find p xs)
  All-find p [] h missing found = missing
  All-find p (x ∷ xs) h missing found = elim (Bool-cases (p x)) [
    | inl here ↦ rw here (found x h.0)
    | inr later ↦ rw later (All-find p xs h.1 missing found)
  ]

module _ {ℓ} {A : Type ℓ} where
  pub filter_ext :
      (p q : A → Bool) → ((x : A) → p x ≡ q x) → (xs : List A) → filter p xs ≡ filter q xs
  filter_ext p q h [] = refl
  filter_ext p q h (x ∷ xs) = rw (h x, filter_ext p q h xs)

  pub filter-keep :
      (p : A → Bool) (x : A) (xs : List A) → p x ≡ true → filter p (x ∷ xs) ≡ x ∷ filter p xs
  filter-keep p x xs h = rw h

  pub filter-drop :
      (p : A → Bool) (x : A) (xs : List A) → p x ≡ false → filter p (x ∷ xs) ≡ filter p xs
  filter-drop p x xs h = rw h

  pub find-here : (p : A → Bool) (x : A) (xs : List A) → p x ≡ true → find p (x ∷ xs) ≡ some x
  find-here p x xs h = rw h

  pub find-later : (p : A → Bool) (x : A) (xs : List A) → p x ≡ false → find p (x ∷ xs) ≡ find p xs
  find-later p x xs h = rw h

  pub filter-filter :
      (p q : A → Bool) (xs : List A) → filter p (filter q xs) ≡ filter (λ x. p x && q x) xs
  filter-filter p q [] = refl
  filter-filter p q (x ∷ xs) =
      let rest = filter-filter p q xs in
      elim (Bool-cases (q x)) [
        | inl y ↦ elim (Bool-cases (p x)) [
          | inl k ↦ rw (y, k) (ap (λ ys. x ∷ ys) rest)
          | inr d ↦ rw (y, d) rest
        ]
        | inr n ↦ elim (Bool-cases (p x)) [ inl k ↦ rw (n, k) rest | inr d ↦ rw (n, d) rest ]
      ]

  -- Elements changed to ones that the test drops are dropped.
  pub filter-map_when :
      (p q : A → Bool) (g : A → A)
      → ((x : A) → p (g x) ≡ false)
      → (xs : List A)
      → filter p (map (λ x. if q x then g x else x) xs) ≡ filter (λ x. p x && not (q x)) xs
  filter-map_when p q g h [] = refl
  filter-map_when p q g h (x ∷ xs) =
      let rest = filter-map_when p q g h xs in
      elim (Bool-cases (q x)) [
        | inl y ↦ elim (Bool-cases (p x)) [
          | inl k ↦ rw (y, h x, k) rest
          | inr d ↦ rw (y, h x, d) rest
        ]
        | inr n ↦ elim (Bool-cases (p x)) [
          | inl k ↦ rw (n, k) (ap (λ ys. x ∷ ys) rest)
          | inr d ↦ rw (n, d) rest
        ]
      ]

module _ {ℓ κ} {A : Type ℓ} {B : Type κ} where
  pub filter_map-keep :
      (f : A → Option B) (x : A) (y : B) (xs : List A)
      → f x ≡ some y
      → filter_map f (x ∷ xs) ≡ y ∷ filter_map f xs
  filter_map-keep f x y xs h = rw (h, filter_map)

module _ {ℓ} {A : Type ℓ} where
  pub any-false_iff : (p : A → Bool) (xs : List A) → (any p xs ≡ false) ↔ All (λ x. p x ≡ false) xs
  any-false_iff p [] = ((λ _. tt), (λ _. refl))
  any-false_iff p (x ∷ xs) =
      let rest = any-false_iff p xs in
      elim (Bool-cases (p x)) [
        | inl y ↦ ((λ h. cc (rw y at h)), (λ h. cc (y, h.0)))
        | inr n ↦ ((λ h. (n, rest.0 (rw n at h))), (λ h. rw n (rest.1 h.1)))
      ]
