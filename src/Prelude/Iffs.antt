-- ===== src/Prelude/Iffs.antt =====
-- Equivalences put together, and what holds of an option when it is given.
use mathlib.Core.Path.{◌≡◌, refl}
use mathlib.Core.Logic.{◌↔◌}
use mathlib.Core.Bool.{Bool, true, false, ◌&&◌}
use mathlib.Core.Option.{Option, none, some}

-- The option, if it is given, holds.
abbrev pub When {ℓ κ} : {A : Type ℓ} → Option A → (A → Type κ) → Type κ
When none P = Unit
When (some a) P = P a

pub iff_trans {ℓ κ μ} : {P : Type ℓ} {Q : Type κ} {R : Type μ} → P ↔ Q → Q ↔ R → P ↔ R
iff_trans h k = ((λ p. k.0 (h.0 p)), (λ r. h.1 (k.1 r)))

pub and_iff {ℓ κ} :
    {P : Type ℓ} {Q : Type κ} (a b : Bool)
    → (a ≡ true) ↔ P
    → (b ≡ true) ↔ Q
    → (a && b ≡ true) ↔ (P × Q)
and_iff true b h k = ((λ e. (h.0 refl, k.0 e)), (λ e. k.1 e.1))
and_iff false b h k = ((λ e. cc e), (λ e. h.1 e.0))

pub product_iff {ℓ κ μ ν} :
    {P : Type ℓ} {P' : Type κ} {Q : Type μ} {Q' : Type ν} → P ↔ P' → Q ↔ Q' → (P × Q) ↔ (P' × Q')
product_iff h k = ((λ e. (h.0 e.0, k.0 e.1)), (λ e. (h.1 e.0, k.1 e.1)))

pub When-iff {ℓ κ μ} :
    {A : Type ℓ} (o : Option A) (P : A → Type κ) (Q : A → Type μ)
    → ((a : A) → P a ↔ Q a)
    → When o P ↔ When o Q
When-iff none P Q h = ((λ _. tt), (λ _. tt))
When-iff (some a) P Q h = h a
