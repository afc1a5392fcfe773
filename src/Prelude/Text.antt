-- ===== src/Prelude/Text.antt =====
-- Texts joined by colons, as `{:?}:{:?}:{:?}` makes them.
use mintpool.Prelude.Tests.{ltb, Bool-cases}
use Prim.Native.Nat.{ℕ, zero, suc, ◌/◌, ◌%◌, ◌<◌}
use Prim.Native.Char.{code}
use Prim.Native.String.{String, [], ◌∷◌, ◌++◌}
use mathlib.Core.Path.{◌≡◌, refl, sym, ap, ap₂, ◌∙◌}
use mathlib.Core.Logic.{◌≢◌, inl, inr}
use mintpool.Prelude.Decimal.{digit, show_fuel, show, code-digit_char}
use native.Mathlib.Omega.{arith}
use text.Mathlib.TextLemmas.{nil-append, cons-append, head-eq_of_cons-eq, tail-eq_of_cons-eq}

abbrev pub colon : ℕ
colon = 58

-- No character of the text is a colon.
abbrev pub HasNoColon : String → Type 0
HasNoColon [] = Unit
HasNoColon (c ∷ s) = (code c ≢ colon) × HasNoColon s

pub HasNoColon-append : (s t : String) → HasNoColon s → HasNoColon t → HasNoColon (s ++ t)
HasNoColon-append [] t h k = rw (nil-append t) k
HasNoColon-append (c ∷ s) t h k = rw (cons-append c s t) (h.0, HasNoColon-append s t h.1 k)

split_at :
    (a b r s : String)
    → HasNoColon a
    → HasNoColon b
    → a ++ (":" ∷ r) ≡ b ++ (":" ∷ s)
    → (a ≡ b) × (r ≡ s)
split_at [] [] r s ha hb e =
    (refl, tail-eq_of_cons-eq (sym (nil-append (":" ∷ r)) ∙ e ∙ nil-append (":" ∷ s)))
split_at [] (c ∷ b) r s ha hb e = absurd (
    hb.0 (
      ap code
        (sym (head-eq_of_cons-eq (sym (nil-append (":" ∷ r)) ∙ e ∙ cons-append c b (":" ∷ s))))))
split_at (c ∷ a) [] r s ha hb e = absurd (
    ha.0
      (ap code (head-eq_of_cons-eq (sym (cons-append c a (":" ∷ r)) ∙ e ∙ nil-append (":" ∷ s)))))
split_at (c ∷ a) (c' ∷ b) r s ha hb e =
    let e' = sym (cons-append c a (":" ∷ r)) ∙ e ∙ cons-append c' b (":" ∷ s) in
    let rest = split_at a b r s ha.1 hb.1 (tail-eq_of_cons-eq e') in
    (ap₂ (λ x y. x ∷ y) (head-eq_of_cons-eq e') rest.0, rest.1)

-- `{:?}:{:?}` with the texts filled in.
unfoldable pub join_colon : String → String → String
join_colon a r = a ++ (":" ++ r)

-- Up to the first colon, a text can be split in one way only.
pub join_colon-inj :
    (a b r s : String)
    → HasNoColon a
    → HasNoColon b
    → join_colon a r ≡ join_colon b s
    → (a ≡ b) × (r ≡ s)
unfolding join_colon
join_colon-inj a b r s ha hb e = split_at a b r s ha hb (sym (glue a r) ∙ e ∙ glue b s)
  where
    glue : (a r : String) → a ++ (":" ++ r) ≡ a ++ (":" ∷ r)
    glue a r = rw (cons-append ":" "" r, nil-append r)

digit-HasNoColon : (n : ℕ) → n < 10 → HasNoColon (digit n)
unfolding digit
digit-HasNoColon n h = ((λ e. absurd (omega (arith, code-digit_char n h, e))), tt)

pub show_fuel-HasNoColon : (f n : ℕ) → HasNoColon (show_fuel f n)
unfolding show_fuel
show_fuel-HasNoColon zero n = digit-HasNoColon (n % 10) (omega arith)
show_fuel-HasNoColon (suc f) n = elim (Bool-cases (ltb n 10)) [
  | inl small ↦ rw small (digit-HasNoColon n (ground arith))
  | inr big ↦ rw big (
      HasNoColon-append (show_fuel f (n / 10)) (digit (n % 10)) (show_fuel-HasNoColon f (n / 10))
        (digit-HasNoColon (n % 10) (omega arith)))
]

pub show-HasNoColon : (n : ℕ) → HasNoColon (show n)
unfolding show
show-HasNoColon n = show_fuel-HasNoColon n n
