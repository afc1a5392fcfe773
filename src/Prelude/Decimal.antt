-- ===== src/Prelude/Decimal.antt =====
-- Decimal numbers as text, as `{:?}` and `to_string` print an unsigned integer.
use mintpool.Prelude.Tests.{ltb, Bool-cases, if◌then◌else◌}
use Prim.Native.Nat.{ℕ, zero, suc, ◌+◌, ◌/◌, ◌%◌, ◌≤◌, ◌<◌}
use Prim.Native.Char.{Char, code}
use Prim.Native.String.{String, [], ◌∷◌, ◌++◌, count}
use mathlib.Core.Path.{◌≡◌, refl, sym, ap, ◌∙◌}
use mathlib.Core.Logic.{◌≢◌, inl, inr}
use native.Mathlib.Omega.{arith}
use text.Mathlib.TextLemmas.{head-eq_of_cons-eq, append_inj, length-append, length-cons}

unfoldable pub digit_char : ℕ → Char
digit_char zero = "0"
digit_char (suc zero) = "1"
digit_char (suc (suc zero)) = "2"
digit_char (suc (suc (suc zero))) = "3"
digit_char (suc (suc (suc (suc zero)))) = "4"
digit_char (suc (suc (suc (suc (suc zero))))) = "5"
digit_char (suc (suc (suc (suc (suc (suc zero)))))) = "6"
digit_char (suc (suc (suc (suc (suc (suc (suc zero))))))) = "7"
digit_char (suc (suc (suc (suc (suc (suc (suc (suc zero)))))))) = "8"
digit_char _ = "9"

unfoldable pub digit : ℕ → String
unfolding digit_char
digit n = digit_char n ∷ []

-- The fuel bounds the number of digits.
unfoldable pub show_fuel : ℕ → ℕ → String
unfolding digit
show_fuel zero n = digit (n % 10)
show_fuel (suc f) n =
    let front = show_fuel f (n / 10) in if ltb n 10 then digit n else front ++ digit (n % 10)

-- A number in decimal; a number has at most as many digits as its value, and one.
unfoldable pub show : ℕ → String
unfolding show_fuel
show n = show_fuel n n

show_run : show 7777777 ≡ "7777777"
unfolding show
show_run = refl

pub code-digit_char : (n : ℕ) → n < 10 → code (digit_char n) ≡ 48 + n
unfolding digit_char
code-digit_char zero h = refl
code-digit_char (suc zero) h = refl
code-digit_char (suc (suc zero)) h = refl
code-digit_char (suc (suc (suc zero))) h = refl
code-digit_char (suc (suc (suc (suc zero)))) h = refl
code-digit_char (suc (suc (suc (suc (suc zero))))) h = refl
code-digit_char (suc (suc (suc (suc (suc (suc zero)))))) h = refl
code-digit_char (suc (suc (suc (suc (suc (suc (suc zero))))))) h = refl
code-digit_char (suc (suc (suc (suc (suc (suc (suc (suc zero)))))))) h = refl
code-digit_char (suc (suc (suc (suc (suc (suc (suc (suc (suc zero))))))))) h = refl
code-digit_char (suc (suc (suc (suc (suc (suc (suc (suc (suc (suc k)))))))))) h =
    absurd (omega arith)

count-digit : (n : ℕ) → count (digit n) ≡ 1
unfolding digit
count-digit n = length-cons (digit_char n) []

digit_inj : (n m : ℕ) → n < 10 → m < 10 → digit n ≡ digit m → n ≡ m
unfolding digit
digit_inj n m hn hm e =
    omega (arith, code-digit_char n hn, code-digit_char m hm, ap code (head-eq_of_cons-eq e))

show_fuel-small : (f n : ℕ) → n < 10 → show_fuel f n ≡ digit n
unfolding show_fuel
show_fuel-small zero n h = let e : n % 10 ≡ n = omega arith in ap digit e
show_fuel-small (suc f) n h = ground arith

show_fuel-big : (f n : ℕ) → 10 ≤ n → show_fuel (suc f) n ≡ show_fuel f (n / 10) ++ digit (n % 10)
unfolding show_fuel
show_fuel-big f n h = ground arith

count_pos : (f n : ℕ) → 1 ≤ count (show_fuel f n)
unfolding show_fuel
count_pos zero n = omega (arith, count-digit (n % 10))
count_pos (suc f) n = elim (Bool-cases (ltb n 10)) [
  | inl small ↦ rw small (omega (arith, count-digit n))
  | inr big ↦
      rw (big, length-append (show_fuel f (n / 10)) (digit (n % 10)))
        (omega (arith, count_pos f (n / 10)))
]

-- One digit is not two or more.
one_or_more : (f n m k : ℕ) → show_fuel f n ++ digit m ≢ digit k
one_or_more f n m k e = absurd (
    omega (
      arith,
      ap count e,
      length-append (show_fuel f n) (digit m),
      count_pos f n,
      count-digit m,
      count-digit k,
    ))

same_digits :
    (f g n m : ℕ)
    → show_fuel f (n / 10) ++ digit (n % 10) ≡ show_fuel g (m / 10) ++ digit (m % 10)
    → (show_fuel f (n / 10) ≡ show_fuel g (m / 10)) × (n % 10 ≡ m % 10)
same_digits f g n m e =
    let front = show_fuel f (n / 10) in
    let front' = show_fuel g (m / 10) in
    let parts = append_inj e (
      omega (
        arith,
        ap count e,
        length-append front (digit (n % 10)),
        length-append front' (digit (m % 10)),
        count-digit (n % 10),
        count-digit (m % 10),
      )) in
    (parts.0, digit_inj (n % 10) (m % 10) (omega arith) (omega arith) parts.1)

show_fuel_inj : (f g n m : ℕ) → n ≤ f → m ≤ g → show_fuel f n ≡ show_fuel g m → n ≡ m
show_fuel_inj zero zero n m hn hm e = omega arith
show_fuel_inj zero (suc g) n m hn hm e = elim (Bool-cases (ltb m 10)) [
  | inl q ↦
      digit_inj n m (omega arith) (ground arith)
        (sym (show_fuel-small zero n (omega arith)) ∙ e ∙ show_fuel-small (suc g) m (ground arith))
  | inr q ↦ absurd (
      one_or_more g (m / 10) (m % 10) n
        (sym (show_fuel-big g m (ground arith)) ∙ sym e ∙ show_fuel-small zero n (omega arith)))
]
show_fuel_inj (suc f) zero n m hn hm e = elim (Bool-cases (ltb n 10)) [
  | inl p ↦
      digit_inj n m (ground arith) (omega arith)
        (sym (show_fuel-small (suc f) n (ground arith)) ∙ e ∙ show_fuel-small zero m (omega arith))
  | inr p ↦ absurd (
      one_or_more f (n / 10) (n % 10) m
        (sym (show_fuel-big f n (ground arith)) ∙ e ∙ show_fuel-small zero m (omega arith)))
]
show_fuel_inj (suc f) (suc g) n m hn hm e = elim (Bool-cases (ltb n 10)) [
  | inl p ↦ elim (Bool-cases (ltb m 10)) [
    | inl q ↦ digit_inj n m (ground arith) (ground arith) (
        sym (show_fuel-small (suc f) n (ground arith))
        ∙ e
        ∙ show_fuel-small (suc g) m (ground arith))
    | inr q ↦ absurd (
        one_or_more g (m / 10) (m % 10) n (
          sym (show_fuel-big g m (ground arith))
          ∙ sym e
          ∙ show_fuel-small (suc f) n (ground arith)))
  ]
  | inr p ↦ elim (Bool-cases (ltb m 10)) [
    | inl q ↦ absurd (
        one_or_more f (n / 10) (n % 10) m
          (sym (show_fuel-big f n (ground arith)) ∙ e ∙ show_fuel-small (suc g) m (ground arith)))
    | inr q ↦
        let parts =
          same_digits f g n m
            (sym (show_fuel-big f n (ground arith)) ∙ e ∙ show_fuel-big g m (ground arith)) in
        let tens = show_fuel_inj f g (n / 10) (m / 10) (omega arith) (omega arith) parts.0 in
        omega (arith, parts.1, tens)
  ]
]

-- Different numbers are shown differently.
pub show_inj : (n m : ℕ) → show n ≡ show m → n ≡ m
unfolding show
show_inj n m e = show_fuel_inj n m n m (omega arith) (omega arith) e
