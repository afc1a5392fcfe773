-- ===== src/ChainList/Variables.antt =====
-- src/chain_list.rs: VARIABLE_REGEX, `\$\{(.+?)}`, and `is_match`.
use mintpool.Prelude.{◌==◌, Bool-cases, ==_iff}
use Prim.Native.Nat.{ℕ}
use Prim.Native.Char.{Char, code}
use Prim.Native.String.{String, [], ◌∷◌, ◌++◌}
use mathlib.Core.Path.{◌≡◌, refl, sym, ap, ap₂, ◌∙◌}
use mathlib.Core.Logic.{◌≢◌, ◌↔◌, inl, inr}
use mathlib.Core.Bool.{Bool, true, false, not, ◌&&◌, ◌||◌}
use native.Mathlib.Omega.{arith}
use text.Mathlib.TextEquality.{Char-path}
use text.Mathlib.TextLemmas.{nil-append, cons-append}

abbrev newline : ℕ
newline = 10

-- `.*?}`: no dot stands for a newline.
unfoldable pub ends : String → Bool
ends [] = false
ends (c ∷ s) = (code c == 125) || (not (code c == newline) && ends s)

-- `.+?}`
unfoldable pub closes : String → Bool
unfolding ends
closes [] = false
closes (c ∷ s) = not (code c == newline) && ends s

-- `\{.+?}`
unfoldable pub braced : String → Bool
unfolding closes
braced [] = false
braced (c ∷ s) = (code c == 123) && closes s

-- Whether the expression matches anywhere.
unfoldable pub has_variable : String → Bool
unfolding braced
has_variable [] = false
has_variable (c ∷ s) = ((code c == 36) && braced s) || has_variable s

abbrev pub HasNoNewline : String → Type 0
HasNoNewline [] = Unit
HasNoNewline (c ∷ s) = (code c ≢ newline) × HasNoNewline s

-- The text is not empty and on one line.
abbrev pub IsName : String → Type 0
IsName [] = ⊥
IsName (c ∷ s) = (code c ≢ newline) × HasNoNewline s

-- A name in `${ }` stands somewhere in the text.
pub record HasVariable (s : String) : Type 0 where
  pub before : String
  pub name : String
  pub after : String
  pub is_name : IsName name
  pub parts : s ≡ before ++ ("$" ∷ ("{" ∷ (name ++ ("}" ∷ after))))

and_true : (a b : Bool) → a && b ≡ true → (a ≡ true) × (b ≡ true)
and_true true b h = (refl, h)
and_true false b h = cc h

on_line : (c : Char) → not (code c == newline) ≡ true → code c ≢ newline
on_line c h = ground arith

same_char : (c d : Char) → (code c == code d) ≡ true → c ≡ d
same_char c d h = Char-path c d ((==_iff (code c) (code d)).0 h)

ends-parts :
    (s : String)
    → ends s ≡ true
    → (name : String) × (after : String) × HasNoNewline name × (s ≡ name ++ ("}" ∷ after))
unfolding ends
ends-parts [] h = cc h
ends-parts (c ∷ s) h = elim (Bool-cases (code c == 125)) [
  | inl brace ↦ ("", s, tt, ap (λ d. d ∷ s) (same_char c "}" brace) ∙ sym (nil-append ("}" ∷ s)))
  | inr other ↦
      let (line, rest) = and_true (not (code c == newline)) (ends s) (rw other at h) in
      let (name, after, single, e) = ends-parts s rest in
      (
        c ∷ name,
        after,
        (on_line c line, single),
        ap (λ t. c ∷ t) e ∙ sym (cons-append c name ("}" ∷ after)),
      )
]

ends_of_parts : (name after : String) → HasNoNewline name → ends (name ++ ("}" ∷ after)) ≡ true
unfolding ends
ends_of_parts [] after h = rw (nil-append ("}" ∷ after)) refl
ends_of_parts (c ∷ name) after h =
    rw (cons-append c name ("}" ∷ after)) (ground (arith, ends_of_parts name after h.1))

closes_of_parts : (name after : String) → IsName name → closes (name ++ ("}" ∷ after)) ≡ true
unfolding closes
closes_of_parts [] after h = absurd h
closes_of_parts (c ∷ name) after h =
    rw (cons-append c name ("}" ∷ after)) (ground (arith, ends_of_parts name after h.1))

-- What begins with a dollar sign and a name in braces.
abbrev Braced : String → Type 0
Braced s = (name : String) × (after : String) × IsName name × (s ≡ "{" ∷ (name ++ ("}" ∷ after)))

braced-parts : (s : String) → braced s ≡ true → Braced s
unfolding braced closes
braced-parts [] h = cc h
braced-parts (c ∷ []) h = cc (and_true (code c == 123) false h).1
braced-parts (c ∷ (d ∷ s)) h =
    let (brace, rest) = and_true (code c == 123) (not (code d == newline) && ends s) h in
    let (line, end) = and_true (not (code d == newline)) (ends s) rest in
    let (name, after, single, e) = ends-parts s end in
    (
      d ∷ name,
      after,
      (on_line d line, single),
      ap₂ (λ c s. c ∷ s) (same_char c "{" brace)
          (ap (λ t. d ∷ t) e ∙ sym (cons-append d name ("}" ∷ after))),
    )

HasVariable-cons : (c : Char) (s : String) → HasVariable s → HasVariable (c ∷ s)
HasVariable-cons c s v = record {
  before = c ∷ v.before;
  name = v.name;
  after = v.after;
  is_name = v.is_name;
  parts = ap (λ t. c ∷ t) v.parts ∙ sym (cons-append c v.before _);
}

has_variable-parts : (s : String) → has_variable s ≡ true → HasVariable s
unfolding has_variable
has_variable-parts [] h = cc h
has_variable-parts (c ∷ s) h =
    let later = has_variable-parts s in
    elim (Bool-cases ((code c == 36) && braced s)) [
      | inl found ↦
          let (dollar, rest) = and_true (code c == 36) (braced s) found in
          let (name, after, is_name, e) = braced-parts s rest in
          record {
            before = "";
            name = name;
            after = after;
            is_name = is_name;
            parts = ap₂ (λ c s. c ∷ s) (same_char c "$" dollar) e ∙ sym (nil-append _);
          }
      | inr other ↦ HasVariable-cons c s (later (rw other at h))
    ]

has_variable_of_parts :
    (before name after : String)
    → IsName name
    → has_variable (before ++ ("$" ∷ ("{" ∷ (name ++ ("}" ∷ after))))) ≡ true
unfolding has_variable braced
has_variable_of_parts [] name after h =
    rw (nil-append ("$" ∷ ("{" ∷ (name ++ ("}" ∷ after)))), closes_of_parts name after h) refl
has_variable_of_parts (c ∷ before) name after h =
    rw
      (
        cons-append c before ("$" ∷ ("{" ∷ (name ++ ("}" ∷ after)))),
        has_variable_of_parts before name after h,
      )
      (or_true ((code c == 36) && braced (before ++ ("$" ∷ ("{" ∷ (name ++ ("}" ∷ after)))))))
  where
    or_true : (b : Bool) → b || true ≡ true
    or_true true = refl
    or_true false = refl

-- The expression matches a text exactly when `${`, a name that is not empty and on one line, and `}`
-- stand somewhere in it.
pub has_variable_iff : (s : String) → (has_variable s ≡ true) ↔ HasVariable s
has_variable_iff s = (
  has_variable-parts s,
  (λ v. ap has_variable v.parts ∙ has_variable_of_parts v.before v.name v.after v.is_name),
)
