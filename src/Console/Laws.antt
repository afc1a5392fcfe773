-- ===== src/Console/Laws.antt =====
-- src/stdin.rs: what a line sends to the controller.
use mintpool.Prelude.{
  ℕ, suc, ◌≡◌, refl, ap, ◌∙◌, String, true, false, ◌&&◌, ◌==◌, ==_iff, str_eq, str_append, eq_iff,
  Bool-cases, inl, inr, [], ◌∷◌, ◌++◌, some, ok, arith,
}
use mintpool.Prelude.Utf8.{starts_with}
use Prim.Native.Char.{Char, code}
use text.Mathlib.TextLemmas.{nil-append, cons-append, cons≢nil}
use mintpool.Types.Premint.{PremintTypes, Json, RoundTrips}
use mintpool.Controller.State.{Channel, connect_to_peer, broadcast}
use mintpool.Controller.Interface.{Interface, send_command_open}
use mintpool.Console.{skip, broadcast_of, send_if_any, command_of, process_stdin_line}

abbrev chars : String → ℕ
chars String.[] = 0
chars (String.◌∷◌ c s) = suc (chars s)

skip-append : (p s : String) → skip (chars p) (str_append p s) ≡ s
skip-append String.[] s = nil-append s
skip-append (String.◌∷◌ c p) s = rw (cons-append c p s) (skip-append p s)

starts_with-append : (p s : String) → starts_with p (str_append p s) ≡ true
unfolding starts_with
starts_with-append String.[] s = refl
starts_with-append (String.◌∷◌ c p) s =
    rw (cons-append c p s, (==_iff (code c) (code c)).1 refl, starts_with-append p s) refl

not_empty : (c : Char) (s : String) → str_eq (String.◌∷◌ c s) "" ≡ false
not_empty c s = elim (Bool-cases (str_eq (String.◌∷◌ c s) "")) [
  | inl same ↦ absurd (cons≢nil ((eq_iff (String.◌∷◌ c s) "").0 same))
  | inr differ ↦ differ
]

not_empty_append : (c : Char) (p s : String) → str_eq (str_append (String.◌∷◌ c p) s) "" ≡ false
not_empty_append c p s = ap (λ t. str_eq t "") (cons-append c p s) ∙ not_empty c (str_append p s)

-- A text does not begin with what begins otherwise.
begins_otherwise :
    (c d : Char) (p s : String)
    → (code c == code d) ≡ false
    → starts_with (String.◌∷◌ c p) (String.◌∷◌ d s) ≡ false
unfolding starts_with
begins_otherwise c d p s h = rw h refl

module _ (json : Json) (channel : Channel) where
  command_of-connect :
      (address : String)
      → command_of json channel (str_append "/connect " address) ≡ some (connect_to_peer address)
  unfolding command_of
  command_of-connect address = simp (
    not_empty_append "/" "connect " address,
    starts_with-append "/connect " address,
    skip-append "/connect " address,
  )

  command_of-json :
      (d : Char) (s : String)
      → (code d == 123) ≡ true
      → command_of json channel (String.◌∷◌ d s)
        ≡ broadcast_of json channel (json.from_json (String.◌∷◌ d s))
  unfolding command_of
  command_of-json d s h =
      let other : (47 == code d) ≡ false = ground arith in
      simp (
        not_empty d s,
        begins_otherwise "/" d "connect " s other,
        begins_otherwise "/" d "sync" s other,
        begins_otherwise "/" d "ip4" s other,
        begins_otherwise "/" d "peers" s other,
        begins_otherwise "/" d "node" s other,
        begins_otherwise "/" d "announce" s other,
        begins_otherwise "/" d "list" s other,
      )

  -- A line "/connect " with an address asks the controller, while it receives, to connect to exactly
  -- that address.
  pub process_stdin_line-connect :
      (address : String) (i : Interface)
      → i.is_open ≡ true
      → process_stdin_line json channel (str_append "/connect " address) i
        ≡ record { commands = i.commands ++ connect_to_peer address ∷ []; is_open = true }
  unfolding process_stdin_line
  process_stdin_line-connect address i is_open =
      ap (λ o. send_if_any json channel o i) (command_of-connect address)
      ∙ ap (λ r. r.1) (send_command_open (connect_to_peer address) i is_open)

  -- A premint written as JSON, in braces, is read from the line and broadcast by the controller,
  -- while it receives: no command of the console is taken for it.
  pub process_stdin_line-to_json :
      RoundTrips json
      → (p : PremintTypes) (line : String) (i : Interface) → json.to_json p ≡ ok line
      → starts_with "{" line ≡ true
      → i.is_open ≡ true
      → process_stdin_line json channel line i
        ≡ record { commands = i.commands ++ broadcast p channel ∷ []; is_open = true }
  unfolding process_stdin_line starts_with
  process_stdin_line-to_json trips p String.[] i writes begins is_open = cc begins
  process_stdin_line-to_json trips p (String.◌∷◌ d s) i writes begins is_open =
      ap (λ o. send_if_any json channel o i)
        (command_of-json d s (brace begins)
          ∙ ap (broadcast_of json channel) (trips p (String.◌∷◌ d s) writes))
      ∙ ap (λ r. r.1) (send_command_open (broadcast p channel) i is_open)
    where
      brace : (123 == code d) && true ≡ true → (code d == 123) ≡ true
      brace h = ground arith
