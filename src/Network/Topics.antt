-- ===== src/Network/Topics.antt =====
-- src/types.rs and src/p2p.rs: the topics of gossip, which kinds of premints and claims name.
use mintpool.Prelude.{
  ℕ, zero, suc, ◌≡◌, ◌≢◌, refl, sym, String, false, List, [], ◌∷◌, map, Option, none, some, any,
  str_eq, str_append, eq_iff, Bool-cases, inl, inr, arith,
}
use Prim.Native.Char.{code}
use text.Mathlib.TextLemmas.{cons-append, append_cancel_left, append_cancel_right}
use mintpool.Types.Data.{PremintName}

-- `{:?}` of a text, and `IdentTopic::hash`.
pub record TopicTexts : Type 0 where
  pub str_debug : String → String
  pub topic_hash : String → String

-- Both keep texts apart: `{:?}` quotes and escapes, and the hash is the identity.
pub record TopicLaws (t : TopicTexts) : Type 0 where
  pub str_debug_inj : (a b : String) → t.str_debug a ≡ t.str_debug b → a ≡ b
  pub topic_hash_inj : (a b : String) → t.topic_hash a ≡ t.topic_hash b → a ≡ b

unfoldable pub announce_topic : String
announce_topic = "mintpool::announce"

-- The text whose bytes are the key.
unfoldable pub topic_to_record_key : String → String
topic_to_record_key hash = str_append "topic::" hash

module _ (t : TopicTexts) where
  -- The derived `Debug` of `PremintName`.
  abbrev pub name_debug : PremintName → String
  name_debug n = str_append "PremintName(" (str_append (t.str_debug n.name) ")")

  unfoldable pub msg_topic : PremintName → String
  msg_topic n = str_append "mintpool::premint::" (name_debug n)

  unfoldable pub claims_topic : PremintName → String
  claims_topic n = str_append "chain::claims::" (name_debug n)

  unfoldable pub claims_topic_hashes : List PremintName → List String
  unfolding claims_topic
  claims_topic_hashes names = map (λ n. t.topic_hash (claims_topic n)) names

abbrev code_at : String → ℕ → Option ℕ
code_at String.[] i = none
code_at (String.◌∷◌ c s) zero = some (code c)
code_at (String.◌∷◌ c s) (suc i) = code_at s i

code_at-append :
    (p s : String) (i : ℕ) {c : ℕ} → code_at p i ≡ some c → code_at (str_append p s) i ≡ some c
code_at-append String.[] s i h = ground arith
code_at-append (String.◌∷◌ c p) s zero h = rw (cons-append c p s) h
code_at-append (String.◌∷◌ c p) s (suc i) h = rw (cons-append c p s) (code_at-append p s i h)

differ_at :
    (a b : String) (i : ℕ) {c d : ℕ} → code_at a i ≡ some c → code_at b i ≡ some d → c ≢ d → a ≢ b
differ_at a b i h k ne e = ground arith

module _ (t : TopicTexts) where
  -- Premints and claims go by different topics, and neither is the one of announcements.
  pub msg-ne-claims_topic : (n m : PremintName) → msg_topic t n ≢ claims_topic t m
  unfolding msg_topic claims_topic
  msg-ne-claims_topic n m =
      differ_at _ _ 0 (code_at-append "mintpool::premint::" (name_debug t n) 0 refl)
        (code_at-append "chain::claims::" (name_debug t m) 0 refl) (omega arith)

  pub msg-ne-announce_topic : (n : PremintName) → msg_topic t n ≢ announce_topic
  unfolding msg_topic announce_topic
  msg-ne-announce_topic n =
      differ_at _ _ 10 (code_at-append "mintpool::premint::" (name_debug t n) 10 refl) refl
        (omega arith)

  pub claims-ne-announce_topic : (n : PremintName) → claims_topic t n ≢ announce_topic
  unfolding claims_topic announce_topic
  claims-ne-announce_topic n =
      differ_at _ _ 0 (code_at-append "chain::claims::" (name_debug t n) 0 refl) refl (omega arith)

module _ (t : TopicTexts) (laws : TopicLaws t) where
  open laws use {str_debug_inj, topic_hash_inj}

  name_debug_inj : (n m : PremintName) → name_debug t n ≡ name_debug t m → n.name ≡ m.name
  name_debug_inj n m e = str_debug_inj _ _ (append_cancel_right _ _ _ (append_cancel_left _ _ _ e))

  pub claims_topic_inj : (n m : PremintName) → claims_topic t n ≡ claims_topic t m → n.name ≡ m.name
  unfolding claims_topic
  claims_topic_inj n m e = name_debug_inj n m (append_cancel_left _ _ _ e)

  -- No claims topic has the hash of another topic.
  pub claims_topic_hashes-other :
      (topic : String)
      → ((m : PremintName) → topic ≢ claims_topic t m)
      → (names : List PremintName)
      → any (λ h. str_eq h (t.topic_hash topic)) (claims_topic_hashes t names) ≡ false
  unfolding claims_topic_hashes
  claims_topic_hashes-other topic other [] = refl
  claims_topic_hashes-other topic other (n ∷ names) =
      elim (Bool-cases (str_eq (t.topic_hash (claims_topic t n)) (t.topic_hash topic))) [
        | inl same ↦ absurd (other n (topic_hash_inj _ _ (sym ((eq_iff _ _).0 same))))
        | inr differ ↦ rw differ (claims_topic_hashes-other topic other names)
      ]
