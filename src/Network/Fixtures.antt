-- ===== src/Network/Fixtures.antt =====
-- Stand-ins for the libraries of the network, which keep their laws.
use mintpool.Prelude.{
  ℕ, ◌≡◌, ◌≢◌, refl, sym, ap, ap₂, ◌⊎◌, inl, inr, String, Bool, ◌&&◌, List, [], ◌∷◌, none, some, ok,
  err, ◌==◌, str_eq, eq_iff, if◌then◌else◌, Bool-cases, compare, arith,
}
use Prim.Native.Nat.{Ordering}
use Prim.Native.Char.{Char, char, code, nul, IsScalar}
use text.Mathlib.TextEquality.{Char-path}
use text.Mathlib.TextLemmas.{head-eq_of_cons-eq, tail-eq_of_cons-eq}
use mintpool.Types.Data.{message, InclusionClaim}
use mintpool.Network.Addresses.{other}
use mintpool.Network.Topics.{TopicLaws}
use mintpool.Network.State.{View, unknown, Libs, LibsLaws}
use mintpool.Network.MessageIds.{DigestLaws}
use mintpool.Fixtures.{formats, json, claim_of}

abbrev Cases : Ordering → Type 0
Cases o = (o ≡ Ordering.lt) ⊎ ((o ≡ Ordering.eq) ⊎ (o ≡ Ordering.gt))

order_cases : (o : Ordering) → Cases o
order_cases Ordering.lt = inl refl
order_cases Ordering.eq = inr (inl refl)
order_cases Ordering.gt = inr (inr refl)

-- The character of a number that is one.
char_by :
    (n : ℕ) → Cases (compare n 55296) → Cases (compare 57343 n) → Cases (compare n 1114112) → Char
char_by n (inl e) p q = char n (rw e tt)
char_by n (inr (inl e)) (inl e') (inl e'') = char n (rw (e, e', e'') tt)
char_by n (inr (inr e)) (inl e') (inl e'') = char n (rw (e, e', e'') tt)
char_by n _ _ _ = nul

unfoldable char_of : ℕ → Char
unfolding char_by order_cases
char_of n =
    char_by n (order_cases (compare n 55296)) (order_cases (compare 57343 n))
      (order_cases (compare n 1114112))

code-char_by :
    (n : ℕ)
    → IsScalar n
    → (o : Cases (compare n 55296)) (p : Cases (compare 57343 n)) (q : Cases (compare n 1114112))
    → code (char_by n o p q) ≡ n
unfolding char_by
code-char_by n s (inl e) p q = refl
code-char_by n s (inr (inl e)) (inl e') (inl e'') = refl
code-char_by n s (inr (inl e)) (inl e') (inr (inl e'')) = absurd (rw (e, e', e'') at s)
code-char_by n s (inr (inl e)) (inl e') (inr (inr e'')) = absurd (rw (e, e', e'') at s)
code-char_by n s (inr (inl e)) (inr (inl e')) q = absurd (rw (e, e') at s)
code-char_by n s (inr (inl e)) (inr (inr e')) q = absurd (rw (e, e') at s)
code-char_by n s (inr (inr e)) (inl e') (inl e'') = refl
code-char_by n s (inr (inr e)) (inl e') (inr (inl e'')) = absurd (rw (e, e', e'') at s)
code-char_by n s (inr (inr e)) (inl e') (inr (inr e'')) = absurd (rw (e, e', e'') at s)
code-char_by n s (inr (inr e)) (inr (inl e')) q = absurd (rw (e, e') at s)
code-char_by n s (inr (inr e)) (inr (inr e')) q = absurd (rw (e, e') at s)

char_of-code : (c : Char) → char_of (code c) ≡ c
unfolding char_of
char_of-code (char n s) = Char-path _ (char n s) (code-char_by n s _ _ _)

abbrev pub codes : String → List ℕ
codes String.[] = []
codes (String.◌∷◌ c s) = code c ∷ codes s

unfoldable pub text_of : List ℕ → String
unfolding char_of
text_of [] = ""
text_of (n ∷ rest) = String.◌∷◌ (char_of n) (text_of rest)

text_of-codes : (s : String) → text_of (codes s) ≡ s
unfolding text_of
text_of-codes String.[] = refl
text_of-codes (String.◌∷◌ c s) = ap₂ (λ d t. String.◌∷◌ d t) (char_of-code c) (text_of-codes s)

-- A claim on the token of the fixtures.
abbrev pub claim : InclusionClaim
claim = claim_of "7777777:5:9" "simple" 7777777

abbrev pub is_claim : InclusionClaim → Bool
is_claim c =
    str_eq c.premint_id "7777777:5:9"
    && ((c.chain_id == 7777777)
        && ((c.tx_hash == 77) && ((c.log_index == 0) && str_eq c.kind "simple")))

is_claim-eq : (c : InclusionClaim) → is_claim c ≡ Bool.true → c ≡ claim
is_claim-eq c h =
    let id : c.premint_id ≡ "7777777:5:9" = ground (arith, eq_iff c.premint_id "7777777:5:9", h) in
    let chain_id : c.chain_id ≡ 7777777 = ground (arith, h) in
    let tx_hash : c.tx_hash ≡ 77 = ground (arith, h) in
    let log_index : c.log_index ≡ 0 = ground (arith, h) in
    let kind : c.kind ≡ "simple" = ground (arith, eq_iff c.kind "simple", h) in
    λ i. record {
      premint_id = id i;
      chain_id = chain_id i;
      tx_hash = tx_hash i;
      log_index = log_index i;
      kind = kind i;
    }

abbrev pub libs : Libs
libs = record {
  formats = formats;
  json = json;
  claim_to_json = λ c. if is_claim c then ok "claim" else err (message "unknown");
  claim_from_json = λ s. if str_eq s "claim" then ok claim else err (message "unknown");
  topic_texts = record { str_debug = λ s. s; topic_hash = λ s. s };
  as_bytes = codes;
  from_utf8_lossy = text_of;
  addr_from_str = λ s. ok (other s ∷ []);
  addr_to_string = λ a. "address";
  report_to_string = λ e. "error";
  digest = λ s. String.◌∷◌ ":" s;
  choose = λ peers. elim peers [ [] ↦ none | peer ∷ rest ↦ some peer ];
  succeeds = λ calls c. ok tt;
}

claim_from_json-to_json :
    (c : InclusionClaim) (s : String) → libs.claim_to_json c ≡ ok s → libs.claim_from_json s ≡ ok c
claim_from_json-to_json c s h = elim (Bool-cases (is_claim c)) [
  | inl known ↦
      let same : s ≡ "claim" = cc (rw known at h) in rw same (ap ok (sym (is_claim-eq c known)))
  | inr strange ↦ cc (rw strange at h)
]

pub libs_laws : LibsLaws libs
libs_laws = record {
  from_utf8_lossy-as_bytes = text_of-codes;
  claim_from_json-to_json = claim_from_json-to_json;
}

pub topic_laws : TopicLaws libs.topic_texts
topic_laws = record { str_debug_inj = λ a b e. e; topic_hash_inj = λ a b e. e }

digest-ne-spam : (a : String) → String.◌∷◌ ":" a ≢ "likely_spam"
digest-ne-spam a e = absurd (omega (arith, ap code (head-eq_of_cons-eq e)))

pub digest_laws : DigestLaws libs
digest_laws = record { digest_inj = λ a b e. tail-eq_of_cons-eq e; digest-ne-spam = digest-ne-spam }

abbrev pub view : View
view = record {
  local_peer_id = "me";
  num_peers = 3;
  external_addresses = [];
  listeners = (other "/ip4/127.0.0.1" ∷ []) ∷ [];
  kbuckets = [];
  provided = [];
  all_mesh_peers = "alice" ∷ "bob" ∷ [];
  topics = [];
  autonat_status = unknown;
}
