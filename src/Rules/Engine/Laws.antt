-- ===== src/Rules/Engine/Laws.antt =====
-- What it takes for every rule of src/rules.rs and src/premints/zora_premint/rules.rs to pass.
pub mod Valid
pub mod Verdict
use mintpool.Prelude.{
  ℕ, ◌≡◌, ◌≢◌, ◌↔◌, ◌⊎◌, ◌≤◌, ◌<◌, inl, inr, refl, sym, ap, ◌∙◌, subst, String, Bool, true, false,
  not, ◌&&◌, List, [], ◌∷◌, Option, none, some, Result, ok, err, ◌>>=◌, any, ltb, ◌==◌, ==_iff,
  str_eq, eq_iff, When, When-iff, iff_trans, product_iff, Bool-cases, if◌then◌else◌, arith,
}
use mintpool.Prelude.Utf8.{len}
use mintpool.Types.Data.{Report, row_not_found, message, Formats, PremintMetadata}
use mintpool.Types.Premint.{PremintTypes, metadata}
use mintpool.Zora.Premint.{ZoraPremint, Namespace, eip712_domain}
use mintpool.Zora.Claims.{premint_factory_addr}
use mintpool.Rules.Evaluation.{Evaluation, accept, ignore, reject}
use mintpool.Rules.Evaluation.Laws.{Passes}
use mintpool.Rules.Context.{Provider, SolCall, view_contract_call, RuleContext}
use mintpool.Rules.General.{
  max_allowed, token_uri_length, existing_uri, existing_token_uri, signer_matches,
  version_is_higher,
}
use mintpool.Rules.Signed.{
  Contract, Crypto, is_authorized_to_create_premint, not_minted, premint_version_supported,
  is_valid_signature, is_chain_supported,
}

ltb_iff : (a b : ℕ) → (ltb a b ≡ true) ↔ (a < b)
ltb_iff a b = ground arith

signer_test : (a b : ℕ) → (not (a == b) ≡ false) ↔ (a ≡ b)
signer_test a b = ground arith

Passes-if : (b : Bool) (m : String) → Passes (if b then ok accept else ok (reject m)) ↔ (b ≡ true)
Passes-if true m = ((λ _. refl), (λ _. tt))
Passes-if false m = ((λ h. absurd h), (λ h. cc h))

Passes-unless :
    (b : Bool) (m : String) → Passes (if b then ok (reject m) else ok accept) ↔ (b ≡ false)
Passes-unless true m = ((λ h. absurd h), (λ h. cc h))
Passes-unless false m = ((λ _. refl), (λ _. tt))

Passes-bind :
    {A : Type 0} (x : Result A Report) (k : A → Result Evaluation Report)
    → Passes (x >>= k) ↔ ((a : A) × (x ≡ ok a) × Passes (k a))
Passes-bind (ok a) k = (
  (λ h. (a, refl, h)),
  (λ h. let (b, e, p) = h in let same : b ≡ a = cc e in subst (λ a. Passes (k a)) same p),
)
Passes-bind (err e) k = ((λ h. absurd h), (λ h. let (b, x, p) = h in cc x))

Passes-skip :
    {A : Type 0} (o : Option A) (m : String) (k : A → Result Evaluation Report)
    → Passes (elim o [ none ↦ ok (ignore m) | some a ↦ k a ]) ↔ When o (λ a. Passes (k a))
Passes-skip none m k = ((λ _. tt), (λ _. tt))
Passes-skip (some a) m k = ((λ h. h), (λ h. h))

Passes-bounds :
    (n max : ℕ) (a b : String)
    → Passes (if n == 0 then ok (reject a) else if ltb max n then ok (reject b) else ok accept)
      ↔ ((1 ≤ n) × (n ≤ max))
Passes-bounds n max a b =
    let empty = Passes-unless (n == 0) a in
    let long = Passes-unless (ltb max n) b in
    elim (Bool-cases (n == 0)) [
      | inl z ↦ ((λ h. cc (z, empty.0 (rw z (rw z at h)))), (λ h. absurd (ground (arith, z, h.0))))
      | inr s ↦ (
        (λ h. let fits = long.0 (rw s at h) in (ground (arith, s), ground (arith, fits))),
        (λ h. rw s (long.1 (ground (arith, h.1)))),
      )
    ]

Passes-then :
    {A : Type 0} (x : Result A Report) (k : A → Result Evaluation Report) (P : A → Type 0)
    → ((a : A) → Passes (k a) ↔ P a)
    → Passes (x >>= k) ↔ ((a : A) × (x ≡ ok a) × P a)
Passes-then x k P test = iff_trans (Passes-bind x k) (
  (λ h. let (a, e, q) = h in (a, e, (test a).0 q)),
  (λ h. let (a, e, q) = h in (a, e, (test a).1 q)),
)

ok_iff : {A : Type 0} (x : Result A Report) (b : A) → ((a : A) × (x ≡ ok a) × (a ≡ b)) ↔ (x ≡ ok b)
ok_iff x b = ((λ h. let (a, e, q) = h in e ∙ ap ok q), (λ e. (b, e, refl)))

pub token_uri_length-Passes :
    (m : PremintMetadata) (c : RuleContext)
    → Passes (token_uri_length m c) ↔ ((1 ≤ len m.uri) × (len m.uri ≤ max_allowed m.uri))
unfolding token_uri_length
token_uri_length-Passes m c = Passes-bounds (len m.uri) (max_allowed m.uri) _ _

module _ (f : Formats) where
  existing_uri-Passes :
      (m : PremintMetadata) (r : Result PremintTypes Report)
      → Passes (existing_uri f m r)
        ↔ ((r ≡ err row_not_found) ⊎ ((q : PremintTypes) × (r ≡ ok q) × ((metadata f q).id ≡ m.id)))
  unfolding existing_uri
  existing_uri-Passes m (err row_not_found) = ((λ _. inl refl), (λ _. tt))
  existing_uri-Passes m (err (message e)) =
      ((λ h. absurd h), (λ h. elim h [ inl x ↦ cc x | inr (q, x, y) ↦ cc x ]))
  existing_uri-Passes m (ok q) =
      let test =
        iff_trans (Passes-if (str_eq (metadata f q).id m.id) "Token URI already exists")
          (eq_iff (metadata f q).id m.id) in
      (
        (λ h. inr (q, refl, test.0 h)),
        (λ h. elim h [
          | inl x ↦ cc x
          | inr (q', x, y) ↦
              let same : q' ≡ q = cc x in test.1 (subst (λ q. (metadata f q).id ≡ m.id) same y)
        ]),
      )

  pub existing_token_uri-Passes :
      (m : PremintMetadata) (c : RuleContext)
      → Passes (existing_token_uri f m c) ↔ (
          (c.storage.get_for_token_uri m.uri ≡ err row_not_found)
          ⊎ ((q : PremintTypes) × (c.storage.get_for_token_uri m.uri ≡ ok q)
              × ((metadata f q).id ≡ m.id)))
  unfolding existing_token_uri
  existing_token_uri-Passes m c = existing_uri-Passes m (c.storage.get_for_token_uri m.uri)

  pub signer_matches-Passes :
      (m : PremintMetadata) (c : RuleContext)
      → Passes (signer_matches f m c) ↔ When c.existing (λ q. (metadata f q).signer ≡ m.signer)
  unfolding signer_matches
  signer_matches-Passes m c =
      iff_trans
        (Passes-skip c.existing "No existing premint" (λ q.
          if (metadata f q).signer == m.signer
          then ok accept
          else ok (reject "Signer does not match")))
        (When-iff c.existing _ _ (λ q.
          iff_trans (Passes-if ((metadata f q).signer == m.signer) "Signer does not match")
            (==_iff (metadata f q).signer m.signer)))

  pub version_is_higher-Passes :
      (m : PremintMetadata) (c : RuleContext)
      → Passes (version_is_higher f m c) ↔ When c.existing (λ q. (metadata f q).version < m.version)
  unfolding version_is_higher
  version_is_higher-Passes m c = iff_trans (Passes-skip c.existing "No existing premint" _) (
      When-iff c.existing _ _ (λ q.
        iff_trans (Passes-if (ltb (metadata f q).version m.version) _)
          (ltb_iff (metadata f q).version m.version)))

module _ {C : Type 0} (f : Formats) (contract : Contract) (crypto : Crypto C) (n : Namespace C)
    (p : ZoraPremint C) (c : RuleContext) where
  chain_test :
      (any (λ c. c == p.chain_id) (7777777 ∷ 999999999 ∷ 8453 ∷ []) ≡ true)
      ↔ ((p.chain_id ≡ 7777777) ⊎ (p.chain_id ≡ 999999999) ⊎ (p.chain_id ≡ 8453))
  chain_test = ground arith

  pub is_chain_supported-Passes :
      Passes (is_chain_supported f contract crypto n p c)
      ↔ ((p.chain_id ≡ 7777777) ⊎ (p.chain_id ≡ 999999999) ⊎ (p.chain_id ≡ 8453))
  unfolding is_chain_supported
  is_chain_supported-Passes = iff_trans (Passes-if _ "Chain not supported") chain_test

  -- The signature parses, and recovers the contract admin from the EIP-712 hash.
  pub is_valid_signature-Passes : Passes (is_valid_signature f contract crypto n p c) ↔ (
      (s : ℕ) × (crypto.signature_from_str p.signature ≡ ok s)
      × (crypto.recover_address_from_prehash s
            (crypto.eip712_signing_hash p.premint (eip712_domain n p))
          ≡ ok p.collection.contract_admin))
  unfolding is_valid_signature
  is_valid_signature-Passes = Passes-then _ _ _ (λ s.
      iff_trans
        (Passes-then _ _ (λ signer. signer ≡ p.collection.contract_admin)
          (λ signer.
            iff_trans (Passes-unless (not (signer == p.collection.contract_admin)) _)
              (signer_test signer p.collection.contract_admin)))
        (ok_iff _ p.collection.contract_admin))

  pub is_valid_signature-err :
      (e : Report)
      → crypto.signature_from_str p.signature ≡ err e
      → is_valid_signature f contract crypto n p c ≡ err e
  unfolding is_valid_signature
  is_valid_signature-err e bad = rw (bad, is_valid_signature)

  pub is_authorized_to_create_premint-Passes :
      Passes (is_authorized_to_create_premint f contract crypto n p c)
      ↔ When c.rpc (λ rpc.
        view_contract_call
          (contract.is_authorized_to_create_premint p.collection_address p.collection.contract_admin
            p.collection.contract_admin)
          rpc
          premint_factory_addr
        ≡ ok true)
  unfolding is_authorized_to_create_premint
  is_authorized_to_create_premint-Passes =
      iff_trans (Passes-skip c.rpc "Rule requires RPC call" _) (
        When-iff c.rpc _ _
          (λ rpc. iff_trans (Passes-then _ _ (λ b. b ≡ true) (λ b. Passes-if b _)) (ok_iff _ true)))

  pub not_minted-Passes :
      Passes (not_minted f contract crypto n p c)
      ↔ When c.rpc (λ rpc.
        (status : Bool × ℕ) × (view_contract_call
            (contract.premint_status p.collection_address p.premint.uid)
            rpc
            premint_factory_addr
          ≡ ok status)
        × (status.0 && not (status.1 == 0) ≡ false))
  unfolding not_minted
  not_minted-Passes =
      iff_trans (Passes-skip c.rpc "Rule requires RPC provider" _) (
        When-iff c.rpc _ _
          (λ rpc. Passes-then _ _ _ (λ s. Passes-unless (s.0 && not (s.1 == 0)) _)))

  pub premint_version_supported-Passes :
      Passes (premint_version_supported f contract crypto n p c)
      ↔ When c.rpc (λ rpc.
        (versions : List String) × (view_contract_call
            (contract.supported_premint_signature_versions p.collection_address)
            rpc
            premint_factory_addr
          ≡ ok versions)
        × (any (λ v. str_eq v n.version) versions ≡ true))
  unfolding premint_version_supported
  premint_version_supported-Passes = iff_trans (Passes-skip c.rpc "Rule requires RPC provider" _) (
      When-iff c.rpc _ _
        (λ rpc. Passes-then _ _ _ (λ v. Passes-if (any (λ v. str_eq v n.version) v) _)))
