-- ===== src/Rules/Engine/Laws/Valid.antt =====
-- What the default rules of src/rules.rs ask of a premint, put together.
use mintpool.Prelude.{
  ℕ, ◌≡◌, ◌↔◌, ◌⊎◌, ◌≤◌, ◌<◌, String, Bool, true, false, not, ◌&&◌, List, map, ok, err, any, All,
  ◌==◌, str_eq, When,
}
use mintpool.Prelude.Utf8.{len}
use mintpool.Types.Data.{row_not_found, Formats, PremintMetadata}
use mintpool.Types.Premint.{PremintTypes, zora_v2, zora_erc20_v1, metadata}
use mintpool.Zora.Premint.{
  ZoraPremint, TokenCreationConfigV2, TokenCreationConfigErc20V1, eip712_domain, v2,
}
use mintpool.Zora.Claims.{premint_factory_addr}
use mintpool.Rules.Evaluation.{RuleResult}
use mintpool.Rules.Evaluation.Laws.{Passes}
use mintpool.Rules.Context.{view_contract_call, RuleContext, Rule}
use mintpool.Rules.General.{max_allowed}
use mintpool.Rules.Signed.{Contract, Crypto}
use mintpool.Rules.Engine.{all_rules}
use mintpool.Rules.Engine.Laws.{
  token_uri_length-Passes, existing_token_uri-Passes, signer_matches-Passes,
  version_is_higher-Passes, is_authorized_to_create_premint-Passes, is_valid_signature-Passes,
  is_chain_supported-Passes, not_minted-Passes, premint_version_supported-Passes,
}

abbrev pub result_of : PremintTypes → RuleContext → Rule → RuleResult
result_of item c rule = record { rule_name = rule.rule_name; result = rule.check item c }

-- What the general rules ask of a premint.
pub record Fresh (f : Formats) (m : PremintMetadata) (c : RuleContext) : Type 0 where
  pub uri_length : (1 ≤ len m.uri) × (len m.uri ≤ max_allowed m.uri)
  pub uri_unknown :
      (c.storage.get_for_token_uri m.uri ≡ err row_not_found)
      ⊎ ((q : PremintTypes) × (c.storage.get_for_token_uri m.uri ≡ ok q)
          × ((metadata f q).id ≡ m.id))
  pub same_signer : When c.existing (λ q. (metadata f q).signer ≡ m.signer)
  pub higher_version : When c.existing (λ q. (metadata f q).version < m.version)

-- What the rules of a V2 premint ask besides. Those about the contract ask nothing without an RPC.
pub record Signed (contract : Contract) (crypto : Crypto TokenCreationConfigV2)
    (p : ZoraPremint TokenCreationConfigV2) (c : RuleContext) : Type 0 where
  pub authorized : When c.rpc (λ rpc.
      view_contract_call
        (contract.is_authorized_to_create_premint p.collection_address p.collection.contract_admin
          p.collection.contract_admin)
        rpc
        premint_factory_addr
      ≡ ok true)
  pub signature :
      (s : ℕ) × (crypto.signature_from_str p.signature ≡ ok s)
      × (crypto.recover_address_from_prehash s
            (crypto.eip712_signing_hash p.premint (eip712_domain v2 p))
          ≡ ok p.collection.contract_admin)
  pub chain : (p.chain_id ≡ 7777777) ⊎ (p.chain_id ≡ 999999999) ⊎ (p.chain_id ≡ 8453)
  pub unminted : When c.rpc (λ rpc.
      (status : Bool × ℕ) × (view_contract_call
          (contract.premint_status p.collection_address p.premint.uid)
          rpc
          premint_factory_addr
        ≡ ok status)
      × (status.0 && not (status.1 == 0) ≡ false))
  pub version_supported : When c.rpc (λ rpc.
      (versions : List String) × (view_contract_call
          (contract.supported_premint_signature_versions p.collection_address)
          rpc
          premint_factory_addr
        ≡ ok versions)
      × (any (λ v. str_eq v v2.version) versions ≡ true))

module _ (f : Formats) (contract : Contract) (crypto : Crypto TokenCreationConfigV2) where
  pub v2-Passes :
      (p : ZoraPremint TokenCreationConfigV2) (c : RuleContext)
      → All (λ r. Passes r.result) (map (result_of (zora_v2 p) c) (all_rules f contract crypto))
        ↔ (Fresh f (metadata f (zora_v2 p)) c × Signed contract crypto p c)
  unfolding all_rules
  v2-Passes p c =
      let m = metadata f (zora_v2 p) in
      let uri = token_uri_length-Passes m c in
      let unknown = existing_token_uri-Passes f m c in
      let signer = signer_matches-Passes f m c in
      let version = version_is_higher-Passes f m c in
      let authorized = is_authorized_to_create_premint-Passes f contract crypto v2 p c in
      let signature = is_valid_signature-Passes f contract crypto v2 p c in
      let chain = is_chain_supported-Passes f contract crypto v2 p c in
      let unminted = not_minted-Passes f contract crypto v2 p c in
      let supported = premint_version_supported-Passes f contract crypto v2 p c in
      (
        (λ h.
            let (a, (b, (d, (e, (g, (i, (k, (l, (n, z))))))))) = h in
            (
              record {
                uri_length = uri.0 a;
                uri_unknown = unknown.0 b;
                same_signer = signer.0 d;
                higher_version = version.0 e;
              },
              record {
                authorized = authorized.0 g;
                signature = signature.0 i;
                chain = chain.0 k;
                unminted = unminted.0 l;
                version_supported = supported.0 n;
              },
            )),
        (λ h. (
          uri.1 h.0.uri_length,
          (
            unknown.1 h.0.uri_unknown,
            (
              signer.1 h.0.same_signer,
              (
                version.1 h.0.higher_version,
                (
                  authorized.1 h.1.authorized,
                  (
                    signature.1 h.1.signature,
                    (
                      chain.1 h.1.chain,
                      (unminted.1 h.1.unminted, (supported.1 h.1.version_supported, tt)),
                    ),
                  ),
                ),
              ),
            ),
          ),
        )),
      )

  pub erc20_v1-Passes :
      (p : ZoraPremint TokenCreationConfigErc20V1) (c : RuleContext)
      → All
          (λ r. Passes r.result)
          (map (result_of (zora_erc20_v1 p) c) (all_rules f contract crypto))
        ↔ Fresh f (metadata f (zora_erc20_v1 p)) c
  unfolding all_rules
  erc20_v1-Passes p c =
      let m = metadata f (zora_erc20_v1 p) in
      let uri = token_uri_length-Passes m c in
      let unknown = existing_token_uri-Passes f m c in
      let signer = signer_matches-Passes f m c in
      let version = version_is_higher-Passes f m c in
      (
        (λ h.
            let (a, (b, (d, (e, z)))) = h in
            record {
              uri_length = uri.0 a;
              uri_unknown = unknown.0 b;
              same_signer = signer.0 d;
              higher_version = version.0 e;
            }),
        (λ h. (
          uri.1 h.uri_length,
          (
            unknown.1 h.uri_unknown,
            (
              signer.1 h.same_signer,
              (version.1 h.higher_version, (tt, (tt, (tt, (tt, (tt, tt)))))),
            ),
          ),
        )),
      )
