-- ===== src/Rules/Signed.antt =====
-- src/premints/zora_premint/rules.rs: the rules that `zora_premint_rules!` makes for a type of
-- premint, and the lists of them in v2.rs and erc20v1.rs beside it.
use mintpool.Prelude.{
  ℕ, String, Bool, not, ◌&&◌, List, [], ◌∷◌, none, some, Result, ok, ◌>>=◌, any, ◌==◌, str_eq,
  str_append, if◌then◌else◌,
}
use mintpool.Types.Data.{Report, Formats}
use mintpool.Types.Premint.{simple, zora_v2, zora_erc20_v1}
use mintpool.Zora.Premint.{
  ZoraPremint, CreatorAttribution, Eip712Domain, Namespace, eip712_domain, v2, erc20v1,
  TokenCreationConfigV2, TokenCreationConfigErc20V1,
}
use mintpool.Zora.Claims.{premint_factory_addr}
use mintpool.Rules.Evaluation.{Evaluation, accept, ignore, reject}
use mintpool.Rules.Context.{SolCall, view_contract_call, RuleContext, Rule}

-- The calls that `sol!` makes of the factory's interface; the status of a premint is whether its
-- contract is created, and its token id.
pub record Contract : Type 0 where
  pub is_authorized_to_create_premint : ℕ → ℕ → ℕ → SolCall Bool
  pub premint_status : ℕ → ℕ → SolCall (Bool × ℕ)
  pub supported_premint_signature_versions : ℕ → SolCall (List String)

-- Signatures and EIP-712 hashes, as alloy makes them.
pub record Crypto (C : Type 0) : Type 0 where
  pub signature_from_str : String → Result ℕ Report
  pub eip712_signing_hash : CreatorAttribution C → Eip712Domain → ℕ
  pub recover_address_from_prehash : ℕ → ℕ → Result ℕ Report

module _ {C : Type 0} (f : Formats) (contract : Contract) (crypto : Crypto C)
    (n : Namespace C) where
  unfoldable pub is_authorized_to_create_premint :
      ZoraPremint C → RuleContext → Result Evaluation Report
  unfolding view_contract_call
  is_authorized_to_create_premint p context = elim context.rpc [
    | none ↦ ok (ignore "Rule requires RPC call")
    | some rpc ↦ do
      let call =
          contract.is_authorized_to_create_premint p.collection_address p.collection.contract_admin
            p.collection.contract_admin
      result ← view_contract_call call rpc premint_factory_addr
      if result then ok accept else ok (reject "Unauthorized to create premint")
  ]

  unfoldable pub not_minted : ZoraPremint C → RuleContext → Result Evaluation Report
  unfolding view_contract_call
  not_minted p context = elim context.rpc [
    | none ↦ ok (ignore "Rule requires RPC provider")
    | some rpc ↦ do
      let call = contract.premint_status p.collection_address p.premint.uid
      result ← view_contract_call call rpc premint_factory_addr
      if result.0 && not (result.1 == 0) then ok (reject "Premint already minted") else ok accept
  ]

  unfoldable pub premint_version_supported : ZoraPremint C → RuleContext → Result Evaluation Report
  unfolding view_contract_call
  premint_version_supported p context = elim context.rpc [
    | none ↦ ok (ignore "Rule requires RPC provider")
    | some rpc ↦ do
      let call = contract.supported_premint_signature_versions p.collection_address
      versions ← view_contract_call call rpc premint_factory_addr
      if any (λ v. str_eq v n.version) versions
          then ok accept
          else ok (
              reject
                (str_append "Premint version " (str_append n.version " not supported by contract")))
  ]

  unfoldable pub is_valid_signature : ZoraPremint C → RuleContext → Result Evaluation Report
  unfolding eip712_domain
  is_valid_signature p context = do
    signature ← crypto.signature_from_str p.signature
    let hash = crypto.eip712_signing_hash p.premint (eip712_domain n p)
    signer ← crypto.recover_address_from_prehash signature hash
    if not (signer == p.collection.contract_admin)
        then ok (
            reject (
              str_append "Invalid signature for contract admin " (
                str_append (f.address_to_string p.collection.contract_admin)
                  (str_append " vs recovered " (f.address_to_string signer)))))
        else ok accept

  unfoldable pub is_chain_supported : ZoraPremint C → RuleContext → Result Evaluation Report
  is_chain_supported p context =
      let supported_chains : List ℕ = 7777777 ∷ 999999999 ∷ 8453 ∷ [] in
      if any (λ c. c == p.chain_id) supported_chains
      then ok accept
      else ok (reject "Chain not supported")

-- `typed_rule!(PremintTypes::ZoraV2, ...)`
abbrev pub v2_rule :
    String → (ZoraPremint TokenCreationConfigV2 → RuleContext → Result Evaluation Report) → Rule
v2_rule name rule = record {
  rule_name = str_append "PremintTypes::ZoraV2::" name;
  check = λ item context. elim item [
    | zora_v2 p ↦ rule p context
    | simple p ↦ ok (ignore "Wrong type")
    | zora_erc20_v1 p ↦ ok (ignore "Wrong type")
  ];
}

unfoldable pub all_v2_rules : Formats → Contract → Crypto TokenCreationConfigV2 → List Rule
unfolding is_authorized_to_create_premint is_valid_signature is_chain_supported not_minted
    premint_version_supported
all_v2_rules f contract crypto =
    v2_rule "V2::is_authorized_to_create_premint"
      (is_authorized_to_create_premint f contract crypto v2)
    ∷ v2_rule "V2::is_valid_signature" (is_valid_signature f contract crypto v2)
    ∷ v2_rule "V2::is_chain_supported" (is_chain_supported f contract crypto v2)
    ∷ v2_rule "V2::not_minted" (not_minted f contract crypto v2)
    ∷ v2_rule "V2::premint_version_supported" (premint_version_supported f contract crypto v2)
    ∷ []

-- `typed_rule!(PremintTypes::ZoraERC20V1, ...)`
abbrev pub erc20_v1_rule :
    String
    → (ZoraPremint TokenCreationConfigErc20V1 → RuleContext → Result Evaluation Report)
    → Rule
erc20_v1_rule name rule = record {
  rule_name = str_append "PremintTypes::ZoraERC20V1::" name;
  check = λ item context. elim item [
    | zora_erc20_v1 p ↦ rule p context
    | simple p ↦ ok (ignore "Wrong type")
    | zora_v2 p ↦ ok (ignore "Wrong type")
  ];
}

-- `erc20v1::all_v2_rules`, which `all_rules` of src/rules.rs leaves out.
unfoldable pub all_erc20_v1_rules :
    Formats → Contract → Crypto TokenCreationConfigErc20V1 → List Rule
unfolding is_authorized_to_create_premint is_valid_signature is_chain_supported not_minted
    premint_version_supported
all_erc20_v1_rules f contract crypto =
    erc20_v1_rule "ERC20V1::is_authorized_to_create_premint"
      (is_authorized_to_create_premint f contract crypto erc20v1)
    ∷ erc20_v1_rule "ERC20V1::is_valid_signature" (is_valid_signature f contract crypto erc20v1)
    ∷ erc20_v1_rule "ERC20V1::is_chain_supported" (is_chain_supported f contract crypto erc20v1)
    ∷ erc20_v1_rule "ERC20V1::not_minted" (not_minted f contract crypto erc20v1)
    ∷ erc20_v1_rule "ERC20V1::premint_version_supported"
        (premint_version_supported f contract crypto erc20v1)
    ∷ []
