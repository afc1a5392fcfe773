-- ===== src/Zora/Premint.antt =====
-- src/premints/zora_premint/types.rs, v2.rs, erc20v1.rs: the struct, `metadata` and the domain that
-- `implement_zora_premint_traits!` makes for each of the two premint types.
use mintpool.Prelude.{ℕ, String, Bool, Option, none, some}
use mintpool.Prelude.Decimal.{show}
use mintpool.Prelude.Text.{join_colon}
use mintpool.Types.Data.{Formats, PremintMetadata}

-- `ContractCreationConfig`
pub record ContractCreationConfig : Type 0 where
  pub contract_admin : ℕ
  pub contract_uri : String
  pub contract_name : String

-- `IZoraPremintV2::TokenCreationConfig`
pub record TokenCreationConfigV2 : Type 0 where
  pub token_uri : String
  pub max_supply : ℕ
  pub max_tokens_per_address : ℕ
  pub price_per_token : ℕ
  pub mint_start : ℕ
  pub mint_duration : ℕ
  pub royalty_bps : ℕ
  pub payout_recipient : ℕ
  pub fixed_price_minter : ℕ
  pub create_referral : ℕ

-- `IZoraPremintERC20V1::TokenCreationConfig`
pub record TokenCreationConfigErc20V1 : Type 0 where
  pub token_uri : String
  pub max_supply : ℕ
  pub max_tokens_per_address : ℕ
  pub price_per_token : ℕ
  pub mint_start : ℕ
  pub mint_duration : ℕ
  pub royalty_bps : ℕ
  pub fixed_price_minter : ℕ
  pub royalty_mint_schedule : ℕ
  pub royalty_recipient : ℕ

-- `CreatorAttribution`
pub record CreatorAttribution (C : Type 0) : Type 0 where
  pub token_config : C
  pub uid : ℕ
  pub version : ℕ
  pub deleted : Bool

-- The struct `$typ`.
pub record ZoraPremint (C : Type 0) : Type 0 where
  pub collection_address : ℕ
  pub chain_id : ℕ
  pub collection : ContractCreationConfig
  pub premint : CreatorAttribution C
  pub signature : String

-- The arguments of the macro.
pub record Namespace (C : Type 0) : Type 0 where
  pub type_name : String
  pub kind : String
  pub version : String
  pub token_uri : C → String

abbrev pub v2 : Namespace TokenCreationConfigV2
v2 = record {
  type_name = "V2";
  kind = "zora_premint_v2";
  version = "2";
  token_uri = λ c. c.token_uri;
}

abbrev pub erc20v1 : Namespace TokenCreationConfigErc20V1
erc20v1 = record {
  type_name = "ERC20V1";
  kind = "zora_premint_erc20v1";
  version = "ERC20_1";
  token_uri = λ c. c.token_uri;
}

-- `{:?}:{:?}:{:?}`
unfoldable pub guid : Formats → ℕ → ℕ → ℕ → String
unfolding join_colon
guid f chain_id address uid =
    join_colon (show chain_id) (join_colon (f.address_debug address) (show uid))

pub record Eip712Domain : Type 0 where
  pub name : Option String
  pub version : Option String
  pub chain_id : Option ℕ
  pub verifying_contract : Option ℕ
  pub salt : Option ℕ

module _ {C : Type 0} (n : Namespace C) where
  unfoldable pub eip712_domain : ZoraPremint C → Eip712Domain
  eip712_domain p = record {
    name = some "Preminter";
    version = some n.version;
    chain_id = some p.chain_id;
    verifying_contract = some p.collection_address;
    salt = none;
  }

  unfoldable pub metadata : Formats → ZoraPremint C → PremintMetadata
  unfolding guid
  metadata f p = record {
    id = guid f p.chain_id p.collection_address p.premint.uid;
    version = p.premint.version;
    kind = record { name = n.kind };
    signer = p.collection.contract_admin;
    chain_id = p.chain_id;
    collection_address = p.collection_address;
    token_id = p.premint.uid;
    uri = n.token_uri p.premint.token_config;
  }
