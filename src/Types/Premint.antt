-- ===== src/Types/Premint.antt =====
-- src/types.rs: `SimplePremint`, `PremintTypes` and what is dispatched over its variants.
pub mod Identity
use mintpool.Prelude.{ℕ, String, Bool, List, Option, none, some, Result, ok, ◌≡◌}
use mintpool.Prelude.Decimal.{show}
use mintpool.Prelude.Text.{join_colon}
use mintpool.Types.Data.{Report, Formats, PremintName, PremintMetadata, InclusionClaim}
use mintpool.Zora.Premint.{
  ZoraPremint, TokenCreationConfigV2, TokenCreationConfigErc20V1, v2, erc20v1, guid,
}
use mintpool.Zora.Premint
use mintpool.Zora.Claims.{PremintedV2, Log, TransactionReceipt}
use mintpool.Zora.Claims

pub record SimplePremint : Type 0 where
  pub version : ℕ
  pub chain_id : ℕ
  pub sender : ℕ
  pub token_id : ℕ
  pub media : String

pub data PremintTypes : Type 0 where
  simple : SimplePremint → PremintTypes
  zora_v2 : ZoraPremint TokenCreationConfigV2 → PremintTypes
  zora_erc20_v1 : ZoraPremint TokenCreationConfigErc20V1 → PremintTypes

-- `SimplePremint::metadata`
unfoldable pub simple_metadata : Formats → SimplePremint → PremintMetadata
unfolding guid
simple_metadata f p = record {
  id = guid f p.chain_id p.sender p.token_id;
  version = p.version;
  kind = record { name = "simple" };
  signer = p.sender;
  chain_id = p.chain_id;
  collection_address = 0;
  token_id = p.token_id;
  uri = p.media;
}

-- `PremintTypes::metadata`
unfoldable pub metadata : Formats → PremintTypes → PremintMetadata
unfolding simple_metadata Premint.metadata
metadata f (simple p) = simple_metadata f p
metadata f (zora_v2 p) = Premint.metadata v2 f p
metadata f (zora_erc20_v1 p) = Premint.metadata erc20v1 f p

-- `serde_json`, for premints.
pub record Json : Type 0 where
  pub to_json : PremintTypes → Result String Report
  pub from_json : String → Result PremintTypes Report

-- Reading what was written gives it back.
abbrev pub RoundTrips : Json → Type 0
RoundTrips j = (p : PremintTypes) (s : String) → j.to_json p ≡ ok s → j.from_json s ≡ ok p

-- `PremintTypes::verify_claim`; `none` is the panic of a `todo!()`.
module _ (f : Formats) (decode_raw_log : List ℕ → List ℕ → Result PremintedV2 Report) where
  unfoldable pub verify_claim :
      PremintTypes → ℕ → TransactionReceipt → Log → InclusionClaim → Option Bool
  unfolding Claims.verify_claim
  verify_claim (simple p) chain_id tx log claim = none
  verify_claim (zora_v2 p) chain_id tx log claim =
      some (Claims.verify_claim f decode_raw_log p chain_id tx log claim)
  verify_claim (zora_erc20_v1 p) chain_id tx log claim =
      some (Claims.verify_claim f decode_raw_log p chain_id tx log claim)
