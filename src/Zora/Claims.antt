-- ===== src/Zora/Claims.antt =====
-- src/premints/zora_premint/types.rs: `event_to_guid`, `check_filter`, `map_claim`, `verify_claim`;
-- contract.rs: the factory's address.
pub mod Laws
use mintpool.Prelude.{
  ℕ, String, Bool, true, false, List, [], ◌∷◌, Option, none, some, Result, ok, err, ◌==◌, str_eq,
  all, any, not, if◌then◌else◌, ◌>>=◌,
}
use mintpool.Types.Data.{Report, Formats, InclusionClaim}
use mintpool.Zora.Premint.{Namespace, ZoraPremint, guid}

abbrev pub premint_factory_addr : ℕ
premint_factory_addr = 0x7777773606e7e46C8Ba8B98C08f5cD218e31d340

-- `alloy::rpc::types::eth::Log`, as far as it is read.
pub record Log : Type 0 where
  pub address : ℕ
  pub topics : List ℕ
  pub log_data : List ℕ
  pub transaction_hash : Option ℕ
  pub log_index : Option ℕ
  pub block_number : Option ℕ

pub record TransactionReceipt : Type 0 where
  pub transaction_hash : ℕ
  pub logs : List Log

-- `$namespace::PremintedV2`, as far as it is read.
pub record PremintedV2 : Type 0 where
  pub contract_address : ℕ
  pub uid : ℕ

pub record Filter : Type 0 where
  pub address : ℕ
  pub event_signature : String
  pub from_block : Option ℕ

abbrev pub unwrap_or_default : Option ℕ → ℕ
unwrap_or_default none = 0
unwrap_or_default (some n) = n

unfoldable pub event_to_guid : Formats → ℕ → PremintedV2 → String
unfolding guid
event_to_guid f chain_id event = guid f chain_id event.contract_address event.uid

-- `signature` is `PremintedV2::SIGNATURE`.
unfoldable pub check_filter : String → ℕ → Option Filter
check_filter signature chain_id =
    let supported_chains : List ℕ = 7777777 ∷ 8453 ∷ [] in
    if not (any (λ c. c == chain_id) supported_chains)
    then none
    else some
        (record { address = premint_factory_addr; event_signature = signature; from_block = none })

-- `decode_raw_log` of the generated event type reads the topics and the data of a log.
module _ (f : Formats) (decode_raw_log : List ℕ → List ℕ → Result PremintedV2 Report) where
  module _ {C : Type 0} (n : Namespace C) where
    unfoldable pub map_claim : ℕ → Log → Result InclusionClaim Report
    unfolding event_to_guid
    map_claim chain_id log = do
      event ← decode_raw_log log.topics log.log_data
      ok (record {
        premint_id = event_to_guid f chain_id event;
        chain_id = chain_id;
        tx_hash = unwrap_or_default log.transaction_hash;
        log_index = unwrap_or_default log.log_index;
        kind = n.kind;
      })

  module _ {C : Type 0} where
    unfoldable pub conditions :
        ZoraPremint C → ℕ → TransactionReceipt → Log → InclusionClaim → PremintedV2 → List Bool
    unfolding event_to_guid
    conditions p chain_id tx log claim event =
        (log.address == premint_factory_addr)
        ∷ (unwrap_or_default log.transaction_hash == tx.transaction_hash)
        ∷ (claim.tx_hash == tx.transaction_hash)
        ∷ (claim.log_index == unwrap_or_default log.log_index)
        ∷ str_eq claim.premint_id (event_to_guid f chain_id event)
        ∷ str_eq claim.kind "zora_premint_v2"
        ∷ (claim.chain_id == chain_id)
        ∷ (p.collection_address == event.contract_address)
        ∷ (p.premint.uid == event.uid)
        ∷ []

    unfoldable pub verify_claim :
        ZoraPremint C → ℕ → TransactionReceipt → Log → InclusionClaim → Bool
    unfolding conditions
    verify_claim p chain_id tx log claim = elim (decode_raw_log log.topics log.log_data) [
      | ok event ↦ all (λ b. b) (conditions p chain_id tx log claim event)
      | err e ↦ false
    ]
