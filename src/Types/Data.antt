-- ===== src/Types/Data.antt =====
-- src/types.rs: the plain data, and the texts and errors that libraries make.
use mintpool.Prelude.{ℕ, ◌≡◌, String}
use mintpool.Prelude.Text.{HasNoColon}

-- `eyre::Report`, with the two errors that the program looks for inside one.
pub data Report : Type 0 where
  row_not_found : Report
  message : String → Report

-- How libraries print addresses and times: `{:?}`, `Display` and `to_checksum(None)` of an
-- `Address`, and `to_string` of a time. An address is its number.
pub record Formats : Type 0 where
  pub address_debug : ℕ → String
  pub address_to_string : ℕ → String
  pub to_checksum : ℕ → String
  pub time_to_string : ℕ → String

-- What the program relies on: `{:?}` and the checksummed form are hexadecimal and print different
-- addresses differently, and `Display` prints the checksummed form.
pub record FormatsLaws (f : Formats) : Type 0 where
  pub address_debug_inj : (a b : ℕ) → f.address_debug a ≡ f.address_debug b → a ≡ b
  pub address_debug_no_colon : (a : ℕ) → HasNoColon (f.address_debug a)
  pub to_checksum_inj : (a b : ℕ) → f.to_checksum a ≡ f.to_checksum b → a ≡ b
  pub display_is_checksum : (a : ℕ) → f.address_to_string a ≡ f.to_checksum a

-- `PremintName(pub String)`
pub record PremintName : Type 0 where
  pub name : String

pub record PremintMetadata : Type 0 where
  pub id : String
  pub version : ℕ
  pub kind : PremintName
  pub signer : ℕ
  pub chain_id : ℕ
  pub collection_address : ℕ
  pub token_id : ℕ
  pub uri : String

pub record InclusionClaim : Type 0 where
  pub premint_id : String
  pub chain_id : ℕ
  pub tx_hash : ℕ
  pub log_index : ℕ
  pub kind : String

pub record PeerInclusionClaim : Type 0 where
  pub claim : InclusionClaim
  pub from_peer_id : String
