-- ===== src/Chain.antt =====
-- src/chain.rs: `inclusion_claim_correct`.
pub mod Laws
pub mod Watcher
pub mod BootNodes
mod Tests
use mintpool.Prelude.{
  ℕ, String, Bool, List, Option, none, some, Result, ok, err, get_elem?, str_append,
}
use mintpool.Prelude.Decimal.{show}
use mintpool.Types.Data.{Report, message, Formats, InclusionClaim}
use mintpool.Types.Premint.{PremintTypes, verify_claim}
use mintpool.Zora.Claims.{Log, TransactionReceipt, PremintedV2}
use mintpool.Rules.Context.{Provider}

abbrev pub tx_not_found : Report
tx_not_found = message "transaction not found"

abbrev pub checked : Option Bool → Option (Result Bool Report)
checked none = none
checked (some b) = some (ok b)

module _ (f : Formats) (decode_raw_log : List ℕ → List ℕ → Result PremintedV2 Report) where
  unfoldable pub claimed_log :
      PremintTypes → InclusionClaim → TransactionReceipt → Option Log → Option (Result Bool Report)
  unfolding verify_claim
  claimed_log premint claim tx none =
      some (err (message (str_append "log index not found: " (show claim.log_index))))
  claimed_log premint claim tx (some log) =
      checked (verify_claim f decode_raw_log premint claim.chain_id tx log claim)

  unfoldable pub claimed_tx :
      PremintTypes
      → InclusionClaim
      → Result (Option TransactionReceipt) Report
      → Option (Result Bool Report)
  unfolding claimed_log
  claimed_tx premint claim (err e) = some (err e)
  claimed_tx premint claim (ok none) = some (err tx_not_found)
  claimed_tx premint claim (ok (some tx)) =
      claimed_log premint claim tx (get_elem? tx.logs claim.log_index)

  -- None is a panic. `get_rpc` is `CHAINS.get_rpc`.
  unfoldable pub inclusion_claim_correct :
      (ℕ → Result Provider Report) → PremintTypes → InclusionClaim → Option (Result Bool Report)
  unfolding claimed_tx
  inclusion_claim_correct get_rpc premint claim = elim (get_rpc claim.chain_id) [
    | err e ↦ some (err e)
    | ok chain ↦ claimed_tx premint claim (chain.get_transaction_receipt claim.tx_hash)
  ]
