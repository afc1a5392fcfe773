-- ===== src/Rules/Engine.antt =====
-- src/rules.rs: `RulesEngine`.
pub mod Laws
use mintpool.Prelude.{
  ℕ, String, Bool, true, false, not, ◌&&◌, List, [], ◌∷◌, ◌++◌, map, Option, none, some, Result, ok,
  err, zip, to_option, ◌==◌, if◌then◌else◌,
}
use mintpool.Types.Data.{Report, row_not_found, message, Formats, PremintMetadata}
use mintpool.Types.Premint.{PremintTypes, metadata}
use mintpool.Zora.Premint.{TokenCreationConfigV2}
use mintpool.Rules.Evaluation.{Evaluation, RuleResult, Results}
use mintpool.Rules.Context.{Reader, Provider, RuleContext, Rule}
use mintpool.Rules.Signed.{Contract, Crypto, all_v2_rules}
use mintpool.Rules.General

pub record RulesEngine : Type 0 where
  pub rules : List Rule
  pub use_rpc : Bool

unfoldable pub all_rules : Formats → Contract → Crypto TokenCreationConfigV2 → List Rule
unfolding General.all_rules all_v2_rules
all_rules f contract crypto = General.all_rules f ++ all_v2_rules f contract crypto

abbrev pub new : Bool → RulesEngine
new enable_rpc = record { rules = []; use_rpc = enable_rpc }

abbrev pub add_rule : Rule → RulesEngine → RulesEngine
add_rule rule engine = record { rules = engine.rules ++ rule ∷ []; use_rpc = engine.use_rpc }

unfoldable pub add_default_rules :
    Formats → Contract → Crypto TokenCreationConfigV2 → RulesEngine → RulesEngine
unfolding all_rules
add_default_rules f contract crypto engine = record {
  rules = engine.rules ++ all_rules f contract crypto;
  use_rpc = engine.use_rpc;
}

unfoldable pub new_with_default_rules :
    Formats → Contract → Crypto TokenCreationConfigV2 → Bool → RulesEngine
unfolding add_default_rules
new_with_default_rules f contract crypto enable_rpc =
    add_default_rules f contract crypto (new enable_rpc)

-- No row is no premint; other errors end the evaluation.
abbrev pub existing_of : Result PremintTypes Report → Result (Option PremintTypes) Report
existing_of (ok p) = ok (some p)
existing_of (err row_not_found) = ok none
existing_of (err (message e)) = err (message e)

-- All rules are checked in one context; the results are in the order of the rules.
abbrev pub check_all : List Rule → PremintTypes → RuleContext → Results
check_all rules item context =
    map (λ r. record { rule_name = r.1.rule_name; result = r.0 })
      (zip (map (λ rule. rule.check item context) rules) rules)

-- `get_rpc` is `CHAINS.get_rpc`.
module _ (f : Formats) (get_rpc : ℕ → Result Provider Report) where
  abbrev pub rpc_for : Bool → ℕ → Option Provider
  rpc_for use_rpc chain_id =
      if use_rpc && not (chain_id == 0) then to_option (get_rpc chain_id) else none

  unfoldable pub evaluate : RulesEngine → PremintTypes → Reader → Result Results Report
  unfolding metadata
  evaluate engine item store =
      let m = metadata f item in
      elim (existing_of (store.get_for_id_and_kind m.id m.kind)) [
        | err e ↦ err e
        | ok existing ↦ ok (
            check_all engine.rules item (record {
              storage = store;
              existing = existing;
              rpc = rpc_for engine.use_rpc m.chain_id;
            }))
      ]
