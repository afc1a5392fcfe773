-- ===== src/Rules/Context.antt =====
-- What the rules read: the storage behind the trait `Reader` (src/storage.rs), the contracts behind
-- `view_contract_call` (src/chain.rs), and `RuleContext`, `Rule` (src/rules.rs).
use mintpool.Prelude.{ℕ, String, List, Option, Result, ok, err, str_append}
use mintpool.Types.Data.{Report, message, PremintName}
use mintpool.Types.Premint.{PremintTypes, Json}
use mintpool.Storage.Table.{Db}
use mintpool.Storage.Query.{list_all, get_for_id_and_kind, get_for_token_uri}
use mintpool.Zora.Claims.{TransactionReceipt}
use mintpool.Rules.Evaluation.{Evaluation}

-- The trait `Reader`.
pub record Reader : Type 0 where
  pub list_all : Result (List PremintTypes) Report
  pub get_for_id_and_kind : String → PremintName → Result PremintTypes Report
  pub get_for_token_uri : String → Result PremintTypes Report

-- `Reader for PremintStorage`
abbrev pub reader : Json → Db → Reader
reader j db = record {
  list_all = list_all j db;
  get_for_id_and_kind = λ id kind. get_for_id_and_kind j id kind db;
  get_for_token_uri = λ uri. get_for_token_uri j uri db;
}

-- `ChainListProvider`: a call of the latest block, by address and input, and the receipt of a
-- transaction, if there is one.
pub record Provider : Type 0 where
  pub call : ℕ → List ℕ → Result (List ℕ) String
  pub get_transaction_receipt : ℕ → Result (Option TransactionReceipt) Report

-- `SolCall`, with its call made.
pub record SolCall (Return : Type 0) : Type 0 where
  pub abi_encode : List ℕ
  pub abi_decode_returns : List ℕ → Result Return String

unfoldable pub view_contract_call : {R : Type 0} → SolCall R → Provider → ℕ → Result R Report
view_contract_call c provider address = elim (provider.call address c.abi_encode) [
  | err e ↦ err (message (str_append "Error calling contract: " e))
  | ok response ↦ elim (c.abi_decode_returns response) [
    | err e ↦ err (message (str_append "Error decoding contract response: " e))
    | ok r ↦ ok r
  ]
]

pub record RuleContext : Type 0 where
  pub storage : Reader
  pub existing : Option PremintTypes
  pub rpc : Option Provider

-- The trait `Rule`.
pub record Rule : Type 0 where
  pub rule_name : String
  pub check : PremintTypes → RuleContext → Result Evaluation Report
