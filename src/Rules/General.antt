-- ===== src/Rules/General.antt =====
-- src/rules.rs: the module `general` and `metadata_rule!`.
use mintpool.Prelude.{
  ℕ, ◌*◌, String, List, [], ◌∷◌, none, some, Result, ok, err, ltb, ◌==◌, str_eq, str_append,
  if◌then◌else◌,
}
use mintpool.Prelude.Decimal.{show}
use mintpool.Prelude.Utf8.{len, starts_with}
use mintpool.Types.Data.{Report, row_not_found, message, Formats, PremintMetadata}
use mintpool.Types.Premint.{PremintTypes, metadata}
use mintpool.Rules.Evaluation.{Evaluation, accept, ignore, reject}
use mintpool.Rules.Context.{RuleContext, Rule}

unfoldable pub max_allowed : String → ℕ
unfolding starts_with
max_allowed uri = if starts_with "data:" uri then 8 * 1024 else 2 * 1024

unfoldable pub token_uri_length : PremintMetadata → RuleContext → Result Evaluation Report
unfolding max_allowed len
token_uri_length meta context =
    let n = len meta.uri in
    if n == 0
    then ok (reject "Token URI is empty")
    else if ltb (max_allowed meta.uri) n
    then ok (
        reject (
          str_append "Token URI is too long: "
            (str_append (show n) (str_append " > " (show (max_allowed meta.uri))))))
    else ok accept

module _ (f : Formats) where
  unfoldable pub existing_uri :
      PremintMetadata → Result PremintTypes Report → Result Evaluation Report
  unfolding metadata
  existing_uri meta (err row_not_found) = ok accept
  existing_uri meta (err (message e)) = err (message e)
  existing_uri meta (ok existing) =
      if str_eq (metadata f existing).id meta.id
      then ok accept
      else ok (reject "Token URI already exists")

  unfoldable pub existing_token_uri : PremintMetadata → RuleContext → Result Evaluation Report
  unfolding existing_uri
  existing_token_uri meta context = existing_uri meta (context.storage.get_for_token_uri meta.uri)

  unfoldable pub signer_matches : PremintMetadata → RuleContext → Result Evaluation Report
  unfolding metadata
  signer_matches meta context = elim context.existing [
    | none ↦ ok (ignore "No existing premint")
    | some existing ↦
        if (metadata f existing).signer == meta.signer
        then ok accept
        else ok (reject "Signer does not match")
  ]

  unfoldable pub version_is_higher : PremintMetadata → RuleContext → Result Evaluation Report
  unfolding metadata
  version_is_higher meta context = elim context.existing [
    | none ↦ ok (ignore "No existing premint")
    | some existing ↦
        if ltb (metadata f existing).version meta.version
        then ok accept
        else ok (
            reject (
              str_append "Existing premint with version " (
                str_append (show (metadata f existing).version)
                  (str_append " exists, trying to store version " (show meta.version)))))
  ]

  -- `metadata_rule!`
  abbrev pub metadata_rule :
      String → (PremintMetadata → RuleContext → Result Evaluation Report) → Rule
  metadata_rule name rule = record {
    rule_name = str_append "Metadata::" name;
    check = λ item context. rule (metadata f item) context;
  }

  -- `general::all_rules`
  unfoldable pub all_rules : List Rule
  unfolding token_uri_length existing_token_uri signer_matches version_is_higher
  all_rules =
      metadata_rule "token_uri_length" token_uri_length
      ∷ metadata_rule "existing_token_uri" existing_token_uri
      ∷ metadata_rule "signer_matches" signer_matches
      ∷ metadata_rule "version_is_higher" version_is_higher
      ∷ []
