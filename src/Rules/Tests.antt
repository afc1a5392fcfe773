-- ===== src/Rules/Tests.antt =====
-- Runs of src/rules.rs and src/premints/zora_premint/rules.rs, and the theorems about them at
-- concrete premints.
use mintpool.Prelude.{◌≡◌, ◌↔◌, refl, true, false, [], ◌∷◌, none, ok, err}
use mintpool.Types.Data.{message}
use mintpool.Types.Premint.{zora_v2, zora_erc20_v1, metadata}
use mintpool.Storage.Query.{get_for_id_and_kind}
use mintpool.Rules.Evaluation.{reject, Results, is_err, is_accept, only_failures, display_results}
use mintpool.Rules.Context.{Reader, reader}
use mintpool.Rules.Engine.{new_with_default_rules, evaluate}
use mintpool.Rules.Engine.Laws.Valid.{Fresh, Signed}
use mintpool.Rules.Engine.Laws.Verdict.{
  context_of, evaluate-v2, evaluate-erc20_v1, evaluate-unparsed,
}
use mintpool.Fixtures.{formats, json, empty_db, signed, unparsed, erc20, crypto, contract, get_rpc}

-- One rule fails, and one rejects.
abbrev mixed : Results
mixed =
    record { rule_name = "A"; result = err (message "no answer") }
    ∷ record { rule_name = "B"; result = ok (reject "bad") }
    ∷ []

-- The failure makes the results accepted, although `only_failures` has two.
mixed_run : is_accept mixed ≡ true
unfolding is_accept
mixed_run = refl

failures_run : only_failures mixed ≡ mixed
unfolding only_failures
failures_run = refl

display_run : display_results mixed ≡ "A: Error (no answer)\nB: Reject (bad)"
unfolding display_results
display_run = refl

abbrev store : Reader
store = reader json empty_db

evaluate-v2_example :
    (rs : Results) × (evaluate formats get_rpc
        (new_with_default_rules formats contract crypto true)
        (zora_v2 signed)
        store
      ≡ ok rs)
    × (((is_err rs ≡ false) × (is_accept rs ≡ true)) ↔ (
        Fresh formats
          (metadata formats (zora_v2 signed))
          (context_of formats get_rpc true (zora_v2 signed) store none)
        × Signed contract crypto signed
            (context_of formats get_rpc true (zora_v2 signed) store none)))
unfolding get_for_id_and_kind
evaluate-v2_example = evaluate-v2 formats contract crypto get_rpc true store none signed refl

evaluate-erc20_v1_example :
    (rs : Results) × (evaluate formats get_rpc
        (new_with_default_rules formats contract crypto true)
        (zora_erc20_v1 erc20)
        store
      ≡ ok rs)
    × (((is_err rs ≡ false) × (is_accept rs ≡ true))
        ↔ Fresh formats
            (metadata formats (zora_erc20_v1 erc20))
            (context_of formats get_rpc true (zora_erc20_v1 erc20) store none))
unfolding get_for_id_and_kind
evaluate-erc20_v1_example =
    evaluate-erc20_v1 formats contract crypto get_rpc true store none erc20 refl

evaluate-unparsed_example :
    (rs : Results) × (evaluate formats get_rpc
        (new_with_default_rules formats contract crypto true)
        (zora_v2 unparsed)
        store
      ≡ ok rs)
    × (is_accept rs ≡ true)
unfolding get_for_id_and_kind
evaluate-unparsed_example =
    evaluate-unparsed formats contract crypto get_rpc true store none unparsed
      (message "bad signature") refl refl
