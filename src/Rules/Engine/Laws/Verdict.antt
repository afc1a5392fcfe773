-- ===== src/Rules/Engine/Laws/Verdict.antt =====
-- The evaluation of a premint by the default rules of src/rules.rs.
use mintpool.Prelude.{
  ℕ, ◌≡◌, ◌↔◌, inl, inr, refl, ap, ◌∙◌, Bool, true, false, List, [], ◌∷◌, map, Option, Result, ok,
  err, any-false_iff, iff_trans, Bool-cases, is_err as failed,
}
use mintpool.Types.Data.{Report, Formats}
use mintpool.Types.Premint.{PremintTypes, zora_v2, zora_erc20_v1, metadata}
use mintpool.Zora.Premint.{ZoraPremint, TokenCreationConfigV2, TokenCreationConfigErc20V1, v2}
use mintpool.Rules.Evaluation.{Results, is_err, is_accept}
use mintpool.Rules.Evaluation.Laws.{is_accept_iff, is_accept-Passes}
use mintpool.Rules.Context.{Reader, Provider, RuleContext, Rule}
use mintpool.Rules.Signed.{Contract, Crypto}
use mintpool.Rules.Engine.{
  RulesEngine, all_rules, new_with_default_rules, existing_of, check_all, rpc_for, evaluate,
}
use mintpool.Rules.Engine.Laws.{is_valid_signature-err}
use mintpool.Rules.Engine.Laws.Valid.{result_of, Fresh, Signed, v2-Passes, erc20_v1-Passes}

pub check_all-map :
    (rules : List Rule) (item : PremintTypes) (c : RuleContext)
    → check_all rules item c ≡ map (result_of item c) rules
check_all-map [] item c = refl
check_all-map (r ∷ rs) item c =
    ap (λ results. result_of item c r ∷ results) (check_all-map rs item c)

-- The context of an evaluation.
abbrev pub context_of :
    Formats
    → (ℕ → Result Provider Report)
    → Bool
    → PremintTypes
    → Reader
    → Option PremintTypes
    → RuleContext
context_of f get_rpc use_rpc item store existing = record {
  storage = store;
  existing = existing;
  rpc = rpc_for f get_rpc use_rpc (metadata f item).chain_id;
}

module _ (f : Formats) (get_rpc : ℕ → Result Provider Report) where
  -- An evaluation whose lookup of the existing premint ends well has one result for each rule, in their order: what the
  -- rule gives in one common context.
  pub evaluate-ok :
      (engine : RulesEngine) (item : PremintTypes) (store : Reader) (existing : Option PremintTypes)
      → existing_of (store.get_for_id_and_kind (metadata f item).id (metadata f item).kind)
        ≡ ok existing
      → evaluate f get_rpc engine item store
        ≡ ok (
            map
              (result_of item (context_of f get_rpc engine.use_rpc item store existing))
              engine.rules)
  unfolding evaluate
  evaluate-ok engine item store existing h =
      run
      ∙ ap ok (
          check_all-map engine.rules item (context_of f get_rpc engine.use_rpc item store existing))
    where
      run :
          evaluate f get_rpc engine item store
          ≡ ok (
              check_all engine.rules item (context_of f get_rpc engine.use_rpc item store existing))
      run = simp (h, evaluate)

module _ (f : Formats) (contract : Contract) (crypto : Crypto TokenCreationConfigV2) where
  module _ (get_rpc : ℕ → Result Provider Report) (use_rpc : Bool) (store : Reader)
      (existing : Option PremintTypes) where
    -- Under the default rules a V2 premint, whose lookup in the storage ends well, is evaluated; no
    -- rule fails and the results are accepted exactly when the premint is fresh, as the four general
    -- rules have it, and signed: the signature parses and recovers the contract admin, the chain is
    -- one of three, and the factory, where there is an RPC, authorizes it, has not minted it and
    -- supports its version.
    pub evaluate-v2 :
        (p : ZoraPremint TokenCreationConfigV2)
        → existing_of
            (store.get_for_id_and_kind (metadata f (zora_v2 p)).id (metadata f (zora_v2 p)).kind)
          ≡ ok existing
        → (rs : Results) × (evaluate f get_rpc
              (new_with_default_rules f contract crypto use_rpc)
              (zora_v2 p)
              store
            ≡ ok rs)
          × (((is_err rs ≡ false) × (is_accept rs ≡ true)) ↔ (
              Fresh f
                (metadata f (zora_v2 p))
                (context_of f get_rpc use_rpc (zora_v2 p) store existing)
              × Signed contract crypto p (context_of f get_rpc use_rpc (zora_v2 p) store existing)))
    unfolding new_with_default_rules
    evaluate-v2 p h =
        let c = context_of f get_rpc use_rpc (zora_v2 p) store existing in
        let rs = map (result_of (zora_v2 p) c) (all_rules f contract crypto) in
        (
          rs,
          evaluate-ok f get_rpc (new_with_default_rules f contract crypto use_rpc) (zora_v2 p) store
              existing h,
          iff_trans (is_accept-Passes rs) (v2-Passes f contract crypto p c),
        )

    -- Under the default rules an ERC20V1 premint, whose lookup in the storage ends well, is evaluated;
    -- no rule fails and the results are accepted exactly when it is fresh, as the four general rules
    -- have it: neither its signature nor its chain is checked.
    pub evaluate-erc20_v1 :
        (p : ZoraPremint TokenCreationConfigErc20V1)
        → existing_of (
            store.get_for_id_and_kind
              (metadata f (zora_erc20_v1 p)).id
              (metadata f (zora_erc20_v1 p)).kind)
          ≡ ok existing
        → (rs : Results) × (evaluate f get_rpc
              (new_with_default_rules f contract crypto use_rpc)
              (zora_erc20_v1 p)
              store
            ≡ ok rs)
          × (((is_err rs ≡ false) × (is_accept rs ≡ true))
              ↔ Fresh f
                  (metadata f (zora_erc20_v1 p))
                  (context_of f get_rpc use_rpc (zora_erc20_v1 p) store existing))
    unfolding new_with_default_rules
    evaluate-erc20_v1 p h =
        let c = context_of f get_rpc use_rpc (zora_erc20_v1 p) store existing in
        let rs = map (result_of (zora_erc20_v1 p) c) (all_rules f contract crypto) in
        (
          rs,
          evaluate-ok f get_rpc (new_with_default_rules f contract crypto use_rpc) (zora_erc20_v1 p)
              store existing h,
          iff_trans (is_accept-Passes rs) (erc20_v1-Passes f contract crypto p c),
        )

    -- Under the default rules a V2 premint whose lookup in the storage ends well and whose signature
    -- does not parse is evaluated and accepted, whatever the other rules say.
    pub evaluate-unparsed :
        (p : ZoraPremint TokenCreationConfigV2) (e : Report)
        → existing_of
            (store.get_for_id_and_kind (metadata f (zora_v2 p)).id (metadata f (zora_v2 p)).kind)
          ≡ ok existing
        → crypto.signature_from_str p.signature ≡ err e
        → (rs : Results) × (evaluate f get_rpc
              (new_with_default_rules f contract crypto use_rpc)
              (zora_v2 p)
              store
            ≡ ok rs)
          × (is_accept rs ≡ true)
    unfolding new_with_default_rules all_rules is_err
    evaluate-unparsed p e h bad =
        let c = context_of f get_rpc use_rpc (zora_v2 p) store existing in
        let rs = map (result_of (zora_v2 p) c) (all_rules f contract crypto) in
        (
          rs,
          evaluate-ok f get_rpc (new_with_default_rules f contract crypto use_rpc) (zora_v2 p) store
              existing h,
          (is_accept_iff rs).1 (
              inl (elim (Bool-cases (is_err rs)) [
                | inl failing ↦ failing
                | inr clean ↦
                    let (a, (b, (d, (g, (i, (sound, rest)))))) =
                      (any-false_iff (λ r. failed r.result) rs).0 clean in
                    absurd (
                      cc (sound, ap failed (is_valid_signature-err f contract crypto v2 p c e bad)))
              ])),
        )
