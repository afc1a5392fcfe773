-- ===== src/Config/Laws.antt =====
-- src/config.rs: which configurations are valid.
use mintpool.Prelude.{
  ℕ, ◌≡◌, refl, ap, ◌∙◌, String, Bool, true, false, List, all, Option, none, some, if◌then◌else◌,
}
use mintpool.Config.{Config, supported_chains, validate}

module _ (parse : String → Option ℕ) (is_chain : ℕ → Bool) (config : Config) where
  -- The configured chains parse, and are known.
  abbrev pub AreValid : List ℕ → Type 0
  AreValid chains = (supported_chains parse config ≡ some chains) × (all is_chain chains ≡ true)

  pub validate-valid :
      (chains : List ℕ) → AreValid chains → validate parse is_chain config ≡ some config
  unfolding validate
  validate-valid chains h =
      ap
        (λ (parsed : Option (List ℕ)). elim parsed [
          | none ↦ none
          | some chains ↦ if all is_chain chains then some config else none
        ])
        h.0
      ∙ ap (λ known. if known then some config else none) h.1

  pub validate-AreValid :
      (c : Config)
      → validate parse is_chain config ≡ some c
      → (c ≡ config) × ((chains : List ℕ) × AreValid chains)
  unfolding validate
  validate-AreValid c h = by_chains (supported_chains parse config) refl h
    where
      by_all :
          (chains : List ℕ) (known : Bool)
          → supported_chains parse config ≡ some chains
          → all is_chain chains ≡ known
          → (if known then some config else none) ≡ some c
          → (c ≡ config) × ((chains : List ℕ) × AreValid chains)
      by_all chains false parses known h = cc h
      by_all chains true parses known h = (cc h, (chains, (parses, known)))

      by_chains :
          (parsed : Option (List ℕ))
          → supported_chains parse config ≡ parsed
          → elim parsed [
            | none ↦ none
            | some chains ↦ if all is_chain chains then some config else none
          ]
            ≡ some c
          → (c ≡ config) × ((chains : List ℕ) × AreValid chains)
      by_chains none parses h = cc h
      by_chains (some chains) parses h = by_all chains (all is_chain chains) parses refl h
