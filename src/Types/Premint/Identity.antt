-- ===== src/Types/Premint/Identity.antt =====
-- The ids of premints (src/types.rs, src/premints/zora_premint/types.rs) as keys.
use mintpool.Prelude.{ℕ, ◌≡◌, ◌↔◌, refl, sym, ◌∙◌}
use mintpool.Prelude.Decimal.{show, show_inj}
use mintpool.Prelude.Text.{join_colon-inj, show-HasNoColon}
use mintpool.Types.Data.{Formats, FormatsLaws}
use mintpool.Zora.Premint.{guid}
use mintpool.Types.Premint.{PremintTypes, simple, zora_v2, zora_erc20_v1, metadata}

-- The three parts of the id.
abbrev pub issuer : PremintTypes → ℕ
issuer (simple p) = p.sender
issuer (zora_v2 p) = p.collection_address
issuer (zora_erc20_v1 p) = p.collection_address

abbrev pub chain : PremintTypes → ℕ
chain (simple p) = p.chain_id
chain (zora_v2 p) = p.chain_id
chain (zora_erc20_v1 p) = p.chain_id

abbrev pub token : PremintTypes → ℕ
token (simple p) = p.token_id
token (zora_v2 p) = p.premint.uid
token (zora_erc20_v1 p) = p.premint.uid

module _ (f : Formats) (laws : FormatsLaws f) where
  guid_inj : (c c' a a' u u' : ℕ) → guid f c a u ≡ guid f c' a' u' → (c ≡ c') × (a ≡ a') × (u ≡ u')
  unfolding guid
  guid_inj c c' a a' u u' e =
      let outer =
        join_colon-inj (show c) (show c') _ _ (show-HasNoColon c) (show-HasNoColon c') e in
      let inner =
        join_colon-inj (f.address_debug a) (f.address_debug a') (show u) (show u')
          (laws.address_debug_no_colon a) (laws.address_debug_no_colon a') outer.1 in
      (show_inj c c' outer.0, laws.address_debug_inj a a' inner.0, show_inj u u' inner.1)

  id-guid : (p : PremintTypes) → (metadata f p).id ≡ guid f (chain p) (issuer p) (token p)
  unfolding metadata
  id-guid (simple p) = refl
  id-guid (zora_v2 p) = refl
  id-guid (zora_erc20_v1 p) = refl

  -- Where addresses print differently and without colons, two premints have one id exactly when they agree in chain, issuing address and token.
  pub id-eq_iff :
      (p q : PremintTypes)
      → ((metadata f p).id ≡ (metadata f q).id)
        ↔ ((chain p ≡ chain q) × (issuer p ≡ issuer q) × (token p ≡ token q))
  id-eq_iff p q = (
    (λ e.
        guid_inj (chain p) (chain q) (issuer p) (issuer q) (token p) (token q)
          (sym (id-guid p) ∙ e ∙ id-guid q)),
    (λ h. id-guid p ∙ rw (h.0, h.1, h.2) (sym (id-guid q))),
  )
