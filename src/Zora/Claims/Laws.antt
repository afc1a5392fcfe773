-- ===== src/Zora/Claims/Laws.antt =====
-- `map_claim` and `verify_claim` (src/premints/zora_premint/types.rs) against one another.
use mintpool.Prelude.{
  ℕ, ◌≡◌, ◌↔◌, refl, sym, ap, ◌∙◌, true, List, Result, ok, err, eq_iff, all, arith,
}
use mintpool.Types.Data.{Report, Formats, InclusionClaim}
use mintpool.Zora.Premint.{Namespace, ZoraPremint}
use mintpool.Zora.Claims.{
  Log, TransactionReceipt, PremintedV2, premint_factory_addr, unwrap_or_default, event_to_guid,
  map_claim, verify_claim, conditions,
}

-- What a verified claim asserts of the log, the receipt, the premint and the event.
pub record Verified {C : Type 0} (f : Formats) (p : ZoraPremint C) (chain_id : ℕ)
    (tx : TransactionReceipt) (log : Log) (claim : InclusionClaim) (event : PremintedV2)
    : Type 0 where
  pub from_factory : log.address ≡ premint_factory_addr
  pub log_of_tx : unwrap_or_default log.transaction_hash ≡ tx.transaction_hash
  pub claim_of_tx : claim.tx_hash ≡ tx.transaction_hash
  pub claim_of_log : claim.log_index ≡ unwrap_or_default log.log_index
  pub claim_id : claim.premint_id ≡ event_to_guid f chain_id event
  pub claim_kind : claim.kind ≡ "zora_premint_v2"
  pub claim_chain : claim.chain_id ≡ chain_id
  pub same_contract : p.collection_address ≡ event.contract_address
  pub same_uid : p.premint.uid ≡ event.uid

module _ (f : Formats) (decode_raw_log : List ℕ → List ℕ → Result PremintedV2 Report) where
  module _ {C : Type 0} (p : ZoraPremint C) (chain_id : ℕ) (tx : TransactionReceipt) (log : Log)
      (claim : InclusionClaim) where
    all-conditions :
        (event : PremintedV2)
        → all (λ b. b) (conditions f decode_raw_log p chain_id tx log claim event) ≡ true
        → Verified f p chain_id tx log claim event
    unfolding conditions
    all-conditions event h = ground (
      arith,
      eq_iff claim.premint_id (event_to_guid f chain_id event),
      eq_iff claim.kind "zora_premint_v2",
    )

    Verified-conditions :
        (event : PremintedV2)
        → Verified f p chain_id tx log claim event
        → all (λ b. b) (conditions f decode_raw_log p chain_id tx log claim event) ≡ true
    unfolding conditions
    Verified-conditions event h = ground (
      arith,
      eq_iff claim.premint_id (event_to_guid f chain_id event),
      eq_iff claim.kind "zora_premint_v2",
    )

    -- Verification succeeds exactly when the log decodes and all nine conditions hold.
    pub verify_claim_iff : (verify_claim f decode_raw_log p chain_id tx log claim ≡ true) ↔ (
        (event : PremintedV2) × (decode_raw_log log.topics log.log_data ≡ ok event)
        × Verified f p chain_id tx log claim event)
    unfolding verify_claim
    verify_claim_iff = (
      forward (decode_raw_log log.topics log.log_data) refl,
      λ h. rw (h.1, verify_claim) (Verified-conditions h.0 h.2),
    )
      where
        forward :
            (r : Result PremintedV2 Report)
            → decode_raw_log log.topics log.log_data ≡ r
            → verify_claim f decode_raw_log p chain_id tx log claim ≡ true
            → (event : PremintedV2) × (decode_raw_log log.topics log.log_data ≡ ok event)
              × Verified f p chain_id tx log claim event
        forward (ok event) e h = (event, e, all-conditions event (rw (e, verify_claim) at h))
        forward (err x) e h = cc (rw (e, verify_claim) at h)

  module _ {C D : Type 0} (n : Namespace C) (p : ZoraPremint D) (chain_id : ℕ)
      (tx : TransactionReceipt) (log : Log) (claim : InclusionClaim) (event : PremintedV2)
      (decoded : decode_raw_log log.topics log.log_data ≡ ok event)
      (mapped : map_claim f decode_raw_log n chain_id log ≡ ok claim) where
    -- The claim that `map_claim` makes of a log.
    mapped_fields :
        (claim.premint_id ≡ event_to_guid f chain_id event)
        × (claim.chain_id ≡ chain_id)
        × (claim.tx_hash ≡ unwrap_or_default log.transaction_hash)
        × (claim.log_index ≡ unwrap_or_default log.log_index)
        × (claim.kind ≡ n.kind)
    unfolding map_claim
    mapped_fields = let e = rw (decoded, map_claim) at mapped in (cc e, cc e, cc e, cc e, cc e)

    -- Where the log decodes and a namespace maps it to a claim, the claim verifies a premint exactly when the kind of the
    -- namespace is "zora_premint_v2", the log comes from the factory and from the receipt's
    -- transaction, and the event names the premint's contract and uid.
    pub verify_claim-map_claim : (verify_claim f decode_raw_log p chain_id tx log claim ≡ true) ↔ (
        (n.kind ≡ "zora_premint_v2")
        × (log.address ≡ premint_factory_addr)
        × (unwrap_or_default log.transaction_hash ≡ tx.transaction_hash)
        × (p.collection_address ≡ event.contract_address)
        × (p.premint.uid ≡ event.uid))
    verify_claim-map_claim =
        let m = mapped_fields in
        let v = verify_claim_iff p chain_id tx log claim in
        (
          (λ h.
              let (event', d, w) = v.0 h in
              let same : event' ≡ event = cc (d, decoded) in
              (
                sym m.4 ∙ w.claim_kind,
                w.from_factory,
                w.log_of_tx,
                w.same_contract ∙ ap (λ e. e.contract_address) same,
                w.same_uid ∙ ap (λ e. e.uid) same,
              )),
          (λ h. v.1 (
            event,
            decoded,
            record {
              from_factory = h.1;
              log_of_tx = h.2;
              claim_of_tx = m.2 ∙ h.2;
              claim_of_log = m.3;
              claim_id = m.0;
              claim_kind = m.4 ∙ h.0;
              claim_chain = m.1;
              same_contract = h.3;
              same_uid = h.4;
            },
          )),
        )
