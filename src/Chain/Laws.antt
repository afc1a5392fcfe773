-- ===== src/Chain/Laws.antt =====
-- When `inclusion_claim_correct` (src/chain.rs) confirms a claim, and when it panics.
use mintpool.Prelude.{
  ℕ, ◌≡◌, ◌↔◌, ◌⊎◌, inl, inr, refl, sym, ap, ◌∙◌, Bool, true, List, Option, none, some, Result, ok,
  err, get_elem?, str_append,
}
use mintpool.Prelude.Decimal.{show}
use mintpool.Types.Data.{Report, message, Formats, InclusionClaim}
use mintpool.Types.Premint.{
  PremintTypes, simple, zora_v2, zora_erc20_v1, SimplePremint, verify_claim,
}
use mintpool.Zora.Claims.{Log, TransactionReceipt, PremintedV2, unwrap_or_default}
use mintpool.Zora.Claims
use mintpool.Zora.Claims.Laws.{verify_claim_iff}
use mintpool.Rules.Context.{Provider}
use mintpool.Chain.{checked, claimed_log, claimed_tx, inclusion_claim_correct}

-- The chain has the claimed transaction, and a log stands at the claimed place of its receipt.
pub record Found (get_rpc : ℕ → Result Provider Report) (claim : InclusionClaim) : Type 0 where
  pub chain : Provider
  pub tx : TransactionReceipt
  pub log : Log
  pub rpc_ok : get_rpc claim.chain_id ≡ ok chain
  pub receipt_ok : chain.get_transaction_receipt claim.tx_hash ≡ ok (some tx)
  pub log_ok : get_elem? tx.logs claim.log_index ≡ some log

module _ (f : Formats) (decode_raw_log : List ℕ → List ℕ → Result PremintedV2 Report)
    (get_rpc : ℕ → Result Provider Report) (premint : PremintTypes) (claim : InclusionClaim) where
  verdict : Found get_rpc claim → Option (Result Bool Report)
  verdict found =
      checked (verify_claim f decode_raw_log premint claim.chain_id found.tx found.log claim)

  Found-verdict :
      (found : Found get_rpc claim)
      → inclusion_claim_correct f decode_raw_log get_rpc premint claim
        ≡ checked (verify_claim f decode_raw_log premint claim.chain_id found.tx found.log claim)
  unfolding inclusion_claim_correct claimed_tx claimed_log
  Found-verdict found = simp (found.rpc_ok, found.receipt_ok, found.log_ok, inclusion_claim_correct)

  -- The check ends in an error, or it found the log.
  inclusion-cases :
      ((e : Report) × (inclusion_claim_correct f decode_raw_log get_rpc premint claim
          ≡ some (err e)))
      ⊎ Found get_rpc claim
  unfolding inclusion_claim_correct claimed_tx claimed_log
  inclusion-cases = by_rpc (get_rpc claim.chain_id) refl
    where
      by_log :
          (chain : Provider) (tx : TransactionReceipt) (o : Option Log)
          → get_rpc claim.chain_id ≡ ok chain
          → chain.get_transaction_receipt claim.tx_hash ≡ ok (some tx)
          → get_elem? tx.logs claim.log_index ≡ o
          → ((e : Report) × (inclusion_claim_correct f decode_raw_log get_rpc premint claim
                ≡ some (err e)))
            ⊎ Found get_rpc claim
      by_log chain tx none h k l = inl (
        message (str_append "log index not found: " (show claim.log_index)),
        simp (h, k, l, inclusion_claim_correct),
      )
      by_log chain tx (some log) h k l =
          inr (record { chain = chain; tx = tx; log = log; rpc_ok = h; receipt_ok = k; log_ok = l })

      by_receipt :
          (chain : Provider) (r : Result (Option TransactionReceipt) Report)
          → get_rpc claim.chain_id ≡ ok chain
          → chain.get_transaction_receipt claim.tx_hash ≡ r
          → ((e : Report) × (inclusion_claim_correct f decode_raw_log get_rpc premint claim
                ≡ some (err e)))
            ⊎ Found get_rpc claim
      by_receipt chain (err e) h k = inl (e, simp (h, k, inclusion_claim_correct))
      by_receipt chain (ok none) h k =
          inl (message "transaction not found", simp (h, k, inclusion_claim_correct))
      by_receipt chain (ok (some tx)) h k =
          by_log chain tx (get_elem? tx.logs claim.log_index) h k refl

      by_rpc :
          (r : Result Provider Report)
          → get_rpc claim.chain_id ≡ r
          → ((e : Report) × (inclusion_claim_correct f decode_raw_log get_rpc premint claim
                ≡ some (err e)))
            ⊎ Found get_rpc claim
      by_rpc (err e) h = inl (e, simp (h, inclusion_claim_correct))
      by_rpc (ok chain) h = by_receipt chain (chain.get_transaction_receipt claim.tx_hash) h refl

  checked-true : (o : Option Bool) → checked o ≡ some (ok true) → o ≡ some true
  checked-true none h = cc h
  checked-true (some b) h = cc h

  checked-none : (o : Option Bool) → checked o ≡ none → o ≡ none
  checked-none none h = refl
  checked-none (some b) h = cc h

  -- What a verified claim says of its log, for the premints that can verify one.
  verified-log :
      (q : PremintTypes) (chain_id : ℕ) (tx : TransactionReceipt) (log : Log)
      → verify_claim f decode_raw_log q chain_id tx log claim ≡ some true
      → (log.address ≡ Claims.premint_factory_addr)
        × (claim.tx_hash ≡ tx.transaction_hash)
        × (claim.log_index ≡ unwrap_or_default log.log_index)
  unfolding verify_claim
  verified-log (simple q) chain_id tx log h = cc h
  verified-log (zora_v2 q) chain_id tx log h =
      let (event, d, w) = (verify_claim_iff f decode_raw_log q chain_id tx log claim).0 (cc h) in
      (w.from_factory, w.claim_of_tx, w.claim_of_log)
  verified-log (zora_erc20_v1 q) chain_id tx log h =
      let (event, d, w) = (verify_claim_iff f decode_raw_log q chain_id tx log claim).0 (cc h) in
      (w.from_factory, w.claim_of_tx, w.claim_of_log)

  -- A claim that is confirmed names a log of the factory in the receipt of its transaction; the
  -- place of the log among the receipt's logs is also the index that the log itself has.
  pub inclusion_claim_correct-true :
      inclusion_claim_correct f decode_raw_log get_rpc premint claim ≡ some (ok true)
      → (found : Found get_rpc claim) × (found.log.address ≡ Claims.premint_factory_addr)
        × (found.tx.transaction_hash ≡ claim.tx_hash)
        × (get_elem? found.tx.logs (unwrap_or_default found.log.log_index) ≡ some found.log)
  inclusion_claim_correct-true h = elim inclusion-cases [
    | inl (e, x) ↦ cc (x, h)
    | inr found ↦
        let verified = checked-true _ (sym (Found-verdict found) ∙ h) in
        let (a, b, c) = verified-log premint claim.chain_id found.tx found.log verified in
        (found, a, sym b, ap (get_elem? found.tx.logs) (sym c) ∙ found.log_ok)
  ]

  simple-panics :
      (q : PremintTypes) (chain_id : ℕ) (tx : TransactionReceipt) (log : Log)
      → (verify_claim f decode_raw_log q chain_id tx log claim ≡ none)
        ↔ ((p : SimplePremint) × (q ≡ simple p))
  unfolding verify_claim
  simple-panics (simple q) chain_id tx log = ((λ _. (q, refl)), (λ _. refl))
  simple-panics (zora_v2 q) chain_id tx log = ((λ h. cc h), (λ h. let (p, e) = h in cc e))
  simple-panics (zora_erc20_v1 q) chain_id tx log = ((λ h. cc h), (λ h. let (p, e) = h in cc e))

  -- The check panics exactly when the claimed log is found and the premint is a `SimplePremint`.
  pub inclusion_claim_correct-panic_iff :
      (inclusion_claim_correct f decode_raw_log get_rpc premint claim ≡ none)
      ↔ (Found get_rpc claim × ((p : SimplePremint) × (premint ≡ simple p)))
  inclusion_claim_correct-panic_iff = (
    (λ h. elim inclusion-cases [
      | inl (e, x) ↦ cc (x, h)
      | inr found ↦ (
        found,
        (simple-panics premint claim.chain_id found.tx found.log).0
            (checked-none _ (sym (Found-verdict found) ∙ h)),
      )
    ]),
    (λ h.
        let (found, is_simple) = h in
        Found-verdict found
        ∙ ap checked ((simple-panics premint claim.chain_id found.tx found.log).1 is_simple)),
  )
