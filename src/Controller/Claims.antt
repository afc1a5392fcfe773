-- ===== src/Controller/Claims.antt =====
-- What a peer's claim does to the controller's state (src/controller.rs).
use mintpool.Prelude.{
  ◌≡◌, ◌⊎◌, inl, inr, refl, sym, subst, Bool, true, false, Option, none, some, Result, ok, err,
  Bool-cases,
}
use mintpool.Config.{ChainInclusionMode, check, verify, trust}
use mintpool.Types.Data.{Report, PeerInclusionClaim}
use mintpool.Types.Premint.{PremintTypes}
use mintpool.Storage.Query.{get_for_id_and_kind}
use mintpool.Chain.{inclusion_claim_correct}
use mintpool.Controller.State.{Env, Controller, State}
use mintpool.Controller.Events.{
  mark, is_trusted, on_checked, on_found, check_claim, onchain_claim_in, handle_event_onchain_claim,
}

module _ (env : Env) (ctl : Controller) (c : PeerInclusionClaim) (s : State) where
  -- The stored premint under the claim's id and kind, and what the chain says of the claim.
  pub record Confirmed : Type 0 where
    pub premint : PremintTypes
    pub is_stored :
        get_for_id_and_kind env.json c.claim.premint_id (record { name = c.claim.kind }) s.db
        ≡ ok premint
    pub on_chain :
        inclusion_claim_correct env.formats env.decode_raw_log env.get_rpc premint c.claim
        ≡ some (ok true)

  -- Why a claim may mark: the chain confirms it for a stored premint, or the peer is trusted.
  abbrev pub Entitled : ChainInclusionMode → Type 0
  Entitled check = Confirmed
  Entitled verify = Confirmed
  Entitled trust = is_trusted env ctl c.from_peer_id ≡ true

  checked-cases :
      (o : Option (Result Bool Report))
      → ((o ≡ some (ok true)) × (on_checked env ctl c.claim o s ≡ some (mark ctl.store c.claim s)))
        ⊎ ((o ≡ none) × (on_checked env ctl c.claim o s ≡ none))
        ⊎ (on_checked env ctl c.claim o s ≡ some (ok tt, s))
  unfolding on_checked
  checked-cases none = inr (inl (refl, refl))
  checked-cases (some (ok true)) = inl (refl, refl)
  checked-cases (some (ok false)) = inr (inr refl)
  checked-cases (some (err e)) = inr (inr refl)

  -- A handled claim has marked, or nothing has changed.
  abbrev pub Handled : Type 0 → Option (Result (Unit {0}) Report × State) → Type 0
  Handled E none = Unit
  Handled E (some r) = (E × (r ≡ mark ctl.store c.claim s)) ⊎ (r.1 ≡ s)

  checked-Handled :
      (premint : PremintTypes)
      → get_for_id_and_kind env.json c.claim.premint_id (record { name = c.claim.kind }) s.db
        ≡ ok premint
      → Handled Confirmed (
          on_checked env ctl c.claim
            (inclusion_claim_correct env.formats env.decode_raw_log env.get_rpc premint c.claim)
            s)
  checked-Handled premint h =
      elim (checked-cases
        (inclusion_claim_correct env.formats env.decode_raw_log env.get_rpc premint c.claim)) [
          | inl (e, run) ↦
              subst (Handled Confirmed) (sym run)
                (inl (record { premint = premint; is_stored = h; on_chain = e }, refl))
          | inr (inl (e, run)) ↦ subst (Handled Confirmed) (sym run) tt
          | inr (inr run) ↦ subst (Handled Confirmed) (sym run) (inr refl)
        ]

  check_claim-Handled : Handled Confirmed (check_claim env ctl c.claim s)
  unfolding check_claim on_found
  check_claim-Handled =
      by_lookup
        (get_for_id_and_kind env.json c.claim.premint_id (record { name = c.claim.kind }) s.db) refl
    where
      by_lookup :
          (r : Result PremintTypes Report)
          → get_for_id_and_kind env.json c.claim.premint_id (record { name = c.claim.kind }) s.db
            ≡ r
          → Handled Confirmed (on_found env ctl c.claim r s)
      by_lookup (err e) h = inr refl
      by_lookup (ok premint) h = checked-Handled premint h

  claim_in-Handled :
      (mode : ChainInclusionMode) → Handled (Entitled mode) (onchain_claim_in env ctl mode c s)
  unfolding onchain_claim_in
  claim_in-Handled check = check_claim-Handled
  claim_in-Handled verify = check_claim-Handled
  claim_in-Handled trust = elim (Bool-cases (is_trusted env ctl c.from_peer_id)) [
    | inl y ↦ rw y (inl (refl, refl))
    | inr n ↦ rw n (inr refl)
  ]

  -- A peer's claim that is handled without a panic either leaves the state as it was, or marks what
  -- it claims; then, in the modes Check and Verify, a stored premint has its id and kind and the
  -- chain confirms the claim for it, and in the mode Trust the peer is a trusted one.
  pub handle_event_onchain_claim-Handled :
      Handled (Entitled ctl.config.chain_inclusion_mode) (handle_event_onchain_claim env ctl c s)
  unfolding handle_event_onchain_claim
  handle_event_onchain_claim-Handled = claim_in-Handled ctl.config.chain_inclusion_mode
