-- ===== src/Controller/Events.antt =====
-- src/controller.rs: `handle_event` and `handle_event_onchain_claim`.
use mintpool.Prelude.{
  String, Bool, true, false, List, [], ◌∷◌, Option, none, some, Result, ok, err, any, str_eq,
  str_append, if◌then◌else◌,
}
use mintpool.Config.{ChainInclusionMode, check, verify, trust, trusted_peers}
use mintpool.Types.Data.{Report, message, InclusionClaim, PeerInclusionClaim}
use mintpool.Types.Premint.{PremintTypes}
use mintpool.Storage.Store.{PremintStorage, mark_seen_on_chain}
use mintpool.Storage.Query.{get_for_id_and_kind, list_all_with_options}
use mintpool.Chain.{inclusion_claim_correct}
use mintpool.Controller.State.{
  P2pEvent, network_state, premint_received, mint_seen_onchain, sync_request, sync_response,
  premints, Env, Controller, State, with_db, state_after, send_reply, validate_and_insert,
}

-- `mark_seen_on_chain(...).await?`
unfoldable pub mark : PremintStorage → InclusionClaim → State → Result (Unit {0}) Report × State
unfolding mark_seen_on_chain
mark storage claim s =
    ((mark_seen_on_chain storage claim s.db).0, with_db s (mark_seen_on_chain storage claim s.db).1)

module _ (env : Env) (ctl : Controller) where
  abbrev pub is_trusted : String → Bool
  is_trusted peer = any (λ p. str_eq p peer) (trusted_peers env.peer_id_from_str ctl.config)

  -- What follows `inclusion_claim_correct`.
  unfoldable pub on_checked :
      InclusionClaim
      → Option (Result Bool Report)
      → State
      → Option (Result (Unit {0}) Report × State)
  unfolding mark
  on_checked claim none s = none
  on_checked claim (some (ok true)) s = some (mark ctl.store claim s)
  on_checked claim (some (ok false)) s = some (ok tt, s)
  on_checked claim (some (err e)) s = some (ok tt, s)

  -- What follows the lookup of the premint.
  unfoldable pub on_found :
      InclusionClaim
      → Result PremintTypes Report
      → State
      → Option (Result (Unit {0}) Report × State)
  unfolding on_checked inclusion_claim_correct
  on_found claim (err e) s = some (
    err (message (str_append "Error getting premint for onchain claim: " (env.report_debug e))),
    s,
  )
  on_found claim (ok premint) s =
      on_checked claim
        (inclusion_claim_correct env.formats env.decode_raw_log env.get_rpc premint claim) s

  unfoldable pub check_claim : InclusionClaim → State → Option (Result (Unit {0}) Report × State)
  unfolding on_found
  check_claim claim s =
      on_found claim
        (get_for_id_and_kind env.json claim.premint_id (record { name = claim.kind }) s.db) s

  -- None is a panic.
  unfoldable pub onchain_claim_in :
      ChainInclusionMode → PeerInclusionClaim → State → Option (Result (Unit {0}) Report × State)
  unfolding check_claim mark trusted_peers
  onchain_claim_in check peer_claim s = check_claim peer_claim.claim s
  onchain_claim_in verify peer_claim s = check_claim peer_claim.claim s
  onchain_claim_in trust peer_claim s =
      if is_trusted peer_claim.from_peer_id
      then some (mark ctl.store peer_claim.claim s)
      else some (ok tt, s)

  unfoldable pub handle_event_onchain_claim :
      PeerInclusionClaim → State → Option (Result (Unit {0}) Report × State)
  unfolding onchain_claim_in
  handle_event_onchain_claim peer_claim s =
      onchain_claim_in ctl.config.chain_inclusion_mode peer_claim s

  -- The insertions of a sync response, one after another; what else `join_all` can do is in
  -- Controller.Tasks.
  unfoldable pub insert_all : List PremintTypes → State → State
  unfolding validate_and_insert
  insert_all [] s = s
  insert_all (p ∷ ps) s = insert_all ps (validate_and_insert env ctl p s).1

  -- None is a panic; errors are logged.
  unfoldable pub handle_event : P2pEvent → State → Option State
  unfolding handle_event_onchain_claim insert_all send_reply
  handle_event (network_state n) s = some s
  handle_event (premint_received p) s = some (validate_and_insert env ctl p s).1
  handle_event (mint_seen_onchain claim) s = state_after (handle_event_onchain_claim claim s)
  handle_event (sync_request query channel) s =
      some
        (send_reply channel (premints (list_all_with_options env.json env.formats query s.db)) s).1
  handle_event (sync_response ps) s = some (insert_all ps s)
