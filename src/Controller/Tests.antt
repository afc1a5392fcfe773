-- ===== src/Controller/Tests.antt =====
-- Runs of src/controller.rs, and the theorems about it at a concrete controller.
use mintpool.Prelude.{ℕ, ◌≡◌, refl, true, false, List, [], ◌∷◌, none, some, ok}
use mintpool.Prelude.Decimal.{show}
use mintpool.Prelude.Int.{as_i64}
use mintpool.Config.{trust}
use mintpool.Types.Data.{PeerInclusionClaim}
use mintpool.Types.Premint.{metadata}
use mintpool.Storage.Query.{get_for_id_and_kind}
use mintpool.Controller.State.{
  Controller, SwarmCommand, inserted, State, ControllerCommands, mint_seen_onchain,
  premint_received, validate_and_insert,
}
use mintpool.Controller.Broadcasts.{handle_command-broadcast_ok}
use mintpool.Controller.Events.{handle_event_onchain_claim}
use mintpool.Controller.Claims.{Handled, Entitled, handle_event_onchain_claim-Handled}
use mintpool.Controller.Commands.{handle_command, Input, command, event, tick}
use mintpool.Storage.Store.{store}
use mintpool.Rules.Evaluation.{Evaluation, accept, reject, Results, is_accept}
use mintpool.Rules.Context.{Rule}
use mintpool.Rules.Engine.{evaluate}
use mintpool.Controller.Events.{insert_all}
use mintpool.Controller.Tasks.{done, Interleaving}
use mintpool.Controller.Races.{stored_in, Interleaving-both}
use mintpool.Controller.Fixtures.{env, ctl, start, caller, first, second, passed}
use mintpool.Fixtures.{formats, json, json-RoundTrips, empty_db, claim_of}

-- Bob is trusted, and Carol is not.
abbrev bobs : PeerInclusionClaim
bobs = record { claim = claim_of "7777777:5:9" "simple" 7777777; from_peer_id = "bob" }

abbrev carols : PeerInclusionClaim
carols = record { claim = claim_of "7777777:5:9" "simple" 7777777; from_peer_id = "carol" }

-- The first version is broadcast, received again, claimed by Carol and by Bob; then comes a tick.
abbrev inputs : List (ℕ × Input)
inputs =
    (100000, command (ControllerCommands.broadcast first caller))
    ∷ (100001, event (premint_received first))
    ∷ (100002, event (mint_seen_onchain carols))
    ∷ (100003, event (mint_seen_onchain bobs))
    ∷ (100004, tick)
    ∷ []

abbrev final : State
final = record {
  db = empty_db;
  sent =
      SwarmCommand.broadcast first
      ∷ SwarmCommand.sync (record {
        chain_id = none;
        kind = none;
        collection_address = none;
        creator_address = none;
        from = some 78404;
        to = none;
      })
      ∷ [];
  replies = (1, inserted (ok tt)) ∷ [];
  swarm_open = true;
}

handle_command-broadcast_ok_example :
    (s' : State) × (handle_command env ctl 100000 (ControllerCommands.broadcast first caller) start
      ≡ some (ok tt, s'))
    × (get_for_id_and_kind json (metadata formats first).id (metadata formats first).kind s'.db
        ≡ ok first)
    × (s'.sent ≡ SwarmCommand.broadcast first ∷ [])
    × (s'.replies ≡ (1, inserted (ok tt)) ∷ [])
unfolding validate_and_insert show as_i64 get_for_id_and_kind
handle_command-broadcast_ok_example =
    handle_command-broadcast_ok env ctl json-RoundTrips 100000 first caller start passed refl refl
      refl

handle_event_onchain_claim-Handled_example :
    Handled env ctl carols start
      (Entitled env ctl carols start trust)
      (handle_event_onchain_claim env ctl carols start)
handle_event_onchain_claim-Handled_example = handle_event_onchain_claim-Handled env ctl carols start

-- What is known already is not welcome.
abbrev only_unknown : Rule
only_unknown = record {
  rule_name = "only_unknown";
  check =
      λ item context. elim context.existing [ none ↦ ok accept | some other ↦ ok (reject "known") ];
}

abbrev for_unknown : Controller
for_unknown = record {
  store = record { prune_minted_premints = true };
  rules = record { rules = only_unknown ∷ []; use_rpc = false };
  config = ctl.config;
}

abbrev verdict : Evaluation → Results
verdict e = record { rule_name = "only_unknown"; result = ok e } ∷ []

Interleaving-both_example :
    (insert_all env for_unknown (first ∷ second ∷ []) start ≡ stored_in env for_unknown first start)
    × Interleaving env for_unknown
        (first ∷ second ∷ [])
        start
        (done ∷ done ∷ [])
        (stored_in env for_unknown first start)
    × Interleaving env for_unknown
        (first ∷ second ∷ [])
        start
        (done ∷ done ∷ [])
        (stored_in env for_unknown second (stored_in env for_unknown first start))
    × (get_for_id_and_kind json
          (metadata formats second).id
          (metadata formats second).kind
          (stored_in env for_unknown second (stored_in env for_unknown first start)).db
        ≡ ok second)
unfolding evaluate is_accept store show as_i64 get_for_id_and_kind
Interleaving-both_example =
    Interleaving-both env for_unknown json-RoundTrips first second start
      (verdict accept, refl, refl) (verdict accept, refl, refl)
      (verdict (reject "known"), refl, refl) refl
