-- ===== src/Controller/State.antt =====
-- src/controller.rs: the messages, what the controller holds, and `validate_and_insert`.
use mintpool.Prelude.{
  ℕ, ◌-◌, ◌*◌, ◌%◌, ◌^◌, String, Bool, true, false, List, [], ◌∷◌, ◌++◌, Option, none, some, Result,
  ok, err, ltb, if◌then◌else◌,
}
use mintpool.Config.{Config}
use mintpool.Types.Data.{Report, Formats, InclusionClaim, PeerInclusionClaim}
use mintpool.Types.Premint.{PremintTypes, Json}
use mintpool.Storage.Table.{Db}
use mintpool.Storage.Store.{PremintStorage, store}
use mintpool.Storage.Query.{QueryOptions}
use mintpool.Zora.Claims.{PremintedV2}
use mintpool.Rules.Evaluation.{Results, is_accept}
use mintpool.Rules.Context.{Provider, reader}
use mintpool.Rules.Engine.{RulesEngine, evaluate}

-- The sending half of a oneshot channel: its name, and whether the receiver is still there.
pub record Channel : Type 0 where
  pub name : ℕ
  pub alive : Bool

pub data SwarmCommand : Type 0 where
  connect_to_peer : String → SwarmCommand
  return_network_state : Channel → SwarmCommand
  announce_self : SwarmCommand
  broadcast : PremintTypes → SwarmCommand
  return_node_info : Channel → SwarmCommand
  send_onchain_mint_found : InclusionClaim → SwarmCommand
  sync : QueryOptions → SwarmCommand

-- The network state is only logged.
pub data P2pEvent : Type 0 where
  network_state : String → P2pEvent
  premint_received : PremintTypes → P2pEvent
  mint_seen_onchain : PeerInclusionClaim → P2pEvent
  sync_request : QueryOptions → Channel → P2pEvent
  sync_response : List PremintTypes → P2pEvent

pub data DbQuery : Type 0 where
  list_all : Channel → DbQuery
  direct : Channel → DbQuery

pub data ControllerCommands : Type 0 where
  connect_to_peer : String → ControllerCommands
  return_network_state : Channel → ControllerCommands
  announce_self : ControllerCommands
  broadcast : PremintTypes → Channel → ControllerCommands
  return_node_info : Channel → ControllerCommands
  query : DbQuery → ControllerCommands
  resolve_onchain_mint : InclusionClaim → ControllerCommands
  sync : ControllerCommands

-- The errors of a premint's insertion: of the evaluation, "Failed to store premint",
-- "Premint failed validation", and "Error broadcasting premint".
pub data InsertError : Type 0 where
  not_evaluated : Report → InsertError
  not_stored : Report → InsertError
  not_valid : Results → InsertError
  not_broadcast : InsertError

-- What is sent on a oneshot channel.
pub data Reply : Type 0 where
  inserted : Result (Unit {0}) InsertError → Reply
  premints : Result (List PremintTypes) Report → Reply
  db_handle : Reply

-- The errors of `handle_command`.
pub data CommandError : Type 0 where
  swarm_closed : CommandError
  channel_closed : Reply → CommandError

-- What libraries and the network give the controller: `CHAINS.get_rpc`, the decoder of events,
-- `PeerId::from_str`, `{:?}` of an error.
pub record Env : Type 0 where
  pub formats : Formats
  pub json : Json
  pub get_rpc : ℕ → Result Provider Report
  pub decode_raw_log : List ℕ → List ℕ → Result PremintedV2 Report
  pub peer_id_from_str : String → Option String
  pub report_debug : Report → String

pub record Controller : Type 0 where
  pub store : PremintStorage
  pub rules : RulesEngine
  pub config : Config

-- The database, the commands sent to the swarm and the replies, oldest first, and whether the swarm
-- still receives.
pub record State : Type 0 where
  pub db : Db
  pub sent : List SwarmCommand
  pub replies : List (ℕ × Reply)
  pub swarm_open : Bool

abbrev pub with_db : State → Db → State
with_db s db = record { db = db; sent = s.sent; replies = s.replies; swarm_open = s.swarm_open }

-- `swarm_command_sender.send`, and whether it succeeds.
unfoldable pub send_swarm : SwarmCommand → State → Bool × State
send_swarm c s =
    if s.swarm_open
    then (
      true,
      record { db = s.db; sent = s.sent ++ c ∷ []; replies = s.replies; swarm_open = true },
    )
    else (false, s)

-- `channel.send`, and whether it succeeds.
unfoldable pub send_reply : Channel → Reply → State → Bool × State
send_reply channel r s =
    if channel.alive
    then (
      true,
      record {
        db = s.db;
        sent = s.sent;
        replies = s.replies ++ (channel.name, r) ∷ [];
        swarm_open = s.swarm_open;
      },
    )
    else (false, s)

-- The state that is left when a result is logged and dropped.
abbrev pub state_after : {E : Type 0} → Option (Result (Unit {0}) E × State) → Option State
state_after none = none
state_after (some r) = some r.1

abbrev pub stored : Results → Result (Unit {0}) Report → Result Results InsertError
stored rs (ok u) = ok rs
stored rs (err e) = err (not_stored e)

module _ (env : Env) (ctl : Controller) where
  unfoldable pub validate_and_insert : PremintTypes → State → Result Results InsertError × State
  unfolding evaluate is_accept store
  validate_and_insert p s =
      elim (evaluate env.formats env.get_rpc ctl.rules p (reader env.json s.db)) [
        | err e ↦ (err (not_evaluated e), s)
        | ok evaluation ↦
            if is_accept evaluation
            then (
              stored evaluation (store env.formats env.json p s.db).0,
              with_db s (store env.formats env.json p s.db).1,
            )
            else (err (not_valid evaluation), s)
      ]

  abbrev pub lookback : ℕ
  lookback = 60 * 60 * ctl.config.sync_lookback_hours % 2 ^ 64

  -- None is a panic: the lookback reaches before the first time, or the swarm is gone. `now` is
  -- `Utc::now()`.
  unfoldable pub request_sync : ℕ → State → Option State
  unfolding send_swarm
  request_sync now s =
      if ltb now lookback
      then none
      else let query : QueryOptions = record {
        chain_id = none;
        kind = none;
        collection_address = none;
        creator_address = none;
        from = some (now - lookback);
        to = none;
      } in
        let sent = send_swarm (sync query) s in if sent.0 then some sent.1 else none
