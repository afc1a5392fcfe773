-- ===== src/Controller/Commands.antt =====
-- src/controller.rs: `handle_command` and `run_loop`.
use mintpool.Prelude.{ℕ, List, [], ◌∷◌, Option, none, some, Result, ok, err, if◌then◌else◌}
use mintpool.Config.{ChainInclusionMode, check, verify, trust}
use mintpool.Types.Data.{InclusionClaim}
use mintpool.Types.Premint.{PremintTypes}
use mintpool.Rules.Evaluation.{Results}
use mintpool.Storage.Query
use mintpool.Controller.State.{
  Channel, SwarmCommand, P2pEvent, list_all, direct, ControllerCommands, InsertError, not_broadcast,
  Reply, inserted, premints, db_handle, CommandError, swarm_closed, channel_closed, Env, Controller,
  State, state_after, send_swarm, send_reply, validate_and_insert, request_sync,
}
use mintpool.Controller.Events.{mark, handle_event}

-- `swarm_command_sender.send(...).await?`
unfoldable pub to_swarm : SwarmCommand → State → Result (Unit {0}) CommandError × State
unfolding send_swarm
to_swarm c s = let sent = send_swarm c s in ((if sent.0 then ok tt else err swarm_closed), sent.1)

-- `channel.send(...).map_err(...)?`
unfoldable pub to_channel : Channel → Reply → State → Result (Unit {0}) CommandError × State
unfolding send_reply
to_channel channel r s =
    let sent = send_reply channel r s in
    ((if sent.0 then ok tt else err (channel_closed r)), sent.1)

-- One turn of `run_loop`: what `select!` takes.
pub data Input : Type 0 where
  command : ControllerCommands → Input
  event : P2pEvent → Input
  tick : Input

module _ (env : Env) (ctl : Controller) where
  -- What follows `validate_and_insert` for a broadcast.
  unfoldable pub on_inserted :
      PremintTypes
      → Channel
      → Result Results InsertError
      → State
      → Result (Unit {0}) CommandError × State
  unfolding send_swarm to_channel
  on_inserted message channel (ok rs) s =
      let sent = send_swarm (SwarmCommand.broadcast message) s in
      if sent.0
      then to_channel channel (inserted (ok tt)) sent.1
      else to_channel channel (inserted (err not_broadcast)) sent.1
  on_inserted message channel (err e) s = to_channel channel (inserted (err e)) s

  -- After a mint is resolved, the swarm hears of it in the mode Check; a failure is logged.
  unfoldable pub announce_mint : ChainInclusionMode → InclusionClaim → State → State
  unfolding send_swarm
  announce_mint check claim s = (send_swarm (SwarmCommand.send_onchain_mint_found claim) s).1
  announce_mint verify claim s = s
  announce_mint trust claim s = s

  abbrev pub synced : Option State → Option (Result (Unit {0}) CommandError × State)
  synced none = none
  synced (some s) = some (ok tt, s)

  -- None is a panic.
  unfoldable pub handle_command :
      ℕ → ControllerCommands → State → Option (Result (Unit {0}) CommandError × State)
  unfolding to_swarm on_inserted send_reply mark announce_mint request_sync
  handle_command now (ControllerCommands.connect_to_peer address) s =
      some (to_swarm (SwarmCommand.connect_to_peer address) s)
  handle_command now (ControllerCommands.return_network_state channel) s =
      some (to_swarm (SwarmCommand.return_network_state channel) s)
  handle_command now ControllerCommands.announce_self s =
      some (to_swarm SwarmCommand.announce_self s)
  handle_command now (ControllerCommands.broadcast message channel) s =
      let result = validate_and_insert env ctl message s in
      some (on_inserted message channel result.0 result.1)
  handle_command now (ControllerCommands.return_node_info channel) s =
      some (to_swarm (SwarmCommand.return_node_info channel) s)
  handle_command now (ControllerCommands.query (list_all channel)) s =
      some (ok tt, (send_reply channel (premints (Query.list_all env.json s.db)) s).1)
  handle_command now (ControllerCommands.query (direct channel)) s =
      some (ok tt, (send_reply channel db_handle s).1)
  handle_command now (ControllerCommands.resolve_onchain_mint claim) s =
      some (ok tt, announce_mint ctl.config.chain_inclusion_mode claim (mark ctl.store claim s).1)
  handle_command now ControllerCommands.sync s = synced (request_sync env ctl now s)

  unfoldable pub turn : ℕ → Input → State → Option State
  unfolding handle_command handle_event request_sync
  turn now (command c) s = state_after (handle_command now c s)
  turn now (event e) s = handle_event env ctl e s
  turn now tick s = request_sync env ctl now s

  -- The loop over the inputs of a run, each with its time, until a panic.
  unfoldable pub run_loop : List (ℕ × Input) → State → Option State
  unfolding turn
  run_loop [] s = some s
  run_loop (i ∷ inputs) s = elim (turn i.0 i.1 s) [ none ↦ none | some s' ↦ run_loop inputs s' ]
