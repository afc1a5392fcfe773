-- ===== src/Network/Commands.antt =====
-- src/p2p.rs: `handle_command`, `run` and `run_loop` of the swarm controller.
use mintpool.Prelude.{ℕ, String, List, [], ◌∷◌, Result, ok, err}
use mintpool.Types.Data.{Report, PremintName}
use mintpool.Controller.State.{
  Channel, SwarmCommand, connect_to_peer, return_network_state, announce_self, broadcast,
  return_node_info, send_onchain_mint_found, sync,
}
use mintpool.Network.Addresses.{Multiaddr}
use mintpool.Network.Topics.{announce_topic, msg_topic, claims_topic, topic_to_record_key}
use mintpool.Network.State.{
  View, Call, listen_on, subscribe, unsubscribe, start_providing, stop_providing, get_providers,
  Libs, SwarmController, network_state, node_info, Node, call, try_call, calls_each, reply,
}
use mintpool.Network.Peers
use mintpool.Network.Peers.{make_network_state, safe_dial}
use mintpool.Network.Gossip.{broadcast_message, broadcast_claim}
use mintpool.Network.Requests.{Received, do_sync}
use mintpool.Network.Events.{SwarmEvent, handle_swarm_event}

-- The tickers of `run_loop`.
pub data SwarmTickers : Type 0 where
  bootstrap : SwarmTickers
  discover_gossip_peers : SwarmTickers

-- What one turn of `run_loop` takes.
pub data Input : Type 0 where
  command : SwarmCommand → Input
  event : Channel → Received → SwarmEvent → Input
  tick : SwarmTickers → Input

abbrev pub Outcome : Type 0
Outcome = Result (Unit {0}) Report × Node

-- `?`: what follows a call that succeeds.
infixl 5 ◌then_do◌
abbrev pub ◌then_do◌ : Outcome → (Node → Outcome) → Outcome
(ok u, n) then_do f = f n
(err e, n) then_do f = (err e, n)

module _ (libs : Libs) where
  abbrev pub key_of : String → List ℕ
  key_of topic = libs.as_bytes (topic_to_record_key (libs.topic_texts.topic_hash topic))

  unfoldable pub gossip_subscribe : String → Node → Outcome
  unfolding try_call topic_to_record_key
  gossip_subscribe topic n = try_call libs (subscribe topic) n then_do λ n'.
      try_call libs (start_providing (key_of topic)) n'

  unfoldable pub gossip_unsubscribe : String → Node → Outcome
  unfolding try_call call topic_to_record_key
  gossip_unsubscribe topic n = try_call libs (unsubscribe topic) n then_do λ n'.
      (ok tt, call (stop_providing (key_of topic)) n')

  -- The topics of the names; a failure is logged.
  abbrev pub topics_of : List PremintName → List String
  topics_of [] = []
  topics_of (name ∷ rest) =
      msg_topic libs.topic_texts name ∷ claims_topic libs.topic_texts name ∷ topics_of rest

  unfoldable pub subscribe_each : List String → Node → Node
  unfolding gossip_subscribe
  subscribe_each [] n = n
  subscribe_each (topic ∷ rest) n = subscribe_each rest (gossip_subscribe topic n).1

  unfoldable pub listen : Result Multiaddr Report → Node → Outcome
  unfolding try_call
  listen (err e) n = (err e, n)
  listen (ok addr) n = try_call libs (listen_on addr) n

  module _ (ctl : SwarmController) where
    -- Up to the loop. `quic` and `tcp` are the addresses made of the port and the IP, parsed.
    unfoldable pub run : Result Multiaddr Report → Result Multiaddr Report → Node → Outcome
    unfolding listen gossip_subscribe subscribe_each announce_topic msg_topic claims_topic
    run quic tcp n = listen quic n then_do λ n'. listen tcp n' then_do λ n'.
        gossip_subscribe announce_topic n' then_do λ n'.
        (ok tt, subscribe_each (topics_of ctl.premint_names) n')

    module _ (view : View) where
      abbrev pub connect : Result Multiaddr Report → Node → Node
      connect (err e) n = n
      connect (ok addr) n = safe_dial libs ctl view addr n

      -- Errors are logged.
      unfoldable pub handle_command : SwarmCommand → Node → Node
      unfolding safe_dial reply make_network_state Peers.announce_self Peers.node_info
          broadcast_message broadcast_claim do_sync
      handle_command (connect_to_peer address) n = connect (libs.addr_from_str address) n
      handle_command (return_network_state channel) n =
          reply channel (network_state (make_network_state libs ctl view)) n
      handle_command announce_self n = Peers.announce_self libs view n
      handle_command (broadcast message) n = (broadcast_message libs message n).1
      handle_command (return_node_info channel) n =
          reply channel (node_info (Peers.node_info view)) n
      handle_command (send_onchain_mint_found claim) n = (broadcast_claim libs claim n).1
      handle_command (sync query) n = do_sync libs view ctl query n

      -- kad dials the peers that it finds.
      unfoldable pub on_tick : SwarmTickers → Node → Node
      unfolding call calls_each topic_to_record_key
      on_tick bootstrap n = call Call.bootstrap n
      on_tick discover_gossip_peers n =
          calls_each (λ topic. get_providers (libs.as_bytes (topic_to_record_key topic)))
            view.topics n

      unfoldable pub turn : Input → Node → Node
      unfolding handle_command handle_swarm_event on_tick
      turn (command c) n = handle_command c n
      turn (event channel received e) n = handle_swarm_event libs ctl view channel received e n
      turn (tick t) n = on_tick t n

    -- The loop over the turns of a run, each with what the swarm then reports.
    unfoldable pub run_loop : List (View × Input) → Node → Node
    unfolding turn
    run_loop [] n = n
    run_loop (i ∷ inputs) n = run_loop inputs (turn i.0 i.1 n)
