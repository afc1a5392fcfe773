-- ===== src/Network/Bounds/Turns.antt =====
-- src/p2p.rs: every turn of `run_loop` makes only calls that are allowed.
use mintpool.Prelude.{
  ℕ, ◌≡◌, refl, sym, subst, String, true, false, ◌&&◌, inl, inr, List, ◌++◌, Option, none, some,
  Result, ok, err, ltb, leb, any, filter, length, All, str_eq, Bool-cases, if◌then◌else◌, arith,
  ◌==◌,
}
use mintpool.Types.Data.{Report}
use mintpool.Storage.Query.{QueryOptions}
use mintpool.Controller.State.{
  Channel, SwarmCommand, connect_to_peer, return_network_state, announce_self, broadcast,
  return_node_info, send_onchain_mint_found, sync, sync_request,
}
use mintpool.Network.Addresses.{Multiaddr, is_relayed}
use mintpool.Network.State
use mintpool.Network.Topics.{announce_topic, claims_topic_hashes}
use mintpool.Network.State.{
  View, Call, dial, close_connection, add_external_address, remove_external_address, listen_on,
  publish, subscribe, unsubscribe, start_providing, stop_providing, get_providers, send_request,
  send_response, add_relay_address, set_peer_rtt, random_select, Libs, SwarmController, SwarmReply,
  Node, call, try_call, calls_each, send_event, reply, has_relay_manager,
}
use mintpool.Network.Peers.{safe_dial, reject_connection_if_over_max}
use mintpool.Network.Gossip.{
  GossipEvent, message, subscribed, unsubscribed, not_supported, publish_text, on_announce,
  on_claim, on_premint, on_message, handle_gossipsub_event,
}
use mintpool.Network.Requests
use mintpool.Network.Requests.{
  SyncMessage, request, response, Received, query_result, make_sync_response, on_response, do_sync,
  handle_request_response_event,
}
use mintpool.Network.Events
use mintpool.Network.Events.{KadEvent, SwarmEvent, handle_kad_event, handle_swarm_event}
use mintpool.Network.Commands
use mintpool.Network.Commands.{Input, command, event, tick, handle_command, on_tick, turn}
use mintpool.Network.Bounds.{
  Grows, Grows-refl, Grows-trans, Grows-call, Grows-if, Grows-calls_each, Grows-send_event,
  Grows-reply, All-filter, All-always, Allowed,
}

module _ (libs : Libs) (ctl : SwarmController) (view : View) where
  abbrev Here : Call → Type 0
  Here = Allowed libs ctl view

  abbrev Ok : Node → Node → Type 0
  Ok = Grows (Allowed libs ctl view)

  manager : has_relay_manager ctl ≡ true → ctl.config.enable_relay_server ≡ false
  manager h = ground arith

  safe_dial-Ok : (a : Multiaddr) (n : Node) → Ok n (safe_dial libs ctl view a n)
  unfolding safe_dial
  safe_dial-Ok a n =
      Grows-if Here (leb ctl.config.peer_limit (length view.all_mesh_peers)) n _ _
        (λ _. Grows-refl Here n) (λ h. Grows-call Here _ n (ground arith))

  reject-Ok : (id : ℕ) (n : Node) → Ok n (reject_connection_if_over_max libs ctl view id n).1
  unfolding reject_connection_if_over_max
  reject-Ok id n = elim (Bool-cases (ltb ctl.config.peer_limit view.num_peers)) [
    | inl y ↦ rw y (Grows-call Here (close_connection id) n (ground arith))
    | inr d ↦ rw d (Grows-refl Here n)
  ]

  publish_text-Ok :
      (topic : String) (r : Result String Report) (n : Node) → Ok n (publish_text libs topic r n).1
  unfolding publish_text try_call
  publish_text-Ok topic (err e) n = Grows-refl Here n
  publish_text-Ok topic (ok msg) n = Grows-call Here (publish topic (libs.as_bytes msg)) n tt

  on_announce-Ok : (r : Result Multiaddr Report) (n : Node) → Ok n (on_announce libs ctl view r n).1
  unfolding on_announce
  on_announce-Ok (err e) n = Grows-refl Here n
  on_announce-Ok (ok a) n = safe_dial-Ok a n

  on_claim-Ok : (source : String) (r : _) (n : Node) → Ok n (on_claim libs ctl view source r n).1
  unfolding on_claim
  on_claim-Ok source (err e) n = Grows-refl Here n
  on_claim-Ok source (ok claim) n = Grows-send_event Here _ _ n

  on_premint-Ok : (r : _) (n : Node) → Ok n (on_premint libs ctl view r n).1
  unfolding on_premint
  on_premint-Ok (err e) n = Grows-refl Here n
  on_premint-Ok (ok p) n = Grows-send_event Here _ _ n

  gossip-Ok : (e : GossipEvent) (n : Node) → Ok n (handle_gossipsub_event libs ctl view e n).1
  unfolding handle_gossipsub_event on_message
  gossip-Ok (message m) n =
      elim (Bool-cases (str_eq m.topic (libs.topic_texts.topic_hash announce_topic))) [
        | inl y ↦ rw y (on_announce-Ok _ n)
        | inr d ↦
            elim (Bool-cases (
              any (λ h. str_eq h m.topic)
                (claims_topic_hashes libs.topic_texts ctl.premint_names))) [
                  | inl y ↦ rw (d, y) (on_claim-Ok m.propagation_source _ n)
                  | inr d' ↦ rw (d, d') (on_premint-Ok _ n)
                ]
      ]
  gossip-Ok (subscribed peer topic) n = Grows-refl Here n
  gossip-Ok (unsubscribed peer topic) n = Grows-refl Here n
  gossip-Ok (not_supported peer) n = Grows-refl Here n

  query_result-calls :
      (received : Received) (r : Result (Unit {0}) Report × Node)
      → (query_result libs view received r).1 ≡ r.1
  query_result-calls received (ok u, n) = refl
  query_result-calls received (err e, n) = refl

  make_sync_response-Ok :
      (channel : Channel) (received : Received) (query : QueryOptions) (n : Node)
      → Ok n (make_sync_response libs view channel received query n).1
  unfolding make_sync_response
  make_sync_response-Ok channel received query n =
      subst (Ok n)
        (sym (
          query_result-calls received
            (send_event "Controller error" (sync_request query channel) n)))
        (Grows-send_event Here "Controller error" (sync_request query channel) n)

  requests-Ok :
      (channel : Channel) (received : Received) (e : SyncMessage) (n : Node)
      → Ok n (handle_request_response_event libs view channel received e n).1
  unfolding handle_request_response_event try_call on_response
  requests-Ok channel received (request id query answer) n =
      let result = make_sync_response libs view channel received query n in
      Grows-trans Here n result.1 (call (send_response answer result.0) result.1)
        (make_sync_response-Ok channel received query n)
        (Grows-call Here (send_response answer result.0) result.1 tt)
  requests-Ok channel received (response id (State.premints ps)) n = Grows-send_event Here _ _ n
  requests-Ok channel received (response id (State.error text)) n = Grows-refl Here n
  requests-Ok channel received Requests.other n = Grows-refl Here n

  kad-Ok : (e : KadEvent) (n : Node) → Ok n (handle_kad_event libs ctl view e n)
  unfolding handle_kad_event
  kad-Ok Events.inbound_request n = Grows-refl Here n
  kad-Ok (Events.routing_updated peer is_new_peer) n =
      Grows-if Here (is_new_peer && length view.kbuckets == 1) n _ _
        (λ _. Grows-call Here Call.bootstrap n tt) (λ _. Grows-refl Here n)
  kad-Ok KadEvent.other n = Grows-refl Here n

  -- A call that only a node with a relay manager makes.
  relayed-Ok :
      (c : Call) (n : Node)
      → (ctl.config.enable_relay_server ≡ false → Here c)
      → Ok n (if has_relay_manager ctl then call c n else n)
  relayed-Ok c n h =
      Grows-if Here (has_relay_manager ctl) n _ _ (λ y. Grows-call Here c n (h (manager y)))
        (λ _. Grows-refl Here n)

  event-Ok :
      (channel : Channel) (received : Received) (e : SwarmEvent) (n : Node)
      → Ok n (handle_swarm_event libs ctl view channel received e n)
  unfolding handle_swarm_event Events.handle_autonat_event
  event-Ok channel received (Events.new_listen_addr a) n =
      Grows-if Here (is_relayed a) n _ _
        (λ y.
          Grows-if Here (Events.knows_address libs ctl view a) n _ _ (λ _. Grows-refl Here n)
            (λ _. Grows-call Here (add_external_address a) n y))
        (λ _. Grows-refl Here n)
  event-Ok channel received (Events.expired_listen_addr a) n =
      Grows-if Here (is_relayed a) n _ _ (λ y. Grows-call Here (remove_external_address a) n y)
        (λ _. Grows-refl Here n)
  event-Ok channel received (Events.listener_closed addresses) n =
      Grows-calls_each Here remove_external_address (filter is_relayed addresses) n
        (All-filter is_relayed addresses)
  event-Ok channel received (Events.incoming_connection id) n = reject-Ok id n
  event-Ok channel received (Events.connection_established peer id) n = reject-Ok id n
  event-Ok channel received (Events.connection_closed peer) n = Grows-refl Here n
  event-Ok channel received (Events.outgoing_connection_error peer) n = Grows-refl Here n
  event-Ok channel received (Events.kad e) n = kad-Ok e n
  event-Ok channel received (Events.gossipsub e) n = gossip-Ok e n
  event-Ok channel received (Events.request_response e) n = requests-Ok channel received e n
  event-Ok channel received Events.relay_client n = Grows-refl Here n
  event-Ok channel received (Events.dialing peer) n = Grows-refl Here n
  event-Ok channel received (Events.new_external_addr_candidate a) n = Grows-refl Here n
  event-Ok channel received (Events.external_addr_confirmed a) n = Grows-refl Here n
  event-Ok channel received (Events.identify_received peer is_relay addrs) n =
      Grows-if Here (has_relay_manager ctl && is_relay) n _ _
        (λ y.
          Grows-calls_each Here (add_relay_address peer) addrs n (All-always addrs (ground arith)))
        (λ _. Grows-refl Here n)
  event-Ok channel received Events.identify_other n = Grows-refl Here n
  event-Ok channel received (Events.ping peer connection none) n = Grows-refl Here n
  event-Ok channel received (Events.ping peer connection (some rtt)) n =
      relayed-Ok (set_peer_rtt peer connection rtt) n (λ h. h)
  event-Ok channel received Events.relay n = Grows-refl Here n
  event-Ok channel received (Events.autonat_status_changed State.private) n =
      relayed-Ok random_select n (λ h. h)
  event-Ok channel received (Events.autonat_status_changed (State.public a)) n = Grows-refl Here n
  event-Ok channel received (Events.autonat_status_changed State.unknown) n = Grows-refl Here n
  event-Ok channel received Events.autonat_other n = Grows-refl Here n
  event-Ok channel received Events.dcutr n = Grows-refl Here n
  event-Ok channel received SwarmEvent.other n = Grows-refl Here n

  sync_with-Ok :
      (peer : Option String) (query : QueryOptions) (n : Node)
      → libs.choose view.all_mesh_peers ≡ peer
      → Ok n (Requests.sync_with libs view peer query n)
  sync_with-Ok none query n h = Grows-refl Here n
  sync_with-Ok (some peer) query n h = Grows-call Here (send_request peer query) n h

  connect-Ok : (r : Result Multiaddr Report) (n : Node) → Ok n (Commands.connect libs ctl view r n)
  connect-Ok (ok a) n = safe_dial-Ok a n
  connect-Ok (err e) n = Grows-refl Here n

  command-Ok : (c : SwarmCommand) (n : Node) → Ok n (handle_command libs ctl view c n)
  unfolding handle_command
  command-Ok (connect_to_peer address) n = connect-Ok (libs.addr_from_str address) n
  command-Ok (return_network_state channel) n = Grows-reply Here channel _ n
  command-Ok announce_self n = Grows-call Here _ n tt
  command-Ok (broadcast p) n = publish_text-Ok _ _ n
  command-Ok (return_node_info channel) n = Grows-reply Here channel _ n
  command-Ok (send_onchain_mint_found claim) n = publish_text-Ok _ _ n
  command-Ok (sync query) n = sync_with-Ok (libs.choose view.all_mesh_peers) query n refl

  -- Whatever a turn takes, it only adds calls, each of which what the swarm reports allows: it dials
  -- only while the mesh has fewer peers than the limit, closes a connection only when there are more
  -- peers than the limit, takes in and takes back external addresses only when they are relayed ones,
  -- asks for a sync only a peer chosen of the mesh, and uses the relay manager only where the node is
  -- no relay server; it never listens, subscribes or unsubscribes.
  pub turn-Allowed :
      (i : Input) (n : Node)
      → (new : List Call) × ((turn libs ctl view i n).calls ≡ n.calls ++ new)
        × All (Allowed libs ctl view) new
  unfolding turn on_tick
  turn-Allowed (command c) n = command-Ok c n
  turn-Allowed (event channel received e) n = event-Ok channel received e n
  turn-Allowed (tick Commands.bootstrap) n = Grows-call Here Call.bootstrap n tt
  turn-Allowed (tick Commands.discover_gossip_peers) n =
      Grows-calls_each Here _ view.topics n (All-always view.topics tt)
