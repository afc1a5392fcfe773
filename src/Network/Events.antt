-- ===== src/Network/Events.antt =====
-- src/p2p.rs: `handle_swarm_event` and the handlers of the behaviours' events.
use mintpool.Prelude.{
  ℕ, String, Bool, ◌&&◌, List, Option, none, some, any, filter, ◌==◌, length, if◌then◌else◌,
}
use mintpool.Controller.State.{Channel}
use mintpool.Network.Addresses.{Multiaddr, addr_eq, is_relayed}
use mintpool.Network.State.{
  NatStatus, public, private, unknown, View, add_external_address, remove_external_address,
  bootstrap, add_relay_address, set_peer_rtt, random_select, Libs, SwarmController, Node, call,
  calls_each, has_relay_manager,
}
use mintpool.Network.Peers.{reject_connection_if_over_max}
use mintpool.Network.Gossip.{GossipEvent, handle_gossipsub_event}
use mintpool.Network.Requests.{SyncMessage, Received, handle_request_response_event}

pub data KadEvent : Type 0 where
  inbound_request : KadEvent
  routing_updated : String → Bool → KadEvent
  other : KadEvent

pub data SwarmEvent : Type 0 where
  new_listen_addr : Multiaddr → SwarmEvent
  expired_listen_addr : Multiaddr → SwarmEvent
  listener_closed : List Multiaddr → SwarmEvent
  incoming_connection : ℕ → SwarmEvent
  connection_established : String → ℕ → SwarmEvent
  connection_closed : String → SwarmEvent
  outgoing_connection_error : Option String → SwarmEvent
  kad : KadEvent → SwarmEvent
  gossipsub : GossipEvent → SwarmEvent
  request_response : SyncMessage → SwarmEvent
  relay_client : SwarmEvent
  dialing : Option String → SwarmEvent
  new_external_addr_candidate : Multiaddr → SwarmEvent
  external_addr_confirmed : Multiaddr → SwarmEvent
  -- `identify::Event::Received`: whether the relay's hop protocol is named, and where it listens.
  identify_received : String → Bool → List Multiaddr → SwarmEvent
  identify_other : SwarmEvent
  -- The round trip's time, if the ping came back.
  ping : String → ℕ → Option ℕ → SwarmEvent
  relay : SwarmEvent
  -- The new status of `autonat::Event::StatusChanged`.
  autonat_status_changed : NatStatus → SwarmEvent
  autonat_other : SwarmEvent
  dcutr : SwarmEvent
  other : SwarmEvent

module _ (libs : Libs) (ctl : SwarmController) (view : View) where
  abbrev pub knows_address : Multiaddr → Bool
  knows_address address = any (λ a. addr_eq a address) view.external_addresses

  unfoldable pub handle_kad_event : KadEvent → Node → Node
  unfolding call
  handle_kad_event inbound_request n = n
  handle_kad_event (routing_updated peer is_new_peer) n =
      if is_new_peer && length view.kbuckets == 1 then call bootstrap n else n
  handle_kad_event other n = n

  unfoldable pub handle_autonat_event : NatStatus → Node → Node
  unfolding call
  handle_autonat_event private n = if has_relay_manager ctl then call random_select n else n
  handle_autonat_event (public addr) n = n
  handle_autonat_event unknown n = n

  abbrev pub on_rtt : String → ℕ → Option ℕ → Node → Node
  on_rtt peer connection none n = n
  on_rtt peer connection (some rtt) n =
      if has_relay_manager ctl then call (set_peer_rtt peer connection rtt) n else n

  -- Errors are logged. `channel` and `received` are those of a request to sync.
  unfoldable pub handle_swarm_event : Channel → Received → SwarmEvent → Node → Node
  unfolding call calls_each addr_eq reject_connection_if_over_max is_relayed handle_kad_event
      handle_autonat_event handle_gossipsub_event handle_request_response_event
  handle_swarm_event channel received (new_listen_addr address) n =
      if is_relayed address
      then if knows_address address then n else call (add_external_address address) n
      else n
  handle_swarm_event channel received (expired_listen_addr address) n =
      if is_relayed address then call (remove_external_address address) n else n
  handle_swarm_event channel received (listener_closed addresses) n =
      calls_each remove_external_address (filter is_relayed addresses) n
  handle_swarm_event channel received (incoming_connection id) n =
      (reject_connection_if_over_max libs ctl view id n).1
  handle_swarm_event channel received (connection_established peer id) n =
      (reject_connection_if_over_max libs ctl view id n).1
  handle_swarm_event channel received (connection_closed peer) n = n
  handle_swarm_event channel received (outgoing_connection_error peer) n = n
  handle_swarm_event channel received (kad e) n = handle_kad_event e n
  handle_swarm_event channel received (gossipsub e) n = (handle_gossipsub_event libs ctl view e n).1
  handle_swarm_event channel received (request_response e) n =
      (handle_request_response_event libs view channel received e n).1
  handle_swarm_event channel received relay_client n = n
  handle_swarm_event channel received (dialing peer) n = n
  handle_swarm_event channel received (new_external_addr_candidate address) n = n
  handle_swarm_event channel received (external_addr_confirmed address) n = n
  handle_swarm_event channel received (identify_received peer is_relay listen_addrs) n =
      if has_relay_manager ctl && is_relay
      then calls_each (add_relay_address peer) listen_addrs n
      else n
  handle_swarm_event channel received identify_other n = n
  handle_swarm_event channel received (ping peer connection rtt) n = on_rtt peer connection rtt n
  handle_swarm_event channel received relay n = n
  handle_swarm_event channel received (autonat_status_changed status) n =
      handle_autonat_event status n
  handle_swarm_event channel received autonat_other n = n
  handle_swarm_event channel received dcutr n = n
  handle_swarm_event channel received other n = n
