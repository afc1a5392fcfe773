-- ===== src/Network/Peers.antt =====
-- src/p2p.rs: the connections of the swarm: `safe_dial`, `reject_connection_if_over_max`,
-- `make_network_state`, `node_info`, `announce_self`.
use mintpool.Prelude.{
  ℕ, ◌++◌, String, Bool, true, false, List, [], ◌∷◌, Option, none, some, Result, ok, err, ltb, leb,
  length, if◌then◌else◌,
}
use mintpool.Types.Data.{Report}
use mintpool.Network.Addresses.{Multiaddr, p2p, peer_id}
use mintpool.Network.Topics.{announce_topic}
use mintpool.Network.State.{
  NatStatus, public, unknown, NetworkState, MintpoolNodeInfo, View, DialOpts, to_peer, to_address,
  dial, close_connection, publish, Libs, SwarmController, Node, call,
}

abbrev pub concat {ℓ} : {A : Type ℓ} → List (List A) → List A
concat [] = []
concat (xs ∷ rest) = xs ++ concat rest

unfoldable pub node_info : View → MintpoolNodeInfo
node_info view = record { peer_id = view.local_peer_id; addr = view.listeners }

module _ (libs : Libs) where
  -- The status for a configured external address, or what autonat has found.
  abbrev pub configured_nat : Result Multiaddr Report → NatStatus
  configured_nat (ok addr) = public addr
  configured_nat (err e) = unknown

  abbrev pub nat_status : Option String → NatStatus → NatStatus
  nat_status none found = found
  nat_status (some addr) found = configured_nat (libs.addr_from_str addr)

  unfoldable pub make_network_state : SwarmController → View → NetworkState
  make_network_state ctl view = record {
    local_peer_id = view.local_peer_id;
    num_peers = view.num_peers;
    dht_peers = concat view.kbuckets;
    gossipsub_peers = view.all_mesh_peers;
    external_addresses = view.external_addresses;
    providing = view.provided;
    listeners = view.listeners;
    nat_status = nat_status ctl.config.external_address view.autonat_status;
  }

  -- Whether the connection is rejected.
  unfoldable pub reject_connection_if_over_max : SwarmController → View → ℕ → Node → Bool × Node
  unfolding call make_network_state
  reject_connection_if_over_max ctl view connection_id n =
      if ltb ctl.config.peer_limit (make_network_state ctl view).num_peers
      then (true, call (close_connection connection_id) n)
      else (false, n)

  abbrev pub dial_opts : Option String → Multiaddr → DialOpts
  dial_opts none address = to_address address
  dial_opts (some peer) address = to_peer peer (address ∷ [])

  -- What dialling gives is only logged.
  unfoldable pub safe_dial : SwarmController → View → Multiaddr → Node → Node
  unfolding call make_network_state peer_id
  safe_dial ctl view address n =
      if leb ctl.config.peer_limit (length (make_network_state ctl view).gossipsub_peers)
      then n
      else call (dial (dial_opts (peer_id address) address)) n

  -- The first listener with the peer's own name behind it, or that name alone.
  abbrev pub announcement : String → List Multiaddr → String
  announcement me [] = me
  announcement me (addr ∷ rest) = libs.addr_to_string (addr ++ p2p me ∷ [])

  unfoldable pub announce_self : View → Node → Node
  unfolding call announce_topic
  announce_self view n =
      call (publish announce_topic (libs.as_bytes (announcement view.local_peer_id view.listeners)))
        n
