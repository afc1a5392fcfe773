-- ===== src/Network/Bounds.antt =====
-- src/p2p.rs: which calls of the swarm a turn of `run_loop` makes.
pub mod Turns
use mintpool.Prelude.{
  ℕ, ◌≡◌, ◌<◌, refl, sym, ap, ◌∙◌, String, Bool, true, false, not, ◌&&◌, inl, inr, List, [], ◌∷◌,
  ◌++◌, Option, none, some, Result, ok, err, ltb, leb, any, filter, length, All, All-append,
  Bool-cases, if◌then◌else◌, append-nil, append_assoc, arith, ◌==◌,
}
use mintpool.Types.Data.{Report}
use mintpool.Controller.State.{
  Channel, SwarmCommand, connect_to_peer, return_network_state, announce_self, broadcast,
  return_node_info, send_onchain_mint_found, sync, P2pEvent,
}
use mintpool.Network.Addresses.{Multiaddr, is_relayed}
use mintpool.Network.State
use mintpool.Network.State.{
  View, Call, dial, close_connection, add_external_address, remove_external_address, listen_on,
  publish, subscribe, unsubscribe, start_providing, stop_providing, get_providers, send_request,
  send_response, add_relay_address, set_peer_rtt, random_select, Libs, SwarmController, SwarmReply,
  Node, call, try_call, calls_each, send_event, reply, has_relay_manager,
}
use mintpool.Network.Peers
use mintpool.Network.Peers.{safe_dial, reject_connection_if_over_max}
use mintpool.Network.Gossip.{
  GossipEvent, message, subscribed, unsubscribed, not_supported, publish_text, on_announce,
  on_claim, on_premint, on_message, handle_gossipsub_event,
}
use mintpool.Network.Requests
use mintpool.Network.Requests.{
  SyncMessage, request, response, Received, query_result, make_sync_response, on_response, do_sync,
  handle_request_response_event,
}
use mintpool.Network.Events
use mintpool.Network.Events.{KadEvent, SwarmEvent, handle_kad_event, handle_swarm_event}
use mintpool.Network.Commands
use mintpool.Network.Commands.{Input, command, event, tick, handle_command, on_tick, turn}

-- The calls made since, each of which holds.
abbrev pub Grows : (Call → Type 0) → Node → Node → Type 0
Grows P n n' = (new : List Call) × (n'.calls ≡ n.calls ++ new) × All P new

module _ (P : Call → Type 0) where
  pub Grows-refl : (n : Node) → Grows P n n
  Grows-refl n = ([], sym (append-nil n.calls), tt)

  pub Grows-trans : (a b c : Node) → Grows P a b → Grows P b c → Grows P a c
  Grows-trans a b c (new, e, h) (new', e', h') = (
    new ++ new',
    e' ∙ ap (λ cs. cs ++ new') e ∙ append_assoc a.calls new new',
    All-append P new new' h h',
  )

  pub Grows-call : (c : Call) (n : Node) → P c → Grows P n (call c n)
  unfolding call
  Grows-call c n h = (c ∷ [], refl, (h, tt))

  pub Grows-if :
      (b : Bool) (n x y : Node)
      → (b ≡ true → Grows P n x)
      → (b ≡ false → Grows P n y)
      → Grows P n (if b then x else y)
  Grows-if true n x y h k = h refl
  Grows-if false n x y h k = k refl

  pub Grows-calls_each :
      {A : Type 0} (f : A → Call) (xs : List A) (n : Node)
      → All (λ x. P (f x)) xs
      → Grows P n (calls_each f xs n)
  unfolding calls_each
  Grows-calls_each f [] n h = Grows-refl n
  Grows-calls_each f (x ∷ xs) n h =
      Grows-trans n (call (f x) n) (calls_each f xs (call (f x) n)) (Grows-call (f x) n h.0)
        (Grows-calls_each f xs (call (f x) n) h.1)

  pub Grows-send_event :
      (context : String) (e : P2pEvent) (n : Node) → Grows P n (send_event context e n).1
  unfolding send_event
  Grows-send_event context e n = elim (Bool-cases n.controller_open) [
    | inl y ↦ simp (y) ([], sym (append-nil n.calls), tt)
    | inr d ↦ simp (d) (Grows-refl n)
  ]

  pub Grows-reply : (channel : Channel) (r : SwarmReply) (n : Node) → Grows P n (reply channel r n)
  unfolding reply
  Grows-reply channel r n =
      Grows-if channel.alive n _ _ (λ _. ([], sym (append-nil n.calls), tt)) (λ _. Grows-refl n)

pub All-filter : {A : Type 0} (p : A → Bool) (xs : List A) → All (λ x. p x ≡ true) (filter p xs)
All-filter p [] = tt
All-filter p (x ∷ xs) = elim (Bool-cases (p x)) [
  | inl y ↦ rw y (y, All-filter p xs)
  | inr d ↦ rw d (All-filter p xs)
]

pub All-always : {A : Type 0} {Q : Type 0} (xs : List A) → Q → All (λ _. Q) xs
All-always [] q = tt
All-always (x ∷ xs) q = (q, All-always xs q)

module _ (libs : Libs) (ctl : SwarmController) (view : View) where
  -- What a turn may call, by what the swarm reports and the configuration.
  abbrev pub Allowed : Call → Type 0
  Allowed (dial opts) = length view.all_mesh_peers < ctl.config.peer_limit
  Allowed (close_connection id) = ctl.config.peer_limit < view.num_peers
  Allowed (add_external_address a) = is_relayed a ≡ true
  Allowed (remove_external_address a) = is_relayed a ≡ true
  Allowed (send_request peer query) = libs.choose view.all_mesh_peers ≡ some peer
  Allowed (add_relay_address peer a) = ctl.config.enable_relay_server ≡ false
  Allowed (set_peer_rtt peer connection rtt) = ctl.config.enable_relay_server ≡ false
  Allowed random_select = ctl.config.enable_relay_server ≡ false
  Allowed (listen_on a) = ⊥
  Allowed (subscribe topic) = ⊥
  Allowed (unsubscribe topic) = ⊥
  Allowed (start_providing key) = ⊥
  Allowed (stop_providing key) = ⊥
  Allowed (publish topic content) = Unit
  Allowed (get_providers key) = Unit
  Allowed Call.bootstrap = Unit
  Allowed (send_response answer r) = Unit
