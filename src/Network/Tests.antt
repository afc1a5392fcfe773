-- ===== src/Network/Tests.antt =====
-- Runs of src/p2p.rs, and the theorems about it at concrete nodes.
use mintpool.Prelude.{◌≡◌, refl, true, List, [], ◌∷◌, none, some, ok, All}
use mintpool.Controller.State.{connect_to_peer, validate_and_insert}
use mintpool.Controller.Fixtures.{env, config, ctl, start, caller, first}
use mintpool.Network.Addresses.{p2p, p2p_circuit, other, peer_id}
use mintpool.Network.Topics.{announce_topic, msg_topic}
use mintpool.Network.State.{Call, close_connection, SwarmController, Node}
use mintpool.Network.Gossip.{Message}
use mintpool.Network.Events.{incoming_connection}
use mintpool.Network.Commands.{command, event, topics_of, run, run_loop, turn}
use mintpool.Config.{check, trusted_peers}
use mintpool.Network.Claims.{IsSpread, resolve_onchain_mint-IsSpread}
use mintpool.Network.Subscriptions.{subscriptions, run-subscriptions}
use mintpool.Network.Bounds.{Allowed}
use mintpool.Network.Bounds.Turns.{turn-Allowed}
use mintpool.Network.Pool.{Peer}
use mintpool.Network.Fixtures.{libs, libs_laws, topic_laws, claim, view}

abbrev swarm_ctl : SwarmController
swarm_ctl = record { config = config; premint_names = record { name = "simple" } ∷ [] }

-- Two connections, of which one is over the limit, and no peers to dial.
abbrev small_ctl : SwarmController
small_ctl = record {
  config = record config { peer_limit = 2 };
  premint_names = record { name = "simple" } ∷ [];
}

abbrev node : Node
node = record { calls = []; events = []; replies = []; controller_open = true }

abbrev peer : Peer
peer = record {
  controller = ctl;
  state = start;
  swarm_controller = swarm_ctl;
  view = view;
  node = node;
}

-- The same with the first version of the token stored.
abbrev keeper : Peer
keeper = record peer { state = (validate_and_insert env ctl first start).1 }

peer_id_run : peer_id (other "ip4" ∷ p2p "relay" ∷ p2p_circuit ∷ p2p "alice" ∷ []) ≡ some "alice"
unfolding peer_id
peer_id_run = refl

msg_topic_run :
    msg_topic libs.topic_texts (record { name = "x" }) ≡ "mintpool::premint::PremintName(x)"
unfolding msg_topic
msg_topic_run = refl

run_loop_run :
    run_loop libs small_ctl
      ((view, event caller none (incoming_connection 7))
        ∷ (view, command (connect_to_peer "a"))
        ∷ [])
      node
    ≡ record { calls = close_connection 7 ∷ []; events = []; replies = []; controller_open = true }
unfolding run_loop
run_loop_run = refl

-- A node that watches the chain.
abbrev watcher : Peer
watcher = record peer {
  controller = record ctl { config = record config { chain_inclusion_mode = check } };
}

resolve_onchain_mint-IsSpread_example : IsSpread env libs claim 100000 caller "bob" watcher keeper
unfolding trusted_peers
resolve_onchain_mint-IsSpread_example =
    resolve_onchain_mint-IsSpread env libs libs_laws topic_laws claim "claim" 100000 caller "bob"
      watcher keeper refl refl refl refl refl refl refl

abbrev claim_message : Message
claim_message = record { topic = "claims"; content = []; propagation_source = "carol" }

turn-Allowed_example :
    (new : List Call) × ((turn libs small_ctl view
        (event caller none (incoming_connection 7))
        node).calls
      ≡ new)
    × All (Allowed libs small_ctl view) new
turn-Allowed_example =
    turn-Allowed libs small_ctl view (event caller none (incoming_connection 7)) node

run-subscriptions_example :
    subscriptions (run libs swarm_ctl (ok []) (ok []) node).1.calls
    ≡ announce_topic ∷ topics_of libs (record { name = "simple" } ∷ [])
unfolding run
run-subscriptions_example = run-subscriptions libs swarm_ctl (ok []) (ok []) node refl
