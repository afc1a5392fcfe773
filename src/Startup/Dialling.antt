-- ===== src/Startup/Dialling.antt =====
-- src/run.rs, src/controller.rs and src/p2p.rs together: what comes of the boot nodes.
use mintpool.Prelude.{
  ℕ, ◌≡◌, refl, ap, ◌∙◌, String, true, false, List, [], ◌∷◌, ◌++◌, map, Option, none, some, Result,
  ok, err, leb, length, filter_map, append_assoc,
}
use mintpool.Config.{Config, BootNodes, chain, custom, no_nodes}
use mintpool.Types.Data.{Report}
use mintpool.Controller.State.{SwarmCommand, ControllerCommands, Env, Controller, State, send_swarm}
use mintpool.Controller.Commands
use mintpool.Network.Addresses.{Multiaddr, peer_id}
use mintpool.Network.Topics.{announce_topic}
use mintpool.Network.State.{View, Call, dial, publish, Libs, SwarmController, Node, call}
use mintpool.Network.Peers.{dial_opts, announcement, safe_dial, announce_self}
use mintpool.Network.Commands.{Input, connect, command, run_loop}
use mintpool.Rules.Engine.{RulesEngine}
use mintpool.Startup.{connect_initially}
use mintpool.Startup.Laws.{opened, connect_to_boot_nodes-commands}
use mintpool.Startup.Services.{
  Services, Resources, fresh_interface, start_p2p_services, start_p2p_services-IsWired,
}

-- The boot nodes that a node has when it starts.
abbrev pub boot_nodes_of : BootNodes → Result (List String) Report → Option (List String)
boot_nodes_of chain (ok nodes) = some nodes
boot_nodes_of chain (err e) = none
boot_nodes_of (custom nodes) contract_nodes = some nodes
boot_nodes_of no_nodes contract_nodes = none

abbrev pub to_controller : List String → List ControllerCommands
to_controller nodes =
    map ControllerCommands.connect_to_peer nodes ++ ControllerCommands.announce_self ∷ []

abbrev pub to_swarm : List String → List SwarmCommand
to_swarm nodes = map SwarmCommand.connect_to_peer nodes ++ SwarmCommand.announce_self ∷ []

abbrev pub with_sent : State → List SwarmCommand → State
with_sent s sent = record {
  db = s.db;
  sent = s.sent ++ sent;
  replies = s.replies;
  swarm_open = true;
}

module _ (env : Env) (ctl : Controller) (now : ℕ) where
  -- The controller takes the commands one after another.
  abbrev pub controller_inputs : List ControllerCommands → List (ℕ × Commands.Input)
  controller_inputs commands = map (λ c. (now, Commands.command c)) commands

  to_swarm_open :
      (c : SwarmCommand) (s : State)
      → s.swarm_open ≡ true
      → (Commands.to_swarm c s).1 ≡ with_sent s (c ∷ [])
  unfolding Commands.to_swarm send_swarm
  to_swarm_open c s h = rw h refl

  pub run_loop-to_controller :
      (nodes : List String) (s : State)
      → s.swarm_open ≡ true
      → Commands.run_loop env ctl (controller_inputs (to_controller nodes)) s
        ≡ some (with_sent s (to_swarm nodes))
  unfolding Commands.run_loop Commands.handle_command
  run_loop-to_controller [] s h = ap some (to_swarm_open SwarmCommand.announce_self s h)
  run_loop-to_controller (node ∷ nodes) s h =
      let c = SwarmCommand.connect_to_peer node in
      ap (Commands.run_loop env ctl (controller_inputs (to_controller nodes))) (to_swarm_open c s h)
      ∙ run_loop-to_controller nodes (with_sent s (c ∷ [])) refl
      ∙ ap
          (λ sent. some (record { db = s.db; sent = sent; replies = s.replies; swarm_open = true }))
          (append_assoc s.sent (c ∷ []) (to_swarm nodes))

module _ (libs : Libs) (ctl : SwarmController) (view : View) where
  abbrev pub swarm_inputs : List SwarmCommand → List (View × Input)
  swarm_inputs commands = map (λ c. (view, command c)) commands

  -- The call that dials an address, if it parses.
  abbrev pub dial_of : Result Multiaddr Report → Option Call
  dial_of (err e) = none
  dial_of (ok addr) = some (dial (dial_opts libs (peer_id addr) addr))

  abbrev pub announcing : Call
  announcing =
      publish announce_topic (libs.as_bytes (announcement libs view.local_peer_id view.listeners))

  abbrev pub calls_of : List String → List Call
  calls_of nodes = filter_map (λ node. dial_of (libs.addr_from_str node)) nodes ++ announcing ∷ []

  abbrev pub with_calls : Node → List Call → Node
  with_calls n calls = record {
    calls = n.calls ++ calls;
    events = n.events;
    replies = n.replies;
    controller_open = n.controller_open;
  }

  connect-with_calls :
      leb ctl.config.peer_limit (length view.all_mesh_peers) ≡ false
      → (address : Result Multiaddr Report) (n : Node) (later : List Call)
      → with_calls (connect libs ctl view address n) (later ++ announcing ∷ [])
        ≡ with_calls n
            (elim (dial_of address) [ none ↦ later | some c ↦ c ∷ later ] ++ announcing ∷ [])
  unfolding safe_dial call
  connect-with_calls below (err e) n later = refl
  connect-with_calls below (ok addr) n later = rw below (
      ap
        (λ calls. record {
          calls = calls;
          events = n.events;
          replies = n.replies;
          controller_open = n.controller_open;
        })
        (append_assoc n.calls _ _))

  pub run_loop-to_swarm :
      leb ctl.config.peer_limit (length view.all_mesh_peers) ≡ false
      → (nodes : List String) (n : Node)
      → run_loop libs ctl (swarm_inputs (to_swarm nodes)) n ≡ with_calls n (calls_of nodes)
  unfolding run_loop announce_self safe_dial call
  run_loop-to_swarm below [] n = refl
  run_loop-to_swarm below (node ∷ nodes) n =
      let address = libs.addr_from_str node in
      run_loop-to_swarm below nodes (connect libs ctl view address n)
      ∙ connect-with_calls below address n
          (filter_map (λ node. dial_of (libs.addr_from_str node)) nodes)

pub connect_initially-to_controller :
    (boot_nodes : BootNodes) (contract_nodes : Result (List String) Report) (nodes : List String)
    → boot_nodes_of boot_nodes contract_nodes ≡ some nodes
    → connect_initially boot_nodes contract_nodes fresh_interface
      ≡ record { commands = to_controller nodes; is_open = true }
unfolding connect_initially
connect_initially-to_controller chain (ok others) nodes h =
    connect_to_boot_nodes-commands others fresh_interface refl ∙ ap opened (cc h)
connect_initially-to_controller chain (err e) nodes h = cc h
connect_initially-to_controller (custom others) contract_nodes nodes h =
    connect_to_boot_nodes-commands others fresh_interface refl ∙ ap opened (cc h)
connect_initially-to_controller no_nodes contract_nodes nodes h = cc h

-- After the start: the controller takes its commands and changes nothing of its database, and the
-- swarm dials every boot node whose address parses, in their order, and then announces the node.
pub record AreDialled (env : Env) (libs : Libs) (now : ℕ) (view : View) (nodes : List String)
    (started : Services) : Type 0 where
  pub commanded : State
  pub controller_runs :
      Commands.run_loop env started.controller
        (controller_inputs env started.controller now started.controller_interface.commands)
        started.state
      ≡ some commanded
  pub db_kept : commanded.db ≡ started.state.db
  pub swarm_calls :
      (n : Node)
      → (run_loop libs started.swarm_controller
          (swarm_inputs libs started.swarm_controller view commanded.sent)
          n).calls
        ≡ n.calls ++ calls_of libs started.swarm_controller view nodes

-- A node that starts without a panic, with boot nodes that are configured or that the contract gives:
-- while the gossip mesh has fewer peers than the limit, every boot node whose address parses is
-- dialled, in their order, and then the node announces itself, whatever the swarm did before.
pub start_p2p_services-AreDialled :
    (env : Env) (libs : Libs) (r : Resources) (config : Config) (rules : RulesEngine) (now : ℕ)
    (view : View) (nodes : List String) (started : Services)
    → start_p2p_services libs r config rules ≡ some started
    → boot_nodes_of config.boot_nodes r.contract_boot_nodes ≡ some nodes
    → leb config.peer_limit (length view.all_mesh_peers) ≡ false
    → AreDialled env libs now view nodes started
start_p2p_services-AreDialled env libs r config rules now view nodes started h h' below =
    let wired = start_p2p_services-IsWired libs r config rules started h in
    let commands : started.controller_interface.commands ≡ to_controller nodes =
      ap (λ i. i.commands)
        (wired.interface-eq
          ∙ connect_initially-to_controller config.boot_nodes r.contract_boot_nodes nodes h') in
    let sent : started.state.sent ++ to_swarm nodes ≡ to_swarm nodes =
      ap (λ s. s.sent ++ to_swarm nodes) wired.state-eq in
    let few : leb started.swarm_controller.config.peer_limit (length view.all_mesh_peers) ≡ false =
      ap (λ c. leb c.peer_limit (length view.all_mesh_peers)) wired.config-eq ∙ below in
    record {
      commanded = with_sent started.state (to_swarm nodes);
      controller_runs =
          ap
            (λ cs.
              Commands.run_loop env started.controller
                (controller_inputs env started.controller now cs) started.state)
            commands
          ∙ run_loop-to_controller env started.controller now nodes started.state
              (ap (λ s. s.swarm_open) wired.state-eq);
      db_kept = refl;
      swarm_calls = λ n.
          ap
            (λ commands.
              (run_loop libs started.swarm_controller
                (swarm_inputs libs started.swarm_controller view commands) n).calls)
            sent
          ∙ ap (λ m. m.calls) (run_loop-to_swarm libs started.swarm_controller view few nodes n);
    }
