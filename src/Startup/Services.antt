-- ===== src/Startup/Services.antt =====
-- src/run.rs: `start_p2p_services`, which wires the controller and the swarm controller of a node.
use mintpool.Prelude.{
  ℕ, ◌≡◌, refl, sym, ap, String, true, List, [], Option, none, some, Result, ok, err,
}
use mintpool.Config.{Config}
use mintpool.Types.Data.{Report}
use mintpool.Storage.Table.{Db}
use mintpool.Rules.Engine.{RulesEngine}
use mintpool.Controller.State.{Controller, State}
use mintpool.Controller.Interface.{Interface}
use mintpool.Network.State.{Libs, SwarmController, Node}
use mintpool.Network.Creation
use mintpool.Startup.{key_bytes, keypair_of, make_keypair, connect_initially}

-- What is started: the two controllers, each with what it holds when its task begins, and the
-- interface that is returned, with the commands of the start.
pub record Services : Type 0 where
  pub controller : Controller
  pub state : State
  pub swarm_controller : SwarmController
  pub node : Node
  pub controller_interface : Interface

-- What the libraries give at the start: hex, the keys, the swarm, the database and the boot nodes of
-- the contract. Opening the database panics where it fails.
pub record Resources : Type 1 where
  pub Keypair : Type 0
  pub decode : String → Result (List ℕ) Report
  pub from_bytes : List ℕ → Result Keypair Report
  pub make_swarm : Keypair → Result (Unit {0}) Report
  pub open_db : Option Db
  pub contract_boot_nodes : Result (List String) Report

-- `Controller::new`
unfoldable pub new_controller : Config → RulesEngine → Controller
new_controller config rules = record {
  store = record { prune_minted_premints = config.prune_minted_premints };
  rules = rules;
  config = config;
}

-- Channels are open while both tasks run.
abbrev pub fresh_node : Node
fresh_node = record { calls = []; events = []; replies = []; controller_open = true }

abbrev pub fresh_state : Db → State
fresh_state db = record { db = db; sent = []; replies = []; swarm_open = true }

abbrev pub fresh_interface : Interface
fresh_interface = record { commands = []; is_open = true }

module _ (libs : Libs) (r : Resources) (config : Config) (rules : RulesEngine) where
  abbrev on_swarm : Db → Option (SwarmController × Node) → Option Services
  on_swarm db none = none
  on_swarm db (some swarm) = some (record {
    controller = new_controller config rules;
    state = fresh_state db;
    swarm_controller = swarm.0;
    node = swarm.1;
    controller_interface =
        connect_initially config.boot_nodes r.contract_boot_nodes fresh_interface;
  })

  abbrev on_store : r.Keypair → Option Db → Option Services
  on_store key none = none
  on_store key (some db) = on_swarm db (Creation.new libs (r.make_swarm key) config fresh_node)

  abbrev on_keypair : Result r.Keypair Report → Option Services
  on_keypair (err e) = none
  on_keypair (ok key) = on_store key r.open_db

  -- None is a panic.
  unfoldable pub start_p2p_services : Option Services
  unfolding make_keypair connect_initially Creation.new new_controller
  start_p2p_services = on_keypair (make_keypair r.decode r.from_bytes config)

  -- What is started when nothing panics, but for the swarm's external address.
  pub record IsWired (started : Services) : Type 0 where
    pub db : Db
    pub controller-eq : started.controller ≡ new_controller config rules
    pub state-eq : started.state ≡ fresh_state db
    pub config-eq : started.swarm_controller.config ≡ config
    pub interface-eq :
        started.controller_interface
        ≡ connect_initially config.boot_nodes r.contract_boot_nodes fresh_interface

  abbrev or_services : Services → Option Services → Services
  or_services other none = other
  or_services other (some started) = started

  on_swarm-IsWired :
      (db : Db) (built : Result (Unit {0}) Report) (started : Services)
      → on_swarm db (Creation.new libs built config fresh_node) ≡ some started
      → IsWired started
  unfolding Creation.new
  on_swarm-IsWired db (err e) started h = cc h
  on_swarm-IsWired db (ok built) started h =
      let same = ap (or_services started) h in
      record {
        db = db;
        controller-eq = ap (λ s. s.controller) (sym same);
        state-eq = ap (λ s. s.state) (sym same);
        config-eq = ap (λ s. s.swarm_controller.config) (sym same);
        interface-eq = ap (λ s. s.controller_interface) (sym same);
      }

  on_store-IsWired :
      (key : r.Keypair) (db : Option Db) (started : Services)
      → on_store key db ≡ some started
      → IsWired started
  on_store-IsWired key none started h = cc h
  on_store-IsWired key (some db) started h = on_swarm-IsWired db (r.make_swarm key) started h

  on_keypair-IsWired :
      (key : Result r.Keypair Report) (started : Services)
      → on_keypair key ≡ some started
      → IsWired started
  on_keypair-IsWired (err e) started h = cc h
  on_keypair-IsWired (ok key) started h = on_store-IsWired key r.open_db started h

  pub start_p2p_services-IsWired :
      (started : Services) → start_p2p_services ≡ some started → IsWired started
  unfolding start_p2p_services
  start_p2p_services-IsWired started h =
      on_keypair-IsWired (make_keypair r.decode r.from_bytes config) started h

  -- What the libraries give when the services start.
  pub record CanStart : Type 0 where
    pub secret_bytes : List ℕ
    pub decoded : r.decode config.secret ≡ ok secret_bytes
    pub key : r.Keypair
    pub keyed : r.from_bytes (key_bytes secret_bytes) ≡ ok key
    pub db : Db
    pub opened : r.open_db ≡ some db
    pub swarm_made : r.make_swarm key ≡ ok tt

  pub start_p2p_services-starts :
      CanStart → (started : Services) × (start_p2p_services ≡ some started)
  unfolding start_p2p_services make_keypair Creation.new
  start_p2p_services-starts c = rw (c.decoded, c.keyed, c.opened, c.swarm_made) (_, refl)

  on_swarm-made :
      (db : Db) (built : Result (Unit {0}) Report) (started : Services)
      → on_swarm db (Creation.new libs built config fresh_node) ≡ some started
      → built ≡ ok tt
  unfolding Creation.new
  on_swarm-made db (err e) started h = cc h
  on_swarm-made db (ok built) started h = refl

  on_store-CanStart :
      (bytes : List ℕ) (key : r.Keypair)
      → r.decode config.secret ≡ ok bytes
      → r.from_bytes (key_bytes bytes) ≡ ok key
      → (db : Option Db) (started : Services) → r.open_db ≡ db
      → on_store key db ≡ some started
      → CanStart
  on_store-CanStart bytes key decoded keyed none started opened h = cc h
  on_store-CanStart bytes key decoded keyed (some db) started opened h = record {
    secret_bytes = bytes;
    decoded = decoded;
    key = key;
    keyed = keyed;
    db = db;
    opened = opened;
    swarm_made = on_swarm-made db (r.make_swarm key) started h;
  }

  on_keypair-CanStart :
      (bytes : List ℕ)
      → r.decode config.secret ≡ ok bytes
      → (key : Result r.Keypair Report) (started : Services) → r.from_bytes (key_bytes bytes) ≡ key
      → on_keypair key ≡ some started
      → CanStart
  on_keypair-CanStart bytes decoded (err e) started keyed h = cc h
  on_keypair-CanStart bytes decoded (ok key) started keyed h =
      on_store-CanStart bytes key decoded keyed r.open_db started refl h

  keypair_of-CanStart :
      (bytes : Result (List ℕ) Report) (started : Services)
      → r.decode config.secret ≡ bytes
      → on_keypair (keypair_of r.from_bytes bytes) ≡ some started
      → CanStart
  keypair_of-CanStart (err e) started decoded h = cc h
  keypair_of-CanStart (ok bytes) started decoded h =
      on_keypair-CanStart bytes decoded (r.from_bytes (key_bytes bytes)) started refl h

  pub start_p2p_services-CanStart :
      (started : Services) → start_p2p_services ≡ some started → CanStart
  unfolding start_p2p_services make_keypair
  start_p2p_services-CanStart started h =
      keypair_of-CanStart (r.decode config.secret) started refl h
