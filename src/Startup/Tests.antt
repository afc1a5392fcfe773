-- ===== src/Startup/Tests.antt =====
-- Runs of src/run.rs, and the theorems about it at concrete configurations.
use mintpool.Prelude.{
  ℕ, ◌≡◌, ◌↔◌, refl, String, true, List, [], ◌∷◌, ok, err, Option, none, some, take, length,
}
use mintpool.Prelude.Decimal.{show}
use mintpool.Prelude.Int.{pos}
use mintpool.Prelude.Utf8.{starts_with}
use mintpool.Config.{Config, check, custom, premint_names}
use mintpool.Types.Data.{message}
use mintpool.Controller.State.{ControllerCommands}
use mintpool.Controller.Fixtures.{env, ctl, config, caller}
use mintpool.Network.Fixtures.{libs, view}
use mintpool.Fixtures.{empty_db}
use mintpool.ChainList.{Chain}
use mintpool.Startup.{replicate, key_bytes, start_watch_chain}
use mintpool.Api.Router.{router_with_defaults, routes_of}
use mintpool.Startup.Process.{IsSome, Machine, main}
use mintpool.Startup.Starts.{Startable, main-starts_iff}
use mintpool.Startup.Services.{Services, Resources, fresh_node, fresh_state, start_p2p_services}
use mintpool.Startup.Dialling.{AreDialled, start_p2p_services-AreDialled}
use mintpool.Startup.Laws.{key_bytes-take}

abbrev checking : Config
checking = record config { chain_inclusion_mode = check }

abbrev parse : String → Option ℕ
parse s = some 7777777

abbrev unset : String → Option String
unset name = none

abbrev zora : Chain
zora = record {
  name = "Zora";
  chain = "ETH";
  rpc = "https://rpc.zora.energy" ∷ "wss://rpc.zora.energy" ∷ [];
  chain_id = 7777777;
  network_id = pos 7777777;
}

start_watch_chain_run :
    start_watch_chain parse unset (zora ∷ []) checking
    ≡ some ((7777777, "wss://rpc.zora.energy") ∷ [])
unfolding start_watch_chain starts_with show
start_watch_chain_run = refl

-- A short secret.
key_bytes-take_example :
    (key_bytes (7 ∷ 8 ∷ []) ≡ take 32 (7 ∷ 8 ∷ replicate 32 0))
    × (length (key_bytes (7 ∷ 8 ∷ [])) ≡ 32)
key_bytes-take_example = key_bytes-take (7 ∷ 8 ∷ [])

-- A node with one boot node, whose database is empty.
abbrev with_boot_node : Config
with_boot_node = record config { boot_nodes = custom ("/ip4/10.0.0.1" ∷ []) }

abbrev resources : Resources
resources = record {
  Keypair = List ℕ;
  decode = λ s. ok [];
  from_bytes = λ bs. ok bs;
  make_swarm = λ key. ok tt;
  open_db = some empty_db;
  contract_boot_nodes = err (message "down");
}

abbrev started : Services
started = record {
  controller = record {
    store = record { prune_minted_premints = true };
    rules = ctl.rules;
    config = with_boot_node;
  };
  state = fresh_state empty_db;
  swarm_controller = record {
    config = with_boot_node;
    premint_names = record { name = "simple" } ∷ [];
  };
  node = fresh_node;
  controller_interface = record {
    commands =
        ControllerCommands.connect_to_peer "/ip4/10.0.0.1" ∷ ControllerCommands.announce_self ∷ [];
    is_open = true;
  };
}

start_p2p_services-AreDialled_example : AreDialled env libs 0 view ("/ip4/10.0.0.1" ∷ []) started
unfolding start_p2p_services premint_names
start_p2p_services-AreDialled_example =
    start_p2p_services-AreDialled env libs resources with_boot_node ctl.rules 0 view
      ("/ip4/10.0.0.1" ∷ []) started refl refl refl

abbrev machine : Machine
machine = record {
  env = env;
  libs = libs;
  resources = resources;
  parse = parse;
  is_chain = λ chain_id. true;
  env_var = unset;
  chains = zora ∷ [];
  bound = true;
}

main_run :
    main machine ctl.rules 0 caller with_boot_node
    ≡ some (record {
      services = started;
      app = record {
        state = record { api_secret = none };
        routes = routes_of router_with_defaults true;
      };
      watched = [];
    })
unfolding main premint_names
main_run = refl

main-starts_iff_example :
    IsSome (main machine ctl.rules 0 caller with_boot_node)
    ↔ Startable machine ctl.rules 0 caller with_boot_node
main-starts_iff_example = main-starts_iff machine ctl.rules 0 caller with_boot_node refl
