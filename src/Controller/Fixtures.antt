-- ===== src/Controller/Fixtures.antt =====
-- A controller and its state, for the runs.
use mintpool.Prelude.{true, false, [], ◌∷◌, none, some, ok, if◌then◌else◌, ◌==◌}
use mintpool.Config.{Config, trust, no_nodes}
use mintpool.Types.Premint.{PremintTypes, simple}
use mintpool.Rules.Evaluation.{accept, reject, Results}
use mintpool.Rules.Context.{Rule}
use mintpool.Controller.State.{Channel, Env, Controller, State}
use mintpool.Fixtures.{formats, json, token, empty_db, decode_raw_log, get_rpc}

abbrev pub env : Env
env = record {
  formats = formats;
  json = json;
  get_rpc = get_rpc;
  decode_raw_log = decode_raw_log;
  peer_id_from_str = λ s. some s;
  report_debug = λ e. "error";
}

-- Version 2 is not welcome.
abbrev pub only_first : Rule
only_first = record {
  rule_name = "only_first";
  check = λ item context. elim item [
    | simple p ↦ if p.version == 1 then ok accept else ok (reject "not the first")
    | _ ↦ ok accept
  ];
}

abbrev pub config : Config
config = record {
  secret = "";
  peer_port = 7778;
  connect_external = false;
  db_url = none;
  persist_state = false;
  prune_minted_premints = true;
  api_port = 7777;
  peer_limit = 1000;
  supported_premint_types = "simple";
  chain_inclusion_mode = trust;
  supported_chain_ids = "7777777";
  trusted_peers = some "alice,bob";
  node_id = none;
  external_address = none;
  interactive = false;
  enable_rpc = true;
  admin_api_secret = none;
  rate_limit_rps = 1;
  boot_nodes = no_nodes;
  sync_lookback_hours = 6;
  enable_relay_server = false;
}

abbrev pub ctl : Controller
ctl = record {
  store = record { prune_minted_premints = true };
  rules = record { rules = only_first ∷ []; use_rpc = false };
  config = config;
}

abbrev pub start : State
start = record { db = empty_db; sent = []; replies = []; swarm_open = true }

abbrev pub caller : Channel
caller = record { name = 1; alive = true }

abbrev pub first : PremintTypes
first = simple (token 1)

abbrev pub second : PremintTypes
second = simple (token 2)

abbrev pub passed : Results
passed = record { rule_name = "only_first"; result = ok accept } ∷ []

abbrev pub refused : Results
refused = record { rule_name = "only_first"; result = ok (reject "not the first") } ∷ []
