-- ===== src/Api/Tests.antt =====
-- Runs of src/api, and the theorems about it at concrete requests.
use mintpool.Prelude.{
  ◌≡◌, ◌⊎◌, refl, String, Bool, true, false, [], ◌∷◌, Option, none, some, ok, str_eq,
}
use mintpool.Prelude.Decimal.{show}
use mintpool.Prelude.Int.{as_i64}
use mintpool.Storage.Query.{get_for_id_and_kind}
use mintpool.Controller.State.{
  SwarmCommand, State, direct, ControllerCommands, query, inserted, db_handle, validate_and_insert,
}
use mintpool.Controller.Commands.{handle_command}
use mintpool.Controller.Fixtures.{config, env, ctl, start, caller, first, second}
use mintpool.Controller.Interface.{Interface, received}
use mintpool.Fixtures.{formats, json, json-RoundTrips, empty_db}
use mintpool.Network.State.{NetworkState, unknown}
use mintpool.Api.Routes.{
  StatusCode, success, unauthorized, internal_server_error, ApiTexts, submit_premint,
  get_by_id_and_kind,
}
use mintpool.Api.Admin.{Header}
use mintpool.Api.Router.{post, router_with_defaults, routes_of, Request, Replies, Server, serve}
use mintpool.Api.Access.{IsHeldBack, serve_unchecked}
use mintpool.Api.Service.{App, start_api, IsAdminOf, start_api-cases}
use mintpool.Config.{Config}
use mintpool.Api.Submissions.{
  insertion, expected, submit_premint-expected, get_by_id_and_kind-submit_premint,
}

abbrev texts : ApiTexts
texts = record {
  insert_error_to_string = λ e. "error";
  report_to_string = λ e. "error";
  recv_error = "channel closed";
  addr_to_string = λ a. "address";
  from_utf8 = λ key. none;
  encode_hex = λ key. "00";
}

abbrev controller : Interface
controller = record { commands = []; is_open = true }

abbrev secret_header : Header
secret_header = record { to_str = some "open sesame" }

-- Paths without parameters stand for themselves.
abbrev server : Server
server = record {
  json = json;
  formats = formats;
  texts = texts;
  path_matches = str_eq;
  api_secret = some "open sesame";
}

abbrev request_to : String → Option Header → Request
request_to path header = record {
  method = post;
  path = path;
  authorization = header;
  query = none;
  kind_and_id = none;
  premint = some first;
  peer = some "a";
}

abbrev no_replies : Replies
no_replies = record { channel = caller; inserted = none; network_state = none }

abbrev asked : Bool → String → Option Header → Option StatusCode × Interface
asked use_admin_routes path header =
    serve server empty_db (request_to path header) no_replies
      (routes_of router_with_defaults use_admin_routes) controller

sync_run :
    asked true "/admin/sync" (some secret_header)
    ≡ (some success, record { commands = ControllerCommands.sync ∷ []; is_open = true })
unfolding serve routes_of router_with_defaults
sync_run = refl

refused_run : asked true "/admin/add-peer" none ≡ (some unauthorized, controller)
unfolding serve routes_of router_with_defaults
refused_run = refl

no_admin_run : asked false "/admin/sync" (some secret_header) ≡ (none, controller)
unfolding serve routes_of router_with_defaults
no_admin_run = refl

submit_run : asked true "/submit-premint" none ≡ (
  some internal_server_error,
  record { commands = ControllerCommands.broadcast first caller ∷ []; is_open = true },
)
unfolding serve routes_of router_with_defaults
submit_run = refl

abbrev secured : Config
secured = record config { admin_api_secret = some "open sesame" }

-- With the routes under /admin.
abbrev app : App
app = record {
  state = record { api_secret = some "open sesame" };
  routes = routes_of router_with_defaults true;
}

start_api-cases_example :
    (IsAdminOf server empty_db (request_to "/admin/sync" none) no_replies controller secured true
      × (asked true "/admin/sync" none
          ≡ serve_unchecked server empty_db
              (request_to "/admin/sync" none)
              no_replies
              app.routes
              controller))
    ⊎ (¬ IsAdminOf server empty_db
          (request_to "/admin/sync" none)
          no_replies
          controller
          secured
          true
        × IsHeldBack server empty_db
            (request_to "/admin/sync" none)
            no_replies
            controller
            (asked true "/admin/sync" none)
            (serve_unchecked server empty_db
              (request_to "/admin/sync" none)
              no_replies
              app.routes
              controller))
unfolding start_api
start_api-cases_example =
    start_api-cases server empty_db (request_to "/admin/sync" none) no_replies controller secured
      caller (some db_handle) true true controller
      (record { commands = query (direct caller) ∷ []; is_open = true }) app refl refl

submit_premint-expected_example :
    (s' : State) × (handle_command env ctl 100000 (ControllerCommands.broadcast second caller) start
      ≡ some (ok tt, s'))
    × (s'.db ≡ (validate_and_insert env ctl second start).1.db)
    × ((submit_premint texts second caller (insertion (received 1 s'.replies)) controller).0
        ≡ expected env ctl texts (validate_and_insert env ctl second start).0 true)
submit_premint-expected_example =
    submit_premint-expected env ctl texts second caller 100000 start controller refl refl refl

get_by_id_and_kind-submit_premint_example :
    get_by_id_and_kind env.json env.formats "simple" "7777777:5:9"
      (validate_and_insert env ctl first start).1.db
    ≡ ok first
unfolding validate_and_insert show as_i64 get_for_id_and_kind handle_command submit_premint
get_by_id_and_kind-submit_premint_example =
    get_by_id_and_kind-submit_premint env ctl json-RoundTrips texts first caller 100000 start
      (record {
        db = (validate_and_insert env ctl first start).1.db;
        sent = SwarmCommand.broadcast first ∷ [];
        replies = (1, inserted (ok tt)) ∷ [];
        swarm_open = true;
      })
      controller refl refl refl refl refl

abbrev swarm : NetworkState
swarm = record {
  local_peer_id = "me";
  num_peers = 0;
  dht_peers = [];
  gossipsub_peers = [];
  external_addresses = [];
  providing = (1 ∷ []) ∷ [];
  listeners = [];
  nat_status = unknown;
}
