-- ===== src/Api/Router.antt =====
-- src/api/mod.rs: the routes of the HTTP API, and the guard before those under /admin.
use mintpool.Prelude.{
  String, Bool, true, false, ◌&&◌, List, [], ◌∷◌, ◌++◌, map, find, Option, none, some, Result, ok,
  err, if◌then◌else◌,
}
use mintpool.Types.Data.{Formats}
use mintpool.Types.Premint.{PremintTypes, Json}
use mintpool.Storage.Table.{Db}
use mintpool.Storage.Query.{QueryOptions}
use mintpool.Controller.State.{Channel, InsertError}
use mintpool.Controller.Interface.{Interface}
use mintpool.Network.State.{NetworkState}
use mintpool.Api.Routes
use mintpool.Api.Routes.{StatusCode, success, ApiTexts, Answer, SummaryResponse}
use mintpool.Api.Admin
use mintpool.Api.Admin.{Header, auth_middleware}

pub data Method : Type 0 where
  get : Method
  post : Method

-- The handlers.
pub data Handler : Type 0 where
  health : Handler
  list_all : Handler
  get_one : Handler
  get_by_id_and_kind : Handler
  submit_premint : Handler
  summary : Handler
  add_peer : Handler
  sync : Handler

-- A route, and whether the check of the secret stands before its handler.
pub record Route : Type 0 where
  pub method : Method
  pub path : String
  pub handler : Handler
  pub guarded : Bool

abbrev route : String → Method → Handler → Route
route path method handler = record {
  method = method;
  path = path;
  handler = handler;
  guarded = false;
}

unfoldable pub router_with_defaults : List Route
router_with_defaults =
    route "/health" get health
    ∷ route "/list-all" get list_all
    ∷ route "/get-one" get get_one
    ∷ route "/get-one/:kind/:id" get get_by_id_and_kind
    ∷ route "/submit-premint" post submit_premint
    ∷ route "/summary" get summary
    ∷ []

-- A layer is put before the routes that a router already has.
abbrev guard : Route → Route
guard r = record r { guarded = true }

abbrev layer_auth : List Route → List Route
layer_auth routes = map guard routes

unfoldable pub with_admin_routes : List Route → List Route
with_admin_routes router =
    router
    ++ layer_auth (
        route "/admin/add-peer" post add_peer
        ∷ route "/admin/submit-premint" post submit_premint
        ∷ route "/admin/sync" post sync
        ∷ [])

-- The routes that `start_api` serves.
unfoldable pub routes_of : List Route → Bool → List Route
unfolding with_admin_routes
routes_of router use_admin_routes = if use_admin_routes then with_admin_routes router else router

-- What axum's extractors read off a request, each where it succeeds.
pub record Request : Type 0 where
  pub method : Method
  pub path : String
  pub authorization : Option Header
  pub query : Option QueryOptions
  pub kind_and_id : Option (String × String)
  pub premint : Option PremintTypes
  pub peer : Option String

-- The oneshot channel that a handler makes, and what comes back on it.
pub record Replies : Type 0 where
  pub channel : Channel
  pub inserted : Option (Result (Unit {0}) InsertError)
  pub network_state : Option NetworkState

-- What a request is served with; axum tells whether a path is one of a route's.
pub record Server : Type 0 where
  pub json : Json
  pub formats : Formats
  pub texts : ApiTexts
  pub path_matches : String → String → Bool
  pub api_secret : Option String

abbrev is_method : Method → Method → Bool
is_method get get = true
is_method post post = true
is_method _ _ = false

abbrev status_of {ℓ} : {A : Type ℓ} → Answer A → StatusCode
status_of (ok a) = success
status_of (err e) = e.0

abbrev summary_status : {t : ApiTexts} → Result (SummaryResponse t) StatusCode → StatusCode
summary_status (ok r) = success
summary_status (err status) = status

-- The status of what a handler answers; none where axum answers without one.
abbrev pub Served : Type 0
Served = Option StatusCode × Interface

-- A handler runs when all that it takes is read off the request.
abbrev pub extracted {ℓ} : {A : Type ℓ} → Option A → (A → Served) → Interface → Served
extracted none f i = (none, i)
extracted (some a) f i = f a

-- Without a route, axum answers.
abbrev pub run_found : (Route → Served) → Option Route → Interface → Served
run_found run none i = (none, i)
run_found run (some r) i = run r

module _ (server : Server) (db : Db) (request : Request) (replies : Replies) where
  unfoldable pub run_handler : Handler → Interface → Served
  unfolding Routes.list_all Routes.get_one Routes.get_by_id_and_kind Routes.submit_premint
      Routes.summary Admin.add_peer Admin.sync_peers
  run_handler health i = (some success, i)
  run_handler list_all i =
      extracted request.query
        (λ q. (some (status_of (Routes.list_all server.json server.formats q db)), i)) i
  run_handler get_one i =
      extracted request.query
        (λ q. (some (status_of (Routes.get_one server.json server.formats q db)), i)) i
  run_handler get_by_id_and_kind i =
      extracted request.kind_and_id
        (λ p.
          (some (status_of (Routes.get_by_id_and_kind server.json server.formats p.0 p.1 db)), i))
        i
  run_handler submit_premint i =
      extracted request.premint
        (λ p.
          let answer = Routes.submit_premint server.texts p replies.channel replies.inserted i in
          (some answer.0.0, answer.1))
        i
  run_handler summary i =
      let answer = Routes.summary server.texts replies.channel replies.network_state db i in
      (some (summary_status answer.0), answer.1)
  run_handler add_peer i =
      extracted request.peer
        (λ p. let answer = Admin.add_peer server.texts p i in (some answer.0.0, answer.1)) i
  run_handler sync i = let answer = Admin.sync_peers server.texts i in (some answer.0, answer.1)

  abbrev let_through : Interface → Result Served (StatusCode × String) → Served
  let_through i (ok answer) = answer
  let_through i (err e) = (some e.0, i)

  unfoldable pub run_route : Route → Interface → Served
  unfolding auth_middleware run_handler
  run_route r i =
      let answer = run_handler r.handler i in
      if r.guarded
      then let_through i (auth_middleware server.api_secret request.authorization answer)
      else answer

  abbrev pub is_route : Route → Bool
  is_route r = is_method r.method request.method && server.path_matches r.path request.path

  unfoldable pub serve : List Route → Interface → Served
  unfolding run_route
  serve routes i = run_found (λ r. run_route r i) (find is_route routes) i
