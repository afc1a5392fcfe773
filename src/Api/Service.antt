-- ===== src/Api/Service.antt =====
-- src/api/mod.rs: `AppState::from` and `start_api`.
use mintpool.Prelude.{
  ◌≡◌, refl, sym, ap, ◌∙◌, subst, ◌⊎◌, String, Bool, true, false, List, Option, none, some, Result,
  ok, err,
}
use mintpool.Config.{Config}
use mintpool.Types.Data.{Report}
use mintpool.Storage.Table.{Db}
use mintpool.Controller.State.{Channel, direct, query, Reply, inserted, premints, db_handle}
use mintpool.Controller.Interface.{Interface, send_command}
use mintpool.Api.Router.{Route, router_with_defaults, routes_of, Request, Replies, Server, serve}
use mintpool.Api.Access.{IsAuthorized, IsHeldBack, serve_unchecked, serve-cases}

-- `AppState`, but for its handles: requests are served with what the database then holds, and with
-- the interface.
pub record AppState : Type 0 where
  pub api_secret : Option String

-- What is served.
pub record App : Type 0 where
  pub state : AppState
  pub routes : List Route

-- None is a panic: the controller is gone, or sends no handle back.
abbrev on_handle :
    Config → Option Reply → Result (Unit {0}) Report × Interface → Option (AppState × Interface)
on_handle config reply (err e, i) = none
on_handle config none (ok u, i) = none
on_handle config (some (inserted r)) (ok u, i) = none
on_handle config (some (premints r)) (ok u, i) = none
on_handle config (some db_handle) (ok u, i) =
    some (record { api_secret = config.admin_api_secret }, i)

-- `reply` is what the oneshot channel brings.
unfoldable pub app_state_from :
    Config → Channel → Option Reply → Interface → Option (AppState × Interface)
unfolding send_command
app_state_from config channel reply i =
    on_handle config reply (send_command (query (direct channel)) i)

-- `bound` tells whether the address can be listened on; the API panics otherwise.
abbrev on_bound : List Route → Bool → Option (AppState × Interface) → Option (App × Interface)
on_bound routes bound none = none
on_bound routes false (some started) = none
on_bound routes true (some started) =
    some (record { state = started.0; routes = routes }, started.1)

unfoldable pub start_api :
    Config
    → Channel
    → Option Reply
    → Bool
    → List Route
    → Bool
    → Interface
    → Option (App × Interface)
unfolding app_state_from routes_of
start_api config channel reply bound router use_admin_routes i =
    on_bound (routes_of router use_admin_routes) bound (app_state_from config channel reply i)

on_bound-bound :
    (routes : List Route) (bound : Bool) (started : Option (AppState × Interface))
    (served : App × Interface)
    → on_bound routes bound started ≡ some served
    → bound ≡ true
on_bound-bound routes bound none served h = cc h
on_bound-bound routes false (some started) served h = cc h
on_bound-bound routes true (some started) served h = refl

-- The API that starts listens on its address.
pub start_api-bound :
    (config : Config) (channel : Channel) (reply : Option Reply) (bound : Bool)
    (router : List Route) (use_admin_routes : Bool) (i : Interface) (served : App × Interface)
    → start_api config channel reply bound router use_admin_routes i ≡ some served
    → bound ≡ true
unfolding start_api app_state_from
start_api-bound config channel reply bound router use_admin_routes i served h =
    on_bound-bound (routes_of router use_admin_routes) bound _ served h

-- The API starts when the controller receives and sends the handle back, and the address can be
-- listened on.
pub start_api-starts :
    (config : Config) (channel : Channel) (router : List Route) (use_admin_routes : Bool)
    (i : Interface)
    → i.is_open ≡ true
    → (served : App × Interface) × (start_api config channel
          (some db_handle)
          true
          router
          use_admin_routes
          i
        ≡ some served)
unfolding start_api app_state_from send_command
start_api-starts config channel router use_admin_routes i is_open = rw is_open (_, refl)

-- An app that was started has the configured secret, and the routes that were asked for.
abbrev IsStarted : Config → List Route → App → Type 0
IsStarted config routes app =
    (app.state.api_secret ≡ config.admin_api_secret) × (app.routes ≡ routes)

abbrev StartsAs : Config → Option (AppState × Interface) → Type 0
StartsAs config none = Unit
StartsAs config (some started) = started.0.api_secret ≡ config.admin_api_secret

app_state_from-StartsAs :
    (config : Config) (reply : Option Reply) (sent : Result (Unit {0}) Report × Interface)
    → StartsAs config (on_handle config reply sent)
app_state_from-StartsAs config reply (err e, i) = tt
app_state_from-StartsAs config none (ok u, i) = tt
app_state_from-StartsAs config (some (inserted r)) (ok u, i) = tt
app_state_from-StartsAs config (some (premints r)) (ok u, i) = tt
app_state_from-StartsAs config (some db_handle) (ok u, i) = refl

abbrev or_app : App × Interface → Option (App × Interface) → App × Interface
or_app other none = other
or_app other (some started) = started

on_bound-IsStarted :
    (config : Config) (routes : List Route) (bound : Bool) (started : Option (AppState × Interface))
    (app : App) (i : Interface)
    → StartsAs config started
    → on_bound routes bound started ≡ some (app, i)
    → IsStarted config routes app
on_bound-IsStarted config routes bound none app i h e = cc e
on_bound-IsStarted config routes false (some started) app i h e = cc e
on_bound-IsStarted config routes true (some started) app i h e =
    let same = ap (or_app (app, i)) e in
    (ap (λ a. a.0.state.api_secret) (sym same) ∙ h, ap (λ a. a.0.routes) (sym same))

module _ (server : Server) (db : Db) (request : Request) (replies : Replies) (i : Interface) where
  -- The routes under /admin are there, and the request names the configured secret.
  abbrev pub IsAdminOf : Config → Bool → Type 0
  IsAdminOf config use_admin_routes =
      (use_admin_routes ≡ true) × IsAuthorized config.admin_api_secret request.authorization

  -- A request to the API as it was started: where it serves the routes under /admin and the request
  -- names the secret that is configured, it is served as if no secret were asked for; any other is
  -- refused with 401 and asks nothing of the controller, or is served and asks the controller at
  -- most to broadcast a premint or for the state of the network, never to connect to a peer or to
  -- sync. Without a configured secret every request is such another one.
  pub start_api-cases :
      (config : Config) (channel : Channel) (reply : Option Reply) (bound use_admin_routes : Bool)
      (before after : Interface) (app : App)
      → start_api config channel reply bound router_with_defaults use_admin_routes before
        ≡ some (app, after)
      → server.api_secret ≡ app.state.api_secret
      → (IsAdminOf config use_admin_routes
          × (serve server db request replies app.routes i
              ≡ serve_unchecked server db request replies app.routes i))
        ⊎ (¬ IsAdminOf config use_admin_routes
            × IsHeldBack server db request replies i
                (serve server db request replies app.routes i)
                (serve_unchecked server db request replies app.routes i))
  unfolding start_api app_state_from
  start_api-cases config channel reply bound use_admin_routes before after app h secret =
      let started =
        on_bound-IsStarted config (routes_of router_with_defaults use_admin_routes) bound _ app
          after
          (app_state_from-StartsAs config reply (send_command (query (direct channel)) before)) h in
      subst
        (λ (c : Option String).
          (((use_admin_routes ≡ true) × IsAuthorized c request.authorization)
            × (serve server db request replies app.routes i
                ≡ serve_unchecked server db request replies app.routes i))
          ⊎ (¬ ((use_admin_routes ≡ true) × IsAuthorized c request.authorization)
              × IsHeldBack server db request replies i
                  (serve server db request replies app.routes i)
                  (serve_unchecked server db request replies app.routes i)))
        (secret ∙ started.0)
        (rw started.1 (serve-cases server db request replies use_admin_routes i))
