-- ===== src/Api/Access.antt =====
-- src/api/admin.rs and src/api/mod.rs: how a request is served with the secret and without it.
use mintpool.Prelude.{
  ◌≡◌, refl, ◌⊎◌, inl, inr, String, Bool, true, false, List, Option, none, some, ok, err, All,
  All-mono, All-append, All-find, find, str_eq, eq_iff, Bool-cases, arith,
}
use mintpool.Storage.Table.{Db}
use mintpool.Controller.Interface.{Interface}
use mintpool.Api.Routes.{unauthorized}
use mintpool.Api.Admin.{Header, unwrap_or_default, auth_middleware}
use mintpool.Api.Router.{
  Route, router_with_defaults, with_admin_routes, routes_of, Request, Replies, Server, Served,
  run_handler, run_route, is_route, run_found, serve,
}
use mintpool.Api.Effects.{IsPublicEffect, IsPublicHandler, run_handler-IsPublicEffect}

-- A secret is configured, and the request has a header that reads as it.
abbrev pub IsAuthorized : Option String → Option Header → Type 0
IsAuthorized none header = ⊥
IsAuthorized (some secret) none = ⊥
IsAuthorized (some secret) (some auth) = unwrap_or_default auth.to_str ≡ secret

IsAuthorized-cases :
    (secret : Option String) (header : Option Header)
    → IsAuthorized secret header ⊎ ¬ IsAuthorized secret header
IsAuthorized-cases none header = inr (λ h. h)
IsAuthorized-cases (some secret) none = inr (λ h. h)
IsAuthorized-cases (some secret) (some auth) =
    elim (Bool-cases (str_eq (unwrap_or_default auth.to_str) secret)) [
      | inl same ↦ inl ((eq_iff _ _).0 same)
      | inr differ ↦ inr (λ h. cc ((eq_iff _ _).1 h, differ))
    ]

auth_middleware-authorized :
    {A : Type 0} (secret : Option String) (header : Option Header) (next : A)
    → IsAuthorized secret header
    → auth_middleware secret header next ≡ ok next
unfolding auth_middleware
auth_middleware-authorized none header next h = absurd h
auth_middleware-authorized (some secret) none next h = absurd h
auth_middleware-authorized (some secret) (some auth) next h = rw ((eq_iff _ _).1 h) refl

auth_middleware-refused :
    {A : Type 0} (secret : Option String) (header : Option Header) (next : A)
    → ¬ IsAuthorized secret header
    → (text : String) × (auth_middleware secret header next ≡ err (unauthorized, text))
unfolding auth_middleware
auth_middleware-refused none header next h = ("Unauthorized", refl)
auth_middleware-refused (some secret) none next h =
    ("Unauthorized. Set Header Authorization: <secret>", refl)
auth_middleware-refused (some secret) (some auth) next h =
    elim (Bool-cases (str_eq (unwrap_or_default auth.to_str) secret)) [
      | inl same ↦ absurd (h ((eq_iff _ _).0 same))
      | inr differ ↦ ("Unauthorized. Invalid secret", rw differ refl)
    ]

module _ (server : Server) (db : Db) (request : Request) (replies : Replies) where
  -- A route is open to anybody, or the check of the secret stands before it.
  abbrev IsOpen : Route → Type 0
  IsOpen r = (r.guarded ≡ false) × IsPublicHandler r.handler

  abbrev IsSafe : Route → Type 0
  IsSafe r = (r.guarded ≡ true) ⊎ IsOpen r

  router-IsOpen : All IsOpen router_with_defaults
  unfolding router_with_defaults
  router-IsOpen =
      ((refl, tt), ((refl, tt), ((refl, tt), ((refl, tt), ((refl, tt), ((refl, tt), tt))))))

  router-IsSafe : All IsSafe (with_admin_routes router_with_defaults)
  unfolding with_admin_routes
  router-IsSafe =
      All-append IsSafe router_with_defaults _
        (All-mono IsOpen IsSafe (λ r h. inr h) router_with_defaults router-IsOpen)
        (inl refl, (inl refl, (inl refl, tt)))

  -- A request that is not let through to every handler is refused with 401 and asks nothing of the
  -- controller, or is served as without a check and asks what anybody may ask.
  abbrev pub IsHeldBack : Interface → Served → Served → Type 0
  IsHeldBack i served unchecked =
      (served ≡ (some unauthorized, i)) ⊎ ((served ≡ unchecked) × IsPublicEffect i served.1)

  run_route-IsOpen :
      (r : Route) (i : Interface)
      → IsOpen r
      → IsHeldBack i
          (run_route server db request replies r i)
          (run_handler server db request replies r.handler i)
  unfolding run_route
  run_route-IsOpen r i h =
      rw h.0 (inr (refl, run_handler-IsPublicEffect server db request replies r.handler i h.1))

  run_route-refused :
      (r : Route) (i : Interface)
      → ¬ IsAuthorized server.api_secret request.authorization
      → r.guarded ≡ true
      → run_route server db request replies r i ≡ (some unauthorized, i)
  unfolding run_route
  run_route-refused r i none_given guarded =
      rw
        (
          guarded,
          (auth_middleware-refused server.api_secret request.authorization
              (run_handler server db request replies r.handler i) none_given).1,
        )
        refl

  run_route-authorized :
      (r : Route) (i : Interface)
      → IsAuthorized server.api_secret request.authorization
      → run_route server db request replies r i ≡ run_handler server db request replies r.handler i
  unfolding run_route
  run_route-authorized r i h = elim (Bool-cases r.guarded) [
    | inl guarded ↦
        rw
          (
            guarded,
            auth_middleware-authorized server.api_secret request.authorization
                (run_handler server db request replies r.handler i) h,
          )
          refl
    | inr not_guarded ↦ rw not_guarded refl
  ]

  run_route-IsSafe :
      (r : Route) (i : Interface)
      → ¬ IsAuthorized server.api_secret request.authorization
      → IsSafe r
      → IsHeldBack i
          (run_route server db request replies r i)
          (run_handler server db request replies r.handler i)
  run_route-IsSafe r i none_given (inr open_to_all) = run_route-IsOpen r i open_to_all
  run_route-IsSafe r i none_given (inl guarded) = inl (run_route-refused r i none_given guarded)

  -- What a request would be served with if no secret were asked for.
  abbrev pub serve_unchecked : List Route → Interface → Served
  serve_unchecked routes i =
      run_found (λ r. run_handler server db request replies r.handler i)
        (find (is_route server db request replies) routes) i

  serve-IsHeldBack :
      (P : Route → Type 0) (routes : List Route) (i : Interface)
      → All P routes
      → ((r : Route)
          → P r
          → IsHeldBack i
              (run_route server db request replies r i)
              (run_handler server db request replies r.handler i))
      → IsHeldBack i (serve server db request replies routes i) (serve_unchecked routes i)
  unfolding serve
  serve-IsHeldBack P routes i all held =
      All-find P
        (λ found.
          IsHeldBack i (run_found (λ r. run_route server db request replies r i) found i)
            (run_found (λ r. run_handler server db request replies r.handler i) found i))
        (is_route server db request replies) routes all (inr (refl, inl refl)) held

  run_found-agree :
      (run run' : Route → Served)
      → ((r : Route) → run r ≡ run' r)
      → (found : Option Route) (i : Interface) → run_found run found i ≡ run_found run' found i
  run_found-agree run run' h none i = refl
  run_found-agree run run' h (some r) i = h r

  serve-authorized :
      (routes : List Route) (i : Interface)
      → IsAuthorized server.api_secret request.authorization
      → serve server db request replies routes i ≡ serve_unchecked routes i
  unfolding serve
  serve-authorized routes i h = run_found-agree _ _ (λ r. run_route-authorized r i h) _ i

  -- The routes under /admin are there, and the request names the secret.
  abbrev pub IsAdmin : Bool → Type 0
  IsAdmin use_admin_routes =
      (use_admin_routes ≡ true) × IsAuthorized server.api_secret request.authorization

  -- A request to the API: where the routes under /admin are served and it names the configured
  -- secret, it is served as if no secret were asked for; any other is refused with 401 and asks
  -- nothing of the controller, or is served and asks the controller at most to broadcast a premint
  -- or for the state of the network, never to connect to a peer or to sync.
  pub serve-cases :
      (use_admin_routes : Bool) (i : Interface)
      → (IsAdmin use_admin_routes
          × (serve server db request replies (routes_of router_with_defaults use_admin_routes) i
              ≡ serve_unchecked (routes_of router_with_defaults use_admin_routes) i))
        ⊎ (¬ IsAdmin use_admin_routes
            × IsHeldBack i
                (serve server db request replies
                  (routes_of router_with_defaults use_admin_routes)
                  i)
                (serve_unchecked (routes_of router_with_defaults use_admin_routes) i))
  unfolding routes_of
  serve-cases false i = inr (
    (λ h. ground (arith, h)),
    serve-IsHeldBack IsOpen router_with_defaults i router-IsOpen (λ r h. run_route-IsOpen r i h),
  )
  serve-cases true i = elim (IsAuthorized-cases server.api_secret request.authorization) [
    | inl h ↦ inl ((refl, h), serve-authorized _ i h)
    | inr none_given ↦ inr (
      (λ h. none_given h.1),
      serve-IsHeldBack IsSafe (with_admin_routes router_with_defaults) i router-IsSafe
          (λ r h. run_route-IsSafe r i none_given h),
    )
  ]
