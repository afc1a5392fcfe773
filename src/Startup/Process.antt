-- ===== src/Startup/Process.antt =====
-- src/main.rs: the start of the whole process.
use mintpool.Prelude.{ℕ, ◌≡◌, String, Bool, true, List, [], ◌∷◌, ◌++◌, Option, none, some}
use mintpool.Config.{Config, validate}
use mintpool.Rules.Engine.{RulesEngine}
use mintpool.ChainList.{Chain}
use mintpool.Controller.State.{Channel, direct, query, Env, State, Reply}
use mintpool.Controller.Interface.{Interface, received}
use mintpool.Controller.Commands
use mintpool.Network.State.{Libs}
use mintpool.Api.Router.{router_with_defaults}
use mintpool.Api.Service.{App, start_api}
use mintpool.Startup.{start_watch_chain}
use mintpool.Startup.Services.{Services, Resources, start_p2p_services}
use mintpool.Startup.Dialling.{controller_inputs}

-- What runs once the process has started: the services, the API and the watched chains.
pub record Running : Type 0 where
  pub services : Services
  pub app : App
  pub watched : List (ℕ × String)

abbrev pub IsSome {ℓ} : {A : Type ℓ} → Option A → Type ℓ
IsSome {A = A} o = (a : A) × (o ≡ some a)

abbrev pub and_then {ℓ κ} : {A : Type ℓ} → {B : Type κ} → Option A → (A → Option B) → Option B
and_then none f = none
and_then (some a) f = f a

abbrev pub reply_in : Channel → Option State → Option Reply
reply_in channel none = none
reply_in channel (some s) = received channel.name s.replies

-- What the process is given: the rest of the libraries and the machine.
pub record Machine : Type 1 where
  pub env : Env
  pub libs : Libs
  pub resources : Resources
  pub parse : String → Option ℕ
  pub is_chain : ℕ → Bool
  pub env_var : String → Option String
  pub chains : List Chain
  pub bound : Bool

module _ (m : Machine) (rules : RulesEngine) (now : ℕ) (channel : Channel) where
  -- What the controller answers to the API's question for the database, after its first commands.
  abbrev pub answer_of : Services → Option Reply
  answer_of s = reply_in channel (
      Commands.run_loop m.env s.controller
        (controller_inputs m.env s.controller now
          (s.controller_interface.commands ++ query (direct channel) ∷ []))
        s.state)

  abbrev pub with_api : Config → Services → App × Interface → Option Running
  with_api config services app =
      and_then (start_watch_chain m.parse m.env_var m.chains config)
        λ watched. some (record { services = services; app = app.0; watched = watched })

  abbrev pub with_services : Config → Services → Option Running
  with_services config services =
      and_then
        (start_api config channel (answer_of services) m.bound router_with_defaults true
          services.controller_interface)
        (with_api config services)

  abbrev pub with_config : Config → Option Running
  with_config config =
      and_then (start_p2p_services m.libs m.resources config rules) (with_services config)

  -- None is a panic.
  unfoldable pub main : Config → Option Running
  unfolding validate start_p2p_services start_api start_watch_chain Commands.run_loop
  main config = and_then (validate m.parse m.is_chain config) with_config
