-- ===== src/Startup/Starts.antt =====
-- src/main.rs: when the process starts.
use mintpool.Prelude.{
  ℕ, ◌≡◌, ◌≢◌, ◌↔◌, ◌⊎◌, inl, inr, refl, sym, ap, ap₂, ◌∙◌, String, true, List, [], ◌∷◌, ◌++◌,
  Option, none, some,
}
use mintpool.Config.{Config, ChainInclusionMode, check, verify, trust, supported_chains}
use mintpool.Config.Laws.{AreValid, validate-valid, validate-AreValid}
use mintpool.Rules.Engine.{RulesEngine}
use mintpool.ChainList.{Chain, get_rpc_url}
use mintpool.Controller.State.{Channel, direct, query, db_handle}
use mintpool.Controller.Commands
use mintpool.Api.Router.{router_with_defaults}
use mintpool.Api.Service.{start_api, start_api-bound, start_api-starts}
use mintpool.Startup.{start_watch_chain}
use mintpool.Startup.Laws.{Watched, start_watch_chain-Watched}
use mintpool.Startup.Services.{
  Services, CanStart, start_p2p_services, start_p2p_services-starts, start_p2p_services-CanStart,
  start_p2p_services-IsWired,
}
use mintpool.Startup.Answers.{connect_initially-is_open, commands_then_direct}
use mintpool.Startup.Dialling.{controller_inputs}
use mintpool.Startup.Process.{
  Running, IsSome, and_then, Machine, reply_in, answer_of, with_api, with_services, with_config,
  main,
}

-- `and_then` gives something when both do.
and_then-some :
    {A B : Type 0} (o : Option A) (f : A → Option B) (b : B)
    → and_then o f ≡ some b
    → (a : A) × (o ≡ some a) × (f a ≡ some b)
and_then-some none f b h = cc h
and_then-some (some a) f b h = (a, refl, h)

and_then-gives :
    {A B : Type 0} (o : Option A) (f : A → Option B) (a : A) (b : B)
    → o ≡ some a
    → f a ≡ some b
    → and_then o f ≡ some b
and_then-gives o f a b h k = ap (λ o. and_then o f) h ∙ k

module _ (parse : String → Option ℕ) (env_var : String → Option String) (list : List Chain)
    (config : Config) (chains : List ℕ) where
  -- In the mode Check every chain has a URL.
  abbrev pub CanWatch : Type 0
  CanWatch =
      (config.chain_inclusion_mode ≢ check)
      ⊎ ((ws : List (ℕ × String)) × Watched (get_rpc_url env_var list) chains ws)

  starts_to_watch :
      supported_chains parse config ≡ some chains
      → (mode : ChainInclusionMode) → config.chain_inclusion_mode ≡ mode
      → IsSome (start_watch_chain parse env_var list config) ↔ CanWatch
  unfolding start_watch_chain
  starts_to_watch parses check same =
      let watched_iff = λ (ws : List (ℕ × String)).
        start_watch_chain-Watched parse env_var list config chains ws same parses in
      (
        (λ started. inr (started.0, (watched_iff started.0).0 started.1)),
        (λ can. elim can [
          | inl other ↦ absurd (other same)
          | inr found ↦ (found.0, (watched_iff found.0).1 found.1)
        ]),
      )
  starts_to_watch parses verify same =
      ((λ started. inl (λ is_check. cc (same, is_check))), (λ can. ([], rw same refl)))
  starts_to_watch parses trust same =
      ((λ started. inl (λ is_check. cc (same, is_check))), (λ can. ([], rw same refl)))

module _ (m : Machine) (rules : RulesEngine) (now : ℕ) (channel : Channel) (config : Config) where
  -- What the start needs: a configuration that is valid, a secret in hex that makes a key, a
  -- database, a swarm, an address for the API, and, in the mode Check, a URL for every chain.
  pub record Startable : Type 0 where
    pub chains : List ℕ
    pub valid : AreValid m.parse m.is_chain config chains
    pub services : CanStart m.libs m.resources config rules
    pub listening : m.bound ≡ true
    pub watching : CanWatch m.parse m.env_var m.chains config chains

  answer_of-handle :
      (s : Services)
      → channel.alive ≡ true
      → start_p2p_services m.libs m.resources config rules ≡ some s
      → answer_of m rules now channel s ≡ some db_handle
  answer_of-handle s alive h =
      let wired = start_p2p_services-IsWired m.libs m.resources config rules s h in
      let (s', runs, answered) =
        commands_then_direct m.env s.controller now channel config.boot_nodes
          m.resources.contract_boot_nodes s.state alive (ap (λ s. s.swarm_open) wired.state-eq)
          (ap (λ s. s.replies) wired.state-eq) in
      ap
        (λ i. reply_in channel (
          Commands.run_loop m.env s.controller
            (controller_inputs m.env s.controller now (i.commands ++ query (direct channel) ∷ []))
            s.state))
        wired.interface-eq
      ∙ ap (reply_in channel) runs
      ∙ answered

  starts-Startable :
      (running : Running) → main m rules now channel config ≡ some running → Startable
  unfolding main
  starts-Startable running h =
      let (c, valid, h1) = and_then-some _ (with_config m rules now channel) running h in
      let (same, (chains, are_valid)) = validate-AreValid m.parse m.is_chain config c valid in
      let (s, started, h2) =
        and_then-some _ (with_services m rules now channel config) running
          (ap (with_config m rules now channel) (sym same) ∙ h1) in
      let (app, served, h3) = and_then-some _ (with_api m rules now channel config s) running h2 in
      let (ws, watched, h4) = and_then-some _ _ running h3 in
      record {
        chains = chains;
        valid = are_valid;
        services = start_p2p_services-CanStart m.libs m.resources config rules s started;
        listening =
            start_api-bound config channel (answer_of m rules now channel s) m.bound
              router_with_defaults true s.controller_interface app served;
        watching =
            (starts_to_watch m.parse m.env_var m.chains config chains are_valid.0
                config.chain_inclusion_mode refl).0
              (ws, watched);
      }

  Startable-starts : channel.alive ≡ true → Startable → IsSome (main m rules now channel config)
  unfolding main
  Startable-starts alive can =
      let (s, started) = start_p2p_services-starts m.libs m.resources config rules can.services in
      let wired = start_p2p_services-IsWired m.libs m.resources config rules s started in
      let is_open =
        ap (λ i. i.is_open) wired.interface-eq
        ∙ connect_initially-is_open config.boot_nodes m.resources.contract_boot_nodes in
      let (app, served) =
        start_api-starts config channel router_with_defaults true s.controller_interface is_open in
      let (ws, watched) =
        (starts_to_watch m.parse m.env_var m.chains config can.chains can.valid.0
            config.chain_inclusion_mode refl).1
          can.watching in
      let running : Running = record { services = s; app = app.0; watched = ws } in
      (
        running,
        and_then-gives _ (with_config m rules now channel) config running
            (validate-valid m.parse m.is_chain config can.chains can.valid)
            (and_then-gives _ (with_services m rules now channel config) s running started (
              and_then-gives _ (with_api m rules now channel config s) app running
                (ap₂
                    (λ reply bound.
                      start_api config channel reply bound router_with_defaults true
                        s.controller_interface)
                    (answer_of-handle s alive started) can.listening
                  ∙ served)
                (and_then-gives _ _ ws running watched refl))),
      )

  -- The process starts, without a panic, exactly when it can: the configured chains parse and are
  -- known, the secret is hex and its bytes make a key, the database opens, the swarm is built, the
  -- address of the API can be listened on, and, in the mode Check, every chain has a URL. The channel of
  -- the API's question is alive.
  pub main-starts_iff : channel.alive ≡ true → IsSome (main m rules now channel config) ↔ Startable
  unfolding main
  main-starts_iff alive =
      ((λ started. starts-Startable started.0 started.1), Startable-starts alive)
