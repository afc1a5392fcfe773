-- ===== src/Startup/Answers.antt =====
-- src/run.rs and src/controller.rs: what the controller answers to the question for the database
-- that comes after its first commands.
use mintpool.Prelude.{
  ℕ, ◌≡◌, ◌⊎◌, inl, inr, refl, ap, ◌∙◌, String, true, List, [], ◌∷◌, ◌++◌, Option, none, some,
  Result, ok, err, ==_iff, map-append,
}
use mintpool.Config.{BootNodes, chain, custom, no_nodes}
use mintpool.Types.Data.{Report}
use mintpool.Controller.State.{
  Channel, direct, query, db_handle, Env, Controller, State, send_reply,
}
use mintpool.Controller.Interface.{received}
use mintpool.Controller.Commands
use mintpool.Startup.{connect_initially}
use mintpool.Startup.Services.{fresh_interface}
use mintpool.Startup.Dialling.{
  to_controller, to_swarm, controller_inputs, with_sent, run_loop-to_controller,
  connect_initially-to_controller,
}

-- The start leaves the interface as it was, or asks for the boot nodes.
connect_initially-cases :
    (boot_nodes : BootNodes) (contract_nodes : Result (List String) Report)
    → (connect_initially boot_nodes contract_nodes fresh_interface ≡ fresh_interface)
      ⊎ ((nodes : List String) × (connect_initially boot_nodes contract_nodes fresh_interface
            ≡ record { commands = to_controller nodes; is_open = true }))
unfolding connect_initially
connect_initially-cases chain (ok nodes) =
    inr (nodes, connect_initially-to_controller chain (ok nodes) nodes refl)
connect_initially-cases chain (err e) = inl refl
connect_initially-cases (custom nodes) contract_nodes =
    inr (nodes, connect_initially-to_controller (custom nodes) contract_nodes nodes refl)
connect_initially-cases no_nodes contract_nodes = inl refl

pub connect_initially-is_open :
    (boot_nodes : BootNodes) (contract_nodes : Result (List String) Report)
    → (connect_initially boot_nodes contract_nodes fresh_interface).is_open ≡ true
connect_initially-is_open boot_nodes contract_nodes =
    elim (connect_initially-cases boot_nodes contract_nodes) [
      | inl same ↦ ap (λ i. i.is_open) same
      | inr asked ↦ ap (λ i. i.is_open) asked.1
    ]

module _ (env : Env) (ctl : Controller) where
  turn-append :
      (xs ys : List (ℕ × Commands.Input)) (t : Option State) (s' : State)
      → ((s : State)
          → Commands.run_loop env ctl xs s ≡ some s'
          → Commands.run_loop env ctl (xs ++ ys) s ≡ Commands.run_loop env ctl ys s')
      → (elim t [ none ↦ none | some s ↦ Commands.run_loop env ctl xs s ]) ≡ some s'
      → (elim t [ none ↦ none | some s ↦ Commands.run_loop env ctl (xs ++ ys) s ])
        ≡ Commands.run_loop env ctl ys s'
  turn-append xs ys none s' ih h = cc h
  turn-append xs ys (some s) s' ih h = ih s h

  -- A run that goes on after one that did not panic.
  run_loop-append :
      (xs ys : List (ℕ × Commands.Input)) (s s' : State)
      → Commands.run_loop env ctl xs s ≡ some s'
      → Commands.run_loop env ctl (xs ++ ys) s ≡ Commands.run_loop env ctl ys s'
  unfolding Commands.run_loop
  run_loop-append [] ys s s' h = ap (Commands.run_loop env ctl ys) (cc h)
  run_loop-append (x ∷ xs) ys s s' h =
      turn-append xs ys (Commands.turn env ctl x.0 x.1 s) s' (λ s1. run_loop-append xs ys s1 s') h

  module _ (now : ℕ) (channel : Channel) where
    run_loop-direct :
        (s : State)
        → Commands.run_loop env ctl (controller_inputs env ctl now (query (direct channel) ∷ [])) s
          ≡ some ((send_reply channel db_handle s).1)
    unfolding Commands.run_loop Commands.handle_command
    run_loop-direct s = refl

    -- On a channel that is alive and new, the handle is what comes back.
    received-handle :
        (s : State)
        → channel.alive ≡ true
        → s.replies ≡ []
        → received channel.name (send_reply channel db_handle s).1.replies ≡ some db_handle
    unfolding send_reply
    received-handle s alive new = rw (alive, new, (==_iff channel.name channel.name).1 refl) refl

    pub commands_then_direct :
        (boot_nodes : BootNodes) (contract_nodes : Result (List String) Report) (s : State)
        → channel.alive ≡ true
        → s.swarm_open ≡ true
        → s.replies ≡ []
        → (s' : State) × (Commands.run_loop env ctl
              (controller_inputs env ctl now (
                (connect_initially boot_nodes contract_nodes fresh_interface).commands
                ++ query (direct channel) ∷ []))
              s
            ≡ some s')
          × (received channel.name s'.replies ≡ some db_handle)
    commands_then_direct boot_nodes contract_nodes s alive is_open new =
        elim (connect_initially-cases boot_nodes contract_nodes) [
          | inl same ↦ (
            (send_reply channel db_handle s).1,
            ap
                  (λ i.
                    Commands.run_loop env ctl
                      (controller_inputs env ctl now (i.commands ++ query (direct channel) ∷ [])) s)
                  same
                ∙ run_loop-direct s,
            received-handle s alive new,
          )
          | inr asked ↦
              let sent = with_sent s (to_swarm asked.0) in
              (
                (send_reply channel db_handle sent).1,
                ap
                      (λ i.
                        Commands.run_loop env ctl
                          (controller_inputs env ctl now
                            (i.commands ++ query (direct channel) ∷ []))
                          s)
                      asked.1
                    ∙ ap (λ inputs. Commands.run_loop env ctl inputs s)
                        (map-append _ (to_controller asked.0) (query (direct channel) ∷ []))
                    ∙ run_loop-append (controller_inputs env ctl now (to_controller asked.0))
                        (controller_inputs env ctl now (query (direct channel) ∷ [])) s sent
                        (run_loop-to_controller env ctl now asked.0 s is_open)
                    ∙ run_loop-direct sent,
                received-handle sent alive new,
              )
        ]
