-- ===== src/Controller/Broadcasts.antt =====
-- What the command to broadcast a premint does (src/controller.rs).
use mintpool.Prelude.{ℕ, ◌≡◌, refl, ap, ap₂, ◌∙◌, true, [], ◌∷◌, ◌++◌, some, ok, err}
use mintpool.Types.Premint.{PremintTypes, metadata, RoundTrips}
use mintpool.Storage.Store.{store}
use mintpool.Storage.Store.Contract.{get_for_id_and_kind-store}
use mintpool.Storage.Query.{get_for_id_and_kind}
use mintpool.Rules.Evaluation.{Results}
use mintpool.Controller.State.{
  Channel, SwarmCommand, InsertError, inserted, Env, Controller, State, with_db, send_swarm,
  send_reply, validate_and_insert,
}
use mintpool.Controller.State.{ControllerCommands}
use mintpool.Controller.Commands.{on_inserted, to_channel, handle_command}
use mintpool.Controller.Inserts.{validate_and_insert-err, Accepted-ok}

module _ (env : Env) (ctl : Controller) where
  on_inserted-ok :
      (p : PremintTypes) (channel : Channel) (rs : Results) (s : State)
      → s.swarm_open ≡ true
      → channel.alive ≡ true
      → on_inserted env ctl p channel (ok rs) s ≡ (
        ok tt,
        record {
          db = s.db;
          sent = s.sent ++ SwarmCommand.broadcast p ∷ [];
          replies = s.replies ++ (channel.name, inserted (ok tt)) ∷ [];
          swarm_open = true;
        },
      )
  unfolding on_inserted to_channel send_swarm send_reply
  on_inserted-ok p channel rs s receives alive = simp (receives, alive, on_inserted)

  on_inserted-err :
      (p : PremintTypes) (channel : Channel) (e : InsertError) (s : State)
      → channel.alive ≡ true
      → on_inserted env ctl p channel (err e) s ≡ (
        ok tt,
        record {
          db = s.db;
          sent = s.sent;
          replies = s.replies ++ (channel.name, inserted (err e)) ∷ [];
          swarm_open = s.swarm_open;
        },
      )
  unfolding on_inserted to_channel send_reply
  on_inserted-err p channel e s alive = simp (alive, on_inserted)

  pub handle_command-broadcast :
      (now : ℕ) (p : PremintTypes) (channel : Channel) (s : State)
      → handle_command env ctl now (ControllerCommands.broadcast p channel) s
        ≡ some (
            on_inserted env ctl p channel
              (validate_and_insert env ctl p s).0
              (validate_and_insert env ctl p s).1)
  unfolding handle_command
  handle_command-broadcast now p channel s = refl

  -- A broadcast whose premint is inserted, while the swarm receives and the caller waits: the
  -- premint is found in the database under its id and kind, the swarm is told to broadcast it, and
  -- the caller is told of the success. What JSON writes, it reads.
  pub handle_command-broadcast_ok :
      RoundTrips env.json
      → (now : ℕ) (p : PremintTypes) (channel : Channel) (s : State) (rs : Results)
      → (validate_and_insert env ctl p s).0 ≡ ok rs
      → s.swarm_open ≡ true
      → channel.alive ≡ true
      → (s' : State) × (handle_command env ctl now (ControllerCommands.broadcast p channel) s
          ≡ some (ok tt, s'))
        × (get_for_id_and_kind env.json
              (metadata env.formats p).id
              (metadata env.formats p).kind
              s'.db
            ≡ ok p)
        × (s'.sent ≡ s.sent ++ SwarmCommand.broadcast p ∷ [])
        × (s'.replies ≡ s.replies ++ (channel.name, inserted (ok tt)) ∷ [])
  handle_command-broadcast_ok round_trips now p channel s rs h receives alive =
      let (k, e) = Accepted-ok env ctl p s rs h in
      let db = (store env.formats env.json p s.db).1 in
      (
        record {
          db = db;
          sent = s.sent ++ SwarmCommand.broadcast p ∷ [];
          replies = s.replies ++ (channel.name, inserted (ok tt)) ∷ [];
          swarm_open = true;
        },
        handle_command-broadcast now p channel s
            ∙ ap (λ r. some (on_inserted env ctl p channel r.0 r.1)) e
            ∙ ap some (on_inserted-ok p channel rs (with_db s db) receives alive),
        get_for_id_and_kind-store env.formats env.json p round_trips s.db k,
        refl,
        refl,
      )

  -- A broadcast whose premint is not inserted leaves the database and the swarm alone; the waiting
  -- caller gets the error.
  pub handle_command-broadcast_err :
      (now : ℕ) (p : PremintTypes) (channel : Channel) (s : State) (e : InsertError)
      → (validate_and_insert env ctl p s).0 ≡ err e
      → channel.alive ≡ true
      → handle_command env ctl now (ControllerCommands.broadcast p channel) s
        ≡ some (
          ok tt,
          record {
            db = s.db;
            sent = s.sent;
            replies = s.replies ++ (channel.name, inserted (err e)) ∷ [];
            swarm_open = s.swarm_open;
          },
        )
  handle_command-broadcast_err now p channel s e h alive =
      handle_command-broadcast now p channel s
      ∙ ap₂ (λ r s. some (on_inserted env ctl p channel r s)) h
          (validate_and_insert-err env ctl p s e h)
      ∙ ap some (on_inserted-err p channel e s alive)
