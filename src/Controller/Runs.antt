-- ===== src/Controller/Runs.antt =====
-- The runs of the controller (src/controller.rs): what they do to the database.
use mintpool.Prelude.{
  ℕ, ◌≡◌, inl, inr, refl, sym, subst, List, [], ◌∷◌, Option, none, some, Result, ok, err, ltb,
  Bool-cases,
}
use mintpool.Config.{ChainInclusionMode, check, verify, trust}
use mintpool.Types.Data.{Report, InclusionClaim, PeerInclusionClaim}
use mintpool.Types.Premint.{PremintTypes}
use mintpool.Storage.Table.{Db}
use mintpool.Storage.Table.Keys.{HasUniqueKeys}
use mintpool.Storage.History.{Writes, begin, stores, marks, Writes-HasUniqueKeys}
use mintpool.Controller.State.{
  Channel, SwarmCommand, Reply, P2pEvent, network_state, premint_received, mint_seen_onchain,
  sync_request, sync_response, list_all, direct, ControllerCommands, InsertError, Env, Controller,
  State, send_swarm, send_reply, state_after, lookback, validate_and_insert, request_sync,
}
use mintpool.Rules.Evaluation.{Results}
use mintpool.Controller.Inserts.{validate_and_insert-cases}
use mintpool.Controller.Events.{mark, insert_all, handle_event_onchain_claim, handle_event}
use mintpool.Controller.Commands.{
  to_swarm, to_channel, on_inserted, synced, announce_mint, handle_command, Input, command, event,
  tick, turn, run_loop,
}
use mintpool.Controller.Claims.{Handled, Entitled, handle_event_onchain_claim-Handled}

send_swarm-db : (c : SwarmCommand) (s : State) → (send_swarm c s).1.db ≡ s.db
unfolding send_swarm
send_swarm-db c s = elim (Bool-cases s.swarm_open) [ inl y ↦ simp y | inr n ↦ simp n ]

send_reply-db : (c : Channel) (r : Reply) (s : State) → (send_reply c r s).1.db ≡ s.db
unfolding send_reply
send_reply-db c r s = elim (Bool-cases c.alive) [ inl y ↦ simp y | inr n ↦ simp n ]

to_swarm-db : (c : SwarmCommand) (s : State) → (to_swarm c s).1.db ≡ s.db
unfolding to_swarm
to_swarm-db c s = send_swarm-db c s

to_channel-db : (c : Channel) (r : Reply) (s : State) → (to_channel c r s).1.db ≡ s.db
unfolding to_channel
to_channel-db c r s = send_reply-db c r s

module _ (env : Env) (ctl : Controller) (start : Db) where
  -- The database was made from the first one by writes.
  abbrev pub Written : State → Type 0
  Written s = Writes env.formats env.json ctl.store start s.db

  abbrev pub WrittenIf : Option State → Type 0
  WrittenIf none = Unit
  WrittenIf (some s) = Written s

  same_db :
      (db db' : Db)
      → db' ≡ db
      → Writes env.formats env.json ctl.store start db
      → Writes env.formats env.json ctl.store start db'
  same_db db db' e w = subst (Writes env.formats env.json ctl.store start) (sym e) w

  validate_and_insert-Written :
      (p : PremintTypes) (s : State) → Written s → Written (validate_and_insert env ctl p s).1
  validate_and_insert-Written p s w = elim (validate_and_insert-cases env ctl p s) [
    | inl a ↦ subst (λ r. Written r.1) (sym a.outcome) (stores w p)
    | inr d ↦ subst (λ r. Written r.1) (sym d.outcome) w
  ]

  mark-Written : (c : InclusionClaim) (s : State) → Written s → Written (mark ctl.store c s).1
  unfolding mark
  mark-Written c s w = marks w c

  insert_all-Written :
      (ps : List PremintTypes) (s : State) → Written s → Written (insert_all env ctl ps s)
  unfolding insert_all
  insert_all-Written [] s w = w
  insert_all-Written (p ∷ ps) s w =
      insert_all-Written ps (validate_and_insert env ctl p s).1 (validate_and_insert-Written p s w)

  claim-Written :
      (E : Type 0) (c : PeerInclusionClaim) (s : State)
      (o : Option (Result (Unit {0}) Report × State))
      → Handled env ctl c s E o
      → Written s
      → WrittenIf (state_after o)
  claim-Written E c s none h w = tt
  claim-Written E c s (some r) (inl h) w =
      subst (λ r. Written r.1) (sym h.1) (mark-Written c.claim s w)
  claim-Written E c s (some r) (inr same) w = subst Written (sym same) w

  request_sync-Written : (now : ℕ) (s : State) → Written s → WrittenIf (request_sync env ctl now s)
  unfolding request_sync
  request_sync-Written now s w = elim (Bool-cases (ltb now (lookback env ctl))) [
    | inl early ↦ rw early tt
    | inr late ↦ elim (Bool-cases s.swarm_open) [ inl y ↦ rw (late, y) w | inr n ↦ rw (late, n) tt ]
  ]

  handle_event-Written :
      (e : P2pEvent) (s : State) → Written s → WrittenIf (handle_event env ctl e s)
  unfolding handle_event
  handle_event-Written (network_state n) s w = w
  handle_event-Written (premint_received p) s w = validate_and_insert-Written p s w
  handle_event-Written (mint_seen_onchain c) s w =
      claim-Written (Entitled env ctl c s ctl.config.chain_inclusion_mode) c s
        (handle_event_onchain_claim env ctl c s) (handle_event_onchain_claim-Handled env ctl c s) w
  handle_event-Written (sync_request q channel) s w = same_db s.db _ (send_reply-db channel _ s) w
  handle_event-Written (sync_response ps) s w = insert_all-Written ps s w

  on_inserted-Written :
      (p : PremintTypes) (channel : Channel) (r : Result Results InsertError) (s : State)
      → Written s
      → Written (on_inserted env ctl p channel r s).1
  unfolding on_inserted
  on_inserted-Written p channel (err e) s w = same_db s.db _ (to_channel-db channel _ s) w
  on_inserted-Written p channel (ok rs) s w =
      let sent = send_swarm (SwarmCommand.broadcast p) s in
      let told = same_db s.db sent.1.db (send_swarm-db (SwarmCommand.broadcast p) s) w in
      elim (Bool-cases sent.0) [
        | inl y ↦ rw y (same_db sent.1.db _ (to_channel-db channel _ sent.1) told)
        | inr n ↦ rw n (same_db sent.1.db _ (to_channel-db channel _ sent.1) told)
      ]

  announce_mint-db :
      (mode : ChainInclusionMode) (c : InclusionClaim) (s : State)
      → (announce_mint env ctl mode c s).db ≡ s.db
  unfolding announce_mint
  announce_mint-db check c s = send_swarm-db (SwarmCommand.send_onchain_mint_found c) s
  announce_mint-db verify c s = refl
  announce_mint-db trust c s = refl

  synced-Written : (o : Option State) → WrittenIf o → WrittenIf (state_after (synced env ctl o))
  synced-Written none w = tt
  synced-Written (some s) w = w

  handle_command-Written :
      (now : ℕ) (c : ControllerCommands) (s : State)
      → Written s
      → WrittenIf (state_after (handle_command env ctl now c s))
  unfolding handle_command
  handle_command-Written now (ControllerCommands.connect_to_peer address) s w =
      same_db s.db _ (to_swarm-db _ s) w
  handle_command-Written now (ControllerCommands.return_network_state channel) s w =
      same_db s.db _ (to_swarm-db _ s) w
  handle_command-Written now ControllerCommands.announce_self s w =
      same_db s.db _ (to_swarm-db _ s) w
  handle_command-Written now (ControllerCommands.broadcast message channel) s w =
      let result = validate_and_insert env ctl message s in
      on_inserted-Written message channel result.0 result.1
        (validate_and_insert-Written message s w)
  handle_command-Written now (ControllerCommands.return_node_info channel) s w =
      same_db s.db _ (to_swarm-db _ s) w
  handle_command-Written now (ControllerCommands.query (list_all channel)) s w =
      same_db s.db _ (send_reply-db channel _ s) w
  handle_command-Written now (ControllerCommands.query (direct channel)) s w =
      same_db s.db _ (send_reply-db channel _ s) w
  handle_command-Written now (ControllerCommands.resolve_onchain_mint claim) s w =
      let marked = (mark ctl.store claim s).1 in
      same_db marked.db _ (announce_mint-db ctl.config.chain_inclusion_mode claim marked)
        (mark-Written claim s w)
  handle_command-Written now ControllerCommands.sync s w =
      synced-Written (request_sync env ctl now s) (request_sync-Written now s w)

  turn-Written : (now : ℕ) (i : Input) (s : State) → Written s → WrittenIf (turn env ctl now i s)
  unfolding turn
  turn-Written now (command c) s w = handle_command-Written now c s w
  turn-Written now (event e) s w = handle_event-Written e s w
  turn-Written now tick s w = request_sync-Written now s w

  run_loop-WrittenIf :
      (inputs : List (ℕ × Input)) (s : State) → Written s → WrittenIf (run_loop env ctl inputs s)
  unfolding run_loop
  run_loop-WrittenIf [] s w = w
  run_loop-WrittenIf (i ∷ inputs) s w =
      continue (turn env ctl i.0 i.1 s) (turn-Written i.0 i.1 s w) (run_loop-WrittenIf inputs)
    where
      continue :
          (o : Option State)
          → WrittenIf o
          → ((s' : State) → Written s' → WrittenIf (run_loop env ctl inputs s'))
          → WrittenIf (elim o [ none ↦ none | some s' ↦ run_loop env ctl inputs s' ])
      continue none v rest = tt
      continue (some s') v rest = rest s' v

module _ (env : Env) (ctl : Controller) (inputs : List (ℕ × Input)) (s s' : State) where
  pub run_loop-Writes :
      run_loop env ctl inputs s ≡ some s' → Writes env.formats env.json ctl.store s.db s'.db
  run_loop-Writes h =
      subst (WrittenIf env ctl s.db) h (run_loop-WrittenIf env ctl s.db inputs s begin)

  -- A run that does not panic, from a table with at most one row for each kind and id, ends in such a
  -- table.
  pub run_loop-HasUniqueKeys :
      run_loop env ctl inputs s ≡ some s' → HasUniqueKeys s.db.rows → HasUniqueKeys s'.db.rows
  run_loop-HasUniqueKeys h u = Writes-HasUniqueKeys env.formats env.json (run_loop-Writes h) u
