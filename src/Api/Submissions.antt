-- ===== src/Api/Submissions.antt =====
-- What a submission over HTTP (src/api/routes.rs) answers, with the controller (src/controller.rs)
-- behind it.
use mintpool.Prelude.{
  ℕ, ◌≡◌, refl, sym, ap, ap₂, ◌∙◌, Bool, true, false, List, [], ◌∷◌, ◌++◌, Option, none, some,
  Result, ok, err, ◌==◌, ==_iff, Bool-cases, inl, inr,
}
use mintpool.Types.Premint.{PremintTypes, RoundTrips, metadata}
use mintpool.Storage.Query.{get_for_id_and_kind}
use mintpool.Storage.Store.{store}
use mintpool.Storage.Store.Contract.{get_for_id_and_kind-store}
use mintpool.Rules.Evaluation.{Results}
use mintpool.Controller.State.{
  Channel, InsertError, not_evaluated, not_stored, not_valid, not_broadcast, Reply, inserted,
  premints, db_handle, ControllerCommands, Env, Controller, State, send_swarm, send_reply,
  validate_and_insert,
}
use mintpool.Controller.Inserts.{Accepted-ok, validate_and_insert-err}
use mintpool.Controller.Commands.{on_inserted, to_channel, handle_command}
use mintpool.Controller.Broadcasts.{handle_command-broadcast}
use mintpool.Controller.Interface.{Interface, received, send_command}
use mintpool.Api.Routes
use mintpool.Api.Routes.{
  StatusCode, success, bad_request, ApiResponse, rules_error, error, submitted, ApiTexts,
  submit_premint, get_by_id_and_kind, not_found, or_status,
}

received-append :
    (name : ℕ) (r : Reply) (rs : List (ℕ × Reply))
    → received name rs ≡ none
    → received name (rs ++ (name, r) ∷ []) ≡ some r
received-append name r [] h = rw ((==_iff name name).1 refl)
received-append name r ((n, q) ∷ rs) h = elim (Bool-cases (n == name)) [
  | inl same ↦ cc (rw same at h)
  | inr differ ↦ rw differ (received-append name r rs (rw differ at h))
]

-- What the caller of a broadcast is told, by what became of the premint and whether the swarm
-- receives.
abbrev pub outcome : Result Results InsertError → Bool → Result (Unit {0}) InsertError
outcome (ok rs) true = ok tt
outcome (ok rs) false = err not_broadcast
outcome (err e) receives = err e

-- The value of a channel for the results of insertions.
abbrev pub insertion : Option Reply → Option (Result (Unit {0}) InsertError)
insertion none = none
insertion (some (inserted r)) = some r
insertion (some (premints r)) = none
insertion (some db_handle) = none

module _ (env : Env) (ctl : Controller) where
  on_inserted-reply :
      (p : PremintTypes) (channel : Channel) (r : Result Results InsertError) (s : State)
      → channel.alive ≡ true
      → (s' : State) × (on_inserted env ctl p channel r s ≡ (ok tt, s'))
        × (s'.db ≡ s.db)
        × (s'.replies ≡ s.replies ++ (channel.name, inserted (outcome r s.swarm_open)) ∷ [])
  unfolding on_inserted to_channel send_swarm send_reply
  on_inserted-reply p channel (err e) s alive =
      ((on_inserted env ctl p channel (err e) s).1, simp (alive), simp (alive), simp (alive))
  on_inserted-reply p channel (ok rs) s alive = elim (Bool-cases s.swarm_open) [
    | inl y ↦ (
      (on_inserted env ctl p channel (ok rs) s).1,
      simp (y, alive),
      simp (y, alive),
      simp (y, alive),
    )
    | inr d ↦ (
      (on_inserted env ctl p channel (ok rs) s).1,
      simp (d, alive),
      simp (d, alive),
      simp (d, alive),
    )
  ]

  -- An insertion keeps the replies and the swarm.
  validate_and_insert-keeps :
      (p : PremintTypes) (s : State)
      → ((validate_and_insert env ctl p s).1.replies ≡ s.replies)
        × ((validate_and_insert env ctl p s).1.swarm_open ≡ s.swarm_open)
  validate_and_insert-keeps p s = by_result (validate_and_insert env ctl p s).0 refl
    where
      by_result :
          (r : Result Results InsertError)
          → (validate_and_insert env ctl p s).0 ≡ r
          → ((validate_and_insert env ctl p s).1.replies ≡ s.replies)
            × ((validate_and_insert env ctl p s).1.swarm_open ≡ s.swarm_open)
      by_result (ok rs) h =
          let kept = (Accepted-ok env ctl p s rs h).1 in
          (ap (λ r. r.1.replies) kept, ap (λ r. r.1.swarm_open) kept)
      by_result (err e) h =
          let same = validate_and_insert-err env ctl p s e h in
          (ap (λ (t : State). t.replies) same, ap (λ (t : State). t.swarm_open) same)

  -- What the API answers to a submission, by what the rules and the storage make of the premint and
  -- whether the swarm receives.
  abbrev pub expected : ApiTexts → Result Results InsertError → Bool → StatusCode × ApiResponse
  expected t (ok rs) true = (success, submitted "Premint submitted")
  expected t (ok rs) false = (bad_request, error (t.insert_error_to_string not_broadcast))
  expected t (err (not_valid rs)) receives = (bad_request, rules_error rs)
  expected t (err (not_evaluated e)) receives =
      (bad_request, error (t.insert_error_to_string (not_evaluated e)))
  expected t (err (not_stored e)) receives =
      (bad_request, error (t.insert_error_to_string (not_stored e)))
  expected t (err not_broadcast) receives =
      (bad_request, error (t.insert_error_to_string not_broadcast))

  on_inserted-expected :
      (t : ApiTexts) (r : Result Results InsertError) (receives : Bool)
      → Routes.on_inserted t (some (outcome r receives)) ≡ expected t r receives
  unfolding Routes.on_inserted
  on_inserted-expected t (ok rs) true = refl
  on_inserted-expected t (ok rs) false = refl
  on_inserted-expected t (err (not_valid rs)) receives = refl
  on_inserted-expected t (err (not_evaluated e)) receives = refl
  on_inserted-expected t (err (not_stored e)) receives = refl
  on_inserted-expected t (err not_broadcast) receives = refl

  expected-success :
      (t : ApiTexts) (r : Result Results InsertError) (receives : Bool)
      → (expected t r receives).0 ≡ success
      → (rs : Results) × (r ≡ ok rs)
  expected-success t (ok rs) receives h = (rs, refl)
  expected-success t (err (not_valid rs)) receives h = cc h
  expected-success t (err (not_evaluated e)) receives h = cc h
  expected-success t (err (not_stored e)) receives h = cc h
  expected-success t (err not_broadcast) receives h = cc h

  -- A submission on a new channel, while the controller receives: the controller takes the command
  -- without a panic, its database is what the insertion makes of it, and the API answers 200 exactly
  -- when the premint is inserted and the swarm receives, 400 with the results when the rules reject
  -- it, and 400 with the error's text otherwise, also when the premint is inserted and the swarm is
  -- gone.
  pub submit_premint-expected :
      (t : ApiTexts) (p : PremintTypes) (channel : Channel) (now : ℕ) (s : State) (i : Interface)
      → channel.alive ≡ true
      → received channel.name s.replies ≡ none
      → i.is_open ≡ true
      → (s' : State) × (handle_command env ctl now (ControllerCommands.broadcast p channel) s
          ≡ some (ok tt, s'))
        × (s'.db ≡ (validate_and_insert env ctl p s).1.db)
        × ((submit_premint t p channel (insertion (received channel.name s'.replies)) i).0
            ≡ expected t (validate_and_insert env ctl p s).0 s.swarm_open)
  unfolding submit_premint send_command
  submit_premint-expected t p channel now s i alive fresh is_open =
      let result = validate_and_insert env ctl p s in
      let (replies, receives) = validate_and_insert-keeps p s in
      let (s', ends, same, told) = on_inserted-reply p channel result.0 result.1 alive in
      let heard : received channel.name s'.replies
          ≡ some (inserted (outcome result.0 s.swarm_open)) =
        ap (received channel.name) told
        ∙ ap₂
            (λ rs o.
              received channel.name (rs ++ (channel.name, inserted (outcome result.0 o)) ∷ []))
            replies receives
        ∙ received-append channel.name (inserted (outcome result.0 s.swarm_open)) s.replies fresh in
      (
        s',
        handle_command-broadcast env ctl now p channel s ∙ ap some ends,
        same,
        simp (is_open, heard) (on_inserted-expected t result.0 s.swarm_open),
      )

  -- A premint that was submitted with the answer 200 is then served under its kind and id. What JSON
  -- writes, it reads; the channel is new, and the controller receives.
  pub get_by_id_and_kind-submit_premint :
      RoundTrips env.json
      → (t : ApiTexts) (p : PremintTypes) (channel : Channel) (now : ℕ) (s s' : State)
        (i : Interface)
      → channel.alive ≡ true
      → received channel.name s.replies ≡ none
      → i.is_open ≡ true
      → handle_command env ctl now (ControllerCommands.broadcast p channel) s ≡ some (ok tt, s')
      → (submit_premint t p channel (insertion (received channel.name s'.replies)) i).0.0 ≡ success
      → get_by_id_and_kind env.json env.formats
          (metadata env.formats p).kind.name
          (metadata env.formats p).id
          s'.db
        ≡ ok p
  unfolding get_by_id_and_kind get_for_id_and_kind
  get_by_id_and_kind-submit_premint trips t p channel now s s' i alive fresh is_open ends
        ok_status =
      let (s'', ends', same, answer) =
        submit_premint-expected t p channel now s i alive fresh is_open in
      let equal : s'' ≡ s' = cc (ends, ends') in
      let (rs, h) = expected-success t (validate_and_insert env ctl p s).0 s.swarm_open (
        sym (ap (λ r. r.0) answer)
        ∙ ap
            (λ (u : State).
              (submit_premint t p channel (insertion (received channel.name u.replies)) i).0.0)
            equal
        ∙ ok_status) in
      let (stores, kept) = Accepted-ok env ctl p s rs h in
      let db : s'.db ≡ (store env.formats env.json p s.db).1 =
        ap (λ (u : State). u.db) (sym equal) ∙ same ∙ ap (λ r. r.1.db) kept in
      rw db (
        ap (λ r. or_status (not_found, "Failed to get premint") r)
          (get_for_id_and_kind-store env.formats env.json p trips s.db stores))
