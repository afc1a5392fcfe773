-- ===== src/Controller/Races.antt =====
-- The tasks of a sync response in src/controller.rs: their permits, and what their order decides.
use mintpool.Prelude.{
  ◌≡◌, ◌≤◌, ◌<◌, ◌+◌, inl, inr, ap, ◌∙◌, subst, true, false, List, [], ◌∷◌, ◌++◌, Result, ok, err,
  if◌then◌else◌, Bool-cases, arith,
}
use mintpool.Types.Data.{Report}
use mintpool.Types.Premint.{PremintTypes, RoundTrips, metadata}
use mintpool.Storage.Store.{store}
use mintpool.Storage.Store.Contract.{get_for_id_and_kind-store}
use mintpool.Storage.Query.{get_for_id_and_kind}
use mintpool.Rules.Evaluation.{Results, is_accept}
use mintpool.Rules.Context.{reader}
use mintpool.Rules.Engine.{evaluate}
use mintpool.Controller.State.{Env, Controller, State, with_db, validate_and_insert}
use mintpool.Controller.Events.{insert_all}
use mintpool.Controller.Inserts.{validate_and_insert-cases}
use mintpool.Controller.Tasks.{
  Task, waiting, accepted, done, permit, permits, permits-append, permits-waiting, after_evaluation,
  Interleaving, spawned, evaluates, inserts, insert_all-Interleaving,
}

module _ (env : Env) (ctl : Controller) where
  permit-after_evaluation :
      (p : PremintTypes) (r : Result Results Report) → permit (after_evaluation env ctl p r) ≤ 1
  unfolding after_evaluation
  permit-after_evaluation p (err e) = omega arith
  permit-after_evaluation p (ok rs) = elim (Bool-cases (is_accept rs)) [
    | inl y ↦ rw y (omega arith)
    | inr n ↦ rw n (omega arith)
  ]

  permits-middle :
      (before after : List Task) (t : Task)
      → permits (before ++ t ∷ after) ≡ permit t + permits (before ++ after)
  unfolding permits
  permits-middle before after t =
      omega (arith, permits-append env ctl before (t ∷ after), permits-append env ctl before after)

  -- However the tasks of a sync response interleave, at most ten hold a permit at a time.
  pub Interleaving-permits :
      (ps : List PremintTypes) (start s : State) (ts : List Task)
      → Interleaving env ctl ps start ts s
      → permits ts ≤ 10
  Interleaving-permits ps start s ts spawned = omega (arith, permits-waiting env ctl ps)
  Interleaving-permits ps start s ts (evaluates before after p s' i free) =
      let r = evaluate env.formats env.get_rpc ctl.rules p (reader env.json s'.db) in
      omega (
        arith,
        permits-middle before after (after_evaluation env ctl p r),
        permit-after_evaluation p r,
        free,
      )
  Interleaving-permits ps start s ts (inserts before after p s' i) = omega (
    arith,
    permits-middle before after done,
    permits-middle before after (accepted p),
    Interleaving-permits ps start s' (before ++ accepted p ∷ after) i,
  )

  -- A premint that the rules accept on the database of a state.
  abbrev pub IsAcceptedIn : PremintTypes → State → Type 0
  IsAcceptedIn p s =
      (rs : Results) × (evaluate env.formats env.get_rpc ctl.rules p (reader env.json s.db) ≡ ok rs)
      × (is_accept rs ≡ true)

  abbrev pub IsRejectedIn : PremintTypes → State → Type 0
  IsRejectedIn p s =
      (rs : Results) × (evaluate env.formats env.get_rpc ctl.rules p (reader env.json s.db) ≡ ok rs)
      × (is_accept rs ≡ false)

  abbrev pub stored_in : PremintTypes → State → State
  stored_in p s = with_db s (store env.formats env.json p s.db).1

  -- A task that evaluates a premint that is accepted.
  evaluates_accepted :
      (ps : List PremintTypes) (start s : State) (before after : List Task) (p : PremintTypes)
      → Interleaving env ctl ps start (before ++ waiting p ∷ after) s
      → permits (before ++ after) < 10
      → IsAcceptedIn p s
      → Interleaving env ctl ps start (before ++ accepted p ∷ after) s
  unfolding after_evaluation
  evaluates_accepted ps start s before after p i free h =
      subst (λ t. Interleaving env ctl ps start (before ++ t ∷ after) s)
        (ap (after_evaluation env ctl p) h.1 ∙ ap (λ b. if b then accepted p else done) h.2)
        (evaluates before after p s i free)

  insert-accepted :
      (p : PremintTypes) (s : State)
      → IsAcceptedIn p s
      → (validate_and_insert env ctl p s).1 ≡ stored_in p s
  insert-accepted p s h = elim (validate_and_insert-cases env ctl p s) [
    | inl a ↦ ap (λ r. r.1) a.outcome
    | inr d ↦ elim d.why [ inl (e, x) ↦ cc (x, h.1) | inr (rs, x, n) ↦ cc (x, h.1, h.2, n) ]
  ]

  insert-rejected :
      (p : PremintTypes) (s : State) → IsRejectedIn p s → (validate_and_insert env ctl p s).1 ≡ s
  insert-rejected p s h = elim (validate_and_insert-cases env ctl p s) [
    | inl a ↦ cc (a.evaluated, a.accepted, h.1, h.2)
    | inr d ↦ ap (λ r. r.1) d.outcome
  ]

  -- Two premints of one response, the second of which the rules accept before the first is stored
  -- and reject after: one after another, only the first is stored, and that is one of the
  -- interleavings; in another both are, where the storage takes the second.
  pub Interleaving-both :
      RoundTrips env.json
      → (p q : PremintTypes) (start : State) → IsAcceptedIn p start
      → IsAcceptedIn q start
      → IsRejectedIn q (stored_in p start)
      → (store env.formats env.json q (stored_in p start).db).0 ≡ ok tt
      → (insert_all env ctl (p ∷ q ∷ []) start ≡ stored_in p start)
        × Interleaving env ctl (p ∷ q ∷ []) start (done ∷ done ∷ []) (stored_in p start)
        × Interleaving env ctl
            (p ∷ q ∷ [])
            start
            (done ∷ done ∷ [])
            (stored_in q (stored_in p start))
        × (get_for_id_and_kind env.json
              (metadata env.formats q).id
              (metadata env.formats q).kind
              (stored_in q (stored_in p start)).db
            ≡ ok q)
  unfolding insert_all permits
  Interleaving-both trips p q start hp hq refused takes =
      let in_order : insert_all env ctl (p ∷ q ∷ []) start ≡ stored_in p start =
        ap (λ s. (validate_and_insert env ctl q s).1) (insert-accepted p start hp)
        ∙ insert-rejected q (stored_in p start) refused in
      let ps = p ∷ q ∷ [] in
      let first_ready =
        evaluates_accepted ps start start [] (waiting q ∷ []) p spawned (omega arith) hp in
      let both_ready =
        evaluates_accepted ps start start (accepted p ∷ []) [] q first_ready (omega arith) hq in
      let first_done = inserts [] (accepted q ∷ []) p start both_ready in
      (
        in_order,
        subst (Interleaving env ctl ps start (done ∷ done ∷ [])) in_order
            (insert_all-Interleaving env ctl ps start),
        inserts (done ∷ []) [] q (stored_in p start) first_done,
        get_for_id_and_kind-store env.formats env.json q trips (stored_in p start).db takes,
      )
