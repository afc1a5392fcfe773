-- ===== src/Controller/Inserts.antt =====
-- What `validate_and_insert` of src/controller.rs does.
use mintpool.Prelude.{
  ◌≡◌, ◌↔◌, ◌⊎◌, inl, inr, refl, sym, ap, ap₂, ◌∙◌, true, false, Result, ok, err, Bool-cases,
}
use mintpool.Types.Data.{Report}
use mintpool.Types.Premint.{PremintTypes}
use mintpool.Storage.Store.{store}
use mintpool.Storage.Store.Contract.{store-err}
use mintpool.Rules.Evaluation.{Results, is_accept}
use mintpool.Rules.Context.{reader}
use mintpool.Rules.Engine.{evaluate}
use mintpool.Controller.State.{
  InsertError, not_evaluated, not_stored, not_valid, Env, Controller, State, with_db, stored,
  validate_and_insert,
}

module _ (env : Env) (ctl : Controller) (p : PremintTypes) (s : State) where
  -- The three ways that an insertion can go.
  pub record Accepted : Type 0 where
    pub evaluation : Results
    pub evaluated :
        evaluate env.formats env.get_rpc ctl.rules p (reader env.json s.db) ≡ ok evaluation
    pub accepted : is_accept evaluation ≡ true
    pub outcome : validate_and_insert env ctl p s ≡ (
      stored evaluation (store env.formats env.json p s.db).0,
      with_db s (store env.formats env.json p s.db).1,
    )

  pub record Declined : Type 0 where
    pub error : InsertError
    pub why :
        ((e : Report) × (evaluate env.formats env.get_rpc ctl.rules p (reader env.json s.db)
            ≡ err e))
        ⊎ ((rs : Results) × (evaluate env.formats env.get_rpc ctl.rules p (reader env.json s.db)
              ≡ ok rs)
            × (is_accept rs ≡ false))
    pub outcome : validate_and_insert env ctl p s ≡ (err error, s)

  pub validate_and_insert-cases : Accepted ⊎ Declined
  unfolding validate_and_insert
  validate_and_insert-cases =
      by_evaluation (evaluate env.formats env.get_rpc ctl.rules p (reader env.json s.db)) refl
    where
      by_verdict :
          (rs : Results)
          → evaluate env.formats env.get_rpc ctl.rules p (reader env.json s.db) ≡ ok rs
          → Accepted ⊎ Declined
      by_verdict rs h = elim (Bool-cases (is_accept rs)) [
        | inl y ↦ inl (record {
          evaluation = rs;
          evaluated = h;
          accepted = y;
          outcome = simp (h, y, validate_and_insert);
        })
        | inr n ↦ inr (record {
          error = not_valid rs;
          why = inr (rs, h, n);
          outcome = simp (h, n, validate_and_insert);
        })
      ]

      by_evaluation :
          (r : Result Results Report)
          → evaluate env.formats env.get_rpc ctl.rules p (reader env.json s.db) ≡ r
          → Accepted ⊎ Declined
      by_evaluation (ok rs) h = by_verdict rs h
      by_evaluation (err e) h = inr (record {
        error = not_evaluated e;
        why = inl (e, h);
        outcome = simp (h, validate_and_insert);
      })

  stored-cases :
      (rs : Results) (r : Result (Unit {0}) Report)
      → ((stored rs r ≡ ok rs) × (r ≡ ok tt))
        ⊎ ((e : Report) × (stored rs r ≡ err (not_stored e)) × (r ≡ err e))
  stored-cases rs (ok tt) = inl (refl, refl)
  stored-cases rs (err e) = inr (e, refl, refl)

  -- An insertion succeeds exactly when the rules accept the premint, on the database as it is, and
  -- the storage stores it.
  pub validate_and_insert-ok_iff :
      (rs : Results)
      → ((validate_and_insert env ctl p s).0 ≡ ok rs) ↔ (
          (evaluate env.formats env.get_rpc ctl.rules p (reader env.json s.db) ≡ ok rs)
          × (is_accept rs ≡ true)
          × ((store env.formats env.json p s.db).0 ≡ ok tt))
  validate_and_insert-ok_iff rs = (forward validate_and_insert-cases, λ h. backward h.0 h.1 h.2)
    where
      forward :
          Accepted ⊎ Declined
          → (validate_and_insert env ctl p s).0 ≡ ok rs
          → (evaluate env.formats env.get_rpc ctl.rules p (reader env.json s.db) ≡ ok rs)
            × (is_accept rs ≡ true)
            × ((store env.formats env.json p s.db).0 ≡ ok tt)
      forward (inr d) h = cc (ap (λ r. r.0) d.outcome, h)
      forward (inl a) h = elim (stored-cases a.evaluation (store env.formats env.json p s.db).0) [
        | inl y ↦
            let same : a.evaluation ≡ rs = cc (ap (λ r. r.0) a.outcome, y.0, h) in
            (a.evaluated ∙ ap ok same, sym (ap is_accept same) ∙ a.accepted, y.1)
        | inr x ↦ let (e, refused, failed) = x in cc (ap (λ r. r.0) a.outcome, refused, h)
      ]

      backward :
          evaluate env.formats env.get_rpc ctl.rules p (reader env.json s.db) ≡ ok rs
          → is_accept rs ≡ true
          → (store env.formats env.json p s.db).0 ≡ ok tt
          → (validate_and_insert env ctl p s).0 ≡ ok rs
      backward h y k = elim validate_and_insert-cases [
        | inr d ↦ elim d.why [ inl (e, x) ↦ cc (x, h) | inr (rs', x, n) ↦ cc (x, h, y, n) ]
        | inl a ↦
            let same : a.evaluation ≡ rs = cc (a.evaluated, h) in
            ap (λ r. r.0) a.outcome ∙ ap₂ stored same k
      ]

  -- An insertion that fails leaves the state as it was.
  pub validate_and_insert-err :
      (e : InsertError)
      → (validate_and_insert env ctl p s).0 ≡ err e
      → (validate_and_insert env ctl p s).1 ≡ s
  validate_and_insert-err e h = elim validate_and_insert-cases [
    | inr d ↦ ap (λ r. r.1) d.outcome
    | inl a ↦ elim (stored-cases a.evaluation (store env.formats env.json p s.db).0) [
      | inl y ↦ cc (ap (λ r. r.0) a.outcome, y.0, h)
      | inr x ↦
          let (e', refused, failed) = x in
          ap (λ r. r.1) a.outcome ∙ ap (with_db s) (store-err env.formats env.json p s.db e' failed)
    ]
  ]

  pub Accepted-ok :
      (rs : Results)
      → (validate_and_insert env ctl p s).0 ≡ ok rs
      → ((store env.formats env.json p s.db).0 ≡ ok tt)
        × (validate_and_insert env ctl p s
            ≡ (ok rs, with_db s (store env.formats env.json p s.db).1))
  Accepted-ok rs h =
      let (evaluated, y, k) = (validate_and_insert-ok_iff rs).0 h in
      elim validate_and_insert-cases [
        | inr d ↦ cc (ap (λ r. r.0) d.outcome, h)
        | inl a ↦
            let same : a.evaluation ≡ rs = cc (a.evaluated, evaluated) in
            (
              k,
              a.outcome
                  ∙ ap₂ (λ rs r. (stored rs r, with_db s (store env.formats env.json p s.db).1))
                      same k,
            )
      ]
