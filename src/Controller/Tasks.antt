-- ===== src/Controller/Tasks.antt =====
-- The tasks that `handle_event` of src/controller.rs makes of a sync response: `join_all` runs them
-- side by side, and a semaphore of ten permits bounds those that run.
use mintpool.Prelude.{
  ℕ, ◌≡◌, ◌<◌, ◌+◌, ◌⊎◌, inl, inr, refl, sym, ap, ◌∙◌, subst, false, List, [], ◌∷◌, ◌++◌, map,
  append_assoc, Result, ok, err, if◌then◌else◌, arith,
}
use mintpool.Types.Data.{Report}
use mintpool.Types.Premint.{PremintTypes}
use mintpool.Storage.Store.{store}
use mintpool.Storage.History.{Writes, begin, stores}
use mintpool.Rules.Evaluation.{Results, is_accept}
use mintpool.Rules.Context.{reader}
use mintpool.Rules.Engine.{evaluate}
use mintpool.Controller.State.{Env, Controller, State, with_db, validate_and_insert}
use mintpool.Controller.Inserts.{validate_and_insert-cases}
use mintpool.Controller.Events.{insert_all}

-- A task waits for a permit, or its premint is accepted and about to be stored, or it is done.
pub data Task : Type 0 where
  waiting : PremintTypes → Task
  accepted : PremintTypes → Task
  done : Task

-- The permits in use.
abbrev pub permit : Task → ℕ
permit (waiting p) = 0
permit (accepted p) = 1
permit done = 0

unfoldable pub permits : List Task → ℕ
permits [] = 0
permits (t ∷ ts) = permit t + permits ts

module _ (env : Env) (ctl : Controller) where
  -- What a task is once `evaluate` has answered.
  unfoldable pub after_evaluation : PremintTypes → Result Results Report → Task
  unfolding is_accept
  after_evaluation p (err e) = done
  after_evaluation p (ok rs) = if is_accept rs then accepted p else done

  -- The tasks and the state that can be reached: a task evaluates on the database as it is, if
  -- there is a permit, and stores later, on the database as it is then.
  pub data Interleaving (premints : List PremintTypes) (start : State)
      : List Task → State → Type 0 where
    spawned : Interleaving premints start (map waiting premints) start
    evaluates :
        (before after : List Task) (p : PremintTypes) (s : State)
        → Interleaving premints start (before ++ waiting p ∷ after) s
        → permits (before ++ after) < 10
        → Interleaving premints start
            (before
              ++ after_evaluation p
                  (evaluate env.formats env.get_rpc ctl.rules p (reader env.json s.db))
                ∷ after)
            s
    inserts :
        (before after : List Task) (p : PremintTypes) (s : State)
        → Interleaving premints start (before ++ accepted p ∷ after) s
        → Interleaving premints start
            (before ++ done ∷ after)
            (with_db s (store env.formats env.json p s.db).1)

  -- However the tasks of a sync response interleave, the database changes by calls of `store` only.
  pub Interleaving-Writes :
      {ps : List PremintTypes} {start s : State} {ts : List Task}
      → Interleaving ps start ts s
      → Writes env.formats env.json ctl.store start.db s.db
  Interleaving-Writes spawned = begin
  Interleaving-Writes (evaluates before after p s i free) = Interleaving-Writes i
  Interleaving-Writes (inserts before after p s i) = stores (Interleaving-Writes i) p

  pub permits-append : (xs ys : List Task) → permits (xs ++ ys) ≡ permits xs + permits ys
  unfolding permits
  permits-append [] ys = omega arith
  permits-append (x ∷ xs) ys = omega (arith, permits-append xs ys)

  pub permits-waiting : (ps : List PremintTypes) → permits (map waiting ps) ≡ 0
  unfolding permits
  permits-waiting [] = refl
  permits-waiting (p ∷ ps) = omega (arith, permits-waiting ps)

  declined :
      (p : PremintTypes) (r : Result Results Report)
      → ((e : Report) × (r ≡ err e)) ⊎ ((rs : Results) × (r ≡ ok rs) × (is_accept rs ≡ false))
      → after_evaluation p r ≡ done
  unfolding after_evaluation
  declined p r (inl (e, h)) = ap (after_evaluation p) h
  declined p r (inr (rs, h, n)) =
      ap (after_evaluation p) h ∙ ap (λ b. if b then accepted p else done) n

  -- One task run to its end.
  run_task :
      (ps : List PremintTypes) (start : State) (before after : List Task) (p : PremintTypes)
      (s : State)
      → Interleaving ps start (before ++ waiting p ∷ after) s
      → permits (before ++ after) < 10
      → Interleaving ps start (before ++ done ∷ after) (validate_and_insert env ctl p s).1
  unfolding after_evaluation
  run_task ps start before after p s i free =
      let asked = evaluates before after p s i free in
      let evaluation = evaluate env.formats env.get_rpc ctl.rules p (reader env.json s.db) in
      elim (validate_and_insert-cases env ctl p s) [
        | inl a ↦
            let ready : after_evaluation p evaluation ≡ accepted p =
              ap (after_evaluation p) a.evaluated
              ∙ ap (λ b. if b then accepted p else done) a.accepted in
            subst (λ r. Interleaving ps start (before ++ done ∷ after) r.1) (sym a.outcome)
              (inserts before after p s
                (subst (λ t. Interleaving ps start (before ++ t ∷ after) s) ready asked))
        | inr d ↦
            subst (λ r. Interleaving ps start (before ++ done ∷ after) r.1) (sym d.outcome)
              (subst (λ t. Interleaving ps start (before ++ t ∷ after) s)
                (declined p evaluation d.why) asked)
      ]

  -- The tasks run one after another, behind tasks that are done.
  run_tasks :
      (ps : List PremintTypes) (start : State) (before : List Task) (rest : List PremintTypes)
      (s : State)
      → permits before ≡ 0
      → Interleaving ps start (before ++ map waiting rest) s
      → Interleaving ps start (before ++ map (λ _. done) rest) (insert_all env ctl rest s)
  unfolding insert_all permits
  run_tasks ps start before [] s free i = i
  run_tasks ps start before (p ∷ rest) s free i =
      let s' = (validate_and_insert env ctl p s).1 in
      let few : permits (before ++ map waiting rest) < 10 =
        omega (arith, permits-append before (map waiting rest), permits-waiting rest, free) in
      let one = run_task ps start before (map waiting rest) p s i few in
      let none_used : permits (before ++ done ∷ []) ≡ 0 =
        omega (arith, permits-append before (done ∷ []), free) in
      subst (λ ts. Interleaving ps start ts (insert_all env ctl rest s'))
        (append_assoc before (done ∷ []) (map (λ _. done) rest))
        (run_tasks ps start (before ++ done ∷ []) rest s' none_used (
          subst (λ ts. Interleaving ps start ts s')
            (sym (append_assoc before (done ∷ []) (map waiting rest))) one))

  -- Inserting the premints of a sync response one after another is one of the ways in which its
  -- tasks can interleave, and ends with all of them done.
  pub insert_all-Interleaving :
      (ps : List PremintTypes) (s : State)
      → Interleaving ps s (map (λ _. done) ps) (insert_all env ctl ps s)
  unfolding permits
  insert_all-Interleaving ps s = run_tasks ps s [] ps s refl spawned
