-- ===== src/Storage/Store/Laws.antt =====
-- What `store` and `mark_seen_on_chain` (src/storage.rs) do to the table.
use mintpool.Prelude.{
  ◌≡◌, ◌⊎◌, inl, inr, refl, ap, ap₂, ◌∙◌, String, true, false, Option, none, some, Result, ok, err,
  ◌==◌, str_append, if◌then◌else◌, Bool-cases,
}
use mintpool.Prelude.Int.{ℤ, as_i64, ltb_ℤ}
use mintpool.Types.Data.{Report, message, Formats}
use mintpool.Types.Premint.{PremintTypes, metadata, Json}
use mintpool.Storage.Table.{Row, Db, with_rows, lookup, upsert}
use mintpool.Storage.Table.Keys.{affected, upsert-affected, upsert-unaffected}
use mintpool.Storage.Store.{row_of, not_higher, store}

-- The row, if there is one, has a lower version.
abbrev pub HasBelow : ℤ → Option Row → Type 0
HasBelow v none = Unit
HasBelow v (some r) = ltb_ℤ r.version v ≡ true

affected-cases :
    (x : Row) (o : Option Row)
    → ((affected x o ≡ 1) × HasBelow x.version o)
      ⊎ ((affected x o ≡ 0) × (r : Row) × (o ≡ some r) × (ltb_ℤ r.version x.version ≡ false))
affected-cases x none = inl (refl, tt)
affected-cases x (some r) = elim (Bool-cases (ltb_ℤ r.version x.version)) [
  | inl up ↦ inl (rw up, up)
  | inr low ↦ inr (rw low, r, refl, low)
]

module _ (f : Formats) (p : PremintTypes) where
  -- The stored row under the premint's key, if there is one.
  abbrev pub existing : Db → Option Row
  existing db = lookup (metadata f p).kind.name (metadata f p).id db.rows

module _ (f : Formats) (j : Json) (p : PremintTypes) where
  store-fault :
      (db : Db) (json e : String)
      → j.to_json p ≡ ok json
      → db.fault ≡ some e
      → store f j p db ≡ (err (message (str_append "Failed to store premint: " e)), db)
  unfolding store
  store-fault db json e h k = simp (h, k, store)

  store-json_err : (db : Db) (e : Report) → j.to_json p ≡ err e → store f j p db ≡ (err e, db)
  unfolding store
  store-json_err db e h = rw (h, store)

  store-run :
      (db : Db) (json : String)
      → j.to_json p ≡ ok json
      → db.fault ≡ none
      → store f j p db ≡ (
        (if (upsert (row_of f p json db.now) db.rows).1 == 0 then err not_higher else ok tt),
        with_rows db (upsert (row_of f p json db.now) db.rows).0,
      )
  unfolding store
  store-run db json h k = simp (h, k, store)

  store-low :
      (db : Db) (json : String)
      → j.to_json p ≡ ok json
      → db.fault ≡ none
      → (upsert (row_of f p json db.now) db.rows).1 ≡ 0
      → store f j p db ≡ (err not_higher, db)
  store-low db json h k n =
      store-run db json h k
      ∙ ap₂ (λ n rows. ((if n == 0 then err not_higher else ok tt), with_rows db rows)) n
          (upsert-unaffected (row_of f p json db.now) db.rows n)

  store-high :
      (db : Db) (json : String)
      → j.to_json p ≡ ok json
      → db.fault ≡ none
      → (upsert (row_of f p json db.now) db.rows).1 ≡ 1
      → store f j p db ≡ (ok tt, with_rows db (upsert (row_of f p json db.now) db.rows).0)
  store-high db json h k n =
      store-run db json h k
      ∙ ap
          (λ n. (
            (if n == 0 then err not_higher else ok tt),
            with_rows db (upsert (row_of f p json db.now) db.rows).0,
          ))
          n

  -- What a call of `store` is: stored, or refused with the database left as it was.
  pub record Stores (db : Db) : Type 0 where
    pub json : String
    pub to_json_ok : j.to_json p ≡ ok json
    pub no_fault : db.fault ≡ none
    pub below : HasBelow (as_i64 (metadata f p).version) (existing f p db)
    pub stored : store f j p db ≡ (ok tt, with_rows db (upsert (row_of f p json db.now) db.rows).0)

  pub record Refuses (db : Db) : Type 0 where
    pub error : Report
    pub refused : store f j p db ≡ (err error, db)
    pub why :
        ((e : Report) × (j.to_json p ≡ err e))
        ⊎ ((e : String) × (db.fault ≡ some e))
        ⊎ ((r : Row) × (existing f p db ≡ some r)
            × (ltb_ℤ r.version (as_i64 (metadata f p).version) ≡ false))

  pub store-cases : (db : Db) → Stores db ⊎ Refuses db
  unfolding row_of
  store-cases db = by_json (j.to_json p) refl
    where
      by_version :
          (json : String) → j.to_json p ≡ ok json → db.fault ≡ none → Stores db ⊎ Refuses db
      by_version json h k =
          let n = upsert-affected (row_of f p json db.now) db.rows in
          elim (affected-cases (row_of f p json db.now) (existing f p db)) [
            | inl up ↦ inl (record {
              json = json;
              to_json_ok = h;
              no_fault = k;
              below = up.1;
              stored = store-high db json h k (n ∙ up.0);
            })
            | inr low ↦
                let (unaffected, r, e, lower) = low in
                inr (record {
                  error = not_higher;
                  refused = store-low db json h k (n ∙ unaffected);
                  why = inr (inr (r, e, lower));
                })
          ]

      by_fault :
          (json : String) (o : Option String)
          → j.to_json p ≡ ok json
          → db.fault ≡ o
          → Stores db ⊎ Refuses db
      by_fault json none h k = by_version json h k
      by_fault json (some e) h k = inr (record {
        error = message (str_append "Failed to store premint: " e);
        refused = store-fault db json e h k;
        why = inr (inl (e, k));
      })

      by_json : (r : Result String Report) → j.to_json p ≡ r → Stores db ⊎ Refuses db
      by_json (ok json) h = by_fault json db.fault h refl
      by_json (err e) h =
          inr (record { error = e; refused = store-json_err db e h; why = inl (e, h) })
