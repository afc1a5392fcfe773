-- ===== src/Storage/Store/Contract.antt =====
-- The contract of `store` (src/storage.rs): when it succeeds, and what a reader finds afterwards.
use mintpool.Prelude.{
  ◌≡◌, ◌≢◌, ◌↔◌, inl, inr, refl, sym, ap, ap₂, ◌∙◌, subst, String, ◌&&◌, Option, none, some, Result,
  ok, err, ◌>>=◌, str_eq, if◌then◌else◌,
}
use mintpool.Prelude.Int.{as_i64}
use mintpool.Types.Data.{Report, Formats, PremintName}
use mintpool.Types.Premint.{PremintTypes, metadata, Json, RoundTrips}
use mintpool.Storage.Table.{Row, Db, with_rows, lookup, upsert}
use mintpool.Storage.Table.Keys.{
  newer, HasUniqueKeys, is_key_intro, lookup-upsert, upsert-HasUniqueKeys,
}
use mintpool.Storage.Store.{row_of, store}
use mintpool.Storage.Store.Laws.{HasBelow, existing, Refuses, store-cases}
use mintpool.Storage.Query.{first_row, get_for_id_and_kind}

err_ok : {A : Type 0} (e : Report) (a : A) → ◌≢◌ {A = Result A Report} (err e) (ok a)
err_ok e a h = cc h

module _ (j : Json) where
  get-found :
      (db : Db) (id : String) (kind : PremintName) (r : Row)
      → db.fault ≡ none
      → lookup kind.name id db.rows ≡ some r
      → get_for_id_and_kind j id kind db ≡ j.from_json r.json
  unfolding get_for_id_and_kind
  get-found db id kind r h k = ap (λ x. x >>= (λ row. j.from_json row.json)) (ap₂ first_row h k)

newer-json : (x : Row) (o : Option Row) → HasBelow x.version o → (newer x o).json ≡ x.json
newer-json x none h = refl
newer-json x (some r) h = rw h

module _ (f : Formats) (j : Json) (p : PremintTypes) where
  pub refused-not_ok : (db : Db) → Refuses f j p db → (store f j p db).0 ≢ ok tt
  refused-not_ok db r h = err_ok r.error tt (sym (ap (λ s. s.0) r.refused) ∙ h)

  -- A call succeeds exactly when the premint can be written as JSON, the database is there, and no
  -- row under the premint's kind and id has the version or a higher one, compared as `i64`s.
  pub store-ok_iff :
      (db : Db)
      → ((store f j p db).0 ≡ ok tt) ↔ (
          ((json : String) × (j.to_json p ≡ ok json))
          × (db.fault ≡ none)
          × HasBelow (as_i64 (metadata f p).version) (existing f p db))
  store-ok_iff db = elim (store-cases f j p db) [
    | inl s ↦ ((λ _. ((s.json, s.to_json_ok), s.no_fault, s.below)), (λ _. ap (λ s. s.0) s.stored))
    | inr r ↦ ((λ h. absurd (refused-not_ok db r h)), (λ h. absurd (refuse r h.0 h.1 h.2)))
  ]
    where
      refuse :
          (r : Refuses f j p db)
          → ((json : String) × (j.to_json p ≡ ok json))
          → db.fault ≡ none
          → HasBelow (as_i64 (metadata f p).version) (existing f p db)
          → ⊥
      refuse r h k b = elim r.why [
        | inl (e, x) ↦ err_ok e h.0 (sym x ∙ h.1)
        | inr (inl (e, x)) ↦ cc (x, k)
        | inr (inr (row, x, low)) ↦ cc (subst (HasBelow (as_i64 (metadata f p).version)) x b, low)
      ]

  -- A call that fails leaves the database as it was.
  pub store-err : (db : Db) (e : Report) → (store f j p db).0 ≡ err e → (store f j p db).1 ≡ db
  store-err db e h = elim (store-cases f j p db) [
    | inl s ↦ absurd (err_ok e tt (sym h ∙ ap (λ s. s.0) s.stored))
    | inr r ↦ ap (λ s. s.1) r.refused
  ]

  pub existing-upsert :
      (db : Db) (json : String)
      → lookup
          (metadata f p).kind.name
          (metadata f p).id
          (upsert (row_of f p json db.now) db.rows).0
        ≡ some (newer (row_of f p json db.now) (existing f p db))
  unfolding row_of
  existing-upsert db json =
      let x = row_of f p json db.now in
      lookup-upsert x (metadata f p).kind.name (metadata f p).id db.rows
      ∙ rw (is_key_intro (metadata f p).kind.name (metadata f p).id x refl refl)

  -- If JSON reads back what it writes, a premint whose call succeeds is then found under its id and
  -- kind.
  pub get_for_id_and_kind-store :
      RoundTrips j
      → (db : Db) → (store f j p db).0 ≡ ok tt
      → get_for_id_and_kind j (metadata f p).id (metadata f p).kind (store f j p db).1 ≡ ok p
  unfolding row_of
  get_for_id_and_kind-store round_trips db h = elim (store-cases f j p db) [
    | inl s ↦
        let x = row_of f p s.json db.now in
        ap (λ s. get_for_id_and_kind j (metadata f p).id (metadata f p).kind s.1) s.stored
        ∙ get-found j (with_rows db (upsert x db.rows).0) (metadata f p).id (metadata f p).kind
            (newer x (existing f p db)) s.no_fault (existing-upsert db s.json)
        ∙ ap j.from_json (newer-json x (existing f p db) s.below)
        ∙ round_trips p s.json s.to_json_ok
    | inr r ↦ absurd (refused-not_ok db r h)
  ]

  -- A call keeps one row for each kind and id.
  pub store-HasUniqueKeys :
      (db : Db) → HasUniqueKeys db.rows → HasUniqueKeys (store f j p db).1.rows
  store-HasUniqueKeys db u = elim (store-cases f j p db) [
    | inl s ↦
        subst (λ s. HasUniqueKeys s.1.rows) (sym s.stored)
          (upsert-HasUniqueKeys (row_of f p s.json db.now) db.rows u)
    | inr r ↦ subst (λ s. HasUniqueKeys s.1.rows) (sym r.refused) u
  ]

  -- A call that succeeds is an insertion into a map from kinds and ids: under the premint's key
  -- stands the new row, or the old one with the new version and JSON, and the rest is unchanged.
  pub lookup-store :
      (db : Db) (json kind id : String)
      → j.to_json p ≡ ok json
      → (store f j p db).0 ≡ ok tt
      → lookup kind id (store f j p db).1.rows ≡ (
          if str_eq (metadata f p).kind.name kind && str_eq (metadata f p).id id
          then some (newer (row_of f p json db.now) (lookup kind id db.rows))
          else lookup kind id db.rows)
  unfolding row_of
  lookup-store db json kind id written h = elim (store-cases f j p db) [
    | inl s ↦
        let same : s.json ≡ json = cc (s.to_json_ok, written) in
        ap (λ s. lookup kind id s.1.rows) s.stored
        ∙ lookup-upsert (row_of f p s.json db.now) kind id db.rows
        ∙ ap
            (λ json.
              if str_eq (metadata f p).kind.name kind && str_eq (metadata f p).id id
              then some (newer (row_of f p json db.now) (lookup kind id db.rows))
              else lookup kind id db.rows)
            same
    | inr r ↦ absurd (refused-not_ok db r h)
  ]
