-- ===== src/Storage/Store/Versions.antt =====
-- Two calls of `store` (src/storage.rs) with one key, and their versions as `i64`s.
use mintpool.Prelude.{
  ◌≡◌, ◌↔◌, ◌<◌, ◌^◌, refl, sym, ap, ap₂, ◌∙◌, subst, String, Option, none, some, ok, inl, inr,
}
use mintpool.Prelude.Int.{as_i64, ltb_ℤ, ltb-as_i64_iff}
use mintpool.Types.Data.{Formats}
use mintpool.Types.Premint.{PremintTypes, metadata, Json}
use mintpool.Storage.Table.{Row, Db, lookup}
use mintpool.Storage.Table.Keys.{newer}
use mintpool.Storage.Store.{row_of, store}
use mintpool.Storage.Store.Laws.{HasBelow, existing, store-cases}
use mintpool.Storage.Store.Contract.{existing-upsert, refused-not_ok, store-ok_iff}

newer-version : (x : Row) (o : Option Row) → HasBelow x.version o → (newer x o).version ≡ x.version
newer-version x none h = refl
newer-version x (some r) h = rw h

module _ (f : Formats) (j : Json) (p q : PremintTypes) (db : Db) where
  -- After a call that stored a version, the row under its key has that version.
  existing-store :
      (store f j p db).0 ≡ ok tt
      → ((store f j p db).1.fault ≡ none)
        × (r : Row) × (existing f p (store f j p db).1 ≡ some r)
        × (r.version ≡ as_i64 (metadata f p).version)
  unfolding row_of
  existing-store h = elim (store-cases f j p db) [
    | inl s ↦
        let x = row_of f p s.json db.now in
        (
          ap (λ s. s.1.fault) s.stored ∙ s.no_fault,
          newer x (existing f p db),
          ap (λ s. existing f p s.1) s.stored ∙ existing-upsert f j p db s.json,
          newer-version x (existing f p db) s.below,
        )
    | inr r ↦ absurd (refused-not_ok f j p db r h)
  ]

  -- Where a premint was stored with a version below 2^63, another one with its kind and id, a `u64`
  -- version and JSON is then stored exactly when its version is higher and also below 2^63.
  pub store-store :
      (s : String)
      → (store f j p db).0 ≡ ok tt
      → (metadata f q).kind.name ≡ (metadata f p).kind.name
      → (metadata f q).id ≡ (metadata f p).id
      → (metadata f p).version < 2 ^ 63
      → (metadata f q).version < 2 ^ 64
      → j.to_json q ≡ ok s
      → ((store f j q (store f j p db).1).0 ≡ ok tt)
        ↔ (((metadata f p).version < (metadata f q).version) × ((metadata f q).version < 2 ^ 63))
  store-store s h same_kind same_id low bounded written =
      let (healthy, r, found, version) = existing-store h in
      let found_q : existing f q (store f j p db).1 ≡ some r =
        ap₂ (λ kind id. lookup kind id (store f j p db).1.rows) same_kind same_id ∙ found in
      let stored_when = store-ok_iff f j q (store f j p db).1 in
      let order = ltb-as_i64_iff (metadata f p).version (metadata f q).version low bounded in
      (
        (λ k. order.0 (
            ap (λ v. ltb_ℤ v (as_i64 (metadata f q).version)) (sym version)
            ∙ subst (HasBelow (as_i64 (metadata f q).version)) found_q (stored_when.0 k).2)),
        (λ k. stored_when.1 (
          (s, written),
          healthy,
          subst (HasBelow (as_i64 (metadata f q).version)) (sym found_q)
              (ap (λ v. ltb_ℤ v (as_i64 (metadata f q).version)) version ∙ order.1 k),
        )),
      )
