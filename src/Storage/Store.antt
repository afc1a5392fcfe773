-- ===== src/Storage/Store.antt =====
-- src/storage.rs: `PremintStorage` and its `Writer`.
pub mod Laws
pub mod Contract
pub mod Versions
use mintpool.Prelude.{
  ℕ, String, Bool, true, false, List, Option, none, some, Result, ok, err, ◌==◌, str_append,
  if◌then◌else◌,
}
use mintpool.Prelude.Int.{ℤ, as_i64}
use mintpool.Prelude.Decimal.{show}
use mintpool.Types.Data.{Report, message, Formats, InclusionClaim}
use mintpool.Types.Premint.{PremintTypes, metadata, Json}
use mintpool.Storage.Table.{Row, Db, with_rows, upsert, is_claimed, delete_where, set_seen_where}

-- The handle without the pool: the database is passed beside it.
pub record PremintStorage : Type 0 where
  pub prune_minted_premints : Bool

unfoldable pub clone : PremintStorage → PremintStorage
clone s = record { prune_minted_premints = false }

abbrev pub not_higher : Report
not_higher = message "Cannot store premint with lower version than existing"

module _ (f : Formats) where
  -- The row that the statement of `store` inserts.
  unfoldable pub row_of : PremintTypes → String → String → Row
  unfolding metadata
  row_of p json now =
      let m = metadata f p in
      record {
        id = m.id;
        kind = m.kind.name;
        version = as_i64 m.version;
        signer = f.to_checksum m.signer;
        chain_id = as_i64 m.chain_id;
        collection_address = f.to_checksum m.collection_address;
        token_id = show m.token_id;
        token_uri = m.uri;
        json = json;
        seen_on_chain = false;
        created_at = now;
      }

  unfoldable pub store : Json → PremintTypes → Db → Result (Unit {0}) Report × Db
  unfolding row_of upsert
  store j p db = elim (j.to_json p) [
    | err e ↦ (err e, db)
    | ok json ↦ elim db.fault [
      | some e ↦ (err (message (str_append "Failed to store premint: " e)), db)
      | none ↦
          let result = upsert (row_of p json db.now) db.rows in
          ((if result.1 == 0 then err not_higher else ok tt), with_rows db result.0)
    ]
  ]

unfoldable pub mark_seen_on_chain :
    PremintStorage → InclusionClaim → Db → Result (Unit {0}) Report × Db
unfolding delete_where set_seen_where
mark_seen_on_chain s claim db =
    let claimed = is_claimed claim.premint_id (as_i64 claim.chain_id) claim.kind in
    if s.prune_minted_premints
    then elim db.fault [
      | some e ↦ (err (message (str_append "Failed to delete premint: " e)), db)
      | none ↦ (ok tt, with_rows db (delete_where claimed db.rows))
    ]
    else elim db.fault [
      | some e ↦ (err (message (str_append "Failed to update premint: " e)), db)
      | none ↦ (ok tt, with_rows db (set_seen_where claimed db.rows))
    ]
