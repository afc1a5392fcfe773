-- ===== src/Storage/Tests.antt =====
-- Runs of src/storage.rs, and the theorems about it at concrete databases.
use mintpool.Prelude.{
  ◌<◌, ◌^◌, ℕ, ◌≡◌, ◌≢◌, ◌↔◌, refl, String, true, false, [], ◌∷◌, none, some, ok, err, arith,
}
use mintpool.Prelude.Int.{pos, as_i64}
use mintpool.Prelude.Decimal.{show}
use mintpool.Types.Data.{row_not_found, InclusionClaim}
use mintpool.Types.Premint.{PremintTypes, simple, metadata, Json}
use mintpool.Fixtures.{formats, token, json, empty_db}
use mintpool.Storage.Table.{Row, Db, lookup}
use mintpool.Storage.Table.Keys.{newer, HasUniqueKeys}
use mintpool.Storage.Store.{PremintStorage, clone, row_of, not_higher, store, mark_seen_on_chain}
use mintpool.Storage.Store.Laws.{HasBelow, existing}
use mintpool.Storage.Store.Contract.{store-ok_iff, lookup-store}
use mintpool.Storage.Store.Versions.{store-store}
use mintpool.Storage.History.{
  marked, claimed_by, lookup-mark_seen_on_chain, begin, stores, marks, Writes-HasUniqueKeys,
}
use mintpool.Storage.Retention.{Kept, Writes-Kept}
use mintpool.Storage.Query.{QueryOptions, get_for_token_uri}
use mintpool.Storage.Uris.{get_for_token_uri-store}

abbrev premint : ℕ → PremintTypes
premint v = simple (token v)

-- The row of the first version.
abbrev row1 : Row
row1 = record {
  id = "7777777:5:9";
  kind = "simple";
  version = pos 1;
  signer = "5";
  chain_id = pos 7777777;
  collection_address = "0";
  token_id = "9";
  token_uri = "ipfs://a";
  json = "one";
  seen_on_chain = false;
  created_at = "2024-04-01 12:00:00";
}

abbrev db1 : Db
db1 = record { rows = row1 ∷ []; now = "2024-04-02 12:00:00"; fault = none }

abbrev claim : InclusionClaim
claim = record {
  premint_id = "7777777:5:9";
  chain_id = 7777777;
  tx_hash = 1;
  log_index = 0;
  kind = "simple";
}

abbrev pruning : PremintStorage
pruning = record { prune_minted_premints = true }

abbrev marking : PremintStorage
marking = record { prune_minted_premints = false }

insert_run : (store formats json (premint 1) empty_db).1.rows ≡ row1 ∷ []
unfolding store show as_i64
insert_run = refl

update_run : (store formats json (premint 2) db1).0 ≡ ok tt
unfolding store show as_i64
update_run = refl

-- The same version is refused.
refuse_run : (store formats json (premint 1) db1).0 ≡ err not_higher
unfolding store show as_i64
refuse_run = refl

prune_run : (mark_seen_on_chain pruning claim db1).1.rows ≡ []
unfolding mark_seen_on_chain as_i64
prune_run = refl

-- A clone marks where the original prunes.
clone_run :
    lookup "simple" "7777777:5:9" (mark_seen_on_chain (clone pruning) claim db1).1.rows ≢ none
unfolding mark_seen_on_chain as_i64 clone
clone_run = λ e. cc e

store-ok_iff_example : ((store formats json (premint 2) db1).0 ≡ ok tt) ↔ (
    ((s : String) × (json.to_json (premint 2) ≡ ok s))
    × (db1.fault ≡ none)
    × HasBelow (as_i64 2) (existing formats (premint 2) db1))
unfolding metadata
store-ok_iff_example = store-ok_iff formats json (premint 2) db1

store-store_example :
    ((store formats json (premint 2) (store formats json (premint 1) empty_db).1).0 ≡ ok tt) ↔ (
      ((metadata formats (premint 1)).version < (metadata formats (premint 2)).version)
      × ((metadata formats (premint 2)).version < 2 ^ 63))
unfolding store show as_i64
store-store_example =
    store-store formats json (premint 1) (premint 2) empty_db "two" refl refl refl (omega arith)
      (omega arith) refl

lookup-store_example :
    lookup "simple" "7777777:5:9" (store formats json (premint 2) db1).1.rows
    ≡ some (newer (row_of formats (premint 2) "two" db1.now) (some row1))
unfolding store show as_i64
lookup-store_example =
    lookup-store formats json (premint 2) db1 "two" "simple" "7777777:5:9" refl refl

lookup-mark_seen_on_chain_example :
    lookup "simple" "7777777:5:9" (mark_seen_on_chain pruning claim db1).1.rows
    ≡ marked true (claimed_by claim) (some row1)
lookup-mark_seen_on_chain_example =
    lookup-mark_seen_on_chain pruning claim db1 refl (refl, tt) "simple" "7777777:5:9"

Writes-HasUniqueKeys_example :
    HasUniqueKeys (mark_seen_on_chain marking claim (store formats json (premint 2) db1).1).1.rows
Writes-HasUniqueKeys_example =
    Writes-HasUniqueKeys formats json {s = marking} {start = db1}
      (marks (stores begin (premint 2)) claim) (refl, tt)

Writes-Kept_example : Kept (some row1) (
    lookup "simple" "7777777:5:9"
      (mark_seen_on_chain marking claim (store formats json (premint 2) db1).1).1.rows)
Writes-Kept_example =
    Writes-Kept formats json "simple" "7777777:5:9" {start = db1}
      (marks (stores begin (premint 2)) claim)

-- The query of a sync for one chain.
abbrev on_zora : QueryOptions
on_zora = record {
  chain_id = some 7777777;
  kind = none;
  collection_address = none;
  creator_address = none;
  from = none;
  to = none;
}

-- A second version with another URI.
abbrev moved : PremintTypes
moved =
    simple
      (record { version = 2; chain_id = 7777777; sender = 5; token_id = 9; media = "ipfs://b" })

abbrev any_json : Json
any_json = record { to_json = λ p. ok "two"; from_json = λ s. ok moved }

moved_run : (store formats any_json moved db1).0 ≡ ok tt
unfolding store show as_i64
moved_run = refl

get_for_token_uri-store_example :
    get_for_token_uri any_json "ipfs://b" (store formats any_json moved db1).1 ≡ err row_not_found
unfolding metadata show
get_for_token_uri-store_example =
    get_for_token_uri-store formats any_json moved db1 row1 refl "ipfs://b" refl refl
