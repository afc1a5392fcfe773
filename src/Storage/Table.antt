-- ===== src/Storage/Table.antt =====
-- The table `premints` (migrations/20240313181116_premints.sql) and the statements of
-- src/storage.rs that change it. The rows stand in the order of their insertion.
pub mod Keys
pub mod Marks
use mintpool.Prelude.{
  ℕ, String, Bool, true, false, ◌&&◌, not, List, [], ◌∷◌, map, Option, none, some, filter, find,
  str_eq, if◌then◌else◌,
}
use mintpool.Prelude.Int.{ℤ, ltb_ℤ, eqb_ℤ}

pub record Row : Type 0 where
  pub id : String
  pub kind : String
  pub version : ℤ
  pub signer : String
  pub chain_id : ℤ
  pub collection_address : String
  pub token_id : String
  pub token_uri : String
  pub json : String
  pub seen_on_chain : Bool
  pub created_at : String

-- `fault` is the error that the next statements meet, when the database is out of reach; `now` is
-- CURRENT_TIMESTAMP.
pub record Db : Type 0 where
  pub rows : List Row
  pub now : String
  pub fault : Option String

abbrev pub with_rows : Db → List Row → Db
with_rows db rows = record { rows = rows; now = db.now; fault = db.fault }

-- The primary key.
abbrev pub is_key : String → String → Row → Bool
is_key kind id r = str_eq r.kind kind && str_eq r.id id

abbrev pub lookup : String → String → List Row → Option Row
lookup kind id rows = find (is_key kind id) rows

-- DO UPDATE SET version = $3, json = $9
abbrev pub update_row : Row → Row → Row
update_row x r = record {
  id = r.id;
  kind = r.kind;
  version = x.version;
  signer = r.signer;
  chain_id = r.chain_id;
  collection_address = r.collection_address;
  token_id = r.token_id;
  token_uri = r.token_uri;
  json = x.json;
  seen_on_chain = r.seen_on_chain;
  created_at = r.created_at;
}

-- INSERT ... ON CONFLICT (kind, id) DO UPDATE ... WHERE excluded.version > version, with the number
-- of rows affected.
unfoldable pub upsert : Row → List Row → List Row × ℕ
upsert x [] = (x ∷ [], 1)
upsert x (r ∷ rs) =
    let rest = upsert x rs in
    if is_key x.kind x.id r
    then (if ltb_ℤ r.version x.version then (update_row x r ∷ rs, 1) else (r ∷ rs, 0))
    else (r ∷ rest.0, rest.1)

-- WHERE id = ? AND chain_id = ? AND kind = ?
abbrev pub is_claimed : String → ℤ → String → Row → Bool
is_claimed id chain_id kind r = str_eq r.id id && (eqb_ℤ r.chain_id chain_id && str_eq r.kind kind)

abbrev pub set_seen : Row → Row
set_seen r = record {
  id = r.id;
  kind = r.kind;
  version = r.version;
  signer = r.signer;
  chain_id = r.chain_id;
  collection_address = r.collection_address;
  token_id = r.token_id;
  token_uri = r.token_uri;
  json = r.json;
  seen_on_chain = true;
  created_at = r.created_at;
}

-- DELETE FROM premints WHERE ...
unfoldable pub delete_where : (Row → Bool) → List Row → List Row
delete_where p rows = filter (λ r. not (p r)) rows

-- UPDATE premints SET seen_on_chain = true WHERE ...
unfoldable pub set_seen_where : (Row → Bool) → List Row → List Row
set_seen_where p rows = map (λ r. if p r then set_seen r else r) rows
