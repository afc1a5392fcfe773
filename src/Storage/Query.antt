-- ===== src/Storage/Query.antt =====
-- src/storage.rs: the `Reader` of `PremintStorage` and the queries of the API.
pub mod Laws
use mintpool.Prelude.{
  ℕ, String, Bool, true, false, not, ◌&&◌, ◌||◌, List, [], ◌∷◌, map, Option, none, some, Result, ok,
  err, ◌>>=◌, to_option, filter, filter_map, find, str_eq, str_append, ◌==◌, ltb, if◌then◌else◌,
  all,
}
use mintpool.Prelude.Int.{ℤ, as_i64, eqb_ℤ}
use mintpool.Prelude.Order.{leb_text}
use mintpool.Types.Data.{Report, message, row_not_found, Formats, PremintName}
use mintpool.Types.Premint.{PremintTypes, Json}
use mintpool.Storage.Table.{Row, Db, is_key}

-- Times are their seconds.
pub record QueryOptions : Type 0 where
  pub chain_id : Option ℕ
  pub kind : Option String
  pub collection_address : Option ℕ
  pub creator_address : Option ℕ
  pub from : Option ℕ
  pub to : Option ℕ

-- `QueryOptions::default()`
abbrev pub default_options : QueryOptions
default_options = record {
  chain_id = none;
  kind = none;
  collection_address = none;
  creator_address = none;
  from = none;
  to = none;
}

-- " AND ..." when the option is given.
abbrev pub and_when {ℓ} : {A : Type ℓ} → Option A → (A → Row → Bool) → Row → Bool
and_when none test r = true
and_when (some a) test r = test a r

-- The condition of the query that is built, on a row.
unfoldable pub build_query : Formats → QueryOptions → Row → Bool
unfolding leb_text
build_query f o r =
    not r.seen_on_chain
    && (and_when o.kind (λ k r. str_eq r.kind k) r
        && (and_when o.chain_id (λ c r. eqb_ℤ r.chain_id (as_i64 c)) r
            && (and_when o.collection_address
                  (λ a r. str_eq r.collection_address (f.address_to_string a)) r
                && (and_when o.creator_address (λ a r. str_eq r.signer (f.address_to_string a)) r
                    && (and_when o.from (λ t r. leb_text (f.time_to_string t) r.created_at) r
                        && and_when o.to (λ t r. leb_text r.created_at (f.time_to_string t)) r)))))

-- The rows of a query; `fetch_one` takes the first.
abbrev pub all_rows : Option String → List Row → Result (List Row) String
all_rows (some e) found = err e
all_rows none found = ok found

abbrev pub fetch_all : (Row → Bool) → Db → Result (List Row) String
fetch_all test db = all_rows db.fault (filter test db.rows)

abbrev pub first_row : Option String → Option Row → Result Row Report
first_row (some e) found = err (message e)
first_row none none = err row_not_found
first_row none (some r) = ok r

abbrev pub fetch_one : (Row → Bool) → Db → Result Row Report
fetch_one test db = first_row db.fault (find test db.rows)

abbrev pub no_rows : String
no_rows = "no rows returned by a query that expected to return at least one row"

-- `format!("{}", e)`
abbrev pub report_text : Report → String
report_text row_not_found = no_rows
report_text (message s) = s

abbrev pub failed_to_list : String → Report
failed_to_list e = message (str_append "Failed to list all premints: " e)

module _ (j : Json) where
  -- Rows whose JSON does not parse are left out.
  unfoldable pub premints_of : List Row → List PremintTypes
  premints_of rows = filter_map (λ r. to_option (j.from_json r.json)) rows

  unfoldable pub listing : Result (List Row) String → Result (List PremintTypes) Report
  unfolding premints_of
  listing (err e) = err (failed_to_list e)
  listing (ok rows) = ok (premints_of rows)

  unfoldable pub list_all : Db → Result (List PremintTypes) Report
  unfolding listing
  list_all db = listing (fetch_all (λ r. not r.seen_on_chain) db)

  unfoldable pub get_for_id_and_kind : String → PremintName → Db → Result PremintTypes Report
  get_for_id_and_kind id kind db = do row ← fetch_one (is_key kind.name id) db; j.from_json row.json

  unfoldable pub get_for_token_uri : String → Db → Result PremintTypes Report
  get_for_token_uri uri db = do
    row ← fetch_one (λ r. str_eq r.token_uri uri) db
    j.from_json row.json

  unfoldable pub list_all_with_options :
      Formats → QueryOptions → Db → Result (List PremintTypes) Report
  unfolding build_query listing
  list_all_with_options f o db = listing (fetch_all (build_query f o) db)

  abbrev pub parsed : Result Row Report → Result PremintTypes Report
  parsed (err e) = err (failed_to_list (report_text e))
  parsed (ok row) = j.from_json row.json

  unfoldable pub get_one : Formats → QueryOptions → Db → Result PremintTypes Report
  unfolding build_query
  get_one f o db = parsed (fetch_one (build_query f o) db)
