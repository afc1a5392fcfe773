-- ===== src/Storage/Uris.antt =====
-- `get_for_token_uri` (src/storage.rs) after `store`.
use mintpool.Prelude.{
  ◌≡◌, ap, ap₂, ◌∙◌, String, List, [], ◌∷◌, none, some, err, ◌>>=◌, find, str_eq, inl, inr,
  Bool-cases,
}
use mintpool.Prelude.Int.{ltb_ℤ}
use mintpool.Types.Data.{row_not_found, Formats}
use mintpool.Types.Premint.{PremintTypes, Json}
use mintpool.Storage.Table.{Row, Db, is_key, lookup, upsert}
use mintpool.Storage.Store.{row_of, store}
use mintpool.Storage.Store.Laws.{existing, store-cases}
use mintpool.Storage.Query.{first_row, get_for_token_uri}

-- The rows with a token URI are the same rows after an update: an update does not write it.
find-upsert :
    (uri : String) (x : Row) (rows : List Row) (r : Row)
    → lookup x.kind x.id rows ≡ some r
    → find (λ r. str_eq r.token_uri uri) rows ≡ none
    → find (λ r. str_eq r.token_uri uri) (upsert x rows).0 ≡ none
unfolding upsert
find-upsert uri x [] r h k = cc h
find-upsert uri x (y ∷ ys) r h k = elim (Bool-cases (str_eq y.token_uri uri)) [
  | inl same ↦ cc (rw same at k)
  | inr other ↦ elim (Bool-cases (is_key x.kind x.id y)) [
    | inl hit ↦ elim (Bool-cases (ltb_ℤ y.version x.version)) [
      | inl up ↦ rw (hit, up, other) (rw other at k)
      | inr low ↦ rw (hit, low, other) (rw other at k)
    ]
    | inr miss ↦ rw (miss, other) (find-upsert uri x ys r (rw miss at h) (rw other at k))
  ]
]

-- A premint that replaces a stored version with another token URI is not found under the new one:
-- if there is a row under its kind and id, the database is in reach and no row has some URI, then
-- after the call looking that URI up finds no row.
pub get_for_token_uri-store :
    (f : Formats) (j : Json) (p : PremintTypes) (db : Db) (r : Row)
    → existing f p db ≡ some r
    → (uri : String) → db.fault ≡ none
    → find (λ r. str_eq r.token_uri uri) db.rows ≡ none
    → get_for_token_uri j uri (store f j p db).1 ≡ err row_not_found
unfolding get_for_token_uri row_of
get_for_token_uri-store f j p db r h uri healthy missing = elim (store-cases f j p db) [
  | inl s ↦
      ap (λ s. get_for_token_uri j uri s.1) s.stored
      ∙ ap₂ (λ o found. first_row o found >>= (λ row. j.from_json row.json)) s.no_fault
          (find-upsert uri (row_of f p s.json db.now) db.rows r h missing)
  | inr c ↦
      ap (λ s. get_for_token_uri j uri s.1) c.refused
      ∙ ap₂ (λ o found. first_row o found >>= (λ row. j.from_json row.json)) healthy missing
]
