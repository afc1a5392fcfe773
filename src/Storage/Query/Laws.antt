-- ===== src/Storage/Query/Laws.antt =====
-- The readers of src/storage.rs against each other and against what was stored.
pub mod Filter
use mintpool.Prelude.{
  ℕ, ◌≡◌, refl, sym, ap, ap₂, ◌∙◌, subst, String, Bool, true, false, ◌&&◌, not, List, [], ◌∷◌, map,
  Option, none, some, Result, ok, err, to_option, filter, filter_map, find, filter_ext,
  filter-filter, filter-map_when, filter-keep, filter-drop, find-here, find-later, filter_map-keep,
  All, if◌then◌else◌, inl, inr, Bool-cases, arith, str_append, ◌>>=◌,
}
use mintpool.Prelude.Int.{ℤ}
use mintpool.Types.Data.{Report, message, row_not_found, Formats, InclusionClaim}
use mintpool.Types.Premint.{PremintTypes, Json}
use mintpool.Storage.Table.{Row, Db, with_rows, set_seen, delete_where, set_seen_where}
use mintpool.Storage.Store.{PremintStorage, mark_seen_on_chain}
use mintpool.Storage.History.{claimed_by, mark-prune, mark-keep, mark-fault}
use mintpool.Storage.Query.{
  QueryOptions, default_options, build_query, all_rows, listing, parsed, first_row, no_rows,
  report_text, failed_to_list, premints_of, list_all, list_all_with_options, get_one,
}

build_query-default :
    (f : Formats) (r : Row) → build_query f default_options r ≡ not r.seen_on_chain
unfolding build_query
build_query-default f r = elim (Bool-cases r.seen_on_chain) [ inl y ↦ rw y | inr n ↦ rw n ]

-- Without options, the query of the API lists what `list_all` lists.
pub list_all_with_options-default :
    (f : Formats) (j : Json) (db : Db)
    → list_all_with_options j f default_options db ≡ list_all j db
unfolding list_all_with_options list_all
list_all_with_options-default f j db =
    ap (λ rows. listing j (all_rows db.fault rows))
      (filter_ext (build_query f default_options) (λ r. not r.seen_on_chain) (build_query-default f)
        db.rows)

-- The rows that are listed after a claim.
abbrev pub unclaimed : (Row → Bool) → List Row → List Row
unclaimed claimed rows = filter (λ r. not r.seen_on_chain && not (claimed r)) rows

filter-delete_where :
    (claimed : Row → Bool) (rows : List Row)
    → filter (λ r. not r.seen_on_chain) (delete_where claimed rows) ≡ unclaimed claimed rows
unfolding delete_where
filter-delete_where claimed rows =
    filter-filter (λ r. not r.seen_on_chain) (λ r. not (claimed r)) rows

filter-set_seen_where :
    (claimed : Row → Bool) (rows : List Row)
    → filter (λ r. not r.seen_on_chain) (set_seen_where claimed rows) ≡ unclaimed claimed rows
unfolding set_seen_where
filter-set_seen_where claimed rows =
    filter-map_when (λ r. not r.seen_on_chain) claimed set_seen (λ r. refl) rows

-- While the database is in reach, and whether the storage prunes or marks, after a claim `list_all` gives the premints of the rows that
-- were listed and that the claim does not name.
pub list_all-mark_seen_on_chain :
    (j : Json) (s : PremintStorage) (c : InclusionClaim) (db : Db)
    → db.fault ≡ none
    → list_all j (mark_seen_on_chain s c db).1
      ≡ ok (premints_of j (unclaimed (claimed_by c) db.rows))
unfolding list_all listing
list_all-mark_seen_on_chain j s c db h = by_prune s.prune_minted_premints
  where
    listed :
        (rows : List Row)
        → list_all j (with_rows db rows)
          ≡ ok (premints_of j (filter (λ r. not r.seen_on_chain) rows))
    listed rows = ap (λ o. listing j (all_rows o (filter (λ r. not r.seen_on_chain) rows))) h

    by_prune :
        (b : Bool)
        → list_all j (mark_seen_on_chain (record { prune_minted_premints = b }) c db).1
          ≡ ok (premints_of j (unclaimed (claimed_by c) db.rows))
    by_prune true =
        ap (λ r. list_all j r.1) (mark-prune c db h)
        ∙ listed (delete_where (claimed_by c) db.rows)
        ∙ ap (λ rows. ok (premints_of j rows)) (filter-delete_where (claimed_by c) db.rows)
    by_prune false =
        ap (λ r. list_all j r.1) (mark-keep c db h)
        ∙ listed (set_seen_where (claimed_by c) db.rows)
        ∙ ap (λ rows. ok (premints_of j rows)) (filter-set_seen_where (claimed_by c) db.rows)

-- The first premint of a listing.
abbrev pub first_listed : Result (List PremintTypes) Report → Result PremintTypes Report
first_listed (err e) = err e
first_listed (ok []) = err (failed_to_list no_rows)
first_listed (ok (p ∷ ps)) = ok p

first-premints_of :
    (j : Json) (test : Row → Bool) (rows : List Row)
    → All (λ r. (p : PremintTypes) × (j.from_json r.json ≡ ok p)) rows
    → parsed j (first_row none (find test rows))
      ≡ first_listed (ok (premints_of j (filter test rows)))
unfolding premints_of
first-premints_of j test [] h = refl
first-premints_of j test (r ∷ rs) h = elim (Bool-cases (test r)) [
  | inl y ↦
      let read : Row → Option PremintTypes = λ r. to_option (j.from_json r.json) in
      ap (λ o. parsed j (first_row none o)) (find-here test r rs y)
      ∙ h.0.1
      ∙ ap (λ ps. first_listed (ok ps))
          (sym (filter_map-keep read r h.0.0 (filter test rs) (ap to_option h.0.1)))
      ∙ ap (λ rows. first_listed (ok (filter_map read rows))) (sym (filter-keep test r rs y))
  | inr n ↦
      ap (λ o. parsed j (first_row none o)) (find-later test r rs n)
      ∙ first-premints_of j test rs h.1
      ∙ ap (λ rows. first_listed (ok (premints_of j rows))) (sym (filter-drop test r rs n))
]

-- When every row's JSON parses, `get_one` is the first of `list_all_with_options` for the same
-- options, and its error when there is none.
pub get_one-first :
    (f : Formats) (j : Json) (o : QueryOptions) (db : Db)
    → All (λ r. (p : PremintTypes) × (j.from_json r.json ≡ ok p)) db.rows
    → get_one j f o db ≡ first_listed (list_all_with_options j f o db)
unfolding get_one list_all_with_options listing premints_of
get_one-first f j o db h = by_fault db.fault
  where
    by_fault :
        (fault : Option String)
        → parsed j (first_row fault (find (build_query f o) db.rows))
          ≡ first_listed (listing j (all_rows fault (filter (build_query f o) db.rows)))
    by_fault none = first-premints_of j (build_query f o) db.rows h
    by_fault (some e) = refl
