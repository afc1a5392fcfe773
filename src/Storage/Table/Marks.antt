-- ===== src/Storage/Table/Marks.antt =====
-- The statements of `mark_seen_on_chain` (src/storage.rs) on the table as a map from its key.
use mintpool.Prelude.{
  ◌≡◌, refl, sym, ◌∙◌, String, Bool, List, [], ◌∷◌, none, some, if◌then◌else◌, inl, inr, Bool-cases,
}
use mintpool.Storage.Table.{Row, is_key, lookup, set_seen, delete_where, set_seen_where}
use mintpool.Storage.Table.Keys.{HasUniqueKeys, is_key-true}

-- The statements that a claim runs act row by row.
pub lookup-set_seen_where :
    (p : Row → Bool) (kind id : String) (rows : List Row)
    → lookup kind id (set_seen_where p rows)
      ≡ elim (lookup kind id rows) [ none ↦ none | some r ↦ some (if p r then set_seen r else r) ]
unfolding set_seen_where
lookup-set_seen_where p kind id [] = refl
lookup-set_seen_where p kind id (r ∷ rs) = elim (Bool-cases (is_key kind id r)) [
  | inl hit ↦ elim (Bool-cases (p r)) [ inl y ↦ rw (y, hit, y) | inr n ↦ rw (n, hit, n) ]
  | inr miss ↦ elim (Bool-cases (p r)) [
    | inl y ↦ rw (y, miss) (lookup-set_seen_where p kind id rs)
    | inr n ↦ rw (n, miss) (lookup-set_seen_where p kind id rs)
  ]
]

pub set_seen_where-HasUniqueKeys :
    (p : Row → Bool) (rows : List Row) → HasUniqueKeys rows → HasUniqueKeys (set_seen_where p rows)
unfolding set_seen_where
set_seen_where-HasUniqueKeys p [] u = tt
set_seen_where-HasUniqueKeys p (r ∷ rs) u =
    let fresh : lookup r.kind r.id (set_seen_where p rs) ≡ none =
      lookup-set_seen_where p r.kind r.id rs ∙ rw u.0 in
    elim (Bool-cases (p r)) [
      | inl y ↦ rw y (fresh, set_seen_where-HasUniqueKeys p rs u.1)
      | inr n ↦ rw n (fresh, set_seen_where-HasUniqueKeys p rs u.1)
    ]

pub lookup-delete_where-none :
    (p : Row → Bool) (kind id : String) (rows : List Row)
    → lookup kind id rows ≡ none
    → lookup kind id (delete_where p rows) ≡ none
unfolding delete_where
lookup-delete_where-none p kind id [] h = refl
lookup-delete_where-none p kind id (r ∷ rs) h = elim (Bool-cases (is_key kind id r)) [
  | inl hit ↦ cc (rw hit at h)
  | inr miss ↦ elim (Bool-cases (p r)) [
    | inl y ↦ rw y (lookup-delete_where-none p kind id rs (rw miss at h))
    | inr n ↦ rw (n, miss) (lookup-delete_where-none p kind id rs (rw miss at h))
  ]
]

pub delete_where-HasUniqueKeys :
    (p : Row → Bool) (rows : List Row) → HasUniqueKeys rows → HasUniqueKeys (delete_where p rows)
unfolding delete_where
delete_where-HasUniqueKeys p [] u = tt
delete_where-HasUniqueKeys p (r ∷ rs) u = elim (Bool-cases (p r)) [
  | inl y ↦ rw y (delete_where-HasUniqueKeys p rs u.1)
  | inr n ↦
      rw n (lookup-delete_where-none p r.kind r.id rs u.0, delete_where-HasUniqueKeys p rs u.1)
]

-- With unique keys a deletion takes the row of a key away exactly when that row is named by it.
pub lookup-delete_where :
    (p : Row → Bool) (kind id : String) (rows : List Row)
    → HasUniqueKeys rows
    → lookup kind id (delete_where p rows)
      ≡ elim (lookup kind id rows) [ none ↦ none | some r ↦ if p r then none else some r ]
unfolding delete_where
lookup-delete_where p kind id [] u = refl
lookup-delete_where p kind id (r ∷ rs) u = elim (Bool-cases (is_key kind id r)) [
  | inl hit ↦ elim (Bool-cases (p r)) [
    | inl y ↦
        let e = is_key-true kind id r hit in
        let gone : lookup kind id rs ≡ none = rw (sym e.0, sym e.1) u.0 in
        rw (y, hit, y) (lookup-delete_where-none p kind id rs gone)
    | inr n ↦ rw (n, hit, n)
  ]
  | inr miss ↦ elim (Bool-cases (p r)) [
    | inl y ↦ rw (y, miss) (lookup-delete_where p kind id rs u.1)
    | inr n ↦ rw (n, miss) (lookup-delete_where p kind id rs u.1)
  ]
]
