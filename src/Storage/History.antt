-- ===== src/Storage/History.antt =====
-- Sequences of `store` and `mark_seen_on_chain` (src/storage.rs) on one database.
use mintpool.Prelude.{
  ◌≡◌, inl, inr, refl, sym, ap, ◌∙◌, subst, String, Bool, true, false, Option, none, some, ok,
  if◌then◌else◌, Bool-cases,
}
use mintpool.Prelude.Int.{as_i64}
use mintpool.Types.Data.{Formats, InclusionClaim}
use mintpool.Types.Premint.{PremintTypes, Json}
use mintpool.Storage.Table.{
  Row, Db, with_rows, lookup, is_claimed, set_seen, delete_where, set_seen_where,
}
use mintpool.Storage.Table.Keys.{HasUniqueKeys}
use mintpool.Storage.Table.Marks.{
  lookup-set_seen_where, set_seen_where-HasUniqueKeys, delete_where-HasUniqueKeys,
  lookup-delete_where,
}
use mintpool.Storage.Store.{PremintStorage, store, mark_seen_on_chain}
use mintpool.Storage.Store.Contract.{store-HasUniqueKeys}

-- What a claim does to a row.
abbrev pub marked : Bool → (Row → Bool) → Option Row → Option Row
marked prune claimed none = none
marked true claimed (some r) = if claimed r then none else some r
marked false claimed (some r) = some (if claimed r then set_seen r else r)

abbrev pub claimed_by : InclusionClaim → Row → Bool
claimed_by c = is_claimed c.premint_id (as_i64 c.chain_id) c.kind

pub mark-prune :
    (c : InclusionClaim) (db : Db)
    → db.fault ≡ none
    → mark_seen_on_chain (record { prune_minted_premints = true }) c db
      ≡ (ok tt, with_rows db (delete_where (claimed_by c) db.rows))
unfolding mark_seen_on_chain
mark-prune c db h = simp (h, mark_seen_on_chain)

pub mark-keep :
    (c : InclusionClaim) (db : Db)
    → db.fault ≡ none
    → mark_seen_on_chain (record { prune_minted_premints = false }) c db
      ≡ (ok tt, with_rows db (set_seen_where (claimed_by c) db.rows))
unfolding mark_seen_on_chain
mark-keep c db h = simp (h, mark_seen_on_chain)

pub mark-fault :
    (s : PremintStorage) (c : InclusionClaim) (db : Db) (e : String)
    → db.fault ≡ some e
    → (mark_seen_on_chain s c db).1 ≡ db
unfolding mark_seen_on_chain
mark-fault s c db e h = elim (Bool-cases s.prune_minted_premints) [
  | inl y ↦ simp (h, y, mark_seen_on_chain)
  | inr n ↦ simp (h, n, mark_seen_on_chain)
]

-- While the database is in reach and has at most one row for each kind and id: under every key, a
-- claim removes the row that it names, if the storage prunes, and otherwise
-- marks it; every other row stays.
pub lookup-mark_seen_on_chain :
    (s : PremintStorage) (c : InclusionClaim) (db : Db)
    → db.fault ≡ none
    → HasUniqueKeys db.rows
    → (kind id : String)
    → lookup kind id (mark_seen_on_chain s c db).1.rows
      ≡ marked s.prune_minted_premints (claimed_by c) (lookup kind id db.rows)
lookup-mark_seen_on_chain s c db h u kind id = by_prune s.prune_minted_premints
  where
    pruned :
        (o : Option Row)
        → elim o [ none ↦ none | some r ↦ if claimed_by c r then none else some r ]
          ≡ marked true (claimed_by c) o
    pruned none = refl
    pruned (some r) = refl

    kept :
        (o : Option Row)
        → elim o [ none ↦ none | some r ↦ some (if claimed_by c r then set_seen r else r) ]
          ≡ marked false (claimed_by c) o
    kept none = refl
    kept (some r) = refl

    by_prune :
        (b : Bool)
        → lookup kind id (mark_seen_on_chain (record { prune_minted_premints = b }) c db).1.rows
          ≡ marked b (claimed_by c) (lookup kind id db.rows)
    by_prune true =
        ap (λ r. lookup kind id r.1.rows) (mark-prune c db h)
        ∙ lookup-delete_where (claimed_by c) kind id db.rows u
        ∙ pruned (lookup kind id db.rows)
    by_prune false =
        ap (λ r. lookup kind id r.1.rows) (mark-keep c db h)
        ∙ lookup-set_seen_where (claimed_by c) kind id db.rows
        ∙ kept (lookup kind id db.rows)

pub mark_seen_on_chain-HasUniqueKeys :
    (s : PremintStorage) (c : InclusionClaim) (db : Db)
    → HasUniqueKeys db.rows
    → HasUniqueKeys (mark_seen_on_chain s c db).1.rows
mark_seen_on_chain-HasUniqueKeys s c db u = by_fault db.fault refl
  where
    by_prune :
        (b : Bool)
        → db.fault ≡ none
        → HasUniqueKeys (mark_seen_on_chain (record { prune_minted_premints = b }) c db).1.rows
    by_prune true h =
        subst (λ r. HasUniqueKeys r.1.rows) (sym (mark-prune c db h))
          (delete_where-HasUniqueKeys (claimed_by c) db.rows u)
    by_prune false h =
        subst (λ r. HasUniqueKeys r.1.rows) (sym (mark-keep c db h))
          (set_seen_where-HasUniqueKeys (claimed_by c) db.rows u)

    by_fault : (o : Option String) → db.fault ≡ o → HasUniqueKeys (mark_seen_on_chain s c db).1.rows
    by_fault none h = by_prune s.prune_minted_premints h
    by_fault (some e) h = subst (λ d. HasUniqueKeys d.rows) (sym (mark-fault s c db e h)) u

-- The databases that writes, faults and the clock make of one.
pub data Writes (f : Formats) (j : Json) (s : PremintStorage) (start : Db) : Db → Type 0 where
  begin : Writes f j s start start
  stores :
      {db : Db} → Writes f j s start db → (p : PremintTypes) → Writes f j s start (store f j p db).1
  marks :
      {db : Db}
      → Writes f j s start db
      → (c : InclusionClaim) → Writes f j s start (mark_seen_on_chain s c db).1
  elapses :
      {db : Db}
      → Writes f j s start db
      → (now : String) (fault : Option String)
      → Writes f j s start (record { rows = db.rows; now = now; fault = fault })

module _ (f : Formats) (j : Json) where
  -- If a table has at most one row for each kind and id, so does every table that stores, claims,
  -- faults and the clock make of it.
  pub Writes-HasUniqueKeys :
      {s : PremintStorage} {start db : Db}
      → Writes f j s start db
      → HasUniqueKeys start.rows
      → HasUniqueKeys db.rows
  Writes-HasUniqueKeys begin u = u
  Writes-HasUniqueKeys (stores {db = db} w p) u =
      store-HasUniqueKeys f j p db (Writes-HasUniqueKeys w u)
  Writes-HasUniqueKeys {s = s} (marks {db = db} w c) u =
      mark_seen_on_chain-HasUniqueKeys s c db (Writes-HasUniqueKeys w u)
  Writes-HasUniqueKeys (elapses w now fault) u = Writes-HasUniqueKeys w u
