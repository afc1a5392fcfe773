-- ===== src/Storage/Retention.antt =====
-- What a row of the table (src/storage.rs) keeps as long as nothing is pruned.
use mintpool.Prelude.{
  ◌≡◌, inl, inr, refl, sym, ◌∙◌, subst, String, Bool, true, false, List, Option, none, some,
  if◌then◌else◌, Bool-cases,
}
use mintpool.Prelude.Int.{ltb_ℤ, ltb_ℤ_irrefl, not_ltb_ℤ, not_ltb_ℤ_trans}
use mintpool.Types.Data.{Formats, InclusionClaim}
use mintpool.Types.Premint.{PremintTypes, Json}
use mintpool.Storage.Table.{Row, Db, is_key, lookup, upsert, set_seen}
use mintpool.Storage.Table.Keys.{newer, lookup-upsert}
use mintpool.Storage.Table.Marks.{lookup-set_seen_where}
use mintpool.Storage.Store.{row_of, store, mark_seen_on_chain}
use mintpool.Storage.Store.Laws.{store-cases}
use mintpool.Storage.History.{
  Writes, begin, stores, marks, elapses, mark-keep, mark-fault, claimed_by,
}

-- A row and what it has become: the version is not lower, a mark stays, and the columns that no
-- statement writes are the first ones.
pub record Later (r r' : Row) : Type 0 where
  pub not_lower : ltb_ℤ r'.version r.version ≡ false
  pub still_seen : r.seen_on_chain ≡ true → r'.seen_on_chain ≡ true
  pub same_signer : r'.signer ≡ r.signer
  pub same_chain : r'.chain_id ≡ r.chain_id
  pub same_token_uri : r'.token_uri ≡ r.token_uri
  pub same_created_at : r'.created_at ≡ r.created_at

Later-refl : (r : Row) → Later r r
Later-refl r = record {
  not_lower = ltb_ℤ_irrefl r.version;
  still_seen = λ h. h;
  same_signer = refl;
  same_chain = refl;
  same_token_uri = refl;
  same_created_at = refl;
}

Later-trans : (a b c : Row) → Later a b → Later b c → Later a c
Later-trans a b c h k = record {
  not_lower = not_ltb_ℤ_trans a.version b.version c.version h.not_lower k.not_lower;
  still_seen = λ s. k.still_seen (h.still_seen s);
  same_signer = k.same_signer ∙ h.same_signer;
  same_chain = k.same_chain ∙ h.same_chain;
  same_token_uri = k.same_token_uri ∙ h.same_token_uri;
  same_created_at = k.same_created_at ∙ h.same_created_at;
}

-- What stood under a key still does.
abbrev pub Kept : Option Row → Option Row → Type 0
Kept none o' = Unit
Kept (some r) none = ⊥
Kept (some r) (some r') = Later r r'

Kept-refl : (o : Option Row) → Kept o o
Kept-refl none = tt
Kept-refl (some r) = Later-refl r

Kept-trans : (a b c : Option Row) → Kept a b → Kept b c → Kept a c
Kept-trans none b c h k = tt
Kept-trans (some a) none c h k = absurd h
Kept-trans (some a) (some b) none h k = absurd k
Kept-trans (some a) (some b) (some c) h k = Later-trans a b c h k

Kept-newer : (x : Row) (o : Option Row) → Kept o (some (newer x o))
Kept-newer x none = tt
Kept-newer x (some r) = elim (Bool-cases (ltb_ℤ r.version x.version)) [
  | inl up ↦ rw up (record {
    not_lower = not_ltb_ℤ r.version x.version up;
    still_seen = λ h. h;
    same_signer = refl;
    same_chain = refl;
    same_token_uri = refl;
    same_created_at = refl;
  })
  | inr low ↦ rw low (Later-refl r)
]

Kept-mark :
    (p : Row → Bool) (o : Option Row)
    → Kept o (elim o [ none ↦ none | some r ↦ some (if p r then set_seen r else r) ])
Kept-mark p none = tt
Kept-mark p (some r) = elim (Bool-cases (p r)) [
  | inl y ↦ rw y (record {
    not_lower = ltb_ℤ_irrefl r.version;
    still_seen = λ _. refl;
    same_signer = refl;
    same_chain = refl;
    same_token_uri = refl;
    same_created_at = refl;
  })
  | inr n ↦ rw n (Later-refl r)
]

Kept-upsert :
    (x : Row) (rows : List Row) (kind id : String)
    → Kept (lookup kind id rows) (lookup kind id (upsert x rows).0)
Kept-upsert x rows kind id = elim (Bool-cases (is_key kind id x)) [
  | inl hit ↦
      subst (Kept (lookup kind id rows)) (sym (lookup-upsert x kind id rows ∙ rw hit))
        (Kept-newer x (lookup kind id rows))
  | inr miss ↦
      subst (Kept (lookup kind id rows)) (sym (lookup-upsert x kind id rows ∙ rw miss))
        (Kept-refl (lookup kind id rows))
]

module _ (f : Formats) (j : Json) (kind id : String) where
  Kept-store :
      (p : PremintTypes) (db : Db)
      → Kept (lookup kind id db.rows) (lookup kind id (store f j p db).1.rows)
  Kept-store p db = elim (store-cases f j p db) [
    | inl s ↦
        subst (λ s. Kept (lookup kind id db.rows) (lookup kind id s.1.rows)) (sym s.stored)
          (Kept-upsert (row_of f p s.json db.now) db.rows kind id)
    | inr r ↦
        subst (λ s. Kept (lookup kind id db.rows) (lookup kind id s.1.rows)) (sym r.refused)
          (Kept-refl (lookup kind id db.rows))
  ]

  Kept-mark_seen_on_chain :
      (c : InclusionClaim) (db : Db)
      → Kept (lookup kind id db.rows) (
          lookup kind id
            (mark_seen_on_chain (record { prune_minted_premints = false }) c db).1.rows)
  Kept-mark_seen_on_chain c db = by_fault db.fault refl
    where
      by_fault :
          (o : Option String)
          → db.fault ≡ o
          → Kept (lookup kind id db.rows) (
              lookup kind id
                (mark_seen_on_chain (record { prune_minted_premints = false }) c db).1.rows)
      by_fault none h =
          subst (λ r. Kept (lookup kind id db.rows) (lookup kind id r.1.rows))
            (sym (mark-keep c db h))
            (subst (Kept (lookup kind id db.rows))
              (sym (lookup-set_seen_where (claimed_by c) kind id db.rows))
              (Kept-mark (claimed_by c) (lookup kind id db.rows)))
      by_fault (some e) h =
          subst (λ d. Kept (lookup kind id db.rows) (lookup kind id d.rows))
            (sym (mark-fault (record { prune_minted_premints = false }) c db e h))
            (Kept-refl (lookup kind id db.rows))

  -- While nothing is pruned, a key that has a row keeps one over any writes: the version never goes
  -- down, a mark stays, and signer, chain, token URI and creation time are those of the first row.
  pub Writes-Kept :
      {start db : Db}
      → Writes f j (record { prune_minted_premints = false }) start db
      → Kept (lookup kind id start.rows) (lookup kind id db.rows)
  Writes-Kept {start = start} begin = Kept-refl (lookup kind id start.rows)
  Writes-Kept {start = start} (stores {db = db} w p) =
      Kept-trans (lookup kind id start.rows) (lookup kind id db.rows) _ (Writes-Kept w)
        (Kept-store p db)
  Writes-Kept {start = start} (marks {db = db} w c) =
      Kept-trans (lookup kind id start.rows) (lookup kind id db.rows) _ (Writes-Kept w)
        (Kept-mark_seen_on_chain c db)
  Writes-Kept (elapses w now fault) = Writes-Kept w
