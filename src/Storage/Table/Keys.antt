-- ===== src/Storage/Table/Keys.antt =====
-- The table of src/storage.rs as a map from its primary key: what an insertion does to it.
use mintpool.Prelude.{
  ℕ, ◌≡◌, refl, sym, ◌∙◌, String, true, false, List, [], ◌∷◌, Option, none, some, eq_iff,
  if◌then◌else◌, inl, inr, Bool-cases, arith,
}
use mintpool.Prelude.Int.{ltb_ℤ}
use mintpool.Storage.Table.{Row, is_key, lookup, update_row, upsert}

-- What an insertion leaves under the key of the new row.
abbrev pub newer : Row → Option Row → Row
newer x none = x
newer x (some r) = if ltb_ℤ r.version x.version then update_row x r else r

-- The number of rows it affects.
abbrev pub affected : Row → Option Row → ℕ
affected x none = 1
affected x (some r) = if ltb_ℤ r.version x.version then 1 else 0

abbrev pub HasUniqueKeys : List Row → Type 0
HasUniqueKeys [] = Unit
HasUniqueKeys (r ∷ rs) = (lookup r.kind r.id rs ≡ none) × HasUniqueKeys rs

pub is_key-true :
    (kind id : String) (r : Row) → is_key kind id r ≡ true → (r.kind ≡ kind) × (r.id ≡ id)
is_key-true kind id r h = ground (arith, eq_iff r.kind kind, eq_iff r.id id)

pub is_key_intro :
    (kind id : String) (r : Row) → r.kind ≡ kind → r.id ≡ id → is_key kind id r ≡ true
is_key_intro kind id r h k = ground (arith, eq_iff r.kind kind, eq_iff r.id id)

pub is_key_refl : (r : Row) → is_key r.kind r.id r ≡ true
is_key_refl r = is_key_intro r.kind r.id r refl refl

-- A row found under a key has that key.
pub lookup-key :
    (kind id : String) (rows : List Row) (r : Row)
    → lookup kind id rows ≡ some r
    → is_key kind id r ≡ true
lookup-key kind id [] r h = cc h
lookup-key kind id (x ∷ rows) r h = elim (Bool-cases (is_key kind id x)) [
  | inl hit ↦ cc (rw hit at h, hit)
  | inr miss ↦ lookup-key kind id rows r (rw miss at h)
]

pub upsert-affected :
    (x : Row) (rows : List Row) → (upsert x rows).1 ≡ affected x (lookup x.kind x.id rows)
unfolding upsert
upsert-affected x [] = refl
upsert-affected x (r ∷ rs) = elim (Bool-cases (is_key x.kind x.id r)) [
  | inl hit ↦ elim (Bool-cases (ltb_ℤ r.version x.version)) [
    | inl up ↦ rw (hit, up)
    | inr same ↦ rw (hit, same)
  ]
  | inr miss ↦ rw (miss, upsert-affected x rs)
]

-- A statement that affects no row changes none.
pub upsert-unaffected :
    (x : Row) (rows : List Row) → (upsert x rows).1 ≡ 0 → (upsert x rows).0 ≡ rows
unfolding upsert
upsert-unaffected x [] h = absurd (omega (arith, h))
upsert-unaffected x (r ∷ rs) h = elim (Bool-cases (is_key x.kind x.id r)) [
  | inl hit ↦ elim (Bool-cases (ltb_ℤ r.version x.version)) [
    | inl up ↦ absurd (omega (arith, rw (hit, up) at h))
    | inr same ↦ rw (hit, same)
  ]
  | inr miss ↦ rw (miss, upsert-unaffected x rs (rw miss at h))
]

-- A row with the key of another has it for every query.
same_key :
    (x : Row) (kind id : String) (r : Row)
    → is_key x.kind x.id r ≡ true
    → is_key kind id r ≡ is_key kind id x
same_key x kind id r h = let e = is_key-true x.kind x.id r h in rw (e.0, e.1)

other_key :
    (x : Row) (kind id : String) (r : Row)
    → is_key kind id r ≡ true
    → is_key x.kind x.id r ≡ false
    → is_key kind id x ≡ false
other_key x kind id r here miss = elim (Bool-cases (is_key kind id x)) [
  | inl k ↦
      let e = is_key-true kind id r here in
      let e' = is_key-true kind id x k in
      absurd (cc (is_key_intro x.kind x.id r (e.0 ∙ sym e'.0) (e.1 ∙ sym e'.1), miss))
  | inr k ↦ k
]

lookup-upsert_hit :
    (x : Row) (kind id : String) (r : Row) (rs : List Row)
    → is_key x.kind x.id r ≡ true
    → lookup kind id (upsert x (r ∷ rs)).0 ≡ (
        if is_key kind id x
        then some (newer x (lookup kind id (r ∷ rs)))
        else lookup kind id (r ∷ rs))
unfolding upsert
lookup-upsert_hit x kind id r rs hit =
    let same = same_key x kind id r hit in
    elim (Bool-cases (is_key kind id x)) [
      | inl k ↦ elim (Bool-cases (ltb_ℤ r.version x.version)) [
        | inl up ↦ rw (hit, up, same ∙ k, k, up)
        | inr low ↦ rw (hit, low, same ∙ k, k, low)
      ]
      | inr k ↦ elim (Bool-cases (ltb_ℤ r.version x.version)) [
        | inl up ↦ rw (hit, up, same ∙ k, k)
        | inr low ↦ rw (hit, low, same ∙ k, k)
      ]
    ]

pub lookup-upsert :
    (x : Row) (kind id : String) (rows : List Row)
    → lookup kind id (upsert x rows).0
      ≡ (if is_key kind id x then some (newer x (lookup kind id rows)) else lookup kind id rows)
unfolding upsert
lookup-upsert x kind id [] = elim (Bool-cases (is_key kind id x)) [
  | inl hit ↦ rw hit
  | inr miss ↦ rw miss
]
lookup-upsert x kind id (r ∷ rs) = elim (Bool-cases (is_key x.kind x.id r)) [
  | inl hit ↦ lookup-upsert_hit x kind id r rs hit
  | inr miss ↦ elim (Bool-cases (is_key kind id r)) [
    | inl here ↦ rw (miss, here, other_key x kind id r here miss)
    | inr there ↦ rw (miss, there) (lookup-upsert x kind id rs)
  ]
]

upsert-fresh :
    (x r : Row) (rs : List Row)
    → is_key x.kind x.id r ≡ false
    → lookup r.kind r.id rs ≡ none
    → lookup r.kind r.id (upsert x rs).0 ≡ none
upsert-fresh x r rs miss h =
    lookup-upsert x r.kind r.id rs ∙ rw (other_key x r.kind r.id r (is_key_refl r) miss, h)

pub upsert-HasUniqueKeys :
    (x : Row) (rows : List Row) → HasUniqueKeys rows → HasUniqueKeys (upsert x rows).0
unfolding upsert
upsert-HasUniqueKeys x [] u = (refl, tt)
upsert-HasUniqueKeys x (r ∷ rs) u = elim (Bool-cases (is_key x.kind x.id r)) [
  | inl hit ↦ elim (Bool-cases (ltb_ℤ r.version x.version)) [
    | inl up ↦ rw (hit, up) u
    | inr low ↦ rw (hit, low) u
  ]
  | inr miss ↦ rw miss (upsert-fresh x r rs miss u.0, upsert-HasUniqueKeys x rs u.1)
]
