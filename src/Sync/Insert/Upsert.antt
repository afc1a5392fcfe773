-- ===== src/Sync/Insert/Upsert.antt =====
-- One level of `Node::insert` (src/sync.rs) as a single recursion over the children, in place of a
-- search for a position and an access at that position.
use mintpool.Prelude.{ℕ, ◌≡◌, refl, ap, ◌∙◌, Bool, List, Result, ok, err, inl, inr, Ordering-cases}
use Prim.Native.Nat.Ordering.{lt, eq, gt}
use mintpool.Prelude.Item.{Item}
use mintpool.Sync.Node.{Node, Nodes, node, nil, cons, value}
use mintpool.Sync.Insert.{
  insert_at, modify_at, shift, binary_search, new_child, get_or_create_child, finish, descend,
}

module _ {ℓ} {A : Type ℓ} where
  abbrev placed : Result ℕ ℕ → Node A → (Node A → Node A) → Nodes A → Nodes A
  placed (ok p) fresh f cs = modify_at p f cs
  placed (err p) fresh f cs = modify_at p f (insert_at p fresh cs)

  placed-shift :
      (r : Result ℕ ℕ) (fresh c : Node A) (f : Node A → Node A) (cs : Nodes A)
      → placed (shift r) fresh f (cons c cs) ≡ cons c (placed r fresh f cs)
  unfolding insert_at modify_at
  placed-shift (ok p) fresh c f cs = refl
  placed-shift (err p) fresh c f cs = refl

module _ {ℓ} {A : Type ℓ} ⦃i : Item A⦄ where
  -- Update the child for `key` by `f`, or put `f fresh` where it belongs.
  unfoldable pub upsert : A → Node A → (Node A → Node A) → Nodes A → Nodes A
  upsert key fresh f nil = cons (f fresh) nil
  upsert key fresh f (cons c cs) =
      let later = cons c (upsert key fresh f cs) in
      elim (i.cmp (value c) key) [
        | lt ↦ later
        | eq ↦ cons (f c) cs
        | gt ↦ cons (f fresh) (cons c cs)
      ]

  module _ (key : A) (fresh : Node A) (f : Node A → Node A) (c : Node A) (cs : Nodes A) where
    pub upsert-lt :
        i.cmp (value c) key ≡ lt → upsert key fresh f (cons c cs) ≡ cons c (upsert key fresh f cs)
    unfolding upsert
    upsert-lt e = rw (e, upsert)

    pub upsert-eq : i.cmp (value c) key ≡ eq → upsert key fresh f (cons c cs) ≡ cons (f c) cs
    unfolding upsert
    upsert-eq e = rw (e, upsert)

    pub upsert-gt :
        i.cmp (value c) key ≡ gt → upsert key fresh f (cons c cs) ≡ cons (f fresh) (cons c cs)
    unfolding upsert
    upsert-gt e = rw (e, upsert)

  placed-upsert :
      (key : A) (fresh : Node A) (f : Node A → Node A) (cs : Nodes A)
      → placed (binary_search key cs) fresh f cs ≡ upsert key fresh f cs
  unfolding binary_search insert_at modify_at upsert
  placed-upsert key fresh f nil = refl
  placed-upsert key fresh f (cons c cs) = elim (Ordering-cases (i.cmp (value c) key)) [
    | inl e ↦
        rw (e, binary_search, upsert)
          (placed-shift (binary_search key cs) fresh c f cs
            ∙ ap (cons c) (placed-upsert key fresh f cs))
    | inr (inl e) ↦ rw (e, binary_search, upsert)
    | inr (inr e) ↦ rw (e, binary_search, upsert)
  ]

module _ {ℓ} {A : Type ℓ} ⦃i : Item A⦄ (xxh3 : List ℕ → ℕ) where
  created-placed :
      (r : Result ℕ ℕ) (l : ℕ) (cs : Nodes A) (key : A) (u : Bool) (f : Node A → Node A)
      → binary_search key cs ≡ r
      → (let (cs', p) = get_or_create_child xxh3 l cs key u in modify_at p f cs')
        ≡ placed r (new_child xxh3 l key u) f cs
  unfolding get_or_create_child
  created-placed (ok p) l cs key u f e = rw (e, get_or_create_child)
  created-placed (err p) l cs key u f e = rw (e, get_or_create_child)

  pub descend-upsert :
      (key : A) (u : Bool) (f : Node A → Node A) (v : A) (l h : ℕ) (m : _) (cs : Nodes A) (d : Bool)
      → descend xxh3 key u f (node v l h m cs d)
        ≡ finish xxh3 u (node v l h m (upsert key (new_child xxh3 l key u) f cs) Bool.true)
  unfolding descend
  descend-upsert key u f v l h m cs d =
      ap (λ cs'. finish xxh3 u (node v l h m cs' Bool.true))
        (created-placed (binary_search key cs) l cs key u f refl
          ∙ placed-upsert key (new_child xxh3 l key u) f cs)
