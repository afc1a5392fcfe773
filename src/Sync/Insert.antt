-- ===== src/Sync/Insert.antt =====
-- src/sync.rs: `get_or_create_child`, `Node::insert` and the methods of `TreeSet` that build a tree.
pub mod Upsert
pub mod Hashing
pub mod Order
pub mod Children
pub mod Paths
use mintpool.Prelude.{
  ℕ, zero, suc, ◌+◌, Bool, true, false, Option, none, some, List, [], ◌∷◌, Result, ok, err,
  if◌then◌else◌,
}
use Prim.Native.Nat.Ordering.{lt, eq, gt}
use mintpool.Prelude.Item.{Item}
use mintpool.Sync.Node.{
  Node, Nodes, node, nil, cons, value, level, default_node, update_hash, rehash,
}

-- One position further on, found or not.
abbrev pub shift : Result ℕ ℕ → Result ℕ ℕ
shift (ok p) = ok (suc p)
shift (err p) = err (suc p)

module _ {ℓ} {A : Type ℓ} where
  -- `Vec::insert`
  unfoldable pub insert_at : ℕ → Node A → Nodes A → Nodes A
  insert_at zero n cs = cons n cs
  insert_at (suc p) n nil = cons n nil
  insert_at (suc p) n (cons c cs) = cons c (insert_at p n cs)

  -- `self.children[position]` updated in place.
  unfoldable pub modify_at : ℕ → (Node A → Node A) → Nodes A → Nodes A
  modify_at p f nil = nil
  modify_at zero f (cons c cs) = cons (f c) cs
  modify_at (suc p) f (cons c cs) = cons c (modify_at p f cs)

  abbrev pub with_children : Node A → Nodes A → Node A
  with_children (node v l h m cs d) cs' = node v l h m cs' d

  abbrev pub with_dirty : Node A → Bool → Node A
  with_dirty (node v l h m cs d) d' = node v l h m cs d'

  abbrev pub with_value : Node A → A → Node A
  with_value (node v l h m cs d) v' = node v' l h m cs d

  abbrev pub with_manual : Node A → ℕ → Node A
  with_manual (node v l h m cs d) h' = node v l h' (some h') cs d

module _ {ℓ} {A : Type ℓ} ⦃i : Item A⦄ where
  -- `children.binary_search_by(|child| child.value.cmp(&value))` on children in ascending order: the
  -- position of the child, or the position at which it would be inserted.
  unfoldable pub binary_search : A → Nodes A → Result ℕ ℕ
  binary_search v nil = err 0
  binary_search v (cons c cs) =
      let later = shift (binary_search v cs) in
      elim (i.cmp (value c) v) [ lt ↦ later | eq ↦ ok 0 | gt ↦ err 0 ]

module _ {ℓ} {A : Type ℓ} ⦃i : Item A⦄ (xxh3 : List ℕ → ℕ) where
  -- The node that `get_or_create_child` makes for a value that has no child yet.
  unfoldable pub new_child : ℕ → A → Bool → Node A
  unfolding default_node update_hash
  new_child l v update =
      let fresh = node v (l + 1) 0 none nil true in if update then update_hash xxh3 fresh else fresh

  -- The children after the call, and the position of the child.
  unfoldable pub get_or_create_child : ℕ → Nodes A → A → Bool → Nodes A × ℕ
  unfolding new_child insert_at binary_search
  get_or_create_child l cs v update = elim (binary_search v cs) [
    | ok p ↦ (cs, p)
    | err p ↦ (insert_at p (new_child l v update) cs, p)
  ]

  -- What the last step of an insertion does to the child that it found or made.
  unfoldable pub settle : A → Option ℕ → Bool → Node A → Node A
  unfolding update_hash
  settle v (some h) update c = with_manual (with_value c v) h
  settle v none true c = update_hash xxh3 (with_value c v)
  settle v none false c = with_value c v

  -- `if update { self.update_hash() }`
  unfoldable pub finish : Bool → Node A → Node A
  unfolding update_hash
  finish update n = if update then update_hash xxh3 n else n

  -- One level of `Node::insert`: mark the node dirty, find or make the child for `key`, and apply
  -- `f` to it.
  unfoldable pub descend : A → Bool → (Node A → Node A) → Node A → Node A
  unfolding get_or_create_child modify_at finish
  descend key update f (node v l h m cs d) =
      let (cs', p) = get_or_create_child l cs key update in
      finish update (node v l h m (modify_at p f cs') true)

  unfoldable pub insert : List A → A → Option ℕ → Bool → Node A → Node A
  unfolding descend settle
  insert [] v h update n = descend v update (settle v h update) n
  insert (head ∷ tail) v h update n = descend head update (insert tail v h update) n
