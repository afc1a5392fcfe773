-- ===== src/Sync/TreeSet.antt =====
-- src/sync.rs: `TreeSet`, `Visit`, `prefix_match`, the visitor, `leafs`, `extract` and `diff`.
pub mod Leafs
pub mod Laws
use mintpool.Prelude.{
  ℕ, zero, suc, ◌+◌, Bool, true, false, Option, none, some, List, [], ◌∷◌, ◌++◌, ◌&&◌, ◌||◌, not,
  length, ltb, min, take, if◌then◌else◌,
}
use mintpool.Prelude.Item.{Item, ◌=?◌}
use mintpool.Sync.Node.{
  Node, Nodes, node, nil, cons, value, level, hash, children, default_node, rehash,
}
use mintpool.Sync.Insert
use mintpool.Sync.Diff.{Diff, diff_children}

pub data Visit : Type 0 where
  continue skip stop : Visit

pub record TreeSet {ℓ} (A : Type ℓ) : Type ℓ where
  pub root : Node A

-- The closure that visits a node: its captured state, the path to the node, and the node.
abbrev pub Visitor {ℓ κ} : Type ℓ → Type κ → Type (ℓ ⊔ κ)
Visitor A S = S → List A → Node A → Visit × S

module _ {κ} {S : Type κ} where
  abbrev into_children : Visit → Visit × S → (S → Visit × S) → Visit × S
  into_children continue r f = f r.1
  into_children skip r f = r
  into_children stop r f = r

  -- `Visit::Stop` returns at once, anything else goes on with the next child.
  abbrev next_child : Visit → Visit × S → (S → Visit × S) → Visit × S
  next_child stop r f = (stop, r.1)
  next_child continue r f = f r.1
  next_child skip r f = f r.1

module _ {ℓ κ} {A : Type ℓ} {S : Type κ} where
  unfoldable mutual
    pub visit : Visitor A S → List A → Node A → S → Visit × S
    visit fun path (node v l h m cs d) s =
        let r = fun s path (node v l h m cs d) in
        into_children r.0 r (visit_children fun (path ++ v ∷ []) cs)

    pub visit_children : Visitor A S → List A → Nodes A → S → Visit × S
    visit_children fun path nil s = (continue, s)
    visit_children fun path (cons c cs) s =
        let r = visit fun path c s in next_child r.0 r (visit_children fun path cs)

  -- `TreeSet::visit`
  unfoldable pub visit_tree : Visitor A S → TreeSet A → S → S
  unfolding visit
  visit_tree fun t s = (visit_children fun [] (children t.root) s).1

module _ {ℓ} {A : Type ℓ} where
  abbrev pub is_empty : Nodes A → Bool
  is_empty nil = true
  is_empty (cons c cs) = false

  abbrev pub is_nil : List A → Bool
  is_nil [] = true
  is_nil (x ∷ xs) = false

module _ {ℓ} {A : Type ℓ} ⦃i : Item A⦄ where
  -- Equality of slices.
  abbrev pub slice_eq : List A → List A → Bool
  slice_eq [] [] = true
  slice_eq [] (y ∷ ys) = false
  slice_eq (x ∷ xs) [] = false
  slice_eq (x ∷ xs) (y ∷ ys) = x =? y && slice_eq xs ys

  unfoldable pub prefix_match : List A → List A → Node A → Bool
  prefix_match prefix path n =
      if is_nil prefix || is_nil path
      then true
      else let full_path = path ++ value n ∷ [] in
        let check_prefix_len = min (length full_path) (length prefix) in
        slice_eq (take check_prefix_len full_path) (take check_prefix_len prefix)

  -- The closure of `leafs`; its state is the list of leafs.
  unfoldable pub leafs_visitor : List A → Visitor A (List A)
  unfolding prefix_match
  leafs_visitor prefix leafs path n =
      if not (prefix_match prefix path n)
      then (skip, leafs)
      else (continue, if is_empty (children n) then leafs ++ value n ∷ [] else leafs)

  unfoldable pub leafs : List A → TreeSet A → List A
  unfolding leafs_visitor visit_tree
  leafs prefix t = visit_tree (leafs_visitor prefix) t []

  unfoldable pub new : TreeSet A
  unfolding default_node
  new = record { root = default_node }

  unfoldable pub diff : TreeSet A → TreeSet A → List (Diff A)
  unfolding diff_children
  diff t other = diff_children [] (children t.root) (children other.root)

module _ {ℓ} {A : Type ℓ} ⦃i : Item A⦄ (xxh3 : List ℕ → ℕ) where
  unfoldable pub rehash_tree : TreeSet A → TreeSet A
  unfolding rehash
  rehash_tree t = record { root = rehash xxh3 t.root }

  unfoldable pub insert : List A → A → TreeSet A → TreeSet A
  unfolding Insert.insert
  insert path v t = record { root = Insert.insert xxh3 path v none false t.root }

  unfoldable pub insert_update : List A → A → TreeSet A → TreeSet A
  unfolding Insert.insert
  insert_update path v t = record { root = Insert.insert xxh3 path v none true t.root }

  unfoldable pub insert_with_hash_update : List A → A → ℕ → TreeSet A → TreeSet A
  unfolding Insert.insert
  insert_with_hash_update path v h t = record {
    root = Insert.insert xxh3 path v (some h) true t.root;
  }

  unfoldable pub insert_with_hash : List A → A → ℕ → TreeSet A → TreeSet A
  unfolding Insert.insert
  insert_with_hash path v h t = record { root = Insert.insert xxh3 path v (some h) false t.root }

  -- The closure of `extract`; its state is the sparse tree.
  unfoldable pub extract_visitor : List A → ℕ → Visitor A (TreeSet A)
  unfolding prefix_match insert_with_hash
  extract_visitor prefix max_len sparse path n =
      if not (prefix_match prefix path n) || ltb max_len (length path + 1)
      then (skip, sparse)
      else (continue, insert_with_hash path (value n) (hash n) sparse)

  unfoldable pub extract : List A → ℕ → TreeSet A → TreeSet A
  unfolding extract_visitor visit_tree new
  extract prefix depth t = visit_tree (extract_visitor prefix (length prefix + depth)) t new

  unfoldable pub extract_root : ℕ → TreeSet A → TreeSet A
  unfolding extract
  extract_root depth = extract [] depth
