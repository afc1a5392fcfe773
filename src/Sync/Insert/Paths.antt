-- ===== src/Sync/Insert/Paths.antt =====
-- Which paths a tree holds after an insertion (src/sync.rs).
use mintpool.Prelude.{
  ℕ, ◌≡◌, refl, sym, ap, ◌∙◌, Bool, true, false, ◌&&◌, ◌||◌, Option, none, some, List, [], ◌∷◌,
  ◌++◌, inl, inr, ◌⊎◌, Ordering-cases,
}
use Prim.Native.Nat.Ordering.{lt, eq, gt}
use mintpool.Prelude.Item.{Item, ◌=?◌, is_eq}
use mintpool.Sync.Node.{Node, node, nil, value, level, children}
use mintpool.Sync.Insert.{new_child, settle, descend, insert}
use mintpool.Sync.Insert.Upsert.{upsert, descend-upsert}
use mintpool.Sync.Insert.Order.{
  AreTrees, IsTree, finish-shape, new_child-shape, settle-shape, new_child-IsTree, insert-shape,
  IsTree-parts,
}
use mintpool.Sync.Insert.Children.{
  find_child-upsert_self, find_child-upsert_ne, find_child, found_or, find_child-nil,
  find_child-IsTree,
}

or-false : (b : Bool) → b ≡ b || false
or-false true = refl
or-false false = refl

module _ {ℓ} {A : Type ℓ} ⦃i : Item A⦄ where
  -- There is a node at `path` below the given node.
  unfoldable pub contains : List A → Node A → Bool
  contains [] n = true
  contains (x ∷ path) n = elim (find_child x (children n)) [
    | none ↦ false
    | some c ↦ contains path c
  ]

  abbrev pub contains_in : List A → Option (Node A) → Bool
  contains_in path none = false
  contains_in path (some c) = contains path c

  contains-cons :
      (x : A) (path : List A) (n : Node A)
      → contains (x ∷ path) n ≡ contains_in path (find_child x (children n))
  unfolding contains
  contains-cons x path n = go (find_child x (children n)) refl
    where
      go :
          (o : Option (Node A))
          → find_child x (children n) ≡ o
          → contains (x ∷ path) n ≡ contains_in path (find_child x (children n))
      go none e = rw (e, contains)
      go (some c) e = rw (e, contains)

  abbrev pub is_prefix : List A → List A → Bool
  is_prefix [] ys = true
  is_prefix (x ∷ xs) [] = false
  is_prefix (x ∷ xs) (y ∷ ys) = y =? x && is_prefix xs ys

module _ {ℓ} {A : Type ℓ} ⦃i : Item A⦄ (xxh3 : List ℕ → ℕ) where
  children-descend :
      (key : A) (u : Bool) (f : Node A → Node A) (n : Node A)
      → children (descend xxh3 key u f n)
        ≡ upsert key (new_child xxh3 (level n) key u) f (children n)
  children-descend key u f (node v l h m cs d) =
      ap children (descend-upsert xxh3 key u f v l h m cs d)
      ∙ (finish-shape xxh3 u (node v l h m (upsert key (new_child xxh3 l key u) f cs) true)).2

  module _ (f : Node A → Node A) (g : List A → Bool)
      (more : (q : List A) (c : Node A) → IsTree c → contains q (f c) ≡ contains q c || g q)
      (start : g [] ≡ true) where
    contains_in-found_or :
        (q : List A) (o : Option (Node A)) (fresh : Node A)
        → ((c : Node A) → o ≡ some c → IsTree c)
        → IsTree fresh
        → children fresh ≡ nil
        → contains q (f (found_or o fresh)) ≡ contains_in q o || g q
    unfolding contains
    contains_in-found_or q (some c) fresh t tf e = more q c (t c refl)
    contains_in-found_or [] none fresh t tf e = more [] fresh tf ∙ sym start
    contains_in-found_or (y ∷ q) none fresh t tf e =
        more (y ∷ q) fresh tf
        ∙ ap (λ b. b || g (y ∷ q))
            (contains-cons y q fresh
              ∙ ap (λ cs. contains_in q (find_child y cs)) e
              ∙ ap (contains_in q) (find_child-nil y))

    -- One level: the paths through `key` gain those that `g` accepts.
    contains-descend :
        (key : A) (u : Bool) (n : Node A)
        → ((c : Node A) → value c ≡ key → value (f c) ≡ key)
        → IsTree n
        → (x : A) (q : List A)
        → contains (x ∷ q) (descend xxh3 key u f n) ≡ contains (x ∷ q) n || (key =? x && g q)
    contains-descend key u n keep t x q =
        contains-cons x q (descend xxh3 key u f n)
        ∙ ap (λ cs. contains_in q (find_child x cs)) (children-descend key u f n)
        ∙ split (Ordering-cases (i.cmp key x))
        ∙ ap (λ b. b || (key =? x && g q)) (sym (contains-cons x q n))
      where
        fresh : Node A
        fresh = new_child xxh3 (level n) key u

        made : value fresh ≡ key
        made = (new_child-shape xxh3 (level n) key u).0

        ts : AreTrees (level n) (children n)
        ts = IsTree-parts n t

        at_key :
            contains_in q (find_child key (upsert key fresh f (children n)))
            ≡ contains_in q (find_child key (children n)) || g q
        at_key =
            ap (contains_in q)
              (find_child-upsert_self (level n) key fresh f made keep (children n) ts)
            ∙ contains_in-found_or q (find_child key (children n)) fresh
                (λ c e. find_child-IsTree (level n) key (children n) c ts e)
                (new_child-IsTree xxh3 (level n) key u) (new_child-shape xxh3 (level n) key u).2

        elsewhere :
            (key =? x) ≡ false
            → contains_in q (find_child x (upsert key fresh f (children n)))
              ≡ contains_in q (find_child x (children n)) || (key =? x && g q)
        elsewhere e =
            ap (contains_in q)
              (find_child-upsert_ne (level n) key fresh f made keep x (children n) e)
            ∙ rw e (or-false (contains_in q (find_child x (children n))))

        split :
            (i.cmp key x ≡ lt) ⊎ ((i.cmp key x ≡ eq) ⊎ (i.cmp key x ≡ gt))
            → contains_in q (find_child x (upsert key fresh f (children n)))
              ≡ contains_in q (find_child x (children n)) || (key =? x && g q)
        split (inl o) = elsewhere (ap is_eq o)
        split (inr (inl o)) = rw (o, ← i.cmp_eq key x o) at_key
        split (inr (inr o)) = elsewhere (ap is_eq o)

  contains-settle :
      (v : A) (h : Option ℕ) (u : Bool) (q : List A) (c : Node A)
      → contains q (settle xxh3 v h u c) ≡ contains q c || is_prefix q []
  unfolding contains
  contains-settle v h u [] c = refl
  contains-settle v h u (x ∷ q) c =
      contains-cons x q (settle xxh3 v h u c)
      ∙ ap (λ cs. contains_in q (find_child x cs)) (settle-shape xxh3 v h u c).2
      ∙ sym (contains-cons x q c)
      ∙ or-false (contains (x ∷ q) c)

  -- After an insertion an ordered tree holds exactly the paths that it held, and those on the way to
  -- the new node.
  pub contains-insert :
      (path : List A) (v : A) (h : Option ℕ) (u : Bool) (n : Node A) (q : List A)
      → IsTree n
      → contains q (insert xxh3 path v h u n) ≡ contains q n || is_prefix q (path ++ v ∷ [])
  unfolding insert contains
  contains-insert [] v h u n [] t = refl
  contains-insert (y ∷ path) v h u n [] t = refl
  contains-insert [] v h u n (x ∷ q) t =
      contains-descend (settle xxh3 v h u) (λ q. is_prefix q [])
        (λ q c _. contains-settle v h u q c) refl v u n (λ c _. (settle-shape xxh3 v h u c).0) t x q
  contains-insert (y ∷ path) v h u n (x ∷ q) t =
      contains-descend (insert xxh3 path v h u) (λ q. is_prefix q (path ++ v ∷ []))
        (λ q c tc. contains-insert path v h u c q tc) refl y u n
        (λ c e. (insert-shape xxh3 path v h u c).0 ∙ e) t x q
