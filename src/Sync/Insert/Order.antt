-- ===== src/Sync/Insert/Order.antt =====
-- The shape of the trees that `insert` builds (src/sync.rs): children in strictly ascending order of
-- their values, each one level below its parent.
use mintpool.Prelude.{
  ℕ, ◌+◌, ◌≡◌, refl, sym, ◌∙◌, subst, Bool, true, false, Option, none, some, List, [], ◌∷◌, inl,
  inr, Ordering-cases,
}
use mintpool.Prelude.Item.{Item, ◌≺◌}
use mintpool.Sync.Node.{Node, Nodes, node, nil, cons, value, level, children, update_hash}
use mintpool.Sync.Insert.{new_child, settle, finish, descend, insert}
use mintpool.Sync.Insert.Upsert.{upsert, upsert-lt, upsert-eq, upsert-gt, descend-upsert}

module _ {ℓ} {A : Type ℓ} ⦃i : Item A⦄ where
  -- Every node of the list has a value above `a`.
  abbrev pub Above : A → Nodes A → Type 0
  Above a nil = Unit
  Above a (cons c cs) = (a ≺ value c) × Above a cs

  abbrev mutual
    pub IsTree : Node A → Type 0
    IsTree (node v l h m cs d) = AreTrees l cs

    pub AreTrees : ℕ → Nodes A → Type 0
    AreTrees l nil = Unit
    AreTrees l (cons c cs) = (level c ≡ l + 1) × IsTree c × Above (value c) cs × AreTrees l cs

  pub IsTree-parts : (n : Node A) → IsTree n → AreTrees (level n) (children n)
  IsTree-parts (node v l h m cs d) t = t

  IsTree-of_parts : (n : Node A) → AreTrees (level n) (children n) → IsTree n
  IsTree-of_parts (node v l h m cs d) t = t

  pub Above-trans : (a b : A) (cs : Nodes A) → a ≺ b → Above b cs → Above a cs
  Above-trans a b nil h k = tt
  Above-trans a b (cons c cs) h k = (i.cmp_trans a b (value c) h k.0, Above-trans a b cs h k.1)

  -- What `f` is asked to do to a child for `key` at level `l + 1`.
  pub record Keeps (l : ℕ) (key : A) (f : Node A → Node A) : Type ℓ where
    pub keeps_value : (c : Node A) → value c ≡ key → value (f c) ≡ key
    pub keeps_level : (c : Node A) → level (f c) ≡ level c
    pub keeps_tree : (c : Node A) → IsTree c → IsTree (f c)

  Above-upsert :
      (a key : A) (fresh : Node A) (f : Node A → Node A) (cs : Nodes A) {l : ℕ}
      → Keeps l key f
      → value fresh ≡ key
      → a ≺ key
      → Above a cs
      → Above a (upsert key fresh f cs)
  unfolding upsert
  Above-upsert a key fresh f nil k e h b = (rw (k.keeps_value fresh e) h, tt)
  Above-upsert a key fresh f (cons c cs) k e h b = elim (Ordering-cases (i.cmp (value c) key)) [
    | inl o ↦ rw (upsert-lt key fresh f c cs o) (b.0, Above-upsert a key fresh f cs k e h b.1)
    | inr (inl o) ↦ rw (upsert-eq key fresh f c cs o) (rw (k.keeps_value c (i.cmp_eq _ _ o)) h, b.1)
    | inr (inr o) ↦ rw (upsert-gt key fresh f c cs o) (rw (k.keeps_value fresh e) h, b)
  ]

  pub AreTrees-upsert :
      (l : ℕ) (key : A) (fresh : Node A) (f : Node A → Node A) (cs : Nodes A)
      → Keeps l key f
      → value fresh ≡ key
      → level fresh ≡ l + 1
      → IsTree fresh
      → AreTrees l cs
      → AreTrees l (upsert key fresh f cs)
  unfolding upsert
  AreTrees-upsert l key fresh f nil k e el t b =
      (k.keeps_level fresh ∙ el, k.keeps_tree fresh t, tt, tt)
  AreTrees-upsert l key fresh f (cons c cs) k e el t b =
      elim (Ordering-cases (i.cmp (value c) key)) [
        | inl o ↦ rw (upsert-lt key fresh f c cs o) (
          b.0,
          b.1,
          Above-upsert (value c) key fresh f cs k e o b.2,
          AreTrees-upsert l key fresh f cs k e el t b.3,
        )
        | inr (inl o) ↦
            let same = i.cmp_eq _ _ o in
            rw (upsert-eq key fresh f c cs o) (
              k.keeps_level c ∙ b.0,
              k.keeps_tree c b.1,
              subst (λ x. Above x cs) (same ∙ sym (k.keeps_value c same)) b.2,
              b.3,
            )
        | inr (inr o) ↦
            let below : key ≺ value c = i.cmp_gt _ _ o in
            rw (upsert-gt key fresh f c cs o) (
              k.keeps_level fresh ∙ el,
              k.keeps_tree fresh t,
              subst (λ x. Above x (cons c cs)) (sym (k.keeps_value fresh e))
                  (below, Above-trans key (value c) cs below b.2),
              b,
            )
      ]

module _ {ℓ} {A : Type ℓ} ⦃i : Item A⦄ (xxh3 : List ℕ → ℕ) where
  pub finish-shape :
      (u : Bool) (n : Node A)
      → (value (finish xxh3 u n) ≡ value n)
        × (level (finish xxh3 u n) ≡ level n)
        × (children (finish xxh3 u n) ≡ children n)
  unfolding finish update_hash
  finish-shape false n = (refl, refl, refl)
  finish-shape true (node v l h (some m) cs d) = (refl, refl, refl)
  finish-shape true (node v l h none cs true) = (refl, refl, refl)
  finish-shape true (node v l h none cs false) = (refl, refl, refl)

  finish-IsTree : (u : Bool) (n : Node A) → IsTree n → IsTree (finish xxh3 u n)
  finish-IsTree u n t =
      IsTree-of_parts (finish xxh3 u n)
        (rw (finish-shape u n).1 (rw (finish-shape u n).2 (IsTree-parts n t)))

  pub new_child-shape :
      (l : ℕ) (v : A) (u : Bool)
      → (value (new_child xxh3 l v u) ≡ v)
        × (level (new_child xxh3 l v u) ≡ l + 1)
        × (children (new_child xxh3 l v u) ≡ nil)
  unfolding new_child update_hash
  new_child-shape l v true = (refl, refl, refl)
  new_child-shape l v false = (refl, refl, refl)

  pub new_child-IsTree : (l : ℕ) (v : A) (u : Bool) → IsTree (new_child xxh3 l v u)
  new_child-IsTree l v u = IsTree-of_parts _ (rw (new_child-shape l v u).2 tt)

  pub settle-shape :
      (v : A) (h : Option ℕ) (u : Bool) (c : Node A)
      → (value (settle xxh3 v h u c) ≡ v)
        × (level (settle xxh3 v h u c) ≡ level c)
        × (children (settle xxh3 v h u c) ≡ children c)
  unfolding settle update_hash
  settle-shape v (some k) u (node w l h m cs d) = (refl, refl, refl)
  settle-shape v none false (node w l h m cs d) = (refl, refl, refl)
  settle-shape v none true (node w l h (some m) cs d) = (refl, refl, refl)
  settle-shape v none true (node w l h none cs true) = (refl, refl, refl)
  settle-shape v none true (node w l h none cs false) = (refl, refl, refl)

  settle-Keeps : (l : ℕ) (v : A) (h : Option ℕ) (u : Bool) → Keeps l v (settle xxh3 v h u)
  settle-Keeps l v h u = record {
    keeps_value = λ c _. (settle-shape v h u c).0;
    keeps_level = λ c. (settle-shape v h u c).1;
    keeps_tree = λ c t.
        IsTree-of_parts _
          (rw (settle-shape v h u c).1 (rw (settle-shape v h u c).2 (IsTree-parts c t)));
  }

  descend-shape :
      (key : A) (u : Bool) (f : Node A → Node A) (n : Node A)
      → (value (descend xxh3 key u f n) ≡ value n) × (level (descend xxh3 key u f n) ≡ level n)
  descend-shape key u f (node v l h m cs d) = rw (descend-upsert xxh3 key u f v l h m cs d) (
    (finish-shape u (node v l h m (upsert key (new_child xxh3 l key u) f cs) true)).0,
    (finish-shape u (node v l h m (upsert key (new_child xxh3 l key u) f cs) true)).1,
  )

  descend-IsTree :
      (key : A) (u : Bool) (f : Node A → Node A) (n : Node A)
      → Keeps (level n) key f
      → IsTree n
      → IsTree (descend xxh3 key u f n)
  descend-IsTree key u f (node v l h m cs d) k t =
      let fresh = new_child xxh3 l key u in
      rw (descend-upsert xxh3 key u f v l h m cs d) (
        finish-IsTree u (node v l h m (upsert key fresh f cs) true) (
          AreTrees-upsert l key fresh f cs k (new_child-shape l key u).0 (new_child-shape l key u).1
            (new_child-IsTree l key u) t))

  pub insert-shape :
      (path : List A) (v : A) (h : Option ℕ) (u : Bool) (n : Node A)
      → (value (insert xxh3 path v h u n) ≡ value n) × (level (insert xxh3 path v h u n) ≡ level n)
  unfolding insert
  insert-shape [] v h u n = descend-shape v u (settle xxh3 v h u) n
  insert-shape (x ∷ path) v h u n = descend-shape x u (insert xxh3 path v h u) n

  -- Whatever is inserted into an ordered tree, children stay in strictly ascending order, one level
  -- below their parent.
  pub insert-IsTree :
      (path : List A) (v : A) (h : Option ℕ) (u : Bool) (n : Node A)
      → IsTree n
      → IsTree (insert xxh3 path v h u n)
  unfolding insert
  insert-IsTree [] v h u n t =
      descend-IsTree v u (settle xxh3 v h u) n (settle-Keeps (level n) v h u) t
  insert-IsTree (x ∷ path) v h u n t =
      descend-IsTree x u (insert xxh3 path v h u) n
        (record {
          keeps_value = λ c e. (insert-shape path v h u c).0 ∙ e;
          keeps_level = λ c. (insert-shape path v h u c).1;
          keeps_tree = λ c. insert-IsTree path v h u c;
        })
        t
