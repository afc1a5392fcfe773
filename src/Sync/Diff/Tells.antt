-- ===== src/Sync/Diff/Tells.antt =====
-- What an entry of `Node::diff` (src/sync.rs) tells of two trees, and telling it one level up.
use mintpool.Prelude.{
  ◌≡◌, ◌≢◌, refl, sym, ap, ◌∙◌, Option, none, some, List, [], ◌∷◌, ◌++◌, inl, inr, Bool-cases,
  subst, append_assoc,
}
use mintpool.Prelude.Item.{Item, ◌≺◌, ◌=?◌, is_eq, of_is_eq}
use mintpool.Sync.Node.{Node, Nodes, nil, cons, value, hash, children}
use mintpool.Sync.Insert.Order.{Above}
use mintpool.Sync.Insert.Children.{find_child, find_child-hit, find_child-miss}
use mintpool.Sync.Diff.{Diff, missing_self, missing_other, hash_mismatch}
use mintpool.Sync.Diff.Laws.{signature}

module _ {ℓ} {A : Type ℓ} ⦃i : Item A⦄ where
  -- The node at a path, its first step and the rest, below a list of children.
  abbrev pub step_into : (Nodes A → Option (Node A)) → Option (Node A) → Option (Node A)
  step_into f none = none
  step_into f (some c) = f (children c)

  unfoldable pub look : A → List A → Nodes A → Option (Node A)
  look k [] cs = find_child k cs
  look k (y ∷ q) cs = step_into (look y q) (find_child k cs)

  look-found :
      (k : A) (q : List A) (cs ds : Nodes A)
      → find_child k cs ≡ find_child k ds
      → look k q cs ≡ look k q ds
  unfolding look
  look-found k [] cs ds e = e
  look-found k (y ∷ q) cs ds e = ap (step_into (look y q)) e

  pub look-absent :
      (k : A) (q : List A) (cs : Nodes A) → find_child k cs ≡ none → look k q cs ≡ none
  unfolding look
  look-absent k [] cs e = e
  look-absent k (y ∷ q) cs e = ap (step_into (look y q)) e

  pub look-above :
      (a k : A) (q : List A) (cs : Nodes A) {c : Node A} → Above a cs → look k q cs ≡ some c → a ≺ k
  unfolding find_child
  look-above a k q nil b e = cc (look-absent k q nil refl)
  look-above a k q (cons d cs) b e = elim (Bool-cases (value d =? k)) [
    | inl hit ↦ subst (λ w. a ≺ w) (i.cmp_eq _ _ (of_is_eq hit)) b.0
    | inr miss ↦
        look-above a k q cs b.1
          (sym (look-found k q (cons d cs) cs (find_child-miss k d cs miss)) ∙ e)
  ]

  -- What an entry below `path` says of the two lists of children.
  abbrev pub Tells : List A → Nodes A → Nodes A → Diff A → Type ℓ
  Tells path xs ys (missing_other p) =
      (k : A) × (q : List A) × (c : Node A) × (p ≡ path ++ k ∷ q)
      × (look k q xs ≡ some c)
      × (look k q ys ≡ none)
  Tells path xs ys (missing_self p) =
      (k : A) × (q : List A) × (c : Node A) × (p ≡ path ++ k ∷ q)
      × (look k q xs ≡ none)
      × (look k q ys ≡ some c)
  Tells path xs ys (hash_mismatch p) =
      (k : A) × (q : List A) × (c : Node A) × (c' : Node A) × (p ≡ path ++ k ∷ q)
      × (look k q xs ≡ some c)
      × (look k q ys ≡ some c')
      × (hash c ≢ hash c')
      × (signature (children c) ≡ signature (children c'))

  -- `k` is looked up alike in both pairs of lists.
  abbrev SameAt : A → Nodes A → Nodes A → Type ℓ
  SameAt k cs ds = find_child k cs ≡ find_child k ds

  pub same_behind :
      (a k : A) (c : Node A) (cs : Nodes A) → value c ≡ a → a ≺ k → SameAt k cs (cons c cs)
  same_behind a k c cs e h = sym (find_child-miss k c cs (rw e (ap is_eq h)))

  -- What a shorter pair of lists tells holds of a longer one that looks alike wherever it finds
  -- something.
  pub Tells-lift :
      (path : List A) (xs ys xs' ys' : Nodes A)
      → ((k : A) (q : List A) (c : Node A)
          → look k q xs ≡ some c
          → SameAt k xs xs' × SameAt k ys ys')
      → ((k : A) (q : List A) (c : Node A)
          → look k q ys ≡ some c
          → SameAt k xs xs' × SameAt k ys ys')
      → (d : Diff A) → Tells path xs ys d
      → Tells path xs' ys' d
  Tells-lift path xs ys xs' ys' left right (missing_other p) (k, q, c, e, f, g) =
      let same = left k q c f in
      (k, q, c, e, sym (look-found k q xs xs' same.0) ∙ f, sym (look-found k q ys ys' same.1) ∙ g)
  Tells-lift path xs ys xs' ys' left right (missing_self p) (k, q, c, e, f, g) =
      let same = right k q c g in
      (k, q, c, e, sym (look-found k q xs xs' same.0) ∙ f, sym (look-found k q ys ys' same.1) ∙ g)
  Tells-lift path xs ys xs' ys' left right (hash_mismatch p) (k, q, c, c', e, f, g, n, s) =
      let same = left k q c f in
      (
        k,
        q,
        c,
        c',
        e,
        sym (look-found k q xs xs' same.0) ∙ f,
        sym (look-found k q ys ys' same.1) ∙ g,
        n,
        s,
      )

  look-into :
      (c : Node A) (cs : Nodes A) (k : A) (q : List A)
      → look (value c) (k ∷ q) (cons c cs) ≡ look k q (children c)
  unfolding look
  look-into c cs k q = ap (step_into (look k q)) (find_child-hit (value c) c cs refl)

  -- An entry about the children of two nodes of one value, seen one level up.
  pub Tells-up :
      (path : List A) (x y : Node A) (xs ys : Nodes A)
      → value x ≡ value y
      → (d : Diff A) → Tells (path ++ value x ∷ []) (children x) (children y) d
      → Tells path (cons x xs) (cons y ys) d
  Tells-up path x y xs ys same (missing_other p) (k, q, c, e, f, g) = (
    value x,
    k ∷ q,
    c,
    e ∙ append_assoc path (value x ∷ []) (k ∷ q),
    look-into x xs k q ∙ f,
    rw same (look-into y ys k q ∙ g),
  )
  Tells-up path x y xs ys same (missing_self p) (k, q, c, e, f, g) = (
    value x,
    k ∷ q,
    c,
    e ∙ append_assoc path (value x ∷ []) (k ∷ q),
    look-into x xs k q ∙ f,
    rw same (look-into y ys k q ∙ g),
  )
  Tells-up path x y xs ys same (hash_mismatch p) (k, q, c, c', e, f, g, n, s) = (
    value x,
    k ∷ q,
    c,
    c',
    e ∙ append_assoc path (value x ∷ []) (k ∷ q),
    look-into x xs k q ∙ f,
    rw same (look-into y ys k q ∙ g),
    n,
    s,
  )
