-- ===== src/Sync/Insert/Hashing.antt =====
-- The hashes that `insert` keeps up to date, against `rehash` over the whole tree (src/sync.rs).
use mintpool.Prelude.{
  ℕ, ◌≡◌, refl, ap, ap₂, sym, subst, ◌∙◌, Bool, true, false, Option, none, some, List, [], ◌∷◌, inl,
  inr, Ordering-cases,
}
use mintpool.Prelude.Item.{Item}
use mintpool.Sync.Node.{
  Node, Nodes, node, nil, cons, value, hash, update_hash, rehash, rehash_children,
}
use mintpool.Sync.Insert.Upsert.{upsert, upsert-lt, upsert-eq, upsert-gt, descend-upsert}
use mintpool.Sync.Insert.{new_child, settle, finish, descend, insert}

-- A node that has been hashed: it is not dirty, and a hash that was set by hand is its hash.
abbrev pub IsSettled : ℕ → Option ℕ → Bool → Type 0
IsSettled h none d = d ≡ false
IsSettled h (some m) d = (d ≡ false) × (h ≡ m)

module _ {ℓ} {A : Type ℓ} where
  abbrev mutual
    -- Every node of the tree has been hashed.
    pub IsClean : Node A → Type 0
    IsClean (node v l h m cs d) = IsSettled h m d × AreClean cs

    pub AreClean : Nodes A → Type 0
    AreClean nil = Unit
    AreClean (cons c cs) = IsClean c × AreClean cs

module _ {ℓ} {A : Type ℓ} ⦃i : Item A⦄ (xxh3 : List ℕ → ℕ) where
  update_hash-IsClean :
      (v : A) (l h : ℕ) (m : Option ℕ) (cs : Nodes A) (d : Bool)
      → AreClean cs
      → IsClean (update_hash xxh3 (node v l h m cs d))
  unfolding update_hash
  update_hash-IsClean v l h (some m) cs d c = ((refl, refl), c)
  update_hash-IsClean v l h none cs true c = (refl, c)
  update_hash-IsClean v l h none cs false c = (refl, c)

  mutual
    unfolding rehash

    rehash-IsClean_self : (n : Node A) → IsClean (rehash xxh3 n)
    rehash-IsClean_self (node v l h m cs d) =
        update_hash-IsClean v l h m (rehash_children xxh3 cs) d (rehash_children-AreClean cs)

    rehash_children-AreClean : (cs : Nodes A) → AreClean (rehash_children xxh3 cs)
    rehash_children-AreClean nil = tt
    rehash_children-AreClean (cons c cs) = (rehash-IsClean_self c, rehash_children-AreClean cs)

  pub rehash-IsClean : (n : Node A) → IsClean (rehash xxh3 n)
  rehash-IsClean n = rehash-IsClean_self n

  update_hash_settled :
      (v : A) (l h : ℕ) (m : Option ℕ) (cs : Nodes A) (d : Bool)
      → IsSettled h m d
      → update_hash xxh3 (node v l h m cs d) ≡ node v l h m cs d
  unfolding update_hash
  update_hash_settled v l h (some m) cs d s = cc (s.0, s.1)
  update_hash_settled v l h none cs true s = cc s
  update_hash_settled v l h none cs false s = refl

  mutual
    unfolding rehash

    rehash_clean : (n : Node A) → IsClean n → rehash xxh3 n ≡ n
    rehash_clean (node v l h m cs d) c =
        rw (rehash_children_clean cs c.1) (update_hash_settled v l h m cs d c.0)

    rehash_children_clean : (cs : Nodes A) → AreClean cs → rehash_children xxh3 cs ≡ cs
    rehash_children_clean nil c = refl
    rehash_children_clean (cons x xs) c =
        ap₂ cons (rehash_clean x c.0) (rehash_children_clean xs c.1)

  value-rehash : (n : Node A) → value (rehash xxh3 n) ≡ value n
  unfolding rehash update_hash
  value-rehash (node v l h (some m) cs d) = refl
  value-rehash (node v l h none cs true) = refl
  value-rehash (node v l h none cs false) = refl

  -- Hashing the children commutes with one level of an insertion that it commutes with below.
  rehash_children-upsert :
      (key : A) (fresh fresh' : Node A) (f g : Node A → Node A) (cs : Nodes A)
      → rehash xxh3 (f fresh) ≡ g fresh'
      → ((c : Node A) → value c ≡ key → rehash xxh3 (f c) ≡ g (rehash xxh3 c))
      → rehash_children xxh3 (upsert key fresh f cs) ≡ upsert key fresh' g (rehash_children xxh3 cs)
  unfolding rehash upsert
  rehash_children-upsert key fresh fresh' f g nil new old = ap (λ c. cons c nil) new
  rehash_children-upsert key fresh fresh' f g (cons c cs) new old =
      let e' = value-rehash c in
      elim (Ordering-cases (i.cmp (value c) key)) [
        | inl e ↦
            ap (rehash_children xxh3) (upsert-lt key fresh f c cs e)
            ∙ ap (cons (rehash xxh3 c)) (rehash_children-upsert key fresh fresh' f g cs new old)
            ∙ sym (upsert-lt key fresh' g (rehash xxh3 c) (rehash_children xxh3 cs) (rw e' e))
        | inr (inl e) ↦
            ap (rehash_children xxh3) (upsert-eq key fresh f c cs e)
            ∙ ap (λ x. cons x (rehash_children xxh3 cs)) (old c (i.cmp_eq _ _ e))
            ∙ sym (upsert-eq key fresh' g (rehash xxh3 c) (rehash_children xxh3 cs) (rw e' e))
        | inr (inr e) ↦
            ap (rehash_children xxh3) (upsert-gt key fresh f c cs e)
            ∙ ap (λ x. cons x (rehash_children xxh3 (cons c cs))) new
            ∙ sym (upsert-gt key fresh' g (rehash xxh3 c) (rehash_children xxh3 cs) (rw e' e))
      ]

  descend-rehash :
      (key : A) (g : Node A → Node A) (v : A) (l h : ℕ) (m : Option ℕ) (cs : Nodes A) (d : Bool)
      → update_hash xxh3
          (node v l h m (upsert key (new_child xxh3 l key true) g (rehash_children xxh3 cs)) true)
        ≡ descend xxh3 key true g (rehash xxh3 (node v l h m cs d))
  unfolding rehash update_hash finish
  descend-rehash key g v l h (some m) cs d =
      sym (descend-upsert xxh3 key true g v l _ (some m) (rehash_children xxh3 cs) false)
  descend-rehash key g v l h none cs true =
      sym (descend-upsert xxh3 key true g v l _ none (rehash_children xxh3 cs) false)
  descend-rehash key g v l h none cs false =
      sym (descend-upsert xxh3 key true g v l _ none (rehash_children xxh3 cs) false)

  rehash-descend :
      (key : A) (f g : Node A → Node A) (n : Node A)
      → ((l : ℕ) → rehash xxh3 (f (new_child xxh3 l key false)) ≡ g (new_child xxh3 l key true))
      → ((c : Node A) → value c ≡ key → rehash xxh3 (f c) ≡ g (rehash xxh3 c))
      → rehash xxh3 (descend xxh3 key false f n) ≡ descend xxh3 key true g (rehash xxh3 n)
  unfolding rehash finish
  rehash-descend key f g (node v l h m cs d) new old =
      ap (rehash xxh3) (descend-upsert xxh3 key false f v l h m cs d)
      ∙ ap (λ cs'. update_hash xxh3 (node v l h m cs' true))
          (rehash_children-upsert key (new_child xxh3 l key false) (new_child xxh3 l key true) f g
            cs (new l) old)
      ∙ descend-rehash key g v l h m cs d

  -- The last step of an insertion, at a child that carries the value already.
  settle_same :
      (h : Option ℕ) (c : Node A)
      → rehash xxh3 (settle xxh3 (value c) h false c) ≡ settle xxh3 (value c) h true (rehash xxh3 c)
  unfolding rehash settle
  settle_same (some k) (node v l h (some m) cs d) = refl
  settle_same (some k) (node v l h none cs true) = refl
  settle_same (some k) (node v l h none cs false) = refl
  settle_same none (node v l h (some m) cs d) = refl
  settle_same none (node v l h none cs true) = refl
  settle_same none (node v l h none cs false) = refl

  rehash-settle :
      (v : A) (h : Option ℕ) (c : Node A)
      → value c ≡ v
      → rehash xxh3 (settle xxh3 v h false c) ≡ settle xxh3 v h true (rehash xxh3 c)
  rehash-settle v h c e =
      subst (λ w. rehash xxh3 (settle xxh3 w h false c) ≡ settle xxh3 w h true (rehash xxh3 c)) e
        (settle_same h c)

  new_child-rehash :
      (l : ℕ) (v : A) → rehash xxh3 (new_child xxh3 l v false) ≡ new_child xxh3 l v true
  unfolding rehash new_child update_hash
  new_child-rehash l v = refl

  value-new_child : (l : ℕ) (v : A) → value (new_child xxh3 l v false) ≡ v
  unfolding new_child
  value-new_child l v = refl

  -- Inserting and then hashing the whole tree is the same as hashing it first and keeping the hashes
  -- up to date during the insertion.
  pub rehash-insert :
      (path : List A) (v : A) (h : Option ℕ) (n : Node A)
      → rehash xxh3 (insert xxh3 path v h false n) ≡ insert xxh3 path v h true (rehash xxh3 n)
  unfolding insert
  rehash-insert [] v h n =
      rehash-descend v (settle xxh3 v h false) (settle xxh3 v h true) n
        (λ l.
          rehash-settle v h (new_child xxh3 l v false) (value-new_child l v)
          ∙ ap (settle xxh3 v h true) (new_child-rehash l v))
        (rehash-settle v h)
  rehash-insert (head ∷ tail) v h n =
      rehash-descend head (insert xxh3 tail v h false) (insert xxh3 tail v h true) n
        (λ l.
          rehash-insert tail v h (new_child xxh3 l head false)
          ∙ ap (insert xxh3 tail v h true) (new_child-rehash l head))
        (λ c _. rehash-insert tail v h c)

  -- On a hashed tree, `insert_update` and `insert_with_hash_update` give the tree that the plain
  -- insertion gives after a `rehash` of everything.
  pub insert_update-rehash :
      (path : List A) (v : A) (h : Option ℕ) (n : Node A)
      → IsClean n
      → insert xxh3 path v h true n ≡ rehash xxh3 (insert xxh3 path v h false n)
  insert_update-rehash path v h n c =
      ap (insert xxh3 path v h true) (sym (rehash_clean n c)) ∙ sym (rehash-insert path v h n)

  -- An updating insertion into a tree whose hashes are up to date leaves them up to date.
  pub insert_update-IsClean :
      (path : List A) (v : A) (h : Option ℕ) (n : Node A)
      → IsClean n
      → IsClean (insert xxh3 path v h true n)
  insert_update-IsClean path v h n c =
      subst IsClean (sym (insert_update-rehash path v h n c))
        (rehash-IsClean (insert xxh3 path v h false n))

  hash-rehash-update_hash :
      (n : Node A) → hash (rehash xxh3 (update_hash xxh3 n)) ≡ hash (update_hash xxh3 n)
  unfolding rehash update_hash
  hash-rehash-update_hash (node v l h (some m) cs d) = refl
  hash-rehash-update_hash (node v l h none cs true) = refl
  hash-rehash-update_hash (node v l h none cs false) = refl

  hash-rehash-descend :
      (key : A) (f : Node A → Node A) (n : Node A)
      → hash (rehash xxh3 (descend xxh3 key true f n)) ≡ hash (descend xxh3 key true f n)
  unfolding finish
  hash-rehash-descend key f (node v l h m cs d) =
      rw (descend-upsert xxh3 key true f v l h m cs d)
        (hash-rehash-update_hash (node v l h m (upsert key (new_child xxh3 l key true) f cs) true))

  -- An updating insertion clears the root's dirty mark, and a later `rehash` keeps the root's hash.
  pub hash-rehash-insert :
      (path : List A) (v : A) (h : Option ℕ) (n : Node A)
      → hash (rehash xxh3 (insert xxh3 path v h true n)) ≡ hash (insert xxh3 path v h true n)
  unfolding insert
  hash-rehash-insert [] v h n = hash-rehash-descend v (settle xxh3 v h true) n
  hash-rehash-insert (x ∷ path) v h n = hash-rehash-descend x (insert xxh3 path v h true) n
