-- ===== src/Sync/TreeSet/Leafs.antt =====
-- `TreeSet::leafs` (src/sync.rs): the visitor that prunes, against a filter over all leafs.
use mintpool.Prelude.{
  ℕ, suc, ◌≡◌, refl, sym, ap, ap₂, ◌∙◌, Bool, true, false, ◌&&◌, ◌||◌, List, [], ◌∷◌, ◌++◌, map,
  append_assoc, append-nil, map-append, inl, inr, Bool-cases, arith, if◌then◌else◌, filter, length,
  min, take,
}
use mintpool.Prelude.Item.{Item, ◌=?◌}
use mintpool.Sync.Node.{Node, Nodes, node, nil, cons, value, children}
use mintpool.Sync.TreeSet.{
  TreeSet, Visit, continue, visit, visit_children, is_empty, is_nil, slice_eq, prefix_match,
  leafs_visitor, leafs,
}

module _ {ℓ} {A : Type ℓ} where
  -- The leafs below a list of children, each with the path to its parent, from left to right.
  unfoldable pub entries : List A → Nodes A → List (List A × A)
  entries path nil = []
  entries path (cons (node v l h m cs d) rest) =
      (if is_empty cs then (path, v) ∷ [] else entries (path ++ v ∷ []) cs) ++ entries path rest

filter-append {ℓ} :
    {B : Type ℓ} (p : B → Bool) (xs ys : List B) → filter p (xs ++ ys) ≡ filter p xs ++ filter p ys
filter-append p [] ys = refl
filter-append p (x ∷ xs) ys = ground (arith, filter-append p xs ys)

min-zero_left : (n : ℕ) → min 0 n ≡ 0
min-zero_left n = omega arith

min-zero_right : (n : ℕ) → min n 0 ≡ 0
min-zero_right n = omega arith

min-suc : (m n : ℕ) → min (suc m) (suc n) ≡ suc (min m n)
min-suc m n = omega arith

module _ {ℓ} {A : Type ℓ} ⦃i : Item A⦄ where
  -- The shorter of the two is a prefix of the longer.
  unfoldable pub compatible : List A → List A → Bool
  compatible [] ys = true
  compatible (x ∷ xs) [] = true
  compatible (x ∷ xs) (y ∷ ys) = x =? y && compatible xs ys

  -- A leaf is wanted if its full path is compatible with the prefix, or if it is at the top.
  abbrev pub wanted : List A → List A × A → Bool
  wanted prefix (path, v) = is_nil prefix || is_nil path || compatible (path ++ v ∷ []) prefix

  slice-compatible :
      (xs ys : List A)
      → slice_eq (take (min (length xs) (length ys)) xs) (take (min (length xs) (length ys)) ys)
        ≡ compatible xs ys
  unfolding compatible
  slice-compatible [] [] = refl
  slice-compatible [] (y ∷ ys) = rw (min-zero_left (length (y ∷ ys)))
  slice-compatible (x ∷ xs) [] = rw (min-zero_right (length (x ∷ xs)))
  slice-compatible (x ∷ xs) (y ∷ ys) =
      rw (min-suc (length xs) (length ys)) (ap (λ b. x =? y && b) (slice-compatible xs ys))

  pub prefix_match-wanted :
      (prefix path : List A) (n : Node A)
      → prefix_match prefix path n ≡ wanted prefix (path, value n)
  unfolding prefix_match
  prefix_match-wanted [] path n = refl
  prefix_match-wanted (x ∷ prefix) [] n = refl
  prefix_match-wanted (x ∷ prefix) (y ∷ path) n =
      slice-compatible (y ∷ path ++ value n ∷ []) (x ∷ prefix)

  compatible-append :
      (xs r ys : List A) → compatible xs ys ≡ false → compatible (xs ++ r) ys ≡ false
  unfolding compatible
  compatible-append [] r ys e = cc
  compatible-append (x ∷ xs) r [] e = cc
  compatible-append (x ∷ xs) r (y ∷ ys) e = ground (arith, compatible-append xs r ys)

  is_nil-snoc : (path : List A) (v : A) → is_nil (path ++ v ∷ []) ≡ false
  is_nil-snoc [] v = refl
  is_nil-snoc (x ∷ path) v = refl

  wanted_below :
      (prefix path : List A) (v : A)
      → is_nil prefix ≡ false
      → is_nil path ≡ false
      → compatible path prefix ≡ false
      → wanted prefix (path, v) ≡ false
  wanted_below prefix path v a b c = rw (a, b) (compatible-append path (v ∷ []) prefix c)

  -- Nothing below a path that does not fit the prefix is wanted.
  pruned :
      (prefix path : List A) (cs : Nodes A)
      → is_nil prefix ≡ false
      → is_nil path ≡ false
      → compatible path prefix ≡ false
      → filter (wanted prefix) (entries path cs) ≡ []
  unfolding entries
  pruned prefix path nil a b c = refl
  pruned prefix path (cons (node v l h m nil d) rest) a b c =
      rw (wanted_below prefix path v a b c) (pruned prefix path rest a b c)
  pruned prefix path (cons (node v l h m (cons k ks) d) rest) a b c =
      filter-append (wanted prefix) (entries (path ++ v ∷ []) (cons k ks)) (entries path rest)
      ∙ ap₂ (◌++◌)
          (pruned prefix (path ++ v ∷ []) (cons k ks) a (is_nil-snoc path v)
            (compatible-append path (v ∷ []) prefix c))
          (pruned prefix path rest a b c)

  not_wanted :
      (prefix path : List A) (v : A)
      → wanted prefix (path, v) ≡ false
      → (is_nil prefix ≡ false) × (compatible (path ++ v ∷ []) prefix ≡ false)
  not_wanted [] path v e = cc
  not_wanted (x ∷ prefix) [] v e = cc
  not_wanted (x ∷ prefix) (y ∷ path) v e = (refl, e)

  pruned_node :
      (prefix path : List A) (v : A) (cs rest : Nodes A)
      → wanted prefix (path, v) ≡ false
      → filter (wanted prefix) (
          (if is_empty cs then (path, v) ∷ [] else entries (path ++ v ∷ []) cs)
          ++ entries path rest)
        ≡ filter (wanted prefix) (entries path rest)
  pruned_node prefix path v nil rest e = rw e
  pruned_node prefix path v (cons k ks) rest e =
      let parts = not_wanted prefix path v e in
      filter-append (wanted prefix) (entries (path ++ v ∷ []) (cons k ks)) (entries path rest)
      ∙ ap (λ xs. xs ++ filter (wanted prefix) (entries path rest))
          (pruned prefix (path ++ v ∷ []) (cons k ks) parts.0 (is_nil-snoc path v) parts.1)

  -- The values of the wanted leafs.
  abbrev pub wanted_values : List A → List (List A × A) → List A
  wanted_values prefix es = map (λ e. e.1) (filter (wanted prefix) es)

  wanted_values-append :
      (prefix s : List A) (es fs : List (List A × A))
      → (s ++ wanted_values prefix es) ++ wanted_values prefix fs
        ≡ s ++ wanted_values prefix (es ++ fs)
  wanted_values-append prefix s es fs =
      append_assoc s (wanted_values prefix es) (wanted_values prefix fs)
      ∙ ap (λ r. s ++ r)
          (sym (map-append (λ e. e.1) (filter (wanted prefix) es) (filter (wanted prefix) fs))
            ∙ ap (map (λ e. e.1)) (sym (filter-append (wanted prefix) es fs)))

  visit_children-leafs :
      (prefix path : List A) (cs : Nodes A) (s : List A)
      → visit_children (leafs_visitor prefix) path cs s
        ≡ (continue, s ++ wanted_values prefix (entries path cs))
  unfolding visit leafs_visitor entries
  visit_children-leafs prefix path nil s =
      ap {B = Visit × List A} (λ (r : List A). (continue, r)) (sym (append-nil s))
  visit_children-leafs prefix path (cons (node v l h m nil d) rest) s =
      let x = node v l h m nil d in
      elim (Bool-cases (wanted prefix (path, v))) [
        | inl e ↦
            rw (prefix_match-wanted prefix path x, e)
              (visit_children-leafs prefix path rest (s ++ v ∷ [])
                ∙ ap {B = Visit × List A} (λ (r : List A). (continue, r))
                    (append_assoc s (v ∷ []) (wanted_values prefix (entries path rest))))
        | inr e ↦
            rw (prefix_match-wanted prefix path x, e) (visit_children-leafs prefix path rest s)
      ]
  visit_children-leafs prefix path (cons (node v l h m (cons k ks) d) rest) s =
      let x = node v l h m (cons k ks) d in
      elim (Bool-cases (wanted prefix (path, v))) [
        | inl e ↦
            rw
              (
                prefix_match-wanted prefix path x,
                e,
                visit_children-leafs prefix (path ++ v ∷ []) (cons k ks) s,
              )
              (visit_children-leafs prefix path rest
                  (s ++ wanted_values prefix (entries (path ++ v ∷ []) (cons k ks)))
                ∙ ap {B = Visit × List A} (λ (r : List A). (continue, r))
                    (wanted_values-append prefix s (entries (path ++ v ∷ []) (cons k ks))
                      (entries path rest)))
        | inr e ↦
            rw (prefix_match-wanted prefix path x, e)
              (visit_children-leafs prefix path rest s
                ∙ ap {B = Visit × List A}
                    (λ (es : List (List A × A)). (continue, s ++ map (λ e. e.1) es))
                    (sym (pruned_node prefix path v (cons k ks) rest e)))
      ]

  -- `leafs` returns the values of the wanted leafs, from left to right: cutting off whole subtrees
  -- loses none of them.
  pub leafs-wanted :
      (prefix : List A) (t : TreeSet A)
      → leafs prefix t ≡ wanted_values prefix (entries [] (children t.root))
  unfolding leafs
  leafs-wanted prefix t = ap (λ r. r.1) (visit_children-leafs prefix [] (children t.root) [])
