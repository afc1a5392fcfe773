-- ===== src/Sync/Diff/Laws.antt =====
-- `Node::diff` (src/sync.rs) as a comparison of two trees: of a tree with itself, with the sides
-- exchanged, and when it finds nothing.
use mintpool.Prelude.{
  ℕ, ◌≡◌, ◌≢◌, ◌↔◌, refl, sym, ap, ap₂, ◌∙◌, List, [], ◌∷◌, ◌++◌, map, map-append, inl, inr,
  Ordering-cases, arith, ==_iff,
}
use Prim.Native.Nat.Ordering.{lt, eq, gt}
use mintpool.Prelude.Item.{Item}
use mintpool.Sync.Node.{Node, Nodes, node, nil, cons, value, hash, children}
use mintpool.Sync.Diff.{
  Diff, missing_self, missing_other, hash_mismatch, or_mismatch, when_differs, rest_missing,
  diff_children,
}

module _ {ℓ} {A : Type ℓ} ⦃i : Item A⦄ where
  -- The three steps of the loop.
  pub diff-eq :
      (path : List A) (x y : Node A) (xs ys : Nodes A)
      → i.cmp (value x) (value y) ≡ eq
      → diff_children path (cons x xs) (cons y ys)
        ≡ when_differs (hash x) (hash y) (
            or_mismatch
              (path ++ value x ∷ [])
              (diff_children (path ++ value x ∷ []) (children x) (children y)))
          ++ diff_children path xs ys
  unfolding diff_children
  diff-eq path (node v l h m cs d) (node v' l' h' m' cs' d') xs ys e = rw (e, diff_children)

  pub diff-lt :
      (path : List A) (x y : Node A) (xs ys : Nodes A)
      → i.cmp (value x) (value y) ≡ lt
      → diff_children path (cons x xs) (cons y ys)
        ≡ missing_other (path ++ value x ∷ []) ∷ diff_children path xs (cons y ys)
  unfolding diff_children
  diff-lt path (node v l h m cs d) (node v' l' h' m' cs' d') xs ys e = rw (e, diff_children)

  pub diff-gt :
      (path : List A) (x y : Node A) (xs ys : Nodes A)
      → i.cmp (value x) (value y) ≡ gt
      → diff_children path (cons x xs) (cons y ys)
        ≡ missing_self (path ++ value y ∷ []) ∷ diff_children path (cons x xs) ys
  unfolding diff_children
  diff-gt path (node v l h m cs d) (node v' l' h' m' cs' d') xs ys e = rw (e, diff_children)

  pub diff-nil_left :
      (path : List A) (ys : Nodes A) → diff_children path nil ys ≡ rest_missing missing_self path ys
  unfolding diff_children
  diff-nil_left path ys = refl

  pub diff-nil_right :
      (path : List A) (xs : Nodes A)
      → diff_children path xs nil ≡ rest_missing missing_other path xs
  unfolding diff_children
  diff-nil_right path nil = refl
  diff-nil_right path (cons x xs) = refl

  -- A tree does not differ from itself.
  pub diff_children_self : (path : List A) (xs : Nodes A) → diff_children path xs xs ≡ []
  unfolding rest_missing
  diff_children_self path nil = diff-nil_left path nil
  diff_children_self path (cons x xs) =
      diff-eq path x x xs xs (i.cmp_refl (value x))
      ∙ rw ((==_iff (hash x) (hash x)).1 refl) (diff_children_self path xs)

-- What the other side reports.
abbrev pub mirror {ℓ} : {A : Type ℓ} → Diff A → Diff A
mirror (missing_self p) = missing_other p
mirror (missing_other p) = missing_self p
mirror (hash_mismatch p) = hash_mismatch p

module _ {ℓ} {A : Type ℓ} where
  or_mismatch-mirror :
      (p : List A) (ds : List (Diff A))
      → or_mismatch p (map mirror ds) ≡ map mirror (or_mismatch p ds)
  or_mismatch-mirror p [] = refl
  or_mismatch-mirror p (d ∷ ds) = refl

  when_differs-mirror :
      (h h' : ℕ) (ds : List (Diff A))
      → when_differs h' h (map mirror ds) ≡ map mirror (when_differs h h' ds)
  when_differs-mirror h h' ds = ground arith

  rest_missing-mirror :
      (path : List A) (cs : Nodes A)
      → (rest_missing missing_self path cs ≡ map mirror (rest_missing missing_other path cs))
        × (rest_missing missing_other path cs ≡ map mirror (rest_missing missing_self path cs))
  unfolding rest_missing
  rest_missing-mirror path nil = (refl, refl)
  rest_missing-mirror path (cons c cs) = (
    ap (λ ds. missing_self (path ++ value c ∷ []) ∷ ds) (rest_missing-mirror path cs).0,
    ap (λ ds. missing_other (path ++ value c ∷ []) ∷ ds) (rest_missing-mirror path cs).1,
  )

module _ {ℓ} {A : Type ℓ} ⦃i : Item A⦄ where
  -- The diffs of two nodes of one value.
  shared-mirror :
      (path : List A) (v v' : A) (h h' : ℕ) (cs cs' : Nodes A)
      → v ≡ v'
      → diff_children (path ++ v ∷ []) cs' cs ≡ map mirror (diff_children (path ++ v ∷ []) cs cs')
      → when_differs h' h (or_mismatch (path ++ v' ∷ []) (diff_children (path ++ v' ∷ []) cs' cs))
        ≡ map mirror (
            when_differs h h'
              (or_mismatch (path ++ v ∷ []) (diff_children (path ++ v ∷ []) cs cs')))
  shared-mirror path v v' h h' cs cs' same below =
      ap
        (λ w.
          when_differs h' h (or_mismatch (path ++ w ∷ []) (diff_children (path ++ w ∷ []) cs' cs)))
        (sym same)
      ∙ ap (λ ds. when_differs h' h (or_mismatch (path ++ v ∷ []) ds)) below
      ∙ ap (when_differs h' h)
          (or_mismatch-mirror (path ++ v ∷ []) (diff_children (path ++ v ∷ []) cs cs'))
      ∙ when_differs-mirror h h' _

  -- Exchanging the trees exchanges the sides of every diff, in the same order.
  pub diff_children-mirror :
      (path : List A) (xs ys : Nodes A)
      → diff_children path ys xs ≡ map mirror (diff_children path xs ys)
  diff_children-mirror path nil ys =
      diff-nil_right path ys
      ∙ (rest_missing-mirror path ys).1
      ∙ ap (map mirror) (sym (diff-nil_left path ys))
  diff_children-mirror path (cons x xs) nil =
      diff-nil_left path (cons x xs)
      ∙ (rest_missing-mirror path (cons x xs)).0
      ∙ ap (map mirror) (sym (diff-nil_right path (cons x xs)))
  diff_children-mirror path (cons (node v l h m cs d) xs) (cons (node v' l' h' m' cs' d') ys) =
      let x = node v l h m cs d in
      let y = node v' l' h' m' cs' d' in
      elim (Ordering-cases (i.cmp v v')) [
        | inl o ↦
            diff-gt path y x ys xs (i.cmp_lt v v' o)
            ∙ ap (λ ds. missing_self (path ++ v ∷ []) ∷ ds)
                (diff_children-mirror path xs (cons (node v' l' h' m' cs' d') ys))
            ∙ ap (map mirror) (sym (diff-lt path x y xs ys o))
        | inr (inl o) ↦
            let same : v ≡ v' = i.cmp_eq v v' o in
            diff-eq path y x ys xs (rw same (i.cmp_refl v'))
            ∙ ap₂ (◌++◌)
                (shared-mirror path v v' h h' cs cs' same
                  (diff_children-mirror (path ++ v ∷ []) cs cs'))
                (diff_children-mirror path xs ys)
            ∙ sym (
                map-append mirror
                  (when_differs h h'
                    (or_mismatch (path ++ v ∷ []) (diff_children (path ++ v ∷ []) cs cs')))
                  (diff_children path xs ys))
            ∙ ap (map mirror) (sym (diff-eq path x y xs ys o))
        | inr (inr o) ↦
            diff-lt path y x ys xs (i.cmp_gt v v' o)
            ∙ ap (λ ds. missing_other (path ++ v' ∷ []) ∷ ds)
                (diff_children-mirror path (cons (node v l h m cs d) xs) ys)
            ∙ ap (map mirror) (sym (diff-gt path x y xs ys o))
      ]

-- What two lists of children are compared by: the values and the hashes.
unfoldable pub signature {ℓ} : {A : Type ℓ} → Nodes A → List (A × ℕ)
signature nil = []
signature (cons c cs) = (value c, hash c) ∷ signature cs

module _ {ℓ} {A : Type ℓ} where
  or_mismatch-ne-nil : (p : List A) (ds : List (Diff A)) → or_mismatch p ds ≢ []
  or_mismatch-ne-nil p [] e = cc
  or_mismatch-ne-nil p (d ∷ ds) e = cc

  append-eq-nil : (xs ys : List (Diff A)) → xs ++ ys ≡ [] → (xs ≡ []) × (ys ≡ [])
  append-eq-nil [] ys e = (refl, e)
  append-eq-nil (x ∷ xs) ys e = cc

  when_differs-eq-nil :
      (h h' : ℕ) (p : List A) (ds : List (Diff A))
      → when_differs h h' (or_mismatch p ds) ≡ []
      → h ≡ h'
  when_differs-eq-nil h h' p ds e = ground (arith, or_mismatch-ne-nil p ds)

module _ {ℓ} {A : Type ℓ} ⦃i : Item A⦄ where
  -- Nothing is reported exactly when the children agree in number, values and hashes.
  nil-signature :
      (path : List A) (xs ys : Nodes A)
      → diff_children path xs ys ≡ []
      → signature xs ≡ signature ys
  unfolding signature diff_children
  nil-signature path nil nil e = refl
  nil-signature path nil (cons y ys) e = cc
  nil-signature path (cons x xs) nil e = cc
  nil-signature path (cons (node v l h m cs d) xs) (cons (node v' l' h' m' cs' d') ys) e =
      let x = node v l h m cs d in
      let y = node v' l' h' m' cs' d' in
      elim (Ordering-cases (i.cmp v v')) [
        | inl o ↦ cc (e, diff-lt path x y xs ys o)
        | inr (inl o) ↦
            let parts =
              append-eq-nil
                (when_differs h h'
                  (or_mismatch (path ++ v ∷ []) (diff_children (path ++ v ∷ []) cs cs')))
                (diff_children path xs ys) (sym (diff-eq path x y xs ys o) ∙ e) in
            cc (
              i.cmp_eq v v' o,
              when_differs-eq-nil h h' _ _ parts.0,
              nil-signature path xs ys parts.1,
            )
        | inr (inr o) ↦ cc (e, diff-gt path x y xs ys o)
      ]

  signature-nil :
      (path : List A) (xs ys : Nodes A)
      → signature xs ≡ signature ys
      → diff_children path xs ys ≡ []
  unfolding signature rest_missing
  signature-nil path nil nil e = diff-nil_left path nil
  signature-nil path nil (cons y ys) e = cc
  signature-nil path (cons x xs) nil e = cc
  signature-nil path (cons x xs) (cons y ys) e =
      let same : value x ≡ value y = cc in
      let hashes : hash x ≡ hash y = cc in
      let rest : signature xs ≡ signature ys = cc in
      diff-eq path x y xs ys (rw same (i.cmp_refl (value y)))
      ∙ rw ((==_iff (hash x) (hash y)).1 hashes) (signature-nil path xs ys rest)

  pub diff_children-nil_iff :
      (path : List A) (xs ys : Nodes A)
      → (diff_children path xs ys ≡ []) ↔ (signature xs ≡ signature ys)
  diff_children-nil_iff path xs ys = (nil-signature path xs ys, signature-nil path xs ys)
