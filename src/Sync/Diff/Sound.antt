-- ===== src/Sync/Diff/Sound.antt =====
-- What the entries of `Node::diff` (src/sync.rs) say about two ordered trees.
use mintpool.Prelude.{
  ℕ, ◌≡◌, refl, sym, false, List, [], ◌∷◌, ◌++◌, inl, inr, Ordering-cases, Bool-cases, All,
  All-mono, All-append, subst, ==_iff, ◌==◌,
}
use mintpool.Prelude.Item.{Item}
use mintpool.Sync.Node.{Node, Nodes, node, nil, cons, value, hash, children}
use mintpool.Sync.Insert.Order.{Above, AreTrees, Above-trans}
use mintpool.Sync.Insert.Children.{find_child-hit, find_child-Above}
use mintpool.Sync.Diff.{
  Diff, missing_self, missing_other, or_mismatch, when_differs, rest_missing, diff_children,
}
use mintpool.Sync.Diff.Laws.{
  diff-eq, diff-lt, diff-gt, diff-nil_left, diff-nil_right, diff_children-nil_iff,
}
use mintpool.Sync.Diff.Tells.{
  look, look-absent, look-above, Tells, same_behind, Tells-lift, Tells-up,
}

module _ {ℓ} {A : Type ℓ} ⦃i : Item A⦄ where
  -- The node itself, where its children do not differ.
  shared-Tells :
      (path : List A) (x y : Node A) (xs ys : Nodes A)
      → value x ≡ value y
      → (ds : List (Diff A)) → diff_children (path ++ value x ∷ []) (children x) (children y) ≡ ds
      → All (Tells (path ++ value x ∷ []) (children x) (children y)) ds
      → All
          (Tells path (cons x xs) (cons y ys))
          (when_differs (hash x) (hash y) (or_mismatch (path ++ value x ∷ []) ds))
  unfolding look
  shared-Tells path x y xs ys same ds e below = elim (Bool-cases (hash x == hash y)) [
    | inl h ↦ rw h tt
    | inr h ↦ rw h (go h ds e below)
  ]
    where
      go :
          (hash x == hash y) ≡ false
          → (ds : List (Diff A))
          → diff_children (path ++ value x ∷ []) (children x) (children y) ≡ ds
          → All (Tells (path ++ value x ∷ []) (children x) (children y)) ds
          → All (Tells path (cons x xs) (cons y ys)) (or_mismatch (path ++ value x ∷ []) ds)
      go h [] e below = (
        (
          value x,
          [],
          x,
          y,
          refl,
          find_child-hit (value x) x xs refl,
          find_child-hit (value x) y ys (sym same),
          (λ p. cc (h, (==_iff (hash x) (hash y)).1 p)),
          (diff_children-nil_iff (path ++ value x ∷ []) (children x) (children y)).0 e,
        ),
        tt,
      )
      go h (d ∷ ds) e below = All-mono _ _ (Tells-up path x y xs ys same) (d ∷ ds) below

  rest-Tells_other :
      (path : List A) (l : ℕ) (cs : Nodes A)
      → AreTrees l cs
      → All (Tells path cs nil) (rest_missing missing_other path cs)
  unfolding rest_missing look
  rest-Tells_other path l nil t = tt
  rest-Tells_other path l (cons c cs) t = (
    (value c, [], c, refl, find_child-hit (value c) c cs refl, find_child-Above (value c) nil tt),
    All-mono _ _
        (Tells-lift path cs nil (cons c cs) nil
          (λ k q d f. (same_behind (value c) k c cs refl (look-above (value c) k q cs t.2 f), refl))
          (λ k q d f. cc (look-absent k q nil (find_child-Above k nil tt), f)))
        (rest_missing missing_other path cs) (rest-Tells_other path l cs t.3),
  )

  rest-Tells_self :
      (path : List A) (l : ℕ) (cs : Nodes A)
      → AreTrees l cs
      → All (Tells path nil cs) (rest_missing missing_self path cs)
  unfolding rest_missing look
  rest-Tells_self path l nil t = tt
  rest-Tells_self path l (cons c cs) t = (
    (value c, [], c, refl, find_child-Above (value c) nil tt, find_child-hit (value c) c cs refl),
    All-mono _ _
        (Tells-lift path nil cs nil (cons c cs)
          (λ k q d f. cc (look-absent k q nil (find_child-Above k nil tt), f))
          (λ k q d f.
            (refl, same_behind (value c) k c cs refl (look-above (value c) k q cs t.2 f))))
        (rest_missing missing_self path cs) (rest-Tells_self path l cs t.3),
  )

  -- Every entry tells the truth about ordered trees.
  pub diff_children-Tells :
      (path : List A) (l l' : ℕ) (xs ys : Nodes A)
      → AreTrees l xs
      → AreTrees l' ys
      → All (Tells path xs ys) (diff_children path xs ys)
  unfolding look
  diff_children-Tells path l l' nil ys t u =
      rw (diff-nil_left path ys) (rest-Tells_self path l' ys u)
  diff_children-Tells path l l' (cons x xs) nil t u =
      rw (diff-nil_right path (cons x xs)) (rest-Tells_other path l (cons x xs) t)
  diff_children-Tells path l l' (cons (node v n h m cs d) xs) (cons (node v' n' h' m' cs' d') ys) t
        u =
      let x = node v n h m cs d in
      let y = node v' n' h' m' cs' d' in
      elim (Ordering-cases (i.cmp v v')) [
        | inl o ↦
            let above : Above v (cons y ys) = (o, Above-trans v v' ys o u.2) in
            rw (diff-lt path x y xs ys o) (
              (v, [], x, refl, find_child-hit v x xs refl, find_child-Above v (cons y ys) above),
              All-mono _ _
                  (Tells-lift path xs (cons y ys) (cons x xs) (cons y ys)
                    (λ k q c f. (same_behind v k x xs refl (look-above v k q xs t.2 f), refl))
                    (λ k q c f.
                      (same_behind v k x xs refl (look-above v k q (cons y ys) above f), refl)))
                  (diff_children path xs (cons y ys))
                  (diff_children-Tells path l l' xs (cons (node v' n' h' m' cs' d') ys) t.3 u),
            )
        | inr (inl o) ↦
            let same = i.cmp_eq v v' o in
            rw (diff-eq path x y xs ys o) (
              All-append _ _ (diff_children path xs ys)
                (shared-Tells path x y xs ys same (diff_children (path ++ v ∷ []) cs cs') refl
                  (diff_children-Tells (path ++ v ∷ []) n n' cs cs' t.1 u.1))
                (All-mono _ _
                  (Tells-lift path xs ys (cons x xs) (cons y ys)
                    (λ k q c f.
                      let b = look-above v k q xs t.2 f in
                      (same_behind v k x xs refl b, same_behind v k y ys (sym same) b))
                    (λ k q c f.
                      let b = look-above v k q ys (subst (λ w. Above w ys) (sym same) u.2) f in
                      (same_behind v k x xs refl b, same_behind v k y ys (sym same) b)))
                  (diff_children path xs ys) (diff_children-Tells path l l' xs ys t.3 u.3)))
        | inr (inr o) ↦
            let under = i.cmp_gt v v' o in
            let above : Above v' (cons x xs) = (under, Above-trans v' v xs under t.2) in
            rw (diff-gt path x y xs ys o) (
              (v', [], y, refl, find_child-Above v' (cons x xs) above, find_child-hit v' y ys refl),
              All-mono _ _
                  (Tells-lift path (cons x xs) ys (cons x xs) (cons y ys)
                    (λ k q c f.
                      (refl, same_behind v' k y ys refl (look-above v' k q (cons x xs) above f)))
                    (λ k q c f. (refl, same_behind v' k y ys refl (look-above v' k q ys u.2 f))))
                  (diff_children path (cons x xs) ys)
                  (diff_children-Tells path l l' (cons (node v n h m cs d) xs) ys t u.3),
            )
      ]
