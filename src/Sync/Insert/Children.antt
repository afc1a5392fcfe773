-- ===== src/Sync/Insert/Children.antt =====
-- The child with a value, and how an insertion changes it (src/sync.rs).
use mintpool.Prelude.{
  ℕ, ◌≡◌, refl, ap, false, Option, none, some, inl, inr, Ordering-cases, Bool-cases, if◌then◌else◌,
  subst,
}
use mintpool.Prelude.Item.{Item, ◌=?◌, ◌≺◌, is_eq}
use mintpool.Sync.Node.{Node, Nodes, nil, cons, value}
use mintpool.Sync.Insert.Upsert.{upsert, upsert-lt, upsert-eq, upsert-gt}
use mintpool.Sync.Insert.Order.{Above, AreTrees, IsTree, Above-trans}

module _ {ℓ} {A : Type ℓ} ⦃i : Item A⦄ where
  unfoldable pub find_child : A → Nodes A → Option (Node A)
  find_child x nil = none
  find_child x (cons c cs) = if value c =? x then some c else find_child x cs

  pub find_child-Above : (x : A) (cs : Nodes A) → Above x cs → find_child x cs ≡ none
  unfolding find_child
  find_child-Above x nil b = refl
  find_child-Above x (cons c cs) b = rw (i.cmp_lt x (value c) b.0) (find_child-Above x cs b.1)

  -- The child that the insertion goes to: the one that is there, or the fresh one.
  abbrev pub found_or : Option (Node A) → Node A → Node A
  found_or none fresh = fresh
  found_or (some c) fresh = c

  pub find_child-hit :
      (x : A) (c : Node A) (cs : Nodes A) → value c ≡ x → find_child x (cons c cs) ≡ some c
  unfolding find_child
  find_child-hit x c cs e = rw (e, i.cmp_refl x)

  pub find_child-miss :
      (x : A) (c : Node A) (cs : Nodes A)
      → (value c =? x) ≡ false
      → find_child x (cons c cs) ≡ find_child x cs
  unfolding find_child
  find_child-miss x c cs e = rw e

  pub find_child-nil : (x : A) → find_child x nil ≡ none
  unfolding find_child
  find_child-nil x = refl

  some_inj : (c d : Node A) → some c ≡ some d → c ≡ d
  some_inj c d e = cc

  pub find_child-IsTree :
      (l : ℕ) (x : A) (cs : Nodes A) (c : Node A)
      → AreTrees l cs
      → find_child x cs ≡ some c
      → IsTree c
  unfolding find_child
  find_child-IsTree l x nil c t e = cc
  find_child-IsTree l x (cons d cs) c t e = elim (Bool-cases (value d =? x)) [
    | inl hit ↦ subst IsTree (some_inj d c (rw hit at e)) t.1
    | inr miss ↦ find_child-IsTree l x cs c t.3 (rw miss at e)
  ]

  module _ (l : ℕ) (key : A) (fresh : Node A) (f : Node A → Node A) (new : value fresh ≡ key)
      (keep : (c : Node A) → value c ≡ key → value (f c) ≡ key) where
    -- The child for `key` afterwards.
    pub find_child-upsert_self :
        (cs : Nodes A)
        → AreTrees l cs
        → find_child key (upsert key fresh f cs) ≡ some (f (found_or (find_child key cs) fresh))
    unfolding upsert
    find_child-upsert_self nil t =
        rw find_child-nil (find_child-hit key (f fresh) nil (keep fresh new))
    find_child-upsert_self (cons c cs) t = elim (Ordering-cases (i.cmp (value c) key)) [
      | inl o ↦
          rw
            (
              upsert-lt key fresh f c cs o,
              find_child-miss key c (upsert key fresh f cs) (ap is_eq o),
              find_child-miss key c cs (ap is_eq o),
            )
            (find_child-upsert_self cs t.3)
      | inr (inl o) ↦
          let same = i.cmp_eq _ _ o in
          rw (upsert-eq key fresh f c cs o, find_child-hit key c cs same)
            (find_child-hit key (f c) cs (keep c same))
      | inr (inr o) ↦
          let below : key ≺ value c = i.cmp_gt _ _ o in
          rw
            (
              upsert-gt key fresh f c cs o,
              find_child-Above key (cons c cs) (below, Above-trans key (value c) cs below t.2),
            )
            (find_child-hit key (f fresh) (cons c cs) (keep fresh new))
    ]

    -- Any other child is the one that was there.
    pub find_child-upsert_ne :
        (x : A) (cs : Nodes A)
        → (key =? x) ≡ false
        → find_child x (upsert key fresh f cs) ≡ find_child x cs
    unfolding upsert find_child
    find_child-upsert_ne x nil e = find_child-miss x (f fresh) nil (rw (keep fresh new) e)
    find_child-upsert_ne x (cons c cs) e = elim (Ordering-cases (i.cmp (value c) key)) [
      | inl o ↦ rw (upsert-lt key fresh f c cs o) (later c cs (find_child-upsert_ne x cs e))
      | inr (inl o) ↦
          let same = i.cmp_eq _ _ o in
          rw (
            upsert-eq key fresh f c cs o,
            find_child-miss x (f c) cs (rw (keep c same) e),
            find_child-miss x c cs (rw same e),
          )
      | inr (inr o) ↦
          rw (upsert-gt key fresh f c cs o)
            (find_child-miss x (f fresh) (cons c cs) (rw (keep fresh new) e))
    ]
      where
        later :
            (c : Node A) (cs : Nodes A)
            → find_child x (upsert key fresh f cs) ≡ find_child x cs
            → find_child x (cons c (upsert key fresh f cs)) ≡ find_child x (cons c cs)
        later c cs e = ap (λ r. if value c =? x then some c else r) e
