-- ===== src/Sync/Diff.antt =====
-- src/sync.rs: `Diff` and `Node::diff`.
pub mod Laws
pub mod Tells
pub mod Sound
use mintpool.Prelude.{ℕ, Bool, true, false, List, [], ◌∷◌, ◌++◌, ◌==◌, if◌then◌else◌}
use Prim.Native.Nat.Ordering.{lt, eq, gt}
use mintpool.Prelude.Item.{Item}
use mintpool.Sync.Node.{Node, Nodes, node, nil, cons, value, hash, children}

pub data Diff {ℓ} (A : Type ℓ) : Type ℓ where
  missing_self missing_other hash_mismatch : List A → Diff A

module _ {ℓ} {A : Type ℓ} where
  -- The diffs of two nodes with different hashes: those of the children, or the node itself.
  abbrev pub or_mismatch : List A → List (Diff A) → List (Diff A)
  or_mismatch path [] = hash_mismatch path ∷ []
  or_mismatch path (d ∷ ds) = d ∷ ds

  abbrev pub when_differs : ℕ → ℕ → List (Diff A) → List (Diff A)
  when_differs h h' ds = if h == h' then [] else ds

  -- The iterator that is left when the other one has ended.
  unfoldable pub rest_missing : (List A → Diff A) → List A → Nodes A → List (Diff A)
  rest_missing side path nil = []
  rest_missing side path (cons c cs) = side (path ++ value c ∷ []) ∷ rest_missing side path cs

module _ {ℓ} {A : Type ℓ} ⦃i : Item A⦄ where
  -- The loop over the two iterators, `path` being the mutable path at its entry.
  unfoldable pub diff_children : List A → Nodes A → Nodes A → List (Diff A)
  unfolding rest_missing
  diff_children path nil ys = rest_missing missing_self path ys
  diff_children path (cons x xs) nil = rest_missing missing_other path (cons x xs)
  diff_children path (cons (node v l h m cs d) xs) (cons (node v' l' h' m' cs' d') ys) =
      let here = path ++ v ∷ [] in
      elim (i.cmp v v') [
        | eq ↦
            when_differs h h' (or_mismatch here (diff_children here cs cs'))
            ++ diff_children path xs ys
        | lt ↦ missing_other here ∷ diff_children path xs (cons (node v' l' h' m' cs' d') ys)
        | gt ↦ missing_self (path ++ v' ∷ []) ∷ diff_children path (cons (node v l h m cs d) xs) ys
      ]
