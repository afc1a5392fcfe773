-- ===== src/Sync/TreeSet/Laws.antt =====
-- The properties of `TreeSet` (src/sync.rs), from those of its nodes.
use mintpool.Prelude.{ℕ, ◌/◌, ◌%◌, ◌^◌, ◌≡◌, ◌↔◌, ap, none, some, List, [], map, All, arith}
use mintpool.Prelude.Item.{Item}
use mintpool.Sync.Node.{hash, children, u64_buffer}
use mintpool.Sync.Insert.Order.{IsTree, IsTree-parts}
use mintpool.Sync.Insert.Hashing.{rehash-insert, hash-rehash-insert}
use mintpool.Sync.Diff.Laws.{mirror, signature, diff_children-mirror, diff_children-nil_iff}
use mintpool.Sync.Diff.Tells.{Tells}
use mintpool.Sync.Diff.Sound.{diff_children-Tells}
use mintpool.Sync.TreeSet.{
  TreeSet, insert, insert_update, insert_with_hash, insert_with_hash_update, rehash_tree, diff,
}

-- The four bytes that stand for a child's hash determine its low 32 bits, and nothing more.
pub u64_buffer-eq_iff : (a b : ℕ) → (u64_buffer a ≡ u64_buffer b) ↔ (a % 2 ^ 32 ≡ b % 2 ^ 32)
unfolding u64_buffer
u64_buffer-eq_iff a b = (forward, back)
  where
    forward : u64_buffer a ≡ u64_buffer b → a % 2 ^ 32 ≡ b % 2 ^ 32
    forward e =
        let e₃ : a / 2 ^ 24 % 256 ≡ b / 2 ^ 24 % 256 = cc in
        let e₂ : a / 2 ^ 16 % 256 ≡ b / 2 ^ 16 % 256 = cc in
        let e₁ : a / 2 ^ 8 % 256 ≡ b / 2 ^ 8 % 256 = cc in
        let e₀ : a % 256 ≡ b % 256 = cc in omega arith

    back : a % 2 ^ 32 ≡ b % 2 ^ 32 → u64_buffer a ≡ u64_buffer b
    back e =
        let e₃ : a / 2 ^ 24 % 256 ≡ b / 2 ^ 24 % 256 = omega arith in
        let e₂ : a / 2 ^ 16 % 256 ≡ b / 2 ^ 16 % 256 = omega arith in
        let e₁ : a / 2 ^ 8 % 256 ≡ b / 2 ^ 8 % 256 = omega arith in
        let e₀ : a % 256 ≡ b % 256 = omega arith in cc

module _ {ℓ} {A : Type ℓ} ⦃i : Item A⦄ where
  -- Exchanging two trees exchanges the sides of every diff, in the same order.
  pub diff-mirror : (t u : TreeSet A) → diff u t ≡ map mirror (diff t u)
  unfolding diff
  diff-mirror t u = diff_children-mirror [] (children t.root) (children u.root)

  -- Two trees do not differ exactly when their top nodes agree in number, values and hashes.
  pub diff-nil_iff :
      (t u : TreeSet A)
      → (diff t u ≡ []) ↔ (signature (children t.root) ≡ signature (children u.root))
  unfolding diff
  diff-nil_iff t u = diff_children-nil_iff [] (children t.root) (children u.root)

  -- Between ordered trees, a path that is reported missing on a side is a path of the other tree and
  -- of that one only; a hash mismatch is a path of both trees, its nodes have different hashes, and
  -- their children agree in number, values and hashes.
  pub diff-Tells :
      (t u : TreeSet A)
      → IsTree t.root
      → IsTree u.root
      → All (Tells [] (children t.root) (children u.root)) (diff t u)
  unfolding diff
  diff-Tells t u ht hu =
      diff_children-Tells [] _ _ (children t.root) (children u.root) (IsTree-parts t.root ht)
        (IsTree-parts u.root hu)

module _ {ℓ} {A : Type ℓ} ⦃i : Item A⦄ (xxh3 : List ℕ → ℕ) where
  -- Hashing the whole tree after an insertion is hashing it before, and keeping the hashes up to
  -- date during the insertion; with a hash that is given, or without.
  pub rehash_tree-insert :
      (path : List A) (v : A) (h : ℕ) (t : TreeSet A)
      → (rehash_tree xxh3 (insert xxh3 path v t) ≡ insert_update xxh3 path v (rehash_tree xxh3 t))
        × (rehash_tree xxh3 (insert_with_hash xxh3 path v h t)
            ≡ insert_with_hash_update xxh3 path v h (rehash_tree xxh3 t))
  unfolding rehash_tree insert insert_update insert_with_hash insert_with_hash_update
  rehash_tree-insert path v h t = (
    ap (λ n. record { root = n }) (rehash-insert xxh3 path v none t.root),
    ap (λ n. record { root = n }) (rehash-insert xxh3 path v (some h) t.root),
  )

  -- An updating insertion clears the root's dirty mark: a `rehash` after it keeps the root's hash,
  -- whatever is still dirty below.
  pub hash-rehash_tree-insert_update :
      (path : List A) (v : A) (t : TreeSet A)
      → hash (rehash_tree xxh3 (insert_update xxh3 path v t)).root
        ≡ hash (insert_update xxh3 path v t).root
  unfolding rehash_tree insert_update
  hash-rehash_tree-insert_update path v t = hash-rehash-insert xxh3 path v none t.root
