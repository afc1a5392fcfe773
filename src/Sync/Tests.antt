-- ===== src/Sync/Tests.antt =====
-- Runs of the tree of src/sync.rs, and the theorems about it at concrete trees.
use mintpool.Prelude.{
  ℕ, ◌+◌, ◌*◌, ◌%◌, ◌^◌, ◌≡◌, ◌≢◌, ◌↔◌, refl, true, ◌||◌, none, List, [], ◌∷◌, All, arith,
}
use mintpool.Prelude.Item.{nat_item}
use mintpool.Sync.Node.{hash, children}
use mintpool.Sync.Insert
use mintpool.Sync.Insert.Order.{IsTree, insert-IsTree}
use mintpool.Sync.Insert.Paths.{contains, contains-insert, is_prefix}
use mintpool.Sync.Diff.{missing_self, missing_other, hash_mismatch}
use mintpool.Sync.Diff.Laws.{signature}
use mintpool.Sync.Diff.Tells.{Tells}
use mintpool.Sync.TreeSet.{
  TreeSet, new, insert, insert_update, insert_with_hash, insert_with_hash_update, rehash_tree, diff,
  leafs, extract,
}
use mintpool.Sync.TreeSet.Leafs.{entries, wanted_values, leafs-wanted}
use mintpool.Sync.TreeSet.Laws.{diff-nil_iff, diff-Tells, rehash_tree-insert}

-- A stand-in for the hash function.
abbrev toy_hash : List ℕ → ℕ
toy_hash [] = 1
toy_hash (b ∷ bs) = (b + 31 * toy_hash bs) % 2 ^ 64

-- The two trees of `test_tree_diff`, with numbers for the letters.
abbrev set1 : TreeSet ℕ
unfolding new insert insert_with_hash rehash_tree
set1 = rehash_tree toy_hash (
    insert_with_hash toy_hash (1 ∷ 2 ∷ 9 ∷ []) 6 10 (
      insert toy_hash (1 ∷ 2 ∷ 7 ∷ []) 5
        (insert toy_hash (1 ∷ 2 ∷ 4 ∷ []) 2 (insert toy_hash (1 ∷ 2 ∷ 3 ∷ []) 1 new))))

abbrev set2 : TreeSet ℕ
unfolding new insert insert_with_hash rehash_tree
set2 = rehash_tree toy_hash (
    insert_with_hash toy_hash (1 ∷ 2 ∷ 9 ∷ []) 6 5 (
      insert toy_hash (1 ∷ 2 ∷ 8 ∷ []) 5
        (insert toy_hash (1 ∷ 2 ∷ 4 ∷ []) 2 (insert toy_hash (1 ∷ 2 ∷ 3 ∷ []) 1 new))))

diff_run :
    diff set1 set2
    ≡ missing_other (1 ∷ 2 ∷ 7 ∷ [])
      ∷ missing_self (1 ∷ 2 ∷ 8 ∷ [])
      ∷ hash_mismatch (1 ∷ 2 ∷ 9 ∷ 6 ∷ [])
      ∷ []
unfolding new insert insert_with_hash rehash_tree diff
diff_run = refl

leafs_run : leafs (1 ∷ 2 ∷ []) set1 ≡ 1 ∷ 2 ∷ 5 ∷ 6 ∷ []
unfolding new insert insert_with_hash rehash_tree leafs
leafs_run = refl

-- A leaf at the top is returned whatever the prefix.
leafs_top : leafs {A = ℕ} (1 ∷ []) (insert toy_hash [] 5 new) ≡ 5 ∷ []
unfolding new insert leafs
leafs_top = refl

-- Another top node survives an extraction for the prefix 1.
extract_top :
    diff {A = ℕ} (extract toy_hash (1 ∷ []) 5 (insert toy_hash (4 ∷ []) 5 new)) new
    ≡ missing_other (4 ∷ []) ∷ []
unfolding new insert insert_with_hash extract diff
extract_top = refl

-- The tree in which a plain insertion is followed by an updating one elsewhere.
abbrev mixed : TreeSet ℕ
unfolding new insert insert_update
mixed =
    insert_update toy_hash (3 ∷ []) 4
      (insert toy_hash (1 ∷ []) 9 (insert_update toy_hash (1 ∷ []) 2 new))

-- Its root is not the one that the same insertions give when they all update.
mixed_stale :
    hash (rehash_tree toy_hash mixed).root
    ≢ hash {A = ℕ}
        (insert_update toy_hash
          (3 ∷ [])
          4
          (insert_update toy_hash (1 ∷ []) 9 (insert_update toy_hash (1 ∷ []) 2 new))).root
unfolding new insert insert_update rehash_tree
mixed_stale e = absurd (omega arith)

set1-IsTree : IsTree set1.root
unfolding new insert insert_with_hash rehash_tree
set1-IsTree = ground arith

set2-IsTree : IsTree set2.root
unfolding new insert insert_with_hash rehash_tree
set2-IsTree = ground arith

diff-nil_iff_example :
    (diff set1 set2 ≡ []) ↔ (signature (children set1.root) ≡ signature (children set2.root))
diff-nil_iff_example = diff-nil_iff set1 set2

diff-Tells_example : All (Tells [] (children set1.root) (children set2.root)) (diff set1 set2)
diff-Tells_example = diff-Tells set1 set2 set1-IsTree set2-IsTree

rehash_tree-insert_example :
    (rehash_tree toy_hash (insert toy_hash (1 ∷ 5 ∷ []) 3 set1)
      ≡ insert_update toy_hash (1 ∷ 5 ∷ []) 3 (rehash_tree toy_hash set1))
    × (rehash_tree toy_hash (insert_with_hash toy_hash (1 ∷ 5 ∷ []) 3 77 set1)
        ≡ insert_with_hash_update toy_hash (1 ∷ 5 ∷ []) 3 77 (rehash_tree toy_hash set1))
rehash_tree-insert_example = rehash_tree-insert toy_hash (1 ∷ 5 ∷ []) 3 77 set1

leafs-wanted_example :
    leafs (1 ∷ 2 ∷ []) set1 ≡ wanted_values (1 ∷ 2 ∷ []) (entries [] (children set1.root))
leafs-wanted_example = leafs-wanted (1 ∷ 2 ∷ []) set1

insert-IsTree_example : IsTree (Insert.insert toy_hash (1 ∷ 2 ∷ []) 5 none true set1.root)
insert-IsTree_example = insert-IsTree toy_hash (1 ∷ 2 ∷ []) 5 none true set1.root set1-IsTree

contains-insert_example :
    contains (1 ∷ 6 ∷ []) (Insert.insert toy_hash (1 ∷ 6 ∷ []) 8 none true set1.root)
    ≡ contains (1 ∷ 6 ∷ []) set1.root || is_prefix {A = ℕ} (1 ∷ 6 ∷ []) (1 ∷ 6 ∷ 8 ∷ [])
contains-insert_example =
    contains-insert toy_hash (1 ∷ 6 ∷ []) 8 none true set1.root (1 ∷ 6 ∷ []) set1-IsTree
