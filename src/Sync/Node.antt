-- ===== src/Sync/Node.antt =====
-- src/sync.rs: `Node`, its fields, `Default`, `U64Buffer`, `update_hash` and `rehash`.
use mintpool.Prelude.{ℕ, ◌/◌, ◌%◌, ◌^◌, Bool, true, false, Option, none, some, List, [], ◌∷◌, ◌++◌}
use mintpool.Prelude.Item.{Item}

-- `children: Vec<Node<T>>` is the list `Nodes`.
mutual
  pub data Node {ℓ} (A : Type ℓ) : Type ℓ where
    node :
        (value : A) (level hash : ℕ) (manual_hash : Option ℕ) (children : Nodes A) (dirty : Bool)
        → Node A

  pub data Nodes {ℓ} (A : Type ℓ) : Type ℓ where
    nil : Nodes A
    cons : Node A → Nodes A → Nodes A

module _ {ℓ} {A : Type ℓ} where
  abbrev pub value : Node A → A
  value (node v l h m cs d) = v

  abbrev pub level : Node A → ℕ
  level (node v l h m cs d) = l

  abbrev pub hash : Node A → ℕ
  hash (node v l h m cs d) = h

  abbrev pub children : Node A → Nodes A
  children (node v l h m cs d) = cs

  abbrev pub dirty : Node A → Bool
  dirty (node v l h m cs d) = d

-- `U64Buffer::update`: the four bytes that are hashed for a child's hash.
unfoldable pub u64_buffer : ℕ → List ℕ
u64_buffer v = (v / 2 ^ 24 % 256) ∷ (v / 2 ^ 16 % 256) ∷ (v / 2 ^ 8 % 256) ∷ (v % 256) ∷ []

module _ {ℓ} {A : Type ℓ} ⦃i : Item A⦄ where
  unfoldable pub default_node : Node A
  default_node = node i.default 0 0 none nil true

module _ {ℓ} {A : Type ℓ} where
  -- What the children's hashes feed to the hasher, in order.
  unfoldable pub child_bytes : Nodes A → List ℕ
  unfolding u64_buffer
  child_bytes nil = []
  child_bytes (cons c cs) = u64_buffer (hash c) ++ child_bytes cs

-- `xxh3` is the digest of the bytes that a fresh `Xxh3` was updated with.
module _ {ℓ} {A : Type ℓ} ⦃i : Item A⦄ (xxh3 : List ℕ → ℕ) where
  unfoldable pub update_hash : Node A → Node A
  unfolding child_bytes
  update_hash (node v l h (some m) cs d) = node v l m (some m) cs false
  update_hash (node v l h none cs false) = node v l h none cs false
  update_hash (node v l h none cs true) =
      node v l (xxh3 (child_bytes cs ++ i.as_ref v)) none cs false

  unfoldable mutual
    unfolding update_hash

    pub rehash : Node A → Node A
    rehash (node v l h m cs d) = update_hash (node v l h m (rehash_children cs) d)

    pub rehash_children : Nodes A → Nodes A
    rehash_children nil = nil
    rehash_children (cons c cs) = cons (rehash c) (rehash_children cs)
