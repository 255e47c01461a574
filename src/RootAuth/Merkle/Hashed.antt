-- ===== src/RootAuth/Merkle/Hashed.antt =====
-- The messages that are hashed on the way to a Merkle root, and the tree that they make.
use mathlib.Core.List.{Memᴰ}
use mathlib.Core.List.Memᴰ
use tzap.Prelude.{ℕ, zero, suc, ◌^◌, ◌<◌, ◌≡◌, refl, ap, List, [], ◌∷◌, ◌++◌, map, length, All}
use tzap.RootAuth.Merkle.{
  DataBlockMerkleLeaf, next_level, last_level, leaf_message, node_message, empty_message,
}
use tzap.RootAuth.Merkle.Trees.{Tree, leaf, node}

abbrev pub level_messages : List ℕ → List (List ℕ) → List (List ℕ)
level_messages domain [] = []
level_messages domain (x ∷ []) = []
level_messages domain (x ∷ y ∷ rest) = node_message domain x y ∷ level_messages domain rest

abbrev pub IsLeaf : DataBlockMerkleLeaf → Type 0
IsLeaf block = block.block_index < 2 ^ 64

module _ (sha256 : List ℕ → List ℕ) (domain : List ℕ) where
  abbrev pub join_hashes : List ℕ → List ℕ → List ℕ
  join_hashes left right = sha256 (node_message domain left right)

  abbrev pub leaf_hash : DataBlockMerkleLeaf → List ℕ
  leaf_hash block = sha256 (leaf_message domain block)

  -- The messages of all rounds of the loop.
  abbrev pub round_messages : ℕ → List (List ℕ) → List (List ℕ)
  round_messages zero level = []
  round_messages (suc fuel) [] = []
  round_messages (suc fuel) (x ∷ []) = []
  round_messages (suc fuel) (x ∷ y ∷ rest) =
      level_messages domain (x ∷ y ∷ rest)
      ++ round_messages fuel (next_level join_hashes (x ∷ y ∷ rest))

  -- All that is hashed for a list of data blocks.
  abbrev pub hashed_messages : List DataBlockMerkleLeaf → List (List ℕ)
  hashed_messages [] = empty_message domain ∷ []
  hashed_messages (first ∷ rest) =
      map (leaf_message domain) (first ∷ rest)
      ++ round_messages (length rest) (map leaf_hash (first ∷ rest))

  abbrev pub tree_hash : Tree DataBlockMerkleLeaf → List ℕ
  tree_hash (leaf block) = leaf_hash block
  tree_hash (node l r) = join_hashes (tree_hash l) (tree_hash r)

  module _ (Known : List ℕ → Type 0) where
    -- The messages of a tree are known, and its leaves have block indexes of 64 bits.
    abbrev pub KnownTree : Tree DataBlockMerkleLeaf → Type 0
    KnownTree (leaf block) = IsLeaf block × Known (leaf_message domain block)
    KnownTree (node l r) =
        Known (node_message domain (tree_hash l) (tree_hash r)) × (KnownTree l × KnownTree r)

    next_level-KnownTree :
        (ts : List (Tree DataBlockMerkleLeaf))
        → ((m : List ℕ) → Memᴰ m (level_messages domain (map tree_hash ts)) → Known m)
        → All KnownTree ts
        → All KnownTree (next_level node ts)
    unfolding next_level
    next_level-KnownTree [] k h = tt
    next_level-KnownTree (t ∷ []) k h = h
    next_level-KnownTree (s ∷ t ∷ ts) k (ks, (kt, h)) =
        ((k _ (Memᴰ.head refl), (ks, kt)), next_level-KnownTree ts (λ m p. k m (Memᴰ.tail p)) h)

    pub last_level-KnownTree :
        (agree : (ts : List (Tree DataBlockMerkleLeaf))
          → map tree_hash (next_level node ts) ≡ next_level join_hashes (map tree_hash ts))
        (fuel : ℕ) (ts : List (Tree DataBlockMerkleLeaf))
        → ((m : List ℕ) → Memᴰ m (round_messages fuel (map tree_hash ts)) → Known m)
        → All KnownTree ts
        → All KnownTree (last_level node fuel ts)
    unfolding last_level next_level
    last_level-KnownTree agree zero ts k h = h
    last_level-KnownTree agree (suc fuel) [] k h = h
    last_level-KnownTree agree (suc fuel) (t ∷ []) k h = h
    last_level-KnownTree agree (suc fuel) (s ∷ t ∷ ts) k h =
        let here = level_messages domain (map tree_hash (s ∷ t ∷ ts)) in
        last_level-KnownTree agree fuel (next_level node (s ∷ t ∷ ts))
          (λ m p. k m (Memᴰ.append_right here (rw (agree (s ∷ t ∷ ts)) at p)))
          (next_level-KnownTree (s ∷ t ∷ ts) (λ m p. k m (Memᴰ.append_left _ p)) h)

    pub leaves-KnownTree :
        (blocks : List DataBlockMerkleLeaf)
        → ((m : List ℕ) → Memᴰ m (map (leaf_message domain) blocks) → Known m)
        → All IsLeaf blocks
        → All KnownTree (map leaf blocks)
    leaves-KnownTree [] k h = tt
    leaves-KnownTree (b ∷ blocks) k (p, h) =
        ((p, k _ (Memᴰ.head refl)), leaves-KnownTree blocks (λ m q. k m (Memᴰ.tail q)) h)

  pub map-leaf-hash :
      (blocks : List DataBlockMerkleLeaf) → map tree_hash (map leaf blocks) ≡ map leaf_hash blocks
  map-leaf-hash [] = refl
  map-leaf-hash (b ∷ blocks) = ap (λ hs. leaf_hash b ∷ hs) (map-leaf-hash blocks)
