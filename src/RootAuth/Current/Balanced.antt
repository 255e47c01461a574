-- ===== src/RootAuth/Current/Balanced.antt =====
-- The Merkle root of data blocks is that of a balanced tree, which is described by where it splits.
use native.Mathlib.Nat.{pow-suc}
use tzap.Prelude.{
  ℕ, zero, suc, ◌+◌, ◌^◌, ◌≤◌, ◌<◌, ◌≡◌, ◌↔◌, refl, sym, ap, ◌∙◌, arith, List, [], ◌∷◌, ◌++◌, map,
  length, length-append, length-take, length-drop, take, drop, take-append-drop, get_or, inl, inr,
  Bool-cases, ltb,
}
use tzap.Prelude.Bytes.{to_le}
use tzap.Format.{block_kind_id, ok, ok-injective}
use tzap.RootAuth.Domains.{
  data_block_merkle_domain_v45, empty_merkle_domain, params_v45, root_auth_revision_params,
}
use tzap.RootAuth.Merkle.{
  last_level, DataBlockMerkleLeaf, node_hash, data_block_merkle_leaf_hash_with_params,
  data_block_merkle_root_from_leaf_hashes_with_params, data_block_merkle_root_for_revision,
}
use tzap.RootAuth.Merkle.Shape.{reduce, last_level_stable, reduce-append}
use tzap.RootAuth.Current.{data_block_merkle_root}

one_or_more : (k : ℕ) → 1 ≤ 2 ^ k
one_or_more zero = omega arith
one_or_more (suc k) = omega (arith, one_or_more k, pow-suc 2 k)

-- The greatest power of two below a number of two or more.
split_point : (n : ℕ) → (k : ℕ) × (2 ^ k < suc (suc n)) × (suc (suc n) ≤ 2 ^ k + 2 ^ k)
split_point zero = (0, omega arith, omega arith)
split_point (suc n) =
    let (k, less, most) = split_point n in
    elim (Bool-cases (ltb (suc (suc n)) (2 ^ k + 2 ^ k))) [
      | inl room ↦ (k, omega arith, ground arith)
      | inr full ↦ (suc k, ground (arith, pow-suc 2 k), ground (arith, pow-suc 2 k, one_or_more k))
    ]

module _ (sha256 : List ℕ → List ℕ) where
  -- The root of no blocks, of one, and of more: these split after the greatest power of two that
  -- leaves some, and the roots of both parts are hashed together.
  pub data IsRoot : List DataBlockMerkleLeaf → List ℕ → Type 0 where
    no_blocks :
        {leaves : List DataBlockMerkleLeaf} {root : List ℕ}
        → leaves ≡ []
        → root ≡ sha256 (empty_merkle_domain ++ data_block_merkle_domain_v45)
        → IsRoot leaves root
    one_block :
        {leaves : List DataBlockMerkleLeaf} {root : List ℕ} (leaf : DataBlockMerkleLeaf)
        → leaves ≡ leaf ∷ []
        → root
          ≡ sha256 (
              0x00
              ∷ (data_block_merkle_domain_v45
                  ++ (to_le 8 leaf.block_index
                      ++ (block_kind_id leaf.kind ∷ leaf.flags ∷ leaf.payload))))
        → IsRoot leaves root
    two_parts :
        {leaves : List DataBlockMerkleLeaf} {root : List ℕ} (k : ℕ)
        (xs ys : List DataBlockMerkleLeaf) (l r : List ℕ)
        → leaves ≡ xs ++ ys
        → length xs ≡ 2 ^ k
        → 1 ≤ length ys
        → length ys ≤ 2 ^ k
        → IsRoot xs l
        → IsRoot ys r
        → root ≡ sha256 (0x01 ∷ (data_block_merkle_domain_v45 ++ (l ++ r)))
        → IsRoot leaves root

  abbrev join : List ℕ → List ℕ → List ℕ
  join = node_hash sha256 params_v45

  abbrev leaf_hash : DataBlockMerkleLeaf → List ℕ
  leaf_hash = data_block_merkle_leaf_hash_with_params sha256 params_v45

  length-hashes :
      (leaves : List DataBlockMerkleLeaf) → length (map leaf_hash leaves) ≡ length leaves
  length-hashes [] = refl
  length-hashes (leaf ∷ leaves) = ap suc (length-hashes leaves)

  hashes-append :
      (xs ys : List DataBlockMerkleLeaf)
      → map leaf_hash (xs ++ ys) ≡ map leaf_hash xs ++ map leaf_hash ys
  hashes-append [] ys = refl
  hashes-append (x ∷ xs) ys = ap (λ hs. leaf_hash x ∷ hs) (hashes-append xs ys)

  -- The code gives what the loop leaves.
  root_of_reduced :
      (leaves : List DataBlockMerkleLeaf) (root : List ℕ)
      → reduce join (map leaf_hash leaves) ≡ root ∷ []
      → data_block_merkle_root sha256 leaves ≡ ok root
  unfolding data_block_merkle_root data_block_merkle_root_for_revision
      data_block_merkle_root_from_leaf_hashes_with_params root_auth_revision_params
  root_of_reduced [] root h = absurd (cc)
  root_of_reduced (leaf ∷ leaves) root h =
      let hashes = map leaf_hash leaves in
      let same =
        last_level_stable join (length hashes) (suc (length hashes)) (leaf_hash leaf ∷ hashes)
          (omega arith) (omega arith) in
      ap (λ level. ok (get_or level 0 [])) (same ∙ h)

  -- One or more blocks are reduced to their root.
  IsRoot-reduced :
      (leaves : List DataBlockMerkleLeaf) (root : List ℕ)
      → 1 ≤ length leaves
      → IsRoot leaves root
      → reduce join (map leaf_hash leaves) ≡ root ∷ []
  unfolding last_level
  IsRoot-reduced leaves root some_leaves (no_blocks empty e) =
      absurd (omega (arith, ap length empty))
  IsRoot-reduced leaves root some_leaves (one_block leaf single e) =
      ap (λ these. reduce join (map leaf_hash these)) single ∙ ap (λ hash. hash ∷ []) (sym e)
  IsRoot-reduced leaves root some_leaves (two_parts k xs ys l r split full more most left right e) =
      let power = one_or_more k in
      let n = length-hashes xs in
      let m = length-hashes ys in
      ap (λ these. reduce join (map leaf_hash these)) split
      ∙ ap (reduce join) (hashes-append xs ys)
      ∙ reduce-append join k (map leaf_hash xs) (map leaf_hash ys) l r (n ∙ full) (omega (arith, m))
          (omega (arith, m)) (IsRoot-reduced xs l (omega (arith, power)) left)
          (IsRoot-reduced ys r more right)
      ∙ ap (λ hash. hash ∷ []) (sym e)

  root_of_IsRoot :
      (leaves : List DataBlockMerkleLeaf) (root : List ℕ)
      → IsRoot leaves root
      → data_block_merkle_root sha256 leaves ≡ ok root
  unfolding data_block_merkle_root data_block_merkle_root_for_revision root_auth_revision_params
  root_of_IsRoot [] root (no_blocks empty e) = ap ok (sym e)
  root_of_IsRoot [] root (one_block leaf single e) = absurd (cc)
  root_of_IsRoot [] root (two_parts k xs ys l r split full more most left right e) =
      absurd (omega (arith, ap length split, length-append xs ys))
  root_of_IsRoot (leaf ∷ leaves) root h =
      root_of_reduced (leaf ∷ leaves) root (IsRoot-reduced (leaf ∷ leaves) root (omega arith) h)

  -- Every list of blocks has a root.
  blocks_have_one :
      (fuel : ℕ) (leaves : List DataBlockMerkleLeaf)
      → length leaves ≤ fuel
      → (root : List ℕ) × IsRoot leaves root
  blocks_have_one fuel [] h = (_, no_blocks refl refl)
  blocks_have_one fuel (leaf ∷ []) h = (_, one_block leaf refl refl)
  blocks_have_one zero (a ∷ b ∷ leaves) h = absurd (omega arith)
  blocks_have_one (suc fuel) (a ∷ b ∷ leaves) h =
      let all = a ∷ b ∷ leaves in
      let (k, less, most) = split_point (length leaves) in
      let power = one_or_more k in
      let xs = take (2 ^ k) all in
      let ys = drop (2 ^ k) all in
      let n = length-take (2 ^ k) all in
      let m = length-drop (2 ^ k) all in
      let (l, left) = blocks_have_one fuel xs (omega (arith, n)) in
      let (r, right) = blocks_have_one fuel ys (omega (arith, m)) in
      (
        _,
        two_parts k xs ys l r (sym (take-append-drop (2 ^ k) all)) (omega (arith, n))
            (omega (arith, m)) (omega (arith, m)) left right refl,
      )

  -- At the current revision data blocks have a root, and which, exactly as the balanced tree says.
  pub data_block_merkle_root_iff :
      (leaves : List DataBlockMerkleLeaf) (root : List ℕ)
      → (data_block_merkle_root sha256 leaves ≡ ok root) ↔ IsRoot leaves root
  data_block_merkle_root_iff leaves root = (there, root_of_IsRoot leaves root)
    where
      there : data_block_merkle_root sha256 leaves ≡ ok root → IsRoot leaves root
      there h =
          let (other, is_root) = blocks_have_one (length leaves) leaves (omega arith) in
          let same : other ≡ root = ok-injective (sym (root_of_IsRoot leaves other is_root) ∙ h) in
          rw same at is_root
