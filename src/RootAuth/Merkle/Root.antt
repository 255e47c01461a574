-- ===== src/RootAuth/Merkle/Root.antt =====
-- A Merkle root stands for one list of data blocks, as far as SHA-256 has no collision.
use mathlib.Core.List.{Memᴰ}
use mathlib.Core.List.Memᴰ
use tzap.Prelude.{
  ℕ, suc, ◌≡◌, refl, sym, ap, ◌∙◌, ◌⊎◌, inl, inr, arith, List, [], ◌∷◌, map, length, All,
  append-nil, get_or,
}
use tzap.Format.{ok, ok-injective, first_succeeds}
use tzap.RootAuth.Domains.{
  data_block_merkle_domain_v45, root_auth_revision_params, revision-params_v45,
}
use tzap.RootAuth.Messages.{Collision, same_or_Collision, Collision-swap}
use tzap.RootAuth.Merkle.{
  DataBlockMerkleLeaf, last_level, leaf_message, empty_message,
  data_block_merkle_root_from_leaf_hashes_with_params, data_block_merkle_root_for_revision,
}
use tzap.RootAuth.Merkle.Trees.{
  Tree, leaf, node, leaves_of, all_leaves, all_leaves-last_level, all_leaves-map, last_level_single,
  map-last_level, map-next_level,
}
use tzap.RootAuth.Merkle.Hashed.{
  IsLeaf, join_hashes, leaf_hash, hashed_messages, tree_hash, KnownTree, last_level-KnownTree,
  leaves-KnownTree, map-leaf-hash,
}
use tzap.RootAuth.Merkle.Binding.{head_of, tree_hash-injective}

length-map : {A B : Type 0} (f : A → B) (xs : List A) → length (map f xs) ≡ length xs
length-map f [] = refl
length-map f (x ∷ xs) = ap suc (length-map f xs)

module _ (sha256 : List ℕ → List ℕ) (domain : List ℕ) where
  abbrev Hashed : List DataBlockMerkleLeaf → List ℕ → Type 0
  Hashed blocks m = Memᴰ m (hashed_messages sha256 domain blocks)

  -- The root of a list of blocks, whatever the revision.
  abbrev root_of : List DataBlockMerkleLeaf → List ℕ
  root_of [] = sha256 (empty_message domain)
  root_of (first ∷ rest) =
      get_or
        (last_level (join_hashes sha256 domain) (length rest)
          (map (leaf_hash sha256 domain) (first ∷ rest)))
        0 []

  -- The tree of one or more blocks.
  tree_of_blocks :
      (first : DataBlockMerkleLeaf) (rest : List DataBlockMerkleLeaf)
      → All IsLeaf (first ∷ rest)
      → (t : Tree DataBlockMerkleLeaf) × (leaves_of t ≡ first ∷ rest)
        × KnownTree sha256 domain (Hashed (first ∷ rest)) t
        × (tree_hash sha256 domain t ≡ root_of (first ∷ rest))
  tree_of_blocks first rest h =
      let blocks = first ∷ rest in
      let hash = tree_hash sha256 domain in
      let join = join_hashes sha256 domain in
      let n = length rest in
      let (t, single) =
        last_level_single node n (leaf first) (map leaf rest)
          (omega (arith, length-map leaf rest)) in
      let agree = map-next_level hash node join (λ l r. refl) in
      let hashes = map-leaf-hash sha256 domain blocks in
      let known : All (KnownTree sha256 domain (Hashed blocks))
          (last_level node n (map leaf blocks)) =
        last_level-KnownTree sha256 domain (Hashed blocks) agree n (map leaf blocks)
          (λ m p. Memᴰ.append_right (map (leaf_message domain) blocks) (rw hashes at p))
          (leaves-KnownTree sha256 domain (Hashed blocks) blocks (λ m p. Memᴰ.append_left _ p) h) in
      let known_single : All (KnownTree sha256 domain (Hashed blocks)) (t ∷ []) =
        rw single at known in
      let level : t ∷ [] ≡ last_level node n (map leaf blocks) = sym single in
      (
        t,
        sym (append-nil (leaves_of t))
            ∙ ap all_leaves level
            ∙ all_leaves-last_level n (map leaf blocks)
            ∙ all_leaves-map blocks,
        known_single.0,
        ap (λ ts. get_or (map hash ts) 0 []) level
            ∙ ap (λ hs. get_or hs 0 [])
                (map-last_level hash node join (λ l r. refl) n (map leaf blocks))
            ∙ ap (λ hs. get_or (last_level join n hs) 0 []) hashes,
      )

  -- No tree has the root of no blocks.
  empty_or_Collision :
      (Here There : List ℕ → Type 0) (t : Tree DataBlockMerkleLeaf)
      → Here (empty_message domain)
      → KnownTree sha256 domain There t
      → sha256 (empty_message domain) ≡ tree_hash sha256 domain t
      → Collision sha256 Here There
  empty_or_Collision Here There (leaf b) k (hb, kb) h =
      elim (same_or_Collision sha256 Here There _ _ k kb h) [
        | inl same ↦ absurd (let differ : 116 ≡ 0 = ap head_of same in omega (arith, differ))
        | inr collision ↦ collision
      ]
  empty_or_Collision Here There (node l r) k (kt, rest) h =
      elim (same_or_Collision sha256 Here There _ _ k kt h) [
        | inl same ↦ absurd (let differ : 116 ≡ 1 = ap head_of same in omega (arith, differ))
        | inr collision ↦ collision
      ]

  module _ (digest_length : (m : List ℕ) → length (sha256 m) ≡ 32) where
    root_of-injective :
        (xs ys : List DataBlockMerkleLeaf)
        → All IsLeaf xs
        → All IsLeaf ys
        → root_of xs ≡ root_of ys
        → (xs ≡ ys) ⊎ Collision sha256 (Hashed xs) (Hashed ys)
    root_of-injective [] [] hx hy h = inl refl
    root_of-injective [] (y ∷ ys) hx hy h =
        let (t, leaves, known, hash) = tree_of_blocks y ys hy in
        inr
          (empty_or_Collision (Hashed []) (Hashed (y ∷ ys)) t (Memᴰ.head refl) known (h ∙ sym hash))
    root_of-injective (x ∷ xs) [] hx hy h =
        let (t, leaves, known, hash) = tree_of_blocks x xs hx in
        inr (
          Collision-swap (
            empty_or_Collision (Hashed []) (Hashed (x ∷ xs)) t (Memᴰ.head refl) known
              (sym h ∙ sym hash)))
    root_of-injective (x ∷ xs) (y ∷ ys) hx hy h =
        let (s, leaves_s, known_s, hash_s) = tree_of_blocks x xs hx in
        let (t, leaves_t, known_t, hash_t) = tree_of_blocks y ys hy in
        elim (tree_hash-injective sha256 digest_length domain (Hashed (x ∷ xs)) (Hashed (y ∷ ys)) s
          t known_s known_t (hash_s ∙ h ∙ sym hash_t)) [
            | inl same ↦ inl (sym leaves_s ∙ ap leaves_of same ∙ leaves_t)
            | inr collision ↦ inr collision
          ]

module _ (sha256 : List ℕ → List ℕ) where
  revision_root :
      (version revision : ℕ) (blocks : List DataBlockMerkleLeaf) (root : List ℕ)
      → data_block_merkle_root_for_revision sha256 version revision blocks ≡ ok root
      → root ≡ root_of sha256 data_block_merkle_domain_v45 blocks
  unfolding data_block_merkle_root_for_revision data_block_merkle_root_from_leaf_hashes_with_params
  revision_root version revision [] root h =
      let (params, p, q) = first_succeeds (root_auth_revision_params version revision) _ root h in
      ok-injective (sym q)
      ∙ ap (λ d. root_of sha256 d [])
          (ap (λ known. known.data_block_merkle_domain)
            (revision-params_v45 version revision params p))
  revision_root version revision (x ∷ xs) root h =
      let (params, p, q) = first_succeeds (root_auth_revision_params version revision) _ root h in
      let n = length-map (leaf_hash sha256 params.data_block_merkle_domain) xs in
      ok-injective (sym (rw n at q))
      ∙ ap (λ d. root_of sha256 d (x ∷ xs))
          (ap (λ known. known.data_block_merkle_domain)
            (revision-params_v45 version revision params p))

-- Two lists of data blocks, with block indexes of 64 bits, that have one root at a revision are
-- the same list, of whatever lengths, or a message hashed for the one and a different message
-- hashed for the other have one digest; digests have 32 bytes.
pub data_block_merkle_root-injective :
    (sha256 : List ℕ → List ℕ) (version revision : ℕ) (xs ys : List DataBlockMerkleLeaf)
    (root : List ℕ)
    → ((m : List ℕ) → length (sha256 m) ≡ 32)
    → All IsLeaf xs
    → All IsLeaf ys
    → data_block_merkle_root_for_revision sha256 version revision xs ≡ ok root
    → data_block_merkle_root_for_revision sha256 version revision ys ≡ ok root
    → (xs ≡ ys)
      ⊎ Collision sha256
          (λ m. Memᴰ m (hashed_messages sha256 data_block_merkle_domain_v45 xs))
          (λ m. Memᴰ m (hashed_messages sha256 data_block_merkle_domain_v45 ys))
data_block_merkle_root-injective sha256 version revision xs ys root digest_length hx hy p q =
    root_of-injective sha256 data_block_merkle_domain_v45 digest_length xs ys hx hy (
      sym (revision_root sha256 version revision xs root p)
      ∙ revision_root sha256 version revision ys root q)
