-- ===== src/RootAuth/Merkle.antt =====
-- The Merkle tree over data blocks: `data_block_merkle_root_for_revision` of
-- crates/tzap-core/src/root_auth.rs. SHA-256 is an argument.
pub mod Trees
pub mod Shape
pub mod Hashed
mod Binding
pub mod Root
use tzap.Prelude.{ℕ, zero, suc, ◌-◌, List, [], ◌∷◌, ◌++◌, map, length, get_or}
use tzap.Prelude.Bytes.{to_le}
use tzap.Format.{BlockKind, block_kind_id, Result, ok, ◌>>=◌}
use tzap.RootAuth.Domains.{RootAuthRevisionParams, root_auth_revision_params, empty_merkle_domain}

pub record DataBlockMerkleLeaf : Type 0 where
  pub block_index : ℕ
  pub kind : BlockKind
  pub flags : ℕ
  pub payload : List ℕ

-- One round of the loop: neighbours are joined, and a last one without a neighbour stays.
unfoldable pub next_level {ℓ} : {A : Type ℓ} → (A → A → A) → List A → List A
next_level join [] = []
next_level join (x ∷ []) = x ∷ []
next_level join (x ∷ y ∷ rest) = join x y ∷ next_level join rest

-- The loop, of `fuel` rounds at most, as long as there is more than one.
unfoldable pub last_level {ℓ} : {A : Type ℓ} → (A → A → A) → ℕ → List A → List A
unfolding next_level
last_level join zero level = level
last_level join (suc fuel) [] = []
last_level join (suc fuel) (x ∷ []) = x ∷ []
last_level join (suc fuel) (x ∷ y ∷ rest) = last_level join fuel (next_level join (x ∷ y ∷ rest))

-- What is hashed for a leaf, for two neighbours, and where there are no blocks.
abbrev pub leaf_message : List ℕ → DataBlockMerkleLeaf → List ℕ
leaf_message domain leaf =
    0x00
    ∷ (domain
        ++ (to_le 8 leaf.block_index ++ (block_kind_id leaf.kind ∷ leaf.flags ∷ leaf.payload)))

abbrev pub node_message : List ℕ → List ℕ → List ℕ → List ℕ
node_message domain left right = 0x01 ∷ (domain ++ (left ++ right))

abbrev pub empty_message : List ℕ → List ℕ
empty_message domain = empty_merkle_domain ++ domain

module _ (sha256 : List ℕ → List ℕ) where
  abbrev pub data_block_merkle_leaf_hash_with_params :
      RootAuthRevisionParams → DataBlockMerkleLeaf → List ℕ
  data_block_merkle_leaf_hash_with_params params leaf =
      sha256 (leaf_message params.data_block_merkle_domain leaf)

  abbrev pub node_hash : RootAuthRevisionParams → List ℕ → List ℕ → List ℕ
  node_hash params left right = sha256 (node_message params.data_block_merkle_domain left right)

  abbrev pub empty_data_block_merkle_root : RootAuthRevisionParams → List ℕ
  empty_data_block_merkle_root params = sha256 (empty_message params.data_block_merkle_domain)

  unfoldable pub data_block_merkle_root_from_leaf_hashes_with_params :
      RootAuthRevisionParams → List (List ℕ) → List ℕ
  unfolding last_level
  data_block_merkle_root_from_leaf_hashes_with_params params [] =
      empty_data_block_merkle_root params
  data_block_merkle_root_from_leaf_hashes_with_params params (first ∷ rest) =
      get_or (last_level (node_hash params) (length rest) (first ∷ rest)) 0 []

  unfoldable pub data_block_merkle_root_for_revision :
      ℕ → ℕ → List DataBlockMerkleLeaf → Result (List ℕ)
  unfolding data_block_merkle_root_from_leaf_hashes_with_params
  data_block_merkle_root_for_revision version revision leaves =
      root_auth_revision_params version revision >>= (λ params. elim leaves [
        | [] ↦ ok (empty_data_block_merkle_root params)
        | first ∷ rest ↦ ok (
            data_block_merkle_root_from_leaf_hashes_with_params params
              (map (data_block_merkle_leaf_hash_with_params params) (first ∷ rest)))
      ])
