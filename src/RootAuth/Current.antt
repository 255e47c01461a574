-- ===== src/RootAuth/Current.antt =====
-- The functions of crates/tzap-core/src/root_auth.rs for the current revision, of which some expect
-- that they do not fail, and those for one leaf and for leaf hashes.
pub mod Balanced
mod Examples
use tzap.Prelude.{ℕ, ◌≡◌, refl, List, [], ◌∷◌, map}
use tzap.Format.{Result, ok, ◌>>=◌, format_version, volume_format_rev_45}
use tzap.RootAuth.Domains.{root_auth_revision_params, params_v45}
use tzap.RootAuth.Digests.{
  FecLayoutObjectRow, root_auth_descriptor_digest_for_revision, index_digest_for_revision,
  fec_layout_digest_for_revision,
}
use tzap.RootAuth.Merkle.{
  DataBlockMerkleLeaf, data_block_merkle_leaf_hash_with_params,
  data_block_merkle_root_from_leaf_hashes_with_params, data_block_merkle_root_for_revision,
}

module _ (sha256 : List ℕ → List ℕ) where
  unfoldable pub root_auth_descriptor_digest : ℕ → ℕ → List ℕ → ℕ → ℕ → Result (List ℕ)
  unfolding root_auth_descriptor_digest_for_revision
  root_auth_descriptor_digest =
      root_auth_descriptor_digest_for_revision sha256 format_version volume_format_rev_45

  unfoldable pub index_digest : List ℕ → Result (List ℕ)
  unfolding index_digest_for_revision root_auth_revision_params
  index_digest = index_digest_for_revision sha256 format_version volume_format_rev_45

  unfoldable pub fec_layout_digest : List FecLayoutObjectRow → Result (List ℕ)
  unfolding fec_layout_digest_for_revision
  fec_layout_digest = fec_layout_digest_for_revision sha256 format_version volume_format_rev_45

  unfoldable pub data_block_merkle_root : List DataBlockMerkleLeaf → Result (List ℕ)
  unfolding data_block_merkle_root_for_revision root_auth_revision_params
  data_block_merkle_root =
      data_block_merkle_root_for_revision sha256 format_version volume_format_rev_45

  -- The arguments of the source are the fields of a leaf.
  unfoldable pub data_block_merkle_leaf_hash_for_revision :
      ℕ → ℕ → DataBlockMerkleLeaf → Result (List ℕ)
  data_block_merkle_leaf_hash_for_revision version revision leaf =
      root_auth_revision_params version revision
      >>= (λ params. ok (data_block_merkle_leaf_hash_with_params sha256 params leaf))

  unfoldable pub data_block_merkle_leaf_hash : DataBlockMerkleLeaf → Result (List ℕ)
  unfolding data_block_merkle_leaf_hash_for_revision root_auth_revision_params
  data_block_merkle_leaf_hash =
      data_block_merkle_leaf_hash_for_revision format_version volume_format_rev_45

  unfoldable pub data_block_merkle_root_from_leaf_hashes_for_revision :
      ℕ → ℕ → List (List ℕ) → Result (List ℕ)
  unfolding data_block_merkle_root_from_leaf_hashes_with_params
  data_block_merkle_root_from_leaf_hashes_for_revision version revision leaf_hashes =
      root_auth_revision_params version revision >>= (λ params.
        ok (data_block_merkle_root_from_leaf_hashes_with_params sha256 params leaf_hashes))

  unfoldable pub data_block_merkle_root_from_leaf_hashes : List (List ℕ) → Result (List ℕ)
  unfolding data_block_merkle_root_from_leaf_hashes_for_revision root_auth_revision_params
  data_block_merkle_root_from_leaf_hashes =
      data_block_merkle_root_from_leaf_hashes_for_revision format_version volume_format_rev_45
