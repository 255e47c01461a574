-- ===== src/RootAuth/Examples.antt =====
-- Digests at concrete inputs, where a sum of bytes stands in for SHA-256.
use mathlib.Core.List.{Memᴰ}
use tzap.Prelude.{ℕ, ◌≡◌, refl, arith, ◌⊎◌, List, [], ◌∷◌, replicate, true, false, All}
use tzap.Prelude.Bytes.{to_le}
use tzap.Format.{payload_data, CompressionAlgo, AeadAlgo, FecAlgo, KdfAlgo, ok}
use tzap.Metadata.Samples.{short_digest}
use tzap.RootAuth.Domains.{
  params_v45, root_auth_revision_params, data_block_merkle_domain_v45, fec_layout_domain_v45,
}
use tzap.RootAuth.Messages.{Collision}
use tzap.RootAuth.Digests.{
  FecLayoutObjectRow, ArchiveRootInputs, fec_layout_message, fec_layout_digest_for_revision,
  archive_root_message, archive_root_for_revision,
}
use tzap.RootAuth.Digests.Layout.{IsRow, fec_layout_digest-injective}
use tzap.RootAuth.Digests.Archive.{IsInputs, archive_root-injective}
use tzap.RootAuth.Merkle.{DataBlockMerkleLeaf, data_block_merkle_root_for_revision}
use tzap.RootAuth.Merkle.Hashed.{hashed_messages}
use tzap.RootAuth.Merkle.Root.{data_block_merkle_root-injective}

abbrev block : ℕ → List ℕ → DataBlockMerkleLeaf
block index payload = record {
  block_index = index;
  kind = payload_data;
  flags = 0;
  payload = payload;
}

abbrev three_blocks : List DataBlockMerkleLeaf
three_blocks = block 0 (1 ∷ 2 ∷ []) ∷ block 1 (3 ∷ []) ∷ block 2 (4 ∷ []) ∷ []

abbrev other_blocks : List DataBlockMerkleLeaf
other_blocks = block 0 (2 ∷ 1 ∷ []) ∷ block 1 (3 ∷ []) ∷ block 2 (4 ∷ []) ∷ []

-- The root that both lists have, since the digest does not see the order of bytes.
abbrev root_sample : List ℕ
root_sample = 98 ∷ replicate 31 0

three_blocks_root :
    data_block_merkle_root_for_revision short_digest 1 45 three_blocks ≡ ok root_sample
unfolding data_block_merkle_root_for_revision to_le root_auth_revision_params
three_blocks_root = refl

other_blocks_root :
    data_block_merkle_root_for_revision short_digest 1 45 other_blocks ≡ ok root_sample
unfolding data_block_merkle_root_for_revision to_le root_auth_revision_params
other_blocks_root = refl

data_block_merkle_root-injective_example :
    (three_blocks ≡ other_blocks)
    ⊎ Collision short_digest
        (λ m. Memᴰ m (hashed_messages short_digest data_block_merkle_domain_v45 three_blocks))
        (λ m. Memᴰ m (hashed_messages short_digest data_block_merkle_domain_v45 other_blocks))
data_block_merkle_root-injective_example =
    data_block_merkle_root-injective short_digest 1 45 three_blocks other_blocks root_sample
      (λ m. refl) (omega arith, (omega arith, (omega arith, tt)))
      (omega arith, (omega arith, (omega arith, tt))) three_blocks_root other_blocks_root

abbrev row_sample : FecLayoutObjectRow
row_sample = record {
  object_class = 1;
  present = true;
  object_id = 7;
  first_block_index = 12;
  data_block_count = 4;
  parity_block_count = 2;
  encrypted_size = 9000;
  plain_size = 8900;
}

abbrev rows_sample : List FecLayoutObjectRow
rows_sample = row_sample ∷ (record row_sample { present = false; object_id = 8 }) ∷ []

row_sample-IsRow : IsRow row_sample
row_sample-IsRow = record {
  object_id_u64 = omega arith;
  first_block_index_u64 = omega arith;
  data_block_count_u32 = omega arith;
  parity_block_count_u32 = omega arith;
  encrypted_size_u32 = omega arith;
  plain_size_u32 = omega arith;
}

rows_sample-IsRow : All IsRow rows_sample
rows_sample-IsRow = (
  row_sample-IsRow,
  (
    record {
      object_id_u64 = omega arith;
      first_block_index_u64 = omega arith;
      data_block_count_u32 = omega arith;
      parity_block_count_u32 = omega arith;
      encrypted_size_u32 = omega arith;
      plain_size_u32 = omega arith;
    },
    tt,
  ),
)

abbrev layout_sample : List ℕ
layout_sample = short_digest (fec_layout_message fec_layout_domain_v45 rows_sample)

layout_sample_digest :
    fec_layout_digest_for_revision short_digest 1 45 rows_sample ≡ ok layout_sample
unfolding fec_layout_digest_for_revision to_le root_auth_revision_params
layout_sample_digest = refl

fec_layout_digest-injective_example :
    (rows_sample ≡ rows_sample)
    ⊎ Collision short_digest
        (λ m. m ≡ fec_layout_message fec_layout_domain_v45 rows_sample)
        (λ m. m ≡ fec_layout_message fec_layout_domain_v45 rows_sample)
fec_layout_digest-injective_example =
    fec_layout_digest-injective short_digest 1 45 rows_sample rows_sample layout_sample
      rows_sample-IsRow rows_sample-IsRow layout_sample_digest layout_sample_digest

abbrev inputs_sample : ArchiveRootInputs
inputs_sample = record {
  archive_uuid = replicate 16 1;
  session_id = replicate 16 2;
  format_version = 1;
  volume_format_rev = 45;
  compression_algo = CompressionAlgo.none;
  aead_algo = AeadAlgo.none;
  fec_algo = FecAlgo.none;
  kdf_algo = KdfAlgo.none;
  critical_metadata_digest = replicate 32 8;
  index_digest = replicate 32 3;
  fec_layout_digest = replicate 32 4;
  total_data_block_count = 2;
  data_block_merkle_root = replicate 32 5;
  root_auth_descriptor_digest = replicate 32 6;
  signer_identity_digest = replicate 32 7;
}

-- Another order of two digests.
abbrev other_inputs : ArchiveRootInputs
other_inputs = record inputs_sample {
  index_digest = replicate 32 4;
  fec_layout_digest = replicate 32 3;
}

inputs_sample-IsInputs : IsInputs inputs_sample
inputs_sample-IsInputs = record {
  archive_uuid_16 = refl;
  session_id_16 = refl;
  format_version_u16 = omega arith;
  volume_format_rev_u16 = omega arith;
  critical_metadata_digest_32 = refl;
  index_digest_32 = refl;
  fec_layout_digest_32 = refl;
  total_data_block_count_u64 = omega arith;
  data_block_merkle_root_32 = refl;
  root_auth_descriptor_digest_32 = refl;
}

other_inputs-IsInputs : IsInputs other_inputs
other_inputs-IsInputs = record {
  archive_uuid_16 = refl;
  session_id_16 = refl;
  format_version_u16 = omega arith;
  volume_format_rev_u16 = omega arith;
  critical_metadata_digest_32 = refl;
  index_digest_32 = refl;
  fec_layout_digest_32 = refl;
  total_data_block_count_u64 = omega arith;
  data_block_merkle_root_32 = refl;
  root_auth_descriptor_digest_32 = refl;
}

abbrev archive_sample : List ℕ
archive_sample = short_digest (archive_root_message params_v45 inputs_sample)

inputs_sample_root : archive_root_for_revision short_digest inputs_sample ≡ ok archive_sample
unfolding archive_root_for_revision to_le root_auth_revision_params
inputs_sample_root = refl

other_inputs_root : archive_root_for_revision short_digest other_inputs ≡ ok archive_sample
unfolding archive_root_for_revision to_le root_auth_revision_params
other_inputs_root = refl

archive_root-injective_example :
    (inputs_sample ≡ other_inputs)
    ⊎ Collision short_digest
        (λ m. m ≡ archive_root_message params_v45 inputs_sample)
        (λ m. m ≡ archive_root_message params_v45 other_inputs)
archive_root-injective_example =
    archive_root-injective short_digest inputs_sample other_inputs archive_sample
      inputs_sample-IsInputs other_inputs-IsInputs inputs_sample_root other_inputs_root
