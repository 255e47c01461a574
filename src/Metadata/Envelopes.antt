-- ===== src/Metadata/Envelopes.antt =====
-- The envelope table of an index shard: `validate_envelope_table` and the checks of extents of
-- crates/tzap-core/src/metadata.rs.
pub mod Bounds
mod Examples
use Prim.Native.String.{String}
use tzap.Prelude.{
  ℕ, ◌+◌, ◌*◌, ◌-◌, ◌^◌, List, [], ◌∷◌, ltb, leb, not, ◌==◌, ◌||◌, Option, some, none,
  if◌then◌else◌,
}
use tzap.Format.{
  Result, ok, err, ◌>>◌, ◌>>=◌, reject_if, ok_or, invalid_metadata, metadata_arithmetic_overflow,
}
use tzap.Metadata.Rows.{FrameEntry, EnvelopeEntry}
use tzap.Metadata.Frames.{checked_add_u64}

pub record MetadataLimits : Type 0 where
  pub block_size : ℕ
  pub max_path_length : ℕ
  pub max_hash_collision_shard_scan : ℕ
  pub max_shard_count : ℕ
  pub max_directory_hint_shards : ℕ
  pub max_files_per_index_shard : ℕ
  pub max_entries_per_directory_hint_shard : ℕ
  pub max_payload_data_shards : ℕ
  pub max_payload_parity_shards : ℕ
  pub max_index_data_shards : ℕ
  pub max_index_parity_shards : ℕ
  pub max_index_root_data_shards : ℕ
  pub max_index_root_parity_shards : ℕ

-- `MetadataLimits::default`
abbrev pub default_limits : MetadataLimits
default_limits = record {
  block_size = 4096;
  max_path_length = 4096;
  max_hash_collision_shard_scan = 16;
  max_shard_count = 1000000;
  max_directory_hint_shards = 1000000;
  max_files_per_index_shard = 1000000;
  max_entries_per_directory_hint_shard = 1000000;
  max_payload_data_shards = 2 ^ 16 - 1;
  max_payload_parity_shards = 2 ^ 16 - 1;
  max_index_data_shards = 2 ^ 16 - 1;
  max_index_parity_shards = 2 ^ 16 - 1;
  max_index_root_data_shards = 2 ^ 16 - 1;
  max_index_root_parity_shards = 2 ^ 16 - 1;
}

abbrev pub reed_solomon_gf16_max_total_shards : ℕ
reed_solomon_gf16_max_total_shards = 65535

-- `checked_mul` on `u64`.
abbrev pub checked_mul_u64 : ℕ → ℕ → Option ℕ
checked_mul_u64 a b = if ltb (a * b) (2 ^ 64) then some (a * b) else none

unfoldable pub validate_encrypted_extent : String → ℕ → ℕ → ℕ → Result (Unit {0})
validate_encrypted_extent structure data_block_count encrypted_size block_size = do
  reject_if (data_block_count == 0 || encrypted_size == 0)
      (invalid_metadata structure "encrypted object has zero data blocks or size")
  expected ←
      ok_or (checked_mul_u64 data_block_count block_size) (metadata_arithmetic_overflow structure)
  reject_if (ltb (2 ^ 32 - 1) expected || not (expected == encrypted_size))
      (invalid_metadata structure "encrypted_size is not data_block_count * block_size")

unfoldable pub validate_fec_class_extent : String → ℕ → ℕ → ℕ → ℕ → Result (Unit {0})
validate_fec_class_extent structure data_block_count parity_block_count data_shard_max
      parity_shard_max =
    do
      reject_if (ltb data_shard_max data_block_count)
          (invalid_metadata structure "data_block_count exceeds class maximum")
      reject_if (ltb parity_shard_max parity_block_count)
          (invalid_metadata structure "parity_block_count exceeds class maximum")
      reject_if (ltb reed_solomon_gf16_max_total_shards (data_block_count + parity_block_count)) (
          invalid_metadata structure
            "data_block_count + parity_block_count exceeds ReedSolomonGF16 limit")

unfoldable pub validate_envelope : MetadataLimits → EnvelopeEntry → Result (Unit {0})
unfolding validate_encrypted_extent validate_fec_class_extent
validate_envelope limits envelope = do
  reject_if (envelope.frame_count == 0 || envelope.plaintext_size == 0)
      (invalid_metadata "EnvelopeEntry" "payload envelope has no frame plaintext")
  validate_encrypted_extent "EnvelopeEntry" envelope.data_block_count envelope.encrypted_size
      limits.block_size
  validate_fec_class_extent "EnvelopeEntry" envelope.data_block_count envelope.parity_block_count
      limits.max_payload_data_shards limits.max_payload_parity_shards

unfoldable pub validate_envelopes : MetadataLimits → List EnvelopeEntry → Result (Unit {0})
unfolding validate_envelope
validate_envelopes limits [] = ok tt
validate_envelopes limits (envelope ∷ envelopes) =
    validate_envelope limits envelope >> validate_envelopes limits envelopes

-- `envelopes.windows(2)`
unfoldable pub validate_envelope_pairs : List EnvelopeEntry → Result (Unit {0})
validate_envelope_pairs [] = ok tt
validate_envelope_pairs (envelope ∷ []) = ok tt
validate_envelope_pairs (a ∷ b ∷ envelopes) =
    reject_if (leb b.envelope_index a.envelope_index)
      (invalid_metadata "IndexShard" "EnvelopeEntry rows are not sorted and unique")
    >> validate_envelope_pairs (b ∷ envelopes)

unfoldable pub validate_envelope_table : List EnvelopeEntry → MetadataLimits → Result (Unit {0})
unfolding validate_envelopes validate_envelope_pairs
validate_envelope_table envelopes limits =
    validate_envelopes limits envelopes >> validate_envelope_pairs envelopes

-- `checked_add` on `u32`.
abbrev pub checked_add_u32 : ℕ → ℕ → Option ℕ
checked_add_u32 a b = if ltb (a + b) (2 ^ 32) then some (a + b) else none

unfoldable pub validate_frame_envelope_binding : FrameEntry → EnvelopeEntry → Result (Unit {0})
validate_frame_envelope_binding frame envelope = do
  envelope_frame_end ←
      ok_or (checked_add_u64 envelope.first_frame_index envelope.frame_count)
        (metadata_arithmetic_overflow "EnvelopeEntry")
  reject_if
      (ltb frame.frame_index envelope.first_frame_index || leb envelope_frame_end frame.frame_index)
      (invalid_metadata "FrameEntry" "frame index is outside envelope frame range")
  end ←
      ok_or (checked_add_u32 frame.offset_in_envelope frame.compressed_size)
        (metadata_arithmetic_overflow "FrameEntry")
  reject_if (ltb envelope.plaintext_size end)
      (invalid_metadata "FrameEntry" "frame slice exceeds envelope plaintext")
