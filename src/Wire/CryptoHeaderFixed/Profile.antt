-- ===== src/Wire/CryptoHeaderFixed/Profile.antt =====
-- `CryptoHeaderFixed` of crates/tzap-core/src/wire.rs, and its `validate_supported_profile`.
use Prim.Native.String.{String}
use tzap.Prelude.{ℕ, ◌+◌, ◌/◌, ◌%◌, Bool, true, false, ltb, leb, not, ◌==◌}
use tzap.Format.{
  CompressionAlgo, AeadAlgo, FecAlgo, KdfAlgo, raw, argon2id, recipient_wrap, zstd_framed,
  reed_solomon_gf16, is_encrypted, Result, ◌>>◌, reject_if, unsupported_compression,
  unsupported_fec, invalid_protection_mode, invalid_boolean, zero_stripe_width,
  reader_resource_limit_exceeded, volume_loss_tolerance_out_of_range, bit_rot_buffer_pct_too_large,
  zero_data_shard_maximum, zero_chunk_size, zero_envelope_target_size,
  chunk_size_exceeds_envelope_target, block_size_too_small, odd_block_size, u32_max,
  reader_max_stripe_width, reader_max_fec_class_shards, reader_max_index_fec_class_shards,
  reader_max_index_root_fec_class_shards, reader_max_chunk_size, reader_max_envelope_target_size,
  reader_max_block_size, reader_max_path_length,
}

-- `header_length` is the field `length`.
pub record CryptoHeaderFixed : Type 0 where
  pub header_length : ℕ
  pub compression_algo : CompressionAlgo
  pub aead_algo : AeadAlgo
  pub fec_algo : FecAlgo
  pub kdf_algo : KdfAlgo
  pub chunk_size : ℕ
  pub envelope_target_size : ℕ
  pub block_size : ℕ
  pub fec_data_shards : ℕ
  pub fec_parity_shards : ℕ
  pub index_fec_data_shards : ℕ
  pub index_fec_parity_shards : ℕ
  pub index_root_fec_data_shards : ℕ
  pub index_root_fec_parity_shards : ℕ
  pub stripe_width : ℕ
  pub volume_loss_tolerance : ℕ
  pub bit_rot_buffer_pct : ℕ
  pub has_dictionary : ℕ
  pub max_path_length : ℕ
  pub expected_volume_size : ℕ

-- `self.compression_algo != CompressionAlgo::ZstdFramed`, and the like for the correction.
abbrev not_zstd_framed : CompressionAlgo → Bool
not_zstd_framed zstd_framed = false
not_zstd_framed CompressionAlgo.none = true

abbrev not_reed_solomon : FecAlgo → Bool
not_reed_solomon reed_solomon_gf16 = false
not_reed_solomon _ = true

-- The pairs that the `match` on the two algorithms lets through.
abbrev pub protection_mode : AeadAlgo → KdfAlgo → Bool
protection_mode AeadAlgo.none KdfAlgo.none = true
protection_mode a KdfAlgo.none = false
protection_mode a raw = is_encrypted a
protection_mode a argon2id = is_encrypted a
protection_mode a recipient_wrap = is_encrypted a

unfoldable pub validate_fec_class_shards : String → ℕ → ℕ → ℕ → Result (Unit {0})
validate_fec_class_shards field data_shards parity_shards cap =
    let total = data_shards + parity_shards in
    reject_if (ltb cap total) (reader_resource_limit_exceeded field cap total)

-- The division is by a block size that is not zero.
unfoldable pub validate_fec_class_data_shards : String → ℕ → ℕ → Result (Unit {0})
validate_fec_class_data_shards field data_shards block_size =
    let max_data_shards = u32_max / block_size in
    reject_if (ltb max_data_shards data_shards)
      (reader_resource_limit_exceeded field max_data_shards data_shards)

unfoldable pub validate_supported_profile : CryptoHeaderFixed → Result (Unit {0})
validate_supported_profile h = do
  reject_if (not_zstd_framed h.compression_algo) (unsupported_compression h.compression_algo)
  reject_if (not_reed_solomon h.fec_algo) (unsupported_fec h.fec_algo)
  reject_if (not (protection_mode h.aead_algo h.kdf_algo))
      (invalid_protection_mode h.aead_algo h.kdf_algo)
  reject_if (ltb 1 h.has_dictionary) (invalid_boolean "has_dictionary" h.has_dictionary)
  reject_if (h.stripe_width == 0) zero_stripe_width
  reject_if (ltb reader_max_stripe_width h.stripe_width)
      (reader_resource_limit_exceeded "stripe_width" reader_max_stripe_width h.stripe_width)
  reject_if (leb h.stripe_width h.volume_loss_tolerance)
      (volume_loss_tolerance_out_of_range h.volume_loss_tolerance h.stripe_width)
  reject_if (ltb 100 h.bit_rot_buffer_pct) (bit_rot_buffer_pct_too_large h.bit_rot_buffer_pct)
  reject_if (h.fec_data_shards == 0) (zero_data_shard_maximum "fec_data_shards")
  reject_if (h.index_fec_data_shards == 0) (zero_data_shard_maximum "index_fec_data_shards")
  reject_if (h.index_root_fec_data_shards == 0)
      (zero_data_shard_maximum "index_root_fec_data_shards")
  validate_fec_class_shards "fec_data_shards + fec_parity_shards" h.fec_data_shards
      h.fec_parity_shards reader_max_fec_class_shards
  validate_fec_class_shards "index_fec_data_shards + index_fec_parity_shards"
      h.index_fec_data_shards h.index_fec_parity_shards reader_max_index_fec_class_shards
  validate_fec_class_shards "index_root_fec_data_shards + index_root_fec_parity_shards"
      h.index_root_fec_data_shards h.index_root_fec_parity_shards
      reader_max_index_root_fec_class_shards
  reject_if (h.chunk_size == 0) zero_chunk_size
  reject_if (h.envelope_target_size == 0) zero_envelope_target_size
  reject_if (ltb h.envelope_target_size h.chunk_size)
      (chunk_size_exceeds_envelope_target h.chunk_size h.envelope_target_size)
  reject_if (ltb reader_max_chunk_size h.chunk_size)
      (reader_resource_limit_exceeded "chunk_size" reader_max_chunk_size h.chunk_size)
  reject_if (ltb reader_max_envelope_target_size h.envelope_target_size) (
      reader_resource_limit_exceeded "envelope_target_size" reader_max_envelope_target_size
        h.envelope_target_size)
  reject_if (ltb h.block_size 4096) (block_size_too_small h.block_size)
  reject_if (not (h.block_size % 2 == 0)) (odd_block_size h.block_size)
  validate_fec_class_data_shards "fec_data_shards" h.fec_data_shards h.block_size
  validate_fec_class_data_shards "index_fec_data_shards" h.index_fec_data_shards h.block_size
  validate_fec_class_data_shards "index_root_fec_data_shards" h.index_root_fec_data_shards
      h.block_size
  reject_if (ltb reader_max_block_size h.block_size)
      (reader_resource_limit_exceeded "block_size" reader_max_block_size h.block_size)
  reject_if (ltb reader_max_path_length h.max_path_length)
      (reader_resource_limit_exceeded "max_path_length" reader_max_path_length h.max_path_length)
