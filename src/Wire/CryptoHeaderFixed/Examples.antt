-- ===== src/Wire/CryptoHeaderFixed/Examples.antt =====
-- Fixed crypto headers at concrete values.
use tzap.Prelude.{ℕ, ◌≡◌, ◌≤◌, ◌^◌, ◌↔◌, refl, arith, List}
use tzap.Prelude.Slices.{copy_all, copy_at}
use tzap.Prelude.Bytes.{AllBytes, to_le, from_le, any_non_zero, bytes_eq}
use tzap.Format.{
  ok, zstd_framed, aes_gcm256, reed_solomon_gf16, argon2id, compression_of_id, aead_of_id,
  fec_of_id, kdf_of_id, reader_max_crypto_header_len,
}
use tzap.Wire.Fields.{expect_len, expect_magic, expect_zero, read_u16, read_u32, read_u64}
use tzap.Wire.CryptoHeaderFixed.{
  CryptoHeaderFixed, IsTyped, validate_supported_profile, parse, to_bytes,
  validate_fec_class_shards, validate_fec_class_data_shards,
}
use tzap.Wire.CryptoHeaderFixed.Supported.{Supported, validate_supported_profile_iff}
use tzap.Wire.CryptoHeaderFixed.Codec.{crypto_header_iff}

abbrev sample : CryptoHeaderFixed
sample = record {
  header_length = 300;
  compression_algo = zstd_framed;
  aead_algo = aes_gcm256;
  fec_algo = reed_solomon_gf16;
  kdf_algo = argon2id;
  chunk_size = 65536;
  envelope_target_size = 131072;
  block_size = 65536;
  fec_data_shards = 16;
  fec_parity_shards = 4;
  index_fec_data_shards = 8;
  index_fec_parity_shards = 4;
  index_root_fec_data_shards = 8;
  index_root_fec_parity_shards = 8;
  stripe_width = 3;
  volume_loss_tolerance = 1;
  bit_rot_buffer_pct = 5;
  has_dictionary = 1;
  max_path_length = 4096;
  expected_volume_size = 2 ^ 33;
}

abbrev encoded : List ℕ
encoded = to_bytes sample

encoded-AllBytes : AllBytes encoded
unfolding to_bytes copy_all copy_at to_le
encoded-AllBytes = omega arith

parses : parse encoded 300 ≡ ok sample
unfolding parse to_bytes copy_all copy_at to_le from_le any_non_zero bytes_eq expect_len
    expect_magic expect_zero read_u16 read_u32 read_u64 compression_of_id aead_of_id fec_of_id
    kdf_of_id validate_supported_profile validate_fec_class_shards validate_fec_class_data_shards
parses = refl

crypto_header_iff_example : (parse encoded 300 ≡ ok sample) ↔ (
    IsTyped sample
    × (sample.header_length ≡ 300)
    × (300 ≤ reader_max_crypto_header_len)
    × (validate_supported_profile sample ≡ ok tt)
    × (encoded ≡ to_bytes sample))
crypto_header_iff_example = crypto_header_iff encoded 300 sample encoded-AllBytes

validate_supported_profile_iff_example :
    (validate_supported_profile sample ≡ ok tt) ↔ Supported sample
validate_supported_profile_iff_example = validate_supported_profile_iff sample
