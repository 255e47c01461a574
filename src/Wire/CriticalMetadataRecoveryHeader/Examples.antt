-- ===== src/Wire/CriticalMetadataRecoveryHeader/Examples.antt =====
-- Recovery headers at concrete values.
use tzap.Prelude.{ℕ, ◌≡◌, ◌↔◌, refl, arith, List, take}
use tzap.Prelude.Slices.{copy_all, copy_at}
use tzap.Prelude.Bytes.{AllBytes, to_le, from_le, any_non_zero, bytes_eq, to_word64, of_word64}
use tzap.Format.{ok}
use tzap.Wire.Fields.{
  expect_len, expect_magic, expect_zero, expect_crc, read_u16, read_u32, read_u64, read_i64,
  read_array_16, read_array_32, write_crc,
}
use tzap.Wire.Samples.{byte_sum, byte_sum-lt, uuid_sample, session_sample, digest_sample}
use tzap.Wire.CriticalMetadataRecoveryHeader.{
  CriticalMetadataRecoveryHeader, IsTyped, parse, to_bytes,
}
use tzap.Wire.CriticalMetadataRecoveryHeader.Codec.{recovery_header_iff}

abbrev sample : CriticalMetadataRecoveryHeader
sample = record {
  shard_size = 512;
  data_shard_count = 6;
  parity_shard_count = 4;
  image_length = 3000;
  archive_uuid_hint = uuid_sample;
  session_id_hint = session_sample;
  volume_index_hint = 1;
  image_sha256 = digest_sample;
  header_crc32c = 4677;
}

abbrev encoded : List ℕ
encoded = to_bytes byte_sum sample

encoded-AllBytes : AllBytes encoded
unfolding to_bytes write_crc copy_all copy_at to_le to_word64
encoded-AllBytes = omega arith

parses : parse byte_sum encoded ≡ ok sample
unfolding parse to_bytes write_crc copy_all copy_at to_le from_le any_non_zero bytes_eq expect_len
    expect_magic expect_zero expect_crc read_u16 read_u32 read_u64 read_i64 read_array_16
    read_array_32 to_word64 of_word64
parses = refl

recovery_header_iff_example :
    (parse byte_sum encoded ≡ ok sample)
    ↔ (IsTyped sample × (encoded ≡ to_bytes byte_sum sample) × (4677 ≡ byte_sum (take 112 encoded)))
recovery_header_iff_example =
    recovery_header_iff byte_sum byte_sum-lt encoded sample encoded-AllBytes
