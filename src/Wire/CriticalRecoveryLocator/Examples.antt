-- ===== src/Wire/CriticalRecoveryLocator/Examples.antt =====
-- Recovery locators at concrete values.
use tzap.Prelude.{ℕ, ◌≡◌, ◌≤◌, ◌↔◌, refl, arith, List, take}
use tzap.Prelude.Slices.{copy_all, copy_at}
use tzap.Prelude.Bytes.{AllBytes, to_le, from_le, any_non_zero, bytes_eq, to_word64, of_word64}
use tzap.Format.{ok}
use tzap.Wire.Fields.{
  expect_len, expect_magic, expect_zero, expect_crc, read_u16, read_u32, read_u64, read_i64,
  read_array_16, read_array_32, write_crc,
}
use tzap.Wire.Samples.{byte_sum, byte_sum-lt, uuid_sample, session_sample, digest_sample}
use tzap.Wire.CriticalRecoveryLocator.{CriticalRecoveryLocator, IsTyped, parse, to_bytes}
use tzap.Wire.CriticalRecoveryLocator.Codec.{recovery_locator_iff}

abbrev sample : CriticalRecoveryLocator
sample = record {
  volume_format_rev = 45;
  cmra_offset = 70000;
  cmra_length = 5000;
  volume_trailer_offset = 69000;
  body_bytes_before_cmra = 70000;
  archive_uuid_hint = uuid_sample;
  session_id_hint = session_sample;
  volume_index_hint = 1;
  locator_sequence = 1;
  cmra_shard_size = 512;
  cmra_data_shard_count = 6;
  cmra_parity_shard_count = 4;
  cmra_image_length = 3000;
  cmra_image_sha256 = digest_sample;
  locator_crc32c = 5398;
}

abbrev encoded : List ℕ
encoded = to_bytes byte_sum sample

encoded-AllBytes : AllBytes encoded
unfolding to_bytes write_crc copy_all copy_at to_le to_word64
encoded-AllBytes = omega arith

parses : parse byte_sum encoded ≡ ok sample
unfolding parse to_bytes write_crc copy_all copy_at to_le from_le any_non_zero bytes_eq expect_len
    expect_magic expect_zero expect_crc read_u16 read_u32 read_u64 read_i64 read_array_16
    read_array_32 to_word64 of_word64
parses = refl

recovery_locator_iff_example : (parse byte_sum encoded ≡ ok sample) ↔ (
    IsTyped sample
    × (sample.volume_format_rev ≡ 45)
    × (sample.locator_sequence ≤ 1)
    × (encoded ≡ to_bytes byte_sum sample)
    × (5398 ≡ byte_sum (take 124 encoded)))
recovery_locator_iff_example =
    recovery_locator_iff byte_sum byte_sum-lt encoded sample encoded-AllBytes
