-- ===== src/Wire/VolumeHeader/Examples.antt =====
-- Volume headers at concrete values.
use tzap.Prelude.{ℕ, ◌≡◌, ◌↔◌, refl, arith, List, take}
use tzap.Prelude.Slices.{copy_all, copy_at}
use tzap.Prelude.Bytes.{AllBytes, to_le, from_le, any_non_zero, bytes_eq}
use tzap.Format.{ok}
use tzap.Wire.Fields.{
  expect_len, expect_magic, expect_zero, expect_crc, read_u16, read_u32, read_array_16, write_crc,
}
use tzap.Wire.Samples.{byte_sum, byte_sum-lt, uuid_sample, session_sample}
use tzap.Wire.VolumeHeader.{VolumeHeader, IsTyped, validate, parse, to_bytes}
use tzap.Wire.VolumeHeader.Codec.{volume_header_iff}

abbrev sample : VolumeHeader
sample = record {
  format_version = 1;
  volume_format_rev = 45;
  volume_index = 2;
  stripe_width = 3;
  archive_uuid = uuid_sample;
  session_id = session_sample;
  crypto_header_offset = 128;
  crypto_header_length = 200;
  header_crc32c = 4298;
}

abbrev encoded : List ℕ
encoded = to_bytes byte_sum sample

encoded-AllBytes : AllBytes encoded
unfolding to_bytes write_crc copy_all copy_at to_le
encoded-AllBytes = omega arith

parses : parse byte_sum encoded ≡ ok sample
unfolding parse to_bytes validate write_crc copy_all copy_at to_le from_le any_non_zero bytes_eq
    expect_len expect_magic expect_zero expect_crc read_u16 read_u32 read_array_16
parses = refl

volume_header_iff_example : (parse byte_sum encoded ≡ ok sample) ↔ (
    IsTyped sample
    × (validate sample ≡ ok tt)
    × (encoded ≡ to_bytes byte_sum sample)
    × (4298 ≡ byte_sum (take 124 encoded)))
volume_header_iff_example = volume_header_iff byte_sum byte_sum-lt encoded sample encoded-AllBytes
