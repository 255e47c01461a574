-- ===== src/Wire/BootstrapSidecarHeader/Examples.antt =====
-- Bootstrap sidecar headers at concrete values.
use tzap.Prelude.{ℕ, ◌≡◌, ◌↔◌, refl, arith, List, take}
use tzap.Prelude.Slices.{copy_all, copy_at}
use tzap.Prelude.Bytes.{AllBytes, to_le, from_le, any_non_zero, bytes_eq, to_word64, of_word64}
use tzap.Format.{ok}
use tzap.Wire.Fields.{
  expect_len, expect_magic, expect_zero, expect_crc, read_u16, read_u32, read_u64, read_i64,
  read_array_16, read_array_32, write_crc,
}
use tzap.Wire.Samples.{byte_sum, byte_sum-lt, uuid_sample, session_sample, digest_sample}
use tzap.Wire.BootstrapSidecarHeader.{
  BootstrapSidecarHeader, IsTyped, parse, to_bytes, validate_sections, validate_presence_fields,
}
use tzap.Wire.BootstrapSidecarHeader.Codec.{sidecar_header_iff}

abbrev sample : BootstrapSidecarHeader
sample = record {
  archive_uuid = uuid_sample;
  session_id = session_sample;
  flags = 3;
  manifest_footer_offset = 128;
  manifest_footer_length = 136;
  index_root_records_offset = 264;
  index_root_records_length = 8232;
  dictionary_records_offset = 0;
  dictionary_records_length = 0;
  sidecar_hmac = digest_sample;
  header_crc32c = 4816;
}

abbrev encoded : List ℕ
encoded = to_bytes byte_sum sample

encoded-AllBytes : AllBytes encoded
unfolding to_bytes write_crc copy_all copy_at to_le to_word64
encoded-AllBytes = omega arith

parses : parse byte_sum encoded ≡ ok sample
unfolding parse to_bytes write_crc copy_all copy_at to_le from_le any_non_zero bytes_eq expect_len
    expect_magic expect_zero expect_crc read_u16 read_u32 read_u64 read_i64 read_array_16
    read_array_32 to_word64 of_word64 validate_sections validate_presence_fields
parses = refl

sidecar_header_iff_example : (parse byte_sum encoded ≡ ok sample) ↔ (
    IsTyped sample
    × (validate_sections sample ≡ ok tt)
    × (encoded ≡ to_bytes byte_sum sample)
    × (4816 ≡ byte_sum (take 124 encoded)))
sidecar_header_iff_example = sidecar_header_iff byte_sum byte_sum-lt encoded sample encoded-AllBytes
