-- ===== src/Wire/ManifestFooter/Examples.antt =====
-- Manifest footers at concrete values.
use tzap.Prelude.{ℕ, ◌+◌, ◌^◌, ◌≡◌, ◌≤◌, ◌↔◌, refl, arith, List}
use tzap.Prelude.Slices.{copy_all, copy_at}
use tzap.Prelude.Bytes.{AllBytes, to_le, from_le, any_non_zero, bytes_eq, to_word64, of_word64}
use tzap.Format.{ok}
use tzap.Wire.Fields.{
  expect_len, expect_magic, expect_zero, expect_crc, read_u16, read_u32, read_u64, read_i64,
  read_array_16, read_array_32, write_crc,
}
use tzap.Wire.Samples.{uuid_sample, session_sample, digest_sample}
use tzap.Wire.ManifestFooter.{ManifestFooter, IsTyped, parse, to_bytes}
use tzap.Wire.ManifestFooter.Codec.{manifest_footer_iff}

abbrev sample : ManifestFooter
sample = record {
  archive_uuid = uuid_sample;
  session_id = session_sample;
  volume_index = 1;
  is_authoritative = 1;
  total_volumes = 3;
  index_root_first_block = 2 ^ 40 + 7;
  index_root_data_block_count = 2;
  index_root_parity_block_count = 1;
  index_root_encrypted_size = 8192;
  index_root_decompressed_size = 5000;
  manifest_hmac = digest_sample;
}

abbrev encoded : List ℕ
encoded = to_bytes sample

encoded-AllBytes : AllBytes encoded
unfolding to_bytes copy_all copy_at to_le to_word64
encoded-AllBytes = omega arith

parses : parse encoded ≡ ok sample
unfolding parse to_bytes write_crc copy_all copy_at to_le from_le any_non_zero bytes_eq expect_len
    expect_magic expect_zero expect_crc read_u16 read_u32 read_u64 read_i64 read_array_16
    read_array_32 to_word64 of_word64
parses = refl

manifest_footer_iff_example :
    (parse encoded ≡ ok sample)
    ↔ (IsTyped sample × (sample.is_authoritative ≤ 1) × (encoded ≡ to_bytes sample))
manifest_footer_iff_example = manifest_footer_iff encoded sample encoded-AllBytes
