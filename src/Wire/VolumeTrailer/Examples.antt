-- ===== src/Wire/VolumeTrailer/Examples.antt =====
-- Volume trailers at concrete values.
use tzap.Prelude.{ℕ, ◌^◌, ◌≡◌, ◌↔◌, refl, arith, List}
use Prim.Native.Nat.{bit_and}
use tzap.Prelude.Slices.{copy_all, copy_at}
use tzap.Prelude.Bytes.{
  AllBytes, negsuc, to_le, from_le, any_non_zero, bytes_eq, to_word64, of_word64,
}
use tzap.Format.{ok}
use tzap.Wire.Fields.{
  expect_len, expect_magic, expect_zero, expect_crc, read_u16, read_u32, read_u64, read_i64,
  read_array_16, read_array_32, write_crc,
}
use tzap.Wire.Samples.{uuid_sample, session_sample, digest_sample}
use tzap.Wire.VolumeTrailer.{VolumeTrailer, IsTyped, parse, to_bytes, unknown_flags}
use tzap.Wire.VolumeTrailer.Codec.{volume_trailer_iff}

abbrev sample : VolumeTrailer
sample = record {
  archive_uuid = uuid_sample;
  session_id = session_sample;
  volume_index = 1;
  block_count = 9;
  bytes_written = 2 ^ 33;
  manifest_footer_offset = 4096;
  manifest_footer_length = 136;
  closed_at_ns = negsuc 4;
  root_auth_footer_offset = 0;
  root_auth_footer_length = 0;
  root_auth_flags = 1;
  trailer_hmac = digest_sample;
}

abbrev encoded : List ℕ
encoded = to_bytes sample

encoded-AllBytes : AllBytes encoded
unfolding to_bytes copy_all copy_at to_le to_word64
encoded-AllBytes = omega arith

parses : parse encoded ≡ ok sample
unfolding parse to_bytes write_crc copy_all copy_at to_le from_le any_non_zero bytes_eq expect_len
    expect_magic expect_zero expect_crc read_u16 read_u32 read_u64 read_i64 read_array_16
    read_array_32 to_word64 of_word64
parses = refl

volume_trailer_iff_example : (parse encoded ≡ ok sample) ↔ (
    IsTyped sample
    × (sample.manifest_footer_length ≡ 136)
    × (bit_and sample.root_auth_flags unknown_flags ≡ 0)
    × (encoded ≡ to_bytes sample))
volume_trailer_iff_example = volume_trailer_iff encoded sample encoded-AllBytes
