-- ===== src/Wire/BlockRecord/Examples.antt =====
-- Block records at concrete values.
use tzap.Prelude.{ℕ, ◌+◌, ◌≡◌, ◌↔◌, refl, arith, List, [], ◌∷◌, length, take}
use tzap.Prelude.Bytes.{AllBytes, to_le, from_le, any_non_zero, bytes_eq}
use tzap.Format.{
  ok, err, index_root_data, payload_parity, block_kind_of_id, parity_block_has_last_data_flag,
}
use tzap.Wire.Fields.{expect_len, expect_magic, expect_zero, expect_crc, read_u32, read_u64}
use tzap.Wire.Samples.{byte_sum, byte_sum-lt}
use tzap.Wire.BlockRecord.{BlockRecord, parse, to_bytes, to_bytes_from_parts}
use tzap.Wire.BlockRecord.Codec.{IsValid, block_record_iff}

abbrev sample : BlockRecord
sample = record {
  block_index = 258;
  kind = index_root_data;
  flags = 1;
  payload = 9 ∷ 8 ∷ 7 ∷ [];
  record_crc32c = 345;
}

abbrev encoded : List ℕ
encoded = to_bytes byte_sum sample

encoded-AllBytes : AllBytes encoded
unfolding to_bytes to_bytes_from_parts to_le
encoded-AllBytes = omega arith

parses : parse byte_sum encoded 3 ≡ ok sample
unfolding parse to_bytes to_bytes_from_parts to_le from_le any_non_zero bytes_eq expect_len
    expect_magic expect_zero expect_crc read_u32 read_u64 block_kind_of_id
parses = refl

-- A parity block that is marked as the last data block is refused.
parity_marked :
    parse byte_sum (to_bytes byte_sum (record sample { kind = payload_parity })) 3
    ≡ err parity_block_has_last_data_flag
unfolding parse to_bytes to_bytes_from_parts to_le from_le any_non_zero bytes_eq expect_len
    expect_magic expect_zero expect_crc read_u32 read_u64 block_kind_of_id
parity_marked = refl

block_record_iff_example : (parse byte_sum encoded 3 ≡ ok sample) ↔ (
    IsValid sample
    × (length sample.payload ≡ 3)
    × (encoded ≡ to_bytes byte_sum sample)
    × (sample.record_crc32c ≡ byte_sum (take (16 + 3) encoded)))
block_record_iff_example = block_record_iff byte_sum byte_sum-lt encoded 3 sample encoded-AllBytes
