-- ===== src/Wire/CriticalMetadataRecoveryShard/Examples.antt =====
-- Recovery shards at concrete values.
use tzap.Prelude.{ℕ, ◌≡◌, ◌↔◌, refl, arith, List, [], ◌∷◌, ◌++◌, take, drop}
use tzap.Prelude.Slices.{copy_all, copy_at}
use tzap.Prelude.Bytes.{to_le, from_le, bytes_eq}
use tzap.Format.{ok}
use tzap.Wire.Fields.{expect_len, expect_magic, expect_crc, read_u16, read_u32}
use tzap.Wire.Samples.{byte_sum, byte_sum-lt}
use tzap.Wire.CriticalMetadataRecoveryShard.{CriticalMetadataRecoveryShard, parse, to_bytes}
use tzap.Wire.CriticalMetadataRecoveryShard.Codec.{IsValid, recovery_shard_iff}

abbrev sample : CriticalMetadataRecoveryShard
sample = record {
  shard_index = 513;
  shard_role = 1;
  shard_payload_length = 2;
  payload = 9 ∷ 8 ∷ 0 ∷ 0 ∷ [];
  shard_crc32c = 347;
}

abbrev encoded : List ℕ
encoded =
    b'T' ∷ b'Z' ∷ b'C' ∷ b'S' ∷ 1 ∷ 2 ∷ 1 ∷ 0 ∷ 2 ∷ 0 ∷ 0 ∷ 0 ∷ 91 ∷ 1 ∷ 0 ∷ 0 ∷ 9 ∷ 8 ∷ 0 ∷ 0 ∷ []

encodes : to_bytes byte_sum sample 4 ≡ ok encoded
unfolding to_bytes copy_all copy_at to_le
encodes = refl

parses : parse byte_sum encoded 4 ≡ ok sample
unfolding parse from_le bytes_eq expect_len expect_magic expect_crc read_u16 read_u32
parses = refl

recovery_shard_iff_example : (parse byte_sum encoded 4 ≡ ok sample) ↔ (
    IsValid sample 4
    × (to_bytes byte_sum sample 4 ≡ ok encoded)
    × (sample.shard_crc32c ≡ byte_sum (take 12 encoded ++ drop 16 encoded)))
recovery_shard_iff_example =
    recovery_shard_iff byte_sum encoded 4 (omega arith) byte_sum-lt sample (omega arith)
