-- ===== src/Wire/CriticalMetadataRecoveryShard.antt =====
-- `CriticalMetadataRecoveryShard` of crates/tzap-core/src/wire.rs.
pub mod Codec
mod Examples
use tzap.Prelude.{
  ℕ, ◌+◌, ◌^◌, ◌<◌, List, [], ◌∷◌, ◌++◌, length, take, drop, Option, none, some, ltb, not, ◌==◌,
  if◌then◌else◌,
}
use tzap.Prelude.Slices.{Piece, slice, zeros, copy_all, copy_at}
use tzap.Prelude.Bytes.{to_le}
use tzap.Format.{
  Result, ok, err, ◌>>=◌, ◌>>◌, reject_if, ok_or, invalid_archive, non_zero_reserved, usize_mod,
  critical_metadata_recovery_shard_header_len,
}
use tzap.Wire.Fields.{
  expect_len, expect_magic, expect_crc, read_u16, read_u32, byte_at, write_u8, write_u16, write_u32,
}

pub record CriticalMetadataRecoveryShard : Type 0 where
  pub shard_index : ℕ
  pub shard_role : ℕ
  pub shard_payload_length : ℕ
  pub payload : List ℕ
  pub shard_crc32c : ℕ

-- b"TZCS"
abbrev pub tzcs_magic : List ℕ
tzcs_magic = b'T' ∷ b'Z' ∷ b'C' ∷ b'S' ∷ []

-- `checked_add` on `usize`.
abbrev checked_add : ℕ → ℕ → Option ℕ
checked_add a b = if ltb (a + b) usize_mod then some (a + b) else none

-- The writes of `to_bytes` before the checksum.
abbrev pub pieces : CriticalMetadataRecoveryShard → ℕ → List Piece
pieces s shard_size =
    (0, 4, tzcs_magic)
    ∷ write_u16 4 s.shard_index
    ∷ write_u8 6 s.shard_role
    ∷ write_u32 8 s.shard_payload_length
    ∷ (16, shard_size, s.payload)
    ∷ []

module _ (crc32c : List ℕ → ℕ) where
  pub parse : List ℕ → ℕ → Result CriticalMetadataRecoveryShard
  parse bytes shard_size = do
    expected ←
        ok_or (checked_add critical_metadata_recovery_shard_header_len shard_size)
          (invalid_archive "CMRA shard length overflow")
    expect_len "CriticalMetadataRecoveryShard" expected (length bytes)
    expect_magic "CriticalMetadataRecoveryShard" tzcs_magic (slice bytes 0 4)
    reject_if (not (byte_at bytes 7 == 0)) (non_zero_reserved "CriticalMetadataRecoveryShard")
    let role = byte_at bytes 6
    reject_if (ltb 1 role) (invalid_archive "CriticalMetadataRecoveryShard has unknown role")
    declared_crc ← read_u32 bytes 12
    expect_crc crc32c "CriticalMetadataRecoveryShard" (take 12 bytes ++ drop 16 bytes) declared_crc
    payload_length ← read_u32 bytes 8
    reject_if (ltb shard_size payload_length)
        (invalid_archive "CriticalMetadataRecoveryShard payload length exceeds shard size")
    index ← read_u16 bytes 4
    crc ← read_u32 bytes 12
    ok (record {
      shard_index = index;
      shard_role = role;
      shard_payload_length = payload_length;
      payload = drop 16 bytes;
      shard_crc32c = crc;
    })

  pub to_bytes : CriticalMetadataRecoveryShard → ℕ → Result (List ℕ)
  to_bytes s shard_size = do
    reject_if (not (length s.payload == shard_size))
        (invalid_archive "CriticalMetadataRecoveryShard payload length mismatch")
    let bytes =
        copy_all (zeros (critical_metadata_recovery_shard_header_len + shard_size))
          (pieces s shard_size)
    let covered = take 12 bytes ++ drop 16 bytes
    ok (copy_at bytes 12 4 (to_le 4 (crc32c covered)))
