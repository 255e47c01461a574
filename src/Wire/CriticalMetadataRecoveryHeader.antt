-- ===== src/Wire/CriticalMetadataRecoveryHeader.antt =====
-- `CriticalMetadataRecoveryHeader` of crates/tzap-core/src/wire.rs.
pub mod Codec
mod Examples
use tzap.Prelude.{
  ℕ, ◌-◌, ◌*◌, Option, some, none, ◌^◌, ◌<◌, ◌≡◌, Bool, List, [], ◌∷◌, length, ltb, leb, not, ◌==◌,
  ◌&&◌, ◌||◌, ◌+◌, if◌then◌else◌,
}
use tzap.Prelude.Slices.{Piece, slice, zeros, copy_all}
use tzap.Prelude.Bytes.{ℤ, IsI64}
use Prim.Native.Nat.{bit_and, bit_xor}
use tzap.Format.{
  Result, ok, err, ◌>>=◌, ◌>>◌, reject_if, critical_metadata_recovery_header_len,
  unsupported_format_version, unknown_fec_algo,
}
use tzap.Wire.Fields.{
  byte_at, expect_len, expect_magic, expect_zero, expect_crc, read_u16, read_u32, read_u64,
  read_i64, read_array_16, read_array_32, write_u8, write_u16, write_u32, write_u64, write_i64,
  write_crc, IsU8, IsU16, IsU32, IsU64, IsArray,
}

pub record CriticalMetadataRecoveryHeader : Type 0 where
  pub shard_size : ℕ
  pub data_shard_count : ℕ
  pub parity_shard_count : ℕ
  pub image_length : ℕ
  pub archive_uuid_hint : List ℕ
  pub session_id_hint : List ℕ
  pub volume_index_hint : ℕ
  pub image_sha256 : List ℕ
  pub header_crc32c : ℕ

-- The fields hold values of their machine types.
pub record IsTyped (h : CriticalMetadataRecoveryHeader) : Type 0 where
  pub shard_size : IsU32 h.shard_size
  pub data_shard_count : IsU16 h.data_shard_count
  pub parity_shard_count : IsU16 h.parity_shard_count
  pub image_length : IsU32 h.image_length
  pub archive_uuid_hint : IsArray 16 h.archive_uuid_hint
  pub session_id_hint : IsArray 16 h.session_id_hint
  pub volume_index_hint : IsU32 h.volume_index_hint
  pub image_sha256 : IsArray 32 h.image_sha256

-- b"TZCR"
abbrev pub tzcr_magic : List ℕ
tzcr_magic = b'T' ∷ b'Z' ∷ b'C' ∷ b'R' ∷ []

-- The writes of `to_bytes` before the checksum.
abbrev pub pieces : CriticalMetadataRecoveryHeader → List Piece
pieces h =
    (0, 4, tzcr_magic)
    ∷ write_u16 4 1
    ∷ write_u16 6 1
    ∷ write_u32 8 h.shard_size
    ∷ write_u16 12 h.data_shard_count
    ∷ write_u16 14 h.parity_shard_count
    ∷ write_u32 16 h.image_length
    ∷ (20, 16, h.archive_uuid_hint)
    ∷ (36, 16, h.session_id_hint)
    ∷ write_u32 52 h.volume_index_hint
    ∷ (56, 32, h.image_sha256)
    ∷ []

module _ (crc32c : List ℕ → ℕ) where
  pub parse : List ℕ → Result CriticalMetadataRecoveryHeader
  parse bytes = do
    expect_len "CriticalMetadataRecoveryHeader" critical_metadata_recovery_header_len (length bytes)
    expect_magic "CriticalMetadataRecoveryHeader" tzcr_magic (slice bytes 0 4)
    version ← read_u16 bytes 4
    reject_if (not (version == 1)) (unsupported_format_version version)
    fec_algo ← read_u16 bytes 6
    reject_if (not (fec_algo == 1)) (unknown_fec_algo fec_algo)
    expect_zero "CriticalMetadataRecoveryHeader" (slice bytes 88 112)
    declared_crc ← read_u32 bytes 112
    expect_crc crc32c "CriticalMetadataRecoveryHeader" (slice bytes 0 112) declared_crc
    shard_size ← read_u32 bytes 8
    data_shard_count ← read_u16 bytes 12
    parity_shard_count ← read_u16 bytes 14
    image_length ← read_u32 bytes 16
    archive_uuid_hint ← read_array_16 bytes 20
    session_id_hint ← read_array_16 bytes 36
    volume_index_hint ← read_u32 bytes 52
    image_sha256 ← read_array_32 bytes 56
    header_crc32c ← read_u32 bytes 112
    let header : CriticalMetadataRecoveryHeader = record {
      shard_size = shard_size;
      data_shard_count = data_shard_count;
      parity_shard_count = parity_shard_count;
      image_length = image_length;
      archive_uuid_hint = archive_uuid_hint;
      session_id_hint = session_id_hint;
      volume_index_hint = volume_index_hint;
      image_sha256 = image_sha256;
      header_crc32c = header_crc32c;
    }
    ok header

  pub to_bytes : CriticalMetadataRecoveryHeader → List ℕ
  to_bytes h =
      write_crc crc32c (copy_all (zeros critical_metadata_recovery_header_len) (pieces h)) 112
