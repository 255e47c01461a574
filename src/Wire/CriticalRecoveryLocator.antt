-- ===== src/Wire/CriticalRecoveryLocator.antt =====
-- `CriticalRecoveryLocator` of crates/tzap-core/src/wire.rs.
pub mod Codec
mod Examples
use tzap.Prelude.{
  ℕ, ◌-◌, ◌*◌, Option, some, none, ◌^◌, ◌<◌, ◌≡◌, Bool, List, [], ◌∷◌, length, ltb, leb, not, ◌==◌,
  ◌&&◌, ◌||◌, ◌+◌, if◌then◌else◌,
}
use tzap.Prelude.Slices.{Piece, slice, zeros, copy_all}
use tzap.Prelude.Bytes.{ℤ, IsI64}
use Prim.Native.Nat.{bit_and, bit_xor}
use tzap.Format.{
  Result, ok, err, ◌>>=◌, ◌>>◌, reject_if, critical_recovery_locator_len,
  critical_metadata_recovery_header_len, format_version, volume_format_rev_45,
  reader_max_supported_volume_format_rev, unsupported_format_version,
  unsupported_volume_format_revision, unknown_fec_algo, invalid_archive,
}
use tzap.Wire.Fields.{
  byte_at, expect_len, expect_magic, expect_zero, expect_crc, read_u16, read_u32, read_u64,
  read_i64, read_array_16, read_array_32, write_u8, write_u16, write_u32, write_u64, write_i64,
  write_crc, IsU8, IsU16, IsU32, IsU64, IsArray,
}

pub record CriticalRecoveryLocator : Type 0 where
  pub volume_format_rev : ℕ
  pub cmra_offset : ℕ
  pub cmra_length : ℕ
  pub volume_trailer_offset : ℕ
  pub body_bytes_before_cmra : ℕ
  pub archive_uuid_hint : List ℕ
  pub session_id_hint : List ℕ
  pub volume_index_hint : ℕ
  pub locator_sequence : ℕ
  pub cmra_shard_size : ℕ
  pub cmra_data_shard_count : ℕ
  pub cmra_parity_shard_count : ℕ
  pub cmra_image_length : ℕ
  pub cmra_image_sha256 : List ℕ
  pub locator_crc32c : ℕ

-- The fields hold values of their machine types.
pub record IsTyped (h : CriticalRecoveryLocator) : Type 0 where
  pub volume_format_rev : IsU16 h.volume_format_rev
  pub cmra_offset : IsU64 h.cmra_offset
  pub cmra_length : IsU32 h.cmra_length
  pub volume_trailer_offset : IsU64 h.volume_trailer_offset
  pub body_bytes_before_cmra : IsU64 h.body_bytes_before_cmra
  pub archive_uuid_hint : IsArray 16 h.archive_uuid_hint
  pub session_id_hint : IsArray 16 h.session_id_hint
  pub volume_index_hint : IsU32 h.volume_index_hint
  pub locator_sequence : IsU32 h.locator_sequence
  pub cmra_shard_size : IsU32 h.cmra_shard_size
  pub cmra_data_shard_count : IsU16 h.cmra_data_shard_count
  pub cmra_parity_shard_count : IsU16 h.cmra_parity_shard_count
  pub cmra_image_length : IsU32 h.cmra_image_length
  pub cmra_image_sha256 : IsArray 32 h.cmra_image_sha256

-- b"TZCL"
abbrev pub tzcl_magic : List ℕ
tzcl_magic = b'T' ∷ b'Z' ∷ b'C' ∷ b'L' ∷ []

-- The writes of `to_bytes` before the checksum.
abbrev pub pieces : CriticalRecoveryLocator → List Piece
pieces h =
    (0, 4, tzcl_magic)
    ∷ write_u16 4 1
    ∷ write_u16 6 h.volume_format_rev
    ∷ write_u64 8 h.cmra_offset
    ∷ write_u32 16 h.cmra_length
    ∷ write_u16 20 critical_metadata_recovery_header_len
    ∷ write_u16 22 1
    ∷ write_u64 24 h.volume_trailer_offset
    ∷ write_u64 32 h.body_bytes_before_cmra
    ∷ (40, 16, h.archive_uuid_hint)
    ∷ (56, 16, h.session_id_hint)
    ∷ write_u32 72 h.volume_index_hint
    ∷ write_u32 76 h.locator_sequence
    ∷ write_u32 80 h.cmra_shard_size
    ∷ write_u16 84 h.cmra_data_shard_count
    ∷ write_u16 86 h.cmra_parity_shard_count
    ∷ write_u32 88 h.cmra_image_length
    ∷ (92, 32, h.cmra_image_sha256)
    ∷ []

module _ (crc32c : List ℕ → ℕ) where
  pub parse : List ℕ → Result CriticalRecoveryLocator
  parse bytes = do
    expect_len "CriticalRecoveryLocator" critical_recovery_locator_len (length bytes)
    expect_magic "CriticalRecoveryLocator" tzcl_magic (slice bytes 0 4)
    version ← read_u16 bytes 4
    reject_if (not (version == 1)) (unsupported_format_version version)
    rev ← read_u16 bytes 6
    reject_if (not (rev == volume_format_rev_45)) (
        unsupported_volume_format_revision format_version rev
          reader_max_supported_volume_format_rev)
    header_length ← read_u16 bytes 20
    reject_if (not (header_length == critical_metadata_recovery_header_len))
        (invalid_archive "CriticalRecoveryLocator CMRA header length is invalid")
    fec_algo ← read_u16 bytes 22
    reject_if (not (fec_algo == 1)) (unknown_fec_algo fec_algo)
    sequence ← read_u32 bytes 76
    reject_if (ltb 1 sequence) (invalid_archive "CriticalRecoveryLocator has invalid sequence")
    declared_crc ← read_u32 bytes 124
    expect_crc crc32c "CriticalRecoveryLocator" (slice bytes 0 124) declared_crc
    cmra_offset ← read_u64 bytes 8
    cmra_length ← read_u32 bytes 16
    volume_trailer_offset ← read_u64 bytes 24
    body_bytes_before_cmra ← read_u64 bytes 32
    archive_uuid_hint ← read_array_16 bytes 40
    session_id_hint ← read_array_16 bytes 56
    volume_index_hint ← read_u32 bytes 72
    cmra_shard_size ← read_u32 bytes 80
    cmra_data_shard_count ← read_u16 bytes 84
    cmra_parity_shard_count ← read_u16 bytes 86
    cmra_image_length ← read_u32 bytes 88
    cmra_image_sha256 ← read_array_32 bytes 92
    locator_crc32c ← read_u32 bytes 124
    let header : CriticalRecoveryLocator = record {
      volume_format_rev = rev;
      cmra_offset = cmra_offset;
      cmra_length = cmra_length;
      volume_trailer_offset = volume_trailer_offset;
      body_bytes_before_cmra = body_bytes_before_cmra;
      archive_uuid_hint = archive_uuid_hint;
      session_id_hint = session_id_hint;
      volume_index_hint = volume_index_hint;
      locator_sequence = sequence;
      cmra_shard_size = cmra_shard_size;
      cmra_data_shard_count = cmra_data_shard_count;
      cmra_parity_shard_count = cmra_parity_shard_count;
      cmra_image_length = cmra_image_length;
      cmra_image_sha256 = cmra_image_sha256;
      locator_crc32c = locator_crc32c;
    }
    ok header

  pub to_bytes : CriticalRecoveryLocator → List ℕ
  to_bytes h = write_crc crc32c (copy_all (zeros critical_recovery_locator_len) (pieces h)) 124
