-- ===== src/Wire/VolumeHeader.antt =====
-- `VolumeHeader` of crates/tzap-core/src/wire.rs.
pub mod Codec
mod Examples
use tzap.Prelude.{ℕ, ◌^◌, ◌<◌, ◌≡◌, List, [], ◌∷◌, length, ltb, leb, not, ◌==◌}
use tzap.Prelude.Slices.{Piece, slice, zeros, copy_all}
use tzap.Format.{
  Result, ok, err, ◌>>=◌, ◌>>◌, reject_if, unsupported_format_version, zero_stripe_width,
  volume_index_out_of_range, non_canonical_crypto_header_offset, reader_resource_limit_exceeded,
  format_version as supported_version, volume_header_len, reader_max_crypto_header_len,
}
use tzap.Wire.Fields.{
  expect_len, expect_magic, expect_zero, expect_crc, read_u16, read_u32, read_array_16, write_u16,
  write_u32, write_crc, IsU16, IsU32, IsArray,
}

pub record VolumeHeader : Type 0 where
  pub format_version : ℕ
  pub volume_format_rev : ℕ
  pub volume_index : ℕ
  pub stripe_width : ℕ
  pub archive_uuid : List ℕ
  pub session_id : List ℕ
  pub crypto_header_offset : ℕ
  pub crypto_header_length : ℕ
  pub header_crc32c : ℕ

-- The fields hold values of their machine types.
pub record IsTyped (h : VolumeHeader) : Type 0 where
  pub format_version : IsU16 h.format_version
  pub volume_format_rev : IsU16 h.volume_format_rev
  pub volume_index : IsU32 h.volume_index
  pub stripe_width : IsU32 h.stripe_width
  pub archive_uuid : IsArray 16 h.archive_uuid
  pub session_id : IsArray 16 h.session_id
  pub crypto_header_offset : IsU32 h.crypto_header_offset
  pub crypto_header_length : IsU32 h.crypto_header_length

-- b"TZAP"
abbrev pub tzap_magic : List ℕ
tzap_magic = b'T' ∷ b'Z' ∷ b'A' ∷ b'P' ∷ []

pub validate : VolumeHeader → Result (Unit {0})
validate h = do
  reject_if (not (h.format_version == supported_version))
      (unsupported_format_version h.format_version)
  reject_if (h.stripe_width == 0) zero_stripe_width
  reject_if (leb h.stripe_width h.volume_index)
      (volume_index_out_of_range h.volume_index h.stripe_width)
  reject_if (not (h.crypto_header_offset == volume_header_len))
      (non_canonical_crypto_header_offset h.crypto_header_offset)
  reject_if (ltb reader_max_crypto_header_len h.crypto_header_length) (
      reader_resource_limit_exceeded "CryptoHeader length" reader_max_crypto_header_len
        h.crypto_header_length)

-- The writes of `to_bytes` before the checksum.
abbrev pub pieces : VolumeHeader → List Piece
pieces h =
    (0, 4, tzap_magic)
    ∷ write_u16 4 h.format_version
    ∷ write_u16 6 h.volume_format_rev
    ∷ write_u32 8 h.volume_index
    ∷ write_u32 12 h.stripe_width
    ∷ (16, 16, h.archive_uuid)
    ∷ (32, 16, h.session_id)
    ∷ write_u32 48 h.crypto_header_offset
    ∷ write_u32 52 h.crypto_header_length
    ∷ []

module _ (crc32c : List ℕ → ℕ) where
  pub parse : List ℕ → Result VolumeHeader
  parse bytes = do
    expect_len "VolumeHeader" volume_header_len (length bytes)
    expect_magic "VolumeHeader" tzap_magic (slice bytes 0 4)
    declared_crc ← read_u32 bytes 124
    expect_crc crc32c "VolumeHeader" (slice bytes 0 124) declared_crc
    expect_zero "VolumeHeader" (slice bytes 56 124)
    version ← read_u16 bytes 4
    rev ← read_u16 bytes 6
    index ← read_u32 bytes 8
    width ← read_u32 bytes 12
    uuid ← read_array_16 bytes 16
    session ← read_array_16 bytes 32
    offset ← read_u32 bytes 48
    crypto_length ← read_u32 bytes 52
    crc ← read_u32 bytes 124
    let header : VolumeHeader = record {
      format_version = version;
      volume_format_rev = rev;
      volume_index = index;
      stripe_width = width;
      archive_uuid = uuid;
      session_id = session;
      crypto_header_offset = offset;
      crypto_header_length = crypto_length;
      header_crc32c = crc;
    }
    validate header
    ok header

  pub to_bytes : VolumeHeader → List ℕ
  to_bytes h = write_crc crc32c (copy_all (zeros volume_header_len) (pieces h)) 124
