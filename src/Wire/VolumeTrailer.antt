-- ===== src/Wire/VolumeTrailer.antt =====
-- `VolumeTrailer` of crates/tzap-core/src/wire.rs.
pub mod Codec
mod Examples
use tzap.Prelude.{
  ℕ, ◌-◌, ◌*◌, Option, some, none, ◌^◌, ◌<◌, ◌≡◌, Bool, List, [], ◌∷◌, length, ltb, leb, not, ◌==◌,
  ◌&&◌, ◌||◌, ◌+◌, if◌then◌else◌,
}
use tzap.Prelude.Slices.{Piece, slice, zeros, copy_all}
use tzap.Prelude.Bytes.{ℤ, IsI64}
use Prim.Native.Nat.{bit_and, bit_xor}
use tzap.Format.{
  Result, ok, err, ◌>>=◌, ◌>>◌, reject_if, manifest_footer_len, volume_trailer_len,
  invalid_manifest_footer_length, invalid_archive,
}
use tzap.Wire.Fields.{
  byte_at, expect_len, expect_magic, expect_zero, expect_crc, read_u16, read_u32, read_u64,
  read_i64, read_array_16, read_array_32, write_u8, write_u16, write_u32, write_u64, write_i64,
  write_crc, IsU8, IsU16, IsU32, IsU64, IsArray,
}

pub record VolumeTrailer : Type 0 where
  pub archive_uuid : List ℕ
  pub session_id : List ℕ
  pub volume_index : ℕ
  pub block_count : ℕ
  pub bytes_written : ℕ
  pub manifest_footer_offset : ℕ
  pub manifest_footer_length : ℕ
  pub closed_at_ns : ℤ
  pub root_auth_footer_offset : ℕ
  pub root_auth_footer_length : ℕ
  pub root_auth_flags : ℕ
  pub trailer_hmac : List ℕ

-- The fields hold values of their machine types.
pub record IsTyped (h : VolumeTrailer) : Type 0 where
  pub archive_uuid : IsArray 16 h.archive_uuid
  pub session_id : IsArray 16 h.session_id
  pub volume_index : IsU32 h.volume_index
  pub block_count : IsU64 h.block_count
  pub bytes_written : IsU64 h.bytes_written
  pub manifest_footer_offset : IsU64 h.manifest_footer_offset
  pub manifest_footer_length : IsU32 h.manifest_footer_length
  pub closed_at_ns : IsI64 h.closed_at_ns
  pub root_auth_footer_offset : IsU64 h.root_auth_footer_offset
  pub root_auth_footer_length : IsU32 h.root_auth_footer_length
  pub root_auth_flags : IsU32 h.root_auth_flags
  pub trailer_hmac : IsArray 32 h.trailer_hmac

-- b"TZVT"
abbrev pub tzvt_magic : List ℕ
tzvt_magic = b'T' ∷ b'Z' ∷ b'V' ∷ b'T' ∷ []

-- `!0x0000_0001` as a `u32`: the bits of the flags that are not in use.
abbrev pub unknown_flags : ℕ
unknown_flags = 2 ^ 32 - 1 - 1

-- The writes of `to_bytes`.
abbrev pub pieces : VolumeTrailer → List Piece
pieces h =
    (0, 4, tzvt_magic)
    ∷ (4, 16, h.archive_uuid)
    ∷ (20, 16, h.session_id)
    ∷ write_u32 36 h.volume_index
    ∷ write_u64 40 h.block_count
    ∷ write_u64 48 h.bytes_written
    ∷ write_u64 56 h.manifest_footer_offset
    ∷ write_u32 64 h.manifest_footer_length
    ∷ write_i64 68 h.closed_at_ns
    ∷ write_u64 76 h.root_auth_footer_offset
    ∷ write_u32 84 h.root_auth_footer_length
    ∷ write_u32 88 h.root_auth_flags
    ∷ (96, 32, h.trailer_hmac)
    ∷ []

pub parse : List ℕ → Result VolumeTrailer
parse bytes = do
  expect_len "VolumeTrailer" volume_trailer_len (length bytes)
  expect_magic "VolumeTrailer" tzvt_magic (slice bytes 0 4)
  expect_zero "VolumeTrailer" (slice bytes 92 96)
  footer_length ← read_u32 bytes 64
  reject_if (not (footer_length == manifest_footer_len))
      (invalid_manifest_footer_length footer_length)
  auth_flags ← read_u32 bytes 88
  reject_if (not (bit_and auth_flags unknown_flags == 0))
      (invalid_archive "VolumeTrailer root_auth_flags has unknown bits")
  archive_uuid ← read_array_16 bytes 4
  session_id ← read_array_16 bytes 20
  volume_index ← read_u32 bytes 36
  block_count ← read_u64 bytes 40
  bytes_written ← read_u64 bytes 48
  manifest_footer_offset ← read_u64 bytes 56
  closed_at_ns ← read_i64 bytes 68
  root_auth_footer_offset ← read_u64 bytes 76
  root_auth_footer_length ← read_u32 bytes 84
  trailer_hmac ← read_array_32 bytes 96
  let header : VolumeTrailer = record {
    archive_uuid = archive_uuid;
    session_id = session_id;
    volume_index = volume_index;
    block_count = block_count;
    bytes_written = bytes_written;
    manifest_footer_offset = manifest_footer_offset;
    manifest_footer_length = footer_length;
    closed_at_ns = closed_at_ns;
    root_auth_footer_offset = root_auth_footer_offset;
    root_auth_footer_length = root_auth_footer_length;
    root_auth_flags = auth_flags;
    trailer_hmac = trailer_hmac;
  }
  ok header

pub to_bytes : VolumeTrailer → List ℕ
to_bytes h = copy_all (zeros volume_trailer_len) (pieces h)
