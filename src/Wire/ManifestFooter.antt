-- ===== src/Wire/ManifestFooter.antt =====
-- `ManifestFooter` of crates/tzap-core/src/wire.rs.
pub mod Codec
mod Examples
use tzap.Prelude.{
  ℕ, ◌-◌, ◌*◌, Option, some, none, ◌^◌, ◌<◌, ◌≡◌, Bool, List, [], ◌∷◌, length, ltb, leb, not, ◌==◌,
  ◌&&◌, ◌||◌, ◌+◌, if◌then◌else◌,
}
use tzap.Prelude.Slices.{Piece, slice, zeros, copy_all}
use tzap.Prelude.Bytes.{ℤ, IsI64}
use Prim.Native.Nat.{bit_and, bit_xor}
use tzap.Format.{
  Result, ok, err, ◌>>=◌, ◌>>◌, reject_if, manifest_footer_len, invalid_authoritative_flag,
  empty_index_root_extent, index_root_size_mismatch, ok_or,
}
use tzap.Wire.Fields.{
  byte_at, expect_len, expect_magic, expect_zero, expect_crc, read_u16, read_u32, read_u64,
  read_i64, read_array_16, read_array_32, write_u8, write_u16, write_u32, write_u64, write_i64,
  write_crc, IsU8, IsU16, IsU32, IsU64, IsArray,
}

pub record ManifestFooter : Type 0 where
  pub archive_uuid : List ℕ
  pub session_id : List ℕ
  pub volume_index : ℕ
  pub is_authoritative : ℕ
  pub total_volumes : ℕ
  pub index_root_first_block : ℕ
  pub index_root_data_block_count : ℕ
  pub index_root_parity_block_count : ℕ
  pub index_root_encrypted_size : ℕ
  pub index_root_decompressed_size : ℕ
  pub manifest_hmac : List ℕ

-- The fields hold values of their machine types.
pub record IsTyped (h : ManifestFooter) : Type 0 where
  pub archive_uuid : IsArray 16 h.archive_uuid
  pub session_id : IsArray 16 h.session_id
  pub volume_index : IsU32 h.volume_index
  pub is_authoritative : IsU8 h.is_authoritative
  pub total_volumes : IsU32 h.total_volumes
  pub index_root_first_block : IsU64 h.index_root_first_block
  pub index_root_data_block_count : IsU32 h.index_root_data_block_count
  pub index_root_parity_block_count : IsU32 h.index_root_parity_block_count
  pub index_root_encrypted_size : IsU32 h.index_root_encrypted_size
  pub index_root_decompressed_size : IsU32 h.index_root_decompressed_size
  pub manifest_hmac : IsArray 32 h.manifest_hmac

-- b"TZMF"
abbrev pub tzmf_magic : List ℕ
tzmf_magic = b'T' ∷ b'Z' ∷ b'M' ∷ b'F' ∷ []

-- `checked_mul` on `u32`.
abbrev checked_mul : ℕ → ℕ → Option ℕ
checked_mul a b = if ltb (a * b) (2 ^ 32) then some (a * b) else none

pub validate_index_root_extent : ManifestFooter → ℕ → Result (Unit {0})
validate_index_root_extent h block_size = do
  reject_if (h.index_root_data_block_count == 0 || h.index_root_encrypted_size == 0)
      empty_index_root_extent
  expected ← ok_or (checked_mul h.index_root_data_block_count block_size) index_root_size_mismatch
  reject_if (not (expected == h.index_root_encrypted_size)) index_root_size_mismatch

-- The writes of `to_bytes`.
abbrev pub pieces : ManifestFooter → List Piece
pieces h =
    (0, 4, tzmf_magic)
    ∷ (4, 16, h.archive_uuid)
    ∷ (20, 16, h.session_id)
    ∷ write_u32 36 h.volume_index
    ∷ write_u8 40 h.is_authoritative
    ∷ write_u32 44 h.total_volumes
    ∷ write_u64 48 h.index_root_first_block
    ∷ write_u32 56 h.index_root_data_block_count
    ∷ write_u32 60 h.index_root_parity_block_count
    ∷ write_u32 64 h.index_root_encrypted_size
    ∷ write_u32 68 h.index_root_decompressed_size
    ∷ (104, 32, h.manifest_hmac)
    ∷ []

pub parse : List ℕ → Result ManifestFooter
parse bytes = do
  expect_len "ManifestFooter" manifest_footer_len (length bytes)
  expect_magic "ManifestFooter" tzmf_magic (slice bytes 0 4)
  expect_zero "ManifestFooter" (slice bytes 41 44)
  expect_zero "ManifestFooter" (slice bytes 72 104)
  let authoritative = byte_at bytes 40
  reject_if (ltb 1 authoritative) (invalid_authoritative_flag authoritative)
  archive_uuid ← read_array_16 bytes 4
  session_id ← read_array_16 bytes 20
  volume_index ← read_u32 bytes 36
  total_volumes ← read_u32 bytes 44
  index_root_first_block ← read_u64 bytes 48
  index_root_data_block_count ← read_u32 bytes 56
  index_root_parity_block_count ← read_u32 bytes 60
  index_root_encrypted_size ← read_u32 bytes 64
  index_root_decompressed_size ← read_u32 bytes 68
  manifest_hmac ← read_array_32 bytes 104
  let header : ManifestFooter = record {
    archive_uuid = archive_uuid;
    session_id = session_id;
    volume_index = volume_index;
    is_authoritative = authoritative;
    total_volumes = total_volumes;
    index_root_first_block = index_root_first_block;
    index_root_data_block_count = index_root_data_block_count;
    index_root_parity_block_count = index_root_parity_block_count;
    index_root_encrypted_size = index_root_encrypted_size;
    index_root_decompressed_size = index_root_decompressed_size;
    manifest_hmac = manifest_hmac;
  }
  ok header

pub to_bytes : ManifestFooter → List ℕ
to_bytes h = copy_all (zeros manifest_footer_len) (pieces h)
