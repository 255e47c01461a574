-- ===== src/Wire/BootstrapSidecarHeader.antt =====
-- `BootstrapSidecarHeader` of crates/tzap-core/src/wire.rs.
pub mod Codec
mod Examples
use tzap.Prelude.{
  ℕ, ◌-◌, ◌*◌, Option, some, none, ◌^◌, ◌<◌, ◌≡◌, Bool, List, [], ◌∷◌, length, ltb, leb, not, ◌==◌,
  ◌&&◌, ◌||◌, ◌+◌, if◌then◌else◌,
}
use tzap.Prelude.Slices.{Piece, slice, zeros, copy_all}
use tzap.Prelude.Bytes.{ℤ, IsI64}
use Prim.Native.Nat.{bit_and, bit_xor}
use tzap.Format.{
  Result, ok, err, ◌>>=◌, ◌>>◌, reject_if, bootstrap_sidecar_header_len, manifest_footer_len,
  unsupported_bootstrap_sidecar_version, unknown_bootstrap_sidecar_flags,
  empty_bootstrap_sidecar_section, non_zero_absent_bootstrap_sidecar_section,
  non_canonical_bootstrap_sidecar_layout, invalid_manifest_footer_length,
}
use tzap.Wire.Fields.{
  byte_at, expect_len, expect_magic, expect_zero, expect_crc, read_u16, read_u32, read_u64,
  read_i64, read_array_16, read_array_32, write_u8, write_u16, write_u32, write_u64, write_i64,
  write_crc, IsU8, IsU16, IsU32, IsU64, IsArray,
}

pub record BootstrapSidecarHeader : Type 0 where
  pub archive_uuid : List ℕ
  pub session_id : List ℕ
  pub flags : ℕ
  pub manifest_footer_offset : ℕ
  pub manifest_footer_length : ℕ
  pub index_root_records_offset : ℕ
  pub index_root_records_length : ℕ
  pub dictionary_records_offset : ℕ
  pub dictionary_records_length : ℕ
  pub sidecar_hmac : List ℕ
  pub header_crc32c : ℕ

-- The fields hold values of their machine types.
pub record IsTyped (h : BootstrapSidecarHeader) : Type 0 where
  pub archive_uuid : IsArray 16 h.archive_uuid
  pub session_id : IsArray 16 h.session_id
  pub flags : IsU32 h.flags
  pub manifest_footer_offset : IsU64 h.manifest_footer_offset
  pub manifest_footer_length : IsU32 h.manifest_footer_length
  pub index_root_records_offset : IsU64 h.index_root_records_offset
  pub index_root_records_length : IsU64 h.index_root_records_length
  pub dictionary_records_offset : IsU64 h.dictionary_records_offset
  pub dictionary_records_length : IsU64 h.dictionary_records_length
  pub sidecar_hmac : IsArray 32 h.sidecar_hmac

-- b"TZBS"
abbrev pub tzbs_magic : List ℕ
tzbs_magic = b'T' ∷ b'Z' ∷ b'B' ∷ b'S' ∷ []

-- The bits of the flags: 0x01, 0x02 and 0x04. `!SIDECAR_KNOWN_FLAGS` is a `u32`.
abbrev pub unknown_flags : ℕ
unknown_flags = 2 ^ 32 - 1 - 0x07

abbrev pub has_manifest_footer : BootstrapSidecarHeader → Bool
has_manifest_footer h = not (bit_and h.flags 0x01 == 0)

abbrev pub has_index_root_records : BootstrapSidecarHeader → Bool
has_index_root_records h = not (bit_and h.flags 0x02 == 0)

abbrev pub has_dictionary_records : BootstrapSidecarHeader → Bool
has_dictionary_records h = not (bit_and h.flags 0x04 == 0)

pub validate_presence_fields : Bool → ℕ → ℕ → Result (Unit {0})
validate_presence_fields present offset len =
    if present && (offset == 0 || len == 0)
    then err empty_bootstrap_sidecar_section
    else if not present && (offset == 0 && len == 0)
    then ok tt
    else if not present
    then err non_zero_absent_bootstrap_sidecar_section
    else ok tt

pub validate_section_cursor : Bool → ℕ → ℕ → ℕ → Result ℕ
validate_section_cursor present offset len cursor =
    if present
    then (if not (offset == cursor)
        then err non_canonical_bootstrap_sidecar_layout
        else if ltb (cursor + len) (2 ^ 64)
        then ok (cursor + len)
        else err non_canonical_bootstrap_sidecar_layout)
    else ok cursor

pub validate_sections : BootstrapSidecarHeader → Result (Unit {0})
validate_sections h = do
  reject_if (not (bit_and h.flags unknown_flags == 0)) (unknown_bootstrap_sidecar_flags h.flags)
  validate_presence_fields (has_manifest_footer h) h.manifest_footer_offset h.manifest_footer_length
  reject_if (has_manifest_footer h && not (h.manifest_footer_length == manifest_footer_len))
      (invalid_manifest_footer_length h.manifest_footer_length)
  validate_presence_fields (has_index_root_records h) h.index_root_records_offset
      h.index_root_records_length
  validate_presence_fields (has_dictionary_records h) h.dictionary_records_offset
      h.dictionary_records_length

pub validate_packed_layout : BootstrapSidecarHeader → ℕ → Result (Unit {0})
validate_packed_layout h file_size = do
  after_manifest ←
      validate_section_cursor (has_manifest_footer h) h.manifest_footer_offset
        h.manifest_footer_length bootstrap_sidecar_header_len
  after_index ←
      validate_section_cursor (has_index_root_records h) h.index_root_records_offset
        h.index_root_records_length after_manifest
  end ←
      validate_section_cursor (has_dictionary_records h) h.dictionary_records_offset
        h.dictionary_records_length after_index
  reject_if (not (end == file_size)) non_canonical_bootstrap_sidecar_layout

-- The writes of `to_bytes` before the checksum.
abbrev pub pieces : BootstrapSidecarHeader → List Piece
pieces h =
    (0, 4, tzbs_magic)
    ∷ write_u32 4 1
    ∷ (8, 16, h.archive_uuid)
    ∷ (24, 16, h.session_id)
    ∷ write_u32 40 h.flags
    ∷ write_u64 44 h.manifest_footer_offset
    ∷ write_u32 52 h.manifest_footer_length
    ∷ write_u64 56 h.index_root_records_offset
    ∷ write_u64 64 h.index_root_records_length
    ∷ write_u64 72 h.dictionary_records_offset
    ∷ write_u64 80 h.dictionary_records_length
    ∷ (92, 32, h.sidecar_hmac)
    ∷ []

module _ (crc32c : List ℕ → ℕ) where
  pub parse : List ℕ → Result BootstrapSidecarHeader
  parse bytes = do
    expect_len "BootstrapSidecarHeader" bootstrap_sidecar_header_len (length bytes)
    expect_magic "BootstrapSidecarHeader" tzbs_magic (slice bytes 0 4)
    version ← read_u32 bytes 4
    reject_if (not (version == 1)) (unsupported_bootstrap_sidecar_version version)
    expect_zero "BootstrapSidecarHeader" (slice bytes 88 92)
    declared_crc ← read_u32 bytes 124
    expect_crc crc32c "BootstrapSidecarHeader" (slice bytes 0 124) declared_crc
    archive_uuid ← read_array_16 bytes 8
    session_id ← read_array_16 bytes 24
    flags ← read_u32 bytes 40
    manifest_footer_offset ← read_u64 bytes 44
    manifest_footer_length ← read_u32 bytes 52
    index_root_records_offset ← read_u64 bytes 56
    index_root_records_length ← read_u64 bytes 64
    dictionary_records_offset ← read_u64 bytes 72
    dictionary_records_length ← read_u64 bytes 80
    sidecar_hmac ← read_array_32 bytes 92
    header_crc32c ← read_u32 bytes 124
    let header : BootstrapSidecarHeader = record {
      archive_uuid = archive_uuid;
      session_id = session_id;
      flags = flags;
      manifest_footer_offset = manifest_footer_offset;
      manifest_footer_length = manifest_footer_length;
      index_root_records_offset = index_root_records_offset;
      index_root_records_length = index_root_records_length;
      dictionary_records_offset = dictionary_records_offset;
      dictionary_records_length = dictionary_records_length;
      sidecar_hmac = sidecar_hmac;
      header_crc32c = header_crc32c;
    }
    validate_sections header
    ok header

  pub to_bytes : BootstrapSidecarHeader → List ℕ
  to_bytes h = write_crc crc32c (copy_all (zeros bootstrap_sidecar_header_len) (pieces h)) 124
