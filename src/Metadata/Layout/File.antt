-- ===== src/Metadata/Layout/File.antt =====
-- The layout of a `FileEntry`: `parse_file_entry` and `FileEntry::to_bytes`.
pub mod Codec
use tzap.Prelude.{ℕ, ◌≡◌, refl, sym, ap, ◌∙◌, ◌↔◌, List, [], ◌∷◌, arith, length}
use tzap.Prelude.Slices.{
  Piece, zeros, copy_all, Holds, Fits, copy_all-Holds, length-copy_all, Holds-copy_all,
}
use tzap.Prelude.Bytes.{IsI64, AllBytes, to_le, length-to_le, of_word64, of_word64-IsI64}
use tzap.Format.{Result, ok, ◌>>=◌}
use tzap.Wire.Fields.{
  write_u16, write_u32, write_u64, write_i64, IsU8, IsU16, IsU32, IsU64, IsArray,
}
use tzap.Wire.Fields.Reads.{
  bytes_at, number_at, number_at-to_le, to_le-number_at, number_at-lt, bytes_at-IsArray,
  to_word64-at, of_word64-at,
}
use tzap.Wire.Fields.Checks.{run_checks, Passed, run_checks-Passed, run_checks_all}
use tzap.Metadata.Rows.{FileEntry}
use tzap.Metadata.Layout.{
  slice_at, read_u8_at, read_u16_at, read_u32_at, read_u64_at, read_i64_at, read_array_8_at,
}

-- The fields hold values of their machine types.
pub record IsTyped (row : FileEntry) : Type 0 where
  pub path_hash : IsArray 8 row.path_hash
  pub path_offset : IsU32 row.path_offset
  pub path_length : IsU32 row.path_length
  pub first_frame_index : IsU64 row.first_frame_index
  pub frame_count : IsU32 row.frame_count
  pub offset_in_first_frame_plaintext : IsU32 row.offset_in_first_frame_plaintext
  pub tar_member_group_size : IsU64 row.tar_member_group_size
  pub file_data_size : IsU64 row.file_data_size
  pub flags : IsU32 row.flags
  pub mtime_nsec : IsU32 row.mtime_nsec
  pub mtime_sec : IsI64 row.mtime_sec
  pub created_nsec : IsU32 row.created_nsec
  pub accessed_nsec : IsU32 row.accessed_nsec
  pub created_sec : IsI64 row.created_sec
  pub accessed_sec : IsI64 row.accessed_sec
  pub uid : IsU64 row.uid
  pub gid : IsU64 row.gid
  pub mode : IsU32 row.mode
  pub attributes : IsU32 row.attributes
  pub uname_offset : IsU32 row.uname_offset
  pub uname_length : IsU32 row.uname_length
  pub gname_offset : IsU32 row.gname_offset
  pub gname_length : IsU32 row.gname_length
  pub link_target_offset : IsU32 row.link_target_offset
  pub link_target_length : IsU32 row.link_target_length
  pub kind : IsU8 row.kind
  pub metadata_flags : IsU8 row.metadata_flags
  pub reserved1 : IsU16 row.reserved1
  pub reserved2 : IsU32 row.reserved2

-- The writes of `to_bytes`.
abbrev pub pieces : FileEntry → List Piece
pieces row =
    (0, 8, row.path_hash)
    ∷ write_u32 8 row.path_offset
    ∷ write_u32 12 row.path_length
    ∷ write_u64 16 row.first_frame_index
    ∷ write_u32 24 row.frame_count
    ∷ write_u32 28 row.offset_in_first_frame_plaintext
    ∷ write_u64 32 row.tar_member_group_size
    ∷ write_u64 40 row.file_data_size
    ∷ write_u32 48 row.flags
    ∷ write_u32 52 row.mtime_nsec
    ∷ write_i64 56 row.mtime_sec
    ∷ write_u32 64 row.created_nsec
    ∷ write_u32 68 row.accessed_nsec
    ∷ write_i64 72 row.created_sec
    ∷ write_i64 80 row.accessed_sec
    ∷ write_u64 88 row.uid
    ∷ write_u64 96 row.gid
    ∷ write_u32 104 row.mode
    ∷ write_u32 108 row.attributes
    ∷ write_u32 112 row.uname_offset
    ∷ write_u32 116 row.uname_length
    ∷ write_u32 120 row.gname_offset
    ∷ write_u32 124 row.gname_length
    ∷ write_u32 128 row.link_target_offset
    ∷ write_u32 132 row.link_target_length
    ∷ (136, 1, to_le 1 row.kind)
    ∷ (137, 1, to_le 1 row.metadata_flags)
    ∷ write_u16 138 row.reserved1
    ∷ write_u32 140 row.reserved2
    ∷ []

unfoldable pub to_bytes : FileEntry → List ℕ
to_bytes row = copy_all (zeros 144) (pieces row)

unfoldable pub parse : List ℕ → Result FileEntry
unfolding slice_at read_u8_at read_u16_at read_u32_at read_u64_at read_i64_at read_array_8_at
parse bytes = do
  path_hash ← read_array_8_at "FileEntry" bytes 0
  path_offset ← read_u32_at "FileEntry" bytes 8
  path_length ← read_u32_at "FileEntry" bytes 12
  first_frame_index ← read_u64_at "FileEntry" bytes 16
  frame_count ← read_u32_at "FileEntry" bytes 24
  offset_in_first_frame_plaintext ← read_u32_at "FileEntry" bytes 28
  tar_member_group_size ← read_u64_at "FileEntry" bytes 32
  file_data_size ← read_u64_at "FileEntry" bytes 40
  flags ← read_u32_at "FileEntry" bytes 48
  mtime_nsec ← read_u32_at "FileEntry" bytes 52
  mtime_sec ← read_i64_at "FileEntry" bytes 56
  created_nsec ← read_u32_at "FileEntry" bytes 64
  accessed_nsec ← read_u32_at "FileEntry" bytes 68
  created_sec ← read_i64_at "FileEntry" bytes 72
  accessed_sec ← read_i64_at "FileEntry" bytes 80
  uid ← read_u64_at "FileEntry" bytes 88
  gid ← read_u64_at "FileEntry" bytes 96
  mode ← read_u32_at "FileEntry" bytes 104
  attributes ← read_u32_at "FileEntry" bytes 108
  uname_offset ← read_u32_at "FileEntry" bytes 112
  uname_length ← read_u32_at "FileEntry" bytes 116
  gname_offset ← read_u32_at "FileEntry" bytes 120
  gname_length ← read_u32_at "FileEntry" bytes 124
  link_target_offset ← read_u32_at "FileEntry" bytes 128
  link_target_length ← read_u32_at "FileEntry" bytes 132
  kind ← read_u8_at "FileEntry" bytes 136
  metadata_flags ← read_u8_at "FileEntry" bytes 137
  reserved1 ← read_u16_at "FileEntry" bytes 138
  reserved2 ← read_u32_at "FileEntry" bytes 140
  ok (record {
    path_hash = path_hash;
    path_offset = path_offset;
    path_length = path_length;
    first_frame_index = first_frame_index;
    frame_count = frame_count;
    offset_in_first_frame_plaintext = offset_in_first_frame_plaintext;
    tar_member_group_size = tar_member_group_size;
    file_data_size = file_data_size;
    flags = flags;
    mtime_nsec = mtime_nsec;
    mtime_sec = mtime_sec;
    created_nsec = created_nsec;
    accessed_nsec = accessed_nsec;
    created_sec = created_sec;
    accessed_sec = accessed_sec;
    uid = uid;
    gid = gid;
    mode = mode;
    attributes = attributes;
    uname_offset = uname_offset;
    uname_length = uname_length;
    gname_offset = gname_offset;
    gname_length = gname_length;
    link_target_offset = link_target_offset;
    link_target_length = link_target_length;
    kind = kind;
    metadata_flags = metadata_flags;
    reserved1 = reserved1;
    reserved2 = reserved2;
  })
