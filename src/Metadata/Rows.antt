-- ===== src/Metadata/Rows.antt =====
-- The rows of the index in crates/tzap-core/src/metadata.rs, and the tables that hold them.
use tzap.Prelude.{ℕ, List}
use tzap.Prelude.Bytes.{ℤ}

pub record ShardEntry : Type 0 where
  pub shard_index : ℕ
  pub first_block_index : ℕ
  pub data_block_count : ℕ
  pub parity_block_count : ℕ
  pub encrypted_size : ℕ
  pub decompressed_size : ℕ
  pub file_count : ℕ
  pub first_path_hash : List ℕ
  pub last_path_hash : List ℕ

pub record EnvelopeEntry : Type 0 where
  pub envelope_index : ℕ
  pub first_block_index : ℕ
  pub data_block_count : ℕ
  pub parity_block_count : ℕ
  pub encrypted_size : ℕ
  pub plaintext_size : ℕ
  pub first_frame_index : ℕ
  pub frame_count : ℕ

pub record FrameEntry : Type 0 where
  pub frame_index : ℕ
  pub envelope_index : ℕ
  pub offset_in_envelope : ℕ
  pub compressed_size : ℕ
  pub decompressed_size : ℕ
  pub flags : ℕ
  pub tar_stream_offset : ℕ

pub record FileEntry : Type 0 where
  pub path_hash : List ℕ
  pub path_offset : ℕ
  pub path_length : ℕ
  pub first_frame_index : ℕ
  pub frame_count : ℕ
  pub offset_in_first_frame_plaintext : ℕ
  pub tar_member_group_size : ℕ
  pub file_data_size : ℕ
  pub flags : ℕ
  pub mtime_nsec : ℕ
  pub mtime_sec : ℤ
  pub created_nsec : ℕ
  pub accessed_nsec : ℕ
  pub created_sec : ℤ
  pub accessed_sec : ℤ
  pub uid : ℕ
  pub gid : ℕ
  pub mode : ℕ
  pub attributes : ℕ
  pub uname_offset : ℕ
  pub uname_length : ℕ
  pub gname_offset : ℕ
  pub gname_length : ℕ
  pub link_target_offset : ℕ
  pub link_target_length : ℕ
  pub kind : ℕ
  pub metadata_flags : ℕ
  pub reserved1 : ℕ
  pub reserved2 : ℕ

pub record IndexShardHeader : Type 0 where
  pub version : ℕ
  pub shard_index : ℕ
  pub file_count : ℕ
  pub frame_count : ℕ
  pub envelope_count : ℕ
  pub file_table_offset : ℕ
  pub frame_table_offset : ℕ
  pub envelope_table_offset : ℕ
  pub string_pool_offset : ℕ
  pub string_pool_size : ℕ

pub record IndexShard : Type 0 where
  pub header : IndexShardHeader
  pub files : List FileEntry
  pub frames : List FrameEntry
  pub envelopes : List EnvelopeEntry
  pub string_pool : List ℕ
  pub file_paths : List (List ℕ)
  pub file_tar_member_group_starts : List ℕ

pub record DirectoryHintEntry : Type 0 where
  pub dir_hash : List ℕ
  pub path_offset : ℕ
  pub path_length : ℕ
  pub shard_list_start_index : ℕ
  pub shard_count : ℕ

pub record DirectoryHintTableHeader : Type 0 where
  pub version : ℕ
  pub hint_shard_index : ℕ
  pub entry_count : ℕ
  pub entry_table_offset : ℕ
  pub shard_list_offset : ℕ
  pub string_pool_offset : ℕ
  pub string_pool_size : ℕ

pub record DirectoryHintTable : Type 0 where
  pub header : DirectoryHintTableHeader
  pub entries : List DirectoryHintEntry
  pub shard_row_indexes : List ℕ
  pub string_pool : List ℕ
  pub entry_paths : List (List ℕ)
