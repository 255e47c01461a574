-- ===== src/Metadata/Samples.antt =====
-- Rows of an index at concrete values, and a digest that stands in for SHA-256.
use tzap.Prelude.{ℕ, ◌+◌, ◌%◌, List, [], ◌∷◌, replicate}
use tzap.Prelude.Bytes.{pos}
use tzap.Metadata.Rows.{FileEntry, FrameEntry}

abbrev pub total : List ℕ → ℕ
total [] = 0
total (b ∷ bs) = b + total bs

-- The sum of the bytes, and zeros.
abbrev pub short_digest : List ℕ → List ℕ
short_digest bytes = total bytes % 256 ∷ replicate 31 0

abbrev pub file_sample : FileEntry
file_sample = record {
  path_hash = [];
  path_offset = 0;
  path_length = 1;
  first_frame_index = 4;
  frame_count = 2;
  offset_in_first_frame_plaintext = 100;
  tar_member_group_size = 2048;
  file_data_size = 10;
  flags = 32;
  mtime_nsec = 0;
  mtime_sec = pos 0;
  created_nsec = 0;
  accessed_nsec = 0;
  created_sec = pos 0;
  accessed_sec = pos 0;
  uid = 0;
  gid = 0;
  mode = 0;
  attributes = 0;
  uname_offset = 0;
  uname_length = 0;
  gname_offset = 0;
  gname_length = 0;
  link_target_offset = 0;
  link_target_length = 0;
  kind = 0;
  metadata_flags = 0;
  reserved1 = 0;
  reserved2 = 0;
}

abbrev pub frame_sample : FrameEntry
frame_sample = record {
  frame_index = 4;
  envelope_index = 0;
  offset_in_envelope = 0;
  compressed_size = 500;
  decompressed_size = 1024;
  flags = 1;
  tar_stream_offset = 0;
}

-- Two frames that follow one another, and one further on.
abbrev pub frames_sample : List FrameEntry
frames_sample =
    frame_sample
    ∷ (record frame_sample {
      frame_index = 5;
      offset_in_envelope = 500;
      decompressed_size = 2000;
      tar_stream_offset = 1024;
    })
    ∷ (record frame_sample { frame_index = 9; offset_in_envelope = 1000; tar_stream_offset = 9000 })
    ∷ []
