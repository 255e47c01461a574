-- ===== src/Metadata/Frames.antt =====
-- The frame table of an index shard: `validate_frame_table` and `validate_file_frame_range` of
-- crates/tzap-core/src/metadata.rs.
pub mod Disjoint
pub mod Range
mod Examples
use Prim.Native.Nat.{bit_and}
use Prim.Native.String.{String}
use tzap.Prelude.{
  ℕ, zero, suc, ◌+◌, ◌-◌, ◌^◌, List, [], ◌∷◌, Option, none, some, ltb, leb, not, ◌==◌, ◌||◌,
  if◌then◌else◌,
}
use tzap.Format.{
  Result, ok, err, ◌>>◌, ◌>>=◌, reject_if, ok_or, invalid_metadata, metadata_arithmetic_overflow,
}
use tzap.Metadata.Rows.{FrameEntry, FileEntry}

-- `checked_add` on `u64`.
abbrev pub checked_add_u64 : ℕ → ℕ → Option ℕ
checked_add_u64 a b = if ltb (a + b) (2 ^ 64) then some (a + b) else none

-- `!FRAME_KNOWN_FLAGS` as a `u32`.
abbrev pub frame_unknown_flags : ℕ
frame_unknown_flags = 2 ^ 32 - 1 - 0x03

unfoldable pub validate_frame : FrameEntry → Result (Unit {0})
validate_frame frame = do
  reject_if (frame.compressed_size == 0 || frame.decompressed_size == 0)
      (invalid_metadata "FrameEntry" "frame sizes must be non-zero")
  reject_if (not (bit_and frame.flags frame_unknown_flags == 0))
      (invalid_metadata "FrameEntry" "reserved flag bits are non-zero")

unfoldable pub validate_frames : List FrameEntry → Result (Unit {0})
unfolding validate_frame
validate_frames [] = ok tt
validate_frames (frame ∷ frames) = validate_frame frame >> validate_frames frames

unfoldable pub validate_frame_pair : FrameEntry → FrameEntry → Result (Unit {0})
validate_frame_pair previous next = do
  reject_if (leb next.frame_index previous.frame_index)
      (invalid_metadata "IndexShard" "FrameEntry rows are not sorted and unique")
  previous_end ←
      ok_or (checked_add_u64 previous.tar_stream_offset previous.decompressed_size)
        (metadata_arithmetic_overflow "FrameEntry")
  (if next.frame_index == previous.frame_index + 1
      then reject_if (not (next.tar_stream_offset == previous_end))
          (invalid_metadata "FrameEntry" "consecutive tar stream offsets are not packed")
      else reject_if (leb next.tar_stream_offset previous_end)
          (invalid_metadata "FrameEntry" "non-consecutive tar stream offsets overlap"))

-- `frames.windows(2)`
unfoldable pub validate_frame_pairs : List FrameEntry → Result (Unit {0})
unfolding validate_frame_pair
validate_frame_pairs [] = ok tt
validate_frame_pairs (frame ∷ []) = ok tt
validate_frame_pairs (previous ∷ next ∷ frames) =
    validate_frame_pair previous next >> validate_frame_pairs (next ∷ frames)

unfoldable pub validate_frame_table : List FrameEntry → Result (Unit {0})
unfolding validate_frames validate_frame_pairs
validate_frame_table frames = validate_frames frames >> validate_frame_pairs frames

-- The row that the map from frame indexes gives: of rows with one index, the last.
unfoldable pub find_frame : List FrameEntry → ℕ → Option FrameEntry
find_frame [] frame_index = none
find_frame (frame ∷ frames) frame_index = elim (find_frame frames frame_index) [
  | some later ↦ some later
  | none ↦ if frame.frame_index == frame_index then some frame else none
]

unfoldable pub frame_for_file : List FrameEntry → ℕ → Result FrameEntry
unfolding find_frame
frame_for_file frames frame_index =
    ok_or (find_frame frames frame_index)
      (invalid_metadata "FileEntry" "referenced FrameEntry is missing")

-- The loop over the frames between the first and the last.
unfoldable pub add_frames : List FrameEntry → ℕ → ℕ → ℕ → ℕ → Result ℕ
unfolding frame_for_file
add_frames frames first_index zero offset bytes_before_last = ok bytes_before_last
add_frames frames first_index (suc count) offset bytes_before_last = do
  frame_index ←
      ok_or (checked_add_u64 first_index offset) (metadata_arithmetic_overflow "FileEntry")
  frame ← frame_for_file frames frame_index
  more ←
      ok_or (checked_add_u64 bytes_before_last frame.decompressed_size)
        (metadata_arithmetic_overflow "FileEntry")
  add_frames frames first_index count (suc offset) more

-- A file of more than one frame, where `in_first` bytes of the first frame are its own.
unfoldable pub validate_several_frames : FileEntry → List FrameEntry → ℕ → Result (Unit {0})
unfolding frame_for_file add_frames
validate_several_frames file frames in_first = do
  before ← add_frames frames file.first_frame_index (file.frame_count - 2) 1 in_first
  last_index ←
      ok_or (checked_add_u64 file.first_frame_index (file.frame_count - 1))
        (metadata_arithmetic_overflow "FileEntry")
  last ← frame_for_file frames last_index
  max_size ←
      ok_or (checked_add_u64 before last.decompressed_size)
        (metadata_arithmetic_overflow "FileEntry")
  reject_if (leb file.tar_member_group_size before || ltb max_size file.tar_member_group_size)
      (invalid_metadata "FileEntry" "frame range is not minimal")

unfoldable pub validate_from_first : FileEntry → List FrameEntry → FrameEntry → Result (Unit {0})
unfolding validate_several_frames
validate_from_first file frames first = do
  reject_if (leb first.decompressed_size file.offset_in_first_frame_plaintext)
      (invalid_metadata "FileEntry" "offset in first frame is outside the first referenced frame")
  let in_first = first.decompressed_size - file.offset_in_first_frame_plaintext
  (if file.frame_count == 1
      then reject_if (ltb in_first file.tar_member_group_size)
          (invalid_metadata "FileEntry" "tar member group exceeds the single referenced frame")
      else validate_several_frames file frames in_first)

-- For a file of one or more frames.
unfoldable pub validate_file_frame_range : FileEntry → List FrameEntry → Result (Unit {0})
unfolding frame_for_file validate_from_first
validate_file_frame_range file frames =
    frame_for_file frames file.first_frame_index >>= validate_from_first file frames
