-- ===== src/Metadata/Frames/Examples.antt =====
-- Frame tables at concrete values.
use tzap.Prelude.{◌≡◌, refl, arith, All}
use tzap.Format.{ok, err, invalid_metadata}
use tzap.Metadata.Samples.{file_sample, frames_sample}
use tzap.Metadata.Frames.{validate_frame_table, validate_file_frame_range}
use tzap.Metadata.Frames.Disjoint.{HasBytes, AllBefore, validate_frame_table-AllBefore}
use tzap.Metadata.Frames.Range.{Covers, validate_file_frame_range-Covers}

frames_pass : validate_frame_table frames_sample ≡ ok tt
unfolding validate_frame_table
frames_pass = refl

range_passes : validate_file_frame_range file_sample frames_sample ≡ ok tt
unfolding validate_file_frame_range
range_passes = refl

-- A member that fits in the first frame needs no second one.
range_too_long :
    validate_file_frame_range (record file_sample { tar_member_group_size = 900 }) frames_sample
    ≡ err (invalid_metadata "FileEntry" "frame range is not minimal")
unfolding validate_file_frame_range
range_too_long = refl

validate_frame_table-AllBefore_example : All HasBytes frames_sample × AllBefore frames_sample
validate_frame_table-AllBefore_example = validate_frame_table-AllBefore frames_sample frames_pass

validate_file_frame_range-Covers_example : Covers file_sample frames_sample
validate_file_frame_range-Covers_example =
    validate_file_frame_range-Covers file_sample frames_sample (omega arith) range_passes
