-- ===== src/Metadata/Layout/Examples.antt =====
-- Rows at concrete values, written and read.
use tzap.Prelude.{ℕ, ◌≡◌, ◌↔◌, refl, arith, List, length, replicate}
use tzap.Prelude.Slices.{copy_all, copy_at}
use tzap.Prelude.Bytes.{AllBytes, negsuc, to_le, from_le, any_non_zero, to_word64, of_word64}
use tzap.Format.{ok}
use tzap.Wire.Fields.{expect_zero}
use tzap.Metadata.Rows.{FrameEntry, EnvelopeEntry, FileEntry}
use tzap.Metadata.Layout.Frame
use tzap.Metadata.Layout.Envelope
use tzap.Metadata.Layout.File
use tzap.Metadata.Layout.File.Codec.{file_entry_iff}
use tzap.Metadata.Samples.{frame_sample, file_sample}

abbrev envelope_row : EnvelopeEntry
envelope_row = record {
  envelope_index = 3;
  first_block_index = 70000;
  data_block_count = 2;
  parity_block_count = 1;
  encrypted_size = 8192;
  plaintext_size = 5000;
  first_frame_index = 4;
  frame_count = 2;
}

abbrev frame_row : FrameEntry
frame_row = frame_sample

abbrev file_row : FileEntry
file_row = record file_sample { path_hash = replicate 8 7; mtime_sec = negsuc 4; kind = 2 }

abbrev frame_bytes : List ℕ
frame_bytes = Frame.to_bytes frame_row

frame_bytes-AllBytes : AllBytes frame_bytes
unfolding Frame.to_bytes copy_all copy_at to_le to_word64
frame_bytes-AllBytes = omega arith

length-frame_bytes : length frame_bytes ≡ 44
unfolding Frame.to_bytes copy_all copy_at to_le to_word64
length-frame_bytes = refl

frame_parses : Frame.parse frame_bytes ≡ ok frame_row
unfolding Frame.parse Frame.to_bytes copy_all copy_at to_le from_le to_word64 of_word64 any_non_zero
    expect_zero
frame_parses = refl

frame_entry_iff_example :
    (Frame.parse frame_bytes ≡ ok frame_row)
    ↔ (Frame.IsTyped frame_row × (frame_bytes ≡ Frame.to_bytes frame_row))
frame_entry_iff_example =
    Frame.frame_entry_iff frame_bytes frame_row length-frame_bytes frame_bytes-AllBytes

abbrev envelope_bytes : List ℕ
envelope_bytes = Envelope.to_bytes envelope_row

envelope_bytes-AllBytes : AllBytes envelope_bytes
unfolding Envelope.to_bytes copy_all copy_at to_le to_word64
envelope_bytes-AllBytes = omega arith

length-envelope_bytes : length envelope_bytes ≡ 48
unfolding Envelope.to_bytes copy_all copy_at to_le to_word64
length-envelope_bytes = refl

envelope_parses : Envelope.parse envelope_bytes ≡ ok envelope_row
unfolding Envelope.parse Envelope.to_bytes copy_all copy_at to_le from_le to_word64 of_word64
    any_non_zero expect_zero
envelope_parses = refl

envelope_entry_iff_example :
    (Envelope.parse envelope_bytes ≡ ok envelope_row)
    ↔ (Envelope.IsTyped envelope_row × (envelope_bytes ≡ Envelope.to_bytes envelope_row))
envelope_entry_iff_example =
    Envelope.envelope_entry_iff envelope_bytes envelope_row length-envelope_bytes
      envelope_bytes-AllBytes

abbrev file_bytes : List ℕ
file_bytes = File.to_bytes file_row

file_bytes-AllBytes : AllBytes file_bytes
unfolding File.to_bytes copy_all copy_at to_le to_word64
file_bytes-AllBytes = omega arith

length-file_bytes : length file_bytes ≡ 144
unfolding File.to_bytes copy_all copy_at to_le to_word64
length-file_bytes = refl

file_parses : File.parse file_bytes ≡ ok file_row
unfolding File.parse File.to_bytes copy_all copy_at to_le from_le to_word64 of_word64 any_non_zero
    expect_zero
file_parses = refl

file_entry_iff_example :
    (File.parse file_bytes ≡ ok file_row)
    ↔ (File.IsTyped file_row × (file_bytes ≡ File.to_bytes file_row))
file_entry_iff_example = file_entry_iff file_bytes file_row length-file_bytes file_bytes-AllBytes
