-- ===== src/Metadata/Frames/Disjoint.antt =====
-- Frames of an accepted table lie one behind the other in the tar stream.
use tzap.Prelude.{◌+◌, ◌≤◌, ◌<◌, ◌≡◌, arith, List, [], ◌∷◌, All, inl, inr}
use tzap.Format.{ok, Result-cases}
use tzap.Metadata.Rows.{FrameEntry}
use tzap.Metadata.Frames.{
  validate_frame, validate_frames, validate_frame_pair, validate_frame_pairs, validate_frame_table,
}

-- One frame ends, in index and in the stream, before another begins.
abbrev pub Before : FrameEntry → FrameEntry → Type 0
Before a b =
    (a.frame_index < b.frame_index)
    × (a.tar_stream_offset + a.decompressed_size ≤ b.tar_stream_offset)

-- Each frame lies before all that follow it.
abbrev pub AllBefore : List FrameEntry → Type 0
AllBefore [] = Unit
AllBefore (frame ∷ frames) = All (Before frame) frames × AllBefore frames

pair_Before : (a b : FrameEntry) → validate_frame_pair a b ≡ ok tt → Before a b
unfolding validate_frame_pair
pair_Before a b h = ground arith

widen :
    (a b : FrameEntry) (frames : List FrameEntry)
    → Before a b
    → All (Before b) frames
    → All (Before a) frames
widen a b [] h rest = tt
widen a b (c ∷ frames) (i, o) ((j, p), rest) =
    ((omega arith, omega arith), widen a b frames (i, o) rest)

pairs-AllBefore :
    (frames : List FrameEntry) → validate_frame_pairs frames ≡ ok tt → AllBefore frames
unfolding validate_frame_pairs
pairs-AllBefore [] h = tt
pairs-AllBefore (a ∷ []) h = (tt, tt)
pairs-AllBefore (a ∷ b ∷ frames) h = elim (Result-cases (validate_frame_pair a b)) [
  | inr (x, e) ↦ absurd (cc (rw e at h))
  | inl (tt, e) ↦
      let rest : AllBefore (b ∷ frames) = pairs-AllBefore (b ∷ frames) (rw e at h) in
      let first = pair_Before a b e in ((first, widen a b frames first rest.0), rest)
]

-- Every frame has bytes, packed and plain.
abbrev pub HasBytes : FrameEntry → Type 0
HasBytes frame = (1 ≤ frame.compressed_size) × (1 ≤ frame.decompressed_size)

frames-HasBytes : (frames : List FrameEntry) → validate_frames frames ≡ ok tt → All HasBytes frames
unfolding validate_frames validate_frame
frames-HasBytes [] h = tt
frames-HasBytes (frame ∷ frames) h =
    ((ground arith, ground arith), frames-HasBytes frames (ground arith))

-- In a frame table that is accepted no frame is empty, and of any two frames the earlier has the
-- smaller index and ends in the tar stream before the later begins.
pub validate_frame_table-AllBefore :
    (frames : List FrameEntry)
    → validate_frame_table frames ≡ ok tt
    → All HasBytes frames × AllBefore frames
unfolding validate_frame_table
validate_frame_table-AllBefore frames h = elim (Result-cases (validate_frames frames)) [
  | inr (x, e) ↦ absurd (cc (rw e at h))
  | inl (tt, e) ↦ (frames-HasBytes frames e, pairs-AllBefore frames (rw e at h))
]
