-- ===== src/Metadata/Frames/Range.antt =====
-- The frames that a file names hold its tar member, and none of them is idle.
use tzap.Prelude.{
  ℕ, zero, suc, ◌+◌, ◌-◌, ◌≤◌, ◌<◌, ◌≡◌, refl, sym, ap, ◌∙◌, arith, List, Option, none, some, ◌⊎◌,
  inl, inr, ◌==◌, Bool-cases, Option-cases,
}
use tzap.Format.{FormatError, ok_or, ok-injective, first_succeeds, ok}
use tzap.Metadata.Rows.{FrameEntry, FileEntry}
use tzap.Metadata.Frames.{
  checked_add_u64, find_frame, frame_for_file, add_frames, validate_from_first,
  validate_several_frames, validate_file_frame_range,
}

-- The plain bytes of `count` frames from an index on, where all are in the table.
unfoldable pub plain_bytes : List FrameEntry → ℕ → ℕ → Option ℕ
unfolding find_frame
plain_bytes frames index zero = some 0
plain_bytes frames index (suc count) = elim (find_frame frames index) [
  | none ↦ none
  | some frame ↦ elim (plain_bytes frames (suc index) count) [
    | none ↦ none
    | some rest ↦ some (frame.decompressed_size + rest)
  ]
]

checked_sum : (a b : ℕ) (e : FormatError) (c : ℕ) → ok_or (checked_add_u64 a b) e ≡ ok c → c ≡ a + b
checked_sum a b e c h = ground arith

module _ (frames : List FrameEntry) where
  plain_first :
      (index count rest : ℕ) (frame : FrameEntry)
      → find_frame frames index ≡ some frame
      → plain_bytes frames (suc index) count ≡ some rest
      → plain_bytes frames index (suc count) ≡ some (frame.decompressed_size + rest)
  unfolding plain_bytes
  plain_first index count rest frame f r = rw (f, r, plain_bytes)

  -- One more frame at the end.
  plain_last :
      (count index total : ℕ) (frame : FrameEntry)
      → plain_bytes frames index count ≡ some total
      → find_frame frames (index + count) ≡ some frame
      → plain_bytes frames index (suc count) ≡ some (total + frame.decompressed_size)
  unfolding plain_bytes
  plain_last zero index total frame p f =
      let e : index + 0 ≡ index = omega arith in
      let g = rw e at f in
      let z : 0 ≡ total = cc in rw (g, plain_bytes) (ap some (omega (arith, z)))
  plain_last (suc count) index total frame p f = elim (Option-cases (find_frame frames index)) [
    | inl none_here ↦ absurd (cc (rw (none_here, plain_bytes) at p))
    | inr (first, here) ↦ elim (Option-cases (plain_bytes frames (suc index) count)) [
      | inl none_rest ↦ absurd (cc (rw (here, none_rest, plain_bytes) at p))
      | inr (rest, more) ↦
          let e : index + suc count ≡ suc index + count = omega arith in
          let sum : first.decompressed_size + rest ≡ total =
            cc (rw (here, more, plain_bytes) at p) in
          plain_first index (suc count) (rest + frame.decompressed_size) first here
            (plain_last count (suc index) rest frame more (rw e at f))
          ∙ ap some (omega (arith, sum))
    ]
  ]

  for_file :
      (index : ℕ) (frame : FrameEntry)
      → frame_for_file frames index ≡ ok frame
      → find_frame frames index ≡ some frame
  unfolding frame_for_file
  for_file index frame h = ground arith

  -- What the loop adds up.
  add_frames-plain :
      (count index offset before after : ℕ)
      → add_frames frames index count offset before ≡ ok after
      → (sum : ℕ) × (plain_bytes frames (index + offset) count ≡ some sum) × (after ≡ before + sum)
  unfolding add_frames plain_bytes
  add_frames-plain zero index offset before after h = (0, refl, ok-injective (sym h) ∙ omega arith)
  add_frames-plain (suc count) index offset before after h =
      let (i, at_index, h1) = first_succeeds _ _ after h in
      let (frame, there, h2) = first_succeeds _ _ after h1 in
      let (more, added, h3) = first_succeeds _ _ after h2 in
      let (sum, plain, total) = add_frames-plain count index (suc offset) more after h3 in
      let e : i ≡ index + offset = checked_sum index offset _ i at_index in
      let f : more ≡ before + frame.decompressed_size = checked_sum _ _ _ more added in
      let g : index + suc offset ≡ suc (index + offset) = omega arith in
      (
        frame.decompressed_size + sum,
        plain_first (index + offset) count sum frame (rw e at (for_file i frame there))
            (rw g at plain),
        omega (arith, f, total),
      )

-- The bytes of a member that a file names: they end at or before those of its frames, and where it
-- names more than one frame they reach into the last.
pub record Covers (file : FileEntry) (frames : List FrameEntry) : Type 0 where
  pub first : FrameEntry
  pub first_there : find_frame frames file.first_frame_index ≡ some first
  pub starts_in_first : file.offset_in_first_frame_plaintext < first.decompressed_size
  pub total : ℕ
  pub total_plain : plain_bytes frames file.first_frame_index file.frame_count ≡ some total
  pub enough : file.offset_in_first_frame_plaintext + file.tar_member_group_size ≤ total
  pub minimal :
      (file.frame_count ≡ 1)
      ⊎ ((less : ℕ) × (plain_bytes frames file.first_frame_index (file.frame_count - 1) ≡ some less)
          × (less < file.offset_in_first_frame_plaintext + file.tar_member_group_size))

module _ (file : FileEntry) (frames : List FrameEntry) where
  single_frame :
      (first : FrameEntry)
      → file.frame_count ≡ 1
      → find_frame frames file.first_frame_index ≡ some first
      → validate_from_first file frames first ≡ ok tt
      → Covers file frames
  unfolding validate_from_first plain_bytes
  single_frame first one there h = record {
    first = first;
    first_there = there;
    starts_in_first = ground arith;
    total = first.decompressed_size + 0;
    total_plain = rw (one, there, plain_bytes);
    enough = ground arith;
    minimal = inl one;
  }

  several_frames :
      (first : FrameEntry)
      → 2 ≤ file.frame_count
      → find_frame frames file.first_frame_index ≡ some first
      → file.offset_in_first_frame_plaintext < first.decompressed_size
      → validate_several_frames file frames
          (first.decompressed_size - file.offset_in_first_frame_plaintext)
        ≡ ok tt
      → Covers file frames
  unfolding validate_several_frames
  several_frames first two there inside h =
      let in_first = first.decompressed_size - file.offset_in_first_frame_plaintext in
      let n = file.frame_count - 2 in
      let start = file.first_frame_index in
      let (before, loop, h1) = first_succeeds (add_frames frames start n 1 in_first) _ tt h in
      let (last_index, at_index, h2) = first_succeeds _ _ tt h1 in
      let (last, last_there, h3) = first_succeeds _ _ tt h2 in
      let (max_size, added, h4) = first_succeeds _ _ tt h3 in
      let (sum, middle, before_sum) = add_frames-plain frames n start 1 in_first before loop in
      let at_last = checked_sum start (file.frame_count - 1) _ last_index at_index in
      let max_sum = checked_sum before last.decompressed_size _ max_size added in
      let e : start + 1 ≡ suc start = omega arith in
      let m : suc n ≡ file.frame_count - 1 = omega arith in
      let k : suc (suc n) ≡ file.frame_count = omega arith in
      let but_last : plain_bytes frames start (suc n) ≡ some (first.decompressed_size + sum) =
        plain_first frames start n sum first there (rw e at middle) in
      let l : last_index ≡ start + suc n = omega (arith, at_last, m) in
      let whole : plain_bytes frames start (suc (suc n))
          ≡ some (first.decompressed_size + sum + last.decompressed_size) =
        plain_last frames (suc n) start (first.decompressed_size + sum) last but_last
          (rw l at (for_file frames last_index last last_there)) in
      record {
        first = first;
        first_there = there;
        starts_in_first = inside;
        total = first.decompressed_size + sum + last.decompressed_size;
        total_plain = rw k at whole;
        enough = ground arith;
        minimal = inr (first.decompressed_size + sum, rw m at but_last, ground arith);
      }

  -- A file of one or more frames that passes the check of its frame range begins in its first
  -- frame; all its frames are in the table and hold its member; with more than one frame, the
  -- frames without the last do not hold it.
  pub validate_file_frame_range-Covers :
      1 ≤ file.frame_count → validate_file_frame_range file frames ≡ ok tt → Covers file frames
  unfolding validate_file_frame_range validate_from_first
  validate_file_frame_range-Covers positive h =
      let (first, there, h1) =
        first_succeeds (frame_for_file frames file.first_frame_index)
          (validate_from_first file frames) tt h in
      let found = for_file frames file.first_frame_index first there in
      elim (Bool-cases (file.frame_count == 1)) [
        | inl single ↦ single_frame first (ground arith) found h1
        | inr several ↦ several_frames first (ground arith) found (ground arith) (ground arith)
      ]
