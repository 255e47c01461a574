-- ===== src/Metadata/Layout/Frame.antt =====
-- The layout of a `FrameEntry`: `parse_frame_entry` and `FrameEntry::to_bytes`.
use tzap.Prelude.{ℕ, ◌≡◌, refl, sym, ap, ◌∙◌, ◌↔◌, List, [], ◌∷◌, arith, length}
use tzap.Prelude.Slices.{
  Piece, slice, zeros, copy_all, Holds, Fits, copy_all-Holds, length-copy_all, Holds-copy_all,
}
use tzap.Prelude.Bytes.{AllBytes, length-to_le}
use tzap.Format.{Result, ok, ◌>>=◌, ◌>>◌}
use tzap.Wire.Fields.{expect_zero, write_u32, write_u64, IsU32, IsU64}
use tzap.Wire.Fields.Reads.{
  number_at, number_at-to_le, to_le-number_at, number_at-lt, zero_between, expect_zero-zeros,
}
use tzap.Wire.Fields.Checks.{run_checks, Passed, run_checks-Passed, run_checks_all}
use tzap.Metadata.Rows.{FrameEntry}
use tzap.Metadata.Layout.{
  slice_at, read_u8_at, read_u16_at, read_u32_at, read_u64_at, read_i64_at, read_array_8_at,
}

-- The fields hold values of their machine types.
pub record IsTyped (row : FrameEntry) : Type 0 where
  pub frame_index : IsU64 row.frame_index
  pub envelope_index : IsU64 row.envelope_index
  pub offset_in_envelope : IsU32 row.offset_in_envelope
  pub compressed_size : IsU32 row.compressed_size
  pub decompressed_size : IsU32 row.decompressed_size
  pub flags : IsU32 row.flags
  pub tar_stream_offset : IsU64 row.tar_stream_offset

-- The writes of `to_bytes`.
abbrev pub pieces : FrameEntry → List Piece
pieces row =
    write_u64 0 row.frame_index
    ∷ write_u64 8 row.envelope_index
    ∷ write_u32 16 row.offset_in_envelope
    ∷ write_u32 20 row.compressed_size
    ∷ write_u32 24 row.decompressed_size
    ∷ write_u32 28 row.flags
    ∷ write_u64 32 row.tar_stream_offset
    ∷ []

unfoldable pub to_bytes : FrameEntry → List ℕ
to_bytes row = copy_all (zeros 44) (pieces row)

unfoldable pub parse : List ℕ → Result FrameEntry
unfolding slice_at read_u8_at read_u16_at read_u32_at read_u64_at read_i64_at read_array_8_at
parse bytes = do
  reserved ← slice_at "FrameEntry" bytes 40 4
  expect_zero "FrameEntry" reserved
  frame_index ← read_u64_at "FrameEntry" bytes 0
  envelope_index ← read_u64_at "FrameEntry" bytes 8
  offset_in_envelope ← read_u32_at "FrameEntry" bytes 16
  compressed_size ← read_u32_at "FrameEntry" bytes 20
  decompressed_size ← read_u32_at "FrameEntry" bytes 24
  flags ← read_u32_at "FrameEntry" bytes 28
  tar_stream_offset ← read_u64_at "FrameEntry" bytes 32
  ok (record {
    frame_index = frame_index;
    envelope_index = envelope_index;
    offset_in_envelope = offset_in_envelope;
    compressed_size = compressed_size;
    decompressed_size = decompressed_size;
    flags = flags;
    tar_stream_offset = tar_stream_offset;
  })

row_at : List ℕ → FrameEntry
row_at bytes = record {
  frame_index = number_at 8 bytes 0;
  envelope_index = number_at 8 bytes 8;
  offset_in_envelope = number_at 4 bytes 16;
  compressed_size = number_at 4 bytes 20;
  decompressed_size = number_at 4 bytes 24;
  flags = number_at 4 bytes 28;
  tar_stream_offset = number_at 8 bytes 32;
}

pieces-Fits : (row : FrameEntry) → IsTyped row → Fits 0 (pieces row) 44
pieces-Fits row t = omega (arith, length-to_le)

row_at-IsTyped : (bytes : List ℕ) → length bytes ≡ 44 → AllBytes bytes → IsTyped (row_at bytes)
unfolding row_at
row_at-IsTyped bytes l b = record {
  frame_index = number_at-lt bytes 0 8 (omega arith) b;
  envelope_index = number_at-lt bytes 8 8 (omega arith) b;
  offset_in_envelope = number_at-lt bytes 16 4 (omega arith) b;
  compressed_size = number_at-lt bytes 20 4 (omega arith) b;
  decompressed_size = number_at-lt bytes 24 4 (omega arith) b;
  flags = number_at-lt bytes 28 4 (omega arith) b;
  tar_stream_offset = number_at-lt bytes 32 8 (omega arith) b;
}

checks : List ℕ → List (Result (Unit {0}))
checks bytes = expect_zero "FrameEntry" (slice bytes 40 44) ∷ []

parse_full :
    (bytes : List ℕ) → length bytes ≡ 44 → parse bytes ≡ run_checks (checks bytes) (row_at bytes)
unfolding parse checks row_at slice_at read_u8_at read_u16_at read_u32_at read_u64_at read_i64_at
    read_array_8_at number_at
parse_full bytes l = rw l

read_back :
    (bytes : List ℕ) (row : FrameEntry)
    → length bytes ≡ 44
    → AllBytes bytes
    → parse bytes ≡ ok row
    → IsTyped row × (bytes ≡ to_bytes row)
unfolding checks to_bytes row_at
read_back bytes row l b e =
    let ((zero, _), same) =
      run_checks-Passed (checks bytes) (row_at bytes) row (sym (parse_full bytes l) ∙ e) in
    let holds : Holds bytes 0 (pieces (row_at bytes)) 44 = (
      refl,
      to_le-number_at bytes 0 8 (omega arith) b,
      (
        refl,
        to_le-number_at bytes 8 8 (omega arith) b,
        (
          refl,
          to_le-number_at bytes 16 4 (omega arith) b,
          (
            refl,
            to_le-number_at bytes 20 4 (omega arith) b,
            (
              refl,
              to_le-number_at bytes 24 4 (omega arith) b,
              (
                refl,
                to_le-number_at bytes 28 4 (omega arith) b,
                (
                  refl,
                  to_le-number_at bytes 32 8 (omega arith) b,
                  (zero_between _ bytes 40 44 (omega arith) zero),
                ),
              ),
            ),
          ),
        ),
      ),
    ) in
    rw same (
      row_at-IsTyped bytes l b,
      Holds-copy_all bytes _ 44 l (pieces-Fits (row_at bytes) (row_at-IsTyped bytes l b)) holds,
    )

read_written :
    (bytes : List ℕ) (row : FrameEntry) → IsTyped row → bytes ≡ to_bytes row → parse bytes ≡ ok row
unfolding checks to_bytes row_at
read_written bytes row t e =
    let l : length bytes ≡ 44 = ap length e ∙ length-copy_all (pieces row) 44 (pieces-Fits row t) in
    let held : Holds bytes 0 (pieces row) 44 =
      rw e (copy_all-Holds (pieces row) 44 (pieces-Fits row t)) in
    let (_, n0, (_, n8, (_, n16, (_, n20, (_, n24, (_, n28, (_, n32, end))))))) = held in
    let same : row_at bytes ≡ row = λ i. record {
      frame_index = number_at-to_le bytes 0 8 _ n0 t.frame_index i;
      envelope_index = number_at-to_le bytes 8 8 _ n8 t.envelope_index i;
      offset_in_envelope = number_at-to_le bytes 16 4 _ n16 t.offset_in_envelope i;
      compressed_size = number_at-to_le bytes 20 4 _ n20 t.compressed_size i;
      decompressed_size = number_at-to_le bytes 24 4 _ n24 t.decompressed_size i;
      flags = number_at-to_le bytes 28 4 _ n28 t.flags i;
      tar_stream_offset = number_at-to_le bytes 32 8 _ n32 t.tar_stream_offset i;
    } in
    let passed : Passed (checks bytes) = (rw end (expect_zero-zeros _ 4), tt) in
    parse_full bytes l ∙ run_checks_all (checks bytes) (row_at bytes) passed ∙ ap ok same

-- A chunk of 44 bytes parses, and to which row, exactly when it is what `to_bytes` writes for that
-- row and the fields are in range.
pub frame_entry_iff :
    (bytes : List ℕ) (row : FrameEntry)
    → length bytes ≡ 44
    → AllBytes bytes
    → (parse bytes ≡ ok row) ↔ (IsTyped row × (bytes ≡ to_bytes row))
frame_entry_iff bytes row l b = (read_back bytes row l b, λ (t, e). read_written bytes row t e)
