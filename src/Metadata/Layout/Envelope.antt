-- ===== src/Metadata/Layout/Envelope.antt =====
-- The layout of a `EnvelopeEntry`: `parse_envelope_entry` and `EnvelopeEntry::to_bytes`.
use tzap.Prelude.{ℕ, ◌≡◌, refl, sym, ap, ◌∙◌, ◌↔◌, List, [], ◌∷◌, arith, length}
use tzap.Prelude.Slices.{
  Piece, slice, zeros, copy_all, Holds, Fits, copy_all-Holds, length-copy_all, Holds-copy_all,
}
use tzap.Prelude.Bytes.{AllBytes, length-to_le}
use tzap.Format.{Result, ok, ◌>>=◌, ◌>>◌}
use tzap.Wire.Fields.{expect_zero, write_u32, write_u64, IsU32, IsU64}
use tzap.Wire.Fields.Reads.{
  number_at, number_at-to_le, to_le-number_at, number_at-lt, zero_between, expect_zero-zeros,
}
use tzap.Wire.Fields.Checks.{run_checks, Passed, run_checks-Passed, run_checks_all}
use tzap.Metadata.Rows.{EnvelopeEntry}
use tzap.Metadata.Layout.{
  slice_at, read_u8_at, read_u16_at, read_u32_at, read_u64_at, read_i64_at, read_array_8_at,
}

-- The fields hold values of their machine types.
pub record IsTyped (row : EnvelopeEntry) : Type 0 where
  pub envelope_index : IsU64 row.envelope_index
  pub first_block_index : IsU64 row.first_block_index
  pub data_block_count : IsU32 row.data_block_count
  pub parity_block_count : IsU32 row.parity_block_count
  pub encrypted_size : IsU32 row.encrypted_size
  pub plaintext_size : IsU32 row.plaintext_size
  pub first_frame_index : IsU64 row.first_frame_index
  pub frame_count : IsU32 row.frame_count

-- The writes of `to_bytes`.
abbrev pub pieces : EnvelopeEntry → List Piece
pieces row =
    write_u64 0 row.envelope_index
    ∷ write_u64 8 row.first_block_index
    ∷ write_u32 16 row.data_block_count
    ∷ write_u32 20 row.parity_block_count
    ∷ write_u32 24 row.encrypted_size
    ∷ write_u32 28 row.plaintext_size
    ∷ write_u64 32 row.first_frame_index
    ∷ write_u32 40 row.frame_count
    ∷ []

unfoldable pub to_bytes : EnvelopeEntry → List ℕ
to_bytes row = copy_all (zeros 48) (pieces row)

unfoldable pub parse : List ℕ → Result EnvelopeEntry
unfolding slice_at read_u8_at read_u16_at read_u32_at read_u64_at read_i64_at read_array_8_at
parse bytes = do
  reserved ← slice_at "EnvelopeEntry" bytes 44 4
  expect_zero "EnvelopeEntry" reserved
  envelope_index ← read_u64_at "EnvelopeEntry" bytes 0
  first_block_index ← read_u64_at "EnvelopeEntry" bytes 8
  data_block_count ← read_u32_at "EnvelopeEntry" bytes 16
  parity_block_count ← read_u32_at "EnvelopeEntry" bytes 20
  encrypted_size ← read_u32_at "EnvelopeEntry" bytes 24
  plaintext_size ← read_u32_at "EnvelopeEntry" bytes 28
  first_frame_index ← read_u64_at "EnvelopeEntry" bytes 32
  frame_count ← read_u32_at "EnvelopeEntry" bytes 40
  ok (record {
    envelope_index = envelope_index;
    first_block_index = first_block_index;
    data_block_count = data_block_count;
    parity_block_count = parity_block_count;
    encrypted_size = encrypted_size;
    plaintext_size = plaintext_size;
    first_frame_index = first_frame_index;
    frame_count = frame_count;
  })

row_at : List ℕ → EnvelopeEntry
row_at bytes = record {
  envelope_index = number_at 8 bytes 0;
  first_block_index = number_at 8 bytes 8;
  data_block_count = number_at 4 bytes 16;
  parity_block_count = number_at 4 bytes 20;
  encrypted_size = number_at 4 bytes 24;
  plaintext_size = number_at 4 bytes 28;
  first_frame_index = number_at 8 bytes 32;
  frame_count = number_at 4 bytes 40;
}

pieces-Fits : (row : EnvelopeEntry) → IsTyped row → Fits 0 (pieces row) 48
pieces-Fits row t = omega (arith, length-to_le)

row_at-IsTyped : (bytes : List ℕ) → length bytes ≡ 48 → AllBytes bytes → IsTyped (row_at bytes)
unfolding row_at
row_at-IsTyped bytes l b = record {
  envelope_index = number_at-lt bytes 0 8 (omega arith) b;
  first_block_index = number_at-lt bytes 8 8 (omega arith) b;
  data_block_count = number_at-lt bytes 16 4 (omega arith) b;
  parity_block_count = number_at-lt bytes 20 4 (omega arith) b;
  encrypted_size = number_at-lt bytes 24 4 (omega arith) b;
  plaintext_size = number_at-lt bytes 28 4 (omega arith) b;
  first_frame_index = number_at-lt bytes 32 8 (omega arith) b;
  frame_count = number_at-lt bytes 40 4 (omega arith) b;
}

checks : List ℕ → List (Result (Unit {0}))
checks bytes = expect_zero "EnvelopeEntry" (slice bytes 44 48) ∷ []

parse_full :
    (bytes : List ℕ) → length bytes ≡ 48 → parse bytes ≡ run_checks (checks bytes) (row_at bytes)
unfolding parse checks row_at slice_at read_u8_at read_u16_at read_u32_at read_u64_at read_i64_at
    read_array_8_at number_at
parse_full bytes l = rw l

read_back :
    (bytes : List ℕ) (row : EnvelopeEntry)
    → length bytes ≡ 48
    → AllBytes bytes
    → parse bytes ≡ ok row
    → IsTyped row × (bytes ≡ to_bytes row)
unfolding checks to_bytes row_at
read_back bytes row l b e =
    let ((zero, _), same) =
      run_checks-Passed (checks bytes) (row_at bytes) row (sym (parse_full bytes l) ∙ e) in
    let holds : Holds bytes 0 (pieces (row_at bytes)) 48 = (
      refl,
      to_le-number_at bytes 0 8 (omega arith) b,
      (
        refl,
        to_le-number_at bytes 8 8 (omega arith) b,
        (
          refl,
          to_le-number_at bytes 16 4 (omega arith) b,
          (
            refl,
            to_le-number_at bytes 20 4 (omega arith) b,
            (
              refl,
              to_le-number_at bytes 24 4 (omega arith) b,
              (
                refl,
                to_le-number_at bytes 28 4 (omega arith) b,
                (
                  refl,
                  to_le-number_at bytes 32 8 (omega arith) b,
                  (
                    refl,
                    to_le-number_at bytes 40 4 (omega arith) b,
                    (zero_between _ bytes 44 48 (omega arith) zero),
                  ),
                ),
              ),
            ),
          ),
        ),
      ),
    ) in
    rw same (
      row_at-IsTyped bytes l b,
      Holds-copy_all bytes _ 48 l (pieces-Fits (row_at bytes) (row_at-IsTyped bytes l b)) holds,
    )

read_written :
    (bytes : List ℕ) (row : EnvelopeEntry)
    → IsTyped row
    → bytes ≡ to_bytes row
    → parse bytes ≡ ok row
unfolding checks to_bytes row_at
read_written bytes row t e =
    let l : length bytes ≡ 48 = ap length e ∙ length-copy_all (pieces row) 48 (pieces-Fits row t) in
    let held : Holds bytes 0 (pieces row) 48 =
      rw e (copy_all-Holds (pieces row) 48 (pieces-Fits row t)) in
    let (_, n0, (_, n8, (_, n16, (_, n20, (_, n24, (_, n28, (_, n32, (_, n40, end)))))))) = held in
    let same : row_at bytes ≡ row = λ i. record {
      envelope_index = number_at-to_le bytes 0 8 _ n0 t.envelope_index i;
      first_block_index = number_at-to_le bytes 8 8 _ n8 t.first_block_index i;
      data_block_count = number_at-to_le bytes 16 4 _ n16 t.data_block_count i;
      parity_block_count = number_at-to_le bytes 20 4 _ n20 t.parity_block_count i;
      encrypted_size = number_at-to_le bytes 24 4 _ n24 t.encrypted_size i;
      plaintext_size = number_at-to_le bytes 28 4 _ n28 t.plaintext_size i;
      first_frame_index = number_at-to_le bytes 32 8 _ n32 t.first_frame_index i;
      frame_count = number_at-to_le bytes 40 4 _ n40 t.frame_count i;
    } in
    let passed : Passed (checks bytes) = (rw end (expect_zero-zeros _ 4), tt) in
    parse_full bytes l ∙ run_checks_all (checks bytes) (row_at bytes) passed ∙ ap ok same

-- A chunk of 48 bytes parses, and to which row, exactly when it is what `to_bytes` writes for that
-- row and the fields are in range.
pub envelope_entry_iff :
    (bytes : List ℕ) (row : EnvelopeEntry)
    → length bytes ≡ 48
    → AllBytes bytes
    → (parse bytes ≡ ok row) ↔ (IsTyped row × (bytes ≡ to_bytes row))
envelope_entry_iff bytes row l b = (read_back bytes row l b, λ (t, e). read_written bytes row t e)
