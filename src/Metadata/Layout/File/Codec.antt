-- ===== src/Metadata/Layout/File/Codec.antt =====
-- Rows of files are read back as they were written, and only what is written is read.
use tzap.Prelude.{ℕ, ◌≡◌, refl, sym, ap, ◌∙◌, ◌↔◌, List, [], arith, length}
use tzap.Prelude.Slices.{Holds, Fits, copy_all-Holds, length-copy_all, Holds-copy_all}
use tzap.Prelude.Bytes.{AllBytes, length-to_le, of_word64, of_word64-IsI64}
use tzap.Format.{Result, ok}
use tzap.Wire.Fields.Reads.{
  bytes_at, number_at, number_at-to_le, to_le-number_at, number_at-lt, bytes_at-IsArray,
  to_word64-at, of_word64-at,
}
use tzap.Wire.Fields.Checks.{run_checks, Passed, run_checks-Passed, run_checks_all}
use tzap.Metadata.Rows.{FileEntry}
use tzap.Metadata.Layout.{
  slice_at, read_u8_at, read_u16_at, read_u32_at, read_u64_at, read_i64_at, read_array_8_at,
}
use tzap.Metadata.Layout.File.{IsTyped, pieces, to_bytes, parse}

row_at : List ℕ → FileEntry
row_at bytes = record {
  path_hash = bytes_at 8 bytes 0;
  path_offset = number_at 4 bytes 8;
  path_length = number_at 4 bytes 12;
  first_frame_index = number_at 8 bytes 16;
  frame_count = number_at 4 bytes 24;
  offset_in_first_frame_plaintext = number_at 4 bytes 28;
  tar_member_group_size = number_at 8 bytes 32;
  file_data_size = number_at 8 bytes 40;
  flags = number_at 4 bytes 48;
  mtime_nsec = number_at 4 bytes 52;
  mtime_sec = of_word64 (number_at 8 bytes 56);
  created_nsec = number_at 4 bytes 64;
  accessed_nsec = number_at 4 bytes 68;
  created_sec = of_word64 (number_at 8 bytes 72);
  accessed_sec = of_word64 (number_at 8 bytes 80);
  uid = number_at 8 bytes 88;
  gid = number_at 8 bytes 96;
  mode = number_at 4 bytes 104;
  attributes = number_at 4 bytes 108;
  uname_offset = number_at 4 bytes 112;
  uname_length = number_at 4 bytes 116;
  gname_offset = number_at 4 bytes 120;
  gname_length = number_at 4 bytes 124;
  link_target_offset = number_at 4 bytes 128;
  link_target_length = number_at 4 bytes 132;
  kind = number_at 1 bytes 136;
  metadata_flags = number_at 1 bytes 137;
  reserved1 = number_at 2 bytes 138;
  reserved2 = number_at 4 bytes 140;
}

pieces-Fits : (row : FileEntry) → IsTyped row → Fits 0 (pieces row) 144
pieces-Fits row t = omega (arith, length-to_le)

row_at-IsTyped : (bytes : List ℕ) → length bytes ≡ 144 → AllBytes bytes → IsTyped (row_at bytes)
unfolding row_at
row_at-IsTyped bytes l b = record {
  path_hash = bytes_at-IsArray bytes 0 8 (omega arith) b;
  path_offset = number_at-lt bytes 8 4 (omega arith) b;
  path_length = number_at-lt bytes 12 4 (omega arith) b;
  first_frame_index = number_at-lt bytes 16 8 (omega arith) b;
  frame_count = number_at-lt bytes 24 4 (omega arith) b;
  offset_in_first_frame_plaintext = number_at-lt bytes 28 4 (omega arith) b;
  tar_member_group_size = number_at-lt bytes 32 8 (omega arith) b;
  file_data_size = number_at-lt bytes 40 8 (omega arith) b;
  flags = number_at-lt bytes 48 4 (omega arith) b;
  mtime_nsec = number_at-lt bytes 52 4 (omega arith) b;
  mtime_sec = of_word64-IsI64 _ (number_at-lt bytes 56 8 (omega arith) b);
  created_nsec = number_at-lt bytes 64 4 (omega arith) b;
  accessed_nsec = number_at-lt bytes 68 4 (omega arith) b;
  created_sec = of_word64-IsI64 _ (number_at-lt bytes 72 8 (omega arith) b);
  accessed_sec = of_word64-IsI64 _ (number_at-lt bytes 80 8 (omega arith) b);
  uid = number_at-lt bytes 88 8 (omega arith) b;
  gid = number_at-lt bytes 96 8 (omega arith) b;
  mode = number_at-lt bytes 104 4 (omega arith) b;
  attributes = number_at-lt bytes 108 4 (omega arith) b;
  uname_offset = number_at-lt bytes 112 4 (omega arith) b;
  uname_length = number_at-lt bytes 116 4 (omega arith) b;
  gname_offset = number_at-lt bytes 120 4 (omega arith) b;
  gname_length = number_at-lt bytes 124 4 (omega arith) b;
  link_target_offset = number_at-lt bytes 128 4 (omega arith) b;
  link_target_length = number_at-lt bytes 132 4 (omega arith) b;
  kind = number_at-lt bytes 136 1 (omega arith) b;
  metadata_flags = number_at-lt bytes 137 1 (omega arith) b;
  reserved1 = number_at-lt bytes 138 2 (omega arith) b;
  reserved2 = number_at-lt bytes 140 4 (omega arith) b;
}

checks : List ℕ → List (Result (Unit {0}))
checks bytes = []

parse_full :
    (bytes : List ℕ) → length bytes ≡ 144 → parse bytes ≡ run_checks (checks bytes) (row_at bytes)
unfolding parse checks row_at slice_at read_u8_at read_u16_at read_u32_at read_u64_at read_i64_at
    read_array_8_at number_at
parse_full bytes l = rw l

read_back :
    (bytes : List ℕ) (row : FileEntry)
    → length bytes ≡ 144
    → AllBytes bytes
    → parse bytes ≡ ok row
    → IsTyped row × (bytes ≡ to_bytes row)
unfolding checks to_bytes row_at
read_back bytes row l b e =
    let (_, same) =
      run_checks-Passed (checks bytes) (row_at bytes) row (sym (parse_full bytes l) ∙ e) in
    let holds : Holds bytes 0 (pieces (row_at bytes)) 144 = (
      refl,
      refl,
      (
        refl,
        to_le-number_at bytes 8 4 (omega arith) b,
        (
          refl,
          to_le-number_at bytes 12 4 (omega arith) b,
          (
            refl,
            to_le-number_at bytes 16 8 (omega arith) b,
            (
              refl,
              to_le-number_at bytes 24 4 (omega arith) b,
              (
                refl,
                to_le-number_at bytes 28 4 (omega arith) b,
                (
                  refl,
                  to_le-number_at bytes 32 8 (omega arith) b,
                  (
                    refl,
                    to_le-number_at bytes 40 8 (omega arith) b,
                    (
                      refl,
                      to_le-number_at bytes 48 4 (omega arith) b,
                      (
                        refl,
                        to_le-number_at bytes 52 4 (omega arith) b,
                        (
                          refl,
                          to_word64-at bytes 56 (omega arith) b,
                          (
                            refl,
                            to_le-number_at bytes 64 4 (omega arith) b,
                            (
                              refl,
                              to_le-number_at bytes 68 4 (omega arith) b,
                              (
                                refl,
                                to_word64-at bytes 72 (omega arith) b,
                                (
                                  refl,
                                  to_word64-at bytes 80 (omega arith) b,
                                  (
                                    refl,
                                    to_le-number_at bytes 88 8 (omega arith) b,
                                    (
                                      refl,
                                      to_le-number_at bytes 96 8 (omega arith) b,
                                      (
                                        refl,
                                        to_le-number_at bytes 104 4 (omega arith) b,
                                        (
                                          refl,
                                          to_le-number_at bytes 108 4 (omega arith) b,
                                          (
                                            refl,
                                            to_le-number_at bytes 112 4 (omega arith) b,
                                            (
                                              refl,
                                              to_le-number_at bytes 116 4 (omega arith) b,
                                              (
                                                refl,
                                                to_le-number_at bytes 120 4 (omega arith) b,
                                                (
                                                  refl,
                                                  to_le-number_at bytes 124 4 (omega arith) b,
                                                  (
                                                    refl,
                                                    to_le-number_at bytes 128 4 (omega arith) b,
                                                    (
                                                      refl,
                                                      to_le-number_at bytes 132 4 (omega arith) b,
                                                      (
                                                        refl,
                                                        to_le-number_at bytes 136 1 (omega arith) b,
                                                        (
                                                          refl,
                                                          to_le-number_at bytes 137 1 (omega arith)
                                                            b,
                                                          (
                                                            refl,
                                                            to_le-number_at bytes 138 2
                                                            (omega arith) b,
                                                            (
                                                            refl,
                                                            to_le-number_at bytes 140 4
                                                            (omega arith) b,
                                                            refl,
                                                            ),
                                                          ),
                                                        ),
                                                      ),
                                                    ),
                                                  ),
                                                ),
                                              ),
                                            ),
                                          ),
                                        ),
                                      ),
                                    ),
                                  ),
                                ),
                              ),
                            ),
                          ),
                        ),
                      ),
                    ),
                  ),
                ),
              ),
            ),
          ),
        ),
      ),
    ) in
    rw same (
      row_at-IsTyped bytes l b,
      Holds-copy_all bytes _ 144 l (pieces-Fits (row_at bytes) (row_at-IsTyped bytes l b)) holds,
    )

read_written :
    (bytes : List ℕ) (row : FileEntry) → IsTyped row → bytes ≡ to_bytes row → parse bytes ≡ ok row
unfolding checks to_bytes row_at
read_written bytes row t e =
    let l : length bytes ≡ 144 =
      ap length e ∙ length-copy_all (pieces row) 144 (pieces-Fits row t) in
    let held : Holds bytes 0 (pieces row) 144 =
      rw e (copy_all-Holds (pieces row) 144 (pieces-Fits row t)) in
    let (
      _,
      n0,
      (
        _,
        n8,
        (
          _,
          n12,
          (
            _,
            n16,
            (
              _,
              n24,
              (
                _,
                n28,
                (
                  _,
                  n32,
                  (
                    _,
                    n40,
                    (
                      _,
                      n48,
                      (
                        _,
                        n52,
                        (
                          _,
                          n56,
                          (
                            _,
                            n64,
                            (
                              _,
                              n68,
                              (
                                _,
                                n72,
                                (
                                  _,
                                  n80,
                                  (
                                    _,
                                    n88,
                                    (
                                      _,
                                      n96,
                                      (
                                        _,
                                        n104,
                                        (
                                          _,
                                          n108,
                                          (
                                            _,
                                            n112,
                                            (
                                              _,
                                              n116,
                                              (
                                                _,
                                                n120,
                                                (
                                                  _,
                                                  n124,
                                                  (
                                                    _,
                                                    n128,
                                                    (
                                                      _,
                                                      n132,
                                                      (_, n136, (_, n137, (_, n138, (_, n140, _)))),
                                                    ),
                                                  ),
                                                ),
                                              ),
                                            ),
                                          ),
                                        ),
                                      ),
                                    ),
                                  ),
                                ),
                              ),
                            ),
                          ),
                        ),
                      ),
                    ),
                  ),
                ),
              ),
            ),
          ),
        ),
      ),
    ) =
      held in
    let same : row_at bytes ≡ row = λ i. record {
      path_hash = n0 i;
      path_offset = number_at-to_le bytes 8 4 _ n8 t.path_offset i;
      path_length = number_at-to_le bytes 12 4 _ n12 t.path_length i;
      first_frame_index = number_at-to_le bytes 16 8 _ n16 t.first_frame_index i;
      frame_count = number_at-to_le bytes 24 4 _ n24 t.frame_count i;
      offset_in_first_frame_plaintext =
          number_at-to_le bytes 28 4 _ n28 t.offset_in_first_frame_plaintext i;
      tar_member_group_size = number_at-to_le bytes 32 8 _ n32 t.tar_member_group_size i;
      file_data_size = number_at-to_le bytes 40 8 _ n40 t.file_data_size i;
      flags = number_at-to_le bytes 48 4 _ n48 t.flags i;
      mtime_nsec = number_at-to_le bytes 52 4 _ n52 t.mtime_nsec i;
      mtime_sec = of_word64-at bytes 56 _ n56 t.mtime_sec i;
      created_nsec = number_at-to_le bytes 64 4 _ n64 t.created_nsec i;
      accessed_nsec = number_at-to_le bytes 68 4 _ n68 t.accessed_nsec i;
      created_sec = of_word64-at bytes 72 _ n72 t.created_sec i;
      accessed_sec = of_word64-at bytes 80 _ n80 t.accessed_sec i;
      uid = number_at-to_le bytes 88 8 _ n88 t.uid i;
      gid = number_at-to_le bytes 96 8 _ n96 t.gid i;
      mode = number_at-to_le bytes 104 4 _ n104 t.mode i;
      attributes = number_at-to_le bytes 108 4 _ n108 t.attributes i;
      uname_offset = number_at-to_le bytes 112 4 _ n112 t.uname_offset i;
      uname_length = number_at-to_le bytes 116 4 _ n116 t.uname_length i;
      gname_offset = number_at-to_le bytes 120 4 _ n120 t.gname_offset i;
      gname_length = number_at-to_le bytes 124 4 _ n124 t.gname_length i;
      link_target_offset = number_at-to_le bytes 128 4 _ n128 t.link_target_offset i;
      link_target_length = number_at-to_le bytes 132 4 _ n132 t.link_target_length i;
      kind = number_at-to_le bytes 136 1 _ n136 t.kind i;
      metadata_flags = number_at-to_le bytes 137 1 _ n137 t.metadata_flags i;
      reserved1 = number_at-to_le bytes 138 2 _ n138 t.reserved1 i;
      reserved2 = number_at-to_le bytes 140 4 _ n140 t.reserved2 i;
    } in
    let passed : Passed (checks bytes) = tt in
    parse_full bytes l ∙ run_checks_all (checks bytes) (row_at bytes) passed ∙ ap ok same

-- A chunk of 144 bytes parses, and to which row, exactly when it is what `to_bytes` writes for that
-- row and the fields are in range.
pub file_entry_iff :
    (bytes : List ℕ) (row : FileEntry)
    → length bytes ≡ 144
    → AllBytes bytes
    → (parse bytes ≡ ok row) ↔ (IsTyped row × (bytes ≡ to_bytes row))
file_entry_iff bytes row l b = (read_back bytes row l b, λ (t, e). read_written bytes row t e)
