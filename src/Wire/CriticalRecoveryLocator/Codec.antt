-- ===== src/Wire/CriticalRecoveryLocator/Codec.antt =====
-- Recovery locators are read back as they were written, and only what is written is read.
use mathlib.Core.Path.{subst}
use tzap.Prelude.{
  ℕ, ◌^◌, ◌≤◌, ◌<◌, ◌≡◌, refl, sym, ap, ◌∙◌, ◌↔◌, not, ltb, ◌==◌, List, [], ◌∷◌, ◌++◌, arith,
  length, take,
}
use tzap.Prelude.Slices.{slice, Holds, Fits}
use tzap.Prelude.Bytes.{AllBytes, length-to_le, to_le}
use tzap.Format.{
  Result, ok, reject_if, critical_recovery_locator_len, critical_metadata_recovery_header_len,
  format_version, volume_format_rev_45, reader_max_supported_volume_format_rev,
  unsupported_format_version, unsupported_volume_format_revision, unknown_fec_algo, invalid_archive,
}
use tzap.Wire.Fields.{
  expect_magic, expect_crc, write_u32, read_u16, read_u32, read_u64, read_array_16, read_array_32,
}
use tzap.Wire.Fields.Reads.{
  bytes_at, number_at, number_at-to_le, to_le-number_at, number_at-lt, bytes_at-IsArray,
  same-passed, same_passes, most-passed, most_passes, expect_len_same, expect_magic_same,
  expect_magic-passed, expect_crc_same, expect_crc-passed,
}
use tzap.Wire.Fields.Checks.{run_checks, Passed, run_checks-Passed, run_checks_all, length_checked}
use tzap.Wire.Sealed.{sealed-Holds, length-sealed, Holds-sealed}
use tzap.Wire.CriticalRecoveryLocator.{
  CriticalRecoveryLocator, IsTyped, tzcl_magic, pieces, parse, to_bytes,
}

-- The structure that lies in a vector.
header_at : List ℕ → CriticalRecoveryLocator
header_at bytes = record {
  volume_format_rev = number_at 2 bytes 6;
  cmra_offset = number_at 8 bytes 8;
  cmra_length = number_at 4 bytes 16;
  volume_trailer_offset = number_at 8 bytes 24;
  body_bytes_before_cmra = number_at 8 bytes 32;
  archive_uuid_hint = bytes_at 16 bytes 40;
  session_id_hint = bytes_at 16 bytes 56;
  volume_index_hint = number_at 4 bytes 72;
  locator_sequence = number_at 4 bytes 76;
  cmra_shard_size = number_at 4 bytes 80;
  cmra_data_shard_count = number_at 2 bytes 84;
  cmra_parity_shard_count = number_at 2 bytes 86;
  cmra_image_length = number_at 4 bytes 88;
  cmra_image_sha256 = bytes_at 32 bytes 92;
  locator_crc32c = number_at 4 bytes 124;
}

fits :
    (h : CriticalRecoveryLocator)
    → IsTyped h
    → (crc : ℕ) → Fits 0 (pieces h ++ (write_u32 124 crc ∷ [])) 128
fits h t crc = omega (arith, length-to_le)

header_at-IsTyped :
    (bytes : List ℕ) → length bytes ≡ 128 → AllBytes bytes → IsTyped (header_at bytes)
unfolding header_at
header_at-IsTyped bytes l b = record {
  volume_format_rev = number_at-lt bytes 6 2 (omega arith) b;
  cmra_offset = number_at-lt bytes 8 8 (omega arith) b;
  cmra_length = number_at-lt bytes 16 4 (omega arith) b;
  volume_trailer_offset = number_at-lt bytes 24 8 (omega arith) b;
  body_bytes_before_cmra = number_at-lt bytes 32 8 (omega arith) b;
  archive_uuid_hint = bytes_at-IsArray bytes 40 16 (omega arith) b;
  session_id_hint = bytes_at-IsArray bytes 56 16 (omega arith) b;
  volume_index_hint = number_at-lt bytes 72 4 (omega arith) b;
  locator_sequence = number_at-lt bytes 76 4 (omega arith) b;
  cmra_shard_size = number_at-lt bytes 80 4 (omega arith) b;
  cmra_data_shard_count = number_at-lt bytes 84 2 (omega arith) b;
  cmra_parity_shard_count = number_at-lt bytes 86 2 (omega arith) b;
  cmra_image_length = number_at-lt bytes 88 4 (omega arith) b;
  cmra_image_sha256 = bytes_at-IsArray bytes 92 32 (omega arith) b;
}

module _ (crc32c : List ℕ → ℕ) where
  checks : List ℕ → List (Result (Unit {0}))
  checks bytes =
      expect_magic "CriticalRecoveryLocator" tzcl_magic (slice bytes 0 4)
      ∷ reject_if (not (number_at 2 bytes 4 == 1))
          (unsupported_format_version (number_at 2 bytes 4))
      ∷ reject_if (not (number_at 2 bytes 6 == volume_format_rev_45)) (
          unsupported_volume_format_revision format_version (number_at 2 bytes 6)
            reader_max_supported_volume_format_rev)
      ∷ reject_if (not (number_at 2 bytes 20 == critical_metadata_recovery_header_len))
          (invalid_archive "CriticalRecoveryLocator CMRA header length is invalid")
      ∷ reject_if (not (number_at 2 bytes 22 == 1)) (unknown_fec_algo (number_at 2 bytes 22))
      ∷ reject_if (ltb 1 (number_at 4 bytes 76))
          (invalid_archive "CriticalRecoveryLocator has invalid sequence")
      ∷ expect_crc crc32c "CriticalRecoveryLocator" (slice bytes 0 124) (number_at 4 bytes 124)
      ∷ []

  parse_full :
      (bytes : List ℕ)
      → length bytes ≡ critical_recovery_locator_len
      → parse crc32c bytes ≡ run_checks (checks bytes) (header_at bytes)
  unfolding parse checks header_at read_array_16 read_array_32 read_u16 read_u32 read_u64 number_at
  parse_full bytes l = rw (l, expect_len_same)

  full_length :
      (bytes : List ℕ) (h : CriticalRecoveryLocator)
      → parse crc32c bytes ≡ ok h
      → length bytes ≡ critical_recovery_locator_len
  unfolding parse
  full_length bytes h e =
      length_checked "CriticalRecoveryLocator" critical_recovery_locator_len (length bytes) _ e

  -- Accepted bytes are those that the structure in them is written as.
  read_back :
      (bytes : List ℕ) (h : CriticalRecoveryLocator)
      → AllBytes bytes
      → parse crc32c bytes ≡ ok h
      → IsTyped h
        × (h.volume_format_rev ≡ 45)
        × (h.locator_sequence ≤ 1)
        × (bytes ≡ to_bytes crc32c h)
        × (h.locator_crc32c ≡ crc32c (take 124 bytes))
  unfolding checks to_bytes header_at
  read_back bytes h b e =
      let l = full_length bytes h e in
      let ((magic, (c_version, (rev, (c_len, (c_fec, (seq, (crc, _))))))), same) =
        run_checks-Passed (checks bytes) (header_at bytes) h (sym (parse_full bytes l) ∙ e) in
      let m : bytes_at 4 bytes 0 ≡ tzcl_magic = expect_magic-passed _ _ _ magic in
      let k4 : number_at 2 bytes 4 ≡ 1 = same-passed _ _ _ c_version in
      let k20 : number_at 2 bytes 20 ≡ critical_metadata_recovery_header_len =
        same-passed _ _ _ c_len in
      let k22 : number_at 2 bytes 22 ≡ 1 = same-passed _ _ _ c_fec in
      let holds : Holds bytes 0
          (pieces (header_at bytes) ++ (write_u32 124 (number_at 4 bytes 124) ∷ [])) 128 =
        (
          refl,
          m,
          (
            refl,
            to_le-number_at bytes 4 2 (omega arith) b ∙ ap (to_le 2) k4,
            (
              refl,
              to_le-number_at bytes 6 2 (omega arith) b,
              (
                refl,
                to_le-number_at bytes 8 8 (omega arith) b,
                (
                  refl,
                  to_le-number_at bytes 16 4 (omega arith) b,
                  (
                    refl,
                    to_le-number_at bytes 20 2 (omega arith) b ∙ ap (to_le 2) k20,
                    (
                      refl,
                      to_le-number_at bytes 22 2 (omega arith) b ∙ ap (to_le 2) k22,
                      (
                        refl,
                        to_le-number_at bytes 24 8 (omega arith) b,
                        (
                          refl,
                          to_le-number_at bytes 32 8 (omega arith) b,
                          (
                            refl,
                            refl,
                            (
                              refl,
                              refl,
                              (
                                refl,
                                to_le-number_at bytes 72 4 (omega arith) b,
                                (
                                  refl,
                                  to_le-number_at bytes 76 4 (omega arith) b,
                                  (
                                    refl,
                                    to_le-number_at bytes 80 4 (omega arith) b,
                                    (
                                      refl,
                                      to_le-number_at bytes 84 2 (omega arith) b,
                                      (
                                        refl,
                                        to_le-number_at bytes 86 2 (omega arith) b,
                                        (
                                          refl,
                                          to_le-number_at bytes 88 4 (omega arith) b,
                                          (
                                            refl,
                                            refl,
                                            (
                                              refl,
                                              to_le-number_at bytes 124 4 (omega arith) b,
                                              refl,
                                            ),
                                          ),
                                        ),
                                      ),
                                    ),
                                  ),
                                ),
                              ),
                            ),
                          ),
                        ),
                      ),
                    ),
                  ),
                ),
              ),
            ),
          ),
        ) in
      let c = expect_crc-passed crc32c _ _ _ crc in
      let held =
        subst (λ k. Holds bytes 0 (pieces (header_at bytes) ++ (write_u32 124 k ∷ [])) 128) (sym c)
          holds in
      rw same (
        header_at-IsTyped bytes l b,
        same-passed _ _ _ rev,
        most-passed _ _ _ seq,
        Holds-sealed crc32c _ 124 128 (omega arith)
            (fits (header_at bytes) (header_at-IsTyped bytes l b)) bytes l held,
        sym c,
      )

  module _ (crc_fits : (bytes : List ℕ) → crc32c bytes < 2 ^ 32) where
    -- What is written is read.
    read_written :
        (bytes : List ℕ) (h : CriticalRecoveryLocator)
        → IsTyped h
        → (h.volume_format_rev ≡ 45)
        → (h.locator_sequence ≤ 1)
        → bytes ≡ to_bytes crc32c h
        → h.locator_crc32c ≡ crc32c (take 124 bytes)
        → parse crc32c bytes ≡ ok h
    unfolding checks to_bytes header_at
    read_written bytes h t rev seq e c =
        let l : length bytes ≡ 128 =
          ap length e ∙ length-sealed crc32c (pieces h) 124 128 (omega arith) (fits h t) in
        let held : Holds bytes 0 (pieces h ++ (write_u32 124 h.locator_crc32c ∷ [])) 128 =
          rw (c, e) (sealed-Holds crc32c (pieces h) 124 128 (omega arith) (fits h t)) in
        let (
          _,
          m,
          (
            _,
            n4,
            (
              _,
              n6,
              (
                _,
                n8,
                (
                  _,
                  n16,
                  (
                    _,
                    n20,
                    (
                      _,
                      n22,
                      (
                        _,
                        n24,
                        (
                          _,
                          n32,
                          (
                            _,
                            n40,
                            (
                              _,
                              n56,
                              (
                                _,
                                n72,
                                (
                                  _,
                                  n76,
                                  (_, n80, (_, n84, (_, n86, (_, n88, (_, n92, (_, n124, _)))))),
                                ),
                              ),
                            ),
                          ),
                        ),
                      ),
                    ),
                  ),
                ),
              ),
            ),
          ),
        ) =
          held in
        let crc : number_at 4 bytes 124 ≡ h.locator_crc32c =
          number_at-to_le bytes 124 4 _ n124 (rw c (crc_fits (take 124 bytes))) in
        let same : header_at bytes ≡ h = λ i. record {
          volume_format_rev = number_at-to_le bytes 6 2 _ n6 t.volume_format_rev i;
          cmra_offset = number_at-to_le bytes 8 8 _ n8 t.cmra_offset i;
          cmra_length = number_at-to_le bytes 16 4 _ n16 t.cmra_length i;
          volume_trailer_offset = number_at-to_le bytes 24 8 _ n24 t.volume_trailer_offset i;
          body_bytes_before_cmra = number_at-to_le bytes 32 8 _ n32 t.body_bytes_before_cmra i;
          archive_uuid_hint = n40 i;
          session_id_hint = n56 i;
          volume_index_hint = number_at-to_le bytes 72 4 _ n72 t.volume_index_hint i;
          locator_sequence = number_at-to_le bytes 76 4 _ n76 t.locator_sequence i;
          cmra_shard_size = number_at-to_le bytes 80 4 _ n80 t.cmra_shard_size i;
          cmra_data_shard_count = number_at-to_le bytes 84 2 _ n84 t.cmra_data_shard_count i;
          cmra_parity_shard_count = number_at-to_le bytes 86 2 _ n86 t.cmra_parity_shard_count i;
          cmra_image_length = number_at-to_le bytes 88 4 _ n88 t.cmra_image_length i;
          cmra_image_sha256 = n92 i;
          locator_crc32c = crc i;
        } in
        let passed : Passed (checks bytes) = (
          rw m (expect_magic_same _ tzcl_magic),
          (
            same_passes _ _ _ (number_at-to_le bytes 4 2 1 n4 (omega arith)),
            (
              same_passes _ _ _ (number_at-to_le bytes 6 2 _ n6 t.volume_format_rev ∙ rev),
              (
                same_passes _ _ _ (
                    number_at-to_le bytes 20 2 critical_metadata_recovery_header_len n20
                      (omega arith)),
                (
                  same_passes _ _ _ (number_at-to_le bytes 22 2 1 n22 (omega arith)),
                  (
                    most_passes _ _ _
                        (rw (number_at-to_le bytes 76 4 _ n76 t.locator_sequence) seq),
                    (rw (crc, c) (expect_crc_same crc32c _ (take 124 bytes)), tt),
                  ),
                ),
              ),
            ),
          ),
        ) in
        parse_full bytes l ∙ run_checks_all (checks bytes) (header_at bytes) passed ∙ ap ok same

    -- A byte string is accepted as a recovery locator, and as which one, exactly when it is what
    -- `to_bytes` writes for that locator, the fields are in range, the revision is 45, the sequence
    -- number is 0 or 1, and the checksum field is the checksum of the first 124 bytes.
    pub recovery_locator_iff :
        (bytes : List ℕ) (h : CriticalRecoveryLocator)
        → AllBytes bytes
        → (parse crc32c bytes ≡ ok h) ↔ (
            IsTyped h
            × (h.volume_format_rev ≡ 45)
            × (h.locator_sequence ≤ 1)
            × (bytes ≡ to_bytes crc32c h)
            × (h.locator_crc32c ≡ crc32c (take 124 bytes)))
    recovery_locator_iff bytes h b =
        (read_back bytes h b, λ (t, rev, seq, e, c). read_written bytes h t rev seq e c)
