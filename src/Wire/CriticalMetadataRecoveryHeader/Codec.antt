-- ===== src/Wire/CriticalMetadataRecoveryHeader/Codec.antt =====
-- Recovery headers are read back as they were written, and only what is written is read.
use mathlib.Core.Path.{subst}
use tzap.Prelude.{
  ℕ, ◌^◌, ◌<◌, ◌≡◌, refl, sym, ap, ◌∙◌, ◌↔◌, not, ◌==◌, List, [], ◌∷◌, ◌++◌, arith, length, take,
}
use tzap.Prelude.Slices.{slice, Holds, Fits}
use tzap.Prelude.Bytes.{AllBytes, length-to_le, to_le}
use tzap.Format.{
  Result, ok, reject_if, critical_metadata_recovery_header_len, unsupported_format_version,
  unknown_fec_algo,
}
use tzap.Wire.Fields.{
  expect_magic, expect_zero, expect_crc, write_u32, read_u16, read_u32, read_array_16,
  read_array_32,
}
use tzap.Wire.Fields.Reads.{
  bytes_at, number_at, number_at-to_le, to_le-number_at, number_at-lt, bytes_at-IsArray,
  same-passed, same_passes, zero_between, expect_len_same, expect_magic_same, expect_magic-passed,
  expect_zero-zeros, expect_crc_same, expect_crc-passed,
}
use tzap.Wire.Fields.Checks.{run_checks, Passed, run_checks-Passed, run_checks_all, length_checked}
use tzap.Wire.Sealed.{sealed-Holds, length-sealed, Holds-sealed}
use tzap.Wire.CriticalMetadataRecoveryHeader.{
  CriticalMetadataRecoveryHeader, IsTyped, tzcr_magic, pieces, parse, to_bytes,
}

-- The structure that lies in a vector.
header_at : List ℕ → CriticalMetadataRecoveryHeader
header_at bytes = record {
  shard_size = number_at 4 bytes 8;
  data_shard_count = number_at 2 bytes 12;
  parity_shard_count = number_at 2 bytes 14;
  image_length = number_at 4 bytes 16;
  archive_uuid_hint = bytes_at 16 bytes 20;
  session_id_hint = bytes_at 16 bytes 36;
  volume_index_hint = number_at 4 bytes 52;
  image_sha256 = bytes_at 32 bytes 56;
  header_crc32c = number_at 4 bytes 112;
}

fits :
    (h : CriticalMetadataRecoveryHeader)
    → IsTyped h
    → (crc : ℕ) → Fits 0 (pieces h ++ (write_u32 112 crc ∷ [])) 116
fits h t crc = omega (arith, length-to_le)

header_at-IsTyped :
    (bytes : List ℕ) → length bytes ≡ 116 → AllBytes bytes → IsTyped (header_at bytes)
unfolding header_at
header_at-IsTyped bytes l b = record {
  shard_size = number_at-lt bytes 8 4 (omega arith) b;
  data_shard_count = number_at-lt bytes 12 2 (omega arith) b;
  parity_shard_count = number_at-lt bytes 14 2 (omega arith) b;
  image_length = number_at-lt bytes 16 4 (omega arith) b;
  archive_uuid_hint = bytes_at-IsArray bytes 20 16 (omega arith) b;
  session_id_hint = bytes_at-IsArray bytes 36 16 (omega arith) b;
  volume_index_hint = number_at-lt bytes 52 4 (omega arith) b;
  image_sha256 = bytes_at-IsArray bytes 56 32 (omega arith) b;
}

module _ (crc32c : List ℕ → ℕ) where
  checks : List ℕ → List (Result (Unit {0}))
  checks bytes =
      expect_magic "CriticalMetadataRecoveryHeader" tzcr_magic (slice bytes 0 4)
      ∷ reject_if (not (number_at 2 bytes 4 == 1))
          (unsupported_format_version (number_at 2 bytes 4))
      ∷ reject_if (not (number_at 2 bytes 6 == 1)) (unknown_fec_algo (number_at 2 bytes 6))
      ∷ expect_zero "CriticalMetadataRecoveryHeader" (slice bytes 88 112)
      ∷ expect_crc crc32c "CriticalMetadataRecoveryHeader" (slice bytes 0 112)
          (number_at 4 bytes 112)
      ∷ []

  parse_full :
      (bytes : List ℕ)
      → length bytes ≡ critical_metadata_recovery_header_len
      → parse crc32c bytes ≡ run_checks (checks bytes) (header_at bytes)
  unfolding parse checks header_at read_array_16 read_array_32 read_u16 read_u32 number_at
  parse_full bytes l = rw (l, expect_len_same)

  full_length :
      (bytes : List ℕ) (h : CriticalMetadataRecoveryHeader)
      → parse crc32c bytes ≡ ok h
      → length bytes ≡ critical_metadata_recovery_header_len
  unfolding parse
  full_length bytes h e =
      length_checked "CriticalMetadataRecoveryHeader" critical_metadata_recovery_header_len
        (length bytes) _ e

  -- Accepted bytes are those that the structure in them is written as.
  read_back :
      (bytes : List ℕ) (h : CriticalMetadataRecoveryHeader)
      → AllBytes bytes
      → parse crc32c bytes ≡ ok h
      → IsTyped h × (bytes ≡ to_bytes crc32c h) × (h.header_crc32c ≡ crc32c (take 112 bytes))
  unfolding checks to_bytes header_at
  read_back bytes h b e =
      let l = full_length bytes h e in
      let ((magic, (c_version, (c_fec, (zero, (crc, _))))), same) =
        run_checks-Passed (checks bytes) (header_at bytes) h (sym (parse_full bytes l) ∙ e) in
      let m : bytes_at 4 bytes 0 ≡ tzcr_magic = expect_magic-passed _ _ _ magic in
      let k4 : number_at 2 bytes 4 ≡ 1 = same-passed _ _ _ c_version in
      let k6 : number_at 2 bytes 6 ≡ 1 = same-passed _ _ _ c_fec in
      let holds : Holds bytes 0
          (pieces (header_at bytes) ++ (write_u32 112 (number_at 4 bytes 112) ∷ [])) 116 =
        (
          refl,
          m,
          (
            refl,
            to_le-number_at bytes 4 2 (omega arith) b ∙ ap (to_le 2) k4,
            (
              refl,
              to_le-number_at bytes 6 2 (omega arith) b ∙ ap (to_le 2) k6,
              (
                refl,
                to_le-number_at bytes 8 4 (omega arith) b,
                (
                  refl,
                  to_le-number_at bytes 12 2 (omega arith) b,
                  (
                    refl,
                    to_le-number_at bytes 14 2 (omega arith) b,
                    (
                      refl,
                      to_le-number_at bytes 16 4 (omega arith) b,
                      (
                        refl,
                        refl,
                        (
                          refl,
                          refl,
                          (
                            refl,
                            to_le-number_at bytes 52 4 (omega arith) b,
                            (
                              refl,
                              refl,
                              (
                                zero_between _ bytes 88 112 (omega arith) zero,
                                to_le-number_at bytes 112 4 (omega arith) b,
                                refl,
                              ),
                            ),
                          ),
                        ),
                      ),
                    ),
                  ),
                ),
              ),
            ),
          ),
        ) in
      let c = expect_crc-passed crc32c _ _ _ crc in
      let held =
        subst (λ k. Holds bytes 0 (pieces (header_at bytes) ++ (write_u32 112 k ∷ [])) 116) (sym c)
          holds in
      rw same (
        header_at-IsTyped bytes l b,
        Holds-sealed crc32c _ 112 116 (omega arith)
            (fits (header_at bytes) (header_at-IsTyped bytes l b)) bytes l held,
        sym c,
      )

  module _ (crc_fits : (bytes : List ℕ) → crc32c bytes < 2 ^ 32) where
    -- What is written is read.
    read_written :
        (bytes : List ℕ) (h : CriticalMetadataRecoveryHeader)
        → IsTyped h
        → bytes ≡ to_bytes crc32c h
        → h.header_crc32c ≡ crc32c (take 112 bytes)
        → parse crc32c bytes ≡ ok h
    unfolding checks to_bytes header_at
    read_written bytes h t e c =
        let l : length bytes ≡ 116 =
          ap length e ∙ length-sealed crc32c (pieces h) 112 116 (omega arith) (fits h t) in
        let held : Holds bytes 0 (pieces h ++ (write_u32 112 h.header_crc32c ∷ [])) 116 =
          rw (c, e) (sealed-Holds crc32c (pieces h) 112 116 (omega arith) (fits h t)) in
        let (
          _,
          m,
          (
            _,
            n4,
            (
              _,
              n6,
              (
                _,
                n8,
                (
                  _,
                  n12,
                  (_, n14, (_, n16, (_, n20, (_, n36, (_, n52, (_, n56, (z88, n112, _))))))),
                ),
              ),
            ),
          ),
        ) =
          held in
        let crc : number_at 4 bytes 112 ≡ h.header_crc32c =
          number_at-to_le bytes 112 4 _ n112 (rw c (crc_fits (take 112 bytes))) in
        let same : header_at bytes ≡ h = λ i. record {
          shard_size = number_at-to_le bytes 8 4 _ n8 t.shard_size i;
          data_shard_count = number_at-to_le bytes 12 2 _ n12 t.data_shard_count i;
          parity_shard_count = number_at-to_le bytes 14 2 _ n14 t.parity_shard_count i;
          image_length = number_at-to_le bytes 16 4 _ n16 t.image_length i;
          archive_uuid_hint = n20 i;
          session_id_hint = n36 i;
          volume_index_hint = number_at-to_le bytes 52 4 _ n52 t.volume_index_hint i;
          image_sha256 = n56 i;
          header_crc32c = crc i;
        } in
        let passed : Passed (checks bytes) = (
          rw m (expect_magic_same _ tzcr_magic),
          (
            same_passes _ _ _ (number_at-to_le bytes 4 2 1 n4 (omega arith)),
            (
              same_passes _ _ _ (number_at-to_le bytes 6 2 1 n6 (omega arith)),
              (
                rw z88 (expect_zero-zeros _ 24),
                (rw (crc, c) (expect_crc_same crc32c _ (take 112 bytes)), tt),
              ),
            ),
          ),
        ) in
        parse_full bytes l ∙ run_checks_all (checks bytes) (header_at bytes) passed ∙ ap ok same

    -- A byte string is accepted as a recovery header, and as which one, exactly when it is what
    -- `to_bytes` writes for that header, the fields are in range, and the checksum field is the
    -- checksum of the first 112 bytes.
    pub recovery_header_iff :
        (bytes : List ℕ) (h : CriticalMetadataRecoveryHeader)
        → AllBytes bytes
        → (parse crc32c bytes ≡ ok h)
          ↔ (IsTyped h × (bytes ≡ to_bytes crc32c h) × (h.header_crc32c ≡ crc32c (take 112 bytes)))
    recovery_header_iff bytes h b = (read_back bytes h b, λ (t, e, c). read_written bytes h t e c)
