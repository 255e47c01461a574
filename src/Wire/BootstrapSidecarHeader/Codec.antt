-- ===== src/Wire/BootstrapSidecarHeader/Codec.antt =====
-- Bootstrap sidecar headers are read back as they were written, and only what is written is read.
use mathlib.Core.Path.{subst}
use tzap.Prelude.{
  ℕ, ◌^◌, ◌<◌, ◌≡◌, refl, sym, ap, ◌∙◌, ◌↔◌, not, ◌==◌, List, [], ◌∷◌, ◌++◌, arith, length, take,
}
use tzap.Prelude.Slices.{slice, Holds, Fits}
use tzap.Prelude.Bytes.{AllBytes, length-to_le, to_le}
use tzap.Format.{
  Result, ok, reject_if, bootstrap_sidecar_header_len, unsupported_bootstrap_sidecar_version,
}
use tzap.Wire.Fields.{
  expect_magic, expect_zero, expect_crc, write_u32, read_u32, read_u64, read_array_16,
  read_array_32,
}
use tzap.Wire.Fields.Reads.{
  bytes_at, number_at, number_at-to_le, to_le-number_at, number_at-lt, bytes_at-IsArray,
  same-passed, same_passes, zero_between, expect_len_same, expect_magic_same, expect_magic-passed,
  expect_zero-zeros, expect_crc_same, expect_crc-passed,
}
use tzap.Wire.Fields.Checks.{run_checks, Passed, run_checks-Passed, run_checks_all, length_checked}
use tzap.Wire.Sealed.{sealed-Holds, length-sealed, Holds-sealed}
use tzap.Wire.BootstrapSidecarHeader.{
  BootstrapSidecarHeader, IsTyped, tzbs_magic, pieces, parse, to_bytes, validate_sections,
}

-- The structure that lies in a vector.
header_at : List ℕ → BootstrapSidecarHeader
header_at bytes = record {
  archive_uuid = bytes_at 16 bytes 8;
  session_id = bytes_at 16 bytes 24;
  flags = number_at 4 bytes 40;
  manifest_footer_offset = number_at 8 bytes 44;
  manifest_footer_length = number_at 4 bytes 52;
  index_root_records_offset = number_at 8 bytes 56;
  index_root_records_length = number_at 8 bytes 64;
  dictionary_records_offset = number_at 8 bytes 72;
  dictionary_records_length = number_at 8 bytes 80;
  sidecar_hmac = bytes_at 32 bytes 92;
  header_crc32c = number_at 4 bytes 124;
}

fits :
    (h : BootstrapSidecarHeader)
    → IsTyped h
    → (crc : ℕ) → Fits 0 (pieces h ++ (write_u32 124 crc ∷ [])) 128
fits h t crc = omega (arith, length-to_le)

header_at-IsTyped :
    (bytes : List ℕ) → length bytes ≡ 128 → AllBytes bytes → IsTyped (header_at bytes)
unfolding header_at
header_at-IsTyped bytes l b = record {
  archive_uuid = bytes_at-IsArray bytes 8 16 (omega arith) b;
  session_id = bytes_at-IsArray bytes 24 16 (omega arith) b;
  flags = number_at-lt bytes 40 4 (omega arith) b;
  manifest_footer_offset = number_at-lt bytes 44 8 (omega arith) b;
  manifest_footer_length = number_at-lt bytes 52 4 (omega arith) b;
  index_root_records_offset = number_at-lt bytes 56 8 (omega arith) b;
  index_root_records_length = number_at-lt bytes 64 8 (omega arith) b;
  dictionary_records_offset = number_at-lt bytes 72 8 (omega arith) b;
  dictionary_records_length = number_at-lt bytes 80 8 (omega arith) b;
  sidecar_hmac = bytes_at-IsArray bytes 92 32 (omega arith) b;
}

module _ (crc32c : List ℕ → ℕ) where
  checks : List ℕ → List (Result (Unit {0}))
  checks bytes =
      expect_magic "BootstrapSidecarHeader" tzbs_magic (slice bytes 0 4)
      ∷ reject_if (not (number_at 4 bytes 4 == 1))
          (unsupported_bootstrap_sidecar_version (number_at 4 bytes 4))
      ∷ expect_zero "BootstrapSidecarHeader" (slice bytes 88 92)
      ∷ expect_crc crc32c "BootstrapSidecarHeader" (slice bytes 0 124) (number_at 4 bytes 124)
      ∷ validate_sections (header_at bytes)
      ∷ []

  parse_full :
      (bytes : List ℕ)
      → length bytes ≡ bootstrap_sidecar_header_len
      → parse crc32c bytes ≡ run_checks (checks bytes) (header_at bytes)
  unfolding parse checks header_at read_array_16 read_array_32 read_u32 read_u64 number_at
  parse_full bytes l = rw (l, expect_len_same)

  full_length :
      (bytes : List ℕ) (h : BootstrapSidecarHeader)
      → parse crc32c bytes ≡ ok h
      → length bytes ≡ bootstrap_sidecar_header_len
  unfolding parse
  full_length bytes h e =
      length_checked "BootstrapSidecarHeader" bootstrap_sidecar_header_len (length bytes) _ e

  -- Accepted bytes are those that the structure in them is written as.
  read_back :
      (bytes : List ℕ) (h : BootstrapSidecarHeader)
      → AllBytes bytes
      → parse crc32c bytes ≡ ok h
      → IsTyped h
        × (validate_sections h ≡ ok tt)
        × (bytes ≡ to_bytes crc32c h)
        × (h.header_crc32c ≡ crc32c (take 124 bytes))
  unfolding checks to_bytes header_at
  read_back bytes h b e =
      let l = full_length bytes h e in
      let ((magic, (c_version, (zero, (crc, (valid, _))))), same) =
        run_checks-Passed (checks bytes) (header_at bytes) h (sym (parse_full bytes l) ∙ e) in
      let m : bytes_at 4 bytes 0 ≡ tzbs_magic = expect_magic-passed _ _ _ magic in
      let k4 : number_at 4 bytes 4 ≡ 1 = same-passed _ _ _ c_version in
      let holds : Holds bytes 0
          (pieces (header_at bytes) ++ (write_u32 124 (number_at 4 bytes 124) ∷ [])) 128 =
        (
          refl,
          m,
          (
            refl,
            to_le-number_at bytes 4 4 (omega arith) b ∙ ap (to_le 4) k4,
            (
              refl,
              refl,
              (
                refl,
                refl,
                (
                  refl,
                  to_le-number_at bytes 40 4 (omega arith) b,
                  (
                    refl,
                    to_le-number_at bytes 44 8 (omega arith) b,
                    (
                      refl,
                      to_le-number_at bytes 52 4 (omega arith) b,
                      (
                        refl,
                        to_le-number_at bytes 56 8 (omega arith) b,
                        (
                          refl,
                          to_le-number_at bytes 64 8 (omega arith) b,
                          (
                            refl,
                            to_le-number_at bytes 72 8 (omega arith) b,
                            (
                              refl,
                              to_le-number_at bytes 80 8 (omega arith) b,
                              (
                                zero_between _ bytes 88 92 (omega arith) zero,
                                refl,
                                (refl, to_le-number_at bytes 124 4 (omega arith) b, refl),
                              ),
                            ),
                          ),
                        ),
                      ),
                    ),
                  ),
                ),
              ),
            ),
          ),
        ) in
      let c = expect_crc-passed crc32c _ _ _ crc in
      let held =
        subst (λ k. Holds bytes 0 (pieces (header_at bytes) ++ (write_u32 124 k ∷ [])) 128) (sym c)
          holds in
      rw same (
        header_at-IsTyped bytes l b,
        valid,
        Holds-sealed crc32c _ 124 128 (omega arith)
            (fits (header_at bytes) (header_at-IsTyped bytes l b)) bytes l held,
        sym c,
      )

  module _ (crc_fits : (bytes : List ℕ) → crc32c bytes < 2 ^ 32) where
    -- What is written is read.
    read_written :
        (bytes : List ℕ) (h : BootstrapSidecarHeader)
        → IsTyped h
        → (validate_sections h ≡ ok tt)
        → bytes ≡ to_bytes crc32c h
        → h.header_crc32c ≡ crc32c (take 124 bytes)
        → parse crc32c bytes ≡ ok h
    unfolding checks to_bytes header_at
    read_written bytes h t v e c =
        let l : length bytes ≡ 128 =
          ap length e ∙ length-sealed crc32c (pieces h) 124 128 (omega arith) (fits h t) in
        let held : Holds bytes 0 (pieces h ++ (write_u32 124 h.header_crc32c ∷ [])) 128 =
          rw (c, e) (sealed-Holds crc32c (pieces h) 124 128 (omega arith) (fits h t)) in
        let (
          _,
          m,
          (
            _,
            n4,
            (
              _,
              n8,
              (
                _,
                n24,
                (
                  _,
                  n40,
                  (
                    _,
                    n44,
                    (_, n52, (_, n56, (_, n64, (_, n72, (_, n80, (z88, n92, (_, n124, _))))))),
                  ),
                ),
              ),
            ),
          ),
        ) =
          held in
        let crc : number_at 4 bytes 124 ≡ h.header_crc32c =
          number_at-to_le bytes 124 4 _ n124 (rw c (crc_fits (take 124 bytes))) in
        let same : header_at bytes ≡ h = λ i. record {
          archive_uuid = n8 i;
          session_id = n24 i;
          flags = number_at-to_le bytes 40 4 _ n40 t.flags i;
          manifest_footer_offset = number_at-to_le bytes 44 8 _ n44 t.manifest_footer_offset i;
          manifest_footer_length = number_at-to_le bytes 52 4 _ n52 t.manifest_footer_length i;
          index_root_records_offset =
              number_at-to_le bytes 56 8 _ n56 t.index_root_records_offset i;
          index_root_records_length =
              number_at-to_le bytes 64 8 _ n64 t.index_root_records_length i;
          dictionary_records_offset =
              number_at-to_le bytes 72 8 _ n72 t.dictionary_records_offset i;
          dictionary_records_length =
              number_at-to_le bytes 80 8 _ n80 t.dictionary_records_length i;
          sidecar_hmac = n92 i;
          header_crc32c = crc i;
        } in
        let passed : Passed (checks bytes) = (
          rw m (expect_magic_same _ tzbs_magic),
          (
            same_passes _ _ _ (number_at-to_le bytes 4 4 1 n4 (omega arith)),
            (
              rw z88 (expect_zero-zeros _ 4),
              (
                rw (crc, c) (expect_crc_same crc32c _ (take 124 bytes)),
                (ap validate_sections same ∙ v, tt),
              ),
            ),
          ),
        ) in
        parse_full bytes l ∙ run_checks_all (checks bytes) (header_at bytes) passed ∙ ap ok same

    -- A byte string is accepted as a sidecar header, and as which one, exactly when it is what
    -- `to_bytes` writes for that header, the fields are in range, its sections are valid, and the
    -- checksum field is the checksum of the first 124 bytes.
    pub sidecar_header_iff :
        (bytes : List ℕ) (h : BootstrapSidecarHeader)
        → AllBytes bytes
        → (parse crc32c bytes ≡ ok h) ↔ (
            IsTyped h
            × (validate_sections h ≡ ok tt)
            × (bytes ≡ to_bytes crc32c h)
            × (h.header_crc32c ≡ crc32c (take 124 bytes)))
    sidecar_header_iff bytes h b =
        (read_back bytes h b, λ (t, v, e, c). read_written bytes h t v e c)
