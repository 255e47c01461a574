-- ===== src/Wire/VolumeHeader/Codec.antt =====
-- Volume headers are read back as they were written, and only what is written is read.
use tzap.Prelude.{
  ℕ, ◌+◌, ◌^◌, ◌≤◌, ◌<◌, ◌≡◌, refl, sym, ap, ◌∙◌, ◌↔◌, List, [], ◌∷◌, ◌++◌, arith, length, take,
}
use mathlib.Core.Path.{subst}
use tzap.Prelude.Slices.{slice, Holds, Fits}
use tzap.Prelude.Bytes.{AllBytes, length-to_le}
use tzap.Format.{Result, ok, volume_header_len}
use tzap.Wire.Fields.{
  expect_magic, expect_zero, expect_crc, write_u32, read_u16, read_u32, read_array_16,
}
use tzap.Wire.Fields.Reads.{
  bytes_at, number_at, number_at-to_le, to_le-number_at, number_at-lt, bytes_at-IsArray,
  zero_between, expect_len_same, expect_magic_same, expect_magic-passed, expect_zero-zeros,
  expect_crc_same, expect_crc-passed,
}
use tzap.Wire.Fields.Checks.{run_checks, Passed, run_checks-Passed, run_checks_all, length_checked}
use tzap.Wire.Sealed.{sealed-Holds, length-sealed, Holds-sealed}
use tzap.Wire.VolumeHeader.{VolumeHeader, IsTyped, tzap_magic, validate, pieces, parse, to_bytes}

-- The header that lies in a vector.
header_at : List ℕ → VolumeHeader
header_at bytes = record {
  format_version = number_at 2 bytes 4;
  volume_format_rev = number_at 2 bytes 6;
  volume_index = number_at 4 bytes 8;
  stripe_width = number_at 4 bytes 12;
  archive_uuid = bytes_at 16 bytes 16;
  session_id = bytes_at 16 bytes 32;
  crypto_header_offset = number_at 4 bytes 48;
  crypto_header_length = number_at 4 bytes 52;
  header_crc32c = number_at 4 bytes 124;
}

fits :
    (h : VolumeHeader) → IsTyped h → (crc : ℕ) → Fits 0 (pieces h ++ (write_u32 124 crc ∷ [])) 128
fits h t crc = omega (arith, length-to_le)

module _ (crc32c : List ℕ → ℕ) where
  checks : List ℕ → List (Result (Unit {0}))
  checks bytes =
      expect_magic "VolumeHeader" tzap_magic (slice bytes 0 4)
      ∷ expect_crc crc32c "VolumeHeader" (slice bytes 0 124) (number_at 4 bytes 124)
      ∷ expect_zero "VolumeHeader" (slice bytes 56 124)
      ∷ validate (header_at bytes)
      ∷ []

  parse_full :
      (bytes : List ℕ)
      → length bytes ≡ volume_header_len
      → parse crc32c bytes ≡ run_checks (checks bytes) (header_at bytes)
  unfolding parse checks header_at read_u16 read_u32 read_array_16 number_at
  parse_full bytes l = rw (l, expect_len_same)

  full_length :
      (bytes : List ℕ) (h : VolumeHeader)
      → parse crc32c bytes ≡ ok h
      → length bytes ≡ volume_header_len
  unfolding parse
  full_length bytes h e = length_checked "VolumeHeader" volume_header_len (length bytes) _ e

  -- The bytes of an accepted header are those that its header is written as.
  read_back :
      (bytes : List ℕ) (h : VolumeHeader)
      → AllBytes bytes
      → parse crc32c bytes ≡ ok h
      → IsTyped h
        × (validate h ≡ ok tt)
        × (bytes ≡ to_bytes crc32c h)
        × (h.header_crc32c ≡ crc32c (take 124 bytes))
  unfolding checks to_bytes header_at
  read_back bytes h b e =
      let l = full_length bytes h e in
      let ((magic, (crc, (zero, (valid, _)))), same) =
        run_checks-Passed (checks bytes) (header_at bytes) h (sym (parse_full bytes l) ∙ e) in
      let m : bytes_at 4 bytes 0 ≡ tzap_magic = expect_magic-passed _ _ _ magic in
      let c : crc32c (take 124 bytes) ≡ number_at 4 bytes 124 =
        expect_crc-passed crc32c _ _ _ crc in
      let typed : IsTyped (header_at bytes) = record {
        format_version = number_at-lt bytes 4 2 (omega arith) b;
        volume_format_rev = number_at-lt bytes 6 2 (omega arith) b;
        volume_index = number_at-lt bytes 8 4 (omega arith) b;
        stripe_width = number_at-lt bytes 12 4 (omega arith) b;
        archive_uuid = bytes_at-IsArray bytes 16 16 (omega arith) b;
        session_id = bytes_at-IsArray bytes 32 16 (omega arith) b;
        crypto_header_offset = number_at-lt bytes 48 4 (omega arith) b;
        crypto_header_length = number_at-lt bytes 52 4 (omega arith) b;
      } in
      let num = λ (o n : ℕ) (p : o + n ≤ length bytes). to_le-number_at bytes o n p b in
      let holds : Holds bytes 0
          (pieces (header_at bytes) ++ (write_u32 124 (number_at 4 bytes 124) ∷ [])) 128 =
        (
          refl,
          m,
          (
            refl,
            num 4 2 (omega arith),
            (
              refl,
              num 6 2 (omega arith),
              (
                refl,
                num 8 4 (omega arith),
                (
                  refl,
                  num 12 4 (omega arith),
                  (
                    refl,
                    refl,
                    (
                      refl,
                      refl,
                      (
                        refl,
                        num 48 4 (omega arith),
                        (
                          refl,
                          num 52 4 (omega arith),
                          (
                            zero_between _ bytes 56 124 (omega arith) zero,
                            num 124 4 (omega arith),
                            refl,
                          ),
                        ),
                      ),
                    ),
                  ),
                ),
              ),
            ),
          ),
        ) in
      let held =
        subst (λ k. Holds bytes 0 (pieces (header_at bytes) ++ (write_u32 124 k ∷ [])) 128) (sym c)
          holds in
      rw same (
        typed,
        valid,
        Holds-sealed crc32c _ 124 128 (omega arith) (fits (header_at bytes) typed) bytes l held,
        sym c,
      )

  module _ (crc_fits : (bytes : List ℕ) → crc32c bytes < 2 ^ 32) where
    -- What is written is read.
    read_written :
        (bytes : List ℕ) (h : VolumeHeader)
        → IsTyped h
        → validate h ≡ ok tt
        → bytes ≡ to_bytes crc32c h
        → h.header_crc32c ≡ crc32c (take 124 bytes)
        → parse crc32c bytes ≡ ok h
    unfolding checks to_bytes header_at
    read_written bytes h t v e c =
        let l : length bytes ≡ 128 =
          ap length e ∙ length-sealed crc32c (pieces h) 124 128 (omega arith) (fits h t) in
        let held' = sealed-Holds crc32c (pieces h) 124 128 (omega arith) (fits h t) in
        let held : Holds bytes 0 (pieces h ++ (write_u32 124 h.header_crc32c ∷ [])) 128 =
          rw (c, e) held' in
        let (
          _,
          m,
          (_, n4, (_, n6, (_, n8, (_, n12, (_, a16, (_, a32, (_, n48, (_, n52, (z, n124, _))))))))),
        ) =
          held in
        let crc : number_at 4 bytes 124 ≡ h.header_crc32c =
          number_at-to_le bytes 124 4 _ n124 (rw c (crc_fits (take 124 bytes))) in
        let same : header_at bytes ≡ h = λ i. record {
          format_version = number_at-to_le bytes 4 2 _ n4 t.format_version i;
          volume_format_rev = number_at-to_le bytes 6 2 _ n6 t.volume_format_rev i;
          volume_index = number_at-to_le bytes 8 4 _ n8 t.volume_index i;
          stripe_width = number_at-to_le bytes 12 4 _ n12 t.stripe_width i;
          archive_uuid = a16 i;
          session_id = a32 i;
          crypto_header_offset = number_at-to_le bytes 48 4 _ n48 t.crypto_header_offset i;
          crypto_header_length = number_at-to_le bytes 52 4 _ n52 t.crypto_header_length i;
          header_crc32c = crc i;
        } in
        let passed : Passed (checks bytes) = (
          rw m (expect_magic_same _ tzap_magic),
          (
            rw (crc, c) (expect_crc_same crc32c _ (take 124 bytes)),
            (rw z (expect_zero-zeros _ 68), (ap validate same ∙ v, tt)),
          ),
        ) in
        parse_full bytes l ∙ run_checks_all (checks bytes) (header_at bytes) passed ∙ ap ok same

    -- A byte string is accepted as a volume header, and as which one, exactly when it is what
    -- `to_bytes` writes for that header, the header's fields are in range, it passes `validate`,
    -- and its checksum field is the checksum of the first 124 bytes.
    pub volume_header_iff :
        (bytes : List ℕ) (h : VolumeHeader)
        → AllBytes bytes
        → (parse crc32c bytes ≡ ok h) ↔ (
            IsTyped h
            × (validate h ≡ ok tt)
            × (bytes ≡ to_bytes crc32c h)
            × (h.header_crc32c ≡ crc32c (take 124 bytes)))
    volume_header_iff bytes h b =
        (read_back bytes h b, λ (t, v, e, c). read_written bytes h t v e c)
