-- ===== src/Wire/VolumeTrailer/Codec.antt =====
-- Volume trailers are read back as they were written, and only what is written is read.
use Prim.Native.Nat.{bit_and}
use tzap.Prelude.{ℕ, ◌≡◌, refl, sym, ap, ◌∙◌, ◌↔◌, not, ◌==◌, List, [], ◌∷◌, arith, length}
use tzap.Prelude.Slices.{slice, Holds, Fits, copy_all-Holds, length-copy_all, Holds-copy_all}
use tzap.Prelude.Bytes.{AllBytes, length-to_le, of_word64, of_word64-IsI64}
use tzap.Format.{
  Result, ok, reject_if, manifest_footer_len, volume_trailer_len, invalid_manifest_footer_length,
  invalid_archive,
}
use tzap.Wire.Fields.{
  expect_magic, expect_zero, read_u32, read_u64, read_i64, read_array_16, read_array_32,
}
use tzap.Wire.Fields.Reads.{
  bytes_at, number_at, number_at-to_le, to_le-number_at, number_at-lt, bytes_at-IsArray,
  to_word64-at, of_word64-at, same-passed, same_passes, zero_between, expect_len_same,
  expect_magic_same, expect_magic-passed, expect_zero-zeros,
}
use tzap.Wire.Fields.Checks.{run_checks, Passed, run_checks-Passed, run_checks_all, length_checked}
use tzap.Wire.VolumeTrailer.{
  VolumeTrailer, IsTyped, tzvt_magic, pieces, parse, to_bytes, unknown_flags,
}

-- The structure that lies in a vector.
header_at : List ℕ → VolumeTrailer
header_at bytes = record {
  archive_uuid = bytes_at 16 bytes 4;
  session_id = bytes_at 16 bytes 20;
  volume_index = number_at 4 bytes 36;
  block_count = number_at 8 bytes 40;
  bytes_written = number_at 8 bytes 48;
  manifest_footer_offset = number_at 8 bytes 56;
  manifest_footer_length = number_at 4 bytes 64;
  closed_at_ns = of_word64 (number_at 8 bytes 68);
  root_auth_footer_offset = number_at 8 bytes 76;
  root_auth_footer_length = number_at 4 bytes 84;
  root_auth_flags = number_at 4 bytes 88;
  trailer_hmac = bytes_at 32 bytes 96;
}

fits : (h : VolumeTrailer) → IsTyped h → Fits 0 (pieces h) 128
fits h t = omega (arith, length-to_le)

header_at-IsTyped :
    (bytes : List ℕ) → length bytes ≡ 128 → AllBytes bytes → IsTyped (header_at bytes)
unfolding header_at
header_at-IsTyped bytes l b = record {
  archive_uuid = bytes_at-IsArray bytes 4 16 (omega arith) b;
  session_id = bytes_at-IsArray bytes 20 16 (omega arith) b;
  volume_index = number_at-lt bytes 36 4 (omega arith) b;
  block_count = number_at-lt bytes 40 8 (omega arith) b;
  bytes_written = number_at-lt bytes 48 8 (omega arith) b;
  manifest_footer_offset = number_at-lt bytes 56 8 (omega arith) b;
  manifest_footer_length = number_at-lt bytes 64 4 (omega arith) b;
  closed_at_ns = of_word64-IsI64 _ (number_at-lt bytes 68 8 (omega arith) b);
  root_auth_footer_offset = number_at-lt bytes 76 8 (omega arith) b;
  root_auth_footer_length = number_at-lt bytes 84 4 (omega arith) b;
  root_auth_flags = number_at-lt bytes 88 4 (omega arith) b;
  trailer_hmac = bytes_at-IsArray bytes 96 32 (omega arith) b;
}

checks : List ℕ → List (Result (Unit {0}))
checks bytes =
    expect_magic "VolumeTrailer" tzvt_magic (slice bytes 0 4)
    ∷ expect_zero "VolumeTrailer" (slice bytes 92 96)
    ∷ reject_if (not (number_at 4 bytes 64 == manifest_footer_len))
        (invalid_manifest_footer_length (number_at 4 bytes 64))
    ∷ reject_if (not (bit_and (number_at 4 bytes 88) unknown_flags == 0))
        (invalid_archive "VolumeTrailer root_auth_flags has unknown bits")
    ∷ []

parse_full :
    (bytes : List ℕ)
    → length bytes ≡ volume_trailer_len
    → parse bytes ≡ run_checks (checks bytes) (header_at bytes)
unfolding parse checks header_at read_array_16 read_array_32 read_i64 read_u32 read_u64 number_at
parse_full bytes l = rw (l, expect_len_same)

full_length :
    (bytes : List ℕ) (h : VolumeTrailer) → parse bytes ≡ ok h → length bytes ≡ volume_trailer_len
unfolding parse
full_length bytes h e = length_checked "VolumeTrailer" volume_trailer_len (length bytes) _ e

-- Accepted bytes are those that the structure in them is written as.
read_back :
    (bytes : List ℕ) (h : VolumeTrailer)
    → AllBytes bytes
    → parse bytes ≡ ok h
    → IsTyped h
      × (h.manifest_footer_length ≡ 136)
      × (bit_and h.root_auth_flags unknown_flags ≡ 0)
      × (bytes ≡ to_bytes h)
unfolding checks to_bytes header_at
read_back bytes h b e =
    let l = full_length bytes h e in
    let ((magic, (zero, (size, (flags, _)))), same) =
      run_checks-Passed (checks bytes) (header_at bytes) h (sym (parse_full bytes l) ∙ e) in
    let m : bytes_at 4 bytes 0 ≡ tzvt_magic = expect_magic-passed _ _ _ magic in
    let holds : Holds bytes 0 (pieces (header_at bytes)) 128 = (
      refl,
      m,
      (
        refl,
        refl,
        (
          refl,
          refl,
          (
            refl,
            to_le-number_at bytes 36 4 (omega arith) b,
            (
              refl,
              to_le-number_at bytes 40 8 (omega arith) b,
              (
                refl,
                to_le-number_at bytes 48 8 (omega arith) b,
                (
                  refl,
                  to_le-number_at bytes 56 8 (omega arith) b,
                  (
                    refl,
                    to_le-number_at bytes 64 4 (omega arith) b,
                    (
                      refl,
                      to_word64-at bytes 68 (omega arith) b,
                      (
                        refl,
                        to_le-number_at bytes 76 8 (omega arith) b,
                        (
                          refl,
                          to_le-number_at bytes 84 4 (omega arith) b,
                          (
                            refl,
                            to_le-number_at bytes 88 4 (omega arith) b,
                            (zero_between _ bytes 92 96 (omega arith) zero, refl, refl),
                          ),
                        ),
                      ),
                    ),
                  ),
                ),
              ),
            ),
          ),
        ),
      ),
    ) in
    rw same (
      header_at-IsTyped bytes l b,
      same-passed _ _ _ size,
      same-passed _ _ _ flags,
      Holds-copy_all bytes _ 128 l (fits (header_at bytes) (header_at-IsTyped bytes l b)) holds,
    )

-- What is written is read.
read_written :
    (bytes : List ℕ) (h : VolumeTrailer)
    → IsTyped h
    → (h.manifest_footer_length ≡ 136)
    → (bit_and h.root_auth_flags unknown_flags ≡ 0)
    → bytes ≡ to_bytes h
    → parse bytes ≡ ok h
unfolding checks to_bytes header_at
read_written bytes h t size known e =
    let l : length bytes ≡ 128 = ap length e ∙ length-copy_all (pieces h) 128 (fits h t) in
    let held : Holds bytes 0 (pieces h) 128 = rw e (copy_all-Holds (pieces h) 128 (fits h t)) in
    let (
      _,
      m,
      (
        _,
        n4,
        (
          _,
          n20,
          (
            _,
            n36,
            (
              _,
              n40,
              (_, n48, (_, n56, (_, n64, (_, n68, (_, n76, (_, n84, (_, n88, (z92, n96, _)))))))),
            ),
          ),
        ),
      ),
    ) =
      held in
    let same : header_at bytes ≡ h = λ i. record {
      archive_uuid = n4 i;
      session_id = n20 i;
      volume_index = number_at-to_le bytes 36 4 _ n36 t.volume_index i;
      block_count = number_at-to_le bytes 40 8 _ n40 t.block_count i;
      bytes_written = number_at-to_le bytes 48 8 _ n48 t.bytes_written i;
      manifest_footer_offset = number_at-to_le bytes 56 8 _ n56 t.manifest_footer_offset i;
      manifest_footer_length = number_at-to_le bytes 64 4 _ n64 t.manifest_footer_length i;
      closed_at_ns = of_word64-at bytes 68 _ n68 t.closed_at_ns i;
      root_auth_footer_offset = number_at-to_le bytes 76 8 _ n76 t.root_auth_footer_offset i;
      root_auth_footer_length = number_at-to_le bytes 84 4 _ n84 t.root_auth_footer_length i;
      root_auth_flags = number_at-to_le bytes 88 4 _ n88 t.root_auth_flags i;
      trailer_hmac = n96 i;
    } in
    let passed : Passed (checks bytes) = (
      rw m (expect_magic_same _ tzvt_magic),
      (
        rw z92 (expect_zero-zeros _ 4),
        (
          same_passes _ _ _ (number_at-to_le bytes 64 4 _ n64 t.manifest_footer_length ∙ size),
          (
            same_passes _ _ _ (
                ap (λ f. bit_and f unknown_flags)
                  (number_at-to_le bytes 88 4 _ n88 t.root_auth_flags)
                ∙ known),
            tt,
          ),
        ),
      ),
    ) in
    parse_full bytes l ∙ run_checks_all (checks bytes) (header_at bytes) passed ∙ ap ok same

-- A byte string is accepted as a volume trailer, and as which one, exactly when it is what
-- `to_bytes` writes for that trailer, the fields are in range, the manifest footer is said to have
-- 136 bytes, and no flag but the lowest is set.
pub volume_trailer_iff :
    (bytes : List ℕ) (h : VolumeTrailer)
    → AllBytes bytes
    → (parse bytes ≡ ok h) ↔ (
        IsTyped h
        × (h.manifest_footer_length ≡ 136)
        × (bit_and h.root_auth_flags unknown_flags ≡ 0)
        × (bytes ≡ to_bytes h))
volume_trailer_iff bytes h b =
    (read_back bytes h b, λ (t, size, known, e). read_written bytes h t size known e)
