-- ===== src/Wire/ManifestFooter/Codec.antt =====
-- Manifest footers are read back as they were written, and only what is written is read.
use tzap.Prelude.{ℕ, ◌≤◌, ◌≡◌, refl, sym, ap, ◌∙◌, ◌↔◌, ltb, List, [], ◌∷◌, arith, length}
use tzap.Prelude.Slices.{slice, Holds, Fits, copy_all-Holds, length-copy_all, Holds-copy_all}
use tzap.Prelude.Bytes.{AllBytes, length-to_le}
use tzap.Format.{Result, ok, reject_if, manifest_footer_len, invalid_authoritative_flag}
use tzap.Wire.Fields.{
  byte_at, expect_magic, expect_zero, read_u32, read_u64, read_array_16, read_array_32,
}
use tzap.Wire.Fields.Reads.{
  bytes_at, number_at, number_at-to_le, to_le-number_at, number_at-lt, bytes_at-IsArray,
  bytes_at-byte, byte_at-eq, byte_at-lt, most-passed, most_passes, zero_between, expect_len_same,
  expect_magic_same, expect_magic-passed, expect_zero-zeros,
}
use tzap.Wire.Fields.Checks.{run_checks, Passed, run_checks-Passed, run_checks_all, length_checked}
use tzap.Wire.ManifestFooter.{ManifestFooter, IsTyped, tzmf_magic, pieces, parse, to_bytes}

-- The structure that lies in a vector.
header_at : List ℕ → ManifestFooter
header_at bytes = record {
  archive_uuid = bytes_at 16 bytes 4;
  session_id = bytes_at 16 bytes 20;
  volume_index = number_at 4 bytes 36;
  is_authoritative = byte_at bytes 40;
  total_volumes = number_at 4 bytes 44;
  index_root_first_block = number_at 8 bytes 48;
  index_root_data_block_count = number_at 4 bytes 56;
  index_root_parity_block_count = number_at 4 bytes 60;
  index_root_encrypted_size = number_at 4 bytes 64;
  index_root_decompressed_size = number_at 4 bytes 68;
  manifest_hmac = bytes_at 32 bytes 104;
}

fits : (h : ManifestFooter) → IsTyped h → Fits 0 (pieces h) 136
fits h t = omega (arith, length-to_le)

header_at-IsTyped :
    (bytes : List ℕ) → length bytes ≡ 136 → AllBytes bytes → IsTyped (header_at bytes)
unfolding header_at
header_at-IsTyped bytes l b = record {
  archive_uuid = bytes_at-IsArray bytes 4 16 (omega arith) b;
  session_id = bytes_at-IsArray bytes 20 16 (omega arith) b;
  volume_index = number_at-lt bytes 36 4 (omega arith) b;
  is_authoritative = byte_at-lt bytes 40 b;
  total_volumes = number_at-lt bytes 44 4 (omega arith) b;
  index_root_first_block = number_at-lt bytes 48 8 (omega arith) b;
  index_root_data_block_count = number_at-lt bytes 56 4 (omega arith) b;
  index_root_parity_block_count = number_at-lt bytes 60 4 (omega arith) b;
  index_root_encrypted_size = number_at-lt bytes 64 4 (omega arith) b;
  index_root_decompressed_size = number_at-lt bytes 68 4 (omega arith) b;
  manifest_hmac = bytes_at-IsArray bytes 104 32 (omega arith) b;
}

checks : List ℕ → List (Result (Unit {0}))
checks bytes =
    expect_magic "ManifestFooter" tzmf_magic (slice bytes 0 4)
    ∷ expect_zero "ManifestFooter" (slice bytes 41 44)
    ∷ expect_zero "ManifestFooter" (slice bytes 72 104)
    ∷ reject_if (ltb 1 (byte_at bytes 40)) (invalid_authoritative_flag (byte_at bytes 40))
    ∷ []

parse_full :
    (bytes : List ℕ)
    → length bytes ≡ manifest_footer_len
    → parse bytes ≡ run_checks (checks bytes) (header_at bytes)
unfolding parse checks header_at read_array_16 read_array_32 read_u32 read_u64 number_at
parse_full bytes l = rw (l, expect_len_same)

full_length :
    (bytes : List ℕ) (h : ManifestFooter) → parse bytes ≡ ok h → length bytes ≡ manifest_footer_len
unfolding parse
full_length bytes h e = length_checked "ManifestFooter" manifest_footer_len (length bytes) _ e

-- Accepted bytes are those that the structure in them is written as.
read_back :
    (bytes : List ℕ) (h : ManifestFooter)
    → AllBytes bytes
    → parse bytes ≡ ok h
    → IsTyped h × (h.is_authoritative ≤ 1) × (bytes ≡ to_bytes h)
unfolding checks to_bytes header_at
read_back bytes h b e =
    let l = full_length bytes h e in
    let ((magic, (zero_a, (zero_b, (flag, _)))), same) =
      run_checks-Passed (checks bytes) (header_at bytes) h (sym (parse_full bytes l) ∙ e) in
    let m : bytes_at 4 bytes 0 ≡ tzmf_magic = expect_magic-passed _ _ _ magic in
    let holds : Holds bytes 0 (pieces (header_at bytes)) 136 = (
      refl,
      m,
      (
        refl,
        refl,
        (
          refl,
          refl,
          (
            refl,
            to_le-number_at bytes 36 4 (omega arith) b,
            (
              refl,
              bytes_at-byte bytes 40 (omega arith),
              (
                zero_between _ bytes 41 44 (omega arith) zero_a,
                to_le-number_at bytes 44 4 (omega arith) b,
                (
                  refl,
                  to_le-number_at bytes 48 8 (omega arith) b,
                  (
                    refl,
                    to_le-number_at bytes 56 4 (omega arith) b,
                    (
                      refl,
                      to_le-number_at bytes 60 4 (omega arith) b,
                      (
                        refl,
                        to_le-number_at bytes 64 4 (omega arith) b,
                        (
                          refl,
                          to_le-number_at bytes 68 4 (omega arith) b,
                          (zero_between _ bytes 72 104 (omega arith) zero_b, refl, refl),
                        ),
                      ),
                    ),
                  ),
                ),
              ),
            ),
          ),
        ),
      ),
    ) in
    rw same (
      header_at-IsTyped bytes l b,
      most-passed _ _ _ flag,
      Holds-copy_all bytes _ 136 l (fits (header_at bytes) (header_at-IsTyped bytes l b)) holds,
    )

-- What is written is read.
read_written :
    (bytes : List ℕ) (h : ManifestFooter)
    → IsTyped h
    → (h.is_authoritative ≤ 1)
    → bytes ≡ to_bytes h
    → parse bytes ≡ ok h
unfolding checks to_bytes header_at
read_written bytes h t auth e =
    let l : length bytes ≡ 136 = ap length e ∙ length-copy_all (pieces h) 136 (fits h t) in
    let held : Holds bytes 0 (pieces h) 136 = rw e (copy_all-Holds (pieces h) 136 (fits h t)) in
    let (
      _,
      m,
      (
        _,
        n4,
        (
          _,
          n20,
          (
            _,
            n36,
            (_, n40, (z41, n44, (_, n48, (_, n56, (_, n60, (_, n64, (_, n68, (z72, n104, _)))))))),
          ),
        ),
      ),
    ) =
      held in
    let same : header_at bytes ≡ h = λ i. record {
      archive_uuid = n4 i;
      session_id = n20 i;
      volume_index = number_at-to_le bytes 36 4 _ n36 t.volume_index i;
      is_authoritative = byte_at-eq bytes 40 _ n40 i;
      total_volumes = number_at-to_le bytes 44 4 _ n44 t.total_volumes i;
      index_root_first_block = number_at-to_le bytes 48 8 _ n48 t.index_root_first_block i;
      index_root_data_block_count =
          number_at-to_le bytes 56 4 _ n56 t.index_root_data_block_count i;
      index_root_parity_block_count =
          number_at-to_le bytes 60 4 _ n60 t.index_root_parity_block_count i;
      index_root_encrypted_size = number_at-to_le bytes 64 4 _ n64 t.index_root_encrypted_size i;
      index_root_decompressed_size =
          number_at-to_le bytes 68 4 _ n68 t.index_root_decompressed_size i;
      manifest_hmac = n104 i;
    } in
    let passed : Passed (checks bytes) = (
      rw m (expect_magic_same _ tzmf_magic),
      (
        rw z41 (expect_zero-zeros _ 3),
        (
          rw z72 (expect_zero-zeros _ 32),
          (most_passes _ _ _ (rw (byte_at-eq bytes 40 _ n40) auth), tt),
        ),
      ),
    ) in
    parse_full bytes l ∙ run_checks_all (checks bytes) (header_at bytes) passed ∙ ap ok same

-- A byte string is accepted as a manifest footer, and as which one, exactly when it is what
-- `to_bytes` writes for that footer, the fields are in range, and the authoritative flag is 0 or 1.
pub manifest_footer_iff :
    (bytes : List ℕ) (h : ManifestFooter)
    → AllBytes bytes
    → (parse bytes ≡ ok h) ↔ (IsTyped h × (h.is_authoritative ≤ 1) × (bytes ≡ to_bytes h))
manifest_footer_iff bytes h b = (read_back bytes h b, λ (t, auth, e). read_written bytes h t auth e)
