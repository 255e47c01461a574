-- ===== src/Wire/CryptoHeaderFixed/Codec.antt =====
-- Fixed crypto headers are read back as they were written, and only what is written is read.
use tzap.Prelude.{
  ℕ, ◌+◌, ◌≤◌, ◌≡◌, refl, sym, ap, ◌∙◌, ◌↔◌, List, [], ◌∷◌, arith, length, not, ltb, ◌==◌, inl, inr,
}
use mathlib.Core.Path.{subst}
use tzap.Prelude.Slices.{slice, Holds, Fits, copy_all-Holds, Holds-copy_all, length-copy_all}
use tzap.Prelude.Bytes.{AllBytes, length-to_le, to_le}
use tzap.Format.{
  Result, ok, ◌>>=◌, ◌>>◌, reject_if, Result-cases, crypto_header_fixed_len,
  crypto_header_length_mismatch, reader_resource_limit_exceeded, reader_max_crypto_header_len,
  ok-injective, CompressionAlgo, AeadAlgo, FecAlgo, KdfAlgo, compression_of_id, aead_of_id,
  fec_of_id, kdf_of_id, compression_id, aead_id, fec_id, kdf_id, compression_of_id-compression_id,
  aead_of_id-aead_id, fec_of_id-fec_id, kdf_of_id-kdf_id, compression_id-compression_of_id,
  aead_id-aead_of_id, fec_id-fec_of_id, kdf_id-kdf_of_id, compression_id-lt, aead_id-lt, fec_id-lt,
  kdf_id-lt,
}
use tzap.Wire.Fields.{expect_magic, expect_zero, read_u16, read_u32, read_u64, byte_at}
use tzap.Wire.Fields.Reads.{
  bytes_at, number_at, number_at-to_le, to_le-number_at, number_at-lt, byte_at-lt, byte_at-eq,
  bytes_at-byte, zero_between, expect_len_same, expect_magic_same, expect_magic-passed,
  expect_zero-zeros, same-passed, same_passes, most-passed, most_passes,
}
use tzap.Wire.Fields.Checks.{run_then, Passed, run_then-Passed, run_then_all, length_checked}
use tzap.Wire.CryptoHeaderFixed.{
  CryptoHeaderFixed, IsTyped, tzch_magic, validate_supported_profile, pieces, parse, to_bytes,
}

-- The four algorithms that a header names.
record Algos : Type 0 where
  compression_algo : CompressionAlgo
  aead_algo : AeadAlgo
  fec_algo : FecAlgo
  kdf_algo : KdfAlgo

abbrev algos_of : CryptoHeaderFixed → Algos
algos_of h = record {
  compression_algo = h.compression_algo;
  aead_algo = h.aead_algo;
  fec_algo = h.fec_algo;
  kdf_algo = h.kdf_algo;
}

-- The bytes name these algorithms.
unfoldable Names : List ℕ → Algos → Type 0
Names bytes s =
    (compression_id s.compression_algo ≡ number_at 2 bytes 8)
    × (aead_id s.aead_algo ≡ number_at 2 bytes 10)
    × (fec_id s.fec_algo ≡ number_at 2 bytes 12)
    × (kdf_id s.kdf_algo ≡ number_at 2 bytes 14)

-- The header that lies in a vector, with its algorithms.
header_at : List ℕ → Algos → CryptoHeaderFixed
header_at bytes algos = record {
  header_length = number_at 4 bytes 4;
  compression_algo = algos.compression_algo;
  aead_algo = algos.aead_algo;
  fec_algo = algos.fec_algo;
  kdf_algo = algos.kdf_algo;
  chunk_size = number_at 4 bytes 16;
  envelope_target_size = number_at 4 bytes 20;
  block_size = number_at 4 bytes 24;
  fec_data_shards = number_at 2 bytes 28;
  fec_parity_shards = number_at 2 bytes 30;
  index_fec_data_shards = number_at 2 bytes 32;
  index_fec_parity_shards = number_at 2 bytes 34;
  index_root_fec_data_shards = number_at 2 bytes 36;
  index_root_fec_parity_shards = number_at 2 bytes 38;
  stripe_width = number_at 4 bytes 40;
  volume_loss_tolerance = byte_at bytes 44;
  bit_rot_buffer_pct = byte_at bytes 45;
  has_dictionary = byte_at bytes 46;
  max_path_length = number_at 4 bytes 48;
  expected_volume_size = number_at 8 bytes 52;
}

fits : (h : CryptoHeaderFixed) → Fits 0 (pieces h) 76
fits h = omega (arith, length-to_le)

front : List ℕ → ℕ → List (Result (Unit {0}))
front bytes len =
    expect_magic "CryptoHeaderFixed" tzch_magic (slice bytes 0 4)
    ∷ expect_zero "CryptoHeaderFixed" (slice bytes 47 48)
    ∷ expect_zero "CryptoHeaderFixed" (slice bytes 60 76)
    ∷ reject_if (not (number_at 4 bytes 4 == len))
        (crypto_header_length_mismatch (number_at 4 bytes 4) len)
    ∷ reject_if (ltb reader_max_crypto_header_len (number_at 4 bytes 4)) (
        reader_resource_limit_exceeded "CryptoHeader length" reader_max_crypto_header_len
          (number_at 4 bytes 4))
    ∷ []

-- What comes after the first checks.
rest : List ℕ → Result CryptoHeaderFixed
rest bytes = do
  c ← compression_of_id (number_at 2 bytes 8)
  a ← aead_of_id (number_at 2 bytes 10)
  f ← fec_of_id (number_at 2 bytes 12)
  k ← kdf_of_id (number_at 2 bytes 14)
  let header =
      header_at bytes (record { compression_algo = c; aead_algo = a; fec_algo = f; kdf_algo = k })
  validate_supported_profile header
  ok header

-- What a header read this way is.
Read : List ℕ → CryptoHeaderFixed → Type 0
Read bytes h =
    Names bytes (algos_of h)
    × (validate_supported_profile h ≡ ok tt)
    × (header_at bytes (algos_of h) ≡ h)

valid_or_err :
    (h g : CryptoHeaderFixed)
    → (validate_supported_profile h >> ok h) ≡ ok g
    → (validate_supported_profile h ≡ ok tt) × (h ≡ g)
valid_or_err h g e = elim (Result-cases (validate_supported_profile h)) [
  | inl (tt, v) ↦ (v, ok-injective (rw v at e))
  | inr (x, v) ↦ absurd (cc (rw v at e))
]

rest-Read : (bytes : List ℕ) (h : CryptoHeaderFixed) → rest bytes ≡ ok h → Read bytes h
unfolding rest Names Read header_at
rest-Read bytes h r = elim (Result-cases (compression_of_id (number_at 2 bytes 8))) [
  | inr (x, e) ↦ absurd (cc (rw e at r))
  | inl (c, e) ↦ elim (Result-cases (aead_of_id (number_at 2 bytes 10))) [
    | inr (x, f) ↦ absurd (cc (rw (e, f) at r))
    | inl (a, f) ↦ elim (Result-cases (fec_of_id (number_at 2 bytes 12))) [
      | inr (x, g) ↦ absurd (cc (rw (e, f, g) at r))
      | inl (d, g) ↦ elim (Result-cases (kdf_of_id (number_at 2 bytes 14))) [
        | inr (x, k) ↦ absurd (cc (rw (e, f, g, k) at r))
        | inl (b, k) ↦
            let (v, s) = valid_or_err _ h (rw (e, f, g, k) at r) in
            subst (Read bytes) s (
              (
                compression_id-compression_of_id _ c e,
                aead_id-aead_of_id _ a f,
                fec_id-fec_of_id _ d g,
                kdf_id-kdf_of_id _ b k,
              ),
              v,
              refl,
            )
      ]
    ]
  ]
]

rest_of : (bytes : List ℕ) (h : CryptoHeaderFixed) → Read bytes h → rest bytes ≡ ok h
unfolding rest Names Read
rest_of bytes h ((c, a, f, k), v, s) =
    let step : rest bytes ≡ (
        validate_supported_profile (header_at bytes (algos_of h))
        >> ok (header_at bytes (algos_of h))) =
      rw (
        sym c,
        sym a,
        sym f,
        sym k,
        compression_of_id-compression_id h.compression_algo,
        aead_of_id-aead_id h.aead_algo,
        fec_of_id-fec_id h.fec_algo,
        kdf_of_id-kdf_id h.kdf_algo,
      ) in
    step ∙ ap (λ g. validate_supported_profile g >> ok g) s ∙ rw v

parse_full :
    (bytes : List ℕ) (len : ℕ)
    → length bytes ≡ crypto_header_fixed_len
    → parse bytes len ≡ run_then (front bytes len) (rest bytes)
unfolding parse front rest header_at read_u16 read_u32 read_u64 number_at
parse_full bytes len l = rw (l, expect_len_same)

full_length :
    (bytes : List ℕ) (len : ℕ) (h : CryptoHeaderFixed)
    → parse bytes len ≡ ok h
    → length bytes ≡ crypto_header_fixed_len
unfolding parse
full_length bytes len h e =
    length_checked "CryptoHeaderFixed" crypto_header_fixed_len (length bytes) _ e

-- The bytes of an accepted header are those that its header is written as.
read_back :
    (bytes : List ℕ) (len : ℕ) (h : CryptoHeaderFixed)
    → AllBytes bytes
    → parse bytes len ≡ ok h
    → IsTyped h
      × (h.header_length ≡ len)
      × (len ≤ reader_max_crypto_header_len)
      × (validate_supported_profile h ≡ ok tt)
      × (bytes ≡ to_bytes h)
unfolding front to_bytes header_at Names Read
read_back bytes len h b e =
    let l = full_length bytes len h e in
    let ((magic, (zero_47, (zero_60, (size, (limit, _))))), r) =
      run_then-Passed (front bytes len) (rest bytes) h (sym (parse_full bytes len l) ∙ e) in
    let ((compression_number, aead_number, fec_number, kdf_number), valid, same) =
      rest-Read bytes h r in
    let m : bytes_at 4 bytes 0 ≡ tzch_magic = expect_magic-passed _ _ _ magic in
    let algos = algos_of h in
    let typed : IsTyped (header_at bytes algos) = record {
      header_length = number_at-lt bytes 4 4 (omega arith) b;
      chunk_size = number_at-lt bytes 16 4 (omega arith) b;
      envelope_target_size = number_at-lt bytes 20 4 (omega arith) b;
      block_size = number_at-lt bytes 24 4 (omega arith) b;
      fec_data_shards = number_at-lt bytes 28 2 (omega arith) b;
      fec_parity_shards = number_at-lt bytes 30 2 (omega arith) b;
      index_fec_data_shards = number_at-lt bytes 32 2 (omega arith) b;
      index_fec_parity_shards = number_at-lt bytes 34 2 (omega arith) b;
      index_root_fec_data_shards = number_at-lt bytes 36 2 (omega arith) b;
      index_root_fec_parity_shards = number_at-lt bytes 38 2 (omega arith) b;
      stripe_width = number_at-lt bytes 40 4 (omega arith) b;
      volume_loss_tolerance = byte_at-lt bytes 44 b;
      bit_rot_buffer_pct = byte_at-lt bytes 45 b;
      has_dictionary = byte_at-lt bytes 46 b;
      max_path_length = number_at-lt bytes 48 4 (omega arith) b;
      expected_volume_size = number_at-lt bytes 52 8 (omega arith) b;
    } in
    let num = λ (o n : ℕ) (p : o + n ≤ length bytes). to_le-number_at bytes o n p b in
    let holds : Holds bytes 0 (pieces (header_at bytes algos)) 76 = (
      refl,
      m,
      (
        refl,
        num 4 4 (omega arith),
        (
          refl,
          num 8 2 (omega arith) ∙ ap (to_le 2) (sym (compression_number)),
          (
            refl,
            num 10 2 (omega arith) ∙ ap (to_le 2) (sym (aead_number)),
            (
              refl,
              num 12 2 (omega arith) ∙ ap (to_le 2) (sym (fec_number)),
              (
                refl,
                num 14 2 (omega arith) ∙ ap (to_le 2) (sym (kdf_number)),
                (
                  refl,
                  num 16 4 (omega arith),
                  (
                    refl,
                    num 20 4 (omega arith),
                    (
                      refl,
                      num 24 4 (omega arith),
                      (
                        refl,
                        num 28 2 (omega arith),
                        (
                          refl,
                          num 30 2 (omega arith),
                          (
                            refl,
                            num 32 2 (omega arith),
                            (
                              refl,
                              num 34 2 (omega arith),
                              (
                                refl,
                                num 36 2 (omega arith),
                                (
                                  refl,
                                  num 38 2 (omega arith),
                                  (
                                    refl,
                                    num 40 4 (omega arith),
                                    (
                                      refl,
                                      bytes_at-byte bytes 44 (omega arith),
                                      (
                                        refl,
                                        bytes_at-byte bytes 45 (omega arith),
                                        (
                                          refl,
                                          bytes_at-byte bytes 46 (omega arith),
                                          (
                                            zero_between _ bytes 47 48 (omega arith) zero_47,
                                            num 48 4 (omega arith),
                                            (
                                              refl,
                                              num 52 8 (omega arith),
                                              zero_between _ bytes 60 76 (omega arith) zero_60,
                                            ),
                                          ),
                                        ),
                                      ),
                                    ),
                                  ),
                                ),
                              ),
                            ),
                          ),
                        ),
                      ),
                    ),
                  ),
                ),
              ),
            ),
          ),
        ),
      ),
    ) in
    let s = same-passed (number_at 4 bytes 4) len _ size in
    (
      subst IsTyped same typed,
      ap (λ g. g.header_length) (sym same) ∙ s,
      subst (λ n. n ≤ reader_max_crypto_header_len) s (most-passed _ _ _ limit),
      valid,
      Holds-copy_all bytes (pieces (header_at bytes algos)) 76 l (fits (header_at bytes algos))
            holds
          ∙ ap to_bytes same,
    )

-- What is written is read.
read_written :
    (bytes : List ℕ) (len : ℕ) (h : CryptoHeaderFixed)
    → IsTyped h
    → h.header_length ≡ len
    → len ≤ reader_max_crypto_header_len
    → validate_supported_profile h ≡ ok tt
    → bytes ≡ to_bytes h
    → parse bytes len ≡ ok h
unfolding front to_bytes header_at Names Read
read_written bytes len h t s limit v e =
    let l : length bytes ≡ 76 = ap length e ∙ length-copy_all (pieces h) 76 (fits h) in
    let held : Holds bytes 0 (pieces h) 76 =
      subst (λ x. Holds x 0 (pieces h) 76) (sym e) (copy_all-Holds (pieces h) 76 (fits h)) in
    let (
      _,
      m,
      (
        _,
        n4,
        (
          _,
          n8,
          (
            _,
            n10,
            (
              _,
              n12,
              (
                _,
                n14,
                (
                  _,
                  n16,
                  (
                    _,
                    n20,
                    (
                      _,
                      n24,
                      (
                        _,
                        n28,
                        (
                          _,
                          n30,
                          (
                            _,
                            n32,
                            (
                              _,
                              n34,
                              (
                                _,
                                n36,
                                (
                                  _,
                                  n38,
                                  (_, n40, (_, n44, (_, n45, (_, n46, (z47, n48, (_, n52, z60)))))),
                                ),
                              ),
                            ),
                          ),
                        ),
                      ),
                    ),
                  ),
                ),
              ),
            ),
          ),
        ),
      ),
    ) =
      held in
    let size : number_at 4 bytes 4 ≡ len = number_at-to_le bytes 4 4 _ n4 t.header_length ∙ s in
    let named : Names bytes (algos_of h) = (
      sym (number_at-to_le bytes 8 2 _ n8 (compression_id-lt h.compression_algo)),
      sym (number_at-to_le bytes 10 2 _ n10 (aead_id-lt h.aead_algo)),
      sym (number_at-to_le bytes 12 2 _ n12 (fec_id-lt h.fec_algo)),
      sym (number_at-to_le bytes 14 2 _ n14 (kdf_id-lt h.kdf_algo)),
    ) in
    let same : header_at bytes (algos_of h) ≡ h = λ i. record {
      header_length = number_at-to_le bytes 4 4 _ n4 t.header_length i;
      compression_algo = h.compression_algo;
      aead_algo = h.aead_algo;
      fec_algo = h.fec_algo;
      kdf_algo = h.kdf_algo;
      chunk_size = number_at-to_le bytes 16 4 _ n16 t.chunk_size i;
      envelope_target_size = number_at-to_le bytes 20 4 _ n20 t.envelope_target_size i;
      block_size = number_at-to_le bytes 24 4 _ n24 t.block_size i;
      fec_data_shards = number_at-to_le bytes 28 2 _ n28 t.fec_data_shards i;
      fec_parity_shards = number_at-to_le bytes 30 2 _ n30 t.fec_parity_shards i;
      index_fec_data_shards = number_at-to_le bytes 32 2 _ n32 t.index_fec_data_shards i;
      index_fec_parity_shards = number_at-to_le bytes 34 2 _ n34 t.index_fec_parity_shards i;
      index_root_fec_data_shards = number_at-to_le bytes 36 2 _ n36 t.index_root_fec_data_shards i;
      index_root_fec_parity_shards =
          number_at-to_le bytes 38 2 _ n38 t.index_root_fec_parity_shards i;
      stripe_width = number_at-to_le bytes 40 4 _ n40 t.stripe_width i;
      volume_loss_tolerance = byte_at-eq bytes 44 _ n44 i;
      bit_rot_buffer_pct = byte_at-eq bytes 45 _ n45 i;
      has_dictionary = byte_at-eq bytes 46 _ n46 i;
      max_path_length = number_at-to_le bytes 48 4 _ n48 t.max_path_length i;
      expected_volume_size = number_at-to_le bytes 52 8 _ n52 t.expected_volume_size i;
    } in
    let passed : Passed (front bytes len) = (
      rw m (expect_magic_same _ tzch_magic),
      (
        rw z47 (expect_zero-zeros _ 1),
        (
          rw z60 (expect_zero-zeros _ 16),
          (
            same_passes _ _ _ size,
            (
              most_passes _ _ _ (subst (λ n. n ≤ reader_max_crypto_header_len) (sym size) limit),
              tt,
            ),
          ),
        ),
      ),
    ) in
    parse_full bytes len l
    ∙ run_then_all (front bytes len) (rest bytes) passed
    ∙ rest_of bytes h (named, v, same)

-- Bytes are accepted as a fixed crypto header for a length that the volume header declares, and
-- as which one, exactly when they are what `to_bytes` writes for that header, its fields are in
-- range, its length is the declared one and at most 64 KiB, and its profile is supported.
pub crypto_header_iff :
    (bytes : List ℕ) (len : ℕ) (h : CryptoHeaderFixed)
    → AllBytes bytes
    → (parse bytes len ≡ ok h) ↔ (
        IsTyped h
        × (h.header_length ≡ len)
        × (len ≤ reader_max_crypto_header_len)
        × (validate_supported_profile h ≡ ok tt)
        × (bytes ≡ to_bytes h))
crypto_header_iff bytes len h b =
    (read_back bytes len h b, λ (t, s, m, v, e). read_written bytes len h t s m v e)
