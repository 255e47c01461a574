-- ===== src/Wire/CriticalMetadataRecoveryShard/Codec.antt =====
-- Recovery shards are read back as they were written, and only what is written is read.
use tzap.Prelude.{
  ℕ, ◌+◌, ◌-◌, ◌^◌, ◌≤◌, ◌<◌, ◌≡◌, refl, sym, ap, ◌∙◌, ◌↔◌, List, [], ◌∷◌, ◌++◌, arith, length,
  take, drop, append-nil, length-drop, not, ltb, ◌==◌, take_all, true,
}
use mathlib.Core.Path.{subst}
use tzap.Prelude.Slices.{
  Piece, slice, zeros, copy_at, Holds, Fits, render, render-Holds, Holds-render, length-render,
  copy_all-eq-render,
}
use tzap.Prelude.Bytes.{AllBytes, length-to_le, to_le}
use tzap.Format.{Result, ok, reject_if, ok-injective, invalid_archive, non_zero_reserved, usize_mod}
use tzap.Wire.Fields.{
  expect_magic, expect_crc, write_u8, write_u16, write_u32, byte_at, IsU16, IsU32,
}
use tzap.Wire.Fields.Reads.{
  bytes_at, number_at, number_at-to_le, to_le-number_at, number_at-lt, byte_at-eq, bytes_at-byte,
  expect_len_same, expect_magic_same, expect_magic-passed, expect_crc_same, expect_crc-passed,
  read_u16_inside, read_u32_inside, same-passed, same_passes, most-passed, most_passes,
}
use tzap.Wire.Fields.Checks.{run_checks, Passed, run_checks-Passed, run_checks_all, length_checked}
use tzap.Wire.CriticalMetadataRecoveryShard.{
  CriticalMetadataRecoveryShard, tzcs_magic, pieces, parse, to_bytes,
}

-- The fields are in range, the role is one of two, and the payload has the size of the shard, of
-- which it says how much is in use.
pub record IsValid (s : CriticalMetadataRecoveryShard) (size : ℕ) : Type 0 where
  pub shard_index : IsU16 s.shard_index
  pub shard_role : s.shard_role ≤ 1
  pub shard_payload_length : IsU32 s.shard_payload_length
  pub used : s.shard_payload_length ≤ size
  pub payload : length s.payload ≡ size

-- The shard with its checksum, piece by piece.
all_pieces : CriticalMetadataRecoveryShard → ℕ → List Piece
all_pieces s size =
    (0, 4, tzcs_magic)
    ∷ write_u16 4 s.shard_index
    ∷ write_u8 6 s.shard_role
    ∷ write_u32 8 s.shard_payload_length
    ∷ write_u32 12 s.shard_crc32c
    ∷ (16, size, s.payload)
    ∷ []

laid_out :
    (s : CriticalMetadataRecoveryShard) (size : ℕ)
    → length s.payload ≡ size
    → Fits 0 (all_pieces s size) (16 + size)
unfolding all_pieces
laid_out s size l = omega (arith, length-to_le)

fits :
    (s : CriticalMetadataRecoveryShard) (size : ℕ)
    → length s.payload ≡ size
    → Fits 0 (pieces s size) (16 + size)
fits s size l = omega (arith, length-to_le)

-- The twelve bytes before the checksum.
head : CriticalMetadataRecoveryShard → List ℕ
head s =
    tzcs_magic ++ (to_le 2 s.shard_index ++ (s.shard_role ∷ 0 ∷ to_le 4 s.shard_payload_length))

all_rendered :
    (s : CriticalMetadataRecoveryShard) (size : ℕ)
    → render 0 (all_pieces s size) (16 + size) ≡ head s ++ (to_le 4 s.shard_crc32c ++ s.payload)
unfolding render all_pieces head to_le
all_rendered s size =
    let e : 16 + size - (16 + size) ≡ 0 = omega arith in rw (e, append-nil s.payload)

module _ (crc32c : List ℕ → ℕ) where
  covered_crc : CriticalMetadataRecoveryShard → ℕ
  covered_crc s = crc32c (head s ++ s.payload)

  written :
      (s : CriticalMetadataRecoveryShard) (size : ℕ)
      → length s.payload ≡ size
      → to_bytes crc32c s size ≡ ok (head s ++ (to_le 4 (covered_crc s) ++ s.payload))
  unfolding to_bytes render head to_le copy_at covered_crc
  written s size l =
      let e : 16 + size - (16 + size) ≡ 0 = omega arith in
      let p : reject_if (not (length s.payload == size))
            (invalid_archive "CriticalMetadataRecoveryShard payload length mismatch")
          ≡ ok tt =
        same_passes _ _ _ l in
      rw (p, copy_all-eq-render (pieces s size) (16 + size) (fits s size l))
        (rw (e, append-nil s.payload))

  shard_at : List ℕ → CriticalMetadataRecoveryShard
  shard_at bytes = record {
    shard_index = number_at 2 bytes 4;
    shard_role = byte_at bytes 6;
    shard_payload_length = number_at 4 bytes 8;
    payload = drop 16 bytes;
    shard_crc32c = number_at 4 bytes 12;
  }

  checks : List ℕ → ℕ → List (Result (Unit {0}))
  checks bytes size =
      expect_magic "CriticalMetadataRecoveryShard" tzcs_magic (slice bytes 0 4)
      ∷ reject_if (not (byte_at bytes 7 == 0)) (non_zero_reserved "CriticalMetadataRecoveryShard")
      ∷ reject_if (ltb 1 (byte_at bytes 6))
          (invalid_archive "CriticalMetadataRecoveryShard has unknown role")
      ∷ expect_crc crc32c "CriticalMetadataRecoveryShard" (take 12 bytes ++ drop 16 bytes)
          (number_at 4 bytes 12)
      ∷ reject_if (ltb size (number_at 4 bytes 8))
          (invalid_archive "CriticalMetadataRecoveryShard payload length exceeds shard size")
      ∷ []

  module _ (bytes : List ℕ) (size : ℕ) (room : 16 + size < usize_mod) where
    parse_full :
        length bytes ≡ 16 + size
        → parse crc32c bytes size ≡ run_checks (checks bytes size) (shard_at bytes)
    unfolding parse checks shard_at
    parse_full l =
        let fits_word : ltb (16 + size) usize_mod ≡ true = ground arith in
        rw (
          fits_word,
          read_u32_inside bytes 12 (omega arith),
          read_u32_inside bytes 8 (omega arith),
          read_u16_inside bytes 4 (omega arith),
          l,
          expect_len_same,
        )

    full_length :
        (s : CriticalMetadataRecoveryShard)
        → parse crc32c bytes size ≡ ok s
        → length bytes ≡ 16 + size
    unfolding parse
    full_length s e =
        let fits_word : ltb (16 + size) usize_mod ≡ true = ground arith in
        length_checked "CriticalMetadataRecoveryShard" (16 + size) (length bytes) _
          (rw fits_word at e)

    -- The bytes of an accepted shard are those that it is written as.
    read_back :
        (s : CriticalMetadataRecoveryShard)
        → AllBytes bytes
        → parse crc32c bytes size ≡ ok s
        → IsValid s size
          × (to_bytes crc32c s size ≡ ok bytes)
          × (s.shard_crc32c ≡ crc32c (take 12 bytes ++ drop 16 bytes))
    unfolding checks shard_at all_pieces covered_crc head to_le
    read_back s b e =
        let l = full_length s e in
        let ((magic, (zero, (role, (crc, (used, _))))), same) =
          run_checks-Passed (checks bytes size) (shard_at bytes) s (sym (parse_full l) ∙ e) in
        let m : bytes_at 4 bytes 0 ≡ tzcs_magic = expect_magic-passed _ _ _ magic in
        let num = λ (o n : ℕ) (p : o + n ≤ length bytes). to_le-number_at bytes o n p b in
        let a = shard_at bytes in
        let payload : length (drop 16 bytes) ≡ size = omega (arith, length-drop 16 bytes) in
        let gap : slice bytes 7 8 ≡ zeros 1 =
          bytes_at-byte bytes 7 (omega arith)
          ∙ ap (λ x. x ∷ []) (same-passed (byte_at bytes 7) 0 _ zero) in
        let end : 16 + size - (16 + size) ≡ 0 = omega arith in
        let holds : Holds bytes 0 (all_pieces a size) (16 + size) = (
          refl,
          m,
          (
            refl,
            num 4 2 (omega arith),
            (
              refl,
              bytes_at-byte bytes 6 (omega arith),
              (
                gap,
                num 8 4 (omega arith),
                (
                  refl,
                  num 12 4 (omega arith),
                  (refl, take_all size (drop 16 bytes) (omega arith), rw end),
                ),
              ),
            ),
          ),
        ) in
        let whole : bytes ≡ head a ++ (to_le 4 a.shard_crc32c ++ a.payload) =
          Holds-render bytes 0 (all_pieces a size) (16 + size) l (laid_out a size payload) holds
          ∙ all_rendered a size in
        let front : take 12 bytes ≡ head a = ap (take 12) whole in
        let c : crc32c (take 12 bytes ++ drop 16 bytes) ≡ number_at 4 bytes 12 =
          expect_crc-passed crc32c _ _ _ crc in
        let seal : covered_crc a ≡ a.shard_crc32c =
          ap (λ x. crc32c (x ++ drop 16 bytes)) (sym front) ∙ c in
        let result : IsValid a size
            × (to_bytes crc32c a size ≡ ok bytes)
            × (a.shard_crc32c ≡ crc32c (take 12 bytes ++ drop 16 bytes)) =
          (
            record {
              shard_index = number_at-lt bytes 4 2 (omega arith) b;
              shard_role = most-passed _ _ _ role;
              shard_payload_length = number_at-lt bytes 8 4 (omega arith) b;
              used = most-passed _ _ _ used;
              payload = payload;
            },
            written a size payload
                ∙ ap (λ x. ok (head a ++ (to_le 4 x ++ a.payload))) seal
                ∙ ap ok (sym whole),
            sym c,
          ) in
        subst
          (λ x.
            IsValid x size
            × (to_bytes crc32c x size ≡ ok bytes)
            × (x.shard_crc32c ≡ crc32c (take 12 bytes ++ drop 16 bytes)))
          (sym same) result

    module _ (crc_fits : (covered : List ℕ) → crc32c covered < 2 ^ 32) where
      -- What is written is read.
      read_written :
          (s : CriticalMetadataRecoveryShard)
          → IsValid s size
          → to_bytes crc32c s size ≡ ok bytes
          → s.shard_crc32c ≡ crc32c (take 12 bytes ++ drop 16 bytes)
          → parse crc32c bytes size ≡ ok s
      unfolding checks shard_at all_pieces covered_crc head to_le
      read_written s v e c =
          let laid : bytes ≡ head s ++ (to_le 4 (covered_crc s) ++ s.payload) =
            ok-injective (sym e ∙ written s size v.payload) in
          let seal : covered_crc s ≡ s.shard_crc32c =
            sym (c ∙ ap (λ x. crc32c (take 12 x ++ drop 16 x)) laid) in
          let whole : bytes ≡ render 0 (all_pieces s size) (16 + size) =
            laid ∙ ap (λ x. head s ++ (to_le 4 x ++ s.payload)) seal ∙ sym (all_rendered s size) in
          let l : length bytes ≡ 16 + size =
            ap length whole
            ∙ omega (
              arith,
              length-render 0 (all_pieces s size) (16 + size) (laid_out s size v.payload),
            ) in
          let held : Holds bytes 0 (all_pieces s size) (16 + size) =
            subst (λ x. Holds x 0 (all_pieces s size) (16 + size)) (sym whole)
              (render-Holds [] 0 (all_pieces s size) (16 + size) refl
                (laid_out s size v.payload)) in
          let (_, m, (_, n4, (_, n6, (z7, n8, (_, n12, (_, n16, _)))))) = held in
          let index : number_at 2 bytes 4 ≡ s.shard_index =
            number_at-to_le bytes 4 2 _ n4 v.shard_index in
          let role : byte_at bytes 6 ≡ s.shard_role = byte_at-eq bytes 6 _ n6 in
          let used : number_at 4 bytes 8 ≡ s.shard_payload_length =
            number_at-to_le bytes 8 4 _ n8 v.shard_payload_length in
          let crc : number_at 4 bytes 12 ≡ s.shard_crc32c =
            number_at-to_le bytes 12 4 _ n12 (rw c (crc_fits (take 12 bytes ++ drop 16 bytes))) in
          let payload : drop 16 bytes ≡ s.payload =
            sym (take_all size (drop 16 bytes) (omega (arith, length-drop 16 bytes))) ∙ n16 in
          let same : shard_at bytes ≡ s = λ i. record {
            shard_index = index i;
            shard_role = role i;
            shard_payload_length = used i;
            payload = payload i;
            shard_crc32c = crc i;
          } in
          let passed : Passed (checks bytes size) = (
            rw m (expect_magic_same _ tzcs_magic),
            (
              same_passes _ _ _ (byte_at-eq bytes 7 0 z7),
              (
                most_passes _ _ _ (subst (λ x. x ≤ 1) (sym role) v.shard_role),
                (
                  ap
                        (expect_crc crc32c "CriticalMetadataRecoveryShard"
                          (take 12 bytes ++ drop 16 bytes))
                        (crc ∙ c)
                      ∙ expect_crc_same crc32c _ (take 12 bytes ++ drop 16 bytes),
                  (most_passes _ _ _ (subst (λ x. x ≤ size) (sym used) v.used), tt),
                ),
              ),
            ),
          ) in
          parse_full l ∙ run_checks_all (checks bytes size) (shard_at bytes) passed ∙ ap ok same

      -- Bytes are accepted as a recovery shard of a size that fits in memory, and as which one,
      -- exactly when `to_bytes` writes them for that shard, its fields are in range, its role is 0
      -- or 1, its payload has the size and uses no more than that, and its checksum is that of all
      -- but the checksum.
      pub recovery_shard_iff :
          (s : CriticalMetadataRecoveryShard)
          → AllBytes bytes
          → (parse crc32c bytes size ≡ ok s) ↔ (
              IsValid s size
              × (to_bytes crc32c s size ≡ ok bytes)
              × (s.shard_crc32c ≡ crc32c (take 12 bytes ++ drop 16 bytes)))
      recovery_shard_iff s b = (read_back s b, λ (v, e, c). read_written s v e c)
