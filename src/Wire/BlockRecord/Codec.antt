-- ===== src/Wire/BlockRecord/Codec.antt =====
-- Block records are read back as they were written, and only what is written is read.
use Prim.Native.Nat.{bit_and}
use tzap.Prelude.{
  ℕ, ◌+◌, ◌-◌, ◌^◌, ◌≤◌, ◌<◌, ◌≡◌, refl, sym, ap, ◌∙◌, ◌↔◌, List, [], ◌∷◌, ◌++◌, arith, length,
  take, drop, take-append, length-append, length-take, length-drop, append-nil, append_assoc, inl,
  inr, false, not, ◌==◌, ◌&&◌,
}
use mathlib.Core.Path.{subst}
use tzap.Prelude.Slices.{
  Piece, slice, zeros, Holds, Fits, render, render-Holds, Holds-render, length-render,
}
use tzap.Prelude.Bytes.{AllBytes, length-to_le, to_le}
use tzap.Format.{
  BlockKind, block_kind_id, block_kind_of_id, block_kind_of_id-block_kind_id,
  block_kind_id-block_kind_of_id, is_parity, Result, ok, ◌>>=◌, reject_if, reject_if-passed,
  Result-cases, ok-injective, invalid_block_flags, parity_block_has_last_data_flag,
  block_record_framing_len,
}
use tzap.Wire.Fields.{
  expect_magic, expect_zero, expect_crc, write_u8, write_u32, write_u64, byte_at, IsU8, IsU64,
}
use tzap.Wire.Fields.Reads.{
  bytes_at, number_at, number_at-to_le, to_le-number_at, number_at-lt, byte_at-lt, byte_at-eq,
  bytes_at-byte, zero_between, expect_len_same, expect_magic_same, expect_magic-passed,
  expect_zero-zeros, expect_crc_same, expect_crc-passed, read_u32_inside, read_u64_inside,
  same-passed, same_passes,
}
use tzap.Wire.Fields.Checks.{run_then, Passed, run_then-Passed, run_then_all, length_checked}
use tzap.Wire.BlockRecord.{
  BlockRecord, tzbk_magic, block_reserved_flags, block_last_data_flag, is_last_data, unsealed,
  parse, to_bytes, to_bytes_from_parts,
}

-- The fields are in range, and the flags suit the kind of the block.
pub record IsValid (r : BlockRecord) : Type 0 where
  pub block_index : IsU64 r.block_index
  pub flags : IsU8 r.flags
  pub reserved : bit_and r.flags block_reserved_flags ≡ 0
  pub parity : (is_parity r.kind && is_last_data r) ≡ false

-- The record piece by piece.
pieces : BlockRecord → ℕ → List Piece
pieces r size =
    (0, 4, tzbk_magic)
    ∷ write_u64 4 r.block_index
    ∷ write_u8 12 (block_kind_id r.kind)
    ∷ write_u8 13 r.flags
    ∷ (16, size, r.payload)
    ∷ write_u32 (16 + size) r.record_crc32c
    ∷ []

fits : (r : BlockRecord) (size : ℕ) → length r.payload ≡ size → Fits 0 (pieces r size) (size + 20)
unfolding pieces
fits r size l = omega (arith, length-to_le)

front : BlockRecord → List ℕ
front r = unsealed r.block_index r.kind r.flags r.payload

length-front : (r : BlockRecord) (size : ℕ) → length r.payload ≡ size → length (front r) ≡ 16 + size
unfolding front
length-front r size l = omega (
  arith,
  length-append (to_le 8 r.block_index) (block_kind_id r.kind ∷ r.flags ∷ (zeros 2 ++ r.payload)),
  length-to_le 8 r.block_index,
)

rendered :
    (r : BlockRecord) (size : ℕ)
    → render 0 (pieces r size) (size + 20) ≡ front r ++ to_le 4 r.record_crc32c
unfolding render pieces front
rendered r size =
    let a : 16 + size - (16 + size) ≡ 0 = omega arith in
    let b : size + 20 - (16 + size + 4) ≡ 0 = omega arith in
    rw (a, b) (simp (append_assoc, append-nil))

record_at : List ℕ → ℕ → BlockKind → BlockRecord
record_at bytes size kind = record {
  block_index = number_at 8 bytes 4;
  kind = kind;
  flags = byte_at bytes 13;
  payload = bytes_at size bytes 16;
  record_crc32c = number_at 4 bytes (16 + size);
}

module _ (crc32c : List ℕ → ℕ) where
  checks : List ℕ → ℕ → List (Result (Unit {0}))
  checks bytes size =
      expect_magic "BlockRecord" tzbk_magic (slice bytes 0 4)
      ∷ expect_zero "BlockRecord" (slice bytes 14 16)
      ∷ expect_crc crc32c "BlockRecord" (take (16 + size) bytes) (number_at 4 bytes (16 + size))
      ∷ []

  flag_checks : ℕ → BlockKind → List (Result (Unit {0}))
  flag_checks flags kind =
      reject_if (not (bit_and flags block_reserved_flags == 0)) (invalid_block_flags flags)
      ∷ reject_if (is_parity kind && not (bit_and flags block_last_data_flag == 0))
          parity_block_has_last_data_flag
      ∷ []

  rest : List ℕ → ℕ → Result BlockRecord
  rest bytes size =
      block_kind_of_id (byte_at bytes 12)
      >>= (λ kind. run_then (flag_checks (byte_at bytes 13) kind) (ok (record_at bytes size kind)))

  parse_full :
      (bytes : List ℕ) (size : ℕ)
      → length bytes ≡ size + block_record_framing_len
      → parse crc32c bytes size ≡ run_then (checks bytes size) (rest bytes size)
  unfolding parse checks rest flag_checks record_at
  parse_full bytes size l =
      let e : 16 + size - 16 ≡ size = omega arith in
      rw (
        read_u32_inside bytes (16 + size) (omega arith),
        read_u64_inside bytes 4 (omega arith),
        l,
        expect_len_same,
        e,
      )

  full_length :
      (bytes : List ℕ) (size : ℕ) (r : BlockRecord)
      → parse crc32c bytes size ≡ ok r
      → length bytes ≡ size + block_record_framing_len
  unfolding parse
  full_length bytes size r e =
      length_checked "BlockRecord" (size + block_record_framing_len) (length bytes) _ e

  -- The kind and the flags of a record that is read.
  rest_read :
      (bytes : List ℕ) (size : ℕ) (r : BlockRecord)
      → rest bytes size ≡ ok r
      → (block_kind_id r.kind ≡ byte_at bytes 12)
        × Passed (flag_checks (byte_at bytes 13) r.kind)
        × (record_at bytes size r.kind ≡ r)
  unfolding rest record_at
  rest_read bytes size r h = elim (Result-cases (block_kind_of_id (byte_at bytes 12))) [
    | inr (x, e) ↦ absurd (cc (rw e at h))
    | inl (k, e) ↦
        let (p, s) =
          run_then-Passed (flag_checks (byte_at bytes 13) k) (ok (record_at bytes size k)) r
            (rw e at h) in
        let q = ok-injective s in
        let same : k ≡ r.kind = ap (λ x. x.kind) q in
        (
          ap block_kind_id (sym same) ∙ block_kind_id-block_kind_of_id _ k e,
          subst (λ x. Passed (flag_checks (byte_at bytes 13) x)) same p,
          ap (record_at bytes size) (sym same) ∙ q,
        )
  ]

  rest_of :
      (bytes : List ℕ) (size : ℕ) (r : BlockRecord)
      → byte_at bytes 12 ≡ block_kind_id r.kind
      → Passed (flag_checks (byte_at bytes 13) r.kind)
      → record_at bytes size r.kind ≡ r
      → rest bytes size ≡ ok r
  unfolding rest
  rest_of bytes size r kind passed same =
      rw (kind, block_kind_of_id-block_kind_id r.kind)
        (run_then_all (flag_checks (byte_at bytes 13) r.kind) _ passed ∙ ap ok same)

  flags_valid :
      (r : BlockRecord) (flags : ℕ)
      → r.flags ≡ flags
      → Passed (flag_checks flags r.kind)
      → (bit_and r.flags block_reserved_flags ≡ 0) × ((is_parity r.kind && is_last_data r) ≡ false)
  unfolding flag_checks is_last_data
  flags_valid r flags s (reserved, (parity, _)) =
      rw s
        (same-passed (bit_and flags block_reserved_flags) 0 _ reserved, reject_if-passed _ _ parity)

  flags_pass : (r : BlockRecord) → IsValid r → Passed (flag_checks r.flags r.kind)
  unfolding flag_checks is_last_data
  flags_pass r v = (same_passes _ _ _ v.reserved, (rw v.parity, tt))

  -- The bytes of an accepted record are those that its record is written as.
  read_back :
      (bytes : List ℕ) (size : ℕ) (r : BlockRecord)
      → AllBytes bytes
      → parse crc32c bytes size ≡ ok r
      → IsValid r
        × (length r.payload ≡ size)
        × (bytes ≡ to_bytes crc32c r)
        × (r.record_crc32c ≡ crc32c (take (16 + size) bytes))
  unfolding checks to_bytes to_bytes_from_parts record_at pieces front
  read_back bytes size r b e =
      let l = full_length bytes size r e in
      let ((magic, (zero, (crc, _))), k) =
        run_then-Passed (checks bytes size) (rest bytes size) r
          (sym (parse_full bytes size l) ∙ e) in
      let (kind, flags, same) = rest_read bytes size r k in
      let m : bytes_at 4 bytes 0 ≡ tzbk_magic = expect_magic-passed _ _ _ magic in
      let num = λ (o n : ℕ) (p : o + n ≤ length bytes). to_le-number_at bytes o n p b in
      let e16 : 16 + size - (16 + size) ≡ 0 = omega arith in
      let e20 : size + 20 - (16 + size + 4) ≡ 0 = omega arith in
      let holds : Holds bytes 0 (pieces (record_at bytes size r.kind) size) (size + 20) = (
        refl,
        m,
        (
          refl,
          num 4 8 (omega arith),
          (
            refl,
            bytes_at-byte bytes 12 (omega arith) ∙ ap (λ x. x ∷ []) (sym kind),
            (
              refl,
              bytes_at-byte bytes 13 (omega arith),
              (
                zero_between _ bytes 14 16 (omega arith) zero,
                refl,
                (rw e16, num (16 + size) 4 (omega arith), rw e20),
              ),
            ),
          ),
        ),
      ) in
      let held : Holds bytes 0 (pieces r size) (size + 20) =
        subst (λ x. Holds bytes 0 (pieces x size) (size + 20)) same holds in
      let payload : length r.payload ≡ size =
        subst (λ x. length x.payload ≡ size) same
          (omega (arith, length-take size (drop 16 bytes), length-drop 16 bytes)) in
      let whole : bytes ≡ front r ++ to_le 4 r.record_crc32c =
        Holds-render bytes 0 (pieces r size) (size + 20) l (fits r size payload) held
        ∙ rendered r size in
      let covered : take (16 + size) bytes ≡ front r =
        ap (take (16 + size)) whole
        ∙ take-append (16 + size) (front r) _ (length-front r size payload) in
      let c : r.record_crc32c ≡ crc32c (take (16 + size) bytes) =
        ap (λ x. x.record_crc32c) (sym same) ∙ sym (expect_crc-passed crc32c _ _ _ crc) in
      let (reserved, parity) = flags_valid r _ (ap (λ x. x.flags) (sym same)) flags in
      (
        record {
          block_index =
              subst IsU64 (ap (λ x. x.block_index) same) (number_at-lt bytes 4 8 (omega arith) b);
          flags = subst IsU8 (ap (λ x. x.flags) same) (byte_at-lt bytes 13 b);
          reserved = reserved;
          parity = parity;
        },
        payload,
        whole ∙ ap (λ x. front r ++ to_le 4 x) (c ∙ ap crc32c covered),
        c,
      )

  module _ (crc_fits : (bytes : List ℕ) → crc32c bytes < 2 ^ 32) where
    -- What is written is read.
    read_written :
        (bytes : List ℕ) (size : ℕ) (r : BlockRecord)
        → IsValid r
        → length r.payload ≡ size
        → bytes ≡ to_bytes crc32c r
        → r.record_crc32c ≡ crc32c (take (16 + size) bytes)
        → parse crc32c bytes size ≡ ok r
    unfolding checks to_bytes to_bytes_from_parts record_at pieces front rest
    read_written bytes size r v n e c =
        let covered : take (16 + size) bytes ≡ front r =
          ap (take (16 + size)) e ∙ take-append (16 + size) (front r) _ (length-front r size n) in
        let whole : bytes ≡ render 0 (pieces r size) (size + 20) =
          e
          ∙ ap (λ x. front r ++ to_le 4 x) (sym (c ∙ ap crc32c covered))
          ∙ sym (rendered r size) in
        let l : length bytes ≡ size + 20 =
          ap length whole
          ∙ omega (arith, length-render 0 (pieces r size) (size + 20) (fits r size n)) in
        let held : Holds bytes 0 (pieces r size) (size + 20) =
          subst (λ x. Holds x 0 (pieces r size) (size + 20)) (sym whole)
            (render-Holds [] 0 (pieces r size) (size + 20) refl (fits r size n)) in
        let (_, m, (_, n4, (_, n12, (_, n13, (z14, n16, (_, n_crc, _)))))) = held in
        let crc : number_at 4 bytes (16 + size) ≡ r.record_crc32c =
          number_at-to_le bytes (16 + size) 4 _ n_crc (rw c (crc_fits (take (16 + size) bytes))) in
        let kind : byte_at bytes 12 ≡ block_kind_id r.kind = byte_at-eq bytes 12 _ n12 in
        let flags : byte_at bytes 13 ≡ r.flags = byte_at-eq bytes 13 _ n13 in
        let same : record_at bytes size r.kind ≡ r = λ i. record {
          block_index = number_at-to_le bytes 4 8 _ n4 v.block_index i;
          kind = r.kind;
          flags = flags i;
          payload = n16 i;
          record_crc32c = crc i;
        } in
        let passed : Passed (checks bytes size) = (
          rw m (expect_magic_same _ tzbk_magic),
          (
            rw z14 (expect_zero-zeros _ 2),
            (rw (crc, c) (expect_crc_same crc32c _ (take (16 + size) bytes)), tt),
          ),
        ) in
        let last : rest bytes size ≡ ok r =
          rest_of bytes size r kind
            (subst (λ x. Passed (flag_checks x r.kind)) (sym flags) (flags_pass r v)) same in
        parse_full bytes size l ∙ run_then_all (checks bytes size) (rest bytes size) passed ∙ last

    -- Bytes are accepted as a block record for a block size, and as which one, exactly when they
    -- are what `to_bytes` writes for that record, its payload has that size, its fields are in
    -- range, no reserved flag is set, a parity block is not marked as the last data, and its
    -- checksum is that of all that stands before it.
    pub block_record_iff :
        (bytes : List ℕ) (size : ℕ) (r : BlockRecord)
        → AllBytes bytes
        → (parse crc32c bytes size ≡ ok r) ↔ (
            IsValid r
            × (length r.payload ≡ size)
            × (bytes ≡ to_bytes crc32c r)
            × (r.record_crc32c ≡ crc32c (take (16 + size) bytes)))
    block_record_iff bytes size r b =
        (read_back bytes size r b, λ (v, n, e, c). read_written bytes size r v n e c)
