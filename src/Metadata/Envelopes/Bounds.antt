-- ===== src/Metadata/Envelopes/Bounds.antt =====
-- What the checks of envelopes accept.
use tzap.Prelude.{◌+◌, ◌*◌, ◌^◌, ◌≤◌, ◌<◌, ◌≡◌, refl, ◌↔◌, arith, List, [], ◌∷◌, All}
use tzap.Format.{ok, check_succeeds}
use tzap.Metadata.Rows.{FrameEntry, EnvelopeEntry}
use tzap.Metadata.Envelopes.{
  MetadataLimits, validate_encrypted_extent, validate_fec_class_extent, validate_envelope,
  validate_envelopes, validate_envelope_pairs, validate_envelope_table,
  validate_frame_envelope_binding,
}

-- An envelope with frames and bytes, whose blocks are as many as its class and the erasure code
-- take, and hold its encrypted bytes exactly.
pub record IsBounded (limits : MetadataLimits) (envelope : EnvelopeEntry) : Type 0 where
  pub some_frames : 1 ≤ envelope.frame_count
  pub some_plaintext : 1 ≤ envelope.plaintext_size
  pub some_data : 1 ≤ envelope.data_block_count
  pub some_bytes : 1 ≤ envelope.encrypted_size
  pub whole_blocks : envelope.encrypted_size ≡ envelope.data_block_count * limits.block_size
  pub bytes_u32 : envelope.encrypted_size < 2 ^ 32
  pub data_max : envelope.data_block_count ≤ limits.max_payload_data_shards
  pub parity_max : envelope.parity_block_count ≤ limits.max_payload_parity_shards
  pub total_max : envelope.data_block_count + envelope.parity_block_count ≤ 65535

abbrev pub IsSorted : List EnvelopeEntry → Type 0
IsSorted [] = Unit {0}
IsSorted (a ∷ []) = Unit {0}
IsSorted (a ∷ b ∷ envelopes) = (a.envelope_index < b.envelope_index) × IsSorted (b ∷ envelopes)

module _ (limits : MetadataLimits) where
  envelope-IsBounded :
      (envelope : EnvelopeEntry)
      → validate_envelope limits envelope ≡ ok tt
      → IsBounded limits envelope
  unfolding validate_envelope validate_encrypted_extent validate_fec_class_extent
  envelope-IsBounded envelope h = record {
    some_frames = ground arith;
    some_plaintext = ground arith;
    some_data = ground arith;
    some_bytes = ground arith;
    whole_blocks = ground arith;
    bytes_u32 = ground arith;
    data_max = ground arith;
    parity_max = ground arith;
    total_max = ground arith;
  }

  IsBounded-envelope :
      (envelope : EnvelopeEntry)
      → IsBounded limits envelope
      → validate_envelope limits envelope ≡ ok tt
  unfolding validate_envelope validate_encrypted_extent validate_fec_class_extent
  IsBounded-envelope envelope b =
      let p = b.some_frames in
      let q = b.some_plaintext in
      let r = b.some_data in
      let s = b.some_bytes in
      let t = b.whole_blocks in
      let u = b.bytes_u32 in
      let v = b.data_max in let w = b.parity_max in let x = b.total_max in ground arith

  envelopes_iff :
      (envelopes : List EnvelopeEntry)
      → (validate_envelopes limits envelopes ≡ ok tt) ↔ All (IsBounded limits) envelopes
  unfolding validate_envelopes
  envelopes_iff [] = (λ h. tt, λ b. refl)
  envelopes_iff (envelope ∷ envelopes) = (
    λ h.
        let (here, rest) = check_succeeds (validate_envelope limits envelope) _ tt h in
        (envelope-IsBounded envelope here, (envelopes_iff envelopes).0 rest),
    λ (b, bs). rw (IsBounded-envelope envelope b) ((envelopes_iff envelopes).1 bs),
  )

pairs_iff :
    (envelopes : List EnvelopeEntry)
    → (validate_envelope_pairs envelopes ≡ ok tt) ↔ IsSorted envelopes
unfolding validate_envelope_pairs
pairs_iff [] = (λ h. tt, λ s. refl)
pairs_iff (a ∷ []) = (λ h. tt, λ s. refl)
pairs_iff (a ∷ b ∷ envelopes) = (
  λ h.
      let (here, rest) = check_succeeds _ (validate_envelope_pairs (b ∷ envelopes)) tt h in
      (ground arith, (pairs_iff (b ∷ envelopes)).0 rest),
  λ (less, sorted). let rest = (pairs_iff (b ∷ envelopes)).1 sorted in ground arith,
)

-- An envelope table is accepted exactly when every envelope has frames and bytes, holds its
-- encrypted bytes in whole blocks, as many as its class and the erasure code take, and the indexes
-- of the envelopes grow from row to row.
pub validate_envelope_table_iff :
    (limits : MetadataLimits) (envelopes : List EnvelopeEntry)
    → (validate_envelope_table envelopes limits ≡ ok tt)
      ↔ (All (IsBounded limits) envelopes × IsSorted envelopes)
unfolding validate_envelope_table
validate_envelope_table_iff limits envelopes = (
  λ h.
      let (rows, pairs) = check_succeeds (validate_envelopes limits envelopes) _ tt h in
      ((envelopes_iff limits envelopes).0 rows, (pairs_iff envelopes).0 pairs),
  λ (b, s). rw ((envelopes_iff limits envelopes).1 b) ((pairs_iff envelopes).1 s),
)

-- A frame is bound to an envelope exactly when the envelope's range of frames, which does not
-- overflow, has its index and its slice lies in the envelope's plain bytes.
pub validate_frame_envelope_binding_iff :
    (frame : FrameEntry) (envelope : EnvelopeEntry)
    → envelope.plaintext_size < 2 ^ 32
    → (validate_frame_envelope_binding frame envelope ≡ ok tt) ↔ (
        (envelope.first_frame_index + envelope.frame_count < 2 ^ 64)
        × (envelope.first_frame_index ≤ frame.frame_index)
        × (frame.frame_index < envelope.first_frame_index + envelope.frame_count)
        × (frame.offset_in_envelope + frame.compressed_size ≤ envelope.plaintext_size))
unfolding validate_frame_envelope_binding
validate_frame_envelope_binding_iff frame envelope typed =
    (λ h. (ground arith, ground arith, ground arith, ground arith), λ (a, b, c, d). ground arith)
