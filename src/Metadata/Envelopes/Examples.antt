-- ===== src/Metadata/Envelopes/Examples.antt =====
-- Envelopes at concrete values.
use tzap.Prelude.{◌+◌, ◌^◌, ◌≤◌, ◌<◌, ◌≡◌, ◌↔◌, refl, arith, List, [], ◌∷◌, All}
use tzap.Format.{ok, err, invalid_metadata}
use tzap.Metadata.Rows.{EnvelopeEntry}
use tzap.Metadata.Envelopes.{
  default_limits, validate_envelope_table, validate_frame_envelope_binding,
}
use tzap.Metadata.Envelopes.Bounds.{
  IsBounded, IsSorted, validate_envelope_table_iff, validate_frame_envelope_binding_iff,
}
use tzap.Metadata.Samples.{frame_sample}

abbrev envelope_sample : EnvelopeEntry
envelope_sample = record {
  envelope_index = 0;
  first_block_index = 70000;
  data_block_count = 2;
  parity_block_count = 1;
  encrypted_size = 8192;
  plaintext_size = 5000;
  first_frame_index = 4;
  frame_count = 2;
}

abbrev envelopes_sample : List EnvelopeEntry
envelopes_sample =
    envelope_sample ∷ (record envelope_sample { envelope_index = 2; first_frame_index = 6 }) ∷ []

table_passes : validate_envelope_table envelopes_sample default_limits ≡ ok tt
unfolding validate_envelope_table
table_passes = refl

partial_block_refused :
    validate_envelope_table ((record envelope_sample { encrypted_size = 8191 }) ∷ []) default_limits
    ≡ err (invalid_metadata "EnvelopeEntry" "encrypted_size is not data_block_count * block_size")
unfolding validate_envelope_table
partial_block_refused = refl

validate_envelope_table_iff_example :
    (validate_envelope_table envelopes_sample default_limits ≡ ok tt)
    ↔ (All (IsBounded default_limits) envelopes_sample × IsSorted envelopes_sample)
validate_envelope_table_iff_example = validate_envelope_table_iff default_limits envelopes_sample

validate_frame_envelope_binding_iff_example :
    (validate_frame_envelope_binding frame_sample envelope_sample ≡ ok tt) ↔ (
      (envelope_sample.first_frame_index + envelope_sample.frame_count < 2 ^ 64)
      × (envelope_sample.first_frame_index ≤ frame_sample.frame_index)
      × (frame_sample.frame_index < envelope_sample.first_frame_index + envelope_sample.frame_count)
      × (frame_sample.offset_in_envelope + frame_sample.compressed_size
          ≤ envelope_sample.plaintext_size))
validate_frame_envelope_binding_iff_example =
    validate_frame_envelope_binding_iff frame_sample envelope_sample (omega arith)
