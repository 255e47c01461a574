-- ===== src/Wire/Extensions/Examples.antt =====
-- Extensions at concrete values.
use tzap.Prelude.{ℕ, ◌≡◌, ◌↔◌, refl, arith, List, [], ◌∷◌, All, some, false}
use tzap.Prelude.Bytes.{AllBytes, to_le, from_le, bytes_eq}
use tzap.Format.{
  Result, ok, err, missing_extension_terminator, bytes_after_extension_terminator,
  unknown_critical_extension, malformed_known_extension,
}
use tzap.Wire.Fields.{read_u16, read_u32}
use tzap.Wire.Extensions.{ExtensionTlv, scan_crypto_extension_tlvs}
use tzap.Wire.Extensions.Semantics.{
  contains, is_utf8, raw_stream_content_model_value, validate_crypto_extension_semantics,
}
use tzap.Wire.Extensions.Semantics.Accepted.{
  Allowed, Distinct, understood_tags, validate_crypto_extension_semantics_iff,
}
use tzap.Wire.Extensions.RawStream.{reject_unsupported_raw_stream_profile, reject_unsupported_iff}
use tzap.Wire.Extensions.Codec.{
  layout, IsTlv, scan_crypto_extension_tlvs_iff, scan_crypto_extension_tlvs_total,
}

abbrev extensions : List ExtensionTlv
extensions = record { tag = 0x8007; value = 1 ∷ 2 ∷ 3 ∷ [] } ∷ record { tag = 1; value = [] } ∷ []

abbrev bytes : List ℕ
bytes = layout extensions

bytes-AllBytes : AllBytes bytes
unfolding layout to_le
bytes-AllBytes = omega arith

scans : scan_crypto_extension_tlvs bytes ≡ some (ok extensions)
unfolding scan_crypto_extension_tlvs layout to_le read_u16 read_u32 from_le
scans = refl

-- Without a terminator the scan fails, and so it does with bytes after one.
scan_empty : scan_crypto_extension_tlvs [] ≡ some (err missing_extension_terminator)
unfolding scan_crypto_extension_tlvs read_u16 read_u32
scan_empty = refl

scan_longer :
    scan_crypto_extension_tlvs (0 ∷ 0 ∷ 0 ∷ 0 ∷ 0 ∷ 0 ∷ 7 ∷ [])
    ≡ some (err bytes_after_extension_terminator)
unfolding scan_crypto_extension_tlvs read_u16 read_u32 from_le
scan_longer = refl

scan_crypto_extension_tlvs_iff_example :
    (scan_crypto_extension_tlvs bytes ≡ some (ok extensions))
    ↔ (All IsTlv extensions × (bytes ≡ layout extensions))
scan_crypto_extension_tlvs_iff_example =
    scan_crypto_extension_tlvs_iff bytes extensions bytes-AllBytes

scan_crypto_extension_tlvs_total_example :
    (r : Result (List ExtensionTlv)) × (scan_crypto_extension_tlvs bytes ≡ some r)
scan_crypto_extension_tlvs_total_example = scan_crypto_extension_tlvs_total bytes bytes-AllBytes

-- The raw stream's content model, a text, and an extension of no known tag.
abbrev mixed : List ExtensionTlv
mixed =
    record { tag = 0x8007; value = raw_stream_content_model_value }
    ∷ record { tag = 2; value = 0xe2 ∷ 0x82 ∷ 0xac ∷ [] }
    ∷ record { tag = 9; value = [] }
    ∷ []

mixed_passes : validate_crypto_extension_semantics mixed ≡ ok tt
unfolding validate_crypto_extension_semantics bytes_eq contains is_utf8
mixed_passes = refl

critical_unknown :
    validate_crypto_extension_semantics (record { tag = 0x8009; value = [] } ∷ [])
    ≡ err (unknown_critical_extension 9)
unfolding validate_crypto_extension_semantics bytes_eq contains is_utf8
critical_unknown = refl

not_text :
    validate_crypto_extension_semantics (record { tag = 2; value = 0xed ∷ 0xa0 ∷ 0x80 ∷ [] } ∷ [])
    ≡ err (malformed_known_extension 2)
unfolding validate_crypto_extension_semantics bytes_eq contains is_utf8
not_text = refl

validate_crypto_extension_semantics_iff_example :
    (validate_crypto_extension_semantics mixed ≡ ok tt)
    ↔ (All Allowed mixed × Distinct [] (understood_tags mixed))
validate_crypto_extension_semantics_iff_example = validate_crypto_extension_semantics_iff mixed

reject_unsupported_iff_example :
    (reject_unsupported_raw_stream_profile mixed ≡ ok tt)
    ↔ (contains (understood_tags mixed) 7 ≡ false)
reject_unsupported_iff_example = reject_unsupported_iff mixed mixed_passes
