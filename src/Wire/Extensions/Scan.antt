-- ===== src/Wire/Extensions/Scan.antt =====
-- `ExtensionTlv` and `scan_crypto_extension_tlvs` of crates/tzap-core/src/wire.rs. The loop runs
-- on fuel; one more than the number of bytes is enough.
use tzap.Prelude.{
  ℕ, zero, suc, ◌+◌, ◌-◌, List, [], ◌∷◌, ◌++◌, length, ltb, not, ◌==◌, if◌then◌else◌, Option, none,
  some,
}
use tzap.Prelude.Slices.{slice}
use tzap.Format.{
  Result, ok, err, ◌>>=◌, ◌>>◌, reject_if, missing_extension_terminator, truncated_extension_header,
  malformed_extension_terminator, bytes_after_extension_terminator, extension_payload_too_large,
  truncated_extension_payload, crypto_extension_header_len, crypto_extension_max_value_len,
}
use tzap.Wire.Fields.{read_u16, read_u32}

pub record ExtensionTlv : Type 0 where
  pub tag : ℕ
  pub value : List ℕ

-- What one round of the loop comes to: the terminator, or an extension and the next offset.
pub data Scanned : Type 0 where
  finished : Scanned
  found : ExtensionTlv → ℕ → Scanned

-- A round after the tag and the length are read, where `offset` has passed them.
unfoldable pub scan_entry : List ℕ → ℕ → ℕ → ℕ → Result Scanned
scan_entry bytes offset tag size =
    if tag == 0
    then (do
      reject_if (not (size == 0)) malformed_extension_terminator
      reject_if (not (offset == length bytes)) bytes_after_extension_terminator
      ok finished)
    else (do
      reject_if (ltb crypto_extension_max_value_len size) (extension_payload_too_large size)
      reject_if (ltb (length bytes - offset) size) truncated_extension_payload
      ok (found (record { tag = tag; value = slice bytes offset (offset + size) }) (offset + size)))

unfoldable pub scan_step : List ℕ → ℕ → Result Scanned
unfolding scan_entry
scan_step bytes offset = do
  reject_if (offset == length bytes) missing_extension_terminator
  reject_if (ltb (length bytes - offset) crypto_extension_header_len) truncated_extension_header
  tag ← read_u16 bytes offset
  size ← read_u32 bytes (offset + 2)
  scan_entry bytes (offset + crypto_extension_header_len) tag size

unfoldable pub scan_from : ℕ → List ℕ → ℕ → List ExtensionTlv → Option (Result (List ExtensionTlv))
unfolding scan_step
scan_from zero bytes offset extensions = none
scan_from (suc fuel) bytes offset extensions = elim (scan_step bytes offset) [
  | err e ↦ some (err e)
  | ok finished ↦ some (ok extensions)
  | ok (found extension next) ↦ scan_from fuel bytes next (extensions ++ (extension ∷ []))
]

unfoldable pub scan_crypto_extension_tlvs : List ℕ → Option (Result (List ExtensionTlv))
unfolding scan_from
scan_crypto_extension_tlvs bytes = scan_from (suc (length bytes)) bytes 0 []
