-- ===== src/Wire/Extensions/Semantics.antt =====
-- `validate_crypto_extension_semantics` and `validate_known_extension` of
-- crates/tzap-core/src/wire.rs, and `validate_raw_stream_content_model_extension` of
-- crates/tzap-core/src/raw_stream_profile.rs.
pub mod Accepted
use Prim.Native.Nat.{bit_and}
use tzap.Prelude.{
  ℕ, zero, suc, List, [], ◌∷◌, ◌++◌, length, Bool, true, false, ltb, leb, not, ◌==◌, ◌&&◌, ◌||◌,
  if◌then◌else◌, Option, none, some,
}
use tzap.Prelude.Bytes.{bytes_eq}
use tzap.Format.{
  Result, ok, err, ◌>>◌, ◌>>=◌, reject_if, malformed_known_extension, duplicate_known_extension,
  forbidden_extension_tag, unknown_critical_extension,
}
use tzap.Wire.Extensions.Scan.{ExtensionTlv}

-- What a byte that begins a character asks of those after it: how many, and the range of the next.
abbrev lead : ℕ → Option (ℕ × ℕ × ℕ)
lead a =
    if ltb a 0x80
    then some (0, 0x80, 0xbf)
    else if ltb a 0xc2
    then none
    else if ltb a 0xe0
    then some (1, 0x80, 0xbf)
    else if a == 0xe0
    then some (2, 0xa0, 0xbf)
    else if a == 0xed
    then some (2, 0x80, 0x9f)
    else if ltb a 0xf0
    then some (2, 0x80, 0xbf)
    else if a == 0xf0
    then some (3, 0x90, 0xbf)
    else if ltb a 0xf4
    then some (3, 0x80, 0xbf)
    else if a == 0xf4
    then some (3, 0x80, 0x8f)
    else none

-- `std::str::from_utf8(bytes).is_ok()`, within a character.
unfoldable pub utf8_from : ℕ → ℕ → ℕ → List ℕ → Bool
utf8_from zero low high [] = true
utf8_from (suc pending) low high [] = false
utf8_from (suc pending) low high (b ∷ bytes) =
    (leb low b && leb b high) && utf8_from pending 0x80 0xbf bytes
utf8_from zero low high (b ∷ bytes) = elim (lead b) [
  | none ↦ false
  | some (pending, next_low, next_high) ↦ utf8_from pending next_low next_high bytes
]

unfoldable pub is_utf8 : List ℕ → Bool
unfolding utf8_from
is_utf8 bytes = utf8_from 0 0x80 0xbf bytes

-- `seen.contains(&tag)`
unfoldable pub contains : List ℕ → ℕ → Bool
contains [] tag = false
contains (x ∷ seen) tag = x == tag || contains seen tag

abbrev pub raw_stream_content_model_extension_tag : ℕ
raw_stream_content_model_extension_tag = 0x0007

-- b"raw_stream_v1"
abbrev pub raw_stream_content_model_value : List ℕ
raw_stream_content_model_value =
    b'r' ∷ b'a' ∷ b'w' ∷ b'_' ∷ b's' ∷ b't' ∷ b'r' ∷ b'e' ∷ b'a' ∷ b'm' ∷ b'_' ∷ b'v' ∷ b'1' ∷ []

-- The tag without its highest bit, and the highest bit.
abbrev pub ext_tag : ExtensionTlv → ℕ
ext_tag extension = bit_and extension.tag 0x7fff

abbrev pub is_critical : ExtensionTlv → Bool
is_critical extension = not (bit_and extension.tag 0x8000 == 0)

abbrev pub is_known_extension : ℕ → Bool
is_known_extension tag = tag == 0x0001 || (tag == 0x0002 || (tag == 0x0003 || tag == 0x0005))

unfoldable pub validate_known_extension : ℕ → List ℕ → Result (Unit {0})
validate_known_extension tag value =
    if tag == 0x0001 || (tag == 0x0002 || tag == 0x0005)
    then reject_if (not (is_utf8 value)) (malformed_known_extension tag)
    else if tag == 0x0003
    then reject_if (not (length value == 8)) (malformed_known_extension tag)
    else ok tt

unfoldable pub validate_raw_stream_content_model_extension : Bool → List ℕ → Result (Unit {0})
validate_raw_stream_content_model_extension critical value =
    reject_if (not critical || not (bytes_eq value raw_stream_content_model_value))
      (malformed_known_extension raw_stream_content_model_extension_tag)

-- One extension, after the known tags that were seen; the tags seen after it.
unfoldable pub validate_extension : List ℕ → ExtensionTlv → Result (List ℕ)
unfolding validate_known_extension validate_raw_stream_content_model_extension
validate_extension seen extension = do
  let tag = ext_tag extension
  let critical = is_critical extension
  reject_if (tag == 0x0004 || tag == 0x0006) (forbidden_extension_tag tag)
  (if tag == raw_stream_content_model_extension_tag
      then (if critical
          then (do
            reject_if (contains seen tag) (duplicate_known_extension tag)
            validate_raw_stream_content_model_extension critical extension.value
            ok (seen ++ (tag ∷ [])))
          else ok seen)
      else if is_known_extension tag
      then (do
        reject_if (contains seen tag) (duplicate_known_extension tag)
        validate_known_extension tag extension.value
        ok (seen ++ (tag ∷ [])))
      else (do reject_if critical (unknown_critical_extension tag); ok seen))

unfoldable pub validate_from : List ℕ → List ExtensionTlv → Result (Unit {0})
unfolding validate_extension
validate_from seen [] = ok tt
validate_from seen (extension ∷ extensions) =
    validate_extension seen extension >>= (λ more. validate_from more extensions)

unfoldable pub validate_crypto_extension_semantics : List ExtensionTlv → Result (Unit {0})
unfolding validate_from
validate_crypto_extension_semantics extensions = validate_from [] extensions
