-- ===== src/Padding.antt =====
-- crates/tzap-core/src/padding.rs: the suffix padding under the encryption of an object.
-- A buffer is a list of bytes; a `usize` has 64 bits.
pub mod RoundTrip
pub mod Aead
pub mod Canonical
mod Examples
use tzap.Prelude.{
  ℕ, ◌+◌, ◌-◌, ◌%◌, ◌<◌, max, Bool, true, false, ◌||◌, not, Option, none, some, List, [], ◌∷◌, ◌++◌,
  length, take, drop, get_or, ltb, leb, ◌==◌, if◌then◌else◌,
}
use tzap.Prelude.Slices.{slice, zeros}
use tzap.Prelude.Bytes.{any_non_zero, to_le, from_le}
use tzap.Format.{
  Result, ok, err, ◌>>=◌, ◌>>◌, reject_if, ok_or, padding_overflow, invalid_suffix_padding,
  empty_padded_plaintext, non_zero_padding_bytes, u32_max, usize_mod,
}

-- `a.checked_add(b)` and `a.checked_sub(b)` on `usize`.
abbrev pub checked_add : ℕ → ℕ → Option ℕ
checked_add a b = if ltb (a + b) usize_mod then some (a + b) else none

abbrev pub checked_sub : ℕ → ℕ → Option ℕ
checked_sub a b = if leb b a then some (a - b) else none

-- `buffer.resize(n, 0)`
abbrev resize : List ℕ → ℕ → List ℕ
resize buffer n = take n buffer ++ zeros (n - length buffer)

unfoldable pub round_up_to_block : ℕ → ℕ → Result ℕ
round_up_to_block value block_size = do
  reject_if (block_size == 0) padding_overflow
  let remainder = value % block_size
  if remainder == 0
      then ok (max value block_size)
      else ok_or (checked_add value (block_size - remainder)) padding_overflow

-- The buffer after the call; on an error it is left as it was.
unfoldable pub append_suffix_padding : List ℕ → ℕ → Result (List ℕ)
append_suffix_padding plaintext pad_len =
    if pad_len == 0
    then err invalid_suffix_padding
    else if leb pad_len 254
    then ok (resize plaintext (length plaintext + pad_len - 1) ++ (pad_len % 256 ∷ []))
    else if ltb u32_max pad_len
    then err padding_overflow
    else ok ((resize plaintext (length plaintext + pad_len - 5) ++ to_le 4 pad_len) ++ (0xff ∷ []))

-- The size of the envelope that holds the padding, which is never empty, and the padding's length.
unfoldable pub envelope_and_pad : ℕ → ℕ → ℕ → Result (ℕ × ℕ)
envelope_and_pad total block_size envelope = do
  pad_len ← ok_or (checked_sub envelope total) padding_overflow
  if pad_len == 0
      then ok_or (checked_add envelope block_size) padding_overflow
        >>= (λ more. ok (more, block_size))
      else ok (envelope, pad_len)

unfoldable pub suffix_pad_for_aead : List ℕ → ℕ → ℕ → Result (List ℕ)
suffix_pad_for_aead payload tag_len block_size = do
  total ← ok_or (checked_add (length payload) tag_len) padding_overflow
  rounded ← round_up_to_block total block_size
  (envelope_total, pad_len) ← envelope_and_pad total block_size rounded
  plaintext_len ← ok_or (checked_sub envelope_total tag_len) padding_overflow
  append_suffix_padding payload pad_len

-- The size of the marker at the end of the buffer, and the padding's length that it gives.
unfoldable pub read_marker : List ℕ → Result (ℕ × ℕ)
read_marker plaintext =
    let n = length plaintext in
    let final_byte = get_or plaintext (n - 1) 0 in
    let wide = from_le (slice plaintext (n - 5) (n - 1)) in
    if ltb final_byte 0xff
    then ok (1, final_byte)
    else if ltb n 5
    then err invalid_suffix_padding
    else if ltb wide 255
    then err invalid_suffix_padding
    else ok (5, wide)

unfoldable pub suffix_padded_payload_len : List ℕ → Result ℕ
unfolding any_non_zero
suffix_padded_payload_len plaintext = do
  reject_if (length plaintext == 0) empty_padded_plaintext
  (marker_size, pad_len) ← read_marker plaintext
  reject_if (ltb pad_len marker_size || ltb (length plaintext) pad_len) invalid_suffix_padding
  payload_len ← ok_or (checked_sub (length plaintext) pad_len) invalid_suffix_padding
  reject_if (any_non_zero (slice plaintext payload_len (length plaintext - marker_size)))
      non_zero_padding_bytes
  ok payload_len

unfoldable pub depad_suffix_padding : List ℕ → Result (List ℕ)
depad_suffix_padding plaintext = do
  payload_len ← suffix_padded_payload_len plaintext
  ok (slice plaintext 0 payload_len)

-- The buffer after the call.
unfoldable pub truncate_suffix_padding : List ℕ → Result (List ℕ)
truncate_suffix_padding plaintext = do
  payload_len ← suffix_padded_payload_len plaintext
  ok (take payload_len plaintext)
