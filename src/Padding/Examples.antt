-- ===== src/Padding/Examples.antt =====
-- Padding at concrete buffers, in the byte and in the wide form.
use tzap.Prelude.{
  ℕ, ◌+◌, ◌%◌, ◌≤◌, ◌<◌, ◌≡◌, ◌↔◌, refl, arith, List, [], ◌∷◌, ◌++◌, length, replicate,
}
use tzap.Prelude.Bytes.{any_non_zero, to_le, from_le}
use tzap.Format.{ok, err, invalid_suffix_padding, non_zero_padding_bytes}
use tzap.Padding.{
  append_suffix_padding, suffix_pad_for_aead, round_up_to_block, envelope_and_pad, read_marker,
  suffix_padded_payload_len, depad_suffix_padding, truncate_suffix_padding,
}
use tzap.Padding.Aead.{suffix_pad_for_aead_lem, suffix_pad_for_aead_total}
use tzap.Padding.Canonical.{depad_suffix_padding_iff, truncate_suffix_padding_iff}

-- b"hello"
abbrev hello : List ℕ
hello = b'h' ∷ b'e' ∷ b'l' ∷ b'l' ∷ b'o' ∷ []

-- A block of 32 bytes with a tag of 16 leaves room for eleven bytes of padding.
abbrev padded_hello : List ℕ
padded_hello = hello ++ (replicate 10 0 ++ (11 ∷ []))

pads_hello : suffix_pad_for_aead hello 16 32 ≡ ok padded_hello
unfolding suffix_pad_for_aead round_up_to_block envelope_and_pad append_suffix_padding
pads_hello = refl

-- A full block gets a block of padding, with the wide marker.
pads_exact_fit :
    suffix_pad_for_aead (replicate 496 7) 16 512
    ≡ ok (replicate 496 7 ++ (replicate 507 0 ++ (0 ∷ 2 ∷ 0 ∷ 0 ∷ 0xff ∷ [])))
unfolding suffix_pad_for_aead round_up_to_block envelope_and_pad append_suffix_padding to_le
pads_exact_fit = refl

rejects_small_wide_form :
    depad_suffix_padding (0x05 ∷ 0x00 ∷ 0x00 ∷ 0x00 ∷ 0xff ∷ []) ≡ err invalid_suffix_padding
unfolding depad_suffix_padding suffix_padded_payload_len read_marker from_le
rejects_small_wide_form = refl

rejects_non_zero : depad_suffix_padding (b'h' ∷ 1 ∷ 0 ∷ 3 ∷ []) ≡ err non_zero_padding_bytes
unfolding depad_suffix_padding suffix_padded_payload_len read_marker any_non_zero
rejects_non_zero = refl

suffix_pad_for_aead_lem_example :
    (depad_suffix_padding padded_hello ≡ ok hello)
    × ((length padded_hello + 16) % 32 ≡ 0)
    × (5 < length padded_hello)
    × (length padded_hello ≤ 5 + 32)
suffix_pad_for_aead_lem_example = suffix_pad_for_aead_lem hello padded_hello 16 32 pads_hello

suffix_pad_for_aead_total_example :
    (padded : List ℕ) × (suffix_pad_for_aead hello 16 4096 ≡ ok padded)
suffix_pad_for_aead_total_example =
    suffix_pad_for_aead_total hello 16 4096 (omega arith) (omega arith) (omega arith)

depad_suffix_padding_iff_example :
    (depad_suffix_padding padded_hello ≡ ok hello)
    ↔ ((pad_len : ℕ) × (append_suffix_padding hello pad_len ≡ ok padded_hello))
depad_suffix_padding_iff_example = depad_suffix_padding_iff padded_hello hello (omega arith)

-- Padding of 11 bytes that are not all zero.
dirty_padding :
    truncate_suffix_padding (hello ++ (1 ∷ (replicate 9 0 ++ (11 ∷ []))))
    ≡ err non_zero_padding_bytes
unfolding truncate_suffix_padding suffix_padded_payload_len read_marker
dirty_padding = refl

truncate_suffix_padding_iff_example :
    (truncate_suffix_padding padded_hello ≡ ok hello)
    ↔ ((pad_len : ℕ) × (append_suffix_padding hello pad_len ≡ ok padded_hello))
truncate_suffix_padding_iff_example = truncate_suffix_padding_iff padded_hello hello (omega arith)
