-- ===== src/VolumeFile.antt =====
-- Names of volume files: crates/tzap-core/src/volume_file.rs. A name is its bytes.
pub mod RoundTrip
mod Examples
use tzap.Prelude.{
  ℕ, zero, suc, ◌+◌, ◌-◌, ◌*◌, ◌/◌, ◌%◌, ◌^◌, List, [], ◌∷◌, ◌++◌, length, take, drop, replicate,
  Option, none, some, Bool, true, false, ltb, leb, not, ◌==◌, ◌&&◌, ◌||◌, if◌then◌else◌,
}
use tzap.Prelude.Bytes.{bytes_eq, starts_with}

-- .tzap and .vol
abbrev pub tzap_extension_suffix : List ℕ
tzap_extension_suffix = 46 ∷ 116 ∷ 122 ∷ 97 ∷ 112 ∷ []

abbrev pub tzap_volume_marker : List ℕ
tzap_volume_marker = 46 ∷ 118 ∷ 111 ∷ 108 ∷ []

abbrev pub tzap_volume_index_width : ℕ
tzap_volume_index_width = 3

pub record VolumeFileName : Type 0 where
  pub base : List ℕ
  pub volume_index : ℕ

-- `eq_ignore_ascii_case`
unfoldable pub to_ascii_lowercase : List ℕ → List ℕ
to_ascii_lowercase [] = []
to_ascii_lowercase (b ∷ bs) =
    let rest = to_ascii_lowercase bs in if leb 65 b && leb b 90 then (b + 32) ∷ rest else b ∷ rest

unfoldable pub strip_case_insensitive_suffix : List ℕ → List ℕ → Option (List ℕ)
unfolding to_ascii_lowercase
strip_case_insensitive_suffix value suffix =
    let split_at = length value - length suffix in
    if ltb (length value) (length suffix)
    then none
    else if bytes_eq (to_ascii_lowercase (drop split_at value)) (to_ascii_lowercase suffix)
    then some (take split_at value)
    else none

-- `rsplit_once`: what stands before and after the last place of a marker.
unfoldable pub rsplit_once : List ℕ → List ℕ → Option (List ℕ × List ℕ)
rsplit_once [] marker = if starts_with [] marker then some ([], []) else none
rsplit_once (b ∷ bs) marker = elim (rsplit_once bs marker) [
  | some parts ↦ some (b ∷ parts.0, parts.1)
  | none ↦ if starts_with (b ∷ bs) marker then some ([], drop (length marker) (b ∷ bs)) else none
]

abbrev pub is_ascii_digit : ℕ → Bool
is_ascii_digit b = leb 48 b && leb b 57

unfoldable pub all_digits : List ℕ → Bool
all_digits [] = true
all_digits (b ∷ bs) = is_ascii_digit b && all_digits bs

-- `str::parse::<usize>` of digits, after those that gave `value`.
unfoldable pub parse_usize_from : ℕ → List ℕ → Option ℕ
parse_usize_from value [] = some value
parse_usize_from value (b ∷ bs) =
    let next = value * 10 + (b - 48) in
    let rest = parse_usize_from next bs in if ltb next (2 ^ 64) then rest else none

-- What a stem with a marker in it parses to.
unfoldable pub parse_parts : List ℕ → List ℕ → Option VolumeFileName
unfolding all_digits parse_usize_from
parse_parts base digits =
    if length base == 0 || (length digits == 0 || not (all_digits digits))
    then none
    else elim (parse_usize_from 0 digits) [
      | none ↦ none
      | some volume_index ↦ some (record { base = base; volume_index = volume_index })
    ]

unfoldable pub parse_volume_file_name : List ℕ → Option VolumeFileName
unfolding strip_case_insensitive_suffix rsplit_once parse_parts
parse_volume_file_name file_name =
    elim (strip_case_insensitive_suffix file_name tzap_extension_suffix) [
      | none ↦ none
      | some stem ↦ elim (rsplit_once stem tzap_volume_marker) [
        | none ↦ none
        | some parts ↦ parse_parts parts.0 parts.1
      ]
    ]

unfoldable pub multi_volume_base_name : List ℕ → List ℕ
unfolding strip_case_insensitive_suffix
multi_volume_base_name file_name =
    elim (strip_case_insensitive_suffix file_name tzap_extension_suffix) [
      | none ↦ file_name
      | some stem ↦ stem
    ]

-- The decimal digits of a number that has `fuel` of them at most.
unfoldable pub decimal_digits : ℕ → ℕ → List ℕ
decimal_digits zero n = []
decimal_digits (suc fuel) n =
    let rest = decimal_digits fuel (n / 10) in
    if ltb n 10 then (48 + n) ∷ [] else rest ++ ((48 + n % 10) ∷ [])

-- A `usize` has 20 digits at most.
unfoldable pub padded_index : ℕ → List ℕ
unfolding decimal_digits
padded_index index =
    let digits = decimal_digits 20 index in
    replicate (tzap_volume_index_width - length digits) 48 ++ digits

unfoldable pub volume_file_name : List ℕ → ℕ → List ℕ
unfolding padded_index
volume_file_name base zero_based_index =
    base ++ (tzap_volume_marker ++ (padded_index zero_based_index ++ tzap_extension_suffix))
