-- ===== src/VolumeFile/RoundTrip.antt =====
-- A volume's name parses to the base and the index that it was made from.
use native.Mathlib.Nat.{pow-suc}
use tzap.Prelude.{
  ℕ, zero, suc, ◌+◌, ◌-◌, ◌*◌, ◌/◌, ◌%◌, ◌^◌, ◌≤◌, ◌<◌, ◌≡◌, refl, sym, ap, ◌∙◌, arith, List, [],
  ◌∷◌, ◌++◌, append_assoc, length, length-append, take-append, drop-append, replicate, none, some,
  true, false, ltb, ◌==◌, All, Bool-cases, inl, inr,
}
use tzap.Prelude.Bytes.{bytes_eq_refl, starts_with}
use tzap.VolumeFile.{
  tzap_extension_suffix, tzap_volume_marker, to_ascii_lowercase, strip_case_insensitive_suffix,
  rsplit_once, all_digits, parse_usize_from, parse_parts, parse_volume_file_name, decimal_digits,
  padded_index, volume_file_name,
}

abbrev IsDigit : ℕ → Type 0
IsDigit b = (48 ≤ b) × (b ≤ 57)

strip_suffix-append :
    (stem : List ℕ)
    → strip_case_insensitive_suffix (stem ++ tzap_extension_suffix) tzap_extension_suffix
      ≡ some stem
unfolding strip_case_insensitive_suffix
strip_suffix-append stem =
    let size : length (stem ++ tzap_extension_suffix) ≡ length stem + 5 =
      length-append stem tzap_extension_suffix in
    let short : ltb (length stem + 5) 5 ≡ false = ground arith in
    let rest : length stem + 5 - 5 ≡ length stem = omega arith in
    rw (
      size,
      short,
      rest,
      drop-append (length stem) stem tzap_extension_suffix refl,
      bytes_eq_refl (to_ascii_lowercase tzap_extension_suffix),
      take-append (length stem) stem tzap_extension_suffix refl,
    )

-- No marker starts in digits.
rsplit_digits : (ds : List ℕ) → All IsDigit ds → rsplit_once ds tzap_volume_marker ≡ none
unfolding rsplit_once starts_with
rsplit_digits [] h = refl
rsplit_digits (d ∷ ds) (p, h) = rw (rsplit_digits ds h) (ground arith)

rsplit_marker :
    (base ds : List ℕ)
    → All IsDigit ds
    → rsplit_once (base ++ (tzap_volume_marker ++ ds)) tzap_volume_marker ≡ some (base, ds)
unfolding rsplit_once starts_with
rsplit_marker [] ds h = rw (rsplit_digits ds h)
rsplit_marker (b ∷ base) ds h = rw (rsplit_marker base ds h)

all_digits-IsDigit : (ds : List ℕ) → All IsDigit ds → all_digits ds ≡ true
unfolding all_digits
all_digits-IsDigit [] h = refl
all_digits-IsDigit (d ∷ ds) (p, h) = ground (arith, all_digits-IsDigit ds h)

All-append : (xs ys : List ℕ) → All IsDigit xs → All IsDigit ys → All IsDigit (xs ++ ys)
All-append [] ys h k = k
All-append (x ∷ xs) ys (p, h) k = (p, All-append xs ys h k)

zeros-IsDigit : (n : ℕ) → All IsDigit (replicate n 48)
zeros-IsDigit zero = tt
zeros-IsDigit (suc n) = (omega arith, zeros-IsDigit n)

parse-zeros :
    (n : ℕ) (ds : List ℕ) → parse_usize_from 0 (replicate n 48 ++ ds) ≡ parse_usize_from 0 ds
unfolding parse_usize_from
parse-zeros zero ds = refl
parse-zeros (suc n) ds = parse-zeros n ds

-- One more digit at the end.
parse-last :
    (ds : List ℕ) (start value d : ℕ)
    → parse_usize_from start ds ≡ some value
    → value * 10 + d < 2 ^ 64
    → parse_usize_from start (ds ++ ((48 + d) ∷ [])) ≡ some (value * 10 + d)
unfolding parse_usize_from
parse-last [] start value d h k = ground arith
parse-last (x ∷ ds) start value d h k =
    ground (arith, parse-last ds (start * 10 + (x - 48)) value d)

decimal_digits-IsDigit : (fuel n : ℕ) → All IsDigit (decimal_digits fuel n)
unfolding decimal_digits
decimal_digits-IsDigit zero n = tt
decimal_digits-IsDigit (suc fuel) n = elim (Bool-cases (ltb n 10)) [
  | inl one ↦ rw one ((omega arith, ground arith), tt)
  | inr more ↦ rw more (
      All-append (decimal_digits fuel (n / 10)) ((48 + n % 10) ∷ [])
        (decimal_digits-IsDigit fuel (n / 10)) ((omega arith, omega arith), tt))
]

decimal_digits_some : (fuel n : ℕ) → 1 ≤ length (decimal_digits (suc fuel) n)
unfolding decimal_digits
decimal_digits_some fuel n =
    ground (arith, length-append (decimal_digits fuel (n / 10)) ((48 + n % 10) ∷ []))

positive_of : (fuel n : ℕ) → n < 10 ^ fuel → 1 ≤ n → 1 ≤ fuel
positive_of zero n h k = absurd (omega arith)
positive_of (suc fuel) n h k = omega arith

parse-decimal_digits :
    (fuel n : ℕ)
    → n < 10 ^ fuel
    → n < 2 ^ 64
    → 1 ≤ fuel
    → parse_usize_from 0 (decimal_digits fuel n) ≡ some n
unfolding decimal_digits parse_usize_from
parse-decimal_digits zero n h k one = absurd (omega arith)
parse-decimal_digits (suc fuel) n h k one = elim (Bool-cases (ltb n 10)) [
  | inl one_digit ↦ rw one_digit (ground arith)
  | inr more ↦
      let p = pow-suc 10 fuel in
      let small : n / 10 < 10 ^ fuel = omega (arith, p) in
      let positive : 1 ≤ fuel = positive_of fuel (n / 10) small (ground arith) in
      let rest = parse-decimal_digits fuel (n / 10) small (omega arith) positive in
      let value : n / 10 * 10 + n % 10 ≡ n = omega arith in
      rw more (
        parse-last (decimal_digits fuel (n / 10)) 0 (n / 10) (n % 10) rest (omega arith)
        ∙ ap some value)
]

padded_some : (index : ℕ) → 1 ≤ length (padded_index index)
unfolding padded_index
padded_some index = omega (
  arith,
  decimal_digits_some 19 index,
  length-append (replicate (3 - length (decimal_digits 20 index)) 48) (decimal_digits 20 index),
)

parse_stem :
    (base ds : List ℕ) (index : ℕ)
    → 1 ≤ length base
    → All IsDigit ds
    → 1 ≤ length ds
    → parse_usize_from 0 ds ≡ some index
    → parse_volume_file_name ((base ++ (tzap_volume_marker ++ ds)) ++ tzap_extension_suffix)
      ≡ some (record { base = base; volume_index = index })
unfolding parse_volume_file_name parse_parts
parse_stem base ds index named digits some_digits value =
    let no_base : (length base == 0) ≡ false = ground arith in
    let no_digits : (length ds == 0) ≡ false = ground arith in
    rw (
      strip_suffix-append (base ++ (tzap_volume_marker ++ ds)),
      rsplit_marker base ds digits,
      no_base,
      no_digits,
      all_digits-IsDigit ds digits,
      value,
      parse_parts,
      parse_volume_file_name,
    )

-- The name of a volume of an archive with a name, at an index of 64 bits, parses to both.
pub parse_volume_file_name-volume_file_name :
    (base : List ℕ) (index : ℕ)
    → 1 ≤ length base
    → index < 2 ^ 64
    → parse_volume_file_name (volume_file_name base index)
      ≡ some (record { base = base; volume_index = index })
unfolding parse_volume_file_name volume_file_name padded_index parse_parts
parse_volume_file_name-volume_file_name base index named small =
    let digits = decimal_digits 20 index in
    let padded = replicate (3 - length digits) 48 ++ digits in
    let stem = base ++ (tzap_volume_marker ++ padded) in
    let is_digit =
      All-append (replicate (3 - length digits) 48) digits (zeros-IsDigit (3 - length digits))
        (decimal_digits-IsDigit 20 index) in
    let whole : base ++ (tzap_volume_marker ++ (padded ++ tzap_extension_suffix))
        ≡ stem ++ tzap_extension_suffix =
      sym (append_assoc base (tzap_volume_marker ++ padded) tzap_extension_suffix) in
    let value =
      parse-zeros (3 - length digits) digits
      ∙ parse-decimal_digits 20 index (omega arith) small (omega arith) in
    ap parse_volume_file_name whole
    ∙ parse_stem base padded index named is_digit (padded_some index) value
