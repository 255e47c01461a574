-- ===== src/Metadata/Paths.antt =====
-- The paths of an archive's members: `validate_file_path_bytes`, `validate_directory_path_bytes`
-- and `is_directory_ancestor` of crates/tzap-core/src/metadata.rs. A path is its bytes; the test
-- that a text is in Unicode's normal form C is an argument.
pub mod Safe
pub mod Ancestor
mod Examples
use tzap.Prelude.{
  ℕ, ◌-◌, List, [], ◌∷◌, length, get_or, Bool, true, false, ltb, leb, not, ◌==◌, ◌&&◌, ◌||◌,
  if◌then◌else◌,
}
use tzap.Prelude.Bytes.{bytes_eq, starts_with}
use tzap.Format.{Result, ok, err, ◌>>◌, reject_if, unsafe_archive_path}
use tzap.Wire.Extensions.Semantics.{is_utf8, contains}

abbrev pub slash : ℕ
slash = 47

-- `str::split` at a character of one byte: the first part and the others.
unfoldable pub split_first : ℕ → List ℕ → List ℕ × List (List ℕ)
split_first sep [] = ([], [])
split_first sep (b ∷ bs) =
    let rest = split_first sep bs in
    if b == sep then ([], rest.0 ∷ rest.1) else (b ∷ rest.0, rest.1)

unfoldable pub split_on : ℕ → List ℕ → List (List ℕ)
unfolding split_first
split_on sep bs = (split_first sep bs).0 ∷ (split_first sep bs).1

-- `trim_end_matches([' ', '.'])`
unfoldable pub trim_end : List ℕ → List ℕ
trim_end [] = []
trim_end (b ∷ bs) = elim (trim_end bs) [
  | [] ↦ if b == 32 || b == 46 then [] else b ∷ []
  | c ∷ cs ↦ b ∷ c ∷ cs
]

unfoldable pub to_ascii_uppercase : List ℕ → List ℕ
to_ascii_uppercase [] = []
to_ascii_uppercase (b ∷ bs) =
    let rest = to_ascii_uppercase bs in if leb 97 b && leb b 122 then (b - 32) ∷ rest else b ∷ rest

-- CON, PRN, AUX, NUL and CLOCK$, and the ports COM and LPT with a digit, 1 to 9 or a
-- superscript 1 to 3, after them.
abbrev pub device_names : List (List ℕ)
device_names =
    (67 ∷ 79 ∷ 78 ∷ [])
    ∷ (80 ∷ 82 ∷ 78 ∷ [])
    ∷ (65 ∷ 85 ∷ 88 ∷ [])
    ∷ (78 ∷ 85 ∷ 76 ∷ [])
    ∷ (67 ∷ 76 ∷ 79 ∷ 67 ∷ 75 ∷ 36 ∷ [])
    ∷ (67 ∷ 79 ∷ 77 ∷ 49 ∷ [])
    ∷ (67 ∷ 79 ∷ 77 ∷ 50 ∷ [])
    ∷ (67 ∷ 79 ∷ 77 ∷ 51 ∷ [])
    ∷ (67 ∷ 79 ∷ 77 ∷ 52 ∷ [])
    ∷ (67 ∷ 79 ∷ 77 ∷ 53 ∷ [])
    ∷ (67 ∷ 79 ∷ 77 ∷ 54 ∷ [])
    ∷ (67 ∷ 79 ∷ 77 ∷ 55 ∷ [])
    ∷ (67 ∷ 79 ∷ 77 ∷ 56 ∷ [])
    ∷ (67 ∷ 79 ∷ 77 ∷ 57 ∷ [])
    ∷ (67 ∷ 79 ∷ 77 ∷ 194 ∷ 185 ∷ [])
    ∷ (67 ∷ 79 ∷ 77 ∷ 194 ∷ 178 ∷ [])
    ∷ (67 ∷ 79 ∷ 77 ∷ 194 ∷ 179 ∷ [])
    ∷ (76 ∷ 80 ∷ 84 ∷ 49 ∷ [])
    ∷ (76 ∷ 80 ∷ 84 ∷ 50 ∷ [])
    ∷ (76 ∷ 80 ∷ 84 ∷ 51 ∷ [])
    ∷ (76 ∷ 80 ∷ 84 ∷ 52 ∷ [])
    ∷ (76 ∷ 80 ∷ 84 ∷ 53 ∷ [])
    ∷ (76 ∷ 80 ∷ 84 ∷ 54 ∷ [])
    ∷ (76 ∷ 80 ∷ 84 ∷ 55 ∷ [])
    ∷ (76 ∷ 80 ∷ 84 ∷ 56 ∷ [])
    ∷ (76 ∷ 80 ∷ 84 ∷ 57 ∷ [])
    ∷ (76 ∷ 80 ∷ 84 ∷ 194 ∷ 185 ∷ [])
    ∷ (76 ∷ 80 ∷ 84 ∷ 194 ∷ 178 ∷ [])
    ∷ (76 ∷ 80 ∷ 84 ∷ 194 ∷ 179 ∷ [])
    ∷ []

unfoldable pub one_of : List (List ℕ) → List ℕ → Bool
one_of [] name = false
one_of (n ∷ ns) name = bytes_eq n name || one_of ns name

unfoldable pub is_windows_device_component : List ℕ → Bool
unfolding split_first trim_end to_ascii_uppercase one_of
is_windows_device_component component =
    one_of device_names (to_ascii_uppercase (trim_end (split_first 46 component).0))

-- The loop over the components of a path.
unfoldable pub validate_components : List (List ℕ) → Result (Unit {0})
unfolding is_windows_device_component
validate_components [] = ok tt
validate_components (component ∷ components) =
    reject_if
      (bytes_eq component [] || (bytes_eq component (46 ∷ []) || bytes_eq component (46 ∷ 46 ∷ [])))
      unsafe_archive_path
    >> reject_if (is_windows_device_component component) unsafe_archive_path
    >> validate_components components

module _ (is_nfc : List ℕ → Bool) where
  unfoldable pub validate_relative_path : List ℕ → Bool → Result (Unit {0})
  unfolding contains split_on validate_components
  validate_relative_path [] allow_empty_root =
      if allow_empty_root then ok tt else err unsafe_archive_path
  validate_relative_path (first ∷ rest) allow_empty_root =
      reject_if
        (contains (first ∷ rest) 0
          || (contains (first ∷ rest) 92 || (contains (first ∷ rest) 58 || first == slash)))
        unsafe_archive_path
      >> reject_if (not (is_utf8 (first ∷ rest))) unsafe_archive_path
      >> reject_if (not (is_nfc (first ∷ rest))) unsafe_archive_path
      >> validate_components (split_on slash (first ∷ rest))

  unfoldable pub validate_file_path_bytes : List ℕ → ℕ → Result (Unit {0})
  unfolding validate_relative_path
  validate_file_path_bytes path max_path_length =
      reject_if (length path == 0 || ltb max_path_length (length path)) unsafe_archive_path
      >> validate_relative_path path false

  unfoldable pub validate_directory_path_bytes : List ℕ → ℕ → Result (Unit {0})
  unfolding validate_relative_path
  validate_directory_path_bytes path max_path_length =
      reject_if (ltb max_path_length (length path)) unsafe_archive_path
      >> validate_relative_path path true

unfoldable pub is_directory_ancestor : List ℕ → List ℕ → Bool
unfolding starts_with
is_directory_ancestor [] file_path = true
is_directory_ancestor (d ∷ ds) file_path =
    ltb (length (d ∷ ds)) (length file_path)
    && (starts_with file_path (d ∷ ds) && get_or file_path (length (d ∷ ds)) 0 == slash)
