-- ===== src/Metadata/Paths/Examples.antt =====
-- Paths at concrete values.
use tzap.Prelude.{ℕ, ◌≡◌, ◌↔◌, refl, List, [], ◌∷◌, ◌++◌, Bool, true}
use tzap.Prelude.Bytes.{bytes_eq}
use tzap.Format.{ok, err, unsafe_archive_path}
use tzap.Wire.Extensions.Semantics.{is_utf8, contains}
use tzap.Metadata.Paths.{slash, split_on, validate_file_path_bytes, is_directory_ancestor}
use tzap.Metadata.Paths.Safe.{IsSafe, validate_file_path_bytes-IsSafe}
use tzap.Metadata.Paths.Ancestor.{is_directory_ancestor_iff}

-- etc/con2, etc, con.txt and etc/../x
abbrev file_path : List ℕ
file_path = 101 ∷ 116 ∷ 99 ∷ 47 ∷ 99 ∷ 111 ∷ 110 ∷ 50 ∷ []

abbrev directory_path : List ℕ
directory_path = 101 ∷ 116 ∷ 99 ∷ []

abbrev device_path : List ℕ
device_path = 99 ∷ 111 ∷ 110 ∷ 46 ∷ 116 ∷ 120 ∷ 116 ∷ []

abbrev dots_path : List ℕ
dots_path = 101 ∷ 116 ∷ 99 ∷ 47 ∷ 46 ∷ 46 ∷ 47 ∷ 120 ∷ []

-- Every text counts as normal.
abbrev any_text : List ℕ → Bool
any_text bytes = true

file_path_passes : validate_file_path_bytes any_text file_path 4096 ≡ ok tt
unfolding validate_file_path_bytes is_utf8 contains bytes_eq
file_path_passes = refl

device_path_refused : validate_file_path_bytes any_text device_path 4096 ≡ err unsafe_archive_path
unfolding validate_file_path_bytes is_utf8 contains bytes_eq
device_path_refused = refl

dots_path_refused : validate_file_path_bytes any_text dots_path 4096 ≡ err unsafe_archive_path
unfolding validate_file_path_bytes is_utf8 contains bytes_eq
dots_path_refused = refl

validate_file_path_bytes-IsSafe_example : IsSafe file_path 4096
validate_file_path_bytes-IsSafe_example =
    validate_file_path_bytes-IsSafe any_text file_path 4096 file_path_passes

is_directory_ancestor_iff_example : (is_directory_ancestor directory_path file_path ≡ true) ↔ (
    (next : List ℕ) × (rest : List (List ℕ)) × (split_on slash file_path
      ≡ split_on slash directory_path ++ (next ∷ rest)))
is_directory_ancestor_iff_example = is_directory_ancestor_iff 101 (116 ∷ 99 ∷ []) file_path
