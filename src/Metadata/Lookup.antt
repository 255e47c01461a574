-- ===== src/Metadata/Lookup.antt =====
-- Finding a path in an index shard, and a directory in a hint table:
-- `IndexShard::lookup_file_index`, `DirectoryHintTable::lookup_directory_index` and
-- `validate_file_order` of crates/tzap-core/src/metadata.rs. SHA-256 is an argument.
pub mod Sorted
pub mod Files
pub mod Directories
mod Examples
use tzap.Prelude.{
  ℕ, zero, suc, ◌-◌, List, [], ◌∷◌, map, length, take, get_or, Option, none, some, Bool, ltb, not,
  ◌&&◌, if◌then◌else◌,
}
use tzap.Prelude.Bytes.{bytes_eq}
use tzap.Format.{Result, ok, err, ◌>>◌, reject_if, invalid_metadata}
use tzap.Metadata.Rows.{FileEntry, IndexShard, DirectoryHintTable}
use tzap.Metadata.Order.{key_lt, row_lt}
use tzap.Metadata.Search.{lower_bound}

-- `files[index].path_hash`, `paths[index]` and `starts[index]` of tables that reach so far.
abbrev pub hash_at : List FileEntry → ℕ → List ℕ
hash_at files index = get_or (map (λ file. file.path_hash) files) index []

abbrev pub path_at : List (List ℕ) → ℕ → List ℕ
path_at paths index = get_or paths index []

abbrev pub start_at : List ℕ → ℕ → ℕ
start_at starts index = get_or starts index 0

-- The row at an index stands before the next one.
abbrev pub in_order : List FileEntry → List (List ℕ) → List ℕ → ℕ → ℕ → Bool
in_order files paths starts i j =
    row_lt (hash_at files i) (path_at paths i) (start_at starts i) (hash_at files j)
      (path_at paths j) (start_at starts j)

-- The loop of `validate_file_order` over the indexes from `index` on.
unfoldable pub file_order_from : List FileEntry → List (List ℕ) → List ℕ → ℕ → ℕ → Result (Unit {0})
file_order_from files paths starts zero index = ok tt
file_order_from files paths starts (suc count) index =
    reject_if (not (in_order files paths starts (index - 1) index))
      (invalid_metadata "IndexShard" "FileEntry rows are not sorted and unique")
    >> file_order_from files paths starts count (suc index)

unfoldable pub validate_file_order : List FileEntry → List (List ℕ) → List ℕ → Result (Unit {0})
unfolding file_order_from
validate_file_order files paths starts = file_order_from files paths starts (length files - 1) 1

-- The last index in a run of rows that match, from `index` on.
unfoldable pub scan_matches : (ℕ → Bool) → ℕ → ℕ → Option ℕ → Option ℕ
scan_matches matches zero index best = best
scan_matches matches (suc count) index best =
    let rest = scan_matches matches count (suc index) (some index) in
    if matches index then rest else best

module _ (sha256 : List ℕ → List ℕ) where
  abbrev pub hash_prefix : List ℕ → List ℕ
  hash_prefix bytes = take 8 (sha256 bytes)

  unfoldable pub lower_bound_file_key : IndexShard → List ℕ → List ℕ → ℕ
  unfolding lower_bound
  lower_bound_file_key shard target_hash target_path =
      lower_bound
        (λ mid.
          key_lt (hash_at shard.files mid) (path_at shard.file_paths mid) target_hash target_path)
        (length shard.files)

  unfoldable pub lookup_file_index : IndexShard → List ℕ → Option ℕ
  unfolding lower_bound_file_key scan_matches
  lookup_file_index shard normalized_path =
      let target_hash = hash_prefix normalized_path in
      let lower = lower_bound_file_key shard target_hash normalized_path in
      scan_matches
        (λ index.
          bytes_eq (hash_at shard.files index) target_hash
          && bytes_eq (path_at shard.file_paths index) normalized_path)
        (length shard.files - lower) lower none

  abbrev pub dir_hash_at : DirectoryHintTable → ℕ → List ℕ
  dir_hash_at table index = get_or (map (λ entry. entry.dir_hash) table.entries) index []

  unfoldable pub lower_bound_directory_key : DirectoryHintTable → List ℕ → List ℕ → ℕ
  unfolding lower_bound
  lower_bound_directory_key table target_hash target_path =
      lower_bound
        (λ mid.
          key_lt (dir_hash_at table mid) (path_at table.entry_paths mid) target_hash target_path)
        (length table.entries)

  unfoldable pub lookup_directory_index : DirectoryHintTable → List ℕ → Option ℕ
  unfolding lower_bound_directory_key
  lookup_directory_index table normalized_dir_path =
      let target_hash = hash_prefix normalized_dir_path in
      let lower = lower_bound_directory_key table target_hash normalized_dir_path in
      if ltb lower (length table.entries)
        && (bytes_eq (dir_hash_at table lower) target_hash
            && bytes_eq (path_at table.entry_paths lower) normalized_dir_path)
      then some lower
      else none
