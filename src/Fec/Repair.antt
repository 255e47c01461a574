-- ===== src/Fec/Repair.antt =====
-- `repair_data_gf16` and `recover_data_bytes_gf16` of crates/tzap-core/src/fec.rs. A shard that is
-- lost is `none`.
mod Sizes
mod Complete
pub mod Outcome
pub mod Recovery
use tzap.Prelude.{
  ℕ, zero, suc, ◌+◌, ◌*◌, ◌%◌, List, [], ◌∷◌, ◌++◌, map, length, Option, none, some, Bool, true,
  false, ltb, not, ◌==◌, ◌&&◌, ◌||◌, if◌then◌else◌,
}
use tzap.Prelude.Slices.{zeros}
use tzap.Format.{
  Result, ok, err, ◌>>◌, ◌>>=◌, reject_if, fec_odd_shard_size, fec_inconsistent_shard_size,
  fec_too_few_available_shards, reader_resource_limit_exceeded, usize_mod,
}
use tzap.Fec.Field.{Gf16Tables, gf16_tables}
use tzap.Fec.Matrix.{identity_row, cauchy_row, invert_matrix, try_map}
use tzap.Fec.Shards.{validate_fec_counts, validate_available_shard, accumulate}

abbrev pub Shard : Type 0
Shard = Option (List ℕ)

abbrev pub is_some : Shard → Bool
is_some none = false
is_some (some shard) = true

-- `shards.iter().all(Option::is_some)`
unfoldable pub all_some : List Shard → Bool
all_some [] = true
all_some (shard ∷ shards) = is_some shard && all_some shards

-- `shard.as_ref().unwrap()`, where no shard is lost.
abbrev pub unwrap : Shard → List ℕ
unwrap none = []
unwrap (some shard) = shard

-- `READER_MAX_REPAIR_TOTAL_SHARDS`
abbrev pub reader_max_repair_total_shards : ℕ
reader_max_repair_total_shards = 1024

-- The rows of the code that are in use, each with its shard.
abbrev pub Rows : Type 0
Rows = List (List ℕ × List ℕ)

module _ (tables : Gf16Tables) where
  -- The shards that are there, from the index `i` on, until there are `data_shard_count` rows.
  unfoldable pub collect : ℕ → (ℕ → Result (List ℕ)) → ℕ → ℕ → List Shard → Rows → Result Rows
  unfolding validate_available_shard
  collect data_shard_count row_of shard_size i [] rows = ok rows
  collect data_shard_count row_of shard_size i (none ∷ shards) rows =
      collect data_shard_count row_of shard_size (suc i) shards rows
  collect data_shard_count row_of shard_size i (some shard ∷ shards) rows = row_of i >>= (λ row.
      validate_available_shard shard shard_size >>= (λ available.
        let more = rows ++ ((row, available) ∷ []) in
        let next = collect data_shard_count row_of shard_size (suc i) shards more in
        if length more == data_shard_count then ok more else next))

  -- One repaired shard: the sum of the available shards with the coefficients of a row.
  unfoldable pub combine : List ℕ → List ℕ → List (List ℕ) → List ℕ
  unfolding accumulate
  combine dest [] available = dest
  combine dest (coefficient ∷ row) [] = dest
  combine dest (coefficient ∷ row) (src ∷ available) =
      combine (accumulate tables coefficient dest src) row available

  -- What `repair_data_gf16` does when a data shard is lost.
  unfoldable pub repair_lost : List Shard → List Shard → ℕ → Result (List (List ℕ))
  unfolding collect combine invert_matrix identity_row cauchy_row
  repair_lost data_shards parity_shards shard_size = do
    let data_shard_count = length data_shards
    reject_if (ltb reader_max_repair_total_shards data_shard_count) (
        reader_resource_limit_exceeded "fec repair data shards" reader_max_repair_total_shards
          data_shard_count)
    rows ←
        collect data_shard_count (λ i. ok (identity_row data_shard_count i)) shard_size 0
          data_shards []
    all_rows ←
        if ltb (length rows) data_shard_count
        then collect data_shard_count (cauchy_row tables data_shard_count) shard_size 0
            parity_shards rows
        else ok rows
    reject_if (ltb (length all_rows) data_shard_count) fec_too_few_available_shards
    inverse ← invert_matrix tables (map (λ (row, _). row) all_rows)
    ok (map (λ row. combine (zeros shard_size) row (map (λ (_, shard). shard) all_rows)) inverse)

  unfoldable pub repair_with : List Shard → List Shard → ℕ → Result (List (List ℕ))
  unfolding repair_lost validate_fec_counts all_some try_map validate_available_shard
  repair_with data_shards parity_shards shard_size = do
    validate_fec_counts (length data_shards) (length parity_shards)
    reject_if (not (shard_size % 2 == 0)) fec_odd_shard_size
    (if all_some data_shards
        then try_map (λ shard. validate_available_shard (unwrap shard) shard_size) data_shards
        else repair_lost data_shards parity_shards shard_size)

unfoldable pub repair_data_gf16 : List Shard → List Shard → ℕ → Result (List (List ℕ))
unfolding repair_with gf16_tables
repair_data_gf16 data_shards parity_shards shard_size =
    repair_with gf16_tables data_shards parity_shards shard_size

-- The loop of `concatenate_complete_data_shards`.
unfoldable pub concatenate_from : ℕ → List Shard → Result (Option (List ℕ))
concatenate_from shard_size [] = ok (some [])
concatenate_from shard_size (none ∷ shards) = ok none
concatenate_from shard_size (some shard ∷ shards) = do
  reject_if (not (length shard == shard_size)) fec_inconsistent_shard_size
  rest ← concatenate_from shard_size shards
  ok (elim rest [ none ↦ none | some bytes ↦ some (shard ++ bytes) ])

abbrev pub is_empty : List Shard → Bool
is_empty [] = true
is_empty (shard ∷ shards) = false

unfoldable pub concatenate_complete_data_shards : List Shard → ℕ → Result (Option (List ℕ))
unfolding concatenate_from all_some
concatenate_complete_data_shards data_shards shard_size =
    if is_empty data_shards || not (all_some data_shards) then ok none else (do
      reject_if (not (ltb (length data_shards * shard_size) usize_mod)) fec_inconsistent_shard_size
      concatenate_from shard_size data_shards)

abbrev pub concat : List (List ℕ) → List ℕ
concat [] = []
concat (shard ∷ shards) = shard ++ concat shards

module _ (tables : Gf16Tables) where
  unfoldable pub recover_with : List Shard → List Shard → ℕ → Result (List ℕ)
  unfolding concatenate_complete_data_shards repair_with
  recover_with data_shards parity_shards shard_size = do
    complete ← concatenate_complete_data_shards data_shards shard_size
    elim complete [
      | some concatenated ↦ ok concatenated
      | none ↦
          repair_with tables data_shards parity_shards shard_size
          >>= (λ repaired. ok (concat repaired))
    ]

unfoldable pub recover_data_bytes_gf16 : List Shard → List Shard → ℕ → Result (List ℕ)
unfolding recover_with gf16_tables
recover_data_bytes_gf16 data_shards parity_shards shard_size =
    recover_with gf16_tables data_shards parity_shards shard_size
