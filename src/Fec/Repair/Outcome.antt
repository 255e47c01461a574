-- ===== src/Fec/Repair/Outcome.antt =====
-- What a successful repair and a successful recovery give, whatever is lost.
use tzap.Prelude.{
  ℕ, suc, ◌+◌, ◌%◌, ◌≤◌, ◌≡◌, refl, sym, ap, ◌∙◌, arith, inl, inr, List, [], ◌∷◌, map, length, none,
  some, true, not, ◌==◌, ltb, Bool-cases, if◌then◌else◌, ◌⊎◌,
}
use tzap.Prelude.Slices.{zeros, length-zeros}
use tzap.Format.{
  ok, first_succeeds, check_succeeds, ok-injective, reject_if, fec_odd_shard_size,
  fec_too_few_available_shards, reader_resource_limit_exceeded,
}
use tzap.Fec.Field.{Gf16Tables}
use tzap.Fec.Matrix.{try_map, invert_matrix, identity_row, cauchy_row}
use tzap.Fec.Shards.{validate_fec_counts, validate_available_shard}
use tzap.Fec.Repair.{Shard, Rows, all_some, unwrap, collect, combine, repair_lost, repair_with}
use tzap.Fec.Repair.Sizes.{
  length-map, length-combine, length-invert_matrix, available_count, collect_bounds,
}
use tzap.Fec.Repair.Complete.{Sized, checked}

-- The shards that are there, in their order.
abbrev pub present : List Shard → List (List ℕ)
present [] = []
present (none ∷ shards) = present shards
present (some shard ∷ shards) = shard ∷ present shards

-- What a repair gives: shards in the number and of the size of the data, where the erasure code
-- takes as many, from at least as many shards that are there. With all data there, that is the data;
-- with some of it lost, there are no more shards of data than the reader repairs.
pub record IsRepaired (data_shards parity_shards : List Shard) (size : ℕ) (out : List (List ℕ))
    : Type 0 where
  pub some_data : 1 ≤ length data_shards
  pub few_shards : length data_shards + length parity_shards ≤ 65535
  pub even_size : size % 2 ≡ 0
  pub shard_count : length out ≡ length data_shards
  pub shard_sizes : Sized size out
  pub enough : length data_shards ≤ available_count data_shards + available_count parity_shards
  pub limited : (length data_shards ≤ 1024) ⊎ (out ≡ present data_shards)

-- Where no shard is lost, the list is that of the shards that are there.
pub all_present :
    (shards : List Shard) → all_some shards ≡ true → shards ≡ map some (present shards)
unfolding all_some
all_present [] h = refl
all_present (none ∷ shards) h = absurd (ground arith)
all_present (some shard ∷ shards) h = ap (λ rest. some shard ∷ rest) (all_present shards h)

pub length-present : (shards : List (List ℕ)) → available_count (map some shards) ≡ length shards
length-present [] = refl
length-present (s ∷ ss) = ap suc (length-present ss)

present-map : (shards : List (List ℕ)) → present (map some shards) ≡ shards
present-map [] = refl
present-map (s ∷ ss) = ap (λ rest. s ∷ rest) (present-map ss)

module _ (tables : Gf16Tables) where
  combined-Sized :
      (size : ℕ) (available rows : List (List ℕ))
      → Sized size (map (λ row. combine tables (zeros size) row available) rows)
  combined-Sized size available [] = tt
  combined-Sized size available (row ∷ rows) = (
    length-combine tables (zeros size) row available ∙ length-zeros size,
    combined-Sized size available rows,
  )

  complete-IsRepaired :
      (shards : List (List ℕ)) (parity_shards : List Shard) (size : ℕ) (out : List (List ℕ))
      → 1 ≤ length shards
      → length shards + length parity_shards ≤ 65535
      → size % 2 ≡ 0
      → try_map (λ shard. validate_available_shard (unwrap shard) size) (map some shards) ≡ ok out
      → IsRepaired (map some shards) parity_shards size out
  complete-IsRepaired shards parity_shards size out positive few even h =
      let (sized, same) = checked size shards out h in
      let n = length-map some shards in
      let m = length-present shards in
      record {
        some_data = omega (arith, n);
        few_shards = omega (arith, n);
        even_size = even;
        shard_count = ap length same ∙ sym n;
        shard_sizes = rw same sized;
        enough = omega (arith, n, m);
        limited = inr (same ∙ sym (present-map shards));
      }

  all_rows_bounds :
      (n : ℕ) (parity_shards : List Shard) (rows : Rows) (size : ℕ) (out : Rows)
      → length rows ≤ n
      → (if ltb (length rows) n
          then collect tables n (cauchy_row tables n) size 0 parity_shards rows
          else ok rows)
        ≡ ok out
      → (length out ≤ n) × (length out ≤ length rows + available_count parity_shards)
  all_rows_bounds n parity_shards rows size out most h = elim (Bool-cases (ltb (length rows) n)) [
    | inl few ↦
        collect_bounds tables n (cauchy_row tables n) size 0 parity_shards rows out (ground arith)
          (rw few at h)
    | inr enough ↦
        let e = ap length (ok-injective (rw enough at h)) in (omega (arith, e), omega (arith, e))
  ]

  lost-IsRepaired :
      (data_shards parity_shards : List Shard) (size : ℕ) (out : List (List ℕ))
      → 1 ≤ length data_shards
      → length data_shards + length parity_shards ≤ 65535
      → size % 2 ≡ 0
      → repair_lost tables data_shards parity_shards size ≡ ok out
      → IsRepaired data_shards parity_shards size out
  unfolding repair_lost
  lost-IsRepaired data_shards parity_shards size out positive few even h =
      let n = length data_shards in
      let (cap, h1) =
        check_succeeds
          (reject_if (ltb 1024 n) (reader_resource_limit_exceeded "fec repair data shards" 1024 n))
          _ out h in
      let (rows, first, h2) =
        first_succeeds (collect tables n (λ i. ok (identity_row n i)) size 0 data_shards []) _ out
          h1 in
      let (all_rows, second, h3) =
        first_succeeds
          (if ltb (length rows) n
            then collect tables n (cauchy_row tables n) size 0 parity_shards rows
            else ok rows)
          _ out h2 in
      let (many, h4) =
        check_succeeds (reject_if (ltb (length all_rows) n) fec_too_few_available_shards) _ out
          h3 in
      let (inverse, i, h5) =
        first_succeeds (invert_matrix tables (map (λ (row, _). row) all_rows)) _ out h4 in
      let available = map (λ (_, shard). shard) all_rows in
      let same = ok-injective h5 in
      let from_data =
        collect_bounds tables n (λ i. ok (identity_row n i)) size 0 data_shards [] rows
          (omega arith) first in
      let counts = all_rows_bounds n parity_shards rows size all_rows from_data.0 second in
      let full : n ≤ length all_rows = ground arith in
      let square : length inverse ≡ length all_rows =
        length-invert_matrix tables (map (λ (row, _). row) all_rows) inverse i
        ∙ length-map (λ (row, _). row) all_rows in
      let made : length out ≡ length inverse =
        ap length (sym same)
        ∙ length-map (λ row. combine tables (zeros size) row available) inverse in
      record {
        some_data = positive;
        few_shards = few;
        even_size = even;
        shard_count = omega (arith, made, square, full, counts.0);
        shard_sizes = rw same at (combined-Sized size available inverse);
        enough = omega (arith, full, counts.1, from_data.1);
        limited = inl (ground arith);
      }

  pub repair_with-IsRepaired :
      (data_shards parity_shards : List Shard) (size : ℕ) (out : List (List ℕ))
      → repair_with tables data_shards parity_shards size ≡ ok out
      → IsRepaired data_shards parity_shards size out
  unfolding repair_with validate_fec_counts
  repair_with-IsRepaired data_shards parity_shards size out h =
      let (counts, h1) =
        check_succeeds (validate_fec_counts (length data_shards) (length parity_shards)) _ out h in
      let (even, h2) =
        check_succeeds (reject_if (not (size % 2 == 0)) fec_odd_shard_size) _ out h1 in
      let positive : 1 ≤ length data_shards = ground arith in
      let few : length data_shards + length parity_shards ≤ 65535 = ground arith in
      let even_size : size % 2 ≡ 0 = ground arith in
      elim (Bool-cases (all_some data_shards)) [
        | inl complete ↦
            let same = all_present data_shards complete in
            let n = ap length same ∙ length-map some (present data_shards) in
            rw same (
              complete-IsRepaired (present data_shards) parity_shards size out (omega (arith, n))
                (omega (arith, n)) even_size (rw (complete, same) at h2))
        | inr lost ↦
            lost-IsRepaired data_shards parity_shards size out positive few even_size
              (rw lost at h2)
      ]
