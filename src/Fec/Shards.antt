-- ===== src/Fec/Shards.antt =====
-- Shards in crates/tzap-core/src/fec.rs: their checks, the two accumulations, and the parity
-- shards. A shard is its list of bytes; an accumulation is between shards of the same length.
use Prim.Native.Nat.{bit_xor}
use tzap.Prelude.{
  ℕ, suc, ◌+◌, ◌-◌, ◌%◌, List, [], ◌∷◌, ◌++◌, length, get_or, Bool, false, ltb, not, ◌==◌, ◌||◌,
  if◌then◌else◌,
}
use tzap.Prelude.Slices.{zeros}
use tzap.Prelude.Bytes.{to_le, from_le}
use tzap.Format.{
  Result, ok, ◌>>◌, ◌>>=◌, reject_if, fec_zero_data_shards, fec_too_many_shards, fec_odd_shard_size,
  fec_inconsistent_shard_size, usize_mod,
}
use tzap.Fec.Field.{Gf16Tables, gf16_tables}
use tzap.Fec.Matrix.{cauchy_coefficient_with, try_map, range_from}

abbrev pub gf16_max_total_shards : ℕ
gf16_max_total_shards = 65535

unfoldable pub validate_fec_counts : ℕ → ℕ → Result (Unit {0})
validate_fec_counts data_shard_count parity_shard_count = do
  reject_if (data_shard_count == 0) fec_zero_data_shards
  let total = data_shard_count + parity_shard_count
  reject_if (not (ltb total usize_mod)) (fec_too_many_shards (usize_mod - 1))
  reject_if (ltb gf16_max_total_shards total) (fec_too_many_shards total)

-- `data_shards.iter().any(|shard| shard.len() != shard_size)`
unfoldable pub any_other_size : ℕ → List (List ℕ) → Bool
any_other_size shard_size [] = false
any_other_size shard_size (shard ∷ shards) =
    not (length shard == shard_size) || any_other_size shard_size shards

unfoldable pub validate_fec_shape : ℕ → ℕ → List (List ℕ) → Result (Unit {0})
unfolding validate_fec_counts any_other_size
validate_fec_shape data_shard_count parity_shard_count data_shards = do
  validate_fec_counts data_shard_count parity_shard_count
  let shard_size = length (get_or data_shards 0 [])
  reject_if (not (shard_size % 2 == 0)) fec_odd_shard_size
  reject_if (any_other_size shard_size data_shards) fec_inconsistent_shard_size

unfoldable pub validate_available_shard : List ℕ → ℕ → Result (List ℕ)
validate_available_shard shard shard_size = do
  reject_if (not (length shard == shard_size)) fec_inconsistent_shard_size
  ok shard

-- `*d ^= *s` along two slices.
unfoldable pub xor_bytes : List ℕ → List ℕ → List ℕ
xor_bytes [] src = []
xor_bytes (d ∷ dest) [] = d ∷ dest
xor_bytes (d ∷ dest) (s ∷ src) = bit_xor d s ∷ xor_bytes dest src

-- Words of eight bytes at a time, and the remainder byte by byte. The words are read and written
-- in one byte order, here from the least.
unfoldable pub accumulate_xor_shard : List ℕ → List ℕ → List ℕ
unfolding xor_bytes
accumulate_xor_shard (d0 ∷ d1 ∷ d2 ∷ d3 ∷ d4 ∷ d5 ∷ d6 ∷ d7 ∷ dest)
      (s0 ∷ s1 ∷ s2 ∷ s3 ∷ s4 ∷ s5 ∷ s6 ∷ s7 ∷ src) =
    to_le 8 (
      bit_xor (from_le (d0 ∷ d1 ∷ d2 ∷ d3 ∷ d4 ∷ d5 ∷ d6 ∷ d7 ∷ []))
        (from_le (s0 ∷ s1 ∷ s2 ∷ s3 ∷ s4 ∷ s5 ∷ s6 ∷ s7 ∷ [])))
    ++ accumulate_xor_shard dest src
accumulate_xor_shard dest src = xor_bytes dest src

-- One symbol of two bytes: the sum with the product by a coefficient that is given by its
-- logarithm.
unfoldable pub add_product : Gf16Tables → ℕ → ℕ → ℕ → ℕ
add_product tables log_c current symbol =
    if symbol == 0 then current else bit_xor current (tables.exp (tables.log symbol + log_c))

unfoldable pub accumulate_gf16_mul_shard : Gf16Tables → ℕ → List ℕ → List ℕ → List ℕ
unfolding add_product
accumulate_gf16_mul_shard tables log_c (d0 ∷ d1 ∷ dest) (s0 ∷ s1 ∷ src) =
    to_le 2 (add_product tables log_c (from_le (d0 ∷ d1 ∷ [])) (from_le (s0 ∷ s1 ∷ [])))
    ++ accumulate_gf16_mul_shard tables log_c dest src
accumulate_gf16_mul_shard tables log_c dest src = dest

-- What the loops of encoding and of repair do with one coefficient.
unfoldable pub accumulate : Gf16Tables → ℕ → List ℕ → List ℕ → List ℕ
unfolding accumulate_xor_shard accumulate_gf16_mul_shard
accumulate tables coefficient dest src =
    if coefficient == 0
    then dest
    else if coefficient == 1
    then accumulate_xor_shard dest src
    else accumulate_gf16_mul_shard tables (tables.log coefficient) dest src

module _ (tables : Gf16Tables) where
  -- The inner loop of `encode_parity_gf16`, from the data shard `i` on.
  unfoldable pub encode_shard : ℕ → ℕ → ℕ → List ℕ → List (List ℕ) → Result (List ℕ)
  unfolding accumulate cauchy_coefficient_with
  encode_shard data_shard_count j i parity_shard [] = ok parity_shard
  encode_shard data_shard_count j i parity_shard (data_shard ∷ data_shards) =
      cauchy_coefficient_with tables data_shard_count j i >>= (λ coefficient.
        encode_shard data_shard_count j (suc i)
          (accumulate tables coefficient parity_shard data_shard) data_shards)

  unfoldable pub encode_parity_with : List (List ℕ) → ℕ → Result (List (List ℕ))
  unfolding encode_shard validate_fec_shape try_map range_from
  encode_parity_with data_shards parity_shard_count = do
    let data_shard_count = length data_shards
    validate_fec_shape data_shard_count parity_shard_count data_shards
    let shard_size = length (get_or data_shards 0 [])
    try_map (λ j. encode_shard data_shard_count j 0 (zeros shard_size) data_shards)
        (range_from 0 parity_shard_count)

-- With no parity asked for, the loop makes none, as the early return of the source does.
unfoldable pub encode_parity_gf16 : List (List ℕ) → ℕ → Result (List (List ℕ))
unfolding encode_parity_with gf16_tables
encode_parity_gf16 data_shards parity_shard_count =
    encode_parity_with gf16_tables data_shards parity_shard_count
