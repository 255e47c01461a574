-- ===== src/Fec/Matrix.antt =====
-- Matrices over GF(2^16) in crates/tzap-core/src/fec.rs: the rows of the code, and Gauss-Jordan
-- elimination. A matrix is a list of rows.
use Prim.Native.Nat.{bit_xor}
use tzap.Prelude.{
  ℕ, zero, suc, ◌+◌, ◌-◌, ◌%◌, ◌^◌, List, [], ◌∷◌, ◌++◌, map, length, get_or, Option, none, some,
  not, ◌==◌, if◌then◌else◌,
}
use tzap.Prelude.Slices.{slice, zeros}
use tzap.Format.{Result, ok, ◌>>◌, ◌>>=◌, reject_if, ok_or, fec_singular_matrix}
use tzap.Fec.Field.{Gf16Tables, gf16_mul_with, gf16_inverse_with}

-- `v[i] = x`
unfoldable pub set_at {ℓ} : {A : Type ℓ} → List A → ℕ → A → List A
set_at [] i x = []
set_at (y ∷ ys) zero x = x ∷ ys
set_at (y ∷ ys) (suc i) x = y ∷ set_at ys i x

-- `from, from + 1, …`, as many as are said.
unfoldable pub range_from : ℕ → ℕ → List ℕ
range_from from zero = []
range_from from (suc count) = from ∷ range_from (suc from) count

unfoldable pub identity_row : ℕ → ℕ → List ℕ
unfolding set_at
identity_row width one_at = set_at (zeros width) one_at 1

-- The inverse of a denominator that is not zero, where `expect` takes it out of the result.
unfoldable pub cauchy_coefficient_with : Gf16Tables → ℕ → ℕ → ℕ → Result ℕ
cauchy_coefficient_with tables data_shard_count parity_row data_col =
    let x_i = data_col % 2 ^ 16 in
    let y_j = (data_shard_count + parity_row) % 2 ^ 16 in gf16_inverse_with tables (bit_xor x_i y_j)

-- Each element in turn, up to the first error.
unfoldable pub try_map {ℓ κ} : {A : Type ℓ} {B : Type κ} → (A → Result B) → List A → Result (List B)
try_map f [] = ok []
try_map f (x ∷ xs) = do y ← f x; ys ← try_map f xs; ok (y ∷ ys)

module _ (tables : Gf16Tables) where
  unfoldable pub cauchy_row : ℕ → ℕ → Result (List ℕ)
  unfolding try_map cauchy_coefficient_with range_from
  cauchy_row data_shard_count parity_row =
      try_map (cauchy_coefficient_with tables data_shard_count parity_row)
        (range_from 0 data_shard_count)

  abbrev pub entry : List (List ℕ) → ℕ → ℕ → ℕ
  entry matrix row col = get_or (get_or matrix row []) col 0

  -- `(col..n).find(|row| matrix[*row][col] != 0)`
  unfoldable pub find_pivot : List (List ℕ) → ℕ → List ℕ → Option ℕ
  find_pivot matrix col [] = none
  find_pivot matrix col (row ∷ rows) =
      if entry matrix row col == 0 then find_pivot matrix col rows else some row

  -- `matrix.swap(a, b)`
  unfoldable pub swap : List (List ℕ) → ℕ → ℕ → List (List ℕ)
  unfolding set_at
  swap matrix a b = set_at (set_at matrix a (get_or matrix b [])) b (get_or matrix a [])

  -- The identity is put beside a square matrix.
  unfoldable pub augment_from : ℕ → ℕ → List (List ℕ) → Result (List (List ℕ))
  unfolding identity_row
  augment_from n i [] = ok []
  augment_from n i (row ∷ rows) = do
    reject_if (not (length row == n)) fec_singular_matrix
    rest ← augment_from n (suc i) rows
    ok ((row ++ identity_row n i) ∷ rest)

  -- `value ^= factor * pivot_value` along a row.
  unfoldable pub subtract_row : ℕ → List ℕ → List ℕ → List ℕ
  subtract_row factor [] pivot_row = []
  subtract_row factor (value ∷ row) [] = value ∷ row
  subtract_row factor (value ∷ row) (pivot_value ∷ pivot_row) =
      bit_xor value (gf16_mul_with tables factor pivot_value) ∷ subtract_row factor row pivot_row

  -- The rows but the pivot's own lose their entry in the column.
  unfoldable pub clear_column : ℕ → List ℕ → ℕ → List (List ℕ) → List (List ℕ)
  unfolding subtract_row
  clear_column col pivot_row i [] = []
  clear_column col pivot_row i (row ∷ rows) =
      let factor = get_or row col 0 in
      let cleared = if factor == 0 then row else subtract_row factor row pivot_row in
      (if i == col then row else cleared) ∷ clear_column col pivot_row (suc i) rows

  -- One column of the elimination.
  unfoldable pub eliminate_column : ℕ → ℕ → List (List ℕ) → Result (List (List ℕ))
  unfolding find_pivot range_from swap set_at clear_column
  eliminate_column n col matrix = do
    pivot ← ok_or (find_pivot matrix col (range_from col (n - col))) fec_singular_matrix
    let swapped = if pivot == col then matrix else swap matrix pivot col
    inv_pivot ← gf16_inverse_with tables (entry swapped col col)
    let pivot_row = map (λ value. gf16_mul_with tables value inv_pivot) (get_or swapped col [])
    ok (clear_column col pivot_row 0 (set_at swapped col pivot_row))

  unfoldable pub eliminate_columns : ℕ → List ℕ → List (List ℕ) → Result (List (List ℕ))
  unfolding eliminate_column
  eliminate_columns n [] matrix = ok matrix
  eliminate_columns n (col ∷ cols) matrix =
      eliminate_column n col matrix >>= (λ next. eliminate_columns n cols next)

  unfoldable pub invert_matrix : List (List ℕ) → Result (List (List ℕ))
  unfolding augment_from eliminate_columns range_from
  invert_matrix matrix = do
    let n = length matrix
    augmented ← augment_from n 0 matrix
    reduced ← eliminate_columns n (range_from 0 n) augmented
    ok (map (λ row. slice row n (n + n)) reduced)
