-- ===== src/Fec/Repair/Sizes.antt =====
-- What repair keeps: the number of rows of a matrix, and the size of a shard.
use tzap.Prelude.{
  ℕ, zero, suc, ◌+◌, ◌-◌, ◌≤◌, ◌<◌, ◌≡◌, refl, sym, ap, ◌∙◌, arith, inl, inr, List, [], ◌∷◌, ◌++◌,
  map, length, length-append, none, some, ◌==◌, Bool-cases, if◌then◌else◌, get_or, Bool, true,
  false,
}
use tzap.Prelude.Bytes.{to_le, length-to_le}
use tzap.Format.{
  Result, ok, first_succeeds, check_succeeds, ok-injective, ok_or, fec_singular_matrix,
}
use tzap.Fec.Field.{Gf16Tables, gf16_mul_with, gf16_inverse_with}
use tzap.Fec.Matrix.{
  set_at, swap, augment_from, clear_column, eliminate_column, eliminate_columns, invert_matrix,
  find_pivot, entry, range_from,
}
use tzap.Fec.Shards.{
  xor_bytes, accumulate_xor_shard, accumulate_gf16_mul_shard, accumulate, validate_available_shard,
}
use tzap.Fec.Repair.{Shard, Rows, collect, combine}

length-set_at : {A : Type 0} (xs : List A) (i : ℕ) (x : A) → length (set_at xs i x) ≡ length xs
unfolding set_at
length-set_at [] i x = refl
length-set_at (y ∷ ys) zero x = refl
length-set_at (y ∷ ys) (suc i) x = ap suc (length-set_at ys i x)

pub length-map : {A B : Type 0} (f : A → B) (xs : List A) → length (map f xs) ≡ length xs
length-map f [] = refl
length-map f (x ∷ xs) = ap suc (length-map f xs)

length-xor_bytes : (dest src : List ℕ) → length (xor_bytes dest src) ≡ length dest
unfolding xor_bytes
length-xor_bytes [] src = refl
length-xor_bytes (d ∷ dest) [] = refl
length-xor_bytes (d ∷ dest) (s ∷ src) = ap suc (length-xor_bytes dest src)

length-accumulate_xor_shard :
    (dest src : List ℕ) → length (accumulate_xor_shard dest src) ≡ length dest
unfolding accumulate_xor_shard
length-accumulate_xor_shard [] src = length-xor_bytes [] src
length-accumulate_xor_shard (d0 ∷ []) src = length-xor_bytes (d0 ∷ []) src
length-accumulate_xor_shard (d0 ∷ d1 ∷ []) src = length-xor_bytes (d0 ∷ d1 ∷ []) src
length-accumulate_xor_shard (d0 ∷ d1 ∷ d2 ∷ []) src = length-xor_bytes (d0 ∷ d1 ∷ d2 ∷ []) src
length-accumulate_xor_shard (d0 ∷ d1 ∷ d2 ∷ d3 ∷ []) src =
    length-xor_bytes (d0 ∷ d1 ∷ d2 ∷ d3 ∷ []) src
length-accumulate_xor_shard (d0 ∷ d1 ∷ d2 ∷ d3 ∷ d4 ∷ []) src =
    length-xor_bytes (d0 ∷ d1 ∷ d2 ∷ d3 ∷ d4 ∷ []) src
length-accumulate_xor_shard (d0 ∷ d1 ∷ d2 ∷ d3 ∷ d4 ∷ d5 ∷ []) src =
    length-xor_bytes (d0 ∷ d1 ∷ d2 ∷ d3 ∷ d4 ∷ d5 ∷ []) src
length-accumulate_xor_shard (d0 ∷ d1 ∷ d2 ∷ d3 ∷ d4 ∷ d5 ∷ d6 ∷ []) src =
    length-xor_bytes (d0 ∷ d1 ∷ d2 ∷ d3 ∷ d4 ∷ d5 ∷ d6 ∷ []) src
length-accumulate_xor_shard (d0 ∷ d1 ∷ d2 ∷ d3 ∷ d4 ∷ d5 ∷ d6 ∷ d7 ∷ dest) [] =
    length-xor_bytes (d0 ∷ d1 ∷ d2 ∷ d3 ∷ d4 ∷ d5 ∷ d6 ∷ d7 ∷ dest) []
length-accumulate_xor_shard (d0 ∷ d1 ∷ d2 ∷ d3 ∷ d4 ∷ d5 ∷ d6 ∷ d7 ∷ dest) (s0 ∷ []) =
    length-xor_bytes (d0 ∷ d1 ∷ d2 ∷ d3 ∷ d4 ∷ d5 ∷ d6 ∷ d7 ∷ dest) (s0 ∷ [])
length-accumulate_xor_shard (d0 ∷ d1 ∷ d2 ∷ d3 ∷ d4 ∷ d5 ∷ d6 ∷ d7 ∷ dest) (s0 ∷ s1 ∷ []) =
    length-xor_bytes (d0 ∷ d1 ∷ d2 ∷ d3 ∷ d4 ∷ d5 ∷ d6 ∷ d7 ∷ dest) (s0 ∷ s1 ∷ [])
length-accumulate_xor_shard (d0 ∷ d1 ∷ d2 ∷ d3 ∷ d4 ∷ d5 ∷ d6 ∷ d7 ∷ dest) (s0 ∷ s1 ∷ s2 ∷ []) =
    length-xor_bytes (d0 ∷ d1 ∷ d2 ∷ d3 ∷ d4 ∷ d5 ∷ d6 ∷ d7 ∷ dest) (s0 ∷ s1 ∷ s2 ∷ [])
length-accumulate_xor_shard (d0 ∷ d1 ∷ d2 ∷ d3 ∷ d4 ∷ d5 ∷ d6 ∷ d7 ∷ dest)
      (s0 ∷ s1 ∷ s2 ∷ s3 ∷ []) =
    length-xor_bytes (d0 ∷ d1 ∷ d2 ∷ d3 ∷ d4 ∷ d5 ∷ d6 ∷ d7 ∷ dest) (s0 ∷ s1 ∷ s2 ∷ s3 ∷ [])
length-accumulate_xor_shard (d0 ∷ d1 ∷ d2 ∷ d3 ∷ d4 ∷ d5 ∷ d6 ∷ d7 ∷ dest)
      (s0 ∷ s1 ∷ s2 ∷ s3 ∷ s4 ∷ []) =
    length-xor_bytes (d0 ∷ d1 ∷ d2 ∷ d3 ∷ d4 ∷ d5 ∷ d6 ∷ d7 ∷ dest) (s0 ∷ s1 ∷ s2 ∷ s3 ∷ s4 ∷ [])
length-accumulate_xor_shard (d0 ∷ d1 ∷ d2 ∷ d3 ∷ d4 ∷ d5 ∷ d6 ∷ d7 ∷ dest)
      (s0 ∷ s1 ∷ s2 ∷ s3 ∷ s4 ∷ s5 ∷ []) =
    length-xor_bytes (d0 ∷ d1 ∷ d2 ∷ d3 ∷ d4 ∷ d5 ∷ d6 ∷ d7 ∷ dest)
      (s0 ∷ s1 ∷ s2 ∷ s3 ∷ s4 ∷ s5 ∷ [])
length-accumulate_xor_shard (d0 ∷ d1 ∷ d2 ∷ d3 ∷ d4 ∷ d5 ∷ d6 ∷ d7 ∷ dest)
      (s0 ∷ s1 ∷ s2 ∷ s3 ∷ s4 ∷ s5 ∷ s6 ∷ []) =
    length-xor_bytes (d0 ∷ d1 ∷ d2 ∷ d3 ∷ d4 ∷ d5 ∷ d6 ∷ d7 ∷ dest)
      (s0 ∷ s1 ∷ s2 ∷ s3 ∷ s4 ∷ s5 ∷ s6 ∷ [])
length-accumulate_xor_shard (d0 ∷ d1 ∷ d2 ∷ d3 ∷ d4 ∷ d5 ∷ d6 ∷ d7 ∷ dest)
      (s0 ∷ s1 ∷ s2 ∷ s3 ∷ s4 ∷ s5 ∷ s6 ∷ s7 ∷ src) =
    length-append (to_le 8 _) (accumulate_xor_shard dest src)
    ∙ omega (arith, length-to_le 8, length-accumulate_xor_shard dest src)

-- How many shards are there.
abbrev pub available_count : List Shard → ℕ
available_count [] = 0
available_count (none ∷ shards) = available_count shards
available_count (some shard ∷ shards) = suc (available_count shards)

module _ (tables : Gf16Tables) where
  length-accumulate_gf16_mul_shard :
      (log_c : ℕ) (dest src : List ℕ)
      → length (accumulate_gf16_mul_shard tables log_c dest src) ≡ length dest
  unfolding accumulate_gf16_mul_shard
  length-accumulate_gf16_mul_shard log_c [] src = refl
  length-accumulate_gf16_mul_shard log_c (d ∷ []) src = refl
  length-accumulate_gf16_mul_shard log_c (d ∷ e ∷ dest) [] = refl
  length-accumulate_gf16_mul_shard log_c (d ∷ e ∷ dest) (s ∷ []) = refl
  length-accumulate_gf16_mul_shard log_c (d ∷ e ∷ dest) (s ∷ t ∷ src) =
      length-append (to_le 2 _) (accumulate_gf16_mul_shard tables log_c dest src)
      ∙ omega (arith, length-to_le 2, length-accumulate_gf16_mul_shard log_c dest src)

  length-accumulate :
      (coefficient : ℕ) (dest src : List ℕ)
      → length (accumulate tables coefficient dest src) ≡ length dest
  unfolding accumulate
  length-accumulate coefficient dest src = elim (Bool-cases (coefficient == 0)) [
    | inl none_left ↦ rw none_left
    | inr some_left ↦ elim (Bool-cases (coefficient == 1)) [
      | inl one ↦ rw (some_left, one) (length-accumulate_xor_shard dest src)
      | inr more ↦
          rw (some_left, more) (length-accumulate_gf16_mul_shard (tables.log coefficient) dest src)
    ]
  ]

  pub length-combine :
      (dest row : List ℕ) (available : List (List ℕ))
      → length (combine tables dest row available) ≡ length dest
  unfolding combine
  length-combine dest [] available = refl
  length-combine dest (coefficient ∷ row) [] = refl
  length-combine dest (coefficient ∷ row) (src ∷ available) =
      length-combine (accumulate tables coefficient dest src) row available
      ∙ length-accumulate coefficient dest src

  length-swap : (matrix : List (List ℕ)) (a b : ℕ) → length (swap tables matrix a b) ≡ length matrix
  unfolding swap
  length-swap matrix a b =
      length-set_at (set_at matrix a (get_or matrix b [])) b (get_or matrix a [])
      ∙ length-set_at matrix a (get_or matrix b [])

  length-clear_column :
      (col : ℕ) (pivot_row : List ℕ) (i : ℕ) (matrix : List (List ℕ))
      → length (clear_column tables col pivot_row i matrix) ≡ length matrix
  unfolding clear_column
  length-clear_column col pivot_row i [] = refl
  length-clear_column col pivot_row i (row ∷ rows) =
      ap suc (length-clear_column col pivot_row (suc i) rows)

  length-augment_from :
      (n i : ℕ) (rows out : List (List ℕ))
      → augment_from tables n i rows ≡ ok out
      → length out ≡ length rows
  unfolding augment_from
  length-augment_from n i [] out h = ap length (ok-injective (sym h))
  length-augment_from n i (row ∷ rows) out h =
      let (square, h1) = check_succeeds _ _ out h in
      let (rest, e, h2) = first_succeeds (augment_from tables n (suc i) rows) _ out h1 in
      ap length (ok-injective (sym h2)) ∙ ap suc (length-augment_from n (suc i) rows rest e)

  if_length :
      (t : Bool) (a b : List (List ℕ)) (n : ℕ)
      → length a ≡ n
      → length b ≡ n
      → length (if t then a else b) ≡ n
  if_length true a b n p q = p
  if_length false a b n p q = q

  length-eliminate_column :
      (n col : ℕ) (matrix out : List (List ℕ))
      → eliminate_column tables n col matrix ≡ ok out
      → length out ≡ length matrix
  unfolding eliminate_column
  length-eliminate_column n col matrix out h =
      let (pivot, p, h1) =
        first_succeeds
          (ok_or (find_pivot tables matrix col (range_from col (n - col))) fec_singular_matrix) _
          out h in
      let swapped = if pivot == col then matrix else swap tables matrix pivot col in
      let (inverse, q, h2) =
        first_succeeds (gf16_inverse_with tables (entry tables swapped col col)) _ out h1 in
      let pivot_row = map (λ value. gf16_mul_with tables value inverse) (get_or swapped col []) in
      ap length (ok-injective (sym h2))
      ∙ length-clear_column col pivot_row 0 (set_at swapped col pivot_row)
      ∙ length-set_at swapped col pivot_row
      ∙ if_length (pivot == col) matrix (swap tables matrix pivot col) (length matrix) refl
          (length-swap matrix pivot col)

  length-eliminate_columns :
      (n : ℕ) (cols : List ℕ) (matrix out : List (List ℕ))
      → eliminate_columns tables n cols matrix ≡ ok out
      → length out ≡ length matrix
  unfolding eliminate_columns
  length-eliminate_columns n [] matrix out h = ap length (ok-injective (sym h))
  length-eliminate_columns n (col ∷ cols) matrix out h =
      let (next, e, rest) = first_succeeds (eliminate_column tables n col matrix) _ out h in
      length-eliminate_columns n cols next out rest ∙ length-eliminate_column n col matrix next e

  pub length-invert_matrix :
      (matrix out : List (List ℕ))
      → invert_matrix tables matrix ≡ ok out
      → length out ≡ length matrix
  unfolding invert_matrix
  length-invert_matrix matrix out h =
      let n = length matrix in
      let (augmented, a, h1) = first_succeeds (augment_from tables n 0 matrix) _ out h in
      let (reduced, r, h2) =
        first_succeeds (eliminate_columns tables n (range_from 0 n) augmented) _ out h1 in
      ap length (ok-injective (sym h2))
      ∙ length-map _ reduced
      ∙ length-eliminate_columns n (range_from 0 n) augmented reduced r
      ∙ length-augment_from n 0 matrix augmented a

  pub collect_bounds :
      (n : ℕ) (row_of : ℕ → Result (List ℕ)) (size i : ℕ) (shards : List Shard) (rows out : Rows)
      → length rows < n
      → collect tables n row_of size i shards rows ≡ ok out
      → (length out ≤ n) × (length out ≤ length rows + available_count shards)
  unfolding collect
  collect_bounds n row_of size i [] rows out few h =
      let e = ok-injective h in (omega (arith, ap length e), omega (arith, ap length e))
  collect_bounds n row_of size i (none ∷ shards) rows out few h =
      collect_bounds n row_of size (suc i) shards rows out few h
  collect_bounds n row_of size i (some shard ∷ shards) rows out few h =
      let (row, r, h1) = first_succeeds (row_of i) _ out h in
      let (available, a, h2) = first_succeeds (validate_available_shard shard size) _ out h1 in
      let more = rows ++ ((row, available) ∷ []) in
      let grown : length more ≡ length rows + 1 = length-append rows _ in
      elim (Bool-cases (length more == n)) [
        | inl full ↦
            let e = ok-injective (rw full at h2) in
            (omega (arith, ap length e, grown), omega (arith, ap length e, grown))
        | inr room ↦
            let rest =
              collect_bounds n row_of size (suc i) shards more out (ground (arith, grown))
                (rw room at h2) in
            (rest.0, omega (arith, rest.1, grown))
      ]
