-- ===== src/Metadata/Lookup/Sorted.antt =====
-- What `validate_file_order` accepts is sorted throughout.
use tzap.Prelude.{ℕ, zero, suc, ◌+◌, ◌-◌, ◌≤◌, ◌<◌, ◌≡◌, ◌⊎◌, arith, List, length, true}
use tzap.Prelude.Bytes.{bytes_eq→eq}
use tzap.Format.{ok}
use tzap.Metadata.Rows.{FileEntry}
use tzap.Metadata.Order.{bytes_lt_trans, key_lt, row_lt}
use tzap.Metadata.Lookup.{in_order, file_order_from, validate_file_order}

pub key_lt_trans :
    (h p k q l r : List ℕ) → key_lt h p k q ≡ true → key_lt k q l r ≡ true → key_lt h p l r ≡ true
key_lt_trans h p k q l r a b =
    ground (arith, bytes_lt_trans h k l, bytes_lt_trans p q r, bytes_eq→eq h k, bytes_eq→eq k l)

row_lt_trans :
    (h p : List ℕ) (s : ℕ) (k q : List ℕ) (t : ℕ) (l r : List ℕ) (u : ℕ)
    → row_lt h p s k q t ≡ true
    → row_lt k q t l r u ≡ true
    → row_lt h p s l r u ≡ true
row_lt_trans h p s k q t l r u a b = ground (
  arith,
  bytes_lt_trans h k l,
  bytes_lt_trans p q r,
  bytes_eq→eq h k,
  bytes_eq→eq k l,
  bytes_eq→eq p q,
  bytes_eq→eq q r,
)

-- A row before another does not have a greater key.
pub row_lt-key :
    (h p : List ℕ) (s : ℕ) (k q : List ℕ) (t : ℕ)
    → row_lt h p s k q t ≡ true
    → (key_lt h p k q ≡ true) ⊎ ((h ≡ k) × (p ≡ q))
row_lt-key h p s k q t a = ground (arith, bytes_eq→eq h k, bytes_eq→eq p q)

module _ (files : List FileEntry) (paths : List (List ℕ)) (starts : List ℕ) where
  order_step :
      (count index i : ℕ)
      → file_order_from files paths starts count index ≡ ok tt
      → index ≤ i
      → i < index + count
      → in_order files paths starts (i - 1) i ≡ true
  unfolding file_order_from
  order_step zero index i h a b = absurd (omega arith)
  order_step (suc count) index i h a b = ground (arith, order_step count (suc index) i)

  order_next :
      (i : ℕ)
      → file_order_from files paths starts (length files - 1) 1 ≡ ok tt
      → suc i < length files
      → in_order files paths starts i (suc i) ≡ true
  order_next i h a =
      let e : suc i - 1 ≡ i = omega arith in
      rw e at (order_step (length files - 1) 1 (suc i) h (omega arith) (omega arith))

  order_far :
      (i distance : ℕ)
      → file_order_from files paths starts (length files - 1) 1 ≡ ok tt
      → suc (i + distance) < length files
      → in_order files paths starts i (suc (i + distance)) ≡ true
  order_far i zero h a = let e : i + 0 ≡ i = omega arith in rw e (order_next i h (omega arith))
  order_far i (suc distance) h a =
      let e : i + suc distance ≡ suc (i + distance) = omega arith in
      let near = order_far i distance h (omega arith) in
      let next = order_next (suc (i + distance)) h (omega arith) in
      rw e (row_lt_trans _ _ _ _ _ _ _ _ _ near next)

  -- Of two rows of an accepted table, the earlier one comes before the later one.
  pub in_order_of_valid :
      (i j : ℕ)
      → validate_file_order files paths starts ≡ ok tt
      → i < j
      → j < length files
      → in_order files paths starts i j ≡ true
  unfolding validate_file_order
  in_order_of_valid i j h a b =
      let e : suc (i + (j - suc i)) ≡ j = omega arith in
      rw e at (order_far i (j - suc i) h (omega arith))
