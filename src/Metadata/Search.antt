-- ===== src/Metadata/Search.antt =====
-- The binary search that the tables of crates/tzap-core/src/metadata.rs share.
use tzap.Prelude.{
  ℕ, zero, suc, ◌+◌, ◌-◌, ◌/◌, ◌≤◌, ◌<◌, ◌≡◌, arith, Bool, true, false, ltb, if◌then◌else◌, inl,
  inr, Bool-cases,
}

-- The loop of `lower_bound_file_key` and `lower_bound_directory_key`, where a test says whether
-- the key of a row is less. It runs on fuel.
unfoldable pub lower_loop : (ℕ → Bool) → ℕ → ℕ → ℕ → ℕ
lower_loop key_is_less zero low high = low
lower_loop key_is_less (suc fuel) low high =
    let mid = low + (high - low) / 2 in
    let low' = if key_is_less mid then mid + 1 else low in
    let high' = if key_is_less mid then high else mid in
    let rest = lower_loop key_is_less fuel low' high' in if ltb low high then rest else low

unfoldable pub lower_bound : (ℕ → Bool) → ℕ → ℕ
unfolding lower_loop
lower_bound key_is_less n = lower_loop key_is_less (n + 1) 0 n

-- The rows before an index are less, and those from it on are not.
pub record Splits (key_is_less : ℕ → Bool) (n r : ℕ) : Type 0 where
  pub inside : r ≤ n
  pub below : (i : ℕ) → i < r → key_is_less i ≡ true
  pub above : (i : ℕ) → r ≤ i → i < n → key_is_less i ≡ false

-- A row before one that is less is less.
abbrev pub IsMonotone : (ℕ → Bool) → ℕ → Type 0
IsMonotone p n = (i j : ℕ) → i ≤ j → j < n → p j ≡ true → p i ≡ true

module _ (p : ℕ → Bool) (n : ℕ) (mono : IsMonotone p n) where
  above_mid : (mid : ℕ) → p mid ≡ false → (i : ℕ) → mid ≤ i → i < n → p i ≡ false
  above_mid mid h i a b = elim (Bool-cases (p i)) [
    | inl t ↦ let m = mono mid i a b t in cc
    | inr f ↦ f
  ]

  lower_loop-Splits :
      (fuel low high : ℕ)
      → high - low < fuel
      → low ≤ high
      → high ≤ n
      → ((i : ℕ) → i < low → p i ≡ true)
      → ((i : ℕ) → high ≤ i → i < n → p i ≡ false)
      → Splits p n (lower_loop p fuel low high)
  unfolding lower_loop
  lower_loop-Splits zero low high f o h below above = absurd (omega arith)
  lower_loop-Splits (suc fuel) low high f o h below above = elim (Bool-cases (ltb low high)) [
    | inr done ↦
        let e : low ≡ high = ground arith in
        rw done (record { inside = omega arith; below = below; above = rw e above })
    | inl more ↦
        let mid = low + (high - low) / 2 in
        let small : low < high = ground arith in
        elim (Bool-cases (p mid)) [
          | inl less ↦
              rw (more, less)
                (lower_loop-Splits fuel (mid + 1) high (omega arith) (omega arith) h
                  (λ i k. mono i mid (omega arith) (omega arith) less) above)
          | inr not_less ↦
              rw (more, not_less)
                (lower_loop-Splits fuel low mid (omega arith) (omega arith) (omega arith) below
                  (above_mid mid not_less))
        ]
  ]

  pub lower_bound-Splits : Splits p n (lower_bound p n)
  unfolding lower_bound
  lower_bound-Splits =
      lower_loop-Splits (n + 1) 0 n (omega arith) (omega arith) (omega arith)
        (λ i k. absurd (omega arith)) (λ i k l. absurd (omega arith))
