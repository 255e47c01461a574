-- ===== src/Metadata/Order.antt =====
-- Byte strings in the order of the Rust core library: byte by byte, a prefix before what it begins.
use tzap.Prelude.{
  ℕ, ◌≡◌, ◌⊎◌, inl, inr, refl, List, [], ◌∷◌, Bool, true, false, ltb, ◌==◌, ◌&&◌, ◌||◌, arith,
}
use tzap.Prelude.Bytes.{bytes_eq}

-- `a < b`
unfoldable pub bytes_lt : List ℕ → List ℕ → Bool
bytes_lt [] [] = false
bytes_lt [] (y ∷ ys) = true
bytes_lt (x ∷ xs) [] = false
bytes_lt (x ∷ xs) (y ∷ ys) = ltb x y || (x == y && bytes_lt xs ys)

pub bytes_lt_irrefl : (xs : List ℕ) → bytes_lt xs xs ≡ false
unfolding bytes_lt
bytes_lt_irrefl [] = refl
bytes_lt_irrefl (x ∷ xs) = ground (arith, bytes_lt_irrefl xs)

pub bytes_lt_trans :
    (xs ys zs : List ℕ) → bytes_lt xs ys ≡ true → bytes_lt ys zs ≡ true → bytes_lt xs zs ≡ true
unfolding bytes_lt
bytes_lt_trans [] [] zs h k = cc
bytes_lt_trans [] (y ∷ ys) [] h k = cc
bytes_lt_trans [] (y ∷ ys) (z ∷ zs) h k = refl
bytes_lt_trans (x ∷ xs) [] zs h k = cc
bytes_lt_trans (x ∷ xs) (y ∷ ys) [] h k = cc
bytes_lt_trans (x ∷ xs) (y ∷ ys) (z ∷ zs) h k = ground (arith, bytes_lt_trans xs ys zs)

pub bytes_lt_total :
    (xs ys : List ℕ) → (bytes_lt xs ys ≡ true) ⊎ ((xs ≡ ys) ⊎ (bytes_lt ys xs ≡ true))
unfolding bytes_lt
bytes_lt_total [] [] = inr (inl refl)
bytes_lt_total [] (y ∷ ys) = inl refl
bytes_lt_total (x ∷ xs) [] = inr (inr refl)
bytes_lt_total (x ∷ xs) (y ∷ ys) = elim (bytes_lt_total xs ys) [
  | inl h ↦ ground arith
  | inr (inl h) ↦ ground arith
  | inr (inr h) ↦ ground arith
]

-- A pair of a hash and a path before another.
abbrev pub key_lt : List ℕ → List ℕ → List ℕ → List ℕ → Bool
key_lt h p k q = bytes_lt h k || (bytes_eq h k && bytes_lt p q)

-- Such a pair with a number behind it.
abbrev pub row_lt : List ℕ → List ℕ → ℕ → List ℕ → List ℕ → ℕ → Bool
row_lt h p s k q t = bytes_lt h k || (bytes_eq h k && (bytes_lt p q || (bytes_eq p q && ltb s t)))
