-- ===== src/RootAuth/Merkle/Trees.antt =====
-- The loop joins trees as it joins hashes, and ends with one that has all leaves in order.
use mathlib.Core.Path.{ap₂}
use tzap.Prelude.{
  ℕ, zero, suc, ◌+◌, ◌≤◌, ◌≡◌, refl, ap, ◌∙◌, arith, List, [], ◌∷◌, ◌++◌, map, length, append_assoc,
}
use tzap.RootAuth.Merkle.{next_level, last_level}

pub data Tree {ℓ} (A : Type ℓ) : Type ℓ where
  leaf : A → Tree A
  node : Tree A → Tree A → Tree A

module _ {ℓ} {A : Type ℓ} where
  abbrev pub leaves_of : Tree A → List A
  leaves_of (leaf a) = a ∷ []
  leaves_of (node l r) = leaves_of l ++ leaves_of r

  abbrev pub all_leaves : List (Tree A) → List A
  all_leaves [] = []
  all_leaves (t ∷ ts) = leaves_of t ++ all_leaves ts

  pub all_leaves-next_level : (ts : List (Tree A)) → all_leaves (next_level node ts) ≡ all_leaves ts
  unfolding next_level
  all_leaves-next_level [] = refl
  all_leaves-next_level (t ∷ []) = refl
  all_leaves-next_level (s ∷ t ∷ ts) =
      ap (λ rest. (leaves_of s ++ leaves_of t) ++ rest) (all_leaves-next_level ts)
      ∙ append_assoc (leaves_of s) (leaves_of t) (all_leaves ts)

  pub all_leaves-last_level :
      (fuel : ℕ) (ts : List (Tree A)) → all_leaves (last_level node fuel ts) ≡ all_leaves ts
  unfolding last_level
  all_leaves-last_level zero ts = refl
  all_leaves-last_level (suc fuel) [] = refl
  all_leaves-last_level (suc fuel) (t ∷ []) = refl
  all_leaves-last_level (suc fuel) (s ∷ t ∷ ts) =
      all_leaves-last_level fuel (next_level node (s ∷ t ∷ ts)) ∙ all_leaves-next_level (s ∷ t ∷ ts)

  pub all_leaves-map : (xs : List A) → all_leaves (map leaf xs) ≡ xs
  all_leaves-map [] = refl
  all_leaves-map (x ∷ xs) = ap (λ ys. x ∷ ys) (all_leaves-map xs)

module _ {ℓ} {A : Type ℓ} (join : A → A → A) where
  pub length-next_level :
      (xs : List A) → length (next_level join xs) + length (next_level join xs) ≤ suc (length xs)
  unfolding next_level
  length-next_level [] = omega arith
  length-next_level (x ∷ []) = omega arith
  length-next_level (x ∷ y ∷ xs) = omega (arith, length-next_level xs)

  -- A round for each further element is enough to leave one.
  pub last_level_single :
      (fuel : ℕ) (x : A) (xs : List A)
      → length xs ≤ fuel
      → (y : A) × (last_level join fuel (x ∷ xs) ≡ y ∷ [])
  unfolding last_level next_level
  last_level_single zero x [] h = (x, refl)
  last_level_single zero x (y ∷ xs) h = absurd (omega arith)
  last_level_single (suc fuel) x [] h = (x, refl)
  last_level_single (suc fuel) x (y ∷ xs) h =
      last_level_single fuel (join x y) (next_level join xs) (omega (arith, length-next_level xs))

module _ {ℓ κ} {A : Type ℓ} {B : Type κ} (f : A → B) (g : A → A → A) (k : B → B → B)
    (agree : (a b : A) → f (g a b) ≡ k (f a) (f b)) where
  pub map-next_level : (xs : List A) → map f (next_level g xs) ≡ next_level k (map f xs)
  unfolding next_level
  map-next_level [] = refl
  map-next_level (x ∷ []) = refl
  map-next_level (x ∷ y ∷ xs) = ap₂ (λ b bs. b ∷ bs) (agree x y) (map-next_level xs)

  pub map-last_level :
      (fuel : ℕ) (xs : List A) → map f (last_level g fuel xs) ≡ last_level k fuel (map f xs)
  unfolding last_level next_level
  map-last_level zero xs = refl
  map-last_level (suc fuel) [] = refl
  map-last_level (suc fuel) (x ∷ []) = refl
  map-last_level (suc fuel) (x ∷ y ∷ xs) =
      map-last_level fuel (next_level g (x ∷ y ∷ xs))
      ∙ ap (last_level k fuel) (map-next_level (x ∷ y ∷ xs))
