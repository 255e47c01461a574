-- ===== src/RootAuth/Merkle/Shape.antt =====
-- The loop joins a power of two of elements before it joins them with those after, of which there
-- are as many at most.
use native.Mathlib.Nat.{pow-suc}
use tzap.Prelude.{
  ℕ, zero, suc, ◌+◌, ◌^◌, ◌≤◌, ◌≡◌, refl, sym, ap, ◌∙◌, arith, List, [], ◌∷◌, ◌++◌, length,
}
use tzap.RootAuth.Merkle.{next_level, last_level}
use tzap.RootAuth.Merkle.Trees.{length-next_level}

module _ {ℓ} {A : Type ℓ} (join : A → A → A) where
  -- The loop with a round for each element.
  abbrev pub reduce : List A → List A
  reduce xs = last_level join (length xs) xs

  -- Rounds more than are needed change nothing.
  pub last_level_stable :
      (f g : ℕ) (xs : List A)
      → length xs ≤ suc f
      → length xs ≤ suc g
      → last_level join f xs ≡ last_level join g xs
  unfolding last_level next_level
  last_level_stable zero zero xs p q = refl
  last_level_stable zero (suc g) [] p q = refl
  last_level_stable zero (suc g) (x ∷ []) p q = refl
  last_level_stable zero (suc g) (x ∷ y ∷ xs) p q = absurd (omega arith)
  last_level_stable (suc f) zero [] p q = refl
  last_level_stable (suc f) zero (x ∷ []) p q = refl
  last_level_stable (suc f) zero (x ∷ y ∷ xs) p q = absurd (omega arith)
  last_level_stable (suc f) (suc g) [] p q = refl
  last_level_stable (suc f) (suc g) (x ∷ []) p q = refl
  last_level_stable (suc f) (suc g) (x ∷ y ∷ xs) p q =
      let n = length-next_level join xs in
      last_level_stable f g (join x y ∷ next_level join xs) (omega (arith, n)) (omega (arith, n))

  reduce-next_level : (xs : List A) → reduce (next_level join xs) ≡ reduce xs
  unfolding last_level next_level
  reduce-next_level [] = refl
  reduce-next_level (x ∷ []) = refl
  reduce-next_level (x ∷ y ∷ xs) =
      let n = length-next_level join xs in
      last_level_stable (suc (length (next_level join xs))) (suc (length xs))
        (join x y ∷ next_level join xs) (omega arith) (omega (arith, n))

  next_level-append :
      (k : ℕ) (xs ys : List A)
      → length xs ≡ k + k
      → next_level join (xs ++ ys) ≡ next_level join xs ++ next_level join ys
  unfolding next_level
  next_level-append k [] ys h = refl
  next_level-append k (x ∷ []) ys h = absurd (omega arith)
  next_level-append zero (x ∷ y ∷ xs) ys h = absurd (omega arith)
  next_level-append (suc k) (x ∷ y ∷ xs) ys h =
      ap (λ zs. join x y ∷ zs) (next_level-append k xs ys (omega arith))

  half : (k : ℕ) (xs : List A) → length xs ≡ k + k → length (next_level join xs) ≡ k
  unfolding next_level
  half k [] h = omega arith
  half k (x ∷ []) h = absurd (omega arith)
  half zero (x ∷ y ∷ xs) h = absurd (omega arith)
  half (suc k) (x ∷ y ∷ xs) h = omega (arith, half k xs (omega arith))

  at_least_half :
      (xs : List A) → length xs ≤ length (next_level join xs) + length (next_level join xs)
  unfolding next_level
  at_least_half [] = omega arith
  at_least_half (x ∷ []) = omega arith
  at_least_half (x ∷ y ∷ xs) = omega (arith, at_least_half xs)

  two_elements : (x y l r : A) → x ∷ [] ≡ l ∷ [] → y ∷ [] ≡ r ∷ [] → join x y ∷ [] ≡ join l r ∷ []
  two_elements x y l r p q = let e : x ≡ l = cc in let f : y ≡ r = cc in rw (e, f)

  pub reduce-append :
      (k : ℕ) (xs ys : List A) (l r : A)
      → length xs ≡ 2 ^ k
      → 1 ≤ length ys
      → length ys ≤ 2 ^ k
      → reduce xs ≡ l ∷ []
      → reduce ys ≡ r ∷ []
      → reduce (xs ++ ys) ≡ join l r ∷ []
  unfolding last_level next_level
  reduce-append zero [] ys l r h p q hl hr = absurd (omega arith)
  reduce-append zero (x ∷ a ∷ xs) ys l r h p q hl hr = absurd (omega arith)
  reduce-append zero (x ∷ []) [] l r h p q hl hr = absurd (omega arith)
  reduce-append zero (x ∷ []) (y ∷ b ∷ ys) l r h p q hl hr = absurd (omega arith)
  reduce-append zero (x ∷ []) (y ∷ []) l r h p q hl hr = two_elements x y l r hl hr
  reduce-append (suc k) xs ys l r h p q hl hr =
      let double = pow-suc 2 k in
      let even : length xs ≡ 2 ^ k + 2 ^ k = omega (arith, double) in
      let least = at_least_half ys in
      let most = length-next_level join ys in
      sym (reduce-next_level (xs ++ ys))
      ∙ ap reduce (next_level-append (2 ^ k) xs ys even)
      ∙ reduce-append k (next_level join xs) (next_level join ys) l r (half (2 ^ k) xs even)
          (omega (arith, least)) (omega (arith, most, double)) (reduce-next_level xs ∙ hl)
          (reduce-next_level ys ∙ hr)
