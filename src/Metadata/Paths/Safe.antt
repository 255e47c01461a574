-- ===== src/Metadata/Paths/Safe.antt =====
-- A path that is accepted stays below the directory it is extracted in.
use tzap.Prelude.{
  ℕ, zero, suc, ◌≤◌, ◌≡◌, ◌≢◌, refl, ap, ◌∙◌, arith, List, [], ◌∷◌, length, take, All, Bool, false,
  ◌||◌, if◌then◌else◌, get_or,
}
use tzap.Prelude.Bytes.{bytes_eq}
use tzap.Format.{ok, check_succeeds, reject_if-passed}
use tzap.Wire.Extensions.Semantics.{contains}
use tzap.Metadata.Paths.{
  slash, split_on, validate_components, validate_relative_path, validate_file_path_bytes,
}

abbrev parent_of : List (List ℕ) → List (List ℕ)
parent_of [] = []
parent_of (name ∷ base) = base

-- Where one component of a path leads from a directory, which is given by its components from the
-- last to the first: an empty one and a dot stay, and two dots go up.
unfoldable pub step_into : List (List ℕ) → List ℕ → List (List ℕ)
step_into base name =
    if bytes_eq name [] || bytes_eq name (46 ∷ [])
    then base
    else if bytes_eq name (46 ∷ 46 ∷ [])
    then parent_of base
    else name ∷ base

-- Where components lead, one after another.
unfoldable pub walk : List (List ℕ) → List (List ℕ) → List (List ℕ)
unfolding step_into
walk base [] = base
walk base (name ∷ names) = walk (step_into base name) names

-- Components below a directory.
abbrev pub below : List (List ℕ) → List (List ℕ) → List (List ℕ)
below base [] = base
below base (name ∷ names) = below (name ∷ base) names

-- A path of a bounded length, without a NUL, a backslash, a colon or a slash in front, of which
-- every number of components leads from any directory to what is below it by those components.
pub record IsSafe (path : List ℕ) (max_path_length : ℕ) : Type 0 where
  pub some_bytes : 1 ≤ length path
  pub bounded : length path ≤ max_path_length
  pub no_forbidden : All (λ b. (b ≢ 0) × (b ≢ 92) × (b ≢ 58)) path
  pub not_absolute : get_or path 0 0 ≢ 47
  pub stays_below :
      (n : ℕ) (base : List (List ℕ))
      → walk base (take n (split_on slash path)) ≡ below base (take n (split_on slash path))

component_stays :
    (base : List (List ℕ)) (name : List ℕ)
    → (bytes_eq name [] || (bytes_eq name (46 ∷ []) || bytes_eq name (46 ∷ 46 ∷ []))) ≡ false
    → step_into base name ≡ name ∷ base
unfolding step_into
component_stays base name h = ground arith

components_stay :
    (names : List (List ℕ))
    → validate_components names ≡ ok tt
    → (n : ℕ) (base : List (List ℕ)) → walk base (take n names) ≡ below base (take n names)
unfolding validate_components walk
components_stay names h zero base = refl
components_stay [] h (suc n) base = refl
components_stay (name ∷ names) h (suc n) base =
    let (first, rest) = check_succeeds _ (validate_components names) tt h in
    let (dots, device) = check_succeeds _ _ tt first in
    let here = component_stays base name (reject_if-passed _ _ dots) in
    ap (λ dir. walk dir (take n names)) here ∙ components_stay names rest n (name ∷ base)

contains-none : (byte : ℕ) (bs : List ℕ) → contains bs byte ≡ false → All (λ b. b ≢ byte) bs
unfolding contains
contains-none byte [] h = tt
contains-none byte (b ∷ bs) h = (ground arith, contains-none byte bs (ground arith))

three_at_once :
    (bs : List ℕ)
    → All (λ b. b ≢ 0) bs
    → All (λ b. b ≢ 92) bs
    → All (λ b. b ≢ 58) bs
    → All (λ b. (b ≢ 0) × (b ≢ 92) × (b ≢ 58)) bs
three_at_once [] x y z = tt
three_at_once (b ∷ bs) (p, x) (q, y) (r, z) = ((p, q, r), three_at_once bs x y z)

-- A path of a file that is accepted is safe.
pub validate_file_path_bytes-IsSafe :
    (is_nfc : List ℕ → Bool) (path : List ℕ) (max_path_length : ℕ)
    → validate_file_path_bytes is_nfc path max_path_length ≡ ok tt
    → IsSafe path max_path_length
unfolding validate_file_path_bytes validate_relative_path
validate_file_path_bytes-IsSafe is_nfc [] max_path_length h = absurd (cc)
validate_file_path_bytes-IsSafe is_nfc (b ∷ bs) max_path_length h =
    let (size, h1) = check_succeeds _ (validate_relative_path is_nfc (b ∷ bs) false) tt h in
    let (tests1, components) =
      check_succeeds _ (validate_components (split_on slash (b ∷ bs))) tt h1 in
    record {
      some_bytes = omega arith;
      bounded = ground arith;
      no_forbidden =
          three_at_once (b ∷ bs) (contains-none 0 (b ∷ bs) (ground arith))
            (contains-none 92 (b ∷ bs) (ground arith)) (contains-none 58 (b ∷ bs) (ground arith));
      not_absolute = ground arith;
      stays_below = components_stay (split_on slash (b ∷ bs)) components;
    }
