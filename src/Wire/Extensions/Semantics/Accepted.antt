-- ===== src/Wire/Extensions/Semantics/Accepted.antt =====
-- Which lists of extensions a reader accepts.
use tzap.Prelude.{
  ℕ, ◌≡◌, ◌↔◌, refl, ◌∙◌, arith, inl, inr, List, [], ◌∷◌, ◌++◌, length, All, Bool, false, not, ◌==◌,
  ◌&&◌, ◌||◌, if◌then◌else◌,
}
use mathlib.Core.Path.{subst}
use tzap.Prelude.{Bool-cases}
use tzap.Prelude.Bytes.{bytes_eq}
use tzap.Format.{ok, Result-cases}
use tzap.Wire.Extensions.Scan.{ExtensionTlv}
use tzap.Wire.Extensions.Semantics.{
  is_utf8, contains, raw_stream_content_model_extension_tag, raw_stream_content_model_value,
  ext_tag, is_critical, is_known_extension, validate_extension, validate_from,
  validate_crypto_extension_semantics,
}

-- The extensions that a reader understands, each of which it takes once: the texts 1, 2 and 5, the
-- number 3, and the raw stream's content model, which must be critical.
abbrev pub is_understood : ExtensionTlv → Bool
is_understood x =
    is_known_extension (ext_tag x)
    || (ext_tag x == raw_stream_content_model_extension_tag && is_critical x)

abbrev pub value_fits : ℕ → List ℕ → Bool
value_fits tag value =
    if tag == 3
    then length value == 8
    else if tag == raw_stream_content_model_extension_tag
    then bytes_eq value raw_stream_content_model_value
    else is_utf8 value

-- No tag that is kept free, no critical extension that is not understood, and values that fit.
pub record Allowed (x : ExtensionTlv) : Type 0 where
  pub not_free : (ext_tag x == 4 || ext_tag x == 6) ≡ false
  pub not_critical : (is_critical x && not (is_understood x)) ≡ false
  pub value : (is_understood x && not (value_fits (ext_tag x) x.value)) ≡ false

-- The tags of the extensions that are understood.
unfoldable pub understood_tags : List ExtensionTlv → List ℕ
understood_tags [] = []
understood_tags (x ∷ xs) =
    if is_understood x then ext_tag x ∷ understood_tags xs else understood_tags xs

-- No tag stands among those before it.
unfoldable pub Distinct : List ℕ → List ℕ → Type 0
Distinct before [] = Unit
Distinct before (tag ∷ tags) = (contains before tag ≡ false) × Distinct (before ++ (tag ∷ [])) tags

-- The tags seen after one extension.
abbrev seen_after : List ℕ → ExtensionTlv → List ℕ
seen_after seen x = if is_understood x then seen ++ (ext_tag x ∷ []) else seen

step_accepts :
    (seen : List ℕ) (x : ExtensionTlv)
    → Allowed x
    → (is_understood x && contains seen (ext_tag x)) ≡ false
    → validate_extension seen x ≡ ok (seen_after seen x)
unfolding validate_extension
step_accepts seen x a n =
    let free = a.not_free in let critical = a.not_critical in let value = a.value in ground arith

step_accepted :
    (seen more : List ℕ) (x : ExtensionTlv)
    → validate_extension seen x ≡ ok more
    → Allowed x
      × ((is_understood x && contains seen (ext_tag x)) ≡ false)
      × (more ≡ seen_after seen x)
unfolding validate_extension
step_accepted seen more x h = (
  record { not_free = ground arith; not_critical = ground arith; value = ground arith },
  ground arith,
  ground arith,
)

validate_from_accepts :
    (seen : List ℕ) (xs : List ExtensionTlv)
    → All Allowed xs
    → Distinct seen (understood_tags xs)
    → validate_from seen xs ≡ ok tt
unfolding validate_from Distinct understood_tags
validate_from_accepts seen [] a d = refl
validate_from_accepts seen (x ∷ xs) (a, al) d = elim (Bool-cases (is_understood x)) [
  | inl u ↦
      let (new, rest) : (contains seen (ext_tag x) ≡ false)
          × Distinct (seen ++ (ext_tag x ∷ [])) (understood_tags xs) =
        rw u at d in
      let e : validate_extension seen x ≡ ok (seen ++ (ext_tag x ∷ [])) =
        step_accepts seen x a (rw new (rw u)) ∙ rw u in
      rw e (validate_from_accepts (seen ++ (ext_tag x ∷ [])) xs al rest)
  | inr u ↦
      let e : validate_extension seen x ≡ ok seen = step_accepts seen x a (rw u) ∙ rw u in
      rw e (validate_from_accepts seen xs al (rw u at d))
]

validate_from_accepted :
    (seen : List ℕ) (xs : List ExtensionTlv)
    → validate_from seen xs ≡ ok tt
    → All Allowed xs × Distinct seen (understood_tags xs)
unfolding validate_from Distinct understood_tags
validate_from_accepted seen [] h = (tt, tt)
validate_from_accepted seen (x ∷ xs) h = elim (Result-cases (validate_extension seen x)) [
  | inr (z, e) ↦ absurd (cc (rw e at h))
  | inl (more, e) ↦
      let (a, n, s) = step_accepted seen more x e in
      let (al, d) = validate_from_accepted more xs (rw e at h) in
      elim (Bool-cases (is_understood x)) [
        | inl u ↦
            ((a, al), rw u (rw u at n, subst (λ y. Distinct y (understood_tags xs)) (s ∙ rw u) d))
        | inr u ↦ ((a, al), rw u (subst (λ y. Distinct y (understood_tags xs)) (s ∙ rw u) d))
      ]
]

-- A list of extensions is accepted exactly when each is allowed (its tag is not 4 or 6, it is
-- understood if it is critical, and its value fits if it is understood) and no tag of those that
-- are understood occurs twice.
pub validate_crypto_extension_semantics_iff :
    (xs : List ExtensionTlv)
    → (validate_crypto_extension_semantics xs ≡ ok tt)
      ↔ (All Allowed xs × Distinct [] (understood_tags xs))
unfolding validate_crypto_extension_semantics
validate_crypto_extension_semantics_iff xs =
    (validate_from_accepted [] xs, λ (a, d). validate_from_accepts [] xs a d)
