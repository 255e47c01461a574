-- ===== src/Wire/Extensions/RawStream.antt =====
-- The content profile that the extensions of a crypto header name, in
-- crates/tzap-core/src/raw_stream_profile.rs.
use tzap.Prelude.{
  ℕ, ◌≡◌, ◌↔◌, refl, sym, ap, ◌∙◌, arith, inl, inr, Bool-cases, List, [], ◌∷◌, All, true, false,
  ◌==◌, ◌&&◌, if◌then◌else◌,
}
use tzap.Format.{Result, ok, err, ◌>>◌, ◌>>=◌, reader_unsupported}
use tzap.Wire.Extensions.Scan.{ExtensionTlv}
use tzap.Wire.Extensions.Semantics.{
  contains, ext_tag, is_critical, raw_stream_content_model_extension_tag,
  validate_raw_stream_content_model_extension, validate_crypto_extension_semantics,
}
use tzap.Wire.Extensions.Semantics.Accepted.{
  Allowed, understood_tags, validate_crypto_extension_semantics_iff,
}

pub data ContentProfile : Type 0 where
  tar_member raw_stream_v1 : ContentProfile

-- The loop of `content_profile_from_extensions`.
unfoldable pub profile_from : ContentProfile → List ExtensionTlv → Result ContentProfile
unfolding validate_raw_stream_content_model_extension
profile_from profile [] = ok profile
profile_from profile (x ∷ xs) =
    let raw = ext_tag x == raw_stream_content_model_extension_tag && is_critical x in
    let other = profile_from profile xs in
    let streamed = profile_from raw_stream_v1 xs in
    if raw
    then validate_raw_stream_content_model_extension (is_critical x) x.value >> streamed
    else other

unfoldable pub content_profile_from_extensions : List ExtensionTlv → Result ContentProfile
unfolding profile_from
content_profile_from_extensions xs = profile_from tar_member xs

unfoldable pub reject_unsupported_raw_stream_profile : List ExtensionTlv → Result (Unit {0})
unfolding content_profile_from_extensions
reject_unsupported_raw_stream_profile xs = content_profile_from_extensions xs >>= (λ profile.
    elim profile [
      | tar_member ↦ ok tt
      | raw_stream_v1 ↦ err (
          reader_unsupported
            "raw-stream content profile is not supported by the revision-45 tar reader")
    ])

-- The profile after extensions that are allowed.
profile_after : ContentProfile → List ℕ → ContentProfile
profile_after profile tags =
    if contains tags raw_stream_content_model_extension_tag then raw_stream_v1 else profile

raw_passes :
    (x : ExtensionTlv)
    → Allowed x
    → (ext_tag x == raw_stream_content_model_extension_tag && is_critical x) ≡ true
    → validate_raw_stream_content_model_extension (is_critical x) x.value ≡ ok tt
unfolding validate_raw_stream_content_model_extension
raw_passes x a h = let value = a.value in ground arith

tags_raw :
    (x : ExtensionTlv) (xs : List ExtensionTlv)
    → (ext_tag x == raw_stream_content_model_extension_tag && is_critical x) ≡ true
    → contains (understood_tags (x ∷ xs)) raw_stream_content_model_extension_tag ≡ true
unfolding contains understood_tags
tags_raw x xs h = ground arith

tags_other :
    (x : ExtensionTlv) (xs : List ExtensionTlv)
    → (ext_tag x == raw_stream_content_model_extension_tag && is_critical x) ≡ false
    → contains (understood_tags (x ∷ xs)) raw_stream_content_model_extension_tag
      ≡ contains (understood_tags xs) raw_stream_content_model_extension_tag
unfolding contains understood_tags
tags_other x xs h = ground arith

after_contains :
    (profile : ContentProfile) (tags : List ℕ)
    → contains tags raw_stream_content_model_extension_tag ≡ true
    → profile_after profile tags ≡ raw_stream_v1
unfolding profile_after
after_contains profile tags h = rw h

after_none :
    (profile : ContentProfile) (tags : List ℕ)
    → contains tags raw_stream_content_model_extension_tag ≡ false
    → profile_after profile tags ≡ profile
unfolding profile_after
after_none profile tags h = rw h

after_raw : (tags : List ℕ) → profile_after raw_stream_v1 tags ≡ raw_stream_v1
after_raw tags = elim (Bool-cases (contains tags raw_stream_content_model_extension_tag)) [
  | inl h ↦ after_contains raw_stream_v1 tags h
  | inr h ↦ after_none raw_stream_v1 tags h
]

after_same :
    (profile : ContentProfile) (x : ExtensionTlv) (xs : List ExtensionTlv)
    → (ext_tag x == raw_stream_content_model_extension_tag && is_critical x) ≡ false
    → profile_after profile (understood_tags xs) ≡ profile_after profile (understood_tags (x ∷ xs))
unfolding profile_after
after_same profile x xs h = ap (λ t. if t then raw_stream_v1 else profile) (sym (tags_other x xs h))

after_empty : (profile : ContentProfile) → profile_after profile (understood_tags []) ≡ profile
unfolding profile_after understood_tags contains
after_empty profile = refl

profile_from-eq :
    (profile : ContentProfile) (xs : List ExtensionTlv)
    → All Allowed xs
    → profile_from profile xs ≡ ok (profile_after profile (understood_tags xs))
unfolding profile_from
profile_from-eq profile [] a = ap ok (sym (after_empty profile))
profile_from-eq profile (x ∷ xs) (a, rest) =
    elim (Bool-cases (ext_tag x == raw_stream_content_model_extension_tag && is_critical x)) [
      | inl h ↦
          let passed : profile_from profile (x ∷ xs) ≡ profile_from raw_stream_v1 xs =
            rw (h, raw_passes x a h) in
          passed
          ∙ profile_from-eq raw_stream_v1 xs rest
          ∙ ap ok
              (after_raw (understood_tags xs) ∙ sym (after_contains profile _ (tags_raw x xs h)))
      | inr h ↦
          let skipped : profile_from profile (x ∷ xs) ≡ profile_from profile xs = rw h in
          skipped ∙ profile_from-eq profile xs rest ∙ ap ok (after_same profile x xs h)
    ]

-- Extensions that pass the semantic checks are let through by the reader of tar members exactly
-- when the raw stream's content model is not among those that are understood.
pub reject_unsupported_iff :
    (xs : List ExtensionTlv)
    → validate_crypto_extension_semantics xs ≡ ok tt
    → (reject_unsupported_raw_stream_profile xs ≡ ok tt)
      ↔ (contains (understood_tags xs) raw_stream_content_model_extension_tag ≡ false)
unfolding reject_unsupported_raw_stream_profile content_profile_from_extensions
reject_unsupported_iff xs valid =
    let (allowed, _) = (validate_crypto_extension_semantics_iff xs).0 valid in
    let e = profile_from-eq tar_member xs allowed in
    elim (Bool-cases (contains (understood_tags xs) raw_stream_content_model_extension_tag)) [
      | inl h ↦ (λ k. absurd (cc (rw (e, after_contains tar_member _ h) at k)), λ k. absurd (cc))
      | inr h ↦ (λ _. h, λ _. rw (e, after_none tar_member _ h))
    ]
