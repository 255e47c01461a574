-- ===== src/Padding/Canonical.antt =====
-- `depad_suffix_padding` accepts the padding that the writer appends, and no other.
use tzap.Prelude.{
  ℕ, zero, suc, ◌+◌, ◌-◌, ◌≤◌, ◌<◌, ◌^◌, ◌≡◌, refl, sym, ap, ◌∙◌, ◌↔◌, ◌⊎◌, false, List, [], ◌∷◌,
  ◌++◌, arith, length, take, drop, get_or, inl, inr, take-append-drop, drop-drop, length-drop,
  length-take,
}
use tzap.Prelude.Slices.{slice, zeros}
use tzap.Prelude.Bytes.{
  AllBytes, AllBytes-take, AllBytes-drop, any_non_zero, zeros_of_none, to_le, from_le,
  to_le-from_le, from_le-lt,
}
use mathlib.Core.Path.{ap₂, subst}
use tzap.Format.{ok, ok-injective, Result-cases}
use tzap.Padding.{
  append_suffix_padding, read_marker, suffix_padded_payload_len, depad_suffix_padding,
  truncate_suffix_padding,
}
use tzap.Padding.RoundTrip.{
  short_padding, wide_padding, append_short, append_wide, depad-append_suffix_padding,
}

-- What an accepted buffer looks like.
record Accepted (q : List ℕ) (payload_len marker pad_len : ℕ) : Type 0 where
  not_empty : 0 < length q
  marked : read_marker q ≡ ok (marker, pad_len)
  marker_fits : marker ≤ pad_len
  pad_fits : pad_len ≤ length q
  all_zero : any_non_zero (slice q payload_len (length q - marker)) ≡ false
  payload_end : payload_len ≡ length q - pad_len

accepted :
    (q : List ℕ) (k : ℕ)
    → suffix_padded_payload_len q ≡ ok k
    → (marker : ℕ) × (pad_len : ℕ) × Accepted q k marker pad_len
unfolding suffix_padded_payload_len
accepted q k h = elim (Result-cases (read_marker q)) [
  | inl ((marker, pad_len), e) ↦ (marker, pad_len, ground arith)
  | inr (x, e) ↦ absurd (ground arith)
]

-- A buffer is cut at two places.
cut : (q : List ℕ) (a b : ℕ) → a ≤ b → q ≡ take a q ++ (slice q a b ++ drop b q)
cut q a b h =
    let e : a + (b - a) ≡ b = omega arith in
    sym (take-append-drop a q)
    ∙ ap (λ ys. take a q ++ ys)
        (sym (take-append-drop (b - a) (drop a q))
          ∙ ap (λ ys. slice q a b ++ ys) (drop-drop (b - a) a q ∙ rw e))

drop_last : (q : List ℕ) (m : ℕ) → length q ≡ suc m → drop m q ≡ get_or q m 0 ∷ []
drop_last [] m h = absurd (omega arith)
drop_last (x ∷ []) zero h = refl
drop_last (x ∷ y ∷ q) zero h = absurd (omega arith)
drop_last (x ∷ q) (suc m) h = drop_last q m (omega arith)

length-slice : (q : List ℕ) (a b : ℕ) → b ≤ length q → length (slice q a b) ≡ b - a
length-slice q a b h = omega (arith, length-take (b - a) (drop a q), length-drop a q)

-- The byte and the wide form of the marker.
marker_form :
    (q : List ℕ) (marker pad_len : ℕ)
    → read_marker q ≡ ok (marker, pad_len)
    → ((marker ≡ 1) × (pad_len < 255) × (get_or q (length q - 1) 0 ≡ pad_len))
      ⊎ ((marker ≡ 5)
          × (5 ≤ length q)
          × (254 < pad_len)
          × (254 < get_or q (length q - 1) 0)
          × (pad_len ≡ from_le (slice q (length q - 5) (length q - 1))))
unfolding read_marker
marker_form q marker pad_len h = ground arith

get_or-lt : (q : List ℕ) (i : ℕ) → AllBytes q → get_or q i 0 < 256
get_or-lt [] i b = omega arith
get_or-lt (x ∷ q) zero (p, b) = p
get_or-lt (x ∷ q) (suc i) (p, b) = get_or-lt q i b

short_form :
    (q : List ℕ) (k pad_len : ℕ)
    → Accepted q k 1 pad_len
    → get_or q (length q - 1) 0 ≡ pad_len
    → q ≡ take k q ++ short_padding pad_len
short_form q k pad_len a f =
    let whole = cut q k (length q - 1) (omega (arith, a.payload_end, a.marker_fits, a.pad_fits)) in
    let gap : slice q k (length q - 1) ≡ zeros (pad_len - 1) =
      zeros_of_none _ a.all_zero
      ∙ ap zeros (
          length-slice q k (length q - 1) (omega arith)
          ∙ omega (arith, a.payload_end, a.marker_fits, a.pad_fits)) in
    let end : drop (length q - 1) q ≡ pad_len ∷ [] =
      drop_last q (length q - 1) (omega (arith, a.not_empty)) ∙ ap (λ b. b ∷ []) f in
    whole ∙ ap (λ ys. take k q ++ ys) (ap₂ (λ ys zs. ys ++ zs) gap end)

wide_form :
    (q : List ℕ) (k pad_len : ℕ)
    → AllBytes q
    → Accepted q k 5 pad_len
    → 5 ≤ length q
    → 254 < get_or q (length q - 1) 0
    → pad_len ≡ from_le (slice q (length q - 5) (length q - 1))
    → q ≡ take k q ++ wide_padding pad_len
wide_form q k pad_len bytes a five last e =
    let gap : slice q k (length q - 5) ≡ zeros (pad_len - 5) =
      zeros_of_none _ a.all_zero
      ∙ ap zeros (
          length-slice q k (length q - 5) (omega arith)
          ∙ omega (arith, a.payload_end, a.marker_fits, a.pad_fits)) in
    let digits : slice q (length q - 5) (length q - 1) ≡ to_le 4 pad_len =
      sym (
        to_le-from_le _ 4 (length-slice q (length q - 5) (length q - 1) (omega arith) ∙ omega arith)
          (AllBytes-take _ _ (AllBytes-drop _ _ bytes)))
      ∙ ap (to_le 4) (sym e) in
    let final : get_or q (length q - 1) 0 ≡ 0xff =
      omega (arith, get_or-lt q (length q - 1) bytes) in
    let end : drop (length q - 1) q ≡ 0xff ∷ [] =
      drop_last q (length q - 1) (omega (arith, a.not_empty)) ∙ ap (λ b. b ∷ []) final in
    cut q k (length q - 5) (omega (arith, a.payload_end, a.marker_fits, a.pad_fits))
    ∙ ap (λ ys. take k q ++ ys)
        (ap₂ (λ ys zs. ys ++ zs) gap (middle ∙ ap₂ (λ ys zs. ys ++ zs) digits end))
  where
    middle : drop (length q - 5) q ≡ slice q (length q - 5) (length q - 1) ++ drop (length q - 1) q
    middle =
        let z : length q - 5 + (length q - 1 - (length q - 5)) ≡ length q - 1 = omega arith in
        sym (take-append-drop (length q - 1 - (length q - 5)) (drop (length q - 5) q))
        ∙ ap (λ ys. slice q (length q - 5) (length q - 1) ++ ys)
            (drop-drop (length q - 1 - (length q - 5)) (length q - 5) q ∙ rw z)

wide_bound :
    (q : List ℕ)
    → AllBytes q
    → 5 ≤ length q
    → from_le (slice q (length q - 5) (length q - 1)) < 2 ^ 32
wide_bound q bytes five =
    let l : length (slice q (length q - 5) (length q - 1)) ≡ 4 =
      length-slice q (length q - 5) (length q - 1) (omega arith) ∙ omega arith in
    rw l at (
      from_le-lt (slice q (length q - 5) (length q - 1))
        (AllBytes-take _ _ (AllBytes-drop (length q - 5) q bytes)))

restored :
    (q : List ℕ) (k marker pad_len : ℕ)
    → AllBytes q
    → Accepted q k marker pad_len
    → append_suffix_padding (take k q) pad_len ≡ ok q
restored q k marker pad_len bytes a = elim (marker_form q marker pad_len a.marked) [
  | inl (m, n, f) ↦
      let a' = subst (λ m. Accepted q k m pad_len) m a in
      append_short (take k q) pad_len a'.marker_fits (omega arith)
      ∙ ap ok (sym (short_form q k pad_len a' f))
  | inr (m, five, n, f, e) ↦
      let a' = subst (λ m. Accepted q k m pad_len) m a in
      let hi : pad_len < 2 ^ 32 = rw e (wide_bound q bytes five) in
      append_wide (take k q) pad_len n hi ∙ ap ok (sym (wide_form q k pad_len bytes a' five f e))
]

read_back :
    (q payload : List ℕ)
    → AllBytes q
    → depad_suffix_padding q ≡ ok payload
    → (pad_len : ℕ) × (append_suffix_padding payload pad_len ≡ ok q)
unfolding depad_suffix_padding
read_back q payload bytes h = elim (Result-cases (suffix_padded_payload_len q)) [
  | inl (k, e) ↦
      let (marker, pad_len, a) = accepted q k e in
      let z : k - 0 ≡ k = omega arith in
      let p : take k q ≡ payload = ok-injective (rw (e, z) at h) in
      (pad_len, rw p at (restored q k marker pad_len bytes a))
  | inr (x, e) ↦ absurd (ground arith)
]

-- A buffer of bytes is accepted, with a payload, exactly when it is that payload with padding of
-- some length appended to it.
pub depad_suffix_padding_iff :
    (q payload : List ℕ)
    → AllBytes q
    → (depad_suffix_padding q ≡ ok payload)
      ↔ ((pad_len : ℕ) × (append_suffix_padding payload pad_len ≡ ok q))
depad_suffix_padding_iff q payload bytes =
    (read_back q payload bytes, λ (n, h). depad-append_suffix_padding payload q n h)

-- Dropping the padding in place leaves what `depad_suffix_padding` returns, and fails when it does.
truncate-eq-depad : (q : List ℕ) → truncate_suffix_padding q ≡ depad_suffix_padding q
unfolding truncate_suffix_padding depad_suffix_padding
truncate-eq-depad q = elim (Result-cases (suffix_padded_payload_len q)) [
  | inl (k, e) ↦ let z : k - 0 ≡ k = omega arith in rw (e, z)
  | inr (x, e) ↦ rw e
]

-- A buffer of bytes is cut in place to a payload exactly when it is that payload with padding of
-- some length appended to it.
pub truncate_suffix_padding_iff :
    (q payload : List ℕ)
    → AllBytes q
    → (truncate_suffix_padding q ≡ ok payload)
      ↔ ((pad_len : ℕ) × (append_suffix_padding payload pad_len ≡ ok q))
truncate_suffix_padding_iff q payload bytes =
    let (there, back) = depad_suffix_padding_iff q payload bytes in
    (λ h. there (sym (truncate-eq-depad q) ∙ h), λ p. truncate-eq-depad q ∙ back p)
