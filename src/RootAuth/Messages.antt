-- ===== src/RootAuth/Messages.antt =====
-- Byte strings of fields with fixed widths: where the whole is the same, so are the fields.
use tzap.Prelude.{
  ℕ, ◌≡◌, ◌≢◌, refl, sym, ap, ◌∙◌, ◌⊎◌, inl, inr, List, ◌++◌, length, Bool-cases, ◌^◌, ◌<◌,
  take-append, drop-append, take, drop,
}
use tzap.Prelude.Bytes.{
  to_le, from_le, from_le-to_le, length-to_le, bytes_eq, bytes_eq→eq, bytes_eq_refl,
}

module _ {ℓ} {A : Type ℓ} where
  pub append_injective :
      (xs ys rest other : List A)
      → length xs ≡ length ys
      → xs ++ rest ≡ ys ++ other
      → (xs ≡ ys) × (rest ≡ other)
  append_injective xs ys rest other same h = (
    sym (take-append (length xs) xs rest refl)
        ∙ ap (take (length xs)) h
        ∙ take-append (length xs) ys other (sym same),
    sym (drop-append (length xs) xs rest refl)
        ∙ ap (drop (length xs)) h
        ∙ drop-append (length xs) ys other (sym same),
  )

pub prefix_injective : (domain xs ys : List ℕ) → domain ++ xs ≡ domain ++ ys → xs ≡ ys
prefix_injective domain xs ys h = (append_injective domain domain xs ys refl h).1

pub to_le-injective : (k v w : ℕ) → v < 256 ^ k → w < 256 ^ k → to_le k v ≡ to_le k w → v ≡ w
to_le-injective k v w hv hw h = sym (from_le-to_le k v hv) ∙ ap from_le h ∙ from_le-to_le k w hw

-- One array in front.
pub array_first :
    (n : ℕ) (xs ys rest other : List ℕ)
    → length xs ≡ n
    → length ys ≡ n
    → xs ++ rest ≡ ys ++ other
    → (xs ≡ ys) × (rest ≡ other)
array_first n xs ys rest other hx hy h = append_injective xs ys rest other (hx ∙ sym hy) h

-- One number field in front.
pub number_first :
    (k v w : ℕ) (xs ys : List ℕ)
    → v < 256 ^ k
    → w < 256 ^ k
    → to_le k v ++ xs ≡ to_le k w ++ ys
    → (v ≡ w) × (xs ≡ ys)
number_first k v w xs ys hv hw h =
    let (p, q) =
      append_injective (to_le k v) (to_le k w) xs ys (length-to_le k v ∙ sym (length-to_le k w))
        h in
    (to_le-injective k v w hv hw p, q)

-- Two of the messages that are hashed differ and have the same digest.
pub record Collision (sha256 : List ℕ → List ℕ) (Here There : List ℕ → Type 0) : Type 0 where
  pub here : List ℕ
  pub there : List ℕ
  pub hashed_here : Here here
  pub hashed_there : There there
  pub differ : here ≢ there
  pub digest : sha256 here ≡ sha256 there

pub same_or_Collision :
    (sha256 : List ℕ → List ℕ) (Here There : List ℕ → Type 0) (a b : List ℕ)
    → Here a
    → There b
    → sha256 a ≡ sha256 b
    → (a ≡ b) ⊎ Collision sha256 Here There
same_or_Collision sha256 Here There a b ha hb h = elim (Bool-cases (bytes_eq a b)) [
  | inl same ↦ inl (bytes_eq→eq a b same)
  | inr other ↦ inr (record {
    here = a;
    there = b;
    hashed_here = ha;
    hashed_there = hb;
    differ = λ e. absurd (cc (bytes_eq_refl a, other, e));
    digest = h;
  })
]

pub Collision-swap :
    {sha256 : List ℕ → List ℕ} {Here There : List ℕ → Type 0}
    → Collision sha256 Here There
    → Collision sha256 There Here
Collision-swap c = record {
  here = c.there;
  there = c.here;
  hashed_here = c.hashed_there;
  hashed_there = c.hashed_here;
  differ = λ e. c.differ (sym e);
  digest = sym c.digest;
}
