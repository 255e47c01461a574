-- ===== src/Padding/Aead.antt =====
-- `suffix_pad_for_aead`: the padding fills whole blocks, and comes off again.
use tzap.Prelude.{
  ℕ, ◌+◌, ◌-◌, ◌*◌, ◌%◌, ◌≤◌, ◌<◌, ◌^◌, ◌≡◌, sym, ap, ◌∙◌, List, ◌++◌, arith, length, max, inl, inr,
  ◌==◌, Bool-cases, length-append,
}
use native.Mathlib.Decide.{dec_lt}
use native.Mathlib.Nat.{mod-eq_of_lt, mod_self, mod-lt}
use tzap.Format.{ok, Result-cases}
use tzap.Padding.{
  append_suffix_padding, suffix_pad_for_aead, round_up_to_block, envelope_and_pad,
  depad_suffix_padding,
}
use tzap.Padding.RoundTrip.{
  append-eq-ok, append_suffix_padding_lem, padding, length-padding, depad-append_suffix_padding,
}

fill_block : (v b : ℕ) → 0 < b → (v + (b - v % b)) % b ≡ 0
fill_block v b h = grind arith

next_block : (v b : ℕ) → 0 < b → v % b ≡ 0 → (v + b) % b ≡ 0
next_block v b h e = grind arith

first_block : (v b : ℕ) → 0 < b → v % b ≡ 0 → (v ≤ max v b) × (max v b ≤ v + b) × (max v b % b ≡ 0)
first_block v b h e = elim (dec_lt v b) [
  | yes p ↦
      let z : v ≡ 0 = sym (mod-eq_of_lt p) ∙ e in
      let m : max v b ≡ b = omega arith in (omega arith, omega arith, rw m (mod_self b))
  | no p ↦ let m : max v b ≡ v = omega arith in (omega arith, omega arith, rw m e)
]

-- What the call computes: the envelope's size after rounding up.
round_up_bounds :
    (v b rounded : ℕ)
    → round_up_to_block v b ≡ ok rounded
    → (0 < b) × (v ≤ rounded) × (rounded ≤ v + b) × (rounded % b ≡ 0)
unfolding round_up_to_block
round_up_bounds v b rounded h = elim (Bool-cases (b == 0)) [
  | inl z ↦ absurd (cc (rw z at h))
  | inr z ↦ elim (Bool-cases (v % b == 0)) [
    | inl e ↦ ground (arith, first_block v b)
    | inr e ↦
        let l : 0 < b = ground arith in
        let k : v % b < b = mod-lt v l in ground (arith, fill_block v b)
  ]
]

envelope_bounds :
    (v b rounded envelope n : ℕ)
    → 0 < b
    → rounded ≤ v + b
    → rounded % b ≡ 0
    → envelope_and_pad v b rounded ≡ ok (envelope, n)
    → (0 < n) × (n ≤ b) × (v + n ≡ envelope) × (envelope % b ≡ 0)
unfolding envelope_and_pad
envelope_bounds v b rounded envelope n h k e f = ground (arith, next_block rounded b)

-- How long the padding is, whenever the call succeeds.
pad_length :
    (payload padded : List ℕ) (tag_len b : ℕ)
    → suffix_pad_for_aead payload tag_len b ≡ ok padded
    → (n : ℕ) × (append_suffix_padding payload n ≡ ok padded)
      × (0 < n)
      × (n ≤ b)
      × ((length payload + tag_len + n) % b ≡ 0)
unfolding suffix_pad_for_aead
pad_length payload padded tag_len b h =
    let total = length payload + tag_len in
    elim (Result-cases (round_up_to_block total b)) [
      | inl (rounded, e) ↦
          let (pos, _, up, whole) = round_up_bounds total b rounded e in
          elim (Result-cases (envelope_and_pad total b rounded)) [
            | inl ((envelope, n), f) ↦
                let facts = envelope_bounds total b rounded envelope n pos up whole f in
                (n, ground arith, ground arith, ground arith, ground arith)
            | inr (x, f) ↦ absurd (ground arith)
          ]
      | inr (x, e) ↦ absurd (ground arith)
    ]

-- A padded object fills whole blocks together with its tag, is longer than the payload by a block
-- at most, and depads to the payload.
pub suffix_pad_for_aead_lem :
    (payload padded : List ℕ) (tag_len b : ℕ)
    → suffix_pad_for_aead payload tag_len b ≡ ok padded
    → (depad_suffix_padding padded ≡ ok payload)
      × ((length padded + tag_len) % b ≡ 0)
      × (length payload < length padded)
      × (length padded ≤ length payload + b)
suffix_pad_for_aead_lem payload padded tag_len b h =
    let (n, e, pos, le, whole) = pad_length payload padded tag_len b h in
    let (_, _, f) = append-eq-ok payload padded n e in
    let l : length padded ≡ length payload + n =
      ap length f ∙ omega (arith, length-append payload (padding n), length-padding n pos) in
    let z : length padded + tag_len ≡ length payload + tag_len + n = omega arith in
    (depad-append_suffix_padding payload padded n e, rw z whole, omega arith, omega arith)

round_up_total :
    (v b : ℕ) → 0 < b → v + b < 2 ^ 64 → (rounded : ℕ) × (round_up_to_block v b ≡ ok rounded)
unfolding round_up_to_block
round_up_total v b h fits = elim (Bool-cases (v % b == 0)) [
  | inl e ↦ (max v b, ground arith)
  | inr e ↦ (v + (b - v % b), ground arith)
]

envelope_total :
    (v b rounded : ℕ)
    → v ≤ rounded
    → rounded + b < 2 ^ 64
    → (p : ℕ × ℕ) × (envelope_and_pad v b rounded ≡ ok p)
unfolding envelope_and_pad
envelope_total v b rounded h fits = elim (Bool-cases (rounded - v == 0)) [
  | inl e ↦ ((rounded + b, b), ground arith)
  | inr e ↦ ((rounded, rounded - v), ground arith)
]

-- The call succeeds for every block size that is not zero and fits a `u32`, when two blocks more
-- than the payload and the tag do not overflow a `usize`.
pub suffix_pad_for_aead_total :
    (payload : List ℕ) (tag_len b : ℕ)
    → 0 < b
    → b < 2 ^ 32
    → length payload + tag_len + 2 * b < 2 ^ 64
    → (padded : List ℕ) × (suffix_pad_for_aead payload tag_len b ≡ ok padded)
unfolding suffix_pad_for_aead
suffix_pad_for_aead_total payload tag_len b h k fits =
    let total = length payload + tag_len in
    let (rounded, e) = round_up_total total b h (omega arith) in
    let (pos, le, up, whole) = round_up_bounds total b rounded e in
    let ((envelope, n), f) = envelope_total total b rounded le (omega arith) in
    let (n_pos, n_le, sum, _) = envelope_bounds total b rounded envelope n pos up whole f in
    let g = append_suffix_padding_lem payload n n_pos (omega arith) in
    (payload ++ padding n, ground arith)
