-- ===== src/Padding/RoundTrip.antt =====
-- What `suffix_pad_for_aead` writes, `depad_suffix_padding` reads back.
use tzap.Prelude.{
  ℕ, ◌+◌, ◌-◌, ◌≤◌, ◌<◌, ◌^◌, ◌≡◌, refl, ap, ◌∙◌, false, List, [], ◌∷◌, ◌++◌, append_assoc, arith,
  length, get_or, leb, if◌then◌else◌, length-append, take_all, take-append, drop-append,
}
use tzap.Prelude.Slices.{slice, zeros, length-zeros}
use tzap.Prelude.Bytes.{
  any_non_zero, any_non_zero-zeros, to_le, from_le, length-to_le, from_le-to_le,
}
use tzap.Format.{ok}
use tzap.Padding.{
  resize, append_suffix_padding, read_marker, suffix_padded_payload_len, depad_suffix_padding,
}

get_or-append_last : (xs : List ℕ) (b : ℕ) → get_or (xs ++ (b ∷ [])) (length xs) 0 ≡ b
get_or-append_last [] b = refl
get_or-append_last (x ∷ xs) b = get_or-append_last xs b

-- The padding that stands behind the payload: zeros and a marker.
abbrev pub short_padding : ℕ → List ℕ
short_padding pad_len = zeros (pad_len - 1) ++ (pad_len ∷ [])

abbrev pub wide_padding : ℕ → List ℕ
wide_padding pad_len = zeros (pad_len - 5) ++ (to_le 4 pad_len ++ (0xff ∷ []))

abbrev pub padding : ℕ → List ℕ
padding pad_len = if leb pad_len 254 then short_padding pad_len else wide_padding pad_len

resize-grow : (p : List ℕ) (n m : ℕ) → n ≡ length p + m → resize p n ≡ p ++ zeros m
resize-grow p n m h = let e : n - length p ≡ m = omega arith in rw (take_all n p (omega arith), e)

pub append_short :
    (payload : List ℕ) (pad_len : ℕ)
    → 0 < pad_len
    → pad_len ≤ 254
    → append_suffix_padding payload pad_len ≡ ok (payload ++ short_padding pad_len)
unfolding append_suffix_padding
append_short payload pad_len h k = ground (
  arith,
  resize-grow payload (length payload + pad_len - 1) (pad_len - 1) (omega arith),
  append_assoc payload (zeros (pad_len - 1)) (pad_len ∷ []),
)

pub append_wide :
    (payload : List ℕ) (pad_len : ℕ)
    → 254 < pad_len
    → pad_len < 2 ^ 32
    → append_suffix_padding payload pad_len ≡ ok (payload ++ wide_padding pad_len)
unfolding append_suffix_padding
append_wide payload pad_len h k = ground (
  arith,
  resize-grow payload (length payload + pad_len - 5) (pad_len - 5) (omega arith),
  append_assoc payload (zeros (pad_len - 5)) (to_le 4 pad_len),
  append_assoc payload (zeros (pad_len - 5) ++ to_le 4 pad_len) (0xff ∷ []),
  append_assoc (zeros (pad_len - 5)) (to_le 4 pad_len) (0xff ∷ []),
)

pub append_suffix_padding_lem :
    (payload : List ℕ) (pad_len : ℕ)
    → 0 < pad_len
    → pad_len < 2 ^ 32
    → append_suffix_padding payload pad_len ≡ ok (payload ++ padding pad_len)
append_suffix_padding_lem payload pad_len h k =
    ground (arith, append_short payload pad_len, append_wide payload pad_len)

length-short : (n : ℕ) → 0 < n → length (short_padding n) ≡ n
length-short n h = omega (arith, length-append (zeros (n - 1)) (n ∷ []), length-zeros (n - 1))

length-wide : (n : ℕ) → 254 < n → length (wide_padding n) ≡ n
length-wide n h = omega (
  arith,
  length-append (zeros (n - 5)) (to_le 4 n ++ (0xff ∷ [])),
  length-append (to_le 4 n) (0xff ∷ []),
  length-zeros (n - 5),
  length-to_le 4 n,
)

pub length-padding : (n : ℕ) → 0 < n → length (padding n) ≡ n
length-padding n h = ground (arith, length-short n, length-wide n)

-- The four facts by which a buffer is accepted.
accept :
    (q : List ℕ) (marker pad_len : ℕ)
    → 0 < length q
    → read_marker q ≡ ok (marker, pad_len)
    → marker ≤ pad_len
    → pad_len ≤ length q
    → any_non_zero (slice q (length q - pad_len) (length q - marker)) ≡ false
    → suffix_padded_payload_len q ≡ ok (length q - pad_len)
unfolding suffix_padded_payload_len
accept q marker pad_len h m a b z = rw m (ground arith)

-- The last byte of a buffer.
last_byte :
    (xs : List ℕ) (b n : ℕ) → length (xs ++ (b ∷ [])) ≡ n → get_or (xs ++ (b ∷ [])) (n - 1) 0 ≡ b
last_byte xs b n h =
    let e : n - 1 ≡ length xs = omega (arith, length-append xs (b ∷ [])) in
    rw e (get_or-append_last xs b)

-- The slice between two prefixes.
slice-middle :
    (xs ys zs : List ℕ) (a b : ℕ)
    → length xs ≡ a
    → b - a ≡ length ys
    → slice (xs ++ (ys ++ zs)) a b ≡ ys
slice-middle xs ys zs a b h k =
    rw (drop-append a xs (ys ++ zs) h, k) (take-append (length ys) ys zs refl)

marker_short :
    (p : List ℕ) (n : ℕ) → 0 < n → n ≤ 254 → read_marker (p ++ short_padding n) ≡ ok (1, n)
unfolding read_marker
marker_short p n h k = ground (
  arith,
  append_assoc p (zeros (n - 1)) (n ∷ []),
  last_byte (p ++ zeros (n - 1)) n (length (p ++ short_padding n)),
)

depad_short :
    (p : List ℕ) (n : ℕ)
    → 0 < n
    → n ≤ 254
    → suffix_padded_payload_len (p ++ short_padding n) ≡ ok (length p)
depad_short p n h k =
    let q = p ++ short_padding n in
    let l : length q ≡ length p + n =
      omega (arith, length-append p (short_padding n), length-short n h) in
    let a : length q - n ≡ length p = omega arith in
    let gap : slice q (length q - n) (length q - 1) ≡ zeros (n - 1) =
      slice-middle p (zeros (n - 1)) (n ∷ []) (length q - n) (length q - 1) (omega arith)
        (omega (arith, length-zeros (n - 1))) in
    accept q 1 n (omega arith) (marker_short p n h k) h (omega arith)
      (rw gap (any_non_zero-zeros (n - 1)))
    ∙ ap ok a

marker_wide :
    (p : List ℕ) (n : ℕ) → 254 < n → n < 2 ^ 32 → read_marker (p ++ wide_padding n) ≡ ok (5, n)
unfolding read_marker
marker_wide p n h k =
    let q = p ++ wide_padding n in
    let l : length q ≡ length p + n =
      omega (arith, length-append p (wide_padding n), length-wide n h) in
    let front = p ++ zeros (n - 5) in
    let lf : length front ≡ length q - 5 =
      omega (arith, length-append p (zeros (n - 5)), length-zeros (n - 5)) in
    let whole : q ≡ front ++ (to_le 4 n ++ (0xff ∷ [])) = simp append_assoc in
    let whole' : q ≡ (front ++ to_le 4 n) ++ (0xff ∷ []) = simp append_assoc in
    let final : get_or q (length q - 1) 0 ≡ 0xff =
      rw whole' (last_byte (front ++ to_le 4 n) 0xff _ refl) in
    let digits : slice q (length q - 5) (length q - 1) ≡ to_le 4 n =
      ap (λ z. slice z (length q - 5) (length q - 1)) whole
      ∙ slice-middle front (to_le 4 n) (0xff ∷ []) (length q - 5) (length q - 1) lf
          (omega (arith, length-to_le 4 n)) in
    ground (arith, final, ap from_le digits, from_le-to_le 4 n)

depad_wide :
    (p : List ℕ) (n : ℕ)
    → 254 < n
    → n < 2 ^ 32
    → suffix_padded_payload_len (p ++ wide_padding n) ≡ ok (length p)
depad_wide p n h k =
    let q = p ++ wide_padding n in
    let l : length q ≡ length p + n =
      omega (arith, length-append p (wide_padding n), length-wide n h) in
    let a : length q - n ≡ length p = omega arith in
    let gap : slice q (length q - n) (length q - 5) ≡ zeros (n - 5) =
      slice-middle p (zeros (n - 5)) (to_le 4 n ++ (0xff ∷ [])) (length q - n) (length q - 5)
        (omega arith) (omega (arith, length-zeros (n - 5))) in
    accept q 5 n (omega arith) (marker_wide p n h k) (omega arith) (omega arith)
      (rw gap (any_non_zero-zeros (n - 5)))
    ∙ ap ok a

pub payload_len-padding :
    (p : List ℕ) (n : ℕ)
    → 0 < n
    → n < 2 ^ 32
    → suffix_padded_payload_len (p ++ padding n) ≡ ok (length p)
payload_len-padding p n h k = ground (arith, depad_short p n, depad_wide p n)

pub append-eq-ok :
    (p q : List ℕ) (n : ℕ)
    → append_suffix_padding p n ≡ ok q
    → (0 < n) × (n < 2 ^ 32) × (q ≡ p ++ padding n)
append-eq-ok p q n h =
    let bounds : (0 < n) × (n < 2 ^ 32) = unfold append_suffix_padding in ground arith in
    (bounds.0, bounds.1, cc (append_suffix_padding_lem p n bounds.0 bounds.1))

-- A buffer to which padding of any length was appended is read back as it was before.
pub depad-append_suffix_padding :
    (payload padded : List ℕ) (pad_len : ℕ)
    → append_suffix_padding payload pad_len ≡ ok padded
    → depad_suffix_padding padded ≡ ok payload
unfolding depad_suffix_padding
depad-append_suffix_padding payload padded pad_len h =
    let (lo, hi, e) = append-eq-ok payload padded pad_len h in
    let z : length payload - 0 ≡ length payload = omega arith in
    rw (e, payload_len-padding payload pad_len lo hi, z)
      (ap ok (take-append (length payload) payload (padding pad_len) refl))
