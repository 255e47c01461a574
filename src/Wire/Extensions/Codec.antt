-- ===== src/Wire/Extensions/Codec.antt =====
-- A list of extensions is read back as it is laid out, the scanner accepts nothing else, and it
-- always ends.
use tzap.Prelude.{
  ℕ, zero, suc, ◌+◌, ◌-◌, ◌^◌, ◌≤◌, ◌<◌, ◌≡◌, refl, sym, ap, ◌∙◌, ◌↔◌, List, [], ◌∷◌, ◌++◌, arith,
  length, take, drop, drop-drop, take-append-drop, take-append, drop-append, length-append,
  length-take, length-drop, append-nil, append_assoc, some, inl, inr, All, drop_all, ◌⊎◌,
}
use mathlib.Core.Path.{subst, ap₂}
use tzap.Prelude.Slices.{slice, zeros}
use tzap.Prelude.Bytes.{AllBytes, to_le, length-to_le}
use tzap.Format.{FormatError, Result, ok, err}
use tzap.Wire.Fields.Reads.{
  bytes_at, number_at, to_le-number_at, number_at-lt, read_u16_inside, read_u32_inside,
  number_at-to_le,
}
use tzap.Wire.Extensions.Scan.{
  ExtensionTlv, Scanned, finished, found, scan_entry, scan_step, scan_from,
  scan_crypto_extension_tlvs,
}

-- The layout: a tag, the length of the value and the value; a tag and a length of zero end the
-- list.
unfoldable pub layout : List ExtensionTlv → List ℕ
layout [] = zeros 6
layout (t ∷ ts) = to_le 2 t.tag ++ (to_le 4 (length t.value) ++ (t.value ++ layout ts))

pub record IsTlv (t : ExtensionTlv) : Type 0 where
  pub tag_positive : 1 ≤ t.tag
  pub tag : t.tag < 2 ^ 16
  pub value_length : length t.value ≤ 256

module _ (bytes : List ℕ) (offset : ℕ) where
  -- A round that succeeds has six bytes to read.
  scan_step_room :
      (s : Scanned)
      → offset ≤ length bytes
      → scan_step bytes offset ≡ ok s
      → offset + 6 ≤ length bytes
  unfolding scan_step
  scan_step_room s h e = ground arith

  scan_step_entry :
      offset + 6 ≤ length bytes
      → scan_step bytes offset
        ≡ scan_entry bytes (offset + 6) (number_at 2 bytes offset) (number_at 4 bytes (offset + 2))
  unfolding scan_step
  scan_step_entry h =
      rw
        (
          read_u16_inside bytes offset (omega arith),
          read_u32_inside bytes (offset + 2) (omega arith),
        )
        (ground arith)

-- The bytes from an offset, cut after `n`.
cut :
    (bytes : List ℕ) (offset n : ℕ)
    → drop offset bytes ≡ bytes_at n bytes offset ++ drop (offset + n) bytes
cut bytes offset n =
    sym (take-append-drop n (drop offset bytes))
    ∙ ap (λ ys. bytes_at n bytes offset ++ ys) (drop-drop n offset bytes)

entry_finished :
    (bytes : List ℕ) (offset tag size : ℕ)
    → scan_entry bytes offset tag size ≡ ok finished
    → (tag ≡ 0) × (size ≡ 0) × (offset ≡ length bytes)
unfolding scan_entry
entry_finished bytes offset tag size h = (ground arith, ground arith, ground arith)

entry_found :
    (bytes : List ℕ) (offset tag size : ℕ) (t : ExtensionTlv) (next : ℕ)
    → scan_entry bytes offset tag size ≡ ok (found t next)
    → (1 ≤ tag)
      × (size ≤ 256)
      × (size ≤ length bytes - offset)
      × (t ≡ record { tag = tag; value = slice bytes offset (offset + size) })
      × (next ≡ offset + size)
unfolding scan_entry
entry_found bytes offset tag size t next h =
    (ground arith, ground arith, ground arith, ground arith, ground arith)

entry_of_found :
    (bytes : List ℕ) (offset tag size : ℕ)
    → 1 ≤ tag
    → size ≤ 256
    → size ≤ length bytes - offset
    → scan_entry bytes offset tag size
      ≡ ok
          (found (record { tag = tag; value = slice bytes offset (offset + size) }) (offset + size))
unfolding scan_entry
entry_of_found bytes offset tag size p q r = ground arith

-- What a round that finds something has read.
step_found :
    (bytes : List ℕ) (offset : ℕ) (t : ExtensionTlv) (next : ℕ)
    → AllBytes bytes
    → offset ≤ length bytes
    → scan_step bytes offset ≡ ok (found t next)
    → IsTlv t
      × (next ≤ length bytes)
      × (offset + 6 ≤ next)
      × (drop offset bytes
          ≡ to_le 2 t.tag ++ (to_le 4 (length t.value) ++ (t.value ++ drop next bytes)))
step_found bytes offset t next b h e =
    let room = scan_step_room bytes offset (found t next) h e in
    let (positive, small, inside, same, after) =
      entry_found bytes (offset + 6) (number_at 2 bytes offset) (number_at 4 bytes (offset + 2)) t
        next (sym (scan_step_entry bytes offset room) ∙ e) in
    let size = number_at 4 bytes (offset + 2) in
    let n : offset + 6 + size - (offset + 6) ≡ size = omega arith in
    let value : t.value ≡ bytes_at size bytes (offset + 6) =
      ap (λ x. x.value) same ∙ ap (λ k. take k (drop (offset + 6) bytes)) n in
    let tag : t.tag ≡ number_at 2 bytes offset = ap (λ x. x.tag) same in
    let long : length t.value ≡ size =
      ap length value
      ∙ omega (arith, length-take size (drop (offset + 6) bytes), length-drop (offset + 6) bytes) in
    let a : offset + 2 + 4 ≡ offset + 6 = omega arith in
    (
      record {
        tag_positive = rw tag positive;
        tag = rw tag (number_at-lt bytes offset 2 (omega arith) b);
        value_length = omega arith;
      },
      omega arith,
      omega arith,
      cut bytes offset 2
          ∙ ap₂ (λ xs ys. xs ++ ys)
              (to_le-number_at bytes offset 2 (omega arith) b ∙ ap (to_le 2) (sym tag))
              (cut bytes (offset + 2) 4
                ∙ ap₂ (λ xs ys. xs ++ ys)
                    (to_le-number_at bytes (offset + 2) 4 (omega arith) b ∙ ap (to_le 4) (sym long))
                    (ap (λ k. drop k bytes) a
                      ∙ cut bytes (offset + 6) size
                      ∙ ap₂ (λ xs ys. xs ++ ys) (sym value) (ap (λ k. drop k bytes) (sym after)))),
    )

step_finished :
    (bytes : List ℕ) (offset : ℕ)
    → AllBytes bytes
    → offset ≤ length bytes
    → scan_step bytes offset ≡ ok finished
    → drop offset bytes ≡ zeros 6
unfolding to_le
step_finished bytes offset b h e =
    let room = scan_step_room bytes offset finished h e in
    let (tag, size, end) =
      entry_finished bytes (offset + 6) (number_at 2 bytes offset) (number_at 4 bytes (offset + 2))
        (sym (scan_step_entry bytes offset room) ∙ e) in
    let a : offset + 2 + 4 ≡ offset + 6 = omega arith in
    cut bytes offset 2
    ∙ ap₂ (λ xs ys. xs ++ ys) (to_le-number_at bytes offset 2 (omega arith) b ∙ ap (to_le 2) tag)
        (cut bytes (offset + 2) 4
          ∙ ap₂ (λ xs ys. xs ++ ys)
              (to_le-number_at bytes (offset + 2) 4 (omega arith) b ∙ ap (to_le 4) size)
              (ap (λ k. drop k bytes) a ∙ drop_all (offset + 6) bytes (omega arith)))

step_cases :
    (s : Result Scanned)
    → ((x : FormatError) × (s ≡ err x))
      ⊎ ((s ≡ ok finished) ⊎ ((t : ExtensionTlv) × (next : ℕ) × (s ≡ ok (found t next))))
step_cases (err x) = inl (x, refl)
step_cases (ok finished) = inr (inl refl)
step_cases (ok (found t next)) = inr (inr (t, next, refl))

module _ (bytes : List ℕ) (b : AllBytes bytes) where
  -- The extensions that are collected are laid out in the rest of the bytes.
  scan_from_read :
      (fuel offset : ℕ) (acc ts : List ExtensionTlv)
      → offset ≤ length bytes
      → scan_from fuel bytes offset acc ≡ some (ok ts)
      → (new : List ExtensionTlv) × (ts ≡ acc ++ new)
        × All IsTlv new
        × (drop offset bytes ≡ layout new)
  unfolding scan_from layout
  scan_from_read zero offset acc ts h e = absurd (cc)
  scan_from_read (suc fuel) offset acc ts h e = elim (step_cases (scan_step bytes offset)) [
    | inl (x, s) ↦ absurd (cc (rw (s, scan_from) at e))
    | inr (inl s) ↦
        let same : acc ≡ ts = cc (rw (s, scan_from) at e) in
        ([], sym same ∙ sym (append-nil acc), tt, step_finished bytes offset b h s)
    | inr (inr (t, next, s)) ↦
        let (valid, inside, after, bytes_eq) = step_found bytes offset t next b h s in
        let (new, joined, all, rest) =
          scan_from_read fuel next (acc ++ (t ∷ [])) ts inside (rw (s, scan_from) at e) in
        (
          t ∷ new,
          joined ∙ append_assoc acc (t ∷ []) new,
          (valid, all),
          bytes_eq ∙ ap (λ ys. to_le 2 t.tag ++ (to_le 4 (length t.value) ++ (t.value ++ ys))) rest,
        )
  ]

  -- Enough fuel gives a result.
  scan_from_total :
      (fuel offset : ℕ) (acc : List ExtensionTlv)
      → offset ≤ length bytes
      → length bytes - offset < fuel
      → (r : Result (List ExtensionTlv)) × (scan_from fuel bytes offset acc ≡ some r)
  unfolding scan_from
  scan_from_total zero offset acc h f = absurd (omega arith)
  scan_from_total (suc fuel) offset acc h f = elim (step_cases (scan_step bytes offset)) [
    | inl (x, s) ↦ (err x, rw (s, scan_from))
    | inr (inl s) ↦ (ok acc, rw (s, scan_from))
    | inr (inr (t, next, s)) ↦
        let (_, inside, after, _) = step_found bytes offset t next b h s in
        let (r, e) = scan_from_total fuel next (acc ++ (t ∷ [])) inside (omega arith) in
        (r, rw (s, scan_from) e)
  ]

-- A round on a laid out extension finds it.
step_of_found :
    (bytes : List ℕ) (offset : ℕ) (t : ExtensionTlv) (more : List ℕ)
    → IsTlv t
    → offset ≤ length bytes
    → drop offset bytes ≡ to_le 2 t.tag ++ (to_le 4 (length t.value) ++ (t.value ++ more))
    → (scan_step bytes offset ≡ ok (found t (offset + 6 + length t.value)))
      × (offset + 6 + length t.value ≤ length bytes)
      × (drop (offset + 6 + length t.value) bytes ≡ more)
step_of_found bytes offset t more v h e =
    let size = length t.value in
    let long : length bytes - offset ≡ 6 + size + length more =
      sym (length-drop offset bytes)
      ∙ ap length e
      ∙ omega (
        arith,
        length-append (to_le 2 t.tag) (to_le 4 size ++ (t.value ++ more)),
        length-append (to_le 4 size) (t.value ++ more),
        length-append t.value more,
        length-to_le 2 t.tag,
        length-to_le 4 size,
      ) in
    let a : offset + 2 + 4 ≡ offset + 6 = omega arith in
    let d2 : drop (offset + 2) bytes ≡ to_le 4 size ++ (t.value ++ more) =
      sym (drop-drop 2 offset bytes)
      ∙ ap (drop 2) e
      ∙ drop-append 2 (to_le 2 t.tag) _ (length-to_le 2 t.tag) in
    let d6 : drop (offset + 6) bytes ≡ t.value ++ more =
      ap (λ k. drop k bytes) (sym a)
      ∙ sym (drop-drop 4 (offset + 2) bytes)
      ∙ ap (drop 4) d2
      ∙ drop-append 4 (to_le 4 size) _ (length-to_le 4 size) in
    let tag : number_at 2 bytes offset ≡ t.tag =
      number_at-to_le bytes offset 2 t.tag
        (ap (take 2) e ∙ take-append 2 (to_le 2 t.tag) _ (length-to_le 2 t.tag)) (v.tag) in
    let len : number_at 4 bytes (offset + 2) ≡ size =
      number_at-to_le bytes (offset + 2) 4 size
        (ap (take 4) d2 ∙ take-append 4 (to_le 4 size) _ (length-to_le 4 size))
        (omega (arith, v.value_length)) in
    let n : offset + 6 + size - (offset + 6) ≡ size = omega arith in
    let value : slice bytes (offset + 6) (offset + 6 + size) ≡ t.value =
      ap (λ k. take k (drop (offset + 6) bytes)) n
      ∙ ap (take size) d6
      ∙ take-append size t.value more refl in
    let same : record { tag = t.tag; value = slice bytes (offset + 6) (offset + 6 + size) } ≡ t =
      λ i. record { tag = t.tag; value = value i } in
    (
      scan_step_entry bytes offset (omega arith)
          ∙ rw (tag, len)
              (entry_of_found bytes (offset + 6) t.tag size v.tag_positive v.value_length
                  (omega arith)
                ∙ ap (λ x. ok (found x (offset + 6 + size))) same),
      omega arith,
      sym (drop-drop size (offset + 6) bytes)
          ∙ ap (drop size) d6
          ∙ drop-append size t.value more refl,
    )

entry_of_finished :
    (bytes : List ℕ) (offset : ℕ)
    → offset ≡ length bytes
    → scan_entry bytes offset 0 0 ≡ ok finished
unfolding scan_entry
entry_of_finished bytes offset h = ground arith

step_of_finished :
    (bytes : List ℕ) (offset : ℕ)
    → offset ≤ length bytes
    → drop offset bytes ≡ zeros 6
    → scan_step bytes offset ≡ ok finished
unfolding to_le
step_of_finished bytes offset h e =
    let long : length bytes - offset ≡ 6 = sym (length-drop offset bytes) ∙ ap length e in
    let tag : number_at 2 bytes offset ≡ 0 =
      number_at-to_le bytes offset 2 0 (ap (take 2) e) (omega arith) in
    let size : number_at 4 bytes (offset + 2) ≡ 0 =
      number_at-to_le bytes (offset + 2) 4 0
        (ap (take 4) (sym (drop-drop 2 offset bytes)) ∙ ap (λ ys. take 4 (drop 2 ys)) e)
        (omega arith) in
    scan_step_entry bytes offset (omega arith)
    ∙ rw (tag, size) (entry_of_finished bytes (offset + 6) (omega arith))

module _ (bytes : List ℕ) where
  scan_from_written :
      (fuel offset : ℕ) (acc ts : List ExtensionTlv)
      → All IsTlv ts
      → offset ≤ length bytes
      → length bytes - offset < fuel
      → drop offset bytes ≡ layout ts
      → scan_from fuel bytes offset acc ≡ some (ok (acc ++ ts))
  unfolding scan_from layout
  scan_from_written zero offset acc ts v h f e = absurd (omega arith)
  scan_from_written (suc fuel) offset acc [] v h f e =
      rw (step_of_finished bytes offset h e, scan_from) (rw (append-nil acc))
  scan_from_written (suc fuel) offset acc (t ∷ ts) (v, vs) h f e =
      let (s, inside, rest) = step_of_found bytes offset t (layout ts) v h e in
      rw (s, scan_from)
        (scan_from_written fuel (offset + 6 + length t.value) (acc ++ (t ∷ [])) ts vs inside
            (omega arith) rest
          ∙ ap (λ x. some (ok x)) (append_assoc acc (t ∷ []) ts))

-- Bytes scan to a list of extensions exactly when they are the layout of that list, each with a
-- tag of 16 bits that is not zero and a value of at most 256 bytes.
pub scan_crypto_extension_tlvs_iff :
    (bytes : List ℕ) (ts : List ExtensionTlv)
    → AllBytes bytes
    → (scan_crypto_extension_tlvs bytes ≡ some (ok ts)) ↔ (All IsTlv ts × (bytes ≡ layout ts))
unfolding scan_crypto_extension_tlvs
scan_crypto_extension_tlvs_iff bytes ts b = (
  λ e.
      let (new, same, all, laid) =
        scan_from_read bytes b (suc (length bytes)) 0 [] ts (omega arith) e in
      (subst (All IsTlv) (sym same) all, laid ∙ ap layout (sym same)),
  λ (v, e). scan_from_written bytes (suc (length bytes)) 0 [] ts v (omega arith) (omega arith) e,
)

-- The scan of any bytes ends, in a list or an error: its fuel never runs out.
pub scan_crypto_extension_tlvs_total :
    (bytes : List ℕ)
    → AllBytes bytes
    → (r : Result (List ExtensionTlv)) × (scan_crypto_extension_tlvs bytes ≡ some r)
unfolding scan_crypto_extension_tlvs
scan_crypto_extension_tlvs_total bytes b =
    scan_from_total bytes b (suc (length bytes)) 0 [] (omega arith) (omega arith)
