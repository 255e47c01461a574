-- ===== src/Fec/Repair/Recovery.antt =====
-- Recovery, with its fast path for complete data, against repair.
use mathlib.Core.Path.{subst}
use tzap.Prelude.{
  ℕ, ◌+◌, ◌*◌, ◌^◌, ◌≤◌, ◌<◌, ◌≡◌, sym, ap, ◌∙◌, arith, inl, inr, List, [], ◌∷◌, map, length,
  length-append, Option, none, some, true, false, not, ◌||◌, ltb, Bool-cases,
}
use tzap.Format.{
  ok, ◌>>=◌, first_succeeds, check_succeeds, ok-injective, reject_if, fec_inconsistent_shard_size,
  usize_mod,
}
use tzap.Fec.Field.{Gf16Tables}
use tzap.Fec.Repair.{
  Shard, all_some, is_empty, repair_with, concatenate_complete_data_shards, recover_with, concat,
}
use tzap.Fec.Repair.Sizes.{length-map, available_count}
use tzap.Fec.Repair.Complete.{Sized, joined, repair_complete_iff, recover_complete_iff}
use tzap.Fec.Repair.Outcome.{
  present, all_present, length-present, IsRepaired, repair_with-IsRepaired,
}

length-concat :
    (size : ℕ) (shards : List (List ℕ))
    → Sized size shards
    → length (concat shards) ≡ length shards * size
length-concat size [] h = omega arith
length-concat size (s ∷ ss) (p, h) =
    length-append s (concat ss) ∙ grind (arith, p, length-concat size ss h)

-- What recovery says of its bytes.
pub record IsRecovered (data_shards parity_shards : List Shard) (size : ℕ) (out : List ℕ)
    : Type 0 where
  pub some_data : 1 ≤ length data_shards
  pub byte_count : length out ≡ length data_shards * size
  pub enough : length data_shards ≤ available_count data_shards + available_count parity_shards

not_empty : (shards : List Shard) → is_empty shards ≡ false → 1 ≤ length shards
not_empty [] h = absurd (cc)
not_empty (s ∷ ss) h = omega arith

-- The bytes of the fast path.
fast-IsRecovered :
    (data_shards parity_shards : List Shard) (size : ℕ) (bytes : List ℕ)
    → concatenate_complete_data_shards data_shards size ≡ ok (some bytes)
    → IsRecovered data_shards parity_shards size bytes
unfolding concatenate_complete_data_shards
fast-IsRecovered data_shards parity_shards size bytes h =
    elim (Bool-cases (is_empty data_shards || not (all_some data_shards))) [
      | inl slow ↦ let g = rw slow at h in absurd (cc)
      | inr fast ↦
          let (limit, g) =
            check_succeeds
              (reject_if (not (ltb (length data_shards * size) usize_mod))
                fec_inconsistent_shard_size)
              _ (some bytes) (rw fast at h) in
          let shards = present data_shards in
          let same = all_present data_shards (ground arith) in
          let (sized, joined_same) = joined size shards (some bytes) (rw same at g) in
          let n : length data_shards ≡ length shards = ap length same ∙ length-map some shards in
          let there : available_count data_shards ≡ length shards =
            ap available_count same ∙ length-present shards in
          let e : bytes ≡ concat shards = cc in
          record {
            some_data = not_empty data_shards (ground arith);
            byte_count = ap length e ∙ length-concat size shards sized ∙ ap (λ k. k * size) (sym n);
            enough = omega (arith, n, there);
          }
    ]

module _ (tables : Gf16Tables) where
  slow-IsRecovered :
      (data_shards parity_shards : List Shard) (size : ℕ) (shards : List (List ℕ))
      → IsRepaired data_shards parity_shards size shards
      → IsRecovered data_shards parity_shards size (concat shards)
  slow-IsRecovered data_shards parity_shards size shards r = record {
    some_data = r.some_data;
    byte_count = length-concat size shards r.shard_sizes ∙ ap (λ k. k * size) r.shard_count;
    enough = r.enough;
  }

  -- Bytes that are recovered, whatever is lost, are as many as the shards of data have by their
  -- size; there is a shard of data, and as many shards as those of data are there.
  pub recover_with-IsRecovered :
      (data_shards parity_shards : List Shard) (size : ℕ) (out : List ℕ)
      → recover_with tables data_shards parity_shards size ≡ ok out
      → IsRecovered data_shards parity_shards size out
  unfolding recover_with
  recover_with-IsRecovered data_shards parity_shards size out h =
      let (complete, c, rest) =
        first_succeeds (concatenate_complete_data_shards data_shards size) _ out h in
      either complete c rest
    where
      either :
          (complete : Option (List ℕ))
          → concatenate_complete_data_shards data_shards size ≡ ok complete
          → elim complete [
            | some concatenated ↦ ok concatenated
            | none ↦
                repair_with tables data_shards parity_shards size
                >>= (λ repaired. ok (concat repaired))
          ]
            ≡ ok out
          → IsRecovered data_shards parity_shards size out
      either (some bytes) c rest =
          rw (ok-injective rest) at (fast-IsRecovered data_shards parity_shards size bytes c)
      either none c rest =
          let (shards, r, e) =
            first_succeeds (repair_with tables data_shards parity_shards size) _ out rest in
          rw (ok-injective e) at (
            slow-IsRecovered data_shards parity_shards size shards
              (repair_with-IsRepaired tables data_shards parity_shards size shards r))

  complete_agrees :
      (shards : List (List ℕ)) (parity_shards : List Shard) (size : ℕ) (out : List (List ℕ))
      → 1 ≤ length shards
      → length shards * size < 2 ^ 64
      → repair_with tables (map some shards) parity_shards size ≡ ok out
      → recover_with tables (map some shards) parity_shards size ≡ ok (concat out)
  complete_agrees shards parity_shards size out positive fits_usize h =
      let (counts, even, sized, same) =
        (repair_complete_iff tables shards parity_shards size out).0 h in
      (recover_complete_iff tables shards parity_shards size (concat out) positive).1
        (fits_usize, sized, ap concat same)

  -- Where repair gives shards and their bytes can be counted, recovery gives those bytes in order,
  -- whether it takes its fast path or not.
  pub recover-repair_with :
      (data_shards parity_shards : List Shard) (size : ℕ) (out : List (List ℕ))
      → length data_shards * size < 2 ^ 64
      → repair_with tables data_shards parity_shards size ≡ ok out
      → recover_with tables data_shards parity_shards size ≡ ok (concat out)
  unfolding recover_with concatenate_complete_data_shards
  recover-repair_with data_shards parity_shards size out small h =
      let repaired = repair_with-IsRepaired tables data_shards parity_shards size out h in
      elim (Bool-cases (all_some data_shards)) [
        | inl complete ↦
            let same = all_present data_shards complete in
            let n = ap length same ∙ length-map some (present data_shards) in
            let p : 1 ≤ length (present data_shards) = omega (arith, n, repaired.some_data) in
            let q : length (present data_shards) * size < 2 ^ 64 = rw n at small in
            subst
              (λ shards.
                repair_with tables shards parity_shards size ≡ ok out
                → recover_with tables shards parity_shards size ≡ ok (concat out))
              (sym same) (complete_agrees (present data_shards) parity_shards size out p q) h
        | inr lost ↦
            let slow : (is_empty data_shards || not (all_some data_shards)) ≡ true =
              ground (arith, lost) in
            rw (slow, h)
      ]
