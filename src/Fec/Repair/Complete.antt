-- ===== src/Fec/Repair/Complete.antt =====
-- Repair and recovery when no data shard is lost: the lemmas for the general case.
use tzap.Prelude.{
  ℕ, suc, ◌*◌, ◌%◌, ◌≤◌, ◌<◌, ◌≡◌, ◌↔◌, refl, sym, ap, ◌∙◌, arith, inl, inr, List, [], ◌∷◌, map,
  length, All, Option, none, some, true, false, not, ◌==◌, ltb,
}
use tzap.Format.{
  Result, ok, err, ◌>>◌, ◌>>=◌, reject_if, Result-cases, ok-injective, usize_mod,
  fec_odd_shard_size, fec_inconsistent_shard_size,
}
use tzap.Wire.Fields.Checks.{run_then, run_then-Passed, run_then_all}
use tzap.Wire.Fields.Reads.{same-passed, same_passes}
use tzap.Fec.Field.{Gf16Tables}
use tzap.Fec.Matrix.{try_map}
use tzap.Fec.Shards.{validate_fec_counts, validate_available_shard}
use tzap.Fec.Repair.{
  Shard, all_some, unwrap, is_empty, repair_with, recover_with, concatenate_from,
  concatenate_complete_data_shards, concat,
}

-- Every shard has the size.
abbrev pub Sized : ℕ → List (List ℕ) → Type 0
Sized size shards = All (λ shard. length shard ≡ size) shards

pub all_some-map : (shards : List (List ℕ)) → all_some (map some shards) ≡ true
unfolding all_some
all_some-map [] = refl
all_some-map (s ∷ ss) = all_some-map ss

abbrev pub check : ℕ → Shard → Result (List ℕ)
check size shard = validate_available_shard (unwrap shard) size

pub checked :
    (size : ℕ) (shards out : List (List ℕ))
    → try_map (check size) (map some shards) ≡ ok out
    → Sized size shards × (out ≡ shards)
unfolding try_map validate_available_shard
checked size [] out h = (tt, cc)
checked size (s ∷ ss) out h = elim (Result-cases (try_map (check size) (map some ss))) [
  | inl (o, e) ↦
      let (sized, same) = checked size ss o e in
      let g = rw e at h in ((ground arith, sized), ground arith)
  | inr (x, e) ↦ let g = rw e at h in absurd (ground arith)
]

unchecked :
    (size : ℕ) (shards : List (List ℕ))
    → Sized size shards
    → try_map (check size) (map some shards) ≡ ok shards
unfolding try_map validate_available_shard
unchecked size [] h = refl
unchecked size (s ∷ ss) (l, h) = rw (unchecked size ss h) (ground arith)

length-map : (shards : List (List ℕ)) → length (map some shards) ≡ length shards
length-map [] = refl
length-map (s ∷ ss) = ap suc (length-map ss)

pub joined :
    (size : ℕ) (shards : List (List ℕ)) (r : Option (List ℕ))
    → concatenate_from size (map some shards) ≡ ok r
    → Sized size shards × (r ≡ some (concat shards))
unfolding concatenate_from
joined size [] r h = (tt, cc)
joined size (s ∷ ss) r h = elim (Result-cases (concatenate_from size (map some ss))) [
  | inl (o, e) ↦
      let (sized, same) = joined size ss o e in
      let g = rw (e, same) at h in ((ground arith, sized), ground arith)
  | inr (x, e) ↦ let g = rw e at h in absurd (ground arith)
]

join :
    (size : ℕ) (shards : List (List ℕ))
    → Sized size shards
    → concatenate_from size (map some shards) ≡ ok (some (concat shards))
unfolding concatenate_from
join size [] h = refl
join size (s ∷ ss) (l, h) = rw (join size ss h) (ground arith)

module _ (tables : Gf16Tables) (shards : List (List ℕ)) (parity : List Shard) (size : ℕ) where
  front : List (Result (Unit {0}))
  front =
      validate_fec_counts (length shards) (length parity)
      ∷ reject_if (not (size % 2 == 0)) fec_odd_shard_size
      ∷ []

  repair_full :
      repair_with tables (map some shards) parity size
      ≡ run_then front (try_map (check size) (map some shards))
  unfolding repair_with front validate_fec_counts
  repair_full = rw (length-map shards, all_some-map shards)

  -- With no data shard lost, repair gives shards exactly when the numbers of shards are allowed,
  -- the size of a shard is even and every data shard has it, and what it gives is the data.
  pub repair_complete_iff :
      (out : List (List ℕ))
      → (repair_with tables (map some shards) parity size ≡ ok out) ↔ (
          (validate_fec_counts (length shards) (length parity) ≡ ok tt)
          × (size % 2 ≡ 0)
          × Sized size shards
          × (out ≡ shards))
  unfolding front
  repair_complete_iff out = (
    λ h.
        let ((counts, (even, _)), e) = run_then-Passed front _ out (sym repair_full ∙ h) in
        let (sized, same) = checked size shards out e in
        (counts, same-passed _ _ _ even, sized, same),
    λ (counts, even, sized, same).
        repair_full
        ∙ run_then_all front _ (counts, (same_passes _ _ _ even, tt))
        ∙ unchecked size shards sized
        ∙ ap ok (sym same),
  )

  complete : Result (Option (List ℕ))
  complete =
      reject_if (not (ltb (length shards * size) usize_mod)) fec_inconsistent_shard_size
      >> concatenate_from size (map some shards)

  not_empty : 1 ≤ length shards → is_empty (map some shards) ≡ false
  not_empty h = go shards h
    where
      go : (xs : List (List ℕ)) → 1 ≤ length xs → is_empty (map some xs) ≡ false
      go [] k = absurd (omega arith)
      go (x ∷ xs) k = refl

  complete_full :
      1 ≤ length shards → concatenate_complete_data_shards (map some shards) size ≡ complete
  unfolding concatenate_complete_data_shards complete
  complete_full h = rw (not_empty h, all_some-map shards, length-map shards)

  recover_of :
      1 ≤ length shards
      → (r : Result (Option (List ℕ))) → complete ≡ r
      → recover_with tables (map some shards) parity size ≡ (
          r >>= λ c. elim c [
            | some bytes ↦ ok bytes
            | none ↦
                repair_with tables (map some shards) parity size
                >>= (λ repaired. ok (concat repaired))
          ])
  unfolding recover_with
  recover_of h r e = rw (complete_full h ∙ e)

  -- With no data shard lost, recovery gives bytes exactly when every data shard has the size and
  -- all of them are less than 2^64 bytes, and what it gives is the data in order; neither the
  -- number of shards nor their size is bounded otherwise.
  pub recover_complete_iff :
      (out : List ℕ)
      → 1 ≤ length shards
      → (recover_with tables (map some shards) parity size ≡ ok out)
        ↔ ((length shards * size < usize_mod) × Sized size shards × (out ≡ concat shards))
  unfolding complete
  recover_complete_iff out pos = (
    λ h. elim (Result-cases complete) [
      | inr (x, e) ↦ absurd (cc (sym (recover_of pos (err x) e) ∙ h))
      | inl (c, e) ↦
          let ((limit, _), f) =
            run_then-Passed
              (reject_if (not (ltb (length shards * size) usize_mod)) fec_inconsistent_shard_size
                ∷ [])
              _ c e in
          let (sized, same) = joined size shards c f in
          let g : out ≡ concat shards = ok-injective (sym h ∙ recover_of pos (ok c) e ∙ rw same) in
          (ground arith, sized, g)
    ],
    λ (limit, sized, same).
        let e : complete ≡ ok (some (concat shards)) = rw (join size shards sized) (ground arith) in
        recover_of pos (ok (some (concat shards))) e ∙ ap ok (sym same),
  )
