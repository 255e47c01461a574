-- ===== src/Metadata/Lookup/Files.antt =====
-- `lookup_file_index` finds the last row of a path, and `none` where there is none.
use tzap.Prelude.{
  ℕ, zero, suc, ◌+◌, ◌-◌, ◌≤◌, ◌<◌, ◌≡◌, ◌≢◌, ◌⊎◌, ◌↔◌, refl, sym, ap, ◌∙◌, arith, List, length,
  Bool, true, false, ltb, ◌&&◌, inl, inr, Bool-cases, Option, none, some,
}
use mathlib.Core.Path.{subst}
use tzap.Prelude.Bytes.{bytes_eq, bytes_eq→eq, bytes_eq_refl}
use tzap.Format.{ok}
use tzap.Metadata.Rows.{IndexShard}
use tzap.Metadata.Order.{bytes_lt_irrefl, key_lt}
use tzap.Metadata.Search.{Splits, IsMonotone, lower_bound, lower_bound-Splits}
use tzap.Metadata.Lookup.{
  validate_file_order, hash_at, path_at, hash_prefix, lookup_file_index, lower_bound_file_key,
  scan_matches,
}
use tzap.Metadata.Lookup.Sorted.{key_lt_trans, row_lt-key, in_order_of_valid}

-- Which rows a scan finds: the last that matches, if one does.
abbrev Scanned : (ℕ → Bool) → ℕ → ℕ → Option ℕ → Option ℕ → Type 0
Scanned matches index end best result =
    ((result ≡ best) × ((i : ℕ) → index ≤ i → i < end → matches i ≡ false))
    ⊎ ((k : ℕ) × (result ≡ some k)
        × (index ≤ k)
        × (k < end)
        × (matches k ≡ true)
        × ((i : ℕ) → k < i → i < end → matches i ≡ false))

module _ (matches : ℕ → Bool) where
  -- The rows that match are a run from the first index on.
  abbrev IsRun : ℕ → ℕ → Type 0
  IsRun index end = (i j : ℕ) → index ≤ i → i ≤ j → j < end → matches j ≡ true → matches i ≡ true

  none_after :
      (index end : ℕ)
      → IsRun index end
      → matches index ≡ false
      → (i : ℕ) → index ≤ i
      → i < end
      → matches i ≡ false
  none_after index end run h i a b = elim (Bool-cases (matches i)) [
    | inl t ↦ let m = run index i (omega arith) a b t in cc
    | inr f ↦ f
  ]

  scan_lem :
      (count index end : ℕ) (best : Option ℕ)
      → index + count ≡ end
      → IsRun index end
      → Scanned matches index end best (scan_matches matches count index best)
  unfolding scan_matches
  scan_lem zero index end best e run = inl (refl, λ i a b. absurd (omega arith))
  scan_lem (suc count) index end best e run = elim (Bool-cases (matches index)) [
    | inr no_match ↦ rw no_match (inl (refl, none_after index end run no_match))
    | inl found ↦
        rw found
          (elim (scan_lem count (suc index) end (some index) (omega arith)
            (λ i j a. run i j (omega arith))) [
              | inl (same, rest) ↦
                  inr
                    (index, same, omega arith, omega arith, found, λ i a b. rest i (omega arith) b)
              | inr (k, same, low, high, m, rest) ↦ inr (k, same, omega arith, high, m, rest)
            ])
  ]

module _ (sha256 : List ℕ → List ℕ) where
  -- A shard whose tables passed the checks of the parser: they have one length, each row carries
  -- the hash of its path, and the rows are in order.
  pub record IsIndexed (s : IndexShard) : Type 0 where
    pub paths : length s.file_paths ≡ length s.files
    pub hashes :
        (i : ℕ)
        → i < length s.files
        → hash_at s.files i ≡ hash_prefix sha256 (path_at s.file_paths i)
    pub order : validate_file_order s.files s.file_paths s.file_tar_member_group_starts ≡ ok tt

  -- The path of the row at an index, which no later row has.
  pub record IsLast (s : IndexShard) (path : List ℕ) (i : ℕ) : Type 0 where
    pub inside : i < length s.files
    pub here : path_at s.file_paths i ≡ path
    pub last : (j : ℕ) → i < j → j < length s.files → path_at s.file_paths j ≢ path

  -- What a lookup is to return.
  abbrev pub Finds : IndexShard → List ℕ → Option ℕ → Type 0
  Finds s path none = (i : ℕ) → i < length s.files → path_at s.file_paths i ≢ path
  Finds s path (some i) = IsLast s path i

  module _ (s : IndexShard) (v : IsIndexed s) (path : List ℕ) where
    less : ℕ → Bool
    less i = key_lt (hash_at s.files i) (path_at s.file_paths i) (hash_prefix sha256 path) path

    matches : ℕ → Bool
    matches i =
        bytes_eq (hash_at s.files i) (hash_prefix sha256 path)
        && bytes_eq (path_at s.file_paths i) path

    matches_iff :
        (i : ℕ) → i < length s.files → (matches i ≡ true) ↔ (path_at s.file_paths i ≡ path)
    unfolding matches
    matches_iff i h = (
      λ m. ground (arith, bytes_eq→eq (path_at s.file_paths i) path),
      λ e.
          let k : hash_at s.files i ≡ hash_prefix sha256 path =
            v.hashes i h ∙ ap (hash_prefix sha256) e in
          rw (k, e, bytes_eq_refl (hash_prefix sha256 path), bytes_eq_refl path),
    )

    keys :
        (i j : ℕ)
        → i < j
        → j < length s.files
        → (key_lt
              (hash_at s.files i)
              (path_at s.file_paths i)
              (hash_at s.files j)
              (path_at s.file_paths j)
            ≡ true)
          ⊎ ((hash_at s.files i ≡ hash_at s.files j)
              × (path_at s.file_paths i ≡ path_at s.file_paths j))
    keys i j a b =
        row_lt-key _ _ _ _ _ _
          (in_order_of_valid s.files s.file_paths s.file_tar_member_group_starts i j v.order a b)

    less_mono : IsMonotone less (length s.files)
    unfolding less
    less_mono i j a b h = elim (Bool-cases (ltb i j)) [
      | inr same ↦ let e : i ≡ j = ground arith in subst (λ k. less k ≡ true) (sym e) h
      | inl before ↦ elim (keys i j (ground arith) b) [
        | inl k ↦ key_lt_trans _ _ _ _ _ _ k h
        | inr (k, q) ↦ rw (k, q) h
      ]
    ]

    not_below : (i : ℕ) → i < length s.files → less i ≡ true → path_at s.file_paths i ≢ path
    unfolding less
    not_below i a h e =
        let k : hash_at s.files i ≡ hash_prefix sha256 path =
          v.hashes i a ∙ ap (hash_prefix sha256) e in
        let g = rw (k, e) at h in
        ground (arith, bytes_lt_irrefl path, bytes_lt_irrefl (hash_prefix sha256 path))

    run : (r : ℕ) → Splits less (length s.files) r → IsRun matches r (length s.files)
    unfolding less matches
    run r split i j a b c m = elim (Bool-cases (ltb i j)) [
      | inr same ↦ let e : i ≡ j = ground arith in subst (λ k. matches k ≡ true) (sym e) m
      | inl before ↦
          let not_less = split.above i a (omega arith) in
          let hash : hash_at s.files j ≡ hash_prefix sha256 path =
            bytes_eq→eq (hash_at s.files j) (hash_prefix sha256 path) (ground arith) in
          let here : path_at s.file_paths j ≡ path =
            bytes_eq→eq (path_at s.file_paths j) path (ground arith) in
          elim (keys i j (ground arith) c) [
            | inl k ↦ let g = rw (hash, here) at k in absurd (cc)
            | inr (k, q) ↦ rw (k, q) m
          ]
    ]

    looked :
        lookup_file_index sha256 s path
        ≡ scan_matches matches
            (length s.files - lower_bound less (length s.files))
            (lower_bound less (length s.files))
            none
    unfolding lookup_file_index lower_bound_file_key less matches lower_bound
    looked = refl

    -- A row that matches has the path, and one that does not has another.
    matched : (i : ℕ) → i < length s.files → matches i ≡ true → path_at s.file_paths i ≡ path
    matched i h m = (matches_iff i h).0 m

    unmatched : (i : ℕ) → i < length s.files → matches i ≡ false → path_at s.file_paths i ≢ path
    unmatched i h m e = let t = (matches_iff i h).1 e in absurd (cc)

    found :
        (k : ℕ)
        → k < length s.files
        → matches k ≡ true
        → ((i : ℕ) → k < i → i < length s.files → matches i ≡ false)
        → Finds s path (some k)
    found k high m after = record {
      inside = high;
      here = matched k high m;
      last = λ j a b. unmatched j b (after j a b);
    }

    missing :
        (r : ℕ)
        → Splits less (length s.files) r
        → ((i : ℕ) → r ≤ i → i < length s.files → matches i ≡ false)
        → Finds s path none
    missing r split nowhere i h = elim (Bool-cases (ltb i r)) [
      | inl before ↦ not_below i h (split.below i (ground arith))
      | inr behind ↦ unmatched i h (nowhere i (ground arith) h)
    ]

    -- A lookup in a shard with checked tables returns the last row of the path, and `none` exactly
    -- where no row has it.
    pub lookup_file_index_lem : Finds s path (lookup_file_index sha256 s path)
    lookup_file_index_lem =
        let n = length s.files in
        let r = lower_bound less n in
        let split = lower_bound-Splits less n less_mono in
        elim (scan_lem matches (n - r) r n none (omega (arith, split.inside)) (run r split)) [
          | inl (same, nowhere) ↦
              subst (Finds s path) (sym (looked ∙ same)) (missing r split nowhere)
          | inr (k, same, low, high, m, after) ↦
              subst (Finds s path) (sym (looked ∙ same)) (found k high m after)
        ]
