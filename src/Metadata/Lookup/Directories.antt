-- ===== src/Metadata/Lookup/Directories.antt =====
-- The lookup of a directory finds it exactly where it is.
use mathlib.Core.Path.{subst}
use tzap.Prelude.{
  ℕ, zero, suc, ◌+◌, ◌-◌, ◌≤◌, ◌<◌, ◌≡◌, ◌≢◌, refl, sym, ap, ◌∙◌, inl, inr, arith, List, length,
  Option, some, none, Bool, true, false, ltb, ◌==◌, ◌&&◌, if◌then◌else◌, Bool-cases,
}
use tzap.Prelude.Bytes.{bytes_eq, bytes_eq→eq, bytes_eq_refl}
use tzap.Metadata.Rows.{DirectoryHintTable}
use tzap.Metadata.Order.{bytes_lt_irrefl, key_lt}
use tzap.Metadata.Search.{lower_bound, lower_bound-Splits, Splits, IsMonotone}
use tzap.Metadata.Lookup.{
  path_at, dir_hash_at, hash_prefix, lower_bound_directory_key, lookup_directory_index,
}
use tzap.Metadata.Lookup.Sorted.{key_lt_trans}

module _ (sha256 : List ℕ → List ℕ) (table : DirectoryHintTable) where
  -- The entry at an index stands before another.
  abbrev pub entry_lt : ℕ → ℕ → Bool
  entry_lt i j =
      key_lt (dir_hash_at sha256 table i) (path_at table.entry_paths i) (dir_hash_at sha256 table j)
        (path_at table.entry_paths j)

  -- What the parser of a hint table asks of its entries: they carry the hashes of their paths, and
  -- each stands before the next.
  pub record IsHinted : Type 0 where
    pub hashes :
        (i : ℕ)
        → i < length table.entries
        → dir_hash_at sha256 table i ≡ hash_prefix sha256 (path_at table.entry_paths i)
    pub next : (i : ℕ) → suc i < length table.entries → entry_lt i (suc i) ≡ true

  -- An entry with the path, or that none has it.
  abbrev pub Locates : List ℕ → Option ℕ → Type 0
  Locates path (some i) = (i < length table.entries) × (path_at table.entry_paths i ≡ path)
  Locates path none = (i : ℕ) → i < length table.entries → path_at table.entry_paths i ≢ path

  module _ (v : IsHinted) (path : List ℕ) where
    sorted : (k i : ℕ) → suc (i + k) < length table.entries → entry_lt i (suc (i + k)) ≡ true
    sorted zero i h = let e : i + 0 ≡ i = omega arith in rw e (v.next i (omega arith))
    sorted (suc k) i h =
        let e : i + suc k ≡ suc (i + k) = omega arith in
        rw e
          (key_lt_trans _ _ _ _ _ _ (sorted k i (omega arith)) (v.next (suc (i + k)) (omega arith)))

    before : (i j : ℕ) → i < j → j < length table.entries → entry_lt i j ≡ true
    before i j a b =
        let e : suc (i + (j - suc i)) ≡ j = omega arith in
        rw e at (sorted (j - suc i) i (omega arith))

    less : ℕ → Bool
    less i =
        key_lt (dir_hash_at sha256 table i) (path_at table.entry_paths i) (hash_prefix sha256 path)
          path

    matches : ℕ → Bool
    matches i =
        bytes_eq (dir_hash_at sha256 table i) (hash_prefix sha256 path)
        && bytes_eq (path_at table.entry_paths i) path

    less_mono : IsMonotone less (length table.entries)
    unfolding less
    less_mono i j a b h = elim (Bool-cases (ltb i j)) [
      | inr same ↦ let e : i ≡ j = ground arith in subst (λ k. less k ≡ true) (sym e) h
      | inl earlier ↦ key_lt_trans _ _ _ _ _ _ (before i j (ground arith) b) h
    ]

    -- The entry of the path, where it has one, has its key.
    key_of :
        (i : ℕ)
        → i < length table.entries
        → path_at table.entry_paths i ≡ path
        → dir_hash_at sha256 table i ≡ hash_prefix sha256 path
    key_of i h e = v.hashes i h ∙ ap (hash_prefix sha256) e

    not_less :
        (i : ℕ) → i < length table.entries → path_at table.entry_paths i ≡ path → less i ≡ false
    unfolding less
    not_less i h e =
        let k = key_of i h e in
        rw (k, e) (ground (arith, bytes_lt_irrefl path, bytes_lt_irrefl (hash_prefix sha256 path)))

    less_before :
        (i j : ℕ)
        → i < j
        → j < length table.entries
        → path_at table.entry_paths j ≡ path
        → less i ≡ true
    unfolding less
    less_before i j a h e = let k = key_of j h e in rw (k, e) at (before i j a h)

    match :
        (i : ℕ) → i < length table.entries → path_at table.entry_paths i ≡ path → matches i ≡ true
    unfolding matches
    match i h e =
        let k = key_of i h e in
        rw (k, e, bytes_eq_refl (hash_prefix sha256 path), bytes_eq_refl path)

    looked : lookup_directory_index sha256 table path ≡ (
        let lower = lower_bound less (length table.entries) in
        if ltb lower (length table.entries) && matches lower then some lower else none)
    unfolding lookup_directory_index lower_bound_directory_key less matches
    looked = refl

    -- No entry has the path, where the one that the search ends at has not.
    nowhere :
        (r : ℕ)
        → Splits less (length table.entries) r
        → (ltb r (length table.entries) && matches r) ≡ false
        → Locates path none
    nowhere r split h i a e =
        let same = match i a e in
        let inside : r ≤ length table.entries = split.inside in
        elim (Bool-cases (ltb i r)) [
          | inl below ↦
              let l = split.below i (ground arith) in let n = not_less i a e in absurd (cc)
          | inr above ↦ elim (Bool-cases (r == i)) [
            | inl here ↦
                let k : r ≡ i = ground arith in
                let m : matches r ≡ true = ap matches k ∙ same in
                let t : ltb r (length table.entries) ≡ true = ground arith in
                absurd (cc (rw (t, m) at h))
            | inr past ↦
                let l = less_before r i (ground arith) a e in
                let n = split.above r (omega arith) (ground arith) in absurd (cc)
          ]
        ]

    ends :
        (r : ℕ)
        → Splits less (length table.entries) r
        → Locates path (if ltb r (length table.entries) && matches r then some r else none)
    unfolding matches
    ends r split = elim (Bool-cases (ltb r (length table.entries) && matches r)) [
      | inl found ↦
          rw found (ground arith, bytes_eq→eq (path_at table.entry_paths r) path (ground arith))
      | inr lost ↦ rw lost (nowhere r split lost)
    ]

-- In a hint table whose entries carry the hashes of their paths and stand in order, the lookup of
-- a directory returns the entry that has its path, or none where no entry has it.
pub lookup_directory_index-Locates :
    (sha256 : List ℕ → List ℕ) (table : DirectoryHintTable) (path : List ℕ)
    → IsHinted sha256 table
    → Locates sha256 table path (lookup_directory_index sha256 table path)
lookup_directory_index-Locates sha256 table path v =
    subst (Locates sha256 table path) (sym (looked sha256 table v path))
      (ends sha256 table v path _ (lower_bound-Splits _ _ (less_mono sha256 table v path)))
