-- ===== src/Metadata/Candidates/Complete.antt =====
-- The candidates are all shards whose range has a hash, and no others.
use tzap.Prelude.{
  ℕ, zero, suc, ◌+◌, ◌-◌, ◌≤◌, ◌<◌, ◌≡◌, sym, ap, ◌∙◌, inl, inr, arith, List, [], length, Bool,
  true, false, ltb, ◌==◌, ◌&&◌, if◌then◌else◌, Bool-cases,
}
use tzap.Format.{Result, ok, ◌>>=◌}
use tzap.Metadata.Rows.{ShardEntry}
use tzap.Metadata.Order.{bytes_lt, bytes_lt_irrefl, bytes_lt_trans, bytes_lt_total}
use tzap.Metadata.Search.{lower_bound-Splits, Splits, IsMonotone}
use tzap.Metadata.Candidates.Scans.{scan_left-LeftEnd, Outcome, no_candidates, both_scans}
use tzap.Metadata.Candidates.{
  bytes_le, range, scan_left, scan_right, first_at, last_at, covers,
  candidate_shard_indexes_for_hash,
}

bytes_le_trans : (a b c : List ℕ) → bytes_le a b ≡ true → bytes_le b c ≡ true → bytes_le a c ≡ true
bytes_le_trans a b c h k = elim (Bool-cases (bytes_lt c a)) [
  | inr not_less ↦ rw not_less
  | inl less ↦ elim (bytes_lt_total b c) [
    | inl before ↦ let t = bytes_lt_trans b c a before less in absurd (ground (arith, t, h))
    | inr (inl same) ↦
        let t : bytes_lt b a ≡ true = ap (λ x. bytes_lt x a) same ∙ less in
        absurd (ground (arith, t, h))
    | inr (inr after) ↦ absurd (ground (arith, after, k))
  ]
]

-- Ranges of rows, from a first hash to a last, that follow one another.
pub record IsChained (n : ℕ) (first last : ℕ → List ℕ) : Type 0 where
  pub ordered : (i : ℕ) → i < n → bytes_le (first i) (last i) ≡ true
  pub next : (i : ℕ) → suc i < n → bytes_le (last i) (first (suc i)) ≡ true

module _ (n : ℕ) (first last : ℕ → List ℕ) (chain : IsChained n first last) where
  first_mono : (k i : ℕ) → i + k < n → bytes_le (first i) (first (i + k)) ≡ true
  first_mono zero i h = let e : i + 0 ≡ i = omega arith in rw e (rw (bytes_lt_irrefl (first i)))
  first_mono (suc k) i h =
      let e : i + suc k ≡ suc (i + k) = omega arith in
      rw e (
        bytes_le_trans (first i) (last (i + k)) (first (suc (i + k)))
          (bytes_le_trans (first i) (first (i + k)) (last (i + k)) (first_mono k i (omega arith))
            (chain.ordered (i + k) (omega arith)))
          (chain.next (i + k) (omega arith)))

  last_mono : (k i : ℕ) → i + k < n → bytes_le (last i) (last (i + k)) ≡ true
  last_mono zero i h = let e : i + 0 ≡ i = omega arith in rw e (rw (bytes_lt_irrefl (last i)))
  last_mono (suc k) i h =
      let e : i + suc k ≡ suc (i + k) = omega arith in
      rw e (
        bytes_le_trans (last i) (first (suc (i + k))) (last (suc (i + k)))
          (bytes_le_trans (last i) (last (i + k)) (first (suc (i + k)))
            (last_mono k i (omega arith)) (chain.next (i + k) (omega arith)))
          (chain.ordered (suc (i + k)) (omega arith)))

  first_le : (i j : ℕ) → i ≤ j → j < n → bytes_le (first i) (first j) ≡ true
  first_le i j a b =
      let e : i + (j - i) ≡ j = omega arith in rw e at (first_mono (j - i) i (omega arith))

  last_le : (i j : ℕ) → i ≤ j → j < n → bytes_le (last i) (last j) ≡ true
  last_le i j a b =
      let e : i + (j - i) ≡ j = omega arith in rw e at (last_mono (j - i) i (omega arith))

  module _ (target : List ℕ) where
    starts : ℕ → Bool
    starts i = bytes_le (first i) target

    abbrev holds : ℕ → Bool
    holds i = bytes_le (first i) target && bytes_le target (last i)

    starts_mono : IsMonotone (λ i. bytes_le (first i) target) n
    starts_mono i j a b h = bytes_le_trans (first i) (first j) target (first_le i j a b) h

    not_started : (i : ℕ) → bytes_le (first i) target ≡ false → holds i ≡ false
    not_started i h = rw h

    all_ended :
        (landing : ℕ)
        → landing < n
        → bytes_lt (last landing) target ≡ true
        → (i : ℕ) → i ≤ landing
        → holds i ≡ false
    all_ended landing inside ended i a = elim (Bool-cases (bytes_le target (last i))) [
      | inr early ↦ ground arith
      | inl late ↦
          let t = bytes_le_trans target (last i) (last landing) late (last_le i landing a inside) in
          absurd (ground (arith, t, ended))
    ]

    holds_mono :
        (landing : ℕ)
        → landing < n
        → bytes_le (first landing) target ≡ true
        → (i j : ℕ) → i ≤ j
        → j ≤ landing
        → holds i ≡ true
        → holds j ≡ true
    holds_mono landing inside started i j a b h =
        let p =
          bytes_le_trans (first j) (first landing) target (first_le j landing b inside) started in
        let q : bytes_le target (last i) ≡ true = ground arith in
        let r = bytes_le_trans target (last i) (last j) q (last_le i j a (omega arith)) in rw (p, r)

    -- What is computed after the binary search, which gave `upper`.
    scans : ℕ → ℕ → Result (List ℕ)
    scans cap landing = scan_left holds cap landing 0 >>= (λ start.
        scan_right holds cap (n - (landing + 1)) (landing + 1) 0
        >>= (λ end. ok (range start (end - start))))

    search : ℕ → ℕ → Result (List ℕ)
    search cap upper =
        let scanned = scans cap (upper - 1) in
        if n == 0
        then ok []
        else if upper == 0
        then ok []
        else if bytes_lt (last (upper - 1)) target
        then ok []
        else scanned

    scans-Outcome :
        (cap landing : ℕ)
        → Splits (λ i. bytes_le (first i) target) n (suc landing)
        → bytes_lt (last landing) target ≡ false
        → Outcome holds n cap (scans cap landing)
    unfolding scans
    scans-Outcome cap landing split open_end =
        let inside = split.inside in
        let started = split.below landing (omega arith) in
        let here : holds landing ≡ true = rw (started, open_end) in
        both_scans holds n cap landing (omega arith) here
          (λ i a b. not_started i (split.above i (omega arith) b))
          (holds_mono landing (omega arith) started) (scan_left holds cap landing 0)
          (scan_left-LeftEnd holds cap landing 0)

    none_holds :
        (upper : ℕ)
        → Splits (λ i. bytes_le (first i) target) n upper
        → suc (upper - 1) ≡ upper
        → bytes_lt (last (upper - 1)) target ≡ true
        → (i : ℕ) → i < n
        → holds i ≡ false
    none_holds upper split e ended i a =
        let inside : upper ≤ n = split.inside in
        elim (Bool-cases (ltb i upper)) [
          | inl before ↦ all_ended (upper - 1) (omega (arith, e)) ended i (ground (arith, e))
          | inr from ↦ not_started i (split.above i (ground arith) a)
        ]

    search-Outcome :
        (cap upper : ℕ)
        → Splits (λ i. bytes_le (first i) target) n upper
        → Outcome holds n cap (search cap upper)
    unfolding search
    search-Outcome cap upper split = elim (Bool-cases (n == 0)) [
      | inl empty ↦ rw empty (no_candidates holds n cap (λ i a. absurd (ground arith)))
      | inr some_rows ↦ elim (Bool-cases (upper == 0)) [
        | inl early ↦
            rw (some_rows, early)
              (no_candidates holds n cap (λ i a. not_started i (split.above i (ground arith) a)))
        | inr later ↦
            let e : suc (upper - 1) ≡ upper = ground arith in
            let inside : upper ≤ n = split.inside in
            elim (Bool-cases (bytes_lt (last (upper - 1)) target)) [
              | inl ended ↦
                  rw (some_rows, later, ended)
                    (no_candidates holds n cap (none_holds upper split e ended))
              | inr open_end ↦
                  rw (some_rows, later, open_end)
                    (scans-Outcome cap (upper - 1) (rw (sym e) at split) open_end)
            ]
      ]
    ]

-- Where the ranges of the shards follow one another, the candidates for a hash are exactly the
-- shards whose range has it; or the answer is the error of too long a run, and more shards than
-- the cap and one follow one another that have it.
pub candidate_shard_indexes-Outcome :
    (shards : List ShardEntry) (target_hash : List ℕ) (cap : ℕ)
    → IsChained
        (length shards)
        (first_at shards (λ entry. entry.first_path_hash) (λ entry. entry.last_path_hash))
        (last_at shards (λ entry. entry.first_path_hash) (λ entry. entry.last_path_hash))
    → Outcome
        (covers shards (λ entry. entry.first_path_hash) (λ entry. entry.last_path_hash) target_hash)
        (length shards)
        cap
        (candidate_shard_indexes_for_hash shards target_hash cap)
unfolding candidate_shard_indexes_for_hash search scans
candidate_shard_indexes-Outcome shards target_hash cap chain =
    search-Outcome (length shards)
      (first_at shards (λ entry. entry.first_path_hash) (λ entry. entry.last_path_hash))
      (last_at shards (λ entry. entry.first_path_hash) (λ entry. entry.last_path_hash)) chain
      target_hash cap _
      (lower_bound-Splits _ (length shards) (
        starts_mono (length shards)
          (first_at shards (λ entry. entry.first_path_hash) (λ entry. entry.last_path_hash))
          (last_at shards (λ entry. entry.first_path_hash) (λ entry. entry.last_path_hash)) chain
          target_hash))
