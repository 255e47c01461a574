-- ===== src/Metadata/Candidates/Scans.antt =====
-- What the scans to both sides of a row end with.
use mathlib.Core.List.{Memᴰ}
use mathlib.Core.List.Memᴰ
use tzap.Prelude.{
  ℕ, zero, suc, ◌+◌, ◌-◌, ◌≤◌, ◌<◌, ◌≡◌, refl, ap, ◌∙◌, ◌↔◌, inl, inr, arith, List, [], Bool, true,
  false, ltb, ◌==◌, Bool-cases,
}
use tzap.Format.{Result, ok, err, ◌>>=◌, hash_prefix_collision_run_exceeded}
use tzap.Metadata.Candidates.{range, scan_left, scan_right}

range_iff : (start count i : ℕ) → Memᴰ i (range start count) ↔ ((start ≤ i) × (i < start + count))
range_iff start count i = (there start count, back start count)
  where
    there : (s c : ℕ) → Memᴰ i (range s c) → (s ≤ i) × (i < s + c)
    there s zero m = absurd (Memᴰ.not-nil m)
    there s (suc c) (Memᴰ.head e) = (omega (arith, e), omega (arith, e))
    there s (suc c) (Memᴰ.tail m) = omega (arith, there (suc s) c m)

    back : (s c : ℕ) → (s ≤ i) × (i < s + c) → Memᴰ i (range s c)
    back s zero (a, b) = absurd (omega arith)
    back s (suc c) (a, b) = elim (Bool-cases (i == s)) [
      | inl here ↦ Memᴰ.head (ground arith)
      | inr later ↦ Memᴰ.tail (back (suc s) c (ground arith, omega arith))
    ]

-- What a scan to the left ends with.
pub data LeftEnd (holds : ℕ → Bool) (cap from scanned : ℕ) : Result ℕ → Type 0 where
  stopped :
      (r : ℕ)
      → r ≤ from
      → ((i : ℕ) → r ≤ i → i < from → holds i ≡ true)
      → ((i : ℕ) → suc i ≡ r → holds i ≡ false)
      → LeftEnd holds cap from scanned (ok r)
  too_many :
      (r : ℕ)
      → r + cap < from + scanned
      → ((i : ℕ) → r ≤ i → i < from → holds i ≡ true)
      → LeftEnd holds cap from scanned (err hash_prefix_collision_run_exceeded)

longer_run :
    (holds : ℕ → Bool) (r from : ℕ)
    → holds from ≡ true
    → ((i : ℕ) → r ≤ i → i < from → holds i ≡ true)
    → (i : ℕ) → r ≤ i
    → i < suc from
    → holds i ≡ true
longer_run holds r from here run i a b = elim (Bool-cases (i == from)) [
  | inl last ↦ let same : i ≡ from = ground arith in ap holds same ∙ here
  | inr before ↦ run i a (ground arith)
]

longer :
    (holds : ℕ → Bool) (cap from scanned : ℕ) (m : Result ℕ)
    → holds from ≡ true
    → LeftEnd holds cap from (suc scanned) m
    → LeftEnd holds cap (suc from) scanned m
longer holds cap from scanned m here (stopped r low run stop) =
    stopped r (omega arith) (longer_run holds r from here run) stop
longer holds cap from scanned m here (too_many r more run) =
    too_many r (omega arith) (longer_run holds r from here run)

pub scan_left-LeftEnd :
    (holds : ℕ → Bool) (cap from scanned : ℕ)
    → LeftEnd holds cap from scanned (scan_left holds cap from scanned)
unfolding scan_left
scan_left-LeftEnd holds cap zero scanned =
    stopped 0 (omega arith) (λ i a b. absurd (omega arith)) (λ i e. absurd (omega (arith, e)))
scan_left-LeftEnd holds cap (suc from) scanned = elim (Bool-cases (holds from)) [
  | inr not_here ↦ rw not_here (
      stopped (suc from) (omega arith) (λ i a b. absurd (omega arith))
        (λ i e. let same : i ≡ from = omega (arith, e) in ap holds same ∙ not_here))
  | inl here ↦ elim (Bool-cases (ltb cap (suc scanned))) [
    | inl full ↦
        rw (here, full)
          (too_many from (ground arith)
            (λ i a b. let same : i ≡ from = omega arith in ap holds same ∙ here))
    | inr room ↦
        rw (here, room)
          (longer holds cap from scanned (scan_left holds cap from (suc scanned)) here
            (scan_left-LeftEnd holds cap from (suc scanned)))
  ]
]

-- The rows that hold are the candidates; or more of them follow one another than the cap allows.
pub data Outcome (holds : ℕ → Bool) (n cap : ℕ) : Result (List ℕ) → Type 0 where
  candidates :
      (found : List ℕ)
      → ((i : ℕ) → Memᴰ i found ↔ ((i < n) × (holds i ≡ true)))
      → Outcome holds n cap (ok found)
  exceeded :
      (r : ℕ)
      → suc (r + cap) < n
      → ((i : ℕ) → r ≤ i → i ≤ suc (r + cap) → holds i ≡ true)
      → Outcome holds n cap (err hash_prefix_collision_run_exceeded)

pub no_candidates :
    (holds : ℕ → Bool) (n cap : ℕ)
    → ((i : ℕ) → i < n → holds i ≡ false)
    → Outcome holds n cap (ok [])
no_candidates holds n cap none_holds =
    candidates []
      (λ i. (λ m. absurd (Memᴰ.not-nil m), λ (a, h). let f = none_holds i a in absurd (cc)))

scan_right_stops :
    (holds : ℕ → Bool) (cap left end : ℕ)
    → (1 ≤ left → holds end ≡ false)
    → scan_right holds cap left end 0 ≡ ok end
unfolding scan_right
scan_right_stops holds cap zero end h = refl
scan_right_stops holds cap (suc left) end h = rw (h (omega arith))

-- Both scans, where the row that is landed on holds, none after it does, and the rows before it
-- that hold are next to it.
module _ (holds : ℕ → Bool) (n cap landing : ℕ) (inside : landing < n) (here : holds landing ≡ true)
    (after : (i : ℕ) → landing < i → i < n → holds i ≡ false)
    (mono : (i j : ℕ) → i ≤ j → j ≤ landing → holds i ≡ true → holds j ≡ true) where
  pub both_scans :
      (m : Result ℕ)
      → LeftEnd holds cap landing 0 m
      → Outcome holds n cap (
          m >>= (λ start.
            scan_right holds cap (n - (landing + 1)) (landing + 1) 0
            >>= (λ end. ok (range start (end - start)))))
  both_scans m (stopped r low run stop) =
      rw
        (scan_right_stops holds cap (n - (landing + 1)) (landing + 1)
          (λ k. after (landing + 1) (omega arith) (omega arith)))
        (candidates (range r (landing + 1 - r)) (λ i. (forward i, backward i)))
    where
      forward : (i : ℕ) → Memᴰ i (range r (landing + 1 - r)) → (i < n) × (holds i ≡ true)
      forward i mem =
          let (a, b) = (range_iff r (landing + 1 - r) i).0 mem in
          (omega arith, longer_run holds r landing here run i a (omega arith))

      backward : (i : ℕ) → (i < n) × (holds i ≡ true) → Memᴰ i (range r (landing + 1 - r))
      backward i (a, h) =
          let before = not_after i a h in
          let from = not_before i before h in
          (range_iff r (landing + 1 - r) i).1 (from, omega arith)
        where
          not_after : (k : ℕ) → k < n → holds k ≡ true → k ≤ landing
          not_after k a h = elim (Bool-cases (ltb landing k)) [
            | inl past ↦ let f = after k (ground arith) a in absurd (cc)
            | inr before ↦ ground arith
          ]

          not_before : (k : ℕ) → k ≤ landing → holds k ≡ true → r ≤ k
          not_before k before h = elim (Bool-cases (ltb k r)) [
            | inr from ↦ ground arith
            | inl less ↦
                let less_r : k < r = ground arith in
                let t = mono k (r - 1) (omega arith) (omega arith) h in
                let f = stop (r - 1) (omega arith) in absurd (cc)
          ]
  both_scans m (too_many r more run) =
      exceeded r (omega arith) (λ i a b. longer_run holds r landing here run i a (omega arith))
