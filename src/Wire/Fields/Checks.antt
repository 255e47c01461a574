-- ===== src/Wire/Fields/Checks.antt =====
-- A sequence of checks before a result, as each `parse` makes them.
use tzap.Prelude.{ℕ, ◌≡◌, refl, sym, List, [], ◌∷◌, inl, inr}
use Prim.Native.String.{String}
use tzap.Format.{Result, ok, err, ◌>>◌, Result-cases, ok-injective}
use tzap.Wire.Fields.{expect_len}
use tzap.Wire.Fields.Reads.{expect_len-passed}

abbrev pub run_checks {ℓ} : {A : Type ℓ} → List (Result (Unit {0})) → A → Result A
run_checks [] a = ok a
run_checks (m ∷ ms) a = m >> run_checks ms a

-- Checks before what follows them.
abbrev pub run_then {ℓ} : {A : Type ℓ} → List (Result (Unit {0})) → Result A → Result A
run_then [] k = k
run_then (m ∷ ms) k = m >> run_then ms k

abbrev pub Passed : List (Result (Unit {0})) → Type 0
Passed [] = Unit
Passed (m ∷ ms) = (m ≡ ok tt) × Passed ms

module _ {ℓ} {A : Type ℓ} where
  pub run_checks-Passed :
      (ms : List (Result (Unit {0}))) (a b : A) → run_checks ms a ≡ ok b → Passed ms × (b ≡ a)
  run_checks-Passed [] a b h = (tt, sym (ok-injective h))
  run_checks-Passed (ok x ∷ ms) a b h = let (p, e) = run_checks-Passed ms a b h in ((refl, p), e)
  run_checks-Passed (err x ∷ ms) a b h = absurd (cc)

  pub run_checks_all : (ms : List (Result (Unit {0}))) (a : A) → Passed ms → run_checks ms a ≡ ok a
  run_checks_all [] a h = refl
  run_checks_all (m ∷ ms) a (e, h) = rw e (run_checks_all ms a h)

  pub run_then-Passed :
      (ms : List (Result (Unit {0}))) (k : Result A) (b : A)
      → run_then ms k ≡ ok b
      → Passed ms × (k ≡ ok b)
  run_then-Passed [] k b h = (tt, h)
  run_then-Passed (ok x ∷ ms) k b h = let (p, e) = run_then-Passed ms k b h in ((refl, p), e)
  run_then-Passed (err x ∷ ms) k b h = absurd (cc)

  pub run_then_all : (ms : List (Result (Unit {0}))) (k : Result A) → Passed ms → run_then ms k ≡ k
  run_then_all [] k h = refl
  run_then_all (m ∷ ms) k (e, h) = rw e (run_then_all ms k h)

  -- A parser that begins with a check of the length rejects every other length.
  pub length_checked :
      (structure : String) (n m : ℕ) (k : Result A) {a : A}
      → (expect_len structure n m >> k) ≡ ok a
      → m ≡ n
  length_checked structure n m k h = elim (Result-cases (expect_len structure n m)) [
    | inl (tt, f) ↦ expect_len-passed structure n m f
    | inr (x, f) ↦ absurd (cc (rw f at h))
  ]
