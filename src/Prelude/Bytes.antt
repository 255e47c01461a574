-- ===== src/Prelude/Bytes.antt =====
-- Little-endian numbers, as `to_le_bytes` and `from_le_bytes` of the Rust core library write them.
use Prim.Native.Nat.{ℕ, zero, suc, ◌+◌, ◌-◌, ◌*◌, ◌/◌, ◌%◌, ◌^◌, ◌<◌}
use mathlib.Core.Path.{◌≡◌, refl, ap, ap₂, ◌∙◌}
use mathlib.Core.List.{List, [], ◌∷◌, ◌++◌}
use native.Mathlib.Omega.{arith}
use native.Mathlib.Nat.{pow-suc}
use mathlib.Core.Bool.{Bool, true, false, not, ◌&&◌, ◌||◌}
use tzap.Prelude.Tests.{ltb, ◌==◌, if◌then◌else◌}
use tzap.Prelude.Lists.{length, replicate, All, take, drop}

abbrev pub IsByte : ℕ → Type 0
IsByte b = b < 256

abbrev pub AllBytes : List ℕ → Type 0
AllBytes bs = All IsByte bs

unfoldable pub to_le : ℕ → ℕ → List ℕ
to_le zero v = []
to_le (suc k) v = v % 256 ∷ to_le k (v / 256)

unfoldable pub from_le : List ℕ → ℕ
from_le [] = 0
from_le (b ∷ bs) = b + 256 * from_le bs

pub length-to_le : (k v : ℕ) → length (to_le k v) ≡ k
unfolding to_le
length-to_le zero v = refl
length-to_le (suc k) v = ap suc (length-to_le k (v / 256))

pub to_le-AllBytes : (k v : ℕ) → AllBytes (to_le k v)
unfolding to_le
to_le-AllBytes zero v = tt
to_le-AllBytes (suc k) v = (omega arith, to_le-AllBytes k (v / 256))

pub from_le-to_le : (k v : ℕ) → v < 256 ^ k → from_le (to_le k v) ≡ v
unfolding to_le from_le
from_le-to_le zero v h = omega arith
from_le-to_le (suc k) v h = omega (arith, from_le-to_le k (v / 256) (omega (arith, pow-suc 256 k)))

pub to_le-from_le : (bs : List ℕ) (k : ℕ) → length bs ≡ k → AllBytes bs → to_le k (from_le bs) ≡ bs
unfolding to_le from_le
to_le-from_le [] zero h b = refl
to_le-from_le [] (suc k) h b = absurd (omega arith)
to_le-from_le (x ∷ bs) zero h b = absurd (omega arith)
to_le-from_le (x ∷ bs) (suc k) h (p, q) =
    ap₂ (λ y ys. y ∷ ys) (omega arith)
      (ap (to_le k) (omega arith) ∙ to_le-from_le bs k (omega arith) q)

pub from_le-lt : (bs : List ℕ) → AllBytes bs → from_le bs < 256 ^ length bs
unfolding from_le
from_le-lt [] b = omega arith
from_le-lt (x ∷ bs) (p, q) = omega (arith, from_le-lt bs q, pow-suc 256 (length bs))

pub AllBytes-append : (xs ys : List ℕ) → AllBytes xs → AllBytes ys → AllBytes (xs ++ ys)
AllBytes-append [] ys h k = k
AllBytes-append (x ∷ xs) ys (p, h) k = (p, AllBytes-append xs ys h k)

pub AllBytes-take : (n : ℕ) (xs : List ℕ) → AllBytes xs → AllBytes (take n xs)
AllBytes-take zero xs h = tt
AllBytes-take (suc n) [] h = tt
AllBytes-take (suc n) (x ∷ xs) (p, h) = (p, AllBytes-take n xs h)

pub AllBytes-drop : (n : ℕ) (xs : List ℕ) → AllBytes xs → AllBytes (drop n xs)
AllBytes-drop zero xs h = h
AllBytes-drop (suc n) [] h = tt
AllBytes-drop (suc n) (x ∷ xs) (p, h) = AllBytes-drop n xs h

pub AllBytes-zeros : (n : ℕ) → AllBytes (replicate n 0)
AllBytes-zeros zero = tt
AllBytes-zeros (suc n) = (omega arith, AllBytes-zeros n)

-- An `i64` is an integer; its bytes are those of its two's complement.
pub data ℤ : Type 0 where
  pos : ℕ → ℤ
  negsuc : ℕ → ℤ

abbrev pub IsI64 : ℤ → Type 0
IsI64 (pos n) = n < 2 ^ 63
IsI64 (negsuc n) = n < 2 ^ 63

unfoldable pub to_word64 : ℤ → ℕ
to_word64 (pos n) = n % 2 ^ 64
to_word64 (negsuc n) = 2 ^ 64 - 1 - n

unfoldable pub of_word64 : ℕ → ℤ
of_word64 w = if ltb w (2 ^ 63) then pos w else negsuc (2 ^ 64 - 1 - w)

pub of_word64-to_word64 : (z : ℤ) → IsI64 z → of_word64 (to_word64 z) ≡ z
unfolding to_word64 of_word64
of_word64-to_word64 (pos n) h = ground arith
of_word64-to_word64 (negsuc n) h = ground arith

pub to_word64-of_word64 : (w : ℕ) → w < 2 ^ 64 → to_word64 (of_word64 w) ≡ w
unfolding to_word64 of_word64
to_word64-of_word64 w h = ground arith

pub to_word64-lt : (z : ℤ) → to_word64 z < 2 ^ 64
unfolding to_word64
to_word64-lt (pos n) = omega arith
to_word64-lt (negsuc n) = omega arith

pub of_word64-IsI64 : (w : ℕ) → w < 2 ^ 64 → IsI64 (of_word64 w)
unfolding of_word64
of_word64-IsI64 w h = ground arith

-- `bytes.iter().any(|byte| *byte != 0)`
unfoldable pub any_non_zero : List ℕ → Bool
any_non_zero [] = false
any_non_zero (b ∷ bs) = not (b == 0) || any_non_zero bs

pub any_non_zero-zeros : (n : ℕ) → any_non_zero (replicate n 0) ≡ false
unfolding any_non_zero
any_non_zero-zeros zero = refl
any_non_zero-zeros (suc n) = any_non_zero-zeros n

pub zeros_of_none : (xs : List ℕ) → any_non_zero xs ≡ false → xs ≡ replicate (length xs) 0
unfolding any_non_zero
zeros_of_none [] h = refl
zeros_of_none (x ∷ xs) h = ground (arith, zeros_of_none xs)

-- `a == b` on byte strings.
unfoldable pub bytes_eq : List ℕ → List ℕ → Bool
bytes_eq [] [] = true
bytes_eq [] (y ∷ ys) = false
bytes_eq (x ∷ xs) [] = false
bytes_eq (x ∷ xs) (y ∷ ys) = x == y && bytes_eq xs ys

pub bytes_eq→eq : (xs ys : List ℕ) → bytes_eq xs ys ≡ true → xs ≡ ys
unfolding bytes_eq
bytes_eq→eq [] [] h = refl
bytes_eq→eq [] (y ∷ ys) h = cc
bytes_eq→eq (x ∷ xs) [] h = cc
bytes_eq→eq (x ∷ xs) (y ∷ ys) h = ground (arith, bytes_eq→eq xs ys)

pub bytes_eq_refl : (xs : List ℕ) → bytes_eq xs xs ≡ true
unfolding bytes_eq
bytes_eq_refl [] = refl
bytes_eq_refl (x ∷ xs) = ground (arith, bytes_eq_refl xs)

unfoldable pub starts_with : List ℕ → List ℕ → Bool
starts_with bs [] = true
starts_with [] (p ∷ ps) = false
starts_with (b ∷ bs) (p ∷ ps) = b == p && starts_with bs ps

pub starts_with-append : (dir tail : List ℕ) → starts_with (dir ++ tail) dir ≡ true
unfolding starts_with
starts_with-append [] tail = refl
starts_with-append (d ∷ dir) tail = ground (arith, starts_with-append dir tail)
