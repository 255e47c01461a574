-- ===== src/Fec/Field.antt =====
-- The arithmetic of GF(2^16) in crates/tzap-core/src/fec.rs. An array is a function of its index;
-- a `u16` keeps its wrap-around.
use Prim.Native.Nat.{bit_and, bit_xor}
use tzap.Prelude.{ℕ, zero, suc, ◌+◌, ◌-◌, ◌*◌, ◌/◌, ◌%◌, ◌^◌, ◌==◌, ◌||◌, if◌then◌else◌}
use tzap.Format.{Result, ok, ◌>>◌, reject_if, fec_singular_matrix}

abbrev pub gf16_reduction_poly_low : ℕ
gf16_reduction_poly_low = 0x100b

abbrev pub gf16_field_size : ℕ
gf16_field_size = 2 ^ 16

abbrev pub gf16_order : ℕ
gf16_order = 65535

abbrev pub gf16_generator : ℕ
gf16_generator = 2

-- `u16::MAX`
abbrev pub gf16_log_zero : ℕ
gf16_log_zero = 65535

pub record Gf16Tables : Type 0 where
  pub log : ℕ → ℕ
  pub exp : ℕ → ℕ

-- `array[i] = v`
abbrev pub store : (ℕ → ℕ) → ℕ → ℕ → ℕ → ℕ
store array i v j = if j == i then v else array j

abbrev pub gf16_add : ℕ → ℕ → ℕ
gf16_add a b = bit_xor a b

-- The body of the loop of `gf16_mul_slow`, run as often as is said.
unfoldable pub mul_rounds : ℕ → ℕ → ℕ → ℕ → ℕ
mul_rounds zero a b product = product
mul_rounds (suc rounds) a b product =
    let next_product = if bit_and b 1 == 0 then product else bit_xor product a in
    let shifted = a * 2 % 2 ^ 16 in
    let next_a =
      if bit_and a 0x8000 == 0 then shifted else bit_xor shifted gf16_reduction_poly_low in
    mul_rounds rounds next_a (b / 2) next_product

unfoldable pub gf16_mul_slow : ℕ → ℕ → ℕ
unfolding mul_rounds
gf16_mul_slow a b = mul_rounds 16 a b 0

-- The first loop of `gf16_tables`: the powers of the generator and their logarithms.
unfoldable pub fill_powers : ℕ → ℕ → ℕ → Gf16Tables → Gf16Tables
unfolding gf16_mul_slow
fill_powers zero power value tables = tables
fill_powers (suc count) power value tables =
    fill_powers count (suc power) (gf16_mul_slow value gf16_generator)
      (record { log = store tables.log value (power % 2 ^ 16); exp = store tables.exp power value })

-- The second loop: the powers once more.
unfoldable pub double_powers : ℕ → ℕ → (ℕ → ℕ) → ℕ → ℕ
double_powers zero power exp = exp
double_powers (suc count) power exp =
    double_powers count (suc power) (store exp power (exp (power - gf16_order)))

unfoldable pub gf16_tables : Gf16Tables
unfolding fill_powers double_powers
gf16_tables =
    let filled = fill_powers gf16_order 0 1 (record { log = λ _. gf16_log_zero; exp = λ _. 0 }) in
    record { log = filled.log; exp = double_powers gf16_order gf16_order filled.exp }

abbrev pub gf16_mul_with : Gf16Tables → ℕ → ℕ → ℕ
gf16_mul_with tables a b = if a == 0 || b == 0 then 0 else tables.exp (tables.log a + tables.log b)

unfoldable pub gf16_mul : ℕ → ℕ → ℕ
unfolding gf16_tables
gf16_mul a b = gf16_mul_with gf16_tables a b

abbrev pub gf16_inverse_with : Gf16Tables → ℕ → Result ℕ
gf16_inverse_with tables value = do
  reject_if (value == 0) fec_singular_matrix
  ok (tables.exp (gf16_order - tables.log value))

unfoldable pub gf16_inverse : ℕ → Result ℕ
unfolding gf16_tables
gf16_inverse value = gf16_inverse_with gf16_tables value

-- The loop of `gf16_pow`, whose exponent of 32 bits is used up after 32 rounds.
unfoldable pub pow_rounds : ℕ → ℕ → ℕ → ℕ → ℕ
unfolding gf16_mul
pow_rounds zero result base exponent = result
pow_rounds (suc rounds) result base exponent =
    let next =
      pow_rounds rounds (if bit_and exponent 1 == 0 then result else gf16_mul result base)
        (gf16_mul base base) (exponent / 2) in
    if exponent == 0 then result else next

unfoldable pub gf16_pow : ℕ → ℕ → ℕ
unfolding pow_rounds
gf16_pow base exponent = pow_rounds 32 1 base exponent
