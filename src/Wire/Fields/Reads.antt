-- ===== src/Wire/Fields/Reads.antt =====
-- Reading what lies in the vector, and what a passed check says.
use Prim.Native.String.{String}
use tzap.Prelude.{
  refl, not, ltb, ◌==◌, [], ◌∷◌, zero, suc, ◌<◌, ℕ, ◌+◌, ◌-◌, ◌^◌, ◌≤◌, ◌≡◌, sym, ap, ◌∙◌, List,
  arith, length, take, drop, length-take, length-drop,
}
use tzap.Prelude.Slices.{slice, zeros}
use tzap.Prelude.Bytes.{
  ℤ, IsI64, to_word64, of_word64, of_word64-to_word64, to_word64-of_word64, to_word64-lt, AllBytes,
  AllBytes-take, AllBytes-drop, any_non_zero-zeros, zeros_of_none, bytes_eq→eq, bytes_eq_refl,
  to_le, from_le, from_le-to_le, to_le-from_le, from_le-lt,
}
use tzap.Format.{reject_if, FormatError, ok}
use tzap.Wire.Fields.{
  byte_at, expect_len, expect_magic, expect_zero, expect_crc, get_range, read_array_16,
  read_array_24, read_array_32, read_u16, read_u32, read_u64, read_i64, IsArray,
}

-- The bytes and the number at an offset.
abbrev pub bytes_at : ℕ → List ℕ → ℕ → List ℕ
bytes_at n bytes offset = take n (drop offset bytes)

unfoldable pub number_at : ℕ → List ℕ → ℕ → ℕ
number_at n bytes offset = from_le (bytes_at n bytes offset)

module _ (bytes : List ℕ) (offset : ℕ) where
  get_range_inside :
      (structure : String) (n : ℕ)
      → offset + n ≤ length bytes
      → get_range structure n bytes offset ≡ ok (bytes_at n bytes offset)
  unfolding get_range
  get_range_inside structure n h = ground arith

  pub read_u16_inside :
      offset + 2 ≤ length bytes → read_u16 bytes offset ≡ ok (number_at 2 bytes offset)
  unfolding read_u16 number_at
  read_u16_inside h = rw (get_range_inside "u16" 2 h)

  pub read_u32_inside :
      offset + 4 ≤ length bytes → read_u32 bytes offset ≡ ok (number_at 4 bytes offset)
  unfolding read_u32 number_at
  read_u32_inside h = rw (get_range_inside "u32" 4 h)

  pub read_u64_inside :
      offset + 8 ≤ length bytes → read_u64 bytes offset ≡ ok (number_at 8 bytes offset)
  unfolding read_u64 number_at
  read_u64_inside h = rw (get_range_inside "u64" 8 h)

  pub read_i64_inside :
      offset + 8 ≤ length bytes → read_i64 bytes offset ≡ ok (of_word64 (number_at 8 bytes offset))
  unfolding read_i64 number_at
  read_i64_inside h = rw (get_range_inside "i64" 8 h)

  pub read_array_16_inside :
      offset + 16 ≤ length bytes → read_array_16 bytes offset ≡ ok (bytes_at 16 bytes offset)
  unfolding read_array_16
  read_array_16_inside h = get_range_inside "array16" 16 h

  pub read_array_24_inside :
      offset + 24 ≤ length bytes → read_array_24 bytes offset ≡ ok (bytes_at 24 bytes offset)
  unfolding read_array_24
  read_array_24_inside h = get_range_inside "array24" 24 h

  pub read_array_32_inside :
      offset + 32 ≤ length bytes → read_array_32 bytes offset ≡ ok (bytes_at 32 bytes offset)
  unfolding read_array_32
  read_array_32_inside h = get_range_inside "array32" 32 h

  -- A number whose bytes lie at the offset is read.
  pub number_at-to_le :
      (n v : ℕ) → bytes_at n bytes offset ≡ to_le n v → v < 256 ^ n → number_at n bytes offset ≡ v
  unfolding number_at
  number_at-to_le n v h k = ap from_le h ∙ from_le-to_le n v k

  -- The bytes at an offset are those of the number there.
  pub to_le-number_at :
      (n : ℕ)
      → offset + n ≤ length bytes
      → AllBytes bytes
      → bytes_at n bytes offset ≡ to_le n (number_at n bytes offset)
  unfolding number_at
  to_le-number_at n h b = sym (
      to_le-from_le (bytes_at n bytes offset) n
        (omega (arith, length-take n (drop offset bytes), length-drop offset bytes))
        (AllBytes-take n (drop offset bytes) (AllBytes-drop offset bytes b)))

  pub number_at-lt :
      (n : ℕ) → offset + n ≤ length bytes → AllBytes bytes → number_at n bytes offset < 256 ^ n
  unfolding number_at
  number_at-lt n h b =
      let l : length (bytes_at n bytes offset) ≡ n =
        omega (arith, length-take n (drop offset bytes), length-drop offset bytes) in
      rw l at (
        from_le-lt (bytes_at n bytes offset)
          (AllBytes-take n (drop offset bytes) (AllBytes-drop offset bytes b)))

  pub bytes_at-IsArray :
      (n : ℕ) → offset + n ≤ length bytes → AllBytes bytes → IsArray n (bytes_at n bytes offset)
  bytes_at-IsArray n h b = (
    omega (arith, length-take n (drop offset bytes), length-drop offset bytes),
    AllBytes-take n (drop offset bytes) (AllBytes-drop offset bytes b),
  )

-- One byte.
pub bytes_at-byte :
    (bytes : List ℕ) (o : ℕ) → o < length bytes → bytes_at 1 bytes o ≡ byte_at bytes o ∷ []
bytes_at-byte [] o h = absurd (omega arith)
bytes_at-byte (b ∷ bytes) zero h = refl
bytes_at-byte (b ∷ bytes) (suc o) h = bytes_at-byte bytes o (omega arith)

pub byte_at-eq : (bytes : List ℕ) (o v : ℕ) → bytes_at 1 bytes o ≡ v ∷ [] → byte_at bytes o ≡ v
byte_at-eq [] zero v h = absurd (cc)
byte_at-eq [] (suc o) v h = absurd (cc)
byte_at-eq (b ∷ bytes) zero v h = cc
byte_at-eq (b ∷ bytes) (suc o) v h = byte_at-eq bytes o v h

pub byte_at-lt : (bytes : List ℕ) (o : ℕ) → AllBytes bytes → byte_at bytes o < 256
byte_at-lt [] o b = omega arith
byte_at-lt (x ∷ bytes) zero (p, b) = p
byte_at-lt (x ∷ bytes) (suc o) (p, b) = byte_at-lt bytes o b

-- A signed number.
pub to_word64-at :
    (bytes : List ℕ) (o : ℕ)
    → o + 8 ≤ length bytes
    → AllBytes bytes
    → bytes_at 8 bytes o ≡ to_le 8 (to_word64 (of_word64 (number_at 8 bytes o)))
to_word64-at bytes o h b =
    to_le-number_at bytes o 8 h b
    ∙ ap (to_le 8) (sym (to_word64-of_word64 _ (number_at-lt bytes o 8 h b)))

pub of_word64-at :
    (bytes : List ℕ) (o : ℕ) (z : ℤ)
    → bytes_at 8 bytes o ≡ to_le 8 (to_word64 z)
    → IsI64 z
    → of_word64 (number_at 8 bytes o) ≡ z
of_word64-at bytes o z h t =
    ap of_word64 (number_at-to_le bytes o 8 (to_word64 z) h (to_word64-lt z))
    ∙ of_word64-to_word64 z t

-- A number that the code compares with a constant.
pub same-passed : (a b : ℕ) (e : FormatError) → reject_if (not (a == b)) e ≡ ok tt → a ≡ b
same-passed a b e h = ground arith

pub same_passes : (a b : ℕ) (e : FormatError) → a ≡ b → reject_if (not (a == b)) e ≡ ok tt
same_passes a b e h = ground arith

pub most-passed : (a b : ℕ) (e : FormatError) → reject_if (ltb b a) e ≡ ok tt → a ≤ b
most-passed a b e h = ground arith

pub most_passes : (a b : ℕ) (e : FormatError) → a ≤ b → reject_if (ltb b a) e ≡ ok tt
most_passes a b e h = ground arith

-- The checks pass exactly when what they check holds.
pub expect_len_same : (structure : String) (n : ℕ) → expect_len structure n n ≡ ok tt
unfolding expect_len
expect_len_same structure n = ground arith

pub expect_len-passed : (structure : String) (n m : ℕ) → expect_len structure n m ≡ ok tt → m ≡ n
unfolding expect_len
expect_len-passed structure n m h = ground arith

pub expect_magic_same : (structure : String) (m : List ℕ) → expect_magic structure m m ≡ ok tt
unfolding expect_magic
expect_magic_same structure m = rw (bytes_eq_refl m)

pub expect_magic-passed :
    (structure : String) (m a : List ℕ) → expect_magic structure m a ≡ ok tt → a ≡ m
unfolding expect_magic
expect_magic-passed structure m a h = bytes_eq→eq a m (ground arith)

pub expect_zero-zeros : (structure : String) (n : ℕ) → expect_zero structure (zeros n) ≡ ok tt
unfolding expect_zero
expect_zero-zeros structure n = rw (any_non_zero-zeros n)

pub expect_zero-passed :
    (structure : String) (a : List ℕ) → expect_zero structure a ≡ ok tt → a ≡ zeros (length a)
unfolding expect_zero
expect_zero-passed structure a h = zeros_of_none a (ground arith)

-- A reserved range of an accepted vector is zero.
pub zero_between :
    (structure : String) (bytes : List ℕ) (a b : ℕ)
    → b ≤ length bytes
    → expect_zero structure (slice bytes a b) ≡ ok tt
    → slice bytes a b ≡ zeros (b - a)
zero_between structure bytes a b h e =
    expect_zero-passed structure (slice bytes a b) e
    ∙ ap zeros (omega (arith, length-take (b - a) (drop a bytes), length-drop a bytes))

module _ (crc32c : List ℕ → ℕ) where
  pub expect_crc_same :
      (structure : String) (a : List ℕ) → expect_crc crc32c structure a (crc32c a) ≡ ok tt
  unfolding expect_crc
  expect_crc_same structure a = ground arith

  pub expect_crc-passed :
      (structure : String) (a : List ℕ) (n : ℕ)
      → expect_crc crc32c structure a n ≡ ok tt
      → crc32c a ≡ n
  unfolding expect_crc
  expect_crc-passed structure a n h = ground arith
