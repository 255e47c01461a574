-- ===== src/Wire/Fields.antt =====
-- The helpers at the end of crates/tzap-core/src/wire.rs: checks, and numbers read and written at
-- an offset. What the reader takes from a third-party crate, CRC-32C, is an argument.
pub mod Reads
pub mod Checks
use Prim.Native.String.{String}
use tzap.Prelude.{
  ℕ, ◌+◌, ◌^◌, ◌≤◌, ◌<◌, ◌≡◌, List, [], ◌∷◌, length, take, drop, get_or, leb, not, ◌==◌,
  if◌then◌else◌,
}
use tzap.Prelude.Slices.{Piece, copy_at, zeros}
use tzap.Prelude.Bytes.{AllBytes, ℤ, to_word64, of_word64, any_non_zero, bytes_eq, to_le, from_le}
use tzap.Format.{
  Result, ok, err, ◌>>=◌, reject_if, invalid_length, bad_magic, bad_crc, non_zero_reserved,
  writer_unsupported, u32_max,
}

-- The machine types of the fields.
abbrev pub IsU8 : ℕ → Type 0
IsU8 v = v < 256

abbrev pub IsU16 : ℕ → Type 0
IsU16 v = v < 2 ^ 16

abbrev pub IsU32 : ℕ → Type 0
IsU32 v = v < 2 ^ 32

abbrev pub IsU64 : ℕ → Type 0
IsU64 v = v < 2 ^ 64

-- `[u8; n]`
abbrev pub IsArray : ℕ → List ℕ → Type 0
IsArray n bytes = (length bytes ≡ n) × AllBytes bytes

unfoldable pub expect_len : String → ℕ → ℕ → Result (Unit {0})
expect_len structure expected actual =
    reject_if (not (actual == expected)) (invalid_length structure expected actual)

unfoldable pub expect_magic : String → List ℕ → List ℕ → Result (Unit {0})
expect_magic structure expected actual =
    reject_if (not (bytes_eq actual expected)) (bad_magic structure)

unfoldable pub expect_zero : String → List ℕ → Result (Unit {0})
expect_zero structure bytes = reject_if (any_non_zero bytes) (non_zero_reserved structure)

unfoldable pub expect_crc : (List ℕ → ℕ) → String → List ℕ → ℕ → Result (Unit {0})
expect_crc crc32c structure covered expected =
    reject_if (not (crc32c covered == expected)) (bad_crc structure)

-- `bytes.get(offset..offset + n)`, or the error of the reader that is named.
unfoldable pub get_range : String → ℕ → List ℕ → ℕ → Result (List ℕ)
get_range structure n bytes offset =
    if leb (offset + n) (length bytes)
    then ok (take n (drop offset bytes))
    else err (invalid_length structure (offset + n) (length bytes))

unfoldable pub read_array_16 : List ℕ → ℕ → Result (List ℕ)
unfolding get_range
read_array_16 bytes offset = get_range "array16" 16 bytes offset

unfoldable pub read_array_24 : List ℕ → ℕ → Result (List ℕ)
unfolding get_range
read_array_24 bytes offset = get_range "array24" 24 bytes offset

unfoldable pub read_array_32 : List ℕ → ℕ → Result (List ℕ)
unfolding get_range
read_array_32 bytes offset = get_range "array32" 32 bytes offset

unfoldable pub read_u16 : List ℕ → ℕ → Result ℕ
unfolding get_range
read_u16 bytes offset = get_range "u16" 2 bytes offset >>= (λ array. ok (from_le array))

unfoldable pub read_u32 : List ℕ → ℕ → Result ℕ
unfolding get_range
read_u32 bytes offset = get_range "u32" 4 bytes offset >>= (λ array. ok (from_le array))

unfoldable pub read_u64 : List ℕ → ℕ → Result ℕ
unfolding get_range
read_u64 bytes offset = get_range "u64" 8 bytes offset >>= (λ array. ok (from_le array))

unfoldable pub read_i64 : List ℕ → ℕ → Result ℤ
unfolding get_range
read_i64 bytes offset = get_range "i64" 8 bytes offset >>= (λ array. ok (of_word64 (from_le array)))

-- `bytes[offset]` of a vector that reaches so far.
abbrev pub byte_at : List ℕ → ℕ → ℕ
byte_at bytes offset = get_or bytes offset 0

-- `bytes[offset] = value`
abbrev pub write_u8 : ℕ → ℕ → Piece
write_u8 offset value = (offset, 1, value ∷ [])

-- What `write_u16` and its kin copy into the vector, and where.
abbrev pub write_u16 : ℕ → ℕ → Piece
write_u16 offset value = (offset, 2, to_le 2 value)

abbrev pub write_u32 : ℕ → ℕ → Piece
write_u32 offset value = (offset, 4, to_le 4 value)

abbrev pub write_u64 : ℕ → ℕ → Piece
write_u64 offset value = (offset, 8, to_le 8 value)

abbrev pub write_i64 : ℕ → ℤ → Piece
write_i64 offset value = (offset, 8, to_le 8 (to_word64 value))

-- `let crc = crc32c(&bytes[..offset]); write_u32(&mut bytes, offset, crc)`
unfoldable pub write_crc : (List ℕ → ℕ) → List ℕ → ℕ → List ℕ
write_crc crc32c bytes offset = copy_at bytes offset 4 (to_le 4 (crc32c (take offset bytes)))

unfoldable pub u32_len : ℕ → String → Result ℕ
u32_len value field = if leb value u32_max then ok value else err (writer_unsupported field)
