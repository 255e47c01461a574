-- ===== src/Metadata/Layout.antt =====
-- The rows of an index shard on disk: the readers at the end of
-- crates/tzap-core/src/metadata.rs and, below, a module for each row.
pub mod Frame
pub mod Envelope
pub mod File
mod Examples
use Prim.Native.String.{String}
use tzap.Prelude.{
  ℕ, zero, suc, ◌+◌, ◌^◌, ◌≤◌, ◌≡◌, ap, arith, List, [], ◌∷◌, length, take, drop, ltb, leb,
  if◌then◌else◌,
}
use tzap.Prelude.Bytes.{ℤ, of_word64, from_le}
use tzap.Format.{Result, ok, err, ◌>>=◌, invalid_metadata, metadata_arithmetic_overflow}
use tzap.Wire.Fields.Reads.{bytes_at, number_at}

-- `slice`: `checked_add`, and `get` of a range.
unfoldable pub slice_at : String → List ℕ → ℕ → ℕ → Result (List ℕ)
slice_at structure bytes offset len =
    if ltb (offset + len) (2 ^ 64)
    then (if leb (offset + len) (length bytes)
        then ok (take len (drop offset bytes))
        else err (invalid_metadata structure "range is out of bounds"))
    else err (metadata_arithmetic_overflow structure)

unfoldable pub read_array_8_at : String → List ℕ → ℕ → Result (List ℕ)
unfolding slice_at
read_array_8_at structure bytes offset = slice_at structure bytes offset 8

unfoldable pub read_u8_at : String → List ℕ → ℕ → Result ℕ
unfolding slice_at
read_u8_at structure bytes offset = slice_at structure bytes offset 1 >>= (λ raw. ok (from_le raw))

unfoldable pub read_u16_at : String → List ℕ → ℕ → Result ℕ
unfolding slice_at
read_u16_at structure bytes offset = slice_at structure bytes offset 2 >>= (λ raw. ok (from_le raw))

unfoldable pub read_u32_at : String → List ℕ → ℕ → Result ℕ
unfolding slice_at
read_u32_at structure bytes offset = slice_at structure bytes offset 4 >>= (λ raw. ok (from_le raw))

unfoldable pub read_u64_at : String → List ℕ → ℕ → Result ℕ
unfolding slice_at
read_u64_at structure bytes offset = slice_at structure bytes offset 8 >>= (λ raw. ok (from_le raw))

unfoldable pub read_i64_at : String → List ℕ → ℕ → Result ℤ
unfolding slice_at
read_i64_at structure bytes offset =
    slice_at structure bytes offset 8 >>= (λ raw. ok (of_word64 (from_le raw)))
