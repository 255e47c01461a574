-- ===== src/Wire/Samples.antt =====
-- Concrete data for the tests of the wire structures: a checksum that stands in for CRC-32C, and
-- identifiers.
use tzap.Prelude.{ℕ, ◌+◌, ◌%◌, ◌^◌, ◌<◌, List, [], ◌∷◌, replicate, arith}

-- The sum of the bytes, as a `u32`.
abbrev pub byte_sum : List ℕ → ℕ
byte_sum [] = 0
byte_sum (b ∷ bs) = (b + byte_sum bs) % 2 ^ 32

pub byte_sum-lt : (bytes : List ℕ) → byte_sum bytes < 2 ^ 32
byte_sum-lt [] = omega arith
byte_sum-lt (b ∷ bs) = omega arith

abbrev pub uuid_sample : List ℕ
uuid_sample = replicate 16 0xa5

abbrev pub session_sample : List ℕ
session_sample = replicate 16 0x3c

abbrev pub digest_sample : List ℕ
digest_sample = replicate 32 0x11
