-- ===== src/Wire/BlockRecord.antt =====
-- `BlockRecord` of crates/tzap-core/src/wire.rs.
pub mod Codec
mod Examples
use Prim.Native.Nat.{bit_and}
use tzap.Prelude.{ℕ, ◌+◌, ◌-◌, ◌^◌, ◌<◌, List, [], ◌∷◌, ◌++◌, length, take, Bool, not, ◌==◌, ◌&&◌}
use tzap.Prelude.Slices.{slice, zeros}
use tzap.Prelude.Bytes.{AllBytes, to_le}
use tzap.Format.{
  BlockKind, block_kind_id, block_kind_of_id, is_parity, Result, ok, err, ◌>>=◌, ◌>>◌, reject_if,
  invalid_block_flags, parity_block_has_last_data_flag, block_record_framing_len,
}
use tzap.Wire.Fields.{
  expect_len, expect_magic, expect_zero, expect_crc, read_u32, read_u64, byte_at, IsU8, IsU64,
}

pub record BlockRecord : Type 0 where
  pub block_index : ℕ
  pub kind : BlockKind
  pub flags : ℕ
  pub payload : List ℕ
  pub record_crc32c : ℕ

-- b"TZBK"
abbrev pub tzbk_magic : List ℕ
tzbk_magic = b'T' ∷ b'Z' ∷ b'B' ∷ b'K' ∷ []

abbrev pub block_last_data_flag : ℕ
block_last_data_flag = 0x01

-- `!0x01` as a `u8`.
abbrev pub block_reserved_flags : ℕ
block_reserved_flags = 0xfe

unfoldable pub is_last_data : BlockRecord → Bool
is_last_data r = not (bit_and r.flags block_last_data_flag == 0)

-- The record before its checksum.
abbrev pub unsealed : ℕ → BlockKind → ℕ → List ℕ → List ℕ
unsealed block_index kind flags payload =
    tzbk_magic ++ (to_le 8 block_index ++ (block_kind_id kind ∷ flags ∷ (zeros 2 ++ payload)))

module _ (crc32c : List ℕ → ℕ) where
  unfoldable pub to_bytes_from_parts : ℕ → BlockKind → ℕ → List ℕ → List ℕ
  to_bytes_from_parts block_index kind flags payload =
      let bytes = unsealed block_index kind flags payload in bytes ++ to_le 4 (crc32c bytes)

  unfoldable pub to_bytes : BlockRecord → List ℕ
  unfolding to_bytes_from_parts
  to_bytes r = to_bytes_from_parts r.block_index r.kind r.flags r.payload

  -- The source adds to `block_size` as a `usize`, which a block size of 32 bits does not overflow.
  unfoldable pub parse : List ℕ → ℕ → Result BlockRecord
  parse bytes block_size = do
    expect_len "BlockRecord" (block_size + block_record_framing_len) (length bytes)
    expect_magic "BlockRecord" tzbk_magic (slice bytes 0 4)
    expect_zero "BlockRecord" (slice bytes 14 16)
    declared_crc ← read_u32 bytes (16 + block_size)
    expect_crc crc32c "BlockRecord" (take (16 + block_size) bytes) declared_crc
    kind ← block_kind_of_id (byte_at bytes 12)
    let flags = byte_at bytes 13
    reject_if (not (bit_and flags block_reserved_flags == 0)) (invalid_block_flags flags)
    reject_if (is_parity kind && not (bit_and flags block_last_data_flag == 0))
        parity_block_has_last_data_flag
    index ← read_u64 bytes 4
    crc ← read_u32 bytes (16 + block_size)
    ok (record {
      block_index = index;
      kind = kind;
      flags = flags;
      payload = slice bytes 16 (16 + block_size);
      record_crc32c = crc;
    })
