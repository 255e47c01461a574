-- ===== src/Wire/CryptoHeaderFixed.antt =====
-- `CryptoHeaderFixed` of crates/tzap-core/src/wire.rs.
mod Profile
pub mod Codec
pub mod Supported
mod Examples
unfoldable pub use Profile.*
use tzap.Prelude.{ℕ, ◌^◌, ◌<◌, List, [], ◌∷◌, length, ltb, not, ◌==◌}
use tzap.Prelude.Slices.{Piece, slice, zeros, copy_all}
use tzap.Format.{
  Result, ok, err, ◌>>=◌, ◌>>◌, reject_if, crypto_header_length_mismatch,
  reader_resource_limit_exceeded, crypto_header_fixed_len, reader_max_crypto_header_len,
  compression_id, aead_id, fec_id, kdf_id, compression_of_id, aead_of_id, fec_of_id, kdf_of_id,
}
use tzap.Wire.Fields.{
  expect_len, expect_magic, expect_zero, read_u16, read_u32, read_u64, byte_at, write_u8, write_u16,
  write_u32, write_u64, IsU8, IsU16, IsU32, IsU64,
}

-- The fields hold values of their machine types.
pub record IsTyped (h : CryptoHeaderFixed) : Type 0 where
  pub header_length : IsU32 h.header_length
  pub chunk_size : IsU32 h.chunk_size
  pub envelope_target_size : IsU32 h.envelope_target_size
  pub block_size : IsU32 h.block_size
  pub fec_data_shards : IsU16 h.fec_data_shards
  pub fec_parity_shards : IsU16 h.fec_parity_shards
  pub index_fec_data_shards : IsU16 h.index_fec_data_shards
  pub index_fec_parity_shards : IsU16 h.index_fec_parity_shards
  pub index_root_fec_data_shards : IsU16 h.index_root_fec_data_shards
  pub index_root_fec_parity_shards : IsU16 h.index_root_fec_parity_shards
  pub stripe_width : IsU32 h.stripe_width
  pub volume_loss_tolerance : IsU8 h.volume_loss_tolerance
  pub bit_rot_buffer_pct : IsU8 h.bit_rot_buffer_pct
  pub has_dictionary : IsU8 h.has_dictionary
  pub max_path_length : IsU32 h.max_path_length
  pub expected_volume_size : IsU64 h.expected_volume_size

-- b"TZCH"
abbrev pub tzch_magic : List ℕ
tzch_magic = b'T' ∷ b'Z' ∷ b'C' ∷ b'H' ∷ []

-- The writes of `to_bytes`.
abbrev pub pieces : CryptoHeaderFixed → List Piece
pieces h =
    (0, 4, tzch_magic)
    ∷ write_u32 4 h.header_length
    ∷ write_u16 8 (compression_id h.compression_algo)
    ∷ write_u16 10 (aead_id h.aead_algo)
    ∷ write_u16 12 (fec_id h.fec_algo)
    ∷ write_u16 14 (kdf_id h.kdf_algo)
    ∷ write_u32 16 h.chunk_size
    ∷ write_u32 20 h.envelope_target_size
    ∷ write_u32 24 h.block_size
    ∷ write_u16 28 h.fec_data_shards
    ∷ write_u16 30 h.fec_parity_shards
    ∷ write_u16 32 h.index_fec_data_shards
    ∷ write_u16 34 h.index_fec_parity_shards
    ∷ write_u16 36 h.index_root_fec_data_shards
    ∷ write_u16 38 h.index_root_fec_parity_shards
    ∷ write_u32 40 h.stripe_width
    ∷ write_u8 44 h.volume_loss_tolerance
    ∷ write_u8 45 h.bit_rot_buffer_pct
    ∷ write_u8 46 h.has_dictionary
    ∷ write_u32 48 h.max_path_length
    ∷ write_u64 52 h.expected_volume_size
    ∷ []

pub parse : List ℕ → ℕ → Result CryptoHeaderFixed
parse bytes volume_crypto_header_length = do
  expect_len "CryptoHeaderFixed" crypto_header_fixed_len (length bytes)
  expect_magic "CryptoHeaderFixed" tzch_magic (slice bytes 0 4)
  expect_zero "CryptoHeaderFixed" (slice bytes 47 48)
  expect_zero "CryptoHeaderFixed" (slice bytes 60 76)
  declared ← read_u32 bytes 4
  reject_if (not (declared == volume_crypto_header_length))
      (crypto_header_length_mismatch declared volume_crypto_header_length)
  reject_if (ltb reader_max_crypto_header_len declared)
      (reader_resource_limit_exceeded "CryptoHeader length" reader_max_crypto_header_len declared)
  compression_number ← read_u16 bytes 8
  compression ← compression_of_id compression_number
  aead_number ← read_u16 bytes 10
  aead ← aead_of_id aead_number
  fec_number ← read_u16 bytes 12
  fec ← fec_of_id fec_number
  kdf_number ← read_u16 bytes 14
  kdf ← kdf_of_id kdf_number
  chunk ← read_u32 bytes 16
  envelope ← read_u32 bytes 20
  block ← read_u32 bytes 24
  data_shards ← read_u16 bytes 28
  parity_shards ← read_u16 bytes 30
  index_data ← read_u16 bytes 32
  index_parity ← read_u16 bytes 34
  root_data ← read_u16 bytes 36
  root_parity ← read_u16 bytes 38
  width ← read_u32 bytes 40
  max_path ← read_u32 bytes 48
  expected_size ← read_u64 bytes 52
  let header : CryptoHeaderFixed = record {
    header_length = declared;
    compression_algo = compression;
    aead_algo = aead;
    fec_algo = fec;
    kdf_algo = kdf;
    chunk_size = chunk;
    envelope_target_size = envelope;
    block_size = block;
    fec_data_shards = data_shards;
    fec_parity_shards = parity_shards;
    index_fec_data_shards = index_data;
    index_fec_parity_shards = index_parity;
    index_root_fec_data_shards = root_data;
    index_root_fec_parity_shards = root_parity;
    stripe_width = width;
    volume_loss_tolerance = byte_at bytes 44;
    bit_rot_buffer_pct = byte_at bytes 45;
    has_dictionary = byte_at bytes 46;
    max_path_length = max_path;
    expected_volume_size = expected_size;
  }
  validate_supported_profile header
  ok header

pub to_bytes : CryptoHeaderFixed → List ℕ
to_bytes h = copy_all (zeros crypto_header_fixed_len) (pieces h)
