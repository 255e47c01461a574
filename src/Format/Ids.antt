-- ===== src/Format/Ids.antt =====
-- Reading an identifier: the `TryFrom` implementations of crates/tzap-core/src/format.rs.
use Prim.Native.Nat.{ℕ}
use tzap.Prelude.{◌==◌, if◌then◌else◌}
use tzap.Format.Algos.{
  CompressionAlgo, AeadAlgo, FecAlgo, KdfAlgo, BlockKind, zstd_framed, aes_gcm_siv256,
  x_cha_cha20_poly1305, aes_gcm256, reed_solomon_gf16, wirehair, raw, argon2id, recipient_wrap,
  payload_data, payload_parity, index_root_data, index_root_parity, index_shard_data,
  index_shard_parity, dictionary_data, dictionary_parity, directory_hint_data,
  directory_hint_parity,
}
use tzap.Format.Errors.{
  Result, ok, err, unknown_compression_algo, unknown_aead_algo, unknown_fec_algo, unknown_kdf_algo,
  unknown_block_kind,
}

unfoldable pub compression_of_id : ℕ → Result CompressionAlgo
compression_of_id v =
    if v == 0
    then ok CompressionAlgo.none
    else if v == 1
    then ok zstd_framed
    else err (unknown_compression_algo v)

unfoldable pub aead_of_id : ℕ → Result AeadAlgo
aead_of_id v =
    if v == 0
    then ok AeadAlgo.none
    else if v == 1
    then ok aes_gcm_siv256
    else if v == 2
    then ok x_cha_cha20_poly1305
    else if v == 3
    then ok aes_gcm256
    else err (unknown_aead_algo v)

unfoldable pub fec_of_id : ℕ → Result FecAlgo
fec_of_id v =
    if v == 0
    then ok FecAlgo.none
    else if v == 1
    then ok reed_solomon_gf16
    else if v == 2
    then ok wirehair
    else err (unknown_fec_algo v)

unfoldable pub kdf_of_id : ℕ → Result KdfAlgo
kdf_of_id v =
    if v == 0
    then ok raw
    else if v == 1
    then ok argon2id
    else if v == 2
    then ok KdfAlgo.none
    else if v == 3
    then ok recipient_wrap
    else err (unknown_kdf_algo v)

unfoldable pub block_kind_of_id : ℕ → Result BlockKind
block_kind_of_id v =
    if v == 0
    then ok payload_data
    else if v == 1
    then ok payload_parity
    else if v == 2
    then ok index_root_data
    else if v == 3
    then ok index_root_parity
    else if v == 4
    then ok index_shard_data
    else if v == 5
    then ok index_shard_parity
    else if v == 6
    then ok dictionary_data
    else if v == 7
    then ok dictionary_parity
    else if v == 8
    then ok directory_hint_data
    else if v == 9
    then ok directory_hint_parity
    else err (unknown_block_kind v)
