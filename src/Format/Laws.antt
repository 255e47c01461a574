-- ===== src/Format/Laws.antt =====
-- Identifiers are read back, and nothing else is.
use tzap.Prelude.{ℕ, ◌<◌, ◌^◌, ◌≡◌, refl, arith}
use tzap.Format.Algos.{
  CompressionAlgo, AeadAlgo, FecAlgo, KdfAlgo, BlockKind, compression_id, aead_id, fec_id, kdf_id,
  block_kind_id, zstd_framed, aes_gcm_siv256, reed_solomon_gf16, raw, payload_data,
}
use tzap.Format.Errors.{ok}
use tzap.Format.Ids.{compression_of_id, aead_of_id, fec_of_id, kdf_of_id, block_kind_of_id}

pub compression_of_id-compression_id :
    (a : CompressionAlgo) → compression_of_id (compression_id a) ≡ ok a
unfolding compression_of_id
compression_of_id-compression_id zstd_framed = refl
compression_of_id-compression_id _ = refl

pub aead_of_id-aead_id : (a : AeadAlgo) → aead_of_id (aead_id a) ≡ ok a
unfolding aead_of_id
aead_of_id-aead_id aes_gcm_siv256 = refl
aead_of_id-aead_id _ = refl

pub fec_of_id-fec_id : (a : FecAlgo) → fec_of_id (fec_id a) ≡ ok a
unfolding fec_of_id
fec_of_id-fec_id reed_solomon_gf16 = refl
fec_of_id-fec_id _ = refl

pub kdf_of_id-kdf_id : (a : KdfAlgo) → kdf_of_id (kdf_id a) ≡ ok a
unfolding kdf_of_id
kdf_of_id-kdf_id raw = refl
kdf_of_id-kdf_id _ = refl

pub block_kind_of_id-block_kind_id : (k : BlockKind) → block_kind_of_id (block_kind_id k) ≡ ok k
unfolding block_kind_of_id
block_kind_of_id-block_kind_id payload_data = refl
block_kind_of_id-block_kind_id _ = refl

pub compression_id-compression_of_id :
    (v : ℕ) (a : CompressionAlgo) → compression_of_id v ≡ ok a → compression_id a ≡ v
unfolding compression_of_id
compression_id-compression_of_id v a h = ground arith

pub aead_id-aead_of_id : (v : ℕ) (a : AeadAlgo) → aead_of_id v ≡ ok a → aead_id a ≡ v
unfolding aead_of_id
aead_id-aead_of_id v a h = ground arith

pub fec_id-fec_of_id : (v : ℕ) (a : FecAlgo) → fec_of_id v ≡ ok a → fec_id a ≡ v
unfolding fec_of_id
fec_id-fec_of_id v a h = ground arith

pub kdf_id-kdf_of_id : (v : ℕ) (a : KdfAlgo) → kdf_of_id v ≡ ok a → kdf_id a ≡ v
unfolding kdf_of_id
kdf_id-kdf_of_id v a h = ground arith

pub block_kind_id-block_kind_of_id :
    (v : ℕ) (k : BlockKind) → block_kind_of_id v ≡ ok k → block_kind_id k ≡ v
unfolding block_kind_of_id
block_kind_id-block_kind_of_id v k h = ground arith

pub compression_id-lt : (a : CompressionAlgo) → compression_id a < 2 ^ 16
compression_id-lt zstd_framed = omega arith
compression_id-lt _ = omega arith

pub aead_id-lt : (a : AeadAlgo) → aead_id a < 2 ^ 16
aead_id-lt aes_gcm_siv256 = omega arith
aead_id-lt _ = omega arith

pub fec_id-lt : (a : FecAlgo) → fec_id a < 2 ^ 16
fec_id-lt reed_solomon_gf16 = omega arith
fec_id-lt _ = omega arith

pub kdf_id-lt : (a : KdfAlgo) → kdf_id a < 2 ^ 16
kdf_id-lt raw = omega arith
kdf_id-lt _ = omega arith

pub block_kind_id-lt : (k : BlockKind) → block_kind_id k < 256
block_kind_id-lt payload_data = omega arith
block_kind_id-lt _ = omega arith
