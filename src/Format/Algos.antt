-- ===== src/Format/Algos.antt =====
-- The enumerations of crates/tzap-core/src/format.rs with their numbers on disk.
use Prim.Native.Nat.{ℕ}
use mathlib.Core.Bool.{Bool, true, false, not}

pub data CompressionAlgo : Type 0 where
  none zstd_framed : CompressionAlgo

pub data AeadAlgo : Type 0 where
  none aes_gcm_siv256 x_cha_cha20_poly1305 aes_gcm256 : AeadAlgo

pub data FecAlgo : Type 0 where
  none reed_solomon_gf16 wirehair : FecAlgo

pub data KdfAlgo : Type 0 where
  raw argon2id none recipient_wrap : KdfAlgo

pub data BlockKind : Type 0 where
  payload_data payload_parity index_root_data index_root_parity : BlockKind
  index_shard_data index_shard_parity dictionary_data dictionary_parity : BlockKind
  directory_hint_data directory_hint_parity : BlockKind

-- The discriminants, as `algo as u16` and `kind as u8` give them.
abbrev pub compression_id : CompressionAlgo → ℕ
compression_id CompressionAlgo.none = 0
compression_id zstd_framed = 1

abbrev pub aead_id : AeadAlgo → ℕ
aead_id AeadAlgo.none = 0
aead_id aes_gcm_siv256 = 1
aead_id x_cha_cha20_poly1305 = 2
aead_id aes_gcm256 = 3

abbrev pub fec_id : FecAlgo → ℕ
fec_id FecAlgo.none = 0
fec_id reed_solomon_gf16 = 1
fec_id wirehair = 2

abbrev pub kdf_id : KdfAlgo → ℕ
kdf_id raw = 0
kdf_id argon2id = 1
kdf_id KdfAlgo.none = 2
kdf_id recipient_wrap = 3

abbrev pub block_kind_id : BlockKind → ℕ
block_kind_id payload_data = 0
block_kind_id payload_parity = 1
block_kind_id index_root_data = 2
block_kind_id index_root_parity = 3
block_kind_id index_shard_data = 4
block_kind_id index_shard_parity = 5
block_kind_id dictionary_data = 6
block_kind_id dictionary_parity = 7
block_kind_id directory_hint_data = 8
block_kind_id directory_hint_parity = 9

-- `AeadAlgo::nonce_len`, `tag_len` and `is_encrypted`.
abbrev pub nonce_len : AeadAlgo → ℕ
nonce_len AeadAlgo.none = 0
nonce_len aes_gcm_siv256 = 12
nonce_len aes_gcm256 = 12
nonce_len x_cha_cha20_poly1305 = 24

abbrev pub tag_len : AeadAlgo → ℕ
tag_len AeadAlgo.none = 0
tag_len aes_gcm_siv256 = 16
tag_len x_cha_cha20_poly1305 = 16
tag_len aes_gcm256 = 16

abbrev pub is_encrypted : AeadAlgo → Bool
is_encrypted AeadAlgo.none = false
is_encrypted aes_gcm_siv256 = true
is_encrypted x_cha_cha20_poly1305 = true
is_encrypted aes_gcm256 = true

-- `BlockKind::is_data` and `is_parity`.
abbrev pub is_data : BlockKind → Bool
is_data payload_data = true
is_data index_root_data = true
is_data index_shard_data = true
is_data dictionary_data = true
is_data directory_hint_data = true
is_data _ = false

abbrev pub is_parity : BlockKind → Bool
is_parity kind = not (is_data kind)
