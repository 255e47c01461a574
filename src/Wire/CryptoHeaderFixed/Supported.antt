-- ===== src/Wire/CryptoHeaderFixed/Supported.antt =====
-- What a supported profile is, and that the checks accept exactly those.
use native.Mathlib.Nat.{le-div_iff_mul-le}
use tzap.Prelude.{ℕ, ◌+◌, ◌*◌, ◌/◌, ◌%◌, ◌≤◌, ◌<◌, ◌≡◌, ◌↔◌, ◌⊎◌, inl, refl, arith, true}
use tzap.Format.{
  AeadAlgo, KdfAlgo, raw, argon2id, recipient_wrap, zstd_framed, reed_solomon_gf16, is_encrypted,
  ok, u32_max,
}
use tzap.Wire.CryptoHeaderFixed.Profile.{
  CryptoHeaderFixed, protection_mode, validate_supported_profile, validate_fec_class_shards,
  validate_fec_class_data_shards,
}

-- Either nothing is encrypted and no key is derived, or a cipher is named and so is a way to its
-- key.
abbrev pub Protection : AeadAlgo → KdfAlgo → Type 0
Protection a k =
    ((a ≡ AeadAlgo.none) × (k ≡ KdfAlgo.none))
    ⊎ ((is_encrypted a ≡ true) × ((k ≡ raw) ⊎ ((k ≡ argon2id) ⊎ (k ≡ recipient_wrap))))

-- The shards of one class: some data, at most `cap` in all, and data of less than 4 GiB.
abbrev pub ClassFits : ℕ → ℕ → ℕ → ℕ → Type 0
ClassFits known parity cap block_size =
    (1 ≤ known) × (known + parity ≤ cap) × (known * block_size ≤ u32_max)

pub record Supported (h : CryptoHeaderFixed) : Type 0 where
  pub compression : h.compression_algo ≡ zstd_framed
  pub correction : h.fec_algo ≡ reed_solomon_gf16
  pub protection : Protection h.aead_algo h.kdf_algo
  pub dictionary : h.has_dictionary ≤ 1
  pub tolerance : h.volume_loss_tolerance < h.stripe_width
  pub stripe : h.stripe_width ≤ 4096
  pub bit_rot : h.bit_rot_buffer_pct ≤ 100
  pub payload_class : ClassFits h.fec_data_shards h.fec_parity_shards 4096 h.block_size
  pub index_class : ClassFits h.index_fec_data_shards h.index_fec_parity_shards 4096 h.block_size
  pub root_class :
      ClassFits h.index_root_fec_data_shards h.index_root_fec_parity_shards 131_070 h.block_size
  pub chunk : 1 ≤ h.chunk_size
  pub chunk_in_envelope : h.chunk_size ≤ h.envelope_target_size
  pub envelope : h.envelope_target_size ≤ 64 * 1024 * 1024
  pub block_least : 4096 ≤ h.block_size
  pub block_most : h.block_size ≤ 1024 * 1024
  pub block_even : h.block_size % 2 ≡ 0
  pub path : h.max_path_length ≤ 4096

Protection-of_mode : (a : AeadAlgo) (k : KdfAlgo) → protection_mode a k ≡ true → Protection a k
Protection-of_mode AeadAlgo.none KdfAlgo.none h = inl (refl, refl)
Protection-of_mode a raw h = ground arith
Protection-of_mode a argon2id h = ground arith
Protection-of_mode a recipient_wrap h = ground arith
Protection-of_mode _ KdfAlgo.none h = ground arith

mode_of_Protection : (a : AeadAlgo) (k : KdfAlgo) → Protection a k → protection_mode a k ≡ true
mode_of_Protection AeadAlgo.none KdfAlgo.none h = refl
mode_of_Protection a raw h = ground arith
mode_of_Protection a argon2id h = ground arith
mode_of_Protection a recipient_wrap h = ground arith
mode_of_Protection _ KdfAlgo.none h = ground arith

-- A quotient bounds a product.
le-quotient : (x b : ℕ) → 1 ≤ b → (x ≤ u32_max / b) ↔ (x * b ≤ u32_max)
le-quotient x b h = le-div_iff_mul-le h

module _ (h : CryptoHeaderFixed) where
  checks_pass : Supported h → validate_supported_profile h ≡ ok tt
  unfolding validate_supported_profile validate_fec_class_shards validate_fec_class_data_shards
  checks_pass s =
      let positive : 1 ≤ h.block_size = omega arith in
      let mode = mode_of_Protection h.aead_algo h.kdf_algo s.protection in
      let (_, _, payload) = s.payload_class in
      let (_, _, index) = s.index_class in
      let (_, _, root) = s.root_class in
      let p = (le-quotient h.fec_data_shards h.block_size positive).1 payload in
      let q = (le-quotient h.index_fec_data_shards h.block_size positive).1 index in
      let r = (le-quotient h.index_root_fec_data_shards h.block_size positive).1 root in
      ground arith

  checks_mean : validate_supported_profile h ≡ ok tt → Supported h
  unfolding validate_supported_profile validate_fec_class_shards validate_fec_class_data_shards
  checks_mean v =
      let block : 4096 ≤ h.block_size = ground arith in
      let positive : 1 ≤ h.block_size = omega arith in
      let mode : protection_mode h.aead_algo h.kdf_algo ≡ true = ground arith in
      let payload : h.fec_data_shards ≤ u32_max / h.block_size = ground arith in
      let index : h.index_fec_data_shards ≤ u32_max / h.block_size = ground arith in
      let root : h.index_root_fec_data_shards ≤ u32_max / h.block_size = ground arith in
      record {
        compression = ground arith;
        correction = ground arith;
        protection = Protection-of_mode h.aead_algo h.kdf_algo mode;
        dictionary = ground arith;
        tolerance = ground arith;
        stripe = ground arith;
        bit_rot = ground arith;
        payload_class = (ground arith, ground arith, (le-quotient _ _ positive).0 payload);
        index_class = (ground arith, ground arith, (le-quotient _ _ positive).0 index);
        root_class = (ground arith, ground arith, (le-quotient _ _ positive).0 root);
        chunk = ground arith;
        chunk_in_envelope = ground arith;
        envelope = ground arith;
        block_least = block;
        block_most = ground arith;
        block_even = ground arith;
        path = ground arith;
      }

  -- A fixed crypto header passes `validate_supported_profile` exactly when its profile is
  -- supported: the algorithms are a supported pair, each shard class has data, stays under its cap
  -- and under 4 GiB of data, and every size lies in its range.
  pub validate_supported_profile_iff : (validate_supported_profile h ≡ ok tt) ↔ Supported h
  validate_supported_profile_iff = (checks_mean, checks_pass)
