-- ===== src/Format/Errors.antt =====
-- `FormatError` of crates/tzap-core/src/format.rs, and results that carry it.
use Prim.Native.Nat.{ℕ}
use Prim.Native.String.{String}
use mathlib.Core.Path.{◌≡◌, refl, ap}
use mathlib.Core.Logic.{◌⊎◌, inl, inr}
use mathlib.Core.Bool.{Bool, true, false}
use mathlib.Core.Option.{Option, none, some}
use tzap.Format.Algos.{CompressionAlgo, AeadAlgo, FecAlgo, KdfAlgo}

-- Fields stand in the order of the source; a `&'static str` is a text.
pub data FormatError : Type 0 where
  unknown_compression_algo unknown_aead_algo unknown_fec_algo : ℕ → FormatError
  unknown_kdf_algo unknown_block_kind : ℕ → FormatError
  invalid_length : String → ℕ → ℕ → FormatError
  bad_magic bad_crc : String → FormatError
  unsupported_format_version : ℕ → FormatError
  unsupported_volume_format_revision : ℕ → ℕ → ℕ → FormatError
  non_zero_reserved : String → FormatError
  non_canonical_crypto_header_offset : ℕ → FormatError
  zero_stripe_width : FormatError
  volume_index_out_of_range : ℕ → ℕ → FormatError
  crypto_header_length_mismatch : ℕ → ℕ → FormatError
  unsupported_compression : CompressionAlgo → FormatError
  unsupported_fec : FecAlgo → FormatError
  invalid_protection_mode : AeadAlgo → KdfAlgo → FormatError
  invalid_boolean : String → ℕ → FormatError
  volume_loss_tolerance_out_of_range : ℕ → ℕ → FormatError
  bit_rot_buffer_pct_too_large : ℕ → FormatError
  zero_data_shard_maximum : String → FormatError
  zero_chunk_size zero_envelope_target_size : FormatError
  chunk_size_exceeds_envelope_target : ℕ → ℕ → FormatError
  block_size_too_small odd_block_size : ℕ → FormatError
  reader_resource_limit_exceeded : String → ℕ → ℕ → FormatError
  invalid_block_flags : ℕ → FormatError
  parity_block_has_last_data_flag : FormatError
  invalid_authoritative_flag invalid_manifest_footer_length : ℕ → FormatError
  index_root_size_mismatch empty_index_root_extent : FormatError
  unsupported_bootstrap_sidecar_version unknown_bootstrap_sidecar_flags : ℕ → FormatError
  empty_bootstrap_sidecar_section non_zero_absent_bootstrap_sidecar_section : FormatError
  non_canonical_bootstrap_sidecar_layout : FormatError
  truncated_extension_header truncated_extension_payload : FormatError
  extension_payload_too_large : ℕ → FormatError
  malformed_extension_terminator missing_extension_terminator : FormatError
  bytes_after_extension_terminator : FormatError
  crypto_header_too_short kdf_algo_tag_mismatch : ℕ → ℕ → FormatError
  truncated_kdf_params : FormatError
  invalid_kdf_params : String → FormatError
  key_material_mismatch invalid_raw_master_key_length : FormatError
  argon2id_failure hkdf_expand_failure : FormatError
  hmac_mismatch integrity_digest_mismatch : String → FormatError
  forbidden_extension_tag unknown_critical_extension : ℕ → FormatError
  duplicate_known_extension malformed_known_extension : ℕ → FormatError
  empty_padded_plaintext invalid_suffix_padding : FormatError
  non_zero_padding_bytes padding_overflow : FormatError
  aead_failure domain_too_long : FormatError
  invalid_nonce_length : AeadAlgo → ℕ → ℕ → FormatError
  invalid_aead_key_length zstd_compression_failure empty_zstd_frame : FormatError
  not_standard_zstd_frame invalid_zstd_frame trailing_bytes_after_zstd_frame : FormatError
  zstd_decompression_failure : FormatError
  zstd_decompressed_size_mismatch : ℕ → ℕ → FormatError
  fec_zero_data_shards : FormatError
  fec_too_many_shards : ℕ → FormatError
  fec_odd_shard_size fec_inconsistent_shard_size : FormatError
  fec_too_few_available_shards fec_singular_matrix : FormatError
  invalid_metadata : String → String → FormatError
  metadata_arithmetic_overflow : String → FormatError
  hash_prefix_collision_run_exceeded unsafe_archive_path unsafe_overwrite : FormatError
  filesystem_extraction_failed writer_unsupported writer_invariant : String → FormatError
  reader_unsupported invalid_archive : String → FormatError

-- A result holds what the code computed or the first error it met; the question
-- mark operator of the source is `>>=`, or `>>` after a call that returns nothing.
pub data Result {ℓ} (Value : Type ℓ) : Type ℓ where
  err : FormatError → Result Value
  ok : Value → Result Value

infixl 5 ◌>>◌ ◌>>=◌
abbrev pub ◌>>◌ {ℓ} : {Value : Type ℓ} → Result (Unit {0}) → Result Value → Result Value
err why >> rest = err why
ok done >> rest = rest

abbrev pub ◌>>=◌ {ℓ κ} : {S : Type ℓ} {T : Type κ} → Result S → (S → Result T) → Result T
err why >>= next = err why
ok value >>= next = next value

-- `if test { return Err(e) }`
abbrev pub reject_if : Bool → FormatError → Result (Unit {0})
reject_if true e = err e
reject_if false e = ok tt

abbrev pub ok_or {ℓ} : {A : Type ℓ} → Option A → FormatError → Result A
ok_or (some a) e = ok a
ok_or none e = err e

pub ok-injective {ℓ} : {A : Type ℓ} {a b : A} → ok a ≡ ok b → a ≡ b
ok-injective h = cc

pub Result-cases {ℓ} :
    {A : Type ℓ} (m : Result A) → ((a : A) × (m ≡ ok a)) ⊎ ((e : FormatError) × (m ≡ err e))
Result-cases (ok a) = inl (a, refl)
Result-cases (err e) = inr (e, refl)

pub reject_if-passed : (t : Bool) (e : FormatError) → reject_if t e ≡ ok tt → t ≡ false
reject_if-passed true e h = cc
reject_if-passed false e h = refl

-- Where a chain succeeds, its first part did.
pub first_succeeds {ℓ κ} :
    {S : Type ℓ} {T : Type κ} (m : Result S) (next : S → Result T) (b : T)
    → (m >>= next) ≡ ok b
    → (a : S) × (m ≡ ok a) × (next a ≡ ok b)
first_succeeds (ok a) next b h = (a, refl, h)
first_succeeds (err e) next b h = absurd (cc)

pub check_succeeds {ℓ} :
    {T : Type ℓ} (m : Result (Unit {0})) (next : Result T) (b : T)
    → (m >> next) ≡ ok b
    → (m ≡ ok tt) × (next ≡ ok b)
check_succeeds (ok tt) next b h = (refl, h)
check_succeeds (err e) next b h = absurd (cc)

pub ok_or-some {ℓ} :
    {A : Type ℓ} (o : Option A) (e : FormatError) (a : A) → ok_or o e ≡ ok a → o ≡ some a
ok_or-some (some x) e a h = ap some (ok-injective h)
ok_or-some none e a h = absurd (cc)
