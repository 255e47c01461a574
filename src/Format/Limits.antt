-- ===== src/Format/Limits.antt =====
-- The constants of crates/tzap-core/src/format.rs that the modelled code reads.
use Prim.Native.Nat.{ℕ, ◌*◌, ◌^◌, ◌-◌}

abbrev pub format_version : ℕ
format_version = 1

abbrev pub volume_format_rev_45 : ℕ
volume_format_rev_45 = 45

abbrev pub reader_max_supported_volume_format_rev : ℕ
reader_max_supported_volume_format_rev = volume_format_rev_45

abbrev pub volume_header_len : ℕ
volume_header_len = 128

abbrev pub crypto_header_fixed_len : ℕ
crypto_header_fixed_len = 76

abbrev pub manifest_footer_len : ℕ
manifest_footer_len = 136

abbrev pub volume_trailer_len : ℕ
volume_trailer_len = 128

abbrev pub root_auth_footer_fixed_len : ℕ
root_auth_footer_fixed_len = 318

abbrev pub critical_metadata_recovery_header_len : ℕ
critical_metadata_recovery_header_len = 116

abbrev pub critical_metadata_recovery_shard_header_len : ℕ
critical_metadata_recovery_shard_header_len = 16

abbrev pub critical_recovery_locator_len : ℕ
critical_recovery_locator_len = 128

abbrev pub bootstrap_sidecar_header_len : ℕ
bootstrap_sidecar_header_len = 128

abbrev pub block_record_framing_len : ℕ
block_record_framing_len = 20

abbrev pub crypto_extension_header_len : ℕ
crypto_extension_header_len = 6

abbrev pub crypto_extension_max_value_len : ℕ
crypto_extension_max_value_len = 256

abbrev pub reader_max_key_wrap_table_len : ℕ
reader_max_key_wrap_table_len = 1024 * 1024

abbrev pub reader_max_key_wrap_table_recipient_records : ℕ
reader_max_key_wrap_table_recipient_records = 4096

abbrev pub reader_max_crypto_header_len : ℕ
reader_max_crypto_header_len = 64 * 1024

abbrev pub reader_max_chunk_size : ℕ
reader_max_chunk_size = 64 * 1024 * 1024

abbrev pub reader_max_envelope_target_size : ℕ
reader_max_envelope_target_size = 64 * 1024 * 1024

abbrev pub reader_max_block_size : ℕ
reader_max_block_size = 1024 * 1024

abbrev pub reader_max_stripe_width : ℕ
reader_max_stripe_width = 4096

abbrev pub reader_max_fec_class_shards : ℕ
reader_max_fec_class_shards = 4096

abbrev pub reader_max_index_fec_class_shards : ℕ
reader_max_index_fec_class_shards = 4096

abbrev pub reader_max_index_root_fec_class_shards : ℕ
reader_max_index_root_fec_class_shards = 131_070

abbrev pub reader_max_path_length : ℕ
reader_max_path_length = 4096

-- `u32::MAX`, and the number of values of a 64-bit `usize`.
abbrev pub u32_max : ℕ
u32_max = 2 ^ 32 - 1

abbrev pub usize_mod : ℕ
usize_mod = 2 ^ 64
