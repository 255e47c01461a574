-- ===== src/RootAuth/Digests.antt =====
-- The digests that a root authenticator signs, of crates/tzap-core/src/root_auth.rs. SHA-256 is an
-- argument; what is pushed to a vector is appended.
pub mod Layout
pub mod Archive
use Prim.Native.String.{String}
use tzap.Prelude.{ℕ, ◌^◌, List, [], ◌∷◌, ◌++◌, length, ltb, Bool, true, if◌then◌else◌}
use tzap.Prelude.Bytes.{to_le}
use tzap.Format.{
  CompressionAlgo, AeadAlgo, FecAlgo, KdfAlgo, compression_id, aead_id, fec_id, kdf_id, Result, ok,
  err, ◌>>=◌, invalid_archive,
}
use tzap.RootAuth.Domains.{
  RootAuthRevisionParams, root_auth_revision_params, root_auth_descriptor_domain,
  signer_identity_domain,
}

pub record FecLayoutObjectRow : Type 0 where
  pub object_class : ℕ
  pub present : Bool
  pub object_id : ℕ
  pub first_block_index : ℕ
  pub data_block_count : ℕ
  pub parity_block_count : ℕ
  pub encrypted_size : ℕ
  pub plain_size : ℕ

pub record CriticalMetadataDigestInputs : Type 0 where
  pub archive_uuid : List ℕ
  pub session_id : List ℕ
  pub format_version : ℕ
  pub volume_format_rev : ℕ
  pub stripe_width : ℕ
  pub total_volumes : ℕ
  pub compression_algo : CompressionAlgo
  pub aead_algo : AeadAlgo
  pub fec_algo : FecAlgo
  pub kdf_algo : KdfAlgo
  pub crypto_header_pre_hmac_bytes : List ℕ
  pub chunk_size : ℕ
  pub envelope_target_size : ℕ
  pub block_size : ℕ
  pub fec_data_shards : ℕ
  pub fec_parity_shards : ℕ
  pub index_fec_data_shards : ℕ
  pub index_fec_parity_shards : ℕ
  pub index_root_fec_data_shards : ℕ
  pub index_root_fec_parity_shards : ℕ
  pub volume_loss_tolerance : ℕ
  pub bit_rot_buffer_pct : ℕ
  pub has_dictionary : ℕ
  pub manifest_footer_global_pre_hmac_bytes : List ℕ
  pub index_root_first_block : ℕ
  pub index_root_data_block_count : ℕ
  pub index_root_parity_block_count : ℕ
  pub index_root_encrypted_size : ℕ
  pub index_root_decompressed_size : ℕ
  pub root_auth_descriptor_digest : List ℕ

pub record ArchiveRootInputs : Type 0 where
  pub archive_uuid : List ℕ
  pub session_id : List ℕ
  pub format_version : ℕ
  pub volume_format_rev : ℕ
  pub compression_algo : CompressionAlgo
  pub aead_algo : AeadAlgo
  pub fec_algo : FecAlgo
  pub kdf_algo : KdfAlgo
  pub critical_metadata_digest : List ℕ
  pub index_digest : List ℕ
  pub fec_layout_digest : List ℕ
  pub total_data_block_count : ℕ
  pub data_block_merkle_root : List ℕ
  pub root_auth_descriptor_digest : List ℕ
  pub signer_identity_digest : List ℕ

-- `u32::try_from` of a length.
unfoldable pub length_as_u32 {ℓ} : {A : Type ℓ} → List A → String → Result ℕ
length_as_u32 items why =
    if ltb (length items) (2 ^ 32) then ok (length items) else err (invalid_archive why)

-- `if row.present { 1 } else { 0 }`
abbrev pub present_byte : Bool → ℕ
present_byte present = if present then 1 else 0

-- The bytes of a row, in front of what is pushed after it.
unfoldable pub push_row : FecLayoutObjectRow → List ℕ → List ℕ
push_row row more =
    row.object_class
    ∷ present_byte row.present
    ∷ (to_le 2 0
        ++ (to_le 8 row.object_id
            ++ (to_le 8 row.first_block_index
                ++ (to_le 4 row.data_block_count
                    ++ (to_le 4 row.parity_block_count
                        ++ (to_le 4 row.encrypted_size ++ (to_le 4 row.plain_size ++ more)))))))

unfoldable pub push_rows : List FecLayoutObjectRow → List ℕ
unfolding push_row
push_rows [] = []
push_rows (row ∷ rows) = push_row row (push_rows rows)

abbrev pub fec_layout_message : List ℕ → List FecLayoutObjectRow → List ℕ
fec_layout_message domain rows = domain ++ (to_le 4 (length rows) ++ push_rows rows)

abbrev pub archive_root_message : RootAuthRevisionParams → ArchiveRootInputs → List ℕ
archive_root_message params inputs =
    params.archive_root_domain
    ++ (params.root_auth_spec_id
        ++ (inputs.archive_uuid
            ++ (inputs.session_id
                ++ (to_le 2 inputs.format_version
                    ++ (to_le 2 inputs.volume_format_rev
                        ++ (to_le 2 (compression_id inputs.compression_algo)
                            ++ (to_le 2 (aead_id inputs.aead_algo)
                                ++ (to_le 2 (fec_id inputs.fec_algo)
                                    ++ (to_le 2 (kdf_id inputs.kdf_algo)
                                        ++ (inputs.critical_metadata_digest
                                            ++ (inputs.index_digest
                                                ++ (inputs.fec_layout_digest
                                                    ++ (to_le 8 inputs.total_data_block_count
                                                        ++ (inputs.data_block_merkle_root
                                                            ++ (inputs.root_auth_descriptor_digest
                                                            ++ inputs.signer_identity_digest)))))))))))))))

module _ (sha256 : List ℕ → List ℕ) where
  unfoldable pub len_prefixed_digest : List ℕ → List ℕ → Result (List ℕ)
  unfolding length_as_u32
  len_prefixed_digest domain payload = do
    len ← length_as_u32 payload "root-auth digest input length overflow"
    ok (sha256 (domain ++ (to_le 4 len ++ payload)))

  unfoldable pub root_auth_descriptor_digest_for_revision :
      ℕ → ℕ → ℕ → ℕ → List ℕ → ℕ → ℕ → Result (List ℕ)
  unfolding length_as_u32
  root_auth_descriptor_digest_for_revision version revision authenticator_id signer_identity_type
        signer_identity_bytes authenticator_value_length footer_length =
      do
        params ← root_auth_revision_params version revision
        len ← length_as_u32 signer_identity_bytes "root-auth signer identity length overflow"
        ok (
            sha256 (
              root_auth_descriptor_domain
              ++ (params.root_auth_spec_id
                  ++ (to_le 2 authenticator_id
                      ++ (to_le 2 signer_identity_type
                          ++ (to_le 4 len
                              ++ (sha256 signer_identity_bytes
                                  ++ (to_le 4 authenticator_value_length
                                      ++ to_le 4 footer_length))))))))

  unfoldable pub signer_identity_digest : ℕ → List ℕ → Result (List ℕ)
  unfolding length_as_u32
  signer_identity_digest signer_identity_type signer_identity_bytes = do
    len ← length_as_u32 signer_identity_bytes "root-auth signer identity length overflow"
    ok (
        sha256 (
          signer_identity_domain
          ++ (to_le 2 signer_identity_type ++ (to_le 4 len ++ signer_identity_bytes))))

  unfoldable pub index_digest_for_revision : ℕ → ℕ → List ℕ → Result (List ℕ)
  index_digest_for_revision version revision index_root_plaintext = do
    params ← root_auth_revision_params version revision
    ok (sha256 (params.index_root_domain ++ index_root_plaintext))

  unfoldable pub fec_layout_digest_for_revision : ℕ → ℕ → List FecLayoutObjectRow → Result (List ℕ)
  unfolding length_as_u32 push_rows
  fec_layout_digest_for_revision version revision rows = do
    params ← root_auth_revision_params version revision
    row_count ← length_as_u32 rows "root-auth FEC row count overflow"
    ok (sha256 (params.fec_layout_domain ++ (to_le 4 row_count ++ push_rows rows)))

  unfoldable pub archive_root_for_revision : ArchiveRootInputs → Result (List ℕ)
  archive_root_for_revision inputs = do
    params ← root_auth_revision_params inputs.format_version inputs.volume_format_rev
    ok (sha256 (archive_root_message params inputs))

  unfoldable pub critical_metadata_digest : CriticalMetadataDigestInputs → Result (List ℕ)
  unfolding len_prefixed_digest
  critical_metadata_digest inputs = do
    params ← root_auth_revision_params inputs.format_version inputs.volume_format_rev
    crypto_header ←
        len_prefixed_digest params.crypto_header_pre_hmac_domain inputs.crypto_header_pre_hmac_bytes
    manifest_footer ←
        len_prefixed_digest params.manifest_footer_global_pre_hmac_domain
          inputs.manifest_footer_global_pre_hmac_bytes
    ok (
        sha256 (
          params.critical_metadata_domain
          ++ (inputs.archive_uuid
              ++ (inputs.session_id
                  ++ (to_le 2 inputs.format_version
                      ++ (to_le 2 inputs.volume_format_rev
                          ++ (to_le 4 inputs.stripe_width
                              ++ (to_le 4 inputs.total_volumes
                                  ++ (to_le 2 (compression_id inputs.compression_algo)
                                      ++ (to_le 2 (aead_id inputs.aead_algo)
                                          ++ (to_le 2 (fec_id inputs.fec_algo)
                                              ++ (to_le 2 (kdf_id inputs.kdf_algo)
                                                  ++ (crypto_header
                                                      ++ (to_le 4 inputs.chunk_size
                                                          ++ (to_le 4 inputs.envelope_target_size
                                                            ++ (to_le 4 inputs.block_size
                                                            ++ (to_le 2 inputs.fec_data_shards
                                                            ++ (to_le 2 inputs.fec_parity_shards
                                                            ++ (to_le 2 inputs.index_fec_data_shards
                                                            ++ (to_le 2
                                                            inputs.index_fec_parity_shards
                                                            ++ (to_le 2
                                                            inputs.index_root_fec_data_shards
                                                            ++ (to_le 2
                                                            inputs.index_root_fec_parity_shards
                                                            ++ (inputs.volume_loss_tolerance
                                                            ∷ inputs.bit_rot_buffer_pct
                                                            ∷ inputs.has_dictionary
                                                            ∷ (manifest_footer
                                                            ++ (to_le 8
                                                            inputs.index_root_first_block
                                                            ++ (to_le 4
                                                            inputs.index_root_data_block_count
                                                            ++ (to_le 4
                                                            inputs.index_root_parity_block_count
                                                            ++ (to_le 4
                                                            inputs.index_root_encrypted_size
                                                            ++ (to_le 4
                                                            inputs.index_root_decompressed_size
                                                            ++ inputs.root_auth_descriptor_digest)))))))))))))))))))))))))))))
