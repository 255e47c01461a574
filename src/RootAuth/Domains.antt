-- ===== src/RootAuth/Domains.antt =====
-- The byte strings that separate the digests of crates/tzap-core/src/root_auth.rs, and its
-- `root_auth_revision_params`.
use tzap.Prelude.{ℕ, ◌≡◌, arith, List, [], ◌∷◌, ◌==◌, if◌then◌else◌, not}
use tzap.Format.{
  Result, ok, err, ◌>>=◌, ◌>>◌, reject_if, format_version, volume_format_rev_45,
  reader_max_supported_volume_format_rev, unsupported_format_version,
  unsupported_volume_format_revision,
}

-- tzap-root-auth-descriptor-v1
abbrev pub root_auth_descriptor_domain : List ℕ
root_auth_descriptor_domain =
    116 ∷ 122 ∷ 97 ∷ 112 ∷ 45 ∷ 114 ∷ 111 ∷ 111 ∷ 116 ∷ 45 ∷ 97 ∷ 117 ∷ 116 ∷ 104 ∷ 45 ∷ 100 ∷ 101
    ∷ 115 ∷ 99 ∷ 114 ∷ 105 ∷ 112 ∷ 116 ∷ 111 ∷ 114 ∷ 45 ∷ 118 ∷ 49 ∷ 0 ∷ []

-- tzap-archive-root-v45
abbrev pub archive_root_domain_v45 : List ℕ
archive_root_domain_v45 =
    116 ∷ 122 ∷ 97 ∷ 112 ∷ 45 ∷ 97 ∷ 114 ∷ 99 ∷ 104 ∷ 105 ∷ 118 ∷ 101 ∷ 45 ∷ 114 ∷ 111 ∷ 111 ∷ 116
    ∷ 45 ∷ 118 ∷ 52 ∷ 53 ∷ 0 ∷ []

-- tzap-crypto-header-pre-hmac-v45
abbrev pub crypto_header_pre_hmac_domain_v45 : List ℕ
crypto_header_pre_hmac_domain_v45 =
    116 ∷ 122 ∷ 97 ∷ 112 ∷ 45 ∷ 99 ∷ 114 ∷ 121 ∷ 112 ∷ 116 ∷ 111 ∷ 45 ∷ 104 ∷ 101 ∷ 97 ∷ 100 ∷ 101
    ∷ 114 ∷ 45 ∷ 112 ∷ 114 ∷ 101 ∷ 45 ∷ 104 ∷ 109 ∷ 97 ∷ 99 ∷ 45 ∷ 118 ∷ 52 ∷ 53 ∷ 0 ∷ []

-- tzap-manifest-footer-global-pre-hmac-v45
abbrev pub manifest_footer_global_pre_hmac_domain_v45 : List ℕ
manifest_footer_global_pre_hmac_domain_v45 =
    116 ∷ 122 ∷ 97 ∷ 112 ∷ 45 ∷ 109 ∷ 97 ∷ 110 ∷ 105 ∷ 102 ∷ 101 ∷ 115 ∷ 116 ∷ 45 ∷ 102 ∷ 111 ∷ 111
    ∷ 116 ∷ 101 ∷ 114 ∷ 45 ∷ 103 ∷ 108 ∷ 111 ∷ 98 ∷ 97 ∷ 108 ∷ 45 ∷ 112 ∷ 114 ∷ 101 ∷ 45 ∷ 104 ∷ 109
    ∷ 97 ∷ 99 ∷ 45 ∷ 118 ∷ 52 ∷ 53 ∷ 0 ∷ []

-- tzap-critical-metadata-v45
abbrev pub critical_metadata_domain_v45 : List ℕ
critical_metadata_domain_v45 =
    116 ∷ 122 ∷ 97 ∷ 112 ∷ 45 ∷ 99 ∷ 114 ∷ 105 ∷ 116 ∷ 105 ∷ 99 ∷ 97 ∷ 108 ∷ 45 ∷ 109 ∷ 101 ∷ 116
    ∷ 97 ∷ 100 ∷ 97 ∷ 116 ∷ 97 ∷ 45 ∷ 118 ∷ 52 ∷ 53 ∷ 0 ∷ []

-- tzap-index-root-v45
abbrev pub index_root_domain_v45 : List ℕ
index_root_domain_v45 =
    116 ∷ 122 ∷ 97 ∷ 112 ∷ 45 ∷ 105 ∷ 110 ∷ 100 ∷ 101 ∷ 120 ∷ 45 ∷ 114 ∷ 111 ∷ 111 ∷ 116 ∷ 45 ∷ 118
    ∷ 52 ∷ 53 ∷ 0 ∷ []

-- tzap-fec-layout-v45
abbrev pub fec_layout_domain_v45 : List ℕ
fec_layout_domain_v45 =
    116 ∷ 122 ∷ 97 ∷ 112 ∷ 45 ∷ 102 ∷ 101 ∷ 99 ∷ 45 ∷ 108 ∷ 97 ∷ 121 ∷ 111 ∷ 117 ∷ 116 ∷ 45 ∷ 118
    ∷ 52 ∷ 53 ∷ 0 ∷ []

-- tzap-data-block-merkle-v45
abbrev pub data_block_merkle_domain_v45 : List ℕ
data_block_merkle_domain_v45 =
    116 ∷ 122 ∷ 97 ∷ 112 ∷ 45 ∷ 100 ∷ 97 ∷ 116 ∷ 97 ∷ 45 ∷ 98 ∷ 108 ∷ 111 ∷ 99 ∷ 107 ∷ 45 ∷ 109
    ∷ 101 ∷ 114 ∷ 107 ∷ 108 ∷ 101 ∷ 45 ∷ 118 ∷ 52 ∷ 53 ∷ 0 ∷ []

-- tzap-empty-merkle-tree-v1
abbrev pub empty_merkle_domain : List ℕ
empty_merkle_domain =
    116 ∷ 122 ∷ 97 ∷ 112 ∷ 45 ∷ 101 ∷ 109 ∷ 112 ∷ 116 ∷ 121 ∷ 45 ∷ 109 ∷ 101 ∷ 114 ∷ 107 ∷ 108 ∷ 101
    ∷ 45 ∷ 116 ∷ 114 ∷ 101 ∷ 101 ∷ 45 ∷ 118 ∷ 49 ∷ 0 ∷ []

-- tzap-signer-identity-v1
abbrev pub signer_identity_domain : List ℕ
signer_identity_domain =
    116 ∷ 122 ∷ 97 ∷ 112 ∷ 45 ∷ 115 ∷ 105 ∷ 103 ∷ 110 ∷ 101 ∷ 114 ∷ 45 ∷ 105 ∷ 100 ∷ 101 ∷ 110 ∷ 116
    ∷ 105 ∷ 116 ∷ 121 ∷ 45 ∷ 118 ∷ 49 ∷ 0 ∷ []

-- tzap-root-auth-v0.45
abbrev pub root_auth_spec_id_v45 : List ℕ
root_auth_spec_id_v45 =
    116 ∷ 122 ∷ 97 ∷ 112 ∷ 45 ∷ 114 ∷ 111 ∷ 111 ∷ 116 ∷ 45 ∷ 97 ∷ 117 ∷ 116 ∷ 104 ∷ 45 ∷ 118 ∷ 48
    ∷ 46 ∷ 52 ∷ 53 ∷ 0 ∷ 0 ∷ 0 ∷ 0 ∷ []

pub record RootAuthRevisionParams : Type 0 where
  pub root_auth_spec_id : List ℕ
  pub archive_root_domain : List ℕ
  pub crypto_header_pre_hmac_domain : List ℕ
  pub manifest_footer_global_pre_hmac_domain : List ℕ
  pub critical_metadata_domain : List ℕ
  pub index_root_domain : List ℕ
  pub fec_layout_domain : List ℕ
  pub data_block_merkle_domain : List ℕ

-- The domains of the one revision that is supported.
abbrev pub params_v45 : RootAuthRevisionParams
params_v45 = record {
  root_auth_spec_id = root_auth_spec_id_v45;
  archive_root_domain = archive_root_domain_v45;
  crypto_header_pre_hmac_domain = crypto_header_pre_hmac_domain_v45;
  manifest_footer_global_pre_hmac_domain = manifest_footer_global_pre_hmac_domain_v45;
  critical_metadata_domain = critical_metadata_domain_v45;
  index_root_domain = index_root_domain_v45;
  fec_layout_domain = fec_layout_domain_v45;
  data_block_merkle_domain = data_block_merkle_domain_v45;
}

unfoldable pub root_auth_spec_id_for_revision : ℕ → ℕ → Result (List ℕ)
root_auth_spec_id_for_revision version revision =
    if not (version == format_version)
    then err (unsupported_format_version version)
    else if revision == volume_format_rev_45
    then ok root_auth_spec_id_v45
    else err
        (unsupported_volume_format_revision version revision reader_max_supported_volume_format_rev)

unfoldable pub root_auth_revision_params : ℕ → ℕ → Result RootAuthRevisionParams
unfolding root_auth_spec_id_for_revision
root_auth_revision_params version revision = do
  root_auth_spec_id ← root_auth_spec_id_for_revision version revision
  reject_if (not (revision == volume_format_rev_45))
      (unsupported_volume_format_revision version revision volume_format_rev_45)
  ok params_v45

pub revision-params_v45 :
    (version revision : ℕ) (params : RootAuthRevisionParams)
    → root_auth_revision_params version revision ≡ ok params
    → params ≡ params_v45
unfolding root_auth_revision_params root_auth_spec_id_for_revision
revision-params_v45 version revision params h = ground arith
