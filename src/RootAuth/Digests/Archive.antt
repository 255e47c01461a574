-- ===== src/RootAuth/Digests/Archive.antt =====
-- The archive root stands for all of its inputs.
use tzap.Prelude.{ℕ, ◌^◌, ◌<◌, ◌≡◌, refl, sym, ap, ◌∙◌, ◌⊎◌, inl, inr, arith, List, length}
use tzap.Format.{
  CompressionAlgo, AeadAlgo, FecAlgo, KdfAlgo, compression_id, aead_id, fec_id, kdf_id,
  compression_of_id, aead_of_id, fec_of_id, kdf_of_id, compression_of_id-compression_id,
  aead_of_id-aead_id, fec_of_id-fec_id, kdf_of_id-kdf_id, compression_id-lt, aead_id-lt, fec_id-lt,
  kdf_id-lt, ok, ok-injective, first_succeeds,
}
use tzap.RootAuth.Domains.{
  RootAuthRevisionParams, root_auth_revision_params, params_v45, revision-params_v45,
}
use tzap.RootAuth.Messages.{
  array_first, number_first, prefix_injective, Collision, same_or_Collision,
}
use tzap.RootAuth.Digests.{ArchiveRootInputs, archive_root_message, archive_root_for_revision}

-- The fields have the sizes of the source.
pub record IsInputs (inputs : ArchiveRootInputs) : Type 0 where
  pub archive_uuid_16 : length inputs.archive_uuid ≡ 16
  pub session_id_16 : length inputs.session_id ≡ 16
  pub format_version_u16 : inputs.format_version < 2 ^ 16
  pub volume_format_rev_u16 : inputs.volume_format_rev < 2 ^ 16
  pub critical_metadata_digest_32 : length inputs.critical_metadata_digest ≡ 32
  pub index_digest_32 : length inputs.index_digest ≡ 32
  pub fec_layout_digest_32 : length inputs.fec_layout_digest ≡ 32
  pub total_data_block_count_u64 : inputs.total_data_block_count < 2 ^ 64
  pub data_block_merkle_root_32 : length inputs.data_block_merkle_root ≡ 32
  pub root_auth_descriptor_digest_32 : length inputs.root_auth_descriptor_digest ≡ 32

compression_injective : (a b : CompressionAlgo) → compression_id a ≡ compression_id b → a ≡ b
compression_injective a b h = ok-injective (
    sym (compression_of_id-compression_id a)
    ∙ ap compression_of_id h
    ∙ compression_of_id-compression_id b)

aead_injective : (a b : AeadAlgo) → aead_id a ≡ aead_id b → a ≡ b
aead_injective a b h =
    ok-injective (sym (aead_of_id-aead_id a) ∙ ap aead_of_id h ∙ aead_of_id-aead_id b)

fec_injective : (a b : FecAlgo) → fec_id a ≡ fec_id b → a ≡ b
fec_injective a b h = ok-injective (sym (fec_of_id-fec_id a) ∙ ap fec_of_id h ∙ fec_of_id-fec_id b)

kdf_injective : (a b : KdfAlgo) → kdf_id a ≡ kdf_id b → a ≡ b
kdf_injective a b h = ok-injective (sym (kdf_of_id-kdf_id a) ∙ ap kdf_of_id h ∙ kdf_of_id-kdf_id b)

archive_root_message-injective :
    (params : RootAuthRevisionParams) (a b : ArchiveRootInputs)
    → IsInputs a
    → IsInputs b
    → archive_root_message params a ≡ archive_root_message params b
    → a ≡ b
archive_root_message-injective params a b ha hb h =
    let h0 =
      prefix_injective params.root_auth_spec_id _ _
        (prefix_injective params.archive_root_domain _ _ h) in
    let (uuid, h1) =
      array_first 16 a.archive_uuid b.archive_uuid _ _ ha.archive_uuid_16 hb.archive_uuid_16 h0 in
    let (session, h2) =
      array_first 16 a.session_id b.session_id _ _ ha.session_id_16 hb.session_id_16 h1 in
    let (version, h3) =
      number_first 2 a.format_version b.format_version _ _ (omega arith) (omega arith) h2 in
    let (revision, h4) =
      number_first 2 a.volume_format_rev b.volume_format_rev _ _ (omega arith) (omega arith) h3 in
    let (compression, h5) =
      number_first 2 (compression_id a.compression_algo) (compression_id b.compression_algo) _ _
        (omega (arith, compression_id-lt a.compression_algo))
        (omega (arith, compression_id-lt b.compression_algo)) h4 in
    let (aead, h6) =
      number_first 2 (aead_id a.aead_algo) (aead_id b.aead_algo) _ _
        (omega (arith, aead_id-lt a.aead_algo)) (omega (arith, aead_id-lt b.aead_algo)) h5 in
    let (fec, h7) =
      number_first 2 (fec_id a.fec_algo) (fec_id b.fec_algo) _ _
        (omega (arith, fec_id-lt a.fec_algo)) (omega (arith, fec_id-lt b.fec_algo)) h6 in
    let (kdf, h8) =
      number_first 2 (kdf_id a.kdf_algo) (kdf_id b.kdf_algo) _ _
        (omega (arith, kdf_id-lt a.kdf_algo)) (omega (arith, kdf_id-lt b.kdf_algo)) h7 in
    let (metadata, h9) =
      array_first 32 a.critical_metadata_digest b.critical_metadata_digest _ _
        ha.critical_metadata_digest_32 hb.critical_metadata_digest_32 h8 in
    let (index, h10) =
      array_first 32 a.index_digest b.index_digest _ _ ha.index_digest_32 hb.index_digest_32 h9 in
    let (layout, h11) =
      array_first 32 a.fec_layout_digest b.fec_layout_digest _ _ ha.fec_layout_digest_32
        hb.fec_layout_digest_32 h10 in
    let (count, h12) =
      number_first 8 a.total_data_block_count b.total_data_block_count _ _ (omega arith)
        (omega arith) h11 in
    let (root, h13) =
      array_first 32 a.data_block_merkle_root b.data_block_merkle_root _ _
        ha.data_block_merkle_root_32 hb.data_block_merkle_root_32 h12 in
    let (descriptor, signer) =
      array_first 32 a.root_auth_descriptor_digest b.root_auth_descriptor_digest _ _
        ha.root_auth_descriptor_digest_32 hb.root_auth_descriptor_digest_32 h13 in
    let compression_same = compression_injective _ _ compression in
    let aead_same = aead_injective _ _ aead in
    let fec_same = fec_injective _ _ fec in
    let kdf_same = kdf_injective _ _ kdf in
    λ i. record {
      archive_uuid = uuid i;
      session_id = session i;
      format_version = version i;
      volume_format_rev = revision i;
      compression_algo = compression_same i;
      aead_algo = aead_same i;
      fec_algo = fec_same i;
      kdf_algo = kdf_same i;
      critical_metadata_digest = metadata i;
      index_digest = index i;
      fec_layout_digest = layout i;
      total_data_block_count = count i;
      data_block_merkle_root = root i;
      root_auth_descriptor_digest = descriptor i;
      signer_identity_digest = signer i;
    }

module _ (sha256 : List ℕ → List ℕ) where
  root_message :
      (inputs : ArchiveRootInputs) (root : List ℕ)
      → archive_root_for_revision sha256 inputs ≡ ok root
      → root ≡ sha256 (archive_root_message params_v45 inputs)
  unfolding archive_root_for_revision
  root_message inputs root h =
      let (params, p, q) =
        first_succeeds (root_auth_revision_params inputs.format_version inputs.volume_format_rev) _
          root h in
      ok-injective (sym q)
      ∙ ap (λ known. sha256 (archive_root_message known inputs)) (revision-params_v45 _ _ params p)

  -- Inputs with fields of the source's sizes that have one archive root are the same in every
  -- field, or the messages hashed for them differ and have one digest.
  pub archive_root-injective :
      (a b : ArchiveRootInputs) (root : List ℕ)
      → IsInputs a
      → IsInputs b
      → archive_root_for_revision sha256 a ≡ ok root
      → archive_root_for_revision sha256 b ≡ ok root
      → (a ≡ b)
        ⊎ Collision sha256
            (λ m. m ≡ archive_root_message params_v45 a)
            (λ m. m ≡ archive_root_message params_v45 b)
  archive_root-injective a b root ha hb p q =
      elim (same_or_Collision sha256 (λ m. m ≡ archive_root_message params_v45 a)
        (λ m. m ≡ archive_root_message params_v45 b) _ _ refl refl
        (sym (root_message a root p) ∙ root_message b root q)) [
          | inr collision ↦ inr collision
          | inl same ↦ inl (archive_root_message-injective params_v45 a b ha hb same)
        ]
