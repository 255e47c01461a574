-- ===== src/RootAuth/Digests/Layout.antt =====
-- The digest of the layout of the erasure coding stands for its rows.
use mathlib.Core.Path.{ap₂}
use tzap.Prelude.{
  ℕ, ◌^◌, ◌<◌, ◌≡◌, refl, sym, ap, ◌∙◌, ◌⊎◌, inl, inr, arith, List, [], ◌∷◌, ◌++◌, length, All,
  Bool, true, false, get_or, drop,
}
use tzap.Prelude.Bytes.{to_le}
use tzap.Format.{ok, ok-injective, first_succeeds}
use tzap.RootAuth.Domains.{root_auth_revision_params, revision-params_v45, fec_layout_domain_v45}
use tzap.RootAuth.Messages.{number_first, prefix_injective, Collision, same_or_Collision}
use tzap.RootAuth.Digests.{
  FecLayoutObjectRow, present_byte, push_row, push_rows, length_as_u32, fec_layout_message,
  fec_layout_digest_for_revision,
}

-- The fields of a row have the widths of the source.
pub record IsRow (row : FecLayoutObjectRow) : Type 0 where
  pub object_id_u64 : row.object_id < 2 ^ 64
  pub first_block_index_u64 : row.first_block_index < 2 ^ 64
  pub data_block_count_u32 : row.data_block_count < 2 ^ 32
  pub parity_block_count_u32 : row.parity_block_count < 2 ^ 32
  pub encrypted_size_u32 : row.encrypted_size < 2 ^ 32
  pub plain_size_u32 : row.plain_size < 2 ^ 32

flag_injective : (a b : Bool) → present_byte a ≡ present_byte b → a ≡ b
flag_injective true true h = refl
flag_injective true false h = absurd (omega (arith, h))
flag_injective false true h = absurd (omega (arith, h))
flag_injective false false h = refl

push_row-injective :
    (r s : FecLayoutObjectRow) (xs ys : List ℕ)
    → IsRow r
    → IsRow s
    → push_row r xs ≡ push_row s ys
    → (r ≡ s) × (xs ≡ ys)
unfolding push_row
push_row-injective r s xs ys hr hs h =
    let class : r.object_class ≡ s.object_class = ap (λ bytes. get_or bytes 0 0) h in
    let present = flag_injective r.present s.present (ap (λ bytes. get_or bytes 1 0) h) in
    let h1 = prefix_injective (to_le 2 0) _ _ (ap (drop 2) h) in
    let (id, h2) = number_first 8 r.object_id s.object_id _ _ (omega arith) (omega arith) h1 in
    let (first, h3) =
      number_first 8 r.first_block_index s.first_block_index _ _ (omega arith) (omega arith) h2 in
    let (blocks, h4) =
      number_first 4 r.data_block_count s.data_block_count _ _ (omega arith) (omega arith) h3 in
    let (parity, h5) =
      number_first 4 r.parity_block_count s.parity_block_count _ _ (omega arith) (omega arith) h4 in
    let (size, h6) =
      number_first 4 r.encrypted_size s.encrypted_size _ _ (omega arith) (omega arith) h5 in
    let (plain, h7) = number_first 4 r.plain_size s.plain_size _ _ (omega arith) (omega arith) h6 in
    (
      λ i. record {
        object_class = class i;
        present = present i;
        object_id = id i;
        first_block_index = first i;
        data_block_count = blocks i;
        parity_block_count = parity i;
        encrypted_size = size i;
        plain_size = plain i;
      },
      h7,
    )

push_rows-injective :
    (rs ss : List FecLayoutObjectRow)
    → All IsRow rs
    → All IsRow ss
    → push_rows rs ≡ push_rows ss
    → rs ≡ ss
unfolding push_rows push_row
push_rows-injective [] [] hr hs h = refl
push_rows-injective [] (s ∷ ss) hr hs h = absurd (cc)
push_rows-injective (r ∷ rs) [] hr hs h = absurd (cc)
push_rows-injective (r ∷ rs) (s ∷ ss) (pr, hr) (ps, hs) h =
    let (row, rest) = push_row-injective r s (push_rows rs) (push_rows ss) pr ps h in
    ap₂ (λ x xs. x ∷ xs) row (push_rows-injective rs ss hr hs rest)

module _ (sha256 : List ℕ → List ℕ) where
  -- The digest is that of the message, and the number of rows has 32 bits.
  layout_digest :
      (version revision : ℕ) (rows : List FecLayoutObjectRow) (digest : List ℕ)
      → fec_layout_digest_for_revision sha256 version revision rows ≡ ok digest
      → (length rows < 2 ^ 32) × (digest ≡ sha256 (fec_layout_message fec_layout_domain_v45 rows))
  unfolding fec_layout_digest_for_revision length_as_u32
  layout_digest version revision rows digest h =
      let (params, p, q) = first_succeeds (root_auth_revision_params version revision) _ digest h in
      let (count, c, e) = first_succeeds (length_as_u32 rows _) _ digest q in
      let same : (length rows < 2 ^ 32) × (count ≡ length rows) = ground arith in
      (
        same.0,
        ok-injective (sym e)
            ∙ ap (λ n. sha256 (params.fec_layout_domain ++ (to_le 4 n ++ push_rows rows))) same.1
            ∙ ap (λ d. sha256 (fec_layout_message d rows))
                (ap (λ known. known.fec_layout_domain)
                  (revision-params_v45 version revision params p)),
      )

  -- Two lists of rows, with fields of the source's widths, that have one layout digest at a
  -- revision are the same list, or the messages hashed for them differ and have one digest.
  pub fec_layout_digest-injective :
      (version revision : ℕ) (rs ss : List FecLayoutObjectRow) (digest : List ℕ)
      → All IsRow rs
      → All IsRow ss
      → fec_layout_digest_for_revision sha256 version revision rs ≡ ok digest
      → fec_layout_digest_for_revision sha256 version revision ss ≡ ok digest
      → (rs ≡ ss)
        ⊎ Collision sha256
            (λ m. m ≡ fec_layout_message fec_layout_domain_v45 rs)
            (λ m. m ≡ fec_layout_message fec_layout_domain_v45 ss)
  fec_layout_digest-injective version revision rs ss digest hr hs p q =
      let (few_r, here) = layout_digest version revision rs digest p in
      let (few_s, there) = layout_digest version revision ss digest q in
      elim (same_or_Collision sha256 (λ m. m ≡ fec_layout_message fec_layout_domain_v45 rs)
        (λ m. m ≡ fec_layout_message fec_layout_domain_v45 ss) _ _ refl refl (sym here ∙ there)) [
          | inr collision ↦ inr collision
          | inl same ↦
              let body = prefix_injective fec_layout_domain_v45 _ _ same in
              let (count, rows) =
                number_first 4 (length rs) (length ss) _ _ (omega arith) (omega arith) body in
              inl (push_rows-injective rs ss hr hs rows)
        ]
