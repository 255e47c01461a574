-- ===== src/RootAuth/Merkle/Binding.antt =====
-- A Merkle root stands for one list of data blocks, as far as SHA-256 has no collision.
use mathlib.Core.Path.{ap₂}
use tzap.Prelude.{ℕ, ◌≡◌, sym, ap, ◌∙◌, ◌⊎◌, inl, inr, arith, List, ◌∷◌, ◌++◌, length, get_or, drop}
use tzap.Prelude.Bytes.{to_le}
use tzap.Format.{
  BlockKind, block_kind_id, ok-injective, block_kind_of_id, block_kind_of_id-block_kind_id,
}
use tzap.RootAuth.Messages.{
  append_injective, prefix_injective, number_first, Collision, same_or_Collision,
}
use tzap.RootAuth.Merkle.{DataBlockMerkleLeaf, leaf_message}
use tzap.RootAuth.Merkle.Trees.{Tree, leaf, node}
use tzap.RootAuth.Merkle.Hashed.{IsLeaf, tree_hash, KnownTree}

abbrev pub head_of : List ℕ → ℕ
head_of bytes = get_or bytes 0 0

kind_injective : (k l : BlockKind) → block_kind_id k ≡ block_kind_id l → k ≡ l
kind_injective k l h = ok-injective (
    sym (block_kind_of_id-block_kind_id k)
    ∙ ap block_kind_of_id h
    ∙ block_kind_of_id-block_kind_id l)

abbrev leaf_fields : DataBlockMerkleLeaf → List ℕ
leaf_fields b = to_le 8 b.block_index ++ (block_kind_id b.kind ∷ b.flags ∷ b.payload)

leaf_message-injective :
    (domain : List ℕ) (b c : DataBlockMerkleLeaf)
    → IsLeaf b
    → IsLeaf c
    → leaf_message domain b ≡ leaf_message domain c
    → b ≡ c
leaf_message-injective domain b c hb hc h =
    let after : leaf_fields b ≡ leaf_fields c =
      prefix_injective domain (leaf_fields b) (leaf_fields c) (ap (drop 1) h) in
    let (index, rest) =
      number_first 8 b.block_index c.block_index _ _ (omega arith) (omega arith) after in
    let kind : b.kind ≡ c.kind = kind_injective b.kind c.kind (ap head_of rest) in
    let flags : b.flags ≡ c.flags = cc in
    let payload : b.payload ≡ c.payload = cc in
    λ i. record { block_index = index i; kind = kind i; flags = flags i; payload = payload i }

module _ (sha256 : List ℕ → List ℕ) (digest_length : (m : List ℕ) → length (sha256 m) ≡ 32) where
  length-tree_hash :
      (domain : List ℕ) (t : Tree DataBlockMerkleLeaf) → length (tree_hash sha256 domain t) ≡ 32
  length-tree_hash domain (leaf b) = digest_length _
  length-tree_hash domain (node l r) = digest_length _

  module _ (domain : List ℕ) (Here There : List ℕ → Type 0) where
    -- Equal hashes of trees, at the messages of the one and of the other.
    pub tree_hash-injective :
        (s t : Tree DataBlockMerkleLeaf)
        → KnownTree sha256 domain Here s
        → KnownTree sha256 domain There t
        → tree_hash sha256 domain s ≡ tree_hash sha256 domain t
        → (s ≡ t) ⊎ Collision sha256 Here There
    tree_hash-injective (leaf b) (leaf c) (hb, kb) (hc, kc) h =
        elim (same_or_Collision sha256 Here There _ _ kb kc h) [
          | inl same ↦ inl (ap leaf (leaf_message-injective domain b c hb hc same))
          | inr collision ↦ inr collision
        ]
    tree_hash-injective (leaf b) (node l r) (hb, kb) (k, rest) h =
        elim (same_or_Collision sha256 Here There _ _ kb k h) [
          | inl same ↦ absurd (let differ : 0 ≡ 1 = ap head_of same in omega (arith, differ))
          | inr collision ↦ inr collision
        ]
    tree_hash-injective (node l r) (leaf b) (k, rest) (hb, kb) h =
        elim (same_or_Collision sha256 Here There _ _ k kb h) [
          | inl same ↦ absurd (let differ : 1 ≡ 0 = ap head_of same in omega (arith, differ))
          | inr collision ↦ inr collision
        ]
    tree_hash-injective (node l r) (node l' r') (k, (kl, kr)) (k', (kl', kr')) h =
        elim (same_or_Collision sha256 Here There _ _ k k' h) [
          | inr collision ↦ inr collision
          | inl same ↦
              let after =
                prefix_injective domain (tree_hash sha256 domain l ++ tree_hash sha256 domain r)
                  (tree_hash sha256 domain l' ++ tree_hash sha256 domain r') (ap (drop 1) same) in
              let (left, right) =
                append_injective (tree_hash sha256 domain l) (tree_hash sha256 domain l') _ _
                  (length-tree_hash domain l ∙ sym (length-tree_hash domain l')) after in
              elim (tree_hash-injective l l' kl kl' left) [
                | inr collision ↦ inr collision
                | inl left_same ↦ elim (tree_hash-injective r r' kr kr' right) [
                  | inr collision ↦ inr collision
                  | inl right_same ↦ inl (ap₂ node left_same right_same)
                ]
              ]
        ]
