-- ===== src/RootAuth/Current/Examples.antt =====
-- The current revision at concrete blocks.
use tzap.Prelude.{ℕ, ◌≡◌, ◌↔◌, refl, List, [], ◌∷◌, replicate}
use tzap.Prelude.Bytes.{to_le}
use tzap.Format.{payload_data, ok}
use tzap.Metadata.Samples.{short_digest}
use tzap.RootAuth.Merkle.{DataBlockMerkleLeaf}
use tzap.RootAuth.Current.{data_block_merkle_root}
use tzap.RootAuth.Current.Balanced.{IsRoot, data_block_merkle_root_iff}

abbrev block : ℕ → ℕ → DataBlockMerkleLeaf
block index byte = record {
  block_index = index;
  kind = payload_data;
  flags = 0;
  payload = byte ∷ [];
}

-- Two blocks and the one that is left.
abbrev three_blocks : List DataBlockMerkleLeaf
three_blocks = block 4 9 ∷ block 5 8 ∷ block 6 7 ∷ []

abbrev root_sample : List ℕ
root_sample = 124 ∷ replicate 31 0

three_blocks_root_now : data_block_merkle_root short_digest three_blocks ≡ ok root_sample
unfolding data_block_merkle_root to_le
three_blocks_root_now = refl

data_block_merkle_root_iff_example :
    (data_block_merkle_root short_digest three_blocks ≡ ok root_sample)
    ↔ IsRoot short_digest three_blocks root_sample
data_block_merkle_root_iff_example =
    data_block_merkle_root_iff short_digest three_blocks root_sample
