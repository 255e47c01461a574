-- ===== src/Metadata/Candidates/Examples.antt =====
-- Candidates at concrete shards.
use tzap.Prelude.{ℕ, zero, suc, ◌≡◌, ◌<◌, refl, arith, List, [], ◌∷◌, length, replicate, true}
use tzap.Format.{ok, err, hash_prefix_collision_run_exceeded}
use tzap.Metadata.Rows.{ShardEntry}
use tzap.Metadata.Order.{bytes_lt}
use tzap.Metadata.Candidates.{bytes_le, first_at, last_at, covers, candidate_shard_indexes_for_hash}
use tzap.Metadata.Candidates.Scans.{Outcome}
use tzap.Metadata.Candidates.Complete.{IsChained, candidate_shard_indexes-Outcome}

abbrev hash : ℕ → List ℕ
hash b = b ∷ replicate 7 0

abbrev shard : ℕ → ℕ → ℕ → ShardEntry
shard index first last = record {
  shard_index = index;
  first_block_index = 0;
  data_block_count = 1;
  parity_block_count = 0;
  encrypted_size = 4096;
  decompressed_size = 100;
  file_count = 2;
  first_path_hash = hash first;
  last_path_hash = hash last;
}

-- A hash that ends one shard, fills the next and begins a third.
abbrev shards_sample : List ShardEntry
shards_sample = shard 0 1 5 ∷ shard 1 5 5 ∷ shard 2 5 9 ∷ shard 3 10 12 ∷ []

abbrev first_of : ℕ → List ℕ
first_of = first_at shards_sample (λ entry. entry.first_path_hash) (λ entry. entry.last_path_hash)

abbrev last_of : ℕ → List ℕ
last_of = last_at shards_sample (λ entry. entry.first_path_hash) (λ entry. entry.last_path_hash)

ordered_sample : (i : ℕ) → i < 4 → bytes_le (first_of i) (last_of i) ≡ true
unfolding bytes_lt
ordered_sample zero h = refl
ordered_sample (suc zero) h = refl
ordered_sample (suc (suc zero)) h = refl
ordered_sample (suc (suc (suc zero))) h = refl
ordered_sample (suc (suc (suc (suc i)))) h = absurd (omega arith)

next_sample : (i : ℕ) → suc i < 4 → bytes_le (last_of i) (first_of (suc i)) ≡ true
unfolding bytes_lt
next_sample zero h = refl
next_sample (suc zero) h = refl
next_sample (suc (suc zero)) h = refl
next_sample (suc (suc (suc i))) h = absurd (omega arith)

shards_sample-IsChained : IsChained (length shards_sample) first_of last_of
shards_sample-IsChained = record { ordered = ordered_sample; next = next_sample }

three_found : candidate_shard_indexes_for_hash shards_sample (hash 5) 2 ≡ ok (0 ∷ 1 ∷ 2 ∷ [])
unfolding candidate_shard_indexes_for_hash bytes_lt
three_found = refl

too_many_found :
    candidate_shard_indexes_for_hash shards_sample (hash 5) 1
    ≡ err hash_prefix_collision_run_exceeded
unfolding candidate_shard_indexes_for_hash bytes_lt
too_many_found = refl

between_shards : candidate_shard_indexes_for_hash shards_sample (9 ∷ replicate 7 1) 2 ≡ ok []
unfolding candidate_shard_indexes_for_hash bytes_lt
between_shards = refl

candidate_shard_indexes-Outcome_example :
    Outcome
      (covers shards_sample
        (λ entry. entry.first_path_hash)
        (λ entry. entry.last_path_hash)
        (hash 5))
      (length shards_sample)
      2
      (candidate_shard_indexes_for_hash shards_sample (hash 5) 2)
candidate_shard_indexes-Outcome_example =
    candidate_shard_indexes-Outcome shards_sample (hash 5) 2 shards_sample-IsChained
