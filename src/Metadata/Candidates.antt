-- ===== src/Metadata/Candidates.antt =====
-- The shards that may hold a hash: `candidate_interval_indexes` of
-- crates/tzap-core/src/metadata.rs and its callers. `partition_point` is a binary search.
pub mod Scans
pub mod Complete
mod Examples
use tzap.Prelude.{
  ℕ, zero, suc, ◌+◌, ◌-◌, List, [], ◌∷◌, map, length, get_or, Bool, ltb, not, ◌==◌, ◌&&◌,
  if◌then◌else◌,
}
use tzap.Format.{Result, ok, err, ◌>>=◌, hash_prefix_collision_run_exceeded}
use tzap.Metadata.Rows.{ShardEntry}
use tzap.Metadata.Order.{bytes_lt}
use tzap.Metadata.Search.{lower_bound}
use tzap.Metadata.Lookup.{hash_prefix}

-- `a <= b` on hashes.
abbrev pub bytes_le : List ℕ → List ℕ → Bool
bytes_le a b = not (bytes_lt b a)

-- `start..end`, as its start and its length.
abbrev pub range : ℕ → ℕ → List ℕ
range start zero = []
range start (suc count) = start ∷ range (suc start) count

-- The loop to the left, from `start` on, after `scanned` rows.
unfoldable pub scan_left : (ℕ → Bool) → ℕ → ℕ → ℕ → Result ℕ
scan_left holds cap zero scanned = ok 0
scan_left holds cap (suc start) scanned =
    let rest = scan_left holds cap start (suc scanned) in
    if holds start
    then (if ltb cap (suc scanned) then err hash_prefix_collision_run_exceeded else rest)
    else ok (suc start)

-- The loop to the right, where `left` rows are left.
unfoldable pub scan_right : (ℕ → Bool) → ℕ → ℕ → ℕ → ℕ → Result ℕ
scan_right holds cap zero end scanned = ok end
scan_right holds cap (suc left) end scanned =
    let rest = scan_right holds cap left (suc end) (suc scanned) in
    if holds end
    then (if ltb cap (suc scanned) then err hash_prefix_collision_run_exceeded else rest)
    else ok end

module _ {ℓ} {T : Type ℓ} (entries : List T) (first_hash last_hash : T → List ℕ) where
  abbrev pub first_at : ℕ → List ℕ
  first_at i = get_or (map first_hash entries) i []

  abbrev pub last_at : ℕ → List ℕ
  last_at i = get_or (map last_hash entries) i []

  -- The range of the row contains a hash.
  abbrev pub covers : List ℕ → ℕ → Bool
  covers target_hash i = bytes_le (first_at i) target_hash && bytes_le target_hash (last_at i)

  unfoldable pub candidate_interval_indexes : List ℕ → ℕ → Result (List ℕ)
  unfolding lower_bound scan_left scan_right
  candidate_interval_indexes target_hash scan_cap_per_direction =
      let n = length entries in
      let upper = lower_bound (λ i. bytes_le (first_at i) target_hash) n in
      let landing = upper - 1 in
      let scanned = scan_left (covers target_hash) scan_cap_per_direction landing 0 >>= (λ start.
        scan_right (covers target_hash) scan_cap_per_direction (n - (landing + 1)) (landing + 1) 0
        >>= (λ end. ok (range start (end - start)))) in
      if n == 0
      then ok []
      else if upper == 0
      then ok []
      else if bytes_lt (last_at landing) target_hash
      then ok []
      else scanned

unfoldable pub candidate_shard_indexes_for_hash : List ShardEntry → List ℕ → ℕ → Result (List ℕ)
unfolding candidate_interval_indexes
candidate_shard_indexes_for_hash shards target_hash scan_cap_per_direction =
    candidate_interval_indexes shards (λ entry. entry.first_path_hash)
      (λ entry. entry.last_path_hash) target_hash scan_cap_per_direction

unfoldable pub candidate_shards_for_path :
    (List ℕ → List ℕ) → List ShardEntry → List ℕ → ℕ → Result (List ℕ)
unfolding candidate_shard_indexes_for_hash
candidate_shards_for_path sha256 shards normalized_path max_hash_collision_shard_scan =
    candidate_shard_indexes_for_hash shards (hash_prefix sha256 normalized_path)
      max_hash_collision_shard_scan
