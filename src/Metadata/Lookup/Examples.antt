-- ===== src/Metadata/Lookup/Examples.antt =====
-- Lookups at concrete values: the path `b` stands in two rows.
use tzap.Prelude.{ℕ, zero, suc, ◌<◌, ◌≡◌, refl, arith, List, [], ◌∷◌, length, some, none, true}
use tzap.Prelude.Bytes.{bytes_eq}
use tzap.Format.{ok}
use tzap.Metadata.Rows.{FileEntry, IndexShard, DirectoryHintEntry, DirectoryHintTable}
use tzap.Metadata.Order.{bytes_lt}
use tzap.Metadata.Samples.{short_digest, file_sample}
use tzap.Metadata.Lookup.Directories.{entry_lt, IsHinted, Locates, lookup_directory_index-Locates}
use tzap.Metadata.Lookup.{
  lookup_file_index, lookup_directory_index, dir_hash_at, validate_file_order, hash_at, path_at,
  hash_prefix,
}
use tzap.Metadata.Lookup.Files.{IsIndexed, Finds, lookup_file_index_lem}

abbrev row : List ℕ → FileEntry
row path = record file_sample { path_hash = hash_prefix short_digest path }

abbrev shard : IndexShard
shard = record {
  header = record {
    version = 1;
    shard_index = 0;
    file_count = 3;
    frame_count = 0;
    envelope_count = 0;
    file_table_offset = 64;
    frame_table_offset = 0;
    envelope_table_offset = 0;
    string_pool_offset = 0;
    string_pool_size = 0;
  };
  files = row (b'a' ∷ []) ∷ row (b'b' ∷ []) ∷ row (b'b' ∷ []) ∷ [];
  frames = [];
  envelopes = [];
  string_pool = [];
  file_paths = (b'a' ∷ []) ∷ (b'b' ∷ []) ∷ (b'b' ∷ []) ∷ [];
  file_tar_member_group_starts = 7000 ∷ 0 ∷ 2000 ∷ [];
}

hashes :
    (i : ℕ)
    → i < length shard.files
    → hash_at shard.files i ≡ hash_prefix short_digest (path_at shard.file_paths i)
hashes zero h = refl
hashes (suc zero) h = refl
hashes (suc (suc zero)) h = refl
hashes (suc (suc (suc i))) h = absurd (omega arith)

ordered :
    validate_file_order shard.files shard.file_paths shard.file_tar_member_group_starts ≡ ok tt
unfolding validate_file_order bytes_lt bytes_eq
ordered = refl

shard-IsIndexed : IsIndexed short_digest shard
shard-IsIndexed = record { paths = refl; hashes = hashes; order = ordered }

finds_last : lookup_file_index short_digest shard (b'b' ∷ []) ≡ some 2
unfolding lookup_file_index bytes_lt bytes_eq
finds_last = refl

finds_none : lookup_file_index short_digest shard (b'c' ∷ []) ≡ none
unfolding lookup_file_index bytes_lt bytes_eq
finds_none = refl

lookup_file_index_lem_example :
    Finds short_digest shard (b'b' ∷ []) (lookup_file_index short_digest shard (b'b' ∷ []))
lookup_file_index_lem_example = lookup_file_index_lem short_digest shard shard-IsIndexed (b'b' ∷ [])

abbrev entry : List ℕ → DirectoryHintEntry
entry path = record {
  dir_hash = hash_prefix short_digest path;
  path_offset = 0;
  path_length = length path;
  shard_list_start_index = 0;
  shard_count = 1;
}

-- The root, `b` and `d`.
abbrev hint_table : DirectoryHintTable
hint_table = record {
  header = record {
    version = 1;
    hint_shard_index = 0;
    entry_count = 3;
    entry_table_offset = 0;
    shard_list_offset = 0;
    string_pool_offset = 0;
    string_pool_size = 0;
  };
  entries = entry [] ∷ entry (b'b' ∷ []) ∷ entry (b'd' ∷ []) ∷ [];
  shard_row_indexes = 0 ∷ [];
  string_pool = [];
  entry_paths = [] ∷ (b'b' ∷ []) ∷ (b'd' ∷ []) ∷ [];
}

entry_hashes :
    (i : ℕ)
    → i < length hint_table.entries
    → dir_hash_at short_digest hint_table i
      ≡ hash_prefix short_digest (path_at hint_table.entry_paths i)
entry_hashes zero h = refl
entry_hashes (suc zero) h = refl
entry_hashes (suc (suc zero)) h = refl
entry_hashes (suc (suc (suc i))) h = absurd (omega arith)

entry_order :
    (i : ℕ) → suc i < length hint_table.entries → entry_lt short_digest hint_table i (suc i) ≡ true
unfolding bytes_lt bytes_eq
entry_order zero h = refl
entry_order (suc zero) h = refl
entry_order (suc (suc i)) h = absurd (omega arith)

hint_table-IsHinted : IsHinted short_digest hint_table
hint_table-IsHinted = record { hashes = entry_hashes; next = entry_order }

finds_directory : lookup_directory_index short_digest hint_table (b'b' ∷ []) ≡ some 1
unfolding lookup_directory_index bytes_lt bytes_eq
finds_directory = refl

lookup_directory_index-Locates_example :
    Locates short_digest hint_table
      (b'b' ∷ [])
      (lookup_directory_index short_digest hint_table (b'b' ∷ []))
lookup_directory_index-Locates_example =
    lookup_directory_index-Locates short_digest hint_table (b'b' ∷ []) hint_table-IsHinted
