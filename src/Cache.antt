-- ===== src/Cache.antt =====
-- rust/src/cache.rs: the configuration of the caches and their statistics. SlateDB's caches and its
-- metrics recorder are parameters, as are the defaults that SlateDB chooses.
use duckdb_object_storage.Common.{
  ℕ, ◌+◌, ◌-◌, Bool, false, ◌&&◌, Option, none, some, List, [], ◌∷◌, ◌==◌, if◌then◌else◌, wrap,
}
use duckdb_object_storage.Keys.{Bytes}

pub record CacheConfig : Type 0 where
  pub block_cache_size_bytes : ℕ
  pub metadata_cache_size_bytes : ℕ
  pub cache_shards : Option ℕ
  pub persistent_cache_path : Option Bytes
  pub persistent_cache_size_bytes : ℕ
  pub persistent_cache_part_size_bytes : ℕ
  pub persistent_cache_on_flush : Bool
  pub persistent_cache_on_compaction : Bool

-- `ObjectStoreCacheOptions` of SlateDB, as far as the crate sets it.
pub record ObjectStoreCacheOptions : Type 0 where
  pub root_folder : Option Bytes
  pub max_cache_size_bytes : Option ℕ
  pub part_size_bytes : ℕ
  pub cache_on_flush : Bool
  pub cache_on_compaction : Bool

-- What SlateDB gives: its default options and capacities, and its caches.
pub record CacheLibrary : Type 1 where
  pub default_block_cache_capacity : ℕ
  pub default_meta_cache_capacity : ℕ
  pub default_options : ObjectStoreCacheOptions
  pub default_shards : ℕ
  pub FoyerCache : Type 0
  pub DbCache : Type 0
  -- `FoyerCache::new_with_opts`, by its `max_capacity` and `shards`
  pub new_with_opts : ℕ → ℕ → FoyerCache
  -- `SplitCache`, by its block cache and its metadata cache
  pub split_cache : Option FoyerCache → Option FoyerCache → DbCache

module _ (lib : CacheLibrary) where
  -- `CacheConfig::default`
  abbrev pub default_config : CacheConfig
  default_config = record {
    block_cache_size_bytes = lib.default_block_cache_capacity;
    metadata_cache_size_bytes = lib.default_meta_cache_capacity;
    cache_shards = none;
    persistent_cache_path = none;
    persistent_cache_size_bytes = 17179869184;
    persistent_cache_part_size_bytes = 4194304;
    persistent_cache_on_flush = false;
    persistent_cache_on_compaction = false;
  }

  unfoldable pub object_store_cache_options : CacheConfig → ObjectStoreCacheOptions
  object_store_cache_options config = elim config.persistent_cache_path [
    | none ↦ lib.default_options
    | some path ↦ record {
      root_folder = some path;
      max_cache_size_bytes = some config.persistent_cache_size_bytes;
      part_size_bytes = config.persistent_cache_part_size_bytes;
      cache_on_flush = config.persistent_cache_on_flush;
      cache_on_compaction = config.persistent_cache_on_compaction;
    }
  ]

  abbrev shard_count : Option ℕ → ℕ
  shard_count none = lib.default_shards
  shard_count (some shards) = shards

  unfoldable pub build_foyer_cache : ℕ → Option ℕ → Option lib.FoyerCache
  build_foyer_cache max_capacity shards =
      if max_capacity == 0 then none else some (lib.new_with_opts max_capacity (shard_count shards))

  unfoldable pub build_db_cache : CacheConfig → Option lib.DbCache
  build_db_cache config =
      if (config.block_cache_size_bytes == 0) && (config.metadata_cache_size_bytes == 0)
      then none
      else some (
          lib.split_cache (build_foyer_cache config.block_cache_size_bytes config.cache_shards)
            (build_foyer_cache config.metadata_cache_size_bytes config.cache_shards))

-- `MetricValue` of SlateDB: a gauge is signed, here as whether it is negative and its size, and every
-- other kind is `unnamed`.
pub data MetricValue : Type 0 where
  counter : ℕ → MetricValue
  gauge : Bool → ℕ → MetricValue
  unnamed : MetricValue

-- `Metrics::by_name_and_labels` of a snapshot of the recorder.
abbrev pub Metrics : Type 0
Metrics = Bytes → List (Bytes × Bytes) → Option MetricValue

pub record CacheStats : Type 0 where
  pub block_cache_hits : ℕ
  pub block_cache_misses : ℕ
  pub metadata_cache_hits : ℕ
  pub metadata_cache_misses : ℕ
  pub persistent_cache_hits : ℕ
  pub persistent_cache_misses : ℕ
  pub persistent_cache_entries : ℕ
  pub persistent_cache_size_bytes : ℕ
  pub persistent_cache_evictions : ℕ
  pub persistent_cache_evicted_bytes : ℕ

counter_of : Option MetricValue → ℕ
counter_of (some (counter value)) = value
counter_of _ = 0

gauge_of : Option MetricValue → ℕ
gauge_of (some (gauge false value)) = value
gauge_of _ = 0

unfoldable pub metric_counter : Metrics → Bytes → List (Bytes × Bytes) → ℕ
unfolding counter_of
metric_counter metrics name labels = counter_of (metrics name labels)

unfoldable pub metric_gauge : Metrics → Bytes → List (Bytes × Bytes) → ℕ
unfolding gauge_of
metric_gauge metrics name labels = gauge_of (metrics name labels)

abbrev db_cache_access_count : Bytes
db_cache_access_count =
    b's' ∷ b'l' ∷ b'a' ∷ b't' ∷ b'e' ∷ b'd' ∷ b'b' ∷ b'.' ∷ b'd' ∷ b'b' ∷ b'_' ∷ b'c' ∷ b'a' ∷ b'c'
    ∷ b'h' ∷ b'e' ∷ b'.' ∷ b'a' ∷ b'c' ∷ b'c' ∷ b'e' ∷ b's' ∷ b's' ∷ b'_' ∷ b'c' ∷ b'o' ∷ b'u'
    ∷ b'n' ∷ b't' ∷ []

abbrev persistent_hit_count : Bytes
persistent_hit_count =
    b's' ∷ b'l' ∷ b'a' ∷ b't' ∷ b'e' ∷ b'd' ∷ b'b' ∷ b'.' ∷ b'o' ∷ b'b' ∷ b'j' ∷ b'e' ∷ b'c' ∷ b't'
    ∷ b'_' ∷ b's' ∷ b't' ∷ b'o' ∷ b'r' ∷ b'e' ∷ b'_' ∷ b'c' ∷ b'a' ∷ b'c' ∷ b'h' ∷ b'e' ∷ b'.'
    ∷ b'p' ∷ b'a' ∷ b'r' ∷ b't' ∷ b'_' ∷ b'h' ∷ b'i' ∷ b't' ∷ b'_' ∷ b'c' ∷ b'o' ∷ b'u' ∷ b'n'
    ∷ b't' ∷ []

abbrev persistent_access_count : Bytes
persistent_access_count =
    b's' ∷ b'l' ∷ b'a' ∷ b't' ∷ b'e' ∷ b'd' ∷ b'b' ∷ b'.' ∷ b'o' ∷ b'b' ∷ b'j' ∷ b'e' ∷ b'c' ∷ b't'
    ∷ b'_' ∷ b's' ∷ b't' ∷ b'o' ∷ b'r' ∷ b'e' ∷ b'_' ∷ b'c' ∷ b'a' ∷ b'c' ∷ b'h' ∷ b'e' ∷ b'.'
    ∷ b'p' ∷ b'a' ∷ b'r' ∷ b't' ∷ b'_' ∷ b'a' ∷ b'c' ∷ b'c' ∷ b'e' ∷ b's' ∷ b's' ∷ b'_' ∷ b'c'
    ∷ b'o' ∷ b'u' ∷ b'n' ∷ b't' ∷ []

abbrev persistent_cache_keys : Bytes
persistent_cache_keys =
    b's' ∷ b'l' ∷ b'a' ∷ b't' ∷ b'e' ∷ b'd' ∷ b'b' ∷ b'.' ∷ b'o' ∷ b'b' ∷ b'j' ∷ b'e' ∷ b'c' ∷ b't'
    ∷ b'_' ∷ b's' ∷ b't' ∷ b'o' ∷ b'r' ∷ b'e' ∷ b'_' ∷ b'c' ∷ b'a' ∷ b'c' ∷ b'h' ∷ b'e' ∷ b'.'
    ∷ b'c' ∷ b'a' ∷ b'c' ∷ b'h' ∷ b'e' ∷ b'_' ∷ b'k' ∷ b'e' ∷ b'y' ∷ b's' ∷ []

abbrev persistent_cache_bytes : Bytes
persistent_cache_bytes =
    b's' ∷ b'l' ∷ b'a' ∷ b't' ∷ b'e' ∷ b'd' ∷ b'b' ∷ b'.' ∷ b'o' ∷ b'b' ∷ b'j' ∷ b'e' ∷ b'c' ∷ b't'
    ∷ b'_' ∷ b's' ∷ b't' ∷ b'o' ∷ b'r' ∷ b'e' ∷ b'_' ∷ b'c' ∷ b'a' ∷ b'c' ∷ b'h' ∷ b'e' ∷ b'.'
    ∷ b'c' ∷ b'a' ∷ b'c' ∷ b'h' ∷ b'e' ∷ b'_' ∷ b'b' ∷ b'y' ∷ b't' ∷ b'e' ∷ b's' ∷ []

abbrev persistent_evicted_keys : Bytes
persistent_evicted_keys =
    b's' ∷ b'l' ∷ b'a' ∷ b't' ∷ b'e' ∷ b'd' ∷ b'b' ∷ b'.' ∷ b'o' ∷ b'b' ∷ b'j' ∷ b'e' ∷ b'c' ∷ b't'
    ∷ b'_' ∷ b's' ∷ b't' ∷ b'o' ∷ b'r' ∷ b'e' ∷ b'_' ∷ b'c' ∷ b'a' ∷ b'c' ∷ b'h' ∷ b'e' ∷ b'.'
    ∷ b'e' ∷ b'v' ∷ b'i' ∷ b'c' ∷ b't' ∷ b'e' ∷ b'd' ∷ b'_' ∷ b'k' ∷ b'e' ∷ b'y' ∷ b's' ∷ []

abbrev persistent_evicted_bytes : Bytes
persistent_evicted_bytes =
    b's' ∷ b'l' ∷ b'a' ∷ b't' ∷ b'e' ∷ b'd' ∷ b'b' ∷ b'.' ∷ b'o' ∷ b'b' ∷ b'j' ∷ b'e' ∷ b'c' ∷ b't'
    ∷ b'_' ∷ b's' ∷ b't' ∷ b'o' ∷ b'r' ∷ b'e' ∷ b'_' ∷ b'c' ∷ b'a' ∷ b'c' ∷ b'h' ∷ b'e' ∷ b'.'
    ∷ b'e' ∷ b'v' ∷ b'i' ∷ b'c' ∷ b't' ∷ b'e' ∷ b'd' ∷ b'_' ∷ b'b' ∷ b'y' ∷ b't' ∷ b'e' ∷ b's' ∷ []

abbrev entry_kind : Bytes
entry_kind = b'e' ∷ b'n' ∷ b't' ∷ b'r' ∷ b'y' ∷ b'_' ∷ b'k' ∷ b'i' ∷ b'n' ∷ b'd' ∷ []

abbrev result_label : Bytes
result_label = b'r' ∷ b'e' ∷ b's' ∷ b'u' ∷ b'l' ∷ b't' ∷ []

abbrev hit : Bytes
hit = b'h' ∷ b'i' ∷ b't' ∷ []

abbrev miss : Bytes
miss = b'm' ∷ b'i' ∷ b's' ∷ b's' ∷ []

abbrev data_block : Bytes
data_block = b'd' ∷ b'a' ∷ b't' ∷ b'a' ∷ b'_' ∷ b'b' ∷ b'l' ∷ b'o' ∷ b'c' ∷ b'k' ∷ []

abbrev filter_kind : Bytes
filter_kind = b'f' ∷ b'i' ∷ b'l' ∷ b't' ∷ b'e' ∷ b'r' ∷ []

abbrev index_kind : Bytes
index_kind = b'i' ∷ b'n' ∷ b'd' ∷ b'e' ∷ b'x' ∷ []

abbrev stats_kind : Bytes
stats_kind = b's' ∷ b't' ∷ b'a' ∷ b't' ∷ b's' ∷ []

-- The lookups of one kind of entry, by their result.
accesses : Metrics → Bytes → Bytes → ℕ
unfolding metric_counter
accesses metrics kind result =
    metric_counter metrics db_cache_access_count ((entry_kind, kind) ∷ (result_label, result) ∷ [])

-- `Iterator::sum` of u64 values, in a release build.
metadata_accesses : Metrics → Bytes → ℕ
unfolding accesses metric_counter
metadata_accesses metrics result = wrap (
    accesses metrics filter_kind result
    + accesses metrics index_kind result
    + accesses metrics stats_kind result)

unfoldable pub cache_stats : Metrics → CacheStats
unfolding accesses metadata_accesses metric_counter metric_gauge
cache_stats metrics =
    let persistent_hits = metric_counter metrics persistent_hit_count [] in
    let persistent_accesses = metric_counter metrics persistent_access_count [] in
    record {
      block_cache_hits = accesses metrics data_block hit;
      block_cache_misses = accesses metrics data_block miss;
      metadata_cache_hits = metadata_accesses metrics hit;
      metadata_cache_misses = metadata_accesses metrics miss;
      persistent_cache_hits = persistent_hits;
      persistent_cache_misses = persistent_accesses - persistent_hits;
      persistent_cache_entries = metric_gauge metrics persistent_cache_keys [];
      persistent_cache_size_bytes = metric_gauge metrics persistent_cache_bytes [];
      persistent_cache_evictions = metric_counter metrics persistent_evicted_keys [];
      persistent_cache_evicted_bytes = metric_counter metrics persistent_evicted_bytes [];
    }
