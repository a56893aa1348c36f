-- ===== src/Ffi/Config.antt =====
-- rust/src/ffi.rs: the configurations and options that the C side passes.
use duckdb_object_storage.Common.{
  ℕ, ◌^◌, ◌%◌, Bool, not, ◌||◌, Option, none, some, [], ◌∷◌, ltb, ◌==◌, if◌then◌else◌,
}
use duckdb_object_storage.Error.{Error, Result, ok, err, argument_error, ◌>>=◌}
use duckdb_object_storage.Keys.{Bytes}
use duckdb_object_storage.Flags.{FileOpenFlags}
use duckdb_object_storage.Cache.{CacheConfig, CacheLibrary, default_config}
use duckdb_object_storage.FileSystem.{is_some}
use duckdb_object_storage.FileSystem.Storage.{S3StorageConfig}
use duckdb_object_storage.Ffi.{require}

pub record FfiOpenOptions : Type 0 where
  pub read : ℕ
  pub write : ℕ
  pub create : ℕ
  pub append : ℕ
  pub truncate_existing : ℕ

pub record FfiS3Config : Type 0 where
  pub bucket : Option Bytes
  pub root : Option Bytes
  pub endpoint : Option Bytes
  pub region : Option Bytes
  pub key_id : Option Bytes
  pub secret : Option Bytes
  pub session_token : Option Bytes
  pub use_ssl : ℕ
  pub virtual_host_style : ℕ

pub record FfiCacheConfig : Type 0 where
  pub block_cache_size_bytes : ℕ
  pub metadata_cache_size_bytes : ℕ
  pub cache_shards : ℕ
  pub persistent_cache_path : Option Bytes
  pub persistent_cache_size_bytes : ℕ
  pub persistent_cache_part_size_bytes : ℕ
  pub persistent_cache_on_flush : ℕ
  pub persistent_cache_on_compaction : ℕ

pub record FfiRuntimeConfig : Type 0 where
  pub async_threads : ℕ
  pub blocking_threads : ℕ

pub record RuntimeConfig : Type 0 where
  pub async_threads : Option ℕ
  pub blocking_threads : Option ℕ

-- A C integer as a Boolean.
abbrev pub nonzero : ℕ → Bool
nonzero n = not (n == 0)

unfoldable pub require_options : Option FfiOpenOptions → Result Error FileOpenFlags
require_options pointer = do
  options ← require pointer
  ok (record {
    read = nonzero options.read;
    write = nonzero options.write;
    create = nonzero options.create;
    append = nonzero options.append;
    truncate_existing = nonzero options.truncate_existing;
  })

-- The platform, by the number of bits of `usize`.
module _ (usize_bits : ℕ) where
  -- `usize::try_from` of a u64
  unfoldable pub try_from : ℕ → Result Error ℕ
  try_from n = if ltb n (2 ^ usize_bits) then ok n else err argument_error

  unfoldable pub optional_thread_count : ℕ → Result Error (Option ℕ)
  optional_thread_count value =
      if value == 0 then ok none else (do count ← try_from value; ok (some count))

  unfoldable pub parse_runtime_config : Option FfiRuntimeConfig → Result Error RuntimeConfig
  parse_runtime_config none = ok (record { async_threads = none; blocking_threads = none })
  parse_runtime_config (some config) = do
    async_threads ← optional_thread_count config.async_threads
    blocking_threads ← optional_thread_count config.blocking_threads
    ok (record { async_threads = async_threads; blocking_threads = blocking_threads })

module _ (is_utf8 : Bytes → Bool) where
  unfoldable pub require_path : Option Bytes → Result Error Bytes
  require_path none = err argument_error
  require_path (some path) = if is_utf8 path then ok path else err argument_error

  unfoldable pub optional_string : Option Bytes → Result Error (Option Bytes)
  optional_string none = ok none
  optional_string (some []) = if is_utf8 [] then ok none else err argument_error
  optional_string (some (b ∷ value)) =
      if is_utf8 (b ∷ value) then ok (some (b ∷ value)) else err argument_error

  unfoldable pub require_s3_config : Option FfiS3Config → Result Error S3StorageConfig
  require_s3_config pointer = do
    config ← require pointer
    bucket ← require_path config.bucket
    root ← optional_string config.root
    endpoint ← optional_string config.endpoint
    region ← optional_string config.region
    key_id ← optional_string config.key_id
    secret ← optional_string config.secret
    session_token ← optional_string config.session_token
    ok (record {
      bucket = bucket;
      root = root;
      endpoint = endpoint;
      region = region;
      key_id = key_id;
      secret = secret;
      session_token = session_token;
      use_ssl = nonzero config.use_ssl;
      virtual_host_style = nonzero config.virtual_host_style;
    })

-- What a persistent cache asks of its sizes.
unfoldable pub check_persistent : Bool → ℕ → ℕ → Result Error (Unit {0})
check_persistent persistent size part_size =
    if not persistent
    then ok tt
    else if size == 0
    then err argument_error
    else if (part_size == 0) || not (part_size % 1024 == 0)
    then err argument_error
    else ok tt

module _ (usize_bits : ℕ) (is_utf8 : Bytes → Bool) (lib : CacheLibrary) where
  unfoldable pub parse_cache_config : Option FfiCacheConfig → Result Error CacheConfig
  parse_cache_config none = ok (default_config lib)
  parse_cache_config (some config) = do
    persistent_cache_path ← optional_string is_utf8 config.persistent_cache_path
    persistent_cache_size_bytes ← try_from usize_bits config.persistent_cache_size_bytes
    persistent_cache_part_size_bytes ← try_from usize_bits config.persistent_cache_part_size_bytes
    _ ←
        check_persistent (is_some persistent_cache_path) persistent_cache_size_bytes
          persistent_cache_part_size_bytes
    cache_shards ← optional_thread_count usize_bits config.cache_shards
    ok (record {
      block_cache_size_bytes = config.block_cache_size_bytes;
      metadata_cache_size_bytes = config.metadata_cache_size_bytes;
      cache_shards = cache_shards;
      persistent_cache_path = persistent_cache_path;
      persistent_cache_size_bytes = persistent_cache_size_bytes;
      persistent_cache_part_size_bytes = persistent_cache_part_size_bytes;
      persistent_cache_on_flush = nonzero config.persistent_cache_on_flush;
      persistent_cache_on_compaction = nonzero config.persistent_cache_on_compaction;
    })
