-- ===== src/Ffi/Create.antt =====
-- rust/src/ffi.rs: the calls that make a filesystem. The output is a Boolean that says that its pointer
-- is not null, and what a call stores there is part of its result: null unless the call succeeds.
use duckdb_object_storage.Common.{ℕ, Bool, true, false, Option, none, some, [], ◌∷◌}
use duckdb_object_storage.Error.{
  Error, Result, ok, err, argument_error, io_error, IoErrorKind, map_err, ◌>>=◌,
}
use duckdb_object_storage.Keys.{Bytes}
use duckdb_object_storage.FileSystem.{Backend, SlateDbFileSystem}
use duckdb_object_storage.FileSystem.Storage.{
  OpenDal, open_in_memory_with_cache_config, open_local_with_cache_config,
  open_s3_with_cache_config,
}
use duckdb_object_storage.Ffi.{store_error}
use duckdb_object_storage.Ffi.Files.{code_of}
use duckdb_object_storage.Ffi.Calls.{pointer_of}
use duckdb_object_storage.Ffi.Config.{
  FfiS3Config, FfiCacheConfig, FfiRuntimeConfig, RuntimeConfig, require_path, parse_runtime_config,
  parse_cache_config, require_s3_config,
}

-- `DATABASE_PATH`: duckdb-object-storage
abbrev pub database_path : Bytes
database_path =
    b'd' ∷ b'u' ∷ b'c' ∷ b'k' ∷ b'd' ∷ b'b' ∷ b'-' ∷ b'o' ∷ b'b' ∷ b'j' ∷ b'e' ∷ b'c' ∷ b't' ∷ b'-'
    ∷ b's' ∷ b't' ∷ b'o' ∷ b'r' ∷ b'a' ∷ b'g' ∷ b'e' ∷ []

abbrev not_empty : Bytes → Result Error (Unit {0})
not_empty [] = err argument_error
not_empty (b ∷ bytes) = ok tt

-- What a call answers: its code, and what it stores if it has an output.
unfoldable pub created {ℓ} : {A : Type ℓ} → Bool → Result Error A → ℕ × Option (Option A)
created false result = (store_error argument_error, none)
created true result = (code_of result, some (pointer_of result))

unfoldable pub create_runtime :
    (RuntimeConfig → Result IoErrorKind (Unit {0})) → RuntimeConfig → Result Error (Unit {0})
create_runtime new_runtime config = map_err (λ _. io_error) (new_runtime config)

-- How filesystems are made: `new_runtime` is what Tokio builds, and `os_path` the path of a string.
module _ (usize_bits : ℕ) (is_utf8 : Bytes → Bool)
    (new_runtime : RuntimeConfig → Result IoErrorKind (Unit {0})) (dal : OpenDal)
    (os_path : Bytes → dal.OsPath) (B : Backend) where
  unfoldable pub slatedb_fs_create_memory :
      Option FfiCacheConfig
      → Option FfiRuntimeConfig
      → Bool
      → ℕ × Option (Option (SlateDbFileSystem B))
  slatedb_fs_create_memory cache_config runtime_config output = created output (do
    runtime ← parse_runtime_config usize_bits runtime_config
    cache ← parse_cache_config usize_bits is_utf8 B.lib cache_config
    _ ← create_runtime new_runtime runtime
    open_in_memory_with_cache_config dal B database_path cache)

  unfoldable pub slatedb_fs_create_local :
      Option Bytes
      → Option FfiCacheConfig
      → Option FfiRuntimeConfig
      → Bool
      → ℕ × Option (Option (SlateDbFileSystem B))
  slatedb_fs_create_local local_root cache_config runtime_config output = created output (do
    runtime ← parse_runtime_config usize_bits runtime_config
    root ← require_path is_utf8 local_root
    _ ← not_empty root
    cache ← parse_cache_config usize_bits is_utf8 B.lib cache_config
    _ ← create_runtime new_runtime runtime
    open_local_with_cache_config dal B database_path (os_path root) cache)

  unfoldable pub slatedb_fs_create_s3 :
      Option FfiS3Config
      → Option FfiCacheConfig
      → Option FfiRuntimeConfig
      → Bool
      → ℕ × Option (Option (SlateDbFileSystem B))
  slatedb_fs_create_s3 s3_config cache_config runtime_config output = created output (do
    runtime ← parse_runtime_config usize_bits runtime_config
    config ← require_s3_config is_utf8 s3_config
    cache ← parse_cache_config usize_bits is_utf8 B.lib cache_config
    _ ← create_runtime new_runtime runtime
    open_s3_with_cache_config dal B database_path config cache)
