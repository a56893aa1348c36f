-- ===== src/Ffi/Calls.antt =====
-- rust/src/ffi.rs: the calls on a filesystem. The pointer to the filesystem is an `Option`, beside the
-- world; an output pointer is a Boolean that says that it is not null, and what a call stores there is
-- part of its result, null or zero unless the call succeeds.
use duckdb_object_storage.Common.{
  ℕ, Bool, true, false, Option, none, some, [], ◌∷◌, ◌++◌, if◌then◌else◌,
}
use duckdb_object_storage.Error.{Error, Result, ok, err, panic, argument_error}
use duckdb_object_storage.Keys.{Bytes}
use duckdb_object_storage.Metadata.{Codec}
use duckdb_object_storage.Cache.{CacheStats}
use duckdb_object_storage.IoMetrics.{FloatOps, IoStats}
use duckdb_object_storage.FileSystem.{
  Backend, SlateDbFileSystem, Fs, ◌>>=◌, pure, open_file, file_exists, remove_file, move_file,
  close,
}
use duckdb_object_storage.FileSystem.Paths.{can_handle, name}
use duckdb_object_storage.Ffi.{FfiFileHandle, store_error}
use duckdb_object_storage.Ffi.Files.{code_of}
use duckdb_object_storage.Ffi.Config.{FfiOpenOptions, require_path, require_options}

-- What is left in an output that is null at first.
abbrev pub pointer_of {ℓ} : {A : Type ℓ} → Result Error A → Option A
pointer_of (ok a) = some a
pointer_of (err e) = none
pointer_of panic = none

-- A Boolean as a C integer.
abbrev pub int_of : Bool → ℕ
int_of true = 1
int_of false = 0

abbrev pub exists_of : Result Error Bool → ℕ
exists_of (ok exists) = int_of exists
exists_of (err e) = 0
exists_of panic = 0

-- The result of a call on a filesystem, which leaves a filesystem and a world.
abbrev pub FsCall {ℓ} : Backend → Type ℓ → Type ℓ
FsCall B A = A × (Option (SlateDbFileSystem B) × B.World)

module _ {B : Backend} where
  -- An operation of the filesystem at a pointer.
  unfoldable pub with_fs {ℓ} :
      {A : Type ℓ}
      → Fs B A
      → Option (SlateDbFileSystem B) × B.World
      → Result Error A × (Option (SlateDbFileSystem B) × B.World)
  with_fs operation (none, w) = (err argument_error, (none, w))
  with_fs operation (some fs, w) = let out = operation (fs, w) in (out.0, (some out.1.0, out.1.1))

  -- `require_fs`
  unfoldable pub require_fs :
      Option (SlateDbFileSystem B) × B.World
      → Result Error (Unit {0}) × (Option (SlateDbFileSystem B) × B.World)
  require_fs (none, w) = (err argument_error, (none, w))
  require_fs (some fs, w) = (ok tt, (some fs, w))

  -- A call that stores what an operation gives, if there is an output to store it in.
  unfoldable pub storing {ℓ κ} :
      {A : Type ℓ} {O : Type κ}
      → (Result Error A → O)
      → Bool
      → (Option (SlateDbFileSystem B) × B.World
          → Result Error A × (Option (SlateDbFileSystem B) × B.World))
      → Option (SlateDbFileSystem B) × B.World
      → FsCall B (ℕ × Option O)
  storing stored false operation s = ((store_error argument_error, none), s)
  storing stored true operation s =
      let out = operation s in ((code_of out.0, some (stored out.0)), out.1)

  module _ (is_utf8 : Bytes → Bool) where
    unfoldable pub slatedb_fs_open_file :
        Codec
        → ℕ
        → Bool
        → Option Bytes
        → Option FfiOpenOptions
        → Option (SlateDbFileSystem B) × B.World
        → FsCall B (ℕ × Option (Option FfiFileHandle))
    slatedb_fs_open_file codec now output path options = storing pointer_of output (do
      _ ← require_fs
      file_path ← pure (require_path is_utf8 path)
      flags ← pure (require_options options)
      file ← with_fs (open_file codec now file_path flags)
      pure (ok (record { poisoned = false; handle = some file })))

    unfoldable pub slatedb_fs_file_exists :
        Bool → Option Bytes → Option (SlateDbFileSystem B) × B.World → FsCall B (ℕ × Option ℕ)
    slatedb_fs_file_exists output path = storing exists_of output (do
      _ ← require_fs
      file_path ← pure (require_path is_utf8 path)
      with_fs (file_exists file_path))

    unfoldable pub slatedb_fs_remove_file :
        Option Bytes → Option (SlateDbFileSystem B) × B.World → FsCall B ℕ
    slatedb_fs_remove_file path s =
        let out : Result Error (Unit {0}) × (Option (SlateDbFileSystem B) × B.World) =
          (require_fs >>= (λ _.
              pure (require_path is_utf8 path) >>= (λ file_path. with_fs (remove_file file_path))))
            s in
        (code_of out.0, out.1)

    unfoldable pub slatedb_fs_move_file :
        Option Bytes → Option Bytes → Option (SlateDbFileSystem B) × B.World → FsCall B ℕ
    slatedb_fs_move_file source target s =
        let out : Result Error (Unit {0}) × (Option (SlateDbFileSystem B) × B.World) =
          (require_fs >>= (λ _. pure (require_path is_utf8 source) >>= (λ source_path.
              pure (require_path is_utf8 target)
              >>= (λ target_path. with_fs (move_file source_path target_path)))))
            s in
        (code_of out.0, out.1)

    unfoldable pub slatedb_fs_can_handle : Option (SlateDbFileSystem B) → Option Bytes → ℕ
    slatedb_fs_can_handle none path = 0
    slatedb_fs_can_handle (some fs) none = 0
    slatedb_fs_can_handle (some fs) (some path) =
        if is_utf8 path then int_of (can_handle path) else 0

  -- `slatedb_fs_destroy`: the filesystem is closed, whatever that gives, and is gone.
  unfoldable pub slatedb_fs_destroy : Option (SlateDbFileSystem B) × B.World → B.World
  slatedb_fs_destroy (none, w) = w
  slatedb_fs_destroy (some fs, w) = (close (fs, w)).1.1

-- `slatedb_fs_name`, with its end.
abbrev pub slatedb_fs_name : Bytes
slatedb_fs_name = name ++ (0 ∷ [])

-- `FfiCacheStats` has the fields of `CacheStats`, and the call copies each.
unfoldable pub slatedb_fs_get_cache_stats : Option CacheStats → Bool → ℕ × Option CacheStats
slatedb_fs_get_cache_stats none output = (store_error argument_error, none)
slatedb_fs_get_cache_stats (some stats) false = (store_error argument_error, none)
slatedb_fs_get_cache_stats (some stats) true = (0, some stats)

-- `Duration::as_secs` and `Duration::subsec_nanos` are parameters, like the floating-point numbers.
module _ (ops : FloatOps) (as_secs subsec_nanos : ops.Duration → ℕ) where
  pub record FfiIoStats : Type 0 where
    pub read_request_count : ℕ
    pub read_average_latency_ms : ops.Float
    pub read_stddev_latency_ms : ops.Float
    pub write_request_count : ℕ
    pub write_average_latency_ms : ops.Float
    pub write_stddev_latency_ms : ops.Float
    pub stat_request_count : ℕ
    pub stat_average_latency_ms : ops.Float
    pub stat_stddev_latency_ms : ops.Float
    pub delete_request_count : ℕ
    pub delete_average_latency_ms : ops.Float
    pub delete_stddev_latency_ms : ops.Float
    pub list_request_count : ℕ
    pub list_average_latency_ms : ops.Float
    pub list_stddev_latency_ms : ops.Float
    pub read_bytes : ℕ
    pub write_bytes : ℕ

  unfoldable pub duration_as_milliseconds : ops.Duration → ops.Float
  duration_as_milliseconds duration =
      ops.add_float (ops.mul_float (ops.from_u64 (as_secs duration)) (ops.from_u64 1000))
        (ops.div_float (ops.from_u64 (subsec_nanos duration)) (ops.from_u64 1000000))

  unfoldable pub ffi_io_stats : IoStats ops → FfiIoStats
  ffi_io_stats stats = record {
    read_request_count = stats.read_stats.request_count;
    read_average_latency_ms = duration_as_milliseconds stats.read_stats.average_latency;
    read_stddev_latency_ms = duration_as_milliseconds stats.read_stats.stddev_latency;
    write_request_count = stats.write_stats.request_count;
    write_average_latency_ms = duration_as_milliseconds stats.write_stats.average_latency;
    write_stddev_latency_ms = duration_as_milliseconds stats.write_stats.stddev_latency;
    stat_request_count = stats.stat_stats.request_count;
    stat_average_latency_ms = duration_as_milliseconds stats.stat_stats.average_latency;
    stat_stddev_latency_ms = duration_as_milliseconds stats.stat_stats.stddev_latency;
    delete_request_count = stats.delete_stats.request_count;
    delete_average_latency_ms = duration_as_milliseconds stats.delete_stats.average_latency;
    delete_stddev_latency_ms = duration_as_milliseconds stats.delete_stats.stddev_latency;
    list_request_count = stats.list_stats.request_count;
    list_average_latency_ms = duration_as_milliseconds stats.list_stats.average_latency;
    list_stddev_latency_ms = duration_as_milliseconds stats.list_stats.stddev_latency;
    read_bytes = stats.read_stats.bytes;
    write_bytes = stats.write_stats.bytes;
  }

  unfoldable pub slatedb_fs_get_io_stats : Option (IoStats ops) → Bool → ℕ × Option FfiIoStats
  slatedb_fs_get_io_stats none output = (store_error argument_error, none)
  slatedb_fs_get_io_stats (some stats) false = (store_error argument_error, none)
  slatedb_fs_get_io_stats (some stats) true = (0, some (ffi_io_stats stats))
