-- ===== src/Tests/SystemExamples.antt =====
-- The theorems on the filesystem, the C ABI and the counters, at concrete inputs: a SlateDB whose world
-- is the number of databases that have been built.
use duckdb_object_storage.Common.{
  ap, inl, inr, length, length-append, ℕ, ◌+◌, ◌-◌, ◌*◌, ◌/◌, ◌≡◌, ◌≢◌, refl, true, false, Option,
  some, none, List, [], ◌∷◌, ◌++◌, arith, All,
}
use duckdb_object_storage.Error.{
  Error, Result, ok, err, panic, argument_error, not_found_error, DbErrorKind,
}
use duckdb_object_storage.Keys.{Bytes}
use duckdb_object_storage.Keys.Order.{bytes_eq, starts_with}
use duckdb_object_storage.Database.{DbReadOps}
use duckdb_object_storage.Flags
use duckdb_object_storage.Cache.{CacheLibrary, default_config}
use duckdb_object_storage.IoMetrics.{FloatOps, IoMetrics, no_requests, snapshot_stats}
use duckdb_object_storage.IoMetrics.Counts.{record_all, record_all_counts}
use duckdb_object_storage.IoMetricsLayer.{new_transfer, writer_record_once}
use duckdb_object_storage.IoMetricsLayer.Once.{
  WriterCall, WroteOnce, writer_calls, writer_recorded_once,
}
use duckdb_object_storage.Handle.{SlateFileClient, SlateFileHandle}
use duckdb_object_storage.FileSystem.{
  Backend, SlateDbClient, no_client, SlateDbFileSystem, DbError, is_missing, missing_message,
  contains, write_db, read_client, close, open_file, file_exists, remove_file, move_file, reads_of,
  put_client, ensure_open, client_for_group, writer_of, add_writer, open_writer, set_client,
  close_cache_of, close_clients, close_all, close_step, keep_first,
}
use duckdb_object_storage.FileSystem.Paths.{
  slatedb_path, database_group, database_companion_suffixes, is_database, ends_with, group_among,
  group_without, strip_suffix,
}
use duckdb_object_storage.FileSystem.Naming.{slatedb_path-apart, IsCompanion, database_group_shared}
use duckdb_object_storage.Ffi.Config.{FfiCacheConfig, parse_cache_config}
use duckdb_object_storage.Ffi.Accepts.{Decides, IsCacheConfig, configured, parse_cache_config_lem}
use duckdb_object_storage.FileSystem.Clients.{write_db_missing, write_db_reused}
use duckdb_object_storage.FileSystem.Closing.{close_lem}
use duckdb_object_storage.FileSystem.Reads.{reads_of_lem}
use duckdb_object_storage.Ffi.{FfiFileHandle}
use duckdb_object_storage.Ffi.Files.{with_exclusive_file_handle, run_locked, locked, release}
use duckdb_object_storage.Ffi.Poison.{Refuses, poisoned_lem}
use duckdb_object_storage.Tests.LogDb.{read_log, log_db}
use duckdb_object_storage.Tests.Inputs.{codec, new_file}

-- Whole numbers for the floating-point ones.
abbrev whole : FloatOps
whole = record {
  Float = ℕ;
  Duration = ℕ;
  zero_float = 0;
  add_float = λ a b. a + b;
  sub_float = λ a b. a - b;
  mul_float = λ a b. a * b;
  div_float = λ a b. a / b;
  max_float = λ a b. a;
  sqrt_float = λ a. a;
  from_u64 = λ n. n;
  as_secs_f64 = λ d. d;
  from_secs_f64 = λ x. x;
}

abbrev requests : List (ℕ × ℕ)
requests = (2, 10) ∷ (4, 20) ∷ []

record_all_counts_example :
    ((snapshot_stats whole (record_all whole requests (no_requests whole))).request_count ≡ 2)
    × ((snapshot_stats whole (record_all whole requests (no_requests whole))).bytes ≡ 30)
record_all_counts_example =
    record_all_counts whole requests (no_requests whole) (omega arith) (omega arith)

abbrev metrics : IoMetrics whole
metrics = record {
  read = no_requests whole;
  write = no_requests whole;
  stat = no_requests whole;
  delete = no_requests whole;
  list = no_requests whole;
}

-- Two writes, one of which fails, a copy, a close that fails, and a second close.
abbrev calls : List (WriterCall whole Error)
calls =
    WriterCall.writes 10 (ok tt)
    ∷ WriterCall.writes 20 (err argument_error)
    ∷ WriterCall.copies (ok tt)
    ∷ WriterCall.closes 5 (err argument_error)
    ∷ WriterCall.closes 6 (ok tt)
    ∷ []

writer_recorded_once_example :
    WroteOnce whole 5 10 metrics
      (writer_record_once whole 9 (writer_calls whole calls (new_transfer, metrics))).1
writer_recorded_once_example =
    writer_recorded_once whole 9 calls metrics (omega arith) (omega arith)

abbrev library : CacheLibrary
library = record {
  default_block_cache_capacity = 64;
  default_meta_cache_capacity = 32;
  default_options = record {
    root_folder = none;
    max_cache_size_bytes = none;
    part_size_bytes = 4194304;
    cache_on_flush = false;
    cache_on_compaction = false;
  };
  default_shards = 4;
  FoyerCache = ℕ;
  DbCache = ℕ;
  new_with_opts = λ capacity shards. capacity;
  split_cache = λ block metadata. 1;
}

abbrev missing : DbError
missing = record { kind = DbErrorKind.bad_data; message = missing_message }

-- A store without any database, on which a writer is built with a number of its own.
abbrev backend : Backend
backend = record {
  lib = library;
  World = ℕ;
  Db = ℕ;
  DbReader = ℕ;
  Txn = List (Bytes × Option Bytes);
  build_writer = λ path options cache w. (ok w, w + 1);
  build_reader = λ path options cache w. (err missing, w);
  read_db = λ db w. read_log [];
  read_reader = λ reader w. read_log [];
  begin = λ db w. ok [];
  read_txn = read_log;
  put_txn = λ k v t. ok ((k, some v) ∷ t);
  delete_txn = λ k t. ok ((k, none) ∷ t);
  commit = λ db t w. (ok tt, w);
  close_db = λ db w. (ok tt, w);
  close_reader = λ reader w. (ok tt, w);
  close_cache = λ cache w. (ok tt, w);
}

-- The paths db and db.wal.
abbrev path : Bytes
path = b'd' ∷ b'b' ∷ []

abbrev companion : Bytes
companion = b'd' ∷ b'b' ∷ b'.' ∷ b'w' ∷ b'a' ∷ b'l' ∷ []

abbrev fs : SlateDbFileSystem backend
fs = record {
  database_path = b'r' ∷ [];
  store_location = b'm' ∷ [];
  cache_config = default_config library;
  db_cache = some 1;
  databases = [];
  closed = false;
}

-- The same with a writer for db.
abbrev fs_open : SlateDbFileSystem backend
fs_open = record {
  database_path = b'r' ∷ [];
  store_location = b'm' ∷ [];
  cache_config = default_config library;
  db_cache = some 1;
  databases = (path, record { read_write = some 0; reader = none }) ∷ [];
  closed = false;
}

-- The groups a/b and a%2Fb.
abbrev nested : Bytes
nested = b'a' ∷ b'/' ∷ b'b' ∷ []

abbrev flat : Bytes
flat = b'a' ∷ b'%' ∷ b'2' ∷ b'F' ∷ b'b' ∷ []

slatedb_path-apart_example : slatedb_path (b'r' ∷ []) nested ≢ slatedb_path (b'r' ∷ []) flat
slatedb_path-apart_example = slatedb_path-apart (b'r' ∷ []) nested flat (λ e. cc)

path_alone : ¬ IsCompanion path
path_alone (base, suffix, named, inl same, e) =
    omega (arith, ap length e, length-append base suffix, ap length same)
path_alone (base, suffix, named, inr (inl same), e) =
    omega (arith, ap length e, length-append base suffix, ap length same)
path_alone (base, suffix, named, inr (inr (inl same)), e) =
    omega (arith, ap length e, length-append base suffix, ap length same)
path_alone (base, suffix, named, inr (inr (inr end)), e) = elim end [ ]

database_group_shared_example :
    (database_group path ≡ path)
    × All
        (λ suffix. database_group (path ++ suffix) ≡ database_group path)
        database_companion_suffixes
unfolding is_database ends_with
database_group_shared_example = database_group_shared path refl path_alone

-- A cache on disk, with parts of a size that is no multiple of 1024.
abbrev cache_input : FfiCacheConfig
cache_input = record {
  block_cache_size_bytes = 64;
  metadata_cache_size_bytes = 32;
  cache_shards = 0;
  persistent_cache_path = some path;
  persistent_cache_size_bytes = 4096;
  persistent_cache_part_size_bytes = 1000;
  persistent_cache_on_flush = 1;
  persistent_cache_on_compaction = 0;
}

parse_cache_config_lem_example :
    Decides
      (IsCacheConfig 64 (λ text. true) cache_input)
      (parse_cache_config 64 (λ text. true) library (some cache_input))
      (configured cache_input)
parse_cache_config_lem_example = parse_cache_config_lem 64 (λ text. true) library cache_input

write_db_missing_example : write_db path false (fs, 3) ≡ (
  err not_found_error,
  (record fs { databases = put_client (database_group path) (no_client backend) [] }, 3),
)
unfolding is_missing contains starts_with
write_db_missing_example = write_db_missing path fs 3 3 missing refl refl refl refl

write_db_opens : write_db {B = backend} path true (fs, 0) ≡ (ok 0, (fs_open, 1))
unfolding write_db ensure_open client_for_group writer_of add_writer open_writer set_client
    database_group group_among group_without strip_suffix is_database ends_with bytes_eq
write_db_opens = refl

companion_eq : database_group companion ≡ database_group path
unfolding database_group group_among group_without strip_suffix is_database ends_with bytes_eq
companion_eq = refl

write_db_reused_example :
    (write_db companion false (fs_open, 1) ≡ (ok 0, (fs_open, 1)))
    × ((client : SlateDbClient backend) × (client.read_write ≡ some 0)
        × (read_client companion (fs_open, 1) ≡ (ok client, (fs_open, 1))))
write_db_reused_example =
    write_db_reused path companion true false fs 0 0 fs_open 1 companion_eq write_db_opens

abbrev fs_closed : SlateDbFileSystem backend
fs_closed = record {
  database_path = b'r' ∷ [];
  store_location = b'm' ∷ [];
  cache_config = default_config library;
  db_cache = none;
  databases = [];
  closed = true;
}

close_closes : close {B = backend} (fs_open, 1) ≡ (ok tt, (fs_closed, 1))
unfolding close close_cache_of close_clients close_all close_step keep_first
close_closes = refl

close_lem_example :
    (close (fs_closed, 1) ≡ (ok tt, (fs_closed, 1)))
    × (open_file codec 7 path Flags.read_only (fs_closed, 1) ≡ (err argument_error, (fs_closed, 1)))
    × (file_exists path (fs_closed, 1) ≡ (err argument_error, (fs_closed, 1)))
    × (remove_file path (fs_closed, 1) ≡ (err argument_error, (fs_closed, 1)))
    × (move_file path companion (fs_closed, 1) ≡ (err argument_error, (fs_closed, 1)))
close_lem_example =
    close_lem codec 7 path companion Flags.read_only fs_open 1 (ok tt) fs_closed 1 (λ e. cc)
      close_closes

abbrev writer_client : SlateDbClient backend
writer_client = record { read_write = some 0; reader = none }

read_client_reuses : read_client {B = backend} path (fs_open, 1) ≡ (ok writer_client, (fs_open, 1))
unfolding read_client ensure_open client_for_group database_group group_among group_without
    strip_suffix is_database ends_with bytes_eq
read_client_reuses = refl

reads_of_lem_example :
    (reads : SlateFileClient × DbReadOps) × (reads_of {B = backend} writer_client 5 ≡ ok reads)
reads_of_lem_example = reads_of_lem path fs_open 1 5 (fs_open, 1) writer_client read_client_reuses

-- A handle whose operation panics.
abbrev open_handle : Option FfiFileHandle
open_handle = some (record { poisoned = false; handle = some new_file })

abbrev broken : Option FfiFileHandle
broken = some (record { poisoned = true; handle = some new_file })

panics : SlateFileHandle → Unit {0} → Result Error ℕ × SlateFileHandle × Unit {0}
panics file w = (panic, file, w)

panics_eq : with_exclusive_file_handle panics open_handle tt ≡ (panic, broken, tt)
unfolding with_exclusive_file_handle run_locked locked release panics
panics_eq = refl

poisoned_lem_example : Refuses codec log_db broken
poisoned_lem_example = poisoned_lem codec log_db panics open_handle broken tt tt panics_eq
