-- ===== src/ChunkStore.antt =====
-- rust/src/chunk_store.rs: the key/value reads that a chunk manager issues, and the two stores that
-- serve them from SlateDB. The store that fails on demand is test code and has no model.
pub mod Laws
use duckdb_object_storage.Common.{ℕ, true, Option, List, [], ◌∷◌, ◌++◌}
use duckdb_object_storage.Error.{
  Error, Result, ok, err, panic, DbErrorKind, from_slatedb, map_err, ◌>>=◌,
}
use duckdb_object_storage.Keys.{Bytes}
use duckdb_object_storage.Database.{KeyValue, DbIterator, DbReadOps, ScanOptions}

-- The trait `ChunkStore`, at one moment.
pub record ChunkStore : Type 0 where
  pub get : Bytes → Result Error (Option Bytes)
  pub scan_inclusive : Bytes → Bytes → ℕ → Result Error (List KeyValue)
  pub keys_with_prefix : Bytes → Result Error (List Bytes)

abbrev scan_max_fetch_tasks : ℕ
scan_max_fetch_tasks = 4

-- `while let Some(kv) = iter.next().await? { pairs.push((kv.key, kv.value)); }`
unfoldable pub collect_pairs : DbIterator → List KeyValue → Result Error (List KeyValue)
collect_pairs [] pairs = ok pairs
collect_pairs (ok kv ∷ iter) pairs = collect_pairs iter (pairs ++ (kv ∷ []))
collect_pairs (err e ∷ iter) pairs = err (from_slatedb e)
collect_pairs (panic ∷ iter) pairs = panic

-- `while let Some(kv) = iter.next().await? { keys.push(kv.key); }`
unfoldable pub collect_keys : DbIterator → List Bytes → Result Error (List Bytes)
collect_keys [] keys = ok keys
collect_keys (ok kv ∷ iter) keys = collect_keys iter (keys ++ (kv.0 ∷ []))
collect_keys (err e ∷ iter) keys = err (from_slatedb e)
collect_keys (panic ∷ iter) keys = panic

abbrev pub scan_options : ℕ → ScanOptions
scan_options read_ahead_bytes = record {
  read_ahead_bytes = read_ahead_bytes;
  max_fetch_tasks = scan_max_fetch_tasks;
  cache_blocks = true;
}

unfoldable pub get : DbReadOps → Bytes → Result Error (Option Bytes)
get db key = map_err from_slatedb (db.get key)

unfoldable pub scan_inclusive : DbReadOps → Bytes → Bytes → ℕ → Result Error (List KeyValue)
scan_inclusive db first last read_ahead_bytes = do
  iter ← map_err from_slatedb (db.scan_with_options first last (scan_options read_ahead_bytes))
  collect_pairs iter []

unfoldable pub keys_with_prefix : DbReadOps → Bytes → Result Error (List Bytes)
keys_with_prefix db prefix = do
  iter ← map_err from_slatedb (db.scan_prefix prefix)
  collect_keys iter []

-- `SlateDbChunkStore`
abbrev pub slatedb_chunk_store : DbReadOps → ChunkStore
slatedb_chunk_store db = record {
  get = get db;
  scan_inclusive = scan_inclusive db;
  keys_with_prefix = keys_with_prefix db;
}

-- `SlateDbReaderChunkStore`, which issues the same calls through a `DbReader`.
abbrev pub slatedb_reader_chunk_store : DbReadOps → ChunkStore
slatedb_reader_chunk_store reader = record {
  get = get reader;
  scan_inclusive = scan_inclusive reader;
  keys_with_prefix = keys_with_prefix reader;
}
