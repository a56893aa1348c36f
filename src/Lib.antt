-- ===== src/Lib.antt =====
-- The storage core of DuckDB object storage: the Rust crate under rust/src, which keeps the files of a
-- DuckDB database as chunks in SlateDB, a key/value store over object storage.
--
-- A file handle (rust/src/file_handle.rs) owns a chunk manager (rust/src/chunk_manager.rs), which
-- splits positions into chunks, stages written and deleted chunks in memory, and reads all others
-- through a chunk store (rust/src/chunk_store.rs) over SlateDB. A sync puts the staged chunks and the
-- metadata record (rust/src/file_metadata.rs) into one batch, under the keys of rust/src/keys.rs.
--
-- A catalog in every database maps paths to file IDs (rust/src/database_metadata.rs). The filesystem
-- (rust/src/fs.rs) keeps one SlateDB client for each database, opens it on first use, and sends every
-- operation on a path to the catalog of its database, which gives it the file ID and the record that a
-- handle is opened with. The C ABI (rust/src/ffi.rs) checks its arguments, calls the filesystem or a
-- handle, and turns every result and panic into a code. Under SlateDB, an OpenDAL layer
-- (rust/src/opendal_io_metrics_layer.rs) counts the requests to the object store.
--
-- The files:
--   Common        shared names, Boolean tests, lists of bytes, u64 and ordered maps, with their lemmas
--   Error         rust/src/error.rs and rust/src/error_struct.rs: Error, code, status, conversions
--   Flags         rust/src/flags.rs: FileOpenFlags with its presets and checks
--   Keys          rust/src/keys.rs: chunk_key, chunk_prefix, metadata_key, and the byte order of keys
--   Database      SlateDB as a parameter, with the laws that it documents
--   ChunkStore    rust/src/chunk_store.rs: the trait ChunkStore and the stores over SlateDB
--   Chunks        rust/src/chunk_manager.rs: the helpers; Chunks/Ops has the operations read, write,
--                 truncate, add_pending_to_batch and mark_flushed; the other children are proofs
--   Metadata      rust/src/file_metadata.rs: FileMetadata, validated_chunk_size
--   Handle        rust/src/file_handle.rs: SlateFileHandle and its operations; the children are proofs
--   Transaction   SlateDB's transactions as a parameter, with the laws that it documents
--   DatabaseMetadata  rust/src/database_metadata.rs: remove_file, move_file, prepare_file_for_open and
--                 what they use; Ids has the eight-byte form of a file ID, the other children are proofs
--   Cache         rust/src/cache.rs: CacheConfig, the caches it builds, and cache_stats
--   IoMetrics     rust/src/io_metrics.rs: RunningStats and IoMetrics
--   IoMetricsLayer  rust/src/opendal_io_metrics_layer.rs: what each call of the layer records
--   ObjectStore   rust/src/slatedb_object_store.rs: get_opts
--   FileSystem    rust/src/fs.rs: SlateDbFileSystem and its operations; Paths has the groups and paths of
--                 databases, Storage the storage operators; the other children are proofs
--   Ffi           rust/src/ffi.rs: ffi_result; Config has the configurations, Create and Calls the calls
--                 on a filesystem, Files those on a file; Accepts and Poison are
--                 proofs
--   Tests         a database kept as a log, and every theorem at a concrete input
--
-- The state of an operation is an argument and a result. One that may fail half way returns the state
-- that it leaves also beside an error. A panic is a result of its own. The text of errors is left out.
-- A read that fails gives no buffer, since the source does not say what is in it then. An await is no
-- step of the model: a handle is used by one task at a time, and the reads that one operation issues
-- concurrently only look at the database. A usize has 64 bits. Sums of positions keep the wrap-around
-- of a u64 where the source does not check them.
--
-- Chunk indices and file IDs are below 2 ^ 64. The one loop with fuel is split_loop: every round covers
-- at least one byte, so that the number of bytes asked for is enough.
--
-- The filesystem and the world behind SlateDB are one state, and its operations run one after the other:
-- each holds the lock of its client while it opens one. A transaction sees no other writer. The clock and
-- the time that a request took are arguments. A pointer of the C ABI is an Option, null as none.
--
-- The wire format of the metadata record is generated by prost and is a parameter, as are SlateDB, OpenDAL,
-- floating-point numbers, the encoding of strings and the Tokio runtime. Not modelled: the text of errors
-- and so last_error_message of the C ABI, the calls that only delegate to OpenDAL's object store, the
-- order in which a hash map lists the databases to close, and the C++ extension over the C ABI.
pub mod Common
pub mod Error
pub mod Flags
pub mod Keys
pub mod Database
pub mod Transaction
pub mod ChunkStore
pub mod Chunks
pub mod Metadata
pub mod Handle
pub mod DatabaseMetadata
pub mod Cache
pub mod IoMetrics
pub mod IoMetricsLayer
pub mod ObjectStore
pub mod FileSystem
pub mod Ffi
pub mod Tests
