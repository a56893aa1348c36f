-- ===== src/Handle.antt =====
-- rust/src/file_handle.rs: a handle over one file, as DuckDB uses it. An operation that changes the
-- handle returns what it left behind also beside an error; one that reads the clock takes its time.
pub mod Reads
pub mod Writes
pub mod Sync
pub mod Open
use duckdb_object_storage.Common.{
  ℕ, zero, ◌+◌, ◌-◌, Bool, true, false, not, ◌&&◌, ◌||◌, Option, none, some, List, [], ◌∷◌, ◌++◌,
  ltb, leb, ◌==◌, if◌then◌else◌, length, take, drop, min, checked_add,
}
use duckdb_object_storage.Error.{
  Error, Result, ok, err, panic, argument_error, read_only_error, DbErrorKind, from_slatedb, ◌>>=◌,
  ◌>>◌,
}
use duckdb_object_storage.Flags.{FileOpenFlags, validate, ensure_readable, ensure_writable}
use duckdb_object_storage.Keys.{Bytes, metadata_key}
use duckdb_object_storage.Database.{DbReadOps, Db, put, WriteBatch}
use duckdb_object_storage.ChunkStore.{ChunkStore, slatedb_chunk_store, slatedb_reader_chunk_store}
use duckdb_object_storage.Metadata.{FileMetadata, Codec, validated_chunk_size}
use duckdb_object_storage.Chunks.{ChunkManager, has_pending_changes}
use duckdb_object_storage.Chunks
use duckdb_object_storage.Chunks.Ops.{add_pending_to_batch, mark_flushed}
use duckdb_object_storage.Chunks.Ops

-- The client by its kind; the database behind it is an argument of the operations that reach it.
pub data SlateFileClient : Type 0 where
  read_write read_only : SlateFileClient

pub record SlateFileHandle : Type 0 where
  pub client : SlateFileClient
  pub file_id : ℕ
  pub position : ℕ
  pub size : ℕ
  pub modified_at_ms : ℕ
  pub chunks : ChunkManager
  pub metadata_dirty : Bool
  pub flags : FileOpenFlags

-- `SlateFileClient::chunk_store`
unfoldable pub chunk_store : SlateFileClient → DbReadOps → ChunkStore
chunk_store SlateFileClient.read_write db = slatedb_chunk_store db
chunk_store SlateFileClient.read_only reader = slatedb_reader_chunk_store reader

-- `SlateFileClient::writer`; the database that it gives is an argument of its callers.
unfoldable pub writer : SlateFileClient → Result Error (Unit {0})
writer SlateFileClient.read_write = ok tt
writer SlateFileClient.read_only = err read_only_error

-- What a read-only client asks of the flags.
unfoldable pub check_client : SlateFileClient → FileOpenFlags → Result Error (Unit {0})
check_client SlateFileClient.read_write flags = ok tt
check_client SlateFileClient.read_only flags =
    ensure_readable flags >> (if flags.write then err read_only_error else ok tt)

-- `SlateFileHandle::with_chunk_store_internal`, which `new` calls.
unfoldable pub with_chunk_store_internal :
    SlateFileClient → ℕ → FileMetadata → FileOpenFlags → Result Error SlateFileHandle
with_chunk_store_internal client file_id metadata flags = do
  _ ← validate flags
  _ ← check_client client flags
  chunk_size ← validated_chunk_size metadata
  let position = if flags.append then metadata.size else 0
  ok (record {
    client = client;
    file_id = file_id;
    position = position;
    size = metadata.size;
    modified_at_ms = metadata.modified_at_ms;
    chunks = Chunks.new file_id chunk_size metadata.chunk_base_offset;
    metadata_dirty = false;
    flags = flags;
  })

unfoldable pub set_metadata_dirty : ℕ → SlateFileHandle → SlateFileHandle
set_metadata_dirty now h = record h { modified_at_ms = now; metadata_dirty = true }

-- The record that a sync persists.
unfoldable pub metadata : SlateFileHandle → FileMetadata
metadata h = record {
  size = h.size;
  modified_at_ms = h.modified_at_ms;
  chunk_size = h.chunks.chunk_size;
  chunk_base_offset = h.chunks.chunk_base_offset;
}

unfoldable pub seek : ℕ → SlateFileHandle → SlateFileHandle
seek position h = record h { position = position }

unfoldable pub reset : SlateFileHandle → SlateFileHandle
reset h = record h { position = 0 }

module _ (store : ChunkStore) where
  -- The buffer and the count after a read that succeeds; a failed read leaves the buffer undefined.
  unfoldable pub pread : SlateFileHandle → Bytes → ℕ → Result Error (Bytes × ℕ)
  pread h buf offset =
      ensure_readable h.flags
      >> (if (length buf == 0) || leb h.size offset then ok (buf, 0) else do
        let bytes_to_read = min (h.size - offset) (length buf)
        buf' ← Ops.read store h.chunks (take bytes_to_read buf) offset
        ok (buf' ++ drop bytes_to_read buf, bytes_to_read))

  -- A read at the position.
  unfoldable pub read : SlateFileHandle → Bytes → Result Error (Bytes × ℕ) × SlateFileHandle
  read h buf =
      let available = min (h.size - h.position) (length buf) in
      if available == 0 then (ok (buf, 0), h) else elim (pread h (take available buf) h.position) [
        | ok (buf', bytes_read) ↦ (
          ok (buf' ++ drop available buf, bytes_read),
          record h { position = h.position + bytes_read },
        )
        | err e ↦ (err e, h)
        | panic ↦ (panic, h)
      ]

  -- The end of `pwrite`, after the chunks are written.
  unfoldable pub after_write :
      ℕ
      → ℕ
      → Result Error (Unit {0}) × ChunkManager
      → SlateFileHandle
      → Result Error (Unit {0}) × SlateFileHandle
  after_write now end_offset (ok _, chunks) h =
      let size = if ltb h.size end_offset then end_offset else h.size in
      (ok tt, set_metadata_dirty now (record h { chunks = chunks; size = size }))
  after_write now end_offset (err e, chunks) h = (err e, record h { chunks = chunks })
  after_write now end_offset (panic, chunks) h = (panic, record h { chunks = chunks })

  unfoldable pub pwrite_checked :
      ℕ → Bytes → ℕ → SlateFileHandle → Result Error (Unit {0}) × SlateFileHandle
  pwrite_checked now payload offset h = elim (checked_add offset (length payload)) [
    | some end_offset ↦ after_write now end_offset (Ops.write store payload offset h.chunks) h
    | none ↦ (err argument_error, h)
  ]

  unfoldable pub pwrite :
      ℕ → Bytes → ℕ → SlateFileHandle → Result Error (Unit {0}) × SlateFileHandle
  pwrite now payload offset h = elim (ensure_writable h.flags) [
    | ok _ ↦ if length payload == 0 then (ok tt, h) else pwrite_checked now payload offset h
    | err e ↦ (err e, h)
    | panic ↦ (panic, h)
  ]

  -- The end of `write`, after its `pwrite`.
  unfoldable pub advance :
      Bytes → ℕ → Result Error (Unit {0}) × SlateFileHandle → Result Error ℕ × SlateFileHandle
  advance payload offset (ok _, h) = elim (checked_add offset (length payload)) [
    | some position ↦ (ok (length payload), record h { position = position })
    | none ↦ (err argument_error, h)
  ]
  advance payload offset (err e, h) = (err e, h)
  advance payload offset (panic, h) = (panic, h)

  -- A write at the position, or at the end of the file.
  unfoldable pub write : ℕ → Bytes → SlateFileHandle → Result Error ℕ × SlateFileHandle
  write now payload h =
      let offset = if h.flags.append then h.size else h.position in
      advance payload offset (pwrite now payload offset h)

  -- The end of `truncate`, after the chunks are cut.
  unfoldable pub after_truncate :
      ℕ
      → ℕ
      → Result Error (Unit {0}) × ChunkManager
      → SlateFileHandle
      → Result Error (Unit {0}) × SlateFileHandle
  after_truncate now new_size (ok _, chunks) h =
      (ok tt, set_metadata_dirty now (record h { chunks = chunks; size = new_size }))
  after_truncate now new_size (err e, chunks) h = (err e, record h { chunks = chunks })
  after_truncate now new_size (panic, chunks) h = (panic, record h { chunks = chunks })

  unfoldable pub truncate : ℕ → ℕ → SlateFileHandle → Result Error (Unit {0}) × SlateFileHandle
  truncate now new_size h = elim (ensure_writable h.flags) [
    | ok _ ↦
        if new_size == h.size
        then (ok tt, h)
        else if ltb new_size h.size
        then after_truncate now new_size (Ops.truncate store new_size h.chunks) h
        else after_truncate now new_size (ok tt, h.chunks) h
    | err e ↦ (err e, h)
    | panic ↦ (panic, h)
  ]

-- The one batch of a sync.
unfoldable pub sync_batch : Codec → SlateFileHandle → WriteBatch
sync_batch codec h =
    add_pending_to_batch h.chunks []
    ++ (put (metadata_key h.file_id) (codec.encode_to_bytes (metadata h)) ∷ [])

module _ (codec : Codec) (db : Db) where
  abbrev pub Synced : Type 0
  Synced = Result Error (Unit {0}) × SlateFileHandle × db.State

  unfoldable pub after_flush : SlateFileHandle → Result DbErrorKind (Unit {0}) × db.State → Synced
  after_flush h (ok _, s) =
      (ok tt, record h { chunks = mark_flushed h.chunks; metadata_dirty = false }, s)
  after_flush h (err e, s) = (err (from_slatedb e), h, s)
  after_flush h (panic, s) = (panic, h, s)

  unfoldable pub after_batch : SlateFileHandle → Result DbErrorKind (Unit {0}) × db.State → Synced
  after_batch h (ok _, s) = after_flush h (db.flush s)
  after_batch h (err e, s) = (err (from_slatedb e), h, s)
  after_batch h (panic, s) = (panic, h, s)

  unfoldable pub sync : SlateFileHandle → db.State → Synced
  sync h s =
      if not (has_pending_changes h.chunks) && not h.metadata_dirty
      then (ok tt, h, s)
      else elim (writer h.client) [
        | ok _ ↦ after_batch h (db.write (sync_batch codec h) s)
        | err e ↦ (err e, h, s)
        | panic ↦ (panic, h, s)
      ]

  unfoldable pub close : SlateFileHandle → db.State → Synced
  close h s = sync h s
