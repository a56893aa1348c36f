-- ===== src/Tests/Examples.antt =====
-- Each theorem at a concrete input.
use duckdb_object_storage.Common.{
  ℕ, ◌+◌, ◌-◌, ◌≤◌, ◌<◌, ◌≡◌, ◌≢◌, ◌↔◌, refl, true, false, ◌&&◌, ◌||◌, some, [], ◌∷◌, arith, ltb,
  leb, ◌==◌, if◌then◌else◌, length, byte, IsU64, replicate,
}
use duckdb_object_storage.Common.Map
use duckdb_object_storage.Common.Map.{Map}
use duckdb_object_storage.Error.{ok, err, argument_error, from_slatedb, DbErrorKind}
use duckdb_object_storage.Flags
use duckdb_object_storage.Flags.Laws.{validate_read_only, validate_iff, IsCoherent}
use duckdb_object_storage.Keys.{Bytes, chunk_key, chunk_prefix, metadata_key}
use duckdb_object_storage.Keys.Order.{lex_le, starts_with}
use duckdb_object_storage.Keys.Prefixes.{chunk_key-order, chunk_prefix-chunk_key}
use duckdb_object_storage.Database.{Contents, Serves, Db, apply_batch}
use duckdb_object_storage.ChunkStore.{ChunkStore, keys_with_prefix, slatedb_chunk_store}
use duckdb_object_storage.ChunkStore.Laws.{IsStore, IsStore-IsHonest, slatedb_chunk_store-IsStore}
use duckdb_object_storage.Metadata.{FileMetadata, validated_chunk_size}
use duckdb_object_storage.Chunks
use duckdb_object_storage.Chunks.{
  locate, split_into_chunks, read_chunks_from_store, has_pending_changes,
  collect_persisted_chunk_indices,
}
use duckdb_object_storage.Chunks.Ranges.{
  coalesce_chunk_indices, indices_of, indices_of-coalesce_chunk_indices,
}
use duckdb_object_storage.Chunks.Parse.{parse_chunk_idx, parse_chunk_idx-chunk_key}
use duckdb_object_storage.Chunks.Ops.{add_pending_to_batch, mark_flushed}
use duckdb_object_storage.Chunks.Ops
use duckdb_object_storage.Chunks.Locate.{
  chunk_of, offset_in, room_at, chunk_start, capacity, locate-chunk_start, chunk_start-locate,
}
use duckdb_object_storage.Chunks.Split.{Tiles, split_into_chunks-Tiles}
use duckdb_object_storage.Chunks.View.{byte_at, persisted}
use duckdb_object_storage.Chunks.Fetch.{Listed, read_chunks_from_store_lem}
use duckdb_object_storage.Chunks.ReadBytes.{Shows, read_lem}
use duckdb_object_storage.Chunks.Write.{write_lem}
use duckdb_object_storage.Chunks.TruncateAll.{truncate_lem, truncate_failed}
use duckdb_object_storage.Chunks.Flush.{flush_lem}
use duckdb_object_storage.Handle
use duckdb_object_storage.Handle.{
  SlateFileClient, SlateFileHandle, check_client, pread, pwrite, truncate, sync, sync_batch,
  after_batch, writer, metadata, with_chunk_store_internal,
}
use duckdb_object_storage.Handle.Open.{Opened, open_lem}
use duckdb_object_storage.Handle.Reads.{count, Filled, pread_lem, handle_read_lem}
use duckdb_object_storage.Handle.Writes.{
  Written, pwrite_lem, IsWritable, SucceedsIff, pwrite_iff, Resized, handle_truncate_lem,
}
use duckdb_object_storage.Handle.Sync.{Durable, sync_lem, sync_failed, reopen_lem}
use duckdb_object_storage.Tests.LogDb.{read_log, log_db, log_db-IsDb}
use duckdb_object_storage.Tests.Inputs.{
  stored, store, blank, manager, store-Serves, store-IsStore, manager-IsValid, stored-IsChunked,
  manager-IsFlushable, handle, handle-IsOpen, nothing, empty_store, empty_store-Serves,
  empty_store-IsStore, new_file, new_file-IsFile, payload, written_file, written_file-IsFile, codec,
  codec-IsCodec, log,
}

read_lem_example :
    (buf' : Bytes) × (Ops.read store manager blank 1 ≡ ok buf')
    × (length buf' ≡ length blank)
    × Shows manager stored 1 buf'
unfolding locate Map.get
read_lem_example =
    read_lem store stored manager blank 1 manager-IsValid store-IsStore stored-IsChunked
      (omega arith) (omega arith)

write_lem_example :
    (upto : ℕ) × (upto ≤ length payload)
    × ((Ops.write store payload 2 manager).0 ≡ ok tt → upto ≡ length payload)
    × ((p : ℕ)
        → IsU64 p
        → byte_at (Ops.write store payload 2 manager).1 stored p ≡ (
            if leb 2 p && ltb p (2 + upto) then byte payload (p - 2) else byte_at manager stored p))
write_lem_example =
    write_lem store stored manager payload 2 manager-IsValid
      (IsStore-IsHonest store stored store-IsStore) (omega arith)

truncate_lem_example :
    ((Ops.truncate store 5 manager).0 ≡ ok tt)
    × ((p : ℕ)
        → IsU64 p
        → byte_at (Ops.truncate store 5 manager).1 stored p
          ≡ (if ltb p 5 then byte_at manager stored p else 0))
truncate_lem_example =
    truncate_lem store stored manager 5 manager-IsValid store-IsStore stored-IsChunked (omega arith)

pread_lem_example :
    (buf' : Bytes) × (pread store handle (replicate 10 7) 1
      ≡ ok (buf', count handle (replicate 10 7) 1))
    × Filled handle stored (replicate 10 7) 1 buf'
unfolding locate Map.get
pread_lem_example =
    pread_lem store stored handle (replicate 10 7) 1 store-IsStore handle-IsOpen (λ h. omega arith)

handle_read_lem_example :
    (buf' : Bytes) × (Handle.read store handle (replicate 4 7) ≡ (
      ok (buf', count handle (replicate 4 7) 1),
      record handle { position = 1 + count handle (replicate 4 7) 1 },
    ))
    × Filled handle stored (replicate 4 7) 1 buf'
unfolding locate Map.get
handle_read_lem_example =
    handle_read_lem store stored handle (replicate 4 7) store-IsStore handle-IsOpen
      (λ h. omega arith)

pwrite_lem_example :
    ((pwrite empty_store 7 payload 1 new_file).0 ≡ ok tt)
    × Written new_file nothing payload 1 (pwrite empty_store 7 payload 1 new_file).1
pwrite_lem_example =
    pwrite_lem empty_store nothing 7 new_file payload 1 empty_store-IsStore new_file-IsFile refl
      (omega arith) (omega arith)

pwrite_iff_example :
    SucceedsIff
      (IsWritable new_file payload 18446744073709551615)
      argument_error
      new_file
      (pwrite empty_store 7 payload 18446744073709551615 new_file)
pwrite_iff_example =
    pwrite_iff empty_store nothing 7 new_file payload 18446744073709551615 empty_store-IsStore

handle_truncate_lem_example :
    ((truncate empty_store 8 3 written_file).0 ≡ ok tt)
    × Resized written_file nothing 3 (truncate empty_store 8 3 written_file).1
handle_truncate_lem_example =
    handle_truncate_lem empty_store nothing 8 3 written_file empty_store-IsStore written_file-IsFile
      refl (omega arith)

sync_lem_example :
    (after : Contents) × ((sync codec log_db written_file []).0 ≡ ok tt)
    × Serves (read_log (sync codec log_db written_file []).2) after
    × Durable codec written_file nothing after (sync codec log_db written_file []).1
unfolding has_pending_changes Map.is_empty
sync_lem_example =
    sync_lem codec log_db [] nothing written_file log_db-IsDb empty_store-Serves written_file-IsFile
      refl refl refl refl

abbrev failing_db : Db
failing_db = record {
  State = Unit {0};
  read = λ s. read_log [];
  write = λ batch s. (err DbErrorKind.unavailable, s);
  flush = λ s. (ok tt, s);
}

sync_failed_example : (sync codec failing_db written_file tt).1 ≡ written_file
unfolding sync after_batch has_pending_changes Map.is_empty from_slatedb writer
sync_failed_example = sync_failed codec failing_db tt written_file (λ e. cc)

flush_lem_example :
    ((p : ℕ)
      → byte_at (mark_flushed manager) (apply_batch (add_pending_to_batch manager []) stored) p
        ≡ byte_at manager stored p)
    × ((g j : ℕ)
        → IsU64 g
        → IsU64 j
        → g ≢ 5
        → apply_batch (add_pending_to_batch manager []) stored (chunk_key g j)
          ≡ stored (chunk_key g j))
flush_lem_example = flush_lem manager stored manager-IsValid manager-IsFlushable

abbrev failing_store : ChunkStore
failing_store = slatedb_chunk_store (record {
  get = λ k. err DbErrorKind.unavailable;
  scan_with_options = λ first last options. err DbErrorKind.unavailable;
  scan_prefix = λ prefix. err DbErrorKind.unavailable;
})

truncate_failed_example : (Ops.truncate failing_store 0 manager).1 ≡ manager
unfolding Ops.truncate Ops.truncate_all collect_persisted_chunk_indices keys_with_prefix
    from_slatedb
truncate_failed_example = truncate_failed failing_store manager 0 (λ e. cc)

split_into_chunks-Tiles_example : Tiles manager 1 12 0 (split_into_chunks manager 12 1)
split_into_chunks-Tiles_example = split_into_chunks-Tiles manager 12 1 manager-IsValid (omega arith)

read_chunks_from_store_lem_example :
    (chunks : Map Bytes) × (read_chunks_from_store store manager (0 ∷ 1 ∷ 2 ∷ 5 ∷ []) ≡ ok chunks)
    × ((i : ℕ) → Listed i (0 ∷ 1 ∷ 2 ∷ 5 ∷ []) → Map.get i chunks ≡ persisted manager stored i)
read_chunks_from_store_lem_example =
    read_chunks_from_store_lem manager stored stored-IsChunked store store-IsStore
      (0 ∷ 1 ∷ 2 ∷ 5 ∷ []) (omega arith, (omega arith, (omega arith, (omega arith, tt))))

indices_of-coalesce_chunk_indices_example :
    indices_of (coalesce_chunk_indices (2 ∷ 3 ∷ 4 ∷ 9 ∷ 11 ∷ 12 ∷ []))
    ≡ 2 ∷ 3 ∷ 4 ∷ 9 ∷ 11 ∷ 12 ∷ []
indices_of-coalesce_chunk_indices_example =
    indices_of-coalesce_chunk_indices (2 ∷ 3 ∷ 4 ∷ 9 ∷ 11 ∷ 12 ∷ [])

locate-chunk_start_example :
    (chunk_of manager (chunk_start manager 2 + 5) ≡ 2)
    × (offset_in manager (chunk_start manager 2 + 5) ≡ 5)
unfolding capacity chunk_start
locate-chunk_start_example =
    locate-chunk_start manager 2 5 manager-IsValid (omega arith) (omega arith)

chunk_start-locate_example :
    (chunk_start manager (chunk_of manager 14) + offset_in manager 14 ≡ 14)
    × (offset_in manager 14 + room_at manager 14 ≡ capacity manager (chunk_of manager 14))
    × (0 < room_at manager 14)
chunk_start-locate_example = chunk_start-locate manager 14 manager-IsValid (omega arith)

parse_chunk_idx-chunk_key_example : parse_chunk_idx (chunk_key 5 300) ≡ ok 300
parse_chunk_idx-chunk_key_example = parse_chunk_idx-chunk_key 5 300 (omega arith) (omega arith)

chunk_key-order_example :
    lex_le (chunk_key 5 16) (chunk_key 5 9) ≡ (ltb 5 5 || ((5 == 5) && leb 16 9))
chunk_key-order_example =
    chunk_key-order 5 5 16 9 (omega arith) (omega arith) (omega arith) (omega arith)

chunk_prefix-chunk_key_example : starts_with (chunk_prefix 5) (chunk_key 80 3) ≡ (5 == 80)
chunk_prefix-chunk_key_example = chunk_prefix-chunk_key 5 80 3 (omega arith) (omega arith)

slatedb_chunk_store-IsStore_example : IsStore (slatedb_chunk_store (read_log log)) stored
slatedb_chunk_store-IsStore_example = slatedb_chunk_store-IsStore (read_log log) stored store-Serves

validate_read_only_example :
    (Flags.read_only.read ≡ true)
    × (Flags.read_only.create ≡ false)
    × (Flags.read_only.append ≡ false)
    × (Flags.read_only.truncate_existing ≡ false)
unfolding Flags.validate
validate_read_only_example = validate_read_only Flags.read_only refl refl

validate_iff_example : (Flags.validate Flags.append ≡ ok tt) ↔ IsCoherent Flags.append
validate_iff_example = validate_iff Flags.append

-- What a sync of the written file leaves behind.
synced :
    (after : Contents) × ((sync codec log_db written_file []).0 ≡ ok tt)
    × Serves (read_log (sync codec log_db written_file []).2) after
    × Durable codec written_file nothing after (sync codec log_db written_file []).1
unfolding has_pending_changes Map.is_empty
synced =
    sync_lem codec log_db [] nothing written_file log_db-IsDb empty_store-Serves written_file-IsFile
      refl refl refl refl

reopen_lem_example :
    (md : FileMetadata) × (bytes : Bytes) × (opened : SlateFileHandle) × (synced.0 (metadata_key 5)
      ≡ some bytes)
    × (codec.decode_from_bytes bytes ≡ ok md)
    × (with_chunk_store_internal SlateFileClient.read_only 5 md Flags.read_only ≡ ok opened)
    × (opened.size ≡ 7)
    × ((p : ℕ) → byte_at opened.chunks synced.0 p ≡ byte_at written_file.chunks nothing p)
unfolding Flags.validate check_client Flags.ensure_readable
reopen_lem_example =
    reopen_lem codec written_file nothing synced.0 (sync codec log_db written_file []).1
      codec-IsCodec written_file-IsFile refl synced.3 SlateFileClient.read_only Flags.read_only refl
      refl

abbrev metadata_record : FileMetadata
metadata_record = record { size = 9; modified_at_ms = 4; chunk_size = 8; chunk_base_offset = 3 }

abbrev appending : SlateFileHandle
appending = record {
  client = SlateFileClient.read_write;
  file_id = 5;
  position = 9;
  size = 9;
  modified_at_ms = 4;
  chunks = record { file_id = 5; chunk_size = 8; chunk_base_offset = 3; pending = [] };
  metadata_dirty = false;
  flags = Flags.append;
}

open_lem_example : Opened SlateFileClient.read_write 5 metadata_record Flags.append appending
unfolding with_chunk_store_internal Flags.validate check_client validated_chunk_size Chunks.new
open_lem_example = open_lem SlateFileClient.read_write 5 metadata_record Flags.append appending refl
