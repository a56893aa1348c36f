-- ===== src/Handle/Sync.antt =====
-- `sync` of rust/src/file_handle.rs, and the handle that is opened after it.
use duckdb_object_storage.Common.{
  ℕ, ◌≡◌, ◌≢◌, refl, ap, ◌∙◌, sym, false, not, ◌&&◌, inl, inr, Option, some, [], arith,
  if◌then◌else◌, IsU64, Bool-cases,
}
use duckdb_object_storage.Common.Map
use duckdb_object_storage.Error.{DbErrorKind, Result, ok, err, panic, Result-cases}
use duckdb_object_storage.Flags.{FileOpenFlags, validate}
use duckdb_object_storage.Keys.{Bytes, chunk_key, metadata_key}
use duckdb_object_storage.Keys.Order.{bytes_eq, bytes_eq_refl}
use duckdb_object_storage.Database.{Contents, Serves, Db, IsDb, put, apply_op, apply_batch}
use duckdb_object_storage.Metadata.{FileMetadata, Codec, IsCodec, validated_chunk_size}
use duckdb_object_storage.Chunks.{ChunkManager, has_pending_changes, new}
use duckdb_object_storage.Chunks.Ops.{add_pending_to_batch, mark_flushed}
use duckdb_object_storage.Chunks.Locate.{IsValid, chunk_of, offset_in}
use duckdb_object_storage.Chunks.View.{byte_in, byte_at}
use duckdb_object_storage.Chunks.Flush.{apply_last, flush_lem}
use duckdb_object_storage.Handle.{
  SlateFileClient, SlateFileHandle, writer, check_client, with_chunk_store_internal, metadata,
  sync_batch, after_flush, after_batch, sync,
}
use duckdb_object_storage.Handle.Writes.{IsFile}

module _ (codec : Codec) (h : SlateFileHandle) (contents : Contents) where
  -- The metadata record is no chunk.
  batch_chunks :
      (g j : ℕ)
      → apply_batch (sync_batch codec h) contents (chunk_key g j)
        ≡ apply_batch (add_pending_to_batch h.chunks []) contents (chunk_key g j)
  unfolding sync_batch apply_op chunk_key metadata_key bytes_eq
  batch_chunks g j =
      apply_last (add_pending_to_batch h.chunks [])
        (put (metadata_key h.file_id) (codec.encode_to_bytes (metadata h))) contents (chunk_key g j)

  batch_metadata :
      apply_batch (sync_batch codec h) contents (metadata_key h.file_id)
      ≡ some (codec.encode_to_bytes (metadata h))
  unfolding sync_batch apply_op
  batch_metadata =
      apply_last (add_pending_to_batch h.chunks [])
        (put (metadata_key h.file_id) (codec.encode_to_bytes (metadata h))) contents
        (metadata_key h.file_id)
      ∙ rw (bytes_eq_refl (metadata_key h.file_id)) refl

  batch_bytes :
      (p : ℕ)
      → byte_at (mark_flushed h.chunks) (apply_batch (sync_batch codec h) contents) p
        ≡ byte_at
            (mark_flushed h.chunks)
            (apply_batch (add_pending_to_batch h.chunks []) contents)
            p
  unfolding byte_at mark_flushed Map.get
  batch_bytes p =
      ap (λ (c : Option Bytes). byte_in c (offset_in (mark_flushed h.chunks) p))
        (batch_chunks h.chunks.file_id (chunk_of (mark_flushed h.chunks) p))

-- What a sync that succeeds leaves behind: the database serves contents that hold the metadata record
-- and every byte of the file, and the handle has nothing left to write.
pub record Durable (codec : Codec) (h : SlateFileHandle) (contents after : Contents)
    (h' : SlateFileHandle) : Type 0 where
  pub cleaned : h' ≡ record h { chunks = mark_flushed h.chunks; metadata_dirty = false }
  pub bytes : (p : ℕ) → byte_at h'.chunks after p ≡ byte_at h.chunks contents p
  pub record_lem : after (metadata_key h.file_id) ≡ some (codec.encode_to_bytes (metadata h))
  pub others :
      (g j : ℕ)
      → IsU64 g
      → IsU64 j
      → g ≢ h.chunks.file_id
      → after (chunk_key g j) ≡ contents (chunk_key g j)

after_batch_eq :
    (codec : Codec) (db : Db) (s : db.State) (h : SlateFileHandle)
    → (db.write (sync_batch codec h) s).0 ≡ ok tt
    → (db.flush (db.write (sync_batch codec h) s).1).0 ≡ ok tt
    → after_batch codec db h (db.write (sync_batch codec h) s) ≡ (
      ok tt,
      record h { chunks = mark_flushed h.chunks; metadata_dirty = false },
      (db.flush (db.write (sync_batch codec h) s).1).1,
    )
unfolding after_batch after_flush
after_batch_eq codec db s h wrote flushed = rw (wrote, after_batch) (rw (flushed, after_flush) refl)

sync_eq :
    (codec : Codec) (db : Db) (s : db.State) (h : SlateFileHandle)
    → h.client ≡ SlateFileClient.read_write
    → (not (has_pending_changes h.chunks) && not h.metadata_dirty) ≡ false
    → (db.write (sync_batch codec h) s).0 ≡ ok tt
    → (db.flush (db.write (sync_batch codec h) s).1).0 ≡ ok tt
    → sync codec db h s ≡ (
      ok tt,
      record h { chunks = mark_flushed h.chunks; metadata_dirty = false },
      (db.flush (db.write (sync_batch codec h) s).1).1,
    )
unfolding sync writer
sync_eq codec db s h client unsaved wrote flushed =
    let w : writer h.client ≡ ok tt = rw client refl in
    rw unsaved (rw (w, sync) (after_batch_eq codec db s h wrote flushed))

-- A sync of a handle with unsaved changes, through a writable client, succeeds if the one batch and
-- the flush that it asks of the database do. The database then holds, at once, the metadata record
-- and exactly the bytes that the handle showed before; the chunks of other files are as they were.
pub sync_lem :
    (codec : Codec) (db : Db) (s : db.State) (contents : Contents) (h : SlateFileHandle)
    → IsDb db
    → Serves (db.read s) contents
    → IsFile h contents
    → h.client ≡ SlateFileClient.read_write
    → (not (has_pending_changes h.chunks) && not h.metadata_dirty) ≡ false
    → (db.write (sync_batch codec h) s).0 ≡ ok tt
    → (db.flush (db.write (sync_batch codec h) s).1).0 ≡ ok tt
    → (after : Contents) × ((sync codec db h s).0 ≡ ok tt)
      × Serves (db.read (sync codec db h s).2) after
      × Durable codec h contents after (sync codec db h s).1
sync_lem codec db s contents h laws serves f client unsaved wrote flushed =
    let after = apply_batch (sync_batch codec h) contents in
    let flush = flush_lem h.chunks contents f.valid f.flushable in
    let e : sync codec db h s ≡ (
      ok tt,
      record h { chunks = mark_flushed h.chunks; metadata_dirty = false },
      (db.flush (db.write (sync_batch codec h) s).1).1,
    ) =
      sync_eq codec db s h client unsaved wrote flushed in
    rw e (
      after,
      refl,
      laws.flush_lem (db.write (sync_batch codec h) s).1 after
          (laws.write_lem s contents (sync_batch codec h) serves wrote),
      record {
        cleaned = refl;
        bytes = λ p. batch_bytes codec h contents p ∙ flush.0 p;
        record_lem = batch_metadata codec h contents;
        others = λ g j ug uj other. batch_chunks codec h contents g j ∙ flush.1 g j ug uj other;
      },
    )

by_flush :
    (codec : Codec) (db : Db) (h : SlateFileHandle) (r : Result DbErrorKind (Unit {0}) × db.State)
    → (after_flush codec db h r).0 ≢ ok tt
    → (after_flush codec db h r).1 ≡ h
unfolding after_flush
by_flush codec db h (ok x, s) failed = absurd (failed refl)
by_flush codec db h (err x, s) failed = refl
by_flush codec db h (panic, s) failed = refl

by_batch :
    (codec : Codec) (db : Db) (h : SlateFileHandle) (r : Result DbErrorKind (Unit {0}) × db.State)
    → (after_batch codec db h r).0 ≢ ok tt
    → (after_batch codec db h r).1 ≡ h
unfolding after_batch
by_batch codec db h (ok x, s) failed = by_flush codec db h (db.flush s) failed
by_batch codec db h (err x, s) failed = refl
by_batch codec db h (panic, s) failed = refl

-- Whatever the database does, a sync that does not succeed leaves the handle as it was, with every
-- staged chunk and its changed metadata, so that it can be tried again.
pub sync_failed :
    (codec : Codec) (db : Db) (s : db.State) (h : SlateFileHandle)
    → (sync codec db h s).0 ≢ ok tt
    → (sync codec db h s).1 ≡ h
unfolding sync
sync_failed codec db s h failed =
    elim (Bool-cases (not (has_pending_changes h.chunks) && not h.metadata_dirty)) [
      | inl e ↦ rw e refl
      | inr e ↦ elim (Result-cases (writer h.client)) [
        | inl (x, w) ↦ rw e (
            rw (w, sync)
              (by_batch codec db h (db.write (sync_batch codec h) s)
                (rw (w, sync) at (rw e at failed))))
        | inr (inl (x, w)) ↦ rw e (rw (w, sync) refl)
        | inr (inr w) ↦ rw e (rw (w, sync) refl)
      ]
    ]

-- The handle over the metadata of another.
opened : SlateFileClient → FileOpenFlags → SlateFileHandle → SlateFileHandle
opened client flags h = record {
  client = client;
  file_id = h.file_id;
  position = if flags.append then h.size else 0;
  size = h.size;
  modified_at_ms = h.modified_at_ms;
  chunks = new h.file_id h.chunks.chunk_size h.chunks.chunk_base_offset;
  metadata_dirty = false;
  flags = flags;
}

accepted_size :
    (h : SlateFileHandle)
    → IsValid h.chunks
    → validated_chunk_size (metadata h) ≡ ok h.chunks.chunk_size
unfolding validated_chunk_size metadata
accepted_size h v = ground (arith, v.size_pos, v.base_lt_size)

open_eq :
    (client : SlateFileClient) (flags : FileOpenFlags) (h : SlateFileHandle)
    → validate flags ≡ ok tt
    → check_client client flags ≡ ok tt
    → IsValid h.chunks
    → with_chunk_store_internal client h.file_id (metadata h) flags ≡ ok (opened client flags h)
unfolding with_chunk_store_internal metadata opened
open_eq client flags h valid accepted v = rw valid (rw accepted (rw (accepted_size h v) refl))

opened_chunks :
    (client : SlateFileClient) (flags : FileOpenFlags) (h : SlateFileHandle)
    → h.chunks.file_id ≡ h.file_id
    → (opened client flags h).chunks ≡ mark_flushed h.chunks
unfolding opened new mark_flushed
opened_chunks client flags h same_id =
    ap (λ (i : ℕ). new i h.chunks.chunk_size h.chunks.chunk_base_offset) (sym same_id)

-- A handle that is opened over the record that a sync persisted, with any client and flags that the
-- source accepts, has the size that the synced handle had, and shows its bytes.
pub reopen_lem :
    (codec : Codec) (h : SlateFileHandle) (contents after : Contents) (h' : SlateFileHandle)
    → IsCodec codec
    → IsFile h contents
    → h.chunks.file_id ≡ h.file_id
    → Durable codec h contents after h'
    → (client : SlateFileClient) (flags : FileOpenFlags) → validate flags ≡ ok tt
    → check_client client flags ≡ ok tt
    → (md : FileMetadata) × (bytes : Bytes) × (h'' : SlateFileHandle) × (after
          (metadata_key h.file_id)
        ≡ some bytes)
      × (codec.decode_from_bytes bytes ≡ ok md)
      × (with_chunk_store_internal client h.file_id md flags ≡ ok h'')
      × (h''.size ≡ h.size)
      × ((p : ℕ) → byte_at h''.chunks after p ≡ byte_at h.chunks contents p)
reopen_lem codec h contents after h' laws f same_id d client flags valid accepted = (
  metadata h,
  codec.encode_to_bytes (metadata h),
  opened client flags h,
  d.record_lem,
  laws.decode-encode (metadata h),
  open_eq client flags h valid accepted f.valid,
  unfold opened in refl,
  λ p.
      ap (λ (m : ChunkManager). byte_at m after p)
        (opened_chunks client flags h same_id
          ∙ sym (ap (λ (k : SlateFileHandle). k.chunks) d.cleaned))
      ∙ d.bytes p,
)
