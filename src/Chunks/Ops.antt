-- ===== src/Chunks/Ops.antt =====
-- rust/src/chunk_manager.rs: the operations of a chunk manager. One that changes the manager returns
-- what it left behind also beside an error.
use duckdb_object_storage.Common.{
  ℕ, ◌+◌, ◌-◌, ◌&&◌, Option, none, some, List, [], ◌∷◌, ◌++◌, map, ltb, leb, ◌==◌, if◌then◌else◌,
  length, take, drop, replicate, resize, splice, wrap,
}
use duckdb_object_storage.Common.Map
use duckdb_object_storage.Common.Map.{Map}
use duckdb_object_storage.Error.{Error, Result, ok, err, panic, ◌>>=◌}
use duckdb_object_storage.Keys.{Bytes, chunk_key}
use duckdb_object_storage.Database.{put, delete, WriteBatch}
use duckdb_object_storage.ChunkStore.{ChunkStore}
use duckdb_object_storage.Chunks.{
  ChunkManager, ChunkSlice, PendingChunk, written, deleted, split_into_chunks, copy_chunk_into,
  chunk_contents, read_chunk_from_store, read_chunks_from_store, collect_persisted_chunk_indices,
}

abbrev pub Slices : Type 0
Slices = List ChunkSlice

-- The first loop of `read`: staged chunks are copied, and slices that are not staged are collected.
unfoldable pub read_pending : ChunkManager → Slices → Bytes → Slices → Result Error (Bytes × Slices)
read_pending m [] buf persisted = ok (buf, persisted)
read_pending m (slice ∷ slices) buf persisted = elim (Map.get slice.chunk_idx m.pending) [
  | some (written chunk) ↦ do
    buf' ← copy_chunk_into buf slice chunk
    read_pending m slices buf' persisted
  | some deleted ↦ read_pending m slices buf persisted
  | none ↦ read_pending m slices buf (persisted ++ (slice ∷ []))
]

-- The last loop of `read`.
unfoldable pub copy_persisted : Map Bytes → Slices → Bytes → Result Error Bytes
copy_persisted chunks [] buf = ok buf
copy_persisted chunks (slice ∷ slices) buf = elim (Map.get slice.chunk_idx chunks) [
  | some chunk ↦ do buf' ← copy_chunk_into buf slice chunk; copy_persisted chunks slices buf'
  | none ↦ copy_persisted chunks slices buf
]

-- The bytes that `chunk` has after `payload` is copied into `slice` of it.
unfoldable pub overwrite : Bytes → ChunkSlice → Bytes → Bytes
overwrite payload slice chunk =
    let required_len = slice.chunk_offset + slice.len in
    let long = if ltb (length chunk) required_len then resize required_len chunk else chunk in
    splice long slice.chunk_offset (take slice.len (drop slice.buf_offset payload))

abbrev pub stage : ℕ → PendingChunk → ChunkManager → ChunkManager
stage chunk_idx chunk m = record m { pending = Map.insert chunk_idx chunk m.pending }

unfoldable pub mark_chunks_deleted : List ℕ → ChunkManager → ChunkManager
mark_chunks_deleted chunk_indices m = record m {
  pending = Map.extend (map (λ (i : ℕ). (i, deleted)) chunk_indices) m.pending;
}

unfoldable pub insert_shortened : ℕ → Option Bytes → Map PendingChunk → Map PendingChunk
insert_shortened last_chunk none kept = kept
insert_shortened last_chunk (some bytes) kept = Map.insert last_chunk (written bytes) kept

-- A persisted last chunk that is too long, shortened.
unfoldable pub shorten : ℕ → Bytes → Option Bytes
shorten last_len chunk = if ltb last_len (length chunk) then some (take last_len chunk) else none

-- The kept pending map, by what it holds for the last chunk.
unfoldable pub cut_last :
    Option PendingChunk → ℕ → ℕ → Option Bytes → Map PendingChunk → Map PendingChunk
unfolding insert_shortened
cut_last (some (written chunk)) last_chunk last_len shortened kept =
    if ltb last_len (length chunk)
    then Map.insert last_chunk (written (take last_len chunk)) kept
    else kept
cut_last (some deleted) last_chunk last_len shortened kept =
    insert_shortened last_chunk shortened kept
cut_last none last_chunk last_len shortened kept = insert_shortened last_chunk shortened kept

-- The pending map with nothing past the last chunk, and the last chunk cut to its new length.
unfoldable pub cut : ℕ → ℕ → Option Bytes → ChunkManager → ChunkManager
cut last_chunk last_len shortened m =
    let kept = Map.retain (λ chunk_idx. leb chunk_idx last_chunk) m.pending in
    record m { pending = cut_last (Map.get last_chunk kept) last_chunk last_len shortened kept }

module _ (store : ChunkStore) where
  -- The buffer after a read that succeeds.
  unfoldable pub read : ChunkManager → Bytes → ℕ → Result Error Bytes
  read m buf offset = do
    let slices = split_into_chunks m (length buf) offset
    (buf', persisted) ← read_pending m slices (replicate (length buf) 0) []
    chunks ← read_chunks_from_store store m (map (λ (s : ChunkSlice). s.chunk_idx) persisted)
    copy_persisted chunks persisted buf'

  -- The chunk that a slice of a write starts from; a whole-chunk write does not fetch it.
  unfoldable pub chunk_before_write : ChunkManager → ChunkSlice → Result Error Bytes
  chunk_before_write m slice =
      if (slice.chunk_offset == 0) && (slice.len == m.chunk_size)
      then ok (replicate m.chunk_size 0)
      else chunk_contents store m slice.chunk_idx

  unfoldable pub write_loop : Bytes → Slices → ChunkManager → Result Error (Unit {0}) × ChunkManager
  write_loop payload [] m = (ok tt, m)
  write_loop payload (slice ∷ slices) m = elim (chunk_before_write m slice) [
    | ok chunk ↦
        write_loop payload slices
          (stage slice.chunk_idx (written (overwrite payload slice chunk)) m)
    | err e ↦ (err e, m)
    | panic ↦ (panic, m)
  ]

  unfoldable pub write : Bytes → ℕ → ChunkManager → Result Error (Unit {0}) × ChunkManager
  write payload offset m = write_loop payload (split_into_chunks m (length payload) offset) m

  unfoldable pub truncate_all : ChunkManager → Result Error (Unit {0}) × ChunkManager
  truncate_all m = elim (collect_persisted_chunk_indices store m 0) [
    | ok chunks_to_delete ↦
        (ok tt, mark_chunks_deleted chunks_to_delete (record m { pending = [] }))
    | err e ↦ (err e, m)
    | panic ↦ (panic, m)
  ]

  -- What `truncate` reads before it changes anything: the shortened last chunk if it is persisted
  -- only and too long, and the persisted chunks past it.
  unfoldable pub truncate_plan : ℕ → ℕ → ChunkManager → Result Error (Option Bytes × List ℕ)
  truncate_plan last_chunk last_len m = do
    shortened ← elim (Map.get last_chunk m.pending) [
      | some pending ↦ ok none
      | none ↦ do chunk ← read_chunk_from_store store m last_chunk; ok (shorten last_len chunk)
    ]
    chunks_to_delete ← collect_persisted_chunk_indices store m (wrap (last_chunk + 1))
    ok (shortened, chunks_to_delete)

  unfoldable pub truncate_at : ℕ → ℕ → ChunkManager → Result Error (Unit {0}) × ChunkManager
  truncate_at last_chunk last_len m = elim (truncate_plan last_chunk last_len m) [
    | ok (shortened, chunks_to_delete) ↦
        (ok tt, mark_chunks_deleted chunks_to_delete (cut last_chunk last_len shortened m))
    | err e ↦ (err e, m)
    | panic ↦ (panic, m)
  ]

  -- `&self.split_into_chunks(1, new_size - 1)[0]`
  unfoldable pub truncate_after :
      List ChunkSlice → ChunkManager → Result Error (Unit {0}) × ChunkManager
  truncate_after [] m = (panic, m)
  truncate_after (last_byte ∷ others) m =
      truncate_at last_byte.chunk_idx (last_byte.chunk_offset + 1) m

  unfoldable pub truncate : ℕ → ChunkManager → Result Error (Unit {0}) × ChunkManager
  truncate new_size m =
      if new_size == 0
      then truncate_all m
      else truncate_after (split_into_chunks m 1 (new_size - 1)) m

unfoldable pub add_ops : ℕ → Map PendingChunk → WriteBatch → WriteBatch
add_ops file_id [] batch = batch
add_ops file_id ((chunk_idx, written chunk) ∷ pending) batch =
    add_ops file_id pending (batch ++ (put (chunk_key file_id chunk_idx) chunk ∷ []))
add_ops file_id ((chunk_idx, deleted) ∷ pending) batch =
    add_ops file_id pending (batch ++ (delete (chunk_key file_id chunk_idx) ∷ []))

unfoldable pub add_pending_to_batch : ChunkManager → WriteBatch → WriteBatch
unfolding add_ops
add_pending_to_batch m batch = add_ops m.file_id m.pending batch

unfoldable pub mark_flushed : ChunkManager → ChunkManager
mark_flushed m = record m { pending = [] }
