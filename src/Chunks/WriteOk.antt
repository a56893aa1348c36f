-- ===== src/Chunks/WriteOk.antt =====
-- `write` of rust/src/chunk_manager.rs over a store that answers, and the staged chunks it leaves.
use duckdb_object_storage.Common.{
  ℕ, ◌+◌, ◌≤◌, ◌≡◌, refl, sym, subst, ◌&&◌, inl, inr, Option, none, some, [], ◌∷◌, ◌==◌, length,
  replicate, IsU64, Bool-cases,
}
use duckdb_object_storage.Common.Map
use duckdb_object_storage.Common.Map.{Map}
use duckdb_object_storage.Error.{ok, Result-cases}
use duckdb_object_storage.Keys.{Bytes, chunk_key}
use duckdb_object_storage.Database.{Contents}
use duckdb_object_storage.ChunkStore.{ChunkStore}
use duckdb_object_storage.ChunkStore.Laws.{IsStore}
use duckdb_object_storage.Chunks.{
  ChunkManager, ChunkSlice, PendingChunk, written, deleted, split_into_chunks, chunk_contents,
  read_chunk_from_store, or_default,
}
use duckdb_object_storage.Chunks.Ops.{
  Slices, overwrite, stage, chunk_before_write, write_loop, write,
}
use duckdb_object_storage.Chunks.Locate.{IsValid, chunk_of-IsU64}
use duckdb_object_storage.Chunks.Split.{Tiles, split_into_chunks-Tiles}
use duckdb_object_storage.Chunks.Write.{SameShape, stage-SameShape}
use duckdb_object_storage.Chunks.Flush.{IsFlushable}

module _ (store : ChunkStore) (contents : Contents) (serves : IsStore store contents) where
  read_chunk_from_store_ok :
      (m : ChunkManager) (i : ℕ) → (chunk : Bytes) × (read_chunk_from_store store m i ≡ ok chunk)
  unfolding read_chunk_from_store
  read_chunk_from_store_ok m i = (
    or_default (contents (chunk_key m.file_id i)),
    rw (serves.get_lem (chunk_key m.file_id i)) refl,
  )

  chunk_contents_ok :
      (m : ChunkManager) (i : ℕ) → (chunk : Bytes) × (chunk_contents store m i ≡ ok chunk)
  unfolding chunk_contents
  chunk_contents_ok m i = by_pending (Map.get i m.pending) refl
    where
      by_pending :
          (o : Option PendingChunk)
          → Map.get i m.pending ≡ o
          → (chunk : Bytes) × (chunk_contents store m i ≡ ok chunk)
      by_pending (some (written chunk)) e = (chunk, rw (e, chunk_contents) refl)
      by_pending (some deleted) e = ([], rw (e, chunk_contents) refl)
      by_pending none e = rw (e, chunk_contents) (read_chunk_from_store_ok m i)

  chunk_before_write_ok :
      (m : ChunkManager) (s : ChunkSlice)
      → (chunk : Bytes) × (chunk_before_write store m s ≡ ok chunk)
  unfolding chunk_before_write
  chunk_before_write_ok m s = elim (Bool-cases ((s.chunk_offset == 0) && (s.len == m.chunk_size))) [
    | inl e ↦ rw e (replicate m.chunk_size 0, refl)
    | inr e ↦ rw e (chunk_contents_ok m s.chunk_idx)
  ]

  write_loop_ok :
      (payload : Bytes) (slices : Slices) (m : ChunkManager)
      → (write_loop store payload slices m).0 ≡ ok tt
  unfolding write_loop
  write_loop_ok payload [] m = refl
  write_loop_ok payload (s ∷ slices) m =
      let (chunk, e) = chunk_before_write_ok m s in
      rw (e, write_loop)
        (write_loop_ok payload slices (stage s.chunk_idx (written (overwrite payload s chunk)) m))

-- Over a store that answers, every write succeeds.
pub write_ok :
    (store : ChunkStore) (contents : Contents) (m : ChunkManager) (payload : Bytes) (offset : ℕ)
    → IsStore store contents
    → (write store payload offset m).0 ≡ ok tt
unfolding write
write_ok store contents m payload offset serves =
    write_loop_ok store contents serves payload (split_into_chunks m (length payload) offset) m

-- What a write keeps of the manager, whatever the store answers.
record Kept (m n : ChunkManager) : Type 0 where
  shape : SameShape m n
  flushable : IsFlushable m → IsFlushable n

stage-Kept :
    (m n : ChunkManager) (i : ℕ) (chunk : PendingChunk)
    → IsU64 i
    → Kept m n
    → Kept m (stage i chunk n)
stage-Kept m n i chunk u k = record {
  shape = stage-SameShape m n i chunk k.shape;
  flushable = λ f. record {
    is_u64 = (k.flushable f).is_u64;
    sorted = Map.insert-IsSorted i chunk n.pending (k.flushable f).sorted;
    indices = Map.insert-IsBounded i chunk n.pending u (k.flushable f).indices;
  };
}

write_loop-Kept :
    (store : ChunkStore) (m : ChunkManager)
    → IsValid m
    → (payload : Bytes) (offset c : ℕ) (slices : Slices) (n : ChunkManager)
    → Tiles m offset (length payload) c slices
    → Kept m n
    → Kept m (write_loop store payload slices n).1
unfolding write_loop
write_loop-Kept store m v payload offset c [] n t k = k
write_loop-Kept store m v payload offset c (s ∷ slices) n (f, t) k =
    elim (Result-cases (chunk_before_write store n s)) [
      | inl (chunk, e) ↦
          rw (e, write_loop)
            (write_loop-Kept store m v payload offset (c + s.len) slices
              (stage s.chunk_idx (written (overwrite payload s chunk)) n) t
              (stage-Kept m n s.chunk_idx (written (overwrite payload s chunk))
                (subst IsU64 (sym f.chunk) (chunk_of-IsU64 m v (offset + c))) k))
      | inr (inl (x, e)) ↦ rw (e, write_loop) k
      | inr (inr e) ↦ rw (e, write_loop) k
    ]

-- A write keeps the file and the geometry of the manager, and its staged chunks in order and at
-- indices that fit, also if it fails.
pub write_keeps :
    (store : ChunkStore) (m : ChunkManager) (payload : Bytes) (offset : ℕ)
    → IsValid m
    → IsFlushable m
    → offset + length payload ≤ 18446744073709551616
    → SameShape m (write store payload offset m).1 × IsFlushable (write store payload offset m).1
unfolding write
write_keeps store m payload offset v f room =
    let start : Kept m m = record {
      shape = record {
        same_file = refl;
        same_size = refl;
        same_base = refl;
        same_places = λ p. refl;
      };
      flushable = λ f. f;
    } in
    let k =
      write_loop-Kept store m v payload offset 0 (split_into_chunks m (length payload) offset) m
        (split_into_chunks-Tiles m (length payload) offset v room) start in
    (k.shape, k.flushable f)
