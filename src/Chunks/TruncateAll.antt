-- ===== src/Chunks/TruncateAll.antt =====
-- `truncate` of rust/src/chunk_manager.rs on every new size, and when it fails.
use duckdb_object_storage.Common.{
  ℕ, zero, suc, ◌+◌, ◌-◌, ◌≡◌, ◌≢◌, refl, ap, ◌∙◌, sym, false, inl, inr, Option, none, some, [],
  ◌∷◌, arith, ltb, ◌==◌, if◌then◌else◌, IsU64, Option-cases, Bool-cases,
}
use duckdb_object_storage.Common.Map
use duckdb_object_storage.Error.{ok, Result-cases}
use duckdb_object_storage.Keys.{Bytes}
use duckdb_object_storage.Database.{Contents}
use duckdb_object_storage.ChunkStore.{ChunkStore}
use duckdb_object_storage.ChunkStore.Laws.{IsStore}
use duckdb_object_storage.Chunks.{
  ChunkManager, PendingChunk, deleted, locate, split_into_chunks, collect_persisted_chunk_indices,
}
use duckdb_object_storage.Chunks.Ops.{
  Slices, mark_chunks_deleted, truncate_plan, truncate_at, truncate_after, truncate_all, truncate,
}
use duckdb_object_storage.Chunks.Locate.{IsValid, chunk_of, chunk_of-IsU64, offset_in}
use duckdb_object_storage.Chunks.View.{persisted, view, or_persisted, byte_in, byte_at, IsChunked}
use duckdb_object_storage.Chunks.Flush.{IsFlushable}
use duckdb_object_storage.Chunks.Write.{SameShape, byte_of-byte_at}
use duckdb_object_storage.Chunks.Truncate.{
  contains, deletions, cut_keeps, get-extend_deleted, collect_lem, truncate_eq, cut_bytes,
}

module _ (store : ChunkStore) (contents : Contents) (m : ChunkManager) (v : IsValid m)
    (serves : IsStore store contents) (chunked : IsChunked contents m.file_id) where
  emptied : ChunkManager
  emptied =
      mark_chunks_deleted (collect_lem store contents m serves chunked 0).indices
        (record m { pending = [] })

  truncate_zero : truncate store 0 m ≡ (ok tt, emptied)
  unfolding truncate truncate_all emptied mark_chunks_deleted
  truncate_zero =
      let e : collect_persisted_chunk_indices store m 0
          ≡ ok (collect_lem store contents m serves chunked 0).indices =
        (collect_lem store contents m serves chunked 0).collects in
      rw (e, truncate_all)

  view-emptied : (i j : ℕ) → IsU64 i → byte_in (view emptied contents i) j ≡ 0
  unfolding emptied mark_chunks_deleted Map.get
  view-emptied i j u =
      let d = collect_lem store contents m serves chunked 0 in
      elim (Bool-cases (contains i d.indices)) [
        | inl gone ↦
            let e : Map.get i (mark_chunks_deleted d.indices (record m { pending = [] })).pending
                ≡ some deleted =
              get-extend_deleted i d.indices [] ∙ rw gone in
            ap (λ (o : Option PendingChunk). byte_in (or_persisted o (persisted m contents i)) j) e
        | inr out ↦
            let e : Map.get i (mark_chunks_deleted d.indices (record m { pending = [] })).pending
                ≡ none =
              get-extend_deleted i d.indices [] ∙ rw out in
            ap (λ (o : Option PendingChunk). byte_in (or_persisted o (persisted m contents i)) j) e
            ∙ ap (λ (c : Option Bytes). byte_in c j) (absent i u out)
      ]
    where
      absent :
          (i : ℕ)
          → IsU64 i
          → contains i (collect_lem store contents m serves chunked 0).indices ≡ false
          → persisted m contents i ≡ none
      absent i u out = elim (Option-cases (persisted m contents i)) [
        | inl e ↦ e
        | inr (chunk, there) ↦ cc (
          out,
          (collect_lem store contents m serves chunked 0).keeps i chunk u (omega arith) there,
        )
      ]

  emptied-shape : SameShape m emptied
  emptied-shape = record {
    same_file = unfold emptied mark_chunks_deleted in refl;
    same_size = unfold emptied mark_chunks_deleted in refl;
    same_base = unfold emptied mark_chunks_deleted in refl;
    same_places = λ p. unfold emptied mark_chunks_deleted locate in refl;
  }

  emptied-IsFlushable : IsFlushable m → IsFlushable emptied
  unfolding emptied mark_chunks_deleted
  emptied-IsFlushable f =
      let d = collect_lem store contents m serves chunked 0 in
      record {
        is_u64 = f.is_u64;
        sorted = Map.extend-IsSorted (deletions d.indices) [] tt;
        indices = Map.extend-IsBounded (deletions d.indices) [] d.bounded tt;
      }

-- A truncation keeps the file and the geometry of the manager, and its staged chunks in order and at
-- indices that fit.
pub truncate_keeps :
    (store : ChunkStore) (contents : Contents) (m : ChunkManager) (new_size : ℕ)
    → IsValid m
    → IsStore store contents
    → IsChunked contents m.file_id
    → IsU64 new_size
    → IsFlushable m
    → SameShape m (truncate store new_size m).1 × IsFlushable (truncate store new_size m).1
truncate_keeps store contents m zero v serves chunked un f =
    rw (truncate_zero store contents m v serves chunked) (
      emptied-shape store contents m v serves chunked,
      emptied-IsFlushable store contents m v serves chunked f,
    )
truncate_keeps store contents m (suc n) v serves chunked un f =
    let k = cut_keeps store contents m v serves chunked n un in
    rw (truncate_eq store contents m v serves chunked n un) (k.0, k.1 f)

-- A truncation over a store that answers succeeds, and removes every byte of the file at or past the
-- new size: those before it are as they were, and those after it read as zeros.
pub truncate_lem :
    (store : ChunkStore) (contents : Contents) (m : ChunkManager) (new_size : ℕ)
    → IsValid m
    → IsStore store contents
    → IsChunked contents m.file_id
    → IsU64 new_size
    → ((truncate store new_size m).0 ≡ ok tt)
      × ((p : ℕ)
          → IsU64 p
          → byte_at (truncate store new_size m).1 contents p
            ≡ (if ltb p new_size then byte_at m contents p else 0))
truncate_lem store contents m zero v serves chunked un =
    rw (truncate_zero store contents m v serves chunked) (
      refl,
      λ p u.
          sym (
            byte_of-byte_at m (emptied store contents m v serves chunked) contents p
              (emptied-shape store contents m v serves chunked))
          ∙ view-emptied store contents m v serves chunked (chunk_of m p) (offset_in m p)
              (chunk_of-IsU64 m v p)
          ∙ ground arith,
    )
truncate_lem store contents m (suc n) v serves chunked un =
    rw (truncate_eq store contents m v serves chunked n un)
      (refl, cut_bytes store contents m v serves chunked n un)

truncate_all_failed :
    (store : ChunkStore) (m : ChunkManager)
    → (truncate_all store m).0 ≢ ok tt
    → (truncate_all store m).1 ≡ m
unfolding truncate_all
truncate_all_failed store m h = elim (Result-cases (collect_persisted_chunk_indices store m 0)) [
  | inl (a, e) ↦ absurd (h (rw (e, truncate_all)))
  | inr (inl (x, e)) ↦ rw (e, truncate_all)
  | inr (inr e) ↦ rw (e, truncate_all)
]

truncate_at_failed :
    (store : ChunkStore) (last last_len : ℕ) (m : ChunkManager)
    → (truncate_at store last last_len m).0 ≢ ok tt
    → (truncate_at store last last_len m).1 ≡ m
unfolding truncate_at
truncate_at_failed store last last_len m h =
    elim (Result-cases (truncate_plan store last last_len m)) [
      | inl (a, e) ↦ absurd (h (rw (e, truncate_at)))
      | inr (inl (x, e)) ↦ rw (e, truncate_at)
      | inr (inr e) ↦ rw (e, truncate_at)
    ]

truncate_after_failed :
    (store : ChunkStore) (slices : Slices) (m : ChunkManager)
    → (truncate_after store slices m).0 ≢ ok tt
    → (truncate_after store slices m).1 ≡ m
unfolding truncate_after
truncate_after_failed store [] m h = refl
truncate_after_failed store (s ∷ slices) m h =
    truncate_at_failed store s.chunk_idx (s.chunk_offset + 1) m h

-- Whatever the store does, a truncation that does not succeed leaves the manager as it was, with
-- every staged write.
pub truncate_failed :
    (store : ChunkStore) (m : ChunkManager) (new_size : ℕ)
    → (truncate store new_size m).0 ≢ ok tt
    → (truncate store new_size m).1 ≡ m
unfolding truncate
truncate_failed store m new_size h = elim (Bool-cases (new_size == 0)) [
  | inl e ↦ rw e (truncate_all_failed store m (rw e at h))
  | inr e ↦ rw e (truncate_after_failed store (split_into_chunks m 1 (new_size - 1)) m (rw e at h))
]
