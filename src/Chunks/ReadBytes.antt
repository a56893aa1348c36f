-- ===== src/Chunks/ReadBytes.antt =====
-- `read` of rust/src/chunk_manager.rs returns the bytes of the view.
use duckdb_object_storage.Common.{
  ℕ, ◌+◌, ◌≤◌, ◌<◌, ◌≡◌, refl, ap, ◌∙◌, sym, subst, inl, inr, Option, none, some, List, [], ◌∷◌,
  map, arith, All, IsU64, length, replicate, length-replicate, byte, byte-replicate,
}
use duckdb_object_storage.Common.Map
use duckdb_object_storage.Error.{ok}
use duckdb_object_storage.Keys.{Bytes}
use duckdb_object_storage.Database.{Contents}
use duckdb_object_storage.ChunkStore.{ChunkStore}
use duckdb_object_storage.ChunkStore.Laws.{IsStore}
use duckdb_object_storage.Chunks.{
  ChunkManager, ChunkSlice, split_into_chunks, read_chunks_from_store,
}
use duckdb_object_storage.Chunks.Ops.{Slices, read}
use duckdb_object_storage.Chunks.Locate.{IsValid, chunk_of, offset_in, chunk_of-IsU64}
use duckdb_object_storage.Chunks.Split.{Tiles, split_into_chunks-Tiles, tail-IsAligned, IsAligned}
use duckdb_object_storage.Chunks.View.{staged, persisted, view, byte_at, Reaches, IsChunked}
use duckdb_object_storage.Chunks.Paint.{Ascends, paint, Painted, paint_lem, IsClear}
use duckdb_object_storage.Chunks.Fetch.{Listed, read_chunks_from_store_lem}
use duckdb_object_storage.Chunks.Merge.{
  unstaged, read_pending-paint, copy_persisted-paint, with_slices, covered-unstaged, both-value,
  Supplies, Tiles-Ascends, Tiles-fit, Tiles-value,
}
use duckdb_object_storage.Chunks.Read.{
  All-unstaged, Ascends-unstaged, unstaged-value, AllReach, Reaches-staged, Reaches-unstaged,
}

-- The bytes of a file from an offset on, in a buffer.
pub record Shows (m : ChunkManager) (contents : Contents) (offset : ℕ) (buf : Bytes) : Type 0 where
  pub bytes : (i : ℕ) → i < length buf → byte buf i ≡ byte_at m contents (offset + i)

abbrev indices : Slices → List ℕ
indices = map (λ (s : ChunkSlice). s.chunk_idx)

Supplies-Listed :
    (m : ChunkManager) (contents : Contents) (g : ℕ → Option Bytes) (slices : Slices)
    → ((i : ℕ) → Listed i (indices slices) → g i ≡ persisted m contents i)
    → Supplies m contents g slices
Supplies-Listed m contents g [] h = tt
Supplies-Listed m contents g (s ∷ slices) h =
    (h s.chunk_idx (inl refl), Supplies-Listed m contents g slices (λ i l. h i (inr l)))

indices-IsU64 :
    (slices : Slices)
    → All (λ (s : ChunkSlice). IsU64 s.chunk_idx) slices
    → All IsU64 (indices slices)
indices-IsU64 [] a = tt
indices-IsU64 (s ∷ slices) a = (a.0, indices-IsU64 slices a.1)

module _ (m : ChunkManager) (v : IsValid m) (len offset : ℕ)
    (room : offset + len ≤ 18446744073709551616) where
  Tiles-IsU64 :
      (slices : Slices) (c : ℕ)
      → Tiles m offset len c slices
      → All (λ (s : ChunkSlice). IsU64 s.chunk_idx) slices
  Tiles-IsU64 [] c t = tt
  Tiles-IsU64 (s ∷ slices) c (f, t) = (
    subst IsU64 (sym f.chunk) (chunk_of-IsU64 m v (offset + c)),
    Tiles-IsU64 slices (c + s.len) t,
  )

  module _ (contents : Contents) where
    Reaches-start : (o : Option Bytes) → Reaches o 0
    Reaches-start none = tt
    Reaches-start (some chunk) = omega arith

    aligned-AllReach :
        (slices : Slices) → All (IsAligned m v) slices → AllReach m (view m contents) slices
    aligned-AllReach [] a = tt
    aligned-AllReach (s ∷ slices) a = (
      subst (Reaches (view m contents s.chunk_idx)) (sym a.0)
          (Reaches-start (view m contents s.chunk_idx)),
      aligned-AllReach slices a.1,
    )

    Tiles-AllReach :
        (slices : Slices)
        → Tiles m offset len 0 slices
        → Reaches (view m contents (chunk_of m offset)) (offset_in m offset)
        → AllReach m (view m contents) slices
    Tiles-AllReach [] t r = tt
    Tiles-AllReach (s ∷ slices) (f, t) r =
        let e : offset + 0 ≡ offset = omega arith in
        let c : s.chunk_idx ≡ chunk_of m offset = f.chunk ∙ ap (chunk_of m) e in
        let o : s.chunk_offset ≡ offset_in m offset = f.place ∙ ap (offset_in m) e in
        (
          subst (λ (k : ℕ). Reaches (view m contents k) s.chunk_offset) (sym c)
              (subst (Reaches (view m contents (chunk_of m offset))) (sym o) r),
          aligned-AllReach slices (tail-IsAligned m v len offset room s slices 0 (f, t)),
        )

module _ (store : ChunkStore) (contents : Contents) (m : ChunkManager) (v : IsValid m)
    (serves : IsStore store contents) (chunked : IsChunked contents m.file_id) (buf : Bytes)
    (offset : ℕ) (room : offset + length buf ≤ 18446744073709551616) where
  slices : Slices
  slices = split_into_chunks m (length buf) offset

  tiles : Tiles m offset (length buf) 0 slices
  unfolding slices
  tiles = split_into_chunks-Tiles m (length buf) offset v room

  ascends : Ascends 0 slices
  ascends = Tiles-Ascends m contents v (length buf) offset room slices 0 tiles

  zeros : Bytes
  zeros = replicate (length buf) 0

  length-zeros : length zeros ≡ length buf
  unfolding zeros
  length-zeros = length-replicate {A = ℕ} (length buf) 0

  -- What the first loop returns.
  record First : Type 0 where
    staged_buf : Bytes
    painted : Painted (staged m) slices zeros staged_buf
    returns : paint (staged m) slices zeros ≡ ok staged_buf

  fit :
      (b : Bytes)
      → length b ≡ length buf
      → All (λ (s : ChunkSlice). s.buf_offset + s.len ≤ length b) slices
  fit b e =
      subst (λ (n : ℕ). All (λ (s : ChunkSlice). s.buf_offset + s.len ≤ n) slices) (sym e)
        (Tiles-fit m contents v (length buf) offset room slices 0 tiles)

  first : AllReach m (view m contents) slices → First
  first reach =
      let (b, e, p) =
        paint_lem (staged m) slices 0 zeros ascends (fit zeros length-zeros)
          (Reaches-staged m contents slices reach)
          (λ i h. unfold zeros in byte-replicate (length buf) i) in
      record { staged_buf = b; painted = p; returns = e }

  IsClear-after_first : (f : First) → IsClear (unstaged m slices) f.staged_buf
  IsClear-after_first f i h =
      f.painted.bytes i
      ∙ rw (covered-unstaged m contents slices i h) (unstaged-value m slices 0 i ascends h)

  -- What the second loop returns, out of the chunks that were fetched.
  record Second (f : First) : Type 0 where
    chunks : Map.Map Bytes
    fetched : read_chunks_from_store store m (indices (unstaged m slices)) ≡ ok chunks
    supplies : Supplies m contents (λ i. Map.get i chunks) (unstaged m slices)
    final_buf : Bytes
    painted : Painted (λ i. Map.get i chunks) (unstaged m slices) f.staged_buf final_buf
    returns : paint (λ i. Map.get i chunks) (unstaged m slices) f.staged_buf ≡ ok final_buf

  second : AllReach m (view m contents) slices → (f : First) → Second f
  second reach f =
      let (chunks, e, agree) =
        read_chunks_from_store_lem m contents chunked store serves (indices (unstaged m slices)) (
          indices-IsU64 (unstaged m slices) (
            All-unstaged m (λ (s : ChunkSlice). IsU64 s.chunk_idx) slices
              (Tiles-IsU64 m v (length buf) offset room slices 0 tiles))) in
      let supplies : Supplies m contents (λ i. Map.get i chunks) (unstaged m slices) =
        Supplies-Listed m contents (λ i. Map.get i chunks) (unstaged m slices) agree in
      let (b, r, p) =
        paint_lem (λ i. Map.get i chunks) (unstaged m slices) 0 f.staged_buf
          (Ascends-unstaged m slices 0 ascends)
          (All-unstaged m (λ (s : ChunkSlice). s.buf_offset + s.len ≤ length f.staged_buf) slices
            (fit f.staged_buf (f.painted.same_length ∙ length-zeros)))
          (Reaches-unstaged m contents (λ i. Map.get i chunks) slices reach supplies)
          (IsClear-after_first f) in
      record {
        chunks = chunks;
        fetched = e;
        supplies = supplies;
        final_buf = b;
        painted = p;
        returns = r;
      }

  read_returns : (f : First) (s : Second f) → read store m buf offset ≡ ok s.final_buf
  unfolding read slices with_slices zeros
  read_returns f s = rw (read_pending-paint m slices zeros []) (
      rw f.returns
        (rw s.fetched (copy_persisted-paint s.chunks (unstaged m slices) f.staged_buf ∙ s.returns)))

  final_bytes :
      (f : First) (s : Second f) (i : ℕ)
      → i < length buf
      → byte s.final_buf i ≡ byte_at m contents (offset + i)
  final_bytes f s i h =
      let (there, viewed) =
        Tiles-value m contents v (length buf) offset room slices 0 i tiles (omega arith) h in
      let blank : byte zeros i ≡ 0 = unfold zeros in byte-replicate (length buf) i in
      s.painted.bytes i
      ∙ ground (
        arith,
        f.painted.bytes i,
        blank,
        both-value m contents (λ j. Map.get j s.chunks) slices 0 i ascends s.supplies,
        viewed,
      )

  read_result :
      Reaches (view m contents (chunk_of m offset)) (offset_in m offset)
      → (buf' : Bytes) × (read store m buf offset ≡ ok buf')
        × (length buf' ≡ length buf)
        × Shows m contents offset buf'
  read_result reach =
      let all = Tiles-AllReach m v (length buf) offset room contents slices tiles reach in
      let f = first all in
      let s = second all f in
      let same : length s.final_buf ≡ length buf =
        s.painted.same_length ∙ f.painted.same_length ∙ length-zeros in
      (
        s.final_buf,
        read_returns f s,
        same,
        record { bytes = λ i h. final_bytes f s i (omega arith) },
      )

-- A read at an offset that its chunk reaches, or whose chunk is absent, succeeds: it fills the whole
-- buffer with the bytes of the file from the offset on, staged chunks before persisted ones, and
-- zeros where no chunk covers a byte.
pub read_lem :
    (store : ChunkStore) (contents : Contents) (m : ChunkManager) (buf : Bytes) (offset : ℕ)
    → IsValid m
    → IsStore store contents
    → IsChunked contents m.file_id
    → offset + length buf ≤ 18446744073709551616
    → Reaches (view m contents (chunk_of m offset)) (offset_in m offset)
    → (buf' : Bytes) × (read store m buf offset ≡ ok buf')
      × (length buf' ≡ length buf)
      × Shows m contents offset buf'
read_lem store contents m buf offset v serves chunked room reach =
    read_result store contents m v serves chunked buf offset room reach
