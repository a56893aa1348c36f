-- ===== src/Chunks/Flush.antt =====
-- `add_pending_to_batch` and `mark_flushed` of rust/src/chunk_manager.rs: what a flush leaves in the
-- database.
use duckdb_object_storage.Common.{
  ℕ, ◌≡◌, ◌≢◌, refl, ap, ◌∙◌, sym, Bool, true, false, ◌&&◌, inl, inr, Option, some, [], ◌∷◌, ◌++◌,
  arith, ◌==◌, ==_refl, ne→==, IsU64, Bool-cases,
}
use duckdb_object_storage.Common.Map
use duckdb_object_storage.Common.Map.{Map}
use duckdb_object_storage.Keys.{Bytes, chunk_key}
use duckdb_object_storage.Keys.Order.{bytes_eq, bytes_eq→eq, bytes_eq_refl}
use duckdb_object_storage.Keys.Prefixes.{chunk_key_injective}
use duckdb_object_storage.Database.{
  Contents, BatchOp, put, delete, WriteBatch, apply_op, apply_batch,
}
use duckdb_object_storage.Chunks.{ChunkManager, PendingChunk, written, deleted, locate}
use duckdb_object_storage.Chunks.Ops.{add_ops, add_pending_to_batch, mark_flushed}
use duckdb_object_storage.Chunks.Locate.{IsValid, chunk_of, chunk_of-IsU64, offset_in}
use duckdb_object_storage.Chunks.View.{or_persisted, view, byte_in, byte_at}
use duckdb_object_storage.Chunks.Write.{SameShape, byte_of-byte_at}

-- What makes a chunk manager consistent: its chunks ascend, at indices that the code can produce.
pub record IsFlushable (m : ChunkManager) : Type 0 where
  pub is_u64 : IsU64 m.file_id
  pub sorted : Map.IsSorted m.pending
  pub indices : Map.IsBounded m.pending

apply_batch-append :
    (a b : WriteBatch) (contents : Contents)
    → apply_batch (a ++ b) contents ≡ apply_batch b (apply_batch a contents)
unfolding apply_batch
apply_batch-append [] b contents = refl
apply_batch-append (op ∷ a) b contents = apply_batch-append a b (apply_op op contents)

keys_differ :
    (f g i j : ℕ)
    → IsU64 f
    → IsU64 g
    → IsU64 i
    → IsU64 j
    → ((f == g) && (i == j)) ≡ false
    → bytes_eq (chunk_key f i) (chunk_key g j) ≡ false
keys_differ f g i j uf ug ui uj h = elim (Bool-cases (bytes_eq (chunk_key f i) (chunk_key g j))) [
  | inl e ↦
      let (same_file, same_index) = chunk_key_injective f g i j uf ug ui uj (bytes_eq→eq _ _ e) in
      ground arith
  | inr e ↦ e
]

-- One more operation at the end of a batch.
pub apply_last :
    (batch : WriteBatch) (op : BatchOp) (contents : Contents) (k : Bytes)
    → apply_batch (batch ++ (op ∷ [])) contents k ≡ apply_op op (apply_batch batch contents) k
unfolding apply_batch
apply_last batch op contents k =
    ap (λ (c : Contents). c k) (apply_batch-append batch (op ∷ []) contents)

-- What the operations of a pending map make of the chunk `j` of the file `g`.
abbrev pub after_ops : Bool → Option PendingChunk → Option Bytes → Option Bytes
after_ops true pending chunk = or_persisted pending chunk
after_ops false pending chunk = chunk

op_of : ℕ → ℕ → PendingChunk → BatchOp
op_of f i (written chunk) = put (chunk_key f i) chunk
op_of f i deleted = delete (chunk_key f i)

op_lem :
    (f g i j : ℕ) (pending : PendingChunk) (contents : Contents)
    → IsU64 f
    → IsU64 g
    → IsU64 i
    → IsU64 j
    → apply_op (op_of f i pending) contents (chunk_key g j)
      ≡ after_ops ((f == g) && (i == j)) (some pending) (contents (chunk_key g j))
unfolding apply_op op_of
op_lem f g i j pending contents uf ug ui uj = elim (Bool-cases ((f == g) && (i == j))) [
  | inl e ↦ op_same pending e
  | inr e ↦ op_other pending e
]
  where
    same : ((f == g) && (i == j)) ≡ true → bytes_eq (chunk_key f i) (chunk_key g j) ≡ true
    same e =
        let ef : f ≡ g = ground arith in
        let ei : i ≡ j = ground arith in rw ef (rw ei (bytes_eq_refl (chunk_key g j)))

    op_same :
        (pending : PendingChunk)
        → ((f == g) && (i == j)) ≡ true
        → apply_op (op_of f i pending) contents (chunk_key g j)
          ≡ after_ops ((f == g) && (i == j)) (some pending) (contents (chunk_key g j))
    op_same (written chunk) e = rw e (rw (same e) refl)
    op_same deleted e = rw e (rw (same e) refl)

    op_other :
        (pending : PendingChunk)
        → ((f == g) && (i == j)) ≡ false
        → apply_op (op_of f i pending) contents (chunk_key g j)
          ≡ after_ops ((f == g) && (i == j)) (some pending) (contents (chunk_key g j))
    op_other (written chunk) e = rw e (rw (keys_differ f g i j uf ug ui uj e) refl)
    op_other deleted e = rw e (rw (keys_differ f g i j uf ug ui uj e) refl)

ops_step :
    (f g i j : ℕ) (p : PendingChunk) (pending : Map PendingChunk) (chunk : Option Bytes)
    → Map.Above i pending
    → after_ops (f == g) (Map.get j pending) (after_ops ((f == g) && (i == j)) (some p) chunk)
      ≡ after_ops (f == g) (Map.get j ((i, p) ∷ pending)) chunk
unfolding Map.get
ops_step f g i j p pending chunk above = ground (arith, Map.get-Above i pending above)

pub add_ops_lem :
    (f g j : ℕ) (pending : Map PendingChunk) (batch : WriteBatch) (contents : Contents)
    → IsU64 f
    → IsU64 g
    → IsU64 j
    → Map.IsSorted pending
    → Map.IsBounded pending
    → apply_batch (add_ops f pending batch) contents (chunk_key g j)
      ≡ after_ops (f == g) (Map.get j pending) (apply_batch batch contents (chunk_key g j))
unfolding add_ops Map.get op_of
add_ops_lem f g j [] batch contents uf ug uj s a = ground arith
add_ops_lem f g j ((i, written chunk) ∷ pending) batch contents uf ug uj s (ui, a) =
    add_ops_lem f g j pending (batch ++ (put (chunk_key f i) chunk ∷ [])) contents uf ug uj
      (Map.IsSorted-of_Above i pending s) a
    ∙ ap (after_ops (f == g) (Map.get j pending)) (
        apply_last batch (put (chunk_key f i) chunk) contents (chunk_key g j)
        ∙ op_lem f g i j (written chunk) (apply_batch batch contents) uf ug ui uj)
    ∙ ops_step f g i j (written chunk) pending (apply_batch batch contents (chunk_key g j)) s
add_ops_lem f g j ((i, deleted) ∷ pending) batch contents uf ug uj s (ui, a) =
    add_ops_lem f g j pending (batch ++ (delete (chunk_key f i) ∷ [])) contents uf ug uj
      (Map.IsSorted-of_Above i pending s) a
    ∙ ap (after_ops (f == g) (Map.get j pending)) (
        apply_last batch (delete (chunk_key f i)) contents (chunk_key g j)
        ∙ op_lem f g i j deleted (apply_batch batch contents) uf ug ui uj)
    ∙ ops_step f g i j deleted pending (apply_batch batch contents (chunk_key g j)) s

-- The view of a manager whose batch is applied.
view_flushed :
    (m : ChunkManager) (contents : Contents) (i : ℕ)
    → IsFlushable m
    → IsU64 i
    → view (mark_flushed m) (apply_batch (add_pending_to_batch m []) contents) i ≡ view m contents i
unfolding add_pending_to_batch mark_flushed Map.get apply_batch
view_flushed m contents i f ui =
    add_ops_lem m.file_id m.file_id i m.pending [] contents f.is_u64 f.is_u64 ui f.sorted f.indices
    ∙ rw (==_refl m.file_id) refl

flushed-SameShape : (m : ChunkManager) → SameShape m (mark_flushed m)
flushed-SameShape m = record {
  same_file = unfold mark_flushed in refl;
  same_size = unfold mark_flushed in refl;
  same_base = unfold mark_flushed in refl;
  same_places = λ p. unfold locate mark_flushed in refl;
}

-- Once its batch is applied, a flushed manager shows the bytes that it showed before, now all of them
-- from the database, and the chunks of every other file are as they were.
pub flush_lem :
    (m : ChunkManager) (contents : Contents)
    → IsValid m
    → IsFlushable m
    → ((p : ℕ)
        → byte_at (mark_flushed m) (apply_batch (add_pending_to_batch m []) contents) p
          ≡ byte_at m contents p)
      × ((g j : ℕ)
          → IsU64 g
          → IsU64 j
          → g ≢ m.file_id
          → apply_batch (add_pending_to_batch m []) contents (chunk_key g j)
            ≡ contents (chunk_key g j))
unfolding add_pending_to_batch byte_at apply_batch
flush_lem m contents v f =
    let contents' = apply_batch (add_pending_to_batch m []) contents in
    (
      λ p.
          sym (byte_of-byte_at m (mark_flushed m) contents' p (flushed-SameShape m))
          ∙ ap (λ (c : Option Bytes). byte_in c (offset_in m p))
              (view_flushed m contents (chunk_of m p) f (chunk_of-IsU64 m v p)),
      λ g j ug uj other.
          add_ops_lem m.file_id g j m.pending [] contents f.is_u64 ug uj f.sorted f.indices
          ∙ rw (ne→== m.file_id g (λ e. other (sym e))) refl,
    )
