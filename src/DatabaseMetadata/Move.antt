-- ===== src/DatabaseMetadata/Move.antt =====
-- `move_file` of rust/src/database_metadata.rs.
use duckdb_object_storage.Common.{
  ℕ, ◌≡◌, ◌≢◌, refl, Bool, false, ◌||◌, inl, inr, Option, none, some, [], ◌∷◌, arith, ◌==◌,
  if◌then◌else◌, Bool-cases,
}
use duckdb_object_storage.Error.{err, not_found_error}
use duckdb_object_storage.Keys.{Bytes, metadata_key}
use duckdb_object_storage.Keys.Order.{bytes_eq}
use duckdb_object_storage.Database.{Contents, Serves}
use duckdb_object_storage.Transaction.{TxnDb, IsTxnDb}
use duckdb_object_storage.DatabaseMetadata.{
  FilePath, validate_path, path_key, replace_target, move_in, move_distinct, move_checked,
  move_file, finish,
}
use duckdb_object_storage.DatabaseMetadata.Ids.{to_be_bytes, decode_file_id-to_be_bytes}
use duckdb_object_storage.DatabaseMetadata.Edits.{
  Shows, Steps, get_in_lem, put_in_lem, delete_in_lem, reshow, delete_chunks_lem, begin_in_lem,
  Commits, finish_lem,
}
use duckdb_object_storage.DatabaseMetadata.Remove.{IsMapped, is_key_of}

-- What the target path maps to before the move.
abbrev pub IsTarget : Contents → FilePath → Option ℕ → Type 0
IsTarget contents target none = contents (path_key target) ≡ none
IsTarget contents target (some file_id) = IsMapped contents target file_id

-- Whether a key belongs to the file that the move replaces, which is none if both paths share one.
abbrev pub is_replaced : ℕ → Option ℕ → Bytes → Bool
is_replaced source_file_id none k = false
is_replaced source_file_id (some file_id) k =
    if file_id == source_file_id then false else is_key_of file_id k

-- The contents with the target path on the file of the source path.
abbrev pub moved : FilePath → FilePath → ℕ → Option ℕ → Contents → Contents
moved source target source_file_id old contents k =
    if bytes_eq (path_key target) k
    then some (to_be_bytes source_file_id)
    else if bytes_eq (path_key source) k || is_replaced source_file_id old k
    then none
    else contents k

module _ (db : TxnDb) (laws : IsTxnDb db) (s : db.State) (contents : Contents) where
  kept_target : ℕ → Option ℕ → Contents
  kept_target source_file_id old k = if is_replaced source_file_id old k then none else contents k

  replace_target_lem :
      (source_file_id : ℕ) (target : FilePath) (old : Option ℕ) (t : db.Txn)
      → Shows db laws s t contents
      → IsTarget contents target old
      → Steps db laws s
          (replace_target db source_file_id (contents (path_key target)) t)
          (kept_target source_file_id old)
  unfolding replace_target kept_target
  replace_target_lem source_file_id target none t h absent =
      rw (absent, replace_target)
        (record { txn = t; done = refl; shows = reshow db laws s t _ _ h (λ k. refl) })
  replace_target_lem source_file_id target (some file_id) t h m =
      rw (m.mapping, replace_target)
        (rw (decode_file_id-to_be_bytes file_id m.is_u64 m.positive)
          (elim (Bool-cases (file_id == source_file_id)) [
            | inl e ↦
                rw e (record {
                  txn = t;
                  done = refl;
                  shows = reshow db laws s t _ _ h (λ k. rw e refl);
                })
            | inr e ↦
                let a = delete_in_lem db laws s t contents (metadata_key file_id) h in
                let b = delete_chunks_lem db laws s a.txn _ file_id a.shows in
                rw e (record {
                  txn = b.txn;
                  done = rw (a.done) b.done;
                  shows = reshow db laws s b.txn _ _ b.shows (λ k. ground arith);
                })
          ]))

  move_in_lem :
      (source target : FilePath) (source_file_id : ℕ) (old : Option ℕ) (t : db.Txn)
      → Shows db laws s t contents
      → IsMapped contents source source_file_id
      → IsTarget contents target old
      → Steps db laws s
          (move_in db source target t)
          (moved source target source_file_id old contents)
  unfolding move_in kept_target
  move_in_lem source target source_file_id old t h m target_is =
      let a = replace_target_lem source_file_id target old t h target_is in
      let b = delete_in_lem db laws s a.txn _ (path_key source) a.shows in
      let c = put_in_lem db laws s b.txn _ (path_key target) (to_be_bytes source_file_id) b.shows in
      record {
        txn = c.txn;
        done = rw (get_in_lem db laws s t contents (path_key source) h) (
            rw (m.mapping) (
              rw (decode_file_id-to_be_bytes source_file_id m.is_u64 m.positive) (
                rw (get_in_lem db laws s t contents (path_key target) h)
                  (rw (a.done) (rw (b.done) c.done)))));
        shows = reshow db laws s c.txn _ _ c.shows (λ k. ground arith);
      }

  move_distinct_lem :
      (source target : FilePath) (source_file_id : ℕ) (old : Option ℕ)
      → Serves (db.read s) contents
      → IsMapped contents source source_file_id
      → IsTarget contents target old
      → Commits db
          (move_distinct db source target s)
          (moved source target source_file_id old contents)
  unfolding move_distinct
  move_distinct_lem source target source_file_id old serves m target_is =
      let (t, e, h) = begin_in_lem db laws s contents serves in
      let r = move_in_lem source target source_file_id old t h m target_is in
      finish_lem db laws s _ _ (record { txn = r.txn; done = rw e r.done; shows = r.shows })

-- Moving a mapped path to another one succeeds in one commit: the target maps to the source's file,
-- the source is unmapped, and a different file that the target mapped to loses its metadata record
-- and every chunk. All other keys, those of the moved file among them, keep their values.
pub move_file_lem :
    (db : TxnDb) (s : db.State) (contents : Contents) (source target : FilePath)
    (source_file_id : ℕ) (old : Option ℕ)
    → IsTxnDb db
    → Serves (db.read s) contents
    → source ≢ []
    → target ≢ []
    → bytes_eq source target ≡ false
    → IsMapped contents source source_file_id
    → IsTarget contents target old
    → Commits db (move_file db source target s) (moved source target source_file_id old contents)
unfolding move_file move_checked validate_path
move_file_lem db s contents [] target i old laws serves ns nt distinct m target_is =
    absurd (ns refl)
move_file_lem db s contents (a ∷ source) [] i old laws serves ns nt distinct m target_is =
    absurd (nt refl)
move_file_lem db s contents (a ∷ source) (b ∷ target) i old laws serves ns nt distinct m target_is =
    rw distinct
      (move_distinct_lem db laws s contents (a ∷ source) (b ∷ target) i old serves m target_is)

-- Moving a path that the catalog does not map, to another path, is refused as not found and changes
-- nothing.
pub move_file_missing :
    (db : TxnDb) (s : db.State) (contents : Contents) (source target : FilePath)
    → IsTxnDb db
    → Serves (db.read s) contents
    → source ≢ []
    → target ≢ []
    → bytes_eq source target ≡ false
    → contents (path_key source) ≡ none
    → move_file db source target s ≡ (err not_found_error, s)
unfolding move_file move_checked validate_path move_distinct move_in finish
move_file_missing db s contents [] target laws serves ns nt distinct missing = absurd (ns refl)
move_file_missing db s contents (a ∷ source) [] laws serves ns nt distinct missing =
    absurd (nt refl)
move_file_missing db s contents (a ∷ source) (b ∷ target) laws serves ns nt distinct missing =
    let (t, e, h) = begin_in_lem db laws s contents serves in
    rw distinct
      (rw e (rw (get_in_lem db laws s t contents (path_key (a ∷ source)) h) (rw missing refl)))
