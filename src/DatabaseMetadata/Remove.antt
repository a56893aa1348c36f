-- ===== src/DatabaseMetadata/Remove.antt =====
-- `remove_file` and `move_file` of rust/src/database_metadata.rs.
use duckdb_object_storage.Common.{
  ℕ, ◌<◌, ◌≡◌, ◌≢◌, refl, Bool, ◌||◌, none, some, [], ◌∷◌, arith, if◌then◌else◌, IsU64,
}
use duckdb_object_storage.Error.{err, not_found_error, ◌>>=◌}
use duckdb_object_storage.Keys.{Bytes, chunk_prefix, metadata_key}
use duckdb_object_storage.Keys.Order.{bytes_eq, starts_with}
use duckdb_object_storage.Database.{Contents, Serves}
use duckdb_object_storage.Transaction.{TxnDb, IsTxnDb}
use duckdb_object_storage.DatabaseMetadata.{
  FilePath, validate_path, path_key, remove_in, remove_file, begin_in, finish,
}
use duckdb_object_storage.DatabaseMetadata.Ids.{to_be_bytes, decode_file_id-to_be_bytes}
use duckdb_object_storage.DatabaseMetadata.Edits.{
  Shows, Steps, get_in_lem, delete_in_lem, reshow, delete_chunks_lem, begin_in_lem, Commits,
  finish_lem,
}

-- A path that the catalog maps to a file ID.
pub record IsMapped (contents : Contents) (path : FilePath) (file_id : ℕ) : Type 0 where
  pub is_u64 : IsU64 file_id
  pub positive : 0 < file_id
  pub mapping : contents (path_key path) ≡ some (to_be_bytes file_id)

-- Whether a key belongs to a file: its metadata record, or one of its chunks.
abbrev pub is_key_of : ℕ → Bytes → Bool
is_key_of file_id k = bytes_eq (metadata_key file_id) k || starts_with (chunk_prefix file_id) k

-- The contents without the mapping of a path and without the file.
abbrev pub removed : FilePath → ℕ → Contents → Contents
removed path file_id contents k =
    if bytes_eq (path_key path) k || is_key_of file_id k then none else contents k

module _ (db : TxnDb) (laws : IsTxnDb db) (s : db.State) (contents : Contents) where
  remove_in_lem :
      (path : FilePath) (file_id : ℕ) (t : db.Txn)
      → Shows db laws s t contents
      → IsMapped contents path file_id
      → Steps db laws s (remove_in db path t) (removed path file_id contents)
  unfolding remove_in
  remove_in_lem path file_id t h m =
      let a = delete_in_lem db laws s t contents (path_key path) h in
      let b = delete_in_lem db laws s a.txn _ (metadata_key file_id) a.shows in
      let c = delete_chunks_lem db laws s b.txn _ file_id b.shows in
      record {
        txn = c.txn;
        done = rw (get_in_lem db laws s t contents (path_key path) h) (
            rw (m.mapping) (
              rw (decode_file_id-to_be_bytes file_id m.is_u64 m.positive)
                (rw (a.done) (rw (b.done) c.done))));
        shows = reshow db laws s c.txn _ _ c.shows (λ k. ground arith);
      }

  remove_step :
      (path : FilePath) (file_id : ℕ)
      → Serves (db.read s) contents
      → IsMapped contents path file_id
      → Steps db laws s (begin_in db s >>= remove_in db path) (removed path file_id contents)
  remove_step path file_id serves m =
      let (t, e, h) = begin_in_lem db laws s contents serves in
      let r = remove_in_lem path file_id t h m in
      record { txn = r.txn; done = rw e r.done; shows = r.shows }

-- Removing a path that the catalog maps succeeds, and takes the mapping, the metadata record and
-- every chunk of the file out of the database in one commit. All other keys keep their values.
pub remove_file_lem :
    (db : TxnDb) (s : db.State) (contents : Contents) (path : FilePath) (file_id : ℕ)
    → IsTxnDb db
    → Serves (db.read s) contents
    → path ≢ []
    → IsMapped contents path file_id
    → Commits db (remove_file db path s) (removed path file_id contents)
unfolding remove_file validate_path
remove_file_lem db s contents [] file_id laws serves nonempty m = absurd (nonempty refl)
remove_file_lem db s contents (b ∷ path) file_id laws serves nonempty m =
    finish_lem db laws s _ _ (remove_step db laws s contents (b ∷ path) file_id serves m)

-- Removing a path that the catalog does not map is refused as not found, and changes nothing.
pub remove_file_missing :
    (db : TxnDb) (s : db.State) (contents : Contents) (path : FilePath)
    → IsTxnDb db
    → Serves (db.read s) contents
    → path ≢ []
    → contents (path_key path) ≡ none
    → remove_file db path s ≡ (err not_found_error, s)
unfolding remove_file validate_path remove_in finish
remove_file_missing db s contents [] laws serves nonempty missing = absurd (nonempty refl)
remove_file_missing db s contents (b ∷ path) laws serves nonempty missing =
    let (t, e, h) = begin_in_lem db laws s contents serves in
    rw e (rw (get_in_lem db laws s t contents (path_key (b ∷ path)) h) (rw missing refl))
