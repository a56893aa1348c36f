-- ===== src/DatabaseMetadata/Open.antt =====
-- `prepare_file_for_open` of rust/src/database_metadata.rs, by what the path maps to and what the
-- flags ask for.
use duckdb_object_storage.Common.{
  ℕ, ◌+◌, ◌≡◌, ◌≢◌, refl, ◌∙◌, Bool, true, false, none, [], ◌∷◌, IsU64,
}
use duckdb_object_storage.Error.{ok, err, not_found_error}
use duckdb_object_storage.Database.{Contents, Serves}
use duckdb_object_storage.Transaction.{TxnDb, IsTxnDb}
use duckdb_object_storage.Metadata.{FileMetadata, Codec, new}
use duckdb_object_storage.DatabaseMetadata.{
  FilePath, validate_path, path_key, prepare_existing, prepare_found, prepare_in, finish_prepare,
  prepare_file_for_open,
}
use duckdb_object_storage.DatabaseMetadata.Edits.{begin_in_lem}
use duckdb_object_storage.DatabaseMetadata.Prepare.{
  IsFileAt, find_file_lem, find_file-none, Opens, finish_prepare_lem, emptied, created, IsNext,
  truncate_step, create_step,
}

-- Opening a mapped path without truncation gives its file and commits nothing, whether or not the
-- open may create.
pub prepare_existing_lem :
    (codec : Codec) (db : TxnDb) (s : db.State) (contents : Contents) (now : ℕ) (path : FilePath)
    (create : Bool) (file_id : ℕ) (metadata : FileMetadata)
    → IsTxnDb db
    → Serves (db.read s) contents
    → path ≢ []
    → IsFileAt codec contents path file_id metadata
    → prepare_file_for_open codec db now path create false s ≡ (ok (file_id, metadata), s)
unfolding prepare_file_for_open validate_path prepare_in prepare_found prepare_existing
    finish_prepare
prepare_existing_lem codec db s contents now [] create file_id metadata laws serves nonempty f =
    absurd (nonempty refl)
prepare_existing_lem codec db s contents now (b ∷ path) create file_id metadata laws serves nonempty
      f =
    let (t, e, h) = begin_in_lem db laws s contents serves in
    rw e (
      rw
        (find_file_lem codec (db.read_txn t) h.view contents (b ∷ path) file_id metadata h.serves
          h.shown f)
        refl)

-- Opening a mapped path with truncation gives its file ID with a new metadata record, and commits at
-- once that record and the removal of every chunk. All other keys keep their values.
pub prepare_truncate_lem :
    (codec : Codec) (db : TxnDb) (s : db.State) (contents : Contents) (now : ℕ) (path : FilePath)
    (create : Bool) (file_id : ℕ) (metadata : FileMetadata)
    → IsTxnDb db
    → Serves (db.read s) contents
    → path ≢ []
    → IsFileAt codec contents path file_id metadata
    → Opens db
        (prepare_file_for_open codec db now path create true s)
        (file_id, new now)
        (emptied file_id (codec.encode_to_bytes (new now)) contents)
unfolding prepare_file_for_open validate_path prepare_in prepare_found
prepare_truncate_lem codec db s contents now [] create file_id metadata laws serves nonempty f =
    absurd (nonempty refl)
prepare_truncate_lem codec db s contents now (b ∷ path) create file_id metadata laws serves nonempty
      f =
    let (t, e, h) = begin_in_lem db laws s contents serves in
    rw e (
      rw
        (find_file_lem codec (db.read_txn t) h.view contents (b ∷ path) file_id metadata h.serves
          h.shown f)
        (finish_prepare_lem codec db laws s _ _ _
          (truncate_step codec db laws s contents now file_id metadata t h)))

-- Opening a path that is not mapped, with leave to create, commits at once a mapping to the next file
-- ID, a new metadata record for it, and the ID after it. All other keys keep their values.
pub prepare_create_lem :
    (codec : Codec) (db : TxnDb) (s : db.State) (contents : Contents) (now : ℕ) (path : FilePath)
    (truncate_existing : Bool) (file_id : ℕ)
    → IsTxnDb db
    → Serves (db.read s) contents
    → path ≢ []
    → contents (path_key path) ≡ none
    → IsU64 (file_id + 1)
    → IsNext contents file_id
    → Opens db
        (prepare_file_for_open codec db now path true truncate_existing s)
        (file_id, new now)
        (created path file_id (codec.encode_to_bytes (new now)) contents)
unfolding prepare_file_for_open validate_path prepare_in prepare_found
prepare_create_lem codec db s contents now [] truncate file_id laws serves nonempty missing u next =
    absurd (nonempty refl)
prepare_create_lem codec db s contents now (b ∷ path) truncate file_id laws serves nonempty missing
      u next =
    let (t, e, h) = begin_in_lem db laws s contents serves in
    rw e (
      rw
        (find_file-none codec (db.read_txn t) h.view (b ∷ path) h.serves
          (h.shown (path_key (b ∷ path)) ∙ missing))
        (finish_prepare_lem codec db laws s _ _ _
          (create_step codec db laws s contents now (b ∷ path) file_id t h u next)))

-- Opening a path that is not mapped, without leave to create, is refused as not found and changes
-- nothing.
pub prepare_missing :
    (codec : Codec) (db : TxnDb) (s : db.State) (contents : Contents) (now : ℕ) (path : FilePath)
    (truncate_existing : Bool)
    → IsTxnDb db
    → Serves (db.read s) contents
    → path ≢ []
    → contents (path_key path) ≡ none
    → prepare_file_for_open codec db now path false truncate_existing s ≡ (err not_found_error, s)
unfolding prepare_file_for_open validate_path prepare_in prepare_found finish_prepare
prepare_missing codec db s contents now [] truncate laws serves nonempty missing =
    absurd (nonempty refl)
prepare_missing codec db s contents now (b ∷ path) truncate laws serves nonempty missing =
    let (t, e, h) = begin_in_lem db laws s contents serves in
    rw e (
      rw
        (find_file-none codec (db.read_txn t) h.view (b ∷ path) h.serves
          (h.shown (path_key (b ∷ path)) ∙ missing))
        refl)
