-- ===== src/DatabaseMetadata/Prepare.antt =====
-- `prepare_file_for_open`, `open_file` and `file_exists` of rust/src/database_metadata.rs.
use duckdb_object_storage.Common.{
  ℕ, ◌+◌, ◌<◌, ◌≡◌, ◌≢◌, refl, ap, ◌∙◌, sym, subst, true, inl, inr, none, some, [], ◌∷◌, arith, ◌⊎◌,
  ltb, if◌then◌else◌, IsU64,
}
use duckdb_object_storage.Error.{Error, DbErrorKind, Result, ok, err, panic}
use duckdb_object_storage.Keys.{Bytes, chunk_prefix, metadata_key}
use duckdb_object_storage.Keys.Order.{bytes_eq, starts_with}
use duckdb_object_storage.Database.{Contents, DbReadOps, Serves}
use duckdb_object_storage.Transaction.{TxnDb, IsTxnDb}
use duckdb_object_storage.Metadata.{FileMetadata, Codec, new}
use duckdb_object_storage.DatabaseMetadata.{
  FilePath, validate_path, path_key, next_file_id_key, metadata_of, found_file, find_file,
  or_not_found, open_file, Prepared, prepare_existing, next_file_id, checked_next, create_in,
  after_commit, finish_prepare,
}
use duckdb_object_storage.DatabaseMetadata.Ids.{to_be_bytes, decode_file_id-to_be_bytes}
use duckdb_object_storage.DatabaseMetadata.Edits.{Shows, get_in_lem, put_in_lem, delete_chunks_lem}
use duckdb_object_storage.DatabaseMetadata.Remove.{IsMapped}

-- A path that maps to a file ID with a metadata record that decodes.
pub record IsFileAt (codec : Codec) (contents : Contents) (path : FilePath) (file_id : ℕ)
    (metadata : FileMetadata) : Type 0 where
  pub mapped : IsMapped contents path file_id
  pub stored : Bytes
  pub found : contents (metadata_key file_id) ≡ some stored
  pub decodes : codec.decode_from_bytes stored ≡ ok metadata

pub find_file_lem :
    (codec : Codec) (reader : DbReadOps) (view contents : Contents) (path : FilePath) (file_id : ℕ)
    (metadata : FileMetadata)
    → Serves reader view
    → ((k : Bytes) → view k ≡ contents k)
    → IsFileAt codec contents path file_id metadata
    → find_file codec reader path ≡ ok (some (file_id, metadata))
unfolding find_file found_file metadata_of
find_file_lem codec reader view contents path file_id metadata serves shown f =
    rw (serves.get_lem (path_key path)) (
      rw (shown (path_key path)) (
        rw (f.mapped.mapping) (
          rw (decode_file_id-to_be_bytes file_id f.mapped.is_u64 f.mapped.positive) (
            rw (serves.get_lem (metadata_key file_id))
              (rw (shown (metadata_key file_id)) (rw (f.found) (rw (f.decodes) refl)))))))

pub find_file-none :
    (codec : Codec) (reader : DbReadOps) (view : Contents) (path : FilePath)
    → Serves reader view
    → view (path_key path) ≡ none
    → find_file codec reader path ≡ ok none
unfolding find_file found_file
find_file-none codec reader view path serves missing =
    rw (serves.get_lem (path_key path)) (rw missing refl)

-- Opening a path that the catalog maps gives its file ID and its metadata record.
pub open_file_lem :
    (codec : Codec) (reader : DbReadOps) (contents : Contents) (path : FilePath) (file_id : ℕ)
    (metadata : FileMetadata)
    → Serves reader contents
    → path ≢ []
    → IsFileAt codec contents path file_id metadata
    → open_file codec reader path ≡ ok (file_id, metadata)
unfolding open_file validate_path or_not_found
open_file_lem codec reader contents [] file_id metadata serves nonempty f = absurd (nonempty refl)
open_file_lem codec reader contents (b ∷ path) file_id metadata serves nonempty f =
    rw
      (find_file_lem codec reader contents contents (b ∷ path) file_id metadata serves (λ k. refl)
        f)
      refl

-- What the database shows after a prepared open, and what the open gives.
pub record Opens (db : TxnDb) (outcome : Result Error (ℕ × FileMetadata) × db.State)
    (file : ℕ × FileMetadata) (contents : Contents) : Type 0 where
  pub gives : outcome.0 ≡ ok file
  pub after : Contents
  pub serves : Serves (db.read outcome.1) after
  pub shown : (k : Bytes) → after k ≡ contents k

-- A prepared open that changes something, by its transaction.
pub record Prepares (codec : Codec) (db : TxnDb) (laws : IsTxnDb db) (s : db.State)
    (r : Result Error (Prepared codec db)) (file : ℕ × FileMetadata) (contents : Contents)
    : Type 0 where
  pub txn : db.Txn
  pub done : r ≡ ok (file, some txn)
  pub shows : Shows db laws s txn contents

after_commit_ok :
    (codec : Codec) (db : TxnDb) (file : ℕ × FileMetadata)
    (outcome : Result DbErrorKind (Unit {0}) × db.State)
    → outcome.0 ≡ ok tt
    → after_commit codec db file outcome ≡ (ok file, outcome.1)
unfolding after_commit
after_commit_ok codec db file (ok x, s) e = refl
after_commit_ok codec db file (err x, s) e = absurd (cc)
after_commit_ok codec db file (panic, s) e = absurd (cc)

pub finish_prepare_lem :
    (codec : Codec) (db : TxnDb) (laws : IsTxnDb db) (s : db.State)
    (r : Result Error (Prepared codec db)) (file : ℕ × FileMetadata) (contents : Contents)
    → Prepares codec db laws s r file contents
    → Opens db (finish_prepare codec db r s) file contents
unfolding finish_prepare
finish_prepare_lem codec db laws s r file contents h =
    let (committed, serves) = laws.commit_lem s h.txn h.shows.view h.shows.began h.shows.serves in
    let e : finish_prepare codec db r s ≡ (ok file, (db.commit h.txn s).1) =
      ap (λ (q : Result Error (Prepared codec db)). finish_prepare codec db q s) h.done
      ∙ after_commit_ok codec db file (db.commit h.txn s) committed in
    subst (λ (o : Result Error (ℕ × FileMetadata) × db.State). Opens db o file contents) (sym e)
      (record { gives = refl; after = h.shows.view; serves = serves; shown = h.shows.shown })

-- The contents with an emptied file: its chunks gone, and a new metadata record.
abbrev pub emptied : ℕ → Bytes → Contents → Contents
emptied file_id fresh contents k =
    if bytes_eq (metadata_key file_id) k
    then some fresh
    else if starts_with (chunk_prefix file_id) k
    then none
    else contents k

-- The contents with a new file at a path.
abbrev pub created : FilePath → ℕ → Bytes → Contents → Contents
created path file_id fresh contents k =
    if bytes_eq next_file_id_key k
    then some (to_be_bytes (file_id + 1))
    else if bytes_eq (metadata_key file_id) k
    then some fresh
    else if bytes_eq (path_key path) k
    then some (to_be_bytes file_id)
    else contents k

-- What the catalog says of the next file ID: none allocated yet, or a stored one.
abbrev pub IsNext : Contents → ℕ → Type 0
IsNext contents file_id =
    ((contents next_file_id_key ≡ none) × (file_id ≡ 1))
    ⊎ ((contents next_file_id_key ≡ some (to_be_bytes file_id)) × (0 < file_id))

module _ (codec : Codec) (db : TxnDb) (laws : IsTxnDb db) (s : db.State) (contents : Contents)
    (now : ℕ) where
  pub truncate_step :
      (file_id : ℕ) (metadata : FileMetadata) (t : db.Txn)
      → Shows db laws s t contents
      → Prepares codec db laws s
          (prepare_existing codec db now true file_id metadata t)
          (file_id, new now)
          (emptied file_id (codec.encode_to_bytes (new now)) contents)
  unfolding prepare_existing
  truncate_step file_id metadata t h =
      let a = delete_chunks_lem db laws s t contents file_id h in
      let b =
        put_in_lem db laws s a.txn _ (metadata_key file_id) (codec.encode_to_bytes (new now))
          a.shows in
      record { txn = b.txn; done = rw (a.done) (rw (b.done) refl); shows = b.shows }

  pub next_file_id_lem :
      (file_id : ℕ) (t : db.Txn)
      → IsU64 file_id
      → IsNext contents file_id
      → next_file_id codec db (contents next_file_id_key) ≡ ok file_id
  unfolding next_file_id
  next_file_id_lem file_id t u (inl (absent, first)) = rw absent (ap ok (sym first))
  next_file_id_lem file_id t u (inr (stored, positive)) =
      rw stored (decode_file_id-to_be_bytes file_id u positive)

  pub create_step :
      (path : FilePath) (file_id : ℕ) (t : db.Txn)
      → Shows db laws s t contents
      → IsU64 (file_id + 1)
      → IsNext contents file_id
      → Prepares codec db laws s
          (create_in codec db now path t)
          (file_id, new now)
          (created path file_id (codec.encode_to_bytes (new now)) contents)
  unfolding create_in checked_next
  create_step path file_id t h u next =
      let fits : ltb (file_id + 1) 18446744073709551616 ≡ true = ground arith in
      let a = put_in_lem db laws s t contents (path_key path) (to_be_bytes file_id) h in
      let b =
        put_in_lem db laws s a.txn _ (metadata_key file_id) (codec.encode_to_bytes (new now))
          a.shows in
      let c = put_in_lem db laws s b.txn _ next_file_id_key (to_be_bytes (file_id + 1)) b.shows in
      record {
        txn = c.txn;
        done = rw (get_in_lem db laws s t contents next_file_id_key h) (
            rw (next_file_id_lem file_id t (omega arith) next)
              (rw (fits, checked_next) (rw (a.done) (rw (b.done) (rw (c.done) refl)))));
        shows = c.shows;
      }
