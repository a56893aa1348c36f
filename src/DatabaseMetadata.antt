-- ===== src/DatabaseMetadata.antt =====
-- rust/src/database_metadata.rs: the catalog of one database, which maps paths to file IDs. What an
-- operation needs of SlateDB is a parameter; the state of the database is an argument and a result.
pub mod Ids
pub mod Families
pub mod Edits
pub mod Remove
pub mod Move
pub mod Prepare
pub mod Open
pub mod Catalog
pub mod Keeps
pub mod Sequences
use Ids.{to_be_bytes, decode_file_id}
use duckdb_object_storage.Common.{
  ℕ, ◌+◌, Bool, true, false, Option, none, some, List, [], ◌∷◌, ◌++◌, ◌==◌, if◌then◌else◌,
  checked_add,
}
use duckdb_object_storage.Error.{
  Error, Result, ok, err, panic, decode_error, not_found_error, argument_error, DbErrorKind,
  from_slatedb, map_err, ◌>>=◌,
}
use duckdb_object_storage.Keys.{Bytes, chunk_prefix, metadata_key}
use duckdb_object_storage.Keys.Order.{bytes_eq}
use duckdb_object_storage.Database.{DbReadOps, DbIterator}
use duckdb_object_storage.Transaction.{TxnDb}
use duckdb_object_storage.Metadata.{FileMetadata, Codec, new}

-- `NEXT_FILE_ID_KEY`: m/0000000000000000/next_file_id
abbrev pub next_file_id_key : Bytes
next_file_id_key =
    b'm' ∷ b'/' ∷ b'0' ∷ b'0' ∷ b'0' ∷ b'0' ∷ b'0' ∷ b'0' ∷ b'0' ∷ b'0' ∷ b'0' ∷ b'0' ∷ b'0' ∷ b'0'
    ∷ b'0' ∷ b'0' ∷ b'0' ∷ b'0' ∷ b'/' ∷ b'n' ∷ b'e' ∷ b'x' ∷ b't' ∷ b'_' ∷ b'f' ∷ b'i' ∷ b'l'
    ∷ b'e' ∷ b'_' ∷ b'i' ∷ b'd' ∷ []

-- A path is the bytes of a string.
abbrev pub FilePath : Type 0
FilePath = List ℕ

unfoldable pub validate_path : FilePath → Result Error (Unit {0})
validate_path [] = err argument_error
validate_path (b ∷ path) = ok tt

unfoldable pub path_key : FilePath → Bytes
path_key path = b'p' ∷ b'/' ∷ path

-- `ok_or_else`
abbrev pub required : Error → Option Bytes → Result Error Bytes
required e none = err e
required e (some bytes) = ok bytes

-- `find_file`, over the reads of a client or of a transaction.
module _ (codec : Codec) (reader : DbReadOps) where
  unfoldable pub metadata_of : ℕ → Result Error FileMetadata
  metadata_of file_id = do
    found ← map_err from_slatedb (reader.get (metadata_key file_id))
    bytes ← required decode_error found
    codec.decode_from_bytes bytes

  unfoldable pub found_file : Option Bytes → Result Error (Option (ℕ × FileMetadata))
  found_file none = ok none
  found_file (some file_id_bytes) = do
    file_id ← decode_file_id file_id_bytes
    metadata ← metadata_of file_id
    ok (some (file_id, metadata))

  unfoldable pub find_file : FilePath → Result Error (Option (ℕ × FileMetadata))
  find_file path = do
    mapping ← map_err from_slatedb (reader.get (path_key path))
    found_file mapping

  unfoldable pub or_not_found : Option (ℕ × FileMetadata) → Result Error (ℕ × FileMetadata)
  or_not_found none = err not_found_error
  or_not_found (some found) = ok found

  unfoldable pub open_file : FilePath → Result Error (ℕ × FileMetadata)
  open_file path = do _ ← validate_path path; found ← find_file path; or_not_found found

abbrev is_some {ℓ} : {A : Type ℓ} → Option A → Bool
is_some none = false
is_some (some a) = true

unfoldable pub file_exists : DbReadOps → FilePath → Result Error Bool
file_exists reader path = do
  _ ← validate_path path
  mapping ← map_err from_slatedb (reader.get (path_key path))
  ok (is_some mapping)

module _ (db : TxnDb) where
  unfoldable pub put_in : Bytes → Bytes → db.Txn → Result Error db.Txn
  put_in k v t = map_err from_slatedb (db.put_txn k v t)

  unfoldable pub delete_in : Bytes → db.Txn → Result Error db.Txn
  delete_in k t = map_err from_slatedb (db.delete_txn k t)

  unfoldable pub get_in : db.Txn → Bytes → Result Error (Option Bytes)
  get_in t k = map_err from_slatedb ((db.read_txn t).get k)

  -- `while let Some(chunk) = chunks.next().await? { transaction.delete(chunk.key)?; }`
  unfoldable pub delete_scanned : DbIterator → db.Txn → Result Error db.Txn
  delete_scanned [] t = ok t
  delete_scanned (ok chunk ∷ chunks) t = do t' ← delete_in chunk.0 t; delete_scanned chunks t'
  delete_scanned (err e ∷ chunks) t = err (from_slatedb e)
  delete_scanned (panic ∷ chunks) t = panic

  unfoldable pub delete_chunks : ℕ → db.Txn → Result Error db.Txn
  delete_chunks file_id t = do
    chunks ← map_err from_slatedb ((db.read_txn t).scan_prefix (chunk_prefix file_id))
    delete_scanned chunks t

  unfoldable pub begin_in : db.State → Result Error db.Txn
  begin_in s = map_err from_slatedb (db.begin s)

  -- The end of an operation: the commit of the transaction that it has built, if it got that far.
  unfoldable pub finish : Result Error db.Txn → db.State → Result Error (Unit {0}) × db.State
  finish (ok t) s = (map_err from_slatedb (db.commit t s).0, (db.commit t s).1)
  finish (err e) s = (err e, s)
  finish panic s = (panic, s)

  unfoldable pub remove_in : FilePath → db.Txn → Result Error db.Txn
  remove_in path t = do
    mapping ← get_in t (path_key path)
    bytes ← required not_found_error mapping
    file_id ← decode_file_id bytes
    t1 ← delete_in (path_key path) t
    t2 ← delete_in (metadata_key file_id) t1
    delete_chunks file_id t2

  unfoldable pub remove_file : FilePath → db.State → Result Error (Unit {0}) × db.State
  remove_file path s = finish (do _ ← validate_path path; t ← begin_in s; remove_in path t) s

  -- What a move removes of the file that the target path maps to.
  unfoldable pub replace_target : ℕ → Option Bytes → db.Txn → Result Error db.Txn
  replace_target source_file_id none t = ok t
  replace_target source_file_id (some bytes) t = do
    target_file_id ← decode_file_id bytes
    if target_file_id == source_file_id
        then ok t
        else do t1 ← delete_in (metadata_key target_file_id) t; delete_chunks target_file_id t1

  unfoldable pub move_in : FilePath → FilePath → db.Txn → Result Error db.Txn
  move_in source target t = do
    mapping ← get_in t (path_key source)
    bytes ← required not_found_error mapping
    source_file_id ← decode_file_id bytes
    target_mapping ← get_in t (path_key target)
    t1 ← replace_target source_file_id target_mapping t
    t2 ← delete_in (path_key source) t1
    put_in (path_key target) (to_be_bytes source_file_id) t2

  unfoldable pub move_distinct : FilePath → FilePath → db.State → Result Error (Unit {0}) × db.State
  move_distinct source target s = finish (do t ← begin_in s; move_in source target t) s

  unfoldable pub move_checked :
      Result Error (Unit {0}) → FilePath → FilePath → db.State → Result Error (Unit {0}) × db.State
  move_checked (ok _) source target s =
      if bytes_eq source target then (ok tt, s) else move_distinct source target s
  move_checked (err e) source target s = (err e, s)
  move_checked panic source target s = (panic, s)

  unfoldable pub move_file : FilePath → FilePath → db.State → Result Error (Unit {0}) × db.State
  move_file source target s =
      move_checked (do _ ← validate_path source; validate_path target) source target s

module _ (codec : Codec) (db : TxnDb) where
  -- What a prepared open gives, and the transaction to commit if it changed anything.
  abbrev pub Prepared : Type 0
  Prepared = (ℕ × FileMetadata) × Option db.Txn

  -- An existing file, emptied if the flags ask for it.
  unfoldable pub prepare_existing : ℕ → Bool → ℕ → FileMetadata → db.Txn → Result Error Prepared
  prepare_existing now truncate_existing file_id metadata t =
      if truncate_existing
      then (do
        t1 ← delete_chunks db file_id t
        t2 ← put_in db (metadata_key file_id) (codec.encode_to_bytes (new now)) t1
        ok ((file_id, new now), some t2))
      else ok ((file_id, metadata), none)

  unfoldable pub next_file_id : Option Bytes → Result Error ℕ
  next_file_id (some bytes) = decode_file_id bytes
  next_file_id none = ok 1

  unfoldable pub checked_next : ℕ → Result Error ℕ
  checked_next file_id = elim (checked_add file_id 1) [ some n ↦ ok n | none ↦ err decode_error ]

  unfoldable pub create_in : ℕ → FilePath → db.Txn → Result Error Prepared
  create_in now path t = do
    allocated ← get_in db t next_file_id_key
    file_id ← next_file_id allocated
    next ← checked_next file_id
    t1 ← put_in db (path_key path) (to_be_bytes file_id) t
    t2 ← put_in db (metadata_key file_id) (codec.encode_to_bytes (new now)) t1
    t3 ← put_in db next_file_id_key (to_be_bytes next) t2
    ok ((file_id, new now), some t3)

  unfoldable pub prepare_found :
      ℕ → FilePath → Bool → Bool → Option (ℕ × FileMetadata) → db.Txn → Result Error Prepared
  prepare_found now path create truncate_existing (some (file_id, metadata)) t =
      prepare_existing now truncate_existing file_id metadata t
  prepare_found now path create truncate_existing none t =
      if create then create_in now path t else err not_found_error

  unfoldable pub prepare_in : ℕ → FilePath → Bool → Bool → db.Txn → Result Error Prepared
  prepare_in now path create truncate_existing t = do
    found ← find_file codec (db.read_txn t) path
    prepare_found now path create truncate_existing found t

  unfoldable pub after_commit :
      ℕ × FileMetadata
      → Result DbErrorKind (Unit {0}) × db.State
      → Result Error (ℕ × FileMetadata) × db.State
  after_commit file (ok _, s) = (ok file, s)
  after_commit file (err e, s) = (err (from_slatedb e), s)
  after_commit file (panic, s) = (panic, s)

  unfoldable pub finish_prepare :
      Result Error Prepared → db.State → Result Error (ℕ × FileMetadata) × db.State
  finish_prepare (ok (file, some t)) s = after_commit file (db.commit t s)
  finish_prepare (ok (file, none)) s = (ok file, s)
  finish_prepare (err e) s = (err e, s)
  finish_prepare panic s = (panic, s)

  unfoldable pub prepare_file_for_open :
      ℕ → FilePath → Bool → Bool → db.State → Result Error (ℕ × FileMetadata) × db.State
  prepare_file_for_open now path create truncate_existing s =
      finish_prepare
        (do
          _ ← validate_path path
          t ← begin_in db s
          prepare_in now path create truncate_existing t)
        s
