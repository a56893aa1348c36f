-- ===== src/Transaction.antt =====
-- Transactions of SlateDB, which the catalog calls: a record of the operations that it uses, and what
-- SlateDB documents of them at the isolation level `SerializableSnapshot`.
use duckdb_object_storage.Common.{◌≡◌}
use duckdb_object_storage.Error.{DbErrorKind, Result, ok}
use duckdb_object_storage.Keys.{Bytes}
use duckdb_object_storage.Database.{DbReadOps, put, delete, Contents, Serves, apply_op}

-- A database with transactions. A put or delete that fails leaves no transaction to go on with, since
-- the caller drops it.
pub record TxnDb : Type 1 where
  pub State : Type 0
  pub Txn : Type 0
  pub read : State → DbReadOps
  pub begin : State → Result DbErrorKind Txn
  pub read_txn : Txn → DbReadOps
  pub put_txn : Bytes → Bytes → Txn → Result DbErrorKind Txn
  pub delete_txn : Bytes → Txn → Result DbErrorKind Txn
  pub commit : Txn → State → Result DbErrorKind (Unit {0}) × State

-- A database that answers, with no other writer while a transaction runs. A transaction reads the
-- state that it began in with its own writes, and a commit makes these the contents of the database.
pub record IsTxnDb (db : TxnDb) : Type 1 where
  pub Began : db.State → db.Txn → Type 0
  pub begin_lem :
      (s : db.State) (contents : Contents)
      → Serves (db.read s) contents
      → (t : db.Txn) × (db.begin s ≡ ok t) × Began s t × Serves (db.read_txn t) contents
  pub put_lem :
      (s : db.State) (t : db.Txn) (contents : Contents) (k v : Bytes)
      → Began s t
      → Serves (db.read_txn t) contents
      → (t' : db.Txn) × (db.put_txn k v t ≡ ok t')
        × Began s t'
        × Serves (db.read_txn t') (apply_op (put k v) contents)
  pub delete_lem :
      (s : db.State) (t : db.Txn) (contents : Contents) (k : Bytes)
      → Began s t
      → Serves (db.read_txn t) contents
      → (t' : db.Txn) × (db.delete_txn k t ≡ ok t')
        × Began s t'
        × Serves (db.read_txn t') (apply_op (delete k) contents)
  pub commit_lem :
      (s : db.State) (t : db.Txn) (contents : Contents)
      → Began s t
      → Serves (db.read_txn t) contents
      → ((db.commit t s).0 ≡ ok tt) × Serves (db.read (db.commit t s).1) contents
