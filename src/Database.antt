-- ===== src/Database.antt =====
-- SlateDB, which the crate calls and does not implement: the operations that it uses, as a record,
-- and what SlateDB documents of them, as laws over the contents of the database.
use duckdb_object_storage.Common.{
  ℕ, ◌≡◌, ◌⊎◌, Bool, true, ◌&&◌, Option, none, some, List, [], ◌∷◌, map, if◌then◌else◌, All,
}
use duckdb_object_storage.Error.{DbErrorKind, Result, ok}
use duckdb_object_storage.Keys.{Bytes}
use duckdb_object_storage.Keys.Order.{lex_le, starts_with, bytes_eq}

-- `ScanOptions`, as far as the crate sets them.
pub record ScanOptions : Type 0 where
  pub read_ahead_bytes : ℕ
  pub max_fetch_tasks : ℕ
  pub cache_blocks : Bool

abbrev pub KeyValue : Type 0
KeyValue = Bytes × Bytes

-- What `iter.next().await` yields in turn, up to the end of the scan.
abbrev pub DbIterator : Type 0
DbIterator = List (Result DbErrorKind KeyValue)

-- The reads that `Db`, `DbReader` and a transaction share, at one moment.
pub record DbReadOps : Type 0 where
  pub get : Bytes → Result DbErrorKind (Option Bytes)
  pub scan_with_options : Bytes → Bytes → ScanOptions → Result DbErrorKind DbIterator
  pub scan_prefix : Bytes → Result DbErrorKind DbIterator

pub data BatchOp : Type 0 where
  put : Bytes → Bytes → BatchOp
  delete : Bytes → BatchOp

abbrev pub WriteBatch : Type 0
WriteBatch = List BatchOp

-- A database handle over an unknown state; a write or a flush that fails also leaves a state.
pub record Db : Type 1 where
  pub State : Type 0
  pub read : State → DbReadOps
  pub write : WriteBatch → State → Result DbErrorKind (Unit {0}) × State
  pub flush : State → Result DbErrorKind (Unit {0}) × State

abbrev pub Contents : Type 0
Contents = Bytes → Option Bytes

abbrev pub Has {ℓ} : {V : Type ℓ} → Bytes → List (Bytes × V) → Type 0
Has k [] = ⊥
Has k ((j, v) ∷ items) = (j ≡ k) ⊎ Has k items

-- The items are entries that pass the test, and every entry that passes it is among them.
pub record Lists (contents : Contents) (test : Bytes → Bool) (items : List KeyValue) : Type 0 where
  pub sound : All (λ (kv : KeyValue). (test kv.0 ≡ true) × (contents kv.0 ≡ some kv.1)) items
  pub complete : (k v : Bytes) → test k ≡ true → contents k ≡ some v → Has k items

abbrev pub between : Bytes → Bytes → Bytes → Bool
between first last k = lex_le first k && lex_le k last

-- Reads that succeed and show the contents.
pub record Serves (r : DbReadOps) (contents : Contents) : Type 0 where
  pub get_lem : (k : Bytes) → r.get k ≡ ok (contents k)
  pub scan_lem :
      (first last : Bytes) (options : ScanOptions)
      → (items : List KeyValue) × (r.scan_with_options first last options ≡ ok (map ok items))
        × Lists contents (between first last) items
  pub prefix_lem :
      (prefix : Bytes)
      → (items : List KeyValue) × (r.scan_prefix prefix ≡ ok (map ok items))
        × Lists contents (starts_with prefix) items

-- What a batch does to the contents, its operations in order.
unfoldable pub apply_op : BatchOp → Contents → Contents
apply_op (put k v) contents j = if bytes_eq k j then some v else contents j
apply_op (delete k) contents j = if bytes_eq k j then none else contents j

unfoldable pub apply_batch : WriteBatch → Contents → Contents
apply_batch [] contents = contents
apply_batch (op ∷ batch) contents = apply_batch batch (apply_op op contents)

-- What SlateDB promises of writes: a batch that is written is applied as a whole, and a flush only
-- makes it durable.
pub record IsDb (db : Db) : Type 0 where
  pub write_lem :
      (s : db.State) (contents : Contents) (batch : WriteBatch)
      → Serves (db.read s) contents
      → (db.write batch s).0 ≡ ok tt
      → Serves (db.read (db.write batch s).1) (apply_batch batch contents)
  pub flush_lem :
      (s : db.State) (contents : Contents)
      → Serves (db.read s) contents
      → Serves (db.read (db.flush s).1) contents
