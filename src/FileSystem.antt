-- ===== src/FileSystem.antt =====
-- rust/src/fs.rs: the filesystem, which keeps a SlateDB client for each database and sends every
-- operation on a path to the client of its database. SlateDB and the object store are a parameter;
-- what they keep is the world, an argument and a result of every operation that reaches them.
pub mod Paths
pub mod Storage
pub mod Naming
pub mod Clients
pub mod Closing
pub mod Reads
use Paths.{database_group, slatedb_path, db_cache_id}
use duckdb_object_storage.Common.{
  ℕ, Bool, true, false, not, ◌&&◌, ◌||◌, Option, none, some, List, [], ◌∷◌, if◌then◌else◌,
}
use duckdb_object_storage.Error.{
  Error, Result, ok, err, panic, argument_error, not_found_error, DbErrorKind, from_slatedb,
  map_err,
}
use duckdb_object_storage.Keys.{Bytes}
use duckdb_object_storage.Keys.Order.{bytes_eq, starts_with}
use duckdb_object_storage.Cache.{
  CacheConfig, ObjectStoreCacheOptions, CacheLibrary, object_store_cache_options, build_db_cache,
}
use duckdb_object_storage.Database.{DbReadOps}
use duckdb_object_storage.Transaction.{TxnDb}
use duckdb_object_storage.Metadata.{FileMetadata, Codec}
use duckdb_object_storage.Flags.{FileOpenFlags, validate}
use duckdb_object_storage.DatabaseMetadata
use duckdb_object_storage.DatabaseMetadata.{FilePath, prepare_file_for_open}
use duckdb_object_storage.Handle.{SlateFileClient, SlateFileHandle, with_chunk_store_internal}

-- A SlateDB error, with the message that it displays.
pub record DbError : Type 0 where
  pub kind : DbErrorKind
  pub message : Bytes

-- SlateDB over an object store.
pub record Backend : Type 1 where
  pub lib : CacheLibrary
  pub World : Type 0
  pub Db : Type 0
  pub DbReader : Type 0
  pub Txn : Type 0
  -- The builders, by the path of the database, the cache options, and the block cache with its ID.
  pub build_writer :
      Bytes
      → ObjectStoreCacheOptions
      → Option (lib.DbCache × ℕ)
      → World
      → Result DbErrorKind Db × World
  pub build_reader :
      Bytes
      → ObjectStoreCacheOptions
      → Option (lib.DbCache × ℕ)
      → World
      → Result DbError DbReader × World
  pub read_db : Db → World → DbReadOps
  pub read_reader : DbReader → World → DbReadOps
  pub begin : Db → World → Result DbErrorKind Txn
  pub read_txn : Txn → DbReadOps
  pub put_txn : Bytes → Bytes → Txn → Result DbErrorKind Txn
  pub delete_txn : Bytes → Txn → Result DbErrorKind Txn
  pub commit : Db → Txn → World → Result DbErrorKind (Unit {0}) × World
  pub close_db : Db → World → Result DbErrorKind (Unit {0}) × World
  pub close_reader : DbReader → World → Result DbErrorKind (Unit {0}) × World
  pub close_cache : lib.DbCache → World → Result DbErrorKind (Unit {0}) × World

-- failed to find latest transactional object
abbrev pub missing_message : Bytes
missing_message =
    b'f' ∷ b'a' ∷ b'i' ∷ b'l' ∷ b'e' ∷ b'd' ∷ b' ' ∷ b't' ∷ b'o' ∷ b' ' ∷ b'f' ∷ b'i' ∷ b'n' ∷ b'd'
    ∷ b' ' ∷ b'l' ∷ b'a' ∷ b't' ∷ b'e' ∷ b's' ∷ b't' ∷ b' ' ∷ b't' ∷ b'r' ∷ b'a' ∷ b'n' ∷ b's'
    ∷ b'a' ∷ b'c' ∷ b't' ∷ b'i' ∷ b'o' ∷ b'n' ∷ b'a' ∷ b'l' ∷ b' ' ∷ b'o' ∷ b'b' ∷ b'j' ∷ b'e'
    ∷ b'c' ∷ b't' ∷ []

-- `str::contains`
unfoldable pub contains : Bytes → Bytes → Bool
contains [] part = starts_with part []
contains (b ∷ text) part = starts_with part (b ∷ text) || contains text part

is_data : DbErrorKind → Bool
is_data DbErrorKind.bad_data = true
is_data _ = false

-- The error of a reader that is opened on a database that has never been written.
unfoldable pub is_missing : DbError → Bool
unfolding is_data
is_missing e = is_data e.kind && contains e.message missing_message

abbrev pub is_some {ℓ} : {A : Type ℓ} → Option A → Bool
is_some none = false
is_some (some a) = true

module _ (B : Backend) where
  pub record SlateDbClient : Type 0 where
    pub read_write : Option B.Db
    pub reader : Option B.DbReader

  -- `SlateDbClient::default`
  abbrev pub no_client : SlateDbClient
  no_client = record { read_write = none; reader = none }

  pub record SlateDbFileSystem : Type 0 where
    pub database_path : Bytes
    pub store_location : Bytes
    pub cache_config : CacheConfig
    pub db_cache : Option B.lib.DbCache
    pub databases : List (Bytes × SlateDbClient)
    pub closed : Bool

  -- An operation of the filesystem: what it returns, and the filesystem and the world that it leaves.
  abbrev pub Fs {ℓ} : Type ℓ → Type ℓ
  Fs A = SlateDbFileSystem × B.World → Result Error A × (SlateDbFileSystem × B.World)

  unfoldable pub open_with_cache_config :
      Bytes → Bytes → CacheConfig → Result Error SlateDbFileSystem
  open_with_cache_config [] store_location cache_config = err argument_error
  open_with_cache_config (b ∷ database_path) store_location cache_config = ok (record {
    database_path = b ∷ database_path;
    store_location = store_location;
    cache_config = cache_config;
    db_cache = build_db_cache B.lib cache_config;
    databases = [];
    closed = false;
  })

  -- The database of a writer, as the catalog uses it.
  abbrev pub txn_of : B.Db → TxnDb
  txn_of db = record {
    State = B.World;
    Txn = B.Txn;
    read = B.read_db db;
    begin = B.begin db;
    read_txn = B.read_txn;
    put_txn = B.put_txn;
    delete_txn = B.delete_txn;
    commit = B.commit db;
  }

-- The `?` operator between operations of the filesystem.
abbrev pub after {ℓ κ} :
    {S : Type 0} {A : Type ℓ} {C : Type κ}
    → (A → S → Result Error C × S)
    → Result Error A × S
    → Result Error C × S
after rest (ok a, s) = rest a s
after rest (err e, s) = (err e, s)
after rest (panic, s) = (panic, s)

infixl 5 ◌>>=◌
abbrev pub ◌>>=◌ {ℓ κ} :
    {S : Type 0} {A : Type ℓ} {C : Type κ}
    → (S → Result Error A × S)
    → (A → S → Result Error C × S)
    → S
    → Result Error C × S
(first >>= rest) s = after rest (first s)

-- A result that changes nothing.
abbrev pub pure {ℓ} : {S : Type 0} {A : Type ℓ} → Result Error A → S → Result Error A × S
pure result s = (result, s)

abbrev opened_reader {ℓ} : {R : Type ℓ} → Result DbError R → Result Error (Option R)
opened_reader (ok reader) = ok (some reader)
opened_reader (err e) = if is_missing e then ok none else err (from_slatedb e.kind)
opened_reader panic = panic

abbrev or_missing {ℓ} : {R : Type ℓ} → Option R → Result Error R
or_missing none = err not_found_error
or_missing (some reader) = ok reader

-- A result, and the next error if it is the first.
unfoldable pub keep_first :
    Result Error (Unit {0}) → Result DbErrorKind (Unit {0}) → Result Error (Unit {0})
keep_first (ok _) next = map_err from_slatedb next
keep_first (err e) panic = panic
keep_first (err e) (ok _) = err e
keep_first (err e) (err _) = err e
keep_first panic next = panic

-- One more database, reader or cache to close; a panic ends the closing.
unfoldable pub close_step :
    {W : Type 0}
    → (W → Result DbErrorKind (Unit {0}) × W)
    → Result Error (Unit {0}) × W
    → Result Error (Unit {0}) × W
close_step step (panic, w) = (panic, w)
close_step step (ok _, w) = (keep_first (ok tt) (step w).0, (step w).1)
close_step step (err e, w) = (keep_first (err e) (step w).0, (step w).1)

unfoldable pub close_all {ℓ} :
    {W : Type 0} {A : Type ℓ}
    → (A → W → Result DbErrorKind (Unit {0}) × W)
    → Option A
    → Result Error (Unit {0}) × W
    → Result Error (Unit {0}) × W
close_all close_one none done = done
close_all close_one (some a) done = close_step (close_one a) done

module _ {B : Backend} where
  -- A step of the world alone.
  abbrev pub in_world {ℓ} : {A : Type ℓ} → (B.World → Result Error A × B.World) → Fs B A
  in_world step (fs, w) = ((step w).0, (fs, (step w).1))

  abbrev pub find_client : Bytes → List (Bytes × SlateDbClient B) → Option (SlateDbClient B)
  find_client group [] = none
  find_client group ((g, client) ∷ databases) =
      if bytes_eq g group then some client else find_client group databases

  abbrev pub put_client :
      Bytes → SlateDbClient B → List (Bytes × SlateDbClient B) → List (Bytes × SlateDbClient B)
  put_client group client [] = (group, client) ∷ []
  put_client group client ((g, c) ∷ databases) =
      if bytes_eq g group
      then (g, client) ∷ databases
      else (g, c) ∷ put_client group client databases

  -- The client of a group, which an absent one starts as.
  abbrev or_default : Option (SlateDbClient B) → SlateDbClient B
  or_default none = no_client B
  or_default (some client) = client

  -- What a locked client is changed to.
  unfoldable pub set_client : Bytes → SlateDbClient B → Fs B (Unit {0})
  set_client group client (fs, w) =
      (ok tt, (record fs { databases = put_client group client fs.databases }, w))

  unfoldable pub client_for_group : Bytes → Fs B (SlateDbClient B)
  client_for_group group (fs, w) =
      let client = or_default (find_client group fs.databases) in
      (ok client, (record fs { databases = put_client group client fs.databases }, w))

  unfoldable pub ensure_open : Fs B (Unit {0})
  ensure_open (fs, w) = (if fs.closed then err argument_error else ok tt, (fs, w))

  -- The block cache of a builder, with the ID of the group.
  abbrev cache_of : SlateDbFileSystem B → Bytes → Option B.lib.DbCache → Option (B.lib.DbCache × ℕ)
  cache_of fs group none = none
  cache_of fs group (some cache) =
      some (cache, db_cache_id fs.store_location fs.database_path group)

  unfoldable pub open_writer : Bytes → Fs B B.Db
  open_writer group (fs, w) =
      let built =
        B.build_writer (slatedb_path fs.database_path group)
          (object_store_cache_options B.lib fs.cache_config) (cache_of fs group fs.db_cache) w in
      (map_err from_slatedb built.0, (fs, built.1))

  unfoldable pub open_reader : Bytes → Fs B (Option B.DbReader)
  open_reader group (fs, w) =
      let built =
        B.build_reader (slatedb_path fs.database_path group)
          (object_store_cache_options B.lib fs.cache_config) (cache_of fs group fs.db_cache) w in
      (opened_reader built.0, (fs, built.1))

  -- A reader for a client that has none, which the client keeps.
  unfoldable pub add_reader : Bytes → SlateDbClient B → Fs B (SlateDbClient B)
  add_reader group client = do
    found ← open_reader group
    reader ← pure (or_missing found)
    let opened : SlateDbClient B = record client { reader = some reader }
    _ ← set_client group opened
    pure (ok opened)

  unfoldable pub read_client : FilePath → Fs B (SlateDbClient B)
  read_client path = do
    _ ← ensure_open
    client ← client_for_group (database_group path)
    if is_some client.read_write || is_some client.reader
        then pure (ok client)
        else add_reader (database_group path) client

  -- A writer for a client that has none, which the client keeps.
  unfoldable pub add_writer : Bytes → SlateDbClient B → Fs B B.Db
  add_writer group client = do
    db ← open_writer group
    _ ← set_client group (record client { read_write = some db })
    pure (ok db)

  unfoldable pub writer_of : Bytes → Bool → SlateDbClient B → Option B.Db → Fs B B.Db
  writer_of group create client (some db) = pure (ok db)
  writer_of group create client none = do
    checked ←
        if not create && not (is_some client.reader)
        then add_reader group client
        else pure (ok client)
    add_writer group checked

  unfoldable pub write_db : FilePath → Bool → Fs B B.Db
  write_db path create = do
    _ ← ensure_open
    client ← client_for_group (database_group path)
    writer_of (database_group path) create client client.read_write

  -- The reads of a client at a moment: `panic` where the source's `expect` would fail.
  unfoldable pub reads_of : SlateDbClient B → B.World → Result Error (SlateFileClient × DbReadOps)
  reads_of client w = elim client.read_write [
    | some db ↦ ok (SlateFileClient.read_write, B.read_db db w)
    | none ↦ elim client.reader [
      | some reader ↦ ok (SlateFileClient.read_only, B.read_reader reader w)
      | none ↦ panic
    ]
  ]

  -- The reads of a client, as an operation.
  unfoldable pub reads_now : SlateDbClient B → Fs B (SlateFileClient × DbReadOps)
  reads_now client (fs, w) = (reads_of client w, (fs, w))

  module _ (codec : Codec) where
    unfoldable pub open_write_handle : ℕ → FilePath → FileOpenFlags → Fs B SlateFileHandle
    open_write_handle now path flags = do
      db ← write_db path flags.create
      file ←
          in_world (
            prepare_file_for_open codec (txn_of B db) now path flags.create flags.truncate_existing)
      pure (with_chunk_store_internal SlateFileClient.read_write file.0 file.1 flags)

    unfoldable pub open_read_handle : FilePath → FileOpenFlags → Fs B SlateFileHandle
    open_read_handle path flags = do
      client ← read_client path
      reads ← reads_now client
      file ← pure (DatabaseMetadata.open_file codec reads.1 path)
      pure (with_chunk_store_internal reads.0 file.0 file.1 flags)

    unfoldable pub open_file : ℕ → FilePath → FileOpenFlags → Fs B SlateFileHandle
    open_file now path flags = do
      _ ← pure (validate flags)
      if flags.write then open_write_handle now path flags else open_read_handle path flags

  -- An error that only says that there is no database answers that there is no file.
  unfoldable pub exists_in :
      FilePath
      → Result Error (SlateDbClient B) × (SlateDbFileSystem B × B.World)
      → Result Error Bool × (SlateDbFileSystem B × B.World)
  exists_in path (ok client, s) =
      after (λ reads. pure (DatabaseMetadata.file_exists reads.1 path)) (reads_now client s)
  exists_in path (err (Error.file_not_found inner), s) = (ok false, s)
  exists_in path (err e, s) = (err e, s)
  exists_in path (panic, s) = (panic, s)

  unfoldable pub file_exists : FilePath → Fs B Bool
  file_exists path s = exists_in path (read_client path s)

  unfoldable pub remove_file : FilePath → Fs B (Unit {0})
  remove_file path = do
    db ← write_db path false
    in_world (DatabaseMetadata.remove_file (txn_of B db) path)

  unfoldable pub move_file : FilePath → FilePath → Fs B (Unit {0})
  move_file source target =
      if not (bytes_eq (database_group source) (database_group target))
      then pure (err argument_error)
      else (do
        db ← write_db source false
        in_world (DatabaseMetadata.move_file (txn_of B db) source target))

  unfoldable pub close_clients :
      List (Bytes × SlateDbClient B)
      → Result Error (Unit {0}) × B.World
      → Result Error (Unit {0}) × B.World
  close_clients [] done = done
  close_clients ((group, client) ∷ databases) done =
      close_clients databases
        (close_all B.close_reader client.reader (close_all B.close_db client.read_write done))

  -- The end of `close`: the cache is taken before it is closed, unless a database panicked.
  unfoldable pub close_cache_of :
      SlateDbFileSystem B
      → Result Error (Unit {0}) × B.World
      → Result Error (Unit {0}) × (SlateDbFileSystem B × B.World)
  close_cache_of fs (panic, w) = (panic, (fs, w))
  close_cache_of fs (ok _, w) =
      let done = close_all B.close_cache fs.db_cache (ok tt, w) in
      (done.0, (record fs { db_cache = none }, done.1))
  close_cache_of fs (err e, w) =
      let done = close_all B.close_cache fs.db_cache (err e, w) in
      (done.0, (record fs { db_cache = none }, done.1))

  unfoldable pub close : Fs B (Unit {0})
  close (fs, w) =
      close_cache_of (record fs { databases = []; closed = true })
        (close_clients fs.databases (ok tt, w))
