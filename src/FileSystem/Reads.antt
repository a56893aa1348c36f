-- ===== src/FileSystem/Reads.antt =====
-- The clients that `read_client` of rust/src/fs.rs gives, which its callers read through.
use duckdb_object_storage.Common.{
  ◌≡◌, refl, ap, subst, Bool, true, false, ◌||◌, Option, none, some, inl, inr, if◌then◌else◌,
  Bool-cases,
}
use duckdb_object_storage.Error.{Error, Result, ok}
use duckdb_object_storage.Database.{DbReadOps}
use duckdb_object_storage.Keys.{Bytes}
use duckdb_object_storage.DatabaseMetadata.{FilePath}
use duckdb_object_storage.Handle.{SlateFileClient}
use duckdb_object_storage.FileSystem.Paths.{database_group}
use duckdb_object_storage.FileSystem.{
  Backend, SlateDbClient, SlateDbFileSystem, ◌>>=◌, pure, or_missing, is_some, set_client,
  put_client, client_for_group, open_reader, add_reader, read_client, reads_of,
}
use duckdb_object_storage.FileSystem.Clients.{
  client_of, after_ok, ensure_open_lem, read_client_closed,
}

ok_injective : {A : Type 0} (a b : A) → ◌≡◌ {A = Result Error A} (ok a) (ok b) → a ≡ b
ok_injective a b e = cc

or_true : (b : Bool) → b || true ≡ true
or_true true = refl
or_true false = refl

module _ {B : Backend} where
  -- A client that the `expect` of `open_read_handle` accepts.
  abbrev pub IsUsable : SlateDbClient B → Type 0
  IsUsable client = is_some client.read_write || is_some client.reader ≡ true

  add_reader-IsUsable :
      (group : Bytes) (client : SlateDbClient B) (s s' : SlateDbFileSystem B × B.World)
      (c : SlateDbClient B)
      → add_reader group client s ≡ (ok c, s')
      → IsUsable c
  unfolding add_reader set_client
  add_reader-IsUsable group client s s' c e =
      let (found, s1, opened, rest) =
        after_ok
          (λ found. pure (or_missing found) >>= (λ reader.
            set_client group (record client { reader = some reader })
            >>= (λ _. pure (ok (record client { reader = some reader })))))
          (open_reader group s) e in
      let (reader, s2, there, rest1) =
        after_ok
          (λ reader.
            set_client group (record client { reader = some reader })
            >>= (λ _. pure (ok (record client { reader = some reader }))))
          (pure (or_missing found) s1) rest in
      subst (λ d. IsUsable d)
        (ok_injective (record client { reader = some reader }) c (ap (λ r. r.0) rest1))
        (or_true (is_some client.read_write))

  choose-IsUsable :
      (group : Bytes) (client : SlateDbClient B) (b : Bool) (s s' : SlateDbFileSystem B × B.World)
      (c : SlateDbClient B)
      → is_some client.read_write || is_some client.reader ≡ b
      → (if b then pure (ok client) else add_reader group client) s ≡ (ok c, s')
      → IsUsable c
  choose-IsUsable group client true s s' c usable e =
      subst (λ d. IsUsable d) (ok_injective client c (ap (λ r. r.0) e)) usable
  choose-IsUsable group client false s s' c usable e = add_reader-IsUsable group client s s' c e

  read_client-IsUsable :
      (path : FilePath) (fs : SlateDbFileSystem B) (w : B.World)
      (s' : SlateDbFileSystem B × B.World) (client : SlateDbClient B)
      → read_client path (fs, w) ≡ (ok client, s')
      → IsUsable client
  unfolding read_client client_for_group
  read_client-IsUsable path fs w s' client e = elim (Bool-cases fs.closed) [
    | inl shut ↦ absurd (cc (read_client_closed path fs w shut))
    | inr running ↦
        choose-IsUsable (database_group path) (client_of (database_group path) fs)
          (is_some (client_of (database_group path) fs).read_write
            || is_some (client_of (database_group path) fs).reader)
          (
            record fs {
              databases =
                  put_client (database_group path) (client_of (database_group path) fs)
                    fs.databases;
            },
            w,
          )
          s' client refl (rw (ensure_open_lem fs w running) at e)
  ]

  reads_of-IsUsable :
      (client : SlateDbClient B) (o : Option B.Db) (p : Option B.DbReader) (later : B.World)
      → client.read_write ≡ o
      → client.reader ≡ p
      → is_some o || is_some p ≡ true
      → (reads : SlateFileClient × DbReadOps) × (reads_of client later ≡ ok reads)
  unfolding reads_of
  reads_of-IsUsable client (some db) p later wr rd usable =
      ((SlateFileClient.read_write, B.read_db db later), rw (wr) refl)
  reads_of-IsUsable client none (some reader) later wr rd usable =
      ((SlateFileClient.read_only, B.read_reader reader later), rw (wr) (rw (rd) refl))
  reads_of-IsUsable client none none later wr rd usable = absurd (cc)

  -- The client that `read_client` gives always reads: the `expect` of `open_read_handle` and the
  -- `unreachable!` of `file_exists` never panic, in whatever state the world is then.
  pub reads_of_lem :
      (path : FilePath) (fs : SlateDbFileSystem B) (w later : B.World)
      (s' : SlateDbFileSystem B × B.World) (client : SlateDbClient B)
      → read_client path (fs, w) ≡ (ok client, s')
      → (reads : SlateFileClient × DbReadOps) × (reads_of client later ≡ ok reads)
  reads_of_lem path fs w later s' client e =
      reads_of-IsUsable client client.read_write client.reader later refl refl
        (read_client-IsUsable path fs w s' client e)
