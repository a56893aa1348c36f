-- ===== src/FileSystem/Clients.antt =====
-- The clients that rust/src/fs.rs keeps: which operations open one, and which reuse it.
use duckdb_object_storage.Common.{
  ◌≡◌, refl, ap, ◌∙◌, sym, subst, Bool, true, false, not, ◌&&◌, Option, none, some, List, [], ◌∷◌,
  inl, inr, if◌then◌else◌, Bool-cases,
}
use duckdb_object_storage.Error.{Error, Result, ok, err, panic, not_found_error, argument_error}
use duckdb_object_storage.Keys.{Bytes}
use duckdb_object_storage.Keys.Order.{bytes_eq, bytes_eq_refl}
use duckdb_object_storage.Cache.{object_store_cache_options}
use duckdb_object_storage.FileSystem.Paths.{database_group, slatedb_path}
use duckdb_object_storage.FileSystem.{
  Backend, SlateDbClient, no_client, SlateDbFileSystem, DbError, is_missing, after, find_client,
  put_client, or_default, or_missing, pure, ◌>>=◌, cache_of, set_client, client_for_group,
  ensure_open, open_writer, open_reader, add_reader, read_client, add_writer, writer_of, write_db,
  is_some,
}

module _ {B : Backend} where
  -- The client of a group in a filesystem.
  abbrev pub client_of : Bytes → SlateDbFileSystem B → SlateDbClient B
  client_of group fs = or_default (find_client group fs.databases)

  find_client-put_client :
      (group : Bytes) (client : SlateDbClient B) (databases : List (Bytes × SlateDbClient B))
      → find_client group (put_client group client databases) ≡ some client
  find_client-put_client group client [] = rw (bytes_eq_refl group) refl
  find_client-put_client group client ((g, c) ∷ databases) = elim (Bool-cases (bytes_eq g group)) [
    | inl same ↦ rw same (rw same refl)
    | inr other ↦ rw other (rw other (find_client-put_client group client databases))
  ]

  put_client_twice :
      (group : Bytes) (c d : SlateDbClient B) (databases : List (Bytes × SlateDbClient B))
      → put_client group d (put_client group c databases) ≡ put_client group d databases
  put_client_twice group c d [] = rw (bytes_eq_refl group) refl
  put_client_twice group c d ((g, old) ∷ databases) = elim (Bool-cases (bytes_eq g group)) [
    | inl same ↦ rw same (rw same refl)
    | inr other ↦
        rw other (rw other (ap (λ rest. (g, old) ∷ rest) (put_client_twice group c d databases)))
  ]

  put_client_same :
      (group : Bytes) (client : SlateDbClient B) (databases : List (Bytes × SlateDbClient B))
      → find_client group databases ≡ some client
      → put_client group client databases ≡ databases
  put_client_same group client [] found = absurd (cc)
  put_client_same group client ((g, c) ∷ databases) found = elim (Bool-cases (bytes_eq g group)) [
    | inl same ↦ let e : c ≡ client = cc (rw same at found) in rw same (rw e refl)
    | inr other ↦
        rw other
          (ap (λ rest. (g, c) ∷ rest) (put_client_same group client databases (rw other at found)))
  ]

  -- Asking for a writer without `create` opens none where there is no database: if the filesystem is open and has no
  -- client for the group, and the reader says that the database is missing, then the file is not found, the world
  -- is as that reader left it, and the client of the group is still empty.
  pub write_db_missing :
      (path : Bytes) (fs : SlateDbFileSystem B) (w w' : B.World) (e : DbError)
      → fs.closed ≡ false
      → client_of (database_group path) fs ≡ no_client B
      → B.build_reader
          (slatedb_path fs.database_path (database_group path))
          (object_store_cache_options B.lib fs.cache_config)
          (cache_of fs (database_group path) fs.db_cache)
          w
        ≡ (err e, w')
      → is_missing e ≡ true
      → write_db path false (fs, w) ≡ (
        err not_found_error,
        (record fs { databases = put_client (database_group path) (no_client B) fs.databases }, w'),
      )
  unfolding write_db ensure_open client_for_group writer_of add_reader open_reader set_client
  write_db_missing path fs w w' e running absent built missing =
      rw running (rw absent (rw built (rw missing refl)))

-- A chain that succeeds has a first part that succeeds.
pub after_ok {ℓ κ} :
    {S : Type 0} {A : Type ℓ} {C : Type κ} (rest : A → S → Result Error C × S)
    (first : Result Error A × S) {c : C} {s' : S}
    → after rest first ≡ (ok c, s')
    → (a : A) × (s : S) × (first ≡ (ok a, s)) × (rest a s ≡ (ok c, s'))
after_ok rest (ok a, s) e = (a, s, refl, e)
after_ok rest (err failure, s) e = absurd (cc)
after_ok rest (panic, s) e = absurd (cc)

module _ {B : Backend} where
  -- A filesystem that is open and keeps a writer for a group.
  pub record HasWriter (group : Bytes) (db : B.Db) (fs : SlateDbFileSystem B) : Type 0 where
    pub client : SlateDbClient B
    pub running : fs.closed ≡ false
    pub found : find_client group fs.databases ≡ some client
    pub writer : client.read_write ≡ some db

  add_writer_lem :
      (group : Bytes) (client : SlateDbClient B) (fs : SlateDbFileSystem B) (w : B.World)
      (db : B.Db) (fs' : SlateDbFileSystem B) (w' : B.World)
      → fs.closed ≡ false
      → add_writer group client (fs, w) ≡ (ok db, (fs', w'))
      → HasWriter group db fs'
  unfolding add_writer set_client open_writer
  add_writer_lem group client fs w db fs' w' running e =
      let (d, s, opened, rest) =
        after_ok
          (λ d. set_client group (record client { read_write = some d }) >>= (λ _. pure (ok d)))
          (open_writer group (fs, w)) e in
      let same : s.0 ≡ fs = sym (ap (λ r. r.1.0) opened) in
      let kept = ap (λ r. r.1.0) rest in
      let given : ◌≡◌ {A = Result Error B.Db} (ok d) (ok db) = ap (λ r. r.0) rest in
      record {
        client = record client { read_write = some d };
        running =
            sym (ap (λ (f : SlateDbFileSystem B). f.closed) kept)
            ∙ ap (λ (f : SlateDbFileSystem B). f.closed) same
            ∙ running;
        found =
            sym (ap (λ (f : SlateDbFileSystem B). find_client group f.databases) kept)
            ∙ find_client-put_client group (record client { read_write = some d }) s.0.databases;
        writer = cc;
      }

  add_reader_lem :
      (group : Bytes) (client : SlateDbClient B) (fs : SlateDbFileSystem B) (w : B.World)
      (c : SlateDbClient B) (fs' : SlateDbFileSystem B) (w' : B.World)
      → add_reader group client (fs, w) ≡ (ok c, (fs', w'))
      → fs'.closed ≡ fs.closed
  unfolding add_reader set_client open_reader
  add_reader_lem group client fs w c fs' w' e =
      let (found, s, opened, rest) =
        after_ok
          (λ found. pure (or_missing found) >>= (λ reader.
            set_client group (record client { reader = some reader })
            >>= (λ _. pure (ok (record client { reader = some reader })))))
          (open_reader group (fs, w)) e in
      let (reader, s1, there, rest1) =
        after_ok
          (λ reader.
            set_client group (record client { reader = some reader })
            >>= (λ _. pure (ok (record client { reader = some reader }))))
          (pure (or_missing found) s) rest in
      sym (ap (λ r. r.1.0.closed) rest1)
      ∙ sym (ap (λ r. r.1.0.closed) there)
      ∙ sym (ap (λ r. r.1.0.closed) opened)

  checked_lem :
      (group : Bytes) (ask : Bool) (client : SlateDbClient B) (fs : SlateDbFileSystem B)
      (w : B.World) (c : SlateDbClient B) (fs' : SlateDbFileSystem B) (w' : B.World)
      → (if ask then add_reader group client else pure (ok client)) (fs, w) ≡ (ok c, (fs', w'))
      → fs'.closed ≡ fs.closed
  checked_lem group true client fs w c fs' w' e = add_reader_lem group client fs w c fs' w' e
  checked_lem group false client fs w c fs' w' e = sym (ap (λ r. r.1.0.closed) e)

  writer_of_lem :
      (group : Bytes) (create : Bool) (client : SlateDbClient B) (o : Option B.Db)
      (fs : SlateDbFileSystem B) (w : B.World) (db : B.Db) (fs' : SlateDbFileSystem B)
      (w' : B.World)
      → client.read_write ≡ o
      → find_client group fs.databases ≡ some client
      → fs.closed ≡ false
      → writer_of group create client o (fs, w) ≡ (ok db, (fs', w'))
      → HasWriter group db fs'
  unfolding writer_of
  writer_of_lem group create client (some d) fs w db fs' w' held found running e =
      let same = ap (λ r. r.1.0) e in
      let given : ◌≡◌ {A = Result Error B.Db} (ok d) (ok db) = ap (λ r. r.0) e in
      record {
        client = client;
        running = sym (ap (λ (f : SlateDbFileSystem B). f.closed) same) ∙ running;
        found = sym (ap (λ (f : SlateDbFileSystem B). find_client group f.databases) same) ∙ found;
        writer = cc;
      }
  writer_of_lem group create client none fs w db fs' w' held found running e =
      let (checked, s, opened, rest) =
        after_ok (add_writer group)
          ((if not create && not (is_some client.reader)
              then add_reader group client
              else pure (ok client))
            (fs, w))
          e in
      add_writer_lem group checked s.0 s.1 db fs' w'
        (checked_lem group (not create && not (is_some client.reader)) client fs w checked s.0 s.1
            opened
          ∙ running)
        rest

  pub ensure_open_lem :
      (fs : SlateDbFileSystem B) (w : B.World)
      → fs.closed ≡ false
      → ensure_open (fs, w) ≡ (ok tt, (fs, w))
  unfolding ensure_open
  ensure_open_lem fs w running =
      ap (λ c. (if c then err argument_error else ok tt, (fs, w))) running

  ensure_open_closed :
      (fs : SlateDbFileSystem B) (w : B.World)
      → fs.closed ≡ true
      → ensure_open (fs, w) ≡ (err argument_error, (fs, w))
  unfolding ensure_open
  ensure_open_closed fs w shut = ap (λ c. (if c then err argument_error else ok tt, (fs, w))) shut

  client_for_group_again :
      (group : Bytes) (client : SlateDbClient B) (fs : SlateDbFileSystem B) (w : B.World)
      → find_client group fs.databases ≡ some client
      → client_for_group group (fs, w) ≡ (ok client, (fs, w))
  unfolding client_for_group
  client_for_group_again group client fs w found =
      ap
        (λ o. (
          ok (or_default o),
          (record fs { databases = put_client group (or_default o) fs.databases }, w),
        ))
        found
      ∙ ap (λ d. (ok client, (record fs { databases = d }, w)))
          (put_client_same group client fs.databases found)

  -- A closed filesystem opens nothing, for reading or for writing: it refuses and stays as it is.
  pub write_db_closed :
      (path : Bytes) (create : Bool) (fs : SlateDbFileSystem B) (w : B.World)
      → fs.closed ≡ true
      → write_db path create (fs, w) ≡ (err argument_error, (fs, w))
  unfolding write_db
  write_db_closed path create fs w shut = rw (ensure_open_closed fs w shut) refl

  pub read_client_closed :
      (path : Bytes) (fs : SlateDbFileSystem B) (w : B.World)
      → fs.closed ≡ true
      → read_client path (fs, w) ≡ (err argument_error, (fs, w))
  unfolding read_client
  read_client_closed path fs w shut = rw (ensure_open_closed fs w shut) refl

  write_db_keeps :
      (path : Bytes) (create : Bool) (fs : SlateDbFileSystem B) (w : B.World) (db : B.Db)
      (fs' : SlateDbFileSystem B) (w' : B.World)
      → write_db path create (fs, w) ≡ (ok db, (fs', w'))
      → HasWriter (database_group path) db fs'
  unfolding write_db client_for_group
  write_db_keeps path create fs w db fs' w' e = elim (Bool-cases fs.closed) [
    | inl shut ↦ absurd (cc (write_db_closed path create fs w shut))
    | inr running ↦
        writer_of_lem (database_group path) create (client_of (database_group path) fs)
          (client_of (database_group path) fs).read_write
          (record fs {
            databases =
                put_client (database_group path) (client_of (database_group path) fs) fs.databases;
          })
          w db fs' w' refl
          (find_client-put_client (database_group path) (client_of (database_group path) fs)
            fs.databases)
          running (rw (ensure_open_lem fs w running) at e)
  ]

  write_db_again :
      (path : Bytes) (create : Bool) (fs : SlateDbFileSystem B) (w : B.World) (db : B.Db)
      → HasWriter (database_group path) db fs
      → write_db path create (fs, w) ≡ (ok db, (fs, w))
  unfolding write_db writer_of
  write_db_again path create fs w db h =
      rw
        (
          ensure_open_lem fs w h.running,
          client_for_group_again (database_group path) h.client fs w h.found,
        )
        (rw (h.writer) refl)

  read_client_again :
      (path : Bytes) (fs : SlateDbFileSystem B) (w : B.World) (db : B.Db)
      (h : HasWriter (database_group path) db fs)
      → read_client path (fs, w) ≡ (ok h.client, (fs, w))
  unfolding read_client
  read_client_again path fs w db h =
      rw
        (
          ensure_open_lem fs w h.running,
          client_for_group_again (database_group path) h.client fs w h.found,
        )
        (rw (h.writer) refl)

  -- The writer of a group is opened once: after `write_db` has given one, asking again for any path of
  -- the group, with or without `create`, gives the same writer, and reading any path of the group uses
  -- it too, both without a change to the filesystem or to the world.
  pub write_db_reused :
      (path other : Bytes) (create create_other : Bool) (fs : SlateDbFileSystem B) (w : B.World)
      (db : B.Db) (fs' : SlateDbFileSystem B) (w' : B.World)
      → database_group other ≡ database_group path
      → write_db path create (fs, w) ≡ (ok db, (fs', w'))
      → (write_db other create_other (fs', w') ≡ (ok db, (fs', w')))
        × ((client : SlateDbClient B) × (client.read_write ≡ some db)
            × (read_client other (fs', w') ≡ (ok client, (fs', w'))))
  write_db_reused path other create create_other fs w db fs' w' same e =
      let h : HasWriter (database_group other) db fs' =
        subst (λ g. HasWriter g db fs') (sym same) (write_db_keeps path create fs w db fs' w' e) in
      (
        write_db_again other create_other fs' w' db h,
        (h.client, h.writer, read_client_again other fs' w' db h),
      )
