-- ===== src/FileSystem/Closing.antt =====
-- What `close` of rust/src/fs.rs leaves: a filesystem on which every operation is refused.
use duckdb_object_storage.Common.{
  ℕ, ◌≡◌, ◌≢◌, refl, ap, ◌∙◌, sym, true, false, none, [], ◌⊎◌, inl, inr, Bool-cases, arith,
}
use duckdb_object_storage.Error.{Error, Result, ok, err, panic, argument_error}
use duckdb_object_storage.Metadata.{Codec}
use duckdb_object_storage.Flags.{FileOpenFlags, validate}
use duckdb_object_storage.DatabaseMetadata.{FilePath}
use duckdb_object_storage.FileSystem.{
  Backend, SlateDbFileSystem, close_clients, close_all, close_cache_of, close, open_write_handle,
  open_read_handle, open_file, file_exists, exists_in, remove_file, move_file,
}
use duckdb_object_storage.Keys.Order.{bytes_eq}
use duckdb_object_storage.FileSystem.Paths.{database_group}
use duckdb_object_storage.FileSystem.Clients.{write_db_closed, read_client_closed}

validate-cases :
    (flags : FileOpenFlags) → (validate flags ≡ ok tt) ⊎ (validate flags ≡ err argument_error)
unfolding validate
validate-cases flags = ground arith

module _ {B : Backend} where
  -- A filesystem after `close`: marked as closed, with no database left, and no cache.
  pub record IsClosed (fs : SlateDbFileSystem B) : Type 0 where
    pub marked : fs.closed ≡ true
    pub no_database : fs.databases ≡ []
    pub no_cache : fs.db_cache ≡ none

  close_cache_of_lem :
      (fs : SlateDbFileSystem B) (done : Result Error (Unit {0}) × B.World)
      (r : Result Error (Unit {0})) (fs' : SlateDbFileSystem B) (w' : B.World)
      → fs.closed ≡ true
      → fs.databases ≡ []
      → r ≢ panic
      → close_cache_of fs done ≡ (r, (fs', w'))
      → IsClosed fs'
  unfolding close_cache_of
  close_cache_of_lem fs (panic, w) r fs' w' marked empty answered e =
      absurd (answered (sym (ap (λ p. p.0) e)))
  close_cache_of_lem fs (ok _, w) r fs' w' marked empty answered e =
      let kept = ap (λ p. p.1.0) e in
      record {
        marked = sym (ap (λ (f : SlateDbFileSystem B). f.closed) kept) ∙ marked;
        no_database = sym (ap (λ (f : SlateDbFileSystem B). f.databases) kept) ∙ empty;
        no_cache = sym (ap (λ (f : SlateDbFileSystem B). f.db_cache) kept);
      }
  close_cache_of_lem fs (err _, w) r fs' w' marked empty answered e =
      let kept = ap (λ p. p.1.0) e in
      record {
        marked = sym (ap (λ (f : SlateDbFileSystem B). f.closed) kept) ∙ marked;
        no_database = sym (ap (λ (f : SlateDbFileSystem B). f.databases) kept) ∙ empty;
        no_cache = sym (ap (λ (f : SlateDbFileSystem B). f.db_cache) kept);
      }

  close-IsClosed :
      (fs : SlateDbFileSystem B) (w : B.World) (r : Result Error (Unit {0}))
      (fs' : SlateDbFileSystem B) (w' : B.World)
      → r ≢ panic
      → close (fs, w) ≡ (r, (fs', w'))
      → IsClosed fs'
  unfolding close
  close-IsClosed fs w r fs' w' answered e =
      close_cache_of_lem (record fs { databases = []; closed = true })
        (close_clients fs.databases (ok tt, w)) r fs' w' refl refl answered e

  closed_eq :
      (fs : SlateDbFileSystem B)
      → IsClosed fs
      → record fs { databases = []; closed = true; db_cache = none } ≡ fs
  closed_eq fs h =
      ap (λ d. record fs { databases = d; closed = true; db_cache = none }) (sym h.no_database)
      ∙ ap (λ c. record fs { closed = c; db_cache = none }) (sym h.marked)
      ∙ ap (λ c. record fs { db_cache = c }) (sym h.no_cache)

  close_again :
      (fs : SlateDbFileSystem B) (w : B.World) → IsClosed fs → close (fs, w) ≡ (ok tt, (fs, w))
  unfolding close close_cache_of close_clients close_all
  close_again fs w h =
      let shut : SlateDbFileSystem B = record fs { databases = []; closed = true } in
      ap (λ d. close_cache_of shut (close_clients d (ok tt, w))) h.no_database
      ∙ ap
          (λ c. (
            (close_all B.close_cache c (ok tt, w)).0,
            (record shut { db_cache = none }, (close_all B.close_cache c (ok tt, w)).1),
          ))
          h.no_cache
      ∙ ap (λ f. (ok tt, (f, w))) (closed_eq fs h)

  open_file_closed :
      (codec : Codec) (now : ℕ) (path : FilePath) (flags : FileOpenFlags) (fs : SlateDbFileSystem B)
      (w : B.World)
      → fs.closed ≡ true
      → open_file codec now path flags (fs, w) ≡ (err argument_error, (fs, w))
  unfolding open_file open_write_handle open_read_handle
  open_file_closed codec now path flags fs w shut = elim (validate-cases flags) [
    | inl valid ↦ elim (Bool-cases flags.write) [
      | inl writes ↦ rw valid (rw writes (rw (write_db_closed path flags.create fs w shut) refl))
      | inr reads ↦ rw valid (rw reads (rw (read_client_closed path fs w shut) refl))
    ]
    | inr invalid ↦ rw invalid refl
  ]

  move_file_closed :
      (path target : FilePath) (fs : SlateDbFileSystem B) (w : B.World)
      → fs.closed ≡ true
      → move_file path target (fs, w) ≡ (err argument_error, (fs, w))
  unfolding move_file
  move_file_closed path target fs w shut =
      elim (Bool-cases (bytes_eq (database_group path) (database_group target))) [
        | inl same ↦ rw same (rw (write_db_closed path false fs w shut) refl)
        | inr other ↦ rw other refl
      ]

  -- Once a filesystem has been closed without a panic, with or without an error, it can be closed
  -- again without any effect, and every operation on a path is refused with an invalid argument and
  -- changes nothing.
  pub close_lem :
      (codec : Codec) (now : ℕ) (path target : FilePath) (flags : FileOpenFlags)
      (fs : SlateDbFileSystem B) (w : B.World) (r : Result Error (Unit {0}))
      (fs' : SlateDbFileSystem B) (w' : B.World)
      → r ≢ panic
      → close (fs, w) ≡ (r, (fs', w'))
      → (close (fs', w') ≡ (ok tt, (fs', w')))
        × (open_file codec now path flags (fs', w') ≡ (err argument_error, (fs', w')))
        × (file_exists path (fs', w') ≡ (err argument_error, (fs', w')))
        × (remove_file path (fs', w') ≡ (err argument_error, (fs', w')))
        × (move_file path target (fs', w') ≡ (err argument_error, (fs', w')))
  unfolding file_exists exists_in remove_file
  close_lem codec now path target flags fs w r fs' w' answered e =
      let h = close-IsClosed fs w r fs' w' answered e in
      (
        close_again fs' w' h,
        open_file_closed codec now path flags fs' w' h.marked,
        rw (read_client_closed path fs' w' h.marked) refl,
        rw (write_db_closed path false fs' w' h.marked) refl,
        move_file_closed path target fs' w' h.marked,
      )
