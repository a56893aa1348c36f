-- ===== src/DatabaseMetadata/Keeps.antt =====
-- The operations of rust/src/database_metadata.rs on a database that serves a consistent catalog.
use mathlib.Core.Path.{fun_ext}
use duckdb_object_storage.Common.{
  ℕ, ◌+◌, ◌≡◌, ◌≢◌, ap, ◌∙◌, sym, subst, Bool, true, false, inl, inr, Option, none, some, [], IsU64,
  Option-cases, arith,
}
use duckdb_object_storage.Error.{ok}
use duckdb_object_storage.Keys.{Bytes}
use duckdb_object_storage.Keys.Order.{bytes_eq}
use duckdb_object_storage.Database.{Contents, Serves}
use duckdb_object_storage.Transaction.{TxnDb, IsTxnDb}
use duckdb_object_storage.Metadata.{Codec, new}
use duckdb_object_storage.DatabaseMetadata.{
  FilePath, path_key, remove_file, move_file, prepare_file_for_open,
}
use duckdb_object_storage.DatabaseMetadata.Remove.{IsMapped, removed, remove_file_lem}
use duckdb_object_storage.DatabaseMetadata.Move.{IsTarget, moved, move_file_lem}
use duckdb_object_storage.DatabaseMetadata.Prepare.{created}
use duckdb_object_storage.DatabaseMetadata.Open.{prepare_create_lem}
use duckdb_object_storage.DatabaseMetadata.Catalog.{
  IsCatalog, removed-IsCatalog, created-IsCatalog, moved-IsCatalog,
}

-- A database that answers, with a consistent catalog.
pub record HasCatalog (db : TxnDb) (s : db.State) (next : ℕ) : Type 0 where
  pub contents : Contents
  pub serves : Serves (db.read s) contents
  pub catalog : IsCatalog contents next

pub has_catalog :
    (db : TxnDb) (s : db.State) (next : ℕ) (contents after : Contents)
    → IsCatalog contents next
    → Serves (db.read s) after
    → ((k : Bytes) → after k ≡ contents k)
    → HasCatalog db s next
has_catalog db s next contents after c serves shown = record {
  contents = after;
  serves = serves;
  catalog = subst (λ (d : Contents). IsCatalog d next) (sym (fun_ext shown)) c;
}

-- Creating a file in a database with a consistent catalog, at a path that it does not map and with a file
-- ID left, succeeds with the next file ID and leaves a database with a consistent catalog, which has one
-- more ID allocated.
pub create_keeps :
    (codec : Codec) (db : TxnDb) (s : db.State) (now : ℕ) (path : FilePath)
    (truncate_existing : Bool) (next : ℕ) (h : HasCatalog db s next)
    → IsTxnDb db
    → path ≢ []
    → h.contents (path_key path) ≡ none
    → IsU64 (next + 1)
    → ((prepare_file_for_open codec db now path true truncate_existing s).0 ≡ ok (next, new now))
      × HasCatalog db
          (prepare_file_for_open codec db now path true truncate_existing s).1
          (next + 1)
create_keeps codec db s now path truncate_existing next h laws nonempty missing u =
    let o =
      prepare_create_lem codec db s h.contents now path truncate_existing next laws h.serves
        nonempty missing u h.catalog.counter in
    (
      o.gives,
      has_catalog db (prepare_file_for_open codec db now path true truncate_existing s).1 (next + 1)
          (created path next (codec.encode_to_bytes (new now)) h.contents) o.after
          (created-IsCatalog h.contents next path (codec.encode_to_bytes (new now)) h.catalog
            missing u)
          o.serves o.shown,
    )

-- A path of a consistent catalog that maps to something maps to a file.
pub IsMapped-path :
    (contents : Contents) (next : ℕ) (path : FilePath) (v : Bytes)
    → IsCatalog contents next
    → contents (path_key path) ≡ some v
    → (file_id : ℕ) × IsMapped contents path file_id
IsMapped-path contents next path v c e =
    let (file_id, same, positive, below) = c.mapped path v e in
    let top = c.is_u64 in
    (file_id, record { is_u64 = omega arith; positive = positive; mapping = e ∙ ap some same })

IsTarget-path :
    (contents : Contents) (next : ℕ) (target : FilePath)
    → IsCatalog contents next
    → (old : Option ℕ) × IsTarget contents target old
IsTarget-path contents next target c = elim (Option-cases (contents (path_key target))) [
  | inl absent ↦ (none, absent)
  | inr (v, e) ↦ let (file_id, m) = IsMapped-path contents next target v c e in (some file_id, m)
]

-- Moving a mapped path to another one succeeds in a database with a consistent catalog, whatever the
-- target maps to, and leaves a consistent catalog: no two paths share a file afterwards either.
pub move_keeps :
    (db : TxnDb) (s : db.State) (source target : FilePath) (next : ℕ) (v : Bytes)
    (h : HasCatalog db s next)
    → IsTxnDb db
    → source ≢ []
    → target ≢ []
    → bytes_eq source target ≡ false
    → h.contents (path_key source) ≡ some v
    → ((move_file db source target s).0 ≡ ok tt)
      × HasCatalog db (move_file db source target s).1 next
move_keeps db s source target next v h laws ns nt distinct e =
    let (file_id, m) = IsMapped-path h.contents next source v h.catalog e in
    let (old, t) = IsTarget-path h.contents next target h.catalog in
    let o =
      move_file_lem db s h.contents source target file_id old laws h.serves ns nt distinct m t in
    (
      o.succeeds,
      has_catalog db (move_file db source target s).1 next
          (moved source target file_id old h.contents) o.after
          (moved-IsCatalog h.contents next source target file_id old h.catalog m) o.serves o.shown,
    )

-- Removing a mapped path succeeds in a database with a consistent catalog, and leaves a consistent
-- catalog.
pub remove_keeps :
    (db : TxnDb) (s : db.State) (path : FilePath) (next : ℕ) (v : Bytes) (h : HasCatalog db s next)
    → IsTxnDb db
    → path ≢ []
    → h.contents (path_key path) ≡ some v
    → ((remove_file db path s).0 ≡ ok tt) × HasCatalog db (remove_file db path s).1 next
remove_keeps db s path next v h laws nonempty e =
    let (file_id, m) = IsMapped-path h.contents next path v h.catalog e in
    let o = remove_file_lem db s h.contents path file_id laws h.serves nonempty m in
    (
      o.succeeds,
      has_catalog db (remove_file db path s).1 next (removed path file_id h.contents) o.after
          (removed-IsCatalog h.contents next path file_id h.catalog) o.serves o.shown,
    )
