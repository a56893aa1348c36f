-- ===== src/DatabaseMetadata/Sequences.antt =====
-- Any sequence of calls on the catalog of rust/src/database_metadata.rs, those that fail included.
use duckdb_object_storage.Common.{
  ℕ, ◌+◌, ◌≤◌, ◌≡◌, ◌≢◌, refl, ap, ◌∙◌, sym, subst, Bool, true, false, inl, inr, none, some, List,
  [], ◌∷◌, Option-cases, Bool-cases, arith, ltb, ltb→lt,
}
use duckdb_object_storage.Error.{
  Error, Result, ok, err, panic, not_found_error, decode_error, ◌>>=◌,
}
use duckdb_object_storage.Keys.{Bytes}
use duckdb_object_storage.Keys.Order.{bytes_eq}
use duckdb_object_storage.Database.{Contents, Serves, DbReadOps}
use duckdb_object_storage.Transaction.{TxnDb, IsTxnDb}
use duckdb_object_storage.Metadata.{Codec, FileMetadata, new}
use duckdb_object_storage.DatabaseMetadata.{
  FilePath, path_key, validate_path, metadata_of, found_file, find_file, remove_file, move_file,
  move_checked, prepare_existing, prepare_found, prepare_in, create_in, checked_next, finish,
  finish_prepare, prepare_file_for_open, next_file_id_key,
}
use duckdb_object_storage.DatabaseMetadata.Ids.{decode_file_id-to_be_bytes}
use duckdb_object_storage.DatabaseMetadata.Edits.{Shows, begin_in_lem, get_in_lem}
use duckdb_object_storage.DatabaseMetadata.Remove.{IsMapped, remove_file_missing}
use duckdb_object_storage.DatabaseMetadata.Move.{move_file_missing}
use duckdb_object_storage.DatabaseMetadata.Prepare.{
  find_file-none, finish_prepare_lem, emptied, truncate_step, next_file_id_lem,
}
use duckdb_object_storage.DatabaseMetadata.Open.{prepare_missing}
use duckdb_object_storage.DatabaseMetadata.Catalog.{emptied-IsCatalog}
use duckdb_object_storage.DatabaseMetadata.Keeps.{
  HasCatalog, has_catalog, IsMapped-path, create_keeps, move_keeps, remove_keeps,
}

-- A consistent catalog in which no fewer file IDs are allocated.
pub record Grown (db : TxnDb) (next : ℕ) (s : db.State) : Type 0 where
  pub later : ℕ
  pub grows : next ≤ later
  pub has : HasCatalog db s later

-- A call on the catalog, with the time that it reads from the clock.
pub data CatalogCall : Type 0 where
  opens : (now : ℕ) (path : FilePath) (create truncate_existing : Bool) → CatalogCall
  removes : (path : FilePath) → CatalogCall
  moves : (source target : FilePath) → CatalogCall

module _ (codec : Codec) (db : TxnDb) where
  abbrev pub run_call : CatalogCall → db.State → db.State
  run_call (opens now path create truncate_existing) s =
      (prepare_file_for_open codec db now path create truncate_existing s).1
  run_call (removes path) s = (remove_file db path s).1
  run_call (moves source target) s = (move_file db source target s).1

  abbrev pub run_calls : List CatalogCall → db.State → db.State
  run_calls [] s = s
  run_calls (call ∷ calls) s = run_calls calls (run_call call s)

module _ (codec : Codec) (db : TxnDb) (laws : IsTxnDb db) where
  unchanged : (s : db.State) (next : ℕ) → HasCatalog db s next → Grown db next s
  unchanged s next h = record { later = next; grows = omega arith; has = h }

  same_state :
      {A : Type 0} (outcome : Result Error A × db.State) (r : Result Error A) (s : db.State)
      (next : ℕ)
      → HasCatalog db s next
      → outcome ≡ (r, s)
      → Grown db next outcome.1
  same_state outcome r s next h e =
      subst (λ (o : db.State). Grown db next o) (sym (ap (λ o. o.1) e)) (unchanged s next h)

  find_file-mapped :
      (reader : DbReadOps) (view contents : Contents) (path : FilePath) (file_id : ℕ)
      → Serves reader view
      → ((k : Bytes) → view k ≡ contents k)
      → IsMapped contents path file_id
      → find_file codec reader path
        ≡ (metadata_of codec reader file_id >>= (λ metadata. ok (some (file_id, metadata))))
  unfolding find_file found_file
  find_file-mapped reader view contents path file_id serves shown m =
      rw (serves.get_lem (path_key path)) (
        rw (shown (path_key path))
          (rw (m.mapping) (rw (decode_file_id-to_be_bytes file_id m.is_u64 m.positive) refl)))

  -- An open of a mapped file, by what its metadata record reads as.
  open_mapped :
      (s : db.State) (next : ℕ) (h : HasCatalog db s next) (now : ℕ) (path : FilePath)
      (create cut : Bool) (t : db.Txn) (file_id : ℕ) (r : Result Error FileMetadata)
      → Shows db laws s t h.contents
      → IsMapped h.contents path file_id
      → Grown db next
          (finish_prepare codec db
            ((r >>= (λ metadata. ok (some (file_id, metadata))))
              >>= (λ found. prepare_found codec db now path create cut found t))
            s).1
  unfolding finish_prepare prepare_found
  open_mapped s next h now path create cut t file_id (err e) shows m = unchanged s next h
  open_mapped s next h now path create cut t file_id panic shows m = unchanged s next h
  open_mapped s next h now path create false t file_id (ok metadata) shows m =
      unfold prepare_existing in unchanged s next h
  open_mapped s next h now path create true t file_id (ok metadata) shows m =
      let o =
        finish_prepare_lem codec db laws s _ _ _
          (truncate_step codec db laws s h.contents now file_id metadata t shows) in
      record {
        later = next;
        grows = omega arith;
        has =
            has_catalog db _ next (emptied file_id (codec.encode_to_bytes (new now)) h.contents)
              o.after
              (emptied-IsCatalog h.contents next path file_id (codec.encode_to_bytes (new now))
                h.catalog m)
              o.serves o.shown;
      }

  -- An open that would have to allocate a file ID when there is none left.
  create_exhausted :
      (s : db.State) (next : ℕ) (h : HasCatalog db s next) (now : ℕ) (path : FilePath) (t : db.Txn)
      → Shows db laws s t h.contents
      → ltb (next + 1) 18446744073709551616 ≡ false
      → create_in codec db now path t ≡ err decode_error
  unfolding create_in checked_next
  create_exhausted s next h now path t shows full =
      rw (get_in_lem db laws s t h.contents next_file_id_key shows) (
        rw
          (next_file_id_lem codec db laws s h.contents now next t h.catalog.is_u64
            h.catalog.counter)
          (rw (full, checked_next) refl))

  open_absent :
      (s : db.State) (next : ℕ) (h : HasCatalog db s next) (now : ℕ) (path : FilePath)
      (create cut : Bool)
      → path ≢ []
      → h.contents (path_key path) ≡ none
      → Grown db next (prepare_file_for_open codec db now path create cut s).1
  unfolding prepare_file_for_open validate_path prepare_in prepare_found finish_prepare
  open_absent s next h now [] create cut nonempty missing = absurd (nonempty refl)
  open_absent s next h now (b ∷ path) false cut nonempty missing =
      same_state _ (err not_found_error) s next h
        (prepare_missing codec db s h.contents now (b ∷ path) cut laws h.serves nonempty missing)
  open_absent s next h now (b ∷ path) true cut nonempty missing =
      elim (Bool-cases (ltb (next + 1) 18446744073709551616)) [
        | inl fits ↦
            let (done, has) =
              create_keeps codec db s now (b ∷ path) cut next h laws nonempty missing
                (ltb→lt (next + 1) 18446744073709551616 fits) in
            record { later = next + 1; grows = omega arith; has = has }
        | inr full ↦
            let (t, e, shows) = begin_in_lem db laws s h.contents h.serves in
            rw e (
              rw
                (find_file-none codec (db.read_txn t) shows.view (b ∷ path) shows.serves
                  (shows.shown (path_key (b ∷ path)) ∙ missing))
                (rw (create_exhausted s next h now (b ∷ path) t shows full) (unchanged s next h)))
      ]

  open_present :
      (s : db.State) (next : ℕ) (h : HasCatalog db s next) (now : ℕ) (path : FilePath)
      (create cut : Bool) (file_id : ℕ)
      → path ≢ []
      → IsMapped h.contents path file_id
      → Grown db next (prepare_file_for_open codec db now path create cut s).1
  unfolding prepare_file_for_open validate_path prepare_in
  open_present s next h now [] create cut file_id nonempty m = absurd (nonempty refl)
  open_present s next h now (b ∷ path) create cut file_id nonempty m =
      let (t, e, shows) = begin_in_lem db laws s h.contents h.serves in
      rw e (
        rw
          (find_file-mapped (db.read_txn t) shows.view h.contents (b ∷ path) file_id shows.serves
            shows.shown m)
          (open_mapped s next h now (b ∷ path) create cut t file_id
            (metadata_of codec (db.read_txn t) file_id) shows m))

  open_keeps :
      (s : db.State) (next : ℕ) (h : HasCatalog db s next) (now : ℕ) (path : FilePath)
      (create cut : Bool)
      → Grown db next (prepare_file_for_open codec db now path create cut s).1
  open_keeps s next h now [] create cut =
      unfold prepare_file_for_open validate_path finish_prepare in unchanged s next h
  open_keeps s next h now (b ∷ path) create cut =
      elim (Option-cases (h.contents (path_key (b ∷ path)))) [
        | inl missing ↦ open_absent s next h now (b ∷ path) create cut (λ e. cc) missing
        | inr (v, e) ↦
            let (file_id, m) = IsMapped-path h.contents next (b ∷ path) v h.catalog e in
            open_present s next h now (b ∷ path) create cut file_id (λ e. cc) m
      ]

  remove_call_keeps :
      (s : db.State) (next : ℕ) (h : HasCatalog db s next) (path : FilePath)
      → Grown db next (remove_file db path s).1
  remove_call_keeps s next h [] = unfold remove_file validate_path finish in unchanged s next h
  remove_call_keeps s next h (b ∷ path) = elim (Option-cases (h.contents (path_key (b ∷ path)))) [
    | inl missing ↦
        same_state _ (err not_found_error) s next h
          (remove_file_missing db s h.contents (b ∷ path) laws h.serves (λ e. cc) missing)
    | inr (v, e) ↦
        let (done, has) = remove_keeps db s (b ∷ path) next v h laws (λ e. cc) e in
        record { later = next; grows = omega arith; has = has }
  ]

  move_call_keeps :
      (s : db.State) (next : ℕ) (h : HasCatalog db s next) (source target : FilePath)
      → Grown db next (move_file db source target s).1
  move_call_keeps s next h [] target =
      unfold move_file validate_path move_checked in unchanged s next h
  move_call_keeps s next h (a ∷ source) [] =
      unfold move_file validate_path move_checked in unchanged s next h
  move_call_keeps s next h (a ∷ source) (b ∷ target) =
      elim (Bool-cases (bytes_eq (a ∷ source) (b ∷ target))) [
        | inl same ↦ unfold move_file validate_path move_checked in rw same (unchanged s next h)
        | inr distinct ↦ elim (Option-cases (h.contents (path_key (a ∷ source)))) [
          | inl missing ↦ same_state _ (err not_found_error) s next h (
              move_file_missing db s h.contents (a ∷ source) (b ∷ target) laws h.serves (λ e. cc)
                (λ e. cc) distinct missing)
          | inr (v, e) ↦
              let (done, has) =
                move_keeps db s (a ∷ source) (b ∷ target) next v h laws (λ e. cc) (λ e. cc) distinct
                  e in
              record { later = next; grows = omega arith; has = has }
        ]
      ]

  call_keeps :
      (s : db.State) (next : ℕ) (call : CatalogCall)
      → HasCatalog db s next
      → Grown db next (run_call codec db call s)
  call_keeps s next (opens now path create cut) h = open_keeps s next h now path create cut
  call_keeps s next (removes path) h = remove_call_keeps s next h path
  call_keeps s next (moves source target) h = move_call_keeps s next h source target

-- Whatever calls are made on a database with a consistent catalog, opens, removals and moves with any
-- paths and flags and whether or not they succeed, it serves a consistent catalog afterwards, and no file
-- ID that was allocated is free again: a new file never gets the ID of an old one.
pub calls_keep :
    (codec : Codec) (db : TxnDb) (s : db.State) (next : ℕ) (calls : List CatalogCall)
    → IsTxnDb db
    → HasCatalog db s next
    → Grown db next (run_calls codec db calls s)
calls_keep codec db s next [] laws h = unchanged codec db laws s next h
calls_keep codec db s next (call ∷ calls) laws h =
    let k = call_keeps codec db laws s next call h in
    let rest = calls_keep codec db (run_call codec db call s) k.later calls laws k.has in
    let grows = k.grows in
    let grows' = rest.grows in record { later = rest.later; grows = omega arith; has = rest.has }
