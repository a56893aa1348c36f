-- ===== src/Tests/CatalogExamples.antt =====
-- The theorems on the catalog, at a concrete catalog with one file.
use duckdb_object_storage.Common.{
  ◌≡◌, refl, true, false, inl, inr, some, none, List, [], ◌∷◌, arith,
}
use duckdb_object_storage.Keys.{chunk_key, metadata_key}
use duckdb_object_storage.Keys.Hex.{hex}
use duckdb_object_storage.Keys.Order.{bytes_eq}
use duckdb_object_storage.Database.{Contents, Serves}
use duckdb_object_storage.Metadata.{FileMetadata, new}
use duckdb_object_storage.DatabaseMetadata.{
  FilePath, path_key, next_file_id_key, remove_file, move_file, prepare_file_for_open,
}
use duckdb_object_storage.DatabaseMetadata.Ids.{to_be_bytes}
use duckdb_object_storage.DatabaseMetadata.Edits.{Commits}
use duckdb_object_storage.DatabaseMetadata.Remove.{IsMapped, removed, remove_file_lem}
use duckdb_object_storage.DatabaseMetadata.Move.{moved, move_file_lem}
use duckdb_object_storage.DatabaseMetadata.Prepare.{IsFileAt, Opens, emptied, created}
use duckdb_object_storage.DatabaseMetadata.Open.{prepare_truncate_lem, prepare_create_lem}
use duckdb_object_storage.DatabaseMetadata.Catalog.{IsCatalog}
use duckdb_object_storage.DatabaseMetadata.Sequences.{
  Grown, CatalogCall, opens, removes, moves, run_calls, calls_keep,
}
use duckdb_object_storage.DatabaseMetadata.Keeps.{HasCatalog, create_keeps}
use duckdb_object_storage.Error.{ok}
use duckdb_object_storage.Tests.LogDb.{Log, lookup, read_log, read_log-Serves}
use duckdb_object_storage.Tests.TxnLog.{txn_log, txn_log-IsTxnDb}
use duckdb_object_storage.Tests.Inputs.{codec, nothing, empty_store-Serves}

-- The paths a and b.
abbrev path_a : FilePath
path_a = b'a' ∷ []

abbrev path_b : FilePath
path_b = b'b' ∷ []

-- File 1 at the path a, with one chunk.
abbrev catalog : Log
catalog =
    (path_key path_a, some (to_be_bytes 1))
    ∷ (metadata_key 1, some (3 ∷ 4 ∷ 8 ∷ 3 ∷ []))
    ∷ (chunk_key 1 0, some (10 ∷ 11 ∷ 12 ∷ []))
    ∷ (next_file_id_key, some (to_be_bytes 2))
    ∷ []

abbrev shown : Contents
shown = lookup catalog

catalog-Serves : Serves (read_log catalog) shown
catalog-Serves = read_log-Serves shown catalog (λ k. refl)

path_a-IsMapped : IsMapped shown path_a 1
unfolding path_key bytes_eq
path_a-IsMapped = record { is_u64 = omega arith; positive = omega arith; mapping = refl }

abbrev record_1 : FileMetadata
record_1 = record { size = 3; modified_at_ms = 4; chunk_size = 8; chunk_base_offset = 3 }

path_a-IsFileAt : IsFileAt codec shown path_a 1 record_1
unfolding path_key metadata_key bytes_eq hex
path_a-IsFileAt = record {
  mapped = path_a-IsMapped;
  stored = 3 ∷ 4 ∷ 8 ∷ 3 ∷ [];
  found = refl;
  decodes = refl;
}

remove_file_lem_example :
    Commits txn_log (remove_file txn_log path_a catalog) (removed path_a 1 shown)
remove_file_lem_example =
    remove_file_lem txn_log catalog shown path_a 1 txn_log-IsTxnDb catalog-Serves (λ e. cc)
      path_a-IsMapped

path_b_absent : shown (path_key path_b) ≡ none
unfolding path_key metadata_key chunk_key bytes_eq hex
path_b_absent = refl

move_file_lem_example :
    Commits txn_log (move_file txn_log path_a path_b catalog) (moved path_a path_b 1 none shown)
unfolding bytes_eq
move_file_lem_example =
    move_file_lem txn_log catalog shown path_a path_b 1 none txn_log-IsTxnDb catalog-Serves
      (λ e. cc) (λ e. cc) refl path_a-IsMapped path_b_absent

prepare_truncate_lem_example :
    Opens txn_log
      (prepare_file_for_open codec txn_log 7 path_a true true catalog)
      (1, new 7)
      (emptied 1 (codec.encode_to_bytes (new 7)) shown)
prepare_truncate_lem_example =
    prepare_truncate_lem codec txn_log catalog shown 7 path_a true 1 record_1 txn_log-IsTxnDb
      catalog-Serves (λ e. cc) path_a-IsFileAt

next_stored : shown next_file_id_key ≡ some (to_be_bytes 2)
unfolding path_key metadata_key chunk_key bytes_eq hex
next_stored = refl

prepare_create_lem_example :
    Opens txn_log
      (prepare_file_for_open codec txn_log 7 path_b true false catalog)
      (2, new 7)
      (created path_b 2 (codec.encode_to_bytes (new 7)) shown)
prepare_create_lem_example =
    prepare_create_lem codec txn_log catalog shown 7 path_b false 2 txn_log-IsTxnDb catalog-Serves
      (λ e. cc) path_b_absent (omega arith) (inr (next_stored, omega arith))

nothing-IsCatalog : IsCatalog nothing 1
nothing-IsCatalog = record {
  is_u64 = omega arith;
  counter = inl (refl, refl);
  mapped = λ path v e. absurd (cc);
  unshared = λ p q v ep eq. absurd (cc);
  unallocated = λ f k uf above own. refl;
}

-- An empty database, and the same with a file at the path a.
empty-HasCatalog : HasCatalog txn_log [] 1
empty-HasCatalog = record {
  contents = nothing;
  serves = empty_store-Serves;
  catalog = nothing-IsCatalog;
}

create_keeps_example :
    ((prepare_file_for_open codec txn_log 7 path_a true false []).0 ≡ ok (1, new 7))
    × HasCatalog txn_log (prepare_file_for_open codec txn_log 7 path_a true false []).1 2
unfolding empty-HasCatalog
create_keeps_example =
    create_keeps codec txn_log [] 7 path_a false 1 empty-HasCatalog txn_log-IsTxnDb (λ e. cc) refl
      (omega arith)

-- A file is made and moved, what is left at its path is removed, which fails, and another file is made.
abbrev calls : List CatalogCall
calls =
    opens 7 path_a true false ∷ moves path_a path_b ∷ removes path_a ∷ opens 8 path_a true true ∷ []

calls_keep_example : Grown txn_log 1 (run_calls codec txn_log calls [])
calls_keep_example = calls_keep codec txn_log [] 1 calls txn_log-IsTxnDb empty-HasCatalog
