-- ===== src/ObjectStore.antt =====
-- rust/src/slatedb_object_store.rs: the object store that SlateDB reads through. The OpenDAL store is a
-- parameter; every operation but `get_opts` only delegates to it and has no definition here.
use duckdb_object_storage.Common.{ℕ, Bool, true, false, not, ◌&&◌, ◌||◌, Option}
use duckdb_object_storage.Error.{Result, ok, err, panic}
use duckdb_object_storage.Keys.{Bytes}
use duckdb_object_storage.FileSystem.{is_some}

-- The errors of the object store that the source names, less their text; every other one is `unnamed`.
pub data ObjectStoreError : Type 0 where
  precondition not_modified : ObjectStoreError
  unnamed : ℕ → ObjectStoreError

-- The conditions of `GetOptions`.
pub record GetOptions : Type 0 where
  pub if_match : Option Bytes
  pub if_none_match : Option Bytes
  pub if_modified_since : Option ℕ
  pub if_unmodified_since : Option ℕ

unfoldable pub map_conditional_get_result {ℓ} :
    {A : Type ℓ} → Result ObjectStoreError A → Bool → Result ObjectStoreError A
map_conditional_get_result (err precondition) true = err not_modified
map_conditional_get_result (err precondition) false = err precondition
map_conditional_get_result (err not_modified) asked = err not_modified
map_conditional_get_result (err (unnamed kind)) asked = err (unnamed kind)
map_conditional_get_result (ok result) asked = ok result
map_conditional_get_result panic asked = panic

-- Whether a failed condition of a get means that the object has not changed.
unfoldable pub asks_modified : GetOptions → Bool
asks_modified options =
    not (is_some options.if_match)
    && not (is_some options.if_unmodified_since)
    && (is_some options.if_none_match || is_some options.if_modified_since)

unfoldable pub get_opts {ℓ} :
    {A : Type ℓ}
    → (Bytes → GetOptions → Result ObjectStoreError A)
    → Bytes
    → GetOptions
    → Result ObjectStoreError A
get_opts inner location options =
    map_conditional_get_result (inner location options) (asks_modified options)
