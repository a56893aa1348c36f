-- ===== src/Ffi.antt =====
-- rust/src/ffi.rs: the C ABI. A pointer argument is an `Option`, null as `none`; a C string is the
-- bytes before its end, and a parameter says which are UTF-8. An output is what the call stores there
-- last. The runtime only runs what it is given, and is not part of the state.
pub mod Config
pub mod Calls
pub mod Create
pub mod Accepts
pub mod Files
pub mod Poison
use duckdb_object_storage.Common.{ℕ, ◌==◌, Bool, true, false, Option, none, some, if◌then◌else◌}
use duckdb_object_storage.Error.{
  Error, Result, ok, err, panic, argument_error, ErrorCode, code, repr,
}
use duckdb_object_storage.Handle.{SlateFileHandle}

-- `store_error`, by the code that it returns.
unfoldable pub store_error : Error → ℕ
store_error error = repr (code error)

-- `ffi_result`: a panic becomes an invalid argument.
unfoldable pub ffi_result : Result Error (Unit {0}) → ℕ
ffi_result (ok _) = 0
ffi_result (err error) = store_error error
ffi_result panic = store_error argument_error

-- `require_fs`, `require_output` and their like.
unfoldable pub require {ℓ} : {A : Type ℓ} → Option A → Result Error A
require none = err argument_error
require (some a) = ok a

-- `FfiFileHandle`, less its runtime: the lock, which a panic of its writer poisons, and what it guards.
pub record FfiFileHandle : Type 0 where
  pub poisoned : Bool
  pub handle : Option SlateFileHandle
