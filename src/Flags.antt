-- ===== src/Flags.antt =====
-- rust/src/flags.rs: the access requested when a file is opened.
pub mod Laws
use duckdb_object_storage.Common.{Bool, true, false, not, ◌&&◌, if◌then◌else◌}
use duckdb_object_storage.Error.{Error, Result, ok, err, argument_error, read_only_error}

pub record FileOpenFlags : Type 0 where
  pub read : Bool
  pub write : Bool
  pub create : Bool
  pub append : Bool
  pub truncate_existing : Bool

abbrev pub read_only : FileOpenFlags
read_only = record {
  read = true;
  write = false;
  create = false;
  append = false;
  truncate_existing = false;
}

abbrev pub read_write : FileOpenFlags
read_write = record {
  read = true;
  write = true;
  create = false;
  append = false;
  truncate_existing = false;
}

abbrev pub open_or_create : FileOpenFlags
open_or_create = record {
  read = true;
  write = true;
  create = true;
  append = false;
  truncate_existing = false;
}

abbrev pub create_or_truncate : FileOpenFlags
create_or_truncate = record {
  read = false;
  write = true;
  create = true;
  append = false;
  truncate_existing = true;
}

abbrev pub append : FileOpenFlags
append = record {
  read = false;
  write = true;
  create = true;
  append = true;
  truncate_existing = false;
}

unfoldable pub validate : FileOpenFlags → Result Error (Unit {0})
validate f =
    if not f.read && not f.write
    then err argument_error
    else if f.create && not f.write
    then err argument_error
    else if f.append && not f.write
    then err argument_error
    else if f.truncate_existing && not f.create
    then err argument_error
    else ok tt

ensure : Bool → Result Error (Unit {0})
ensure granted = if granted then ok tt else err argument_error

unfoldable pub ensure_readable : FileOpenFlags → Result Error (Unit {0})
unfolding ensure
ensure_readable f = ensure f.read

unfoldable pub ensure_writable : FileOpenFlags → Result Error (Unit {0})
ensure_writable f = if f.write then ok tt else err read_only_error
