-- ===== src/Flags/Laws.antt =====
-- What `validate` accepts.
use duckdb_object_storage.Common.{true, false, ◌≡◌, ◌↔◌, ◌⊎◌, arith}
use duckdb_object_storage.Error.{ok}
use duckdb_object_storage.Flags.{FileOpenFlags, validate}

-- The rules for a combination of flags, as an independent specification.
pub record IsCoherent (f : FileOpenFlags) : Type 0 where
  pub accesses : (f.read ≡ true) ⊎ (f.write ≡ true)
  pub creates : f.create ≡ true → f.write ≡ true
  pub appends : f.append ≡ true → f.write ≡ true
  pub truncates : f.truncate_existing ≡ true → f.create ≡ true

validate_accepts : (f : FileOpenFlags) → validate f ≡ ok tt → IsCoherent f
unfolding validate
validate_accepts f h = ground arith

validate_complete : (f : FileOpenFlags) → IsCoherent f → validate f ≡ ok tt
unfolding validate
validate_complete f c = ground (arith, c.creates, c.appends, c.truncates)

-- `validate` accepts a combination of flags exactly when it grants some access, creates and appends
-- only with write access, and truncates only where it creates.
pub validate_iff : (f : FileOpenFlags) → (validate f ≡ ok tt) ↔ IsCoherent f
validate_iff f = (validate_accepts f, validate_complete f)

-- A handle that passes validation and is not writable can neither create, append nor truncate.
pub validate_read_only :
    (f : FileOpenFlags)
    → validate f ≡ ok tt
    → f.write ≡ false
    → (f.read ≡ true) × (f.create ≡ false) × (f.append ≡ false) × (f.truncate_existing ≡ false)
unfolding validate
validate_read_only f h w = ground arith
