-- ===== src/Error.antt =====
-- rust/src/error.rs and rust/src/error_struct.rs: the errors of the crate, their retryability and
-- their C ABI codes. The message, the source and the call site of an error serve display only and
-- are not modelled.
use duckdb_object_storage.Common.{ℕ, ◌≡◌, refl, ◌⊎◌, inl, inr}

pub data ErrorStatus : Type 0 where
  temporary permanent : ErrorStatus

pub record ErrorStruct : Type 0 where
  pub status : ErrorStatus

pub data ErrorCode : Type 0 where
  metadata_decode file_not_found file_already_exists read_only_violation slatedb : ErrorCode
  invalid_argument io : ErrorCode

-- `#[repr(i32)]`
unfoldable pub repr : ErrorCode → ℕ
repr ErrorCode.metadata_decode = 1
repr ErrorCode.file_not_found = 2
repr ErrorCode.file_already_exists = 3
repr ErrorCode.read_only_violation = 4
repr ErrorCode.slatedb = 5
repr ErrorCode.invalid_argument = 6
repr ErrorCode.io = 7

pub data Error : Type 0 where
  metadata_decode : ErrorStruct → Error
  file_not_found : ErrorStruct → Error
  file_already_exists : ErrorStruct → Error
  read_only_violation : ErrorStruct → Error
  slatedb : ErrorStruct → Error
  invalid_argument : ErrorStruct → Error
  io : ErrorStruct → Error

-- `std::result::Result`; `Result Error A` is the crate's own `Result<A>`. `panic` is no Rust value:
-- it stands for a call that panics, which unwinds through every caller of this crate.
pub data Result {ℓ} (E : Type 0) (A : Type ℓ) : Type ℓ where
  ok : A → Result E A
  err : E → Result E A
  panic : Result E A

-- `Result::map_err`, the conversion that the `?` operator makes.
abbrev pub map_err {ℓ} : {E F : Type 0} {A : Type ℓ} → (E → F) → Result E A → Result F A
map_err f (ok a) = ok a
map_err f (err e) = err (f e)
map_err f panic = panic

-- The `?` operator of the source, as the bind of a do block.
infixl 5 ◌>>=◌
abbrev pub ◌>>=◌ {ℓ κ} :
    {E : Type 0} {A : Type ℓ} {B : Type κ} → Result E A → (A → Result E B) → Result E B
panic >>= rest = panic
err failure >>= rest = err failure
ok value >>= rest = rest value

-- A check, and what follows it.
infixl 5 ◌>>◌
abbrev pub ◌>>◌ {κ} : {E : Type 0} {B : Type κ} → Result E (Unit {0}) → Result E B → Result E B
panic >> rest = panic
err failure >> rest = err failure
ok _ >> rest = rest

pub Result-cases {ℓ} :
    {E : Type 0} {A : Type ℓ} (r : Result E A)
    → ((a : A) × (r ≡ ok a)) ⊎ (((e : E) × (r ≡ err e)) ⊎ (r ≡ panic))
Result-cases (ok a) = inl (a, refl)
Result-cases (err e) = inr (inl (e, refl))
Result-cases panic = inr (inr refl)

-- A chain that succeeds has a first part that succeeds.
pub >>=-succeeds {ℓ κ} :
    {E : Type 0} {A : Type ℓ} {B : Type κ} (rest : A → Result E B) (first : Result E A) {out : B}
    → (first >>= rest) ≡ ok out
    → (value : A) × (rest value ≡ ok out) × (first ≡ ok value)
>>=-succeeds rest panic e = cc
>>=-succeeds rest (err failure) e = cc
>>=-succeeds rest (ok value) e = (value, e, refl)

-- The constructor functions of `impl Error`, which all give a permanent status.
abbrev permanent_struct : ErrorStruct
permanent_struct = record { status = permanent }

abbrev pub decode_error : Error
decode_error = Error.metadata_decode (record { status = permanent })

abbrev pub not_found_error : Error
not_found_error = Error.file_not_found (record { status = permanent })

abbrev pub read_only_error : Error
read_only_error = Error.read_only_violation (record { status = permanent })

abbrev pub argument_error : Error
argument_error = Error.invalid_argument (record { status = permanent })

abbrev pub io_error : Error
io_error = Error.io (record { status = permanent })

unfoldable pub code : Error → ErrorCode
code (Error.metadata_decode inner) = ErrorCode.metadata_decode
code (Error.file_not_found inner) = ErrorCode.file_not_found
code (Error.file_already_exists inner) = ErrorCode.file_already_exists
code (Error.read_only_violation inner) = ErrorCode.read_only_violation
code (Error.slatedb inner) = ErrorCode.slatedb
code (Error.invalid_argument inner) = ErrorCode.invalid_argument
code (Error.io inner) = ErrorCode.io

unfoldable pub status : Error → ErrorStatus
status (Error.metadata_decode inner) = inner.status
status (Error.file_not_found inner) = inner.status
status (Error.file_already_exists inner) = inner.status
status (Error.read_only_violation inner) = inner.status
status (Error.slatedb inner) = inner.status
status (Error.invalid_argument inner) = inner.status
status (Error.io inner) = inner.status

-- The kinds of a SlateDB error that the source names; every other kind is `unnamed`.
pub data DbErrorKind : Type 0 where
  unavailable transaction bad_data : DbErrorKind
  unnamed : ℕ → DbErrorKind

-- `impl From<slatedb::Error> for Error`
unfoldable pub from_slatedb : DbErrorKind → Error
from_slatedb DbErrorKind.unavailable = Error.slatedb (record { status = temporary })
from_slatedb DbErrorKind.transaction = Error.slatedb (record { status = temporary })
from_slatedb _ = Error.slatedb (record { status = permanent })

-- The kinds of a `std::io::Error` that the source names; every other kind is `unnamed`.
pub data IoErrorKind : Type 0 where
  interrupted would_block timed_out : IoErrorKind
  unnamed : ℕ → IoErrorKind

-- `impl From<std::io::Error> for Error`
unfoldable pub from_io : IoErrorKind → Error
from_io IoErrorKind.interrupted = Error.io (record { status = temporary })
from_io IoErrorKind.would_block = Error.io (record { status = temporary })
from_io IoErrorKind.timed_out = Error.io (record { status = temporary })
from_io _ = Error.io (record { status = permanent })
