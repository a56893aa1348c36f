-- ===== src/DatabaseMetadata/Ids.antt =====
-- The file IDs of rust/src/database_metadata.rs in their eight-byte form.
use duckdb_object_storage.Common.{
  ℕ, ◌+◌, ◌*◌, ◌/◌, ◌%◌, ◌<◌, ◌≡◌, refl, true, false, List, [], ◌∷◌, arith, ◌==◌, if◌then◌else◌,
  length, IsU64,
}
use duckdb_object_storage.Error.{Error, Result, ok, err, decode_error}

-- `u64::to_be_bytes`
unfoldable pub to_be_bytes : ℕ → List ℕ
to_be_bytes n =
    (n / 72057594037927936)
    ∷ (n / 281474976710656 % 256)
    ∷ (n / 1099511627776 % 256)
    ∷ (n / 4294967296 % 256)
    ∷ (n / 16777216 % 256)
    ∷ (n / 65536 % 256)
    ∷ (n / 256 % 256)
    ∷ (n % 256)
    ∷ []

-- `u64::from_be_bytes`, by the bytes in turn.
unfoldable pub from_be_bytes : ℕ → List ℕ → ℕ
from_be_bytes acc [] = acc
from_be_bytes acc (b ∷ bytes) = from_be_bytes (acc * 256 + b) bytes

unfoldable pub decode_file_id : List ℕ → Result Error ℕ
unfolding from_be_bytes
decode_file_id bytes =
    if length bytes == 8
    then (if from_be_bytes 0 bytes == 0 then err decode_error else ok (from_be_bytes 0 bytes))
    else err decode_error

from_be_bytes-to_be_bytes : (n : ℕ) → IsU64 n → from_be_bytes 0 (to_be_bytes n) ≡ n
unfolding from_be_bytes to_be_bytes
from_be_bytes-to_be_bytes n u = omega arith

-- A file ID that is not the reserved 0 is read back from the eight bytes that it is stored in.
pub decode_file_id-to_be_bytes : (n : ℕ) → IsU64 n → 0 < n → decode_file_id (to_be_bytes n) ≡ ok n
unfolding decode_file_id
decode_file_id-to_be_bytes n u p =
    let e : (length (to_be_bytes n) == 8) ≡ true = unfold to_be_bytes in refl in
    let nonzero : (n == 0) ≡ false = ground arith in
    rw e (rw (from_be_bytes-to_be_bytes n u) (rw nonzero refl))
