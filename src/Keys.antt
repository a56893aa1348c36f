-- ===== src/Keys.antt =====
-- rust/src/keys.rs: the key families of the SlateDB instance, and the byte order of its keys.
pub mod Hex
pub mod Order
pub mod Prefixes
use Hex.{hex}
use duckdb_object_storage.Common.{ℕ, List, [], ◌∷◌, ◌++◌}

abbrev pub Bytes : Type 0
Bytes = List ℕ

pub data Prefix : Type 0 where
  chunk metadata : Prefix

-- `Prefix::as_str`
unfoldable pub as_str : Prefix → Bytes
as_str chunk = b'c' ∷ b'/' ∷ []
as_str metadata = b'm' ∷ b'/' ∷ []

-- `c/<file_id:016x>/`
unfoldable pub chunk_prefix : ℕ → Bytes
unfolding as_str
chunk_prefix file_id = as_str chunk ++ (hex 16 file_id ++ (b'/' ∷ []))

-- `c/<file_id:016x>/<chunk_index:016x>`
unfoldable pub chunk_key : ℕ → ℕ → Bytes
unfolding chunk_prefix
chunk_key file_id chunk_index = chunk_prefix file_id ++ hex 16 chunk_index

-- `m/<file_id:016x>`
unfoldable pub metadata_key : ℕ → Bytes
unfolding as_str
metadata_key file_id = as_str metadata ++ hex 16 file_id
