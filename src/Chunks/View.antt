-- ===== src/Chunks/View.antt =====
-- The abstract view of a chunk manager: the bytes of a file, by position. A byte that no chunk covers
-- is 0.
use duckdb_object_storage.Common.{ℕ, ◌≤◌, ◌≡◌, true, Option, none, some, byte, length, IsU64}
use duckdb_object_storage.Common.Map
use duckdb_object_storage.Common.Map.{Map}
use duckdb_object_storage.Keys.{Bytes, chunk_key, chunk_prefix}
use duckdb_object_storage.Keys.Order.{starts_with}
use duckdb_object_storage.Database.{Contents}
use duckdb_object_storage.Chunks.{ChunkManager, PendingChunk, written, deleted}
use duckdb_object_storage.Chunks.Locate.{chunk_of, offset_in}

-- The chunk that is staged for writing, and the chunk that is persisted.
abbrev pub bytes_of : Option PendingChunk → Option Bytes
bytes_of none = none
bytes_of (some (written chunk)) = some chunk
bytes_of (some deleted) = none

abbrev pub staged : ChunkManager → ℕ → Option Bytes
staged m i = bytes_of (Map.get i m.pending)

abbrev pub persisted : ChunkManager → Contents → ℕ → Option Bytes
persisted m contents i = contents (chunk_key m.file_id i)

abbrev pub or_persisted : Option PendingChunk → Option Bytes → Option Bytes
or_persisted none chunk = chunk
or_persisted (some pending) chunk = bytes_of (some pending)

-- The chunk as a reader of the handle sees it.
abbrev pub view : ChunkManager → Contents → ℕ → Option Bytes
view m contents i = or_persisted (Map.get i m.pending) (persisted m contents i)

abbrev pub byte_in : Option Bytes → ℕ → ℕ
byte_in none j = 0
byte_in (some chunk) j = byte chunk j

-- The byte of the file at a position.
unfoldable pub byte_at : ChunkManager → Contents → ℕ → ℕ
byte_at m contents p = byte_in (view m contents (chunk_of m p)) (offset_in m p)

-- A chunk that is absent, or that reaches to an offset.
abbrev pub Reaches : Option Bytes → ℕ → Type 0
Reaches none j = Unit
Reaches (some chunk) j = j ≤ length chunk

-- Under the scan prefix of the file the database holds chunks of the file only.
pub record IsChunked (contents : Contents) (file_id : ℕ) : Type 0 where
  pub is_u64 : IsU64 file_id
  pub only_chunks :
      (key value : Bytes)
      → starts_with (chunk_prefix file_id) key ≡ true
      → contents key ≡ some value
      → (i : ℕ) × IsU64 i × (key ≡ chunk_key file_id i)
