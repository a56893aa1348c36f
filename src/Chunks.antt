-- ===== src/Chunks.antt =====
-- rust/src/chunk_manager.rs: the chunks of one file, with the staged writes and deletes. The store
-- that a manager holds is an argument of the operations that read it; `usize` has 64 bits.
pub mod Ranges
pub mod Parse
pub mod Ops
pub mod Locate
pub mod Split
pub mod View
pub mod Paint
pub mod Fetch
pub mod Merge
pub mod Read
pub mod ReadBytes
pub mod Write
pub mod WriteOk
pub mod Truncate
pub mod TruncateAll
pub mod Flush
use Ranges.{coalesce_chunk_indices}
use Parse.{parse_chunk_idx}
use duckdb_object_storage.Common.{
  ℕ, zero, suc, ◌+◌, ◌-◌, ◌*◌, ◌/◌, ◌%◌, min, Bool, true, false, not, ◌&&◌, Option, none, some,
  List, [], ◌∷◌, ◌++◌, map, ltb, leb, ◌==◌, if◌then◌else◌, length, take, drop, replicate, resize,
  splice, wrap, u64_max,
}
use duckdb_object_storage.Common.Map
use duckdb_object_storage.Common.Map.{Map}
use duckdb_object_storage.Error.{Error, Result, ok, err, panic, ◌>>=◌}
use duckdb_object_storage.Keys.{Bytes, chunk_key, chunk_prefix}
use duckdb_object_storage.Database.{KeyValue, BatchOp, put, delete, WriteBatch}
use duckdb_object_storage.ChunkStore.{ChunkStore}

abbrev max_scan_read_ahead_bytes : ℕ
max_scan_read_ahead_bytes = 4 * 1024 * 1024

pub data PendingChunk : Type 0 where
  written : Bytes → PendingChunk
  deleted : PendingChunk

pub record ChunkSlice : Type 0 where
  pub chunk_idx : ℕ
  pub buf_offset : ℕ
  pub chunk_offset : ℕ
  pub len : ℕ

pub record ChunkManager : Type 0 where
  pub file_id : ℕ
  pub chunk_size : ℕ
  pub chunk_base_offset : ℕ
  pub pending : Map PendingChunk

-- `ChunkManager::new`
unfoldable pub new : ℕ → ℕ → ℕ → ChunkManager
new file_id chunk_size chunk_base_offset = record {
  file_id = file_id;
  chunk_size = chunk_size;
  chunk_base_offset = chunk_base_offset;
  pending = [];
}

unfoldable pub has_pending_changes : ChunkManager → Bool
has_pending_changes m = not (Map.is_empty m.pending)

-- The chunk of a position, the offset in it, and the bytes from there to the end of the chunk: the
-- `if` in the loop of `split_into_chunks`. No manager has a chunk size of zero, on which the source
-- panics by a division: `validated_chunk_size` refuses it.
unfoldable pub locate : ChunkManager → ℕ → ℕ × ℕ × ℕ
locate m position =
    if ltb position m.chunk_base_offset
    then (0, position, m.chunk_base_offset - position)
    else let aligned = position - m.chunk_base_offset in
      let chunk_offset = aligned % m.chunk_size in
      (
        wrap (aligned / m.chunk_size + (if m.chunk_base_offset == 0 then 0 else 1)),
        chunk_offset,
        m.chunk_size - chunk_offset,
      )

-- One round of the loop: the slice that starts at `covered`.
unfoldable pub next_slice : ChunkManager → ℕ → ℕ → ℕ → ChunkSlice
next_slice m len offset covered =
    let place = locate m (wrap (offset + covered)) in
    record {
      chunk_idx = place.0;
      buf_offset = covered;
      chunk_offset = place.1;
      len = min (len - covered) place.2;
    }

-- `while covered < len`, with fuel; every round covers a byte, so `len` rounds are enough.
unfoldable pub split_loop : ChunkManager → ℕ → ℕ → ℕ → ℕ → List ChunkSlice
split_loop m len offset zero covered = []
split_loop m len offset (suc fuel) covered =
    let slice = next_slice m len offset covered in
    let rest = slice ∷ split_loop m len offset fuel (covered + slice.len) in
    if ltb covered len then rest else []

unfoldable pub split_into_chunks : ChunkManager → ℕ → ℕ → List ChunkSlice
split_into_chunks m len offset = split_loop m len offset len 0

-- A range of a byte string out of bounds panics, also an empty one.
unfoldable pub copy_chunk_into : Bytes → ChunkSlice → Bytes → Result Error Bytes
copy_chunk_into buf slice chunk =
    let available = min (length chunk - slice.chunk_offset) slice.len in
    if leb (slice.buf_offset + available) (length buf)
      && leb (slice.chunk_offset + available) (length chunk)
    then ok (splice buf slice.buf_offset (take available (drop slice.chunk_offset chunk)))
    else panic

saturate : ℕ → ℕ
saturate n = min n u64_max

unfoldable pub scan_read_ahead_bytes : ℕ → ℕ → ℕ → ℕ
unfolding saturate
scan_read_ahead_bytes first last chunk_size =
    let chunk_count = saturate (last - first + 1) in
    let bytes = saturate (chunk_count * chunk_size) in
    if ltb bytes 1
    then 1
    else if ltb max_scan_read_ahead_bytes bytes
    then max_scan_read_ahead_bytes
    else bytes

-- The chunk index of each scanned key, up to the first that does not parse.
unfoldable pub parse_pairs : List KeyValue → Result Error (List (ℕ × Bytes))
parse_pairs [] = ok []
parse_pairs (kv ∷ scanned) = do
  chunk_idx ← parse_chunk_idx kv.0
  pairs ← parse_pairs scanned
  ok ((chunk_idx, kv.1) ∷ pairs)

-- The indices of the keys from `min_chunk_idx` on: the loop of `collect_persisted_chunk_indices`.
unfoldable pub parse_keys : ℕ → List Bytes → Result Error (List ℕ)
parse_keys min_chunk_idx [] = ok []
parse_keys min_chunk_idx (key ∷ keys) = do
  chunk_idx ← parse_chunk_idx key
  chunk_indices ← parse_keys min_chunk_idx keys
  ok (if leb min_chunk_idx chunk_idx then chunk_idx ∷ chunk_indices else chunk_indices)

-- `unwrap_or_default`
abbrev pub or_default : Option Bytes → Bytes
or_default none = []
or_default (some chunk) = chunk

abbrev pub single : ℕ → Option Bytes → List (ℕ × Bytes)
single first none = []
single first (some chunk) = (first, chunk) ∷ []

module _ (store : ChunkStore) where
  unfoldable pub read_chunk_group_from_store :
      ChunkManager → ℕ × ℕ → Result Error (List (ℕ × Bytes))
  unfolding scan_read_ahead_bytes
  read_chunk_group_from_store m (first, last) =
      if first == last
      then (do chunk ← store.get (chunk_key m.file_id first); ok (single first chunk))
      else do
        scanned ←
            store.scan_inclusive (chunk_key m.file_id first) (chunk_key m.file_id last)
              (scan_read_ahead_bytes first last m.chunk_size)
        parse_pairs scanned

  -- `try_join_all` over the groups, and the results in one list.
  unfoldable pub fetch_groups : ChunkManager → List (ℕ × ℕ) → Result Error (List (ℕ × Bytes))
  fetch_groups m [] = ok []
  fetch_groups m (group ∷ groups) = do
    pairs ← read_chunk_group_from_store m group
    rest ← fetch_groups m groups
    ok (pairs ++ rest)

  unfoldable pub read_chunks_from_store : ChunkManager → List ℕ → Result Error (Map Bytes)
  read_chunks_from_store m [] = ok []
  read_chunks_from_store m (i ∷ chunk_indices) = do
    fetched ← fetch_groups m (coalesce_chunk_indices (i ∷ chunk_indices))
    ok (Map.extend fetched [])

  unfoldable pub read_chunk_from_store : ChunkManager → ℕ → Result Error Bytes
  read_chunk_from_store m chunk_idx = do
    chunk ← store.get (chunk_key m.file_id chunk_idx)
    ok (or_default chunk)

  unfoldable pub chunk_contents : ChunkManager → ℕ → Result Error Bytes
  chunk_contents m chunk_idx = elim (Map.get chunk_idx m.pending) [
    | some (written chunk) ↦ ok chunk
    | some deleted ↦ ok []
    | none ↦ read_chunk_from_store m chunk_idx
  ]

  unfoldable pub collect_persisted_chunk_indices : ChunkManager → ℕ → Result Error (List ℕ)
  collect_persisted_chunk_indices m min_chunk_idx = do
    keys ← store.keys_with_prefix (chunk_prefix m.file_id)
    parse_keys min_chunk_idx keys
