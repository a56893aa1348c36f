-- ===== src/Tests/Inputs.antt =====
-- The concrete inputs: a file with a persisted and a staged chunk, and a handle on a new file.
use duckdb_object_storage.Common.{
  ◌≡◌, refl, sym, subst, true, false, inl, inr, some, [], ◌∷◌, arith, wrap, resize, splice,
  Bool-cases,
}
use duckdb_object_storage.Common.Map
use duckdb_object_storage.Error.{Error, Result, ok, err, decode_error}
use duckdb_object_storage.Keys.{Bytes, chunk_key}
use duckdb_object_storage.Keys.Order.{bytes_eq, bytes_eq→eq}
use duckdb_object_storage.Database.{Contents, Serves}
use duckdb_object_storage.Flags
use duckdb_object_storage.ChunkStore.{ChunkStore, get, slatedb_chunk_store}
use duckdb_object_storage.ChunkStore.Laws.{IsStore, slatedb_chunk_store-IsStore}
use duckdb_object_storage.Metadata.{FileMetadata, Codec, IsCodec}
use duckdb_object_storage.Chunks.{
  ChunkManager, written, split_into_chunks, split_loop, next_slice, locate, chunk_contents,
  read_chunk_from_store,
}
use duckdb_object_storage.Chunks.Ops
use duckdb_object_storage.Chunks.Ops.{write_loop, chunk_before_write, overwrite}
use duckdb_object_storage.Chunks.Locate.{IsValid}
use duckdb_object_storage.Chunks.View.{byte_at, IsChunked}
use duckdb_object_storage.Chunks.Flush.{IsFlushable}
use duckdb_object_storage.Handle.{
  SlateFileClient, SlateFileHandle, pwrite, pwrite_checked, after_write, set_metadata_dirty,
}
use duckdb_object_storage.Handle.Reads.{IsOpen}
use duckdb_object_storage.Handle.Writes.{IsFile, Written, pwrite_lem}
use duckdb_object_storage.Tests.LogDb.{Log, lookup, read_log, read_log-Serves}

-- Chunk 1 of file 5 is persisted, and chunk 0 staged.
abbrev pub log : Log
log = (chunk_key 5 1, some (10 ∷ 11 ∷ 12 ∷ 13 ∷ 14 ∷ 15 ∷ [])) ∷ []

abbrev pub stored : Contents
stored = lookup log

abbrev pub store : ChunkStore
store = slatedb_chunk_store (read_log log)

abbrev pub manager : ChunkManager
manager = record {
  file_id = 5;
  chunk_size = 8;
  chunk_base_offset = 3;
  pending = (0, written (1 ∷ 2 ∷ 3 ∷ [])) ∷ [];
}

pub store-Serves : Serves (read_log log) stored
store-Serves = read_log-Serves stored log (λ k. refl)

pub store-IsStore : IsStore store stored
store-IsStore = slatedb_chunk_store-IsStore (read_log log) stored store-Serves

pub manager-IsValid : IsValid manager
manager-IsValid = record { size_pos = omega arith; base_lt_size = omega arith }

pub stored-IsChunked : IsChunked stored 5
stored-IsChunked = record {
  is_u64 = omega arith;
  only_chunks = λ key value pre found. elim (Bool-cases (bytes_eq (chunk_key 5 1) key)) [
    | inl same ↦ (1, omega arith, sym (bytes_eq→eq (chunk_key 5 1) key same))
    | inr other ↦ absurd (cc (rw other at found))
  ];
}

pub manager-IsFlushable : IsFlushable manager
manager-IsFlushable = record { is_u64 = omega arith; sorted = tt; indices = (omega arith, tt) }

abbrev pub handle : SlateFileHandle
handle = record {
  client = SlateFileClient.read_write;
  file_id = 5;
  position = 1;
  size = 9;
  modified_at_ms = 0;
  chunks = manager;
  metadata_dirty = false;
  flags = Flags.read_write;
}

pub handle-IsOpen : IsOpen handle stored
handle-IsOpen = record {
  valid = manager-IsValid;
  chunked = stored-IsChunked;
  size_is_u64 = omega arith;
  readable = refl;
}

-- A new file over an empty database, and the same file after a write.
abbrev pub nothing : Contents
nothing = lookup []

abbrev pub empty_store : ChunkStore
empty_store = slatedb_chunk_store (read_log [])

pub empty_store-Serves : Serves (read_log []) nothing
empty_store-Serves = read_log-Serves nothing [] (λ k. refl)

pub empty_store-IsStore : IsStore empty_store nothing
empty_store-IsStore = slatedb_chunk_store-IsStore (read_log []) nothing empty_store-Serves

abbrev pub new_file : SlateFileHandle
new_file = record {
  client = SlateFileClient.read_write;
  file_id = 5;
  position = 0;
  size = 0;
  modified_at_ms = 0;
  chunks = record { file_id = 5; chunk_size = 8; chunk_base_offset = 3; pending = [] };
  metadata_dirty = false;
  flags = Flags.read_write;
}

pub new_file-IsFile : IsFile new_file nothing
unfolding byte_at Map.get
new_file-IsFile = record {
  valid = record { size_pos = omega arith; base_lt_size = omega arith };
  chunked = record { is_u64 = omega arith; only_chunks = λ key value pre found. absurd (cc) };
  size_is_u64 = omega arith;
  zeros = λ p u past. refl;
  flushable = record { is_u64 = omega arith; sorted = tt; indices = tt };
}

abbrev pub payload : Bytes
payload = 1 ∷ 2 ∷ 3 ∷ 4 ∷ 5 ∷ 6 ∷ []

abbrev pub written_file : SlateFileHandle
written_file = record {
  client = SlateFileClient.read_write;
  file_id = 5;
  position = 0;
  size = 7;
  modified_at_ms = 7;
  chunks = record {
    file_id = 5;
    chunk_size = 8;
    chunk_base_offset = 3;
    pending = (0, written (0 ∷ 1 ∷ 2 ∷ [])) ∷ (1, written (3 ∷ 4 ∷ 5 ∷ 6 ∷ [])) ∷ [];
  };
  metadata_dirty = true;
  flags = Flags.read_write;
}

written_file_eq : (pwrite empty_store 7 payload 1 new_file).1 ≡ written_file
unfolding pwrite Flags.ensure_writable pwrite_checked after_write set_metadata_dirty Ops.write
    write_loop split_into_chunks split_loop chunk_before_write next_slice locate wrap chunk_contents
    Map.get Map.insert read_chunk_from_store get overwrite resize splice
written_file_eq = refl

abbrev pub blank : Bytes
blank = 0 ∷ 0 ∷ 0 ∷ 0 ∷ 0 ∷ 0 ∷ []

pub written_file-IsFile : IsFile written_file nothing
written_file-IsFile =
    let w : Written new_file nothing payload 1 (pwrite empty_store 7 payload 1 new_file).1 =
      (pwrite_lem empty_store nothing 7 new_file payload 1 empty_store-IsStore new_file-IsFile refl
        (omega arith) (omega arith)).1 in
    subst (λ (h : SlateFileHandle). IsFile h nothing) written_file_eq w.is_file

-- A wire format: four numbers, one after the other.
abbrev pub decode : Bytes → Result Error FileMetadata
decode (size ∷ modified_at_ms ∷ chunk_size ∷ chunk_base_offset ∷ []) = ok (record {
  size = size;
  modified_at_ms = modified_at_ms;
  chunk_size = chunk_size;
  chunk_base_offset = chunk_base_offset;
})
decode _ = err decode_error

abbrev pub codec : Codec
codec = record {
  encode_to_bytes = λ m. m.size ∷ m.modified_at_ms ∷ m.chunk_size ∷ m.chunk_base_offset ∷ [];
  decode_from_bytes = decode;
}

pub codec-IsCodec : IsCodec codec
codec-IsCodec = record { decode-encode = λ m. refl }
