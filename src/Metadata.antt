-- ===== src/Metadata.antt =====
-- rust/src/file_metadata.rs: the metadata record of a file. Its wire format is generated from
-- rust/proto/metadata.proto by prost, which is a parameter here.
use duckdb_object_storage.Common.{ℕ, ◌≡◌, ◌<◌, leb, ◌==◌, if◌then◌else◌, arith}
use duckdb_object_storage.Error.{Error, Result, ok, err, argument_error}
use duckdb_object_storage.Keys.{Bytes}

pub record FileMetadata : Type 0 where
  pub size : ℕ
  pub modified_at_ms : ℕ
  pub chunk_size : ℕ
  pub chunk_base_offset : ℕ

abbrev pub default_chunk_size : ℕ
default_chunk_size = 262144

abbrev pub default_chunk_base_offset : ℕ
default_chunk_base_offset = 12288

-- `FileMetadata::new` at a time of the clock.
unfoldable pub new : ℕ → FileMetadata
new now = record {
  size = 0;
  modified_at_ms = now;
  chunk_size = default_chunk_size;
  chunk_base_offset = default_chunk_base_offset;
}

-- prost's `encode_to_vec` and `decode`, the latter after the conversion of its error.
pub record Codec : Type 0 where
  pub encode_to_bytes : FileMetadata → Bytes
  pub decode_from_bytes : Bytes → Result Error FileMetadata

-- What prost promises: a message is decoded from its own encoding.
pub record IsCodec (codec : Codec) : Type 0 where
  pub decode-encode :
      (metadata : FileMetadata)
      → codec.decode_from_bytes (codec.encode_to_bytes metadata) ≡ ok metadata

-- A `usize` has 64 bits, so that the conversion of the chunk size cannot fail.
unfoldable pub validated_chunk_size : FileMetadata → Result Error ℕ
validated_chunk_size metadata =
    if metadata.chunk_size == 0
    then err argument_error
    else if leb metadata.chunk_size metadata.chunk_base_offset
    then err argument_error
    else ok metadata.chunk_size

-- The chunk sizes that are accepted are those that the offset arithmetic can use: not zero, and
-- larger than the base offset. A new record has one.
pub validated_chunk_size_lem :
    (metadata : FileMetadata) (chunk_size : ℕ)
    → validated_chunk_size metadata ≡ ok chunk_size
    → (chunk_size ≡ metadata.chunk_size)
      × (0 < metadata.chunk_size)
      × (metadata.chunk_base_offset < metadata.chunk_size)
unfolding validated_chunk_size
validated_chunk_size_lem metadata chunk_size h = ground arith
