-- ===== src/Handle/Open.antt =====
-- The handles that `with_chunk_store_internal` of rust/src/file_handle.rs opens.
use duckdb_object_storage.Common.{ℕ, ◌≡◌, refl, subst, false, [], inl, inr, if◌then◌else◌, arith}
use duckdb_object_storage.Error.{ok, Result-cases}
use duckdb_object_storage.Flags.{FileOpenFlags, validate, ensure_readable}
use duckdb_object_storage.Flags.Laws.{IsCoherent, validate_iff}
use duckdb_object_storage.Metadata.{FileMetadata, validated_chunk_size, validated_chunk_size_lem}
use duckdb_object_storage.Chunks.{new}
use duckdb_object_storage.Chunks.Locate.{IsValid}
use duckdb_object_storage.Handle.{
  SlateFileClient, SlateFileHandle, check_client, with_chunk_store_internal,
}

-- What an opened handle is: the file, the geometry, the client and the flags that it was asked for,
-- usable, clean, and with no more access than its client allows.
pub record Opened (client : SlateFileClient) (file_id : ℕ) (md : FileMetadata)
    (flags : FileOpenFlags) (h : SlateFileHandle) : Type 0 where
  pub client_is : h.client ≡ client
  pub flags_are : h.flags ≡ flags
  pub file_is : (h.file_id ≡ file_id) × (h.chunks.file_id ≡ file_id)
  pub chunk_size : h.chunks.chunk_size ≡ md.chunk_size
  pub base_offset : h.chunks.chunk_base_offset ≡ md.chunk_base_offset
  pub valid : IsValid h.chunks
  pub coherent : IsCoherent h.flags
  pub clean : (h.chunks.pending ≡ []) × (h.metadata_dirty ≡ false)
  pub size : h.size ≡ md.size
  pub modified : h.modified_at_ms ≡ md.modified_at_ms
  pub position : h.position ≡ (if h.flags.append then md.size else 0)
  pub read_only : h.client ≡ SlateFileClient.read_only → h.flags.write ≡ false

check_read_only :
    (flags : FileOpenFlags)
    → check_client SlateFileClient.read_only flags ≡ ok tt
    → flags.write ≡ false
unfolding check_client ensure_readable
check_read_only flags e = ground arith

built : SlateFileClient → ℕ → FileMetadata → FileOpenFlags → ℕ → SlateFileHandle
built client file_id md flags chunk_size = record {
  client = client;
  file_id = file_id;
  position = if flags.append then md.size else 0;
  size = md.size;
  modified_at_ms = md.modified_at_ms;
  chunks = new file_id chunk_size md.chunk_base_offset;
  metadata_dirty = false;
  flags = flags;
}

built-Opened :
    (client : SlateFileClient) (file_id : ℕ) (md : FileMetadata) (flags : FileOpenFlags)
    (chunk_size : ℕ)
    → validate flags ≡ ok tt
    → check_client client flags ≡ ok tt
    → validated_chunk_size md ≡ ok chunk_size
    → Opened client file_id md flags (built client file_id md flags chunk_size)
unfolding built new
built-Opened client file_id md flags chunk_size v a s =
    let (same, pos, base) = validated_chunk_size_lem md chunk_size s in
    record {
      client_is = refl;
      flags_are = refl;
      file_is = (refl, refl);
      chunk_size = same;
      base_offset = refl;
      valid = record { size_pos = omega arith; base_lt_size = omega arith };
      coherent = (validate_iff flags).0 v;
      clean = (refl, refl);
      size = refl;
      modified = refl;
      position = refl;
      read_only = λ r. check_read_only flags (subst (λ c. check_client c flags ≡ ok tt) r a);
    }

-- A handle that is opened has the client and the flags that it was asked for, and the file, the size,
-- the time and the geometry of its record. The geometry is usable and the flags of the handle are
-- coherent; it starts clean, at the end of the file if it appends and at its start otherwise, and if its
-- client only reads, its flags do not let it write.
pub open_lem :
    (client : SlateFileClient) (file_id : ℕ) (md : FileMetadata) (flags : FileOpenFlags)
    (h : SlateFileHandle)
    → with_chunk_store_internal client file_id md flags ≡ ok h
    → Opened client file_id md flags h
unfolding with_chunk_store_internal built
open_lem client file_id md flags h e = elim (Result-cases (validate flags)) [
  | inl (x, v) ↦ elim (Result-cases (check_client client flags)) [
    | inl (y, a) ↦ elim (Result-cases (validated_chunk_size md)) [
      | inl (n, s) ↦
          let opened : ok (built client file_id md flags n) ≡ ok h =
            rw s at (rw a at (rw v at e)) in
          let same : built client file_id md flags n ≡ h = cc in
          subst (Opened client file_id md flags) same (built-Opened client file_id md flags n v a s)
      | inr (inl (x', w)) ↦ absurd (cc (rw w at (rw a at (rw v at e))))
      | inr (inr w) ↦ absurd (cc (rw w at (rw a at (rw v at e))))
    ]
    | inr (inl (y', w)) ↦ absurd (cc (rw w at (rw v at e)))
    | inr (inr w) ↦ absurd (cc (rw w at (rw v at e)))
  ]
  | inr (inl (x', w)) ↦ absurd (cc (rw w at e))
  | inr (inr w) ↦ absurd (cc (rw w at e))
]
