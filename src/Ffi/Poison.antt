-- ===== src/Ffi/Poison.antt =====
-- What a panic leaves of a handle of rust/src/ffi.rs: a lock that every later call finds poisoned.
use duckdb_object_storage.Common.{
  ℕ, ◌≡◌, refl, ap, subst, Bool, true, false, Option, none, some, [], ◌⊎◌, inl, inr, ◌==◌, take,
  Bool-cases,
}
use duckdb_object_storage.Error.{Error, Result, ok, err, panic, argument_error, code, repr}
use duckdb_object_storage.Keys.{Bytes}
use duckdb_object_storage.ChunkStore.{ChunkStore}
use duckdb_object_storage.Database.{Db}
use duckdb_object_storage.Metadata.{Codec}
use duckdb_object_storage.Handle.{SlateFileHandle}
use duckdb_object_storage.Ffi.{FfiFileHandle, ffi_result, store_error, require}
use duckdb_object_storage.Ffi.Files.{
  read_buffer, write_buffer, locked, with_shared_file_handle, release, run_locked,
  with_exclusive_file_handle, slatedb_file_read, slatedb_file_pread, slatedb_file_write,
  slatedb_file_pwrite, slatedb_file_truncate, slatedb_file_seek, slatedb_file_get_position,
  slatedb_file_get_size, slatedb_file_sync, close_locked, slatedb_file_close,
}

abbrev poisoned_with : SlateFileHandle → Option FfiFileHandle
poisoned_with file = some (record { poisoned = true; handle = some file })

module _ {W A : Type 0} where
  release-panics :
      (out : Result Error A × SlateFileHandle × W) (pointer' : Option FfiFileHandle) (w' : W)
      → release out ≡ (panic, pointer', w')
      → (file : SlateFileHandle) × (poisoned_with file ≡ pointer')
  unfolding release
  release-panics (ok a, file, w) pointer' w' e = absurd (cc)
  release-panics (err failure, file, w) pointer' w' e = absurd (cc)
  release-panics (panic, file, w) pointer' w' e = (file, ap (λ r. r.1) e)

  locked-panics :
      (operation : SlateFileHandle → W → Result Error A × SlateFileHandle × W) (poisoned : Bool)
      (handle : Option SlateFileHandle) (pointer pointer' : Option FfiFileHandle) (w w' : W)
      → run_locked operation (locked poisoned handle) pointer w ≡ (panic, pointer', w')
      → (file : SlateFileHandle) × (poisoned_with file ≡ pointer')
  unfolding run_locked locked
  locked-panics operation true handle pointer pointer' w w' e = absurd (cc)
  locked-panics operation false none pointer pointer' w w' e = absurd (cc)
  locked-panics operation false (some file) pointer pointer' w w' e =
      release-panics (operation file w) pointer' w' e

  exclusive-panics :
      (operation : SlateFileHandle → W → Result Error A × SlateFileHandle × W)
      (pointer pointer' : Option FfiFileHandle) (w w' : W)
      → with_exclusive_file_handle operation pointer w ≡ (panic, pointer', w')
      → (file : SlateFileHandle) × (poisoned_with file ≡ pointer')
  unfolding with_exclusive_file_handle
  exclusive-panics operation none pointer' w w' e = absurd (cc)
  exclusive-panics operation (some h) pointer' w w' e =
      locked-panics operation h.poisoned h.handle (some h) pointer' w w' e

-- The C ABI code of an invalid argument.
abbrev pub invalid_argument_code : ℕ
invalid_argument_code = 6

-- Every call on a handle fails with the code of an invalid argument, stores no more than a zero in its
-- output, and leaves the handle and the database as they are.
pub record Refuses (codec : Codec) (db : Db) (pointer : Option FfiFileHandle) : Type 0 where
  pub reads :
      (store : ChunkStore) (buffer : Option Bytes) (len : ℕ)
      → slatedb_file_read store true buffer len pointer
        ≡ (invalid_argument_code, some (0, none), pointer)
  pub preads :
      (store : ChunkStore) (buffer : Option Bytes) (len offset : ℕ)
      → slatedb_file_pread store true buffer len offset pointer
        ≡ (invalid_argument_code, some (0, none))
  pub writes :
      (store : ChunkStore) (now : ℕ) (buffer : Option Bytes) (len : ℕ)
      → slatedb_file_write store now true buffer len pointer
        ≡ (invalid_argument_code, some 0, pointer)
  pub pwrites :
      (store : ChunkStore) (now : ℕ) (buffer : Option Bytes) (len offset : ℕ)
      → slatedb_file_pwrite store now buffer len offset pointer ≡ (invalid_argument_code, pointer)
  pub truncates :
      (store : ChunkStore) (now new_size : ℕ)
      → slatedb_file_truncate store now new_size pointer ≡ (invalid_argument_code, pointer)
  pub seeks : (position : ℕ) → slatedb_file_seek position pointer ≡ (invalid_argument_code, pointer)
  pub positions : slatedb_file_get_position true pointer ≡ (invalid_argument_code, some 0)
  pub sizes : slatedb_file_get_size true pointer ≡ (invalid_argument_code, some 0)
  pub syncs :
      (s : db.State) → slatedb_file_sync codec db pointer s ≡ (invalid_argument_code, pointer, s)
  pub closes :
      (s : db.State) → slatedb_file_close codec db pointer s ≡ (invalid_argument_code, pointer, s)

read_buffer-cases :
    (buffer : Option Bytes) (len : ℕ)
    → ((memory : Bytes) × (read_buffer buffer len ≡ ok memory))
      ⊎ (read_buffer buffer len ≡ err argument_error)
unfolding read_buffer
read_buffer-cases none len = elim (Bool-cases (len == 0)) [
  | inl empty ↦ inl ([], rw empty refl)
  | inr full ↦ inr (rw full refl)
]
read_buffer-cases (some memory) len = inl (take len memory, refl)

write_buffer-cases :
    (buffer : Option Bytes) (len : ℕ)
    → ((memory : Bytes) × (write_buffer buffer len ≡ ok memory))
      ⊎ (write_buffer buffer len ≡ err argument_error)
unfolding write_buffer
write_buffer-cases none len = elim (Bool-cases (len == 0)) [
  | inl empty ↦ inl ([], rw empty refl)
  | inr full ↦ inr (rw full refl)
]
write_buffer-cases (some memory) len = inl (take len memory, refl)

poisoned-Refuses :
    (codec : Codec) (db : Db) (file : SlateFileHandle) → Refuses codec db (poisoned_with file)
unfolding slatedb_file_read slatedb_file_pread slatedb_file_write slatedb_file_pwrite
    slatedb_file_truncate slatedb_file_seek slatedb_file_get_position slatedb_file_get_size
    slatedb_file_sync slatedb_file_close close_locked with_shared_file_handle
    with_exclusive_file_handle run_locked locked require ffi_result store_error code repr
poisoned-Refuses codec db file = record {
  reads = λ store buffer len. elim (read_buffer-cases buffer len) [
    | inl (memory, e) ↦ rw e refl
    | inr e ↦ rw e refl
  ];
  preads = λ store buffer len offset. elim (read_buffer-cases buffer len) [
    | inl (memory, e) ↦ rw e refl
    | inr e ↦ rw e refl
  ];
  writes = λ store now buffer len. elim (write_buffer-cases buffer len) [
    | inl (memory, e) ↦ rw e refl
    | inr e ↦ rw e refl
  ];
  pwrites = λ store now buffer len offset. elim (write_buffer-cases buffer len) [
    | inl (memory, e) ↦ rw e refl
    | inr e ↦ rw e refl
  ];
  truncates = λ store now new_size. refl;
  seeks = λ position. refl;
  positions = refl;
  sizes = refl;
  syncs = λ s. refl;
  closes = λ s. refl;
}

-- After a call with the exclusive lock has panicked, every later call on the handle fails with the code
-- of an invalid argument, whatever the call was, and has no effect.
pub poisoned_lem :
    {W A : Type 0} (codec : Codec) (db : Db)
    (operation : SlateFileHandle → W → Result Error A × SlateFileHandle × W)
    (pointer pointer' : Option FfiFileHandle) (w w' : W)
    → with_exclusive_file_handle operation pointer w ≡ (panic, pointer', w')
    → Refuses codec db pointer'
poisoned_lem codec db operation pointer pointer' w w' e =
    let (file, same) = exclusive-panics operation pointer pointer' w w' e in
    subst (λ p. Refuses codec db p) same (poisoned-Refuses codec db file)
