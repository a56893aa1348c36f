-- ===== src/Ffi/Files.antt =====
-- rust/src/ffi.rs: the calls on a file. Each takes the pointer to the handle, null as `none`, and
-- gives its code, what it stores in its output, and the handle that it leaves.
use duckdb_object_storage.Common.{
  ℕ, Bool, true, false, Option, none, some, [], ◌==◌, if◌then◌else◌, take,
}
use duckdb_object_storage.Error.{Error, Result, ok, err, panic, argument_error, ◌>>=◌}
use duckdb_object_storage.Keys.{Bytes}
use duckdb_object_storage.ChunkStore.{ChunkStore}
use duckdb_object_storage.Database.{Db}
use duckdb_object_storage.Metadata.{Codec}
use duckdb_object_storage.Handle
use duckdb_object_storage.Handle.{SlateFileHandle}
use duckdb_object_storage.Ffi.{FfiFileHandle, ffi_result, store_error, require}

-- `read_buffer` and `write_buffer`: the memory at a pointer, as a slice.
unfoldable pub read_buffer : Option Bytes → ℕ → Result Error Bytes
read_buffer none len = if len == 0 then ok [] else err argument_error
read_buffer (some memory) len = ok (take len memory)

unfoldable pub write_buffer : Option Bytes → ℕ → Result Error Bytes
write_buffer none len = if len == 0 then ok [] else err argument_error
write_buffer (some memory) len = ok (take len memory)

-- What the lock lets through: the open handle, unless the lock is poisoned.
unfoldable pub locked : Bool → Option SlateFileHandle → Result Error SlateFileHandle
locked true handle = err argument_error
locked false none = err argument_error
locked false (some file) = ok file

-- A call with the lock held for reading, which leaves the handle as it is.
unfoldable pub with_shared_file_handle {ℓ} :
    {A : Type ℓ} → (SlateFileHandle → Result Error A) → Option FfiFileHandle → Result Error A
with_shared_file_handle operation pointer = do
  handle ← require pointer
  file ← locked handle.poisoned handle.handle
  operation file

module _ {W : Type 0} where
  -- The handle that an operation leaves behind the lock. A panic poisons the lock.
  unfoldable pub release {ℓ} :
      {A : Type ℓ}
      → Result Error A × SlateFileHandle × W
      → Result Error A × Option FfiFileHandle × W
  release (ok a, file, w) = (ok a, some (record { poisoned = false; handle = some file }), w)
  release (err e, file, w) = (err e, some (record { poisoned = false; handle = some file }), w)
  release (panic, file, w) = (panic, some (record { poisoned = true; handle = some file }), w)

  unfoldable pub run_locked {ℓ} :
      {A : Type ℓ}
      → (SlateFileHandle → W → Result Error A × SlateFileHandle × W)
      → Result Error SlateFileHandle
      → Option FfiFileHandle
      → W
      → Result Error A × Option FfiFileHandle × W
  run_locked operation (ok file) pointer w = release (operation file w)
  run_locked operation (err e) pointer w = (err e, pointer, w)
  run_locked operation panic pointer w = (panic, pointer, w)

  -- A call with the lock held for writing.
  unfoldable pub with_exclusive_file_handle {ℓ} :
      {A : Type ℓ}
      → (SlateFileHandle → W → Result Error A × SlateFileHandle × W)
      → Option FfiFileHandle
      → W
      → Result Error A × Option FfiFileHandle × W
  with_exclusive_file_handle operation none w = (err argument_error, none, w)
  with_exclusive_file_handle operation (some handle) w =
      run_locked operation (locked handle.poisoned handle.handle) (some handle) w

-- An operation that does not reach the database.
abbrev pub alone {ℓ} :
    {A : Type ℓ}
    → (SlateFileHandle → Result Error A × SlateFileHandle)
    → SlateFileHandle
    → Unit {0}
    → Result Error A × SlateFileHandle × Unit {0}
alone operation file w = ((operation file).0, (operation file).1, w)

-- The code of a result, which forgets its value.
abbrev pub code_of {ℓ} : {A : Type ℓ} → Result Error A → ℕ
code_of (ok a) = ffi_result (ok tt)
code_of (err e) = ffi_result (err e)
code_of panic = ffi_result panic

-- What is left in an output that is set to zero first.
abbrev pub count_of : Result Error ℕ → ℕ
count_of (ok n) = n
count_of (err e) = 0
count_of panic = 0

-- The same of a read, with the buffer that it filled.
abbrev pub read_of : Result Error (Bytes × ℕ) → ℕ × Option Bytes
read_of (ok (buffer, n)) = (n, some buffer)
read_of (err e) = (0, none)
read_of panic = (0, none)

-- A call without an output.
abbrev pub Call : Type 0 → Type 0
Call W = ℕ × Option FfiFileHandle × W

abbrev exclusive_read :
    ChunkStore
    → Result Error Bytes
    → Option FfiFileHandle
    → Result Error (Bytes × ℕ) × Option FfiFileHandle
exclusive_read store (ok buffer) pointer =
    let out =
      with_exclusive_file_handle (alone (λ file. Handle.read store file buffer)) pointer tt in
    (out.0, out.1)
exclusive_read store (err e) pointer = (err e, pointer)
exclusive_read store panic pointer = (panic, pointer)

abbrev exclusive_write :
    ChunkStore
    → ℕ
    → Result Error Bytes
    → Option FfiFileHandle
    → Result Error ℕ × Option FfiFileHandle
exclusive_write store now (ok buffer) pointer =
    let out = with_exclusive_file_handle (alone (Handle.write store now buffer)) pointer tt in
    (out.0, out.1)
exclusive_write store now (err e) pointer = (err e, pointer)
exclusive_write store now panic pointer = (panic, pointer)

abbrev exclusive_pwrite :
    ChunkStore
    → ℕ
    → ℕ
    → Result Error Bytes
    → Option FfiFileHandle
    → Result Error (Unit {0}) × Option FfiFileHandle
exclusive_pwrite store now offset (ok buffer) pointer =
    let out =
      with_exclusive_file_handle (alone (Handle.pwrite store now buffer offset)) pointer tt in
    (out.0, out.1)
exclusive_pwrite store now offset (err e) pointer = (err e, pointer)
exclusive_pwrite store now offset panic pointer = (panic, pointer)

-- The calls. `output` says whether the pointer to the output is not null; without one a call fails
-- before it looks at the handle.
unfoldable pub slatedb_file_read :
    ChunkStore
    → Bool
    → Option Bytes
    → ℕ
    → Option FfiFileHandle
    → ℕ × Option (ℕ × Option Bytes) × Option FfiFileHandle
slatedb_file_read store false buffer len pointer = (store_error argument_error, none, pointer)
slatedb_file_read store true buffer len pointer =
    let out = exclusive_read store (read_buffer buffer len) pointer in
    (code_of out.0, some (read_of out.0), out.1)

unfoldable pub slatedb_file_pread :
    ChunkStore → Bool → Option Bytes → ℕ → ℕ → Option FfiFileHandle → ℕ × Option (ℕ × Option Bytes)
slatedb_file_pread store false buffer len offset pointer = (store_error argument_error, none)
slatedb_file_pread store true buffer len offset pointer =
    let out : Result Error (Bytes × ℕ) = (do
      memory ← read_buffer buffer len
      with_shared_file_handle (λ file. Handle.pread store file memory offset) pointer) in
    (code_of out, some (read_of out))

unfoldable pub slatedb_file_write :
    ChunkStore
    → ℕ
    → Bool
    → Option Bytes
    → ℕ
    → Option FfiFileHandle
    → ℕ × Option ℕ × Option FfiFileHandle
slatedb_file_write store now false buffer len pointer = (store_error argument_error, none, pointer)
slatedb_file_write store now true buffer len pointer =
    let out = exclusive_write store now (write_buffer buffer len) pointer in
    (code_of out.0, some (count_of out.0), out.1)

unfoldable pub slatedb_file_pwrite :
    ChunkStore → ℕ → Option Bytes → ℕ → ℕ → Option FfiFileHandle → ℕ × Option FfiFileHandle
slatedb_file_pwrite store now buffer len offset pointer =
    let out = exclusive_pwrite store now offset (write_buffer buffer len) pointer in
    (code_of out.0, out.1)

unfoldable pub slatedb_file_truncate :
    ChunkStore → ℕ → ℕ → Option FfiFileHandle → ℕ × Option FfiFileHandle
slatedb_file_truncate store now new_size pointer =
    let out = with_exclusive_file_handle (alone (Handle.truncate store now new_size)) pointer tt in
    (code_of out.0, out.1)

unfoldable pub slatedb_file_seek : ℕ → Option FfiFileHandle → ℕ × Option FfiFileHandle
slatedb_file_seek position pointer =
    let out =
      with_exclusive_file_handle (alone (λ file. (ok tt, Handle.seek position file))) pointer tt in
    (code_of {A = Unit {0}} out.0, out.1)

unfoldable pub slatedb_file_get_position : Bool → Option FfiFileHandle → ℕ × Option ℕ
slatedb_file_get_position false pointer = (store_error argument_error, none)
slatedb_file_get_position true pointer =
    let out = with_shared_file_handle (λ file. ok file.position) pointer in
    (code_of out, some (count_of out))

unfoldable pub slatedb_file_get_size : Bool → Option FfiFileHandle → ℕ × Option ℕ
slatedb_file_get_size false pointer = (store_error argument_error, none)
slatedb_file_get_size true pointer =
    let out = with_shared_file_handle (λ file. ok file.size) pointer in
    (code_of out, some (count_of out))

module _ (codec : Codec) (db : Db) where
  unfoldable pub slatedb_file_sync : Option FfiFileHandle → db.State → Call db.State
  slatedb_file_sync pointer s =
      let out = with_exclusive_file_handle (Handle.sync codec db) pointer s in
      (code_of out.0, out.1, out.2)

  -- The end of `slatedb_file_close`: only a handle that closes without an error is dropped.
  unfoldable pub drop_closed : Result Error (Unit {0}) × SlateFileHandle × db.State → Call db.State
  drop_closed (ok _, file, s) = (0, some (record { poisoned = false; handle = none }), s)
  drop_closed (err e, file, s) =
      (ffi_result (err e), some (record { poisoned = false; handle = some file }), s)
  drop_closed (panic, file, s) =
      (ffi_result panic, some (record { poisoned = true; handle = some file }), s)

  unfoldable pub close_locked : Bool → Option SlateFileHandle → db.State → Call db.State
  close_locked true handle s =
      (store_error argument_error, some (record { poisoned = true; handle = handle }), s)
  close_locked false none s = (0, some (record { poisoned = false; handle = none }), s)
  close_locked false (some file) s = drop_closed (Handle.close codec db file s)

  unfoldable pub slatedb_file_close : Option FfiFileHandle → db.State → Call db.State
  slatedb_file_close none s = (store_error argument_error, none, s)
  slatedb_file_close (some handle) s = close_locked handle.poisoned handle.handle s

  -- `slatedb_file_destroy`: the handle is closed, whatever that gives, and is gone.
  unfoldable pub slatedb_file_destroy : Option FfiFileHandle → db.State → db.State
  slatedb_file_destroy none s = s
  slatedb_file_destroy (some handle) s = (slatedb_file_close (some handle) s).2
