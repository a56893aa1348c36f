-- ===== src/Handle/Writes.antt =====
-- `pwrite`, `write` and `truncate` of rust/src/file_handle.rs.
use duckdb_object_storage.Common.{
  ℕ, ◌+◌, ◌-◌, ◌≤◌, ◌<◌, ◌≡◌, refl, ap, ◌∙◌, sym, subst, Bool, true, false, ◌&&◌, inl, arith, ltb,
  leb, ◌==◌, if◌then◌else◌, le→ltb, length, byte, IsU64, Bool-cases, inr, ◌⊎◌, ◌↔◌, ==→eq, ltb→lt,
}
use duckdb_object_storage.Error.{Error, Result, ok, err, panic, argument_error, read_only_error}
use duckdb_object_storage.Flags.{ensure_writable}
use duckdb_object_storage.Keys.{Bytes}
use duckdb_object_storage.Database.{Contents}
use duckdb_object_storage.ChunkStore.{ChunkStore}
use duckdb_object_storage.ChunkStore.Laws.{IsStore, IsStore-IsHonest}
use duckdb_object_storage.Chunks.{ChunkManager}
use duckdb_object_storage.Chunks.Locate.{IsValid}
use duckdb_object_storage.Chunks.View.{byte_at, IsChunked}
use duckdb_object_storage.Chunks.Flush.{IsFlushable}
use duckdb_object_storage.Chunks.Write.{SameShape, write_lem}
use duckdb_object_storage.Chunks.WriteOk.{write_ok, write_keeps}
use duckdb_object_storage.Chunks.TruncateAll.{truncate_lem, truncate_keeps}
use duckdb_object_storage.Chunks.Ops
use duckdb_object_storage.Handle.{
  SlateFileHandle, set_metadata_dirty, after_write, pwrite_checked, pwrite, after_truncate,
  truncate,
}

-- The bytes of the file of a handle, as a function of the position: those at or past its size are
-- zeros, so that a file that grows reads as zeros there.
pub record IsFile (h : SlateFileHandle) (contents : Contents) : Type 0 where
  pub valid : IsValid h.chunks
  pub chunked : IsChunked contents h.chunks.file_id
  pub size_is_u64 : IsU64 h.size
  pub zeros : (p : ℕ) → IsU64 p → h.size ≤ p → byte_at h.chunks contents p ≡ 0
  pub flushable : IsFlushable h.chunks

-- What a positional write leaves behind.
pub record Written (h : SlateFileHandle) (contents : Contents) (payload : Bytes) (offset : ℕ)
    (h' : SlateFileHandle) : Type 0 where
  pub size :
      h'.size ≡ (if ltb h.size (offset + length payload) then offset + length payload else h.size)
  pub position : h'.position ≡ h.position
  pub dirty : h'.metadata_dirty ≡ true
  pub is_file : IsFile h' contents
  pub bytes :
      (p : ℕ)
      → IsU64 p
      → byte_at h'.chunks contents p ≡ (
          if leb offset p && ltb p (offset + length payload)
          then byte payload (p - offset)
          else byte_at h.chunks contents p)

-- A handle over a manager of the same file and geometry, with other bytes.
same-IsFile :
    (h h' : SlateFileHandle) (contents : Contents)
    → IsFile h contents
    → SameShape h.chunks h'.chunks
    → IsFlushable h'.chunks
    → IsU64 h'.size
    → ((p : ℕ) → IsU64 p → h'.size ≤ p → byte_at h'.chunks contents p ≡ 0)
    → IsFile h' contents
same-IsFile h h' contents f s fl u zeros = record {
  valid = record {
    size_pos = omega (arith, f.valid.size_pos, s.same_size);
    base_lt_size = omega (arith, f.valid.base_lt_size, s.same_size, s.same_base);
  };
  chunked = subst (IsChunked contents) (sym s.same_file) f.chunked;
  size_is_u64 = u;
  zeros = zeros;
  flushable = fl;
}

module _ (store : ChunkStore) (contents : Contents) (serves : IsStore store contents) where
  past_zero :
      (h : SlateFileHandle) (payload : Bytes) (offset : ℕ)
      → IsFile h contents
      → (p : ℕ) → IsU64 p
      → (if ltb h.size (offset + length payload) then offset + length payload else h.size) ≤ p
      → (if leb offset p && ltb p (offset + length payload)
          then byte payload (p - offset)
          else byte_at h.chunks contents p)
        ≡ 0
  past_zero h payload offset f p u past = ground (arith, f.zeros p u)

  after_write_lem :
      (now : ℕ) (h : SlateFileHandle) (payload : Bytes) (offset : ℕ)
      → IsFile h contents
      → IsU64 (offset + length payload)
      → (r : Result Error (Unit {0}) × ChunkManager) → Ops.write store payload offset h.chunks ≡ r
      → ((after_write store now (offset + length payload) r h).0 ≡ ok tt)
        × Written h contents payload offset (after_write store now (offset + length payload) r h).1
  unfolding after_write set_metadata_dirty
  after_write_lem now h payload offset f room (ok x, chunks) e =
      let done = write_ok store contents h.chunks payload offset serves in
      let (upto, _, all, bytes) =
        write_lem store contents h.chunks payload offset f.valid
          (IsStore-IsHonest store contents serves) (omega arith) in
      let whole : upto ≡ length payload = all done in
      let chunks_eq : (Ops.write store payload offset h.chunks).1 ≡ chunks =
        ap (λ (w : Result Error (Unit {0}) × ChunkManager). w.1) e in
      let shown : (p : ℕ)
          → IsU64 p
          → byte_at chunks contents p ≡ (
              if leb offset p && ltb p (offset + length payload)
              then byte payload (p - offset)
              else byte_at h.chunks contents p) =
        λ p u.
          ap (λ (n : ChunkManager). byte_at n contents p) (sym chunks_eq)
          ∙ bytes p u
          ∙ rw whole refl in
      (
        refl,
        record {
          size = refl;
          position = refl;
          dirty = refl;
          is_file =
              let kept =
                write_keeps store h.chunks payload offset f.valid f.flushable (omega arith) in
              same-IsFile h _ contents f (subst (SameShape h.chunks) chunks_eq kept.0)
                (subst IsFlushable chunks_eq kept.1) (ground (arith, f.size_is_u64))
                (λ p u past. shown p u ∙ past_zero h payload offset f p u past);
          bytes = shown;
        },
      )
  after_write_lem now h payload offset f room (err x, chunks) e =
      let done = write_ok store contents h.chunks payload offset serves in
      let clash : err x ≡ ok tt =
        ap (λ (w : Result Error (Unit {0}) × ChunkManager). w.0) (sym e) ∙ done in
      absurd (cc)
  after_write_lem now h payload offset f room (panic, chunks) e =
      let done = write_ok store contents h.chunks payload offset serves in
      let clash : panic ≡ ok tt =
        ap (λ (w : Result Error (Unit {0}) × ChunkManager). w.0) (sym e) ∙ done in
      absurd (cc)

granted : (h : SlateFileHandle) → h.flags.write ≡ true → ensure_writable h.flags ≡ ok tt
unfolding ensure_writable
granted h writable = rw writable refl

-- A positional write of some bytes through a writable handle, over a store that answers, succeeds if
-- its end fits a u64. The file then holds these bytes there and is otherwise unchanged, it grows
-- exactly if the write ends past it, the position stays, and the handle stays a consistent file.
pub pwrite_lem :
    (store : ChunkStore) (contents : Contents) (now : ℕ) (h : SlateFileHandle) (payload : Bytes)
    (offset : ℕ)
    → IsStore store contents
    → IsFile h contents
    → h.flags.write ≡ true
    → 0 < length payload
    → IsU64 (offset + length payload)
    → ((pwrite store now payload offset h).0 ≡ ok tt)
      × Written h contents payload offset (pwrite store now payload offset h).1
unfolding pwrite pwrite_checked
pwrite_lem store contents now h payload offset serves f writable some_bytes room =
    let nonempty : (length payload == 0) ≡ false = ground arith in
    let fits : ltb (offset + length payload) 18446744073709551616 ≡ true = ground arith in
    rw (granted h writable, pwrite)
      (rw nonempty (
        rw (fits, pwrite_checked)
          (after_write_lem store contents serves now h payload offset f room
            (Ops.write store payload offset h.chunks) refl)))

after_write_ok :
    (store : ChunkStore) (now n : ℕ) (outcome : Result Error (Unit {0}) × ChunkManager)
    (h : SlateFileHandle)
    → outcome.0 ≡ ok tt
    → (after_write store now n outcome h).0 ≡ ok tt
unfolding after_write
after_write_ok store now n (ok x, chunks) h e = refl
after_write_ok store now n (err x, chunks) h e = absurd (cc)
after_write_ok store now n (panic, chunks) h e = absurd (cc)

-- What a positional write needs: write access, and an end that fits a u64 unless it writes nothing.
abbrev pub IsWritable : SlateFileHandle → Bytes → ℕ → Type 0
IsWritable h payload offset =
    (h.flags.write ≡ true) × ((length payload ≡ 0) ⊎ IsU64 (offset + length payload))

-- A call that succeeds exactly under a condition, and that otherwise fails and leaves the handle.
abbrev pub SucceedsIff :
    Type 0 → Error → SlateFileHandle → Result Error (Unit {0}) × SlateFileHandle → Type 0
SucceedsIff condition e h outcome =
    ((outcome.0 ≡ ok tt) ↔ condition) × ((outcome.0 ≡ ok tt) ⊎ (outcome ≡ (err e, h)))

-- The error of a refused write, by whether the handle is writable.
abbrev pub refusal : Bool → Error
refusal true = argument_error
refusal false = read_only_error

denied :
    (h : SlateFileHandle) → h.flags.write ≡ false → ensure_writable h.flags ≡ err read_only_error
unfolding ensure_writable
denied h shut = rw shut refl

accepted :
    {P : Type 0} (e : Error) (h : SlateFileHandle)
    (outcome : Result Error (Unit {0}) × SlateFileHandle)
    → outcome.0 ≡ ok tt
    → P
    → SucceedsIff P e h outcome
accepted e h outcome done p = ((λ s. p, λ q. done), inl done)

refused :
    {P : Type 0} (e : Error) (h : SlateFileHandle)
    (outcome : Result Error (Unit {0}) × SlateFileHandle)
    → outcome ≡ (err e, h)
    → ¬ P
    → SucceedsIff P e h outcome
refused e h outcome failed none_ =
    ((λ s. absurd (cc (ap (λ o. o.0) failed)), λ p. absurd (none_ p)), inr failed)

-- Over a store that answers, a positional write succeeds exactly if the handle is writable and the end
-- of the write fits a u64 or there is nothing to write. Otherwise it fails, as a violation of read-only
-- access if the handle is not writable and as an invalid argument if it is, and the handle stays as it
-- was.
pub pwrite_iff :
    (store : ChunkStore) (contents : Contents) (now : ℕ) (h : SlateFileHandle) (payload : Bytes)
    (offset : ℕ)
    → IsStore store contents
    → SucceedsIff
        (IsWritable h payload offset)
        (refusal h.flags.write)
        h
        (pwrite store now payload offset h)
unfolding pwrite pwrite_checked
pwrite_iff store contents now h payload offset serves = elim (Bool-cases h.flags.write) [
  | inr shut ↦
      refused _ h _ (rw (denied h shut, pwrite) (ap (λ b. (err (refusal b), h)) (sym shut)))
        (λ p. cc)
  | inl writable ↦ elim (Bool-cases (length payload == 0)) [
    | inl empty ↦
        accepted _ h _ (rw (granted h writable, pwrite) (rw empty refl))
          (writable, inl (==→eq (length payload) 0 empty))
    | inr full ↦ elim (Bool-cases (ltb (offset + length payload) 18446744073709551616)) [
      | inl fits ↦
          accepted _ h _
            (rw (granted h writable, pwrite)
              (rw full (
                rw (fits, pwrite_checked)
                  (after_write_ok store now (offset + length payload)
                    (Ops.write store payload offset h.chunks) h
                    (write_ok store contents h.chunks payload offset serves)))))
            (writable, inr (ltb→lt (offset + length payload) 18446744073709551616 fits))
      | inr over ↦
          refused _ h _
            (rw (granted h writable, pwrite)
              (rw full (rw (over, pwrite_checked) (ap (λ b. (err (refusal b), h)) (sym writable)))))
            (λ p. ground arith)
    ]
  ]
]

-- What a truncation leaves behind.
pub record Resized (h : SlateFileHandle) (contents : Contents) (new_size : ℕ) (h' : SlateFileHandle)
    : Type 0 where
  pub size : h'.size ≡ new_size
  pub position : h'.position ≡ h.position
  pub is_file : IsFile h' contents
  pub bytes :
      (p : ℕ)
      → IsU64 p
      → byte_at h'.chunks contents p ≡ (if ltb p new_size then byte_at h.chunks contents p else 0)

module _ (store : ChunkStore) (contents : Contents) (serves : IsStore store contents) where
  unchanged_bytes :
      (h : SlateFileHandle) (new_size : ℕ)
      → IsFile h contents
      → h.size ≤ new_size
      → (p : ℕ) → IsU64 p
      → byte_at h.chunks contents p ≡ (if ltb p new_size then byte_at h.chunks contents p else 0)
  unchanged_bytes h new_size f le p u = ground (arith, f.zeros p u)

  grow_lem :
      (now new_size : ℕ) (h : SlateFileHandle)
      → IsFile h contents
      → IsU64 new_size
      → h.size ≤ new_size
      → Resized h contents new_size (after_truncate store now new_size (ok tt, h.chunks) h).1
  unfolding after_truncate set_metadata_dirty
  grow_lem now new_size h f u le = record {
    size = refl;
    position = refl;
    is_file = record {
      valid = f.valid;
      chunked = f.chunked;
      size_is_u64 = u;
      zeros = λ p up past. f.zeros p up (omega arith);
      flushable = f.flushable;
    };
    bytes = unchanged_bytes h new_size f le;
  }

  shrink_lem :
      (now new_size : ℕ) (h : SlateFileHandle)
      → IsFile h contents
      → IsU64 new_size
      → (r : Result Error (Unit {0}) × ChunkManager) → Ops.truncate store new_size h.chunks ≡ r
      → ((after_truncate store now new_size r h).0 ≡ ok tt)
        × Resized h contents new_size (after_truncate store now new_size r h).1
  unfolding after_truncate set_metadata_dirty
  shrink_lem now new_size h f u (ok x, chunks) e =
      let (done, bytes) =
        truncate_lem store contents h.chunks new_size f.valid serves f.chunked u in
      let kept =
        truncate_keeps store contents h.chunks new_size f.valid serves f.chunked u f.flushable in
      let chunks_eq : (Ops.truncate store new_size h.chunks).1 ≡ chunks =
        ap (λ (w : Result Error (Unit {0}) × ChunkManager). w.1) e in
      let shown : (p : ℕ)
          → IsU64 p
          → byte_at chunks contents p
            ≡ (if ltb p new_size then byte_at h.chunks contents p else 0) =
        λ p up. ap (λ (n : ChunkManager). byte_at n contents p) (sym chunks_eq) ∙ bytes p up in
      (
        refl,
        record {
          size = refl;
          position = refl;
          is_file =
              same-IsFile h _ contents f (subst (SameShape h.chunks) chunks_eq kept.0)
                (subst IsFlushable chunks_eq kept.1) u
                (λ p up past. shown p up ∙ rw (le→ltb p new_size past) refl);
          bytes = shown;
        },
      )
  shrink_lem now new_size h f u (err x, chunks) e =
      let (done, bytes) =
        truncate_lem store contents h.chunks new_size f.valid serves f.chunked u in
      let clash : err x ≡ ok tt =
        ap (λ (w : Result Error (Unit {0}) × ChunkManager). w.0) (sym e) ∙ done in
      absurd (cc)
  shrink_lem now new_size h f u (panic, chunks) e =
      let (done, bytes) =
        truncate_lem store contents h.chunks new_size f.valid serves f.chunked u in
      let clash : panic ≡ ok tt =
        ap (λ (w : Result Error (Unit {0}) × ChunkManager). w.0) (sym e) ∙ done in
      absurd (cc)

-- A truncation through a writable handle, over a store that answers, succeeds and gives the file the
-- new size, whether it shrinks or grows it: the bytes before the new size are as they were, and those
-- that it had not before are zeros. The position stays, and the handle stays a consistent file.
pub handle_truncate_lem :
    (store : ChunkStore) (contents : Contents) (now new_size : ℕ) (h : SlateFileHandle)
    → IsStore store contents
    → IsFile h contents
    → h.flags.write ≡ true
    → IsU64 new_size
    → ((truncate store now new_size h).0 ≡ ok tt)
      × Resized h contents new_size (truncate store now new_size h).1
unfolding truncate
handle_truncate_lem store contents now new_size h serves f writable u =
    elim (Bool-cases (new_size == h.size)) [
      | inl e ↦
          let same : h.size ≡ new_size = ground arith in
          rw (granted h writable, truncate)
            (rw e (
              refl,
              record {
                size = same;
                position = refl;
                is_file = f;
                bytes = unchanged_bytes store contents serves h new_size f (omega arith);
              },
            ))
      | inr e ↦ elim (Bool-cases (ltb new_size h.size)) [
        | inl smaller ↦
            rw (granted h writable, truncate)
              (rw e (
                rw smaller (
                  shrink_lem store contents serves now new_size h f u
                    (Ops.truncate store new_size h.chunks) refl)))
        | inr larger ↦
            rw (granted h writable, truncate)
              (rw e (
                rw larger (
                  unfold after_truncate in refl,
                  grow_lem store contents serves now new_size h f u (ground arith),
                )))
      ]
    ]
