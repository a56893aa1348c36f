-- ===== src/Handle/Reads.antt =====
-- `pread` and `read` of rust/src/file_handle.rs.
use native.Mathlib.Decide.{dec_lt}
use mathlib.Core.Path.{ap₂}
use duckdb_object_storage.Common.{
  ℕ, ◌+◌, ◌-◌, ◌<◌, ◌≡◌, refl, ap, subst, ◌∙◌, sym, true, ◌||◌, inl, inr, ◌++◌, arith, ltb, leb,
  ◌==◌, if◌then◌else◌, min, length, take, drop, byte, IsU64, Bool-cases, length-take, length-append,
  length-drop, byte-append, byte-drop, lt→ltb, le→ltb,
}
use duckdb_object_storage.Error.{ok}
use duckdb_object_storage.Flags.{ensure_readable}
use duckdb_object_storage.Keys.{Bytes}
use duckdb_object_storage.Database.{Contents}
use duckdb_object_storage.ChunkStore.{ChunkStore}
use duckdb_object_storage.ChunkStore.Laws.{IsStore}
use duckdb_object_storage.Chunks.Locate.{IsValid, chunk_of, offset_in}
use duckdb_object_storage.Chunks.View.{view, byte_at, Reaches, IsChunked}
use duckdb_object_storage.Chunks.ReadBytes.{read_lem}
use duckdb_object_storage.Handle.{SlateFileHandle, pread, read}

-- What a read needs of a handle: a usable geometry, and a database with chunks under its prefix.
pub record IsOpen (h : SlateFileHandle) (contents : Contents) : Type 0 where
  pub valid : IsValid h.chunks
  pub chunked : IsChunked contents h.chunks.file_id
  pub size_is_u64 : IsU64 h.size
  pub readable : h.flags.read ≡ true

-- How many bytes a read at an offset gives.
abbrev pub count : SlateFileHandle → Bytes → ℕ → ℕ
count h buf offset = min (h.size - offset) (length buf)

-- What the buffer holds after a read at an offset: bytes of the file, and past its end what it held.
pub record Filled (h : SlateFileHandle) (contents : Contents) (buf : Bytes) (offset : ℕ)
    (buf' : Bytes) : Type 0 where
  pub same_length : length buf' ≡ length buf
  pub bytes :
      (i : ℕ)
      → i < length buf
      → byte buf' i ≡ (
          if ltb i (count h buf offset) then byte_at h.chunks contents (offset + i) else byte buf i)

pread_nothing :
    (store : ChunkStore) (contents : Contents) (h : SlateFileHandle) (buf : Bytes) (offset : ℕ)
    → h.flags.read ≡ true
    → ((length buf == 0) || leb h.size offset) ≡ true
    → (pread store h buf offset ≡ ok (buf, count h buf offset)) × Filled h contents buf offset buf
unfolding pread ensure_readable
pread_nothing store contents h buf offset readable e =
    let none_left : count h buf offset ≡ 0 = ground arith in
    (
      rw readable (rw e (ap (λ (n : ℕ). ok (buf, n)) (sym none_left))),
      record { same_length = refl; bytes = λ i u. rw none_left (ground arith) },
    )

Filled-bytes :
    (contents : Contents) (h : SlateFileHandle) (buf : Bytes) (offset : ℕ) (part : Bytes)
    → length part ≡ length (take (count h buf offset) buf)
    → ((i : ℕ) → i < length part → byte part i ≡ byte_at h.chunks contents (offset + i))
    → Filled h contents buf offset (part ++ drop (count h buf offset) buf)
Filled-bytes contents h buf offset part same bytes =
    let n = count h buf offset in
    let len : length part ≡ n = same ∙ length-take n buf ∙ omega arith in
    record {
      same_length = length-append part (drop n buf) ∙ rw len (rw (length-drop n buf) (omega arith));
      bytes = λ i u.
          byte-append part (drop n buf) i
          ∙ rw len (
              rw (byte-drop n buf (i - n)) (elim (dec_lt i n) [
                | yes inside ↦ rw (lt→ltb i n inside) (bytes i (omega arith))
                | no past ↦
                    let back : n + (i - n) ≡ i = omega arith in
                    rw (le→ltb i n (omega arith)) (ap (byte buf) back)
              ]));
    }

-- A positional read through a readable handle succeeds if, before the end of the file, the
-- chunk at the offset reaches it. It
-- gives the bytes of the file up to its end or the end of the buffer, their number, and leaves the
-- rest of the buffer as it was.
pub pread_lem :
    (store : ChunkStore) (contents : Contents) (h : SlateFileHandle) (buf : Bytes) (offset : ℕ)
    → IsStore store contents
    → IsOpen h contents
    → (offset < h.size
        → Reaches (view h.chunks contents (chunk_of h.chunks offset)) (offset_in h.chunks offset))
    → (buf' : Bytes) × (pread store h buf offset ≡ ok (buf', count h buf offset))
      × Filled h contents buf offset buf'
unfolding pread ensure_readable
pread_lem store contents h buf offset serves open_ reach =
    elim (Bool-cases ((length buf == 0) || leb h.size offset)) [
      | inl e ↦
          let nothing = pread_nothing store contents h buf offset open_.readable e in
          (buf, nothing.0, nothing.1)
      | inr e ↦
          let n = count h buf offset in
          let inside : offset < h.size = ground arith in
          let (part, returns, same, shows) =
            read_lem store contents h.chunks (take n buf) offset open_.valid serves open_.chunked
              (rw (length-take n buf) (omega (arith, open_.size_is_u64))) (reach inside) in
          (
            part ++ drop n buf,
            rw (open_.readable) (rw e (rw returns refl)),
            Filled-bytes contents h buf offset part same shows.bytes,
          )
    ]

-- A read at the position through a readable handle, over a store that answers, succeeds if, where the
-- position is before the end of the file, the chunk at the position reaches it. It gives the bytes of the
-- file from the position up to its end or the end of the buffer, and their number, leaves the rest of the
-- buffer as it was, and moves the position behind these bytes; nothing else of the handle changes.
pub handle_read_lem :
    (store : ChunkStore) (contents : Contents) (h : SlateFileHandle) (buf : Bytes)
    → IsStore store contents
    → IsOpen h contents
    → (h.position < h.size
        → Reaches
            (view h.chunks contents (chunk_of h.chunks h.position))
            (offset_in h.chunks h.position))
    → (buf' : Bytes) × (read store h buf ≡ (
      ok (buf', count h buf h.position),
      record h { position = h.position + count h buf h.position },
    ))
      × Filled h contents buf h.position buf'
unfolding read
handle_read_lem store contents h buf serves open_ reach =
    let n = count h buf h.position in
    elim (Bool-cases (n == 0)) [
      | inl e ↦
          let none_left : n ≡ 0 = ground arith in
          let same : h.position + n ≡ h.position = omega arith in
          (
            buf,
            rw e (
                ap₂ (λ (k l : ℕ). (ok (buf, k), record h { position = l })) (sym none_left)
                  (sym same)),
            record { same_length = refl; bytes = λ i u. rw none_left (ground arith) },
          )
      | inr e ↦
          let (part, returns, filled) =
            pread_lem store contents h (take n buf) h.position serves open_ reach in
          let m = count h (take n buf) h.position in
          let all : m ≡ n = omega (arith, length-take n buf) in
          let whole : length part ≡ n = filled.same_length ∙ length-take n buf ∙ omega arith in
          (
            part ++ drop n buf,
            rw e (
                rw
                  (subst (λ (k : ℕ). pread store h (take n buf) h.position ≡ ok (part, k)) all
                    returns)
                  refl),
            Filled-bytes contents h buf h.position part filled.same_length (λ i u.
                filled.bytes i (omega (arith, length-take n buf)) ∙ inside i m _ _ (omega arith)),
          )
    ]
  where
    inside : (i m a b : ℕ) → i < m → (if ltb i m then a else b) ≡ a
    inside i m a b u = rw (lt→ltb i m u) refl
