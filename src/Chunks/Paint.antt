-- ===== src/Chunks/Paint.antt =====
-- What a run of `copy_chunk_into` over the slices of a request leaves in the buffer.
use duckdb_object_storage.Common.{
  ℕ, ◌+◌, ◌-◌, ◌≤◌, ◌<◌, ◌≡◌, refl, ap, ◌∙◌, Bool, true, false, ◌&&◌, ◌||◌, inl, inr, Option, none,
  some, List, [], ◌∷◌, arith, ltb, leb, if◌then◌else◌, min, All, length, take, drop, splice, byte,
  byte_past, byte-take, byte-drop, byte-splice, length-take, length-drop, length-splice,
  Option-cases,
}
use duckdb_object_storage.Error.{Error, Result, ok, panic, ◌>>=◌}
use duckdb_object_storage.Keys.{Bytes}
use duckdb_object_storage.Chunks.{ChunkSlice, copy_chunk_into}
use duckdb_object_storage.Chunks.View.{byte_in, Reaches}

abbrev pub covers : ChunkSlice → ℕ → Bool
covers s i = leb s.buf_offset i && ltb i (s.buf_offset + s.len)

abbrev pub covered : List ChunkSlice → ℕ → Bool
covered [] i = false
covered (s ∷ slices) i = covers s i || covered slices i

-- The byte that a slice brings to a place of the buffer, out of the chunks `f`.
abbrev pub value : (ℕ → Option Bytes) → List ChunkSlice → ℕ → ℕ
value f [] i = 0
value f (s ∷ slices) i =
    if covers s i
    then byte_in (f s.chunk_idx) (s.chunk_offset + (i - s.buf_offset))
    else value f slices i

abbrev pub Ascends : ℕ → List ChunkSlice → Type 0
Ascends c [] = Unit
Ascends c (s ∷ slices) = (c ≤ s.buf_offset) × Ascends (s.buf_offset + s.len) slices

-- Copying every slice from the chunks that are there.
unfoldable pub paint : (ℕ → Option Bytes) → List ChunkSlice → Bytes → Result Error Bytes
paint f [] buf = ok buf
paint f (s ∷ slices) buf = elim (f s.chunk_idx) [
  | none ↦ paint f slices buf
  | some chunk ↦ do buf' ← copy_chunk_into buf s chunk; paint f slices buf'
]

pub record Painted (f : ℕ → Option Bytes) (slices : List ChunkSlice) (buf buf' : Bytes)
    : Type 0 where
  pub same_length : length buf' ≡ length buf
  pub bytes : (i : ℕ) → byte buf' i ≡ (if covered slices i then value f slices i else byte buf i)

module _ (s : ChunkSlice) (buf chunk : Bytes) where
  copied : Bytes
  copied =
      splice buf s.buf_offset
        (take (min (length chunk - s.chunk_offset) s.len) (drop s.chunk_offset chunk))

  copied_length :
      length (take (min (length chunk - s.chunk_offset) s.len) (drop s.chunk_offset chunk))
      ≡ min (length chunk - s.chunk_offset) s.len
  copied_length = omega (
    arith,
    length-take (min (length chunk - s.chunk_offset) s.len) (drop s.chunk_offset chunk),
    length-drop s.chunk_offset chunk,
  )

  module _ (fits : s.buf_offset + s.len ≤ length buf)
      (reaches : s.chunk_offset ≤ length chunk) where
    copy_chunk_into_ok : copy_chunk_into buf s chunk ≡ ok copied
    unfolding copy_chunk_into copied
    copy_chunk_into_ok = ground arith

    length-copied : length copied ≡ length buf
    unfolding copied
    length-copied = length-splice buf s.buf_offset _ (omega (arith, copied_length))

    byte-copied :
        (i : ℕ)
        → (covers s i ≡ true → byte buf i ≡ 0)
        → byte copied i
          ≡ (if covers s i then byte chunk (s.chunk_offset + (i - s.buf_offset)) else byte buf i)
    unfolding copied
    byte-copied i zero = ground (
      arith,
      copied_length,
      byte-splice buf s.buf_offset
          (take (min (length chunk - s.chunk_offset) s.len) (drop s.chunk_offset chunk)) i,
      byte-take (min (length chunk - s.chunk_offset) s.len) (drop s.chunk_offset chunk)
          (i - s.buf_offset),
      byte-drop s.chunk_offset chunk (i - s.buf_offset),
      byte_past chunk (s.chunk_offset + (i - s.buf_offset)),
      zero,
    )

-- A slice that starts past the end of its chunk panics.
pub copy_chunk_into_panics :
    (s : ChunkSlice) (buf chunk : Bytes)
    → length chunk < s.chunk_offset
    → copy_chunk_into buf s chunk ≡ panic
unfolding copy_chunk_into
copy_chunk_into_panics s buf chunk h = ground arith

pub covered_above :
    (c : ℕ) (slices : List ChunkSlice) (i : ℕ) → Ascends c slices → covered slices i ≡ true → c ≤ i
covered_above c [] i a h = cc
covered_above c (s ∷ slices) i a h = ground (arith, covered_above (s.buf_offset + s.len) slices i)

abbrev pub IsClear : List ChunkSlice → Bytes → Type 0
IsClear slices buf = (i : ℕ) → covered slices i ≡ true → byte buf i ≡ 0

module _ (f : ℕ → Option Bytes) (s : ChunkSlice) (slices : List ChunkSlice) where
  module _ (buf : Bytes) (above : Ascends (s.buf_offset + s.len) slices) where
    IsClear-tail : IsClear (s ∷ slices) buf → IsClear slices buf
    IsClear-tail clear i h = clear i (ground arith)

    Painted-absent :
        (buf' : Bytes)
        → IsClear (s ∷ slices) buf
        → f s.chunk_idx ≡ none
        → Painted f slices buf buf'
        → Painted f (s ∷ slices) buf buf'
    Painted-absent buf' clear absent p = record {
      same_length = p.same_length;
      bytes = λ i. ground (
        arith,
        p.bytes i,
        clear i,
        covered_above (s.buf_offset + s.len) slices i above,
        ap (λ (o : Option Bytes). byte_in o (s.chunk_offset + (i - s.buf_offset))) absent,
      );
    }

    module _ (chunk : Bytes) (fits : s.buf_offset + s.len ≤ length buf)
        (reaches : s.chunk_offset ≤ length chunk) where
      IsClear-copied : IsClear (s ∷ slices) buf → IsClear slices (copied s buf chunk)
      IsClear-copied clear i h = ground (
        arith,
        clear i,
        byte-copied s buf chunk fits reaches i (clear_head clear i),
        covered_above (s.buf_offset + s.len) slices i above,
      )
        where
          clear_head : IsClear (s ∷ slices) buf → (i : ℕ) → covers s i ≡ true → byte buf i ≡ 0
          clear_head clear i h = clear i (ground arith)

      Painted-present :
          (buf' : Bytes)
          → IsClear (s ∷ slices) buf
          → f s.chunk_idx ≡ some chunk
          → Painted f slices (copied s buf chunk) buf'
          → Painted f (s ∷ slices) buf buf'
      Painted-present buf' clear found p = record {
        same_length = p.same_length ∙ length-copied s buf chunk fits reaches;
        bytes = λ i. ground (
          arith,
          p.bytes i,
          byte-copied s buf chunk fits reaches i (λ h. clear i (ground arith)),
          covered_above (s.buf_offset + s.len) slices i above,
          ap (λ (o : Option Bytes). byte_in o (s.chunk_offset + (i - s.buf_offset))) found,
        );
      }

pub paint_absent :
    (f : ℕ → Option Bytes) (s : ChunkSlice) (slices : List ChunkSlice) (buf : Bytes)
    → f s.chunk_idx ≡ none
    → paint f (s ∷ slices) buf ≡ paint f slices buf
unfolding paint
paint_absent f s slices buf e = rw (e, paint)

pub paint_present :
    (f : ℕ → Option Bytes) (s : ChunkSlice) (slices : List ChunkSlice) (buf chunk : Bytes)
    → f s.chunk_idx ≡ some chunk
    → paint f (s ∷ slices) buf ≡ (copy_chunk_into buf s chunk >>= paint f slices)
unfolding paint
paint_present f s slices buf chunk e = rw (e, paint)

module _ (f : ℕ → Option Bytes) where
  -- Painting slices that ascend, over a buffer that is clear there, succeeds if no slice starts past
  -- the end of its chunk. It leaves the byte of its chunk at each place of a slice, and every other
  -- byte as it was.
  pub paint_lem :
      (slices : List ChunkSlice) (c : ℕ) (buf : Bytes)
      → Ascends c slices
      → All (λ (s : ChunkSlice). s.buf_offset + s.len ≤ length buf) slices
      → All (λ (s : ChunkSlice). Reaches (f s.chunk_idx) s.chunk_offset) slices
      → IsClear slices buf
      → (buf' : Bytes) × (paint f slices buf ≡ ok buf') × Painted f slices buf buf'
  unfolding paint
  paint_lem [] c buf a fits reach clear =
      (buf, refl, record { same_length = refl; bytes = λ i. refl })
  paint_lem (s ∷ slices) c buf a fits reach clear = elim (Option-cases (f s.chunk_idx)) [
    | inl absent ↦
        let (buf', e, p) =
          paint_lem slices (s.buf_offset + s.len) buf a.1 fits.1 reach.1
            (IsClear-tail f s slices buf a.1 clear) in
        (
          buf',
          paint_absent f s slices buf absent ∙ e,
          Painted-absent f s slices buf a.1 buf' clear absent p,
        )
    | inr (chunk, found) ↦
        let reaches : s.chunk_offset ≤ length chunk = rw found at reach.0 in
        let same : length (copied s buf chunk) ≡ length buf =
          length-copied s buf chunk fits.0 reaches in
        let (buf', e, p) =
          paint_lem slices (s.buf_offset + s.len) (copied s buf chunk) a.1 (rw same fits.1) reach.1
            (IsClear-copied f s slices buf a.1 chunk fits.0 reaches clear) in
        (
          buf',
          paint_present f s slices buf chunk found
              ∙ ap (λ r. r >>= paint f slices) (copy_chunk_into_ok s buf chunk fits.0 reaches)
              ∙ e,
          Painted-present f s slices buf a.1 chunk fits.0 reaches buf' clear found p,
        )
  ]
