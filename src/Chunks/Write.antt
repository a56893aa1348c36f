-- ===== src/Chunks/Write.antt =====
-- `write` of rust/src/chunk_manager.rs refines an update of the bytes of the file by position.
use duckdb_object_storage.Common.{
  ℕ, ◌+◌, ◌-◌, ◌≤◌, ◌≡◌, refl, ap, ◌∙◌, sym, subst, true, false, ◌&&◌, inl, inr, Option, none, some,
  [], ◌∷◌, arith, ltb, leb, ◌==◌, ==→eq, if◌then◌else◌, IsU64, length, take, drop, resize, byte,
  byte-resize, byte-splice, byte-take, byte-drop, byte_past, length-take, length-drop,
  length-resize, Option-cases, Bool-cases, ◌≢◌,
}
use duckdb_object_storage.Common.Map
use duckdb_object_storage.Error.{Error, Result, ok, err, panic, >>=-succeeds, Result-cases}
use duckdb_object_storage.Keys.{Bytes, chunk_key}
use duckdb_object_storage.Database.{Contents}
use duckdb_object_storage.ChunkStore.{ChunkStore}
use duckdb_object_storage.ChunkStore.Laws.{IsHonest}
use duckdb_object_storage.Chunks.{
  ChunkManager, ChunkSlice, PendingChunk, written, deleted, locate, split_into_chunks, or_default,
  read_chunk_from_store, chunk_contents,
}
use duckdb_object_storage.Chunks.Ops.{
  Slices, overwrite, stage, chunk_before_write, write_loop, write,
}
use duckdb_object_storage.Chunks.Locate.{
  IsValid, chunk_of, offset_in, same_chunk, locate-IsPlace, chunk_start, capacity-le-size,
}
use duckdb_object_storage.Chunks.Split.{Fits, Tiles, split_into_chunks-Tiles}
use duckdb_object_storage.Chunks.View.{persisted, view, or_persisted, byte_in, byte_at}

byte-overwrite :
    (payload : Bytes) (s : ChunkSlice) (chunk : Bytes) (j : ℕ)
    → s.buf_offset + s.len ≤ length payload
    → byte (overwrite payload s chunk) j ≡ (
        if leb s.chunk_offset j && ltb j (s.chunk_offset + s.len)
        then byte payload (s.buf_offset + (j - s.chunk_offset))
        else byte chunk j)
unfolding overwrite
byte-overwrite payload s chunk j h =
    let req = s.chunk_offset + s.len in
    let piece = take s.len (drop s.buf_offset payload) in
    let size : length piece ≡ s.len =
      omega
        (arith, length-take s.len (drop s.buf_offset payload), length-drop s.buf_offset payload) in
    ground (
      arith,
      size,
      length-resize req chunk,
      byte-resize req chunk j,
      byte-splice (resize req chunk) s.chunk_offset piece j,
      byte-splice chunk s.chunk_offset piece j,
      byte-take s.len (drop s.buf_offset payload) (j - s.chunk_offset),
      byte-drop s.buf_offset payload (j - s.chunk_offset),
    )

module _ (store : ChunkStore) (contents : Contents) (honest : IsHonest store contents) where
  byte_default : (o : Option Bytes) (j : ℕ) → byte (or_default o) j ≡ byte_in o j
  byte_default none j = byte_past [] j (omega arith)
  byte_default (some chunk) j = refl

  stored_bytes :
      (m : ChunkManager) (i : ℕ) (chunk : Bytes)
      → read_chunk_from_store store m i ≡ ok chunk
      → (j : ℕ) → byte chunk j ≡ byte_in (persisted m contents i) j
  unfolding read_chunk_from_store
  stored_bytes m i chunk e j =
      let (o, done, got) =
        >>=-succeeds (λ o. ok (or_default o)) (store.get (chunk_key m.file_id i)) e in
      let c : or_default o ≡ chunk = cc in
      ap (λ (b : Bytes). byte b j) (sym c)
      ∙ byte_default o j
      ∙ ap (λ (p : Option Bytes). byte_in p j) (honest.get_lem (chunk_key m.file_id i) o got)

  -- A chunk that a write starts from holds the bytes of the view.
  contents_bytes :
      (m : ChunkManager) (i : ℕ) (chunk : Bytes)
      → chunk_contents store m i ≡ ok chunk
      → (j : ℕ) → byte chunk j ≡ byte_in (view m contents i) j
  unfolding chunk_contents
  contents_bytes m i chunk e j = elim (Option-cases (Map.get i m.pending)) [
    | inl absent ↦ rw absent (stored_bytes m i chunk (rw (absent, chunk_contents) at e) j)
    | inr (written bytes, found) ↦ rw found (cc (rw (found, chunk_contents) at e))
    | inr (deleted, found) ↦
        rw found (cc (rw (found, chunk_contents) at e, byte_past [] j (omega arith)))
  ]

-- A manager that places positions as `m` does, for the same file.
pub record SameShape (m n : ChunkManager) : Type 0 where
  pub same_file : n.file_id ≡ m.file_id
  pub same_size : n.chunk_size ≡ m.chunk_size
  pub same_base : n.chunk_base_offset ≡ m.chunk_base_offset
  pub same_places : (p : ℕ) → locate n p ≡ locate m p

pub stage-SameShape :
    (m n : ChunkManager) (i : ℕ) (chunk : PendingChunk)
    → SameShape m n
    → SameShape m (stage i chunk n)
stage-SameShape m n i chunk s = record {
  same_file = s.same_file;
  same_size = s.same_size;
  same_base = s.same_base;
  same_places = λ p. restaged p ∙ s.same_places p;
}
  where
    restaged : (p : ℕ) → locate (stage i chunk n) p ≡ locate n p
    restaged p = unfold locate in refl

-- The byte of the view of `n` where `m` places a position.
abbrev pub byte_of : ChunkManager → ChunkManager → Contents → ℕ → ℕ
byte_of m n contents p = byte_in (view n contents (chunk_of m p)) (offset_in m p)

pub byte_of-byte_at :
    (m n : ChunkManager) (contents : Contents) (p : ℕ)
    → SameShape m n
    → byte_of m n contents p ≡ byte_at n contents p
unfolding byte_at
byte_of-byte_at m n contents p s =
    ap (λ (l : ℕ × ℕ × ℕ). byte_in (view n contents l.0) l.1) (sym (s.same_places p))

module _ (n : ChunkManager) (contents : Contents) (i k : ℕ) (chunk : Bytes) where
  view-stage_hit : (i == k) ≡ true → view (stage i (written chunk) n) contents k ≡ some chunk
  view-stage_hit h = ground (arith, Map.get-insert i k (written chunk) n.pending)

  view-stage_miss :
      (i == k) ≡ false → view (stage i (written chunk) n) contents k ≡ view n contents k
  view-stage_miss h =
      let e : Map.get k (Map.insert i (written chunk) n.pending) ≡ Map.get k n.pending =
        ground (arith, Map.get-insert i k (written chunk) n.pending) in
      ap (λ o. or_persisted o (persisted n contents k)) e

-- The bytes up to `upto` of the payload are written at `offset`, from `from` on.
abbrev updated : Bytes → ℕ → ℕ → ℕ → (ℕ → ℕ) → ℕ → ℕ
updated payload offset from upto old p =
    if leb (offset + from) p && ltb p (offset + upto) then byte payload (p - offset) else old p

module _ (store : ChunkStore) (contents : Contents) (honest : IsHonest store contents)
    (m : ChunkManager) (v : IsValid m) (payload : Bytes) (offset : ℕ)
    (room : offset + length payload ≤ 18446744073709551616) where
  -- A slice holds the positions that share its chunk and lie between its ends.
  in_slice :
      (s : ChunkSlice) (c p : ℕ)
      → Fits m offset (length payload) c s
      → IsU64 p
      → chunk_of m p ≡ s.chunk_idx
      → offset_in m p + (offset + c) ≡ p + s.chunk_offset
  in_slice s c p f u same =
      let start : chunk_start m (chunk_of m p) ≡ chunk_start m (chunk_of m (offset + c)) =
        ap (chunk_start m) (same ∙ f.chunk) in
      omega (
        arith,
        f.place,
        locate-IsPlace m v p u,
        locate-IsPlace m v (offset + c) (omega (arith, f.inside)),
      )

  -- The chunk that a slice starts from has the old bytes wherever the slice does not write.
  old_bytes :
      (n : ChunkManager) (s : ChunkSlice) (c : ℕ) (chunk : Bytes)
      → SameShape m n
      → Fits m offset (length payload) c s
      → chunk_before_write store n s ≡ ok chunk
      → (p : ℕ) → IsU64 p
      → chunk_of m p ≡ s.chunk_idx
      → (leb s.chunk_offset (offset_in m p) && ltb (offset_in m p) (s.chunk_offset + s.len)) ≡ false
      → byte chunk (offset_in m p) ≡ byte_of m n contents p
  unfolding chunk_before_write
  old_bytes n s c chunk shape f e p u same out =
      elim (Bool-cases ((s.chunk_offset == 0) && (s.len == n.chunk_size))) [
        | inl whole ↦ absurd (whole_chunk n s p shape u same whole out)
        | inr part ↦
            contents_bytes store contents honest n s.chunk_idx chunk (rw part at e) (offset_in m p)
            ∙ ap (λ (k : ℕ). byte_in (view n contents k) (offset_in m p)) (sym same)
      ]
    where
      whole_chunk :
          (n : ChunkManager) (s : ChunkSlice) (p : ℕ)
          → SameShape m n
          → IsU64 p
          → chunk_of m p ≡ s.chunk_idx
          → ((s.chunk_offset == 0) && (s.len == n.chunk_size)) ≡ true
          → (leb s.chunk_offset (offset_in m p) && ltb (offset_in m p) (s.chunk_offset + s.len))
            ≡ false
          → ⊥
      whole_chunk n s p shape u same whole out =
          ground
            (arith, shape.same_size, locate-IsPlace m v p u, capacity-le-size m v (chunk_of m p))

  hit_byte :
      (n : ChunkManager) (s : ChunkSlice) (c : ℕ) (chunk : Bytes)
      → SameShape m n
      → Fits m offset (length payload) c s
      → chunk_before_write store n s ≡ ok chunk
      → (p : ℕ) → IsU64 p
      → chunk_of m p ≡ s.chunk_idx
      → byte (overwrite payload s chunk) (offset_in m p)
        ≡ updated payload offset c (c + s.len) (byte_of m n contents) p
  hit_byte n s c chunk shape f e p u same =
      let fits : s.buf_offset + s.len ≤ length payload =
        omega (arith, f.starts, f.extent, f.inside) in
      let at : offset_in m p + (offset + c) ≡ p + s.chunk_offset = in_slice s c p f u same in
      byte-overwrite payload s chunk (offset_in m p) fits
      ∙ elim (Bool-cases
          (leb s.chunk_offset (offset_in m p) && ltb (offset_in m p) (s.chunk_offset + s.len))) [
            | inl inside ↦
                let place : s.buf_offset + (offset_in m p - s.chunk_offset) ≡ p - offset =
                  ground (arith, f.starts) in
                let range : (leb (offset + c) p && ltb p (offset + (c + s.len))) ≡ true =
                  ground arith in
                rw inside (rw range (ap (byte payload) place))
            | inr outside ↦
                let range : (leb (offset + c) p && ltb p (offset + (c + s.len))) ≡ false =
                  ground arith in
                rw outside (rw range (old_bytes n s c chunk shape f e p u same outside))
          ]

  miss_byte :
      (s : ChunkSlice) (c : ℕ)
      → Fits m offset (length payload) c s
      → (p : ℕ) → IsU64 p
      → (s.chunk_idx == chunk_of m p) ≡ false
      → (leb (offset + c) p && ltb p (offset + (c + s.len))) ≡ false
  miss_byte s c f p u miss =
      elim (Bool-cases (leb (offset + c) p && ltb p (offset + (c + s.len)))) [
        | inr outside ↦ outside
        | inl inside ↦
            let (same, at) =
              same_chunk m v p (offset + c) u (omega (arith, f.inside)) (ground arith)
                (ground (arith, f.extent)) in
            ground (arith, f.chunk, same)
      ]

  step_byte :
      (n : ChunkManager) (s : ChunkSlice) (c : ℕ) (chunk : Bytes)
      → SameShape m n
      → Fits m offset (length payload) c s
      → chunk_before_write store n s ≡ ok chunk
      → (p : ℕ) → IsU64 p
      → byte_of m (stage s.chunk_idx (written (overwrite payload s chunk)) n) contents p
        ≡ updated payload offset c (c + s.len) (byte_of m n contents) p
  step_byte n s c chunk shape f e p u = elim (Bool-cases (s.chunk_idx == chunk_of m p)) [
    | inl hit ↦
        ap (λ (o : Option Bytes). byte_in o (offset_in m p))
          (view-stage_hit n contents s.chunk_idx (chunk_of m p) (overwrite payload s chunk) hit)
        ∙ hit_byte n s c chunk shape f e p u (sym (==→eq s.chunk_idx (chunk_of m p) hit))
    | inr miss ↦
        ap (λ (o : Option Bytes). byte_in o (offset_in m p))
          (view-stage_miss n contents s.chunk_idx (chunk_of m p) (overwrite payload s chunk) miss)
        ∙ sym (rw (miss_byte s c f p u miss))
  ]

  -- A loop that fails has written a prefix of the payload; one that succeeds has written it all.
  record Wrote (c : ℕ) (n : ChunkManager) (r : Result Error (Unit {0}) × ChunkManager)
      : Type 0 where
    pub upto : ℕ
    pub from_start : c ≤ upto
    pub to_end : upto ≤ length payload
    pub all : r.0 ≡ ok tt → upto ≡ length payload
    pub shape : SameShape m r.1
    pub sorted : Map.IsSorted n.pending → Map.IsSorted r.1.pending
    pub bytes :
        (p : ℕ)
        → IsU64 p
        → byte_of m r.1 contents p ≡ updated payload offset c upto (byte_of m n contents) p

  Wrote-nothing :
      (c : ℕ) (n : ChunkManager) (s : ChunkSlice)
      → Fits m offset (length payload) c s
      → SameShape m n
      → (r : Result Error (Unit {0})) → r ≢ ok tt
      → Wrote c n (r, n)
  Wrote-nothing c n s f shape r failed = record {
    upto = c;
    from_start = omega arith;
    to_end = omega (arith, f.inside);
    all = λ e. absurd (failed e);
    shape = shape;
    sorted = λ h. h;
    bytes = λ p u. ground arith;
  }

  Wrote-step :
      (c : ℕ) (n : ChunkManager) (s : ChunkSlice) (chunk : Bytes)
      → SameShape m n
      → Fits m offset (length payload) c s
      → chunk_before_write store n s ≡ ok chunk
      → (r : Result Error (Unit {0}) × ChunkManager)
      → Wrote (c + s.len) (stage s.chunk_idx (written (overwrite payload s chunk)) n) r
      → Wrote c n r
  Wrote-step c n s chunk shape f e r w = record {
    upto = w.upto;
    from_start = omega (arith, w.from_start);
    to_end = w.to_end;
    all = w.all;
    shape = w.shape;
    sorted = λ h.
        w.sorted
          (Map.insert-IsSorted s.chunk_idx (written (overwrite payload s chunk)) n.pending h);
    bytes = λ p u. w.bytes p u ∙ ground (arith, step_byte n s c chunk shape f e p u, w.from_start);
  }

  write_loop_lem :
      (slices : Slices) (c : ℕ) (n : ChunkManager)
      → Tiles m offset (length payload) c slices
      → SameShape m n
      → Wrote c n (write_loop store payload slices n)
  unfolding write_loop
  write_loop_lem [] c n t shape = record {
    upto = length payload;
    from_start = omega (arith, t);
    to_end = omega arith;
    all = λ e. refl;
    shape = shape;
    sorted = λ s. s;
    bytes = λ p u. ground (arith, t);
  }
  write_loop_lem (s ∷ slices) c n (f, t) shape =
      elim (Result-cases (chunk_before_write store n s)) [
        | inl (chunk, e) ↦
            let n' = stage s.chunk_idx (written (overwrite payload s chunk)) n in
            let rest : Wrote (c + s.len) n' (write_loop store payload slices n') =
              write_loop_lem slices (c + s.len) n' t
                (stage-SameShape m n s.chunk_idx (written (overwrite payload s chunk)) shape) in
            subst (Wrote c n) (sym (rw (e, write_loop)))
              (Wrote-step c n s chunk shape f e (write_loop store payload slices n') rest)
        | inr (inl (x, e)) ↦
            subst (Wrote c n) (sym (rw (e, write_loop)))
              (Wrote-nothing c n s f shape (err x) (λ h. cc))
        | inr (inr e) ↦
            subst (Wrote c n) (sym (rw (e, write_loop)))
              (Wrote-nothing c n s f shape panic (λ h. cc))
      ]

-- A write, over a store whose lookups are right when they succeed, changes a prefix of the bytes
-- that it was given, at their positions, and no other byte of the file: all of them if it succeeds,
-- and possibly fewer if it fails.
pub write_lem :
    (store : ChunkStore) (contents : Contents) (m : ChunkManager) (payload : Bytes) (offset : ℕ)
    → IsValid m
    → IsHonest store contents
    → offset + length payload ≤ 18446744073709551616
    → (upto : ℕ) × (upto ≤ length payload)
      × ((write store payload offset m).0 ≡ ok tt → upto ≡ length payload)
      × ((p : ℕ)
          → IsU64 p
          → byte_at (write store payload offset m).1 contents p ≡ (
              if leb offset p && ltb p (offset + upto)
              then byte payload (p - offset)
              else byte_at m contents p))
unfolding write
write_lem store contents m payload offset v honest room =
    let slices = split_into_chunks m (length payload) offset in
    let shape : SameShape m m = record {
      same_file = refl;
      same_size = refl;
      same_base = refl;
      same_places = λ p. refl;
    } in
    let w =
      write_loop_lem store contents honest m v payload offset room slices 0 m
        (split_into_chunks-Tiles m (length payload) offset v room) shape in
    (
      w.upto,
      w.to_end,
      w.all,
      λ p u.
          sym (byte_of-byte_at m (write_loop store payload slices m).1 contents p w.shape)
          ∙ w.bytes p u
          ∙ ground (arith, byte_of-byte_at m m contents p shape),
    )
