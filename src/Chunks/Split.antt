-- ===== src/Chunks/Split.antt =====
-- The slices of `split_into_chunks` of rust/src/chunk_manager.rs tile the bytes asked for.
use duckdb_object_storage.Common.{
  ℕ, zero, suc, ◌+◌, ◌-◌, ◌*◌, ◌≤◌, ◌<◌, ◌≡◌, refl, ap, ◌∙◌, sym, List, [], ◌∷◌, arith, le→ltb,
  lt→ltb, min, All, IsU64, wrap_lem,
}
use native.Mathlib.Decide.{dec_lt}
use duckdb_object_storage.Chunks.{
  ChunkManager, ChunkSlice, next_slice, split_loop, split_into_chunks,
}
use duckdb_object_storage.Chunks.Locate.{
  IsValid, chunk_of, offset_in, room_at, chunk_start, capacity, locate-IsPlace, locate-chunk_start,
}

-- A slice at buffer offset `c` that lies in the chunk of its first position and reaches to the end of
-- that chunk, or of the buffer if that comes first.
pub record Fits (m : ChunkManager) (offset len c : ℕ) (s : ChunkSlice) : Type 0 where
  pub starts : s.buf_offset ≡ c
  pub inside : c < len
  pub chunk : s.chunk_idx ≡ chunk_of m (offset + c)
  pub place : s.chunk_offset ≡ offset_in m (offset + c)
  pub extent : s.len ≡ min (len - c) (room_at m (offset + c))
  pub nonempty : 0 < s.len

-- The slices follow one another from `c` up to `len`, and each fits.
abbrev pub Tiles : ChunkManager → ℕ → ℕ → ℕ → List ChunkSlice → Type 0
Tiles m offset len c [] = c ≡ len
Tiles m offset len c (s ∷ slices) = Fits m offset len c s × Tiles m offset len (c + s.len) slices

module _ (m : ChunkManager) (v : IsValid m) (len offset : ℕ)
    (room : offset + len ≤ 18446744073709551616) where
  next_slice-Fits : (c : ℕ) → c < len → Fits m offset len c (next_slice m len offset c)
  unfolding next_slice
  next_slice-Fits c h = rw (wrap_lem (offset + c) (omega arith)) (record {
    starts = refl;
    inside = h;
    chunk = refl;
    place = refl;
    extent = refl;
    nonempty = omega (arith, locate-IsPlace m v (offset + c) (omega arith));
  })

  split_loop-Tiles :
      (fuel c : ℕ)
      → len ≤ c + fuel
      → c ≤ len
      → Tiles m offset len c (split_loop m len offset fuel c)
  unfolding split_loop
  split_loop-Tiles zero c enough le = omega arith
  split_loop-Tiles (suc fuel) c enough le = elim (dec_lt c len) [
    | yes h ↦
        let f : Fits m offset len c (next_slice m len offset c) = next_slice-Fits c h in
        rw (lt→ltb c len h) (
          f,
          split_loop-Tiles fuel (c + (next_slice m len offset c).len) (omega (arith, f.nonempty))
              (omega (arith, f.extent)),
        )
    | no h ↦ rw (le→ltb c len (omega arith)) (omega arith)
  ]

-- The slices of a split cover the bytes asked for, one after the other and without a gap: the loop
-- ends by its own test. Each slice lies in the chunk of its first position, at the right offset, and
-- is as long as the chunk and the request allow.
pub split_into_chunks-Tiles :
    (m : ChunkManager) (len offset : ℕ)
    → IsValid m
    → offset + len ≤ 18446744073709551616
    → Tiles m offset len 0 (split_into_chunks m len offset)
unfolding split_into_chunks
split_into_chunks-Tiles m len offset v room =
    split_loop-Tiles m v len offset room len 0 (omega arith) (omega arith)

module _ (m : ChunkManager) (v : IsValid m) where
  next_start : (i : ℕ) → chunk_start m (i + 1) ≡ chunk_start m i + capacity m i
  unfolding chunk_start capacity
  next_start i = ground (arith, step i m.chunk_size, step (i - 1) m.chunk_size)
    where
      step : (i c : ℕ) → (i + 1) * c ≡ i * c + c
      step i c = omega arith

  capacity_pos : (i : ℕ) → 0 < capacity m i
  unfolding capacity
  capacity_pos i = ground (arith, v.size_pos)

  -- The position behind the room of another one starts a chunk.
  pub offset_in-room :
      (q : ℕ) → IsU64 q → IsU64 (q + room_at m q) → offset_in m (q + room_at m q) ≡ 0
  offset_in-room q u w =
      let at : chunk_start m (chunk_of m q + 1) + 0 ≡ q + room_at m q =
        omega (arith, locate-IsPlace m v q u, next_start (chunk_of m q)) in
      ap (λ (p : ℕ). offset_in m p) (sym at)
      ∙ (locate-chunk_start m (chunk_of m q + 1) 0 v (capacity_pos (chunk_of m q + 1))
          (omega arith)).1

  abbrev pub IsAligned : ChunkSlice → Type 0
  IsAligned s = s.chunk_offset ≡ 0

  module _ (len offset : ℕ) (room : offset + len ≤ 18446744073709551616) where
    aligned_next :
        (s : ChunkSlice) (c : ℕ)
        → Fits m offset len c s
        → c + s.len < len
        → offset_in m (offset + (c + s.len)) ≡ 0
    aligned_next s c f lt =
        let e : offset + (c + s.len) ≡ offset + c + room_at m (offset + c) =
          omega (arith, f.extent) in
        ap (λ (p : ℕ). offset_in m p) e ∙ offset_in-room (offset + c) (omega arith) (omega arith)

    -- Past the first slice of a split every slice starts its chunk.
    pub Tiles-IsAligned :
        (slices : List ChunkSlice) (c : ℕ)
        → Tiles m offset len c slices
        → (c < len → offset_in m (offset + c) ≡ 0)
        → All IsAligned slices
    Tiles-IsAligned [] c t a = tt
    Tiles-IsAligned (s ∷ slices) c (f, t) a =
        (f.place ∙ a f.inside, Tiles-IsAligned slices (c + s.len) t (aligned_next s c f))

    pub tail-IsAligned :
        (s : ChunkSlice) (slices : List ChunkSlice) (c : ℕ)
        → Tiles m offset len c (s ∷ slices)
        → All IsAligned slices
    tail-IsAligned s slices c (f, t) = Tiles-IsAligned slices (c + s.len) t (aligned_next s c f)
