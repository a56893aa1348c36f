-- ===== src/Chunks/Locate.antt =====
-- The map from a position of the file to its chunk and the offset in it (`split_into_chunks` of
-- rust/src/chunk_manager.rs): chunk boundaries sit on `chunk_base_offset + k * chunk_size`.
use native.Mathlib.Nat.{div-add-mod', mod-lt}
use native.Mathlib.Decide.{dec_lt}
use duckdb_object_storage.Common.{
  ℕ, ◌+◌, ◌-◌, ◌*◌, ◌/◌, ◌%◌, ◌≤◌, ◌<◌, ◌≡◌, ap, arith, ◌==◌, if◌then◌else◌, IsU64, wrap, wrap_lem,
  wrap_bound, le→ltb, lt→ltb,
}
use duckdb_object_storage.Chunks.{ChunkManager, locate}

-- What `FileMetadata::validated_chunk_size` has checked of every manager's parameters.
pub record IsValid (m : ChunkManager) : Type 0 where
  pub size_pos : 0 < m.chunk_size
  pub base_lt_size : m.chunk_base_offset < m.chunk_size

abbrev pub chunk_of : ChunkManager → ℕ → ℕ
chunk_of m p = (locate m p).0

abbrev pub offset_in : ChunkManager → ℕ → ℕ
offset_in m p = (locate m p).1

abbrev pub room_at : ChunkManager → ℕ → ℕ
room_at m p = (locate m p).2

-- The first position of a chunk, and the number of positions in it.
unfoldable pub chunk_start : ChunkManager → ℕ → ℕ
chunk_start m i =
    if m.chunk_base_offset == 0
    then i * m.chunk_size
    else if i == 0
    then 0
    else m.chunk_base_offset + (i - 1) * m.chunk_size

unfoldable pub capacity : ChunkManager → ℕ → ℕ
capacity m i =
    if m.chunk_base_offset == 0
    then m.chunk_size
    else if i == 0
    then m.chunk_base_offset
    else m.chunk_size

div_fits : (a c : ℕ) → 0 < c → IsU64 a → a / c ≤ a
div_fits a c h u = grind (arith, div-add-mod' a c)

halves : (a c : ℕ) → 1 < c → IsU64 a → IsU64 (a / c + 1)
halves a c h u = grind (arith, div-add-mod' a c)

step_mul : (i k c : ℕ) → i < k → i * c + c ≤ k * c
step_mul i k c h = grind arith

grows : (i c : ℕ) → 0 < c → i ≤ i * c
grows i c h = grind arith

-- The place of a position past the base offset.
high_place : ChunkManager → ℕ → ℕ × ℕ × ℕ
high_place m p =
    let aligned = p - m.chunk_base_offset in
    let chunk_offset = aligned % m.chunk_size in
    (
      aligned / m.chunk_size + (if m.chunk_base_offset == 0 then 0 else 1),
      chunk_offset,
      m.chunk_size - chunk_offset,
    )

module _ (m : ChunkManager) (v : IsValid m) where
  -- The chunk of a position past the base offset is given by plain division: nothing wraps.
  chunk_no_wrap :
      (p : ℕ)
      → IsU64 p
      → m.chunk_base_offset ≤ p
      → wrap
          ((p - m.chunk_base_offset) / m.chunk_size + (if m.chunk_base_offset == 0 then 0 else 1))
        ≡ (p - m.chunk_base_offset) / m.chunk_size + (if m.chunk_base_offset == 0 then 0 else 1)
  chunk_no_wrap p u h = wrap_lem _ (
      ground (
        arith,
        div_fits (p - m.chunk_base_offset) m.chunk_size,
        halves (p - m.chunk_base_offset) m.chunk_size,
      ))

  -- A chunk and an offset below its capacity, as a division and its remainder.
  place_high : (p : ℕ) → IsU64 p → m.chunk_base_offset ≤ p → locate m p ≡ high_place m p
  unfolding locate high_place
  place_high p u h = rw (le→ltb p m.chunk_base_offset h) (rw (chunk_no_wrap p u h))

  place_low : (p : ℕ) → p < m.chunk_base_offset → locate m p ≡ (0, p, m.chunk_base_offset - p)
  unfolding locate
  place_low p h = rw (lt→ltb p m.chunk_base_offset h)

  abbrev pub IsPlace : ℕ → ℕ × ℕ × ℕ → Type 0
  IsPlace p l = (chunk_start m l.0 + l.1 ≡ p) × (l.1 + l.2 ≡ capacity m l.0) × (0 < l.2)

  high-IsPlace : (p : ℕ) → m.chunk_base_offset ≤ p → IsPlace p (high_place m p)
  unfolding chunk_start capacity high_place
  high-IsPlace p h = ground (
    arith,
    div-add-mod' (p - m.chunk_base_offset) m.chunk_size,
    mod-lt (p - m.chunk_base_offset) v.size_pos,
  )

  low-IsPlace : (p : ℕ) → p < m.chunk_base_offset → IsPlace p (0, p, m.chunk_base_offset - p)
  unfolding chunk_start capacity
  low-IsPlace p h = ground arith

  -- Every position lies in its chunk, at its offset, with the rest of the chunk as room.
  pub locate-IsPlace : (p : ℕ) → IsU64 p → IsPlace p (locate m p)
  locate-IsPlace p u = elim (dec_lt p m.chunk_base_offset) [
    | yes h ↦ rw (place_low p h) (low-IsPlace p h)
    | no h ↦ rw (place_high p u (omega arith)) (high-IsPlace p (omega arith))
  ]

  pub chunk_of-IsU64 : (p : ℕ) → IsU64 (chunk_of m p)
  unfolding locate
  chunk_of-IsU64 p = ground (
    arith,
    wrap_bound
        ((p - m.chunk_base_offset) / m.chunk_size + (if m.chunk_base_offset == 0 then 0 else 1)),
  )

  pub capacity-le-size : (i : ℕ) → capacity m i ≤ m.chunk_size
  unfolding capacity
  capacity-le-size i = ground (arith, v.base_lt_size)

  -- The index of a chunk is no larger than the positions in it.
  pub chunk_start-ge : (i : ℕ) → i ≤ chunk_start m i
  unfolding chunk_start
  chunk_start-ge i =
      ground (arith, grows i m.chunk_size v.size_pos, grows (i - 1) m.chunk_size v.size_pos)

  -- A chunk ends before the next one starts.
  pub chunk_start_gap : (i k : ℕ) → i < k → chunk_start m i + capacity m i ≤ chunk_start m k
  unfolding chunk_start capacity
  chunk_start_gap i k h =
      ground (arith, step_mul i k m.chunk_size h, step_mul (i - 1) (k - 1) m.chunk_size)

  -- Two places that name one position are one place.
  pub place_unique :
      (c o i j : ℕ)
      → chunk_start m c + o ≡ chunk_start m i + j
      → o < capacity m c
      → j < capacity m i
      → (c ≡ i) × (o ≡ j)
  place_unique c o i j e ho hj = elim (dec_lt c i) [
    | yes lt ↦ absurd (omega (arith, chunk_start_gap c i lt))
    | no ge ↦ elim (dec_lt i c) [
      | yes gt ↦ absurd (omega (arith, chunk_start_gap i c gt))
      | no le ↦
          let same : c ≡ i = omega arith in
          let start : chunk_start m c ≡ chunk_start m i = ap (chunk_start m) same in
          (same, omega arith)
    ]
  ]

  pub chunk_of_mono : (p q : ℕ) → IsU64 p → IsU64 q → p ≤ q → chunk_of m p ≤ chunk_of m q
  chunk_of_mono p q up uq h = elim (dec_lt (chunk_of m q) (chunk_of m p)) [
    | yes lt ↦ absurd (
        omega (
          arith,
          locate-IsPlace p up,
          locate-IsPlace q uq,
          chunk_start_gap (chunk_of m q) (chunk_of m p) lt,
        ))
    | no ge ↦ omega arith
  ]

  -- The positions that share a chunk with `q` from `q` on are those before the end of the chunk, at
  -- equal distances.
  pub same_chunk :
      (p q : ℕ)
      → IsU64 p
      → IsU64 q
      → q ≤ p
      → p < q + room_at m q
      → (chunk_of m p ≡ chunk_of m q) × (offset_in m p ≡ offset_in m q + (p - q))
  same_chunk p q up uq le lt =
      place_unique (chunk_of m p) (offset_in m p) (chunk_of m q) (offset_in m q + (p - q))
        (omega (arith, locate-IsPlace p up, locate-IsPlace q uq))
        (omega (arith, locate-IsPlace p up)) (omega (arith, locate-IsPlace q uq))

-- Splitting is the inverse of placing: the position at an offset below the capacity of a chunk is
-- located in that chunk, at that offset.
pub locate-chunk_start :
    (m : ChunkManager) (i j : ℕ)
    → IsValid m
    → j < capacity m i
    → IsU64 (chunk_start m i + j)
    → (chunk_of m (chunk_start m i + j) ≡ i) × (offset_in m (chunk_start m i + j) ≡ j)
locate-chunk_start m i j v h u =
    place_unique m v (chunk_of m (chunk_start m i + j)) (offset_in m (chunk_start m i + j)) i j
      (omega (arith, locate-IsPlace m v (chunk_start m i + j) u))
      (omega (arith, locate-IsPlace m v (chunk_start m i + j) u)) h

-- Every position of a valid manager's file is located in a chunk: its start plus the offset give the
-- position back, and the offset and the room left make up the capacity of the chunk.
pub chunk_start-locate :
    (m : ChunkManager) (p : ℕ)
    → IsValid m
    → IsU64 p
    → (chunk_start m (chunk_of m p) + offset_in m p ≡ p)
      × (offset_in m p + room_at m p ≡ capacity m (chunk_of m p))
      × (0 < room_at m p)
chunk_start-locate m p v u = locate-IsPlace m v p u
