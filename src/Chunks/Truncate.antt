-- ===== src/Chunks/Truncate.antt =====
-- `truncate` of rust/src/chunk_manager.rs refines the removal of every byte from the new size on.
use native.Mathlib.Decide.{dec_lt}
use mathlib.Core.Path.{ap₂}
use duckdb_object_storage.Common.{
  ℕ, suc, ◌+◌, ◌-◌, ◌≤◌, ◌<◌, ◌≡◌, refl, ap, ◌∙◌, sym, subst, Bool, true, false, ◌&&◌, ◌||◌, inl,
  inr, Option, none, some, List, [], ◌∷◌, map, arith, ltb, leb, ◌==◌, ==_refl, if◌then◌else◌, All,
  IsU64, wrap_lem, length, take, byte-take, byte_past, Option-cases, Bool-cases,
}
use duckdb_object_storage.Common.Map
use duckdb_object_storage.Common.Map.{Map}
use duckdb_object_storage.Error.{ok}
use duckdb_object_storage.Keys.{Bytes, chunk_key, chunk_prefix}
use duckdb_object_storage.Keys.Order.{starts_with}
use duckdb_object_storage.Keys.Prefixes.{chunk_prefix-chunk_key, chunk_key_injective}
use duckdb_object_storage.Database.{Contents, KeyValue, Has}
use duckdb_object_storage.ChunkStore.{ChunkStore}
use duckdb_object_storage.ChunkStore.Laws.{IsStore}
use duckdb_object_storage.Chunks.{
  ChunkManager, ChunkSlice, PendingChunk, written, deleted, locate, split_into_chunks, or_default,
  parse_keys, read_chunk_from_store, collect_persisted_chunk_indices,
}
use duckdb_object_storage.Chunks.Parse.{parse_chunk_idx, parse_chunk_idx-chunk_key}
use duckdb_object_storage.Chunks.Ops.{
  shorten, cut_last, cut, mark_chunks_deleted, truncate_plan, truncate_at, truncate_after, truncate,
}
use duckdb_object_storage.Chunks.Locate.{
  IsValid, chunk_of, chunk_of-IsU64, offset_in, chunk_start, chunk_start-ge, locate-IsPlace,
  chunk_of_mono,
}
use duckdb_object_storage.Chunks.Split.{Tiles, split_into_chunks-Tiles}
use duckdb_object_storage.Chunks.Flush.{IsFlushable}
use duckdb_object_storage.Chunks.Write.{SameShape, byte_of-byte_at}
use duckdb_object_storage.Chunks.View.{persisted, view, or_persisted, byte_in, byte_at, IsChunked}

-- The entries of a pending map that delete chunks.
abbrev pub deletions : List ℕ → Map PendingChunk
deletions indices = map (λ (i : ℕ). (i, deleted)) indices

pub contains : ℕ → List ℕ → Bool
contains k [] = false
contains k (i ∷ indices) = (i == k) || contains k indices

pub get-extend_deleted :
    (k : ℕ) (indices : List ℕ) (pending : Map PendingChunk)
    → Map.get k (Map.extend (map (λ (i : ℕ). (i, deleted)) indices) pending)
      ≡ (if contains k indices then some deleted else Map.get k pending)
unfolding Map.extend contains
get-extend_deleted k [] pending = refl
get-extend_deleted k (i ∷ indices) pending =
    get-extend_deleted k indices (Map.insert i deleted pending)
    ∙ ground (arith, Map.get-insert i k deleted pending)

module _ (store : ChunkStore) (contents : Contents) (m : ChunkManager)
    (serves : IsStore store contents) (chunked : IsChunked contents m.file_id) (least : ℕ) where
  -- The indices that a scan of the keys gives are those of the persisted chunks from `least` on.
  record Collected (keys : List Bytes) (items : List KeyValue) : Type 0 where
    indices : List ℕ
    parses : parse_keys least keys ≡ ok indices
    bounded : Map.IsBounded (deletions indices)
    past : (i : ℕ) → contains i indices ≡ true → least ≤ i
    keeps :
        (i : ℕ)
        → IsU64 i
        → least ≤ i
        → Has (chunk_key m.file_id i) items
        → contains i indices ≡ true

  parse_keys_lem :
      (items : List KeyValue)
      → All
          (λ (kv : KeyValue).
            (starts_with (chunk_prefix m.file_id) kv.0 ≡ true) × (contents kv.0 ≡ some kv.1))
          items
      → Collected (map (λ (kv : KeyValue). kv.0) items) items
  unfolding parse_keys contains
  parse_keys_lem [] a = record {
    indices = [];
    parses = refl;
    bounded = tt;
    past = λ i h. cc;
    keeps = λ i u le h. absurd h;
  }
  parse_keys_lem ((key, value) ∷ items) ((pre, found), a) =
      let (i, u, e) = chunked.only_chunks key value pre found in
      let rest = parse_keys_lem items a in
      let parsed : parse_chunk_idx key ≡ ok i =
        ap parse_chunk_idx e ∙ parse_chunk_idx-chunk_key m.file_id i chunked.is_u64 u in
      record {
        indices = if leb least i then i ∷ rest.indices else rest.indices;
        parses = rw parsed (rw rest.parses);
        bounded = bounded_either i rest.indices u rest.bounded;
        past = λ j h. past_either i rest.indices rest.past j h;
        keeps = λ j uj le. elim [
          | inl h ↦ first_kept i rest.indices j le (same_index i j u uj (sym e ∙ h))
          | inr h ↦ rest_kept i rest.indices j (rest.keeps j uj le h)
        ];
      }
    where
      same_index :
          (i j : ℕ) → IsU64 i → IsU64 j → chunk_key m.file_id i ≡ chunk_key m.file_id j → i ≡ j
      same_index i j u uj e =
          (chunk_key_injective m.file_id m.file_id i j chunked.is_u64 chunked.is_u64 u uj e).1

      bounded_either :
          (i : ℕ) (indices : List ℕ)
          → IsU64 i
          → Map.IsBounded (deletions indices)
          → Map.IsBounded (deletions (if leb least i then i ∷ indices else indices))
      bounded_either i indices u b = ground arith

      past_either :
          (i : ℕ) (indices : List ℕ)
          → ((k : ℕ) → contains k indices ≡ true → least ≤ k)
          → (j : ℕ) → contains j (if leb least i then i ∷ indices else indices) ≡ true
          → least ≤ j
      past_either i indices past j h = ground (arith, past j)

      first_kept :
          (i : ℕ) (indices : List ℕ) (j : ℕ)
          → least ≤ j
          → i ≡ j
          → contains j (if leb least i then i ∷ indices else indices) ≡ true
      first_kept i indices j le e = ground arith

      rest_kept :
          (i : ℕ) (indices : List ℕ) (j : ℕ)
          → contains j indices ≡ true
          → contains j (if leb least i then i ∷ indices else indices) ≡ true
      rest_kept i indices j h = ground arith

  pub record Doomed : Type 0 where
    pub indices : List ℕ
    pub collects : collect_persisted_chunk_indices store m least ≡ ok indices
    pub bounded : Map.IsBounded (deletions indices)
    pub past : (i : ℕ) → contains i indices ≡ true → least ≤ i
    pub keeps :
        (i : ℕ) (chunk : Bytes)
        → IsU64 i
        → least ≤ i
        → persisted m contents i ≡ some chunk
        → contains i indices ≡ true

  pub collect_lem : Doomed
  unfolding collect_persisted_chunk_indices
  collect_lem =
      let (items, e, l) = serves.keys_lem (chunk_prefix m.file_id) in
      let c = parse_keys_lem items l.sound in
      record {
        indices = c.indices;
        collects = rw e c.parses;
        bounded = c.bounded;
        past = c.past;
        keeps = λ i chunk u le p. c.keeps i u le (
            l.complete (chunk_key m.file_id i) chunk
              (chunk_prefix-chunk_key m.file_id m.file_id i chunked.is_u64 chunked.is_u64
                ∙ ==_refl m.file_id)
              p);
      }

-- A chunk cut to a length, as bytes.
byte-cut :
    (o : Option Bytes) (n j : ℕ)
    → byte_in (elim (shorten n (or_default o)) [ none ↦ o | some chunk ↦ some chunk ]) j
      ≡ (if ltb j n then byte_in o j else 0)
unfolding shorten
byte-cut none n j = ground arith
byte-cut (some chunk) n j = ground (arith, byte-take n chunk j, byte_past chunk j)

-- What a truncation shortens: nothing if the last chunk is staged, else what is persisted.
abbrev pub short_for : ℕ → Option PendingChunk → Option Bytes → Option Bytes
short_for last_len (some pending) chunk = none
short_for last_len none chunk = shorten last_len (or_default chunk)

module _ (last last_len : ℕ) (kept : Map PendingChunk) where
  get-cut_last_ne :
      (o : Option PendingChunk) (short : Option Bytes) (k : ℕ)
      → (last == k) ≡ false
      → Map.get k (cut_last o last last_len short kept) ≡ Map.get k kept
  unfolding cut_last
  get-cut_last_ne (some (written chunk)) short k ne =
      ground (arith, Map.get-insert last k (written (take last_len chunk)) kept)
  get-cut_last_ne (some deleted) none k ne = refl
  get-cut_last_ne (some deleted) (some b) k ne =
      ground (arith, Map.get-insert last k (written b) kept)
  get-cut_last_ne none none k ne = refl
  get-cut_last_ne none (some b) k ne = ground (arith, Map.get-insert last k (written b) kept)

  shown :
      (chunk : Option Bytes) (j : ℕ) (pending : Map PendingChunk) (o : Option PendingChunk)
      → Map.get last pending ≡ o
      → byte_in (or_persisted (Map.get last pending) chunk) j ≡ byte_in (or_persisted o chunk) j
  shown chunk j pending o e = ap (λ (p : Option PendingChunk). byte_in (or_persisted p chunk) j) e

  inserted : (p : PendingChunk) → Map.get last (Map.insert last p kept) ≡ some p
  inserted p = ground (arith, Map.get-insert last last p kept)

  cut_last-IsSorted :
      (o : Option PendingChunk) (short : Option Bytes)
      → Map.IsSorted kept
      → Map.IsSorted (cut_last o last last_len short kept)
  unfolding cut_last
  cut_last-IsSorted (some (written chunk)) short s =
      ground (arith, Map.insert-IsSorted last (written (take last_len chunk)) kept)
  cut_last-IsSorted (some deleted) none s = s
  cut_last-IsSorted (some deleted) (some b) s = Map.insert-IsSorted last (written b) kept s
  cut_last-IsSorted none none s = s
  cut_last-IsSorted none (some b) s = Map.insert-IsSorted last (written b) kept s

  cut_last-IsBounded :
      (o : Option PendingChunk) (short : Option Bytes)
      → IsU64 last
      → Map.IsBounded kept
      → Map.IsBounded (cut_last o last last_len short kept)
  unfolding cut_last
  cut_last-IsBounded (some (written chunk)) short u b =
      ground (arith, Map.insert-IsBounded last (written (take last_len chunk)) kept)
  cut_last-IsBounded (some deleted) none u b = b
  cut_last-IsBounded (some deleted) (some c) u b = Map.insert-IsBounded last (written c) kept u b
  cut_last-IsBounded none none u b = b
  cut_last-IsBounded none (some c) u b = Map.insert-IsBounded last (written c) kept u b

  byte-cut_last :
      (o : Option PendingChunk) (chunk : Option Bytes) (j : ℕ)
      → Map.get last kept ≡ o
      → byte_in
          (or_persisted
            (Map.get last (cut_last o last last_len (short_for last_len o chunk) kept))
            chunk)
          j
        ≡ (if ltb j last_len then byte_in (or_persisted o chunk) j else 0)
  unfolding cut_last
  byte-cut_last (some (written bytes)) chunk j e = elim (Bool-cases (ltb last_len (length bytes))) [
    | inl long ↦ rw long (
        shown chunk j (Map.insert last (written (take last_len bytes)) kept)
          (some (written (take last_len bytes))) (inserted (written (take last_len bytes)))
        ∙ byte-take last_len bytes j)
    | inr short ↦
        rw short (shown chunk j kept (some (written bytes)) e ∙ ground (arith, byte_past bytes j))
  ]
  byte-cut_last (some deleted) chunk j e = shown chunk j kept (some deleted) e ∙ ground arith
  byte-cut_last none chunk j e = elim (Option-cases (shorten last_len (or_default chunk))) [
    | inl fits ↦ rw fits (shown chunk j kept none e ∙ rw fits at (byte-cut chunk last_len j))
    | inr (b, long) ↦ rw long (
        shown chunk j (Map.insert last (written b) kept) (some (written b)) (inserted (written b))
        ∙ rw long at (byte-cut chunk last_len j))
  ]

module _ (store : ChunkStore) (contents : Contents) (m : ChunkManager) (v : IsValid m)
    (serves : IsStore store contents) (chunked : IsChunked contents m.file_id) where
  -- What a truncation leaves in the last chunk: `last_len` bytes.
  module _ (last last_len : ℕ) (room : IsU64 (last + 1)) where
    short : Option Bytes
    short = short_for last_len (Map.get last m.pending) (persisted m contents last)

    doomed : Doomed store contents m serves chunked (last + 1)
    doomed = collect_lem store contents m serves chunked (last + 1)

    plan_ok : truncate_plan store last last_len m ≡ ok (short, doomed.indices)
    unfolding truncate_plan read_chunk_from_store short
    plan_ok = elim (Option-cases (Map.get last m.pending)) [
      | inl e ↦
          rw (e, truncate_plan)
            (rw (serves.get_lem (chunk_key m.file_id last))
              (rw (wrap_lem (last + 1) room) (rw doomed.collects)))
      | inr (p, e) ↦ rw (e, truncate_plan) (rw (wrap_lem (last + 1) room) (rw doomed.collects))
    ]

    unfoldable kept : Map PendingChunk
    kept = Map.retain (λ chunk_idx. leb chunk_idx last) m.pending

    result : ChunkManager
    result = mark_chunks_deleted doomed.indices (cut last last_len short m)

    get-result :
        (i : ℕ)
        → Map.get i result.pending ≡ (
            if contains i doomed.indices
            then some deleted
            else Map.get i (cut_last (Map.get last kept) last last_len short kept))
    unfolding result mark_chunks_deleted cut kept
    get-result i =
        get-extend_deleted i doomed.indices (cut_last (Map.get last kept) last last_len short kept)

    get-kept : (i : ℕ) → Map.get i kept ≡ (if leb i last then Map.get i m.pending else none)
    unfolding kept
    get-kept i = Map.get-retain (λ chunk_idx. leb chunk_idx last) i m.pending

    seen :
        (i j : ℕ) (o : Option PendingChunk)
        → Map.get i result.pending ≡ o
        → byte_in (view result contents i) j ≡ byte_in (or_persisted o (persisted m contents i)) j
    unfolding result mark_chunks_deleted cut
    seen i j o e =
        ap (λ (p : Option PendingChunk). byte_in (or_persisted p (persisted m contents i)) j) e

    after_past : (i j : ℕ) → IsU64 i → last < i → byte_in (view result contents i) j ≡ 0
    after_past i j u h = elim (Bool-cases (contains i doomed.indices)) [
      | inl gone ↦ seen i j (some deleted) (ground (arith, get-result i))
      | inr kept_out ↦ elim (Option-cases (persisted m contents i)) [
        | inr (chunk, there) ↦ cc (kept_out, doomed.keeps i chunk u (omega arith) there)
        | inl absent ↦
            seen i j none (
              get-result i
              ∙ rw kept_out (
                  get-cut_last_ne last last_len kept (Map.get last kept) short i (ground arith)
                  ∙ get-kept i
                  ∙ ground arith))
            ∙ ap (λ (c : Option Bytes). byte_in c j) absent
      ]
    ]

    spared : (i : ℕ) → i ≤ last → contains i doomed.indices ≡ false
    spared i h = elim (Bool-cases (contains i doomed.indices)) [
      | inl gone ↦ absurd (omega (arith, doomed.past i gone))
      | inr out ↦ out
    ]

    after_before :
        (i j : ℕ) → i < last → byte_in (view result contents i) j ≡ byte_in (view m contents i) j
    after_before i j h = seen i j (Map.get i m.pending) (
        get-result i
        ∙ rw (spared i (omega arith)) (
            get-cut_last_ne last last_len kept (Map.get last kept) short i (ground arith)
            ∙ get-kept i
            ∙ ground arith))

    get-kept_last : Map.get last kept ≡ Map.get last m.pending
    get-kept_last = get-kept last ∙ ground arith

    after_at :
        (j : ℕ)
        → byte_in (view result contents last) j
          ≡ (if ltb j last_len then byte_in (view m contents last) j else 0)
    unfolding short
    after_at j =
        seen last j (Map.get last (cut_last (Map.get last kept) last last_len short kept))
          (get-result last ∙ rw (spared last (omega arith)))
        ∙ ap
            (λ (o : Option PendingChunk).
              byte_in
                (or_persisted
                  (Map.get last (
                    cut_last (Map.get last kept) last last_len
                      (short_for last_len o (persisted m contents last)) kept))
                  (persisted m contents last))
                j)
            (sym get-kept_last)
        ∙ byte-cut_last last last_len kept (Map.get last kept) (persisted m contents last) j refl
        ∙ ap
            (λ (o : Option PendingChunk).
              if ltb j last_len then byte_in (or_persisted o (persisted m contents last)) j else 0)
            get-kept_last

    view_after :
        (i j : ℕ)
        → IsU64 i
        → byte_in (view result contents i) j ≡ (
            if ltb i last || ((i == last) && ltb j last_len)
            then byte_in (view m contents i) j
            else 0)
    view_after i j u = elim (dec_lt i last) [
      | yes before ↦ after_before i j before ∙ ground arith
      | no ge ↦ elim (dec_lt last i) [
        | yes past ↦ after_past i j u past ∙ ground arith
        | no le ↦
            let e : last ≡ i = omega arith in
            subst
              (λ (k : ℕ). byte_in (view result contents k) j ≡ (
                if ltb k last || ((k == last) && ltb j last_len)
                then byte_in (view m contents k) j
                else 0))
              e (after_at j ∙ ground arith)
      ]
    ]

    truncate_at_ok : truncate_at store last last_len m ≡ (ok tt, result)
    unfolding truncate_at result
    truncate_at_ok = rw (plan_ok, truncate_at)

    result-shape : SameShape m result
    result-shape = record {
      same_file = unfold result mark_chunks_deleted cut in refl;
      same_size = unfold result mark_chunks_deleted cut in refl;
      same_base = unfold result mark_chunks_deleted cut in refl;
      same_places = λ p. unfold result mark_chunks_deleted cut locate in refl;
    }

    result-IsSorted : Map.IsSorted m.pending → Map.IsSorted result.pending
    unfolding result mark_chunks_deleted cut kept
    result-IsSorted s = Map.extend-IsSorted (map (λ (i : ℕ). (i, deleted)) doomed.indices) _ (
        cut_last-IsSorted last last_len kept (Map.get last kept) short
          (Map.retain-IsSorted (λ chunk_idx. leb chunk_idx last) m.pending s))

    result-IsFlushable : IsFlushable m → IsFlushable result
    unfolding result mark_chunks_deleted cut kept
    result-IsFlushable f = record {
      is_u64 = f.is_u64;
      sorted = result-IsSorted f.sorted;
      indices = Map.extend-IsBounded (deletions doomed.indices) _ doomed.bounded (
          cut_last-IsBounded last last_len kept (Map.get last kept) short (omega arith)
            (Map.retain-IsBounded (λ chunk_idx. leb chunk_idx last) m.pending f.indices));
    }

  -- A position lies before the new end exactly if its chunk is an earlier one, or the last one at an
  -- offset below the new length.
  before_end :
      (n p : ℕ)
      → IsU64 (suc n)
      → IsU64 p
      → ltb p (suc n) ≡ (
          ltb (chunk_of m p) (chunk_of m n)
          || ((chunk_of m p == chunk_of m n) && ltb (offset_in m p) (offset_in m n + 1)))
  before_end n p un up = ground (
    arith,
    locate-IsPlace m v p up,
    locate-IsPlace m v n (omega arith),
    chunk_of_mono m v p n up (omega arith),
    chunk_of_mono m v n p (omega arith) up,
    λ (e : chunk_of m p ≡ chunk_of m n). ap (chunk_start m) e,
  )

  -- The result of a truncation to `suc n` bytes, byte by byte.
  module _ (n : ℕ) (un : IsU64 (suc n)) where
    room_above : IsU64 (chunk_of m n + 1)
    room_above =
        omega (arith, locate-IsPlace m v n (omega arith), chunk_start-ge m v (chunk_of m n))

    pub cut_result : ChunkManager
    cut_result = result (chunk_of m n) (offset_in m n + 1) room_above

    split_one :
        (slices : List ChunkSlice)
        → Tiles m n 1 0 slices
        → truncate_after store slices m ≡ (ok tt, cut_result)
    unfolding cut_result truncate_after
    split_one [] t = absurd (omega (arith, t))
    split_one (s ∷ slices) (f, t) =
        let e : n + 0 ≡ n = omega arith in
        ap₂ (λ (c l : ℕ). truncate_at store c l m) (f.chunk ∙ ap (chunk_of m) e)
          (ap (λ (o : ℕ). o + 1) (f.place ∙ ap (offset_in m) e))
        ∙ truncate_at_ok (chunk_of m n) (offset_in m n + 1) room_above

    pub truncate_eq : truncate store (suc n) m ≡ (ok tt, cut_result)
    unfolding truncate
    truncate_eq =
        let e : suc n - 1 ≡ n = omega arith in
        let t : (suc n == 0) ≡ false = ground arith in
        rw t (
          rw e
            (split_one (split_into_chunks m 1 n) (split_into_chunks-Tiles m 1 n v (omega arith))))

    pub cut_keeps : SameShape m cut_result × (IsFlushable m → IsFlushable cut_result)
    unfolding cut_result
    cut_keeps = (
      result-shape (chunk_of m n) (offset_in m n + 1) room_above,
      result-IsFlushable (chunk_of m n) (offset_in m n + 1) room_above,
    )

    pub cut_bytes :
        (p : ℕ)
        → IsU64 p
        → byte_at cut_result contents p ≡ (if ltb p (suc n) then byte_at m contents p else 0)
    unfolding cut_result byte_at
    cut_bytes p u =
        sym (
          byte_of-byte_at m cut_result contents p
            (result-shape (chunk_of m n) (offset_in m n + 1) room_above))
        ∙ view_after (chunk_of m n) (offset_in m n + 1) room_above (chunk_of m p) (offset_in m p)
            (chunk_of-IsU64 m v p)
        ∙ sym (rw (before_end n p un u) refl)
