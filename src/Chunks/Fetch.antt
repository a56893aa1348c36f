-- ===== src/Chunks/Fetch.antt =====
-- Fetching persisted chunks by coalesced range scans gives what single lookups would give.
use duckdb_object_storage.Common.{
  ℕ, ◌≤◌, ◌≡◌, ◌≢◌, refl, ap, ◌∙◌, sym, subst, true, ◌⊎◌, inl, inr, Option, none, some, List, [],
  ◌∷◌, ◌++◌, arith, ◌==◌, ==→eq, All, IsU64, Option-cases, Bool-cases,
}
use duckdb_object_storage.Common.Map
use duckdb_object_storage.Common.Map.{Map}
use duckdb_object_storage.Error.{Error, Result, ok, ◌>>=◌}
use duckdb_object_storage.Keys.{Bytes, chunk_key, chunk_prefix}
use duckdb_object_storage.Keys.Order.{starts_with}
use duckdb_object_storage.Keys.Prefixes.{chunk_key-order, chunk_key_between, chunk_key_injective}
use duckdb_object_storage.Database.{Contents, KeyValue, Has, between}
use duckdb_object_storage.ChunkStore.{ChunkStore}
use duckdb_object_storage.ChunkStore.Laws.{IsStore}
use duckdb_object_storage.Chunks.{
  ChunkManager, single, parse_pairs, read_chunk_group_from_store, fetch_groups,
  read_chunks_from_store, scan_read_ahead_bytes,
}
use duckdb_object_storage.Chunks.Parse.{parse_chunk_idx, parse_chunk_idx-chunk_key}
use duckdb_object_storage.Chunks.Ranges.{
  coalesce_chunk_indices, InRanges, coalesce_chunk_indices_covers, coalesce_chunk_indices-IsRange,
}
use duckdb_object_storage.Chunks.View.{IsChunked, persisted}

abbrev Pairs : Type 0
Pairs = List (ℕ × Bytes)

abbrev HasIndex : ℕ → Pairs → Type 0
HasIndex i [] = ⊥
HasIndex i ((j, b) ∷ pairs) = (j ≡ i) ⊎ HasIndex i pairs

HasIndex-append_left : (i : ℕ) (xs ys : Pairs) → HasIndex i xs → HasIndex i (xs ++ ys)
HasIndex-append_left i [] ys h = absurd h
HasIndex-append_left i ((j, b) ∷ xs) ys (inl e) = inl e
HasIndex-append_left i ((j, b) ∷ xs) ys (inr h) = inr (HasIndex-append_left i xs ys h)

HasIndex-append_right : (i : ℕ) (xs ys : Pairs) → HasIndex i ys → HasIndex i (xs ++ ys)
HasIndex-append_right i [] ys h = h
HasIndex-append_right i ((j, b) ∷ xs) ys h = inr (HasIndex-append_right i xs ys h)

abbrev pub Listed : ℕ → List ℕ → Type 0
Listed i [] = ⊥
Listed i (j ∷ indices) = (j ≡ i) ⊎ Listed i indices

Listed-All {ℓ} :
    (P : ℕ → Type ℓ) (indices : List ℕ) → All P indices → (i : ℕ) → Listed i indices → P i
Listed-All P [] a i h = absurd h
Listed-All P (j ∷ indices) a i (inl e) = subst P e a.0
Listed-All P (j ∷ indices) a i (inr h) = Listed-All P indices a.1 i h

module _ (m : ChunkManager) (contents : Contents) (chunked : IsChunked contents m.file_id) where
  -- Every pair is a persisted chunk.
  abbrev AreChunks : Pairs → Type 0
  AreChunks = All (λ (p : ℕ × Bytes). persisted m contents p.0 ≡ some p.1)

  AreChunks-append : (xs ys : Pairs) → AreChunks xs → AreChunks ys → AreChunks (xs ++ ys)
  AreChunks-append [] ys a b = b
  AreChunks-append (x ∷ xs) ys a b = (a.0, AreChunks-append xs ys a.1 b)

  -- A map of the pairs has the persisted chunk of each index that it holds.
  abbrev Agrees : Map Bytes → Type 0
  Agrees chunks =
      (i : ℕ) (chunk : Bytes) → Map.get i chunks ≡ some chunk → persisted m contents i ≡ some chunk

  empty-Agrees : Agrees []
  unfolding Map.get
  empty-Agrees i chunk h = cc

  extend-Agrees :
      (pairs : Pairs) (chunks : Map Bytes)
      → AreChunks pairs
      → Agrees chunks
      → Agrees (Map.extend pairs chunks)
  unfolding Map.extend
  extend-Agrees [] chunks a g = g
  extend-Agrees ((j, b) ∷ pairs) chunks a g =
      extend-Agrees pairs (Map.insert j b chunks) a.1 inserted
    where
      inserted : Agrees (Map.insert j b chunks)
      inserted i chunk h = elim (Bool-cases (j == i)) [
        | inl same ↦ ground (
          arith,
          Map.get-insert j i b chunks,
          a.0,
          ap (λ (k : ℕ). persisted m contents k) (==→eq j i same),
        )
        | inr other ↦ g i chunk (ground (arith, Map.get-insert j i b chunks))
      ]

  get-extend :
      (pairs : Pairs) (chunks : Map Bytes) (i : ℕ)
      → HasIndex i pairs ⊎ (Map.get i chunks ≢ none)
      → Map.get i (Map.extend pairs chunks) ≢ none
  unfolding Map.extend
  get-extend [] chunks i (inl h) = absurd h
  get-extend [] chunks i (inr h) = h
  get-extend ((j, b) ∷ pairs) chunks i (inl (inl e)) =
      get-extend pairs (Map.insert j b chunks) i (inr (ground (arith, Map.get-insert j i b chunks)))
  get-extend ((j, b) ∷ pairs) chunks i (inl (inr h)) =
      get-extend pairs (Map.insert j b chunks) i (inl h)
  get-extend ((j, b) ∷ pairs) chunks i (inr h) =
      get-extend pairs (Map.insert j b chunks) i
        (inr (ground (arith, Map.get-insert j i b chunks, h)))

  abbrev AreKeys : List KeyValue → Type 0
  AreKeys = All (λ (kv : KeyValue).
      (starts_with (chunk_prefix m.file_id) kv.0 ≡ true) × (contents kv.0 ≡ some kv.1))

  -- What a scan of the file's own keys parses to.
  record Parsed (scanned : List KeyValue) : Type 0 where
    pairs : Pairs
    parses : parse_pairs scanned ≡ ok pairs
    are_chunks : AreChunks pairs
    keeps : (i : ℕ) → IsU64 i → Has (chunk_key m.file_id i) scanned → HasIndex i pairs

  same_index : (i j : ℕ) → IsU64 i → IsU64 j → chunk_key m.file_id i ≡ chunk_key m.file_id j → i ≡ j
  same_index i j u uj e =
      (chunk_key_injective m.file_id m.file_id i j chunked.is_u64 chunked.is_u64 u uj e).1

  parse_pairs_lem : (scanned : List KeyValue) → AreKeys scanned → Parsed scanned
  unfolding parse_pairs
  parse_pairs_lem [] a = record { pairs = []; parses = refl; are_chunks = tt; keeps = λ i u h. h }
  parse_pairs_lem ((key, value) ∷ scanned) ((pre, found), a) =
      let (i, u, e) = chunked.only_chunks key value pre found in
      let rest = parse_pairs_lem scanned a in
      let parsed : parse_chunk_idx key ≡ ok i =
        rw e (parse_chunk_idx-chunk_key m.file_id i chunked.is_u64 u) in
      record {
        pairs = (i, value) ∷ rest.pairs;
        parses = rw parsed (rw rest.parses);
        are_chunks = (rw (← e) found, rest.are_chunks);
        keeps = λ j uj. elim [
          | inl h ↦ inl (same_index i j u uj (sym e ∙ h))
          | inr h ↦ inr (rest.keeps j uj h)
        ];
      }

  -- The pairs that `result` yields are persisted chunks, and hold each persisted chunk of `wanted`.
  record Yields (result : Result Error Pairs) (wanted : ℕ → Type 0) : Type 0 where
    pairs : Pairs
    yields : result ≡ ok pairs
    are_chunks : AreChunks pairs
    keeps :
        (i : ℕ) (chunk : Bytes)
        → IsU64 i
        → wanted i
        → persisted m contents i ≡ some chunk
        → HasIndex i pairs

  abbrev InGroup : ℕ × ℕ → ℕ → Type 0
  InGroup (first, last) i = (first ≤ i) × (i ≤ last)

  abbrev IsGroup : ℕ × ℕ → Type 0
  IsGroup (first, last) = (first ≤ last) × IsU64 last

  module _ (store : ChunkStore) (serves : IsStore store contents) where
    lone_chunk :
        (first : ℕ) (o : Option Bytes)
        → persisted m contents first ≡ o
        → Yields (ok (single first o)) (λ i. i ≡ first)
    lone_chunk first none e = record {
      pairs = [];
      yields = refl;
      are_chunks = tt;
      keeps = λ i chunk u w p. cc;
    }
    lone_chunk first (some chunk) e = record {
      pairs = (first, chunk) ∷ [];
      yields = refl;
      are_chunks = (e, tt);
      keeps = λ i c u w p. inl (sym w);
    }

    AreKeys-between :
        (first last : ℕ) (items : List KeyValue)
        → All
            (λ (kv : KeyValue).
              (between (chunk_key m.file_id first) (chunk_key m.file_id last) kv.0 ≡ true)
              × (contents kv.0 ≡ some kv.1))
            items
        → AreKeys items
    AreKeys-between first last [] a = tt
    AreKeys-between first last ((key, value) ∷ items) ((b, c), a) = (
      (chunk_key_between m.file_id first last key (ground arith) (ground arith), c),
      AreKeys-between first last items a,
    )

    chunk_key-between :
        (first last i : ℕ)
        → IsU64 first
        → IsU64 last
        → IsU64 i
        → InGroup (first, last) i
        → between (chunk_key m.file_id first) (chunk_key m.file_id last) (chunk_key m.file_id i)
          ≡ true
    chunk_key-between first last i uf ul ui g =
        rw (chunk_key-order m.file_id m.file_id first i chunked.is_u64 chunked.is_u64 uf ui) (
          rw (chunk_key-order m.file_id m.file_id i last chunked.is_u64 chunked.is_u64 ui ul)
            (ground arith))

    scanned_group :
        (first last : ℕ)
        → IsGroup (first, last)
        → Yields
            (store.scan_inclusive
                (chunk_key m.file_id first)
                (chunk_key m.file_id last)
                (scan_read_ahead_bytes first last m.chunk_size)
              >>= parse_pairs)
            (InGroup (first, last))
    scanned_group first last g =
        let (items, e, l) =
          serves.scan_lem (chunk_key m.file_id first) (chunk_key m.file_id last)
            (scan_read_ahead_bytes first last m.chunk_size) in
        let parsed = parse_pairs_lem items (AreKeys-between first last items l.sound) in
        record {
          pairs = parsed.pairs;
          yields = rw e parsed.parses;
          are_chunks = parsed.are_chunks;
          keeps = λ i chunk u w p. parsed.keeps i u (
              l.complete (chunk_key m.file_id i) chunk
                (chunk_key-between first last i (omega arith) g.1 u w) p);
        }

    read_group :
        (first last : ℕ)
        → IsGroup (first, last)
        → Yields (read_chunk_group_from_store store m (first, last)) (InGroup (first, last))
    unfolding read_chunk_group_from_store
    read_group first last g = elim (Bool-cases (first == last)) [
      | inl same ↦
          let lone = lone_chunk first (persisted m contents first) refl in
          let e : first ≡ last = ==→eq first last same in
          record {
            pairs = lone.pairs;
            yields = rw same (rw (serves.get_lem (chunk_key m.file_id first)) lone.yields);
            are_chunks = lone.are_chunks;
            keeps = λ i chunk u w p. lone.keeps i chunk u (omega arith) p;
          }
      | inr more ↦
          let scan = scanned_group first last g in
          record {
            pairs = scan.pairs;
            yields = rw more scan.yields;
            are_chunks = scan.are_chunks;
            keeps = scan.keeps;
          }
    ]

    fetch_groups_lem :
        (groups : List (ℕ × ℕ))
        → All IsGroup groups
        → Yields (fetch_groups store m groups) (InRanges groups)
    unfolding fetch_groups
    fetch_groups_lem [] a = record {
      pairs = [];
      yields = refl;
      are_chunks = tt;
      keeps = λ i chunk u w p. w;
    }
    fetch_groups_lem ((first, last) ∷ groups) (g, a) =
        let head = read_group first last g in
        let rest = fetch_groups_lem groups a in
        record {
          pairs = head.pairs ++ rest.pairs;
          yields = rw head.yields (rw rest.yields);
          are_chunks = AreChunks-append head.pairs rest.pairs head.are_chunks rest.are_chunks;
          keeps = λ i chunk u w p. keep_either head rest i chunk u w p;
        }
      where
        keep_either :
            (head : Yields
              (read_chunk_group_from_store store m (first, last))
              (InGroup (first, last)))
            (rest : Yields (fetch_groups store m groups) (InRanges groups)) (i : ℕ) (chunk : Bytes)
            → IsU64 i
            → InRanges ((first, last) ∷ groups) i
            → persisted m contents i ≡ some chunk
            → HasIndex i (head.pairs ++ rest.pairs)
        keep_either head rest i chunk u (inl w) p =
            HasIndex-append_left i head.pairs rest.pairs (head.keeps i chunk u w p)
        keep_either head rest i chunk u (inr w) p =
            HasIndex-append_right i head.pairs rest.pairs (rest.keeps i chunk u w p)

    -- Fetching a list of chunks, however the list is coalesced into lookups and range scans, gives for
    -- each of them what is persisted under its key.
    pub read_chunks_from_store_lem :
        (indices : List ℕ)
        → All IsU64 indices
        → (chunks : Map Bytes) × (read_chunks_from_store store m indices ≡ ok chunks)
          × ((i : ℕ) → Listed i indices → Map.get i chunks ≡ persisted m contents i)
    unfolding read_chunks_from_store
    read_chunks_from_store_lem [] a = ([], refl, λ i h. absurd h)
    read_chunks_from_store_lem (i ∷ indices) a =
        let f =
          fetch_groups_lem (coalesce_chunk_indices (i ∷ indices))
            (coalesce_chunk_indices-IsRange (i ∷ indices) a) in
        (
          Map.extend f.pairs [],
          rw f.yields,
          λ j h. fetched_chunk f j (Listed-All IsU64 (i ∷ indices) a j h) (
              Listed-All (InRanges (coalesce_chunk_indices (i ∷ indices))) (i ∷ indices)
                (coalesce_chunk_indices_covers (i ∷ indices)) j h),
        )
      where
        fetched_chunk :
            (f : Yields
              (fetch_groups store m (coalesce_chunk_indices (i ∷ indices)))
              (InRanges (coalesce_chunk_indices (i ∷ indices))))
            (j : ℕ)
            → IsU64 j
            → InRanges (coalesce_chunk_indices (i ∷ indices)) j
            → Map.get j (Map.extend f.pairs []) ≡ persisted m contents j
        fetched_chunk f j u w = elim (Option-cases (Map.get j (Map.extend f.pairs []))) [
          | inr (chunk, found) ↦
              found ∙ sym (extend-Agrees f.pairs [] f.are_chunks empty-Agrees j chunk found)
          | inl missing ↦ elim (Option-cases (persisted m contents j)) [
            | inl absent ↦ missing ∙ sym absent
            | inr (chunk, there) ↦
                absurd (get-extend f.pairs [] j (inl (f.keeps j chunk u w there)) missing)
          ]
        ]
