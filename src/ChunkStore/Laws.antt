-- ===== src/ChunkStore/Laws.antt =====
-- A chunk store over SlateDB shows the contents of the database.
use mathlib.Core.List.{append_assoc, append-nil}
use duckdb_object_storage.Common.{◌≡◌, sym, ap, ◌∙◌, ◌⊎◌, ℕ, Option, List, [], ◌∷◌, ◌++◌, map}
use duckdb_object_storage.Error.{ok}
use duckdb_object_storage.Keys.{Bytes}
use duckdb_object_storage.Keys.Order.{starts_with}
use duckdb_object_storage.Database.{Contents, KeyValue, DbReadOps, Lists, between, Serves}
use duckdb_object_storage.ChunkStore.{
  ChunkStore, collect_pairs, collect_keys, scan_options, get, scan_inclusive, keys_with_prefix,
  slatedb_chunk_store,
}

abbrev pub HasKey : Bytes → List Bytes → Type 0
HasKey k [] = ⊥
HasKey k (j ∷ keys) = (j ≡ k) ⊎ HasKey k keys

-- What a chunk manager relies on: the trait's methods succeed and show the contents.
pub record IsStore (store : ChunkStore) (contents : Contents) : Type 0 where
  pub get_lem : (k : Bytes) → store.get k ≡ ok (contents k)
  pub scan_lem :
      (first last : Bytes) (ahead : ℕ)
      → (items : List KeyValue) × (store.scan_inclusive first last ahead ≡ ok items)
        × Lists contents (between first last) items
  pub keys_lem :
      (prefix : Bytes)
      → (items : List KeyValue) × (store.keys_with_prefix prefix
          ≡ ok (map (λ (kv : KeyValue). kv.0) items))
        × Lists contents (starts_with prefix) items

-- What remains of a store that may fail: a lookup that succeeds gives the value of its key.
pub record IsHonest (store : ChunkStore) (contents : Contents) : Type 0 where
  pub get_lem : (k : Bytes) (o : Option Bytes) → store.get k ≡ ok o → o ≡ contents k

pub IsStore-IsHonest :
    (store : ChunkStore) (contents : Contents) → IsStore store contents → IsHonest store contents
IsStore-IsHonest store contents s = record { get_lem = λ k o e. cc (s.get_lem k) }

collect_pairs_ok :
    (items pairs : List KeyValue) → collect_pairs (map ok items) pairs ≡ ok (pairs ++ items)
unfolding collect_pairs
collect_pairs_ok [] pairs = ap ok (sym (append-nil pairs))
collect_pairs_ok (kv ∷ items) pairs =
    collect_pairs_ok items (pairs ++ (kv ∷ [])) ∙ ap ok (append_assoc pairs (kv ∷ []) items)

collect_keys_ok :
    (items : List KeyValue) (keys : List Bytes)
    → collect_keys (map ok items) keys ≡ ok (keys ++ map (λ (kv : KeyValue). kv.0) items)
unfolding collect_keys
collect_keys_ok [] keys = ap ok (sym (append-nil keys))
collect_keys_ok (kv ∷ items) keys =
    collect_keys_ok items (keys ++ (kv.0 ∷ []))
    ∙ ap ok (append_assoc keys (kv.0 ∷ []) (map (λ (kv : KeyValue). kv.0) items))

-- Over a database whose reads succeed and show some contents, the chunk store's three methods
-- succeed too: a lookup gives the value of its key, and both scans give exactly the entries asked
-- for.
pub slatedb_chunk_store-IsStore :
    (db : DbReadOps) (contents : Contents)
    → Serves db contents
    → IsStore (slatedb_chunk_store db) contents
unfolding get scan_inclusive keys_with_prefix
slatedb_chunk_store-IsStore db contents s = record {
  get_lem = λ k. rw (s.get_lem k);
  scan_lem = λ first last ahead.
      let (items, e, l) = s.scan_lem first last (scan_options ahead) in
      (items, rw e (collect_pairs_ok items []), l);
  keys_lem = λ prefix.
      let (items, e, l) = s.prefix_lem prefix in (items, rw e (collect_keys_ok items []), l);
}
