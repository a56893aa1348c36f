-- ===== src/DatabaseMetadata/Catalog.antt =====
-- What makes a catalog consistent, and that every operation of rust/src/database_metadata.rs keeps it
-- so.
use duckdb_object_storage.Common.{
  ℕ, ◌+◌, ◌≤◌, ◌<◌, ◌≡◌, ◌≢◌, refl, ap, ◌∙◌, sym, Bool, true, false, inl, inr, Option, none, some,
  arith, ◌==◌, if◌then◌else◌, IsU64, Bool-cases,
}
use duckdb_object_storage.Keys.{Bytes, chunk_prefix, metadata_key}
use duckdb_object_storage.Keys.Order.{bytes_eq, bytes_eq→eq, bytes_eq_refl, starts_with}
use duckdb_object_storage.Keys.Prefixes.{chunk_prefix-metadata_key}
use duckdb_object_storage.Database.{Contents}
use duckdb_object_storage.DatabaseMetadata.{FilePath, path_key, next_file_id_key}
use duckdb_object_storage.DatabaseMetadata.Ids.{
  to_be_bytes, decode_file_id, decode_file_id-to_be_bytes,
}
use duckdb_object_storage.DatabaseMetadata.Families.{
  metadata_key-next, path_key-next, chunk_prefix-next, metadata_key_eq,
}
use duckdb_object_storage.DatabaseMetadata.Remove.{IsMapped, is_key_of, removed}
use duckdb_object_storage.DatabaseMetadata.Move.{is_replaced, moved}
use duckdb_object_storage.DatabaseMetadata.Prepare.{emptied, created, IsNext}

-- Every mapping holds a file ID that was allocated, no two paths share one, and no key belongs to a
-- file whose ID is not allocated yet.
pub record IsCatalog (contents : Contents) (next : ℕ) : Type 0 where
  pub is_u64 : IsU64 next
  pub counter : IsNext contents next
  pub mapped :
      (path : FilePath) (v : Bytes)
      → contents (path_key path) ≡ some v
      → (file_id : ℕ) × (v ≡ to_be_bytes file_id) × (0 < file_id) × (file_id < next)
  pub unshared :
      (p q : FilePath) (v : Bytes)
      → contents (path_key p) ≡ some v
      → contents (path_key q) ≡ some v
      → bytes_eq p q ≡ true
  pub unallocated :
      (f : ℕ) (k : Bytes) → IsU64 f → next ≤ f → is_key_of f k ≡ true → contents k ≡ none

-- The next file ID is not the reserved 0.
next_pos : (contents : Contents) (next : ℕ) → IsNext contents next → 0 < next
next_pos contents next (inl (absent, first)) = omega arith
next_pos contents next (inr (stored, positive)) = positive

to_be_bytes_injective :
    (m n : ℕ) → IsU64 m → 0 < m → IsU64 n → 0 < n → to_be_bytes m ≡ to_be_bytes n → m ≡ n
to_be_bytes_injective m n um pm un pn e =
    let read : decode_file_id (to_be_bytes m) ≡ decode_file_id (to_be_bytes n) =
      ap decode_file_id e in
    cc (decode_file_id-to_be_bytes m um pm, decode_file_id-to_be_bytes n un pn)

-- A mapped file ID is an allocated one.
pub IsMapped-lt :
    (contents : Contents) (next : ℕ) (path : FilePath) (file_id : ℕ)
    → IsCatalog contents next
    → IsMapped contents path file_id
    → file_id < next
IsMapped-lt contents next path file_id c m =
    let (i, e, positive, below) = c.mapped path (to_be_bytes file_id) m.mapping in
    let same : file_id ≡ i =
      to_be_bytes_injective file_id i m.is_u64 m.positive (omega (arith, c.is_u64)) positive e in
    omega arith

-- The keys of a file, and the other keys of the catalog.
is_key_of-path : (f : ℕ) (p : FilePath) → is_key_of f (path_key p) ≡ false
unfolding path_key metadata_key chunk_prefix bytes_eq starts_with
is_key_of-path f p = refl

is_key_of-next : (f : ℕ) → is_key_of f next_file_id_key ≡ false
is_key_of-next f = rw (metadata_key-next f) (chunk_prefix-next f)

is_key_of-metadata : (f g : ℕ) → IsU64 f → IsU64 g → is_key_of f (metadata_key g) ≡ (f == g)
is_key_of-metadata f g uf ug =
    rw (metadata_key_eq f g uf ug) (rw (chunk_prefix-metadata_key f g) (ground arith))

-- A test that tells two keys apart.
told_apart :
    (test : Bytes → Bool) (j k : Bytes) → test j ≡ false → test k ≡ true → bytes_eq j k ≡ false
told_apart test j k no_j yes_k = elim (Bool-cases (bytes_eq j k)) [
  | inl e ↦ absurd (cc (ap test (bytes_eq→eq j k e)))
  | inr e ↦ e
]

IsNext-same :
    (contents after : Contents) (next : ℕ)
    → after next_file_id_key ≡ contents next_file_id_key
    → IsNext contents next
    → IsNext after next
IsNext-same contents after next e (inl (absent, first)) = inl (e ∙ absent, first)
IsNext-same contents after next e (inr (stored, positive)) = inr (e ∙ stored, positive)

-- Removing a mapped file keeps the catalog consistent.
pub removed-IsCatalog :
    (contents : Contents) (next : ℕ) (path : FilePath) (file_id : ℕ)
    → IsCatalog contents next
    → IsCatalog (removed path file_id contents) next
removed-IsCatalog contents next path file_id c = record {
  is_u64 = c.is_u64;
  counter =
      IsNext-same contents (removed path file_id contents) next
        (rw (path_key-next path) (rw (is_key_of-next file_id) refl)) c.counter;
  mapped = λ q v e. c.mapped q v (kept (path_key q) v e);
  unshared = λ p q v ep eq. c.unshared p q v (kept (path_key p) v ep) (kept (path_key q) v eq);
  unallocated = λ f k uf above own. ground (arith, c.unallocated f k uf above own);
}
  where
    kept : (k v : Bytes) → removed path file_id contents k ≡ some v → contents k ≡ some v
    kept k v e = ground arith

-- Emptying a mapped file keeps the catalog consistent.
pub emptied-IsCatalog :
    (contents : Contents) (next : ℕ) (path : FilePath) (file_id : ℕ) (fresh : Bytes)
    → IsCatalog contents next
    → IsMapped contents path file_id
    → IsCatalog (emptied file_id fresh contents) next
emptied-IsCatalog contents next path file_id fresh c m = record {
  is_u64 = c.is_u64;
  counter =
      IsNext-same contents (emptied file_id fresh contents) next
        (rw (metadata_key-next file_id) (rw (chunk_prefix-next file_id) refl)) c.counter;
  mapped = λ q v e. c.mapped q v (sym (kept q) ∙ e);
  unshared = λ p q v ep eq. c.unshared p q v (sym (kept p) ∙ ep) (sym (kept q) ∙ eq);
  unallocated = λ f k uf above own.
      let apart : (f == file_id) ≡ false =
        ground (arith, IsMapped-lt contents next path file_id c m) in
      rw
        (told_apart (is_key_of f) (metadata_key file_id) k
          (is_key_of-metadata f file_id uf m.is_u64 ∙ apart) own)
        (ground (arith, c.unallocated f k uf above own));
}
  where
    kept : (q : FilePath) → emptied file_id fresh contents (path_key q) ≡ contents (path_key q)
    kept q = unfold path_key metadata_key chunk_prefix bytes_eq starts_with in refl

created-path :
    (contents : Contents) (path q : FilePath) (file_id : ℕ) (fresh : Bytes)
    → created path file_id fresh contents (path_key q)
      ≡ (if bytes_eq path q then some (to_be_bytes file_id) else contents (path_key q))
unfolding path_key metadata_key bytes_eq
created-path contents path q file_id fresh = refl

-- One more mapping, to a file that no other path maps to.
unshared-insert :
    (m : FilePath → Option Bytes) (target : FilePath) (w : Bytes)
    → ((p q : FilePath) (v : Bytes) → m p ≡ some v → m q ≡ some v → bytes_eq p q ≡ true)
    → ((q : FilePath) → bytes_eq target q ≡ false → m q ≢ some w)
    → (p q : FilePath) (v : Bytes) → (if bytes_eq target p then some w else m p) ≡ some v
    → (if bytes_eq target q then some w else m q) ≡ some v
    → bytes_eq p q ≡ true
unshared-insert m target w unshared new p q v ep eq = elim (Bool-cases (bytes_eq target p)) [
  | inl hp ↦ elim (Bool-cases (bytes_eq target q)) [
    | inl hq ↦
        let same : p ≡ q = sym (bytes_eq→eq target p hp) ∙ bytes_eq→eq target q hq in
        ap (bytes_eq p) (sym same) ∙ bytes_eq_refl p
    | inr hq ↦ let wv : some w ≡ some v = rw hp at ep in absurd (new q hq ((rw hq at eq) ∙ sym wv))
  ]
  | inr hp ↦ elim (Bool-cases (bytes_eq target q)) [
    | inl hq ↦ let wv : some w ≡ some v = rw hq at eq in absurd (new p hp ((rw hp at ep) ∙ sym wv))
    | inr hq ↦ unshared p q v (rw hp at ep) (rw hq at eq)
  ]
]

-- Creating a file at a path that is not mapped keeps the catalog consistent, with the next ID one
-- higher.
pub created-IsCatalog :
    (contents : Contents) (next : ℕ) (path : FilePath) (fresh : Bytes)
    → IsCatalog contents next
    → contents (path_key path) ≡ none
    → IsU64 (next + 1)
    → IsCatalog (created path next fresh contents) (next + 1)
created-IsCatalog contents next path fresh c missing u = record {
  is_u64 = u;
  counter = inr (rw (bytes_eq_refl next_file_id_key) refl, omega arith);
  mapped = λ q v e. by_path q v (bytes_eq path q) refl e;
  unshared = λ p q v ep eq.
      unshared-insert (λ r. contents (path_key r)) path (to_be_bytes next) c.unshared fresh_id p q v
        (shown p v ep) (shown q v eq);
  unallocated = λ f k uf above own.
      let apart : (f == next) ≡ false = ground arith in
      rw (told_apart (is_key_of f) next_file_id_key k (is_key_of-next f) own) (
        rw
          (told_apart (is_key_of f) (metadata_key next) k
            (is_key_of-metadata f next uf c.is_u64 ∙ apart) own)
          (rw (told_apart (is_key_of f) (path_key path) k (is_key_of-path f path) own)
            (c.unallocated f k uf (omega arith) own)));
}
  where
    fresh_id :
        (q : FilePath) → bytes_eq path q ≡ false → contents (path_key q) ≢ some (to_be_bytes next)
    fresh_id q other e =
        let m : IsMapped contents q next = record {
          is_u64 = c.is_u64;
          positive = next_pos contents next c.counter;
          mapping = e;
        } in
        omega (arith, IsMapped-lt contents next q next c m)

    shown :
        (q : FilePath) (v : Bytes)
        → created path next fresh contents (path_key q) ≡ some v
        → (if bytes_eq path q then some (to_be_bytes next) else contents (path_key q)) ≡ some v
    shown q v e = sym (created-path contents path q next fresh) ∙ e

    by_path :
        (q : FilePath) (v : Bytes) (b : Bool)
        → bytes_eq path q ≡ b
        → created path next fresh contents (path_key q) ≡ some v
        → (file_id : ℕ) × (v ≡ to_be_bytes file_id) × (0 < file_id) × (file_id < next + 1)
    by_path q v true h e =
        (next, cc (rw h at (shown q v e)), next_pos contents next c.counter, omega arith)
    by_path q v false h e =
        let (i, stored, positive, below) = c.mapped q v (rw h at (shown q v e)) in
        (i, stored, positive, omega arith)

moved-path :
    (contents : Contents) (source target q : FilePath) (i : ℕ) (old : Option ℕ)
    → moved source target i old contents (path_key q) ≡ (
        if bytes_eq target q
        then some (to_be_bytes i)
        else if bytes_eq source q
        then none
        else contents (path_key q))
unfolding path_key metadata_key chunk_prefix bytes_eq starts_with
moved-path contents source target q i none = ground arith
moved-path contents source target q i (some f) = ground arith

is_replaced-next : (i : ℕ) (old : Option ℕ) → is_replaced i old next_file_id_key ≡ false
is_replaced-next i none = refl
is_replaced-next i (some f) = ground (arith, is_key_of-next f)

-- Moving a mapped path keeps the catalog consistent.
pub moved-IsCatalog :
    (contents : Contents) (next : ℕ) (source target : FilePath) (file_id : ℕ) (old : Option ℕ)
    → IsCatalog contents next
    → IsMapped contents source file_id
    → IsCatalog (moved source target file_id old contents) next
moved-IsCatalog contents next source target file_id old c m = record {
  is_u64 = c.is_u64;
  counter =
      IsNext-same contents (moved source target file_id old contents) next
        (rw (path_key-next target)
          (rw (path_key-next source) (rw (is_replaced-next file_id old) refl)))
        c.counter;
  mapped = λ q v e. by_path q v (bytes_eq target q) refl (shown q v e);
  unshared = λ p q v ep eq.
      unshared-insert kept target (to_be_bytes file_id) kept_unshared only p q v (shown p v ep)
        (shown q v eq);
  unallocated = λ f k uf above own.
      rw (told_apart (is_key_of f) (path_key target) k (is_key_of-path f target) own)
        (ground (arith, c.unallocated f k uf above own));
}
  where
    kept : FilePath → Option Bytes
    kept q = if bytes_eq source q then none else contents (path_key q)

    kept_some : (q : FilePath) (v : Bytes) → kept q ≡ some v → contents (path_key q) ≡ some v
    kept_some q v e = ground arith

    shown :
        (q : FilePath) (v : Bytes)
        → moved source target file_id old contents (path_key q) ≡ some v
        → (if bytes_eq target q then some (to_be_bytes file_id) else kept q) ≡ some v
    shown q v e = sym (moved-path contents source target q file_id old) ∙ e

    kept_unshared :
        (p q : FilePath) (v : Bytes) → kept p ≡ some v → kept q ≡ some v → bytes_eq p q ≡ true
    kept_unshared p q v ep eq = c.unshared p q v (kept_some p v ep) (kept_some q v eq)

    only : (q : FilePath) → bytes_eq target q ≡ false → kept q ≢ some (to_be_bytes file_id)
    only q other e = cc (
      c.unshared source q (to_be_bytes file_id) m.mapping (kept_some q (to_be_bytes file_id) e),
      e,
    )

    by_path :
        (q : FilePath) (v : Bytes) (b : Bool)
        → bytes_eq target q ≡ b
        → (if bytes_eq target q then some (to_be_bytes file_id) else kept q) ≡ some v
        → (i : ℕ) × (v ≡ to_be_bytes i) × (0 < i) × (i < next)
    by_path q v true h e =
        (file_id, cc (rw h at e), m.positive, IsMapped-lt contents next source file_id c m)
    by_path q v false h e = c.mapped q v (kept_some q v (rw h at e))
