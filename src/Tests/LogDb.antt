-- ===== src/Tests/LogDb.antt =====
-- A database that keeps a log of its writes, as an instance of the laws that SlateDB documents.
use duckdb_object_storage.Common.{
  ◌≡◌, refl, ap, ◌∙◌, sym, Bool, true, inl, inr, Option, none, some, List, [], ◌∷◌, map,
  if◌then◌else◌, All, Bool-cases,
}
use duckdb_object_storage.Error.{ok}
use duckdb_object_storage.Keys.{Bytes}
use duckdb_object_storage.Keys.Order.{bytes_eq, bytes_eq→eq, starts_with}
use duckdb_object_storage.Database.{
  KeyValue, DbReadOps, put, delete, WriteBatch, Db, Contents, Has, Lists, between, Serves, IsDb,
  apply_op, apply_batch,
}

abbrev pub Log : Type 0
Log = List (Bytes × Option Bytes)

abbrev pub lookup : Log → Contents
lookup [] k = none
lookup ((j, o) ∷ log) k = if bytes_eq j k then o else lookup log k

abbrev pub entry : Bytes → Option Bytes → List KeyValue → List KeyValue
entry k none items = items
entry k (some v) items = (k, v) ∷ items

abbrev pub items_of : (Bytes → Bool) → Log → Log → List KeyValue
items_of test log [] = []
items_of test log ((k, o) ∷ rest) =
    if test k then entry k (lookup log k) (items_of test log rest) else items_of test log rest

abbrev pub read_log : Log → DbReadOps
read_log log = record {
  get = λ k. ok (lookup log k);
  scan_with_options = λ first last options. ok (map ok (items_of (between first last) log log));
  scan_prefix = λ prefix. ok (map ok (items_of (starts_with prefix) log log));
}

abbrev pub write_log : WriteBatch → Log → Log
write_log [] log = log
write_log (put k v ∷ batch) log = write_log batch ((k, some v) ∷ log)
write_log (delete k ∷ batch) log = write_log batch ((k, none) ∷ log)

abbrev pub log_db : Db
log_db = record {
  State = Log;
  read = read_log;
  write = λ batch log. (ok tt, write_log batch log);
  flush = λ log. (ok tt, log);
}

module _ (contents : Contents) (log : Log) (shown : (k : Bytes) → lookup log k ≡ contents k)
    (test : Bytes → Bool) where
  Sound : KeyValue → Type 0
  Sound kv = (test kv.0 ≡ true) × (contents kv.0 ≡ some kv.1)

  entry-Sound :
      (k : Bytes) (o : Option Bytes) (items : List KeyValue)
      → test k ≡ true
      → contents k ≡ o
      → All Sound items
      → All Sound (entry k o items)
  unfolding Sound
  entry-Sound k none items t e a = a
  entry-Sound k (some v) items t e a = ((t, e), a)

  items_of-Sound : (rest : Log) → All Sound (items_of test log rest)
  items_of-Sound [] = tt
  items_of-Sound ((k, o) ∷ rest) = elim (Bool-cases (test k)) [
    | inl t ↦ rw t (
        entry-Sound k (lookup log k) (items_of test log rest) t (sym (shown k))
          (items_of-Sound rest))
    | inr f ↦ rw f (items_of-Sound rest)
  ]

  Has-entry :
      (j k : Bytes) (o : Option Bytes) (items : List KeyValue)
      → Has k items
      → Has k (entry j o items)
  Has-entry j k none items h = h
  Has-entry j k (some v) items h = inr h

  entry-Has :
      (j k v : Bytes) (o : Option Bytes) (items : List KeyValue)
      → j ≡ k
      → o ≡ some v
      → Has k (entry j o items)
  entry-Has j k v none items e s = absurd (cc)
  entry-Has j k v (some w) items e s = inl e

  items_of-Has :
      (rest : Log) (k v w : Bytes)
      → test k ≡ true
      → lookup rest k ≡ some w
      → lookup log k ≡ some v
      → Has k (items_of test log rest)
  items_of-Has [] k v w t there found = absurd (cc)
  items_of-Has ((j, o) ∷ rest) k v w t there found = elim (Bool-cases (bytes_eq j k)) [
    | inl same ↦
        let e : j ≡ k = bytes_eq→eq j k same in
        let tj : test j ≡ true = ap test e ∙ t in
        rw tj
          (entry-Has j k v (lookup log j) (items_of test log rest) e (ap (lookup log) e ∙ found))
    | inr other ↦
        let rest_has = items_of-Has rest k v w t (rw other at there) found in
        elim (Bool-cases (test j)) [
          | inl tj ↦ rw tj (Has-entry j k (lookup log j) (items_of test log rest) rest_has)
          | inr fj ↦ rw fj rest_has
        ]
  ]

  items_of-Lists : Lists contents test (items_of test log log)
  unfolding Sound
  items_of-Lists = record {
    sound = items_of-Sound log;
    complete = λ k v t e. items_of-Has log k v v t (shown k ∙ e) (shown k ∙ e);
  }

-- The log serves the contents that its lookups show.
pub read_log-Serves :
    (contents : Contents) (log : Log)
    → ((k : Bytes) → lookup log k ≡ contents k)
    → Serves (read_log log) contents
read_log-Serves contents log shown = record {
  get_lem = λ k. ap ok (shown k);
  scan_lem = λ first last options. (
    items_of (between first last) log log,
    refl,
    items_of-Lists contents log shown (between first last),
  );
  prefix_lem = λ prefix. (
    items_of (starts_with prefix) log log,
    refl,
    items_of-Lists contents log shown (starts_with prefix),
  );
}

write_log-lookup :
    (batch : WriteBatch) (log : Log) (contents : Contents)
    → ((k : Bytes) → lookup log k ≡ contents k)
    → (k : Bytes) → lookup (write_log batch log) k ≡ apply_batch batch contents k
unfolding apply_batch apply_op
write_log-lookup [] log contents shown k = shown k
write_log-lookup (put j v ∷ batch) log contents shown k =
    write_log-lookup batch ((j, some v) ∷ log) (apply_op (put j v) contents)
      (λ i. ap (λ o. if bytes_eq j i then some v else o) (shown i)) k
write_log-lookup (delete j ∷ batch) log contents shown k =
    write_log-lookup batch ((j, none) ∷ log) (apply_op (delete j) contents)
      (λ i. ap (λ o. if bytes_eq j i then none else o) (shown i)) k

pub log_db-IsDb : IsDb log_db
log_db-IsDb = record {
  write_lem = λ s contents batch serves wrote.
      read_log-Serves (apply_batch batch contents) (write_log batch s)
        (write_log-lookup batch s contents (λ k. cc (serves.get_lem k)));
  flush_lem = λ s contents serves. serves;
}
