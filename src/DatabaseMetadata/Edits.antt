-- ===== src/DatabaseMetadata/Edits.antt =====
-- What the steps of a transaction make of the contents that it shows.
use duckdb_object_storage.Common.{
  ℕ, ◌≡◌, refl, ap, subst, ◌∙◌, sym, Bool, true, false, ◌||◌, inl, inr, Option, none, some, List,
  [], ◌∷◌, map, arith, if◌then◌else◌, All, Bool-cases, Option-cases,
}
use duckdb_object_storage.Error.{Error, Result, ok}
use duckdb_object_storage.Keys.{Bytes, chunk_prefix}
use duckdb_object_storage.Keys.Order.{bytes_eq, bytes_eq→eq, bytes_eq_refl, starts_with}
use duckdb_object_storage.Database.{Contents, KeyValue, Has, Lists, Serves, put, delete, apply_op}
use duckdb_object_storage.Transaction.{TxnDb, IsTxnDb}
use duckdb_object_storage.DatabaseMetadata.{
  finish, put_in, delete_in, get_in, delete_scanned, delete_chunks, begin_in,
}

-- The contents without the keys that a test picks.
abbrev pub without : (Bytes → Bool) → Contents → Contents
without test contents k = if test k then none else contents k

abbrev pub without_key : Bytes → Contents → Contents
without_key j contents k = if bytes_eq j k then none else contents k

abbrev pub with_key : Bytes → Bytes → Contents → Contents
with_key j v contents k = if bytes_eq j k then some v else contents k

listed : Bytes → List KeyValue → Bool
listed k [] = false
listed k (kv ∷ items) = bytes_eq kv.0 k || listed k items

Has-listed : (k : Bytes) (items : List KeyValue) → Has k items → listed k items ≡ true
unfolding listed
Has-listed k [] h = absurd h
Has-listed k (kv ∷ items) (inl e) = rw e (rw (bytes_eq_refl k) refl)
Has-listed k (kv ∷ items) (inr h) = ground (arith, Has-listed k items h)

listed-All :
    (test : Bytes → Bool) (contents : Contents) (k : Bytes) (items : List KeyValue)
    → All (λ (kv : KeyValue). (test kv.0 ≡ true) × (contents kv.0 ≡ some kv.1)) items
    → listed k items ≡ true
    → test k ≡ true
unfolding listed
listed-All test contents k [] a h = cc
listed-All test contents k (kv ∷ items) (a, rest) h = elim (Bool-cases (bytes_eq kv.0 k)) [
  | inl e ↦ ap test (sym (bytes_eq→eq kv.0 k e)) ∙ a.0
  | inr e ↦ listed-All test contents k items rest (rw e at h)
]

-- To remove the entries that a scan lists is to remove what its test picks.
without-listed :
    (test : Bytes → Bool) (view contents : Contents) (items : List KeyValue) (k : Bytes)
    → Lists view test items
    → view k ≡ contents k
    → without (λ j. listed j items) contents k ≡ without test contents k
without-listed test view contents items k l e = elim (Bool-cases (listed k items)) [
  | inl h ↦ rw h (rw (listed-All test view k items l.sound h) refl)
  | inr h ↦ elim (Bool-cases (test k)) [
    | inl t ↦ elim (Option-cases (view k)) [
      | inl none_there ↦ rw h (rw t (sym e ∙ none_there))
      | inr (v, there) ↦ absurd (cc (h, Has-listed k items (l.complete k v t there)))
    ]
    | inr f ↦ rw h (rw f refl)
  ]
]

module _ (db : TxnDb) (laws : IsTxnDb db) (s : db.State) where
  -- A transaction that shows some contents.
  pub record Shows (t : db.Txn) (contents : Contents) : Type 0 where
    pub began : laws.Began s t
    pub view : Contents
    pub serves : Serves (db.read_txn t) view
    pub shown : (k : Bytes) → view k ≡ contents k

  -- A step that succeeds, and leaves a transaction that shows other contents.
  pub record Steps (r : Result Error db.Txn) (contents : Contents) : Type 0 where
    pub txn : db.Txn
    pub done : r ≡ ok txn
    pub shows : Shows txn contents

  pub get_in_lem :
      (t : db.Txn) (contents : Contents) (k : Bytes)
      → Shows t contents
      → get_in db t k ≡ ok (contents k)
  unfolding get_in
  get_in_lem t contents k h = rw (h.serves.get_lem k) (ap ok (h.shown k))

  pub put_in_lem :
      (t : db.Txn) (contents : Contents) (k v : Bytes)
      → Shows t contents
      → Steps (put_in db k v t) (with_key k v contents)
  unfolding put_in apply_op
  put_in_lem t contents k v h =
      let (t', e, began, serves) = laws.put_lem s t h.view k v h.began h.serves in
      record {
        txn = t';
        done = rw e refl;
        shows = record {
          began = began;
          view = apply_op (put k v) h.view;
          serves = serves;
          shown = λ j. ap (λ (o : Option Bytes). if bytes_eq k j then some v else o) (h.shown j);
        };
      }

  pub delete_in_lem :
      (t : db.Txn) (contents : Contents) (k : Bytes)
      → Shows t contents
      → Steps (delete_in db k t) (without_key k contents)
  unfolding delete_in apply_op
  delete_in_lem t contents k h =
      let (t', e, began, serves) = laws.delete_lem s t h.view k h.began h.serves in
      record {
        txn = t';
        done = rw e refl;
        shows = record {
          began = began;
          view = apply_op (delete k) h.view;
          serves = serves;
          shown = λ j. ap (λ (o : Option Bytes). if bytes_eq k j then none else o) (h.shown j);
        };
      }

  -- The same transaction, with its contents written another way.
  pub reshow :
      (t : db.Txn) (contents other : Contents)
      → Shows t contents
      → ((k : Bytes) → contents k ≡ other k)
      → Shows t other
  reshow t contents other h e = record {
    began = h.began;
    view = h.view;
    serves = h.serves;
    shown = λ k. h.shown k ∙ e k;
  }

  delete_scanned_lem :
      (items : List KeyValue) (t : db.Txn) (contents : Contents)
      → Shows t contents
      → Steps (delete_scanned db (map ok items) t) (without (λ k. listed k items) contents)
  unfolding delete_scanned listed
  delete_scanned_lem [] t contents h = record { txn = t; done = refl; shows = h }
  delete_scanned_lem (kv ∷ items) t contents h =
      let first = delete_in_lem t contents kv.0 h in
      let rest = delete_scanned_lem items first.txn (without_key kv.0 contents) first.shows in
      record {
        txn = rest.txn;
        done = rw (first.done) rest.done;
        shows = reshow rest.txn _ _ rest.shows (λ k. ground arith);
      }

  pub begin_in_lem :
      (contents : Contents)
      → Serves (db.read s) contents
      → (t : db.Txn) × (begin_in db s ≡ ok t) × Shows t contents
  unfolding begin_in
  begin_in_lem contents serves =
      let (t, e, began, shown) = laws.begin_lem s contents serves in
      (t, rw e refl, record { began = began; view = contents; serves = shown; shown = λ k. refl })

  -- The chunks of a file, whatever number of them there are, are removed and nothing else.
  pub delete_chunks_lem :
      (t : db.Txn) (contents : Contents) (file_id : ℕ)
      → Shows t contents
      → Steps (delete_chunks db file_id t) (without (starts_with (chunk_prefix file_id)) contents)
  unfolding delete_chunks
  delete_chunks_lem t contents file_id h =
      let (items, e, l) = h.serves.prefix_lem (chunk_prefix file_id) in
      let rest = delete_scanned_lem items t contents h in
      record {
        txn = rest.txn;
        done = rw e (rest.done);
        shows = reshow rest.txn _ _ rest.shows (λ k.
            without-listed (starts_with (chunk_prefix file_id)) h.view contents items k l
              (h.shown k));
      }

-- What a committed operation leaves behind: a success, and a database that shows the contents.
pub record Commits (db : TxnDb) (outcome : Result Error (Unit {0}) × db.State) (contents : Contents)
    : Type 0 where
  pub succeeds : outcome.0 ≡ ok tt
  pub after : Contents
  pub serves : Serves (db.read outcome.1) after
  pub shown : (k : Bytes) → after k ≡ contents k

pub finish_lem :
    (db : TxnDb) (laws : IsTxnDb db) (s : db.State) (r : Result Error db.Txn) (contents : Contents)
    → Steps db laws s r contents
    → Commits db (finish db r s) contents
unfolding finish
finish_lem db laws s r contents h =
    let (committed, serves) = laws.commit_lem s h.txn h.shows.view h.shows.began h.shows.serves in
    let e : finish db r s ≡ finish db (ok h.txn) s =
      ap (λ (q : Result Error db.Txn). finish db q s) h.done in
    subst (λ (o : Result Error (Unit {0}) × db.State). Commits db o contents) (sym e)
      (record {
        succeeds = rw committed refl;
        after = h.shows.view;
        serves = serves;
        shown = h.shows.shown;
      })
