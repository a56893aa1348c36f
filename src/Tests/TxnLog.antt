-- ===== src/Tests/TxnLog.antt =====
-- The log with transactions, as an instance of the laws that SlateDB documents of them.
use duckdb_object_storage.Common.{refl, ap, some, none, ◌∷◌, if◌then◌else◌}
use duckdb_object_storage.Error.{ok}
use duckdb_object_storage.Keys.Order.{bytes_eq}
use duckdb_object_storage.Database.{put, delete, apply_op}
use duckdb_object_storage.Transaction.{TxnDb, IsTxnDb}
use duckdb_object_storage.Tests.LogDb.{Log, read_log, read_log-Serves}

-- A transaction is a log that starts as the database's and replaces it.
abbrev pub txn_log : TxnDb
txn_log = record {
  State = Log;
  Txn = Log;
  read = read_log;
  begin = λ s. ok s;
  read_txn = read_log;
  put_txn = λ k v t. ok ((k, some v) ∷ t);
  delete_txn = λ k t. ok ((k, none) ∷ t);
  commit = λ t s. (ok tt, t);
}

pub txn_log-IsTxnDb : IsTxnDb txn_log
unfolding apply_op
txn_log-IsTxnDb = record {
  Began = λ s t. Unit {0};
  begin_lem = λ s contents serves. (s, refl, tt, serves);
  put_lem = λ s t contents k v began serves. (
    (k, some v) ∷ t,
    refl,
    tt,
    read_log-Serves (apply_op (put k v) contents) ((k, some v) ∷ t)
        (λ i. ap (λ o. if bytes_eq k i then some v else o) (cc (serves.get_lem i))),
  );
  delete_lem = λ s t contents k began serves. (
    (k, none) ∷ t,
    refl,
    tt,
    read_log-Serves (apply_op (delete k) contents) ((k, none) ∷ t)
        (λ i. ap (λ o. if bytes_eq k i then none else o) (cc (serves.get_lem i))),
  );
  commit_lem = λ s t contents began serves. (refl, serves);
}
