-- ===== src/IoMetrics/Counts.antt =====
-- What the counters of rust/src/io_metrics.rs hold after a sequence of requests.
use duckdb_object_storage.Common.{ℕ, ◌+◌, ◌≡◌, List, [], ◌∷◌, arith, wrap, IsU64, length}
use duckdb_object_storage.IoMetrics.{FloatOps, RunningStats, record_stats, snapshot_stats}

module _ (ops : FloatOps) where
  -- The requests in turn, each with its duration and its payload.
  abbrev pub record_all : List (ops.Duration × ℕ) → RunningStats ops → RunningStats ops
  record_all [] s = s
  record_all ((duration, bytes) ∷ requests) s =
      record_all requests (record_stats ops duration bytes s)

  abbrev pub payload_sum : List (ops.Duration × ℕ) → ℕ
  payload_sum [] = 0
  payload_sum ((duration, bytes) ∷ requests) = bytes + payload_sum requests

  -- After any requests, the statistics report their number and their total payload, as long as the
  -- totals fit a u64.
  pub record_all_counts :
      (requests : List (ops.Duration × ℕ)) (s : RunningStats ops)
      → IsU64 (s.count + length requests)
      → IsU64 (s.bytes + payload_sum requests)
      → ((snapshot_stats ops (record_all requests s)).request_count ≡ s.count + length requests)
        × ((snapshot_stats ops (record_all requests s)).bytes ≡ s.bytes + payload_sum requests)
  unfolding snapshot_stats record_stats wrap
  record_all_counts [] s uc ub = (omega arith, omega arith)
  record_all_counts ((duration, bytes) ∷ requests) s uc ub =
      let (c, b) =
        record_all_counts requests (record_stats ops duration bytes s) (omega arith)
          (omega arith) in
      (omega arith, omega arith)
