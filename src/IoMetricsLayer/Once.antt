-- ===== src/IoMetricsLayer/Once.antt =====
-- A transfer through rust/src/opendal_io_metrics_layer.rs is recorded exactly once, by whatever call
-- ends it.
use duckdb_object_storage.Common.{
  ℕ, ◌+◌, ◌≡◌, refl, ap, ◌∙◌, sym, subst, Bool, true, false, List, [], ◌∷◌, arith, length, wrap,
  wrap_lem, ne→==, IsU64,
}
use duckdb_object_storage.Error.{Result, ok, err, panic}
use duckdb_object_storage.Keys.{Bytes}
use duckdb_object_storage.IoMetrics.{FloatOps, IoMetrics, record_stats, record_read, record_write}
use duckdb_object_storage.IoMetricsLayer.{
  Transfer, new_transfer, writer_record_once, writer_write, writer_copy_from, writer_close,
  writer_abort, stream_record_once, stream_read,
}

-- The calls on a writer, each with the result of the inner call.
pub data WriterCall (ops : FloatOps) (E : Type 0) : Type 0 where
  writes : (len : ℕ) (result : Result E (Unit {0})) → WriterCall ops E
  copies : (result : Result E (Unit {0})) → WriterCall ops E
  closes : (elapsed : ops.Duration) (result : Result E (Unit {0})) → WriterCall ops E
  aborts : (elapsed : ops.Duration) (result : Result E (Unit {0})) → WriterCall ops E

module _ (ops : FloatOps) where
  -- The metrics with one more write: its count and its payload are added, its time enters the running
  -- mean, and the other counters are as they were.
  pub record WroteOnce (elapsed : ops.Duration) (bytes : ℕ) (m m' : IoMetrics ops) : Type 0 where
    pub count : m'.write.count ≡ m.write.count + 1
    pub payload : m'.write.bytes ≡ m.write.bytes + bytes
    pub mean :
        m'.write.mean
        ≡ ops.add_float m.write.mean (
            ops.div_float
              (ops.sub_float (ops.as_secs_f64 elapsed) m.write.mean)
              (ops.from_u64 (m.write.count + 1)))
    pub same_read : m'.read ≡ m.read
    pub same_stat : m'.stat ≡ m.stat
    pub same_delete : m'.delete ≡ m.delete
    pub same_list : m'.list ≡ m.list

  record_write-WroteOnce :
      (elapsed : ops.Duration) (bytes : ℕ) (m : IoMetrics ops)
      → IsU64 (m.write.count + 1)
      → IsU64 (m.write.bytes + bytes)
      → WroteOnce elapsed bytes m (record_write ops elapsed bytes m)
  unfolding record_write record_stats
  record_write-WroteOnce elapsed bytes m uc ub =
      let c = wrap_lem (m.write.count + 1) uc in
      record {
        count = c;
        payload = wrap_lem (m.write.bytes + bytes) ub;
        mean =
            ap
              (λ n. ops.add_float m.write.mean (
                ops.div_float (ops.sub_float (ops.as_secs_f64 elapsed) m.write.mean)
                  (ops.from_u64 n)))
              c;
        same_read = refl;
        same_stat = refl;
        same_delete = refl;
        same_list = refl;
      }

module _ (ops : FloatOps) {E : Type 0} where
  abbrev writer_call : WriterCall ops E → Transfer × IoMetrics ops → Transfer × IoMetrics ops
  writer_call (writes len result) w = writer_write ops len result w
  writer_call (copies result) w = writer_copy_from ops result w
  writer_call (closes elapsed result) w = writer_close ops elapsed result w
  writer_call (aborts elapsed result) w = writer_abort ops elapsed result w

  abbrev pub writer_calls :
      List (WriterCall ops E) → Transfer × IoMetrics ops → Transfer × IoMetrics ops
  writer_calls [] w = w
  writer_calls (c ∷ calls) w = writer_calls calls (writer_call c w)

  -- The payload that `write` accepts up to the call that ends the transfer, and the time of that call:
  -- `drop` if no other.
  abbrev pub writer_total : ops.Duration → List (WriterCall ops E) → ops.Duration × ℕ
  writer_total dropped [] = (dropped, 0)
  writer_total dropped (writes len (ok _) ∷ calls) =
      ((writer_total dropped calls).0, len + (writer_total dropped calls).1)
  writer_total dropped (writes len (err _) ∷ calls) = writer_total dropped calls
  writer_total dropped (writes len panic ∷ calls) = writer_total dropped calls
  writer_total dropped (copies result ∷ calls) = writer_total dropped calls
  writer_total dropped (closes elapsed panic ∷ calls) = writer_total dropped calls
  writer_total dropped (closes elapsed (ok _) ∷ calls) = (elapsed, 0)
  writer_total dropped (closes elapsed (err _) ∷ calls) = (elapsed, 0)
  writer_total dropped (aborts elapsed panic ∷ calls) = writer_total dropped calls
  writer_total dropped (aborts elapsed (ok _) ∷ calls) = (elapsed, 0)
  writer_total dropped (aborts elapsed (err _) ∷ calls) = (elapsed, 0)

  -- What has been recorded stays as it is.
  writer_calls-recorded :
      (dropped : ops.Duration) (calls : List (WriterCall ops E)) (bytes : ℕ) (m : IoMetrics ops)
      → (writer_record_once ops dropped
          (writer_calls calls (record { bytes = bytes; recorded = true }, m))).1
        ≡ m
  unfolding writer_record_once writer_write writer_copy_from writer_close writer_abort
  writer_calls-recorded dropped [] bytes m = refl
  writer_calls-recorded dropped (writes len (ok _) ∷ calls) bytes m =
      writer_calls-recorded dropped calls (wrap (bytes + len)) m
  writer_calls-recorded dropped (writes len (err _) ∷ calls) bytes m =
      writer_calls-recorded dropped calls bytes m
  writer_calls-recorded dropped (writes len panic ∷ calls) bytes m =
      writer_calls-recorded dropped calls bytes m
  writer_calls-recorded dropped (copies _ ∷ calls) bytes m =
      writer_calls-recorded dropped calls bytes m
  writer_calls-recorded dropped (closes _ panic ∷ calls) bytes m =
      writer_calls-recorded dropped calls bytes m
  writer_calls-recorded dropped (closes _ (ok _) ∷ calls) bytes m =
      writer_calls-recorded dropped calls bytes m
  writer_calls-recorded dropped (closes _ (err _) ∷ calls) bytes m =
      writer_calls-recorded dropped calls bytes m
  writer_calls-recorded dropped (aborts _ panic ∷ calls) bytes m =
      writer_calls-recorded dropped calls bytes m
  writer_calls-recorded dropped (aborts _ (ok _) ∷ calls) bytes m =
      writer_calls-recorded dropped calls bytes m
  writer_calls-recorded dropped (aborts _ (err _) ∷ calls) bytes m =
      writer_calls-recorded dropped calls bytes m

  writer_calls-running :
      (dropped : ops.Duration) (calls : List (WriterCall ops E)) (bytes : ℕ) (m : IoMetrics ops)
      → IsU64 (bytes + (writer_total dropped calls).1)
      → (writer_record_once ops dropped
          (writer_calls calls (record { bytes = bytes; recorded = false }, m))).1
        ≡ record_write ops (writer_total dropped calls).0 (bytes + (writer_total dropped calls).1) m
  unfolding writer_record_once writer_write writer_copy_from writer_close writer_abort
  writer_calls-running dropped [] bytes m u = ap (λ n. record_write ops dropped n m) (omega arith)
  writer_calls-running dropped (writes len (ok _) ∷ calls) bytes m u =
      ap
        (λ n.
          (writer_record_once ops dropped
            (writer_calls calls (record { bytes = n; recorded = false }, m))).1)
        (wrap_lem (bytes + len) (omega arith))
      ∙ writer_calls-running dropped calls (bytes + len) m (omega arith)
      ∙ ap (λ n. record_write ops (writer_total dropped calls).0 n m) (omega arith)
  writer_calls-running dropped (writes len (err _) ∷ calls) bytes m u =
      writer_calls-running dropped calls bytes m u
  writer_calls-running dropped (writes len panic ∷ calls) bytes m u =
      writer_calls-running dropped calls bytes m u
  writer_calls-running dropped (copies _ ∷ calls) bytes m u =
      writer_calls-running dropped calls bytes m u
  writer_calls-running dropped (closes _ panic ∷ calls) bytes m u =
      writer_calls-running dropped calls bytes m u
  writer_calls-running dropped (closes d (ok _) ∷ calls) bytes m u =
      writer_calls-recorded dropped calls bytes (record_write ops d bytes m)
      ∙ ap (λ n. record_write ops d n m) (omega arith)
  writer_calls-running dropped (closes d (err _) ∷ calls) bytes m u =
      writer_calls-recorded dropped calls bytes (record_write ops d bytes m)
      ∙ ap (λ n. record_write ops d n m) (omega arith)
  writer_calls-running dropped (aborts _ panic ∷ calls) bytes m u =
      writer_calls-running dropped calls bytes m u
  writer_calls-running dropped (aborts d (ok _) ∷ calls) bytes m u =
      writer_calls-recorded dropped calls bytes (record_write ops d bytes m)
      ∙ ap (λ n. record_write ops d n m) (omega arith)
  writer_calls-running dropped (aborts d (err _) ∷ calls) bytes m u =
      writer_calls-recorded dropped calls bytes (record_write ops d bytes m)
      ∙ ap (λ n. record_write ops d n m) (omega arith)

  -- Whatever is called on a new writer, writes, copies, closes and aborts in any order and with any
  -- results, once it is dropped exactly one write has been counted: its payload is what `write` accepted
  -- before the first close or abort that returned, or before the drop if none did, and its time is that
  -- of this call. The counters of the other kinds of request are as they were. The number of writes and
  -- the payloads must fit a u64; what `copy_from` copies is no payload.
  pub writer_recorded_once :
      (dropped : ops.Duration) (calls : List (WriterCall ops E)) (m : IoMetrics ops)
      → IsU64 (m.write.count + 1)
      → IsU64 (m.write.bytes + (writer_total dropped calls).1)
      → WroteOnce ops
          (writer_total dropped calls).0
          (writer_total dropped calls).1
          m
          (writer_record_once ops dropped (writer_calls calls (new_transfer, m))).1
  writer_recorded_once dropped calls m uc ub =
      let e =
        writer_calls-running dropped calls 0 m (omega arith)
        ∙ ap (λ n. record_write ops (writer_total dropped calls).0 n m) (omega arith) in
      subst (WroteOnce ops (writer_total dropped calls).0 (writer_total dropped calls).1 m) (sym e)
        (record_write-WroteOnce ops (writer_total dropped calls).0 (writer_total dropped calls).1 m
          uc ub)

module _ (ops : FloatOps) (E : Type 0) where
  stream_read_some :
      (elapsed : ops.Duration) (b : ℕ) (buffer : Bytes) (bytes : ℕ) (done : Bool)
      (m : IoMetrics ops)
      → stream_read ops {E = E} elapsed
          (ok (b ∷ buffer))
          (record { bytes = bytes; recorded = done }, m)
        ≡ (record { bytes = wrap (bytes + length (b ∷ buffer)); recorded = done }, m)
  unfolding stream_read
  stream_read_some elapsed b buffer bytes done m =
      rw (ne→== (length (b ∷ buffer)) 0 (omega arith)) refl

-- The reads of a stream, each with its time and the result of the inner read.
module _ (ops : FloatOps) {E : Type 0} where
  abbrev pub stream_reads :
      List (ops.Duration × Result E Bytes) → Transfer × IoMetrics ops → Transfer × IoMetrics ops
  stream_reads [] t = t
  stream_reads ((elapsed, result) ∷ calls) t = stream_reads calls (stream_read ops elapsed result t)

  -- The bytes up to the read that ends the stream, at its end or with an error.
  abbrev pub stream_total : ops.Duration → List (ops.Duration × Result E Bytes) → ops.Duration × ℕ
  stream_total dropped [] = (dropped, 0)
  stream_total dropped ((elapsed, ok []) ∷ calls) = (elapsed, 0)
  stream_total dropped ((elapsed, ok (b ∷ buffer)) ∷ calls) =
      ((stream_total dropped calls).0, length (b ∷ buffer) + (stream_total dropped calls).1)
  stream_total dropped ((elapsed, err _) ∷ calls) = (elapsed, 0)
  stream_total dropped ((elapsed, panic) ∷ calls) = stream_total dropped calls

  stream_reads-recorded :
      (dropped : ops.Duration) (calls : List (ops.Duration × Result E Bytes)) (bytes : ℕ)
      (m : IoMetrics ops)
      → (stream_record_once ops dropped
          (stream_reads calls (record { bytes = bytes; recorded = true }, m))).1
        ≡ m
  unfolding stream_record_once stream_read
  stream_reads-recorded dropped [] bytes m = refl
  stream_reads-recorded dropped ((_, ok []) ∷ calls) bytes m =
      stream_reads-recorded dropped calls bytes m
  stream_reads-recorded dropped ((d, ok (b ∷ buffer)) ∷ calls) bytes m =
      ap (λ t. (stream_record_once ops dropped (stream_reads calls t)).1)
        (stream_read_some ops E d b buffer bytes true m)
      ∙ stream_reads-recorded dropped calls (wrap (bytes + length (b ∷ buffer))) m
  stream_reads-recorded dropped ((_, err _) ∷ calls) bytes m =
      stream_reads-recorded dropped calls bytes m
  stream_reads-recorded dropped ((_, panic) ∷ calls) bytes m =
      stream_reads-recorded dropped calls bytes m

  stream_reads-running :
      (dropped : ops.Duration) (calls : List (ops.Duration × Result E Bytes)) (bytes : ℕ)
      (m : IoMetrics ops)
      → IsU64 (bytes + (stream_total dropped calls).1)
      → (stream_record_once ops dropped
          (stream_reads calls (record { bytes = bytes; recorded = false }, m))).1
        ≡ record_read ops (stream_total dropped calls).0 (bytes + (stream_total dropped calls).1) m
  unfolding stream_record_once stream_read
  stream_reads-running dropped [] bytes m u = ap (λ n. record_read ops dropped n m) (omega arith)
  stream_reads-running dropped ((d, ok []) ∷ calls) bytes m u =
      stream_reads-recorded dropped calls bytes (record_read ops d bytes m)
      ∙ ap (λ n. record_read ops d n m) (omega arith)
  stream_reads-running dropped ((d, ok (b ∷ buffer)) ∷ calls) bytes m u =
      ap (λ t. (stream_record_once ops dropped (stream_reads calls t)).1)
        (stream_read_some ops E d b buffer bytes false m
          ∙ ap (λ n. (record { bytes = n; recorded = false }, m))
              (wrap_lem (bytes + length (b ∷ buffer)) (omega arith)))
      ∙ stream_reads-running dropped calls (bytes + length (b ∷ buffer)) m (omega arith)
      ∙ ap (λ n. record_read ops (stream_total dropped calls).0 n m) (omega arith)
  stream_reads-running dropped ((d, err _) ∷ calls) bytes m u =
      stream_reads-recorded dropped calls bytes (record_read ops d bytes m)
      ∙ ap (λ n. record_read ops d n m) (omega arith)
  stream_reads-running dropped ((_, panic) ∷ calls) bytes m u =
      stream_reads-running dropped calls bytes m u

  -- Whatever is read of a new stream, once it is dropped exactly one read has been recorded, with the
  -- bytes that came before the end of the stream or the first error and the time of that read, as long
  -- as the number of bytes fits a u64.
  pub stream_recorded_once :
      (dropped : ops.Duration) (calls : List (ops.Duration × Result E Bytes)) (m : IoMetrics ops)
      → IsU64 (stream_total dropped calls).1
      → (stream_record_once ops dropped (stream_reads calls (new_transfer, m))).1
        ≡ record_read ops (stream_total dropped calls).0 (stream_total dropped calls).1 m
  stream_recorded_once dropped calls m u =
      stream_reads-running dropped calls 0 m (omega arith)
      ∙ ap (λ n. record_read ops (stream_total dropped calls).0 n m) (omega arith)
