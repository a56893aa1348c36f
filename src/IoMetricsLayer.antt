-- ===== src/IoMetricsLayer.antt =====
-- rust/src/opendal_io_metrics_layer.rs: the layer that counts the requests of an OpenDAL service. The
-- service below it is a parameter: an operation takes the result of the inner call, and the time that
-- passed since its start. An inner call that panics is not counted before the value is dropped.
pub mod Once
use duckdb_object_storage.Common.{
  ℕ, ◌+◌, Bool, true, false, not, Option, none, some, List, [], ◌∷◌, ◌==◌, if◌then◌else◌, length,
  wrap,
}
use duckdb_object_storage.Error.{Result, ok, err, panic}
use duckdb_object_storage.Keys.{Bytes}
use duckdb_object_storage.IoMetrics.{
  FloatOps, IoMetrics, record_read, record_write, record_stat, record_delete, record_list,
}

-- `IoMetricsReadStream` and `IoMetricsWriter`, less the inner value, the metrics and the start.
pub record Transfer : Type 0 where
  pub bytes : ℕ
  pub recorded : Bool

-- `IoMetricsDeleter` and `IoMetricsLister`, less the same.
pub record Request : Type 0 where
  pub recorded : Bool

abbrev pub new_transfer : Transfer
new_transfer = record { bytes = 0; recorded = false }

abbrev pub new_request : Request
new_request = record { recorded = false }

module _ (ops : FloatOps) where
  -- An operation that only delegates leaves the metrics as they are.
  abbrev pub Metered {ℓ} : Type ℓ → Type ℓ
  Metered A = A × IoMetrics ops

  -- `IoMetricsReadStream::record_once`, which its `drop` calls.
  unfoldable pub stream_record_once :
      ops.Duration → Transfer × IoMetrics ops → Transfer × IoMetrics ops
  stream_record_once elapsed (t, m) =
      if not t.recorded
      then (record t { recorded = true }, record_read ops elapsed t.bytes m)
      else (t, m)

  -- `IoMetricsWriter::record_once`, which its `drop` calls.
  unfoldable pub writer_record_once :
      ops.Duration → Transfer × IoMetrics ops → Transfer × IoMetrics ops
  writer_record_once elapsed (t, m) =
      if not t.recorded
      then (record t { recorded = true }, record_write ops elapsed t.bytes m)
      else (t, m)

  -- `IoMetricsDeleter::record_once`, which its `drop` calls.
  unfoldable pub deleter_record_once :
      ops.Duration → Request × IoMetrics ops → Request × IoMetrics ops
  deleter_record_once elapsed (r, m) =
      if not r.recorded then (record { recorded = true }, record_delete ops elapsed m) else (r, m)

  -- `IoMetricsLister::record_once`, which its `drop` calls.
  unfoldable pub lister_record_once :
      ops.Duration → Request × IoMetrics ops → Request × IoMetrics ops
  lister_record_once elapsed (r, m) =
      if not r.recorded then (record { recorded = true }, record_list ops elapsed m) else (r, m)

module _ (ops : FloatOps) {E : Type 0} where
  unfoldable pub create_dir {ℓ} :
      {A : Type ℓ} → Result E A → IoMetrics ops → Metered ops (Result E A)
  create_dir result m = (result, m)

  unfoldable pub copy {ℓ} : {A : Type ℓ} → Result E A → IoMetrics ops → Metered ops (Result E A)
  copy result m = (result, m)

  unfoldable pub compose {ℓ} : {A : Type ℓ} → Result E A → IoMetrics ops → Metered ops (Result E A)
  compose result m = (result, m)

  unfoldable pub rename {ℓ} : {A : Type ℓ} → Result E A → IoMetrics ops → Metered ops (Result E A)
  rename result m = (result, m)

  unfoldable pub restore {ℓ} : {A : Type ℓ} → Result E A → IoMetrics ops → Metered ops (Result E A)
  restore result m = (result, m)

  unfoldable pub presign {ℓ} : {A : Type ℓ} → Result E A → IoMetrics ops → Metered ops (Result E A)
  presign result m = (result, m)

  unfoldable pub stat {ℓ} :
      {A : Type ℓ} → ops.Duration → Result E A → IoMetrics ops → Metered ops (Result E A)
  stat elapsed (ok response) m = (ok response, record_stat ops elapsed m)
  stat elapsed (err e) m = (err e, record_stat ops elapsed m)
  stat elapsed panic m = (panic, m)

  -- `read`, which gives a reader that is not counted itself.
  unfoldable pub read {ℓ} :
      {A : Type ℓ} → ops.Duration → Result E A → IoMetrics ops → Metered ops (Result E A)
  read elapsed (ok inner) m = (ok inner, m)
  read elapsed (err e) m = (err e, record_read ops elapsed 0 m)
  read elapsed panic m = (panic, m)

  unfoldable pub write {ℓ} :
      {A : Type ℓ}
      → ops.Duration
      → Result E A
      → IoMetrics ops
      → Metered ops (Result E (A × Transfer))
  write elapsed (ok inner) m = (ok (inner, new_transfer), m)
  write elapsed (err e) m = (err e, record_write ops elapsed 0 m)
  write elapsed panic m = (panic, m)

  unfoldable pub delete {ℓ} :
      {A : Type ℓ}
      → ops.Duration
      → Result E A
      → IoMetrics ops
      → Metered ops (Result E (A × Request))
  delete elapsed (ok inner) m = (ok (inner, new_request), m)
  delete elapsed (err e) m = (err e, record_delete ops elapsed m)
  delete elapsed panic m = (panic, m)

  unfoldable pub list {ℓ} :
      {A : Type ℓ}
      → ops.Duration
      → Result E A
      → IoMetrics ops
      → Metered ops (Result E (A × Request))
  list elapsed (ok inner) m = (ok (inner, new_request), m)
  list elapsed (err e) m = (err e, record_list ops elapsed m)
  list elapsed panic m = (panic, m)

  -- `IoMetricsReader::open`
  unfoldable pub reader_open {ℓ} :
      {A : Type ℓ}
      → ops.Duration
      → Result E A
      → IoMetrics ops
      → Metered ops (Result E (A × Transfer))
  reader_open elapsed (ok stream) m = (ok (stream, new_transfer), m)
  reader_open elapsed (err e) m = (err e, record_read ops elapsed 0 m)
  reader_open elapsed panic m = (panic, m)

  -- `IoMetricsReader::read`
  unfoldable pub reader_read :
      ops.Duration → Result E Bytes → IoMetrics ops → Metered ops (Result E Bytes)
  reader_read elapsed (ok buffer) m = (ok buffer, record_read ops elapsed (length buffer) m)
  reader_read elapsed (err e) m = (err e, record_read ops elapsed 0 m)
  reader_read elapsed panic m = (panic, m)

  -- `IoMetricsReadStream::read`
  unfoldable pub stream_read :
      ops.Duration → Result E Bytes → Transfer × IoMetrics ops → Transfer × IoMetrics ops
  stream_read elapsed (ok buffer) (t, m) =
      if not (length buffer == 0)
      then (record t { bytes = wrap (t.bytes + length buffer) }, m)
      else stream_record_once ops elapsed (t, m)
  stream_read elapsed (err e) (t, m) = stream_record_once ops elapsed (t, m)
  stream_read elapsed panic (t, m) = (t, m)

  -- `IoMetricsWriter::write` of a buffer of some length.
  unfoldable pub writer_write :
      ℕ → Result E (Unit {0}) → Transfer × IoMetrics ops → Transfer × IoMetrics ops
  writer_write len (ok _) (t, m) = (record t { bytes = wrap (t.bytes + len) }, m)
  writer_write len (err e) (t, m) = (t, m)
  writer_write len panic (t, m) = (t, m)

  -- `IoMetricsWriter::close` and `abort`; a panic in the inner call leaves the recording to `drop`.
  unfoldable pub writer_close {ℓ} :
      {A : Type ℓ} → ops.Duration → Result E A → Transfer × IoMetrics ops → Transfer × IoMetrics ops
  writer_close elapsed (ok _) w = writer_record_once ops elapsed w
  writer_close elapsed (err e) w = writer_record_once ops elapsed w
  writer_close elapsed panic w = w

  unfoldable pub writer_abort :
      ops.Duration → Result E (Unit {0}) → Transfer × IoMetrics ops → Transfer × IoMetrics ops
  writer_abort elapsed (ok _) w = writer_record_once ops elapsed w
  writer_abort elapsed (err e) w = writer_record_once ops elapsed w
  writer_abort elapsed panic w = w

  -- `IoMetricsWriter::copy_from`, which only delegates: the bytes that it copies are not counted.
  unfoldable pub writer_copy_from :
      Result E (Unit {0}) → Transfer × IoMetrics ops → Transfer × IoMetrics ops
  writer_copy_from result w = w

  -- `IoMetricsDeleter::close`
  unfoldable pub deleter_close :
      ops.Duration → Result E (Unit {0}) → Request × IoMetrics ops → Request × IoMetrics ops
  deleter_close elapsed (ok _) d = deleter_record_once ops elapsed d
  deleter_close elapsed (err e) d = deleter_record_once ops elapsed d
  deleter_close elapsed panic d = d

  -- `IoMetricsLister::next`: the end of the listing and an error are recorded.
  unfoldable pub lister_next {ℓ} :
      {A : Type ℓ}
      → ops.Duration
      → Result E (Option A)
      → Request × IoMetrics ops
      → Request × IoMetrics ops
  lister_next elapsed (ok (some entry)) l = l
  lister_next elapsed (ok none) l = lister_record_once ops elapsed l
  lister_next elapsed (err e) l = lister_record_once ops elapsed l
  lister_next elapsed panic l = l
