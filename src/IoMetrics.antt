-- ===== src/IoMetrics.antt =====
-- rust/src/io_metrics.rs: the running statistics of the requests to the object store. Floating-point
-- numbers and durations are a parameter; the lock of each counter is not modelled, since every
-- function holds it for one step only.
pub mod Counts
use duckdb_object_storage.Common.{ℕ, ◌+◌, Bool, ◌==◌, if◌then◌else◌, wrap}

-- `f64` and `Duration`, as far as the source computes with them.
pub record FloatOps : Type 1 where
  pub Float : Type 0
  pub Duration : Type 0
  pub zero_float : Float
  pub add_float : Float → Float → Float
  pub sub_float : Float → Float → Float
  pub mul_float : Float → Float → Float
  pub div_float : Float → Float → Float
  pub max_float : Float → Float → Float
  pub sqrt_float : Float → Float
  pub from_u64 : ℕ → Float
  pub as_secs_f64 : Duration → Float
  pub from_secs_f64 : Float → Duration

module _ (ops : FloatOps) where
  pub record IoOperationStats : Type 0 where
    pub request_count : ℕ
    pub bytes : ℕ
    pub average_latency : ops.Duration
    pub stddev_latency : ops.Duration

  pub record IoStats : Type 0 where
    pub read_stats : IoOperationStats
    pub write_stats : IoOperationStats
    pub stat_stats : IoOperationStats
    pub delete_stats : IoOperationStats
    pub list_stats : IoOperationStats

  pub record RunningStats : Type 0 where
    pub count : ℕ
    pub bytes : ℕ
    pub mean : ops.Float
    pub squared_deviation_sum : ops.Float

  -- `RunningStats::default`
  abbrev pub no_requests : RunningStats
  no_requests = record {
    count = 0;
    bytes = 0;
    mean = ops.zero_float;
    squared_deviation_sum = ops.zero_float;
  }

  -- `RunningStats::record`
  unfoldable pub record_stats : ops.Duration → ℕ → RunningStats → RunningStats
  record_stats duration bytes s =
      let latency = ops.as_secs_f64 duration in
      let count = wrap (s.count + 1) in
      let delta = ops.sub_float latency s.mean in
      let mean = ops.add_float s.mean (ops.div_float delta (ops.from_u64 count)) in
      let delta_after_mean_update = ops.sub_float latency mean in
      record {
        count = count;
        bytes = wrap (s.bytes + bytes);
        mean = mean;
        squared_deviation_sum =
            ops.add_float s.squared_deviation_sum (ops.mul_float delta delta_after_mean_update);
      }

  unfoldable pub variance : RunningStats → ops.Float
  variance s =
      if s.count == 0
      then ops.zero_float
      else ops.max_float (ops.div_float s.squared_deviation_sum (ops.from_u64 s.count))
          ops.zero_float

  -- `RunningStats::snapshot`
  unfoldable pub snapshot_stats : RunningStats → IoOperationStats
  snapshot_stats s = record {
    request_count = s.count;
    bytes = s.bytes;
    average_latency = ops.from_secs_f64 s.mean;
    stddev_latency = ops.from_secs_f64 (ops.sqrt_float (variance s));
  }

  pub record IoMetrics : Type 0 where
    pub read : RunningStats
    pub write : RunningStats
    pub stat : RunningStats
    pub delete : RunningStats
    pub list : RunningStats

  -- `IoMetrics::snapshot`, which `io_stats` returns.
  unfoldable pub snapshot : IoMetrics → IoStats
  snapshot m = record {
    read_stats = snapshot_stats m.read;
    write_stats = snapshot_stats m.write;
    stat_stats = snapshot_stats m.stat;
    delete_stats = snapshot_stats m.delete;
    list_stats = snapshot_stats m.list;
  }

  unfoldable pub record_read : ops.Duration → ℕ → IoMetrics → IoMetrics
  record_read duration bytes m = record m { read = record_stats duration bytes m.read }

  unfoldable pub record_write : ops.Duration → ℕ → IoMetrics → IoMetrics
  record_write duration bytes m = record m { write = record_stats duration bytes m.write }

  unfoldable pub record_stat : ops.Duration → IoMetrics → IoMetrics
  record_stat duration m = record m { stat = record_stats duration 0 m.stat }

  unfoldable pub record_delete : ops.Duration → IoMetrics → IoMetrics
  record_delete duration m = record m { delete = record_stats duration 0 m.delete }

  unfoldable pub record_list : ops.Duration → IoMetrics → IoMetrics
  record_list duration m = record m { list = record_stats duration 0 m.list }
