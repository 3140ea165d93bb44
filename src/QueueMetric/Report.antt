-- ===== src/QueueMetric/Report.antt =====
-- What a report says of the samples since the last one.
use emane.Base.{
  ℕ, ◌+◌, ◌/◌, ◌<◌, ◌≡◌, refl, max, Option, none, some, List, [], ◌∷◌, length, if◌then◌else◌, arith,
  ◌==◌,
}
use emane.Base.Dict
use emane.Base.Dict.{Dict, nat_eq, lookup-insert_self}
use emane.QueueMetric.{
  u32_mod, u64_mod, R2riQueueMetric, QueueData, new_data, reset, QueueMetricManager, Sample,
  update_data, update_queue_metric, metric, get_queue_metrics,
}

-- The samples of one queue, in their order.
unfoldable pub updates : QueueMetricManager → ℕ → List Sample → QueueMetricManager
updates m queue_id [] = m
updates m queue_id (s ∷ ss) = updates (update_queue_metric m queue_id s) queue_id ss

unfoldable pub max_depth : List Sample → ℕ
max_depth [] = 0
max_depth (s ∷ ss) = max s.current_queue_depth (max_depth ss)

unfoldable pub max_discards : List Sample → ℕ
max_discards [] = 0
max_discards (s ∷ ss) = max s.num_discards (max_discards ss)

unfoldable pub sum_delays : List Sample → ℕ
sum_delays [] = 0
sum_delays (s ∷ ss) = s.delay_microseconds + sum_delays ss

-- All samples give the same maximum size.
abbrev pub HaveSize : ℕ → List Sample → Type 0
HaveSize size [] = Unit {0}
HaveSize size (s ∷ ss) = (s.max_queue_size ≡ size) × HaveSize size ss

unfoldable pub updates_data : QueueData → List Sample → QueueData
updates_data d [] = d
updates_data d (s ∷ ss) = updates_data (update_data d s) ss

lookup-updates :
    (m : QueueMetricManager) (queue_id : ℕ) (d : QueueData) (ss : List Sample)
    → Dict.lookup queue_id m ≡ some d
    → Dict.lookup queue_id (updates m queue_id ss) ≡ some (updates_data d ss)
unfolding updates updates_data update_queue_metric
lookup-updates m queue_id d [] e = e
lookup-updates m queue_id d (s ∷ ss) e =
    lookup-updates (update_queue_metric m queue_id s) queue_id (update_data d s) ss
      (rw (e, update_queue_metric, lookup-insert_self) refl)

updates_data_lem :
    (d : QueueData) (ss : List Sample)
    → HaveSize d.max_queue_size ss
    → d.num_samples + length ss < u32_mod
    → d.sum_delay_microseconds + sum_delays ss < u64_mod
    → updates_data d ss ≡ record {
      max_queue_size = d.max_queue_size;
      queue_high_water_mark = max d.queue_high_water_mark (max_depth ss);
      num_samples = d.num_samples + length ss;
      num_discards_high_water_mark = max d.num_discards_high_water_mark (max_discards ss);
      sum_delay_microseconds = d.sum_delay_microseconds + sum_delays ss;
    }
unfolding updates_data update_data max_depth max_discards sum_delays
updates_data_lem d [] h n u = ground arith
updates_data_lem d (s ∷ ss) h n u = ground (arith, updates_data_lem (update_data d s) ss)

unfoldable pub find_metric : ℕ → List R2riQueueMetric → Option R2riQueueMetric
find_metric queue_id [] = none
find_metric queue_id (r ∷ rs) =
    let rest = find_metric queue_id rs in if r.queue_id == queue_id then some r else rest

get_queue_metrics_lem :
    (m : QueueMetricManager) (queue_id : ℕ) (d : QueueData)
    → Dict.lookup queue_id m ≡ some d
    → (Dict.lookup queue_id (get_queue_metrics m).0 ≡ some (reset d))
      × (find_metric queue_id (get_queue_metrics m).1 ≡ some (metric queue_id d))
unfolding get_queue_metrics find_metric metric Dict.lookup
get_queue_metrics_lem [] queue_id d e = ground arith
get_queue_metrics_lem ((i, x) ∷ m) queue_id d e = ground (arith, get_queue_metrics_lem m queue_id d)

-- A queue that was just reported, or just added, then gets one or more samples of its size, with counts
-- and sums in range: the next report has its size, the greatest depth and number of discards among
-- them, and the mean delay, rounded down, and sets all of it back.
pub report_samples :
    (m : QueueMetricManager) (queue_id size : ℕ) (ss : List Sample)
    → Dict.lookup queue_id m ≡ some (new_data size)
    → HaveSize size ss
    → 0 < length ss
    → length ss < u32_mod
    → sum_delays ss < u64_mod
    → let (m', metrics) = get_queue_metrics (updates m queue_id ss) in
      (Dict.lookup queue_id m' ≡ some (new_data size))
      × (find_metric queue_id metrics
          ≡ some (record {
            queue_id = queue_id;
            queue_max_size = size;
            queue_current_depth_high_water = max_depth ss;
            num_discards_high_water = max_discards ss;
            avg_delay_microseconds = sum_delays ss / length ss;
          }))
unfolding reset metric
report_samples m queue_id size ss e h pos n u = ground (
  arith,
  get_queue_metrics_lem (updates m queue_id ss) queue_id (updates_data (new_data size) ss)
      (lookup-updates m queue_id (new_data size) ss e),
  updates_data_lem (new_data size) ss,
)
