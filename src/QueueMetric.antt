-- ===== src/QueueMetric.antt =====
-- rust/emane-core/src/queue_metric_manager.rs. Counters wrap around at their widths. `HashMap`'s order
-- of iteration is that of the entries of a `Dict`.
pub mod Ffi
pub mod Report
mod Tests
use emane.Base.{
  ℕ, ◌+◌, ◌/◌, ◌%◌, ◌==◌, Bool, true, false, not, Option, none, some, List, [], ◌∷◌, ltb, is_some,
  unwrap_or, if◌then◌else◌,
}
use emane.Base.Dict
use emane.Base.Dict.{Dict, nat_eq}

abbrev pub u32_mod : ℕ
u32_mod = 4294967296

abbrev pub u64_mod : ℕ
u64_mod = 18446744073709551616

pub record R2riQueueMetric : Type 0 where
  pub queue_id : ℕ
  pub queue_max_size : ℕ
  pub queue_current_depth_high_water : ℕ
  pub num_discards_high_water : ℕ
  pub avg_delay_microseconds : ℕ

pub record QueueData : Type 0 where
  pub max_queue_size : ℕ
  pub queue_high_water_mark : ℕ
  pub num_samples : ℕ
  pub num_discards_high_water_mark : ℕ
  pub sum_delay_microseconds : ℕ

abbrev pub new_data : ℕ → QueueData
new_data max_size = record {
  max_queue_size = max_size;
  queue_high_water_mark = 0;
  num_samples = 0;
  num_discards_high_water_mark = 0;
  sum_delay_microseconds = 0;
}

unfoldable pub reset : QueueData → QueueData
reset d = record d {
  num_discards_high_water_mark = 0;
  sum_delay_microseconds = 0;
  num_samples = 0;
  queue_high_water_mark = 0;
}

-- `queue_data_map`; the NEM id is never read.
abbrev pub QueueMetricManager : Type 0
QueueMetricManager = Dict ℕ QueueData

-- The arguments of an update.
pub record Sample : Type 0 where
  pub max_queue_size : ℕ
  pub current_queue_depth : ℕ
  pub num_discards : ℕ
  pub delay_microseconds : ℕ

unfoldable pub update_data : QueueData → Sample → QueueData
update_data d s =
    let sizes_differ = not (d.max_queue_size == s.max_queue_size) in
    let high_water = if sizes_differ then 0 else d.queue_high_water_mark in
    record {
      max_queue_size = s.max_queue_size;
      queue_high_water_mark =
          (if ltb high_water s.current_queue_depth then s.current_queue_depth else high_water);
      num_samples = (d.num_samples + 1) % u32_mod;
      num_discards_high_water_mark =
          (if ltb d.num_discards_high_water_mark s.num_discards
            then s.num_discards
            else d.num_discards_high_water_mark);
      sum_delay_microseconds = (d.sum_delay_microseconds + s.delay_microseconds) % u64_mod;
    }

unfoldable pub update_queue_metric : QueueMetricManager → ℕ → Sample → QueueMetricManager
unfolding update_data
update_queue_metric m queue_id s =
    Dict.insert queue_id (update_data (unwrap_or (Dict.lookup queue_id m) (new_data 0)) s) m

unfoldable pub metric : ℕ → QueueData → R2riQueueMetric
metric queue_id d = record {
  queue_id = queue_id;
  queue_max_size = d.max_queue_size;
  queue_current_depth_high_water = d.queue_high_water_mark;
  num_discards_high_water = d.num_discards_high_water_mark;
  avg_delay_microseconds =
      (if ltb 0 d.num_samples then d.sum_delay_microseconds / d.num_samples else 0);
}

unfoldable pub get_queue_metrics : QueueMetricManager → QueueMetricManager × List R2riQueueMetric
get_queue_metrics [] = ([], [])
get_queue_metrics ((queue_id, d) ∷ m) =
    let (m', metrics) = get_queue_metrics m in
    ((queue_id, reset d) ∷ m', metric queue_id d ∷ metrics)

unfoldable pub add_queue_metric : QueueMetricManager → ℕ → ℕ → QueueMetricManager × Bool
add_queue_metric m queue_id max_queue_size =
    if is_some (Dict.lookup queue_id m)
    then (m, false)
    else (Dict.insert queue_id (new_data max_queue_size) m, true)

unfoldable pub remove_queue_metric : QueueMetricManager → ℕ → QueueMetricManager × Bool
remove_queue_metric m queue_id = (Dict.remove queue_id m, is_some (Dict.lookup queue_id m))
