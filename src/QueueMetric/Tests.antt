-- ===== src/QueueMetric/Tests.antt =====
-- Runs of the queue metrics at concrete inputs.
use emane.Base.{ℕ, ◌≡◌, refl, some, [], ◌∷◌, arith}
use emane.Base.Dict
use emane.Base.Dict.{nat_eq}
use emane.QueueMetric.{QueueMetricManager, new_data, Sample, get_queue_metrics}
use emane.QueueMetric.Report.{
  updates, max_depth, max_discards, sum_delays, find_metric, report_samples,
}

abbrev manager : QueueMetricManager
manager = (1, new_data 5) ∷ (3, new_data 8) ∷ []

abbrev sample : ℕ → ℕ → ℕ → Sample
sample depth discards delay = record {
  max_queue_size = 8;
  current_queue_depth = depth;
  num_discards = discards;
  delay_microseconds = delay;
}

report_samples_example :
    find_metric 3 (get_queue_metrics (updates manager 3 (sample 2 1 10 ∷ sample 7 0 15 ∷ []))).1
    ≡ some (record {
      queue_id = 3;
      queue_max_size = 8;
      queue_current_depth_high_water = 7;
      num_discards_high_water = 1;
      avg_delay_microseconds = 12;
    })
unfolding Dict.lookup max_depth max_discards sum_delays
report_samples_example =
    (report_samples manager 3 8 (sample 2 1 10 ∷ sample 7 0 15 ∷ []) refl (refl, (refl, tt))
      (omega arith) (omega arith) (omega arith)).1
