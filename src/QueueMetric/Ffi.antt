-- ===== src/QueueMetric/Ffi.antt =====
-- The C interface of rust/emane-core/src/queue_metric_manager.rs: a null pointer is `none`. The list
-- stands for the array and its length.
use emane.Base.{ℕ, Bool, false, Option, none, some, List, []}
use emane.QueueMetric.{
  R2riQueueMetric, QueueMetricManager, Sample, update_queue_metric, get_queue_metrics,
  add_queue_metric, remove_queue_metric,
}

abbrev pub Pointer : Type 0
Pointer = Option QueueMetricManager

unfoldable pub ffi_update : Pointer → ℕ → Sample → Pointer
ffi_update none queue_id s = none
ffi_update (some m) queue_id s = some (update_queue_metric m queue_id s)

unfoldable pub ffi_get : Pointer → Pointer × List R2riQueueMetric
ffi_get none = (none, [])
ffi_get (some m) = let (m', metrics) = get_queue_metrics m in (some m', metrics)

unfoldable pub ffi_add : Pointer → ℕ → ℕ → Pointer × Bool
ffi_add none queue_id max_queue_size = (none, false)
ffi_add (some m) queue_id max_queue_size =
    let (m', added) = add_queue_metric m queue_id max_queue_size in (some m', added)

unfoldable pub ffi_remove : Pointer → ℕ → Pointer × Bool
ffi_remove none queue_id = (none, false)
ffi_remove (some m) queue_id =
    let (m', removed) = remove_queue_metric m queue_id in (some m', removed)
