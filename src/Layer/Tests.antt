-- ===== src/Layer/Tests.antt =====
-- A layer that is started and given two tasks, by concrete steps.
use emane.Base.{ℕ, refl, [], ◌∷◌, ◌++◌}
use emane.Layer.{
  QueuedTask, upstream_packet, event, running, waiting, System, fresh, start, enqueue, is_running,
  starts, enqueues, writes_event, Reach, initially, step,
}
use emane.Layer.Order.{IsInOrder, in_hand, Reach-IsInOrder}
use emane.Layer.Drain.{IsDrained, Reach-drains}

abbrev first_task : QueuedTask ℕ
first_task = record { operation = 10; enqueued = 5; kind = upstream_packet }

abbrev second_task : QueuedTask ℕ
second_task = record { operation = 20; enqueued = 6; kind = event 100 }

abbrev started : System ℕ
started = record fresh { layer = record fresh.layer { lifecycle = running; worker = waiting } }

abbrev one_queued : System ℕ
one_queued = record started {
  layer = record started.layer { queue = first_task ∷ []; writes = 1 };
  accepted = first_task ∷ [];
}

abbrev two_queued : System ℕ
two_queued = record started {
  layer = record started.layer { queue = first_task ∷ second_task ∷ []; writes = 2 };
  accepted = first_task ∷ second_task ∷ [];
}

abbrev two_written : System ℕ
two_written = record two_queued { layer = record two_queued.layer { wakeups = 2; writes = 0 } }

abbrev one_written : System ℕ
one_written = record two_queued { layer = record two_queued.layer { wakeups = 1; writes = 1 } }

two_written-Reach : Reach two_written
unfolding start enqueue is_running
two_written-Reach =
    step one_written two_written
      (step two_queued one_written
        (step one_queued two_queued
          (step started one_queued (step fresh started initially (starts fresh refl))
            (enqueues started first_task one_queued.layer refl))
          (enqueues one_queued second_task two_queued.layer refl))
        (writes_event two_queued refl))
      (writes_event one_written refl)

Reach-IsInOrder_example : IsInOrder two_written
Reach-IsInOrder_example = Reach-IsInOrder two_written two_written-Reach

Reach-drains_example :
    (t : System ℕ) × IsDrained two_written
      (in_hand two_written.layer.worker ++ two_written.layer.queue)
      t
unfolding is_running
Reach-drains_example = Reach-drains two_written two_written-Reach refl refl
