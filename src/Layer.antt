-- ===== src/Layer.antt =====
-- nem_queued_layer.rs: the queue of a NEM layer, its worker thread, and `start`, `stop` and `enqueue`.
-- The threads are steps that interleave: what is done under a lock is one step, and the write to the
-- event descriptor after it is another. The holder of the lock of `thread` in `stop` is `stopping`.
-- A failing `epoll_wait`, and a task that panics or stops its own layer, are not modelled.
pub mod Order
pub mod Progress
pub mod Drain
mod Tests
use emane.Base.{
  ℕ, ◌+◌, ◌-◌, Bool, true, false, Option, none, some, List, [], ◌∷◌, ◌++◌, ◌==◌, ltb, if◌then◌else◌,
  ◌≡◌,
}

pub data QueueTaskKind : Type 0 where
  downstream_packet upstream_packet downstream_control upstream_control : QueueTaskKind
  configuration file_descriptor : QueueTaskKind
  event : ℕ → QueueTaskKind
  timed_event : ℕ → ℕ → ℕ → QueueTaskKind

pub record QueuedTask {ℓ} (O : Type ℓ) : Type ℓ where
  pub operation : O
  pub enqueued : ℕ
  pub kind : QueueTaskKind

pub data Lifecycle : Type 0 where
  created running stopped : Lifecycle

-- Where the worker thread is: none, in `epoll_wait`, after the read of the event descriptor, after
-- the swap of the queue, running the tasks it took, or returned and not yet joined.
pub data Worker {ℓ} (O : Type ℓ) : Type ℓ where
  absent waiting woken finished : Worker O
  swapped : List (QueuedTask O) → Worker O
  busy : List (QueuedTask O) → Worker O

-- `wakeups` is the value of the event descriptor, and `writes` counts the writes to it still to come.
pub record Layer {ℓ} (O : Type ℓ) : Type ℓ where
  pub queue : List (QueuedTask O)
  pub cancel : Bool
  pub lifecycle : Lifecycle
  pub worker : Worker O
  pub wakeups : ℕ
  pub writes : ℕ
  pub stopping : Bool

-- What became of a task.
pub data Outcome {ℓ} (O : Type ℓ) : Type ℓ where
  ran : QueuedTask O → Outcome O
  dropped : QueuedTask O → Outcome O

-- The layer, the tasks that `enqueue` accepted, in order, and what became of them, in order.
pub record System {ℓ} (O : Type ℓ) : Type ℓ where
  pub layer : Layer O
  pub accepted : List (QueuedTask O)
  pub settled : List (Outcome O)

module _ {ℓ} {O : Type ℓ} where
  abbrev pub new_layer : Layer O
  new_layer = record {
    queue = [];
    cancel = false;
    lifecycle = created;
    worker = absent;
    wakeups = 0;
    writes = 0;
    stopping = false;
  }

  abbrev pub fresh : System O
  fresh = record { layer = new_layer; accepted = []; settled = [] }

  unfoldable pub is_running : Layer O → Bool
  is_running l = elim l.lifecycle [ created ↦ false | running ↦ true | stopped ↦ false ]

  unfoldable pub accepts_direct_calls : Layer O → Bool
  accepts_direct_calls l = elim l.lifecycle [ created ↦ true | running ↦ false | stopped ↦ false ]

  -- Only where there is no worker: a thread that has returned is still there until it is joined.
  abbrev pub start_from : Worker O → Layer O → Layer O
  start_from absent l = record l { cancel = false; lifecycle = running; worker = waiting }
  start_from _ l = l

  unfoldable pub start : Layer O → Layer O
  start l = start_from l.worker l

  -- `stop` up to the join, and after it.
  unfoldable pub begin_stop : Layer O → Layer O
  begin_stop l = record l {
    cancel = true;
    lifecycle = stopped;
    stopping = true;
    writes = l.writes + 1;
  }

  -- Whether there is nothing to join, or the thread has returned.
  unfoldable pub is_joined : Worker O → Bool
  is_joined absent = true
  is_joined finished = true
  is_joined _ = false

  unfoldable pub end_stop : Layer O → Layer O
  end_stop l = record l { cancel = false; worker = absent; stopping = false }

  -- None gives the operation back.
  unfoldable pub enqueue : Layer O → QueuedTask O → Option (Layer O)
  unfolding is_running
  enqueue l task =
      if is_running l
      then some (record l { queue = l.queue ++ (task ∷ []); writes = l.writes + 1 })
      else none

  unfoldable pub all_ran : List (QueuedTask O) → List (Outcome O)
  all_ran [] = []
  all_ran (t ∷ ts) = ran t ∷ all_ran ts

  unfoldable pub all_dropped : List (QueuedTask O) → List (Outcome O)
  all_dropped [] = []
  all_dropped (t ∷ ts) = dropped t ∷ all_dropped ts

  abbrev pub at : System O → Worker O → System O
  at s w = record s { layer = record s.layer { worker = w } }

  -- One step of the worker from where it is; none where it waits, or is no more.
  abbrev pub work_from : Worker O → System O → Option (System O)
  work_from absent s = none
  work_from finished s = none
  work_from waiting s =
      if s.layer.wakeups == 0
      then none
      else some (record s { layer = record s.layer { worker = woken; wakeups = 0 } })
  work_from woken s =
      some (record s { layer = record s.layer { worker = swapped s.layer.queue; queue = [] } })
  work_from (swapped batch) s =
      if s.layer.cancel
      then some (record s {
        layer = record s.layer { worker = finished };
        settled = s.settled ++ all_dropped batch;
      })
      else some (at s (busy batch))
  work_from (busy []) s = some (at s waiting)
  work_from (busy (t ∷ batch)) s = some (record s {
    layer = record s.layer { worker = busy batch };
    settled = s.settled ++ (ran t ∷ []);
  })

  unfoldable pub work : System O → Option (System O)
  work s = work_from s.layer.worker s

  -- The steps of all threads. `start` and `stop` exclude each other.
  pub data Step : System O → System O → Type ℓ where
    starts : (s : System O) → s.layer.stopping ≡ false → Step s (record s { layer = start s.layer })
    begins_stop :
        (s : System O) → s.layer.stopping ≡ false → Step s (record s { layer = begin_stop s.layer })
    ends_stop :
        (s : System O)
        → s.layer.stopping ≡ true
        → is_joined s.layer.worker ≡ true
        → Step s (record s { layer = end_stop s.layer })
    enqueues :
        (s : System O) (task : QueuedTask O) (l : Layer O)
        → enqueue s.layer task ≡ some l
        → Step s (record s { layer = l; accepted = s.accepted ++ (task ∷ []) })
    writes_event :
        (s : System O)
        → ltb 0 s.layer.writes ≡ true
        → Step s (record s {
          layer = record s.layer { wakeups = s.layer.wakeups + 1; writes = s.layer.writes - 1 };
        })
    works : (s t : System O) → work s ≡ some t → Step s t

  pub data Reach : System O → Type ℓ where
    initially : Reach fresh
    step : (s t : System O) → Reach s → Step s t → Reach t
