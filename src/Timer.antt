-- ===== src/Timer.antt =====
-- rust/emane-core/src/timer_service.rs. The binary heap is a list, kept in the order in which the heap
-- gives its entries out: by expiration, then by id. Times are microseconds.
pub mod Thread
mod Tests
use emane.Base.{
  ℕ, ◌+◌, ◌-◌, ◌%◌, Bool, true, false, not, ◌&&◌, ◌||◌, Option, none, some, List, [], ◌∷◌, ltb, leb,
  ◌==◌, if◌then◌else◌,
}

abbrev pub word_mod : ℕ
word_mod = 18446744073709551616

-- The argument, the user and the callback of a timer are only passed on.
pub record TimerEntry : Type 0 where
  pub event_id : ℕ
  pub expire_time_micros : ℕ
  pub schedule_time_micros : ℕ
  pub interval_micros : ℕ
  pub has_free_callback : Bool

pub record TimerState : Type 0 where
  pub timers : List TimerEntry
  pub cancelled : List ℕ
  pub next_event_id : ℕ
  pub shutdown : Bool

abbrev pub initial : TimerState
initial = record { timers = []; cancelled = []; next_event_id = 1; shutdown = false }

-- `Ord` of the entries, reversed: the first comes out of the heap before the second.
unfoldable pub is_before : TimerEntry → TimerEntry → Bool
is_before a b =
    ltb a.expire_time_micros b.expire_time_micros
    || ((a.expire_time_micros == b.expire_time_micros) && ltb a.event_id b.event_id)

unfoldable pub push : TimerEntry → List TimerEntry → List TimerEntry
push e [] = e ∷ []
push e (t ∷ ts) = if is_before e t then e ∷ t ∷ ts else t ∷ push e ts

unfoldable pub is_member : ℕ → List ℕ → Bool
is_member i [] = false
is_member i (j ∷ js) = (j == i) || is_member i js

unfoldable pub without : ℕ → List ℕ → List ℕ
without i [] = []
without i (j ∷ js) = if j == i then without i js else j ∷ without i js

abbrev pub new_entry : TimerState → ℕ → ℕ → ℕ → Bool → TimerEntry
new_entry s now expire interval has_free = record {
  event_id = s.next_event_id;
  expire_time_micros = expire;
  schedule_time_micros = now;
  interval_micros = interval;
  has_free_callback = has_free;
}

-- Whether the new timer is earlier than all others.
abbrev pub wakes : ℕ → List TimerEntry → Bool
wakes expire [] = true
wakes expire (t ∷ ts) = ltb expire t.expire_time_micros

-- The result is the id, and whether the thread is woken.
unfoldable pub schedule : TimerState → ℕ → ℕ → ℕ → Bool → TimerState × (ℕ × Bool)
unfolding push
schedule s now expire interval has_free = (
  record s {
    timers = push (new_entry s now expire interval has_free) s.timers;
    next_event_id = (s.next_event_id + 1) % word_mod;
  },
  (s.next_event_id, wakes expire s.timers),
)

unfoldable pub cancel : TimerState → ℕ → TimerState × Bool
unfolding is_member
cancel s id = (
  record s { cancelled = (if is_member id s.cancelled then s.cancelled else id ∷ s.cancelled) },
  true,
)

-- What the thread does next: the lock is free while it waits, and while a callback runs.
pub data Action : Type 0 where
  stops waits : Action
  waits_for : (micros : ℕ) → Action
  frees : TimerEntry → Action
  fires : TimerEntry → ℕ → Action

-- The earliest timer is freed, fired or waited for.
unfoldable pub next_timer : TimerState → ℕ → List TimerEntry → TimerState × Action
unfolding is_member without
next_timer s now [] = (s, waits)
next_timer s now (top ∷ rest) =
    if is_member top.event_id s.cancelled
    then (record s { timers = rest; cancelled = without top.event_id s.cancelled }, frees top)
    else (if leb top.expire_time_micros now
        then (record s { timers = rest }, fires top now)
        else (s, waits_for (top.expire_time_micros - now)))

-- One round of the thread's loop, up to a callback.
unfoldable pub round : TimerState → ℕ → TimerState × Action
unfolding next_timer
round s now = if s.shutdown then (s, stops) else next_timer s now s.timers

-- The entry as it goes back into the heap.
abbrev pub rescheduled : TimerEntry → ℕ → TimerEntry
rescheduled top now = record top {
  schedule_time_micros = now;
  expire_time_micros = (now + top.interval_micros) % word_mod;
}

unfoldable pub fires_again : TimerState → TimerEntry → Bool
unfolding is_member
fires_again s top = ltb 0 top.interval_micros && not (is_member top.event_id s.cancelled)

-- After the callback of a timer that fired at `now`: the result is the entry that is freed, if any.
unfoldable pub after_callback : TimerState → TimerEntry → ℕ → TimerState × Option TimerEntry
unfolding fires_again push without
after_callback s top now =
    if fires_again s top
    then (record s { timers = push (rescheduled top now) s.timers }, none)
    else (record s { cancelled = without top.event_id s.cancelled }, some top)
