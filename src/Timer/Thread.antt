-- ===== src/Timer/Thread.antt =====
-- The timer thread together with the threads that schedule and cancel, which may run between rounds and
-- while a callback runs.
pub mod Sound
pub mod Cancelled
pub mod Order
use emane.Base.{
  ℕ, suc, ◌+◌, ◌≤◌, ◌<◌, ◌≡◌, ◌≢◌, ◌⊎◌, inl, inr, refl, Bool, true, false, Option, none, some, List,
  [], ◌∷◌, arith, Bool-cases, if◌then◌else◌, leb,
}
use emane.Timer.{
  word_mod, TimerEntry, TimerState, initial, is_before, push, is_member, without, schedule, cancel,
  Action, stops, waits, waits_for, frees, fires, round, after_callback,
}

pub data Phase : Type 0 where
  ready : Phase
  calling : TimerEntry → ℕ → Phase

pub record System : Type 0 where
  pub state : TimerState
  pub phase : Phase

abbrev pub next_phase : Action → Phase
next_phase stops = ready
next_phase waits = ready
next_phase (waits_for micros) = ready
next_phase (frees e) = ready
next_phase (fires e now) = calling e now

abbrev pub fired_by : Action → Option TimerEntry
fired_by stops = none
fired_by waits = none
fired_by (waits_for micros) = none
fired_by (frees e) = none
fired_by (fires e now) = some e

-- A step, with the timer that fires in it. The ids of 2 ^ 64 - 1 timers do not run out.
pub data Step : System → Option TimerEntry → System → Type 0 where
  schedules :
      (x : System) (now expire interval : ℕ) (has_free : Bool)
      → x.state.next_event_id + 1 < word_mod
      → Step x none (record x { state = (schedule x.state now expire interval has_free).0 })
  cancels : (x : System) (id : ℕ) → Step x none (record x { state = (cancel x.state id).0 })
  rounds :
      (s : TimerState) (now : ℕ)
      → Step
          (record { state = s; phase = ready })
          (fired_by (round s now).1)
          (record { state = (round s now).0; phase = next_phase (round s now).1 })
  returns :
      (s : TimerState) (e : TimerEntry) (now : ℕ)
      → Step
          (record { state = s; phase = calling e now })
          none
          (record { state = (after_callback s e now).0; phase = ready })

-- A sequence of steps.
pub data Steps : System → List TimerEntry → System → Type 0 where
  done : {x : System} → Steps x [] x
  quiet :
      {x y z : System} {fired : List TimerEntry} → Step x none y → Steps y fired z → Steps x fired z
  fire :
      {x y z : System} {fired : List TimerEntry} (e : TimerEntry)
      → Step x (some e) y
      → Steps y fired z
      → Steps x (e ∷ fired) z

abbrev pub start : System
start = record { state = initial; phase = ready }

-- No entry has the id.
unfoldable pub IsAbsent : ℕ → List TimerEntry → Type 0
IsAbsent id [] = Unit {0}
IsAbsent id (e ∷ es) = (e.event_id ≢ id) × IsAbsent id es

unfoldable pub AreDistinct : List TimerEntry → Type 0
AreDistinct [] = Unit {0}
AreDistinct (e ∷ es) = IsAbsent e.event_id es × AreDistinct es

unfoldable pub AreBelow : ℕ → List TimerEntry → Type 0
AreBelow n [] = Unit {0}
AreBelow n (e ∷ es) = (e.event_id < n) × AreBelow n es

-- The timer whose callback runs is not in the heap.
abbrev pub IsApart : Phase → TimerState → Type 0
IsApart ready s = Unit {0}
IsApart (calling e now) s = (e.event_id < s.next_event_id) × IsAbsent e.event_id s.timers

pub record IsSound (x : System) : Type 0 where
  pub distinct : AreDistinct x.state.timers
  pub below : AreBelow x.state.next_event_id x.state.timers
  pub apart : IsApart x.phase x.state

push-IsAbsent :
    (id : ℕ) (e : TimerEntry) (es : List TimerEntry)
    → e.event_id ≢ id
    → IsAbsent id es
    → IsAbsent id (push e es)
unfolding push IsAbsent
push-IsAbsent id e [] h a = (h, tt)
push-IsAbsent id e (t ∷ ts) h a = ground (arith, push-IsAbsent id e ts)

push-AreDistinct :
    (e : TimerEntry) (es : List TimerEntry)
    → IsAbsent e.event_id es
    → AreDistinct es
    → AreDistinct (push e es)
unfolding push IsAbsent AreDistinct
push-AreDistinct e [] a d = (tt, tt)
push-AreDistinct e (t ∷ ts) a d =
    ground (arith, push-AreDistinct e ts, push-IsAbsent t.event_id e ts)

push-AreBelow :
    (n : ℕ) (e : TimerEntry) (es : List TimerEntry)
    → e.event_id < n
    → AreBelow n es
    → AreBelow n (push e es)
unfolding push AreBelow
push-AreBelow n e [] h b = (h, tt)
push-AreBelow n e (t ∷ ts) h b = ground (arith, push-AreBelow n e ts)

AreBelow-IsAbsent : (n : ℕ) (es : List TimerEntry) → AreBelow n es → IsAbsent n es
unfolding AreBelow IsAbsent
AreBelow-IsAbsent n [] b = tt
AreBelow-IsAbsent n (e ∷ es) b = ground (arith, AreBelow-IsAbsent n es)

AreBelow-suc : (n : ℕ) (es : List TimerEntry) → AreBelow n es → AreBelow (n + 1) es
unfolding AreBelow
AreBelow-suc n [] b = tt
AreBelow-suc n (e ∷ es) b = ground (arith, AreBelow-suc n es)
