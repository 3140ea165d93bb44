-- ===== src/Timer/Tests.antt =====
-- Runs of the timer service at concrete inputs.
use emane.Base.{refl, true, false, [], ◌∷◌, arith}
use emane.Timer.{
  TimerEntry, TimerState, initial, push, is_before, is_member, without, schedule, cancel, round,
  next_timer, new_entry, fires_again, after_callback,
}
use emane.Timer.Thread.{
  ready, calling, System, schedules, rounds, returns, Steps, done, quiet, fire, start,
}
use emane.Timer.Thread.Order.{AreLater, fires-earliest}
use emane.Timer.Thread.Cancelled.{AreOthers, cancelled-AreOthers}

-- A timer that fires every 5 microseconds from 10 on, and one that fires once at 20.
abbrev every_five : TimerEntry
every_five = new_entry initial 0 10 5 true

abbrev once : TimerEntry
once = record every_five {
  event_id = 2;
  expire_time_micros = 20;
  schedule_time_micros = 1;
  interval_micros = 0;
}

abbrev both : TimerState
both = record {
  timers = every_five ∷ once ∷ [];
  cancelled = [];
  next_event_id = 3;
  shutdown = false;
}

-- The callback of the first runs, and it is cancelled meanwhile.
abbrev first_runs : System
first_runs = record { state = record both { timers = once ∷ [] }; phase = calling every_five 10 }

before_cancel : Steps start (every_five ∷ []) first_runs
unfolding schedule push is_before round next_timer is_member
before_cancel = quiet (schedules start 0 10 5 true (omega arith)) (
    quiet
      (schedules
        (record start { state = record initial { timers = every_five ∷ []; next_event_id = 2 } }) 1
        20 0 true (omega arith))
      (fire every_five (rounds both 10) done))

abbrev at_the_end : System
at_the_end = record { state = record both { timers = [] }; phase = calling once 30 }

after_cancel :
    Steps
      (record first_runs { state = record first_runs.state { cancelled = 1 ∷ [] } })
      (once ∷ [])
      at_the_end
unfolding after_callback fires_again round next_timer is_member without push
after_cancel =
    quiet (returns (record first_runs.state { cancelled = 1 ∷ [] }) every_five 10)
      (fire once (rounds (record both { timers = once ∷ [] }) 30) done)

cancelled-AreOthers_example : AreOthers 1 (once ∷ [])
unfolding cancel is_member
cancelled-AreOthers_example =
    cancelled-AreOthers 1 first_runs at_the_end (every_five ∷ []) (once ∷ []) before_cancel
      (omega arith) after_cancel

before_round : Steps start [] (record { state = both; phase = ready })
unfolding schedule push is_before
before_round = quiet (schedules start 0 10 5 true (omega arith)) (
    quiet
      (schedules
        (record start { state = record initial { timers = every_five ∷ []; next_event_id = 2 } }) 1
        20 0 true (omega arith))
      done)

fires-earliest_example : AreLater 10 (once ∷ [])
unfolding round next_timer is_member
fires-earliest_example = (fires-earliest both 12 12 [] every_five before_round refl).3
