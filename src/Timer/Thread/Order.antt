-- ===== src/Timer/Thread/Order.antt =====
-- The order of the timers in the heap, and the round that fires one.
use emane.Base.{ℕ, ◌≤◌, ◌≡◌, refl, subst, false, Option, none, List, [], ◌∷◌, arith}
use emane.Timer.{
  TimerEntry, TimerState, push, is_before, is_member, schedule, cancel, Action, stops, waits,
  waits_for, frees, fires, round, new_entry, rescheduled,
}
use emane.Timer.Thread.{
  ready, System, fired_by, Step, schedules, cancels, rounds, returns, Steps, done, quiet, fire,
  start,
}
use emane.Timer.Thread.Sound.{round_cases, after_callback_cases}

-- No entry expires before the time.
unfoldable pub AreLater : ℕ → List TimerEntry → Type 0
AreLater time [] = Unit {0}
AreLater time (e ∷ es) = (time ≤ e.expire_time_micros) × AreLater time es

unfoldable pub IsOrdered : List TimerEntry → Type 0
IsOrdered [] = Unit {0}
IsOrdered (e ∷ es) = AreLater e.expire_time_micros es × IsOrdered es

AreLater-mono : (a b : ℕ) (es : List TimerEntry) → a ≤ b → AreLater b es → AreLater a es
unfolding AreLater
AreLater-mono a b [] h l = tt
AreLater-mono a b (e ∷ es) h l = ground (arith, AreLater-mono a b es)

push-AreLater :
    (time : ℕ) (e : TimerEntry) (es : List TimerEntry)
    → time ≤ e.expire_time_micros
    → AreLater time es
    → AreLater time (push e es)
unfolding AreLater push
push-AreLater time e [] h l = (h, tt)
push-AreLater time e (t ∷ ts) h l = ground (arith, push-AreLater time e ts)

push-IsOrdered : (e : TimerEntry) (es : List TimerEntry) → IsOrdered es → IsOrdered (push e es)
unfolding AreLater IsOrdered push is_before
push-IsOrdered e [] o = (tt, tt)
push-IsOrdered e (t ∷ ts) o = ground (
  arith,
  push-IsOrdered e ts,
  push-AreLater t.expire_time_micros e ts,
  AreLater-mono e.expire_time_micros t.expire_time_micros ts,
)

round-IsOrdered : (s : TimerState) (now : ℕ) → IsOrdered s.timers → IsOrdered (round s now).0.timers
unfolding IsOrdered
round-IsOrdered s now o =
    round_cases (λ r. IsOrdered r.0.timers) s now (λ a f p. o)
      (λ top rest e c. (subst IsOrdered e o).1) (λ top rest e c due. (subst IsOrdered e o).1)

Step-IsOrdered :
    {x y : System} {f : Option TimerEntry}
    → Step x f y
    → IsOrdered x.state.timers
    → IsOrdered y.state.timers
unfolding schedule cancel
Step-IsOrdered (schedules x now expire interval has_free bound) o =
    push-IsOrdered (new_entry x.state now expire interval has_free) x.state.timers o
Step-IsOrdered (cancels x id) o = o
Step-IsOrdered (rounds s now) o = round-IsOrdered s now o
Step-IsOrdered (returns s e now) o =
    after_callback_cases (λ r. IsOrdered r.0.timers) s e now
      (λ again. push-IsOrdered (rescheduled e now) s.timers o) o

Steps-IsOrdered :
    {x y : System} {fired : List TimerEntry}
    → Steps x fired y
    → IsOrdered x.state.timers
    → IsOrdered y.state.timers
Steps-IsOrdered done o = o
Steps-IsOrdered (quiet s r) o = Steps-IsOrdered r (Step-IsOrdered s o)
Steps-IsOrdered (fire e s r) o = Steps-IsOrdered r (Step-IsOrdered s o)

-- A timer that fires is due and not cancelled, and the timers that are left expire no earlier.
abbrev pub IsDue : TimerState → ℕ → List TimerEntry → Action → Type 0
IsDue s now left stops = Unit {0}
IsDue s now left waits = Unit {0}
IsDue s now left (waits_for micros) = Unit {0}
IsDue s now left (frees e) = Unit {0}
IsDue s now left (fires e at) =
    (at ≡ now)
    × (e.expire_time_micros ≤ now)
    × (is_member e.event_id s.cancelled ≡ false)
    × AreLater e.expire_time_micros left

quiet-IsDue :
    (s : TimerState) (now : ℕ) (left : List TimerEntry) (a : Action)
    → fired_by a ≡ none
    → IsDue s now left a
quiet-IsDue s now left stops f = tt
quiet-IsDue s now left waits f = tt
quiet-IsDue s now left (waits_for micros) f = tt
quiet-IsDue s now left (frees e) f = tt
quiet-IsDue s now left (fires e at) f = cc

round-IsDue :
    (s : TimerState) (now : ℕ)
    → IsOrdered s.timers
    → IsDue s now (round s now).0.timers (round s now).1
unfolding IsOrdered
round-IsDue s now o =
    round_cases (λ r. IsDue s now r.0.timers r.1) s now (λ a f p. quiet-IsDue s now s.timers a f)
      (λ top rest e c. tt) (λ top rest e c due. (refl, due, c, (subst IsOrdered e o).0))

-- In every state that can be reached: a round fires a timer only when it is due and not cancelled, and
-- no timer that is left expires earlier; the callback gets the time of the round.
pub fires-earliest :
    (s : TimerState) (now at : ℕ) (fired : List TimerEntry) (e : TimerEntry)
    → Steps start fired (record { state = s; phase = ready })
    → (round s now).1 ≡ fires e at
    → (at ≡ now)
      × (e.expire_time_micros ≤ now)
      × (is_member e.event_id s.cancelled ≡ false)
      × AreLater e.expire_time_micros (round s now).0.timers
unfolding IsOrdered
fires-earliest s now at fired e past q =
    subst (IsDue s now (round s now).0.timers) q (round-IsDue s now (Steps-IsOrdered past tt))
