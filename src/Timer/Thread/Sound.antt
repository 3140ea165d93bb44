-- ===== src/Timer/Thread/Sound.antt =====
-- The ids of the timers in the heap, over the steps of the thread and its callers.
use emane.Base.{
  ℕ, ◌+◌, ◌%◌, ◌≤◌, ◌<◌, ◌≡◌, refl, sym, subst, Bool, true, false, Option, none, some, List, [],
  ◌∷◌, arith, if◌then◌else◌, leb,
}
use emane.Timer.{
  word_mod, TimerEntry, TimerState, push, is_member, without, schedule, cancel, Action, stops,
  waits, waits_for, frees, fires, next_timer, round, new_entry, rescheduled, fires_again,
  after_callback,
}
use emane.Timer.Thread.{
  Phase, ready, calling, System, next_phase, fired_by, Step, schedules, cancels, rounds, returns,
  start, IsAbsent, AreDistinct, AreBelow, IsApart, IsSound, push-IsAbsent, push-AreDistinct,
  push-AreBelow, AreBelow-IsAbsent, AreBelow-suc,
}

pub if_cases {ℓ κ} :
    {A : Type ℓ} (P : A → Type κ) (b : Bool) {x y : A}
    → (b ≡ true → P x)
    → (b ≡ false → P y)
    → P (if b then x else y)
if_cases P true f g = f refl
if_cases P false f g = g refl

pub round_cases {ℓ} :
    (P : TimerState × Action → Type ℓ) (s : TimerState) (now : ℕ)
    → ((a : Action) → fired_by a ≡ none → next_phase a ≡ ready → P (s, a))
    → ((top : TimerEntry) (rest : List TimerEntry)
        → s.timers ≡ top ∷ rest
        → is_member top.event_id s.cancelled ≡ true
        → P (record s { timers = rest; cancelled = without top.event_id s.cancelled }, frees top))
    → ((top : TimerEntry) (rest : List TimerEntry)
        → s.timers ≡ top ∷ rest
        → is_member top.event_id s.cancelled ≡ false
        → top.expire_time_micros ≤ now
        → P (record s { timers = rest }, fires top now))
    → P (round s now)
unfolding round next_timer
round_cases P s now stay free fire_top =
    if_cases P s.shutdown (λ e. stay stops refl refl) (λ e. next s.timers refl)
  where
    next : (ts : List TimerEntry) → s.timers ≡ ts → P (next_timer s now ts)
    next [] e = stay waits refl refl
    next (top ∷ rest) e =
        if_cases P (is_member top.event_id s.cancelled) (λ c. free top rest e c)
          (λ c.
            if_cases P (leb top.expire_time_micros now) (λ d. fire_top top rest e c (ground arith))
              (λ d. stay (waits_for _) refl refl))

round-IsSound :
    (s : TimerState) (now : ℕ)
    → IsSound (record { state = s; phase = ready })
    → IsSound (record { state = (round s now).0; phase = next_phase (round s now).1 })
unfolding IsAbsent AreDistinct AreBelow
round-IsSound s now h =
    round_cases (λ r. IsSound (record { state = r.0; phase = next_phase r.1 })) s now
      (λ a f p. rw p (record { distinct = h.distinct; below = h.below; apart = tt }))
      (λ top rest e c.
        let d : AreDistinct (top ∷ rest) = subst AreDistinct e h.distinct in
        let b : AreBelow s.next_event_id (top ∷ rest) =
          subst (AreBelow s.next_event_id) e h.below in
        record { distinct = d.1; below = b.1; apart = tt })
      (λ top rest e c due.
        let d : AreDistinct (top ∷ rest) = subst AreDistinct e h.distinct in
        let b : AreBelow s.next_event_id (top ∷ rest) =
          subst (AreBelow s.next_event_id) e h.below in
        record { distinct = d.1; below = b.1; apart = (b.0, d.0) })

same_phase :
    (p : Phase) (s t : TimerState)
    → s.next_event_id ≤ t.next_event_id
    → ((id : ℕ) → id < s.next_event_id → IsAbsent id s.timers → IsAbsent id t.timers)
    → IsApart p s
    → IsApart p t
same_phase ready s t n f a = tt
same_phase (calling e now) s t n f a = (omega (arith, a.0), f e.event_id a.0 a.1)

schedule-IsSound :
    (x : System) (now expire interval : ℕ) (has_free : Bool)
    → x.state.next_event_id + 1 < word_mod
    → IsSound x
    → IsSound (record x { state = (schedule x.state now expire interval has_free).0 })
unfolding schedule
schedule-IsSound x now expire interval has_free bound h =
    let n : ℕ = x.state.next_event_id in
    let e : TimerEntry = new_entry x.state now expire interval has_free in
    let wrap : (n + 1) % word_mod ≡ n + 1 = omega arith in
    record {
      distinct =
          push-AreDistinct e x.state.timers (AreBelow-IsAbsent n x.state.timers h.below) h.distinct;
      below =
          subst (λ k. AreBelow k (push e x.state.timers)) (sym wrap)
            (push-AreBelow (n + 1) e x.state.timers (omega arith)
              (AreBelow-suc n x.state.timers h.below));
      apart =
          same_phase x.phase x.state (schedule x.state now expire interval has_free).0 (omega arith)
            (λ id b a. push-IsAbsent id e x.state.timers (λ q. omega arith) a) h.apart;
    }

pub after_callback_cases {ℓ} :
    (P : TimerState × Option TimerEntry → Type ℓ) (s : TimerState) (e : TimerEntry) (now : ℕ)
    → (fires_again s e ≡ true → P (record s { timers = push (rescheduled e now) s.timers }, none))
    → P (record s { cancelled = without e.event_id s.cancelled }, some e)
    → P (after_callback s e now)
unfolding after_callback
after_callback_cases P s e now again over = if_cases P (fires_again s e) again (λ q. over)

after_callback-IsSound :
    (s : TimerState) (e : TimerEntry) (now : ℕ)
    → IsSound (record { state = s; phase = calling e now })
    → IsSound (record { state = (after_callback s e now).0; phase = ready })
after_callback-IsSound s e now h =
    after_callback_cases (λ r. IsSound (record { state = r.0; phase = ready })) s e now
      (λ again. record {
        distinct = push-AreDistinct (rescheduled e now) s.timers h.apart.1 h.distinct;
        below = push-AreBelow s.next_event_id (rescheduled e now) s.timers h.apart.0 h.below;
        apart = tt;
      })
      (record { distinct = h.distinct; below = h.below; apart = tt })

pub Step-IsSound : {x y : System} {f : Option TimerEntry} → Step x f y → IsSound x → IsSound y
unfolding cancel
Step-IsSound (schedules x now expire interval has_free bound) h =
    schedule-IsSound x now expire interval has_free bound h
Step-IsSound (cancels x id) h = record {
  distinct = h.distinct;
  below = h.below;
  apart = same_phase x.phase x.state _ (omega arith) (λ i b a. a) h.apart;
}
Step-IsSound (rounds s now) h = round-IsSound s now h
Step-IsSound (returns s e now) h = after_callback-IsSound s e now h

pub start-IsSound : IsSound start
unfolding AreDistinct AreBelow
start-IsSound = record { distinct = tt; below = tt; apart = tt }
