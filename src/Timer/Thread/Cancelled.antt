-- ===== src/Timer/Thread/Cancelled.antt =====
-- A timer after its cancellation.
use emane.Base.{
  ℕ, ◌+◌, ◌<◌, ◌≡◌, ◌≢◌, ◌⊎◌, inl, inr, subst, Bool, true, false, Option, none, some, List, [], ◌∷◌,
  arith, Bool-cases, ◌==◌,
}
use emane.Timer.{
  word_mod, TimerEntry, TimerState, push, is_member, without, schedule, cancel, round, new_entry,
  rescheduled, after_callback,
}
use emane.Timer.Thread.{
  Phase, ready, calling, System, next_phase, fired_by, Step, schedules, cancels, rounds, returns,
  Steps, done, quiet, fire, start, IsAbsent, AreDistinct, IsSound, push-IsAbsent,
}
use emane.Timer.Thread.Sound.{round_cases, after_callback_cases, Step-IsSound, start-IsSound}

is_member-without :
    (i j : ℕ) (js : List ℕ) → i ≢ j → is_member j js ≡ true → is_member j (without i js) ≡ true
unfolding is_member without
is_member-without i j [] h e = e
is_member-without i j (k ∷ js) h e = ground (arith, is_member-without i j js)

-- The callback that runs, if any, is not the one of this timer.
abbrev pub IsOther : ℕ → Phase → Type 0
IsOther id ready = Unit {0}
IsOther id (calling e now) = e.event_id ≢ id

-- The timer was scheduled, and is marked as cancelled or out of the heap for good.
pub record IsGone (id : ℕ) (x : System) : Type 0 where
  pub known : id < x.state.next_event_id
  pub out :
      (is_member id x.state.cancelled ≡ true) ⊎ (IsAbsent id x.state.timers × IsOther id x.phase)

abbrev pub FiresOther : ℕ → Option TimerEntry → Type 0
FiresOther id none = Unit {0}
FiresOther id (some e) = e.event_id ≢ id

-- A timer that is cancelled is not the one that leaves the heap, unless it leaves for good.
top_removed :
    (id : ℕ) (s : TimerState) (top : TimerEntry) (rest : List TimerEntry)
    → AreDistinct (top ∷ rest)
    → (is_member id s.cancelled ≡ true) ⊎ IsAbsent id (top ∷ rest)
    → (is_member id (without top.event_id s.cancelled) ≡ true) ⊎ IsAbsent id rest
unfolding IsAbsent AreDistinct
top_removed id s top rest d (inl c) = elim (Bool-cases (top.event_id == id)) [
  | inl e ↦ inr (subst (λ i. IsAbsent i rest) (ground arith) d.0)
  | inr e ↦ inl (is_member-without top.event_id id s.cancelled (λ q. ground arith) c)
]
top_removed id s top rest d (inr a) = inr a.1

top_fires :
    (id : ℕ) (s : TimerState) (top : TimerEntry) (rest : List TimerEntry)
    → is_member top.event_id s.cancelled ≡ false
    → (is_member id s.cancelled ≡ true) ⊎ IsAbsent id (top ∷ rest)
    → top.event_id ≢ id
unfolding IsAbsent
top_fires id s top rest c (inl m) =
    λ q. ground (arith, subst (λ i. is_member i s.cancelled ≡ false) q c)
top_fires id s top rest c (inr a) = a.0

heap_or :
    (id : ℕ) (s : TimerState)
    → IsGone id (record { state = s; phase = ready })
    → (is_member id s.cancelled ≡ true) ⊎ IsAbsent id s.timers
heap_or id s g = elim g.out [ inl m ↦ inl m | inr a ↦ inr a.0 ]

round-IsGone :
    (id : ℕ) (s : TimerState) (now : ℕ)
    → IsSound (record { state = s; phase = ready })
    → IsGone id (record { state = s; phase = ready })
    → IsGone id (record { state = (round s now).0; phase = next_phase (round s now).1 })
      × FiresOther id (fired_by (round s now).1)
unfolding IsAbsent AreDistinct
round-IsGone id s now h g =
    round_cases
      (λ r.
        IsGone id (record { state = r.0; phase = next_phase r.1 }) × FiresOther id (fired_by r.1))
      s now (λ a f p. rw (f, p) (record { known = g.known; out = g.out }, tt))
      (λ top rest e c.
        let left =
          top_removed id s top rest (subst AreDistinct e h.distinct)
            (subst (λ ts. (is_member id s.cancelled ≡ true) ⊎ IsAbsent id ts) e (heap_or id s g)) in
        (record { known = g.known; out = out_of_heap left }, tt))
      (λ top rest e c due.
        let out =
          subst (λ ts. (is_member id s.cancelled ≡ true) ⊎ IsAbsent id ts) e (heap_or id s g) in
        let other = top_fires id s top rest c out in
        (record { known = g.known; out = out_of_calls other out }, other))
  where
    out_of_heap : {m : Type 0} {a : Type 0} → m ⊎ a → m ⊎ (a × Unit {0})
    out_of_heap (inl m) = inl m
    out_of_heap (inr a) = inr (a, tt)

    out_of_calls : {m n a o : Type 0} → o → m ⊎ (n × a) → m ⊎ (a × o)
    out_of_calls o (inl m) = inl m
    out_of_calls o (inr a) = inr (a.1, o)

after_callback-IsGone :
    (id : ℕ) (s : TimerState) (e : TimerEntry) (now : ℕ)
    → IsSound (record { state = s; phase = calling e now })
    → IsGone id (record { state = s; phase = calling e now })
    → IsGone id (record { state = (after_callback s e now).0; phase = ready })
after_callback-IsGone id s e now h g =
    after_callback_cases (λ r. IsGone id (record { state = r.0; phase = ready })) s e now
      (λ again. record { known = g.known; out = pushed g.out })
      (record { known = g.known; out = released g.out })
  where
    pushed :
        (is_member id s.cancelled ≡ true) ⊎ (IsAbsent id s.timers × (e.event_id ≢ id))
        → (is_member id s.cancelled ≡ true)
          ⊎ (IsAbsent id (push (rescheduled e now) s.timers) × Unit {0})
    pushed (inl m) = inl m
    pushed (inr a) = inr (push-IsAbsent id (rescheduled e now) s.timers a.1 a.0, tt)

    released :
        (is_member id s.cancelled ≡ true) ⊎ (IsAbsent id s.timers × (e.event_id ≢ id))
        → (is_member id (without e.event_id s.cancelled) ≡ true) ⊎ (IsAbsent id s.timers × Unit {0})
    released (inl m) = elim (Bool-cases (e.event_id == id)) [
      | inl q ↦ inr (subst (λ i. IsAbsent i s.timers) (ground arith) h.apart.1, tt)
      | inr q ↦ inl (is_member-without e.event_id id s.cancelled (λ w. ground arith) m)
    ]
    released (inr a) = inr (a.0, tt)

schedule-IsGone :
    (id : ℕ) (x : System) (now expire interval : ℕ) (has_free : Bool)
    → x.state.next_event_id + 1 < word_mod
    → IsGone id x
    → IsGone id (record x { state = (schedule x.state now expire interval has_free).0 })
unfolding schedule
schedule-IsGone id x now expire interval has_free bound g = record {
  known = omega (arith, g.known);
  out = pushed g.out;
}
  where
    pushed :
        (is_member id x.state.cancelled ≡ true) ⊎ (IsAbsent id x.state.timers × IsOther id x.phase)
        → (is_member id x.state.cancelled ≡ true)
          ⊎ (IsAbsent id (push (new_entry x.state now expire interval has_free) x.state.timers)
              × IsOther id x.phase)
    pushed (inl m) = inl m
    pushed (inr a) = inr (
      push-IsAbsent id (new_entry x.state now expire interval has_free) x.state.timers
          (λ q. omega (arith, g.known)) a.0,
      a.1,
    )

cancel-keeps :
    (id i : ℕ) (s : TimerState)
    → is_member id s.cancelled ≡ true
    → is_member id (cancel s i).0.cancelled ≡ true
unfolding cancel is_member
cancel-keeps id i s m = ground arith

cancel-IsMember : (id : ℕ) (s : TimerState) → is_member id (cancel s id).0.cancelled ≡ true
unfolding cancel is_member
cancel-IsMember id s = ground arith

cancel-IsGone :
    (id i : ℕ) (x : System) → IsGone id x → IsGone id (record x { state = (cancel x.state i).0 })
unfolding cancel
cancel-IsGone id i x g = record {
  known = g.known;
  out = elim g.out [ inl m ↦ inl (cancel-keeps id i x.state m) | inr a ↦ inr a ];
}

Step-IsGone :
    (id : ℕ) {x y : System} {f : Option TimerEntry}
    → Step x f y
    → IsSound x
    → IsGone id x
    → IsGone id y × FiresOther id f
Step-IsGone id (schedules x now expire interval has_free bound) h g =
    (schedule-IsGone id x now expire interval has_free bound g, tt)
Step-IsGone id (cancels x i) h g = (cancel-IsGone id i x g, tt)
Step-IsGone id (rounds s now) h g = round-IsGone id s now h g
Step-IsGone id (returns s e now) h g = (after_callback-IsGone id s e now h g, tt)

-- None of the timers has the id.
abbrev pub AreOthers : ℕ → List TimerEntry → Type 0
AreOthers id [] = Unit {0}
AreOthers id (e ∷ es) = (e.event_id ≢ id) × AreOthers id es

Steps-AreOthers :
    (id : ℕ) {x y : System} {fired : List TimerEntry}
    → Steps x fired y
    → IsSound x
    → IsGone id x
    → AreOthers id fired
Steps-AreOthers id done h g = tt
Steps-AreOthers id (quiet s r) h g =
    Steps-AreOthers id r (Step-IsSound s h) (Step-IsGone id s h g).0
Steps-AreOthers id (fire e s r) h g =
    let after = Step-IsGone id s h g in (after.1, Steps-AreOthers id r (Step-IsSound s h) after.0)

Steps-IsSound : {x y : System} {fired : List TimerEntry} → Steps x fired y → IsSound x → IsSound y
Steps-IsSound done h = h
Steps-IsSound (quiet s r) h = Steps-IsSound r (Step-IsSound s h)
Steps-IsSound (fire e s r) h = Steps-IsSound r (Step-IsSound s h)

-- From the initial state, whatever is scheduled, cancelled, waited for and fired, in any order: a timer
-- that was scheduled does not fire after it is cancelled, even if its callback runs at that time.
pub cancelled-AreOthers :
    (id : ℕ) (x y : System) (before after : List TimerEntry)
    → Steps start before x
    → id < x.state.next_event_id
    → Steps (record x { state = (cancel x.state id).0 }) after y
    → AreOthers id after
unfolding cancel
cancelled-AreOthers id x y before after past known future =
    let h : IsSound (record x { state = (cancel x.state id).0 }) =
      Step-IsSound (cancels x id) (Steps-IsSound past start-IsSound) in
    Steps-AreOthers id future h (record { known = known; out = inl (cancel-IsMember id x.state) })
