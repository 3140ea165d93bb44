-- ===== src/Tdma/Event/Valid.antt =====
-- Well-formed schedules, and `parse_schedule` on them.
use emane.Base.{
  ℕ, zero, suc, ◌+◌, ◌*◌, ◌%◌, ◌≤◌, ◌<◌, ◌≡◌, refl, ap, ◌∙◌, inl, inr, Bool, true, false, Option,
  none, some, List, [], ◌∷◌, length, set, leb, unwrap_or, arith, Bool-cases, if◌then◌else◌,
}
use emane.Tdma.Schedule.{Slot, tx, rx, idle, Schedule}
use emane.Tdma.Event.{
  ScheduleSlot, ScheduleFrame, ScheduleStructure, ScheduleEvent, Parsed, accepted, refused, ◌>>=◌,
  max_slots, u32_mod, idle_slots, Defaults, contains, new_schedule, initial_schedule, defaults,
  fill_slots, fill_undefined, make_slot, put_slots, put_frame, put_frames, is_full, parse_schedule,
}

bind-accepted {ℓ κ} :
    {X : Type ℓ} {Y : Type κ} (first : Parsed X) (next : X → Parsed Y) {y : Y}
    → (first >>= next) ≡ accepted y
    → (x : X) × (next x ≡ accepted y) × (first ≡ accepted x)
bind-accepted (accepted x) next e = (x, e, refl)
bind-accepted (refused why) next e = cc

module _ {ℓ} {F : Type ℓ} (is_finite : F → Bool) (zero_power : F) where
  -- What the checks on a slot ensure.
  abbrev pub IsGoodSlot : Slot F → Type 0
  IsGoodSlot (tx f r c p d) = (0 < f) × (0 < r) × (c ≤ 3) × (d < 65536) × (is_finite p ≡ true)
  IsGoodSlot (rx f) = 0 < f
  IsGoodSlot idle = Unit {0}

  abbrev pub AllGood : List (Slot F) → Type 0
  AllGood [] = Unit {0}
  AllGood (x ∷ xs) = IsGoodSlot x × AllGood xs

  pub record IsValid (s : Schedule F) : Type 0 where
    pub slots_pos : 0 < s.slots_per_frame
    pub frames_pos : 0 < s.frames_per_multiframe
    pub duration_pos : 0 < s.slot_duration_us
    pub overhead_lt : s.overhead_us < s.slot_duration_us
    pub bandwidth_pos : 0 < s.bandwidth_hz
    pub limited : s.slots_per_frame * s.frames_per_multiframe ≤ max_slots
    pub filled : length s.slots ≡ s.slots_per_frame * s.frames_per_multiframe
    pub good : AllGood s.slots

  length-set : (xs : List (Slot F)) (i : ℕ) (v : Slot F) → length (set xs i v) ≡ length xs
  length-set [] i v = refl
  length-set (x ∷ xs) zero v = refl
  length-set (x ∷ xs) (suc i) v = ap suc (length-set xs i v)

  set-AllGood :
      (xs : List (Slot F)) (i : ℕ) (v : Slot F) → IsGoodSlot v → AllGood xs → AllGood (set xs i v)
  set-AllGood [] i v g a = tt
  set-AllGood (x ∷ xs) zero v g a = (g, a.1)
  set-AllGood (x ∷ xs) (suc i) v g a = (a.0, set-AllGood xs i v g a.1)

  -- A write of a good slot keeps a schedule valid.
  set-IsValid :
      (s : Schedule F) (i : ℕ) (v : Slot F)
      → IsGoodSlot v
      → IsValid s
      → IsValid (record s { slots = set s.slots i v })
  set-IsValid s i v g h = ground (arith, length-set s.slots i v, set-AllGood s.slots i v g h.good)

  idle_slots-good : (n : ℕ) → (length (idle_slots {F = F} n) ≡ n) × AllGood (idle_slots n)
  idle_slots-good zero = (refl, tt)
  idle_slots-good (suc n) = (ap suc (idle_slots-good n).0, (tt, (idle_slots-good n).1))

  new_schedule-IsValid :
      (t : ScheduleStructure) {s : Schedule F}
      → new_schedule is_finite zero_power t ≡ accepted s
      → IsValid s
  unfolding new_schedule
  new_schedule-IsValid t e =
      ground (arith, idle_slots-good (t.slots_per_frame * t.frames_per_multiframe))

  fill_slots-good :
      (explicit : List (ScheduleSlot F)) (frequency start rounds i : ℕ) (xs : List (Slot F))
      → 0 < frequency
      → AllGood xs
      → (length (fill_slots is_finite zero_power explicit frequency start rounds i xs) ≡ length xs)
        × AllGood (fill_slots is_finite zero_power explicit frequency start rounds i xs)
  unfolding fill_slots
  fill_slots-good explicit frequency start zero i xs h a = (refl, a)
  fill_slots-good explicit frequency start (suc rounds) i xs h a =
      elim (Bool-cases (contains i explicit)) [
        | inl e ↦ rw e (fill_slots-good explicit frequency start rounds (suc i) xs h a)
        | inr e ↦
            let written = set xs (start + i) (rx frequency) in
            let rest =
              fill_slots-good explicit frequency start rounds (suc i) written h
                (set-AllGood xs (start + i) (rx frequency) h a) in
            rw e (rest.0 ∙ length-set xs (start + i) (rx frequency), rest.1)
      ]

  fill_undefined-IsValid :
      (frame : ScheduleFrame F) (d : Defaults F) (s : Schedule F) {t : Schedule F}
      → fill_undefined is_finite zero_power frame d s ≡ accepted t
      → IsValid s
      → IsValid t
  unfolding fill_undefined
  fill_undefined-IsValid frame d s e v =
      let frequency : ℕ = unwrap_or d.frequency 0 in
      let filled =
        fill_slots-good frame.slots frequency (frame.index * s.slots_per_frame) s.slots_per_frame 0
          s.slots in
      ground (arith, filled)

  make_slot-IsGoodSlot :
      (x : ScheduleSlot F) (d : Defaults F) {v : Slot F}
      → make_slot is_finite zero_power x d ≡ accepted v
      → IsGoodSlot v
  unfolding make_slot
  make_slot-IsGoodSlot x d e = ground arith

  put_slots-IsValid :
      (frame : ScheduleFrame F) (d : Defaults F) (xs : List (ScheduleSlot F)) (s : Schedule F)
      {t : Schedule F}
      → put_slots is_finite zero_power frame d xs s ≡ accepted t
      → IsValid s
      → IsValid t
  unfolding put_slots
  put_slots-IsValid frame d [] s e v = ground arith
  put_slots-IsValid frame d (x ∷ xs) s {t} e v = elim (Bool-cases (leb s.slots_per_frame x.index)) [
    | inl out ↦ ground arith
    | inr within ↦
        let (made, rest, m) =
          bind-accepted (make_slot is_finite zero_power x d) _ (rw within at e) in
        put_slots-IsValid frame d xs _ rest (
          set-IsValid s ((frame.index * s.slots_per_frame + x.index) % u32_mod) made
            (make_slot-IsGoodSlot x d m) v)
  ]

  fill_or_keep-IsValid :
      (full : Bool) (frame : ScheduleFrame F) (d : Defaults F) (s : Schedule F) {t : Schedule F}
      → (if full then fill_undefined is_finite zero_power frame d s else accepted s) ≡ accepted t
      → IsValid s
      → IsValid t
  fill_or_keep-IsValid true frame d s e v = fill_undefined-IsValid frame d s e v
  fill_or_keep-IsValid false frame d s e v = ground arith

  put_frame-IsValid :
      (full : Bool) (event : ScheduleEvent F) (frame : ScheduleFrame F) (s : Schedule F)
      {t : Schedule F}
      → put_frame is_finite zero_power full event frame s ≡ accepted t
      → IsValid s
      → IsValid t
  unfolding put_frame
  put_frame-IsValid full event frame s e v =
      elim (Bool-cases (leb s.frames_per_multiframe frame.index)) [
        | inl out ↦ ground arith
        | inr within ↦
            let (mid, last, first) =
              bind-accepted
                (if full
                  then fill_undefined is_finite zero_power frame
                      (defaults is_finite zero_power event frame) s
                  else accepted s)
                _ (rw within at e) in
            put_slots-IsValid frame (defaults is_finite zero_power event frame) frame.slots mid last
              (fill_or_keep-IsValid full frame (defaults is_finite zero_power event frame) s first
                v)
      ]

  put_frames-IsValid :
      (full : Bool) (event : ScheduleEvent F) (frames : List (ScheduleFrame F)) (s : Schedule F)
      {t : Schedule F}
      → put_frames is_finite zero_power full event frames s ≡ accepted t
      → IsValid s
      → IsValid t
  unfolding put_frames
  put_frames-IsValid full event [] s e v = ground arith
  put_frames-IsValid full event (frame ∷ rest) s e v =
      let (mid, last, first) =
        bind-accepted (put_frame is_finite zero_power full event frame s) _ e in
      put_frames-IsValid full event rest mid last (put_frame-IsValid full event frame s first v)

  abbrev pub IsValidOption : Option (Schedule F) → Type 0
  IsValidOption none = Unit {0}
  IsValidOption (some s) = IsValid s

  initial_schedule-IsValid :
      (t : Option ScheduleStructure) (current : Option (Schedule F)) {s : Schedule F}
      → initial_schedule is_finite zero_power t current ≡ accepted s
      → IsValidOption current
      → IsValid s
  unfolding initial_schedule
  initial_schedule-IsValid (some t) current e v = new_schedule-IsValid t e
  initial_schedule-IsValid none none e v = cc
  initial_schedule-IsValid none (some c) e v = ground arith

  -- From no schedule or a valid one, every accepted event gives a valid schedule: a slot for each
  -- place of the cycle, sizes and durations in range, and each transmit and receive slot with the
  -- fields that transmission needs. The flag tells a full schedule from an update.
  pub parse_schedule-IsValid :
      (event : ScheduleEvent F) (current : Option (Schedule F)) {s : Schedule F} {full : Bool}
      → IsValidOption current
      → parse_schedule is_finite zero_power event current ≡ accepted (s, full)
      → IsValid s × (full ≡ is_full is_finite zero_power event)
  unfolding parse_schedule
  parse_schedule-IsValid event current {s} {full} v e =
      let (last, final, whole) =
        bind-accepted
          (initial_schedule is_finite zero_power event.structure current
            >>= put_frames is_finite zero_power (is_full is_finite zero_power event) event
                event.frames)
          _ e in
      let (start, frames, first) =
        bind-accepted (initial_schedule is_finite zero_power event.structure current) _ whole in
      let valid =
        put_frames-IsValid (is_full is_finite zero_power event) event event.frames start frames
          (initial_schedule-IsValid event.structure current first v) in
      ground (arith, valid)
