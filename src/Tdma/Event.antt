-- ===== src/Tdma/Event.antt =====
-- `parse_schedule`: a schedule event, as the protobuf decoder gives it, makes or updates a schedule.
pub mod Valid
use emane.Base.{
  ℕ, zero, suc, ◌+◌, ◌*◌, ◌%◌, Bool, true, false, not, ◌&&◌, ◌||◌, Option, none, some, List, [],
  ◌∷◌, length, set, ltb, leb, ◌==◌, if◌then◌else◌, unwrap_or,
}
use emane.Tdma.Schedule.{Slot, tx, rx, idle, Schedule}

pub record ScheduleTx {ℓ} (F : Type ℓ) : Type ℓ where
  pub frequency_hz : Option ℕ
  pub data_rate_bps : Option ℕ
  pub service_class : Option ℕ
  pub power_dbm : Option F
  pub destination : Option ℕ

-- `rx` holds the frequency of the `ScheduleRx` message.
pub record ScheduleSlot {ℓ} (F : Type ℓ) : Type ℓ where
  pub index : ℕ
  pub slot_type : ℕ
  pub tx_fields : Option (ScheduleTx F)
  pub rx_frequency_hz : Option (Option ℕ)

pub record ScheduleFrame {ℓ} (F : Type ℓ) : Type ℓ where
  pub index : ℕ
  pub frequency_hz : Option ℕ
  pub data_rate_bps : Option ℕ
  pub service_class : Option ℕ
  pub power_dbm : Option F
  pub slots : List (ScheduleSlot F)

pub record ScheduleStructure : Type 0 where
  pub slots_per_frame : ℕ
  pub frames_per_multiframe : ℕ
  pub slot_duration_microseconds : ℕ
  pub slot_overhead_microseconds : ℕ
  pub bandwidth_hz : ℕ

pub record ScheduleEvent {ℓ} (F : Type ℓ) : Type ℓ where
  pub frames : List (ScheduleFrame F)
  pub structure : Option ScheduleStructure
  pub frequency_hz : Option ℕ
  pub data_rate_bps : Option ℕ
  pub service_class : Option ℕ
  pub power_dbm : Option F

pub data ScheduleError : Type 0 where
  invalid_structure too_large update_before_full frame_out_of_range no_frequency : ScheduleError
  slot_out_of_range invalid_tx invalid_rx invalid_slot_type : ScheduleError

pub data Parsed {ℓ} (A : Type ℓ) : Type ℓ where
  accepted : A → Parsed A
  refused : ScheduleError → Parsed A

infixl 5 ◌>>=◌
abbrev pub ◌>>=◌ {ℓ κ} : {A : Type ℓ} {B : Type κ} → Parsed A → (A → Parsed B) → Parsed B
accepted a >>= f = f a
refused e >>= f = refused e

abbrev pub max_slots : ℕ
max_slots = 1000000

abbrev pub u32_mod : ℕ
u32_mod = 4294967296

-- `Option::or`.
abbrev pub or {ℓ} : {A : Type ℓ} → Option A → Option A → Option A
or none b = b
or (some a) b = some a

abbrev pub idle_slots {ℓ} : {F : Type ℓ} → ℕ → List (Slot F)
idle_slots zero = []
idle_slots (suc n) = idle ∷ idle_slots n

-- The values that a frame hands to its slots.
pub record Defaults {ℓ} (F : Type ℓ) : Type ℓ where
  pub frequency : Option ℕ
  pub rate : Option ℕ
  pub class : ℕ
  pub power : F

-- Whether an index is among the slots of a frame, and how many different ones there are.
unfoldable pub contains {ℓ} : {F : Type ℓ} → ℕ → List (ScheduleSlot F) → Bool
contains i [] = false
contains i (s ∷ ss) = (s.index == i) || contains i ss

unfoldable pub count_distinct {ℓ} : {F : Type ℓ} → List (ScheduleSlot F) → ℕ
count_distinct [] = 0
count_distinct (s ∷ ss) = if contains s.index ss then count_distinct ss else suc (count_distinct ss)

module _ {ℓ} {F : Type ℓ} (is_finite : F → Bool) (zero_power : F) where
  unfoldable pub is_bad_structure : ScheduleStructure → Bool
  is_bad_structure t =
      (t.slots_per_frame == 0)
      || (t.frames_per_multiframe == 0)
      || (t.slot_duration_microseconds == 0)
      || leb t.slot_duration_microseconds t.slot_overhead_microseconds
      || (t.bandwidth_hz == 0)

  unfoldable pub new_schedule : ScheduleStructure → Parsed (Schedule F)
  unfolding is_bad_structure
  new_schedule t =
      if is_bad_structure t
      then refused invalid_structure
      else (if leb (t.slots_per_frame * t.frames_per_multiframe) max_slots
          then accepted (record {
            slots_per_frame = t.slots_per_frame;
            frames_per_multiframe = t.frames_per_multiframe;
            slot_duration_us = t.slot_duration_microseconds;
            overhead_us = t.slot_overhead_microseconds;
            bandwidth_hz = t.bandwidth_hz;
            slots = idle_slots (t.slots_per_frame * t.frames_per_multiframe);
          })
          else refused too_large)

  unfoldable pub initial_schedule :
      Option ScheduleStructure → Option (Schedule F) → Parsed (Schedule F)
  unfolding new_schedule
  initial_schedule (some t) current = new_schedule t
  initial_schedule none none = refused update_before_full
  initial_schedule none (some s) = accepted s

  abbrev pub defaults : ScheduleEvent F → ScheduleFrame F → Defaults F
  defaults event frame = record {
    frequency = or frame.frequency_hz event.frequency_hz;
    rate = or frame.data_rate_bps event.data_rate_bps;
    class = unwrap_or (or frame.service_class event.service_class) 0;
    power = unwrap_or (or frame.power_dbm event.power_dbm) zero_power;
  }

  -- The slots of a frame from `slot_index` on that the frame does not name.
  unfoldable pub fill_slots : List (ScheduleSlot F) → ℕ → ℕ → ℕ → ℕ → List (Slot F) → List (Slot F)
  fill_slots explicit frequency frame_start zero slot_index slots = slots
  fill_slots explicit frequency frame_start (suc rounds) slot_index slots =
      fill_slots explicit frequency frame_start rounds (suc slot_index) (
        if contains slot_index explicit
        then slots
        else set slots (frame_start + slot_index) (rx frequency))

  unfoldable pub fill_undefined : ScheduleFrame F → Defaults F → Schedule F → Parsed (Schedule F)
  fill_undefined frame d s =
      if not (ltb (count_distinct frame.slots) s.slots_per_frame)
      then accepted s
      else (if unwrap_or d.frequency 0 == 0
          then refused no_frequency
          else accepted (record s {
            slots =
                fill_slots frame.slots (unwrap_or d.frequency 0) (frame.index * s.slots_per_frame)
                  s.slots_per_frame 0 s.slots;
          }))

  abbrev pub no_tx : ScheduleTx F
  no_tx = record {
    frequency_hz = none;
    data_rate_bps = none;
    service_class = none;
    power_dbm = none;
    destination = none;
  }

  unfoldable pub tx_slot : ScheduleTx F → Defaults F → Parsed (Slot F)
  tx_slot t d =
      let frequency = unwrap_or (or t.frequency_hz d.frequency) 0 in
      let rate = unwrap_or (or t.data_rate_bps d.rate) 0 in
      let class = unwrap_or t.service_class d.class in
      let power = unwrap_or t.power_dbm d.power in
      let destination = unwrap_or t.destination 0 in
      if (frequency == 0)
        || (rate == 0)
        || ltb 3 class
        || ltb 65535 destination
        || not (is_finite power)
      then refused invalid_tx
      else accepted (tx frequency rate class power destination)

  unfoldable pub rx_slot : Option (Option ℕ) → Defaults F → Parsed (Slot F)
  rx_slot r d =
      let frequency = unwrap_or (or (unwrap_or r none) d.frequency) 0 in
      if frequency == 0 then refused invalid_rx else accepted (rx frequency)

  -- `SlotType::try_from`: 1, 2 and 3 are Tx, Rx and Idle.
  unfoldable pub make_slot : ScheduleSlot F → Defaults F → Parsed (Slot F)
  unfolding tx_slot rx_slot
  make_slot s d =
      if s.slot_type == 1
      then tx_slot (unwrap_or s.tx_fields no_tx) d
      else (if s.slot_type == 2
          then rx_slot s.rx_frequency_hz d
          else (if s.slot_type == 3 then accepted idle else refused invalid_slot_type))

  -- An index past the end of the slots, at which the code would panic, changes nothing here.
  unfoldable pub put_slots :
      ScheduleFrame F → Defaults F → List (ScheduleSlot F) → Schedule F → Parsed (Schedule F)
  put_slots frame d [] s = accepted s
  put_slots frame d (slot ∷ rest) s =
      if leb s.slots_per_frame slot.index
      then refused slot_out_of_range
      else (make_slot slot d >>= λ made. put_slots frame d rest (record s {
        slots = set s.slots ((frame.index * s.slots_per_frame + slot.index) % u32_mod) made;
      }))

  unfoldable pub put_frame :
      Bool → ScheduleEvent F → ScheduleFrame F → Schedule F → Parsed (Schedule F)
  put_frame full event frame s =
      if leb s.frames_per_multiframe frame.index
      then refused frame_out_of_range
      else ((if full then fill_undefined frame (defaults event frame) s else accepted s)
          >>= put_slots frame (defaults event frame) frame.slots)

  unfoldable pub put_frames :
      Bool → ScheduleEvent F → List (ScheduleFrame F) → Schedule F → Parsed (Schedule F)
  put_frames full event [] s = accepted s
  put_frames full event (frame ∷ rest) s =
      put_frame full event frame s >>= put_frames full event rest

  abbrev pub is_full : ScheduleEvent F → Bool
  is_full event = elim event.structure [ none ↦ false | some t ↦ true ]

  unfoldable pub parse_schedule : ScheduleEvent F → Option (Schedule F) → Parsed (Schedule F × Bool)
  parse_schedule event current =
      initial_schedule event.structure current
      >>= put_frames (is_full event) event event.frames
      >>= λ s. accepted (s, is_full event)
