-- ===== src/Tdma/Schedule.antt =====
-- `Slot` and `Schedule` of the TDMA model. Powers are floats: their type is a parameter. An index
-- past the end of `slots` panics in the code, and is `none` here.
pub mod Transmit
use emane.Base.{
  ℕ, zero, suc, ◌+◌, ◌*◌, ◌/◌, ◌%◌, ◌-◌, Bool, true, false, Option, none, some, List, length,
  get_elem?, ltb, leb, if◌then◌else◌,
}
use emane.Base.Int.{ℤ, pos_part}

abbrev pub u64_mod : ℕ
u64_mod = 18446744073709551616

abbrev pub i64_max : ℕ
i64_max = 9223372036854775807

abbrev pub saturating_add : ℕ → ℕ → ℕ
saturating_add a b = if ltb (a + b) u64_mod then a + b else u64_mod - 1

pub data Slot {ℓ} (F : Type ℓ) : Type ℓ where
  tx : (frequency_hz data_rate_bps service_class : ℕ) (power_dbm : F) (destination : ℕ) → Slot F
  rx : (frequency_hz : ℕ) → Slot F
  idle : Slot F

pub record Schedule {ℓ} (F : Type ℓ) : Type ℓ where
  pub slots_per_frame : ℕ
  pub frames_per_multiframe : ℕ
  pub slot_duration_us : ℕ
  pub overhead_us : ℕ
  pub bandwidth_hz : ℕ
  pub slots : List (Slot F)

module _ {ℓ} {F : Type ℓ} where
  unfoldable pub cycle_slots : Schedule F → ℕ
  cycle_slots s = s.slots_per_frame * s.frames_per_multiframe

  unfoldable pub slot : Schedule F → ℕ → Option (Slot F)
  unfolding cycle_slots
  slot s absolute = get_elem? s.slots (absolute % cycle_slots s)

  unfoldable pub absolute_slot : Schedule F → ℤ → ℕ
  absolute_slot s time_us = pos_part time_us / s.slot_duration_us

  -- The product saturates as a `u64`, and then as an `i64`.
  unfoldable pub slot_start : Schedule F → ℕ → ℕ
  slot_start s absolute =
      let product =
        if ltb (absolute * s.slot_duration_us) u64_mod
        then absolute * s.slot_duration_us
        else u64_mod - 1 in
      if leb product i64_max then product else i64_max

  abbrev pub is_tx : Option (Slot F) → Bool
  is_tx none = false
  is_tx (some (tx f r c p d)) = true
  is_tx (some (rx f)) = false
  is_tx (some idle) = false

  -- `rounds` offsets from `offset` on.
  unfoldable pub find_tx : Schedule F → ℕ → ℕ → ℕ → Option ℕ
  find_tx s after zero offset = none
  find_tx s after (suc rounds) offset =
      let index = saturating_add after offset in
      let rest = find_tx s after rounds (suc offset) in
      if is_tx (slot s index) then some index else rest

  unfoldable pub next_tx : Schedule F → ℕ → Option ℕ
  unfolding find_tx cycle_slots
  next_tx s after_absolute = find_tx s after_absolute (cycle_slots s) 1

  -- A slot's place in the cycle, its frame and its place in the frame.
  unfoldable pub slot_coordinates : Schedule F → ℕ → ℕ × ℕ × ℕ
  unfolding cycle_slots
  slot_coordinates s absolute =
      let relative = absolute % cycle_slots s in
      (relative, relative / s.slots_per_frame, relative % s.slots_per_frame)
