-- ===== src/Tdma/Queue/Returns.antt =====
-- The runs of `take_transmission` from its start.
use native.Mathlib.Nat.{mul-pos}
use emane.Base.{
  ℕ, zero, suc, ◌-◌, ◌≡◌, ◌≢◌, ◌<◌, refl, Bool, Option, none, some, List, arith, inl, inr,
  Option-cases, subst,
}
use emane.Tdma.Queue.{TxState}
use emane.Tdma.Queue.Take.{
  Effect, Transmission, TxSlot, capacity, after_drop, drop_too_big, take_packet, take_transmission,
}
use emane.Tdma.Queue.Taken.{Taken, TakenOption, take_packet-Taken, take_packet_cases}
use emane.Tdma.Queue.Conserved.{packets, drop_too_big-weight, IsConserving, Taken-IsConserving}
use emane.Tdma.Queue.Accounted.{IsAccounted, Taken-IsAccounted}
use emane.Tdma.Queue.Tokens.{HasTokens, SameTokens, Taken-SameTokens}
use emane.Tdma.Schedule.Transmit.{slot-some}
use emane.Tdma.Event.Valid.{IsValidOption}
use emane.Tdma.Schedule.{Schedule, cycle_slots, slot, tx, rx, idle}

module _ {ℓ} {F : Type ℓ} (schedule : Schedule F) (absolute_slot : ℕ) (slot_info : TxSlot F) where
  after_drop-some :
      (first : List Effect) (o : Option (TxState × Option (Transmission F) × List Effect))
      → o ≢ none
      → after_drop schedule absolute_slot slot_info first o ≢ none
  unfolding after_drop
  after_drop-some first none h = λ e. h refl
  after_drop-some first (some (s, t, effects)) h = λ e. ground arith

  take_packet-some :
      (fuel : ℕ) (s : TxState) (used : ℕ)
      → packets s < fuel
      → take_packet schedule absolute_slot slot_info fuel s used ≢ none
  unfolding packets
  take_packet-some zero s used enough = ground arith
  take_packet-some (suc fuel) s used enough =
      take_packet_cases schedule absolute_slot slot_info (λ o. o ≢ none) fuel s used
        (λ e. ground arith)
        (λ index before behind q found big. after_drop-some _ _ (
          take_packet-some fuel (drop_too_big s index before q behind) used (
            ground (
              arith,
              drop_too_big-weight (λ p. 1) s index slot_info.destination before behind q found,
            ))))
        (λ index before behind q found e. ground arith)

module _ {ℓ} {F : Type ℓ} where
  -- Without a schedule or with a valid one, and with more fuel than packets wait, the code returns.
  pub take_transmission-some :
      (is_finite : F → Bool) (zero_power : F) (fuel : ℕ) (schedule : Option (Schedule F))
      (absolute : ℕ) (s : TxState) (used : ℕ)
      → IsValidOption is_finite zero_power schedule
      → packets s < fuel
      → take_transmission fuel schedule absolute s used ≢ none
  unfolding take_transmission cycle_slots
  take_transmission-some is_finite zero_power fuel none absolute s used v enough = λ e. ground arith
  take_transmission-some is_finite zero_power fuel (some c) absolute s used v enough =
      elim (Option-cases (slot c absolute)) [
        | inl e ↦
            let (x, found) = slot-some c absolute (mul-pos v.slots_pos v.frames_pos) v.filled in
            absurd (ground (arith, e, found))
        | inr (tx f r p d g, e) ↦
            rw (take_transmission, e) (take_packet-some c absolute _ fuel s used enough)
        | inr (rx f, e) ↦ rw (take_transmission, e) (λ x. ground arith)
        | inr (idle, e) ↦ rw (take_transmission, e) (λ x. ground arith)
      ]

  TakenOption-kept :
      (schedule : Schedule F) (absolute : ℕ) (slot_info : TxSlot F) (available : ℕ) (s : TxState)
      (o : Option (TxState × Option (Transmission F) × List Effect)) {s' : TxState}
      {t : Option (Transmission F)} {effects : List Effect}
      → TakenOption schedule absolute slot_info available s o
      → o ≡ some (s', t, effects)
      → Taken schedule absolute slot_info available s s' t effects
  TakenOption-kept schedule absolute slot_info available s o taken e =
      subst (λ x. TakenOption schedule absolute slot_info available s x) e taken

  take_transmission-Taken :
      (fuel : ℕ) (schedule : Schedule F) (absolute : ℕ) (s : TxState) (used : ℕ)
      (slot_info : TxSlot F) {s' : TxState} {t : Option (Transmission F)} {effects : List Effect}
      → slot schedule absolute
        ≡ some (
            tx slot_info.frequency_hz slot_info.data_rate_bps slot_info.service_class
              slot_info.power_dbm slot_info.destination)
      → take_transmission fuel (some schedule) absolute s used ≡ some (s', t, effects)
      → Taken schedule absolute slot_info
          (capacity schedule absolute slot_info - used)
          s
          s'
          t
          effects
  unfolding take_transmission
  take_transmission-Taken fuel schedule absolute s used slot_info in_slot run =
      TakenOption-kept schedule absolute slot_info (capacity schedule absolute slot_info - used) s _
        (take_packet-Taken schedule absolute slot_info fuel s used)
        (rw (take_transmission, in_slot) at run)

  -- In a transmit slot, what is sent fits in what is left of the slot's capacity. It is the first bytes
  -- that wait in one packet, under the packet's sequence number and at its offset, and says whether more
  -- follow; of that packet the rest, if any, still waits, with its offset moved on. Every packet that is
  -- dropped is too big for the room, and the sizes that are reported as too big add up to the lengths of
  -- the dropped packets. All other packets wait as they did: any weight of the packets that waited, with that
  -- of the rest, is that of the packets that wait now, of the one taken and of the dropped ones. Of the
  -- bytes that waited, as many are accounted for: they still wait, are sent, or were of a dropped packet.
  pub take_transmission-IsAccounted :
      (fuel : ℕ) (schedule : Schedule F) (absolute : ℕ) (s : TxState) (used : ℕ)
      (slot_info : TxSlot F) {s' : TxState} {t : Option (Transmission F)} {effects : List Effect}
      → slot schedule absolute
        ≡ some (
            tx slot_info.frequency_hz slot_info.data_rate_bps slot_info.service_class
              slot_info.power_dbm slot_info.destination)
      → take_transmission fuel (some schedule) absolute s used ≡ some (s', t, effects)
      → IsAccounted (capacity schedule absolute slot_info - used) s s' t effects
        × IsConserving (capacity schedule absolute slot_info - used) s s' t effects
  take_transmission-IsAccounted fuel schedule absolute s used slot_info in_slot run =
      let taken = take_transmission-Taken fuel schedule absolute s used slot_info in_slot run in
      (
        Taken-IsAccounted schedule absolute slot_info taken,
        Taken-IsConserving schedule absolute slot_info taken,
      )

  -- With flow control, from a state whose free tokens and waiting packets are together within the
  -- limit, a run in a transmit slot keeps the limit and their sum: each packet that leaves a queue,
  -- sent to its end or dropped, gives one token back, and a fragment none.
  pub take_transmission-SameTokens :
      (fuel : ℕ) (schedule : Schedule F) (absolute : ℕ) (s : TxState) (used : ℕ)
      (slot_info : TxSlot F) {s' : TxState} {t : Option (Transmission F)} {effects : List Effect}
      → slot schedule absolute
        ≡ some (
            tx slot_info.frequency_hz slot_info.data_rate_bps slot_info.service_class
              slot_info.power_dbm slot_info.destination)
      → take_transmission fuel (some schedule) absolute s used ≡ some (s', t, effects)
      → HasTokens s
      → SameTokens s s'
  take_transmission-SameTokens fuel schedule absolute s used slot_info in_slot run h =
      Taken-SameTokens schedule absolute slot_info
        (take_transmission-Taken fuel schedule absolute s used slot_info in_slot run) h
