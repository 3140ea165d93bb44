-- ===== src/Tdma/Queue/Taken.antt =====
-- The runs of `take_transmission` inside a transmit slot as a relation: packets that are too big are
-- dropped, then either nothing is taken or one packet or fragment is.
use emane.Base.{
  ℕ, zero, suc, ◌-◌, ◌≡◌, ◌<◌, Option, none, some, List, [], ◌∷◌, arith, length, ltb, not, inl, inr,
  Bool-cases, Option-cases, ◌==◌, ◌&&◌,
}
use emane.Tdma.Queue.{QueuedPacket, TxState, queue_at, queue_index, split_queue}
use emane.Tdma.Queue.Take.{
  Effect, dropped_too_big, published, Transmission, TxSlot, capacity, remaining, drop_too_big,
  take_from, after_drop, take_packet,
}
use emane.Tdma.Schedule.{Schedule}

module _ {ℓ} {F : Type ℓ} (schedule : Schedule F) (absolute_slot : ℕ) (slot_info : TxSlot F)
    (available : ℕ) where
  pub data Taken : TxState → TxState → Option (Transmission F) → List Effect → Type ℓ where
    nothing : {s : TxState} → Taken s s none []
    next :
        {s s' : TxState} {t : Option (Transmission F)} {effects : List Effect} (index : ℕ)
        (before behind : List QueuedPacket) (q : QueuedPacket)
        → split_queue slot_info.destination (queue_at s index) ≡ some (before, q, behind)
        → available < remaining q
        → Taken (drop_too_big s index before q behind) s' t effects
        → Taken s s' t (
            dropped_too_big index q.info.source q.info.destination (length q.payload)
            ∷ published index
            ∷ effects)
    sent :
        {s : TxState} (index : ℕ) (before behind : List QueuedPacket) (q : QueuedPacket)
        → split_queue slot_info.destination (queue_at s index) ≡ some (before, q, behind)
        → Taken s
            (take_from schedule absolute_slot slot_info s index before q behind available).0
            (some (take_from schedule absolute_slot slot_info s index before q behind available).1)
            (published index ∷ [])

module _ {ℓ} {F : Type ℓ} (schedule : Schedule F) (absolute_slot : ℕ) (slot_info : TxSlot F) where
  pub take_packet_cases {m} :
      (P : Option (TxState × Option (Transmission F) × List Effect) → Type m) (fuel : ℕ)
      (s : TxState) (used : ℕ)
      → P (some (s, none, []))
      → ((index : ℕ) (before behind : List QueuedPacket) (q : QueuedPacket)
          → split_queue slot_info.destination (queue_at s index) ≡ some (before, q, behind)
          → capacity schedule absolute_slot slot_info - used < remaining q
          → P (
              after_drop schedule absolute_slot slot_info
                (dropped_too_big index q.info.source q.info.destination (length q.payload)
                  ∷ published index
                  ∷ [])
                (take_packet schedule absolute_slot slot_info fuel
                  (drop_too_big s index before q behind)
                  used)))
      → ((index : ℕ) (before behind : List QueuedPacket) (q : QueuedPacket)
          → split_queue slot_info.destination (queue_at s index) ≡ some (before, q, behind)
          → P (
              let (s', t) =
                take_from schedule absolute_slot slot_info s index before q behind
                  (capacity schedule absolute_slot slot_info - used) in
              some (s', some t, published index ∷ [])))
      → P (take_packet schedule absolute_slot slot_info (suc fuel) s used)
  unfolding take_packet
  take_packet_cases P fuel s used stay drop send =
      elim (Option-cases (queue_index s slot_info.service_class slot_info.destination)) [
        | inl i ↦ rw (take_packet, i) stay
        | inr (index, i) ↦
            elim (Bool-cases (capacity schedule absolute_slot slot_info - used == 0)) [
              | inl full ↦ rw (take_packet, i, full) stay
              | inr room ↦
                  elim (Option-cases (split_queue slot_info.destination (queue_at s index))) [
                    | inl none_left ↦ rw (take_packet, i, room, none_left) stay
                    | inr ((before, q, behind), found) ↦
                        elim (Bool-cases (
                          ltb (capacity schedule absolute_slot slot_info - used) (remaining q)
                          && not s.fragmentation_enable)) [
                            | inl big ↦ elim (Bool-cases (not (used == 0))) [
                              | inl begun ↦ rw (take_packet, i, room, found, big, begun) stay
                              | inr first ↦
                                  rw (take_packet, i, room, found, big, first)
                                    (drop index before behind q found (ground arith))
                            ]
                            | inr fits ↦
                                rw (take_packet, i, room, found, fits)
                                  (send index before behind q found)
                          ]
                  ]
            ]
      ]

  abbrev pub TakenOption :
      ℕ → TxState → Option (TxState × Option (Transmission F) × List Effect) → Type ℓ
  TakenOption available s none = Unit
  TakenOption available s (some (s', t, effects)) =
      Taken schedule absolute_slot slot_info available s s' t effects

  after_drop-Taken :
      (available : ℕ) (s : TxState) (index : ℕ) (before behind : List QueuedPacket)
      (q : QueuedPacket) (rest : Option (TxState × Option (Transmission F) × List Effect))
      → split_queue slot_info.destination (queue_at s index) ≡ some (before, q, behind)
      → available < remaining q
      → TakenOption available (drop_too_big s index before q behind) rest
      → TakenOption available s (
          after_drop schedule absolute_slot slot_info
            (dropped_too_big index q.info.source q.info.destination (length q.payload)
              ∷ published index
              ∷ [])
            rest)
  unfolding after_drop
  after_drop-Taken available s index before behind q none found big rest = tt
  after_drop-Taken available s index before behind q (some (s', t, effects)) found big rest =
      next index before behind q found big rest

  pub take_packet-Taken :
      (fuel : ℕ) (s : TxState) (used : ℕ)
      → TakenOption
          (capacity schedule absolute_slot slot_info - used)
          s
          (take_packet schedule absolute_slot slot_info fuel s used)
  unfolding take_packet
  take_packet-Taken zero s used = tt
  take_packet-Taken (suc fuel) s used =
      take_packet_cases (TakenOption (capacity schedule absolute_slot slot_info - used) s) fuel s
        used nothing
        (λ index before behind q found big.
          after_drop-Taken (capacity schedule absolute_slot slot_info - used) s index before behind
            q
            (take_packet schedule absolute_slot slot_info fuel
              (drop_too_big s index before q behind) used)
            found big (take_packet-Taken fuel (drop_too_big s index before q behind) used))
        (λ index before behind q found. sent index before behind q found)
