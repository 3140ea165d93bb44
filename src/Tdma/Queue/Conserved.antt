-- ===== src/Tdma/Queue/Conserved.antt =====
-- The bytes that wait in the queues while `take_transmission` runs.
use emane.Base.{
  ℕ, ◌+◌, ◌≡◌, ◌≤◌, Option, none, some, List, [], ◌∷◌, ◌++◌, arith, length, ltb, if◌then◌else◌, min,
  drop, set, inl, inr, Bool-cases, length-take, length-drop,
}
use emane.Tdma.Queue.{QueuedPacket, TxState, queue_at, split_queue}
use emane.Tdma.Queue.Removed.{weigh, weigh_all, weigh-append, set_split}
use emane.Tdma.Queue.Take.{
  Effect, dropped_too_big, published, Transmission, TxSlot, remaining, return_token, drop_too_big,
  count_taken, advance, take_from,
}
use emane.Tdma.Queue.Taken.{Taken, nothing, next, sent}
use emane.Tdma.Schedule.{Schedule}

-- The bytes that wait in the queues.
unfoldable pub pending : TxState → ℕ
pending s = weigh_all (λ q. remaining q) s.queues

-- The packets in the queues.
unfoldable pub packets : TxState → ℕ
packets s = weigh_all (λ q. 1) s.queues

unfoldable pub lost : List Effect → ℕ
lost [] = 0
lost (dropped_too_big queue source destination size ∷ effects) = size + lost effects
lost (published queue ∷ effects) = lost effects

drop_too_big-queues :
    (s : TxState) (index : ℕ) (before behind : List QueuedPacket) (q : QueuedPacket)
    → (drop_too_big s index before q behind).queues ≡ set s.queues index (before ++ behind)
unfolding drop_too_big return_token
drop_too_big-queues s index before behind q = ground arith

pub drop_too_big-weight :
    (f : QueuedPacket → ℕ) (s : TxState) (index destination : ℕ) (before behind : List QueuedPacket)
    (q : QueuedPacket)
    → split_queue destination (queue_at s index) ≡ some (before, q, behind)
    → weigh_all f (drop_too_big s index before q behind).queues + f q ≡ weigh_all f s.queues
drop_too_big-weight f s index destination before behind q found =
    rw (drop_too_big-queues s index before behind q) (
      ground (
        arith,
        set_split f s.queues index destination before behind (before ++ behind) q found,
        weigh-append f before behind,
      ))

module _ {ℓ} {F : Type ℓ} where
  unfoldable pub sent_bytes : Option (Transmission F) → ℕ
  sent_bytes none = 0
  sent_bytes (some t) = length t.bytes

  unfoldable pub IsConserving :
      ℕ → TxState → TxState → Option (Transmission F) → List Effect → Type 0
  IsConserving available s s' t effects =
      (sent_bytes t ≤ available)
      × (pending s' + sent_bytes t ≤ pending s)
      × (pending s ≤ pending s' + sent_bytes t + lost effects)

module _ {ℓ} {F : Type ℓ} (schedule : Schedule F) (absolute_slot : ℕ) (slot_info : TxSlot F) where
  pub take_from-queues :
      (s : TxState) (index : ℕ) (before behind : List QueuedPacket) (q : QueuedPacket)
      (available : ℕ)
      → (take_from schedule absolute_slot slot_info s index before q behind available).0.queues
        ≡ set s.queues index (
            if ltb (q.offset + min (remaining q) available) (length q.payload)
            then before ++ advance q (min (remaining q) available) ∷ behind
            else before ++ behind)
  unfolding take_from count_taken return_token
  take_from-queues s index before behind q available = ground arith

  pub take_from-bytes :
      (s : TxState) (index : ℕ) (before behind : List QueuedPacket) (q : QueuedPacket)
      (available : ℕ)
      → length
          (take_from schedule absolute_slot slot_info s index before q behind available).1.bytes
        ≡ min (remaining q) available
  unfolding take_from
  take_from-bytes s index before behind q available = ground (
    arith,
    length-drop q.offset q.payload,
    length-take (min (remaining q) available) (drop q.offset q.payload)
        (ground (arith, length-drop q.offset q.payload)),
  )

  take_from-pending :
      (s : TxState) (index destination : ℕ) (before behind : List QueuedPacket) (q : QueuedPacket)
      (available : ℕ)
      → split_queue destination (queue_at s index) ≡ some (before, q, behind)
      → pending (take_from schedule absolute_slot slot_info s index before q behind available).0
          + min (remaining q) available
        ≡ pending s
  unfolding pending weigh
  take_from-pending s index destination before behind q available found =
      rw (take_from-queues s index before behind q available)
        (elim (Bool-cases (ltb (q.offset + min (remaining q) available) (length q.payload))) [
          | inl more ↦ rw more (
              ground (
                arith,
                set_split (λ p. remaining p) s.queues index destination before behind
                    (before ++ advance q (min (remaining q) available) ∷ behind) q found,
                weigh-append (λ p. remaining p) before
                    (advance q (min (remaining q) available) ∷ behind),
              ))
          | inr last ↦ rw last (
              ground (
                arith,
                set_split (λ p. remaining p) s.queues index destination before behind
                    (before ++ behind) q found,
                weigh-append (λ p. remaining p) before behind,
              ))
        ])

  pub Taken-IsConserving :
      {available : ℕ} {s s' : TxState} {t : Option (Transmission F)} {effects : List Effect}
      → Taken schedule absolute_slot slot_info available s s' t effects
      → IsConserving available s s' t effects
  unfolding IsConserving sent_bytes lost pending
  Taken-IsConserving {available} (nothing {s}) = ground arith
  Taken-IsConserving {available}
        (next {s} {s'} {t} {effects} index before behind q found big rest) =
      ground (
        arith,
        Taken-IsConserving rest,
        drop_too_big-weight (λ p. remaining p) s index slot_info.destination before behind q found,
      )
  Taken-IsConserving {available} (sent {s} index before behind q found) = ground (
    arith,
    take_from-bytes s index before behind q available,
    take_from-pending s index slot_info.destination before behind q available found,
  )
