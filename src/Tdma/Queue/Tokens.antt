-- ===== src/Tdma/Queue/Tokens.antt =====
-- The flow control tokens of the TDMA model while packets leave the queues.
use emane.Base.{
  ℕ, ◌+◌, ◌≡◌, ◌≤◌, ◌<◌, refl, Bool, true, Option, some, List, ◌∷◌, ◌++◌, arith, length, ltb, min,
  inl, inr, Bool-cases,
}
use emane.Tdma.Queue.{QueuedPacket, TxState, queue_at, split_queue}
use emane.Tdma.Queue.Removed.{weigh, weigh-append, set_split}
use emane.Tdma.Queue.Take.{
  Effect, Transmission, TxSlot, remaining, return_token, drop_too_big, count_taken, advance,
  take_from,
}
use emane.Tdma.Queue.Taken.{Taken, nothing, next, sent}
use emane.Tdma.Queue.Conserved.{packets}
use emane.Tdma.Schedule.{Schedule}

pub record HasTokens (s : TxState) : Type 0 where
  pub enabled : s.flow_control_enable ≡ true
  pub is_u16 : s.flow_control_tokens < 65536
  pub bounded : s.available_tokens + packets s ≤ s.flow_control_tokens

-- The same tokens in all, and the same limit.
pub record SameTokens (s s' : TxState) : Type 0 where
  pub enabled : s'.flow_control_enable ≡ s.flow_control_enable
  pub limit : s'.flow_control_tokens ≡ s.flow_control_tokens
  pub outstanding : s'.available_tokens + packets s' ≡ s.available_tokens + packets s

return_token-available :
    (s : TxState)
    → s.flow_control_enable ≡ true
    → s.flow_control_tokens < 65536
    → s.available_tokens + 1 ≤ s.flow_control_tokens
    → (return_token s).available_tokens ≡ s.available_tokens + 1
unfolding return_token
return_token-available s enabled limit room = rw enabled (ground arith)

return_token-same :
    (r : TxState)
    → ((return_token r).flow_control_enable ≡ r.flow_control_enable)
      × ((return_token r).flow_control_tokens ≡ r.flow_control_tokens)
      × (packets (return_token r) ≡ packets r)
unfolding return_token packets
return_token-same r = ground arith

-- A packet leaves the queues, which gives `r`, and its token comes back.
return_token-SameTokens :
    (s r : TxState)
    → HasTokens s
    → r.flow_control_enable ≡ s.flow_control_enable
    → r.flow_control_tokens ≡ s.flow_control_tokens
    → r.available_tokens ≡ s.available_tokens
    → packets r + 1 ≡ packets s
    → SameTokens s (return_token r)
return_token-SameTokens s r h enabled limit available weight =
    let (e, l, p) = return_token-same r in
    record {
      enabled = ground (arith, e);
      limit = ground (arith, l);
      outstanding = ground (
        arith,
        p,
        h.bounded,
        return_token-available r (ground (arith, h.enabled)) (ground (arith, h.is_u16))
            (ground (arith, h.bounded)),
      );
    }

drop_too_big-SameTokens :
    (s : TxState) (index destination : ℕ) (before behind : List QueuedPacket) (q : QueuedPacket)
    → split_queue destination (queue_at s index) ≡ some (before, q, behind)
    → HasTokens s
    → SameTokens s (drop_too_big s index before q behind)
unfolding drop_too_big packets weigh
drop_too_big-SameTokens s index destination before behind q found h =
    return_token-SameTokens s _ h refl refl refl (
      ground (
        arith,
        set_split (λ p. 1) s.queues index destination before behind (before ++ behind) q found,
        weigh-append (λ p. 1) before behind,
      ))

module _ {ℓ} {F : Type ℓ} (schedule : Schedule F) (absolute_slot : ℕ) (slot_info : TxSlot F) where
  count_taken-SameTokens :
      (s r : TxState) (index service_class : ℕ) (more : Bool) (fragment_index : ℕ)
      → SameTokens s r
      → SameTokens s (count_taken r index service_class more fragment_index)
  unfolding count_taken packets
  count_taken-SameTokens s r index service_class more fragment_index same = record {
    enabled = same.enabled;
    limit = same.limit;
    outstanding = same.outstanding;
  }

  take_from-SameTokens :
      (s : TxState) (index destination : ℕ) (before behind : List QueuedPacket) (q : QueuedPacket)
      (available : ℕ)
      → split_queue destination (queue_at s index) ≡ some (before, q, behind)
      → HasTokens s
      → SameTokens s
          (take_from schedule absolute_slot slot_info s index before q behind available).0
  unfolding take_from packets weigh
  take_from-SameTokens s index destination before behind q available found h =
      count_taken-SameTokens s _ index slot_info.service_class _ q.fragment_index
        (elim (Bool-cases (ltb (q.offset + min (remaining q) available) (length q.payload))) [
          | inl more ↦ rw more record {
            enabled = refl;
            limit = refl;
            outstanding = ground (
              arith,
              set_split (λ p. 1) s.queues index destination before behind
                  (before ++ advance q (min (remaining q) available) ∷ behind) q found,
              weigh-append (λ p. 1) before (advance q (min (remaining q) available) ∷ behind),
            );
          }
          | inr last ↦ rw last (
              return_token-SameTokens s _ h refl refl refl (
                ground (
                  arith,
                  set_split (λ p. 1) s.queues index destination before behind (before ++ behind) q
                      found,
                  weigh-append (λ p. 1) before behind,
                )))
        ])

  SameTokens-HasTokens : {s s' : TxState} → HasTokens s → SameTokens s s' → HasTokens s'
  SameTokens-HasTokens h same = record {
    enabled = ground (arith, h.enabled, same.enabled);
    is_u16 = ground (arith, h.is_u16, same.limit);
    bounded = ground (arith, h.bounded, same.limit, same.outstanding);
  }

  pub Taken-SameTokens :
      {available : ℕ} {s s' : TxState} {t : Option (Transmission F)} {effects : List Effect}
      → Taken schedule absolute_slot slot_info available s s' t effects
      → HasTokens s
      → SameTokens s s'
  Taken-SameTokens (nothing {s}) h = record { enabled = refl; limit = refl; outstanding = refl }
  Taken-SameTokens {available} (next {s} {s'} index before behind q found big rest) h =
      let first = drop_too_big-SameTokens s index slot_info.destination before behind q found h in
      let second = Taken-SameTokens rest (SameTokens-HasTokens h first) in
      record {
        enabled = ground (arith, first.enabled, second.enabled);
        limit = ground (arith, first.limit, second.limit);
        outstanding = ground (arith, first.outstanding, second.outstanding);
      }
  Taken-SameTokens {available} (sent {s} index before behind q found) h =
      take_from-SameTokens s index slot_info.destination before behind q available found h
