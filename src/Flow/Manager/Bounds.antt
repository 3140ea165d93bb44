-- ===== src/Flow/Manager/Bounds.antt =====
-- The bounds of the manager's counters, and when its unchecked arithmetic stays in range.
use emane.Base.{ℕ, ◌+◌, ◌≤◌, ◌<◌, ◌≡◌, true, false, none, some, arith, ◌⊎◌}
use emane.Flow.Manager.{
  u16_mod, FlowControlManager, new, start, stop, add_token, remove_token,
  process_flow_control_message,
}

-- The counters are `u16` values, and the available tokens stay within the total.
pub record IsBounded (m : FlowControlManager) : Type 0 where
  pub within_total : m.tokens_available ≤ m.total_tokens_available
  pub total_u16 : m.total_tokens_available < u16_mod
  pub shadow_u16 : m.shadow_token_count < u16_mod
  pub last_u16 : m.last_tokens_update < u16_mod

-- The calls of the manager.
pub data Call : Type 0 where
  starts adds processes : ℕ → Call
  stops removes : Call

abbrev pub IsU16Call : Call → Type 0
IsU16Call (starts n) = n < u16_mod
IsU16Call (adds n) = n < u16_mod
IsU16Call (processes n) = n < u16_mod
IsU16Call stops = Unit {0}
IsU16Call removes = Unit {0}

unfoldable pub step : FlowControlManager → Call → FlowControlManager
step m (starts n) = (start m n).0
step m stops = stop m
step m (adds n) = (add_token m n).0
step m removes = (remove_token m).0
step m (processes n) = (process_flow_control_message m n).0

pub new-IsBounded : IsBounded new
unfolding new
new-IsBounded = omega arith

-- Each call with `u16` arguments keeps the available tokens within the total and every counter
-- a `u16`.
pub step-IsBounded :
    (m : FlowControlManager) (c : Call) → IsU16Call c → IsBounded m → IsBounded (step m c)
unfolding step start stop add_token remove_token process_flow_control_message
step-IsBounded m (starts n) u b = ground arith
step-IsBounded m stops u b = ground arith
step-IsBounded m (adds n) u b = ground arith
step-IsBounded m removes u b = ground arith
step-IsBounded m (processes n) u b = ground arith

-- `add_token` succeeds exactly when the sum stays within the total, and then adds with no
-- wrap-around; otherwise it leaves the count. It sends an update exactly when the client's copy was
-- 0 and tokens are left, and the update carries the new count, which becomes the client's copy.
pub add_token_lem :
    (m : FlowControlManager) (n : ℕ)
    → IsBounded m
    → let r = add_token m n in
      let m' = r.0 in
      (((m.tokens_available + n ≤ m.total_tokens_available)
          × (r.1.1 ≡ true)
          × (m'.tokens_available ≡ m.tokens_available + n))
        ⊎ ((m.total_tokens_available < m.tokens_available + n)
            × (r.1.1 ≡ false)
            × (m'.tokens_available ≡ m.tokens_available)))
      × (r.1.0 ≡ m'.tokens_available)
      × (((r.1.2 ≡ none) × ((0 < m.shadow_token_count) ⊎ (m'.tokens_available ≡ 0)))
          ⊎ ((r.1.2 ≡ some m'.tokens_available)
              × (m.shadow_token_count ≡ 0)
              × (0 < m'.tokens_available)
              × (m'.shadow_token_count ≡ m'.tokens_available)
              × (m'.last_tokens_update ≡ m'.tokens_available)
              × (m'.ack_pending ≡ true)))
unfolding add_token
add_token_lem m n b = ground arith
