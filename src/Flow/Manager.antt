-- ===== src/Flow/Manager.antt =====
-- rust/emane-core/src/flow_control_manager.rs. Tokens are `u16`; where the code adds or subtracts
-- with no check, the wrap-around is written out.
pub mod Bounds
pub mod Ffi
use emane.Base.{
  ℕ, ◌+◌, ◌-◌, ◌%◌, ◌≤◌, ◌≡◌, Bool, true, false, not, ◌&&◌, Option, none, some, ltb, leb, ◌==◌,
  if◌then◌else◌,
}

abbrev pub u16_mod : ℕ
u16_mod = 65536

pub record FlowControlManager : Type 0 where
  pub tokens_available : ℕ
  pub total_tokens_available : ℕ
  pub shadow_token_count : ℕ
  pub last_tokens_update : ℕ
  pub ack_pending : Bool

unfoldable pub new : FlowControlManager
new = record {
  tokens_available = 0;
  total_tokens_available = 0;
  shadow_token_count = 0;
  last_tokens_update = 0;
  ack_pending = true;
}

unfoldable pub update_shadow_and_ack : FlowControlManager → FlowControlManager × ℕ
update_shadow_and_ack m =
    let tokens = m.tokens_available in
    (
      record m { shadow_token_count = tokens; last_tokens_update = tokens; ack_pending = true },
      tokens,
    )

unfoldable pub start : FlowControlManager → ℕ → FlowControlManager × ℕ
unfolding update_shadow_and_ack
start m total_tokens =
    update_shadow_and_ack
      (record m { total_tokens_available = total_tokens; tokens_available = total_tokens })

unfoldable pub stop : FlowControlManager → FlowControlManager
stop m = record m { total_tokens_available = 0; tokens_available = 0; shadow_token_count = 0 }

-- `Some(self.update_shadow_and_ack())`.
resend : FlowControlManager → FlowControlManager × Option ℕ
unfolding update_shadow_and_ack
resend m = let (m', tokens) = update_shadow_and_ack m in (m', some tokens)

-- The second half of `add_token`: an update when the client's copy has run out.
unfoldable pub send_update_if_empty : FlowControlManager → FlowControlManager × Option ℕ
unfolding resend
send_update_if_empty m =
    if m.shadow_token_count == 0 && ltb 0 m.tokens_available then resend m else (m, none)

-- The result is the tokens available, the status and the update to send, if any.
unfoldable pub add_token : FlowControlManager → ℕ → FlowControlManager × (ℕ × Bool × Option ℕ)
unfolding send_update_if_empty
add_token m tokens =
    let status = leb (m.tokens_available + tokens) m.total_tokens_available in
    let m' =
      if status
      then record m { tokens_available = (m.tokens_available + tokens) % u16_mod }
      else m in
    let (m'', send_update) = send_update_if_empty m' in
    (m'', (m''.tokens_available, status, send_update))

unfoldable pub remove_token : FlowControlManager → FlowControlManager × (ℕ × Bool)
remove_token m =
    if m.ack_pending
    then (m, (m.tokens_available, false))
    else (if m.tokens_available == 0
        then (m, (m.tokens_available, false))
        else (let m' = record m {
          tokens_available = m.tokens_available - 1;
          shadow_token_count = (m.shadow_token_count + u16_mod - 1) % u16_mod;
        } in
            (m', (m'.tokens_available, true))))

unfoldable pub process_flow_control_message : FlowControlManager → ℕ → FlowControlManager × Option ℕ
unfolding resend
process_flow_control_message m tokens =
    if not m.ack_pending
    then resend m
    else (if tokens == m.last_tokens_update
        then (record m { ack_pending = false }, none)
        else resend m)
