-- ===== src/Flow/Client.antt =====
-- rust/emane-core/src/flow_control_client.rs. What `send_cb` is called with is returned. A caller
-- that waits on the condition variable is a result `none`: it tries again after the next
-- `notify_all`.
use emane.Base.{ℕ, ◌-◌, Bool, true, false, not, ◌&&◌, Option, none, some, ◌==◌, if◌then◌else◌}

pub record FlowControlClient : Type 0 where
  pub tokens_available : ℕ
  pub cancel : Bool

unfoldable pub new : FlowControlClient
new = record { tokens_available = 0; cancel = false }

-- The argument of `send_cb`.
unfoldable pub start : FlowControlClient → ℕ
start c = c.tokens_available

unfoldable pub stop : FlowControlClient → FlowControlClient
stop c = record c { cancel = true }

unfoldable pub remove_token : FlowControlClient → Option (FlowControlClient × (ℕ × Bool))
remove_token c =
    if c.tokens_available == 0 && not c.cancel
    then none
    else (if c.cancel
        then some (c, (0, false))
        else some (
          record c { tokens_available = c.tokens_available - 1 },
          (c.tokens_available - 1, true),
        ))

-- The second part is the argument of `send_cb`.
unfoldable pub process_flow_control_message : FlowControlClient → ℕ → FlowControlClient × ℕ
process_flow_control_message c tokens = (record c { tokens_available = tokens }, tokens)

-- The C interface: a null pointer is `none`. What `send_cb` is called with is an `Option`.
abbrev pub Pointer : Type 0
Pointer = Option FlowControlClient

unfoldable pub ffi_start : Pointer → Option ℕ
ffi_start none = none
ffi_start (some c) = some (start c)

unfoldable pub ffi_stop : Pointer → Pointer
ffi_stop none = none
ffi_stop (some c) = some (stop c)

-- The result is the tokens and the status; `none` outside is a caller that waits.
unfoldable pub ffi_remove_token : Pointer → Option (Pointer × (ℕ × Bool))
ffi_remove_token none = some (none, (0, false))
ffi_remove_token (some c) = elim (remove_token c) [
  | none ↦ none
  | some (c', result) ↦ some (some c', result)
]

unfoldable pub ffi_process_message : Pointer → ℕ → Pointer × Option ℕ
ffi_process_message none tokens = (none, none)
ffi_process_message (some c) tokens =
    let (c', sent) = process_flow_control_message c tokens in (some c', some sent)
