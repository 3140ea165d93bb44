-- ===== src/Flow/Manager/Ffi.antt =====
-- The C interface of flow_control_manager.rs. A pointer is the manager that it points to, or `none`
-- where it is null; each call returns what it points to afterwards.
use emane.Base.{ℕ, Bool, false, Option, none, some, is_some, unwrap_or}
use emane.Flow.Manager
use emane.Flow.Manager.{FlowControlManager}

abbrev pub Pointer : Type 0
Pointer = Option FlowControlManager

pub record FfiAddTokenResult : Type 0 where
  pub tokens_available : ℕ
  pub status : Bool
  pub has_send_update : Bool
  pub send_update : ℕ

pub record FfiRemoveTokenResult : Type 0 where
  pub tokens_available : ℕ
  pub status : Bool

pub record FfiProcessMessageResult : Type 0 where
  pub has_send_update : Bool
  pub send_update : ℕ

unfoldable pub ffi_start : Pointer → ℕ → Pointer × ℕ
ffi_start none total = (none, 0)
ffi_start (some m) total = let (m', u) = Manager.start m total in (some m', u)

unfoldable pub ffi_stop : Pointer → Pointer
ffi_stop none = none
ffi_stop (some m) = some (Manager.stop m)

unfoldable pub ffi_add_token : Pointer → ℕ → Pointer × FfiAddTokenResult
ffi_add_token none tokens = (
  none,
  record { tokens_available = 0; status = false; has_send_update = false; send_update = 0 },
)
ffi_add_token (some m) tokens =
    let (m', (tokens_available, status, send_update)) = Manager.add_token m tokens in
    (
      some m',
      record {
        tokens_available = tokens_available;
        status = status;
        has_send_update = is_some send_update;
        send_update = unwrap_or send_update 0;
      },
    )

unfoldable pub ffi_remove_token : Pointer → Pointer × FfiRemoveTokenResult
ffi_remove_token none = (none, record { tokens_available = 0; status = false })
ffi_remove_token (some m) =
    let (m', (tokens_available, status)) = Manager.remove_token m in
    (some m', record { tokens_available = tokens_available; status = status })

unfoldable pub ffi_process_message : Pointer → ℕ → Pointer × FfiProcessMessageResult
ffi_process_message none tokens = (none, record { has_send_update = false; send_update = 0 })
ffi_process_message (some m) tokens =
    let (m', res) = Manager.process_flow_control_message m tokens in
    (some m', record { has_send_update = is_some res; send_update = unwrap_or res 0 })
