-- ===== src/Boundary.antt =====
-- boundary_message_manager.rs: the messages that a NEM exchanges with its transport over UDP or
-- TCP. Here are its data; a byte slice of the FFI is the `Buffer` of the OTA manager.
pub mod Controls
pub mod Message
pub mod Endpoint
pub mod Stream
mod Tests
use emane.Base.{ℕ, Bool, true, false, List, ◌≡◌, refl, if◌then◌else◌}
use emane.Base.Bytes.{Bytes}
use emane.Ota.Manager.Send.{Buffer}
use emane.Tdma.Queue.{PacketInfo}

pub record OwnedControlMessage : Type 0 where
  pub message_type : ℕ
  pub payload : Bytes

pub record FfiControlMessage : Type 0 where
  pub msg_type : ℕ
  pub payload : Buffer

pub record FfiPacket : Type 0 where
  pub info : PacketInfo
  pub payload : Buffer

pub record BoundaryPacket : Type 0 where
  pub info : PacketInfo
  pub payload : Bytes
  pub controls : List OwnedControlMessage

pub data BoundaryMessage : Type 0 where
  packet : BoundaryPacket → BoundaryMessage
  control : List OwnedControlMessage → BoundaryMessage

-- The errors, one for each text.
pub data BoundaryError : Type 0 where
  null_payload too_many_controls not_legacy control_too_large : BoundaryError
  length_overflow too_large truncated bad_length trailing unknown_type : BoundaryError
  closed not_connected short_write failed_write : BoundaryError

pub data Checked {ℓ} (A : Type ℓ) : Type ℓ where
  valid : A → Checked A
  failed : BoundaryError → Checked A

infixl 5 ◌>>=◌
abbrev pub ◌>>=◌ {ℓ κ} : {A : Type ℓ} {B : Type κ} → Checked A → (A → Checked B) → Checked B
valid a >>= next = next a
failed why >>= next = failed why

-- A chain that comes to a value has a first step that does.
pub bind-valid {ℓ κ} :
    {A : Type ℓ} {B : Type κ} (first : Checked A) (next : A → Checked B) {b : B}
    → (first >>= next) ≡ valid b
    → (a : A) × (first ≡ valid a) × (next a ≡ valid b)
bind-valid (valid a) next e = (a, refl, e)
bind-valid (failed why) next e = cc

pub valid-inj {ℓ} : {A : Type ℓ} {a b : A} → valid a ≡ valid b → a ≡ b
valid-inj e = cc

-- A guarded step that comes to a value has passed its guard.
pub guard-valid {ℓ} :
    {A : Type ℓ} (test : Bool) (why : BoundaryError) {next : Checked A} {a : A}
    → (if test then failed why else next) ≡ valid a
    → (test ≡ false) × (next ≡ valid a)
guard-valid true why e = cc
guard-valid false why e = (refl, e)
