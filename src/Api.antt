-- ===== src/Api.antt =====
-- The codecs of emane-plugin-api: the control messages of the MAC and PHY boundary. An `f64` or `f32` is
-- its bit pattern, `to_bits`, and an `i64` is its `as u64`; `Floats` has the tests of the floats.
pub mod Headers
pub mod Properties
pub mod Entries
pub mod Metrics
pub mod Segments
pub mod Interest
pub mod Cursor
pub mod Pattern
pub mod MimoTx
pub mod RxAntenna
pub mod MimoRx
pub mod Message
mod Tests
use emane.Base.{
  ℕ, Bool, true, false, Option, none, some, ◌≡◌, refl, if◌then◌else◌, ◌&&◌, ◌==◌, length, ◌∷◌,
}
use emane.Base.Bytes.{Bytes}
use emane.Base.Bytes.Fields.{zeros, get_u8}

pub record Floats : Type 0 where
  pub is_finite : ℕ → Bool
  pub is_finite_f32 : ℕ → Bool
  pub is_azimuth : ℕ → Bool
  pub is_elevation : ℕ → Bool

abbrev pub properties_version : ℕ
properties_version = 1

abbrev pub mimo_tx_properties_version : ℕ
mimo_tx_properties_version = 2

abbrev pub mimo_rx_properties_version : ℕ
mimo_rx_properties_version = 2

-- Values of `u16`, `u32` and `u64`.
abbrev pub u16_mod : ℕ
u16_mod = 65536

abbrev pub u32_mod : ℕ
u32_mod = 4294967296

-- `[0u8; length]` with the version in front, and the test of both.
abbrev pub versioned : ℕ → Bytes
versioned rest = properties_version ∷ zeros rest

abbrev pub is_versioned : Bytes → ℕ → Bool
is_versioned input size = (length input == size) && (get_u8 input 0 == properties_version)

-- A guarded encoder that comes to bytes has passed its guard.
pub unless-some {ℓ} :
    {A : Type ℓ} (bad : Bool) {x encoded : A}
    → (if bad then none else some x) ≡ some encoded
    → (bad ≡ false) × (x ≡ encoded)
unless-some true e = cc
unless-some false e = (refl, cc)

pub otherwise-some {ℓ} :
    {A : Type ℓ} (bad : Bool) {next : Option A} {encoded : A}
    → (if bad then none else next) ≡ some encoded
    → (bad ≡ false) × (next ≡ some encoded)
otherwise-some true e = cc
otherwise-some false e = (refl, e)
