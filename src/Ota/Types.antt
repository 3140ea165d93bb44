-- ===== src/Ota/Types.antt =====
-- The data of ota_manager.rs. Sizes and offsets are `usize` values of 64 bits; a time is a number
-- of nanoseconds, and `now.duration_since(t).unwrap_or(ZERO)` is `now - t`.
use emane.Base.{
  ℕ, ◌+◌, ◌≡◌, ◌↔◌, Bool, true, ◌&&◌, Option, none, some, ltb, ◌==◌, if◌then◌else◌, arith,
}
use emane.Base.Bytes.{Bytes}
use emane.Base.Dict.{Eq, Dict}
use emane.Base.SortedMap.{SortedMap}

abbrev pub usize_mod : ℕ
usize_mod = 18446744073709551616

abbrev pub max_ota_payload : ℕ
max_ota_payload = 67108864

abbrev pub checked_add : ℕ → ℕ → Option ℕ
checked_add a b = if ltb (a + b) usize_mod then some (a + b) else none

abbrev pub saturating_add : ℕ → ℕ → ℕ
saturating_add a b = if ltb (a + b) usize_mod then a + b else 18446744073709551615

pub record PartKey : Type 0 where
  pub source : ℕ
  pub sequence : ℕ

abbrev pub part_key_eq : PartKey → PartKey → Bool
part_key_eq a b = (a.source == b.source) && (a.sequence == b.sequence)

pub part_key_eq_iff : (a b : PartKey) → (part_key_eq a b ≡ true) ↔ (a ≡ b)
part_key_eq_iff a b = ground arith

instance abbrev pub part_key_Eq : Eq PartKey
part_key_Eq = record { eqb = part_key_eq; eqb_iff = part_key_eq_iff }

pub record PartsData : Type 0 where
  pub total_size : ℕ
  pub events_size : ℕ
  pub controls_size : ℕ
  pub data_size : ℕ
  pub parts : SortedMap Bytes
  pub last_part_time : ℕ
  pub uuid : Bytes

abbrev pub PartStore : Type 0
PartStore = Dict PartKey PartsData

-- The lengths of a payload's three sections, `PayloadInfo` of the header.
pub record PayloadInfo : Type 0 where
  pub data_length : ℕ
  pub control_length : ℕ
  pub event_length : ℕ

pub record OtaHeader : Type 0 where
  pub source : ℕ
  pub destination : ℕ
  pub sequence : ℕ
  pub uuid : Bytes
  pub payload_info : Option PayloadInfo

pub record PartInfo : Type 0 where
  pub more : ℕ
  pub offset : ℕ
  pub size : ℕ

-- The arguments of `handle_ota_message`.
pub record OtaMessage : Type 0 where
  pub source : ℕ
  pub destination : ℕ
  pub uuid : Bytes
  pub events_size : ℕ
  pub controls_size : ℕ
  pub data_size : ℕ
  pub payload : Bytes
