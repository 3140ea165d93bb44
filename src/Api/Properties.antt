-- ===== src/Api/Properties.antt =====
-- `TxProperties`, `RxProperties` and `TxAntennaProfile`.
use emane.Base.{
  ℕ, ◌<◌, ◌≡◌, refl, subst, Bool, true, false, not, ◌&&◌, ◌||◌, Option, none, some, [], leb, ◌==◌,
  if◌then◌else◌,
}
use emane.Base.Bytes.{Bytes, be16, be32}
use emane.Base.Bytes.Fields.{
  u64_mod, be64, get_u8, get_u16, get_u64, put_u8, put_u16, put_u64, head16-be16, head64-be64,
}
use emane.Api.{Floats, unless-some, u16_mod, versioned, is_versioned}

pub record TxProperties : Type 0 where
  pub frequency_hz : ℕ
  pub bandwidth_hz : ℕ
  pub tx_power_dbm : ℕ
  pub duration_microseconds : ℕ
  pub offset_microseconds : ℕ
  pub tx_time_microseconds : ℕ
  pub antenna_index : ℕ
  pub spectral_mask_index : ℕ
  pub sub_id : ℕ

unfoldable pub encode_tx_properties : TxProperties → Bytes
encode_tx_properties m =
    let d1 = put_u64 (versioned 54) 1 m.frequency_hz in
    let d2 = put_u64 d1 9 m.bandwidth_hz in
    let d3 = put_u64 d2 17 m.tx_power_dbm in
    let d4 = put_u64 d3 25 m.duration_microseconds in
    let d5 = put_u64 d4 33 m.offset_microseconds in
    let d6 = put_u64 d5 41 m.tx_time_microseconds in
    let d7 = put_u16 d6 49 m.antenna_index in
    let d8 = put_u16 d7 51 m.spectral_mask_index in put_u16 d8 53 m.sub_id

unfoldable pub decode_tx_properties : Bytes → Option TxProperties
decode_tx_properties input =
    if is_versioned input 55
    then some (record {
      frequency_hz = get_u64 input 1;
      bandwidth_hz = get_u64 input 9;
      tx_power_dbm = get_u64 input 17;
      duration_microseconds = get_u64 input 25;
      offset_microseconds = get_u64 input 33;
      tx_time_microseconds = get_u64 input 41;
      antenna_index = get_u16 input 49;
      spectral_mask_index = get_u16 input 51;
      sub_id = get_u16 input 53;
    })
    else none

abbrev pub TxPropertiesFits : TxProperties → Type 0
TxPropertiesFits m =
    (m.frequency_hz < u64_mod)
    × (m.bandwidth_hz < u64_mod)
    × (m.tx_power_dbm < u64_mod)
    × (m.duration_microseconds < u64_mod)
    × (m.offset_microseconds < u64_mod)
    × (m.tx_time_microseconds < u64_mod)
    × (m.antenna_index < u16_mod)
    × (m.spectral_mask_index < u16_mod)
    × (m.sub_id < u16_mod)

pub decode-encode_tx_properties :
    (m : TxProperties) → TxPropertiesFits m → decode_tx_properties (encode_tx_properties m) ≡ some m
unfolding decode_tx_properties encode_tx_properties put_u64 put_u16 get_u64 get_u16 get_u8 be16 be32
    be64
decode-encode_tx_properties m h =
    let e0 = head64-be64 m.frequency_hz [] h.0 in
    let e1 = head64-be64 m.bandwidth_hz [] h.1 in
    let e2 = head64-be64 m.tx_power_dbm [] h.2 in
    let e3 = head64-be64 m.duration_microseconds [] h.3 in
    let e4 = head64-be64 m.offset_microseconds [] h.4 in
    let e5 = head64-be64 m.tx_time_microseconds [] h.5 in
    let e6 = head16-be16 m.antenna_index [] h.6 in
    let e7 = head16-be16 m.spectral_mask_index [] h.7 in let e8 = head16-be16 m.sub_id [] h.8 in cc

pub record RxProperties : Type 0 where
  pub frequency_hz : ℕ
  pub bandwidth_hz : ℕ
  pub rx_power_dbm : ℕ
  pub noise_floor_dbm : ℕ
  pub tx_time_microseconds : ℕ
  pub propagation_microseconds : ℕ
  pub duration_microseconds : ℕ
  pub antenna_index : ℕ
  pub sub_id : ℕ
  pub signal_in_noise : Bool

unfoldable pub encode_rx_properties : RxProperties → Bytes
encode_rx_properties m =
    let d1 = put_u64 (versioned 62) 1 m.frequency_hz in
    let d2 = put_u64 d1 9 m.bandwidth_hz in
    let d3 = put_u64 d2 17 m.rx_power_dbm in
    let d4 = put_u64 d3 25 m.noise_floor_dbm in
    let d5 = put_u64 d4 33 m.tx_time_microseconds in
    let d6 = put_u64 d5 41 m.propagation_microseconds in
    let d7 = put_u64 d6 49 m.duration_microseconds in
    let d8 = put_u16 d7 57 m.antenna_index in
    let d9 = put_u16 d8 59 m.sub_id in put_u8 d9 61 (if m.signal_in_noise then 1 else 0)

unfoldable pub decode_rx_properties : Bytes → Option RxProperties
decode_rx_properties input =
    if is_versioned input 63 && leb (get_u8 input 61) 1
    then some (record {
      frequency_hz = get_u64 input 1;
      bandwidth_hz = get_u64 input 9;
      rx_power_dbm = get_u64 input 17;
      noise_floor_dbm = get_u64 input 25;
      tx_time_microseconds = get_u64 input 33;
      propagation_microseconds = get_u64 input 41;
      duration_microseconds = get_u64 input 49;
      antenna_index = get_u16 input 57;
      sub_id = get_u16 input 59;
      signal_in_noise = not (get_u8 input 61 == 0);
    })
    else none

abbrev pub RxPropertiesFits : RxProperties → Type 0
RxPropertiesFits m =
    (m.frequency_hz < u64_mod)
    × (m.bandwidth_hz < u64_mod)
    × (m.rx_power_dbm < u64_mod)
    × (m.noise_floor_dbm < u64_mod)
    × (m.tx_time_microseconds < u64_mod)
    × (m.propagation_microseconds < u64_mod)
    × (m.duration_microseconds < u64_mod)
    × (m.antenna_index < u16_mod)
    × (m.sub_id < u16_mod)

decode-encode_rx_with :
    (m : RxProperties) (b : Bool)
    → RxPropertiesFits m
    → decode_rx_properties (encode_rx_properties (record m { signal_in_noise = b }))
      ≡ some (record m { signal_in_noise = b })
unfolding decode_rx_properties encode_rx_properties put_u64 put_u16 put_u8 get_u64 get_u16 get_u8
    be16 be32 be64
decode-encode_rx_with m true h =
    let e0 = head64-be64 m.frequency_hz [] h.0 in
    let e1 = head64-be64 m.bandwidth_hz [] h.1 in
    let e2 = head64-be64 m.rx_power_dbm [] h.2 in
    let e3 = head64-be64 m.noise_floor_dbm [] h.3 in
    let e4 = head64-be64 m.tx_time_microseconds [] h.4 in
    let e5 = head64-be64 m.propagation_microseconds [] h.5 in
    let e6 = head64-be64 m.duration_microseconds [] h.6 in
    let e7 = head16-be16 m.antenna_index [] h.7 in let e8 = head16-be16 m.sub_id [] h.8 in cc
decode-encode_rx_with m false h =
    let e0 = head64-be64 m.frequency_hz [] h.0 in
    let e1 = head64-be64 m.bandwidth_hz [] h.1 in
    let e2 = head64-be64 m.rx_power_dbm [] h.2 in
    let e3 = head64-be64 m.noise_floor_dbm [] h.3 in
    let e4 = head64-be64 m.tx_time_microseconds [] h.4 in
    let e5 = head64-be64 m.propagation_microseconds [] h.5 in
    let e6 = head64-be64 m.duration_microseconds [] h.6 in
    let e7 = head16-be16 m.antenna_index [] h.7 in let e8 = head16-be16 m.sub_id [] h.8 in cc

pub decode-encode_rx_properties :
    (m : RxProperties) → RxPropertiesFits m → decode_rx_properties (encode_rx_properties m) ≡ some m
decode-encode_rx_properties m h = decode-encode_rx_with m m.signal_in_noise h

pub record TxAntennaProfile : Type 0 where
  pub profile_id : ℕ
  pub azimuth_degrees : ℕ
  pub elevation_degrees : ℕ

unfoldable pub is_bad_profile : Floats → TxAntennaProfile → Bool
is_bad_profile F m =
    (m.profile_id == 0)
    || not (F.is_finite m.azimuth_degrees)
    || not (F.is_azimuth m.azimuth_degrees)
    || not (F.is_finite m.elevation_degrees)
    || not (F.is_elevation m.elevation_degrees)

unfoldable pub is_good_profile : Floats → TxAntennaProfile → Bool
is_good_profile F m =
    not (m.profile_id == 0)
    && F.is_finite m.azimuth_degrees
    && F.is_azimuth m.azimuth_degrees
    && F.is_finite m.elevation_degrees
    && F.is_elevation m.elevation_degrees

abbrev profile_bytes : TxAntennaProfile → Bytes
profile_bytes m =
    put_u64 (put_u64 (put_u16 (versioned 18) 1 m.profile_id) 3 m.azimuth_degrees) 11
      m.elevation_degrees

abbrev read_profile : Bytes → TxAntennaProfile
read_profile input = record {
  profile_id = get_u16 input 1;
  azimuth_degrees = get_u64 input 3;
  elevation_degrees = get_u64 input 11;
}

unfoldable pub encode_tx_antenna_profile : Floats → TxAntennaProfile → Option Bytes
encode_tx_antenna_profile F m = if is_bad_profile F m then none else some (profile_bytes m)

unfoldable pub decode_tx_antenna_profile : Floats → Bytes → Option TxAntennaProfile
decode_tx_antenna_profile F input =
    if is_versioned input 19
    then (if is_good_profile F (read_profile input) then some (read_profile input) else none)
    else none

abbrev pub TxAntennaProfileFits : TxAntennaProfile → Type 0
TxAntennaProfileFits m =
    (m.profile_id < u16_mod) × (m.azimuth_degrees < u64_mod) × (m.elevation_degrees < u64_mod)

pub bad_or_good :
    (F : Floats) (m : TxAntennaProfile) → is_good_profile F m ≡ not (is_bad_profile F m)
unfolding is_good_profile is_bad_profile
bad_or_good F m =
    de_morgan (m.profile_id == 0) (F.is_finite m.azimuth_degrees) (F.is_azimuth m.azimuth_degrees)
      (F.is_finite m.elevation_degrees) (F.is_elevation m.elevation_degrees)
  where
    de_morgan :
        (a b c d e : Bool)
        → (not a && b && c && d && e) ≡ not (a || not b || not c || not d || not e)
    de_morgan true b c d e = refl
    de_morgan false false c d e = refl
    de_morgan false true false d e = refl
    de_morgan false true true false e = refl
    de_morgan false true true true false = refl
    de_morgan false true true true true = refl

read_profile-profile_bytes :
    (m : TxAntennaProfile)
    → TxAntennaProfileFits m
    → (is_versioned (profile_bytes m) 19 ≡ true) × (read_profile (profile_bytes m) ≡ m)
unfolding put_u64 put_u16 get_u64 get_u16 get_u8 be16 be32 be64
read_profile-profile_bytes m h =
    let e0 = head16-be16 m.profile_id [] h.0 in
    let e1 = head64-be64 m.azimuth_degrees [] h.1 in
    let e2 = head64-be64 m.elevation_degrees [] h.2 in (refl, cc)

pub decode-encode_tx_antenna_profile :
    (F : Floats) (m : TxAntennaProfile) (encoded : Bytes)
    → TxAntennaProfileFits m
    → encode_tx_antenna_profile F m ≡ some encoded
    → decode_tx_antenna_profile F encoded ≡ some m
unfolding decode_tx_antenna_profile encode_tx_antenna_profile
decode-encode_tx_antenna_profile F m encoded h e =
    let (version, same) = read_profile-profile_bytes m h in
    let (fine, shape) = unless-some (is_bad_profile F m) e in
    subst (λ b. decode_tx_antenna_profile F b ≡ some m) shape
      (rw version (rw same (rw (bad_or_good F m) (rw fine))))
