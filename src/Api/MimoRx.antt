-- ===== src/Api/MimoRx.antt =====
-- `MimoRxProperties`. The sums and products of lengths do not overflow: the counts have 16 bits.
pub mod RoundTrip
use emane.Base.{
  ℕ, ◌+◌, ◌*◌, ◌<◌, ◌≡◌, Bool, true, false, not, ◌&&◌, ◌||◌, Option, none, some, List, [], ◌∷◌,
  ◌++◌, length, drop, ltb, ◌==◌, if◌then◌else◌, is_some,
}
use emane.Base.Bytes.{Bytes, be16}
use emane.Base.Bytes.Fields.{u64_mod, be64, get_u8}
use emane.Api.{Floats, mimo_rx_properties_version, u16_mod}
use emane.Api.Segments.{RxFrequencySegment, rx_segment_bytes}
use emane.Api.Cursor.{Reader, ◌>>=◌, read_u16, read_u64, read_many}

pub record MimoRxAntennaInfo : Type 0 where
  pub receive_antenna_index : ℕ
  pub transmit_antenna_index : ℕ
  pub span_microseconds : ℕ
  pub receiver_sensitivity_dbm : ℕ
  pub noise_floor_dbm : ℕ
  pub segments : List RxFrequencySegment

-- A frequency and its shift.
pub record DopplerShift : Type 0 where
  pub frequency_hz : ℕ
  pub shift_hz : ℕ

pub record MimoRxProperties : Type 0 where
  pub tx_time_microseconds : ℕ
  pub propagation_microseconds : ℕ
  pub antenna_infos : List MimoRxAntennaInfo
  pub doppler_shifts_hz : List DopplerShift

unfoldable pub segments_bytes : List RxFrequencySegment → Bytes
segments_bytes [] = []
segments_bytes (s ∷ items) = rx_segment_bytes s ++ segments_bytes items

unfoldable pub info_bytes : MimoRxAntennaInfo → Bytes
info_bytes i =
    be16 i.receive_antenna_index
    ++ (be16 i.transmit_antenna_index
        ++ (be64 i.span_microseconds
            ++ (be64 i.receiver_sensitivity_dbm
                ++ (be64 i.noise_floor_dbm
                    ++ (be16 (length i.segments) ++ segments_bytes i.segments)))))

unfoldable pub infos_bytes : List MimoRxAntennaInfo → Bytes
infos_bytes [] = []
infos_bytes (i ∷ items) = info_bytes i ++ infos_bytes items

unfoldable pub shift_bytes : DopplerShift → Bytes
shift_bytes d = be64 d.frequency_hz ++ be64 d.shift_hz

unfoldable pub shifts_bytes : List DopplerShift → Bytes
shifts_bytes [] = []
shifts_bytes (d ∷ items) = shift_bytes d ++ shifts_bytes items

unfoldable pub rx_bytes : MimoRxProperties → Bytes
rx_bytes m =
    mimo_rx_properties_version
    ∷ (be64 m.tx_time_microseconds
        ++ (be64 m.propagation_microseconds
            ++ (be16 (length m.antenna_infos)
                ++ (infos_bytes m.antenna_infos
                    ++ (be16 (length m.doppler_shifts_hz) ++ shifts_bytes m.doppler_shifts_hz)))))

module _ (F : Floats) where
  unfoldable pub any_infinite_rx : List RxFrequencySegment → Bool
  any_infinite_rx [] = false
  any_infinite_rx (s ∷ items) = not (F.is_finite s.rx_power_dbm) || any_infinite_rx items

  unfoldable pub any_bad_info : List MimoRxAntennaInfo → Bool
  any_bad_info [] = false
  any_bad_info (i ∷ items) =
      ((length i.segments == 0)
        || ltb 65535 (length i.segments)
        || not (F.is_finite i.receiver_sensitivity_dbm)
        || not (F.is_finite i.noise_floor_dbm)
        || any_infinite_rx i.segments)
      || any_bad_info items

  unfoldable pub is_refused_rx : MimoRxProperties → Bool
  is_refused_rx m =
      ltb 65535 (length m.antenna_infos)
      || ltb 65535 (length m.doppler_shifts_hz)
      || (length m.antenna_infos == 0)
      || any_bad_info m.antenna_infos

  unfoldable pub encode_mimo_rx_properties : MimoRxProperties → Option Bytes
  encode_mimo_rx_properties m = if is_refused_rx m then none else some (rx_bytes m)

unfoldable pub read_rx_segment_at : Reader RxFrequencySegment
read_rx_segment_at input = read_u64 input >>= λ frequency. read_u64 frequency.1 >>= λ power.
    read_u64 power.1 >>= λ duration. read_u64 duration.1 >>= λ offset. some (
      record {
        frequency_hz = frequency.0;
        rx_power_dbm = power.0;
        duration_microseconds = duration.0;
        offset_microseconds = offset.0;
      },
      offset.1,
    )

-- The fields of an antenna before its segments.
pub record InfoHead : Type 0 where
  pub receive_antenna_index : ℕ
  pub transmit_antenna_index : ℕ
  pub span_microseconds : ℕ
  pub receiver_sensitivity_dbm : ℕ
  pub noise_floor_dbm : ℕ
  pub count : ℕ

unfoldable pub read_info_head : Reader InfoHead
read_info_head input = read_u16 input >>= λ receive. read_u16 receive.1 >>= λ transmit.
    read_u64 transmit.1 >>= λ span. read_u64 span.1 >>= λ sensitivity.
    read_u64 sensitivity.1 >>= λ noise. read_u16 noise.1 >>= λ count. some (
      record {
        receive_antenna_index = receive.0;
        transmit_antenna_index = transmit.0;
        span_microseconds = span.0;
        receiver_sensitivity_dbm = sensitivity.0;
        noise_floor_dbm = noise.0;
        count = count.0;
      },
      count.1,
    )

unfoldable pub read_info : Reader MimoRxAntennaInfo
read_info input = read_info_head input >>= λ head.
    if head.0.count == 0
    then none
    else (read_many read_rx_segment_at head.0.count head.1 >>= λ segments. some (
      record {
        receive_antenna_index = head.0.receive_antenna_index;
        transmit_antenna_index = head.0.transmit_antenna_index;
        span_microseconds = head.0.span_microseconds;
        receiver_sensitivity_dbm = head.0.receiver_sensitivity_dbm;
        noise_floor_dbm = head.0.noise_floor_dbm;
        segments = segments.0;
      },
      segments.1,
    ))

unfoldable pub read_shift : Reader DopplerShift
read_shift input = read_u64 input >>= λ frequency. read_u64 frequency.1 >>= λ shift.
    some (record { frequency_hz = frequency.0; shift_hz = shift.0 }, shift.1)

-- What comes after the counts and the times.
unfoldable pub read_infos : ℕ → ℕ → ℕ → Bytes → Option MimoRxProperties
read_infos tx_time propagation info_count input = read_many read_info info_count input >>= λ infos.
    read_u16 infos.1 >>= λ count.
    if not (length count.1 == count.0 * 16)
    then none
    else (read_many read_shift count.0 count.1 >>= λ shifts. some (record {
      tx_time_microseconds = tx_time;
      propagation_microseconds = propagation;
      antenna_infos = infos.0;
      doppler_shifts_hz = shifts.0;
    }))

unfoldable pub decode_mimo_rx_properties : Floats → Bytes → Option MimoRxProperties
decode_mimo_rx_properties F input =
    if ltb (length input) 21 || not (get_u8 input 0 == mimo_rx_properties_version)
    then none
    else (read_u64 (drop 1 input) >>= λ tx_time. read_u64 tx_time.1 >>= λ propagation.
        read_u16 propagation.1 >>= λ info_count.
        if info_count.0 == 0
        then none
        else (read_infos tx_time.0 propagation.0 info_count.0 info_count.1 >>= λ result.
            encode_mimo_rx_properties F result >>= λ encoded. some result))
