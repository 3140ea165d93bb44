-- ===== src/Api/MimoRx/RoundTrip.antt =====
-- Properties of a reception that are encoded and decoded.
use emane.Base.{
  ◌*◌, ◌<◌, ◌≡◌, refl, sym, ap, subst, ◌∙◌, false, not, some, List, [], ◌∷◌, ◌++◌, length,
  length-append, ltb, ◌==◌, arith,
}
use mathlib.Core.List.{append-nil}
use emane.Base.Bytes.{Bytes, be16, be32}
use emane.Base.Bytes.Fields.{u64_mod, be64, get_u8, head16-be16, head64-be64}
use emane.Api.{Floats, mimo_rx_properties_version, u16_mod, unless-some}
use emane.Api.Segments.{RxFrequencySegment, rx_segment_bytes, RxFrequencySegmentFits}
use emane.Api.Cursor.{
  ◌>>=◌, read_u16, read_u64, read_many, Cursor, write_many, AllFit, read_many-write_many,
  read_u16-be16, read_u64-be64,
}
use emane.Api.MimoRx.{
  MimoRxAntennaInfo, DopplerShift, MimoRxProperties, segments_bytes, info_bytes, infos_bytes,
  shift_bytes, shifts_bytes, rx_bytes, any_bad_info, is_refused_rx, encode_mimo_rx_properties,
  read_rx_segment_at, read_info, read_info_head, read_shift, read_infos, decode_mimo_rx_properties,
}

pub read_rx_segment_at-bytes :
    (s : RxFrequencySegment) (rest : Bytes)
    → RxFrequencySegmentFits s
    → read_rx_segment_at (rx_segment_bytes s ++ rest) ≡ some (s, rest)
unfolding read_rx_segment_at rx_segment_bytes read_u64 be64 be32
read_rx_segment_at-bytes s rest h =
    let e0 = head64-be64 s.frequency_hz [] h.0 in
    let e1 = head64-be64 s.rx_power_dbm [] h.1 in
    let e2 = head64-be64 s.duration_microseconds [] h.2 in
    let e3 = head64-be64 s.offset_microseconds [] h.3 in cc

abbrev rx_segment_cursor : Cursor RxFrequencySegment
rx_segment_cursor = record {
  bytes = rx_segment_bytes;
  read = read_rx_segment_at;
  Fits = RxFrequencySegmentFits;
  read-bytes = read_rx_segment_at-bytes;
}

segments_bytes-write_many :
    (items : List RxFrequencySegment) → segments_bytes items ≡ write_many rx_segment_cursor items
unfolding segments_bytes write_many
segments_bytes-write_many [] = refl
segments_bytes-write_many (s ∷ items) =
    ap (λ x. rx_segment_bytes s ++ x) (segments_bytes-write_many items)

abbrev InfoFits : MimoRxAntennaInfo → Type 0
InfoFits i =
    (i.receive_antenna_index < u16_mod)
    × (i.transmit_antenna_index < u16_mod)
    × (i.span_microseconds < u64_mod)
    × (i.receiver_sensitivity_dbm < u64_mod)
    × (i.noise_floor_dbm < u64_mod)
    × AllFit rx_segment_cursor i.segments

-- What is read before the segments of an antenna.
read_info-head :
    (i : MimoRxAntennaInfo) (rest : Bytes)
    → InfoFits i
    → length i.segments < u16_mod
    → read_info_head (info_bytes i ++ rest)
      ≡ some (
        record {
          receive_antenna_index = i.receive_antenna_index;
          transmit_antenna_index = i.transmit_antenna_index;
          span_microseconds = i.span_microseconds;
          receiver_sensitivity_dbm = i.receiver_sensitivity_dbm;
          noise_floor_dbm = i.noise_floor_dbm;
          count = length i.segments;
        },
        segments_bytes i.segments ++ rest,
      )
unfolding read_info_head info_bytes read_u16 read_u64 be64 be32 be16
read_info-head i rest h k =
    let e0 = head16-be16 i.receive_antenna_index [] h.0 in
    let e1 = head16-be16 i.transmit_antenna_index [] h.1 in
    let e2 = head64-be64 i.span_microseconds [] h.2 in
    let e3 = head64-be64 i.receiver_sensitivity_dbm [] h.3 in
    let e4 = head64-be64 i.noise_floor_dbm [] h.4 in
    let e5 = head16-be16 (length i.segments) [] k in cc

read_info-info_bytes :
    (i : MimoRxAntennaInfo) (rest : Bytes)
    → InfoFits i × (0 < length i.segments) × (length i.segments < u16_mod)
    → read_info (info_bytes i ++ rest) ≡ some (i, rest)
unfolding read_info
read_info-info_bytes i rest h =
    let there : (length i.segments == 0) ≡ false = ground (arith, h.1) in
    rw (read_info-head i rest h.0 h.2) (
      rw there (
        rw (segments_bytes-write_many i.segments)
          (rw (read_many-write_many rx_segment_cursor i.segments rest h.0.5))))

abbrev info_cursor : Cursor MimoRxAntennaInfo
info_cursor = record {
  bytes = info_bytes;
  read = read_info;
  Fits = λ i. InfoFits i × (0 < length i.segments) × (length i.segments < u16_mod);
  read-bytes = read_info-info_bytes;
}

abbrev ShiftFits : DopplerShift → Type 0
ShiftFits d = (d.frequency_hz < u64_mod) × (d.shift_hz < u64_mod)

pub read_shift-shift_bytes :
    (d : DopplerShift) (rest : Bytes)
    → ShiftFits d
    → read_shift (shift_bytes d ++ rest) ≡ some (d, rest)
unfolding read_shift shift_bytes read_u64 be64 be32
read_shift-shift_bytes d rest h =
    let e0 = head64-be64 d.frequency_hz [] h.0 in let e1 = head64-be64 d.shift_hz [] h.1 in cc

abbrev shift_cursor : Cursor DopplerShift
shift_cursor = record {
  bytes = shift_bytes;
  read = read_shift;
  Fits = ShiftFits;
  read-bytes = read_shift-shift_bytes;
}

infos_bytes-write_many :
    (items : List MimoRxAntennaInfo) → infos_bytes items ≡ write_many info_cursor items
unfolding infos_bytes write_many
infos_bytes-write_many [] = refl
infos_bytes-write_many (i ∷ items) = ap (λ x. info_bytes i ++ x) (infos_bytes-write_many items)

shifts_bytes-write_many :
    (items : List DopplerShift) → shifts_bytes items ≡ write_many shift_cursor items
unfolding shifts_bytes write_many
shifts_bytes-write_many [] = refl
shifts_bytes-write_many (d ∷ items) = ap (λ x. shift_bytes d ++ x) (shifts_bytes-write_many items)

length-shifts : (items : List DopplerShift) → length (shifts_bytes items) ≡ length items * 16
unfolding shifts_bytes shift_bytes be64 be32
length-shifts [] = omega arith
length-shifts (d ∷ items) = omega (arith, length-shifts items)

abbrev AllInfosFit : List MimoRxAntennaInfo → Type 0
AllInfosFit [] = Unit {0}
AllInfosFit (i ∷ items) = InfoFits i × AllInfosFit items

abbrev pub MimoRxPropertiesFits : MimoRxProperties → Type 0
MimoRxPropertiesFits m =
    (m.tx_time_microseconds < u64_mod)
    × (m.propagation_microseconds < u64_mod)
    × AllInfosFit m.antenna_infos
    × AllFit shift_cursor m.doppler_shifts_hz

infos-Fit :
    (F : Floats) (items : List MimoRxAntennaInfo)
    → AllInfosFit items
    → any_bad_info F items ≡ false
    → AllFit info_cursor items
unfolding any_bad_info
infos-Fit F [] f e = tt
infos-Fit F (i ∷ items) f e = ground (arith, infos-Fit F items f.1)

read_infos-bytes :
    (m : MimoRxProperties)
    → AllFit info_cursor m.antenna_infos
    → AllFit shift_cursor m.doppler_shifts_hz
    → length m.doppler_shifts_hz < u16_mod
    → read_infos m.tx_time_microseconds m.propagation_microseconds (length m.antenna_infos) (
        infos_bytes m.antenna_infos
        ++ (be16 (length m.doppler_shifts_hz) ++ shifts_bytes m.doppler_shifts_hz))
      ≡ some m
unfolding read_infos
read_infos-bytes m f g h =
    let tail : Bytes = shifts_bytes m.doppler_shifts_hz in
    let shifts : read_many read_shift (length m.doppler_shifts_hz) tail
        ≡ some (m.doppler_shifts_hz, []) =
      ap (read_many read_shift (length m.doppler_shifts_hz)) (
        shifts_bytes-write_many m.doppler_shifts_hz
        ∙ sym (append-nil (write_many shift_cursor m.doppler_shifts_hz)))
      ∙ read_many-write_many shift_cursor m.doppler_shifts_hz [] g in
    let even : not (length tail == length m.doppler_shifts_hz * 16) ≡ false =
      ground (arith, length-shifts m.doppler_shifts_hz) in
    rw (infos_bytes-write_many m.antenna_infos) (
      rw
        (read_many-write_many info_cursor m.antenna_infos
          (be16 (length m.doppler_shifts_hz) ++ tail) f)
        (rw (read_u16-be16 (length m.doppler_shifts_hz) tail h) (rw even (rw shifts))))

rx_bytes-head :
    (m : MimoRxProperties)
    → (ltb (length (rx_bytes m)) 21 ≡ false) × (get_u8 (rx_bytes m) 0 ≡ mimo_rx_properties_version)
unfolding rx_bytes get_u8 be64 be32 be16
rx_bytes-head m = (
  ground (
    arith,
    length-append (infos_bytes m.antenna_infos)
        (be16 (length m.doppler_shifts_hz) ++ shifts_bytes m.doppler_shifts_hz),
  ),
  refl,
)

rx_bytes-read :
    (F : Floats) (m : MimoRxProperties)
    → m.tx_time_microseconds < u64_mod
    → m.propagation_microseconds < u64_mod
    → 0 < length m.antenna_infos
    → length m.antenna_infos < u16_mod
    → decode_mimo_rx_properties F (rx_bytes m) ≡ (
        read_infos m.tx_time_microseconds m.propagation_microseconds (length m.antenna_infos) (
          infos_bytes m.antenna_infos
          ++ (be16 (length m.doppler_shifts_hz) ++ shifts_bytes m.doppler_shifts_hz))
        >>= λ result. encode_mimo_rx_properties F result >>= λ encoded. some result)
unfolding decode_mimo_rx_properties rx_bytes
rx_bytes-read F m h k pos few =
    let there : (length m.antenna_infos == 0) ≡ false = ground arith in
    let (long, version) = rx_bytes-head m in
    rw long (
      rw version (
        rw (read_u64-be64 m.tx_time_microseconds _ h) (
          rw (read_u64-be64 m.propagation_microseconds _ k)
            (rw (read_u16-be16 (length m.antenna_infos) _ few) (rw there)))))

-- Whatever properties `encode` accepts, all of whose numbers are within their types, `decode` reads
-- from its bytes.
pub decode-encode_mimo_rx_properties :
    (F : Floats) (m : MimoRxProperties) (encoded : Bytes)
    → MimoRxPropertiesFits m
    → encode_mimo_rx_properties F m ≡ some encoded
    → decode_mimo_rx_properties F encoded ≡ some m
unfolding encode_mimo_rx_properties is_refused_rx
decode-encode_mimo_rx_properties F m encoded f e =
    let (fine, shape) = unless-some (is_refused_rx F m) e in
    let infos = infos-Fit F m.antenna_infos f.2 (ground arith) in
    let read = read_infos-bytes m infos f.3 (ground arith) in
    subst (λ b. decode_mimo_rx_properties F b ≡ some m) shape
      (rx_bytes-read F m f.0 f.1 (ground arith) (ground arith) ∙ rw read (rw e))
