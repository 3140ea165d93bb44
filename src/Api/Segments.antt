-- ===== src/Api/Segments.antt =====
-- Frequency segments and transmitters.
use emane.Base.{
  ℕ, ◌+◌, ◌<◌, ◌≡◌, refl, false, not, ◌||◌, Option, List, [], ◌++◌, length, drop, ◌==◌,
}
use emane.Base.Bytes.{Bytes, be16, be32}
use emane.Base.Bytes.Fields.{
  u64_mod, be64, get_u16, get_u64, head16-be16, head64-be64, get_u64-drop,
}
use emane.Api.{Floats, u16_mod}
use emane.Api.Entries.{Entry, encode_table, decode_table}

pub record TxFrequencySegment : Type 0 where
  pub frequency_hz : ℕ
  pub duration_microseconds : ℕ
  pub offset_microseconds : ℕ

unfoldable pub tx_segment_bytes : TxFrequencySegment → Bytes
tx_segment_bytes m =
    be64 m.frequency_hz ++ (be64 m.duration_microseconds ++ (be64 m.offset_microseconds))

unfoldable pub read_tx_segment : Bytes → ℕ → TxFrequencySegment
read_tx_segment input offset = record {
  frequency_hz = get_u64 input offset;
  duration_microseconds = get_u64 input (offset + 8);
  offset_microseconds = get_u64 input (offset + 16);
}

abbrev pub TxFrequencySegmentFits : TxFrequencySegment → Type 0
TxFrequencySegmentFits m =
    (m.frequency_hz < u64_mod)
    × (m.duration_microseconds < u64_mod)
    × (m.offset_microseconds < u64_mod)

pub read_tx_segment-drop :
    (input : Bytes) (offset : ℕ)
    → read_tx_segment input offset ≡ read_tx_segment (drop offset input) 0
unfolding read_tx_segment get_u64
read_tx_segment-drop input offset =
    let e8 = get_u64-drop input offset 8 in let e16 = get_u64-drop input offset 16 in cc

pub read_tx_segment-bytes :
    (m : TxFrequencySegment) (rest : Bytes)
    → TxFrequencySegmentFits m
    → read_tx_segment (tx_segment_bytes m ++ rest) 0 ≡ m
unfolding read_tx_segment tx_segment_bytes get_u64 be32 be64
read_tx_segment-bytes m rest h =
    let e0 = head64-be64 m.frequency_hz [] h.0 in
    let e1 = head64-be64 m.duration_microseconds [] h.1 in
    let e2 = head64-be64 m.offset_microseconds [] h.2 in cc

pub length-tx_segment_bytes : (m : TxFrequencySegment) → length (tx_segment_bytes m) ≡ 24
unfolding tx_segment_bytes be32 be64
length-tx_segment_bytes m = refl

unfoldable pub tx_segment_entry : Entry TxFrequencySegment
tx_segment_entry = record {
  size = 24;
  bytes = tx_segment_bytes;
  read = read_tx_segment;
  Fits = TxFrequencySegmentFits;
  length-bytes = length-tx_segment_bytes;
  read-drop = read_tx_segment-drop;
  read-bytes = read_tx_segment-bytes;
}

pub record RxFrequencySegment : Type 0 where
  pub frequency_hz : ℕ
  pub rx_power_dbm : ℕ
  pub duration_microseconds : ℕ
  pub offset_microseconds : ℕ

unfoldable pub rx_segment_bytes : RxFrequencySegment → Bytes
rx_segment_bytes m =
    be64 m.frequency_hz
    ++ (be64 m.rx_power_dbm ++ (be64 m.duration_microseconds ++ (be64 m.offset_microseconds)))

unfoldable pub read_rx_segment : Bytes → ℕ → RxFrequencySegment
read_rx_segment input offset = record {
  frequency_hz = get_u64 input offset;
  rx_power_dbm = get_u64 input (offset + 8);
  duration_microseconds = get_u64 input (offset + 16);
  offset_microseconds = get_u64 input (offset + 24);
}

abbrev pub RxFrequencySegmentFits : RxFrequencySegment → Type 0
RxFrequencySegmentFits m =
    (m.frequency_hz < u64_mod)
    × (m.rx_power_dbm < u64_mod)
    × (m.duration_microseconds < u64_mod)
    × (m.offset_microseconds < u64_mod)

pub read_rx_segment-drop :
    (input : Bytes) (offset : ℕ)
    → read_rx_segment input offset ≡ read_rx_segment (drop offset input) 0
unfolding read_rx_segment get_u64
read_rx_segment-drop input offset =
    let e8 = get_u64-drop input offset 8 in
    let e16 = get_u64-drop input offset 16 in let e24 = get_u64-drop input offset 24 in cc

pub read_rx_segment-bytes :
    (m : RxFrequencySegment) (rest : Bytes)
    → RxFrequencySegmentFits m
    → read_rx_segment (rx_segment_bytes m ++ rest) 0 ≡ m
unfolding read_rx_segment rx_segment_bytes get_u64 be32 be64
read_rx_segment-bytes m rest h =
    let e0 = head64-be64 m.frequency_hz [] h.0 in
    let e1 = head64-be64 m.rx_power_dbm [] h.1 in
    let e2 = head64-be64 m.duration_microseconds [] h.2 in
    let e3 = head64-be64 m.offset_microseconds [] h.3 in cc

pub length-rx_segment_bytes : (m : RxFrequencySegment) → length (rx_segment_bytes m) ≡ 32
unfolding rx_segment_bytes be32 be64
length-rx_segment_bytes m = refl

unfoldable pub rx_segment_entry : Entry RxFrequencySegment
rx_segment_entry = record {
  size = 32;
  bytes = rx_segment_bytes;
  read = read_rx_segment;
  Fits = RxFrequencySegmentFits;
  length-bytes = length-rx_segment_bytes;
  read-drop = read_rx_segment-drop;
  read-bytes = read_rx_segment-bytes;
}

pub record TxTransmitter : Type 0 where
  pub nem_id : ℕ
  pub tx_power_dbm : ℕ

unfoldable pub transmitter_bytes : TxTransmitter → Bytes
transmitter_bytes m = be16 m.nem_id ++ (be64 m.tx_power_dbm)

unfoldable pub read_transmitter : Bytes → ℕ → TxTransmitter
read_transmitter input offset = record {
  nem_id = get_u16 input offset;
  tx_power_dbm = get_u64 input (offset + 2);
}

abbrev pub TxTransmitterFits : TxTransmitter → Type 0
TxTransmitterFits m = (m.nem_id < u16_mod) × (m.tx_power_dbm < u64_mod)

pub read_transmitter-drop :
    (input : Bytes) (offset : ℕ)
    → read_transmitter input offset ≡ read_transmitter (drop offset input) 0
unfolding read_transmitter get_u16
read_transmitter-drop input offset = let e2 = get_u64-drop input offset 2 in cc

pub read_transmitter-bytes :
    (m : TxTransmitter) (rest : Bytes)
    → TxTransmitterFits m
    → read_transmitter (transmitter_bytes m ++ rest) 0 ≡ m
unfolding read_transmitter transmitter_bytes get_u16 get_u64 be16 be32 be64
read_transmitter-bytes m rest h =
    let e0 = head16-be16 m.nem_id [] h.0 in let e1 = head64-be64 m.tx_power_dbm [] h.1 in cc

pub length-transmitter_bytes : (m : TxTransmitter) → length (transmitter_bytes m) ≡ 10
unfolding transmitter_bytes be16 be32 be64
length-transmitter_bytes m = refl

unfoldable pub transmitter_entry : Entry TxTransmitter
transmitter_entry = record {
  size = 10;
  bytes = transmitter_bytes;
  read = read_transmitter;
  Fits = TxTransmitterFits;
  length-bytes = length-transmitter_bytes;
  read-drop = read_transmitter-drop;
  read-bytes = read_transmitter-bytes;
}

unfoldable pub encode_tx_frequency_segments : Floats → List TxFrequencySegment → Option Bytes
encode_tx_frequency_segments F = encode_table tx_segment_entry 1 (λ _. false)

unfoldable pub decode_tx_frequency_segments : Floats → Bytes → Option (List TxFrequencySegment)
decode_tx_frequency_segments F = decode_table tx_segment_entry 1 (λ _. false)

unfoldable pub encode_rx_frequency_segments : Floats → List RxFrequencySegment → Option Bytes
encode_rx_frequency_segments F =
    encode_table rx_segment_entry 1 (λ m. not (F.is_finite m.rx_power_dbm))

unfoldable pub decode_rx_frequency_segments : Floats → Bytes → Option (List RxFrequencySegment)
decode_rx_frequency_segments F =
    decode_table rx_segment_entry 1 (λ m. not (F.is_finite m.rx_power_dbm))

unfoldable pub encode_tx_transmitters : Floats → List TxTransmitter → Option Bytes
encode_tx_transmitters F =
    encode_table transmitter_entry 1 (λ m. (m.nem_id == 0) || not (F.is_finite m.tx_power_dbm))

unfoldable pub decode_tx_transmitters : Floats → Bytes → Option (List TxTransmitter)
decode_tx_transmitters F =
    decode_table transmitter_entry 1 (λ m. (m.nem_id == 0) || not (F.is_finite m.tx_power_dbm))
