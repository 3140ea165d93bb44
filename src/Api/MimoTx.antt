-- ===== src/Api/MimoTx.antt =====
-- `MimoTxProperties`. Here are its parts; Whole has the message.
pub mod Whole
use emane.Base.{
  ℕ, ◌+◌, ◌*◌, ◌<◌, ◌≡◌, refl, sym, ap, subst, ◌∙◌, Bool, true, false, not, ◌&&◌, ◌||◌, Option,
  none, some, List, [], ◌∷◌, ◌++◌, length, length-append, ltb, ◌==◌, if◌then◌else◌, arith,
}
use mathlib.Core.List.{append_assoc}
use emane.Base.Bytes.{Bytes, be16, be32}
use emane.Base.Bytes.Fields.{u64_mod, be64, get_u8, get_u16, head16-be16, head64-be64}
use emane.Api.{Floats, mimo_tx_properties_version, u16_mod, unless-some}
use emane.Api.Pattern.{
  MimoTxAntenna, pattern_bytes, is_good_pattern, encode_pattern, read_pattern, PatternFits,
  read_pattern-pattern_bytes, length-pattern_bytes,
}
use emane.Api.Cursor.{
  Reader, ◌>>=◌, read_u16, read_u64, read_many, Cursor, write_many, AllFit, read_many-write_many,
  read_u16-be16, read_u64-be64,
}

pub record MimoTxFrequencySegment : Type 0 where
  pub frequency_hz : ℕ
  pub tx_power_dbm : ℕ
  pub duration_microseconds : ℕ
  pub offset_microseconds : ℕ

pub record MimoTxProperties : Type 0 where
  pub frequency_groups : List (List MimoTxFrequencySegment)
  pub transmit_antennas : List MimoTxAntenna

unfoldable pub segment_bytes : MimoTxFrequencySegment → Bytes
segment_bytes m =
    be64 m.frequency_hz
    ++ (be64 m.tx_power_dbm ++ (be64 m.duration_microseconds ++ be64 m.offset_microseconds))

unfoldable pub read_segment : Reader MimoTxFrequencySegment
read_segment input = read_u64 input >>= λ frequency. read_u64 frequency.1 >>= λ power.
    read_u64 power.1 >>= λ duration. read_u64 duration.1 >>= λ offset. some (
      record {
        frequency_hz = frequency.0;
        tx_power_dbm = power.0;
        duration_microseconds = duration.0;
        offset_microseconds = offset.0;
      },
      offset.1,
    )

abbrev pub SegmentFits : MimoTxFrequencySegment → Type 0
SegmentFits m =
    (m.frequency_hz < u64_mod)
    × (m.tx_power_dbm < u64_mod)
    × (m.duration_microseconds < u64_mod)
    × (m.offset_microseconds < u64_mod)

pub read_segment-segment_bytes :
    (m : MimoTxFrequencySegment) (rest : Bytes)
    → SegmentFits m
    → read_segment (segment_bytes m ++ rest) ≡ some (m, rest)
unfolding read_segment segment_bytes read_u64 be64 be32
read_segment-segment_bytes m rest h =
    let e0 = head64-be64 m.frequency_hz [] h.0 in
    let e1 = head64-be64 m.tx_power_dbm [] h.1 in
    let e2 = head64-be64 m.duration_microseconds [] h.2 in
    let e3 = head64-be64 m.offset_microseconds [] h.3 in cc

abbrev pub segment_cursor : Cursor MimoTxFrequencySegment
segment_cursor = record {
  bytes = segment_bytes;
  read = read_segment;
  Fits = SegmentFits;
  read-bytes = read_segment-segment_bytes;
}

-- A group of segments.
unfoldable pub group_bytes : List MimoTxFrequencySegment → Bytes
group_bytes group = be16 (length group) ++ write_many segment_cursor group

unfoldable pub read_group : Reader (List MimoTxFrequencySegment)
read_group input = read_u16 input >>= λ count.
    if count.0 == 0
    then none
    else (if ltb (length count.1) (count.0 * 32)
        then none
        else read_many read_segment count.0 count.1)

abbrev pub GroupFits : List MimoTxFrequencySegment → Type 0
GroupFits group = (0 < length group) × (length group < u16_mod) × AllFit segment_cursor group

length-segments :
    (group : List MimoTxFrequencySegment)
    → length (write_many segment_cursor group) ≡ length group * 32
unfolding write_many segment_bytes be64 be32
length-segments [] = omega arith
length-segments (m ∷ group) = ground (
  arith,
  length-append (segment_bytes m) (write_many segment_cursor group),
  length-segments group,
)

pub read_group-group_bytes :
    (group : List MimoTxFrequencySegment) (rest : Bytes)
    → GroupFits group
    → read_group (group_bytes group ++ rest) ≡ some (group, rest)
unfolding read_group group_bytes
read_group-group_bytes group rest h =
    let after : Bytes = write_many segment_cursor group ++ rest in
    let count : read_u16 (group_bytes group ++ rest) ≡ some (length group, after) =
      ap read_u16 (append_assoc (be16 (length group)) (write_many segment_cursor group) rest)
      ∙ read_u16-be16 (length group) after h.1 in
    let items = read_many-write_many segment_cursor group rest h.2 in
    rw count (
      rw items (
        ground
          (arith, length-append (write_many segment_cursor group) rest, length-segments group)))

abbrev pub group_cursor : Cursor (List MimoTxFrequencySegment)
group_cursor = record {
  bytes = group_bytes;
  read = read_group;
  Fits = GroupFits;
  read-bytes = read_group-group_bytes;
}

-- An antenna.
unfoldable pub antenna_bytes : MimoTxAntenna → Bytes
antenna_bytes a =
    be16 a.frequency_group_index
    ++ (be16 a.antenna_index
        ++ (be64 a.bandwidth_hz ++ (be16 a.spectral_mask_index ++ pattern_bytes a.pattern)))

unfoldable pub encode_antennas : Floats → List MimoTxAntenna → Option Bytes
encode_antennas F [] = some []
encode_antennas F (a ∷ items) = encode_pattern F a.pattern >>= λ p.
    encode_antennas F items >>= λ rest. some (
      (be16 a.frequency_group_index
        ++ (be16 a.antenna_index ++ (be64 a.bandwidth_hz ++ (be16 a.spectral_mask_index ++ p))))
      ++ rest)

unfoldable pub read_antenna : Floats → Reader MimoTxAntenna
read_antenna F input = read_u16 input >>= λ group. read_u16 group.1 >>= λ index.
    read_u64 index.1 >>= λ bandwidth. read_u16 bandwidth.1 >>= λ mask.
    read_pattern F mask.1 >>= λ pattern. some (
      record {
        frequency_group_index = group.0;
        antenna_index = index.0;
        bandwidth_hz = bandwidth.0;
        spectral_mask_index = mask.0;
        pattern = pattern.0;
      },
      pattern.1,
    )

abbrev pub AntennaFits : Floats → MimoTxAntenna → Type 0
AntennaFits F a =
    (a.frequency_group_index < u16_mod)
    × (a.antenna_index < u16_mod)
    × (a.bandwidth_hz < u64_mod)
    × (a.spectral_mask_index < u16_mod)
    × PatternFits a.pattern

pub read_antenna-antenna_bytes :
    (F : Floats) (a : MimoTxAntenna) (rest : Bytes)
    → AntennaFits F a × (is_good_pattern F a.pattern ≡ true)
    → read_antenna F (antenna_bytes a ++ rest) ≡ some (a, rest)
unfolding read_antenna antenna_bytes read_u16 read_u64 be64 be32 be16
read_antenna-antenna_bytes F a rest h =
    let e0 = head16-be16 a.frequency_group_index [] h.0.0 in
    let e1 = head16-be16 a.antenna_index [] h.0.1 in
    let e2 = head64-be64 a.bandwidth_hz [] h.0.2 in
    let e3 = head16-be16 a.spectral_mask_index [] h.0.3 in
    let e4 = read_pattern-pattern_bytes F a.pattern rest h.0.4 h.1 in cc

pub length-antenna_bytes : (a : MimoTxAntenna) → length (antenna_bytes a) ≡ 41
unfolding antenna_bytes be64 be32 be16
length-antenna_bytes a = rw (length-pattern_bytes a.pattern)
