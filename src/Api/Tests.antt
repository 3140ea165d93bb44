-- ===== src/Api/Tests.antt =====
-- A control message with two reception segments, and its bytes.
use emane.Base.{◌≡◌, refl, true, some, List, [], ◌∷◌, arith, ◌%◌, ltb}
use emane.Base.Bytes.{Bytes, be16, be32}
use emane.Base.Bytes.Fields.{be64}
use emane.Api.{Floats}
use emane.Api.Entries.{encode_table, table_bytes, entries, any_bad}
use emane.Api.Segments.{
  RxFrequencySegment, rx_segment_bytes, rx_segment_entry, encode_rx_frequency_segments,
}
use emane.Api.Message.{rx_frequency_segments, control_id, encode, decode, decode-encode}

-- The infinities and the values that are no number have an exponent of 2047.
abbrev some_floats : Floats
some_floats = record {
  is_finite = λ bits. ltb (bits % 9223372036854775808) 9218868437227405312;
  is_finite_f32 = λ bits. ltb (bits % 2147483648) 2139095040;
  is_azimuth = λ _. true;
  is_elevation = λ _. true;
}

abbrev two_segments : List RxFrequencySegment
two_segments =
    record {
      frequency_hz = 2400000000;
      rx_power_dbm = 13858714611990560768;
      duration_microseconds = 1000;
      offset_microseconds = 0;
    }
    ∷ record {
      frequency_hz = 5;
      rx_power_dbm = 0;
      duration_microseconds = 256;
      offset_microseconds = 1;
    }
    ∷ []

abbrev two_segments_bytes : Bytes
two_segments_bytes =
    1 ∷ 0 ∷ 2 ∷ 0 ∷ 0 ∷ 0 ∷ 0 ∷ 143 ∷ 13 ∷ 24 ∷ 0 ∷ 192 ∷ 84 ∷ 11 ∷ 131 ∷ 83 ∷ 54 ∷ 128 ∷ 0 ∷ 0 ∷ 0
    ∷ 0 ∷ 0 ∷ 0 ∷ 0 ∷ 3 ∷ 232 ∷ 0 ∷ 0 ∷ 0 ∷ 0 ∷ 0 ∷ 0 ∷ 0 ∷ 0 ∷ 0 ∷ 0 ∷ 0 ∷ 0 ∷ 0 ∷ 0 ∷ 0 ∷ 5 ∷ 0
    ∷ 0 ∷ 0 ∷ 0 ∷ 0 ∷ 0 ∷ 0 ∷ 0 ∷ 0 ∷ 0 ∷ 0 ∷ 0 ∷ 0 ∷ 0 ∷ 1 ∷ 0 ∷ 0 ∷ 0 ∷ 0 ∷ 0 ∷ 0 ∷ 0 ∷ 0 ∷ 1 ∷ []

two_segments-encoded :
    encode some_floats (rx_frequency_segments two_segments) ≡ some two_segments_bytes
unfolding encode encode_rx_frequency_segments encode_table table_bytes entries any_bad
    rx_segment_bytes rx_segment_entry be16 be32 be64
two_segments-encoded = refl

decode-encode_example :
    decode some_floats (control_id (rx_frequency_segments two_segments)) two_segments_bytes
    ≡ some (rx_frequency_segments two_segments)
unfolding rx_segment_entry
decode-encode_example =
    decode-encode some_floats (rx_frequency_segments two_segments) two_segments_bytes
      (
        (omega arith, omega arith, omega arith, omega arith),
        ((omega arith, omega arith, omega arith, omega arith), tt),
      )
      two_segments-encoded
