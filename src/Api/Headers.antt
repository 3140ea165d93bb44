-- ===== src/Api/Headers.antt =====
-- The headers and metrics of a fixed length.
use emane.Base.{ℕ, ◌<◌, ◌≡◌, ◌&&◌, Option, none, some, [], ◌∷◌, length, leb, ◌==◌, if◌then◌else◌}
use emane.Base.Bytes.{Bytes, be16, be32}
use emane.Base.Bytes.Fields.{
  u64_mod, be64, get_u8, get_u16, get_u32, get_u64, put_u8, put_u16, put_u32, put_u64, head16-be16,
  head32-be32, head64-be64,
}
use emane.Api.{properties_version, u16_mod, u32_mod, versioned, is_versioned}

pub record FlowControlToken : Type 0 where
  pub tokens : ℕ

unfoldable pub encode_flow_control_token : FlowControlToken → Bytes
encode_flow_control_token m = put_u16 (versioned 2) 1 m.tokens

unfoldable pub decode_flow_control_token : Bytes → Option FlowControlToken
decode_flow_control_token input =
    if is_versioned input 3 then some (record { tokens = get_u16 input 1 }) else none

abbrev pub FlowControlTokenFits : FlowControlToken → Type 0
FlowControlTokenFits m = (m.tokens < u16_mod)

pub decode-encode_flow_control_token :
    (m : FlowControlToken)
    → FlowControlTokenFits m
    → decode_flow_control_token (encode_flow_control_token m) ≡ some m
unfolding decode_flow_control_token encode_flow_control_token put_u16 get_u16 get_u8 be16
decode-encode_flow_control_token m h = let e0 = head16-be16 m.tokens [] h in cc

pub record R2riSelfMetric : Type 0 where
  pub broadcast_data_rate_bps : ℕ
  pub max_data_rate_bps : ℕ
  pub report_interval_microseconds : ℕ

unfoldable pub encode_r2ri_self_metric : R2riSelfMetric → Bytes
encode_r2ri_self_metric m =
    let d1 = put_u64 (versioned 24) 1 m.broadcast_data_rate_bps in
    let d2 = put_u64 d1 9 m.max_data_rate_bps in put_u64 d2 17 m.report_interval_microseconds

unfoldable pub decode_r2ri_self_metric : Bytes → Option R2riSelfMetric
decode_r2ri_self_metric input =
    if is_versioned input 25
    then some (record {
      broadcast_data_rate_bps = get_u64 input 1;
      max_data_rate_bps = get_u64 input 9;
      report_interval_microseconds = get_u64 input 17;
    })
    else none

abbrev pub R2riSelfMetricFits : R2riSelfMetric → Type 0
R2riSelfMetricFits m =
    (m.broadcast_data_rate_bps < u64_mod)
    × (m.max_data_rate_bps < u64_mod)
    × (m.report_interval_microseconds < u64_mod)

pub decode-encode_r2ri_self_metric :
    (m : R2riSelfMetric)
    → R2riSelfMetricFits m
    → decode_r2ri_self_metric (encode_r2ri_self_metric m) ≡ some m
unfolding decode_r2ri_self_metric encode_r2ri_self_metric put_u64 get_u64 get_u8 be32 be64
decode-encode_r2ri_self_metric m h =
    let e0 = head64-be64 m.broadcast_data_rate_bps [] h.0 in
    let e1 = head64-be64 m.max_data_rate_bps [] h.1 in
    let e2 = head64-be64 m.report_interval_microseconds [] h.2 in cc

pub record CommEffectHeader : Type 0 where
  pub group_id : ℕ
  pub sequence : ℕ
  pub tx_time_microseconds : ℕ

unfoldable pub encode_comm_effect_header : CommEffectHeader → Bytes
encode_comm_effect_header m =
    let d1 = put_u32 (versioned 16) 1 m.group_id in
    let d2 = put_u32 d1 5 m.sequence in put_u64 d2 9 m.tx_time_microseconds

unfoldable pub decode_comm_effect_header : Bytes → Option CommEffectHeader
decode_comm_effect_header input =
    if is_versioned input 17
    then some (record {
      group_id = get_u32 input 1;
      sequence = get_u32 input 5;
      tx_time_microseconds = get_u64 input 9;
    })
    else none

abbrev pub CommEffectHeaderFits : CommEffectHeader → Type 0
CommEffectHeaderFits m =
    (m.group_id < u32_mod) × (m.sequence < u32_mod) × (m.tx_time_microseconds < u64_mod)

pub decode-encode_comm_effect_header :
    (m : CommEffectHeader)
    → CommEffectHeaderFits m
    → decode_comm_effect_header (encode_comm_effect_header m) ≡ some m
unfolding decode_comm_effect_header encode_comm_effect_header put_u32 put_u64 get_u32 get_u64 get_u8
    be32 be64
decode-encode_comm_effect_header m h =
    let e0 = head32-be32 m.group_id [] h.0 in
    let e1 = head32-be32 m.sequence [] h.1 in
    let e2 = head64-be64 m.tx_time_microseconds [] h.2 in cc

pub record TimingAnalysisHeader : Type 0 where
  pub tx_time_microseconds : ℕ
  pub source : ℕ
  pub packet_id : ℕ

unfoldable pub encode_timing_analysis_header : TimingAnalysisHeader → Bytes
encode_timing_analysis_header m =
    let d1 = put_u64 (versioned 12) 1 m.tx_time_microseconds in
    let d2 = put_u16 d1 9 m.source in put_u16 d2 11 m.packet_id

unfoldable pub decode_timing_analysis_header : Bytes → Option TimingAnalysisHeader
decode_timing_analysis_header input =
    if is_versioned input 13
    then some (record {
      tx_time_microseconds = get_u64 input 1;
      source = get_u16 input 9;
      packet_id = get_u16 input 11;
    })
    else none

abbrev pub TimingAnalysisHeaderFits : TimingAnalysisHeader → Type 0
TimingAnalysisHeaderFits m =
    (m.tx_time_microseconds < u64_mod) × (m.source < u16_mod) × (m.packet_id < u16_mod)

pub decode-encode_timing_analysis_header :
    (m : TimingAnalysisHeader)
    → TimingAnalysisHeaderFits m
    → decode_timing_analysis_header (encode_timing_analysis_header m) ≡ some m
unfolding decode_timing_analysis_header encode_timing_analysis_header put_u64 put_u16 get_u64
    get_u16 get_u8 be16 be32 be64
decode-encode_timing_analysis_header m h =
    let e0 = head64-be64 m.tx_time_microseconds [] h.0 in
    let e1 = head16-be16 m.source [] h.1 in let e2 = head16-be16 m.packet_id [] h.2 in cc

-- A model header may be longer than what is read of it.
pub record ModelHeader : Type 0 where
  pub registration_id : ℕ
  pub sequence : ℕ
  pub data_rate_bps : ℕ
  pub category : ℕ
  pub message_type : ℕ
  pub flags : ℕ

unfoldable pub encode_model_header : ModelHeader → Bytes
encode_model_header m =
    let d1 = put_u16 (versioned 23) 1 m.registration_id in
    let d2 = put_u64 d1 3 m.sequence in
    let d3 = put_u64 d2 11 m.data_rate_bps in
    let d4 = put_u8 d3 19 m.category in
    let d5 = put_u8 d4 20 m.message_type in put_u16 d5 21 m.flags

unfoldable pub decode_model_header : Bytes → Option ModelHeader
decode_model_header input =
    if leb 24 (length input) && (get_u8 input 0 == properties_version)
    then some (record {
      registration_id = get_u16 input 1;
      sequence = get_u64 input 3;
      data_rate_bps = get_u64 input 11;
      category = get_u8 input 19;
      message_type = get_u8 input 20;
      flags = get_u16 input 21;
    })
    else none

abbrev pub ModelHeaderFits : ModelHeader → Type 0
ModelHeaderFits m =
    (m.registration_id < u16_mod)
    × (m.sequence < u64_mod)
    × (m.data_rate_bps < u64_mod)
    × (m.category < 256)
    × (m.message_type < 256)
    × (m.flags < u16_mod)

pub decode-encode_model_header :
    (m : ModelHeader) → ModelHeaderFits m → decode_model_header (encode_model_header m) ≡ some m
unfolding decode_model_header encode_model_header put_u16 put_u64 put_u8 get_u16 get_u64 get_u8 be16
    be32 be64
decode-encode_model_header m h =
    let e0 = head16-be16 m.registration_id [] h.0 in
    let e1 = head64-be64 m.sequence [] h.1 in
    let e2 = head64-be64 m.data_rate_bps [] h.2 in let e5 = head16-be16 m.flags [] h.5 in cc

pub record RxAntennaRemove : Type 0 where
  pub antenna_index : ℕ

unfoldable pub encode_rx_antenna_remove : RxAntennaRemove → Bytes
encode_rx_antenna_remove m = properties_version ∷ be16 m.antenna_index

unfoldable pub decode_rx_antenna_remove : Bytes → Option RxAntennaRemove
decode_rx_antenna_remove input =
    if is_versioned input 3 then some (record { antenna_index = get_u16 input 1 }) else none

pub decode-encode_rx_antenna_remove :
    (m : RxAntennaRemove)
    → m.antenna_index < u16_mod
    → decode_rx_antenna_remove (encode_rx_antenna_remove m) ≡ some m
unfolding decode_rx_antenna_remove encode_rx_antenna_remove get_u8 get_u16 be16
decode-encode_rx_antenna_remove m h = let e0 = head16-be16 m.antenna_index [] h in cc
