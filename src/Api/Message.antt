-- ===== src/Api/Message.antt =====
-- The control messages as a whole: each kind with its id, its encoder and its decoder.
use emane.Base.{ℕ, ◌<◌, ◌≡◌, sym, ap, ◌∙◌, Option, none, some, List, ◌==◌, if◌then◌else◌}
use emane.Base.Bytes.{Bytes}
use emane.Api.{Floats, u16_mod}
use emane.Api.Headers.{
  FlowControlToken, encode_flow_control_token, decode_flow_control_token, FlowControlTokenFits,
  decode-encode_flow_control_token, R2riSelfMetric, encode_r2ri_self_metric,
  decode_r2ri_self_metric, R2riSelfMetricFits, decode-encode_r2ri_self_metric, CommEffectHeader,
  encode_comm_effect_header, decode_comm_effect_header, CommEffectHeaderFits,
  decode-encode_comm_effect_header, TimingAnalysisHeader, encode_timing_analysis_header,
  decode_timing_analysis_header, TimingAnalysisHeaderFits, decode-encode_timing_analysis_header,
  ModelHeader, encode_model_header, decode_model_header, ModelHeaderFits,
  decode-encode_model_header, RxAntennaRemove, encode_rx_antenna_remove, decode_rx_antenna_remove,
  decode-encode_rx_antenna_remove,
}
use emane.Api.Properties.{
  TxProperties, encode_tx_properties, decode_tx_properties, TxPropertiesFits,
  decode-encode_tx_properties, RxProperties, encode_rx_properties, decode_rx_properties,
  RxPropertiesFits, decode-encode_rx_properties, TxAntennaProfile, encode_tx_antenna_profile,
  decode_tx_antenna_profile, TxAntennaProfileFits, decode-encode_tx_antenna_profile,
}
use emane.Api.Entries
use emane.Api.Metrics.{
  R2riQueueMetric, queue_metric_entry, encode_r2ri_queue_metrics, decode_r2ri_queue_metrics,
  R2riNeighborMetric, neighbor_metric_entry, encode_r2ri_neighbor_metrics,
  decode_r2ri_neighbor_metrics,
}
use emane.Api.Segments.{
  TxFrequencySegment, tx_segment_entry, encode_tx_frequency_segments, decode_tx_frequency_segments,
  RxFrequencySegment, rx_segment_entry, encode_rx_frequency_segments, decode_rx_frequency_segments,
  TxTransmitter, transmitter_entry, encode_tx_transmitters, decode_tx_transmitters,
}
use emane.Api.Interest.{
  FrequencyOfInterest, encode_frequency_of_interest, decode_frequency_of_interest,
  FrequencyOfInterestFits, decode-encode_frequency_of_interest,
}
use emane.Api.MimoTx.{MimoTxProperties}
use emane.Api.MimoTx.Whole.{
  encode_mimo_tx_properties, decode_mimo_tx_properties, MimoTxPropertiesFits,
  decode-encode_mimo_tx_properties,
}
use emane.Api.MimoRx.{MimoRxProperties, encode_mimo_rx_properties, decode_mimo_rx_properties}
use emane.Api.MimoRx.RoundTrip.{MimoRxPropertiesFits, decode-encode_mimo_rx_properties}
use emane.Api.RxAntenna.{
  RxAntennaAdd, encode_rx_antenna_add, decode_rx_antenna_add, RxAntennaAddFits,
  decode-encode_rx_antenna_add,
}

pub data ControlPayload : Type 0 where
  tx_properties : TxProperties → ControlPayload
  rx_properties : RxProperties → ControlPayload
  model_header : ModelHeader → ControlPayload
  frequency_of_interest : FrequencyOfInterest → ControlPayload
  comm_effect_header : CommEffectHeader → ControlPayload
  timing_analysis_header : TimingAnalysisHeader → ControlPayload
  tx_frequency_segments : List TxFrequencySegment → ControlPayload
  tx_transmitters : List TxTransmitter → ControlPayload
  tx_antenna_profile : TxAntennaProfile → ControlPayload
  rx_frequency_segments : List RxFrequencySegment → ControlPayload
  flow_control_token : FlowControlToken → ControlPayload
  mimo_tx_properties : MimoTxProperties → ControlPayload
  mimo_rx_properties : MimoRxProperties → ControlPayload
  r2ri_self_metric : R2riSelfMetric → ControlPayload
  r2ri_queue_metrics : List R2riQueueMetric → ControlPayload
  r2ri_neighbor_metrics : List R2riNeighborMetric → ControlPayload
  rx_antenna_add : RxAntennaAdd → ControlPayload
  rx_antenna_update : RxAntennaAdd → ControlPayload
  rx_antenna_remove : RxAntennaRemove → ControlPayload

-- The `CONTROL_` constants, from 0x454D_0001 on.
unfoldable pub control_id : ControlPayload → ℕ
control_id (tx_properties m) = 1162674177
control_id (rx_properties m) = 1162674178
control_id (model_header m) = 1162674179
control_id (frequency_of_interest m) = 1162674180
control_id (comm_effect_header m) = 1162674181
control_id (timing_analysis_header m) = 1162674182
control_id (tx_frequency_segments m) = 1162674183
control_id (tx_transmitters m) = 1162674184
control_id (tx_antenna_profile m) = 1162674185
control_id (rx_frequency_segments m) = 1162674186
control_id (flow_control_token m) = 1162674187
control_id (mimo_tx_properties m) = 1162674188
control_id (mimo_rx_properties m) = 1162674189
control_id (r2ri_self_metric m) = 1162674190
control_id (r2ri_queue_metrics m) = 1162674191
control_id (r2ri_neighbor_metrics m) = 1162674192
control_id (rx_antenna_add m) = 1162674193
control_id (rx_antenna_update m) = 1162674194
control_id (rx_antenna_remove m) = 1162674195

-- `Option::map` of a constructor.
abbrev map_some {ℓ} : {A : Type ℓ} → (A → ControlPayload) → Option A → Option ControlPayload
map_some make none = none
map_some make (some a) = some (make a)

some-inj : {a b : Bytes} → some a ≡ some b → a ≡ b
some-inj e = cc

module _ (F : Floats) where
  unfoldable pub encode : ControlPayload → Option Bytes
  encode (tx_properties m) = some (encode_tx_properties m)
  encode (rx_properties m) = some (encode_rx_properties m)
  encode (model_header m) = some (encode_model_header m)
  encode (frequency_of_interest m) = encode_frequency_of_interest m
  encode (comm_effect_header m) = some (encode_comm_effect_header m)
  encode (timing_analysis_header m) = some (encode_timing_analysis_header m)
  encode (tx_frequency_segments m) = encode_tx_frequency_segments F m
  encode (tx_transmitters m) = encode_tx_transmitters F m
  encode (tx_antenna_profile m) = encode_tx_antenna_profile F m
  encode (rx_frequency_segments m) = encode_rx_frequency_segments F m
  encode (flow_control_token m) = some (encode_flow_control_token m)
  encode (mimo_tx_properties m) = encode_mimo_tx_properties F m
  encode (mimo_rx_properties m) = encode_mimo_rx_properties F m
  encode (r2ri_self_metric m) = some (encode_r2ri_self_metric m)
  encode (r2ri_queue_metrics m) = encode_r2ri_queue_metrics F m
  encode (r2ri_neighbor_metrics m) = encode_r2ri_neighbor_metrics F m
  encode (rx_antenna_add m) = encode_rx_antenna_add F m
  encode (rx_antenna_update m) = encode_rx_antenna_add F m
  encode (rx_antenna_remove m) = some (encode_rx_antenna_remove m)

  -- What a receiver makes of a message with an id. None of an id that is not known.
  unfoldable pub decode : ℕ → Bytes → Option ControlPayload
  decode id input =
      if id == 1162674177
      then map_some tx_properties (decode_tx_properties input)
      else (if id == 1162674178
          then map_some rx_properties (decode_rx_properties input)
          else (if id == 1162674179
              then map_some model_header (decode_model_header input)
              else (if id == 1162674180
                  then map_some frequency_of_interest (decode_frequency_of_interest input)
                  else (if id == 1162674181
                      then map_some comm_effect_header (decode_comm_effect_header input)
                      else (if id == 1162674182
                          then map_some timing_analysis_header (decode_timing_analysis_header input)
                          else (if id == 1162674183
                              then map_some tx_frequency_segments
                                  (decode_tx_frequency_segments F input)
                              else (if id == 1162674184
                                  then map_some tx_transmitters (decode_tx_transmitters F input)
                                  else (if id == 1162674185
                                      then map_some tx_antenna_profile
                                          (decode_tx_antenna_profile F input)
                                      else (if id == 1162674186
                                          then map_some rx_frequency_segments
                                              (decode_rx_frequency_segments F input)
                                          else (if id == 1162674187
                                              then map_some flow_control_token
                                                  (decode_flow_control_token input)
                                              else (if id == 1162674188
                                                  then map_some mimo_tx_properties
                                                      (decode_mimo_tx_properties F input)
                                                  else (if id == 1162674189
                                                      then map_some mimo_rx_properties
                                                          (decode_mimo_rx_properties F input)
                                                      else (if id == 1162674190
                                                          then map_some r2ri_self_metric
                                                            (decode_r2ri_self_metric input)
                                                          else (if id == 1162674191
                                                            then map_some r2ri_queue_metrics
                                                            (decode_r2ri_queue_metrics F input)
                                                            else (if id == 1162674192
                                                            then map_some r2ri_neighbor_metrics
                                                            (decode_r2ri_neighbor_metrics F input)
                                                            else (if id == 1162674193
                                                            then map_some rx_antenna_add
                                                            (decode_rx_antenna_add F input)
                                                            else (if id == 1162674194
                                                            then map_some rx_antenna_update
                                                            (decode_rx_antenna_add F input)
                                                            else (if id == 1162674195
                                                            then map_some rx_antenna_remove
                                                            (decode_rx_antenna_remove input)
                                                            else none))))))))))))))))))

  -- The numbers of a message are within their types.
  abbrev pub IsTyped : ControlPayload → Type 0
  IsTyped (tx_properties m) = TxPropertiesFits m
  IsTyped (rx_properties m) = RxPropertiesFits m
  IsTyped (model_header m) = ModelHeaderFits m
  IsTyped (frequency_of_interest m) = FrequencyOfInterestFits m
  IsTyped (comm_effect_header m) = CommEffectHeaderFits m
  IsTyped (timing_analysis_header m) = TimingAnalysisHeaderFits m
  IsTyped (tx_frequency_segments m) = Entries.AllFit tx_segment_entry m
  IsTyped (tx_transmitters m) = Entries.AllFit transmitter_entry m
  IsTyped (tx_antenna_profile m) = TxAntennaProfileFits m
  IsTyped (rx_frequency_segments m) = Entries.AllFit rx_segment_entry m
  IsTyped (flow_control_token m) = FlowControlTokenFits m
  IsTyped (mimo_tx_properties m) = MimoTxPropertiesFits F m
  IsTyped (mimo_rx_properties m) = MimoRxPropertiesFits m
  IsTyped (r2ri_self_metric m) = R2riSelfMetricFits m
  IsTyped (r2ri_queue_metrics m) = Entries.AllFit queue_metric_entry m
  IsTyped (r2ri_neighbor_metrics m) = Entries.AllFit neighbor_metric_entry m
  IsTyped (rx_antenna_add m) = RxAntennaAddFits m
  IsTyped (rx_antenna_update m) = RxAntennaAddFits m
  IsTyped (rx_antenna_remove m) = m.antenna_index < u16_mod

  -- Any control message that `encode` accepts, all of whose numbers are within their types, and whose
  -- frequency group is 0 if it adds or updates a receive antenna, is read back, with its id, from its bytes.
  pub decode-encode :
      (m : ControlPayload) (encoded : Bytes)
      → IsTyped m
      → encode m ≡ some encoded
      → decode (control_id m) encoded ≡ some m
  unfolding encode decode control_id encode_tx_frequency_segments decode_tx_frequency_segments
      encode_tx_transmitters decode_tx_transmitters encode_rx_frequency_segments
      decode_rx_frequency_segments encode_r2ri_queue_metrics decode_r2ri_queue_metrics
      encode_r2ri_neighbor_metrics decode_r2ri_neighbor_metrics
  decode-encode (tx_properties m) encoded h e =
      ap (λ b. map_some tx_properties (decode_tx_properties b)) (sym (some-inj e))
      ∙ ap (map_some tx_properties) (decode-encode_tx_properties m h)
  decode-encode (rx_properties m) encoded h e =
      ap (λ b. map_some rx_properties (decode_rx_properties b)) (sym (some-inj e))
      ∙ ap (map_some rx_properties) (decode-encode_rx_properties m h)
  decode-encode (model_header m) encoded h e =
      ap (λ b. map_some model_header (decode_model_header b)) (sym (some-inj e))
      ∙ ap (map_some model_header) (decode-encode_model_header m h)
  decode-encode (frequency_of_interest m) encoded h e =
      ap (map_some frequency_of_interest) (decode-encode_frequency_of_interest m encoded h e)
  decode-encode (comm_effect_header m) encoded h e =
      ap (λ b. map_some comm_effect_header (decode_comm_effect_header b)) (sym (some-inj e))
      ∙ ap (map_some comm_effect_header) (decode-encode_comm_effect_header m h)
  decode-encode (timing_analysis_header m) encoded h e =
      ap (λ b. map_some timing_analysis_header (decode_timing_analysis_header b)) (sym (some-inj e))
      ∙ ap (map_some timing_analysis_header) (decode-encode_timing_analysis_header m h)
  decode-encode (tx_frequency_segments m) encoded h e =
      ap (map_some tx_frequency_segments)
        (Entries.decode_table-encode_table tx_segment_entry 1 _ m encoded h e)
  decode-encode (tx_transmitters m) encoded h e =
      ap (map_some tx_transmitters)
        (Entries.decode_table-encode_table transmitter_entry 1 _ m encoded h e)
  decode-encode (tx_antenna_profile m) encoded h e =
      ap (map_some tx_antenna_profile) (decode-encode_tx_antenna_profile F m encoded h e)
  decode-encode (rx_frequency_segments m) encoded h e =
      ap (map_some rx_frequency_segments)
        (Entries.decode_table-encode_table rx_segment_entry 1 _ m encoded h e)
  decode-encode (flow_control_token m) encoded h e =
      ap (λ b. map_some flow_control_token (decode_flow_control_token b)) (sym (some-inj e))
      ∙ ap (map_some flow_control_token) (decode-encode_flow_control_token m h)
  decode-encode (mimo_tx_properties m) encoded h e =
      ap (map_some mimo_tx_properties) (decode-encode_mimo_tx_properties F m encoded h e)
  decode-encode (mimo_rx_properties m) encoded h e =
      ap (map_some mimo_rx_properties) (decode-encode_mimo_rx_properties F m encoded h e)
  decode-encode (r2ri_self_metric m) encoded h e =
      ap (λ b. map_some r2ri_self_metric (decode_r2ri_self_metric b)) (sym (some-inj e))
      ∙ ap (map_some r2ri_self_metric) (decode-encode_r2ri_self_metric m h)
  decode-encode (r2ri_queue_metrics m) encoded h e =
      ap (map_some r2ri_queue_metrics)
        (Entries.decode_table-encode_table queue_metric_entry 0 _ m encoded h e)
  decode-encode (r2ri_neighbor_metrics m) encoded h e =
      ap (map_some r2ri_neighbor_metrics)
        (Entries.decode_table-encode_table neighbor_metric_entry 0 _ m encoded h e)
  decode-encode (rx_antenna_add m) encoded h e =
      ap (map_some rx_antenna_add) (decode-encode_rx_antenna_add F m encoded h e)
  decode-encode (rx_antenna_update m) encoded h e =
      ap (map_some rx_antenna_update) (decode-encode_rx_antenna_add F m encoded h e)
  decode-encode (rx_antenna_remove m) encoded h e =
      ap (λ b. map_some rx_antenna_remove (decode_rx_antenna_remove b)) (sym (some-inj e))
      ∙ ap (map_some rx_antenna_remove) (decode-encode_rx_antenna_remove m h)
