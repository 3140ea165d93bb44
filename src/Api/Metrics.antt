-- ===== src/Api/Metrics.antt =====
-- The R2RI metrics of queues and neighbours.
use emane.Base.{
  ℕ, ◌+◌, ◌<◌, ◌≡◌, refl, Bool, false, not, ◌||◌, Option, List, [], ◌++◌, length, drop,
}
use emane.Base.Bytes.{Bytes, be16, be32}
use emane.Base.Bytes.Fields.{
  u64_mod, be64, get_u16, get_u32, get_u64, head16-be16, head32-be32, head64-be64, get_u32-drop,
  get_u64-drop,
}
use emane.Api.{Floats, u16_mod, u32_mod}
use emane.Api.Entries.{Entry, encode_table, decode_table}

pub record R2riQueueMetric : Type 0 where
  pub queue_id : ℕ
  pub max_size : ℕ
  pub current_depth_high_water : ℕ
  pub num_discards_high_water : ℕ
  pub average_delay_microseconds : ℕ

unfoldable pub queue_metric_bytes : R2riQueueMetric → Bytes
queue_metric_bytes m =
    be16 m.queue_id
    ++ (be32 m.max_size
        ++ (be32 m.current_depth_high_water
            ++ (be32 m.num_discards_high_water ++ (be64 m.average_delay_microseconds))))

unfoldable pub read_queue_metric : Bytes → ℕ → R2riQueueMetric
read_queue_metric input offset = record {
  queue_id = get_u16 input offset;
  max_size = get_u32 input (offset + 2);
  current_depth_high_water = get_u32 input (offset + 6);
  num_discards_high_water = get_u32 input (offset + 10);
  average_delay_microseconds = get_u64 input (offset + 14);
}

abbrev pub R2riQueueMetricFits : R2riQueueMetric → Type 0
R2riQueueMetricFits m =
    (m.queue_id < u16_mod)
    × (m.max_size < u32_mod)
    × (m.current_depth_high_water < u32_mod)
    × (m.num_discards_high_water < u32_mod)
    × (m.average_delay_microseconds < u64_mod)

pub read_queue_metric-drop :
    (input : Bytes) (offset : ℕ)
    → read_queue_metric input offset ≡ read_queue_metric (drop offset input) 0
unfolding read_queue_metric get_u16
read_queue_metric-drop input offset =
    let e2 = get_u32-drop input offset 2 in
    let e6 = get_u32-drop input offset 6 in
    let e10 = get_u32-drop input offset 10 in let e14 = get_u64-drop input offset 14 in cc

pub read_queue_metric-bytes :
    (m : R2riQueueMetric) (rest : Bytes)
    → R2riQueueMetricFits m
    → read_queue_metric (queue_metric_bytes m ++ rest) 0 ≡ m
unfolding read_queue_metric queue_metric_bytes get_u16 get_u32 get_u64 be16 be32 be64
read_queue_metric-bytes m rest h =
    let e0 = head16-be16 m.queue_id [] h.0 in
    let e1 = head32-be32 m.max_size [] h.1 in
    let e2 = head32-be32 m.current_depth_high_water [] h.2 in
    let e3 = head32-be32 m.num_discards_high_water [] h.3 in
    let e4 = head64-be64 m.average_delay_microseconds [] h.4 in cc

pub length-queue_metric_bytes : (m : R2riQueueMetric) → length (queue_metric_bytes m) ≡ 22
unfolding queue_metric_bytes be16 be32 be64
length-queue_metric_bytes m = refl

unfoldable pub queue_metric_entry : Entry R2riQueueMetric
queue_metric_entry = record {
  size = 22;
  bytes = queue_metric_bytes;
  read = read_queue_metric;
  Fits = R2riQueueMetricFits;
  length-bytes = length-queue_metric_bytes;
  read-drop = read_queue_metric-drop;
  read-bytes = read_queue_metric-bytes;
}

pub record R2riNeighborMetric : Type 0 where
  pub nem_id : ℕ
  pub num_rx_frames : ℕ
  pub num_tx_frames : ℕ
  pub num_missed_frames : ℕ
  pub bandwidth_consumption_microseconds : ℕ
  pub sinr_average_db : ℕ
  pub sinr_stddev : ℕ
  pub noise_floor_average_dbm : ℕ
  pub noise_floor_stddev : ℕ
  pub rx_average_data_rate_bps : ℕ
  pub tx_average_data_rate_bps : ℕ

unfoldable pub neighbor_metric_bytes : R2riNeighborMetric → Bytes
neighbor_metric_bytes m =
    be16 m.nem_id
    ++ (be64 m.num_rx_frames
        ++ (be64 m.num_tx_frames
            ++ (be64 m.num_missed_frames
                ++ (be64 m.bandwidth_consumption_microseconds
                    ++ (be32 m.sinr_average_db
                        ++ (be32 m.sinr_stddev
                            ++ (be32 m.noise_floor_average_dbm
                                ++ (be32 m.noise_floor_stddev
                                    ++ (be64 m.rx_average_data_rate_bps
                                        ++ (be64 m.tx_average_data_rate_bps))))))))))

unfoldable pub read_neighbor_metric : Bytes → ℕ → R2riNeighborMetric
read_neighbor_metric input offset = record {
  nem_id = get_u16 input offset;
  num_rx_frames = get_u64 input (offset + 2);
  num_tx_frames = get_u64 input (offset + 10);
  num_missed_frames = get_u64 input (offset + 18);
  bandwidth_consumption_microseconds = get_u64 input (offset + 26);
  sinr_average_db = get_u32 input (offset + 34);
  sinr_stddev = get_u32 input (offset + 38);
  noise_floor_average_dbm = get_u32 input (offset + 42);
  noise_floor_stddev = get_u32 input (offset + 46);
  rx_average_data_rate_bps = get_u64 input (offset + 50);
  tx_average_data_rate_bps = get_u64 input (offset + 58);
}

abbrev pub R2riNeighborMetricFits : R2riNeighborMetric → Type 0
R2riNeighborMetricFits m =
    (m.nem_id < u16_mod)
    × (m.num_rx_frames < u64_mod)
    × (m.num_tx_frames < u64_mod)
    × (m.num_missed_frames < u64_mod)
    × (m.bandwidth_consumption_microseconds < u64_mod)
    × (m.sinr_average_db < u32_mod)
    × (m.sinr_stddev < u32_mod)
    × (m.noise_floor_average_dbm < u32_mod)
    × (m.noise_floor_stddev < u32_mod)
    × (m.rx_average_data_rate_bps < u64_mod)
    × (m.tx_average_data_rate_bps < u64_mod)

pub read_neighbor_metric-drop :
    (input : Bytes) (offset : ℕ)
    → read_neighbor_metric input offset ≡ read_neighbor_metric (drop offset input) 0
unfolding read_neighbor_metric get_u16
read_neighbor_metric-drop input offset =
    let e2 = get_u64-drop input offset 2 in
    let e10 = get_u64-drop input offset 10 in
    let e18 = get_u64-drop input offset 18 in
    let e26 = get_u64-drop input offset 26 in
    let e34 = get_u32-drop input offset 34 in
    let e38 = get_u32-drop input offset 38 in
    let e42 = get_u32-drop input offset 42 in
    let e46 = get_u32-drop input offset 46 in
    let e50 = get_u64-drop input offset 50 in let e58 = get_u64-drop input offset 58 in cc

pub read_neighbor_metric-bytes :
    (m : R2riNeighborMetric) (rest : Bytes)
    → R2riNeighborMetricFits m
    → read_neighbor_metric (neighbor_metric_bytes m ++ rest) 0 ≡ m
unfolding read_neighbor_metric neighbor_metric_bytes get_u16 get_u64 get_u32 be16 be32 be64
read_neighbor_metric-bytes m rest h =
    let e0 = head16-be16 m.nem_id [] h.0 in
    let e1 = head64-be64 m.num_rx_frames [] h.1 in
    let e2 = head64-be64 m.num_tx_frames [] h.2 in
    let e3 = head64-be64 m.num_missed_frames [] h.3 in
    let e4 = head64-be64 m.bandwidth_consumption_microseconds [] h.4 in
    let e5 = head32-be32 m.sinr_average_db [] h.5 in
    let e6 = head32-be32 m.sinr_stddev [] h.6 in
    let e7 = head32-be32 m.noise_floor_average_dbm [] h.7 in
    let e8 = head32-be32 m.noise_floor_stddev [] h.8 in
    let e9 = head64-be64 m.rx_average_data_rate_bps [] h.9 in
    let e10 = head64-be64 m.tx_average_data_rate_bps [] h.10 in cc

pub length-neighbor_metric_bytes : (m : R2riNeighborMetric) → length (neighbor_metric_bytes m) ≡ 66
unfolding neighbor_metric_bytes be16 be32 be64
length-neighbor_metric_bytes m = refl

unfoldable pub neighbor_metric_entry : Entry R2riNeighborMetric
neighbor_metric_entry = record {
  size = 66;
  bytes = neighbor_metric_bytes;
  read = read_neighbor_metric;
  Fits = R2riNeighborMetricFits;
  length-bytes = length-neighbor_metric_bytes;
  read-drop = read_neighbor_metric-drop;
  read-bytes = read_neighbor_metric-bytes;
}

unfoldable pub is_bad_neighbor : Floats → R2riNeighborMetric → Bool
is_bad_neighbor F m =
    not (F.is_finite_f32 m.sinr_average_db)
    || not (F.is_finite_f32 m.sinr_stddev)
    || not (F.is_finite_f32 m.noise_floor_average_dbm)
    || not (F.is_finite_f32 m.noise_floor_stddev)

unfoldable pub encode_r2ri_queue_metrics : Floats → List R2riQueueMetric → Option Bytes
encode_r2ri_queue_metrics F = encode_table queue_metric_entry 0 (λ _. false)

unfoldable pub decode_r2ri_queue_metrics : Floats → Bytes → Option (List R2riQueueMetric)
decode_r2ri_queue_metrics F = decode_table queue_metric_entry 0 (λ _. false)

unfoldable pub encode_r2ri_neighbor_metrics : Floats → List R2riNeighborMetric → Option Bytes
encode_r2ri_neighbor_metrics F = encode_table neighbor_metric_entry 0 (is_bad_neighbor F)

unfoldable pub decode_r2ri_neighbor_metrics : Floats → Bytes → Option (List R2riNeighborMetric)
decode_r2ri_neighbor_metrics F = decode_table neighbor_metric_entry 0 (is_bad_neighbor F)
