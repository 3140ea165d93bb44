-- ===== src/Tdma/Queue/Take.antt =====
-- `take_transmission` of the TDMA model. Calls of the statistics tables are returned as effects.
use emane.Base.{
  ℕ, zero, suc, ◌+◌, ◌-◌, ◌*◌, ◌/◌, Bool, not, ◌&&◌, Option, none, some, List, [], ◌∷◌, ◌++◌,
  length, get_elem?, set, slice, min, ltb, ◌==◌, if◌then◌else◌, unwrap_or,
}
use emane.Base.Bytes.{Bytes}
use emane.Tdma.Queue.{
  PacketInfo, QueuedPacket, QueueStatistics, TxState, queue_at, queue_index, split_queue,
}
use emane.Tdma.Schedule.{tx, rx, idle, Schedule, slot, slot_start, u64_mod}

-- `record_packet_drop` with `TooBig`, and `publish_queue_tables`.
pub data Effect : Type 0 where
  dropped_too_big : (queue source destination size : ℕ) → Effect
  published : (queue : ℕ) → Effect

pub record Transmission {ℓ} (F : Type ℓ) : Type ℓ where
  pub info : PacketInfo
  pub bytes : Bytes
  pub sequence : ℕ
  pub offset : ℕ
  pub fragment_index : ℕ
  pub more : Bool
  pub frequency : ℕ
  pub rate : ℕ
  pub category : ℕ
  pub power : F
  pub bandwidth : ℕ
  pub tx_time : ℕ

abbrev pub no_statistics : QueueStatistics
no_statistics = record { dequeued = 0; too_big = 0; classes = []; fragment_histogram = [] }

abbrev pub increment : List ℕ → ℕ → List ℕ
increment xs i = set xs i (unwrap_or (get_elem? xs i) 0 + 1)

abbrev pub with_queue : TxState → ℕ → List QueuedPacket → TxState
with_queue s i q = record s { queues = set s.queues i q }

abbrev pub statistics_at : TxState → ℕ → QueueStatistics
statistics_at s i = unwrap_or (get_elem? s.queue_statistics i) no_statistics

abbrev pub with_statistics : TxState → ℕ → QueueStatistics → TxState
with_statistics s i st = record s { queue_statistics = set s.queue_statistics i st }

-- A packet that leaves the queue gives its flow control token back.
unfoldable pub return_token : TxState → TxState
return_token s =
    if s.flow_control_enable
    then record s {
      available_tokens =
          min (if ltb (s.available_tokens + 1) 65536 then s.available_tokens + 1 else 65535)
            s.flow_control_tokens;
    }
    else s

abbrev pub remaining : QueuedPacket → ℕ
remaining q = length q.payload - q.offset

-- What a fragment taken from the packet leaves of it.
abbrev pub advance : QueuedPacket → ℕ → QueuedPacket
advance q taken = record q {
  offset = q.offset + taken;
  fragment_index = (if ltb (q.fragment_index + 1) 65536 then q.fragment_index + 1 else 65535);
}

unfoldable pub drop_too_big :
    TxState → ℕ → List QueuedPacket → QueuedPacket → List QueuedPacket → TxState
unfolding return_token
drop_too_big s index before q behind =
    let st = statistics_at s index in
    return_token (
      with_statistics (with_queue s index (before ++ behind)) index
        (record st { too_big = st.too_big + 1 }))

unfoldable pub count_taken : TxState → ℕ → ℕ → Bool → ℕ → TxState
count_taken s index service_class more fragment_index =
    let st = statistics_at s index in
    let st' = record st { classes = increment st.classes (min service_class 4) } in
    with_statistics s index (
      if more then st' else record st' {
        dequeued = st.dequeued + 1;
        fragment_histogram = increment st.fragment_histogram (min fragment_index 9);
      })

-- The fields of a transmit slot.
pub record TxSlot {ℓ} (F : Type ℓ) : Type ℓ where
  pub frequency_hz : ℕ
  pub data_rate_bps : ℕ
  pub service_class : ℕ
  pub power_dbm : F
  pub destination : ℕ

module _ {ℓ} {F : Type ℓ} (schedule : Schedule F) (absolute_slot : ℕ) (slot_info : TxSlot F) where
  unfoldable pub capacity : ℕ
  capacity =
      min (slot_info.data_rate_bps * (schedule.slot_duration_us - schedule.overhead_us) / 8000000)
        (u64_mod - 1)

  unfoldable pub take_from :
      TxState
      → ℕ
      → List QueuedPacket
      → QueuedPacket
      → List QueuedPacket
      → ℕ
      → TxState × Transmission F
  take_from s index before q behind available =
      let taken = min (remaining q) available in
      let more = ltb (q.offset + taken) (length q.payload) in
      let s' =
        if more
        then with_queue s index (before ++ advance q taken ∷ behind)
        else return_token (with_queue s index (before ++ behind)) in
      (
        count_taken s' index slot_info.service_class more q.fragment_index,
        record {
          info = q.info;
          bytes = slice q.offset (q.offset + taken) q.payload;
          sequence = q.sequence;
          offset = q.offset;
          fragment_index = q.fragment_index;
          more = more;
          frequency = slot_info.frequency_hz;
          rate = slot_info.data_rate_bps;
          category = slot_info.service_class;
          power = slot_info.power_dbm;
          bandwidth = schedule.bandwidth_hz;
          tx_time = slot_start schedule absolute_slot;
        },
      )

  -- The effects of a dropped packet come before those of the rest of the run.
  unfoldable pub after_drop :
      List Effect
      → Option (TxState × Option (Transmission F) × List Effect)
      → Option (TxState × Option (Transmission F) × List Effect)
  after_drop first none = none
  after_drop first (some (s, t, effects)) = some (s, t, first ++ effects)

  -- A packet that is too big for the slot is dropped and the next one tried: each round takes one
  -- fuel. An outer `none` means that the fuel ran out.
  unfoldable pub take_packet :
      ℕ → TxState → ℕ → Option (TxState × Option (Transmission F) × List Effect)
  take_packet zero s used = none
  take_packet (suc fuel) s used =
      elim (queue_index s slot_info.service_class slot_info.destination) [
        | none ↦ some (s, none, [])
        | some index ↦
            if capacity - used == 0
            then some (s, none, [])
            else elim (split_queue slot_info.destination (queue_at s index)) [
              | none ↦ some (s, none, [])
              | some (before, q, behind) ↦
                  if ltb (capacity - used) (remaining q) && not s.fragmentation_enable
                  then (if not (used == 0)
                      then some (s, none, [])
                      else after_drop
                          (dropped_too_big index q.info.source q.info.destination (length q.payload)
                            ∷ published index
                            ∷ [])
                          (take_packet fuel (drop_too_big s index before q behind) used))
                  else (let (s', t) = take_from s index before q behind (capacity - used) in
                      some (s', some t, published index ∷ []))
            ]
      ]

-- The code starts here: without a schedule, or outside a transmit slot, nothing is sent. An outer
-- `none` is a slot index past the end, which panics in the code, or the end of the fuel.
unfoldable pub take_transmission {ℓ} :
    {F : Type ℓ}
    → ℕ
    → Option (Schedule F)
    → ℕ
    → TxState
    → ℕ
    → Option (TxState × Option (Transmission F) × List Effect)
take_transmission fuel none absolute s used = some (s, none, [])
take_transmission fuel (some schedule) absolute s used = elim (slot schedule absolute) [
  | none ↦ none
  | some (tx f r c p d) ↦
      take_packet schedule absolute
        (record {
          frequency_hz = f;
          data_rate_bps = r;
          service_class = c;
          power_dbm = p;
          destination = d;
        })
        fuel s used
  | some (rx f) ↦ some (s, none, [])
  | some idle ↦ some (s, none, [])
]
