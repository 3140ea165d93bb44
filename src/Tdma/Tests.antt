-- ===== src/Tdma/Tests.antt =====
-- Runs of the TDMA components at concrete inputs. Powers are numbers here, all of them finite.
use emane.Base.{ℕ, ◌+◌, ◌≡◌, ◌≢◌, refl, Bool, true, false, none, some, List, [], ◌∷◌, arith}
use emane.Base.Int.{pos}
use emane.Tdma.Schedule.{
  Slot, tx, rx, idle, Schedule, cycle_slots, slot, absolute_slot, slot_start, is_tx, find_tx,
  next_tx,
}
use emane.Tdma.Schedule.Transmit.{slot-some, next_tx-some, next_tx-none, absolute_slot-slot_start}
use emane.Tdma.Event.{
  ScheduleEvent, initial_schedule, put_frames, put_frame, put_slots, make_slot, tx_slot, is_full,
  parse_schedule,
}
use emane.Tdma.Event.Valid.{IsValid, parse_schedule-IsValid}
use emane.Tdma.Queue.{QueuedPacket, TxState, queue_index, any_eligible, is_eligible, split_queue}
use emane.Tdma.Queue.Take.{
  dropped_too_big, published, Transmission, TxSlot, capacity, take_transmission, take_packet,
  after_drop, drop_too_big, return_token, take_from, count_taken,
}
use emane.Tdma.Queue.Conserved.{packets, IsConserving}
use emane.Tdma.Queue.Accounted.{IsAccounted}
use emane.Tdma.Queue.Removed.{weigh, weigh_all}
use emane.Tdma.Queue.Tokens.{HasTokens}
use emane.Tdma.Queue.Returns.{
  take_transmission-some, take_transmission-IsAccounted, take_transmission-SameTokens,
}

-- A multiframe of two frames of two slots, of 1000 microseconds each; the second slot transmits two
-- bytes to anyone.
abbrev slot_info : TxSlot ℕ
slot_info = record {
  frequency_hz = 5;
  data_rate_bps = 16000;
  service_class = 1;
  power_dbm = 3;
  destination = 0;
}

abbrev schedule : Schedule ℕ
schedule = record {
  slots_per_frame = 2;
  frames_per_multiframe = 2;
  slot_duration_us = 1000;
  overhead_us = 0;
  bandwidth_hz = 7;
  slots = idle ∷ tx 5 16000 1 3 0 ∷ rx 5 ∷ idle ∷ [];
}

abbrev silent : Schedule ℕ
silent = record schedule { slots = idle ∷ idle ∷ rx 5 ∷ idle ∷ [] }

slot-some_example : (x : Slot ℕ) × (slot schedule 9 ≡ some x)
unfolding cycle_slots
slot-some_example = slot-some schedule 9 (omega arith) refl

next_tx-some_example : is_tx (slot schedule 5) ≡ true
unfolding cycle_slots next_tx find_tx slot
next_tx-some_example = (next_tx-some schedule 1 3 (omega arith) refl).2

next_tx-none_example : is_tx (slot silent 11) ≡ false
unfolding cycle_slots next_tx find_tx slot
next_tx-none_example = next_tx-none silent 1 11 (omega arith) (omega arith) refl

absolute_slot-slot_start_example : absolute_slot schedule (pos (slot_start schedule 9)) ≡ 9
absolute_slot-slot_start_example = absolute_slot-slot_start schedule 9 (omega arith) (omega arith)

abbrev packet : List ℕ → QueuedPacket
packet bytes = record {
  info = record {
    source = 1;
    destination = 2;
    priority = 10;
    creation_time_sec = 0;
    creation_time_usec = 0;
  };
  payload = bytes;
  sequence = 1;
  offset = 0;
  fragment_index = 0;
}

abbrev state : TxState
state = record {
  queues = [] ∷ (packet (1 ∷ 2 ∷ 3 ∷ []) ∷ packet (4 ∷ []) ∷ []) ∷ [] ∷ [] ∷ [] ∷ [];
  queue_statistics = [];
  fragmentation_enable = false;
  strict_dequeue = false;
  flow_control_enable = true;
  flow_control_tokens = 5;
  available_tokens = 3;
}

state-HasTokens : HasTokens state
unfolding packets weigh weigh_all
state-HasTokens = record { enabled = refl; is_u16 = omega arith; bounded = omega arith }

abbrev all_finite : ℕ → Bool
all_finite p = true

schedule-IsValid : IsValid all_finite 0 schedule
schedule-IsValid = record {
  slots_pos = omega arith;
  frames_pos = omega arith;
  duration_pos = omega arith;
  overhead_lt = omega arith;
  bandwidth_pos = omega arith;
  limited = omega arith;
  filled = refl;
  good = ground arith;
}

take_transmission-some_example : take_transmission 3 (some schedule) 1 state 0 ≢ none
unfolding packets weigh weigh_all
take_transmission-some_example =
    take_transmission-some all_finite 0 3 (some schedule) 1 state 0 schedule-IsValid (omega arith)

-- The first packet is too big for the slot and the second is sent whole.
abbrev state_after : TxState
state_after = record state { queues = [] ∷ [] ∷ [] ∷ [] ∷ [] ∷ []; available_tokens = 5 }

take_transmission-SameTokens_example : state_after.available_tokens + packets state_after ≡ 5
unfolding take_transmission packets slot cycle_slots take_packet queue_index any_eligible
    is_eligible capacity split_queue after_drop drop_too_big return_token take_from count_taken
    weigh_all weigh
take_transmission-SameTokens_example =
    (take_transmission-SameTokens 3 schedule 1 state 0 slot_info {s' = state_after} refl refl
      state-HasTokens).outstanding

abbrev second : Transmission ℕ
second = record {
  info = (packet (4 ∷ [])).info;
  bytes = 4 ∷ [];
  sequence = 1;
  offset = 0;
  fragment_index = 0;
  more = false;
  frequency = 5;
  rate = 16000;
  category = 1;
  power = 3;
  bandwidth = 7;
  tx_time = 1000;
}

take_transmission-IsAccounted_example :
    IsAccounted 2 state state_after
      (some second)
      (dropped_too_big 1 1 2 3 ∷ published 1 ∷ published 1 ∷ [])
    × IsConserving 2 state state_after
        (some second)
        (dropped_too_big 1 1 2 3 ∷ published 1 ∷ published 1 ∷ [])
unfolding take_transmission packets slot cycle_slots take_packet queue_index any_eligible
    is_eligible capacity split_queue after_drop drop_too_big return_token take_from count_taken
    weigh_all weigh slot_start
take_transmission-IsAccounted_example =
    take_transmission-IsAccounted 3 schedule 1 state 0 slot_info refl refl

abbrev update : ScheduleEvent ℕ
update = record {
  frames =
      record {
        index = 1;
        frequency_hz = none;
        data_rate_bps = none;
        service_class = none;
        power_dbm = none;
        slots =
            record {
              index = 0;
              slot_type = 1;
              tx_fields = some (record {
                frequency_hz = none;
                data_rate_bps = some 8000;
                service_class = none;
                power_dbm = none;
                destination = some 4;
              });
              rx_frequency_hz = none;
            }
            ∷ [];
      }
      ∷ [];
  structure = none;
  frequency_hz = some 9;
  data_rate_bps = none;
  service_class = some 2;
  power_dbm = some 1;
}

abbrev updated : Schedule ℕ
updated = record schedule { slots = idle ∷ tx 5 16000 1 3 0 ∷ tx 9 8000 2 1 4 ∷ idle ∷ [] }

parse_schedule-IsValid_example :
    IsValid all_finite 0 updated × (false ≡ is_full all_finite 0 update)
unfolding parse_schedule initial_schedule put_frames put_frame put_slots make_slot tx_slot
parse_schedule-IsValid_example =
    parse_schedule-IsValid all_finite 0 update (some schedule) schedule-IsValid refl
