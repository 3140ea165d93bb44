-- ===== src/Ota/Tests.antt =====
-- Runs of the OTA components at concrete inputs.
use mathlib.Core.List.{Permᴰ}
use emane.Base.{
  ℕ, ◌≡◌, refl, inl, inr, true, Option, none, some, List, [], ◌∷◌, map, arith, if◌then◌else◌,
}
use emane.Base.Bytes.{Bytes, bytes_eq}
use emane.Base.Dict
use emane.Ota.Types.{part_key_Eq, PartsData, OtaHeader, OtaMessage, PartInfo}
use emane.Ota.Wire.{datagram}
use emane.Ota.Send.{Sections, gather, Sending, has_more, payload_size, message, send_loop}
use emane.Ota.Send.Gather.{gather-slice}
use emane.Ota.Send.Mtu.{AreWithin, send_loop-AreWithin}
use emane.Ota.Send.Parts.{CanSend, offsets, send_loop_lem}
use emane.Ota.Reassembly.{Part, expected_total}
use emane.Ota.Reassembly.Delivery.{AreDeliveries, run, run-AreDeliveries}
use emane.Ota.Receive.{classify, parse_datagram}
use emane.Ota.Receive.Datagram.{IsWellFormed, parse_datagram-datagram}
use emane.Ota.Manager.{OtaUser, OtaManager, Codec, count_packet, upstream, handle_ota_message}
use emane.Ota.Manager.Loop.{cleanup}
use emane.Ota.Manager.Loop.Expiry.{cleanup_lem, cleanup-lookup}
use emane.Ota.Manager.Messages.{handle_ota_message_accepted}
use emane.Ota.Statistics.{StatisticKey, statistic_key_Eq, OtaStatistics, packet, counter, table_row}
use emane.Ota.Statistics.Limits.{IsLimited, packet-IsLimited, packet_lem}
use emane.Ota.RoundTrip.{info_of, key_of, all_offsets}
use emane.Ota.RoundTrip.Datagrams.{CanReceive, packet_round_trip_single}
use emane.Ota.RoundTrip.Rounds.{rounds, for_key}
use emane.Ota.RoundTrip.Arrivals.{Arrival, own, other, AreOthers, datagrams}
use emane.Ota.RoundTrip.Traffic.{packet_round_trip}
use emane.Ota.Wire.{read_be16}

abbrev remote : Bytes
remote = 1 ∷ 2 ∷ 3 ∷ 4 ∷ 5 ∷ 6 ∷ 7 ∷ 8 ∷ 9 ∷ 10 ∷ 11 ∷ 12 ∷ 13 ∷ 14 ∷ 15 ∷ 16 ∷ []

abbrev local : Bytes
local = 0 ∷ []

abbrev sections : Sections
sections = record { events = []; controls = 7 ∷ []; packet = 8 ∷ 9 ∷ [] }

abbrev header : OtaHeader
header = record {
  source = 1;
  destination = 2;
  sequence = 5;
  uuid = remote;
  payload_info = some (info_of sections);
}

abbrev decode : Bytes → Option OtaHeader
decode bytes = if bytes_eq bytes (42 ∷ []) then some header else none

-- Two bytes of payload fit one datagram of 14 bytes: 2 for the length, 1 of header, 9 of part info.
abbrev sending : Sending
sending = record { header = 42 ∷ []; mtu = 14; sections = sections }

-- Without a limit the packet is sent as one datagram.
abbrev whole_sending : Sending
whole_sending = record { header = 42 ∷ []; mtu = 0; sections = sections }

abbrev clock : ℕ → ℕ
clock o = 100

sending-CanSend : CanSend sending
sending-CanSend = record { room = inr (omega arith); limit = omega arith }

whole_sending-CanSend : CanSend whole_sending
whole_sending-CanSend = record { room = inl refl; limit = omega arith }

sending-CanReceive : CanReceive decode local header sending
unfolding bytes_eq
sending-CanReceive = record {
  decodes = refl;
  header_u16 = omega arith;
  source_u16 = omega arith;
  destination_u16 = omega arith;
  uuid_size = refl;
  foreign = λ e. ground arith;
  lengths = refl;
}

whole_sending-CanReceive : CanReceive decode local header whole_sending
unfolding bytes_eq
whole_sending-CanReceive = record {
  decodes = refl;
  header_u16 = omega arith;
  source_u16 = omega arith;
  destination_u16 = omega arith;
  uuid_size = refl;
  foreign = λ e. ground arith;
  lengths = refl;
}

two_parts : all_offsets sending ≡ 0 ∷ 2 ∷ []
unfolding offsets payload_size has_more
two_parts = refl

swapped : Permᴰ (all_offsets sending) (2 ∷ 0 ∷ [])
unfolding offsets payload_size has_more
swapped = Permᴰ.swap refl refl

send_loop_lem_example :
    send_loop (λ d. true) 4 sending 0 ≡ (map (message sending) (offsets 4 sending 0), true)
send_loop_lem_example =
    send_loop_lem (λ d. true) (λ d. refl) 4 sending 0 sending-CanSend (omega arith) (omega arith)

gather-slice_example : gather sections 1 2 ≡ 8 ∷ 9 ∷ []
gather-slice_example = gather-slice sections 1 2

packet_round_trip_single_example :
    send_loop (λ d. true) 4 whole_sending 0 ≡ (message whole_sending 0 ∷ [], true)
unfolding has_more
packet_round_trip_single_example =
    (packet_round_trip_single decode local header whole_sending whole_sending-CanSend
      whole_sending-CanReceive (λ d. true) (λ d. refl) (omega arith) refl).0

-- The last part alone, then a part under another key, then the first part twice.
abbrev part_of : ℕ → ℕ → Bytes → Part
part_of sequence offset bytes = record {
  key = record { source = 1; sequence = sequence };
  uuid = remote;
  info = info_of sections;
  more = 1;
  offset = offset;
  payload = bytes;
}

abbrev mixed : List (Part × ℕ)
mixed =
    (part_of 5 2 (9 ∷ []), 100)
    ∷ (part_of 6 0 (3 ∷ []), 100)
    ∷ (part_of 5 0 (7 ∷ 8 ∷ []), 100)
    ∷ (part_of 5 0 (7 ∷ 8 ∷ []), 100)
    ∷ []

run-AreDeliveries_example : AreDeliveries (key_of header) (7 ∷ 8 ∷ 9 ∷ []) (run [] mixed)
unfolding Dict.lookup expected_total
run-AreDeliveries_example =
    run-AreDeliveries (key_of header) (7 ∷ 8 ∷ 9 ∷ []) (omega arith) [] mixed
      (
        record { piece = (omega arith, refl); expected = refl },
        (
          tt,
          (
            record { piece = (omega arith, refl); expected = refl },
            (record { piece = (omega arith, refl); expected = refl }, tt),
          ),
        ),
      )
      tt

abbrev first_info : PartInfo
first_info = record { more = 1; offset = 0; size = 2 }

first-IsWellFormed : IsWellFormed local header (42 ∷ []) first_info (7 ∷ 8 ∷ [])
first-IsWellFormed = record {
  header_u16 = omega arith;
  source_u16 = omega arith;
  destination_u16 = omega arith;
  flag = omega arith;
  uuid_size = refl;
  foreign = λ e. ground arith;
  offset_u32 = omega arith;
  payload_u32 = omega arith;
  exact = refl;
}

parse_datagram-datagram_example :
    parse_datagram decode local (datagram (42 ∷ []) first_info (7 ∷ 8 ∷ []))
    ≡ classify header first_info (7 ∷ 8 ∷ [])
unfolding bytes_eq
parse_datagram-datagram_example =
    parse_datagram-datagram local header (42 ∷ []) first_info (7 ∷ 8 ∷ []) first-IsWellFormed decode
      refl

abbrev codec : Codec
codec = record {
  decode_header = decode;
  encode_header = (λ h. 42 ∷ []);
  decode_events = (λ bytes. some []);
}

-- An entry whose last part came at 10, and one whose last part came at 95.
abbrev entry : ℕ → PartsData
entry time = record {
  total_size = 2;
  events_size = 0;
  controls_size = 1;
  data_size = 2;
  parts = (0, 7 ∷ 8 ∷ []) ∷ [];
  last_part_time = time;
  uuid = remote;
}

abbrev manager : OtaManager
manager = record {
  socket = true;
  uuid = local;
  ota_mtu = 14;
  part_check_threshold = 20;
  part_timeout_threshold = 50;
  sequence_number = 0;
  part_store =
      (record { source = 1; sequence = 4 }, entry 10)
      ∷ (record { source = 1; sequence = 5 }, entry 95)
      ∷ [];
  last_part_check_time = 70;
  nem_users = [];
  group_addr = some 1;
  running = true;
  upstream_packets = 0;
  reassembly_timeouts = 0;
}

-- The part of the first packet is older than the timeout.
cleanup_lem_example : cleanup manager 100 ≡ (
  record manager {
    part_store = (record { source = 1; sequence = 5 }, entry 95) ∷ [];
    last_part_check_time = 100;
    reassembly_timeouts = 1;
  },
  count_packet remote 1 2 ∷ [],
)
cleanup_lem_example = cleanup_lem manager 100 (omega arith)

cleanup-lookup_example :
    Dict.lookup (record { source = 1; sequence = 5 }) (cleanup manager 100).0.part_store
    ≡ some (entry 95)
unfolding Dict.lookup
cleanup-lookup_example =
    cleanup-lookup manager 100 (record { source = 1; sequence = 5 }) (entry 95) refl (omega arith)

abbrev message_of : Bytes → OtaMessage
message_of bytes = record {
  source = 1;
  destination = 2;
  uuid = remote;
  events_size = 0;
  controls_size = 1;
  data_size = 2;
  payload = bytes;
}

abbrev listener : OtaUser
listener = record { context = 4; has_callback = true }

handle_ota_message_accepted_example :
    handle_ota_message codec
      (record manager { nem_users = (6, listener ∷ []) ∷ [] })
      (message_of (7 ∷ 8 ∷ 9 ∷ []))
    ≡ (
      record manager { nem_users = (6, listener ∷ []) ∷ []; upstream_packets = 1 },
      true,
      count_packet remote 1 1
          ∷ upstream listener (message_of (7 ∷ 8 ∷ 9 ∷ [])) (8 ∷ 9 ∷ []) (7 ∷ [])
          ∷ [],
    )
handle_ota_message_accepted_example =
    handle_ota_message_accepted codec (record manager { nem_users = (6, listener ∷ []) ∷ [] })
      (message_of (7 ∷ 8 ∷ 9 ∷ [])) [] (7 ∷ []) (8 ∷ 9 ∷ [])
      (record {
        payload = refl;
        events_size = refl;
        controls_size = refl;
        data_size = refl;
        limit = omega arith;
      })
      (omega arith)

-- The last part, a datagram that is too short, and the first part, long after the last one.
abbrev empty_manager : OtaManager
empty_manager = record manager { part_store = [] }

abbrev traffic : List Arrival
traffic = own 2 100 ∷ other (0 ∷ []) 120 ∷ own 0 4000 ∷ []

traffic-AreOthers : AreOthers decode local (key_of header) traffic
unfolding parse_datagram read_be16
traffic-AreOthers = (tt, tt)

several : has_more sending 0 ≡ true
unfolding has_more
several = refl

packet_round_trip_example :
    for_key (key_of header) (
      rounds codec empty_manager
        (datagrams codec local header sending sending-CanSend sending-CanReceive several traffic))
    ≡ (key_of header, message_of (7 ∷ 8 ∷ 9 ∷ [])) ∷ []
unfolding Dict.lookup
packet_round_trip_example =
    (packet_round_trip codec local header sending sending-CanSend sending-CanReceive several
      (λ d. true) empty_manager traffic (λ d. refl) (omega arith) refl (omega arith) refl swapped
      traffic-AreOthers (inl (omega arith), tt)).1

-- A table of packets with one row, which is full.
abbrev row_key : StatisticKey
row_key = record { uuid = remote; id = 1 }

abbrev statistics : OtaStatistics
statistics = record {
  packet_row_limit = 1;
  event_row_limit = 0;
  packet_generation = 0;
  event_generation = 0;
  packet_rows = (row_key, 4 ∷ 0 ∷ 0 ∷ []) ∷ [];
  event_rows = [];
}

statistics-IsLimited : IsLimited statistics
statistics-IsLimited = record { packets = omega arith; events = omega arith }

packet-IsLimited_example : IsLimited (packet statistics none (record { uuid = local; id = 2 }) 1).0
packet-IsLimited_example =
    (packet-IsLimited statistics none (record { uuid = local; id = 2 }) 1 true
      statistics-IsLimited).0

packet_lem_example :
    (packet statistics (some 0) row_key 0).1 ≡ counter 0 ∷ table_row row_key (5 ∷ 0 ∷ 0 ∷ []) ∷ []
unfolding Dict.lookup bytes_eq
packet_lem_example =
    (packet_lem statistics (some 0) row_key 0 4 (4 ∷ 0 ∷ 0 ∷ []) refl refl refl (omega arith)).0

-- The socket refuses everything after the first datagram.
send_loop-AreWithin_example :
    AreWithin 14 (send_loop (λ d. bytes_eq d (message sending 0)) 4 sending 0).0
send_loop-AreWithin_example =
    send_loop-AreWithin (λ d. bytes_eq d (message sending 0)) 4 sending 0 sending-CanSend
      (omega arith)
