-- ===== src/Ota/Manager.antt =====
-- `OtaManager` of ota_manager.rs: users, messages, expiry of parts, sending. Protobuf decoders and
-- encoders, the socket's answers and the clock are arguments. Calls of the event service, of the
-- users' callbacks and of the statistics are returned as effects, in their order.
pub mod Loop
pub mod Send
pub mod Messages
use emane.Base.{
  ℕ, suc, ◌+◌, ◌*◌, Bool, true, false, not, ◌&&◌, ◌||◌, Option, none, some, List, [], ◌∷◌, ◌++◌,
  map, length, slice, ltb, leb, ◌==◌, if◌then◌else◌, is_some,
}
use emane.Base.Bytes.{Bytes}
use emane.Base.Dict
use emane.Base.Dict.{Dict, nat_eq}
use emane.Ota.Types.{
  usize_mod, max_ota_payload, checked_add, saturating_add, PartKey, part_key_Eq, PartsData,
  PartStore, PayloadInfo, OtaHeader, OtaMessage,
}
use emane.Ota.Send.{Sections, total_size, Sending, overhead, send_loop}
use emane.Ota.Reassembly.{expected_total}
use emane.Ota.Receive.{ignored, skipped, single, fragment, parse_datagram}

-- A user's context pointer, and whether it has a callback.
pub record OtaUser : Type 0 where
  pub context : ℕ
  pub has_callback : Bool

pub record OtaManager : Type 0 where
  pub socket : Bool
  pub uuid : Bytes
  pub ota_mtu : ℕ
  pub part_check_threshold : ℕ
  pub part_timeout_threshold : ℕ
  pub sequence_number : ℕ
  pub part_store : PartStore
  pub last_part_check_time : ℕ
  pub nem_users : Dict ℕ (List OtaUser)
  pub group_addr : Option ℕ
  pub running : Bool
  pub upstream_packets : ℕ
  pub reassembly_timeouts : ℕ

-- One serialization of an `event::Data` message.
pub record Serialization : Type 0 where
  pub nem_id : ℕ
  pub event_id : ℕ
  pub bytes : Bytes

pub data Effect : Type 0 where
  route_event : ℕ → ℕ → Bytes → Effect
  count_event : Bytes → ℕ → Bool → Effect
  count_packet : Bytes → ℕ → ℕ → Effect
  upstream : OtaUser → OtaMessage → Bytes → Bytes → Effect

-- The protobuf messages, which generated code reads and writes.
pub record Codec : Type 0 where
  pub decode_header : Bytes → Option OtaHeader
  pub encode_header : OtaHeader → Bytes
  pub decode_events : Bytes → Option (List Serialization)

-- `users.retain(|user| user.context != context)`.
unfoldable pub without_context : ℕ → List OtaUser → List OtaUser
without_context context [] = []
without_context context (u ∷ us) =
    if u.context == context then without_context context us else u ∷ without_context context us

unfoldable pub users_of : ℕ → OtaManager → List OtaUser
users_of id m = elim (Dict.lookup id m.nem_users) [ none ↦ [] | some us ↦ us ]

unfoldable pub register_native_user : OtaManager → ℕ → ℕ → OtaManager
unfolding users_of without_context
register_native_user m id context = record m {
  nem_users =
      Dict.insert id
        (without_context context (users_of id m)
          ++ (record { context = context; has_callback = true } ∷ []))
        m.nem_users;
}

-- The entry after its users have been filtered: it goes when none is left.
unfoldable pub put_users : OtaManager → ℕ → List OtaUser → OtaManager
put_users m id [] = record m { nem_users = Dict.remove id m.nem_users }
put_users m id (u ∷ us) = record m { nem_users = Dict.insert id (u ∷ us) m.nem_users }

unfoldable pub unregister_native_user : OtaManager → ℕ → ℕ → OtaManager
unfolding without_context put_users
unregister_native_user m id context = elim (Dict.lookup id m.nem_users) [
  | none ↦ m
  | some us ↦ put_users m id (without_context context us)
]

abbrev pub nanos : ℕ
nanos = 1000000000

-- `open`, where `setup` tells whether the address, the socket and the multicast group are in order.
unfoldable pub open_manager : OtaManager → Bool → ℕ → Bytes → ℕ → ℕ → ℕ → OtaManager × Bool
open_manager m setup group uuid mtu check_seconds timeout_seconds =
    if m.running || not setup then (m, false) else (
      record m {
        socket = true;
        uuid = uuid;
        ota_mtu = mtu;
        part_check_threshold = check_seconds * nanos;
        part_timeout_threshold = timeout_seconds * nanos;
        group_addr = some group;
        part_store = [];
        running = true;
      },
      true,
    )

unfoldable pub close : OtaManager → OtaManager
close m = record m { running = false; socket = false; part_store = [] }

-- The events of a message; one whose ids are no `u16` is passed over.
unfoldable pub event_effects : Bytes → List Serialization → List Effect
event_effects uuid [] = []
event_effects uuid (s ∷ ss) =
    if ltb 65535 s.nem_id || ltb 65535 s.event_id
    then event_effects uuid ss
    else route_event s.nem_id s.event_id s.bytes
      ∷ count_event uuid s.event_id true
      ∷ event_effects uuid ss

unfoldable pub all_users : Dict ℕ (List OtaUser) → List OtaUser
all_users [] = []
all_users ((id, us) ∷ m) = us ++ all_users m

unfoldable pub callbacks : List OtaUser → OtaMessage → Bytes → Bytes → List Effect
callbacks [] msg packet controls = []
callbacks (u ∷ us) msg packet controls =
    if u.has_callback
    then upstream u msg packet controls ∷ callbacks us msg packet controls
    else callbacks us msg packet controls

-- The sections of a payload, by the lengths that its header gives.
unfoldable pub events_of : OtaMessage → Bytes
events_of msg = slice 0 msg.events_size msg.payload

unfoldable pub controls_of : OtaMessage → Bytes
controls_of msg = slice msg.events_size (msg.events_size + msg.controls_size) msg.payload

unfoldable pub data_of : OtaMessage → Bytes
data_of msg =
    slice (msg.events_size + msg.controls_size)
      (msg.events_size + msg.controls_size + msg.data_size) msg.payload

unfoldable pub deliver_events : Codec → OtaMessage → List Effect
unfolding event_effects events_of
deliver_events codec msg =
    if ltb 0 msg.events_size
    then elim (codec.decode_events (events_of msg)) [
      | none ↦ []
      | some ss ↦ event_effects msg.uuid ss
    ]
    else []

unfoldable pub deliver_data : OtaManager → OtaMessage → OtaManager × List Effect
unfolding all_users callbacks controls_of data_of
deliver_data m msg =
    if ltb 0 msg.data_size
    then (
      record m { upstream_packets = saturating_add m.upstream_packets 1 },
      count_packet msg.uuid msg.source 1
          ∷ callbacks (all_users m.nem_users) msg (data_of msg) (controls_of msg),
    )
    else (m, [])

abbrev pub info_of : OtaMessage → PayloadInfo
info_of msg = record {
  data_length = msg.data_size;
  control_length = msg.controls_size;
  event_length = msg.events_size;
}

unfoldable pub handle_ota_message :
    Codec → OtaManager → OtaMessage → OtaManager × Bool × List Effect
handle_ota_message codec m msg = elim (expected_total (info_of msg)) [
  | none ↦ (m, false, [])
  | some size ↦
      if not (size == length msg.payload) || ltb max_ota_payload size
      then (m, false, [])
      else (let (m', effects) = deliver_data m msg in
          (m', true, deliver_events codec msg ++ effects))
]
