-- ===== src/Ota/Manager/Send.antt =====
-- `emane_rs_ota_manager_send_ota_packet`. A buffer is a null pointer with a length, or bytes.
use emane.Base.{
  ℕ, suc, ◌+◌, ◌%◌, Bool, true, false, not, ◌&&◌, ◌||◌, none, some, is_some, List, [], ◌∷◌, length,
  ltb, leb, ◌==◌, if◌then◌else◌,
}
use emane.Base.Bytes.{Bytes}
use emane.Ota.Types.{usize_mod, max_ota_payload, PayloadInfo, OtaHeader}
use emane.Ota.Reassembly.{expected_total}
use emane.Ota.Send.{Sections, total_size, Sending, overhead, u32_max, send_loop}
use emane.Ota.Manager.{OtaManager, Effect, count_packet, count_event, Codec, Serialization}

pub data Buffer : Type 0 where
  null : ℕ → Buffer
  bytes : Bytes → Buffer

abbrev pub buffer_len : Buffer → ℕ
buffer_len (null n) = n
buffer_len (bytes b) = length b

-- The slice that is read: empty for a null pointer.
abbrev pub buffer_slice : Buffer → Bytes
buffer_slice (null n) = []
buffer_slice (bytes b) = b

-- `len != 0 && ptr.is_null()`, or a length beyond `u32`.
unfoldable pub is_bad : Buffer → Bool
is_bad (null n) = not (n == 0)
is_bad (bytes b) = ltb u32_max (length b)

-- The socket: whether its handle can be cloned, and its answer to each datagram.
pub record Wire : Type 0 where
  pub can_clone : Bool
  pub send_to : Bytes → Bool

unfoldable pub header_of : OtaManager → ℕ → ℕ → PayloadInfo → OtaHeader
header_of m source destination info = record {
  source = source;
  destination = destination;
  sequence = m.sequence_number;
  uuid = m.uuid;
  payload_info = some info;
}

-- The events that are counted after a packet has been sent.
unfoldable pub sent_events : Bytes → List Serialization → List Effect
sent_events uuid [] = []
sent_events uuid (s ∷ ss) =
    if ltb 65535 s.event_id
    then sent_events uuid ss
    else count_event uuid s.event_id false ∷ sent_events uuid ss

unfoldable pub count_sent : Codec → OtaManager → ℕ → Bytes → List Effect
unfolding sent_events
count_sent codec m source events =
    count_packet m.uuid source 0
    ∷ (if ltb 0 (length events)
        then elim (codec.decode_events events) [ none ↦ [] | some ss ↦ sent_events m.uuid ss ]
        else [])

pub record Sent : Type 0 where
  pub manager : OtaManager
  pub datagrams : List Bytes
  pub effects : List Effect
  pub ok : Bool

abbrev pub unsent : OtaManager → List Bytes → Sent
unsent m ds = record { manager = m; datagrams = ds; effects = []; ok = false }

-- The loop, with a round of fuel for each byte of the payload.
unfoldable pub send_sections : Codec → OtaManager → Wire → ℕ → Sending → Sent
send_sections codec m wire source c =
    if not (c.mtu == 0) && leb c.mtu (overhead c) && not (total_size c.sections == 0)
    then unsent m []
    else (let (datagrams, ok) = send_loop wire.send_to (suc (total_size c.sections)) c 0 in
        if ok
        then record {
          manager = m;
          datagrams = datagrams;
          effects = count_sent codec m source c.sections.events;
          ok = true;
        }
        else unsent m datagrams)

unfoldable pub sections_of : Buffer → Buffer → Buffer → Sections
sections_of packet controls events = record {
  events = buffer_slice events;
  controls = buffer_slice controls;
  packet = buffer_slice packet;
}

abbrev pub next_sequence : OtaManager → OtaManager
next_sequence m = record m { sequence_number = (m.sequence_number + 1) % usize_mod }

-- After the checks of the arguments and of the socket, with the sequence number advanced.
unfoldable pub send_checked : Codec → OtaManager → Wire → ℕ → ℕ → PayloadInfo → Sections → Sent
send_checked codec m wire source destination info s =
    let header = codec.encode_header (header_of m source destination info) in
    if not wire.can_clone || not (is_some m.group_addr) || ltb 65535 (length header)
    then unsent m []
    else send_sections codec m wire source
        (record { header = header; mtu = m.ota_mtu; sections = s })

unfoldable pub send_ota_packet : Codec → OtaManager → Wire → ℕ → ℕ → Buffer → Buffer → Buffer → Sent
unfolding is_bad sections_of
send_ota_packet codec m wire source destination packet controls events =
    let info : PayloadInfo = record {
      data_length = buffer_len packet;
      control_length = buffer_len controls;
      event_length = buffer_len events;
    } in
    if is_bad packet || is_bad controls || is_bad events
    then unsent m []
    else elim (expected_total info) [
      | none ↦ unsent m []
      | some total ↦
          if ltb max_ota_payload total || not m.socket
          then unsent m []
          else send_checked codec (next_sequence m) wire source destination info
              (sections_of packet controls events)
    ]
