-- ===== src/Boundary/Message/RoundTrip.antt =====
-- What the two ends of boundary_message_manager.rs make of each other's messages.
use emane.Base.{
  ℕ, ◌+◌, ◌<◌, ◌≤◌, ◌≡◌, refl, sym, subst, List, length, arith, length-append, take-append_length,
  drop-append_length,
}
use emane.Base.Bytes.{Bytes, be16, be32, from_be16, from_be16-be16, from_be32-be32}
use emane.Base.Bytes.Fields.{get_u8, get_u16, get_u32}
use emane.Tdma.Queue.{PacketInfo}
use emane.Boundary.{FfiControlMessage, FfiPacket, packet, control, valid, ◌>>=◌, bind-valid}
use emane.Boundary.Controls.{
  ffi_slice, encode_controls, decode_controls, payload_bytes, owned, ffi_slice-valid,
  decode_controls-encode_controls,
}
use emane.Boundary.Message.{
  header_length, max_message_length, Now, data_bytes, frame_packet, packet_message, control_bytes,
  frame_controls, controls_message, decode_packet, decode_control, decode_message,
}

-- The packet that the other side makes of one, at its own time.
abbrev pub received_info : Now → PacketInfo → PacketInfo
received_info now info = record info {
  creation_time_sec = now.seconds;
  creation_time_usec = now.micros;
}

decode_packet-data_bytes :
    (now : Now) (total : ℕ) (info : PacketInfo) (payload controls : Bytes)
    → info.source < 65536
    → info.destination < 65536
    → total ≡ 19 + length payload + length controls
    → total ≤ max_message_length
    → decode_packet now (data_bytes total info payload controls) ≡ (
        decode_controls controls >>= λ cs.
        valid (packet (record { info = received_info now info; payload = payload; controls = cs })))
unfolding decode_packet data_bytes be16 be32 get_u8 get_u16 get_u32
decode_packet-data_bytes now total info payload controls h k t m = ground (
  arith,
  from_be16-be16 info.source h,
  from_be16-be16 info.destination k,
  from_be32-be32 (length payload) (omega arith),
  from_be32-be32 (length controls) (omega arith),
  length-append payload controls,
  take-append_length (length payload) payload controls refl,
  drop-append_length (length payload) payload controls refl,
)

decode_message-data_bytes :
    (now : Now) (total : ℕ) (info : PacketInfo) (payload controls : Bytes)
    → total ≡ 19 + length payload + length controls
    → total ≤ max_message_length
    → decode_message now (data_bytes total info payload controls)
      ≡ decode_packet now (data_bytes total info payload controls)
unfolding decode_message data_bytes be16 be32 get_u16 get_u32 from_be16
decode_message-data_bytes now total info payload controls t m =
    ground (arith, from_be32-be32 total (omega arith), length-append payload controls)

frame_packet-valid :
    (info : PacketInfo) (payload controls sent : Bytes)
    → frame_packet info payload controls ≡ valid sent
    → (19 + length payload + length controls ≤ max_message_length)
      × (sent ≡ data_bytes (19 + length payload + length controls) info payload controls)
unfolding frame_packet
frame_packet-valid info payload controls sent e = ground arith

frame_controls-valid :
    (controls sent : Bytes)
    → frame_controls controls ≡ valid sent
    → (10 + length controls ≤ max_message_length)
      × (sent ≡ control_bytes (10 + length controls) controls)
unfolding frame_controls
frame_controls-valid controls sent e = ground arith

decode_message-control_bytes :
    (now : Now) (controls : Bytes)
    → 10 + length controls ≤ max_message_length
    → decode_message now (control_bytes (10 + length controls) controls)
      ≡ (decode_controls controls >>= λ cs. valid (control cs))
unfolding decode_message decode_control control_bytes be16 be32 get_u16 get_u32 from_be16
decode_message-control_bytes now controls m = ground (
  arith,
  from_be32-be32 (10 + length controls) (omega arith),
  from_be32-be32 (length controls) (omega arith),
)

-- A message that a stream can carry: its length field is right, and within the bounds.
pub record IsFrame (m : Bytes) : Type 0 where
  pub long_enough : header_length ≤ length m
  pub counted : get_u32 m 2 ≡ length m
  pub limited : length m ≤ max_message_length

-- A packet that `send_packet` accepts, with node numbers of 16 bits, is decoded to the same
-- addresses, priority, payload and control messages, with the receiver's time.
pub decode_message-packet_message :
    (now : Now) (p : FfiPacket) (cs : List FfiControlMessage) (sent : Bytes)
    → p.info.source < 65536
    → p.info.destination < 65536
    → packet_message p cs ≡ valid sent
    → decode_message now sent
      ≡ valid (
          packet (record {
            info = received_info now p.info;
            payload = payload_bytes p.payload;
            controls = owned cs;
          }))
unfolding packet_message
decode_message-packet_message now p cs sent h k e =
    let (payload, f, e1) = bind-valid (ffi_slice p.payload) _ e in
    let (controls, g, e2) = bind-valid (encode_controls cs) _ e1 in
    let (short, shape) = frame_packet-valid p.info payload controls sent e2 in
    rw shape (
      rw (decode_message-data_bytes now _ p.info payload controls refl short) (
        rw (decode_packet-data_bytes now _ p.info payload controls h k refl short) (
          rw (decode_controls-encode_controls cs controls g)
            (rw (ffi_slice-valid p.payload payload f)))))

-- Control messages that `send_control` accepts are decoded as they are, and every one of them.
pub decode_message-controls_message :
    (now : Now) (cs : List FfiControlMessage) (sent : Bytes)
    → controls_message cs ≡ valid sent
    → decode_message now sent ≡ valid (control (owned cs))
unfolding controls_message
decode_message-controls_message now cs sent e =
    let (controls, g, e1) = bind-valid (encode_controls cs) _ e in
    let (short, shape) = frame_controls-valid controls sent e1 in
    rw shape (
      rw (decode_message-control_bytes now controls short)
        (rw (decode_controls-encode_controls cs controls g)))

data_bytes-IsFrame :
    (info : PacketInfo) (payload controls : Bytes)
    → 19 + length payload + length controls ≤ max_message_length
    → IsFrame (data_bytes (19 + length payload + length controls) info payload controls)
unfolding data_bytes be16 be32 get_u32
data_bytes-IsFrame info payload controls m = ground (
  arith,
  from_be32-be32 (19 + length payload + length controls) (omega arith),
  length-append payload controls,
)

control_bytes-IsFrame :
    (controls : Bytes)
    → 10 + length controls ≤ max_message_length
    → IsFrame (control_bytes (10 + length controls) controls)
unfolding control_bytes be16 be32 get_u32
control_bytes-IsFrame controls m =
    ground (arith, from_be32-be32 (10 + length controls) (omega arith))

pub packet_message-IsFrame :
    (p : FfiPacket) (cs : List FfiControlMessage) (sent : Bytes)
    → packet_message p cs ≡ valid sent
    → IsFrame sent
unfolding packet_message
packet_message-IsFrame p cs sent e =
    let (payload, f, e1) = bind-valid (ffi_slice p.payload) _ e in
    let (controls, g, e2) = bind-valid (encode_controls cs) _ e1 in
    let (short, shape) = frame_packet-valid p.info payload controls sent e2 in
    subst IsFrame (sym shape) (data_bytes-IsFrame p.info payload controls short)

pub controls_message-IsFrame :
    (cs : List FfiControlMessage) (sent : Bytes) → controls_message cs ≡ valid sent → IsFrame sent
unfolding controls_message
controls_message-IsFrame cs sent e =
    let (controls, g, e1) = bind-valid (encode_controls cs) _ e in
    let (short, shape) = frame_controls-valid controls sent e1 in
    subst IsFrame (sym shape) (control_bytes-IsFrame controls short)
