-- ===== src/Boundary/Tests.antt =====
-- The boundary messages of a small packet and of a control message, by concrete runs.
use emane.Base.{◌≡◌, refl, true, false, some, [], ◌∷◌, ◌++◌, length, arith, List, is_some}
use emane.Base.Bytes.{Bytes, be16, be32}
use emane.Ota.Manager.Send.{bytes, null}
use emane.Boundary.{FfiControlMessage, FfiPacket, packet, valid}
use emane.Boundary.Controls.{ffi_slice, encode_control, encode_each, encode_controls, owned}
use emane.Boundary.Message.{
  Now, data_bytes, frame_packet, packet_message, control_bytes, frame_controls, controls_message,
  decode_message,
}
use emane.Boundary.Message.RoundTrip.{received_info, decode_message-packet_message}
use emane.Boundary.Endpoint.{Endpoint, Sockets, send, send_packet, IsHanded, send_packet-IsHanded}
use emane.Boundary.Stream.{Reading, incoming, timed_out, receive_stream, dispatch, drain_all}
use emane.Boundary.Stream.Cut.{frames_of, receive_stream-cut}
use emane.Boundary.Stream.Delivery.{
  Request, send_control, messages_of, all_delivered, receive_stream-messages_of,
}

abbrev two_controls : List FfiControlMessage
two_controls =
    record { msg_type = 7; payload = bytes (5 ∷ 6 ∷ []) }
    ∷ record { msg_type = 300; payload = null 0 }
    ∷ []

abbrev small_packet : FfiPacket
small_packet = record {
  info = record {
    source = 1;
    destination = 65535;
    priority = 9;
    creation_time_sec = 3;
    creation_time_usec = 4;
  };
  payload = bytes (1 ∷ 2 ∷ 3 ∷ []);
}

abbrev encoded_controls : Bytes
encoded_controls = 0 ∷ 2 ∷ 0 ∷ 7 ∷ 0 ∷ 2 ∷ 5 ∷ 6 ∷ 1 ∷ 44 ∷ 0 ∷ 0 ∷ []

abbrev small_message : Bytes
small_message =
    0 ∷ 1 ∷ 0 ∷ 0 ∷ 0 ∷ 34 ∷ 0 ∷ 1 ∷ 255 ∷ 255 ∷ 0 ∷ 0 ∷ 0 ∷ 3 ∷ 0 ∷ 0 ∷ 0 ∷ 12 ∷ 9 ∷ 1 ∷ 2 ∷ 3
    ∷ encoded_controls

abbrev controls_only : Bytes
controls_only = 0 ∷ 2 ∷ 0 ∷ 0 ∷ 0 ∷ 22 ∷ 0 ∷ 0 ∷ 0 ∷ 12 ∷ encoded_controls

abbrev noon : Now
noon = record { seconds = 43200; micros = 250 }

small_message-made : packet_message small_packet two_controls ≡ valid small_message
unfolding packet_message frame_packet data_bytes encode_controls encode_each encode_control
    ffi_slice be16 be32
small_message-made = refl

controls_only-made : controls_message two_controls ≡ valid controls_only
unfolding controls_message frame_controls control_bytes encode_controls encode_each encode_control
    ffi_slice be16 be32
controls_only-made = refl

decode_message-packet_message_example :
    decode_message noon small_message
    ≡ valid (
        packet (record {
          info = received_info noon small_packet.info;
          payload = 1 ∷ 2 ∷ 3 ∷ [];
          controls = owned two_controls;
        }))
decode_message-packet_message_example =
    decode_message-packet_message noon small_packet two_controls small_message (omega arith)
      (omega arith) small_message-made

-- The message in three pieces, with a timeout between them, and part of the next.
abbrev in_pieces : List Reading
in_pieces =
    incoming (0 ∷ 1 ∷ 0 ∷ [])
    ∷ incoming (0 ∷ 0 ∷ 34 ∷ 0 ∷ 1 ∷ 255 ∷ 255 ∷ 0 ∷ 0 ∷ 0 ∷ 3 ∷ 0 ∷ 0 ∷ 0 ∷ 12 ∷ 9 ∷ 1 ∷ [])
    ∷ timed_out
    ∷ incoming (2 ∷ 3 ∷ encoded_controls ++ (0 ∷ 2 ∷ 0 ∷ 0 ∷ 0 ∷ []))
    ∷ incoming (22 ∷ 0 ∷ 0 ∷ 0 ∷ 12 ∷ encoded_controls)
    ∷ []

receive_stream-cut_example :
    (receive_stream in_pieces [] ≡ frames_of (drain_all (small_message ++ controls_only)))
    × (is_some (receive_stream in_pieces []) ≡ true)
receive_stream-cut_example = receive_stream-cut in_pieces refl

sent-made :
    messages_of (Request.send_packet small_packet two_controls ∷ send_control two_controls ∷ [])
    ≡ valid (small_message ∷ controls_only ∷ [])
unfolding packet_message frame_packet data_bytes encode_controls encode_each encode_control
    ffi_slice be16 be32 controls_message frame_controls control_bytes
sent-made = refl

receive_stream-messages_of_example :
    (receive_stream in_pieces [] ≡ some (small_message ∷ controls_only ∷ []))
    × (dispatch (λ _. noon) 0 (small_message ∷ controls_only ∷ [])
        ≡ all_delivered
            (λ _. noon)
            0
            (Request.send_packet small_packet two_controls ∷ send_control two_controls ∷ []))
receive_stream-messages_of_example =
    receive_stream-messages_of (λ _. noon)
      (Request.send_packet small_packet two_controls ∷ send_control two_controls ∷ [])
      (small_message ∷ controls_only ∷ []) in_pieces ((omega arith, omega arith), (tt, tt))
      sent-made refl refl

abbrev good_sockets : Sockets
good_sockets = record { send_to = λ m. some (length m); write_all = λ _. true }

abbrev udp_endpoint : Endpoint
udp_endpoint = record { cancel = false; udp = true; tcp = false; worker = true }

packet_sent : (send_packet good_sockets udp_endpoint small_packet two_controls).1 ≡ valid tt
unfolding send_packet send packet_message frame_packet data_bytes encode_controls encode_each
    encode_control ffi_slice be16 be32
packet_sent = refl

send_packet-IsHanded_example :
    (message : Bytes) × (packet_message small_packet two_controls ≡ valid message)
    × (false ≡ false)
    × IsHanded good_sockets udp_endpoint
        (send_packet good_sockets udp_endpoint small_packet two_controls).0
        message
send_packet-IsHanded_example =
    send_packet-IsHanded good_sockets udp_endpoint small_packet two_controls packet_sent
