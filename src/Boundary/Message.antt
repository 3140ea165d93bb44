-- ===== src/Boundary/Message.antt =====
-- `send_packet` and `send_control` up to the call of `send`, and `decode_message`.
pub mod RoundTrip
use emane.Base.{
  ℕ, zero, suc, ◌+◌, ◌-◌, ◌/◌, ◌%◌, ◌<◌, ◌≤◌, ◌≡◌, refl, sym, ap, subst, ◌∙◌, not, ◌&&◌, ◌||◌,
  Option, none, some, List, [], ◌∷◌, ◌++◌, length, take, drop, slice, ltb, ◌==◌, if◌then◌else◌,
  arith, length-append, take-append_length, drop-append_length,
}
use emane.Base.Bytes.{Bytes, be16, be32, from_be16, from_be32, from_be16-be16, from_be32-be32}
use emane.Base.Bytes.Fields.{get_u8, get_u16, get_u32}
use emane.Ota.Types.{checked_add}
use emane.Tdma.Queue.{PacketInfo}
use emane.Boundary.{
  FfiControlMessage, FfiPacket, BoundaryPacket, BoundaryMessage, packet, control, BoundaryError,
  Checked, valid, failed, ◌>>=◌, length_overflow, too_large, truncated, bad_length, unknown_type,
  bind-valid, guard-valid, valid-inj,
}
use emane.Boundary.Controls.{
  ffi_slice, encode_controls, decode_controls, payload_bytes, owned, ffi_slice-valid,
  decode_controls-encode_controls,
}

abbrev pub data_message : ℕ
data_message = 1

abbrev pub control_message : ℕ
control_message = 2

abbrev pub header_length : ℕ
header_length = 6

abbrev pub data_header_length : ℕ
data_header_length = 13

abbrev pub control_header_length : ℕ
control_header_length = 4

abbrev pub max_message_length : ℕ
max_message_length = 67108864

abbrev pub u32_max : ℕ
u32_max = 4294967295

-- A time since the epoch: `as_secs` and `subsec_micros`.
pub record Now : Type 0 where
  pub seconds : ℕ
  pub micros : ℕ

abbrev and_then {ℓ κ} : {A : Type ℓ} {B : Type κ} → Option A → (A → Option B) → Option B
and_then none next = none
and_then (some a) next = next a

abbrev pub packet_total : ℕ → ℕ → Option ℕ
packet_total payload_length control_length =
    and_then
      (and_then (checked_add header_length data_header_length) (λ n. checked_add n payload_length))
      (λ n. checked_add n control_length)

unfoldable pub data_bytes : ℕ → PacketInfo → Bytes → Bytes → Bytes
data_bytes total info payload controls =
    be16 data_message
    ++ (be32 total
        ++ (be16 info.source
            ++ (be16 info.destination
                ++ (be32 (length payload)
                    ++ (be32 (length controls) ++ (info.priority ∷ (payload ++ controls)))))))

unfoldable pub frame_packet : PacketInfo → Bytes → Bytes → Checked Bytes
frame_packet info payload controls = elim (packet_total (length payload) (length controls)) [
  | none ↦ failed length_overflow
  | some total ↦
      if ltb max_message_length total || ltb u32_max (length payload)
      then failed too_large
      else valid (data_bytes total info payload controls)
]

-- The datagram that `send_packet` hands to `send`.
unfoldable pub packet_message : FfiPacket → List FfiControlMessage → Checked Bytes
packet_message p cs =
    ffi_slice p.payload >>= λ payload. encode_controls cs >>= frame_packet p.info payload

unfoldable pub control_bytes : ℕ → Bytes → Bytes
control_bytes total controls =
    be16 control_message ++ (be32 total ++ (be32 (length controls) ++ controls))

unfoldable pub frame_controls : Bytes → Checked Bytes
frame_controls controls =
    elim (and_then (checked_add header_length control_header_length)
      (λ n. checked_add n (length controls))) [
        | none ↦ failed length_overflow
        | some total ↦
            if ltb max_message_length total
            then failed too_large
            else valid (control_bytes total controls)
      ]

-- The datagram that `send_control` hands to `send`.
unfoldable pub controls_message : List FfiControlMessage → Checked Bytes
controls_message cs = encode_controls cs >>= frame_controls

unfoldable pub decode_packet : Now → Bytes → Checked BoundaryMessage
decode_packet now input =
    if ltb (length input) (header_length + data_header_length)
    then failed truncated
    else (let header = slice header_length (header_length + data_header_length) input in
        let payload_length = get_u32 header 4 in
        let control_start = header_length + data_header_length + payload_length in
        elim (packet_total payload_length (get_u32 header 8)) [
          | none ↦ failed length_overflow
          | some expected ↦
              if not (expected == length input)
              then failed bad_length
              else (decode_controls (drop control_start input) >>= λ controls. valid (
                  packet (record {
                    info = record {
                      source = get_u16 header 0;
                      destination = get_u16 header 2;
                      priority = get_u8 header 12;
                      creation_time_sec = now.seconds;
                      creation_time_usec = now.micros;
                    };
                    payload = slice (header_length + data_header_length) control_start input;
                    controls = controls;
                  })))
        ])

unfoldable pub decode_control : Bytes → Checked BoundaryMessage
decode_control input =
    if ltb (length input) (header_length + control_header_length)
    then failed truncated
    else (if not
          (header_length + control_header_length + get_u32 input header_length == length input)
        then failed bad_length
        else (decode_controls (drop (header_length + control_header_length) input) >>= λ controls.
            valid (control controls)))

unfoldable pub decode_message : Now → Bytes → Checked BoundaryMessage
decode_message now input =
    if ltb (length input) header_length
    then failed truncated
    else (if not (get_u32 input 2 == length input) || ltb max_message_length (get_u32 input 2)
        then failed bad_length
        else (if get_u16 input 0 == data_message
            then decode_packet now input
            else (if get_u16 input 0 == control_message
                then decode_control input
                else failed unknown_type)))
