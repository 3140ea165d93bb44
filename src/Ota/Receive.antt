-- ===== src/Ota/Receive.antt =====
-- The checks of `emane_rs_ota_manager_process_loop` on a datagram. The protobuf decoder of the
-- header is an argument.
pub mod Datagram
use emane.Base.{
  ℕ, ◌+◌, Bool, true, false, not, ◌&&◌, ◌||◌, Option, none, some, length, slice, drop, ltb, leb,
  ◌==◌, if◌then◌else◌, unwrap_or,
}
use emane.Base.Bytes.{Bytes, bytes_eq}
use emane.Ota.Types.{OtaHeader, OtaMessage, PartInfo, PayloadInfo, checked_add}
use emane.Ota.Wire.{part_info_size, read_be16, read_part_info}
use emane.Ota.Reassembly.{Part}

-- What becomes of a datagram. `skipped` is a `continue` of the loop, which passes over the cleanup
-- of old parts; `ignored` goes on to it.
pub data Incoming : Type 0 where
  ignored skipped : Incoming
  single : OtaMessage → Incoming
  fragment : OtaHeader → Part → Incoming

abbrev pub no_payload_info : PayloadInfo
no_payload_info = record { data_length = 0; control_length = 0; event_length = 0 }

-- A message of one part, or a part of a longer one.
unfoldable pub classify : OtaHeader → PartInfo → Bytes → Incoming
classify h i payload =
    let info = unwrap_or h.payload_info no_payload_info in
    if (i.more == 0) && (i.offset == 0)
    then single (record {
      source = h.source;
      destination = h.destination;
      uuid = h.uuid;
      events_size = info.event_length;
      controls_size = info.control_length;
      data_size = info.data_length;
      payload = payload;
    })
    else fragment h (record {
      key = record { source = h.source; sequence = h.sequence };
      uuid = h.uuid;
      info = info;
      more = i.more;
      offset = i.offset;
      payload = payload;
    })

-- `payload_index.checked_add(u32_size) == Some(len)`.
unfoldable pub ends_at : ℕ → ℕ → ℕ → Bool
ends_at payload_index size len = elim (checked_add payload_index size) [
  | none ↦ false
  | some end ↦ end == len
]

unfoldable pub check_part : Bytes → OtaHeader → PartInfo → Bytes → ℕ → Incoming
check_part local_uuid h i d payload_index =
    if ltb 1 i.more
    then skipped
    else (if not (length h.uuid == 16)
        then skipped
        else (if bytes_eq h.uuid local_uuid
            then ignored
            else (if ends_at payload_index i.size (length d)
                then classify h i (slice payload_index (payload_index + i.size) d)
                else ignored)))

unfoldable pub check_header : Bytes → OtaHeader → Bytes → ℕ → Incoming
check_header local_uuid h d part_info_offset =
    if ltb 65535 h.source || ltb 65535 h.destination
    then skipped
    else elim (read_part_info (drop part_info_offset d)) [
      | none ↦ ignored
      | some i ↦ check_part local_uuid h i d (part_info_offset + part_info_size)
    ]

unfoldable pub parse_datagram : (Bytes → Option OtaHeader) → Bytes → Bytes → Incoming
parse_datagram decode local_uuid d = elim (read_be16 d) [
  | none ↦ ignored
  | some header_len ↦
      if leb (2 + header_len + part_info_size) (length d)
      then elim (decode (slice 2 (2 + header_len) d)) [
        | none ↦ ignored
        | some h ↦ check_header local_uuid h d (2 + header_len)
      ]
      else ignored
]
