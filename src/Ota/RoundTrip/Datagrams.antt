-- ===== src/Ota/RoundTrip/Datagrams.antt =====
-- What the receiver makes of each datagram of the sender's loop.
use emane.Base.{
  ℕ, suc, ◌+◌, ◌<◌, ◌≡◌, ◌≢◌, ap, ◌∙◌, Bool, true, false, Option, some, [], ◌∷◌, map, length,
  take_all, arith,
}
use emane.Base.Bytes.{Bytes}
use emane.Ota.Types.{OtaHeader, part_key_Eq}
use emane.Ota.Send.{
  Sending, total_size, gather, has_more, payload_size, part_info, message, send_loop,
}
use emane.Ota.Send.Gather.{payload, gather-slice}
use emane.Ota.Send.Parts.{
  CanSend, offsets, offsets_end, length-payload, length-gather, payload_size_bounds, send_loop_lem,
}
use emane.Ota.Receive.{single, fragment, classify, parse_datagram}
use emane.Ota.Receive.Datagram.{IsWellFormed, parse_datagram-datagram}
use emane.Ota.RoundTrip.{info_of, part_at, all_offsets}

-- The receiver is another emulator, and the header is one that it can decode.
pub record CanReceive (decode : Bytes → Option OtaHeader) (local_uuid : Bytes) (h : OtaHeader)
    (c : Sending) : Type 0 where
  pub decodes : decode c.header ≡ some h
  pub header_u16 : length c.header < 65536
  pub source_u16 : h.source < 65536
  pub destination_u16 : h.destination < 65536
  pub uuid_size : length h.uuid ≡ 16
  pub foreign : h.uuid ≢ local_uuid
  pub lengths : h.payload_info ≡ some (info_of c.sections)

module _ (decode : Bytes → Option OtaHeader) (local_uuid : Bytes) (h : OtaHeader) (c : Sending)
    (v : CanSend c) (w : CanReceive decode local_uuid h c) where
  message-IsWellFormed :
      (o : ℕ)
      → o < total_size c.sections
      → IsWellFormed local_uuid h c.header (part_info c o) (gather c.sections o (payload_size c o))
  unfolding part_info
  message-IsWellFormed o b = record {
    header_u16 = w.header_u16;
    source_u16 = w.source_u16;
    destination_u16 = w.destination_u16;
    flag = ground arith;
    uuid_size = w.uuid_size;
    foreign = w.foreign;
    offset_u32 = omega (arith, v.limit);
    payload_u32 = omega (arith, v.limit, length-gather c o v b, payload_size_bounds c o v b);
    exact = ground (arith, length-gather c o v b);
  }

  classify-fragment :
      (o : ℕ)
      → has_more c 0 ≡ true
      → classify h (part_info c o) (gather c.sections o (payload_size c o))
        ≡ fragment h (part_at h c o)
  unfolding classify part_info
  classify-fragment o m = ground (arith, w.lengths)

  pub parse-message :
      (o : ℕ)
      → o < total_size c.sections
      → has_more c 0 ≡ true
      → parse_datagram decode local_uuid (message c o) ≡ fragment h (part_at h c o)
  unfolding message
  parse-message o b m = ground (
    arith,
    parse_datagram-datagram local_uuid h c.header (part_info c o)
        (gather c.sections o (payload_size c o)) (message-IsWellFormed o b) decode,
    classify-fragment o m,
    w.decodes,
  )

  payload_size_single : has_more c 0 ≡ false → payload_size c 0 ≡ total_size c.sections
  unfolding payload_size
  payload_size_single m = ground arith

  all_offsets_single : 0 < total_size c.sections → has_more c 0 ≡ false → all_offsets c ≡ 0 ∷ []
  unfolding offsets
  all_offsets_single pos m =
      ground
        (arith, payload_size_single m, offsets_end (total_size c.sections) c (0 + payload_size c 0))

  gather_single : has_more c 0 ≡ false → gather c.sections 0 (payload_size c 0) ≡ payload c.sections
  gather_single m =
      gather-slice c.sections 0 (payload_size c 0)
      ∙ take_all (payload_size c 0) (payload c.sections)
          (omega (arith, payload_size_single m, length-payload c.sections))

  classify-single :
      has_more c 0 ≡ false
      → classify h (part_info c 0) (gather c.sections 0 (payload_size c 0))
        ≡ single (record {
          source = h.source;
          destination = h.destination;
          uuid = h.uuid;
          events_size = length c.sections.events;
          controls_size = length c.sections.controls;
          data_size = length c.sections.packet;
          payload = payload c.sections;
        })
  unfolding classify part_info
  classify-single m = ground (arith, w.lengths, gather_single m)

  -- A packet that is not empty and fits one datagram, which the socket takes, is sent as one, and the
  -- receiver, another emulator that decodes its header, has the whole message.
  pub packet_round_trip_single :
      (send_to : Bytes → Bool)
      → ((d : Bytes) → send_to d ≡ true)
      → 0 < total_size c.sections
      → has_more c 0 ≡ false
      → (send_loop send_to (suc (total_size c.sections)) c 0 ≡ (message c 0 ∷ [], true))
        × (parse_datagram decode local_uuid (message c 0)
            ≡ single (record {
              source = h.source;
              destination = h.destination;
              uuid = h.uuid;
              events_size = length c.sections.events;
              controls_size = length c.sections.controls;
              data_size = length c.sections.packet;
              payload = payload c.sections;
            }))
  unfolding message
  packet_round_trip_single send_to good pos m = (
    send_loop_lem send_to good (suc (total_size c.sections)) c 0 v (omega arith) (omega arith)
        ∙ ap (λ os. (map (message c) os, true)) (all_offsets_single pos m),
    parse_datagram-datagram local_uuid h c.header (part_info c 0)
          (gather c.sections 0 (payload_size c 0)) (message-IsWellFormed 0 pos) decode w.decodes
        ∙ classify-single m,
  )
