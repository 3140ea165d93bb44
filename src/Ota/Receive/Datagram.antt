-- ===== src/Ota/Receive/Datagram.antt =====
-- The receiver's checks on a datagram that the sender has built.
use emane.Base.{
  ℕ, ◌+◌, ◌-◌, ◌≤◌, ◌<◌, ◌/◌, ◌%◌, ◌∷◌, ◌≡◌, ◌≢◌, refl, ap, sym, ◌∙◌, Option, some, ◌++◌, length,
  take, drop, slice, take-append_length, drop-append_length, drop-drop, take_all, arith,
}
use emane.Base.Bytes.{Bytes, be16, from_be16-be16, be32, bytes_eq_iff}
use emane.Ota.Types.{OtaHeader, PartInfo}
use emane.Ota.Wire.{
  part_info_size, part_info_bytes, datagram, read_be16, read_part_info_lem, length-datagram,
}
use emane.Ota.Receive.{classify, ends_at, check_part, check_header, parse_datagram}

module _ (header : Bytes) (i : PartInfo) (payload : Bytes) where
  drop-header : drop (2 + length header) (datagram header i payload) ≡ part_info_bytes i ++ payload
  unfolding datagram be16
  drop-header =
      drop-append_length (2 + length header)
        ((length header / 256 % 256) ∷ (length header % 256) ∷ header)
        (part_info_bytes i ++ payload) (omega arith)

  slice-header : slice 2 (2 + length header) (datagram header i payload) ≡ header
  unfolding datagram be16
  slice-header =
      take-append_length (2 + length header - 2) header (part_info_bytes i ++ payload) (omega arith)

  drop-info : drop part_info_size (part_info_bytes i ++ payload) ≡ payload
  unfolding part_info_bytes be32
  drop-info = refl

  slice-payload :
      slice
        (2 + length header + part_info_size)
        (2 + length header + part_info_size + length payload)
        (datagram header i payload)
      ≡ payload
  slice-payload =
      ap (take size)
        (sym (drop-drop part_info_size (2 + length header) (datagram header i payload)))
      ∙ ap (λ t. take size (drop part_info_size t)) drop-header
      ∙ ap (take size) drop-info
      ∙ take_all size payload (omega arith)
    where
      size : ℕ
      size =
          2 + length header + part_info_size + length payload - (2 + length header + part_info_size)

-- Every check passes, and the part's own payload is classified.
pub record IsWellFormed (local_uuid : Bytes) (h : OtaHeader) (header : Bytes) (i : PartInfo)
    (payload : Bytes) : Type 0 where
  pub header_u16 : length header < 65536
  pub source_u16 : h.source < 65536
  pub destination_u16 : h.destination < 65536
  pub flag : i.more ≤ 1
  pub uuid_size : length h.uuid ≡ 16
  pub foreign : h.uuid ≢ local_uuid
  pub offset_u32 : i.offset < 4294967296
  pub payload_u32 : length payload < 4294967296
  pub exact : i.size ≡ length payload

module _ (local_uuid : Bytes) (h : OtaHeader) (header : Bytes) (i : PartInfo) (payload : Bytes)
    (v : IsWellFormed local_uuid h header i payload) where
  check_part_lem :
      check_part local_uuid h i (datagram header i payload) (2 + length header + part_info_size)
      ≡ classify h i payload
  unfolding check_part ends_at
  check_part_lem = ground (
    arith,
    slice-payload header i payload,
    length-datagram header i payload,
    bytes_eq_iff h.uuid local_uuid,
  )

  check_header_lem :
      check_header local_uuid h (datagram header i payload) (2 + length header)
      ≡ classify h i payload
  unfolding check_header
  check_header_lem =
      ground (arith, check_part_lem, drop-header header i payload, read_part_info_lem i payload)

  read_length : read_be16 (datagram header i payload) ≡ some (length header)
  unfolding read_be16 datagram be16
  read_length = ap some (from_be16-be16 (length header) v.header_u16)

  -- A datagram that the sender built, with a header that decodes, passes every check of a receiver
  -- with another UUID, which then sees the part's own fields and bytes.
  pub parse_datagram-datagram :
      (decode : Bytes → Option OtaHeader)
      → decode header ≡ some h
      → parse_datagram decode local_uuid (datagram header i payload) ≡ classify h i payload
  unfolding parse_datagram
  parse_datagram-datagram decode e = ground (
    arith,
    read_length,
    length-datagram header i payload,
    slice-header header i payload,
    check_header_lem,
  )
