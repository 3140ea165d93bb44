-- ===== src/Ota/Send.antt =====
-- `emane_rs_ota_manager_send_ota_packet`: the loop that cuts a packet into datagrams. The socket's
-- answer to each datagram is an argument.
pub mod Gather
pub mod Parts
pub mod Mtu
use emane.Base.{
  ℕ, zero, suc, ◌+◌, ◌-◌, Bool, true, false, not, ◌&&◌, ◌||◌, List, [], ◌∷◌, ◌++◌, length, slice,
  min, ltb, leb, ◌==◌, if◌then◌else◌,
}
use emane.Base.Bytes.{Bytes}
use emane.Ota.Types.{PartInfo}
use emane.Ota.Wire.{part_info_size, datagram}

-- The three sections of a payload, in the order of the wire.
pub record Sections : Type 0 where
  pub events : Bytes
  pub controls : Bytes
  pub packet : Bytes

abbrev pub total_size : Sections → ℕ
total_size s = length s.events + length s.controls + length s.packet

-- The copy from one section, which starts at `start`, into the message: it returns the bytes, and
-- the size and offset that are left.
unfoldable pub copy_section : Bytes → ℕ → ℕ → ℕ → Bytes × ℕ × ℕ
copy_section section start p_size p_offset =
    if leb start p_offset && ltb p_offset (start + length section) && ltb 0 p_size
    then (let offset = p_offset - start in
        let taken = min p_size (length section - offset) in
        (slice offset (offset + taken) section, p_size - taken, p_offset + taken))
    else ([], p_size, p_offset)

-- The payload of the part of `payload_size` bytes at `sent_bytes`.
unfoldable pub gather : Sections → ℕ → ℕ → Bytes
gather s sent_bytes payload_size =
    let (events, size, offset) = copy_section s.events 0 payload_size sent_bytes in
    let (controls, size', offset') = copy_section s.controls (length s.events) size offset in
    let (packet, _, _) =
      copy_section s.packet (length s.events + length s.controls) size' offset' in
    events ++ (controls ++ packet)

-- What stays the same over the loop.
pub record Sending : Type 0 where
  pub header : Bytes
  pub mtu : ℕ
  pub sections : Sections

abbrev pub overhead : Sending → ℕ
overhead c = 2 + length c.header + part_info_size

abbrev pub u32_max : ℕ
u32_max = 4294967295

unfoldable pub has_more : Sending → ℕ → Bool
has_more c sent_bytes =
    not (c.mtu == 0)
    && ltb c.mtu (total_size c.sections - sent_bytes + length c.header + 2 + part_info_size)

unfoldable pub payload_size : Sending → ℕ → ℕ
unfolding has_more
payload_size c sent_bytes =
    if has_more c sent_bytes then c.mtu - overhead c else total_size c.sections - sent_bytes

unfoldable pub part_info : Sending → ℕ → PartInfo
unfolding payload_size
part_info c sent_bytes = record {
  more = (if has_more c sent_bytes then 1 else 0);
  offset = sent_bytes;
  size = payload_size c sent_bytes;
}

unfoldable pub message : Sending → ℕ → Bytes
message c sent_bytes =
    datagram c.header (part_info c sent_bytes)
      (gather c.sections sent_bytes (payload_size c sent_bytes))

-- The datagrams that were sent, and whether all of them were.
unfoldable pub send_loop : (Bytes → Bool) → ℕ → Sending → ℕ → List Bytes × Bool
send_loop send_to zero c sent_bytes = ([], false)
send_loop send_to (suc fuel) c sent_bytes =
    let size = payload_size c sent_bytes in
    let datagrams = message c sent_bytes in
    let rest = send_loop send_to fuel c (sent_bytes + size) in
    if not (ltb sent_bytes (total_size c.sections))
    then ([], true)
    else (if (size == 0) || ltb u32_max size
        then ([], false)
        else (if not (length datagrams == overhead c + size)
            then ([], false)
            else (if not (send_to datagrams) then ([], false) else (datagrams ∷ rest.0, rest.1))))
