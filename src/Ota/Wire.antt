-- ===== src/Ota/Wire.antt =====
-- The datagram of ota_manager.rs: header length, encoded header, `PartInfo`, payload of the part.
-- `PartInfo` is a packed struct of 9 bytes with its numbers in network order.
use emane.Base.{ℕ, ◌+◌, ◌≡◌, ◌<◌, Option, none, some, ◌∷◌, ◌++◌, length, length-append, arith}
use emane.Base.Bytes.{Bytes, be16, be32, from_be16, from_be32, from_be32-be32}
use emane.Ota.Types.{PartInfo}

abbrev pub part_info_size : ℕ
part_info_size = 9

unfoldable pub part_info_bytes : PartInfo → Bytes
unfolding be32
part_info_bytes i = i.more ∷ (be32 i.offset ++ be32 i.size)

unfoldable pub read_part_info : Bytes → Option PartInfo
read_part_info (m ∷ a ∷ b ∷ c ∷ d ∷ e ∷ f ∷ g ∷ h ∷ rest) =
    some (record { more = m; offset = from_be32 a b c d; size = from_be32 e f g h })
read_part_info _ = none

unfoldable pub read_be16 : Bytes → Option ℕ
read_be16 (a ∷ b ∷ rest) = some (from_be16 a b)
read_be16 _ = none

-- The bytes of one part on the wire.
unfoldable pub datagram : Bytes → PartInfo → Bytes → Bytes
datagram header info payload = be16 (length header) ++ (header ++ (part_info_bytes info ++ payload))

pub read_part_info_lem :
    (i : PartInfo) (rest : Bytes)
    → i.offset < 4294967296
    → i.size < 4294967296
    → read_part_info (part_info_bytes i ++ rest) ≡ some i
unfolding read_part_info part_info_bytes
read_part_info_lem i rest h k = ground (arith, from_be32-be32 i.offset h, from_be32-be32 i.size k)

pub length-datagram :
    (header : Bytes) (i : PartInfo) (payload : Bytes)
    → length (datagram header i payload) ≡ 2 + length header + part_info_size + length payload
unfolding datagram part_info_bytes be16
length-datagram header i payload =
    omega (arith, length-append header (part_info_bytes i ++ payload))
