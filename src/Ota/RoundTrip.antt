-- ===== src/Ota/RoundTrip.antt =====
-- From the sender's loop to the receiver's store of parts.
pub mod Datagrams
pub mod Rounds
pub mod Arrivals
pub mod Traffic
use mathlib.Core.List.{Permᴰ}
use emane.Base.{
  ℕ, zero, suc, ◌+◌, ◌-◌, ◌≤◌, ◌<◌, ◌≡◌, ◌≢◌, refl, ap, sym, subst, ◌∙◌, ◌⊎◌, inl, inr, true, false,
  Option, none, some, List, [], ◌∷◌, map, length, drop, drop_all, ltb, if◌then◌else◌, arith,
}
use emane.Base.Bytes.{Bytes}
use emane.Base.Dict
use emane.Ota.Types.{
  usize_mod, max_ota_payload, PartKey, part_key_Eq, PartStore, PayloadInfo, OtaHeader, OtaMessage,
  PartInfo,
}
use emane.Ota.Send.{
  Sections, total_size, gather, Sending, overhead, has_more, payload_size, part_info, message,
}
use emane.Ota.Send.Gather.{payload}
use emane.Ota.Send.Parts.{
  offsets, CanSend, piece, cut_at, length-gather, payload_size_bounds, cut_at-IsCut, cut_at-size,
  cut_at-concat,
}
use emane.Ota.Reassembly.{Part, Reassembled, expected_total, concat}
use emane.Ota.Reassembly.Cut.{size}
use emane.Ota.Reassembly.Staged.{Belongs}
use emane.Ota.Receive.{Incoming, single, fragment, classify, parse_datagram}
use emane.Ota.Receive.Datagram.{IsWellFormed, parse_datagram-datagram}

-- The lengths that the sender writes into the header.
abbrev pub info_of : Sections → PayloadInfo
info_of s = record {
  data_length = length s.packet;
  control_length = length s.controls;
  event_length = length s.events;
}

abbrev pub key_of : OtaHeader → PartKey
key_of h = record { source = h.source; sequence = h.sequence }

-- The part at an offset, as the receiver reads it.
abbrev pub part_at : OtaHeader → Sending → ℕ → Part
part_at h c o = record {
  key = key_of h;
  uuid = h.uuid;
  info = info_of c.sections;
  more = (part_info c o).more;
  offset = o;
  payload = gather c.sections o (payload_size c o);
}

-- Every offset lies within the payload.
abbrev pub AllWithin : ℕ → List ℕ → Type 0
AllWithin n [] = Unit {0}
AllWithin n (o ∷ os) = (o < n) × AllWithin n os

pub offsets-AllWithin :
    (fuel : ℕ) (c : Sending) (sent_bytes : ℕ)
    → AllWithin (total_size c.sections) (offsets fuel c sent_bytes)
unfolding offsets
offsets-AllWithin zero c sent_bytes = tt
offsets-AllWithin (suc fuel) c sent_bytes =
    ground (arith, offsets-AllWithin fuel c (sent_bytes + payload_size c sent_bytes))

pub AllWithin-perm : (n : ℕ) {xs ys : List ℕ} → Permᴰ xs ys → AllWithin n xs → AllWithin n ys
AllWithin-perm n Permᴰ.nil a = a
AllWithin-perm n (Permᴰ.cons e p) a = (subst (λ o. o < n) e a.0, AllWithin-perm n p a.1)
AllWithin-perm n (Permᴰ.swap e d) a =
    (subst (λ o. o < n) d a.1.0, (subst (λ o. o < n) e a.0, a.1.1))
AllWithin-perm n (Permᴰ.trans p q) a = AllWithin-perm n q (AllWithin-perm n p a)

pub cut_at-perm : (c : Sending) {xs ys : List ℕ} → Permᴰ xs ys → Permᴰ (cut_at c xs) (cut_at c ys)
cut_at-perm c Permᴰ.nil = Permᴰ.nil
cut_at-perm c (Permᴰ.cons e p) = Permᴰ.cons (ap (piece c) e) (cut_at-perm c p)
cut_at-perm c (Permᴰ.swap e d) = Permᴰ.swap (ap (piece c) e) (ap (piece c) d)
cut_at-perm c (Permᴰ.trans p q) = Permᴰ.trans (cut_at-perm c p) (cut_at-perm c q)

pub part_at-Belongs :
    (h : OtaHeader) (c : Sending) (o : ℕ)
    → CanSend c
    → o < total_size c.sections
    → Belongs (key_of h) h.uuid (info_of c.sections) (total_size c.sections) (part_at h c o)
unfolding part_info
part_at-Belongs h c o v w = record {
  key = refl;
  same_uuid = refl;
  same_info = refl;
  fits = omega (arith, length-gather c o v w, payload_size_bounds c o v w);
  last = ground (arith, length-gather c o v w, payload_size_bounds c o v w);
}

pub expected_total-info :
    (c : Sending) → CanSend c → expected_total (info_of c.sections) ≡ some (total_size c.sections)
unfolding expected_total
expected_total-info c v = ground arith

-- The loop's fuel, a round for each byte.
abbrev pub all_offsets : Sending → List ℕ
all_offsets c = offsets (suc (total_size c.sections)) c 0
