-- ===== src/Ota/Send/Parts.antt =====
-- The rounds of the send loop, and the parts that they send.
use emane.Base.{
  ℕ, zero, suc, ◌+◌, ◌≤◌, ◌<◌, ◌≡◌, refl, ◌⊎◌, Bool, true, List, [], ◌∷◌, ◌++◌, map, length, drop,
  length-append, length-take, length-drop, drop_all, take-append-drop, drop-drop, ltb,
  if◌then◌else◌, arith,
}
use emane.Base.Bytes.{Bytes}
use emane.Base.SortedMap.{SortedMap}
use emane.Ota.Types.{max_ota_payload}
use emane.Ota.Wire.{length-datagram}
use emane.Ota.Send.{
  Sections, total_size, gather, Sending, overhead, payload_size, part_info, message, send_loop,
}
use emane.Ota.Send.Gather.{payload, gather-slice}
use emane.Ota.Reassembly.{concat}
use emane.Ota.Reassembly.Cut.{IsCut, size}

-- The offsets of the parts from `sent_bytes` on.
unfoldable pub offsets : ℕ → Sending → ℕ → List ℕ
offsets zero c sent_bytes = []
offsets (suc fuel) c sent_bytes =
    let rest = offsets fuel c (sent_bytes + payload_size c sent_bytes) in
    if ltb sent_bytes (total_size c.sections) then sent_bytes ∷ rest else []

pub offsets_end :
    (fuel : ℕ) (c : Sending) (sent_bytes : ℕ)
    → total_size c.sections ≤ sent_bytes
    → offsets fuel c sent_bytes ≡ []
unfolding offsets
offsets_end zero c sent_bytes h = refl
offsets_end (suc fuel) c sent_bytes h = ground arith

-- A part, as its offset and its bytes.
abbrev pub piece : Sending → ℕ → ℕ × Bytes
piece c offset = (offset, gather c.sections offset (payload_size c offset))

abbrev pub cut_at : Sending → List ℕ → SortedMap Bytes
cut_at c [] = []
cut_at c (o ∷ os) = piece c o ∷ cut_at c os

-- The checks before the loop: room for a byte in a datagram, and the limit of a payload.
pub record CanSend (c : Sending) : Type 0 where
  pub room : (c.mtu ≡ 0) ⊎ (overhead c < c.mtu)
  pub limit : total_size c.sections ≤ max_ota_payload

pub length-payload : (s : Sections) → length (payload s) ≡ total_size s
length-payload s =
    omega
      (arith, length-append s.events (s.controls ++ s.packet), length-append s.controls s.packet)

pub payload_size_bounds :
    (c : Sending) (sent_bytes : ℕ)
    → CanSend c
    → sent_bytes < total_size c.sections
    → (0 < payload_size c sent_bytes)
      × (sent_bytes + payload_size c sent_bytes ≤ total_size c.sections)
unfolding payload_size
payload_size_bounds c sent_bytes v h = ground arith

pub length-gather :
    (c : Sending) (sent_bytes : ℕ)
    → CanSend c
    → sent_bytes < total_size c.sections
    → length (gather c.sections sent_bytes (payload_size c sent_bytes)) ≡ payload_size c sent_bytes
length-gather c sent_bytes v h =
    let b = payload_size_bounds c sent_bytes v h in
    rw (gather-slice c.sections sent_bytes (payload_size c sent_bytes)) (
      length-take (payload_size c sent_bytes) (drop sent_bytes (payload c.sections))
        (omega (arith, length-drop sent_bytes (payload c.sections), length-payload c.sections)))

pub length-message :
    (c : Sending) (sent_bytes : ℕ)
    → CanSend c
    → sent_bytes < total_size c.sections
    → length (message c sent_bytes) ≡ overhead c + payload_size c sent_bytes
unfolding message
length-message c sent_bytes v h = omega (
  arith,
  length-datagram c.header (part_info c sent_bytes)
      (gather c.sections sent_bytes (payload_size c sent_bytes)),
  length-gather c sent_bytes v h,
)

-- Where the socket takes every datagram, enough fuel for a round a byte makes the loop send the
-- message of each part and report success.
pub send_loop_lem :
    (send_to : Bytes → Bool)
    → ((d : Bytes) → send_to d ≡ true)
    → (fuel : ℕ) (c : Sending) (sent_bytes : ℕ) → CanSend c
    → sent_bytes ≤ total_size c.sections
    → total_size c.sections < sent_bytes + fuel
    → send_loop send_to fuel c sent_bytes ≡ (map (message c) (offsets fuel c sent_bytes), true)
unfolding send_loop offsets
send_loop_lem send_to good zero c sent_bytes v l h = absurd (omega arith)
send_loop_lem send_to good (suc fuel) c sent_bytes v l h = ground (
  arith,
  payload_size_bounds c sent_bytes v,
  length-message c sent_bytes v,
  good (message c sent_bytes),
  send_loop_lem send_to good fuel c (sent_bytes + payload_size c sent_bytes) v,
)

pub cut_at-IsCut :
    (fuel : ℕ) (c : Sending) (sent_bytes : ℕ)
    → CanSend c
    → IsCut sent_bytes (cut_at c (offsets fuel c sent_bytes))
unfolding offsets
cut_at-IsCut zero c sent_bytes v = tt
cut_at-IsCut (suc fuel) c sent_bytes v = ground (
  arith,
  cut_at-IsCut fuel c (sent_bytes + payload_size c sent_bytes) v,
  length-gather c sent_bytes v,
  payload_size_bounds c sent_bytes v,
)

pub cut_at-size :
    (fuel : ℕ) (c : Sending) (sent_bytes : ℕ)
    → CanSend c
    → sent_bytes ≤ total_size c.sections
    → total_size c.sections < sent_bytes + fuel
    → sent_bytes + size (cut_at c (offsets fuel c sent_bytes)) ≡ total_size c.sections
unfolding offsets
cut_at-size zero c sent_bytes v h f = absurd (omega arith)
cut_at-size (suc fuel) c sent_bytes v h f = ground (
  arith,
  cut_at-size fuel c (sent_bytes + payload_size c sent_bytes) v,
  length-gather c sent_bytes v,
  payload_size_bounds c sent_bytes v,
)

pub cut_at-concat :
    (fuel : ℕ) (c : Sending) (sent_bytes : ℕ)
    → CanSend c
    → sent_bytes ≤ total_size c.sections
    → total_size c.sections < sent_bytes + fuel
    → concat (cut_at c (offsets fuel c sent_bytes)) ≡ drop sent_bytes (payload c.sections)
unfolding offsets concat
cut_at-concat zero c sent_bytes v h f = absurd (omega arith)
cut_at-concat (suc fuel) c sent_bytes v h f = ground (
  arith,
  cut_at-concat fuel c (sent_bytes + payload_size c sent_bytes) v,
  payload_size_bounds c sent_bytes v,
  gather-slice c.sections sent_bytes (payload_size c sent_bytes),
  take-append-drop (payload_size c sent_bytes) (drop sent_bytes (payload c.sections)),
  drop-drop (payload_size c sent_bytes) sent_bytes (payload c.sections),
  drop_all sent_bytes (payload c.sections),
  length-payload c.sections,
)
