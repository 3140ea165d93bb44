-- ===== src/Ota/Send/Mtu.antt =====
-- The lengths of the datagrams of the send loop.
use emane.Base.{ℕ, zero, suc, ◌+◌, ◌≤◌, ◌<◌, Bool, List, [], ◌∷◌, length, arith}
use emane.Base.Bytes.{Bytes}
use emane.Ota.Send.{Sending, overhead, has_more, payload_size, send_loop}
use emane.Ota.Send.Parts.{CanSend}

abbrev pub AreWithin : ℕ → List Bytes → Type 0
AreWithin n [] = Unit {0}
AreWithin n (d ∷ ds) = (length d ≤ n) × AreWithin n ds

payload_size-le :
    (c : Sending) (sent_bytes : ℕ)
    → CanSend c
    → 0 < c.mtu
    → overhead c + payload_size c sent_bytes ≤ c.mtu
unfolding payload_size has_more
payload_size-le c sent_bytes v m = ground (arith, v.room)

-- With an MTU that leaves room for a byte, no datagram is longer than the MTU, whatever the socket
-- answers and wherever the loop stands.
pub send_loop-AreWithin :
    (send_to : Bytes → Bool) (fuel : ℕ) (c : Sending) (sent_bytes : ℕ)
    → CanSend c
    → 0 < c.mtu
    → AreWithin c.mtu (send_loop send_to fuel c sent_bytes).0
unfolding send_loop
send_loop-AreWithin send_to zero c sent_bytes v m = tt
send_loop-AreWithin send_to (suc fuel) c sent_bytes v m = ground (
  arith,
  payload_size-le c sent_bytes v m,
  send_loop-AreWithin send_to fuel c (sent_bytes + payload_size c sent_bytes) v m,
)
