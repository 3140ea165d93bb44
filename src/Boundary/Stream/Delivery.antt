-- ===== src/Boundary/Stream/Delivery.antt =====
-- From the calls of `send_packet` and `send_control` at one end of a TCP connection to the calls of
-- the handler at the other.
use emane.Base.{ℕ, ◌<◌, ◌≡◌, refl, ap, suc, subst, ◌∙◌, true, some, List, [], ◌∷◌}
use emane.Base.Bytes.{Bytes}
use emane.Boundary.{
  FfiControlMessage, FfiPacket, BoundaryMessage, packet, control, Checked, valid, failed, ◌>>=◌,
  bind-valid, valid-inj,
}
use emane.Boundary.Controls.{payload_bytes, owned}
use emane.Boundary.Message.{Now, packet_message, controls_message, decode_message}
use emane.Boundary.Message.RoundTrip.{
  IsFrame, received_info, decode_message-packet_message, decode_message-controls_message,
  packet_message-IsFrame, controls_message-IsFrame,
}
use emane.Boundary.Stream.{Reading, receive_stream, dispatch}
use emane.Boundary.Stream.Cut.{AllFrames, joined, read_bytes, is_going_on, receive_stream-joined}

-- A call at the sending end.
pub data Request : Type 0 where
  send_packet : FfiPacket → List FfiControlMessage → Request
  send_control : List FfiControlMessage → Request

abbrev pub message_of : Request → Checked Bytes
message_of (send_packet p cs) = packet_message p cs
message_of (send_control cs) = controls_message cs

-- The messages of calls that all succeed.
abbrev pub messages_of : List Request → Checked (List Bytes)
messages_of [] = valid []
messages_of (r ∷ rs) = message_of r >>= λ m. messages_of rs >>= λ ms. valid (m ∷ ms)

-- Node numbers of 16 bits.
abbrev pub IsNarrow : Request → Type 0
IsNarrow (send_packet p cs) = (p.info.source < 65536) × (p.info.destination < 65536)
IsNarrow (send_control cs) = Unit {0}

abbrev pub AllNarrow : List Request → Type 0
AllNarrow [] = Unit {0}
AllNarrow (r ∷ rs) = IsNarrow r × AllNarrow rs

-- What the handler is to be called with for a call.
abbrev pub delivered : Now → Request → BoundaryMessage
delivered now (send_packet p cs) = packet (record {
  info = received_info now p.info;
  payload = payload_bytes p.payload;
  controls = owned cs;
})
delivered now (send_control cs) = control (owned cs)

abbrev pub all_delivered : (ℕ → Now) → ℕ → List Request → List BoundaryMessage
all_delivered clock n [] = []
all_delivered clock n (r ∷ rs) = delivered (clock n) r ∷ all_delivered clock (suc n) rs

message_of-IsFrame : (r : Request) (m : Bytes) → message_of r ≡ valid m → IsFrame m
message_of-IsFrame (send_packet p cs) m e = packet_message-IsFrame p cs m e
message_of-IsFrame (send_control cs) m e = controls_message-IsFrame cs m e

decode_message-message_of :
    (now : Now) (r : Request) (m : Bytes)
    → IsNarrow r
    → message_of r ≡ valid m
    → decode_message now m ≡ valid (delivered now r)
decode_message-message_of now (send_packet p cs) m n e =
    decode_message-packet_message now p cs m n.0 n.1 e
decode_message-message_of now (send_control cs) m n e = decode_message-controls_message now cs m e

dispatch-valid :
    (clock : ℕ → Now) (n : ℕ) (m : Bytes) (ms : List Bytes) (decoded : BoundaryMessage)
    → decode_message (clock n) m ≡ valid decoded
    → dispatch clock n (m ∷ ms) ≡ decoded ∷ dispatch clock (suc n) ms
unfolding dispatch
dispatch-valid clock n m ms decoded e =
    ap
      (λ o. elim o as (λ _. List BoundaryMessage) [
        | valid d ↦ d ∷ dispatch clock (suc n) ms
        | failed why ↦ dispatch clock (suc n) ms
      ])
      e

abbrev IsDelivered : (ℕ → Now) → ℕ → List Request → List Bytes → Type 0
IsDelivered clock n rs ms = AllFrames ms × (dispatch clock n ms ≡ all_delivered clock n rs)

messages_of-IsDelivered :
    (clock : ℕ → Now) (n : ℕ) (rs : List Request) (ms : List Bytes)
    → AllNarrow rs
    → messages_of rs ≡ valid ms
    → IsDelivered clock n rs ms
unfolding dispatch
messages_of-IsDelivered clock n [] ms w e = subst (IsDelivered clock n []) (valid-inj e) (tt, refl)
messages_of-IsDelivered clock n (r ∷ rs) ms w e =
    let (m, f, e1) = bind-valid (message_of r) _ e in
    let (rest, g, e2) = bind-valid (messages_of rs) _ e1 in
    let (frames, later) = messages_of-IsDelivered clock (suc n) rs rest w.1 g in
    subst (IsDelivered clock n (r ∷ rs)) (valid-inj e2) (
      (message_of-IsFrame r m f, frames),
      dispatch-valid clock n m rest _ (decode_message-message_of (clock n) r m w.0 f)
          ∙ ap (◌∷◌ (delivered (clock n) r)) later,
    )

-- Calls of `send_packet` and `send_control` that all succeed, with node numbers of 16 bits, write
-- messages to a TCP connection. While the socket at the other end gives their bytes, cut anyhow, or
-- lets the loop wait, `receive_stream` ends up with those messages, and its handler is called with
-- what was sent, call for call in the order of sending, and nothing else.
pub receive_stream-messages_of :
    (clock : ℕ → Now) (rs : List Request) (ms : List Bytes) (readings : List Reading)
    → AllNarrow rs
    → messages_of rs ≡ valid ms
    → is_going_on readings ≡ true
    → read_bytes readings ≡ joined ms
    → (receive_stream readings [] ≡ some ms) × (dispatch clock 0 ms ≡ all_delivered clock 0 rs)
receive_stream-messages_of clock rs ms readings w e g same =
    let (frames, deliver) = messages_of-IsDelivered clock 0 rs ms w e in
    (receive_stream-joined readings ms g frames same, deliver)
