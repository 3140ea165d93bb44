-- ===== src/Boundary/Stream.antt =====
-- `receive_stream` and `dispatch`: the messages that a TCP connection carries.
pub mod Drain
pub mod Cut
pub mod Delivery
use emane.Base.{
  ℕ, zero, suc, ◌+◌, Bool, true, false, not, ◌&&◌, Option, none, some, List, [], ◌∷◌, ◌++◌, length,
  take, drop, ltb, leb, if◌then◌else◌,
}
use emane.Base.Bytes.{Bytes}
use emane.Base.Bytes.Fields.{get_u32}
use emane.Boundary.{BoundaryMessage, Checked, valid, failed}
use emane.Boundary.Message.{Now, header_length, max_message_length, decode_message}

-- The answers of `TcpStream::read`, and a `close` that the loop sees before the next read. A read
-- of no bytes is the end of the stream.
pub data Reading : Type 0 where
  incoming : Bytes → Reading
  timed_out broken cancelled : Reading

-- What the inner loop dispatched, and the bytes that it leaves; none where it gives up the stream.
pub record Drained : Type 0 where
  pub frames : List Bytes
  pub remaining : Option Bytes

abbrev pub prepend : Bytes → Drained → Drained
prepend frame d = record d { frames = frame ∷ d.frames }

-- The inner loop; none where the fuel is used up.
unfoldable pub drain : ℕ → Bytes → Option Drained
drain zero received = none
drain (suc fuel) received =
    let total = get_u32 received 2 in
    let rest = drain fuel (drop total received) in
    if ltb (length received) header_length
    then some (record { frames = []; remaining = some received })
    else (if not (leb header_length total && leb total max_message_length)
        then some (record { frames = []; remaining = none })
        else (if ltb (length received) total
            then some (record { frames = []; remaining = some received })
            else elim rest [ none ↦ none | some d ↦ some (prepend (take total received) d) ]))

-- Each message takes at least a byte, so one round more than there are bytes is enough.
unfoldable pub drain_all : Bytes → Option Drained
drain_all received = drain (suc (length received)) received

abbrev pub after {ℓ} : {A : Type ℓ} → List A → Option (List A) → Option (List A)
after xs none = none
after xs (some ys) = some (xs ++ ys)

-- The messages that are handed to `dispatch`, as long as the answers of the socket go on.
unfoldable pub receive_stream : List Reading → Bytes → Option (List Bytes)
receive_stream [] received = some []
receive_stream (cancelled ∷ rest) received = some []
receive_stream (broken ∷ rest) received = some []
receive_stream (timed_out ∷ rest) received = receive_stream rest received
receive_stream (incoming [] ∷ rest) received = some []
receive_stream (incoming (x ∷ xs) ∷ rest) received = elim (drain_all (received ++ (x ∷ xs))) [
  | none ↦ none
  | some d ↦ elim d.remaining [
    | none ↦ some d.frames
    | some left ↦ after d.frames (receive_stream rest left)
  ]
]

-- `dispatch` on each: what the handler is called with. A message that is not valid is dropped; the
-- clock is read once for each message.
unfoldable pub dispatch : (ℕ → Now) → ℕ → List Bytes → List BoundaryMessage
dispatch clock n [] = []
dispatch clock n (m ∷ ms) = elim (decode_message (clock n) m) [
  | valid decoded ↦ decoded ∷ dispatch clock (suc n) ms
  | failed why ↦ dispatch clock (suc n) ms
]
