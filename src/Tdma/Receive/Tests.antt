-- ===== src/Tdma/Receive/Tests.antt =====
-- Runs of the reception of the TDMA model at concrete inputs.
use emane.Base.{ℕ, ◌≡◌, refl, true, false, none, some, List, [], ◌∷◌, ◌==◌, if◌then◌else◌, arith}
use emane.Base.Bytes.{Bytes}
use emane.Base.Dict
use emane.Base.SortedMap
use emane.Tdma.Queue.{PacketInfo, message}
use emane.Tdma.Receive.{
  TdmaFragment, TdmaMessage, Receiver, kept, accepted, try_message_type, expire_reassembly,
  or_insert, assemble, add_piece, settle_entry, receive_fragment, receive_typed, receive_message,
  receive_messages, receive_wire, Frame, receive_frames,
}
use emane.Tdma.Receive.Sound.{Sent, IsTrueFragment, EndsWell}
use emane.Tdma.Receive.Delivered.{AllDelivered, AllTrueFrames, receive_frames-AllDelivered}
use emane.Tdma.Receive.Complete.{AreInTime, receive_frames-completes}

-- A packet of three bytes, in two fragments, each of them in a frame of its own.
abbrev three_bytes : Sent
three_bytes = record {
  packet = λ _. 1 ∷ 2 ∷ 3 ∷ [];
  piece = λ _ offset. if offset == 0 then 1 ∷ 2 ∷ [] else 3 ∷ [];
}

abbrev sender : PacketInfo
sender = record {
  source = 7;
  destination = 65535;
  priority = 0;
  creation_time_sec = 0;
  creation_time_usec = 0;
}

abbrev frame_of : ℕ → Bytes → TdmaFragment → Frame
frame_of now bytes f = record {
  now = now;
  sender = sender;
  messages =
      record { message_type = 1; destination = 9; priority = 3; bytes = bytes; fragment = some f }
      ∷ [];
}

abbrev two_frames : List Frame
two_frames =
    frame_of 100 (1 ∷ 2 ∷ []) (record { is_more = true; index = 0; offset = 0; sequence = 5 })
    ∷ frame_of 200 (3 ∷ []) (record { is_more = false; index = 1; offset = 2; sequence = 5 })
    ∷ []

abbrev node_nine : Receiver
node_nine = record { id = 9; promiscuous = false; fragment_timeout_us = 1000 }

two_frames-AllTrue : AllTrueFrames three_bytes two_frames
unfolding IsTrueFragment EndsWell
two_frames-AllTrue =
    ((((refl, omega arith, refl), tt), tt), ((((refl, omega arith, refl), refl), tt), tt))

receive_frames-AllDelivered_example : AllDelivered three_bytes two_frames (
    (kept ∷ [])
    ∷ (accepted message (record {
      info = record sender { destination = 9; priority = 3 };
      payload = 1 ∷ 2 ∷ 3 ∷ [];
    })
        ∷ [])
    ∷ [])
unfolding receive_frames receive_wire receive_messages receive_message try_message_type
    receive_typed receive_fragment settle_entry add_piece expire_reassembly or_insert assemble
    Dict.lookup Dict.insert SortedMap.lookup SortedMap.insert
receive_frames-AllDelivered_example =
    receive_frames-AllDelivered three_bytes node_nine two_frames two_frames-AllTrue

abbrev template : TdmaMessage
template = record { message_type = 1; destination = 9; priority = 3; bytes = []; fragment = none }

second_fragment-AreInTime : AreInTime node_nine 100 ((200, 3 ∷ []) ∷ [])
unfolding AreInTime
second_fragment-AreInTime = (omega arith, omega arith, tt)

receive_frames-completes_example :
    receive_frames node_nine two_frames []
    ≡ (kept ∷ [])
      ∷ (accepted message (record {
        info = record sender { destination = 9; priority = 3 };
        payload = 1 ∷ 2 ∷ 3 ∷ [];
      })
          ∷ [])
      ∷ []
unfolding try_message_type Dict.lookup
receive_frames-completes_example =
    receive_frames-completes node_nine sender template 5 message refl (omega arith, omega arith)
      refl 100 (1 ∷ 2 ∷ []) ((200, 3 ∷ []) ∷ []) [] refl (omega arith) second_fragment-AreInTime
      (omega arith)
