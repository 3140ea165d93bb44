-- ===== src/Boundary/Stream/Cut.antt =====
-- However a TCP connection cuts the bytes that it carries, `receive_stream` finds the messages.
use emane.Base.{
  ℕ, zero, suc, ◌≡◌, inl, inr, refl, sym, ap, ◌∙◌, Bool, true, false, Option, none, some, List, [],
  ◌∷◌, ◌++◌, length, drop, arith, is_some, take_all, drop_all,
}
use mathlib.Core.List.{append_assoc, append-nil}
use emane.Base.Bytes.{Bytes}
use emane.Base.Bytes.Fields.{get_u32}
use emane.Boundary.Message.RoundTrip.{IsFrame}
use emane.Boundary.Stream.{
  Reading, incoming, timed_out, broken, cancelled, Drained, drain, drain_all, after, receive_stream,
}
use emane.Boundary.Stream.Drain.{
  HasFrame, prepend_to, drain-none, drain-frame, drain-bad, drain-wait, received-cases, resume,
  prepend_all, drain_all-some, drain_all-append, drain-nil,
}

prepend_to-remaining :
    (frame : Bytes) (o : Option Drained) (frames : List Bytes) (left : Bytes)
    → prepend_to frame o ≡ some (record { frames = frames; remaining = some left })
    → (later : List Bytes) × (o ≡ some (record { frames = later; remaining = some left }))
prepend_to-remaining frame none frames left e = cc
prepend_to-remaining frame (some d) frames left e = (d.frames, ground arith)

-- What the loop leaves, it leaves again.
drain-idle :
    (fuel : ℕ) (received left : Bytes) (frames : List Bytes)
    → drain fuel received ≡ some (record { frames = frames; remaining = some left })
    → drain_all left ≡ some (record { frames = []; remaining = some left })
unfolding drain_all
drain-idle zero received left frames e = ground (arith, drain-none received)
drain-idle (suc fuel) received left frames e = elim (received-cases received) [
  | inl waits ↦ ground (arith, drain-wait fuel received waits, drain-wait (length left) left)
  | inr (inl bad) ↦ ground (arith, drain-bad fuel received bad)
  | inr (inr frame) ↦
      let (later, o) =
        prepend_to-remaining _ (drain fuel (drop (get_u32 received 2) received)) frames left
          (sym (drain-frame fuel received frame) ∙ e) in
      drain-idle fuel (drop (get_u32 received 2) received) left later o
]

-- The bytes that the socket gives, and that it only gives bytes or lets the loop wait.
abbrev pub read_bytes : List Reading → Bytes
read_bytes [] = []
read_bytes (incoming chunk ∷ rest) = chunk ++ read_bytes rest
read_bytes (_ ∷ rest) = read_bytes rest

abbrev pub is_going_on : List Reading → Bool
is_going_on [] = true
is_going_on (timed_out ∷ rest) = is_going_on rest
is_going_on (incoming (x ∷ xs) ∷ rest) = is_going_on rest
is_going_on (_ ∷ rest) = false

abbrev pub frames_of : Option Drained → Option (List Bytes)
frames_of none = none
frames_of (some d) = some d.frames

after-frames_of :
    (frames : List Bytes) (o : Option Drained)
    → after frames (frames_of o) ≡ frames_of (prepend_all frames o)
after-frames_of frames none = refl
after-frames_of frames (some d) = refl

-- One read, and the reads after it from what it leaves.
received_remaining :
    (rest : List Reading) (there : Bytes) (frames : List Bytes) (remaining : Option Bytes)
    → drain_all there ≡ some (record { frames = frames; remaining = remaining })
    → ((left : Bytes)
        → drain_all left ≡ some (record { frames = []; remaining = some left })
        → receive_stream rest left ≡ frames_of (drain_all (left ++ read_bytes rest)))
    → elim remaining as (λ _. Option (List Bytes)) [
      | none ↦ some frames
      | some left ↦ after frames (receive_stream rest left)
    ]
      ≡ frames_of
          (resume (some (record { frames = frames; remaining = remaining })) (read_bytes rest))
unfolding resume drain_all
received_remaining rest there frames none e later = refl
received_remaining rest there frames (some left) e later =
    ap (after frames) (later left (drain-idle _ there left frames e))
    ∙ after-frames_of frames (drain_all (left ++ read_bytes rest))

received-chunk :
    (rest : List Reading) (there : Bytes) (o : Option Drained)
    → drain_all there ≡ o
    → is_some o ≡ true
    → ((left : Bytes)
        → drain_all left ≡ some (record { frames = []; remaining = some left })
        → receive_stream rest left ≡ frames_of (drain_all (left ++ read_bytes rest)))
    → elim o as (λ _. Option (List Bytes)) [
      | none ↦ none
      | some d ↦ elim d.remaining [
        | none ↦ some d.frames
        | some left ↦ after d.frames (receive_stream rest left)
      ]
    ]
      ≡ frames_of (resume o (read_bytes rest))
received-chunk rest there none e s later = cc
received-chunk rest there (some d) e s later =
    received_remaining rest there d.frames d.remaining e later

receive_stream-resumed :
    (readings : List Reading) (received : Bytes)
    → is_going_on readings ≡ true
    → drain_all received ≡ some (record { frames = []; remaining = some received })
    → receive_stream readings received ≡ frames_of (drain_all (received ++ read_bytes readings))
unfolding receive_stream
receive_stream-resumed [] received g idle =
    sym (ap (λ r. frames_of (drain_all r)) (append-nil received) ∙ ap frames_of idle)
receive_stream-resumed (timed_out ∷ rest) received g idle =
    receive_stream-resumed rest received g idle
receive_stream-resumed (incoming [] ∷ rest) received g idle = cc
receive_stream-resumed (broken ∷ rest) received g idle = cc
receive_stream-resumed (cancelled ∷ rest) received g idle = cc
receive_stream-resumed (incoming (x ∷ xs) ∷ rest) received g idle =
    let there : Bytes = received ++ (x ∷ xs) in
    received-chunk rest there (drain_all there) refl (drain_all-some there)
      (λ left. receive_stream-resumed rest left g)
    ∙ ap frames_of (sym (drain_all-append there (read_bytes rest)))
    ∙ ap (λ r. frames_of (drain_all r)) (append_assoc received (x ∷ xs) (read_bytes rest))

frames_of-some : (o : Option Drained) → is_some o ≡ true → is_some (frames_of o) ≡ true
frames_of-some none h = cc
frames_of-some (some d) h = refl

-- While the socket gives bytes or lets the loop wait, what is dispatched is what one pass of the
-- inner loop over all the bytes would dispatch, however the socket cuts them; and it is a result:
-- the inner loop does not run out of fuel.
pub receive_stream-cut :
    (readings : List Reading)
    → is_going_on readings ≡ true
    → (receive_stream readings [] ≡ frames_of (drain_all (read_bytes readings)))
      × (is_some (receive_stream readings []) ≡ true)
unfolding drain_all drain
receive_stream-cut readings g =
    let same = receive_stream-resumed readings [] g refl in
    (same, ap is_some same ∙ frames_of-some _ (drain_all-some (read_bytes readings)))

abbrev pub AllFrames : List Bytes → Type 0
AllFrames [] = Unit {0}
AllFrames (m ∷ ms) = IsFrame m × AllFrames ms

abbrev pub joined : List Bytes → Bytes
joined [] = []
joined (m ∷ ms) = m ++ joined ms

IsFrame-HasFrame : (m : Bytes) → IsFrame m → HasFrame m
IsFrame-HasFrame m h = ground arith

-- One message is the whole of what the loop takes.
drain_all-frame :
    (m : Bytes) → IsFrame m → drain_all m ≡ some (record { frames = m ∷ []; remaining = some [] })
unfolding drain_all
drain_all-frame m h =
    drain-frame (length m) m (IsFrame-HasFrame m h)
    ∙ rw h.counted (
        rw (take_all (length m) m (omega arith)) (
          rw (drop_all (length m) m (omega arith))
            (ap (prepend_to m) (drain-nil (length m) (omega (arith, h.long_enough))))))

-- Messages that a stream can carry are found in their bytes, one after the other.
drain_all-joined :
    (ms : List Bytes)
    → AllFrames ms
    → drain_all (joined ms) ≡ some (record { frames = ms; remaining = some [] })
unfolding resume drain_all
drain_all-joined [] all = drain-nil 1 (omega arith)
drain_all-joined (m ∷ ms) all =
    drain_all-append m (joined ms)
    ∙ ap (λ o. resume o (joined ms)) (drain_all-frame m all.0)
    ∙ ap (prepend_all (m ∷ [])) (drain_all-joined ms all.1)

-- While the socket gives bytes or lets the loop wait: if all the bytes are messages one after the
-- other, each of which a stream can carry, then exactly those are dispatched, in their order,
-- however the socket cuts the bytes.
pub receive_stream-joined :
    (readings : List Reading) (ms : List Bytes)
    → is_going_on readings ≡ true
    → AllFrames ms
    → read_bytes readings ≡ joined ms
    → receive_stream readings [] ≡ some ms
receive_stream-joined readings ms g all same =
    (receive_stream-cut readings g).0
    ∙ ap (λ r. frames_of (drain_all r)) same
    ∙ ap frames_of (drain_all-joined ms all)
