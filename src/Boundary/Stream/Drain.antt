-- ===== src/Boundary/Stream/Drain.antt =====
-- The inner loop of `receive_stream`: that it ends, and how it goes on when bytes are appended.
use emane.Base.{
  ℕ, zero, suc, ◌≤◌, ◌<◌, ◌≡◌, ◌⊎◌, inl, inr, refl, sym, ap, subst, ◌∙◌, true, Option, none, some,
  List, [], ◌∷◌, ◌++◌, length, take, drop, arith, length-append, length-drop, is_some,
}
use emane.Base.Bytes.{Bytes}
use emane.Base.Bytes.Fields.{get_u32}
use emane.Boundary.Message.{header_length, max_message_length}
use emane.Boundary.Stream.{Drained, prepend, drain, drain_all}

-- The loop ends: every round that goes on takes a message of at least six bytes away.
drain-some :
    (fuel : ℕ) (received : Bytes) → length received < fuel → is_some (drain fuel received) ≡ true
unfolding drain
drain-some zero received h = absurd (omega arith)
drain-some (suc fuel) received h = ground (
  arith,
  length-drop (get_u32 received 2) received,
  drain-some fuel (drop (get_u32 received 2) received),
)

-- More fuel than enough changes nothing.
drain-enough :
    (fuel more : ℕ) (received : Bytes)
    → length received < fuel
    → length received < more
    → drain fuel received ≡ drain more received
unfolding drain
drain-enough zero more received h k = absurd (omega arith)
drain-enough (suc fuel) zero received h k = absurd (omega arith)
drain-enough (suc fuel) (suc more) received h k = ground (
  arith,
  length-drop (get_u32 received 2) received,
  drain-enough fuel more (drop (get_u32 received 2) received),
)

get_u32-append : (a b : Bytes) → 6 ≤ length a → get_u32 (a ++ b) 2 ≡ get_u32 a 2
unfolding get_u32
get_u32-append (r ∷ s ∷ t ∷ u ∷ v ∷ w ∷ a) b h = refl
get_u32-append (r ∷ s ∷ t ∷ u ∷ v ∷ []) b h = absurd (omega arith)
get_u32-append (r ∷ s ∷ t ∷ u ∷ []) b h = absurd (omega arith)
get_u32-append (r ∷ s ∷ t ∷ []) b h = absurd (omega arith)
get_u32-append (r ∷ s ∷ []) b h = absurd (omega arith)
get_u32-append (r ∷ []) b h = absurd (omega arith)
get_u32-append [] b h = absurd (omega arith)

take-append_within : (n : ℕ) (a b : Bytes) → n ≤ length a → take n (a ++ b) ≡ take n a
take-append_within zero a b h = refl
take-append_within (suc n) [] b h = absurd (omega arith)
take-append_within (suc n) (x ∷ a) b h = ap (◌∷◌ x) (take-append_within n a b (omega arith))

drop-append_within : (n : ℕ) (a b : Bytes) → n ≤ length a → drop n (a ++ b) ≡ drop n a ++ b
drop-append_within zero a b h = refl
drop-append_within (suc n) [] b h = absurd (omega arith)
drop-append_within (suc n) (x ∷ a) b h = drop-append_within n a b (omega arith)

-- What a round does that has a whole message, and one that has a length out of bounds.
pub record HasFrame (received : Bytes) : Type 0 where
  pub headed : header_length ≤ length received
  pub long_enough : header_length ≤ get_u32 received 2
  pub limited : get_u32 received 2 ≤ max_message_length
  pub arrived : get_u32 received 2 ≤ length received

abbrev pub prepend_to : Bytes → Option Drained → Option Drained
prepend_to frame none = none
prepend_to frame (some d) = some (prepend frame d)

abbrev pub IsBadLength : Bytes → Type 0
IsBadLength received =
    (header_length ≤ length received)
    × ((get_u32 received 2 < header_length) ⊎ (max_message_length < get_u32 received 2))

pub drain-none : (received : Bytes) → drain 0 received ≡ none
unfolding drain
drain-none received = refl

pub drain-frame :
    (fuel : ℕ) (received : Bytes)
    → HasFrame received
    → drain (suc fuel) received
      ≡ prepend_to
          (take (get_u32 received 2) received)
          (drain fuel (drop (get_u32 received 2) received))
unfolding drain
drain-frame fuel received h = ground arith

pub drain-bad :
    (fuel : ℕ) (received : Bytes)
    → IsBadLength received
    → drain (suc fuel) received ≡ some (record { frames = []; remaining = none })
unfolding drain
drain-bad fuel received h = ground arith

abbrev pub IsWaiting : Bytes → Type 0
IsWaiting received =
    (length received < header_length)
    ⊎ ((header_length ≤ get_u32 received 2)
        × (get_u32 received 2 ≤ max_message_length)
        × (length received < get_u32 received 2))

pub drain-wait :
    (fuel : ℕ) (received : Bytes)
    → IsWaiting received
    → drain (suc fuel) received ≡ some (record { frames = []; remaining = some received })
unfolding drain
drain-wait fuel received h = ground arith

pub received-cases :
    (received : Bytes) → IsWaiting received ⊎ IsBadLength received ⊎ HasFrame received
received-cases received = ground arith

-- To go on from where the loop stopped, with more bytes.
abbrev pub prepend_all : List Bytes → Option Drained → Option Drained
prepend_all frames none = none
prepend_all frames (some d) = some (record d { frames = frames ++ d.frames })

unfoldable pub resume : Option Drained → Bytes → Option Drained
resume none more = none
resume (some d) more = elim d.remaining [
  | none ↦ some d
  | some left ↦ prepend_all d.frames (drain_all (left ++ more))
]

prepend_all-prepend :
    (frame : Bytes) (frames : List Bytes) (o : Option Drained)
    → prepend_all (frame ∷ frames) o ≡ prepend_to frame (prepend_all frames o)
prepend_all-prepend frame frames none = refl
prepend_all-prepend frame frames (some d) = refl

resume-prepend_to :
    (frame : Bytes) (o : Option Drained) (more : Bytes)
    → resume (prepend_to frame o) more ≡ prepend_to frame (resume o more)
unfolding resume
resume-prepend_to frame none more = refl
resume-prepend_to frame (some d) more = ground (arith, prepend_all-prepend frame d.frames)

prepend_all-nil : (o : Option Drained) → prepend_all [] o ≡ o
prepend_all-nil none = refl
prepend_all-nil (some d) = refl

HasFrame-append : (a b : Bytes) → HasFrame a → HasFrame (a ++ b)
HasFrame-append a b h = ground (arith, length-append a b, get_u32-append a b h.headed)

IsBadLength-append : (a b : Bytes) → IsBadLength a → IsBadLength (a ++ b)
IsBadLength-append a b h = ground (arith, length-append a b, get_u32-append a b h.0)

drain-frame_append :
    (more : ℕ) (a b : Bytes)
    → HasFrame a
    → drain (suc more) (a ++ b)
      ≡ prepend_to (take (get_u32 a 2) a) (drain more (drop (get_u32 a 2) a ++ b))
drain-frame_append more a b h =
    let first : drain (suc more) (a ++ b)
        ≡ prepend_to (take (get_u32 a 2) (a ++ b)) (drain more (drop (get_u32 a 2) (a ++ b))) =
      subst
        (λ n.
          drain (suc more) (a ++ b) ≡ prepend_to (take n (a ++ b)) (drain more (drop n (a ++ b))))
        (get_u32-append a b h.headed) (drain-frame more (a ++ b) (HasFrame-append a b h)) in
    first ∙ rw (take-append_within _ a b h.arrived) (rw (drop-append_within _ a b h.arrived))

-- Where bytes are appended to those that the loop has seen, it finds what it would have found
-- going on.
drain-append :
    (fuel more : ℕ) (a b : Bytes)
    → length a < fuel
    → length (a ++ b) < more
    → drain more (a ++ b) ≡ resume (drain fuel a) b
unfolding resume drain_all
drain-append zero more a b k h = absurd (omega arith)
drain-append (suc fuel) zero a b k h = absurd (omega arith)
drain-append (suc fuel) (suc more) a b k h = elim (received-cases a) [
  | inl waits ↦
      drain-enough (suc more) (suc (length (a ++ b))) (a ++ b) h (omega arith)
      ∙ sym (rw (drain-wait fuel a waits) (prepend_all-nil (drain_all (a ++ b))))
  | inr (inl bad) ↦
      drain-bad more (a ++ b) (IsBadLength-append a b bad) ∙ sym (rw (drain-bad fuel a bad))
  | inr (inr frame) ↦
      drain-frame_append more a b frame
      ∙ ap (prepend_to _) (
          drain-append fuel more (drop (get_u32 a 2) a) b
            (ground (arith, length-drop (get_u32 a 2) a))
            (ground (
              arith,
              length-drop (get_u32 a 2) a,
              length-append a b,
              length-append (drop (get_u32 a 2) a) b,
            )))
      ∙ sym (resume-prepend_to _ (drain fuel (drop (get_u32 a 2) a)) b)
      ∙ ap (λ o. resume o b) (sym (drain-frame fuel a frame))
]

pub drain_all-some : (received : Bytes) → is_some (drain_all received) ≡ true
unfolding drain_all
drain_all-some received = drain-some (suc (length received)) received (omega arith)

pub drain_all-append : (a b : Bytes) → drain_all (a ++ b) ≡ resume (drain_all a) b
unfolding drain_all
drain_all-append a b =
    drain-append (suc (length a)) (suc (length (a ++ b))) a b (omega arith) (omega arith)

pub drain-nil :
    (fuel : ℕ) → 0 < fuel → drain fuel [] ≡ some (record { frames = []; remaining = some [] })
unfolding drain
drain-nil zero h = absurd (omega arith)
drain-nil (suc fuel) h = refl
