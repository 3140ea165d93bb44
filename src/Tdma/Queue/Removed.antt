-- ===== src/Tdma/Queue/Removed.antt =====
-- What is left of the queues when `take_transmission` removes or shortens a packet, for any weight
-- of the packets.
use emane.Base.{
  ℕ, zero, suc, ◌+◌, ◌≡◌, ap, some, List, [], ◌∷◌, ◌++◌, arith, get_elem?, set, inl, inr,
  Bool-cases, Option-cases, subst, unwrap_or,
}
use emane.Tdma.Queue.{QueuedPacket, is_eligible, split_queue}

unfoldable pub weigh : (QueuedPacket → ℕ) → List QueuedPacket → ℕ
weigh f [] = 0
weigh f (q ∷ qs) = f q + weigh f qs

unfoldable pub weigh_all : (QueuedPacket → ℕ) → List (List QueuedPacket) → ℕ
weigh_all f [] = 0
weigh_all f (qs ∷ qss) = weigh f qs + weigh_all f qss

pub weigh-append :
    (f : QueuedPacket → ℕ) (ps qs : List QueuedPacket)
    → weigh f (ps ++ qs) ≡ weigh f ps + weigh f qs
unfolding weigh
weigh-append f [] qs = ground arith
weigh-append f (p ∷ ps) qs = ground (arith, weigh-append f ps qs)

weigh_all-set :
    (f : QueuedPacket → ℕ) (qss : List (List QueuedPacket)) (i : ℕ) (old new : List QueuedPacket)
    → get_elem? qss i ≡ some old
    → weigh_all f (set qss i new) + weigh f old ≡ weigh_all f qss + weigh f new
unfolding weigh_all
weigh_all-set f [] i old new found = ground arith
weigh_all-set f (qs ∷ qss) zero old new found = ground arith
weigh_all-set f (qs ∷ qss) (suc i) old new found =
    ground (arith, weigh_all-set f qss i old new found)

pub split_queue-append :
    (destination : ℕ) (qs before behind : List QueuedPacket) (q : QueuedPacket)
    → split_queue destination qs ≡ some (before, q, behind)
    → qs ≡ before ++ q ∷ behind
unfolding split_queue
split_queue-append destination [] before behind q found = ground arith
split_queue-append destination (p ∷ ps) before behind q found =
    elim (Bool-cases (is_eligible destination p)) [
      | inl e ↦ ground arith
      | inr e ↦ elim (Option-cases (split_queue destination ps)) [
        | inl none_left ↦ ground arith
        | inr ((b, r, a), some_left) ↦
            ground (arith, split_queue-append destination ps b a r some_left)
      ]
    ]

no_split :
    (destination : ℕ) (before behind : List QueuedPacket) (q : QueuedPacket)
    → split_queue destination [] ≡ some (before, q, behind)
    → ⊥
unfolding split_queue
no_split destination before behind q found = ground arith

pub set_split :
    (f : QueuedPacket → ℕ) (qss : List (List QueuedPacket)) (i destination : ℕ)
    (before behind new : List QueuedPacket) (q : QueuedPacket)
    → split_queue destination (unwrap_or (get_elem? qss i) []) ≡ some (before, q, behind)
    → weigh_all f (set qss i new) + (weigh f before + f q + weigh f behind)
      ≡ weigh_all f qss + weigh f new
unfolding weigh
set_split f qss i destination before behind new q found = elim (Option-cases (get_elem? qss i)) [
  | inl e ↦
      elim (no_split destination before behind q (
        subst (λ o. split_queue destination (unwrap_or o []) ≡ some (before, q, behind)) e
          found)) [ ]
  | inr (qs, e) ↦
      let whole : qs ≡ before ++ q ∷ behind = split_queue-append destination qs before behind q (
        subst (λ o. split_queue destination (unwrap_or o []) ≡ some (before, q, behind)) e found) in
      ground (
        arith,
        weigh_all-set f qss i qs new e,
        ap (weigh f) whole,
        weigh-append f before (q ∷ behind),
      )
]
