-- ===== src/Tdma/Queue.antt =====
-- The transmit queues of the TDMA model: their state, `priority_to_queue`, `packet_queue` and
-- `queue_index`. The times of packets are passed through.
pub mod Take
pub mod Removed
pub mod Taken
pub mod Returns
pub mod Tokens
pub mod Conserved
pub mod Accounted
use emane.Base.{
  ℕ, zero, suc, ◌+◌, ◌-◌, ◌*◌, ◌/◌, Bool, true, false, not, ◌&&◌, ◌||◌, Option, none, some, List,
  [], ◌∷◌, ◌++◌, length, get_elem?, set, take, drop, slice, min, ltb, leb, ◌==◌, if◌then◌else◌,
  is_some, unwrap_or,
}
use emane.Base.Bytes.{Bytes}

pub record PacketInfo : Type 0 where
  pub source : ℕ
  pub destination : ℕ
  pub priority : ℕ
  pub creation_time_sec : ℕ
  pub creation_time_usec : ℕ

pub record QueuedPacket : Type 0 where
  pub info : PacketInfo
  pub payload : Bytes
  pub sequence : ℕ
  pub offset : ℕ
  pub fragment_index : ℕ

pub data MessageType : Type 0 where
  message control : MessageType

unfoldable pub priority_to_queue : ℕ → ℕ
priority_to_queue p =
    if leb 8 p && leb p 23
    then 1
    else (if leb 32 p && leb p 47 then 2 else (if leb 48 p && leb p 63 then 3 else 0))

unfoldable pub packet_queue : MessageType → ℕ → ℕ
packet_queue message p = priority_to_queue p
packet_queue control p = 4

-- The counters of one queue that taking a packet changes.
pub record QueueStatistics : Type 0 where
  pub dequeued : ℕ
  pub too_big : ℕ
  pub classes : List ℕ
  pub fragment_histogram : List ℕ

-- The fields of `State` that the queues use: `queues` and `queue_statistics` are arrays of five.
pub record TxState : Type 0 where
  pub queues : List (List QueuedPacket)
  pub queue_statistics : List QueueStatistics
  pub fragmentation_enable : Bool
  pub strict_dequeue : Bool
  pub flow_control_enable : Bool
  pub flow_control_tokens : ℕ
  pub available_tokens : ℕ

abbrev pub queue_at : TxState → ℕ → List QueuedPacket
queue_at s i = unwrap_or (get_elem? s.queues i) []

-- A transmit slot with destination 0 serves every packet.
unfoldable pub is_eligible : ℕ → QueuedPacket → Bool
is_eligible destination q = (destination == 0) || (q.info.destination == destination)

unfoldable pub any_eligible : ℕ → List QueuedPacket → Bool
any_eligible destination [] = false
any_eligible destination (q ∷ qs) = is_eligible destination q || any_eligible destination qs

-- `(0..5).rev().find(…)`, from the queue below `n` down.
unfoldable pub find_queue : TxState → ℕ → ℕ → Option ℕ
find_queue s destination zero = none
find_queue s destination (suc n) =
    let rest = find_queue s destination n in
    if any_eligible destination (queue_at s n) then some n else rest

unfoldable pub queue_index : TxState → ℕ → ℕ → Option ℕ
unfolding find_queue
queue_index s requested destination =
    let index = min requested 4 in
    if any_eligible destination (queue_at s index)
    then some index
    else (if s.strict_dequeue then none else find_queue s destination 5)

-- The first eligible packet of a queue, with the packets before and behind it.
unfoldable pub split_queue :
    ℕ → List QueuedPacket → Option (List QueuedPacket × QueuedPacket × List QueuedPacket)
split_queue destination [] = none
split_queue destination (q ∷ qs) =
    let rest : Option (List QueuedPacket × QueuedPacket × List QueuedPacket) =
      elim (split_queue destination qs) [
        | none ↦ none
        | some (before, found, behind) ↦ some (q ∷ before, found, behind)
      ] in
    if is_eligible destination q then some ([], q, qs) else rest
