-- ===== src/Tdma/Receive.antt =====
-- The reception of a frame of the TDMA model: `complete_receive` from where the frame was received
-- well, and `expire_reassembly`. The calls that count packets and the neighbour metrics are left out; each
-- message ends in an `Outcome` that says which are made. A time is a number of microseconds.
pub mod Sound
pub mod Delivered
pub mod InOrder
pub mod Expiry
pub mod Tests
pub mod Complete
use emane.Base.{
  ℕ, zero, suc, ◌+◌, ◌≡◌, ◌↔◌, Bool, true, false, not, ◌&&◌, ◌||◌, Option, none, some, List, [],
  ◌∷◌, ◌++◌, length, ltb, leb, ◌==◌, if◌then◌else◌, arith,
}
use emane.Base.Bytes.{Bytes}
use emane.Base.Dict
use emane.Base.Dict.{Eq, Dict}
use emane.Base.SortedMap
use emane.Base.SortedMap.{SortedMap}
use emane.Tdma.Queue.{PacketInfo, MessageType, message, control}

pub record TdmaFragment : Type 0 where
  pub is_more : Bool
  pub index : ℕ
  pub offset : ℕ
  pub sequence : ℕ

pub record TdmaMessage : Type 0 where
  pub message_type : ℕ
  pub destination : ℕ
  pub priority : ℕ
  pub bytes : Bytes
  pub fragment : Option TdmaFragment

pub record FragmentKey : Type 0 where
  pub source : ℕ
  pub priority : ℕ
  pub sequence : ℕ

abbrev pub fragment_key_eq : FragmentKey → FragmentKey → Bool
fragment_key_eq a b =
    (a.source == b.source) && (a.priority == b.priority) && (a.sequence == b.sequence)

pub fragment_key_eq_iff : (a b : FragmentKey) → (fragment_key_eq a b ≡ true) ↔ (a ≡ b)
fragment_key_eq_iff a b = ground arith

instance abbrev pub fragment_key_Eq : Eq FragmentKey
fragment_key_Eq = record { eqb = fragment_key_eq; eqb_iff = fragment_key_eq_iff }

pub record Reassembly : Type 0 where
  pub info : PacketInfo
  pub message_type : MessageType
  pub total_len : Option ℕ
  pub pieces : SortedMap Bytes
  pub last_update_us : ℕ

abbrev pub ReassemblyStore : Type 0
ReassemblyStore = Dict FragmentKey Reassembly

pub record OwnedPacket : Type 0 where
  pub info : PacketInfo
  pub payload : Bytes

-- How a message of a frame ends: passed over by a `continue`, dropped since it is for another node,
-- kept for its packet, or a whole packet, that is accepted; only one of data goes upstream.
pub data Outcome : Type 0 where
  passed_over other_destination kept : Outcome
  accepted : MessageType → OwnedPacket → Outcome

-- The settings that `receive_wire` reads.
pub record Receiver : Type 0 where
  pub id : ℕ
  pub promiscuous : Bool
  pub fragment_timeout_us : ℕ

abbrev pub broadcast_nem : ℕ
broadcast_nem = 65535

unfoldable pub try_message_type : ℕ → Option MessageType
try_message_type n = if n == 1 then some message else (if n == 2 then some control else none)

-- `retain` those that are not expired.
unfoldable pub expire_reassembly : Receiver → ℕ → ReassemblyStore → ReassemblyStore
expire_reassembly r now [] = []
expire_reassembly r now ((key, entry) ∷ rest) =
    let later = expire_reassembly r now rest in
    if leb (entry.last_update_us + r.fragment_timeout_us) now then later else (key, entry) ∷ later

-- `entry(offset).or_insert`: the first piece at an offset is kept.
unfoldable pub or_insert : ℕ → Bytes → SortedMap Bytes → SortedMap Bytes
or_insert offset piece pieces = elim (SortedMap.lookup offset pieces) [
  | none ↦ SortedMap.insert offset piece pieces
  | some old ↦ pieces
]

-- The pieces that follow each other from `expected` on, put together.
unfoldable pub assemble : SortedMap Bytes → ℕ → Bytes → ℕ × Bytes
assemble [] expected assembled = (expected, assembled)
assemble ((offset, piece) ∷ rest) expected assembled =
    let more = assemble rest (expected + length piece) (assembled ++ piece) in
    if offset == expected then more else (expected, assembled)

-- The entry after a piece was put into it.
unfoldable pub add_piece : ℕ → TdmaFragment → Bytes → Reassembly → Reassembly
add_piece now f bytes entry =
    let pieces = or_insert f.offset bytes entry.pieces in
    record entry {
      last_update_us = now;
      pieces = pieces;
      total_len = if f.is_more then entry.total_len else (elim (SortedMap.lookup f.offset pieces) [
        | none ↦ none
        | some piece ↦ some (f.offset + length piece)
      ]);
    }

abbrev pub new_entry : ℕ → PacketInfo → MessageType → Reassembly
new_entry now info kind = record {
  info = info;
  message_type = kind;
  total_len = none;
  pieces = [];
  last_update_us = now;
}

abbrev pub entry_or_new : Option Reassembly → Reassembly → Reassembly
entry_or_new none e = e
entry_or_new (some old) e = old

-- Whether `total_len == Some(expected)`.
abbrev pub is_total : Option ℕ → ℕ → Bool
is_total none expected = false
is_total (some n) expected = n == expected

-- The end of a fragment, once its piece is in the entry.
unfoldable pub settle_entry :
    FragmentKey → MessageType → Reassembly → ReassemblyStore → Outcome × ReassemblyStore
settle_entry key kind entry store =
    let (expected, assembled) = assemble entry.pieces 0 [] in
    if is_total entry.total_len expected
    then (accepted kind (record { info = entry.info; payload = assembled }), Dict.remove key store)
    else (kept, Dict.insert key entry store)

unfoldable pub receive_fragment :
    ℕ
    → PacketInfo
    → MessageType
    → TdmaFragment
    → Bytes
    → ReassemblyStore
    → Outcome × ReassemblyStore
receive_fragment now info kind f bytes store =
    let key : FragmentKey = record {
      source = info.source;
      priority = info.priority;
      sequence = f.sequence;
    } in
    if ltb 67108864 (f.offset + length bytes)
    then (passed_over, store)
    else settle_entry key kind
        (add_piece now f bytes (entry_or_new (Dict.lookup key store) (new_entry now info kind)))
        store

-- A message for this node: whole, or a fragment.
abbrev pub addressed :
    ℕ
    → PacketInfo
    → MessageType
    → Bytes
    → Option TdmaFragment
    → ReassemblyStore
    → Outcome × ReassemblyStore
addressed now info kind bytes none store =
    (accepted kind (record { info = info; payload = bytes }), store)
addressed now info kind bytes (some f) store = receive_fragment now info kind f bytes store

-- A message of a known type, with an address and a priority that fit.
unfoldable pub receive_typed :
    Receiver
    → ℕ
    → PacketInfo
    → MessageType
    → TdmaMessage
    → ReassemblyStore
    → Outcome × ReassemblyStore
receive_typed r now sender kind m store =
    if ltb 65535 m.destination || ltb 255 m.priority
    then (passed_over, store)
    else (if not r.promiscuous
          && not (m.destination == r.id)
          && not (m.destination == broadcast_nem)
        then (other_destination, store)
        else addressed now (record sender { destination = m.destination; priority = m.priority })
            kind m.bytes m.fragment store)

unfoldable pub receive_message :
    Receiver → ℕ → PacketInfo → TdmaMessage → ReassemblyStore → Outcome × ReassemblyStore
receive_message r now sender m store = elim (try_message_type m.message_type) [
  | none ↦ (passed_over, store)
  | some kind ↦ receive_typed r now sender kind m store
]

-- The messages of a frame, in their order: how each ends.
unfoldable pub receive_messages :
    Receiver → ℕ → PacketInfo → List TdmaMessage → ReassemblyStore → List Outcome × ReassemblyStore
receive_messages r now sender [] store = ([], store)
receive_messages r now sender (m ∷ ms) store =
    let (outcome, next) = receive_message r now sender m store in
    let (outcomes, last) = receive_messages r now sender ms next in (outcome ∷ outcomes, last)

-- What goes upstream.
unfoldable pub deliveries : List Outcome → List OwnedPacket
deliveries [] = []
deliveries (accepted message p ∷ rest) = p ∷ deliveries rest
deliveries (_ ∷ rest) = deliveries rest

-- The rest of `complete_receive` for a frame that was received well: old entries go first.
unfoldable pub receive_wire :
    Receiver → ℕ → PacketInfo → List TdmaMessage → ReassemblyStore → List Outcome × ReassemblyStore
receive_wire r now sender ms store =
    receive_messages r now sender ms (expire_reassembly r now store)

-- A frame: when it is complete, who sent it, and its messages.
pub record Frame : Type 0 where
  pub now : ℕ
  pub sender : PacketInfo
  pub messages : List TdmaMessage

unfoldable pub receive_frames : Receiver → List Frame → ReassemblyStore → List (List Outcome)
receive_frames r [] store = []
receive_frames r (f ∷ fs) store =
    let (outcomes, next) = receive_wire r f.now f.sender f.messages store in
    outcomes ∷ receive_frames r fs next
