-- ===== src/Tdma/Receive/Complete.antt =====
-- A packet whose fragments all come, in order and in time, is accepted by the reception of the TDMA model.
use emane.Base.{
  ℕ, suc, ◌+◌, ◌≤◌, ◌<◌, ◌≡◌, refl, ap, ◌∙◌, Bool, true, false, not, ◌&&◌, ◌||◌, none, some, List,
  [], ◌∷◌, ◌++◌, length, ltb, ◌==◌, if◌then◌else◌, arith,
}
use emane.Base.Bytes.{Bytes}
use emane.Base.Dict
use emane.Base.SortedMap.{SortedMap}
use emane.Tdma.Queue.{PacketInfo, MessageType}
use emane.Tdma.Receive.{
  TdmaFragment, TdmaMessage, FragmentKey, fragment_key_Eq, Reassembly, ReassemblyStore, Outcome,
  kept, accepted, Receiver, broadcast_nem, try_message_type, expire_reassembly, add_piece,
  new_entry, entry_or_new, settle_entry, receive_fragment, receive_typed, receive_message,
  receive_messages, receive_wire, Frame, receive_frames,
}
use emane.Tdma.Receive.Expiry.{lookup-expire, lookup-expire_none}
use emane.Tdma.Receive.InOrder.{joined, joined-append, Follow, Follow-append, HasFirst, settle-next}

-- Whether a message is for a node.
abbrev pub is_for : Receiver → ℕ → Bool
is_for r destination = r.promiscuous || (destination == r.id) || (destination == broadcast_nem)

not_dropped : (p a b : Bool) → (p || a || b) ≡ true → (not p && not a && not b) ≡ false
not_dropped true a b h = refl
not_dropped false true b h = refl
not_dropped false false b h = ap not h

abbrev pub total_length : List (ℕ × Bytes) → ℕ
total_length [] = 0
total_length ((now, bytes) ∷ rest) = length bytes + total_length rest

-- Each fragment comes before the entry of the one before it is too old, and has a byte or more.
unfoldable pub AreInTime : Receiver → ℕ → List (ℕ × Bytes) → Type 0
AreInTime r last [] = Unit {0}
AreInTime r last ((now, bytes) ∷ rest) =
    (now < last + r.fragment_timeout_us) × (0 < length bytes) × AreInTime r now rest

abbrev is_any : List (ℕ × Bytes) → Bool
is_any [] = false
is_any (_ ∷ _) = true

-- How the fragments of a packet end: the last one completes it.
abbrev pub all_but_last_kept :
    MessageType → PacketInfo → Bytes → List (ℕ × Bytes) → List (List Outcome)
all_but_last_kept kind info before [] = []
all_but_last_kept kind info before ((now, bytes) ∷ []) =
    (accepted kind (record { info = info; payload = before ++ bytes }) ∷ []) ∷ []
all_but_last_kept kind info before ((now, bytes) ∷ next ∷ rest) =
    (kept ∷ []) ∷ all_but_last_kept kind info (before ++ bytes) (next ∷ rest)

module _ (r : Receiver) (sender : PacketInfo) (m : TdmaMessage) (sequence : ℕ) where
  abbrev pub packet_info : PacketInfo
  packet_info = record sender { destination = m.destination; priority = m.priority }

  abbrev pub packet_key : FragmentKey
  packet_key = record { source = sender.source; priority = m.priority; sequence = sequence }

  abbrev fragment_at : Bool → ℕ → ℕ → TdmaFragment
  fragment_at more index offset = record {
    is_more = more;
    index = index;
    offset = offset;
    sequence = sequence;
  }

  abbrev with_fragment : TdmaFragment → Bytes → TdmaMessage
  with_fragment f bytes = record m { bytes = bytes; fragment = some f }

  -- A packet sent in fragments, each of them in a frame of its own, that comes at a time.
  abbrev pub fragment_frames : ℕ → ℕ → List (ℕ × Bytes) → List Frame
  fragment_frames index offset [] = []
  fragment_frames index offset ((now, bytes) ∷ rest) =
      record {
        now = now;
        sender = sender;
        messages = with_fragment (fragment_at (is_any rest) index offset) bytes ∷ [];
      }
      ∷ fragment_frames (suc index) (offset + length bytes) rest

  module _ (kind : MessageType) (known : try_message_type m.message_type ≡ some kind)
      (fits : (m.destination ≤ 65535) × (m.priority ≤ 255))
      (here : is_for r m.destination ≡ true) where
    -- A fragment of the packet goes to its entry.
    receive-settles :
        (now : ℕ) (more : Bool) (index offset : ℕ) (bytes : Bytes) (store : ReassemblyStore)
        → offset + length bytes ≤ 67108864
        → receive_message r now sender (with_fragment (fragment_at more index offset) bytes) store
          ≡ settle_entry packet_key kind
              (add_piece now
                (fragment_at more index offset)
                bytes
                (entry_or_new (Dict.lookup packet_key store) (new_entry now packet_info kind)))
              store
    unfolding receive_message receive_typed receive_fragment
    receive-settles now more index offset bytes store small =
        let valid : (ltb 65535 m.destination || ltb 255 m.priority) ≡ false =
          ground (arith, fits.0, fits.1) in
        let taken : (not r.promiscuous
              && not (m.destination == r.id)
              && not (m.destination == broadcast_nem))
            ≡ false =
          not_dropped r.promiscuous (m.destination == r.id) (m.destination == broadcast_nem) here in
        let short : ltb 67108864 (offset + length bytes) ≡ false = ground (arith, small) in
        rw (known, receive_message)
          (rw (valid, receive_typed) (rw (taken, receive_typed) (rw (short, receive_fragment))))

    receive-next :
        (now : ℕ) (more : Bool) (index offset : ℕ) (bytes : Bytes) (done : SortedMap Bytes)
        (e : Reassembly) (store : ReassemblyStore)
        → entry_or_new (Dict.lookup packet_key store) (new_entry now packet_info kind) ≡ e
        → HasFirst packet_info done offset e
        → 0 < length bytes
        → offset + length bytes ≤ 67108864
        → receive_message r now sender (with_fragment (fragment_at more index offset) bytes) store
          ≡ (if more
              then (
                kept,
                Dict.insert packet_key
                    (record e {
                      last_update_us = now;
                      total_len = none;
                      pieces = done ++ ((offset, bytes) ∷ []);
                    })
                    store,
              )
              else (
                accepted kind (record { info = packet_info; payload = joined done ++ bytes }),
                Dict.remove packet_key store,
              ))
    receive-next now more index offset bytes done e store same h p small =
        let f : TdmaFragment = fragment_at more index offset in
        receive-settles now more index offset bytes store small
        ∙ ap (λ x. settle_entry packet_key kind (add_piece now f bytes x) store) same
        ∙ settle-next packet_info done offset e now kind f bytes packet_key store h p refl

    -- The fragments from one on, where those before it have come.
    receive_frames-from :
        (now : ℕ) (bytes : Bytes) (rest : List (ℕ × Bytes)) (index offset : ℕ)
        (done : SortedMap Bytes) (e : Reassembly) (store : ReassemblyStore)
        → entry_or_new
            (Dict.lookup packet_key (expire_reassembly r now store))
            (new_entry now packet_info kind)
          ≡ e
        → HasFirst packet_info done offset e
        → 0 < length bytes
        → AreInTime r now rest
        → offset + (length bytes + total_length rest) ≤ 67108864
        → receive_frames r (fragment_frames index offset ((now, bytes) ∷ rest)) store
          ≡ all_but_last_kept kind packet_info (joined done) ((now, bytes) ∷ rest)
    unfolding receive_frames receive_wire receive_messages AreInTime
    receive_frames-from now bytes [] index offset done e store same h p t small =
        ap (λ x. (x.0 ∷ []) ∷ [])
          (receive-next now false index offset bytes done e (expire_reassembly r now store) same h p
            (omega (arith, small)))
    receive_frames-from now bytes ((later, next) ∷ rest) index offset done e store same h p t
          small =
        let start : ReassemblyStore = expire_reassembly r now store in
        let after : SortedMap Bytes = done ++ ((offset, bytes) ∷ []) in
        let e2 : Reassembly = record e { last_update_us = now; total_len = none; pieces = after } in
        let store2 : ReassemblyStore = Dict.insert packet_key e2 start in
        let found : Dict.lookup packet_key (expire_reassembly r later store2) ≡ some e2 =
          lookup-expire r later packet_key e2 store2 t.0
            (Dict.lookup-insert_self packet_key e2 start) in
        let h2 : HasFirst packet_info after (offset + length bytes) e2 = record {
          same_info = h.same_info;
          no_total = refl;
          first_pieces = refl;
          follow = Follow-append 0 offset done bytes p h.follow;
        } in
        ap
          (λ x.
            (x.0 ∷ [])
            ∷ receive_frames r
                (fragment_frames (suc index) (offset + length bytes) ((later, next) ∷ rest)) x.1)
          (receive-next now true index offset bytes done e start same h p (omega (arith, small)))
        ∙ ap (λ l. (kept ∷ []) ∷ l)
            (receive_frames-from later next rest (suc index) (offset + length bytes) after e2 store2
                (ap (λ o. entry_or_new o (new_entry later packet_info kind)) found) h2 t.1 t.2
                (omega (arith, small))
              ∙ ap (λ b. all_but_last_kept kind packet_info b ((later, next) ∷ rest))
                  (joined-append done offset bytes))

    -- A packet for this node in fragments, each of one byte or more in a frame of its own, of 64 MiB at
    -- most: if they come in order, each before the entry of the packet is too old, and no entry is there
    -- under their key at first, then every fragment but the last is kept, and the last completes
    -- the packet, with the bytes of all fragments in order, whatever else waits in the store.
    pub receive_frames-completes :
        (now : ℕ) (bytes : Bytes) (rest : List (ℕ × Bytes)) (store : ReassemblyStore)
        → Dict.lookup packet_key store ≡ none
        → 0 < length bytes
        → AreInTime r now rest
        → length bytes + total_length rest ≤ 67108864
        → receive_frames r (fragment_frames 0 0 ((now, bytes) ∷ rest)) store
          ≡ all_but_last_kept kind packet_info [] ((now, bytes) ∷ rest)
    unfolding Follow
    receive_frames-completes now bytes rest store absent p t small =
        receive_frames-from now bytes rest 0 0 [] (new_entry now packet_info kind) store
          (ap (λ o. entry_or_new o (new_entry now packet_info kind))
            (lookup-expire_none r now packet_key store absent))
          (record { same_info = refl; no_total = refl; first_pieces = refl; follow = refl }) p t
          (omega (arith, small))
