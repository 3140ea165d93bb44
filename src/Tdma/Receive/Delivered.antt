-- ===== src/Tdma/Receive/Delivered.antt =====
-- What the reception of the TDMA model hands over is what was sent, over a sequence of frames.
use emane.Base.{
  ℕ, ◌+◌, ◌≡◌, refl, ap, ◌∙◌, true, not, ◌&&◌, ◌||◌, Option, none, some, List, [], ◌∷◌, length,
  take, ltb, ◌==◌, arith, take_all,
}
use emane.Base.Bytes.{Bytes}
use emane.Base.Dict
use emane.Tdma.Queue.{PacketInfo, MessageType}
use emane.Tdma.Receive.{
  TdmaFragment, TdmaMessage, FragmentKey, fragment_key_Eq, Reassembly, ReassemblyStore, Outcome,
  passed_over, accepted, Receiver, broadcast_nem, try_message_type, expire_reassembly, assemble,
  add_piece, new_entry, entry_or_new, is_total, settle_entry, receive_fragment, addressed,
  receive_typed, receive_message, receive_messages, receive_wire, Frame, receive_frames,
}
use emane.Tdma.Receive.Sound.{
  Sent, IsTotal, IsTrueStore, IsTrueEntry, IsTrueFragment, assemble-take, add_piece-IsTrueEntry,
  insert-IsTrueStore, remove-IsTrueStore, expire-IsTrueStore, lookup-IsTrueEntry, if-both,
}

module _ (sent : Sent) where
  -- A packet that is accepted has the payload that was sent.
  abbrev pub HasPayload : Bytes → Outcome → Type 0
  HasPayload payload (accepted kind p) = p.payload ≡ payload
  HasPayload payload _ = Unit {0}

  -- The outcome of a message and the store after it.
  abbrev IsGood : Bytes → Outcome × ReassemblyStore → Type 0
  IsGood payload r = HasPayload payload r.0 × IsTrueStore sent r.1

  total-length :
      (key : FragmentKey) (total : Option ℕ) (expected : ℕ)
      → IsTotal sent key total
      → is_total total expected ≡ true
      → expected ≡ length (sent.packet key)
  unfolding IsTotal
  total-length key none expected h e = cc
  total-length key (some n) expected h e = ground arith

  settle_entry-IsGood :
      (key : FragmentKey) (kind : MessageType) (entry : Reassembly) (store : ReassemblyStore)
      → IsTrueEntry sent key entry
      → IsTrueStore sent store
      → IsGood (sent.packet key) (settle_entry key kind entry store)
  unfolding settle_entry
  settle_entry-IsGood key kind entry store h all =
      let found : ℕ × Bytes = assemble entry.pieces 0 [] in
      if-both {A = Outcome × ReassemblyStore} (IsGood (sent.packet key))
        (is_total entry.total_len found.0)
        (λ whole.
          let size : found.0 ≡ length (sent.packet key) =
            total-length key entry.total_len found.0 h.1 whole in
          (
            assemble-take sent key entry.pieces 0 [] h.0 refl
                ∙ ap (λ n. take n (sent.packet key)) size
                ∙ take_all (length (sent.packet key)) (sent.packet key) (omega arith),
            remove-IsTrueStore sent key store all,
          ))
        (λ _. (tt, insert-IsTrueStore sent key entry store h all))

  abbrev info_key : PacketInfo → TdmaFragment → FragmentKey
  info_key info f = record { source = info.source; priority = info.priority; sequence = f.sequence }

  receive_fragment-IsGood :
      (now : ℕ) (info : PacketInfo) (kind : MessageType) (f : TdmaFragment) (bytes : Bytes)
      (store : ReassemblyStore)
      → IsTrueFragment sent (info_key info f) f bytes
      → IsTrueStore sent store
      → IsGood (sent.packet (info_key info f)) (receive_fragment now info kind f bytes store)
  unfolding receive_fragment
  receive_fragment-IsGood now info kind f bytes store h all =
      let before : Reassembly =
        entry_or_new (Dict.lookup (info_key info f) store) (new_entry now info kind) in
      if-both {A = Outcome × ReassemblyStore} (IsGood (sent.packet (info_key info f)))
        (ltb 67108864 (f.offset + length bytes)) (λ _. (tt, all))
        (λ _.
          settle_entry-IsGood (info_key info f) kind (add_piece now f bytes before) store
            (add_piece-IsTrueEntry sent (info_key info f) now f bytes before h
              (lookup-IsTrueEntry sent (info_key info f) store now info kind all))
            all)

  -- A message for this node. It has the payload of its fragment, or its own.
  abbrev fragment_payload : PacketInfo → Bytes → Option TdmaFragment → Bytes
  fragment_payload info bytes none = bytes
  fragment_payload info bytes (some f) = sent.packet (info_key info f)

  abbrev IsTrueBytes : PacketInfo → Bytes → Option TdmaFragment → Type 0
  IsTrueBytes info bytes none = Unit {0}
  IsTrueBytes info bytes (some f) = IsTrueFragment sent (info_key info f) f bytes

  addressed-IsGood :
      (now : ℕ) (info : PacketInfo) (kind : MessageType) (bytes : Bytes)
      (fragment : Option TdmaFragment) (store : ReassemblyStore)
      → IsTrueBytes info bytes fragment
      → IsTrueStore sent store
      → IsGood (fragment_payload info bytes fragment) (addressed now info kind bytes fragment store)
  addressed-IsGood now info kind bytes none store h all = (refl, all)
  addressed-IsGood now info kind bytes (some f) store h all =
      receive_fragment-IsGood now info kind f bytes store h all

  -- The address and the priority of a message in the place of those of its frame.
  abbrev pub addressed_info : PacketInfo → TdmaMessage → PacketInfo
  addressed_info sender m = record sender { destination = m.destination; priority = m.priority }

  receive_typed-IsGood :
      (r : Receiver) (now : ℕ) (sender : PacketInfo) (kind : MessageType) (m : TdmaMessage)
      (store : ReassemblyStore)
      → IsTrueBytes (addressed_info sender m) m.bytes m.fragment
      → IsTrueStore sent store
      → IsGood
          (fragment_payload (addressed_info sender m) m.bytes m.fragment)
          (receive_typed r now sender kind m store)
  unfolding receive_typed
  receive_typed-IsGood r now sender kind m store h all =
      let P : Outcome × ReassemblyStore → Type 0 =
        IsGood (fragment_payload (addressed_info sender m) m.bytes m.fragment) in
      if-both P (ltb 65535 m.destination || ltb 255 m.priority) (λ _. (tt, all))
        (λ _.
          if-both P
            (not r.promiscuous
              && not (m.destination == r.id)
              && not (m.destination == broadcast_nem))
            (λ _. (tt, all))
            (λ _.
              addressed-IsGood now (addressed_info sender m) kind m.bytes m.fragment store h all))

  receive_message-IsGood :
      (r : Receiver) (now : ℕ) (sender : PacketInfo) (m : TdmaMessage) (store : ReassemblyStore)
      → IsTrueBytes (addressed_info sender m) m.bytes m.fragment
      → IsTrueStore sent store
      → IsGood
          (fragment_payload (addressed_info sender m) m.bytes m.fragment)
          (receive_message r now sender m store)
  unfolding receive_message
  receive_message-IsGood r now sender m store h all = typed (try_message_type m.message_type)
    where
      typed :
          (found : Option MessageType)
          → IsGood (fragment_payload (addressed_info sender m) m.bytes m.fragment) (elim found [
            | none ↦ (passed_over, store)
            | some kind ↦ receive_typed r now sender kind m store
          ])
      typed none = (tt, all)
      typed (some kind) = receive_typed-IsGood r now sender kind m store h all

  -- Messages that carry true fragments, and outcomes that have their payloads.
  abbrev pub AllTrue : PacketInfo → List TdmaMessage → Type 0
  AllTrue sender [] = Unit {0}
  AllTrue sender (m ∷ ms) =
      IsTrueBytes (addressed_info sender m) m.bytes m.fragment × AllTrue sender ms

  abbrev pub AllTrueFrames : List Frame → Type 0
  AllTrueFrames [] = Unit {0}
  AllTrueFrames (f ∷ fs) = AllTrue f.sender f.messages × AllTrueFrames fs

  abbrev pub AllHavePayload : PacketInfo → List TdmaMessage → List Outcome → Type 0
  AllHavePayload sender [] [] = Unit {0}
  AllHavePayload sender (m ∷ ms) (o ∷ os) =
      HasPayload (fragment_payload (addressed_info sender m) m.bytes m.fragment) o
      × AllHavePayload sender ms os
  AllHavePayload sender _ _ = ⊥

  abbrev pub AllDelivered : List Frame → List (List Outcome) → Type 0
  AllDelivered [] [] = Unit {0}
  AllDelivered (f ∷ fs) (os ∷ rest) = AllHavePayload f.sender f.messages os × AllDelivered fs rest
  AllDelivered _ _ = ⊥

  receive_messages-AllHavePayload :
      (r : Receiver) (now : ℕ) (sender : PacketInfo) (ms : List TdmaMessage)
      (store : ReassemblyStore)
      → AllTrue sender ms
      → IsTrueStore sent store
      → AllHavePayload sender ms (receive_messages r now sender ms store).0
        × IsTrueStore sent (receive_messages r now sender ms store).1
  unfolding receive_messages
  receive_messages-AllHavePayload r now sender [] store h all = (tt, all)
  receive_messages-AllHavePayload r now sender (m ∷ ms) store h all =
      let (first, next) = receive_message-IsGood r now sender m store h.0 all in
      let (rest, last) =
        receive_messages-AllHavePayload r now sender ms (receive_message r now sender m store).1 h.1
          next in
      ((first, rest), last)

  receive_frames-after :
      (r : Receiver) (fs : List Frame) (store : ReassemblyStore)
      → AllTrueFrames fs
      → IsTrueStore sent store
      → AllDelivered fs (receive_frames r fs store)
  unfolding receive_frames receive_wire
  receive_frames-after r [] store h all = tt
  receive_frames-after r (f ∷ fs) store h all =
      let start : ReassemblyStore = expire_reassembly r f.now store in
      let (here, next) =
        receive_messages-AllHavePayload r f.now f.sender f.messages start h.0
          (expire-IsTrueStore sent r f.now store all) in
      (
        here,
        receive_frames-after r fs (receive_messages r f.now f.sender f.messages start).1 h.1 next,
      )

  -- Frames of any senders, received in any order, with messages lost, repeated or put in between: if
  -- each fragment carries the piece of its packet that was sent for its offset, and only the one at
  -- the packet's end says that no more follow, then every packet that is accepted from a fragment has the
  -- payload that was sent, and every one from a whole message the bytes of the message.
  pub receive_frames-AllDelivered :
      (r : Receiver) (fs : List Frame) → AllTrueFrames fs → AllDelivered fs (receive_frames r fs [])
  unfolding IsTrueStore
  receive_frames-AllDelivered r fs h = receive_frames-after r fs [] h tt
