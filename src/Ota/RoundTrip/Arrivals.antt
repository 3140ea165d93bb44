-- ===== src/Ota/RoundTrip/Arrivals.antt =====
-- The rounds of a packet's datagrams, and of other datagrams between them, one at a time.
use emane.Base.{
  ℕ, suc, ◌+◌, ◌-◌, ◌≤◌, ◌<◌, ◌≡◌, ◌≢◌, refl, ap, sym, subst, ◌∙◌, ◌⊎◌, inl, inr, true, Option,
  none, some, List, [], ◌∷◌, ◌++◌, length, arith, Option-cases,
}
use emane.Base.Bytes.{Bytes}
use emane.Base.Dict
use emane.Base.SortedMap
use emane.Base.SortedMap.{SortedMap}
use emane.Ota.Types.{
  PartKey, part_key_Eq, part_key_eq, part_key_eq_iff, PartsData, PartStore, OtaHeader, OtaMessage,
}
use emane.Ota.Send.{Sending, total_size, has_more, message}
use emane.Ota.Send.Gather.{payload}
use emane.Ota.Send.Parts.{CanSend, piece, cut_at, cut_at-IsCut, cut_at-size, cut_at-concat}
use emane.Ota.Reassembly.{
  Part, Reassembled, Outcome, stored, completed, completion, add_part, accept_part, finish,
}
use emane.Ota.Reassembly.Sound.{extended}
use emane.Ota.Reassembly.Staged.{
  AtStage, IsStaged, accept_part-finish, step_stored, step_completed, extended-IsStaged,
}
use emane.Ota.Receive.{Incoming, fragment, parse_datagram}
use emane.Ota.Manager.{OtaManager, Codec}
use emane.Ota.Manager.Loop.{
  cleanup, handle_then_cleanup, reassembled_message, after_part, process_incoming, process_datagram,
}
use emane.Ota.RoundTrip.{
  info_of, key_of, part_at, all_offsets, part_at-Belongs, expected_total-info,
}
use emane.Ota.RoundTrip.Datagrams.{CanReceive, parse-message}
use emane.Ota.RoundTrip.Rounds.{
  handed_over, rounds, for_key, handle_then_cleanup-IsKept, IsOther, IsKept, other-IsKept,
  other-for_key,
}

-- A datagram that arrives at a time: the one of the packet at an offset, or another one.
pub data Arrival : Type 0 where
  own : ℕ → ℕ → Arrival
  other : Bytes → ℕ → Arrival

abbrev pub own_offsets : List Arrival → List ℕ
own_offsets [] = []
own_offsets (own o now ∷ xs) = o ∷ own_offsets xs
own_offsets (other d now ∷ xs) = own_offsets xs

-- Whether the other datagrams carry no part under a key.
abbrev pub AreOthers : (Bytes → Option OtaHeader) → Bytes → PartKey → List Arrival → Type 0
AreOthers decode local_uuid k [] = Unit {0}
AreOthers decode local_uuid k (own o now ∷ xs) = AreOthers decode local_uuid k xs
AreOthers decode local_uuid k (other d now ∷ xs) =
    IsOther k (parse_datagram decode local_uuid d) × AreOthers decode local_uuid k xs

-- Between the parts of the packet, every other datagram comes within the timeout after the last part.
abbrev pub IsSoon : ℕ → Option ℕ → ℕ → List Arrival → Type 0
IsSoon timeout none now xs = Unit {0}
IsSoon timeout (some last) now xs = (now - last < timeout) ⊎ (own_offsets xs ≡ [])

abbrev pub AreTimely : ℕ → Option ℕ → List Arrival → Type 0
AreTimely timeout last [] = Unit {0}
AreTimely timeout last (own o now ∷ xs) = AreTimely timeout (some now) xs
AreTimely timeout last (other d now ∷ xs) = IsSoon timeout last now xs × AreTimely timeout last xs

pub list_cases {ℓ} :
    {A : Type ℓ} (xs : List A) → (xs ≡ []) ⊎ ((x : A) × (ys : List A) × (xs ≡ x ∷ ys))
list_cases [] = inl refl
list_cases (x ∷ xs) = inr (x, xs, refl)

pub extended_time :
    (store : PartStore) (p : Part) (now : ℕ) → (extended store p now).last_part_time ≡ now
unfolding add_part
extended_time store p now = refl

module _ (codec : Codec) (local_uuid : Bytes) (h : OtaHeader) (c : Sending) (v : CanSend c)
    (w : CanReceive codec.decode_header local_uuid h c) (several : has_more c 0 ≡ true) where
  abbrev total : ℕ
  total = total_size c.sections

  abbrev k : PartKey
  k = key_of h

  -- The datagrams of some arrivals, with their times.
  abbrev pub datagrams : List Arrival → List (Bytes × ℕ)
  datagrams [] = []
  datagrams (own o now ∷ xs) = (message c o, now) ∷ datagrams xs
  datagrams (other d now ∷ xs) = (d, now) ∷ datagrams xs

  -- The whole packet, as the receiver hands it to `handle_ota_message`.
  abbrev pub whole_message : OtaMessage
  whole_message = record {
    source = h.source;
    destination = h.destination;
    uuid = h.uuid;
    events_size = length c.sections.events;
    controls_size = length c.sections.controls;
    data_size = length c.sections.packet;
    payload = payload c.sections;
  }

  -- What is stored under the key: nothing, or some pieces, of which the last came at `last`.
  abbrev pub IsAt : Option PartsData → SortedMap Bytes → ℕ → Option ℕ → Type 0
  IsAt none pieces n last = (pieces ≡ []) × (n ≡ 0)
  IsAt (some e) pieces n last =
      IsStaged k h.uuid (info_of c.sections) total e pieces n × (last ≡ some e.last_part_time)

  IsAt-AtStage :
      (o : Option PartsData) (pieces : SortedMap Bytes) (n : ℕ) (last : Option ℕ)
      → IsAt o pieces n last
      → AtStage k h.uuid (info_of c.sections) total o pieces n
  IsAt-AtStage none pieces n last a = a
  IsAt-AtStage (some e) pieces n last a = a.0

  pub others-for_key :
      (m : OtaManager) (xs : List Arrival)
      → m.uuid ≡ local_uuid
      → AreOthers codec.decode_header local_uuid k xs
      → own_offsets xs ≡ []
      → for_key k (rounds codec m (datagrams xs)) ≡ []
  unfolding rounds process_datagram
  others-for_key m [] same others none_own = refl
  others-for_key m (own o now ∷ xs) same others none_own = cc
  others-for_key m (other d now ∷ xs) same others none_own =
      let i : Incoming = parse_datagram codec.decode_header m.uuid d in
      let is_other : IsOther k i =
        subst (λ u. IsOther k (parse_datagram codec.decode_header u d)) (sym same) others.0 in
      other-for_key k m now i (rounds codec (process_incoming codec m now i).0 (datagrams xs))
        is_other
      ∙ others-for_key (process_incoming codec m now i).0 xs
          ((other-IsKept codec k m now i is_other).settings.uuid ∙ same) others.1 none_own

  pub other-IsAt :
      (m m' : OtaManager) (pieces : SortedMap Bytes) (n : ℕ) (last : Option ℕ) (now : ℕ)
      (xs : List Arrival)
      → IsKept k now m m'
      → IsSoon m.part_timeout_threshold last now xs
      → own_offsets xs ≢ []
      → IsAt (Dict.lookup k m.part_store) pieces n last
      → IsAt (Dict.lookup k m'.part_store) pieces n last
  other-IsAt m m' pieces n last now xs kept soon more a =
      elim (Option-cases (Dict.lookup k m.part_store)) [
        | inl e ↦ subst (λ o. IsAt o pieces n last) (e ∙ sym (kept.absent e)) a
        | inr (entry, e) ↦
            let at_entry : IsAt (some entry) pieces n last =
              subst (λ o. IsAt o pieces n last) e a in
            elim (subst (λ l. IsSoon m.part_timeout_threshold l now xs) at_entry.1 soon) [
              | inl recent ↦
                  subst (λ o. IsAt o pieces n last) (sym (kept.entry entry e recent)) at_entry
              | inr finished ↦ absurd (more finished)
            ]
      ]

  -- The first facts of a part's round: what `accept_part` makes of it.
  own-accept :
      (m : OtaManager) (o now : ℕ) (pieces : SortedMap Bytes) (n : ℕ) (last : Option ℕ)
      → o < total
      → IsAt (Dict.lookup k m.part_store) pieces n last
      → accept_part m.part_store (part_at h c o) now
        ≡ finish m.part_store (part_at h c o) (extended m.part_store (part_at h c o) now) total
  own-accept m o now pieces n last b a =
      accept_part-finish k h.uuid (info_of c.sections) total m.part_store (part_at h c o) now pieces
        n v.limit (expected_total-info c v) (part_at-Belongs h c o v b)
        (IsAt-AtStage (Dict.lookup k m.part_store) pieces n last a)

  parse-own :
      (m : OtaManager) (o : ℕ)
      → m.uuid ≡ local_uuid
      → o < total
      → parse_datagram codec.decode_header m.uuid (message c o) ≡ fragment h (part_at h c o)
  parse-own m o same b =
      ap (λ u. parse_datagram codec.decode_header u (message c o)) same
      ∙ parse-message codec.decode_header local_uuid h c v w o b several

  own-round :
      (m : OtaManager) (o now : ℕ) (ds : List (Bytes × ℕ)) (r : PartStore × Outcome)
      → m.uuid ≡ local_uuid
      → o < total
      → accept_part m.part_store (part_at h c o) now ≡ r
      → for_key k (rounds codec m ((message c o, now) ∷ ds))
        ≡ for_key k (
            (elim (completion r.1) [ none ↦ [] | some d ↦ (k, reassembled_message h d) ∷ [] ])
            ++ rounds codec (after_part codec m now h r).0 ds)
  unfolding rounds process_datagram process_incoming handed_over
  own-round m o now ds r same b e =
      ap
        (λ i. for_key k (handed_over m now i ++ rounds codec (process_incoming codec m now i).0 ds))
        (parse-own m o same b)
      ∙ ap
          (λ x. for_key k (
            (elim (completion x.1) [ none ↦ [] | some d ↦ (k, reassembled_message h d) ∷ [] ])
            ++ rounds codec (after_part codec m now h x).0 ds))
          e

  -- The manager with a part put into its entry.
  abbrev pub with_part : OtaManager → ℕ → ℕ → OtaManager
  with_part m o now = record m {
    part_store = Dict.insert k (extended m.part_store (part_at h c o) now) m.part_store;
  }

  abbrev pub part_length : ℕ → ℕ
  part_length o = length (piece c o).1

  pub own-IsStaged :
      (m : OtaManager) (o now : ℕ) (pieces : SortedMap Bytes) (n : ℕ) (last : Option ℕ)
      → o < total
      → IsAt (Dict.lookup k m.part_store) pieces n last
      → SortedMap.lookup o pieces ≡ none
      → n + part_length o ≤ total
      → IsStaged k h.uuid
          (info_of c.sections)
          total
          (extended m.part_store (part_at h c o) now)
          (SortedMap.insert o (piece c o).1 pieces)
          (n + part_length o)
  own-IsStaged m o now pieces n last b a absent u =
      extended-IsStaged k h.uuid (info_of c.sections) total m.part_store (part_at h c o) now pieces
        n (part_at-Belongs h c o v b) (IsAt-AtStage (Dict.lookup k m.part_store) pieces n last a)
        absent (omega (arith, u, v.limit))

  pub own-stored :
      (m : OtaManager) (o now : ℕ) (ds : List (Bytes × ℕ)) (pieces : SortedMap Bytes) (n : ℕ)
      (last : Option ℕ)
      → m.uuid ≡ local_uuid
      → o < total
      → IsAt (Dict.lookup k m.part_store) pieces n last
      → SortedMap.lookup o pieces ≡ none
      → n + part_length o < total
      → for_key k (rounds codec m ((message c o, now) ∷ ds))
        ≡ for_key k (rounds codec (cleanup (with_part m o now) now).0 ds)
  unfolding after_part
  own-stored m o now ds pieces n last same b a absent u =
      let e : PartsData = extended m.part_store (part_at h c o) now in
      let staged = own-IsStaged m o now pieces n last b a absent (omega (arith, u)) in
      own-round m o now ds (Dict.insert k e m.part_store, stored) same b
        (own-accept m o now pieces n last b a
          ∙ step_stored k h.uuid (info_of c.sections) total m.part_store (part_at h c o) now e
              (n + part_length o) staged.total_size u)

  pub own-completed :
      (m : OtaManager) (o now : ℕ) (xs : List Arrival) (pieces : SortedMap Bytes) (n : ℕ)
      (last : Option ℕ)
      → m.uuid ≡ local_uuid
      → o < total
      → IsAt (Dict.lookup k m.part_store) pieces n last
      → SortedMap.lookup o pieces ≡ none
      → n + part_length o ≡ total
      → SortedMap.insert o (piece c o).1 pieces ≡ cut_at c (all_offsets c)
      → AreOthers codec.decode_header local_uuid k xs
      → own_offsets xs ≡ []
      → for_key k (rounds codec m ((message c o, now) ∷ datagrams xs)) ≡ (k, whole_message) ∷ []
  unfolding after_part
  own-completed m o now xs pieces n last same b a absent u cut others none_own =
      let fuel : ℕ = suc total in
      let e : PartsData = extended m.part_store (part_at h c o) now in
      let staged = own-IsStaged m o now pieces n last b a absent (omega (arith, u)) in
      let at_end : IsStaged k h.uuid (info_of c.sections) total e (cut_at c (all_offsets c)) total =
        subst (λ t. IsStaged k h.uuid (info_of c.sections) total e (cut_at c (all_offsets c)) t) u
          (subst (λ t. IsStaged k h.uuid (info_of c.sections) total e t (n + part_length o)) cut
            staged) in
      let r : Reassembled = record {
        uuid = h.uuid;
        events_size = length c.sections.events;
        controls_size = length c.sections.controls;
        data_size = length c.sections.packet;
        payload = payload c.sections;
      } in
      let m' : OtaManager = record m { part_store = Dict.remove k m.part_store } in
      let accepted : accept_part m.part_store (part_at h c o) now
          ≡ (Dict.remove k m.part_store, completed r) =
        own-accept m o now pieces n last b a
        ∙ step_completed k h.uuid (info_of c.sections) total m.part_store (part_at h c o) e
            (cut_at c (all_offsets c)) (omega (arith, v.limit)) (cut_at-IsCut fuel c 0 v)
            (omega (arith, cut_at-size fuel c 0 v (omega arith) (omega arith))) at_end
        ∙ ap (λ t. (Dict.remove k m.part_store, completed (record r { payload = t })))
            (cut_at-concat fuel c 0 v (omega arith) (omega arith)) in
      let kept =
        handle_then_cleanup-IsKept codec k now m' m' (reassembled_message h r)
          (record { uuid = refl; timeout = refl }) refl in
      own-round m o now (datagrams xs) (Dict.remove k m.part_store, completed r) same b accepted
      ∙ (let self : part_key_eq k k ≡ true = (part_key_eq_iff k k).1 refl in
          rw self (
            ap (λ l. (k, whole_message) ∷ l)
              (others-for_key (handle_then_cleanup codec m' now (reassembled_message h r)).0 xs
                (kept.settings.uuid ∙ same) others none_own)))
