-- ===== src/Ota/RoundTrip/Traffic.antt =====
-- A packet of several datagrams, from the sender's loop to the receiver's rounds, among other traffic.
use mathlib.Core.List.{Permᴰ}
use emane.Base.{
  ℕ, suc, ◌+◌, ◌<◌, ◌≡◌, ◌≢◌, refl, ap, sym, subst, ◌∙◌, inl, inr, Bool, true, Option, none, some,
  List, [], ◌∷◌, map, arith,
}
use emane.Base.Bytes.{Bytes}
use emane.Base.Dict
use emane.Base.SortedMap
use emane.Base.SortedMap.{SortedMap}
use emane.Base.SortedMap.Inserts.{
  inserts, AreDistinct, AreDistinct-perm, inserts-perm, inserts-IsSorted,
}
use emane.Ota.Types.{PartKey, part_key_Eq, PartsData, OtaHeader}
use emane.Ota.Send.{Sending, total_size, has_more, message, send_loop}
use emane.Ota.Send.Parts.{CanSend, piece, cut_at, cut_at-IsCut, cut_at-size, send_loop_lem}
use emane.Ota.Reassembly.Sound.{extended}
use emane.Ota.Reassembly.Cut.{
  IsCut, size, AreNonEmpty, IsCut-AreNonEmpty, IsCut-IsSorted, IsSorted-AreDistinct, size-perm,
  AreNonEmpty-perm, AreAbsent, AreAbsent-insert, AreAbsent-nil,
}
use emane.Ota.Receive.{Incoming, parse_datagram}
use emane.Ota.Manager.{OtaManager, Codec}
use emane.Ota.Manager.Loop.{cleanup, process_incoming, process_datagram}
use emane.Ota.Manager.Loop.Expiry.{cleanup-lookup}
use emane.Ota.RoundTrip.{
  key_of, part_at, AllWithin, AllWithin-perm, offsets-AllWithin, all_offsets, cut_at-perm,
}
use emane.Ota.RoundTrip.Datagrams.{CanReceive}
use emane.Ota.RoundTrip.Rounds.{
  rounds, for_key, IsOther, IsKept, HasSameSettings, cleanup-HasSameSettings, other-IsKept,
  other-for_key,
}
use emane.Ota.RoundTrip.Arrivals.{
  Arrival, own, other, own_offsets, AreOthers, AreTimely, list_cases, extended_time, datagrams,
  whole_message, IsAt, other-IsAt, with_part, part_length, own-IsStaged, own-stored, own-completed,
}

module _ (codec : Codec) (local_uuid : Bytes) (h : OtaHeader) (c : Sending) (v : CanSend c)
    (w : CanReceive codec.decode_header local_uuid h c) (several : has_more c 0 ≡ true) where
  abbrev total : ℕ
  total = total_size c.sections

  abbrev k : PartKey
  k = key_of h

  -- The rounds from a state on in which some parts of the packet have come.
  rounds-from :
      (m : OtaManager) (xs : List Arrival) (pieces : SortedMap Bytes) (n : ℕ) (last : Option ℕ)
      → m.uuid ≡ local_uuid
      → 0 < m.part_timeout_threshold
      → IsAt codec local_uuid h c v w several (Dict.lookup k m.part_store) pieces n last
      → AllWithin total (own_offsets xs)
      → AreOthers codec.decode_header local_uuid k xs
      → AreTimely m.part_timeout_threshold last xs
      → AreAbsent pieces (cut_at c (own_offsets xs))
      → AreDistinct (cut_at c (own_offsets xs))
      → AreNonEmpty (cut_at c (own_offsets xs))
      → inserts pieces (cut_at c (own_offsets xs)) ≡ cut_at c (all_offsets c)
      → n + size (cut_at c (own_offsets xs)) ≡ total
      → n < total
      → for_key k (rounds codec m (datagrams codec local_uuid h c v w several xs))
        ≡ (k, whole_message codec local_uuid h c v w several) ∷ []
  unfolding rounds process_datagram inserts
  rounds-from m [] pieces n last same pos a within others timely absent distinct nonempty cut sum
        more =
      absurd (omega (arith, sum, more))
  rounds-from m (other d now ∷ xs) pieces n last same pos a within others timely absent distinct
        nonempty cut sum more =
      let i : Incoming = parse_datagram codec.decode_header m.uuid d in
      let is_other : IsOther k i =
        subst (λ u. IsOther k (parse_datagram codec.decode_header u d)) (sym same) others.0 in
      let m' : OtaManager = (process_incoming codec m now i).0 in
      let kept : IsKept k now m m' = other-IsKept codec k m now i is_other in
      let more_own : own_offsets xs ≢ [] =
        λ e. absurd (omega (arith, sum, ap (λ l. size (cut_at c l)) e, more)) in
      other-for_key k m now i (rounds codec m' (datagrams codec local_uuid h c v w several xs))
        is_other
      ∙ rounds-from m' xs pieces n last (kept.settings.uuid ∙ same)
          (omega (arith, kept.settings.timeout, pos))
          (other-IsAt codec local_uuid h c v w several m m' pieces n last now xs kept timely.0
            more_own a)
          within others.1 (subst (λ t. AreTimely t last xs) (sym kept.settings.timeout) timely.1)
          absent distinct nonempty cut sum more
  rounds-from m (own o now ∷ xs) pieces n last same pos a within others timely absent distinct
        nonempty cut sum more =
      elim (list_cases (own_offsets xs)) [
        | inl none_own ↦
            own-completed codec local_uuid h c v w several m o now xs pieces n last same within.0 a
              absent.0 (omega (arith, sum, ap (λ l. size (cut_at c l)) none_own))
              (sym (
                  ap (λ l. inserts (SortedMap.insert o (piece c o).1 pieces) (cut_at c l)) none_own)
                ∙ cut)
              others none_own
        | inr (o2, os, some_own) ↦
            let left : 0 < size (cut_at c (own_offsets xs)) =
              subst (λ l. AreNonEmpty (cut_at c l) → 0 < size (cut_at c l)) (sym some_own)
                (λ ne. omega (arith, ne.0)) nonempty.1 in
            let room : n + part_length codec local_uuid h c v w several o < total =
              omega (arith, sum, left) in
            let e : PartsData = extended m.part_store (part_at h c o) now in
            let m' : OtaManager =
              (cleanup (with_part codec local_uuid h c v w several m o now) now).0 in
            let time : e.last_part_time ≡ now = extended_time m.part_store (part_at h c o) now in
            let settings : HasSameSettings (with_part codec local_uuid h c v w several m o now) m' =
              cleanup-HasSameSettings (with_part codec local_uuid h c v w several m o now) now in
            let found : Dict.lookup k m'.part_store ≡ some e =
              cleanup-lookup (with_part codec local_uuid h c v w several m o now) now k e
                (Dict.lookup-insert_self k e m.part_store) (omega (arith, time, pos)) in
            let at_entry : IsAt codec local_uuid h c v w several (some e)
                (SortedMap.insert o (piece c o).1 pieces)
                (n + part_length codec local_uuid h c v w several o) (some now) =
              (
                own-IsStaged codec local_uuid h c v w several m o now pieces n last within.0 a
                    absent.0 (omega (arith, room)),
                ap some (sym time),
              ) in
            own-stored codec local_uuid h c v w several m o now
              (datagrams codec local_uuid h c v w several xs) pieces n last same within.0 a absent.0
              room
            ∙ rounds-from m' xs (SortedMap.insert o (piece c o).1 pieces)
                (n + part_length codec local_uuid h c v w several o) (some now)
                (settings.uuid ∙ same) (omega (arith, settings.timeout, pos))
                (subst
                  (λ x.
                    IsAt codec local_uuid h c v w several x
                      (SortedMap.insert o (piece c o).1 pieces)
                      (n + part_length codec local_uuid h c v w several o) (some now))
                  (sym found) at_entry)
                within.1 others
                (subst (λ t. AreTimely t (some now) xs) (sym settings.timeout) timely)
                (AreAbsent-insert o (piece c o).1 pieces (cut_at c (own_offsets xs)) distinct.0
                  absent.1)
                distinct.1 nonempty.1 cut (omega (arith, sum)) room
      ]

  -- A packet that takes several datagrams codec local_uuid h c v w several, which the socket takes all and whose header the receiver,
  -- another emulator, decodes: the loop sends one for each part and reports success. A receiver whose timeout
  -- for parts is not 0, with no part of the same source and sequence number, runs its rounds, each with
  -- its cleanup, on those datagrams codec local_uuid h c v w several in any order, with any other datagrams codec local_uuid h c v w several between them that carry
  -- no part of that source and sequence number. If each of these others comes within the
  -- timeout after the packet's last part, or after all of its parts, then under that source and sequence number the
  -- rounds hand one message to `handle_ota_message`, the whole packet with its lengths and UUID.
  pub packet_round_trip :
      (send_to : Bytes → Bool) (m : OtaManager) (xs : List Arrival)
      → ((d : Bytes) → send_to d ≡ true)
      → 0 < total
      → m.uuid ≡ local_uuid
      → 0 < m.part_timeout_threshold
      → Dict.lookup k m.part_store ≡ none
      → Permᴰ (all_offsets c) (own_offsets xs)
      → AreOthers codec.decode_header local_uuid k xs
      → AreTimely m.part_timeout_threshold none xs
      → (send_loop send_to (suc total) c 0 ≡ (map (message c) (all_offsets c), true))
        × (for_key k (rounds codec m (datagrams codec local_uuid h c v w several xs))
            ≡ (k, whole_message codec local_uuid h c v w several) ∷ [])
  packet_round_trip send_to m xs good pos same timeout absent perm others timely =
      let fuel : ℕ = suc total in
      let cut : SortedMap Bytes = cut_at c (all_offsets c) in
      let is_cut : IsCut 0 cut = cut_at-IsCut fuel c 0 v in
      let sorted = IsCut-IsSorted 0 cut is_cut in
      let distinct = IsSorted-AreDistinct cut sorted in
      let perm_cut = cut_at-perm c perm in
      (
        send_loop_lem send_to good fuel c 0 v (omega arith) (omega arith),
        rounds-from m xs [] 0 none same timeout
            (subst (λ x. IsAt codec local_uuid h c v w several x [] 0 none) (sym absent)
              (refl, refl))
            (AllWithin-perm total perm (offsets-AllWithin fuel c 0)) others timely
            (AreAbsent-nil (cut_at c (own_offsets xs))) (AreDistinct-perm perm_cut distinct)
            (AreNonEmpty-perm perm_cut (IsCut-AreNonEmpty 0 cut is_cut))
            (sym (inserts-perm perm_cut distinct []) ∙ inserts-IsSorted cut sorted)
            (omega (arith, size-perm perm_cut, cut_at-size fuel c 0 v (omega arith) (omega arith)))
            pos,
      )
