-- ===== src/Ota/Manager/Messages.antt =====
-- What `handle_ota_message` hands on.
use emane.Base.{
  ℕ, ◌+◌, ◌-◌, ◌≤◌, ◌<◌, ◌≡◌, refl, ap, sym, ◌∙◌, true, false, not, ◌||◌, none, some, List, [], ◌∷◌,
  ◌++◌, length, map, filter, flatten, fun_ext, ◌==◌, take, drop, ltb, take-append_length,
  drop-append_length, take_all, drop-drop, length-append, arith,
}
use emane.Base.Bytes.{Bytes}
use emane.Base.Dict.{Dict}
use emane.Ota.Types.{max_ota_payload, saturating_add, OtaMessage}
use emane.Ota.Reassembly.{expected_total}
use emane.Ota.Manager.{
  OtaUser, OtaManager, Serialization, Effect, route_event, count_event, count_packet, upstream,
  Codec, event_effects, all_users, info_of, callbacks, events_of, controls_of, data_of,
  deliver_events, deliver_data, handle_ota_message,
}

-- A message cut in three: its lengths are those of its events, its controls and its packet, which
-- are its payload, within the limit.
pub record IsCut (msg : OtaMessage) (events controls packet : Bytes) : Type 0 where
  pub payload : msg.payload ≡ events ++ (controls ++ packet)
  pub events_size : msg.events_size ≡ length events
  pub controls_size : msg.controls_size ≡ length controls
  pub data_size : msg.data_size ≡ length packet
  pub limit : length events + length controls + length packet ≤ max_ota_payload

-- Every event whose ids are `u16`s is routed, then counted.
abbrev pub routed : Bytes → List Serialization → List Effect
routed uuid ss = flatten (
    map (λ s. route_event s.nem_id s.event_id s.bytes ∷ count_event uuid s.event_id true ∷ [])
      (filter (λ s. not (ltb 65535 s.nem_id || ltb 65535 s.event_id)) ss))

abbrev pub announced : Codec → OtaMessage → Bytes → List Effect
announced codec msg [] = []
announced codec msg (b ∷ bytes) = elim (codec.decode_events (b ∷ bytes)) [
  | none ↦ []
  | some ss ↦ routed msg.uuid ss
]

-- A packet that is not empty is counted, then each user of any NEM with a callback gets it, in order.
abbrev pub delivered : OtaManager → OtaMessage → Bytes → Bytes → OtaManager × List Effect
delivered m msg controls [] = (m, [])
delivered m msg controls (b ∷ bytes) = (
  record m { upstream_packets = m.upstream_packets + 1 },
  count_packet msg.uuid msg.source 1
      ∷ map (λ u. upstream u msg (b ∷ bytes) controls)
          (filter (λ u. u.has_callback) (flatten (map (λ p. p.1) m.nem_users))),
)

all_users-flatten : (d : Dict ℕ (List OtaUser)) → all_users d ≡ flatten (map (λ p. p.1) d)
unfolding all_users
all_users-flatten [] = refl
all_users-flatten ((id, us) ∷ d) = ap (λ xs. us ++ xs) (all_users-flatten d)

callbacks-map :
    (us : List OtaUser) (msg : OtaMessage) (packet controls : Bytes)
    → callbacks us msg packet controls
      ≡ map (λ u. upstream u msg packet controls) (filter (λ u. u.has_callback) us)
unfolding callbacks
callbacks-map [] msg packet controls = refl
callbacks-map (u ∷ us) msg packet controls = ground (arith, callbacks-map us msg packet controls)

event_effects-routed :
    (uuid : Bytes) (ss : List Serialization) → event_effects uuid ss ≡ routed uuid ss
unfolding event_effects
event_effects-routed uuid [] = refl
event_effects-routed uuid (s ∷ ss) = ground (arith, event_effects-routed uuid ss)

announced_lem :
    (codec : Codec) (msg : OtaMessage) (events : Bytes)
    → msg.events_size ≡ length events
    → events_of msg ≡ events
    → deliver_events codec msg ≡ announced codec msg events
unfolding deliver_events
announced_lem codec msg [] size same = ground (arith, size)
announced_lem codec msg (b ∷ bytes) size same =
    let some_events : ltb 0 msg.events_size ≡ true = ground (arith, size) in
    rw some_events (
      rw same (
        ap (λ f. elim (codec.decode_events (b ∷ bytes)) [ none ↦ [] | some ss ↦ f ss ])
          (fun_ext (event_effects-routed msg.uuid))))

delivered_lem :
    (m : OtaManager) (msg : OtaMessage) (controls packet : Bytes)
    → m.upstream_packets < 18446744073709551615
    → msg.data_size ≡ length packet
    → data_of msg ≡ packet
    → controls_of msg ≡ controls
    → deliver_data m msg ≡ delivered m msg controls packet
unfolding deliver_data
delivered_lem m msg controls [] u size same same_controls = ground (arith, size)
delivered_lem m msg controls (b ∷ bytes) u size same same_controls =
    let some_data : ltb 0 msg.data_size ≡ true = ground (arith, size) in
    let counted : saturating_add m.upstream_packets 1 ≡ m.upstream_packets + 1 =
      ground (arith, u) in
    rw some_data (
      rw counted (
        rw same (
          rw same_controls (
            rw (callbacks-map (all_users m.nem_users) msg (b ∷ bytes) controls)
              (rw (all_users-flatten m.nem_users))))))

sections_total :
    (msg : OtaMessage) (events controls packet : Bytes)
    → IsCut msg events controls packet
    → expected_total (info_of msg) ≡ some (length msg.payload)
unfolding expected_total
sections_total msg events controls packet h =
    let whole : length msg.payload ≡ length events + (length controls + length packet) =
      ap length h.payload
      ∙ length-append events (controls ++ packet)
      ∙ ap (λ n. length events + n) (length-append controls packet) in
    ground (arith, whole, h.events_size, h.controls_size, h.data_size, h.limit)

in_limit :
    (msg : OtaMessage) (events controls packet : Bytes)
    → IsCut msg events controls packet
    → (not (length msg.payload == length msg.payload) || ltb max_ota_payload (length msg.payload))
      ≡ false
in_limit msg events controls packet h =
    let whole : length msg.payload ≡ length events + (length controls + length packet) =
      ap length h.payload
      ∙ length-append events (controls ++ packet)
      ∙ ap (λ n. length events + n) (length-append controls packet) in
    ground (arith, whole, h.limit)

module _ (msg : OtaMessage) (events controls packet : Bytes)
    (h : IsCut msg events controls packet) where
  events_of-IsCut : events_of msg ≡ events
  unfolding events_of
  events_of-IsCut =
      ap (take (msg.events_size - 0)) h.payload
      ∙ take-append_length (msg.events_size - 0) events (controls ++ packet)
          (omega (arith, h.events_size))

  after_events : drop msg.events_size msg.payload ≡ controls ++ packet
  after_events =
      ap (drop msg.events_size) h.payload
      ∙ drop-append_length msg.events_size events (controls ++ packet) h.events_size

  controls_of-IsCut : controls_of msg ≡ controls
  unfolding controls_of
  controls_of-IsCut =
      ap (take (msg.events_size + msg.controls_size - msg.events_size)) after_events
      ∙ take-append_length (msg.events_size + msg.controls_size - msg.events_size) controls packet
          (omega (arith, h.controls_size))

  data_of-IsCut : data_of msg ≡ packet
  unfolding data_of
  data_of-IsCut =
      let n : ℕ =
        msg.events_size
        + msg.controls_size
        + msg.data_size
        - (msg.events_size + msg.controls_size) in
      ap (take n) (
        sym (drop-drop msg.controls_size msg.events_size msg.payload)
        ∙ ap (drop msg.controls_size) after_events
        ∙ drop-append_length msg.controls_size controls packet h.controls_size)
      ∙ take_all n packet (omega (arith, h.data_size))

  deliver_events-announced : (codec : Codec) → deliver_events codec msg ≡ announced codec msg events
  deliver_events-announced codec = announced_lem codec msg events h.events_size events_of-IsCut

  deliver_data-delivered :
      (m : OtaManager)
      → m.upstream_packets < 18446744073709551615
      → deliver_data m msg ≡ delivered m msg controls packet
  deliver_data-delivered m u =
      delivered_lem m msg controls packet u h.data_size data_of-IsCut controls_of-IsCut

-- A message within the limit, whose lengths are those of events, controls and a packet that make up its
-- payload, is accepted. Events, if there are any, are decoded, and each with ids that are `u16`s is
-- routed to its NEM and counted. A packet that is not empty counts one up, while the counter has not
-- reached its maximum, is noted for its source, and is handed with the controls to every user of
-- any NEM that has a callback, in their order; nothing else happens.
pub handle_ota_message_accepted :
    (codec : Codec) (m : OtaManager) (msg : OtaMessage) (events controls packet : Bytes)
    → IsCut msg events controls packet
    → m.upstream_packets < 18446744073709551615
    → handle_ota_message codec m msg ≡ (
      (delivered m msg controls packet).0,
      true,
      announced codec msg events ++ (delivered m msg controls packet).1,
    )
unfolding handle_ota_message
handle_ota_message_accepted codec m msg events controls packet h u =
    let size : expected_total (info_of msg) ≡ some (length msg.payload) =
      sections_total msg events controls packet h in
    let fits : (not (length msg.payload == length msg.payload)
          || ltb max_ota_payload (length msg.payload))
        ≡ false =
      in_limit msg events controls packet h in
    rw (size, handle_ota_message)
      (rw fits (
        rw (deliver_events-announced msg events controls packet h codec)
          (rw (deliver_data-delivered msg events controls packet h m u))))
