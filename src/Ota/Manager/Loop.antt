-- ===== src/Ota/Manager/Loop.antt =====
-- One round of `emane_rs_ota_manager_process_loop`: a datagram, and the cleanup of old parts.
pub mod Expiry
use emane.Base.{ℕ, ◌+◌, ◌-◌, Bool, List, [], ◌∷◌, ◌++◌, length, leb, if◌then◌else◌}
use emane.Base.Bytes.{Bytes}
use emane.Ota.Types.{saturating_add, PartKey, PartsData, PartStore, OtaHeader, OtaMessage}
use emane.Ota.Reassembly.{Part, Reassembled, Outcome, rejected, stored, completed, accept_part}
use emane.Ota.Receive.{Incoming, ignored, skipped, single, fragment, parse_datagram}
use emane.Ota.Manager.{OtaManager, Effect, count_packet, Codec, handle_ota_message}

-- Whether an entry has had no part for as long as the threshold.
unfoldable pub is_expired : ℕ → ℕ → PartsData → Bool
is_expired threshold now e = leb threshold (now - e.last_part_time)

unfoldable pub retain_parts : ℕ → ℕ → PartStore → PartStore
retain_parts threshold now [] = []
retain_parts threshold now ((k, e) ∷ store) =
    if is_expired threshold now e
    then retain_parts threshold now store
    else (k, e) ∷ retain_parts threshold now store

-- The UUID and the source of each entry that is removed.
unfoldable pub expired_parts : ℕ → ℕ → PartStore → List (Bytes × ℕ)
expired_parts threshold now [] = []
expired_parts threshold now ((k, e) ∷ store) =
    if is_expired threshold now e
    then (e.uuid, k.source) ∷ expired_parts threshold now store
    else expired_parts threshold now store

unfoldable pub drop_effects : List (Bytes × ℕ) → List Effect
drop_effects [] = []
drop_effects ((uuid, source) ∷ expired) = count_packet uuid source 2 ∷ drop_effects expired

unfoldable pub cleanup : OtaManager → ℕ → OtaManager × List Effect
cleanup m now =
    if leb m.part_check_threshold (now - m.last_part_check_time)
    then (let expired = expired_parts m.part_timeout_threshold now m.part_store in
        (
          record m {
            part_store = retain_parts m.part_timeout_threshold now m.part_store;
            last_part_check_time = now;
            reassembly_timeouts = saturating_add m.reassembly_timeouts (length expired);
          },
          drop_effects expired,
        ))
    else (m, [])

-- A message is handled, and the round goes on to the cleanup.
unfoldable pub handle_then_cleanup : Codec → OtaManager → ℕ → OtaMessage → OtaManager × List Effect
handle_then_cleanup codec m now msg =
    let (m', _, effects) = handle_ota_message codec m msg in
    let (m'', dropped) = cleanup m' now in (m'', effects ++ dropped)

abbrev pub reassembled_message : OtaHeader → Reassembled → OtaMessage
reassembled_message h r = record {
  source = h.source;
  destination = h.destination;
  uuid = r.uuid;
  events_size = r.events_size;
  controls_size = r.controls_size;
  data_size = r.data_size;
  payload = r.payload;
}

unfoldable pub after_part :
    Codec → OtaManager → ℕ → OtaHeader → PartStore × Outcome → OtaManager × List Effect
after_part codec m now h (store, rejected) = (record m { part_store = store }, [])
after_part codec m now h (store, stored) = cleanup (record m { part_store = store }) now
after_part codec m now h (store, completed r) =
    handle_then_cleanup codec (record m { part_store = store }) now (reassembled_message h r)

unfoldable pub process_incoming : Codec → OtaManager → ℕ → Incoming → OtaManager × List Effect
unfolding after_part
process_incoming codec m now ignored = cleanup m now
process_incoming codec m now skipped = (m, [])
process_incoming codec m now (single msg) = handle_then_cleanup codec m now msg
process_incoming codec m now (fragment h p) =
    after_part codec m now h (accept_part m.part_store p now)

unfoldable pub process_datagram : Codec → OtaManager → ℕ → Bytes → OtaManager × List Effect
process_datagram codec m now d =
    process_incoming codec m now (parse_datagram codec.decode_header m.uuid d)
