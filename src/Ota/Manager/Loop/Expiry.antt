-- ===== src/Ota/Manager/Loop/Expiry.antt =====
-- The cleanup of parts whose packet has stalled.
use emane.Base.{
  ℕ, ◌+◌, ◌-◌, ◌≤◌, ◌<◌, ◌≡◌, refl, Bool, not, false, some, [], ◌∷◌, length, map, filter, ltb, leb,
  if◌then◌else◌, arith,
}
use emane.Base.Dict
use emane.Ota.Types.{usize_mod, saturating_add, PartKey, part_key_Eq, PartsData, PartStore}
use emane.Ota.Manager.{OtaManager, count_packet}
use emane.Ota.Manager.Loop.{is_expired, retain_parts, expired_parts, drop_effects, cleanup}

-- Whether the last part of an entry came within a threshold.
abbrev pub is_recent : ℕ → ℕ → PartKey × PartsData → Bool
is_recent threshold now (k, e) = ltb (now - e.last_part_time) threshold

-- The entries whose last part is not recent.
abbrev pub stalled : ℕ → ℕ → PartStore → PartStore
stalled threshold now store = filter (λ p. not (is_recent threshold now p)) store

retain_parts-filter :
    (threshold now : ℕ) (store : PartStore)
    → retain_parts threshold now store ≡ filter (is_recent threshold now) store
unfolding retain_parts is_expired
retain_parts-filter threshold now [] = refl
retain_parts-filter threshold now ((k, e) ∷ store) =
    ground (arith, retain_parts-filter threshold now store)

drop_effects-expired :
    (threshold now : ℕ) (store : PartStore)
    → drop_effects (expired_parts threshold now store)
      ≡ map (λ p. count_packet p.1.uuid p.0.source 2) (stalled threshold now store)
unfolding drop_effects expired_parts is_expired
drop_effects-expired threshold now [] = refl
drop_effects-expired threshold now ((k, e) ∷ store) =
    ground (arith, drop_effects-expired threshold now store)

length-expired_parts :
    (threshold now : ℕ) (store : PartStore)
    → length (expired_parts threshold now store) ≡ length (stalled threshold now store)
unfolding expired_parts is_expired
length-expired_parts threshold now [] = refl
length-expired_parts threshold now ((k, e) ∷ store) =
    ground (arith, length-expired_parts threshold now store)

length-stalled :
    (threshold now : ℕ) (store : PartStore) → length (stalled threshold now store) ≤ length store
length-stalled threshold now [] = omega arith
length-stalled threshold now ((k, e) ∷ store) = ground (arith, length-stalled threshold now store)

lookup-retain_parts :
    (threshold now : ℕ) (k : PartKey) (e : PartsData) (store : PartStore)
    → Dict.lookup k store ≡ some e
    → is_expired threshold now e ≡ false
    → Dict.lookup k (retain_parts threshold now store) ≡ some e
unfolding retain_parts Dict.lookup
lookup-retain_parts threshold now k e [] h live = cc
lookup-retain_parts threshold now k e ((j, d) ∷ store) h live =
    ground (arith, lookup-retain_parts threshold now k e store)

-- A cleanup that is due keeps exactly the entries whose last part came within the threshold, in
-- their order; for each other one it counts a dropped packet, under the UUID of the entry and the
-- source of its key, and one timeout, if the counter stays in range; it notes its time, and
-- changes nothing else. One that is not due does nothing.
pub cleanup_lem :
    (m : OtaManager) (now : ℕ)
    → m.reassembly_timeouts + length m.part_store < usize_mod
    → cleanup m now ≡ (
        if leb m.part_check_threshold (now - m.last_part_check_time)
        then (
          record m {
            part_store = filter (is_recent m.part_timeout_threshold now) m.part_store;
            last_part_check_time = now;
            reassembly_timeouts =
                m.reassembly_timeouts + length (stalled m.part_timeout_threshold now m.part_store);
          },
          map
              (λ p. count_packet p.1.uuid p.0.source 2)
              (stalled m.part_timeout_threshold now m.part_store),
        )
        else (m, []))
unfolding cleanup
cleanup_lem m now u =
    let counted : saturating_add m.reassembly_timeouts
          (length (expired_parts m.part_timeout_threshold now m.part_store))
        ≡ m.reassembly_timeouts + length (stalled m.part_timeout_threshold now m.part_store) =
      ground (
        arith,
        u,
        length-expired_parts m.part_timeout_threshold now m.part_store,
        length-stalled m.part_timeout_threshold now m.part_store,
      ) in
    rw (retain_parts-filter m.part_timeout_threshold now m.part_store)
      (rw counted (rw (drop_effects-expired m.part_timeout_threshold now m.part_store)))

-- A packet whose last part came within the threshold loses nothing to a cleanup, due or not.
pub cleanup-lookup :
    (m : OtaManager) (now : ℕ) (k : PartKey) (e : PartsData)
    → Dict.lookup k m.part_store ≡ some e
    → now - e.last_part_time < m.part_timeout_threshold
    → Dict.lookup k (cleanup m now).0.part_store ≡ some e
unfolding cleanup is_expired
cleanup-lookup m now k e h live =
    ground (arith, lookup-retain_parts m.part_timeout_threshold now k e m.part_store)
