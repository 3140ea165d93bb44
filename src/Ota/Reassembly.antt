-- ===== src/Ota/Reassembly.antt =====
-- The fragmented branch of `emane_rs_ota_manager_process_loop`: the store of parts.
pub mod Sound
pub mod Delivery
pub mod Cut
pub mod Staged
use emane.Base.{
  ℕ, ◌+◌, ◌-◌, ◌≡◌, Bool, true, false, not, ◌&&◌, ◌||◌, Option, none, some, List, [], ◌∷◌, ◌++◌,
  length, ltb, leb, ◌==◌, if◌then◌else◌, is_some,
}
use emane.Base.Bytes.{Bytes, bytes_eq}
use emane.Base.Dict
use emane.Base.SortedMap
use emane.Base.SortedMap.{SortedMap}
use emane.Ota.Types.{
  usize_mod, max_ota_payload, checked_add, saturating_add, PartKey, part_key_Eq, PartsData,
  PartStore, PayloadInfo,
}

-- A part that has passed the checks on its datagram; `more` is the flag of its `PartInfo`.
pub record Part : Type 0 where
  pub key : PartKey
  pub uuid : Bytes
  pub info : PayloadInfo
  pub more : ℕ
  pub offset : ℕ
  pub payload : Bytes

-- What a completed payload hands to `handle_ota_message`.
pub record Reassembled : Type 0 where
  pub uuid : Bytes
  pub events_size : ℕ
  pub controls_size : ℕ
  pub data_size : ℕ
  pub payload : Bytes

-- How a part ends: `rejected` is a `continue` of the loop.
pub data Outcome : Type 0 where
  rejected stored : Outcome
  completed : Reassembled → Outcome

abbrev pub completion : Outcome → Option Reassembled
completion rejected = none
completion stored = none
completion (completed r) = some r

unfoldable pub expected_total : PayloadInfo → Option ℕ
expected_total i = elim (checked_add i.event_length i.control_length) [
  | none ↦ none
  | some size ↦ checked_add size i.data_length
]

-- The bounds that a part is dropped for.
unfoldable pub is_out_of_range : Part → ℕ → Bool
is_out_of_range p expected =
    let size = length p.payload in
    ltb max_ota_payload expected
    || not (is_some (checked_add p.offset size))
    || ltb expected (p.offset + size)
    || ((p.more == 0) && not (p.offset + size == expected))

unfoldable pub new_entry : Part → ℕ → PartsData
new_entry p now = record {
  total_size = 0;
  events_size = p.info.event_length;
  controls_size = p.info.control_length;
  data_size = p.info.data_length;
  parts = [];
  last_part_time = now;
  uuid = p.uuid;
}

unfoldable pub entry_or_insert : PartStore → Part → ℕ → PartsData
unfolding new_entry
entry_or_insert store p now = elim (Dict.lookup p.key store) [
  | none ↦ new_entry p now
  | some entry ↦ entry
]

unfoldable pub update_sizes : PartsData → PayloadInfo → PartsData
update_sizes entry i =
    if (entry.events_size == 0) && (entry.controls_size == 0) && (entry.data_size == 0)
    then record entry {
      events_size = i.event_length;
      controls_size = i.control_length;
      data_size = i.data_length;
    }
    else entry

unfoldable pub matches : PartsData → Part → Bool
matches entry p =
    (entry.events_size == p.info.event_length)
    && (entry.controls_size == p.info.control_length)
    && (entry.data_size == p.info.data_length)
    && bytes_eq entry.uuid p.uuid

-- `total_size` after the part at this offset has been replaced.
unfoldable pub size_without : ℕ → Option Bytes → ℕ
size_without total none = total
size_without total (some previous) = total - length previous

unfoldable pub add_part : PartsData → Part → ℕ → PartsData
unfolding size_without
add_part entry p now = record entry {
  parts = SortedMap.insert p.offset p.payload entry.parts;
  total_size =
      saturating_add (size_without entry.total_size (SortedMap.lookup p.offset entry.parts))
        (length p.payload);
  last_part_time = now;
}

-- The check for gaps: whether the parts follow each other from `next` on, and where that ends.
unfoldable pub scan : ℕ → ℕ → SortedMap Bytes → Bool × ℕ
scan expected next [] = (true, next)
scan expected next ((offset, part) ∷ parts) =
    if offset == next
    then (let next' = saturating_add next (length part) in
        let rest = scan expected next' parts in if leb next' expected then rest else (false, next'))
    else (false, next)

unfoldable pub concat : SortedMap Bytes → Bytes
concat [] = []
concat ((offset, part) ∷ parts) = part ++ concat parts

unfoldable pub is_complete : PartsData → ℕ → Bool
unfolding scan
is_complete entry expected =
    let (contiguous, next) = scan expected 0 entry.parts in
    (entry.total_size == expected) && contiguous && (next == expected)

unfoldable pub finish : PartStore → Part → PartsData → ℕ → PartStore × Outcome
finish store p entry expected =
    if is_complete entry expected
    then (
      Dict.remove p.key store,
      completed (record {
        uuid = entry.uuid;
        events_size = entry.events_size;
        controls_size = entry.controls_size;
        data_size = entry.data_size;
        payload = concat entry.parts;
      }),
    )
    else (Dict.insert p.key entry store, stored)

unfoldable pub store_part : PartStore → Part → ℕ → ℕ → PartStore × Outcome
store_part store p now expected =
    let entry = update_sizes (entry_or_insert store p now) p.info in
    if matches entry p
    then finish store p (add_part entry p now) expected
    else (Dict.remove p.key store, rejected)

unfoldable pub accept_part : PartStore → Part → ℕ → PartStore × Outcome
accept_part store p now = elim (expected_total p.info) [
  | none ↦ (store, rejected)
  | some expected ↦
      if is_out_of_range p expected then (store, rejected) else store_part store p now expected
]
