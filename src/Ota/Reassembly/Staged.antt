-- ===== src/Ota/Reassembly/Staged.antt =====
-- One part of a packet: the entry that it is put in, and whether it completes the packet.
use emane.Base.{
  ℕ, ◌+◌, ◌≤◌, ◌<◌, ◌≡◌, ◌≢◌, refl, ap, ◌∙◌, sym, subst, ◌⊎◌, inl, inr, true, false, Option, none,
  some, [], length, arith, Option-cases,
}
use emane.Base.Bytes.{Bytes, bytes_eq_iff}
use emane.Base.Dict
use emane.Base.SortedMap
use emane.Base.SortedMap.{SortedMap}
use emane.Ota.Types.{
  usize_mod, max_ota_payload, PartKey, part_key_Eq, PartsData, PartStore, PayloadInfo,
}
use emane.Ota.Reassembly.{
  Part, stored, completed, expected_total, is_out_of_range, new_entry, entry_or_insert,
  update_sizes, matches, add_part, concat, is_complete, finish, store_part, accept_part,
}
use emane.Ota.Reassembly.Sound.{extended}
use emane.Ota.Reassembly.Cut.{IsCut, size, scan-IsCut}

-- What the parts of one packet share, and the bounds that each keeps.
pub record Belongs (k : PartKey) (uuid : Bytes) (info : PayloadInfo) (total : ℕ) (p : Part)
    : Type 0 where
  pub key : p.key ≡ k
  pub same_uuid : p.uuid ≡ uuid
  pub same_info : p.info ≡ info
  pub fits : p.offset + length p.payload ≤ total
  pub last : (p.more ≢ 0) ⊎ (p.offset + length p.payload ≡ total)

module _ (k : PartKey) (uuid : Bytes) (info : PayloadInfo) (total : ℕ) where
  -- The entry of the packet with the parts `m`, of `n` bytes in all.
  pub record IsStaged (e : PartsData) (m : SortedMap Bytes) (n : ℕ) : Type 0 where
    pub parts : e.parts ≡ m
    pub total_size : e.total_size ≡ n
    pub events : e.events_size ≡ info.event_length
    pub controls : e.controls_size ≡ info.control_length
    pub bytes : e.data_size ≡ info.data_length
    pub id : e.uuid ≡ uuid

  abbrev pub AtStage : Option PartsData → SortedMap Bytes → ℕ → Type 0
  AtStage none m n = (m ≡ []) × (n ≡ 0)
  AtStage (some e) m n = IsStaged e m n

  unfoldable pub prepared : PartStore → Part → ℕ → PartsData
  prepared store p now = update_sizes (entry_or_insert store p now) p.info

  new-IsStaged :
      (p : Part) (now : ℕ) → Belongs k uuid info total p → IsStaged (new_entry p now) [] 0
  unfolding new_entry
  new-IsStaged p now b = ground arith

  update-IsStaged :
      (e : PartsData) (p : Part) (m : SortedMap Bytes) (n : ℕ)
      → Belongs k uuid info total p
      → IsStaged e m n
      → IsStaged (update_sizes e p.info) m n
  unfolding update_sizes
  update-IsStaged e p m n b s = ground arith

  pub prepared-IsStaged :
      (store : PartStore) (p : Part) (now : ℕ) (m : SortedMap Bytes) (n : ℕ)
      → Belongs k uuid info total p
      → AtStage (Dict.lookup k store) m n
      → IsStaged (prepared store p now) m n
  unfolding prepared entry_or_insert
  prepared-IsStaged store p now m n b a = elim (Option-cases (Dict.lookup p.key store)) [
    | inl e ↦
        let stage = subst (λ o. AtStage o m n) (ap (λ j. Dict.lookup j store) (sym b.key) ∙ e) a in
        rw (e, entry_or_insert, stage.0, stage.1)
          (update-IsStaged (new_entry p now) p [] 0 b (new-IsStaged p now b))
    | inr (entry, e) ↦
        let stage = subst (λ o. AtStage o m n) (ap (λ j. Dict.lookup j store) (sym b.key) ∙ e) a in
        rw (e, entry_or_insert) (update-IsStaged entry p m n b stage)
  ]

  IsStaged-matches :
      (e : PartsData) (p : Part) (m : SortedMap Bytes) (n : ℕ)
      → Belongs k uuid info total p
      → IsStaged e m n
      → matches e p ≡ true
  unfolding matches
  IsStaged-matches e p m n b s = ground (arith, bytes_eq_iff e.uuid p.uuid)

  pub add_part-IsStaged :
      (e : PartsData) (p : Part) (now : ℕ) (m : SortedMap Bytes) (n : ℕ)
      → SortedMap.lookup p.offset m ≡ none
      → n + length p.payload < usize_mod
      → IsStaged e m n
      → IsStaged (add_part e p now) (SortedMap.insert p.offset p.payload m) (n + length p.payload)
  unfolding add_part
  add_part-IsStaged e p now m n absent u s = ground arith

  -- The entry after a part has been put into it.
  pub extended-IsStaged :
      (store : PartStore) (p : Part) (now : ℕ) (m : SortedMap Bytes) (n : ℕ)
      → Belongs k uuid info total p
      → AtStage (Dict.lookup k store) m n
      → SortedMap.lookup p.offset m ≡ none
      → n + length p.payload < usize_mod
      → IsStaged
          (extended store p now)
          (SortedMap.insert p.offset p.payload m)
          (n + length p.payload)
  unfolding prepared
  extended-IsStaged store p now m n b a absent u =
      add_part-IsStaged _ p now m n absent u (prepared-IsStaged store p now m n b a)

  Belongs-in_range :
      (p : Part)
      → total ≤ max_ota_payload
      → Belongs k uuid info total p
      → is_out_of_range p total ≡ false
  unfolding is_out_of_range
  Belongs-in_range p h b = ground arith

  pub accept_part-finish :
      (store : PartStore) (p : Part) (now : ℕ) (m : SortedMap Bytes) (n : ℕ)
      → total ≤ max_ota_payload
      → expected_total info ≡ some total
      → Belongs k uuid info total p
      → AtStage (Dict.lookup k store) m n
      → accept_part store p now ≡ finish store p (extended store p now) total
  unfolding accept_part store_part prepared
  accept_part-finish store p now m n h x b a =
      rw (ap expected_total b.same_info ∙ x, accept_part, Belongs-in_range p h b)
        (rw (IsStaged-matches _ p m n b (prepared-IsStaged store p now m n b a)) refl)

  -- A part that does not complete the packet.
  pub step_stored :
      (store : PartStore) (p : Part) (now : ℕ) (e : PartsData) (n : ℕ)
      → e.total_size ≡ n
      → n < total
      → finish store p e total ≡ (Dict.insert p.key e store, stored)
  unfolding finish is_complete
  step_stored store p now e n s h = ground arith

  -- The part that completes it.
  pub step_completed :
      (store : PartStore) (p : Part) (e : PartsData) (m : SortedMap Bytes)
      → total < usize_mod
      → IsCut 0 m
      → size m ≡ total
      → IsStaged e m total
      → finish store p e total ≡ (
        Dict.remove p.key store,
        completed (record {
          uuid = uuid;
          events_size = info.event_length;
          controls_size = info.control_length;
          data_size = info.data_length;
          payload = concat m;
        }),
      )
  unfolding finish is_complete
  step_completed store p e m u c h s = ground (arith, scan-IsCut total 0 m)
