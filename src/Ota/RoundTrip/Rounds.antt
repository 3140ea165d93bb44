-- ===== src/Ota/RoundTrip/Rounds.antt =====
-- Rounds of the receiver's loop, each with its cleanup: which messages of fragments they hand to
-- `handle_ota_message`, and what they leave of an entry.
use emane.Base.{
  ℕ, ◌-◌, ◌<◌, ◌≡◌, ◌≢◌, refl, ap, ◌∙◌, sym, subst, false, Option, none, some, List, [], ◌∷◌, ◌++◌,
  filter, unwrap_or, arith,
}
use emane.Base.Bytes.{Bytes}
use emane.Base.Dict
use emane.Ota.Types.{
  PartKey, part_key_Eq, part_key_eq, part_key_eq_iff, PartsData, PartStore, OtaHeader, OtaMessage,
}
use emane.Ota.Reassembly.{
  Part, Reassembled, Outcome, rejected, stored, completed, completion, accept_part,
}
use emane.Ota.Reassembly.Sound.{accept_part-lookup_ne}
use emane.Ota.Receive.{Incoming, ignored, skipped, single, fragment, parse_datagram}
use emane.Ota.Manager.{OtaManager, Codec, deliver_data, handle_ota_message}
use emane.Ota.Manager.Loop.{
  retain_parts, cleanup, handle_then_cleanup, reassembled_message, after_part, process_incoming,
  process_datagram,
}
use emane.Ota.Manager.Loop.Expiry.{cleanup-lookup}

-- The message that a round puts together from parts and hands to `handle_ota_message`, under its key.
unfoldable pub handed_over : OtaManager → ℕ → Incoming → List (PartKey × OtaMessage)
handed_over m now ignored = []
handed_over m now skipped = []
handed_over m now (single msg) = []
handed_over m now (fragment h p) = elim (completion (accept_part m.part_store p now).1) [
  | none ↦ []
  | some r ↦ (p.key, reassembled_message h r) ∷ []
]

after_completion :
    (codec : Codec) (m : OtaManager) (now : ℕ) (h : OtaHeader) (x : PartStore × Outcome)
    (r : Reassembled)
    → completion x.1 ≡ some r
    → after_part codec m now h x
      ≡ handle_then_cleanup codec (record m { part_store = x.0 }) now (reassembled_message h r)
unfolding after_part
after_completion codec m now h (store, rejected) r e = cc
after_completion codec m now h (store, stored) r e = cc
after_completion codec m now h (store, completed d) r e =
    let same : d ≡ r = ap (λ o. unwrap_or o d) e in
    ap
      (λ x.
        handle_then_cleanup codec (record m { part_store = store }) now (reassembled_message h x))
      same

-- A round whose part completes a packet handles the message that it hands over, then cleans up.
handed_over-handled :
    (codec : Codec) (m : OtaManager) (now : ℕ) (h : OtaHeader) (p : Part) (r : Reassembled)
    → completion (accept_part m.part_store p now).1 ≡ some r
    → (handed_over m now (fragment h p) ≡ (p.key, reassembled_message h r) ∷ [])
      × (process_incoming codec m now (fragment h p)
          ≡ handle_then_cleanup codec
              (record m { part_store = (accept_part m.part_store p now).0 })
              now
              (reassembled_message h r))
unfolding handed_over process_incoming
handed_over-handled codec m now h p r e = (
  ap (λ o. elim o [ none ↦ [] | some d ↦ (p.key, reassembled_message h d) ∷ [] ]) e,
  after_completion codec m now h (accept_part m.part_store p now) r e,
)

-- The rounds of some datagrams, each with the time at which it arrives.
unfoldable pub rounds : Codec → OtaManager → List (Bytes × ℕ) → List (PartKey × OtaMessage)
rounds codec m [] = []
rounds codec m ((d, now) ∷ ds) =
    handed_over m now (parse_datagram codec.decode_header m.uuid d)
    ++ rounds codec (process_datagram codec m now d).0 ds

abbrev pub for_key : PartKey → List (PartKey × OtaMessage) → List (PartKey × OtaMessage)
for_key k = filter (λ d. part_key_eq d.0 k)

-- A datagram that is no part of a packet under the key.
abbrev pub IsOther : PartKey → Incoming → Type 0
IsOther k (fragment h p) = p.key ≢ k
IsOther k _ = Unit {0}

-- What a round leaves of the settings.
pub record HasSameSettings (m m' : OtaManager) : Type 0 where
  pub uuid : m'.uuid ≡ m.uuid
  pub timeout : m'.part_timeout_threshold ≡ m.part_timeout_threshold

pub cleanup-HasSameSettings : (m : OtaManager) (now : ℕ) → HasSameSettings m (cleanup m now).0
unfolding cleanup
cleanup-HasSameSettings m now = ground arith

-- A message changes neither the settings nor the parts.
pub record HasSameParts (m m' : OtaManager) : Type 0 where
  pub settings : HasSameSettings m m'
  pub parts : m'.part_store ≡ m.part_store

handle-HasSameParts :
    (codec : Codec) (m : OtaManager) (msg : OtaMessage)
    → HasSameParts m (handle_ota_message codec m msg).0
unfolding handle_ota_message deliver_data
handle-HasSameParts codec m msg = ground arith

-- What a round leaves of the entry under a key, if its last part is recent.
pub record IsKept (k : PartKey) (now : ℕ) (m m' : OtaManager) : Type 0 where
  pub settings : HasSameSettings m m'
  pub absent : Dict.lookup k m.part_store ≡ none → Dict.lookup k m'.part_store ≡ none
  pub entry :
      (e : PartsData)
      → Dict.lookup k m.part_store ≡ some e
      → now - e.last_part_time < m.part_timeout_threshold
      → Dict.lookup k m'.part_store ≡ some e

retain_parts-lookup :
    (threshold now : ℕ) (k : PartKey) (store : PartStore)
    → Dict.lookup k store ≡ none
    → Dict.lookup k (retain_parts threshold now store) ≡ none
unfolding retain_parts Dict.lookup
retain_parts-lookup threshold now k [] h = refl
retain_parts-lookup threshold now k ((j, e) ∷ store) h =
    ground (arith, retain_parts-lookup threshold now k store)

cleanup-none :
    (m : OtaManager) (now : ℕ) (k : PartKey)
    → Dict.lookup k m.part_store ≡ none
    → Dict.lookup k (cleanup m now).0.part_store ≡ none
unfolding cleanup
cleanup-none m now k h =
    ground (arith, retain_parts-lookup m.part_timeout_threshold now k m.part_store)

-- A step that leaves the entry, with no cleanup after it, or with one.
same-IsKept :
    (k : PartKey) (now : ℕ) (m m' : OtaManager)
    → HasSameSettings m m'
    → Dict.lookup k m'.part_store ≡ Dict.lookup k m.part_store
    → IsKept k now m m'
same-IsKept k now m m' h same = record {
  settings = h;
  absent = λ e. same ∙ e;
  entry = λ e found recent. same ∙ found;
}

cleanup-IsKept :
    (k : PartKey) (now : ℕ) (m m' : OtaManager)
    → HasSameSettings m m'
    → Dict.lookup k m'.part_store ≡ Dict.lookup k m.part_store
    → IsKept k now m (cleanup m' now).0
cleanup-IsKept k now m m' h same =
    let after : HasSameSettings m' (cleanup m' now).0 = cleanup-HasSameSettings m' now in
    record {
      settings = record { uuid = after.uuid ∙ h.uuid; timeout = after.timeout ∙ h.timeout };
      absent = λ e. cleanup-none m' now k (same ∙ e);
      entry = λ e found recent.
          cleanup-lookup m' now k e (same ∙ found)
            (subst (λ t. now - e.last_part_time < t) (sym h.timeout) recent);
    }

pub handle_then_cleanup-IsKept :
    (codec : Codec) (k : PartKey) (now : ℕ) (m m' : OtaManager) (msg : OtaMessage)
    → HasSameSettings m m'
    → Dict.lookup k m'.part_store ≡ Dict.lookup k m.part_store
    → IsKept k now m (handle_then_cleanup codec m' now msg).0
unfolding handle_then_cleanup
handle_then_cleanup-IsKept codec k now m m' msg h same =
    let handled : HasSameParts m' (handle_ota_message codec m' msg).0 =
      handle-HasSameParts codec m' msg in
    cleanup-IsKept k now m (handle_ota_message codec m' msg).0
      (record {
        uuid = handled.settings.uuid ∙ h.uuid;
        timeout = handled.settings.timeout ∙ h.timeout;
      })
      (ap (Dict.lookup k) handled.parts ∙ same)

after_part-IsKept :
    (codec : Codec) (k : PartKey) (m : OtaManager) (now : ℕ) (h : OtaHeader)
    (r : PartStore × Outcome)
    → Dict.lookup k r.0 ≡ Dict.lookup k m.part_store
    → IsKept k now m (after_part codec m now h r).0
unfolding after_part
after_part-IsKept codec k m now h (store, rejected) same =
    same-IsKept k now m (record m { part_store = store }) (record { uuid = refl; timeout = refl })
      same
after_part-IsKept codec k m now h (store, stored) same =
    cleanup-IsKept k now m (record m { part_store = store })
      (record { uuid = refl; timeout = refl }) same
after_part-IsKept codec k m now h (store, completed r) same =
    handle_then_cleanup-IsKept codec k now m (record m { part_store = store })
      (reassembled_message h r) (record { uuid = refl; timeout = refl }) same

-- Other traffic: the round leaves what is under the key, if it is recent, and hands over nothing
-- under it.
pub other-IsKept :
    (codec : Codec) (k : PartKey) (m : OtaManager) (now : ℕ) (i : Incoming)
    → IsOther k i
    → IsKept k now m (process_incoming codec m now i).0
unfolding process_incoming
other-IsKept codec k m now ignored o =
    cleanup-IsKept k now m m (record { uuid = refl; timeout = refl }) refl
other-IsKept codec k m now skipped o =
    same-IsKept k now m m (record { uuid = refl; timeout = refl }) refl
other-IsKept codec k m now (single msg) o =
    handle_then_cleanup-IsKept codec k now m m msg (record { uuid = refl; timeout = refl }) refl
other-IsKept codec k m now (fragment h p) o =
    after_part-IsKept codec k m now h (accept_part m.part_store p now)
      (accept_part-lookup_ne m.part_store p now k o)

pub other-for_key :
    (k : PartKey) (m : OtaManager) (now : ℕ) (i : Incoming) (rest : List (PartKey × OtaMessage))
    → IsOther k i
    → for_key k (handed_over m now i ++ rest) ≡ for_key k rest
unfolding handed_over
other-for_key k m now ignored rest o = refl
other-for_key k m now skipped rest o = refl
other-for_key k m now (single msg) rest o = refl
other-for_key k m now (fragment h p) rest o =
    by_completion (completion (accept_part m.part_store p now).1)
  where
    differs : part_key_eq p.key k ≡ false
    differs = ground (arith, part_key_eq_iff p.key k, o)

    by_completion :
        (c : Option Reassembled)
        → for_key k
            ((elim c [ none ↦ [] | some r ↦ (p.key, reassembled_message h r) ∷ [] ]) ++ rest)
          ≡ for_key k rest
    by_completion none = refl
    by_completion (some r) = rw differs
