-- ===== src/Ota/Reassembly/Sound.antt =====
-- Parts that agree with a payload, in the store and in a completed packet.
use emane.Base.{
  ℕ, ◌+◌, ◌≤◌, ◌<◌, ◌≡◌, refl, ap, ◌∙◌, sym, subst, ◌≢◌, inl, inr, true, false, Option, none, some,
  [], ◌∷◌, ◌++◌, length, take, drop, drop-drop, drop_all, take-append-drop, arith, Option-cases,
  Bool-cases,
}
use emane.Base.Bytes.{Bytes}
use emane.Base.Dict
use emane.Base.SortedMap
use emane.Base.SortedMap.{SortedMap}
use emane.Ota.Types.{
  usize_mod, PartKey, part_key_Eq, PartsData, PartStore, part_key_eq, part_key_eq_iff,
}
use emane.Ota.Reassembly.{
  Part, Reassembled, Outcome, rejected, completed, expected_total, is_out_of_range, entry_or_insert,
  update_sizes, matches, add_part, scan, concat, is_complete, finish, store_part, accept_part,
}

-- `piece` is what stands in the payload from the offset on.
abbrev pub IsPieceOf : Bytes → ℕ → Bytes → Type 0
IsPieceOf payload offset piece =
    (offset + length piece ≤ length payload) × (piece ≡ take (length piece) (drop offset payload))

abbrev pub Agrees : Bytes → SortedMap Bytes → Type 0
Agrees payload [] = Unit {0}
Agrees payload ((offset, piece) ∷ parts) = IsPieceOf payload offset piece × Agrees payload parts

insert-Agrees :
    (payload : Bytes) (k : ℕ) (v : Bytes) (m : SortedMap Bytes)
    → IsPieceOf payload k v
    → Agrees payload m
    → Agrees payload (SortedMap.insert k v m)
unfolding SortedMap.insert
insert-Agrees payload k v [] h a = (h, tt)
insert-Agrees payload k v ((j, w) ∷ m) h a = ground (arith, insert-Agrees payload k v m)

piece-append :
    (payload : Bytes) (n : ℕ) (piece : Bytes)
    → IsPieceOf payload n piece
    → piece ++ drop (n + length piece) payload ≡ drop n payload
piece-append payload n piece h =
    ap (λ t. t ++ drop (n + length piece) payload) h.1
    ∙ ap (◌++◌ (take (length piece) (drop n payload))) (sym (drop-drop (length piece) n payload))
    ∙ take-append-drop (length piece) (drop n payload)

-- Where the check for gaps passes, the parts that agree with a payload add up to its rest.
scan-concat :
    (payload : Bytes) (n : ℕ) (m : SortedMap Bytes)
    → length payload < usize_mod
    → Agrees payload m
    → (scan (length payload) n m).0 ≡ true
    → (scan (length payload) n m).1 ≡ length payload
    → concat m ≡ drop n payload
unfolding scan concat
scan-concat payload n [] u a c e = sym (drop_all n payload (omega arith))
scan-concat payload n ((o, piece) ∷ m) u (h, a) c e =
    ground (arith, piece-append payload n piece, scan-concat payload (n + length piece) m)

abbrev pub AgreesAt : Bytes → Option PartsData → Type 0
AgreesAt payload none = Unit {0}
AgreesAt payload (some entry) = Agrees payload entry.parts

-- The part belongs to the payload, and its header gives the payload's length.
pub record IsPartOf (payload : Bytes) (p : Part) : Type 0 where
  pub piece : IsPieceOf payload p.offset p.payload
  pub expected : expected_total p.info ≡ some (length payload)

entry_or_insert-Agrees :
    (payload : Bytes) (store : PartStore) (p : Part) (now : ℕ)
    → AgreesAt payload (Dict.lookup p.key store)
    → Agrees payload (entry_or_insert store p now).parts
unfolding entry_or_insert
entry_or_insert-Agrees payload store p now a = elim (Option-cases (Dict.lookup p.key store)) [
  | inl e ↦ rw (e, entry_or_insert) tt
  | inr (entry, e) ↦ rw (e, entry_or_insert) (subst (AgreesAt payload) e a)
]

update_sizes-parts : (e : PartsData) (p : Part) → (update_sizes e p.info).parts ≡ e.parts
unfolding update_sizes
update_sizes-parts e p = ground arith

-- The entry with the part put in, as `store_part` builds it.
abbrev pub extended : PartStore → Part → ℕ → PartsData
extended store p now = add_part (update_sizes (entry_or_insert store p now) p.info) p now

extended-Agrees :
    (payload : Bytes) (store : PartStore) (p : Part) (now : ℕ)
    → IsPieceOf payload p.offset p.payload
    → AgreesAt payload (Dict.lookup p.key store)
    → Agrees payload (extended store p now).parts
unfolding add_part
extended-Agrees payload store p now h a = insert-Agrees payload p.offset p.payload _ h (
    rw (update_sizes-parts (entry_or_insert store p now) p)
      (entry_or_insert-Agrees payload store p now a))

lookup-remove_self : (k : PartKey) (store : PartStore) → Dict.lookup k (Dict.remove k store) ≡ none
lookup-remove_self k store = rw (Dict.lookup-remove, Dict.eqb_refl k)

finish-AgreesAt :
    (payload : Bytes) (store : PartStore) (p : Part) (e : PartsData) (expected : ℕ)
    → Agrees payload e.parts
    → AgreesAt payload (Dict.lookup p.key (finish store p e expected).0)
unfolding finish
finish-AgreesAt payload store p e expected a = elim (Bool-cases (is_complete e expected)) [
  | inl c ↦ rw (c, finish, lookup-remove_self p.key store) tt
  | inr c ↦ rw (c, finish, Dict.lookup-insert_self p.key e store) a
]

finish-payload :
    (payload : Bytes) (store : PartStore) (p : Part) (e : PartsData) {r : Reassembled}
    → length payload < usize_mod
    → Agrees payload e.parts
    → (finish store p e (length payload)).1 ≡ completed r
    → r.payload ≡ payload
unfolding finish is_complete
finish-payload payload store p e u a h = ground (arith, scan-concat payload 0 e.parts)

-- The branches of `accept_part`: dropped, refused with its entry removed, or put in.
accept_part_cases {ℓ} :
    (P : PartStore × Outcome → Type ℓ) (store : PartStore) (p : Part) (now : ℕ)
    → P (store, rejected)
    → P (Dict.remove p.key store, rejected)
    → ((expected : ℕ)
        → expected_total p.info ≡ some expected
        → P (finish store p (extended store p now) expected))
    → P (accept_part store p now)
unfolding accept_part store_part
accept_part_cases P store p now dropped refused put = elim (Option-cases (expected_total p.info)) [
  | inl e ↦ rw (e, accept_part) dropped
  | inr (expected, e) ↦ elim (Bool-cases (is_out_of_range p expected)) [
    | inl out ↦ rw (e, accept_part, out) dropped
    | inr fine ↦
        let entry : PartsData = update_sizes (entry_or_insert store p now) p.info in
        elim (Bool-cases (matches entry p)) [
          | inl m ↦ rw (e, accept_part, fine, m) (put expected e)
          | inr m ↦ rw (e, accept_part, fine, m) refused
        ]
  ]
]

-- A part of the payload keeps all that is stored under its key a part of the payload.
pub accept_part-AgreesAt :
    (payload : Bytes) (store : PartStore) (p : Part) (now : ℕ)
    → IsPieceOf payload p.offset p.payload
    → AgreesAt payload (Dict.lookup p.key store)
    → AgreesAt payload (Dict.lookup p.key (accept_part store p now).0)
accept_part-AgreesAt payload store p now h a =
    accept_part_cases (λ r. AgreesAt payload (Dict.lookup p.key r.0)) store p now a
      (rw (lookup-remove_self p.key store) tt)
      (λ expected e.
        finish-AgreesAt payload store p _ expected (extended-Agrees payload store p now h a))

pub accept_part-payload :
    (payload : Bytes) (store : PartStore) (p : Part) (now : ℕ) {r : Reassembled}
    → length payload < usize_mod
    → IsPartOf payload p
    → AgreesAt payload (Dict.lookup p.key store)
    → (accept_part store p now).1 ≡ completed r
    → r.payload ≡ payload
accept_part-payload payload store p now {r} u h a =
    accept_part_cases (λ o. o.1 ≡ completed r → r.payload ≡ payload) store p now (λ e. cc) (λ e. cc)
      (λ expected e q.
        finish-payload payload store p (extended store p now) u
          (extended-Agrees payload store p now h.piece a)
          (subst (λ n. (finish store p (extended store p now) n).1 ≡ completed r) (same expected e)
            q))
  where
    same : (n : ℕ) → expected_total p.info ≡ some n → n ≡ length payload
    same n e = ground (arith, h.expected)

-- No part changes what is stored under another key.
pub accept_part-lookup_ne :
    (store : PartStore) (p : Part) (now : ℕ) (k : PartKey)
    → p.key ≢ k
    → Dict.lookup k (accept_part store p now).0 ≡ Dict.lookup k store
unfolding finish
accept_part-lookup_ne store p now k n =
    accept_part_cases (λ r. Dict.lookup k r.0 ≡ Dict.lookup k store) store p now refl
      (other_remove store)
      (λ expected e. elim (Bool-cases (is_complete (extended store p now) expected)) [
        | inl c ↦ rw (finish, c) (other_remove store)
        | inr c ↦ rw (finish, c, Dict.lookup-insert, differs)
      ])
  where
    differs : part_key_eq p.key k ≡ false
    differs = ground (arith, part_key_eq_iff p.key k)

    other_remove : (s : PartStore) → Dict.lookup k (Dict.remove p.key s) ≡ Dict.lookup k s
    other_remove s = rw (Dict.lookup-remove, differs)
