-- ===== src/Ota/Reassembly/Delivery.antt =====
-- A sequence of parts, and what they complete.
use emane.Base.{
  ℕ, ◌<◌, ◌≡◌, sym, subst, inl, inr, none, some, List, [], ◌∷◌, length, arith, Option-cases,
  Bool-cases, if◌then◌else◌,
}
use emane.Base.Bytes.{Bytes}
use emane.Base.Dict
use emane.Ota.Types.{usize_mod, PartKey, part_key_Eq, part_key_eq, part_key_eq_iff, PartStore}
use emane.Ota.Reassembly.{
  Part, Reassembled, Outcome, rejected, stored, completed, completion, accept_part,
}
use emane.Ota.Reassembly.Sound.{
  AgreesAt, IsPartOf, accept_part-AgreesAt, accept_part-payload, accept_part-lookup_ne,
}

completion-some : (o : Outcome) {r : Reassembled} → completion o ≡ some r → o ≡ completed r
completion-some rejected e = cc
completion-some stored e = cc
completion-some (completed r) e = cc

-- The parts that arrive, with their times, and what each completes.
unfoldable pub run : PartStore → List (Part × ℕ) → List (PartKey × Reassembled)
run store [] = []
run store ((p, now) ∷ ps) = elim (completion (accept_part store p now).1) [
  | none ↦ run (accept_part store p now).0 ps
  | some r ↦ (p.key, r) ∷ run (accept_part store p now).0 ps
]

-- Every part under the key is a part of the payload.
abbrev pub AreParts : PartKey → Bytes → List (Part × ℕ) → Type 0
AreParts k payload [] = Unit {0}
AreParts k payload ((p, now) ∷ ps) =
    (if part_key_eq p.key k then IsPartOf payload p else Unit {0}) × AreParts k payload ps

-- Every delivery under the key is the payload.
abbrev pub AreDeliveries : PartKey → Bytes → List (PartKey × Reassembled) → Type 0
AreDeliveries k payload [] = Unit {0}
AreDeliveries k payload ((j, r) ∷ rs) =
    (if part_key_eq j k then r.payload ≡ payload else Unit {0}) × AreDeliveries k payload rs

module _ (k : PartKey) (payload : Bytes) (u : length payload < usize_mod) where
  next-AgreesAt :
      (store : PartStore) (p : Part) (now : ℕ)
      → (if part_key_eq p.key k then IsPartOf payload p else Unit {0})
      → AgreesAt payload (Dict.lookup k store)
      → AgreesAt payload (Dict.lookup k (accept_part store p now).0)
  next-AgreesAt store p now h a = elim (Bool-cases (part_key_eq p.key k)) [
    | inl e ↦
        let same : p.key ≡ k = (part_key_eq_iff p.key k).0 e in
        let part : IsPartOf payload p = rw e at h in
        subst (λ j. AgreesAt payload (Dict.lookup j (accept_part store p now).0)) same
          (accept_part-AgreesAt payload store p now part.piece
            (subst (λ j. AgreesAt payload (Dict.lookup j store)) (sym same) a))
    | inr e ↦
        rw (accept_part-lookup_ne store p now k (λ q. ground (arith, part_key_eq_iff p.key k))) a
  ]

  next-delivery :
      (store : PartStore) (p : Part) (now : ℕ) (r : Reassembled)
      → (if part_key_eq p.key k then IsPartOf payload p else Unit {0})
      → AgreesAt payload (Dict.lookup k store)
      → completion (accept_part store p now).1 ≡ some r
      → if part_key_eq p.key k then r.payload ≡ payload else Unit {0}
  next-delivery store p now r h a q = elim (Bool-cases (part_key_eq p.key k)) [
    | inl e ↦
        let same : p.key ≡ k = (part_key_eq_iff p.key k).0 e in
        let part : IsPartOf payload p = rw e at h in
        rw e (
          accept_part-payload payload store p now u part
            (subst (λ j. AgreesAt payload (Dict.lookup j store)) (sym same) a)
            (completion-some (accept_part store p now).1 q))
    | inr e ↦ rw e tt
  ]

  -- From a store that agrees with a payload, whose length a `usize` holds, under a key, as an empty
  -- store does: where every part under
  -- that key is a part of the payload, in whatever order these arrive, repeated or lost, and whatever
  -- arrives under other keys, each payload that is delivered under the key is this one.
  pub run-AreDeliveries :
      (store : PartStore) (ps : List (Part × ℕ))
      → AreParts k payload ps
      → AgreesAt payload (Dict.lookup k store)
      → AreDeliveries k payload (run store ps)
  unfolding run
  run-AreDeliveries store [] h a = tt
  run-AreDeliveries store ((p, now) ∷ ps) h a =
      let rest =
        run-AreDeliveries (accept_part store p now).0 ps h.1 (next-AgreesAt store p now h.0 a) in
      elim (Option-cases (completion (accept_part store p now).1)) [
        | inl e ↦ rw (e, run) rest
        | inr (r, e) ↦ rw (e, run) (next-delivery store p now r h.0 a e, rest)
      ]
