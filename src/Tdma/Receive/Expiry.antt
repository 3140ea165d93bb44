-- ===== src/Tdma/Receive/Expiry.antt =====
-- What the expiry of old entries leaves in the store of the TDMA model's reception.
use emane.Base.{
  ℕ, ◌+◌, ◌<◌, ◌≡◌, refl, ap, Bool, true, false, Option, none, some, [], ◌∷◌, leb, if◌then◌else◌,
  arith,
}
use emane.Base.Dict
use emane.Tdma.Receive.{
  FragmentKey, fragment_key_eq, fragment_key_Eq, Reassembly, ReassemblyStore, Receiver,
  expire_reassembly,
}
use emane.Tdma.Receive.Sound.{if-both}

found-later :
    (t now : ℕ) (old e : Reassembly) (same : Bool) (rest : Option Reassembly)
    → leb (old.last_update_us + t) now ≡ true
    → now < e.last_update_us + t
    → (if same then some old else rest) ≡ some e
    → rest ≡ some e
found-later t now old e true rest late h found =
    let same : old.last_update_us ≡ e.last_update_us =
      ap (λ o. elim o [ none ↦ 0 | some x ↦ x.last_update_us ]) found in
    absurd (ground (arith, late, h, same))
found-later t now old e false rest late h found = found

found-first :
    (old e : Reassembly) (same : Bool) (rest next : Option Reassembly)
    → (rest ≡ some e → next ≡ some e)
    → (if same then some old else rest) ≡ some e
    → (if same then some old else next) ≡ some e
found-first old e true rest next h found = found
found-first old e false rest next h found = h found

-- An entry stays as long as it is not too old.
pub lookup-expire :
    (r : Receiver) (now : ℕ) (key : FragmentKey) (e : Reassembly) (store : ReassemblyStore)
    → now < e.last_update_us + r.fragment_timeout_us
    → Dict.lookup key store ≡ some e
    → Dict.lookup key (expire_reassembly r now store) ≡ some e
unfolding Dict.lookup expire_reassembly
lookup-expire r now key e [] h found = cc
lookup-expire r now key e ((j, old) ∷ rest) h found =
    if-both {A = ReassemblyStore} (λ s. Dict.lookup key s ≡ some e)
      (leb (old.last_update_us + r.fragment_timeout_us) now)
      (λ late. lookup-expire r now key e rest h (
        found-later r.fragment_timeout_us now old e (fragment_key_eq j key) (Dict.lookup key rest)
          late h found))
      (λ _.
        found-first old e (fragment_key_eq j key) (Dict.lookup key rest)
          (Dict.lookup key (expire_reassembly r now rest)) (lookup-expire r now key e rest h) found)

pub lookup-expire_none :
    (r : Receiver) (now : ℕ) (key : FragmentKey) (store : ReassemblyStore)
    → Dict.lookup key store ≡ none
    → Dict.lookup key (expire_reassembly r now store) ≡ none
unfolding Dict.lookup expire_reassembly
lookup-expire_none r now key [] found = refl
lookup-expire_none r now key ((j, old) ∷ rest) found =
    ground (arith, lookup-expire_none r now key rest)
