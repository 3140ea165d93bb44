-- ===== src/Tdma/Receive/Sound.antt =====
-- What the reception of the TDMA model puts together is what was sent.
use emane.Base.{
  ℕ, zero, suc, ◌+◌, ◌≤◌, ◌≡◌, refl, sym, ap, subst, ◌∙◌, Bool, true, false, Option, none, some, [],
  ◌∷◌, ◌++◌, length, take, drop, leb, ◌==◌, if◌then◌else◌, arith, take_all,
}
use native.Mathlib.Nat.{zero-add, suc-add}
use emane.Base.Bytes.{Bytes}
use emane.Base.Dict
use emane.Base.SortedMap
use emane.Base.SortedMap.{SortedMap}
use emane.Tdma.Queue.{PacketInfo, MessageType}
use emane.Tdma.Receive.{
  TdmaFragment, FragmentKey, fragment_key_eq_iff, fragment_key_Eq, Reassembly, ReassemblyStore,
  Receiver, expire_reassembly, or_insert, assemble, add_piece, new_entry, entry_or_new,
}

-- What the senders have sent in fragments: the payload of each packet, and its piece at an offset.
pub record Sent : Type 0 where
  pub packet : FragmentKey → Bytes
  pub piece : FragmentKey → ℕ → Bytes

take_split : (m n : ℕ) (xs : Bytes) → take m xs ++ take n (drop m xs) ≡ take (m + n) xs
take_split zero n xs = rw zero-add
take_split (suc m) n [] = rw suc-add (take_all n [] (omega arith))
take_split (suc m) n (x ∷ xs) = rw suc-add (ap (◌∷◌ x) (take_split m n xs))

pub if-both {ℓ κ} :
    {A : Type ℓ} (P : A → Type κ) (test : Bool) {x y : A}
    → (test ≡ true → P x)
    → (test ≡ false → P y)
    → P (if test then x else y)
if-both P true h k = h refl
if-both P false h k = k refl

module _ (sent : Sent) where
  -- A piece of a packet: the one at that offset, and a slice of the payload.
  abbrev pub IsPiece : FragmentKey → ℕ → Bytes → Type 0
  IsPiece key offset bytes =
      (bytes ≡ sent.piece key offset)
      × (offset + length bytes ≤ length (sent.packet key))
      × (bytes ≡ take (length bytes) (drop offset (sent.packet key)))

  unfoldable pub AllPieces : FragmentKey → SortedMap Bytes → Type 0
  AllPieces key [] = Unit {0}
  AllPieces key ((offset, bytes) ∷ rest) = IsPiece key offset bytes × AllPieces key rest

  unfoldable pub IsTotal : FragmentKey → Option ℕ → Type 0
  IsTotal key none = Unit {0}
  IsTotal key (some n) = n ≡ length (sent.packet key)

  abbrev pub IsTrueEntry : FragmentKey → Reassembly → Type 0
  IsTrueEntry key entry = AllPieces key entry.pieces × IsTotal key entry.total_len

  unfoldable pub IsTrueStore : ReassemblyStore → Type 0
  IsTrueStore [] = Unit {0}
  IsTrueStore ((key, entry) ∷ rest) = IsTrueEntry key entry × IsTrueStore rest

  -- The scan puts a beginning of the payload together.
  pub assemble-take :
      (key : FragmentKey) (pieces : SortedMap Bytes) (expected : ℕ) (assembled : Bytes)
      → AllPieces key pieces
      → assembled ≡ take expected (sent.packet key)
      → (assemble pieces expected assembled).1
        ≡ take (assemble pieces expected assembled).0 (sent.packet key)
  unfolding assemble AllPieces
  assemble-take key [] expected assembled h e = e
  assemble-take key ((offset, bytes) ∷ rest) expected assembled h e =
      if-both {A = ℕ × Bytes} (λ r. r.1 ≡ take r.0 (sent.packet key)) (offset == expected)
        (λ same. assemble-take key rest (expected + length bytes) (assembled ++ bytes) h.1 (
          let here : bytes ≡ take (length bytes) (drop expected (sent.packet key)) =
            h.0.2 ∙ ap (λ o. take (length bytes) (drop o (sent.packet key))) (ground arith) in
          ap (λ a. a ++ bytes) e
          ∙ ap (λ b. take expected (sent.packet key) ++ b) here
          ∙ take_split expected (length bytes) (sent.packet key)))
        (λ _. e)

  insert-AllPieces :
      (key : FragmentKey) (offset : ℕ) (bytes : Bytes) (pieces : SortedMap Bytes)
      → IsPiece key offset bytes
      → AllPieces key pieces
      → AllPieces key (SortedMap.insert offset bytes pieces)
  unfolding SortedMap.insert AllPieces
  insert-AllPieces key offset bytes [] h all = (h, tt)
  insert-AllPieces key offset bytes ((j, old) ∷ rest) h all =
      ground (arith, insert-AllPieces key offset bytes rest h all.1)

  or_insert-AllPieces :
      (key : FragmentKey) (offset : ℕ) (bytes : Bytes) (pieces : SortedMap Bytes)
      → IsPiece key offset bytes
      → AllPieces key pieces
      → AllPieces key (or_insert offset bytes pieces)
  unfolding or_insert
  or_insert-AllPieces key offset bytes pieces h all =
      ground (arith, insert-AllPieces key offset bytes pieces h all)

  -- A piece that is found is the one at that offset.
  lookup-piece :
      (key : FragmentKey) (offset : ℕ) (bytes : Bytes) (pieces : SortedMap Bytes)
      → AllPieces key pieces
      → SortedMap.lookup offset pieces ≡ some bytes
      → bytes ≡ sent.piece key offset
  unfolding SortedMap.lookup AllPieces
  lookup-piece key offset bytes [] all e = cc
  lookup-piece key offset bytes ((j, old) ∷ rest) all e =
      ground (arith, lookup-piece key offset bytes rest all.1)

  unfoldable pub EndsWell : FragmentKey → Bool → ℕ → Type 0
  EndsWell key true n = Unit {0}
  EndsWell key false n = n ≡ length (sent.packet key)

  -- A fragment carries its piece, and the one that is said to be the last is at the end.
  unfoldable pub IsTrueFragment : FragmentKey → TdmaFragment → Bytes → Type 0
  IsTrueFragment key f bytes =
      IsPiece key f.offset bytes × EndsWell key f.is_more (f.offset + length bytes)

  end-IsTotal :
      (key : FragmentKey) (f : TdmaFragment) (bytes : Bytes) (found : Option Bytes)
      (before : Option ℕ)
      → IsTrueFragment key f bytes
      → ((b : Bytes) → found ≡ some b → b ≡ sent.piece key f.offset)
      → IsTotal key before
      → (more : Bool) → f.is_more ≡ more
      → IsTotal key (
          if more
          then before
          else (elim found [ none ↦ none | some piece ↦ some (f.offset + length piece) ]))
  unfolding IsTotal IsTrueFragment EndsWell
  end-IsTotal key f bytes found before h same t true e = t
  end-IsTotal key f bytes none before h same t false e = tt
  end-IsTotal key f bytes (some b) before h same t false e =
      let whole : f.offset + length bytes ≡ length (sent.packet key) =
        subst (λ m. EndsWell key m (f.offset + length bytes)) e h.1 in
      ap (λ x. f.offset + length x) (same b refl ∙ sym h.0.0) ∙ whole

  pub add_piece-IsTrueEntry :
      (key : FragmentKey) (now : ℕ) (f : TdmaFragment) (bytes : Bytes) (entry : Reassembly)
      → IsTrueFragment key f bytes
      → IsTrueEntry key entry
      → IsTrueEntry key (add_piece now f bytes entry)
  unfolding add_piece IsTrueFragment
  add_piece-IsTrueEntry key now f bytes entry h e =
      let pieces = or_insert-AllPieces key f.offset bytes entry.pieces h.0 e.0 in
      (
        pieces,
        end-IsTotal key f bytes (SortedMap.lookup f.offset (or_insert f.offset bytes entry.pieces))
            entry.total_len h
            (λ b found.
              lookup-piece key f.offset b (or_insert f.offset bytes entry.pieces) pieces found)
            e.1 f.is_more refl,
      )

  pub insert-IsTrueStore :
      (key : FragmentKey) (entry : Reassembly) (store : ReassemblyStore)
      → IsTrueEntry key entry
      → IsTrueStore store
      → IsTrueStore (Dict.insert key entry store)
  unfolding Dict.insert IsTrueStore
  insert-IsTrueStore key entry [] h all = (h, tt)
  insert-IsTrueStore key entry ((j, old) ∷ rest) h all =
      if-both IsTrueStore (fragment_key_Eq.eqb j key) (λ _. (h, all.1))
        (λ _. (all.0, insert-IsTrueStore key entry rest h all.1))

  pub remove-IsTrueStore :
      (key : FragmentKey) (store : ReassemblyStore)
      → IsTrueStore store
      → IsTrueStore (Dict.remove key store)
  unfolding Dict.remove IsTrueStore
  remove-IsTrueStore key [] all = tt
  remove-IsTrueStore key ((j, old) ∷ rest) all =
      if-both IsTrueStore (fragment_key_Eq.eqb j key) (λ _. remove-IsTrueStore key rest all.1)
        (λ _. (all.0, remove-IsTrueStore key rest all.1))

  pub expire-IsTrueStore :
      (r : Receiver) (now : ℕ) (store : ReassemblyStore)
      → IsTrueStore store
      → IsTrueStore (expire_reassembly r now store)
  unfolding expire_reassembly IsTrueStore
  expire-IsTrueStore r now [] all = tt
  expire-IsTrueStore r now ((j, old) ∷ rest) all =
      if-both IsTrueStore (leb (old.last_update_us + r.fragment_timeout_us) now)
        (λ _. expire-IsTrueStore r now rest all.1)
        (λ _. (all.0, expire-IsTrueStore r now rest all.1))

  -- What is found for a key, or made for it.
  pub lookup-IsTrueEntry :
      (key : FragmentKey) (store : ReassemblyStore) (now : ℕ) (info : PacketInfo)
      (kind : MessageType)
      → IsTrueStore store
      → IsTrueEntry key (entry_or_new (Dict.lookup key store) (new_entry now info kind))
  unfolding Dict.lookup IsTrueStore AllPieces IsTotal
  lookup-IsTrueEntry key [] now info kind all = (tt, tt)
  lookup-IsTrueEntry key ((j, old) ∷ rest) now info kind all =
      if-both (λ o. IsTrueEntry key (entry_or_new o (new_entry now info kind)))
        (fragment_key_Eq.eqb j key)
        (λ same. subst (λ k. IsTrueEntry k old) ((fragment_key_eq_iff j key).0 same) all.0)
        (λ _. lookup-IsTrueEntry key rest now info kind all.1)
