-- ===== src/Tdma/Receive/InOrder.antt =====
-- The fragments of a packet that arrive in order, and in time, are put together.
use emane.Base.{
  ℕ, ◌+◌, ◌≤◌, ◌<◌, ◌≡◌, refl, sym, ap, ◌∙◌, Bool, true, false, Option, none, some, [], ◌∷◌, ◌++◌,
  length, ◌==◌, if◌then◌else◌, arith, ==_refl,
}
use mathlib.Core.List.{append_assoc, append-nil}
use emane.Base.Bytes.{Bytes}
use emane.Base.Dict
use emane.Base.SortedMap
use emane.Base.SortedMap.{SortedMap}
use emane.Tdma.Queue.{PacketInfo, MessageType}
use emane.Tdma.Receive.{
  TdmaFragment, FragmentKey, fragment_key_Eq, Reassembly, ReassemblyStore, Outcome, kept, accepted,
  or_insert, assemble, add_piece, is_total, settle_entry,
}

abbrev pub joined : SortedMap Bytes → Bytes
joined [] = []
joined ((offset, piece) ∷ rest) = piece ++ joined rest

-- Pieces that are not empty and follow each other from one offset to another.
unfoldable pub Follow : ℕ → SortedMap Bytes → ℕ → Type 0
Follow start [] end = start ≡ end
Follow start ((offset, piece) ∷ rest) end =
    (offset ≡ start) × (0 < length piece) × Follow (start + length piece) rest end

Follow-le : (start end : ℕ) (pieces : SortedMap Bytes) → Follow start pieces end → start ≤ end
unfolding Follow
Follow-le start end [] h = omega arith
Follow-le start end ((offset, piece) ∷ rest) h =
    omega (arith, Follow-le (start + length piece) end rest h.2)

assemble-Follow :
    (start end : ℕ) (pieces : SortedMap Bytes) (acc : Bytes)
    → Follow start pieces end
    → assemble pieces start acc ≡ (end, acc ++ joined pieces)
unfolding assemble Follow
assemble-Follow start end [] acc h =
    ap (λ n. (n, acc)) h ∙ ap (λ b. (end, b)) (sym (append-nil acc))
assemble-Follow start end ((offset, piece) ∷ rest) acc h =
    let same : (offset == start) ≡ true = ground (arith, h.0) in
    rw same (
      assemble-Follow (start + length piece) end rest (acc ++ piece) h.2
      ∙ ap (λ b. (end, b)) (append_assoc acc piece (joined rest)))

pub Follow-append :
    (start end : ℕ) (pieces : SortedMap Bytes) (piece : Bytes)
    → 0 < length piece
    → Follow start pieces end
    → Follow start (pieces ++ ((end, piece) ∷ [])) (end + length piece)
unfolding Follow
Follow-append start end [] piece p h = (sym h, p, ap (λ n. n + length piece) h)
Follow-append start end ((offset, first) ∷ rest) piece p h =
    (h.0, h.1, Follow-append (start + length first) end rest piece p h.2)

lookup-Follow :
    (start end : ℕ) (pieces : SortedMap Bytes)
    → Follow start pieces end
    → SortedMap.lookup end pieces ≡ none
unfolding SortedMap.lookup Follow
lookup-Follow start end [] h = refl
lookup-Follow start end ((offset, first) ∷ rest) h = ground (
  arith,
  Follow-le (start + length first) end rest h.2,
  lookup-Follow (start + length first) end rest h.2,
)

insert-Follow :
    (start end : ℕ) (pieces : SortedMap Bytes) (piece : Bytes)
    → Follow start pieces end
    → SortedMap.insert end piece pieces ≡ pieces ++ ((end, piece) ∷ [])
unfolding SortedMap.insert Follow
insert-Follow start end [] piece h = refl
insert-Follow start end ((offset, first) ∷ rest) piece h = ground (
  arith,
  Follow-le (start + length first) end rest h.2,
  insert-Follow (start + length first) end rest piece h.2,
)

or_insert-Follow :
    (start end : ℕ) (pieces : SortedMap Bytes) (piece : Bytes)
    → Follow start pieces end
    → or_insert end piece pieces ≡ pieces ++ ((end, piece) ∷ [])
unfolding or_insert
or_insert-Follow start end pieces piece h =
    rw (lookup-Follow start end pieces h, or_insert) (insert-Follow start end pieces piece h)

pub joined-append :
    (pieces : SortedMap Bytes) (end : ℕ) (piece : Bytes)
    → joined (pieces ++ ((end, piece) ∷ [])) ≡ joined pieces ++ piece
joined-append [] end piece = append-nil piece
joined-append ((offset, first) ∷ rest) end piece =
    ap (λ b. first ++ b) (joined-append rest end piece)
    ∙ sym (append_assoc first (joined rest) piece)

lookup-appended :
    (start end : ℕ) (pieces : SortedMap Bytes) (piece : Bytes)
    → Follow start pieces end
    → SortedMap.lookup end (pieces ++ ((end, piece) ∷ [])) ≡ some piece
unfolding SortedMap.lookup Follow
lookup-appended start end [] piece h = ground arith
lookup-appended start end ((offset, first) ∷ rest) piece h = ground (
  arith,
  Follow-le (start + length first) end rest h.2,
  lookup-appended (start + length first) end rest piece h.2,
)

-- The entry of a packet of which the pieces up to an offset have come.
pub record HasFirst (info : PacketInfo) (done : SortedMap Bytes) (end : ℕ) (entry : Reassembly)
    : Type 0 where
  pub same_info : entry.info ≡ info
  pub no_total : entry.total_len ≡ none
  pub first_pieces : entry.pieces ≡ done
  pub follow : Follow 0 done end

chosen {ℓ} :
    {A : Type ℓ} (more : Bool) (n : ℕ) (whole : A) (part : Option ℕ → A)
    → (if is_total (if more then none else some n) n
        then whole
        else part (if more then none else some n))
      ≡ (if more then part none else whole)
chosen true n whole part = refl
chosen false n whole part = rw (==_refl n)

-- The next piece is kept, or, where it is the last, completes the packet.
pub settle-next :
    (info : PacketInfo) (done : SortedMap Bytes) (end : ℕ) (entry : Reassembly) (now : ℕ)
    (kind : MessageType) (f : TdmaFragment) (bytes : Bytes) (key : FragmentKey)
    (store : ReassemblyStore)
    → HasFirst info done end entry
    → 0 < length bytes
    → f.offset ≡ end
    → settle_entry key kind (add_piece now f bytes entry) store ≡ (
        if f.is_more
        then (
          kept,
          Dict.insert key
              (record entry {
                last_update_us = now;
                total_len = none;
                pieces = done ++ ((end, bytes) ∷ []);
              })
              store,
        )
        else (
          accepted kind (record { info = info; payload = joined done ++ bytes }),
          Dict.remove key store,
        ))
unfolding settle_entry add_piece
settle-next info done end entry now kind f bytes key store h p e =
    let inserted : or_insert f.offset bytes entry.pieces ≡ done ++ ((end, bytes) ∷ []) =
      ap (λ o. or_insert o bytes entry.pieces) e
      ∙ ap (or_insert end bytes) h.first_pieces
      ∙ or_insert-Follow 0 end done bytes h.follow in
    let whole : assemble (done ++ ((end, bytes) ∷ [])) 0 []
        ≡ (end + length bytes, joined done ++ bytes) =
      assemble-Follow 0 (end + length bytes) (done ++ ((end, bytes) ∷ [])) []
        (Follow-append 0 end done bytes p h.follow)
      ∙ ap (λ b. (end + length bytes, b)) (joined-append done end bytes) in
    let total : (if f.is_more
          then entry.total_len
          else (elim (SortedMap.lookup f.offset (done ++ ((end, bytes) ∷ []))) [
            | none ↦ none
            | some piece ↦ some (f.offset + length piece)
          ]))
        ≡ (if f.is_more then none else some (end + length bytes)) =
      ap
        (λ o.
          if f.is_more
          then entry.total_len
          else (elim (SortedMap.lookup o (done ++ ((end, bytes) ∷ []))) [
            | none ↦ none
            | some piece ↦ some (o + length piece)
          ]))
        e
      ∙ rw (lookup-appended 0 end done bytes h.follow) (rw h.no_total) in
    let complete : PacketInfo → Outcome × ReassemblyStore = λ i. (
      accepted kind (record { info = i; payload = joined done ++ bytes }),
      Dict.remove key store,
    ) in
    let keep : Option ℕ → Outcome × ReassemblyStore = λ t. (
      kept,
      Dict.insert key
          (record entry {
            last_update_us = now;
            total_len = t;
            pieces = done ++ ((end, bytes) ∷ []);
          })
          store,
    ) in
    rw inserted (
      rw whole (
        ap (λ t. if is_total t (end + length bytes) then complete entry.info else keep t) total
        ∙ chosen f.is_more (end + length bytes) (complete entry.info) keep
        ∙ ap (λ i. if f.is_more then keep none else complete i) h.same_info))
