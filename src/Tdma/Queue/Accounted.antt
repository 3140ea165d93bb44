-- ===== src/Tdma/Queue/Accounted.antt =====
-- The packets and the bytes that `take_transmission` moves: what waited, what is sent, what still waits.
use emane.Base.{
  ℕ, ◌+◌, ◌-◌, ◌≡◌, ◌<◌, refl, ap, ◌∙◌, sym, Option, none, some, List, [], ◌∷◌, ◌++◌, arith, length,
  ltb, if◌then◌else◌, min, take, drop, inl, inr, Bool-cases,
}
use emane.Base.Bytes.{Bytes}
use emane.Tdma.Queue.{QueuedPacket, TxState, queue_at, split_queue}
use emane.Tdma.Queue.Removed.{weigh, weigh_all, weigh-append, set_split}
use emane.Tdma.Queue.Take.{Effect, Transmission, TxSlot, remaining, advance, take_from}
use emane.Tdma.Queue.Taken.{Taken, nothing, next, sent}
use emane.Tdma.Queue.Conserved.{lost, drop_too_big-weight, take_from-queues, take_from-bytes}
use emane.Tdma.Schedule.{Schedule}

-- The bytes of a packet that wait.
abbrev pub waiting : QueuedPacket → Bytes
waiting q = drop q.offset q.payload

unfoldable pub AreTooBig : ℕ → List QueuedPacket → Type 0
AreTooBig available [] = Unit {0}
AreTooBig available (q ∷ qs) = (available < remaining q) × AreTooBig available qs

module _ {ℓ} {F : Type ℓ} where
  -- A transmission carries the first bytes that wait in a packet, and says where they stand in it.
  pub record IsFrontOf (t : Transmission F) (q : QueuedPacket) : Type 0 where
    pub bytes : t.bytes ≡ take (length t.bytes) (waiting q)
    pub info : t.info ≡ q.info
    pub sequence : t.sequence ≡ q.sequence
    pub offset : t.offset ≡ q.offset
    pub more : t.more ≡ ltb (length t.bytes) (remaining q)

  -- The packet that a transmission is from, and what of it is left to wait: nothing where no bytes
  -- follow, else the packet with its offset moved on.
  unfoldable pub IsTaken : Option (Transmission F) → List QueuedPacket → List QueuedPacket → Type 0
  IsTaken none taken left = (taken ≡ []) × (left ≡ [])
  IsTaken (some t) taken left =
      (q : QueuedPacket) × ((taken ≡ q ∷ [])
        × (left ≡ (if t.more then advance q (length t.bytes) ∷ [] else []))
        × IsFrontOf t q)

  -- Of the packets that waited, which are weighed one by one by any weight, some were dropped, and one may have
  -- been taken, of which a rest may be left; all others wait as before.
  pub record IsAccounted (available : ℕ) (s s' : TxState) (t : Option (Transmission F))
      (effects : List Effect) : Type 0 where
    pub dropped : List QueuedPacket
    pub taken : List QueuedPacket
    pub left : List QueuedPacket
    pub moved :
        (f : QueuedPacket → ℕ)
        → weigh_all f s.queues + weigh f left
          ≡ weigh_all f s'.queues + weigh f taken + weigh f dropped
    pub from_front : IsTaken t taken left
    pub too_big : AreTooBig available dropped
    pub reported : lost effects ≡ weigh (λ q. length q.payload) dropped

module _ {ℓ} {F : Type ℓ} (schedule : Schedule F) (absolute_slot : ℕ) (slot_info : TxSlot F) where
  take_from-IsFrontOf :
      (s : TxState) (index : ℕ) (before behind : List QueuedPacket) (q : QueuedPacket)
      (available : ℕ)
      → IsFrontOf (take_from schedule absolute_slot slot_info s index before q behind available).1 q
  unfolding take_from
  take_from-IsFrontOf s index before behind q available =
      let n : ℕ = min (remaining q) available in
      let size =
        take_from-bytes schedule absolute_slot slot_info s index before behind q available in
      let sliced : q.offset + n - q.offset ≡ n = omega arith in
      let follows : ltb (q.offset + n) (length q.payload) ≡ ltb n (remaining q) = ground arith in
      record {
        bytes = ap (λ k. take k (waiting q)) (sliced ∙ sym size);
        info = refl;
        sequence = refl;
        offset = refl;
        more = follows ∙ ap (λ k. ltb k (remaining q)) (sym size);
      }

  take_from-left :
      (s : TxState) (index : ℕ) (before behind : List QueuedPacket) (q : QueuedPacket)
      (available : ℕ)
      → let t = (take_from schedule absolute_slot slot_info s index before q behind available).1 in
        (if ltb (q.offset + min (remaining q) available) (length q.payload)
          then advance q (min (remaining q) available) ∷ []
          else [])
        ≡ (if t.more then advance q (length t.bytes) ∷ [] else [])
  unfolding take_from
  take_from-left s index before behind q available =
      ap
        (λ k.
          if ltb (q.offset + min (remaining q) available) (length q.payload)
          then advance q k ∷ []
          else [])
        (sym (take_from-bytes schedule absolute_slot slot_info s index before behind q available))

  take_from-moved :
      (s : TxState) (index destination : ℕ) (before behind : List QueuedPacket) (q : QueuedPacket)
      (available : ℕ) (f : QueuedPacket → ℕ)
      → split_queue destination (queue_at s index) ≡ some (before, q, behind)
      → weigh_all f s.queues
          + weigh f (
              if ltb (q.offset + min (remaining q) available) (length q.payload)
              then advance q (min (remaining q) available) ∷ []
              else [])
        ≡ weigh_all f
            (take_from schedule absolute_slot slot_info s index before q behind available).0.queues
          + f q
  unfolding weigh
  take_from-moved s index destination before behind q available f found =
      rw (take_from-queues schedule absolute_slot slot_info s index before behind q available)
        (elim (Bool-cases (ltb (q.offset + min (remaining q) available) (length q.payload))) [
          | inl more ↦ rw more (
              ground (
                arith,
                set_split f s.queues index destination before behind
                    (before ++ advance q (min (remaining q) available) ∷ behind) q found,
                weigh-append f before (advance q (min (remaining q) available) ∷ behind),
              ))
          | inr last ↦ rw last (
              ground (
                arith,
                set_split f s.queues index destination before behind (before ++ behind) q found,
                weigh-append f before behind,
              ))
        ])

  pub Taken-IsAccounted :
      {available : ℕ} {s s' : TxState} {t : Option (Transmission F)} {effects : List Effect}
      → Taken schedule absolute_slot slot_info available s s' t effects
      → IsAccounted available s s' t effects
  unfolding IsTaken AreTooBig lost weigh
  Taken-IsAccounted {available} (nothing {s}) = record {
    dropped = [];
    taken = [];
    left = [];
    moved = λ f. omega arith;
    from_front = (refl, refl);
    too_big = tt;
    reported = refl;
  }
  Taken-IsAccounted {available} (next {s} {s'} {t} {effects} index before behind q found big rest) =
      let h = Taken-IsAccounted rest in
      record {
        dropped = q ∷ h.dropped;
        taken = h.taken;
        left = h.left;
        moved = λ f. omega (
          arith,
          h.moved f,
          drop_too_big-weight f s index slot_info.destination before behind q found,
        );
        from_front = h.from_front;
        too_big = (big, h.too_big);
        reported = omega (arith, h.reported);
      }
  Taken-IsAccounted {available} (sent {s} index before behind q found) = record {
    dropped = [];
    taken = q ∷ [];
    left =
        if ltb (q.offset + min (remaining q) available) (length q.payload)
        then advance q (min (remaining q) available) ∷ []
        else [];
    moved = λ f.
        omega
          (arith, take_from-moved s index slot_info.destination before behind q available f found);
    from_front = (
      q,
      (
        refl,
        take_from-left s index before behind q available,
        take_from-IsFrontOf s index before behind q available,
      ),
    );
    too_big = tt;
    reported = refl;
  }
