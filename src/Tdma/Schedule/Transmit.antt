-- ===== src/Tdma/Schedule/Transmit.antt =====
-- Slots of a valid schedule, and the search for the next transmit slot.
use native.Mathlib.Nat.{div-eq_of_eq-mul_left, mod-lt, mod-mod, mod-add-mod, add-mod_right}
use emane.Base.{
  ℕ, zero, suc, ◌+◌, ◌*◌, ◌%◌, ◌-◌, ◌≤◌, ◌<◌, ◌≡◌, refl, ap, ◌∙◌, sym, subst, ◌⊎◌, inl, inr, true,
  false, none, some, List, [], ◌∷◌, length, get_elem?, ltb, arith, Bool-cases,
}
use emane.Base.Int.{pos}
use emane.Tdma.Schedule.{
  Slot, Schedule, cycle_slots, slot, absolute_slot, slot_start, is_tx, find_tx, next_tx, u64_mod,
  i64_max,
}

-- Each place of the cycle comes within a cycle after any slot.
same_place : (c after m : ℕ) → 0 < c → (j : ℕ) × (1 ≤ j) × (j ≤ c) × ((after + j) % c ≡ m % c)
same_place c after m h = elim (Bool-cases (ltb (after % c) (m % c))) [
  | inl lt ↦ (
    m % c - after % c,
    ground arith,
    omega (arith, mod-lt m h),
    sym (mod-add-mod after c (m % c - after % c))
        ∙ ap (λ t. t % c) {x = after % c + (m % c - after % c)} {y = m % c} (ground arith)
        ∙ mod-mod m c,
  )
  | inr ge ↦ (
    m % c + c - after % c,
    omega (arith, mod-lt after h),
    ground (arith, mod-lt after h),
    sym (mod-add-mod after c (m % c + c - after % c))
        ∙ ap (λ t. t % c) {x = after % c + (m % c + c - after % c)} {y = m % c + c}
            (omega (arith, mod-lt after h))
        ∙ add-mod_right (m % c) c
        ∙ mod-mod m c,
  )
]

module _ {ℓ} {F : Type ℓ} where
  get_elem?-some :
      (xs : List (Slot F)) (i : ℕ) → i < length xs → (x : Slot F) × (get_elem? xs i ≡ some x)
  get_elem?-some [] i h = absurd (omega arith)
  get_elem?-some (x ∷ xs) zero h = (x, refl)
  get_elem?-some (x ∷ xs) (suc i) h = get_elem?-some xs i (omega arith)

  -- Every absolute slot of a schedule with a slot for each place of its cycle, which is not empty,
  -- exists: the index does not panic.
  pub slot-some :
      (s : Schedule F) (absolute : ℕ)
      → 0 < cycle_slots s
      → length s.slots ≡ cycle_slots s
      → (x : Slot F) × (slot s absolute ≡ some x)
  unfolding slot
  slot-some s absolute h e =
      get_elem?-some s.slots (absolute % cycle_slots s) (omega (arith, mod-lt absolute h))

  find_tx-found :
      (s : Schedule F) (after rounds offset : ℕ) {i : ℕ}
      → after + offset + rounds ≤ u64_mod
      → find_tx s after rounds offset ≡ some i
      → (after + offset ≤ i) × (i < after + offset + rounds) × (is_tx (slot s i) ≡ true)
  unfolding find_tx
  find_tx-found s after zero offset u e = cc
  find_tx-found s after (suc rounds) offset {i} u e =
      ground (arith, find_tx-found s after rounds (suc offset) {i = i})

  find_tx-first :
      (s : Schedule F) (after rounds offset m : ℕ) {i : ℕ}
      → after + offset + rounds ≤ u64_mod
      → find_tx s after rounds offset ≡ some i
      → after + offset ≤ m
      → m < i
      → is_tx (slot s m) ≡ false
  unfolding find_tx
  find_tx-first s after zero offset m u e l h = cc
  find_tx-first s after (suc rounds) offset m {i} u e l h = ground (
    arith,
    find_tx-first s after rounds (suc offset) m {i = i},
    subst (λ k. is_tx (slot s k) ≡ false) {x = after + offset} {y = m},
  )

  find_tx-none :
      (s : Schedule F) (after rounds offset m : ℕ)
      → after + offset + rounds ≤ u64_mod
      → find_tx s after rounds offset ≡ none
      → after + offset ≤ m
      → m < after + offset + rounds
      → is_tx (slot s m) ≡ false
  unfolding find_tx
  find_tx-none s after zero offset m u e l h = absurd (omega arith)
  find_tx-none s after (suc rounds) offset m u e l h = ground (
    arith,
    find_tx-none s after rounds (suc offset) m,
    subst (λ k. is_tx (slot s k) ≡ false) {x = after + offset} {y = m},
  )

  -- As long as slot numbers stay in range: a slot that `next_tx` finds is a transmit slot within the
  -- next cycle, and no slot `m` between the start of the search and that slot is one.
  pub next_tx-some :
      (s : Schedule F) (after m : ℕ) {i : ℕ}
      → after + 1 + cycle_slots s ≤ u64_mod
      → next_tx s after ≡ some i
      → (after < i)
        × (i ≤ after + cycle_slots s)
        × (is_tx (slot s i) ≡ true)
        × ((m ≤ after) ⊎ ((i ≤ m) ⊎ (is_tx (slot s m) ≡ false)))
  unfolding next_tx
  next_tx-some s after m {i} u e = ground (
    arith,
    find_tx-found s after (cycle_slots s) 1 {i = i},
    find_tx-first s after (cycle_slots s) 1 m {i = i},
  )

  -- As long as slot numbers stay in range: where `next_tx` finds none, a schedule whose cycle is not
  -- empty has no transmit slot at all.
  pub next_tx-none :
      (s : Schedule F) (after m : ℕ)
      → 0 < cycle_slots s
      → after + 1 + cycle_slots s ≤ u64_mod
      → next_tx s after ≡ none
      → is_tx (slot s m) ≡ false
  unfolding next_tx slot
  next_tx-none s after m h u e =
      let (j, low, high, same) = same_place (cycle_slots s) after m h in
      ap (λ k. is_tx (get_elem? s.slots k)) (sym same)
      ∙ find_tx-none s after (cycle_slots s) 1 (after + j) u e (omega arith) (omega arith)

  -- The start of a slot lies in that slot, as long as it is a time that an `i64` holds and slots have
  -- a duration.
  pub absolute_slot-slot_start :
      (s : Schedule F) (absolute : ℕ)
      → 0 < s.slot_duration_us
      → absolute * s.slot_duration_us ≤ i64_max
      → absolute_slot s (pos (slot_start s absolute)) ≡ absolute
  unfolding absolute_slot slot_start
  absolute_slot-slot_start s absolute h u = div-eq_of_eq-mul_left h (ground arith)
