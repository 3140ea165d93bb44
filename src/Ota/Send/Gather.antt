-- ===== src/Ota/Send/Gather.antt =====
-- The three copies of the send loop against a slice of the whole payload.
use emane.Base.{
  ℕ, zero, suc, ◌+◌, ◌-◌, ◌≤◌, ◌≡◌, refl, ap, sym, ◌∙◌, ◌⊎◌, inl, inr, [], ◌∷◌, ◌++◌, length, take,
  drop, min, length-drop, drop_all, arith,
}
use emane.Base.Bytes.{Bytes}
use emane.Ota.Send.{Sections, copy_section, gather}

-- The payload as a whole.
abbrev pub payload : Sections → Bytes
payload s = s.events ++ (s.controls ++ s.packet)

take_zero : (n : ℕ) (xs : Bytes) → n ≡ 0 → take n xs ≡ []
take_zero n xs e = rw e

take-drop-nil : (n o : ℕ) → take n (drop {A = ℕ} o []) ≡ []
take-drop-nil zero o = refl
take-drop-nil (suc n) zero = refl
take-drop-nil (suc n) (suc o) = refl

reindex :
    (a b i j : ℕ) (xs : Bytes) → a ≡ b → (a ≡ 0) ⊎ (i ≡ j) → take a (drop i xs) ≡ take b (drop j xs)
reindex a b i j xs e (inl z) = take_zero a _ z ∙ sym (take_zero b _ (omega arith))
reindex a b i j xs e (inr d) = rw (e, d)

take-drop-append :
    (n o : ℕ) (xs ys : Bytes)
    → take n (drop o (xs ++ ys))
      ≡ take n (drop o xs) ++ take (n - (length xs - o)) (drop (o - length xs) ys)
take-drop-append n o [] ys =
    rw (take-drop-nil n o) (reindex n (n - (0 - o)) o (o - 0) ys (omega arith) (inr (omega arith)))
take-drop-append zero zero (x ∷ xs) ys = sym (take_zero (0 - (suc (length xs) - 0)) _ (omega arith))
take-drop-append (suc n) zero (x ∷ xs) ys = ap (◌∷◌ x) (
    take-drop-append n zero xs ys
    ∙ ap (◌++◌ (take n xs)) (
        reindex (n - (length xs - 0)) (suc n - (suc (length xs) - 0)) (0 - length xs)
          (0 - suc (length xs)) ys (omega arith) (inr (omega arith))))
take-drop-append n (suc o) (x ∷ xs) ys =
    take-drop-append n o xs ys
    ∙ ap (◌++◌ (take n (drop o xs))) (
        reindex (n - (length xs - o)) (n - (suc (length xs) - suc o)) (o - length xs)
          (suc o - suc (length xs)) ys (omega arith) (inr (omega arith)))

take-min : (n : ℕ) (xs : Bytes) (k : ℕ) → k ≡ min n (length xs) → take k xs ≡ take n xs
take-min zero xs k e = rw e (take_zero _ xs (omega arith))
take-min (suc n) [] k e = take-drop-nil k 0
take-min (suc n) (x ∷ xs) zero e = absurd (omega arith)
take-min (suc n) (x ∷ xs) (suc k) e = ap (◌∷◌ x) (take-min n xs k (omega arith))

-- A copy starts within its section or behind it, unless nothing is left to copy.
abbrev IsBehind : ℕ → ℕ → ℕ → Type 0
IsBehind start size offset = (start ≤ offset) ⊎ (size ≡ 0)

module _ (xs : Bytes) (start size offset : ℕ) (b : IsBehind start size offset) where
  copy_section-bytes : (copy_section xs start size offset).0 ≡ take size (drop (offset - start) xs)
  unfolding copy_section
  copy_section-bytes = ground (
    arith,
    length-drop (offset - start) xs,
    drop_all (offset - start) xs,
    take-min size (drop (offset - start) xs) (min size (length xs - (offset - start))),
    take-drop-nil size 0,
  )

  copy_section-size : (copy_section xs start size offset).1 ≡ size - (length xs - (offset - start))
  unfolding copy_section
  copy_section-size = ground arith

  copy_section-offset :
      (copy_section xs start size offset).2 ≡ offset + min size (length xs - (offset - start))
  unfolding copy_section
  copy_section-offset = ground arith

  module _ (end : ℕ) (e : end ≡ start + length xs) where
    -- What is left of the whole payload behind this section.
    copy_section-rest :
        (ys : Bytes)
        → take size (drop (offset - start) (xs ++ ys))
          ≡ (copy_section xs start size offset).0
            ++ take
                (copy_section xs start size offset).1
                (drop ((copy_section xs start size offset).2 - end) ys)
    copy_section-rest ys =
        take-drop-append size (offset - start) xs ys
        ∙ ap
            (λ t.
              t
              ++ take (size - (length xs - (offset - start)))
                  (drop (offset - start - length xs) ys))
            (sym copy_section-bytes)
        ∙ ap (◌++◌ (copy_section xs start size offset).0)
            (reindex _ _ _ _ ys (sym copy_section-size) (ground (arith, copy_section-offset)))

    copy_section-IsBehind :
        IsBehind end (copy_section xs start size offset).1 (copy_section xs start size offset).2
    copy_section-IsBehind = ground (arith, copy_section-size, copy_section-offset)

-- The bytes that the copies put into a datagram are those at its offset in the whole payload:
-- the events, the controls and the packet behind each other.
pub gather-slice :
    (s : Sections) (sent_bytes payload_size : ℕ)
    → gather s sent_bytes payload_size ≡ take payload_size (drop sent_bytes (payload s))
unfolding gather
gather-slice s sent_bytes payload_size =
    let c₁ : ℕ = length s.events in
    let c₂ : ℕ = length s.events + length s.controls in
    let (bytes₁, size₁, offset₁) = copy_section s.events 0 payload_size sent_bytes in
    let start : IsBehind 0 payload_size sent_bytes = inl (omega arith) in
    let behind₁ = copy_section-IsBehind s.events 0 payload_size sent_bytes start c₁ (omega arith) in
    let (bytes₂, size₂, offset₂) = copy_section s.controls c₁ size₁ offset₁ in
    let behind₂ = copy_section-IsBehind s.controls c₁ size₁ offset₁ behind₁ c₂ refl in
    ap (λ t. bytes₁ ++ (bytes₂ ++ t)) (copy_section-bytes s.packet c₂ size₂ offset₂ behind₂)
    ∙ ap (◌++◌ bytes₁)
        (sym (copy_section-rest s.controls c₁ size₁ offset₁ behind₁ c₂ refl s.packet))
    ∙ sym (
        copy_section-rest s.events 0 payload_size sent_bytes start c₁ (omega arith)
          (s.controls ++ s.packet))
    ∙ reindex payload_size payload_size (sent_bytes - 0) sent_bytes (payload s) refl
        (inr (omega arith))
