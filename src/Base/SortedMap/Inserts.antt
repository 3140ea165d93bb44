-- ===== src/Base/SortedMap/Inserts.antt =====
-- Insertion of many entries with distinct keys, in different orders.
use Prim.Native.Nat.{ℕ, ◌<◌}
use mathlib.Core.Path.{◌≡◌, refl, sym, ap, ap₂, subst, ◌∙◌}
use mathlib.Core.Logic.{◌≢◌}
use mathlib.Core.List.{List, [], ◌∷◌, ◌++◌, Permᴰ, append_assoc}
use native.Mathlib.Omega.{arith}
use emane.Base.SortedMap.{SortedMap, insert, IsSorted, Above}

module _ {ℓ} {V : Type ℓ} where
  unfoldable pub inserts : SortedMap V → List (ℕ × V) → SortedMap V
  inserts m [] = m
  inserts m ((k, v) ∷ es) = inserts (insert k v m) es

  abbrev pub IsFresh : ℕ → List (ℕ × V) → Type 0
  IsFresh k [] = Unit {0}
  IsFresh k ((j, v) ∷ es) = (k ≢ j) × IsFresh k es

  abbrev pub AreDistinct : List (ℕ × V) → Type 0
  AreDistinct [] = Unit {0}
  AreDistinct ((k, v) ∷ es) = IsFresh k es × AreDistinct es

  insert_comm :
      (k j : ℕ) (v w : V) (m : SortedMap V)
      → k ≢ j
      → insert k v (insert j w m) ≡ insert j w (insert k v m)
  unfolding insert
  insert_comm k j v w [] n = ground arith
  insert_comm k j v w ((i, u) ∷ m) n = ground (arith, insert_comm k j v w m)

  IsFresh-perm : (k : ℕ) {xs ys : List (ℕ × V)} → Permᴰ xs ys → IsFresh k xs → IsFresh k ys
  IsFresh-perm k Permᴰ.nil f = f
  IsFresh-perm k (Permᴰ.cons {a} {b} e p) f = (subst (λ x. k ≢ x.0) e f.0, IsFresh-perm k p f.1)
  IsFresh-perm k (Permᴰ.swap e d) f =
      (subst (λ x. k ≢ x.0) d f.1.0, (subst (λ x. k ≢ x.0) e f.0, f.1.1))
  IsFresh-perm k (Permᴰ.trans p q) f = IsFresh-perm k q (IsFresh-perm k p f)

  pub AreDistinct-perm : {xs ys : List (ℕ × V)} → Permᴰ xs ys → AreDistinct xs → AreDistinct ys
  AreDistinct-perm Permᴰ.nil f = f
  AreDistinct-perm (Permᴰ.cons {a} {b} {l₁} {l₂} e p) f =
      (subst (λ x. IsFresh x.0 l₂) e (IsFresh-perm a.0 p f.0), AreDistinct-perm p f.1)
  AreDistinct-perm (Permᴰ.swap {a} {b} {a'} {b'} {l} e d) f = (
    (
      λ q. f.0.0 (ap (λ x. x.0) e ∙ sym q ∙ sym (ap (λ x. x.0) d)),
      subst (λ x. IsFresh x.0 l) d f.1.0,
    ),
    (subst (λ x. IsFresh x.0 l) e f.0.1, f.1.1),
  )
  AreDistinct-perm (Permᴰ.trans p q) f = AreDistinct-perm q (AreDistinct-perm p f)

  -- Entries with distinct keys give the same map in every order.
  pub inserts-perm :
      {xs ys : List (ℕ × V)}
      → Permᴰ xs ys
      → AreDistinct xs
      → (m : SortedMap V) → inserts m xs ≡ inserts m ys
  unfolding inserts
  inserts-perm Permᴰ.nil f m = refl
  inserts-perm (Permᴰ.cons {a} {b} {l₁} {l₂} e p) f m =
      inserts-perm p f.1 (insert a.0 a.1 m) ∙ ap (λ x. inserts (insert x.0 x.1 m) l₂) e
  inserts-perm (Permᴰ.swap {a} {b} {a'} {b'} {l} e d) f m =
      ap (λ n. inserts n l) (insert_comm b.0 a.0 b.1 a.1 m (λ q. f.0.0 (sym q)))
      ∙ ap₂ (λ x y. inserts (insert x.0 x.1 (insert y.0 y.1 m)) l) e d
  inserts-perm (Permᴰ.trans p q) f m = inserts-perm p f m ∙ inserts-perm q (AreDistinct-perm p f) m

  -- Every key lies below `n`.
  abbrev pub Below : ℕ → SortedMap V → Type 0
  Below n [] = Unit {0}
  Below n ((j, v) ∷ m) = (j < n) × Below n m

  insert_last : (k : ℕ) (v : V) (m : SortedMap V) → Below k m → insert k v m ≡ m ++ (k, v) ∷ []
  unfolding insert
  insert_last k v [] b = refl
  insert_last k v ((j, w) ∷ m) b = ground (arith, insert_last k v m)

  Below-append :
      (n : ℕ) (m : SortedMap V) (k : ℕ) (v : V) → k < n → Below k m → Below n (m ++ (k, v) ∷ [])
  Below-append n [] k v h b = (h, tt)
  Below-append n ((j, w) ∷ m) k v h b = (omega arith, Below-append n m k v h b.1)

  inserts_sorted :
      (k : ℕ) (v : V) (m es : SortedMap V)
      → Below k m
      → Above k es
      → inserts m ((k, v) ∷ es) ≡ m ++ (k, v) ∷ es
  unfolding inserts
  inserts_sorted k v m [] b a = insert_last k v m b
  inserts_sorted k v m ((j, w) ∷ es) b a =
      ap (λ n. inserts n ((j, w) ∷ es)) (insert_last k v m b)
      ∙ inserts_sorted j w (m ++ (k, v) ∷ []) es (Below-append j m k v a.0 b) a.1
      ∙ append_assoc m ((k, v) ∷ []) ((j, w) ∷ es)

  -- The entries of a sorted map, put into an empty one, give it back.
  pub inserts-IsSorted : (es : SortedMap V) → IsSorted es → inserts [] es ≡ es
  unfolding inserts
  inserts-IsSorted [] s = refl
  inserts-IsSorted ((k, v) ∷ es) s = inserts_sorted k v [] es tt s
