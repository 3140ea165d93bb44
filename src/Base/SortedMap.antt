-- ===== src/Base/SortedMap.antt =====
-- `BTreeMap<usize, V>`: a list of entries in ascending order of their keys.
pub mod Inserts
use Prim.Native.Nat.{ℕ, ◌<◌, compare, Ordering}
use mathlib.Core.Path.{◌≡◌, refl}
use mathlib.Core.Option.{Option, none, some}
use mathlib.Core.List.{List, [], ◌∷◌}
use native.Mathlib.Omega.{arith}
use emane.Base.Tests.{if◌then◌else◌, ◌==◌}

abbrev pub SortedMap {ℓ} : Type ℓ → Type ℓ
SortedMap V = List (ℕ × V)

module _ {ℓ} {V : Type ℓ} where
  unfoldable pub lookup : ℕ → SortedMap V → Option V
  lookup key [] = none
  lookup key ((j, value) ∷ rest) = if j == key then some value else lookup key rest

  -- The value is put in the place of one with the same key.
  unfoldable pub insert : ℕ → V → SortedMap V → SortedMap V
  insert key value [] = (key, value) ∷ []
  insert key value ((j, old) ∷ rest) = elim (compare j key) [
    | Ordering.lt ↦ (j, old) ∷ insert key value rest
    | Ordering.eq ↦ (key, value) ∷ rest
    | Ordering.gt ↦ (key, value) ∷ (j, old) ∷ rest
  ]

  -- Keys ascend, from more than `n` on.
  abbrev pub Above : ℕ → SortedMap V → Type 0
  Above n [] = Unit {0}
  Above n ((j, value) ∷ rest) = (n < j) × Above j rest

  abbrev pub IsSorted : SortedMap V → Type 0
  IsSorted [] = Unit {0}
  IsSorted ((j, value) ∷ rest) = Above j rest

  insert-Above :
      (n key : ℕ) (value : V) (rest : SortedMap V)
      → n < key
      → Above n rest
      → Above n (insert key value rest)
  unfolding insert
  insert-Above n key value [] h a = (h, tt)
  insert-Above n key value ((j, old) ∷ rest) h a = ground (arith, insert-Above j key value rest)

  pub insert-IsSorted :
      (key : ℕ) (value : V) (rest : SortedMap V) → IsSorted rest → IsSorted (insert key value rest)
  unfolding insert
  insert-IsSorted key value [] s = tt
  insert-IsSorted key value ((j, old) ∷ rest) s = ground (arith, insert-Above j key value rest)

  lookup-Above : (n key : ℕ) (rest : SortedMap V) → Above n rest → key < n → lookup key rest ≡ none
  unfolding lookup
  lookup-Above n key [] a h = refl
  lookup-Above n key ((j, old) ∷ rest) a h = ground (arith, lookup-Above j key rest)

  pub lookup-insert :
      (key j : ℕ) (value : V) (rest : SortedMap V)
      → lookup j (insert key value rest) ≡ (if key == j then some value else lookup j rest)
  unfolding lookup insert
  lookup-insert key j value [] = refl
  lookup-insert key j value ((i, old) ∷ rest) = ground (arith, lookup-insert key j value rest)
