-- ===== src/Base/Dict.antt =====
-- `HashMap`, as a list of entries: the order of the entries is that of insertion, and stands for
-- the unspecified order of the hash map. An entry that is replaced keeps its place.
use mathlib.Core.Path.{◌≡◌, refl}
use mathlib.Core.Logic.{◌↔◌}
use mathlib.Core.Bool.{Bool, true}
use mathlib.Core.Option.{Option, none, some}
use mathlib.Core.List.{List, [], ◌∷◌}
use native.Mathlib.Omega.{arith}
use emane.Base.Tests.{if◌then◌else◌, ◌==◌, ==_iff}
use Prim.Native.Nat.{ℕ}

-- The bound `Eq + Hash` of the keys.
pub record Eq {ℓ} (K : Type ℓ) : Type ℓ where
  pub eqb : K → K → Bool
  pub eqb_iff : (a b : K) → (eqb a b ≡ true) ↔ (a ≡ b)

instance abbrev pub nat_eq : Eq ℕ
nat_eq = record { eqb = λ a b. a == b; eqb_iff = ==_iff }

pub eqb_refl {ℓ} : {K : Type ℓ} ⦃e : Eq K⦄ (key : K) → e.eqb key key ≡ true
eqb_refl ⦃e⦄ key = (e.eqb_iff key key).1 refl

abbrev pub Dict {ℓ κ} : Type ℓ → Type κ → Type (ℓ ⊔ κ)
Dict K V = List (K × V)

module _ {ℓ κ} {K : Type ℓ} {V : Type κ} ⦃e : Eq K⦄ where
  unfoldable pub lookup : K → Dict K V → Option V
  lookup key [] = none
  lookup key ((j, value) ∷ rest) = if e.eqb j key then some value else lookup key rest

  unfoldable pub insert : K → V → Dict K V → Dict K V
  insert key value [] = (key, value) ∷ []
  insert key value ((j, old) ∷ rest) =
      if e.eqb j key then (key, value) ∷ rest else (j, old) ∷ insert key value rest

  unfoldable pub remove : K → Dict K V → Dict K V
  remove key [] = []
  remove key ((j, old) ∷ rest) = if e.eqb j key then remove key rest else (j, old) ∷ remove key rest

  pub lookup-insert :
      (key j : K) (value : V) (rest : Dict K V)
      → lookup j (insert key value rest) ≡ (if e.eqb key j then some value else lookup j rest)
  unfolding lookup insert
  lookup-insert key j value [] = refl
  lookup-insert key j value ((i, old) ∷ rest) =
      ground
        (arith, e.eqb_iff key j, e.eqb_iff i key, e.eqb_iff i j, lookup-insert key j value rest)

  pub lookup-remove :
      (key j : K) (rest : Dict K V)
      → lookup j (remove key rest) ≡ (if e.eqb key j then none else lookup j rest)
  unfolding lookup remove
  lookup-remove key j [] = ground arith
  lookup-remove key j ((i, old) ∷ rest) =
      ground (arith, e.eqb_iff key j, e.eqb_iff i key, e.eqb_iff i j, lookup-remove key j rest)

  pub lookup-insert_self :
      (key : K) (value : V) (rest : Dict K V) → lookup key (insert key value rest) ≡ some value
  lookup-insert_self key value rest = simp (lookup-insert, eqb_refl)
