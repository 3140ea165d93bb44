-- ===== src/Ota/Reassembly/Cut.antt =====
-- A payload cut into pieces: what the parts of one packet are, in any order.
use mathlib.Core.List.{Permᴰ}
use emane.Base.{
  ℕ, ◌+◌, ◌≤◌, ◌<◌, ◌≡◌, refl, ap, ◌∙◌, subst, true, none, List, [], ◌∷◌, length, arith,
}
use emane.Base.Bytes.{Bytes}
use emane.Base.SortedMap
use emane.Base.SortedMap.{SortedMap, IsSorted, Above}
use emane.Base.SortedMap.Inserts.{AreDistinct, IsFresh}
use emane.Ota.Types.{usize_mod}
use emane.Ota.Reassembly.{scan}

-- Pieces that are not empty follow each other from `n` on.
abbrev pub IsCut : ℕ → SortedMap Bytes → Type 0
IsCut n [] = Unit {0}
IsCut n ((o, piece) ∷ m) = (o ≡ n) × ((0 < length piece) × IsCut (n + length piece) m)

abbrev pub size : List (ℕ × Bytes) → ℕ
size [] = 0
size ((o, piece) ∷ m) = length piece + size m

abbrev pub AreNonEmpty : List (ℕ × Bytes) → Type 0
AreNonEmpty [] = Unit {0}
AreNonEmpty ((o, piece) ∷ m) = (0 < length piece) × AreNonEmpty m

pub IsCut-AreNonEmpty : (n : ℕ) (m : SortedMap Bytes) → IsCut n m → AreNonEmpty m
IsCut-AreNonEmpty n [] c = tt
IsCut-AreNonEmpty n ((o, piece) ∷ m) c = (c.1.0, IsCut-AreNonEmpty (n + length piece) m c.1.1)

IsCut-Above : (k n : ℕ) (m : SortedMap Bytes) → k < n → IsCut n m → Above k m
IsCut-Above k n [] h c = tt
IsCut-Above k n ((o, piece) ∷ m) h c =
    (omega arith, IsCut-Above o (n + length piece) m (omega arith) c.1.1)

pub IsCut-IsSorted : (n : ℕ) (m : SortedMap Bytes) → IsCut n m → IsSorted m
IsCut-IsSorted n [] c = tt
IsCut-IsSorted n ((o, piece) ∷ m) c = IsCut-Above o (n + length piece) m (omega arith) c.1.1

Above-IsFresh : (k n : ℕ) (m : SortedMap Bytes) → k ≤ n → Above n m → IsFresh k m
Above-IsFresh k n [] h a = tt
Above-IsFresh k n ((j, v) ∷ m) h a = (omega arith, Above-IsFresh k j m (omega arith) a.1)

pub IsSorted-AreDistinct : (m : SortedMap Bytes) → IsSorted m → AreDistinct m
IsSorted-AreDistinct [] s = tt
IsSorted-AreDistinct ((k, v) ∷ []) s = (tt, tt)
IsSorted-AreDistinct ((k, v) ∷ (j, w) ∷ m) s =
    (Above-IsFresh k k ((j, w) ∷ m) (omega arith) s, IsSorted-AreDistinct ((j, w) ∷ m) s.1)

pub scan-IsCut :
    (t n : ℕ) (m : SortedMap Bytes)
    → IsCut n m
    → n + size m ≡ t
    → t < usize_mod
    → scan t n m ≡ (true, t)
unfolding scan
scan-IsCut t n [] c h u = ground arith
scan-IsCut t n ((o, piece) ∷ m) c h u = ground (arith, scan-IsCut t (n + length piece) m)

pub size-perm : {xs ys : List (ℕ × Bytes)} → Permᴰ xs ys → size xs ≡ size ys
size-perm Permᴰ.nil = refl
size-perm (Permᴰ.cons e p) = omega (arith, ap (λ x. length x.1) e, size-perm p)
size-perm (Permᴰ.swap e d) = omega (arith, ap (λ x. length x.1) e, ap (λ x. length x.1) d)
size-perm (Permᴰ.trans p q) = size-perm p ∙ size-perm q

pub AreNonEmpty-perm : {xs ys : List (ℕ × Bytes)} → Permᴰ xs ys → AreNonEmpty xs → AreNonEmpty ys
AreNonEmpty-perm Permᴰ.nil h = h
AreNonEmpty-perm (Permᴰ.cons e p) h = (subst (λ x. 0 < length x.1) e h.0, AreNonEmpty-perm p h.1)
AreNonEmpty-perm (Permᴰ.swap e d) h =
    (subst (λ x. 0 < length x.1) d h.1.0, (subst (λ x. 0 < length x.1) e h.0, h.1.1))
AreNonEmpty-perm (Permᴰ.trans p q) h = AreNonEmpty-perm q (AreNonEmpty-perm p h)

-- No offset of the pieces is among the keys.
abbrev pub AreAbsent : SortedMap Bytes → List (ℕ × Bytes) → Type 0
AreAbsent m [] = Unit {0}
AreAbsent m ((o, piece) ∷ es) = (SortedMap.lookup o m ≡ none) × AreAbsent m es

pub AreAbsent-insert :
    (k : ℕ) (v : Bytes) (m : SortedMap Bytes) (es : List (ℕ × Bytes))
    → IsFresh k es
    → AreAbsent m es
    → AreAbsent (SortedMap.insert k v m) es
AreAbsent-insert k v m [] f a = tt
AreAbsent-insert k v m ((o, piece) ∷ es) f a =
    (ground (arith, SortedMap.lookup-insert k o v m), AreAbsent-insert k v m es f.1 a.1)

pub AreAbsent-nil : (es : List (ℕ × Bytes)) → AreAbsent [] es
unfolding SortedMap.lookup
AreAbsent-nil [] = tt
AreAbsent-nil ((o, piece) ∷ es) = (refl, AreAbsent-nil es)
