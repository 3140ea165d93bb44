-- ===== src/Api/Cursor.antt =====
-- `read_u16` and `read_u64` and what is read by them. In place of the offset, a reader is given the bytes
-- from it on, and gives back those after what it read; the offset never runs past the end.
use emane.Base.{
  ℕ, zero, suc, ◌+◌, ◌*◌, ◌<◌, ◌≡◌, refl, ap, ◌∙◌, Option, none, some, List, [], ◌∷◌, ◌++◌, length,
  Bool, true, false, if◌then◌else◌,
}
use mathlib.Core.List.{append_assoc}
use emane.Base.Bytes.{Bytes, be16, be32, from_be16, from_be32}
use emane.Base.Bytes.Fields.{u64_mod, be64, head16-be16, head64-be64}
use emane.Api.{u16_mod}

abbrev pub Reader {ℓ} : Type ℓ → Type ℓ
Reader A = Bytes → Option (A × Bytes)

infixl 5 ◌>>=◌
abbrev pub ◌>>=◌ {ℓ κ} : {A : Type ℓ} {B : Type κ} → Option A → (A → Option B) → Option B
none >>= next = none
some a >>= next = next a

unfoldable pub read_u8 : Reader ℕ
read_u8 [] = none
read_u8 (a ∷ rest) = some (a, rest)

unfoldable pub read_u16 : Reader ℕ
read_u16 (a ∷ b ∷ rest) = some (from_be16 a b, rest)
read_u16 _ = none

unfoldable pub read_u64 : Reader ℕ
read_u64 (a ∷ b ∷ c ∷ d ∷ e ∷ f ∷ g ∷ h ∷ rest) =
    some (from_be32 a b c d * 4294967296 + from_be32 e f g h, rest)
read_u64 _ = none

-- How something is written and read one after the other.
pub record Cursor {ℓ} (A : Type ℓ) : Type (ℓ ⊔ 1) where
  pub bytes : A → Bytes
  pub read : Reader A
  pub Fits : A → Type 0
  pub read-bytes : (a : A) (rest : Bytes) → Fits a → read (bytes a ++ rest) ≡ some (a, rest)

module _ {ℓ} {A : Type ℓ} where
  -- `count` of them, one after the other.
  unfoldable pub read_many : Reader A → ℕ → Reader (List A)
  read_many read zero input = some ([], input)
  read_many read (suc count) input = read input >>= λ found.
      read_many read count found.1 >>= λ more. some (found.0 ∷ more.0, more.1)

module _ {ℓ} {A : Type ℓ} (cursor : Cursor A) where
  unfoldable pub write_many : List A → Bytes
  write_many [] = []
  write_many (a ∷ items) = cursor.bytes a ++ write_many items

  abbrev pub AllFit : List A → Type 0
  AllFit [] = Unit {0}
  AllFit (a ∷ items) = cursor.Fits a × AllFit items

  pub read_many-write_many :
      (items : List A) (rest : Bytes)
      → AllFit items
      → read_many cursor.read (length items) (write_many items ++ rest) ≡ some (items, rest)
  unfolding read_many write_many
  read_many-write_many [] rest f = refl
  read_many-write_many (a ∷ items) rest f =
      let first : cursor.read ((cursor.bytes a ++ write_many items) ++ rest)
          ≡ some (a, write_many items ++ rest) =
        ap cursor.read (append_assoc (cursor.bytes a) (write_many items) rest)
        ∙ cursor.read-bytes a (write_many items ++ rest) f.0 in
      ap
        (λ o. o >>= λ found.
          read_many cursor.read (length items) found.1 >>= λ more. some (found.0 ∷ more.0, more.1))
        first
      ∙ ap (λ o. o >>= λ more. some (a ∷ more.0, more.1)) (read_many-write_many items rest f.1)

-- The numbers.
pub read_u16-be16 :
    (n : ℕ) (rest : Bytes) → n < u16_mod → read_u16 (be16 n ++ rest) ≡ some (n, rest)
unfolding read_u16 be16
read_u16-be16 n rest h = ap (λ k. some (k, rest)) (head16-be16 n [] h)

pub read_u64-be64 :
    (n : ℕ) (rest : Bytes) → n < u64_mod → read_u64 (be64 n ++ rest) ≡ some (n, rest)
unfolding read_u64 be64 be32
read_u64-be64 n rest h = ap (λ k. some (k, rest)) (head64-be64 n [] h)

pub bind-some {ℓ κ} :
    {A : Type ℓ} {B : Type κ} (first : Option A) (next : A → Option B) {b : B}
    → (first >>= next) ≡ some b
    → (a : A) × (first ≡ some a) × (next a ≡ some b)
bind-some (some a) next e = (a, refl, e)
bind-some none next e = cc

pub when-some {ℓ} :
    {A : Type ℓ} (good : Bool) {x y : A}
    → (if good then some x else none) ≡ some y
    → (good ≡ true) × (x ≡ y)
when-some true e = (refl, cc)
when-some false e = cc
