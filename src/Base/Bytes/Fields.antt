-- ===== src/Base/Bytes/Fields.antt =====
-- Numbers at an offset of a byte string: `put_u16`, `get_u16` and their like, and `u64`.
-- A read that Rust would panic on, out of bounds, is 0: every caller checks the length before.
use emane.Base.{
  ℕ, zero, suc, ◌+◌, ◌*◌, ◌/◌, ◌%◌, ◌<◌, ◌≡◌, ap, [], ◌∷◌, ◌++◌, take, drop, drop-drop, sym, ap,
  arith,
}
use emane.Base.Bytes.{Bytes, be16, be32, from_be16, from_be32, from_be16-be16, from_be32-be32}

abbrev pub u64_mod : ℕ
u64_mod = 18446744073709551616

-- The high and the low word of 32 bits.
unfoldable pub be64 : ℕ → Bytes
unfolding be32
be64 n = be32 (n / 4294967296) ++ be32 (n % 4294967296)

abbrev pub zeros : ℕ → Bytes
zeros zero = []
zeros (suc n) = 0 ∷ zeros n

abbrev pub head16 : Bytes → ℕ
head16 (a ∷ b ∷ rest) = from_be16 a b
head16 _ = 0

abbrev pub head32 : Bytes → ℕ
head32 (a ∷ b ∷ c ∷ d ∷ rest) = from_be32 a b c d
head32 _ = 0

abbrev pub head64 : Bytes → ℕ
head64 (a ∷ b ∷ c ∷ d ∷ e ∷ f ∷ g ∷ h ∷ rest) = from_be32 a b c d * 4294967296 + from_be32 e f g h
head64 _ = 0

abbrev pub head : Bytes → ℕ
head (a ∷ rest) = a
head [] = 0

unfoldable pub get_u8 : Bytes → ℕ → ℕ
get_u8 input offset = head (drop offset input)

unfoldable pub get_u16 : Bytes → ℕ → ℕ
get_u16 input offset = head16 (drop offset input)

unfoldable pub get_u32 : Bytes → ℕ → ℕ
get_u32 input offset = head32 (drop offset input)

unfoldable pub get_u64 : Bytes → ℕ → ℕ
get_u64 input offset = head64 (drop offset input)

unfoldable pub put_u8 : Bytes → ℕ → ℕ → Bytes
put_u8 input offset value = take offset input ++ (value ∷ drop (offset + 1) input)

unfoldable pub put_u16 : Bytes → ℕ → ℕ → Bytes
put_u16 input offset value = take offset input ++ (be16 value ++ drop (offset + 2) input)

unfoldable pub put_u32 : Bytes → ℕ → ℕ → Bytes
put_u32 input offset value = take offset input ++ (be32 value ++ drop (offset + 4) input)

unfoldable pub put_u64 : Bytes → ℕ → ℕ → Bytes
put_u64 input offset value = take offset input ++ (be64 value ++ drop (offset + 8) input)

pub head16-be16 : (n : ℕ) (rest : Bytes) → n < 65536 → head16 (be16 n ++ rest) ≡ n
unfolding be16
head16-be16 n rest h = from_be16-be16 n h

pub head32-be32 : (n : ℕ) (rest : Bytes) → n < 4294967296 → head32 (be32 n ++ rest) ≡ n
unfolding be32
head32-be32 n rest h = from_be32-be32 n h

pub head64-be64 : (n : ℕ) (rest : Bytes) → n < u64_mod → head64 (be64 n ++ rest) ≡ n
unfolding be64 be32
head64-be64 n rest h = omega (
  arith,
  from_be32-be32 (n / 4294967296) (omega arith),
  from_be32-be32 (n % 4294967296) (omega arith),
)

pub get_u16-drop :
    (input : Bytes) (offset k : ℕ) → get_u16 input (offset + k) ≡ get_u16 (drop offset input) k
unfolding get_u16
get_u16-drop input offset k = ap head16 (sym (drop-drop k offset input))

pub get_u32-drop :
    (input : Bytes) (offset k : ℕ) → get_u32 input (offset + k) ≡ get_u32 (drop offset input) k
unfolding get_u32
get_u32-drop input offset k = ap head32 (sym (drop-drop k offset input))

pub get_u64-drop :
    (input : Bytes) (offset k : ℕ) → get_u64 input (offset + k) ≡ get_u64 (drop offset input) k
unfolding get_u64
get_u64-drop input offset k = ap head64 (sym (drop-drop k offset input))
