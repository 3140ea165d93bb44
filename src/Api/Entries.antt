-- ===== src/Api/Entries.antt =====
-- Messages that are a count and that many entries of the same length, read by their index.
use emane.Base.{
  ℕ, zero, suc, ◌+◌, ◌*◌, ◌<◌, ◌≡◌, refl, sym, ap, subst, ◌∙◌, Bool, false, not, ◌||◌, Option, none,
  some, List, [], ◌∷◌, ◌++◌, length, drop, drop-drop, drop-append_length, length-append, ltb, ◌==◌,
  if◌then◌else◌, arith,
}
use emane.Base.Bytes.{Bytes, be16, from_be16-be16}
use emane.Base.Bytes.Fields.{get_u8, get_u16}
use emane.Api.{properties_version, u16_mod, unless-some}
use mathlib.Core.List.{append_assoc, append-nil}

-- How an entry is written and read: what a table needs of it.
pub record Entry {ℓ} (A : Type ℓ) : Type (ℓ ⊔ 1) where
  pub size : ℕ
  pub bytes : A → Bytes
  pub read : Bytes → ℕ → A
  pub Fits : A → Type 0
  pub length-bytes : (a : A) → length (bytes a) ≡ size
  pub read-drop : (input : Bytes) (offset : ℕ) → read input offset ≡ read (drop offset input) 0
  pub read-bytes : (a : A) (rest : Bytes) → Fits a → read (bytes a ++ rest) 0 ≡ a

module _ {ℓ} {A : Type ℓ} (entry : Entry A) where
  unfoldable pub entries : List A → Bytes
  entries [] = []
  entries (item ∷ items) = entry.bytes item ++ entries items

  -- `(index..index + count).map`, with the offset of each index.
  unfoldable pub read_entries : Bytes → ℕ → ℕ → ℕ → List A
  read_entries input start index zero = []
  read_entries input start index (suc count) =
      entry.read input (start + index * entry.size) ∷ read_entries input start (suc index) count

  abbrev pub AllFit : List A → Type 0
  AllFit [] = Unit {0}
  AllFit (item ∷ items) = entry.Fits item × AllFit items

  pub length-entries : (items : List A) → length (entries items) ≡ length items * entry.size
  unfolding entries
  length-entries [] = omega arith
  length-entries (item ∷ items) = ground (
    arith,
    length-append (entry.bytes item) (entries items),
    entry.length-bytes item,
    length-entries items,
  )

  pub read_entries-entries :
      (items : List A) (input rest : Bytes) (start index : ℕ)
      → AllFit items
      → drop (start + index * entry.size) input ≡ entries items ++ rest
      → read_entries input start index (length items) ≡ items
  unfolding entries read_entries
  read_entries-entries [] input rest start index f e = refl
  read_entries-entries (item ∷ items) input rest start index f e =
      let here : ℕ = start + index * entry.size in
      let there : drop here input ≡ entry.bytes item ++ (entries items ++ rest) =
        e ∙ append_assoc (entry.bytes item) (entries items) rest in
      let after : drop (start + suc index * entry.size) input ≡ entries items ++ rest =
        ap (λ n. drop n input) (omega arith)
        ∙ sym (drop-drop entry.size here input)
        ∙ ap (drop entry.size) there
        ∙ drop-append_length entry.size (entry.bytes item) (entries items ++ rest)
            (sym (entry.length-bytes item)) in
      let first : entry.read input here ≡ item =
        entry.read-drop input here
        ∙ ap (λ x. entry.read x 0) there
        ∙ entry.read-bytes item (entries items ++ rest) f.0 in
      ap (λ x. x ∷ read_entries input start (suc index) (length items)) first
      ∙ ap (◌∷◌ item) (read_entries-entries items input rest start (suc index) f.1 after)

  -- A table: the version, the count of 16 bits and the entries. It has `least` entries or more, none
  -- of them a bad one. The product of a count and a size does not overflow.
  unfoldable pub any_bad : (A → Bool) → List A → Bool
  any_bad bad [] = false
  any_bad bad (item ∷ items) = bad item || any_bad bad items

  unfoldable pub table_bytes : List A → Bytes
  table_bytes items = properties_version ∷ (be16 (length items) ++ entries items)

  unfoldable pub encode_table : ℕ → (A → Bool) → List A → Option Bytes
  encode_table least bad items =
      if ltb 65535 (length items) || ltb (length items) least || any_bad bad items
      then none
      else some (table_bytes items)

  unfoldable pub read_table : Bytes → List A
  read_table input = read_entries input 3 0 (get_u16 input 1)

  unfoldable pub decode_table : ℕ → (A → Bool) → Bytes → Option (List A)
  decode_table least bad input =
      if ltb (length input) 3 || not (get_u8 input 0 == properties_version)
      then none
      else (if ltb (get_u16 input 1) least || not (length input == 3 + get_u16 input 1 * entry.size)
          then none
          else (if any_bad bad (read_table input) then none else some (read_table input)))

  -- What is read of a table's bytes.
  table_bytes-read :
      (items : List A)
      → length items < u16_mod
      → (get_u8 (table_bytes items) 0 ≡ properties_version)
        × (get_u16 (table_bytes items) 1 ≡ length items)
        × (length (table_bytes items) ≡ 3 + length items * entry.size)
  unfolding table_bytes get_u8 get_u16 be16
  table_bytes-read items h =
      (refl, from_be16-be16 (length items) h, ground (arith, length-entries items))

  drop-table_bytes :
      (items : List A) → drop (3 + 0 * entry.size) (table_bytes items) ≡ entries items ++ []
  unfolding table_bytes be16
  drop-table_bytes items =
      let start : 3 + 0 * entry.size ≡ 3 = omega arith in
      ap (λ n. drop n (table_bytes items)) start ∙ sym (append-nil (entries items))

  read_table-table_bytes :
      (items : List A)
      → length items < u16_mod
      → AllFit items
      → read_table (table_bytes items) ≡ items
  unfolding read_table
  read_table-table_bytes items h f =
      ap (read_entries (table_bytes items) 3 0) (table_bytes-read items h).1
      ∙ read_entries-entries items (table_bytes items) [] 3 0 f (drop-table_bytes items)

  -- Whatever entries `encode_table` accepts, all of whose numbers are within their types,
  -- `decode_table` reads from its bytes.
  pub decode_table-encode_table :
      (least : ℕ) (bad : A → Bool) (items : List A) (encoded : Bytes)
      → AllFit items
      → encode_table least bad items ≡ some encoded
      → decode_table least bad encoded ≡ some items
  unfolding encode_table decode_table
  decode_table-encode_table least bad items encoded f e =
      let (fine, shape) =
        unless-some (ltb 65535 (length items) || ltb (length items) least || any_bad bad items) e in
      let (version, count, size) = table_bytes-read items (ground arith) in
      let same = read_table-table_bytes items (ground arith) f in
      subst (λ b. decode_table least bad b ≡ some items) shape (rw same (ground arith))
