-- ===== src/Api/Interest.antt =====
-- `FrequencyOfInterest`.
use emane.Base.{
  ℕ, ◌+◌, ◌*◌, ◌<◌, ◌≡◌, refl, sym, subst, Bool, false, not, ◌&&◌, ◌||◌, Option, none, some, List,
  [], ◌∷◌, ◌++◌, length, drop, ltb, ◌==◌, if◌then◌else◌, arith,
}
use emane.Base.Bytes.{Bytes, be16, be32, from_be16-be16}
use emane.Base.Bytes.Fields.{u64_mod, be64, get_u8, get_u16, get_u64, head64-be64}
use emane.Api.{properties_version, u16_mod, unless-some}
use emane.Api.Entries.{Entry, entries, read_entries, AllFit, length-entries, read_entries-entries}
use mathlib.Core.List.{append-nil}

pub record FrequencyOfInterest : Type 0 where
  pub bandwidth_hz : ℕ
  pub frequencies_hz : List ℕ

pub length-be64 : (n : ℕ) → length (be64 n) ≡ 8
unfolding be64 be32
length-be64 n = refl

pub get_u64-drop_all :
    (input : Bytes) (offset : ℕ) → get_u64 input offset ≡ get_u64 (drop offset input) 0
unfolding get_u64
get_u64-drop_all input offset = refl

pub get_u64-be64 : (n : ℕ) (rest : Bytes) → n < u64_mod → get_u64 (be64 n ++ rest) 0 ≡ n
unfolding get_u64
get_u64-be64 n rest h = head64-be64 n rest h

-- An entry that is one number of 64 bits.
unfoldable pub u64_entry : Entry ℕ
u64_entry = record {
  size = 8;
  bytes = be64;
  read = get_u64;
  Fits = λ n. n < u64_mod;
  length-bytes = length-be64;
  read-drop = get_u64-drop_all;
  read-bytes = get_u64-be64;
}

unfoldable pub contains_zero : List ℕ → Bool
contains_zero [] = false
contains_zero (n ∷ ns) = (n == 0) || contains_zero ns

unfoldable pub interest_bytes : FrequencyOfInterest → Bytes
interest_bytes m =
    properties_version
    ∷ (be16 (length m.frequencies_hz)
        ++ (be64 m.bandwidth_hz ++ entries u64_entry m.frequencies_hz))

unfoldable pub encode_frequency_of_interest : FrequencyOfInterest → Option Bytes
encode_frequency_of_interest m =
    if ltb 65535 (length m.frequencies_hz)
      || (m.bandwidth_hz == 0)
      || (length m.frequencies_hz == 0)
      || contains_zero m.frequencies_hz
    then none
    else some (interest_bytes m)

unfoldable pub read_interest : Bytes → FrequencyOfInterest
read_interest input = record {
  bandwidth_hz = get_u64 input 3;
  frequencies_hz = read_entries u64_entry input 11 0 (get_u16 input 1);
}

unfoldable pub decode_frequency_of_interest : Bytes → Option FrequencyOfInterest
decode_frequency_of_interest input =
    if ltb (length input) 19 || not (get_u8 input 0 == properties_version)
    then none
    else (if (get_u16 input 1 == 0) || not (length input == 11 + get_u16 input 1 * 8)
        then none
        else (if not ((read_interest input).bandwidth_hz == 0)
              && not (contains_zero (read_interest input).frequencies_hz)
            then some (read_interest input)
            else none))

abbrev pub FrequencyOfInterestFits : FrequencyOfInterest → Type 0
FrequencyOfInterestFits m = (m.bandwidth_hz < u64_mod) × AllFit u64_entry m.frequencies_hz

interest_bytes-read :
    (m : FrequencyOfInterest)
    → length m.frequencies_hz < u16_mod
    → m.bandwidth_hz < u64_mod
    → (get_u8 (interest_bytes m) 0 ≡ properties_version)
      × (get_u16 (interest_bytes m) 1 ≡ length m.frequencies_hz)
      × (get_u64 (interest_bytes m) 3 ≡ m.bandwidth_hz)
      × (length (interest_bytes m) ≡ 11 + length m.frequencies_hz * 8)
unfolding interest_bytes get_u8 get_u16 get_u64 be16 be64 be32 u64_entry
interest_bytes-read m h k = (
  refl,
  from_be16-be16 (length m.frequencies_hz) h,
  head64-be64 m.bandwidth_hz [] k,
  ground (arith, length-entries u64_entry m.frequencies_hz),
)

drop-interest_bytes :
    (m : FrequencyOfInterest)
    → drop 11 (interest_bytes m) ≡ entries u64_entry m.frequencies_hz ++ []
unfolding interest_bytes be16 be64 be32
drop-interest_bytes m = sym (append-nil (entries u64_entry m.frequencies_hz))

read_interest-interest_bytes :
    (m : FrequencyOfInterest)
    → length m.frequencies_hz < u16_mod
    → FrequencyOfInterestFits m
    → read_interest (interest_bytes m) ≡ m
unfolding read_interest u64_entry interest_bytes
read_interest-interest_bytes m h f =
    let (version, count, bandwidth, size) = interest_bytes-read m h f.0 in
    let start : drop (11 + 0 * u64_entry.size) (interest_bytes m)
        ≡ entries u64_entry m.frequencies_hz ++ [] =
      drop-interest_bytes m in
    let items =
      read_entries-entries u64_entry m.frequencies_hz (interest_bytes m) [] 11 0 f.1 start in
    rw bandwidth (rw count (rw items))

pub decode-encode_frequency_of_interest :
    (m : FrequencyOfInterest) (encoded : Bytes)
    → FrequencyOfInterestFits m
    → encode_frequency_of_interest m ≡ some encoded
    → decode_frequency_of_interest encoded ≡ some m
unfolding encode_frequency_of_interest decode_frequency_of_interest
decode-encode_frequency_of_interest m encoded f e =
    let (fine, shape) =
      unless-some
        (ltb 65535 (length m.frequencies_hz)
          || (m.bandwidth_hz == 0)
          || (length m.frequencies_hz == 0)
          || contains_zero m.frequencies_hz)
        e in
    let (version, count, bandwidth, size) = interest_bytes-read m (ground arith) f.0 in
    let same = read_interest-interest_bytes m (ground arith) f in
    subst (λ b. decode_frequency_of_interest b ≡ some m) shape (rw same (ground arith))
