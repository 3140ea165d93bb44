-- ===== src/Api/RxAntenna.antt =====
-- `RxAntennaAdd`, which is also the message of an update.
use emane.Base.{
  ℕ, ◌*◌, ◌<◌, ◌≡◌, sym, ap, subst, ◌∙◌, Bool, true, false, not, ◌&&◌, ◌||◌, Option, none, some,
  List, [], ◌∷◌, ◌++◌, length, length-append, ltb, ◌==◌, if◌then◌else◌, arith,
}
use mathlib.Core.List.{append-nil}
use emane.Base.Bytes.{Bytes, be16, be32}
use emane.Base.Bytes.Fields.{u64_mod, be64, head16-be16, head64-be64}
use emane.Api.{Floats, properties_version, u16_mod, otherwise-some}
use emane.Api.Interest.{contains_zero, length-be64}
use emane.Api.Pattern.{
  MimoTxAntenna, pattern_bytes, is_good_pattern, encode_pattern, read_pattern, PatternFits,
  read_pattern-pattern_bytes,
}
use emane.Api.Cursor.{
  Reader, ◌>>=◌, read_u16, read_u64, read_many, Cursor, write_many, AllFit, read_many-write_many,
  read_u16-be16, read_u64-be64, bind-some, when-some,
}

pub record RxAntennaAdd : Type 0 where
  pub antenna : MimoTxAntenna
  pub frequencies_hz : List ℕ

unfoldable pub u64_cursor : Cursor ℕ
u64_cursor = record {
  bytes = be64;
  read = read_u64;
  Fits = λ n. n < u64_mod;
  read-bytes = read_u64-be64;
}

abbrev add_bytes : RxAntennaAdd → Bytes → Bytes
add_bytes m pattern =
    properties_version
    ∷ (be16 m.antenna.antenna_index
        ++ (be64 m.antenna.bandwidth_hz
            ++ (be16 m.antenna.spectral_mask_index
                ++ (pattern
                    ++ (be16 (length m.frequencies_hz)
                        ++ write_many u64_cursor m.frequencies_hz)))))

unfoldable pub is_refused_add : RxAntennaAdd → Bool
is_refused_add m =
    ltb 65535 (length m.frequencies_hz)
    || (length m.frequencies_hz == 0)
    || (m.antenna.bandwidth_hz == 0)
    || contains_zero m.frequencies_hz

unfoldable pub encode_rx_antenna_add : Floats → RxAntennaAdd → Option Bytes
encode_rx_antenna_add F m =
    if is_refused_add m
    then none
    else (encode_pattern F m.antenna.pattern >>= λ pattern. some (add_bytes m pattern))

-- What stands before the frequencies, without a frequency group.
unfoldable pub read_rx_antenna : Floats → Reader MimoTxAntenna
read_rx_antenna F input = read_u16 input >>= λ index. read_u64 index.1 >>= λ bandwidth.
    read_u16 bandwidth.1 >>= λ mask. read_pattern F mask.1 >>= λ pattern. some (
      record {
        frequency_group_index = 0;
        antenna_index = index.0;
        bandwidth_hz = bandwidth.0;
        spectral_mask_index = mask.0;
        pattern = pattern.0;
      },
      pattern.1,
    )

unfoldable pub read_frequencies : MimoTxAntenna → Bytes → Option RxAntennaAdd
read_frequencies antenna input = read_u16 input >>= λ count.
    if (count.0 == 0) || not (length count.1 == count.0 * 8)
    then none
    else (read_many read_u64 count.0 count.1 >>= λ frequencies.
        if not (antenna.bandwidth_hz == 0) && not (contains_zero frequencies.0)
        then some (record { antenna = antenna; frequencies_hz = frequencies.0 })
        else none)

unfoldable pub decode_rx_antenna_add : Floats → Bytes → Option RxAntennaAdd
decode_rx_antenna_add F [] = none
decode_rx_antenna_add F (version ∷ input) =
    if not (version == properties_version)
    then none
    else (read_rx_antenna F input >>= λ antenna. read_frequencies antenna.0 antenna.1)

abbrev pub RxAntennaAddFits : RxAntennaAdd → Type 0
RxAntennaAddFits m =
    (m.antenna.frequency_group_index ≡ 0)
    × (m.antenna.antenna_index < u16_mod)
    × (m.antenna.bandwidth_hz < u64_mod)
    × (m.antenna.spectral_mask_index < u16_mod)
    × PatternFits m.antenna.pattern
    × AllFit u64_cursor m.frequencies_hz

read_rx_antenna-bytes :
    (F : Floats) (a : MimoTxAntenna) (rest : Bytes)
    → a.frequency_group_index ≡ 0
    → a.antenna_index < u16_mod
    → a.bandwidth_hz < u64_mod
    → a.spectral_mask_index < u16_mod
    → PatternFits a.pattern
    → is_good_pattern F a.pattern ≡ true
    → read_rx_antenna F (
        be16 a.antenna_index
        ++ (be64 a.bandwidth_hz
            ++ (be16 a.spectral_mask_index ++ (pattern_bytes a.pattern ++ rest))))
      ≡ some (a, rest)
unfolding read_rx_antenna read_u16 read_u64 be64 be32 be16
read_rx_antenna-bytes F a rest z i b k f g =
    let e1 = head16-be16 a.antenna_index [] i in
    let e2 = head64-be64 a.bandwidth_hz [] b in
    let e3 = head16-be16 a.spectral_mask_index [] k in
    let e4 = read_pattern-pattern_bytes F a.pattern rest f g in cc

length-frequencies : (ns : List ℕ) → length (write_many u64_cursor ns) ≡ length ns * 8
unfolding write_many u64_cursor
length-frequencies [] = omega arith
length-frequencies (n ∷ ns) =
    ground (
      arith,
      length-append (be64 n) (write_many u64_cursor ns),
      length-be64 n,
      length-frequencies ns,
    )

read_frequencies-bytes :
    (m : RxAntennaAdd)
    → is_refused_add m ≡ false
    → AllFit u64_cursor m.frequencies_hz
    → read_frequencies m.antenna
        (be16 (length m.frequencies_hz) ++ write_many u64_cursor m.frequencies_hz)
      ≡ some m
unfolding read_frequencies is_refused_add u64_cursor
read_frequencies-bytes m fine fit =
    let tail : Bytes = write_many u64_cursor m.frequencies_hz in
    let items : read_many read_u64 (length m.frequencies_hz) tail ≡ some (m.frequencies_hz, []) =
      ap (read_many read_u64 (length m.frequencies_hz)) (sym (append-nil tail))
      ∙ read_many-write_many u64_cursor m.frequencies_hz [] fit in
    rw (read_u16-be16 (length m.frequencies_hz) tail (ground arith))
      (rw items (ground (arith, length-frequencies m.frequencies_hz)))

-- An antenna whose frequency group is 0 and that `encode` accepts, all of whose numbers are within
-- their types, is read back by `decode`.
pub decode-encode_rx_antenna_add :
    (F : Floats) (m : RxAntennaAdd) (encoded : Bytes)
    → RxAntennaAddFits m
    → encode_rx_antenna_add F m ≡ some encoded
    → decode_rx_antenna_add F encoded ≡ some m
unfolding encode_rx_antenna_add decode_rx_antenna_add encode_pattern
decode-encode_rx_antenna_add F m encoded f e =
    let (fine, e0) = otherwise-some (is_refused_add m) e in
    let (pattern, e1, e2) = bind-some (encode_pattern F m.antenna.pattern) _ e0 in
    let (good, shape) = when-some (is_good_pattern F m.antenna.pattern) e1 in
    let tail : Bytes = be16 (length m.frequencies_hz) ++ write_many u64_cursor m.frequencies_hz in
    let whole : add_bytes m (pattern_bytes m.antenna.pattern) ≡ encoded = cc in
    subst (λ b. decode_rx_antenna_add F b ≡ some m) whole
      (rw (read_rx_antenna-bytes F m.antenna tail f.0 f.1 f.2 f.3 f.4 good)
        (read_frequencies-bytes m fine f.5))
